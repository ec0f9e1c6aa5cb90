-- ===== src/MaxScore/Split.antt =====
-- The move of first_lookup keeps the cursors and the invariant.
use mathlib.Core.List.{append_assoc}
use anytime_daat.Prelude.{
  ℕ, zero, suc, ◌≤◌, ◌≡◌, refl, ap, sym, ◌∙◌, List, [], ◌∷◌, ◌++◌, false, All, All-append, take,
  drop, length, take-append-drop, arith,
}
use anytime_daat.Topk.{would_enter}
use anytime_daat.Cursor.Valid.{IsValid}
use anytime_daat.Cursor.Lists.{total_max_score}
use anytime_daat.MaxScore.{State, calc_upper_bounds, update_non_essential_lists, split_at}
use anytime_daat.MaxScore.Document.{whole, Inv, update-refused}

module _ {ℓ κ} {A : Type ℓ} (P : A → Type κ) where
  All-take : (n : ℕ) (xs : List A) → All P xs → All P (take n xs)
  All-take zero xs h = tt
  All-take (suc n) [] h = tt
  All-take (suc n) (x ∷ xs) h = (h.0, All-take n xs h.1)

  All-drop : (n : ℕ) (xs : List A) → All P xs → All P (drop n xs)
  All-drop zero xs h = h
  All-drop (suc n) [] h = tt
  All-drop (suc n) (x ∷ xs) h = All-drop n xs h.1

module _ {ℓ} {A : Type ℓ} where
  drop-append : (n : ℕ) (xs ys : List A) → n ≤ length xs → drop n (xs ++ ys) ≡ drop n xs ++ ys
  drop-append zero xs ys h = refl
  drop-append (suc n) [] ys h = absurd (omega arith)
  drop-append (suc n) (x ∷ xs) ys h = drop-append n xs ys (omega arith)

  drop-length : (xs : List A) → drop (length xs) xs ≡ []
  drop-length [] = refl
  drop-length (x ∷ xs) = drop-length xs

pub whole-split_at : (i : ℕ) (s : State) → whole (split_at i s) ≡ whole s
unfolding split_at
whole-split_at i s =
    sym (append_assoc (take i s.essential) (drop i s.essential) s.lookup)
    ∙ ap (λ t. t ++ s.lookup) (take-append-drop i s.essential)

-- Where first_lookup comes to stand.
abbrev pub new_lookup : List ℕ → State → ℕ
new_lookup upper_bounds s = update_non_essential_lists s.topk upper_bounds (length s.essential)

module _ (end : ℕ) (upper_bounds : List ℕ) (s : State) (inv : Inv end upper_bounds s) where
  updated :
      (new_lookup upper_bounds s ≤ length s.essential)
      × (would_enter s.topk (total_max_score (drop (new_lookup upper_bounds s) (whole s))) ≡ false)
  updated =
      rw inv.bounds
        (update-refused s.topk (whole s) (length s.essential) (rw (lookup_behind) inv.refused))
    where
      lookup_behind : drop (length s.essential) (whole s) ≡ s.lookup
      lookup_behind =
          drop-append (length s.essential) s.essential s.lookup (omega arith)
          ∙ ap (λ t. t ++ s.lookup) (drop-length s.essential)

  pub split-Inv : Inv end upper_bounds (split_at (new_lookup upper_bounds s) s)
  split-Inv =
      let i = new_lookup upper_bounds s in
      let (le, refused) = updated in
      record {
        valid_essential =
            unfold split_at in All-take (IsValid end) i s.essential inv.valid_essential;
        valid_lookup =
            unfold split_at in
            All-append (IsValid end) _ _ (All-drop (IsValid end) i s.essential inv.valid_essential)
              inv.valid_lookup;
        above = unfold split_at in All-take _ i s.essential inv.above;
        refused = unfold split_at in rw (drop-append i s.essential s.lookup le) at refused;
        bounds = inv.bounds ∙ ap calc_upper_bounds (sym (whole-split_at i s));
        sound = unfold split_at in inv.sound;
      }

  -- At the first position no document can enter any more.
  pub split_none :
      new_lookup upper_bounds s ≡ 0 → would_enter s.topk (total_max_score (whole s)) ≡ false
  split_none e = rw e at (updated.1)
