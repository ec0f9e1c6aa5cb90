-- ===== src/BlockMaxWand/Round.antt =====
-- One round of the loop: it keeps the invariant and the ranking, and takes a posting at least.
use native.Mathlib.Decide.{dec_le}
use native.Mathlib.Nat.{le_trans}
use anytime_daat.Prelude.{
  ℕ, suc, ◌+◌, ◌≤◌, ◌<◌, ◌≡◌, refl, sym, ◌∙◌, inl, inr, List, [], ◌∷◌, true, false, All, All-mono,
  All-Permᴰ, Permᴰ, Permᴰ-refl, Permᴰ-symm, length, take, drop, leb, ltb, ◌==◌, Bool-cases, arith,
  if◌then◌else◌,
}
use anytime_daat.Topk.{Topk, would_enter, insert}
use anytime_daat.Topk.Order.{IsSound}
use anytime_daat.Topk.Insert.{would_enter-insert}
use anytime_daat.Rank.{rank, rank_skip, rank_cong, rank_refused, would_enter_mono}
use anytime_daat.Cursor.{Cursor, docid}
use anytime_daat.Cursor.Valid.{IsValid, gives}
use anytime_daat.Cursor.Lists.{
  IsSorted, doc_score, total_remaining, SameLists, bubble, bubble-Permᴰ, bubble-IsSorted,
}
use anytime_daat.Wand.{docid_at, next_list, advance_by}
use anytime_daat.Wand.Advanced.{
  Advanced, advance_by-Advanced, All-advance_by, docid_at_mono, next_list_found,
}
use anytime_daat.BlockMaxWand.{block_weight, block_upper_bound, bubble_past, heaviest, skip_to}
use anytime_daat.BlockMaxWand.Blocks.{Blocked, Blocked-mono, Blocked-next_geq}
use anytime_daat.BlockMaxWand.Pivot.{LastAt, Enters, skip_to-lt, skip_to-refused}

bubble_past-Permᴰ : (c : Cursor) (cs : List Cursor) → Permᴰ (bubble_past c cs) (c ∷ cs)
unfolding bubble_past
bubble_past-Permᴰ c [] = Permᴰ-refl (c ∷ [])
bubble_past-Permᴰ c (e ∷ es) = elim (Bool-cases (leb (docid e) (docid c))) [
  | inl h ↦ rw h (Permᴰ.trans (Permᴰ.cons refl (bubble_past-Permᴰ c es)) (Permᴰ.swap refl refl))
  | inr h ↦ rw h (Permᴰ-refl (c ∷ e ∷ es))
]

bubble_past-IsSorted : (c : Cursor) (cs : List Cursor) → IsSorted cs → IsSorted (bubble_past c cs)
unfolding bubble_past
bubble_past-IsSorted c [] s = (tt, tt)
bubble_past-IsSorted c (e ∷ es) (h, s) = elim (Bool-cases (leb (docid e) (docid c))) [
  | inl p ↦
      let above =
        All-Permᴰ (λ x. docid e ≤ docid x) (Permᴰ-symm (bubble_past-Permᴰ c es))
          (ground (arith, p), h) in
      rw p (above, bubble_past-IsSorted c es s)
  | inr p ↦
      let le : docid c ≤ docid e = ground (arith, p) in
      rw p ((le, All-mono (λ x k. le_trans le k) es h), (h, s))
]

pub heaviest-le :
    (m best weight i : ℕ) (cs : List Cursor)
    → best ≤ m
    → i + length cs ≤ m
    → heaviest best weight i cs ≤ m
unfolding heaviest
heaviest-le m best weight i [] h k = h
heaviest-le m best weight i (c ∷ cs) h k =
    let greater = ltb weight c.max_score in
    let best' : (if greater then i else best) ≤ m = ground arith in
    heaviest-le m (if greater then i else best) (if greater then c.max_score else weight) (suc i) cs
      best' (omega arith)

-- What holds at the head of the loop.
pub record Inv (end : ℕ) (cs : List Cursor) (q : Topk) : Type 0 where
  pub valid : All (IsValid end) cs
  pub sorted : IsSorted cs
  pub blocked : All (Blocked (Enters q cs)) cs
  pub sound : IsSound q

-- From the state `cs`, `q` to the state `r` the ranking of the range stays the same.
pub record Kept (end : ℕ) (cs : List Cursor) (q : Topk) (r : List Cursor × Topk) : Type 0 where
  pub inv : Inv end r.0 r.1
  pub same : SameLists r.0 cs
  pub ranks : rank (doc_score cs) 0 end q ≡ rank (doc_score r.0) 0 end r.1
  pub fewer : total_remaining r.0 < total_remaining cs

-- Fewer documents can enter, so the blocks fit them.
pub Blocked-fewer :
    (cs ds : List Cursor) (q r : Topk)
    → ((d : ℕ) → Enters r ds d → Enters q cs d)
    → (xs : List Cursor) → All (Blocked (Enters q cs)) xs
    → All (Blocked (Enters r ds)) xs
Blocked-fewer cs ds q r h = All-mono (Blocked-mono (Enters q cs) (Enters r ds) h)

pub would_enter_lower :
    (q : Topk) (s t : ℕ) → s ≤ t → would_enter q s ≡ true → would_enter q t ≡ true
would_enter_lower q s t le h = elim (Bool-cases (would_enter q t)) [
  | inl e ↦ e
  | inr e ↦ cc (would_enter_mono q s t le e)
]

pub would_enter_before :
    (q : Topk) (s d t : ℕ)
    → IsSound q
    → would_enter (insert q s d) t ≡ true
    → would_enter q t ≡ true
would_enter_before q s d t v h = elim (Bool-cases (would_enter q t)) [
  | inl e ↦ e
  | inr e ↦ cc (would_enter-insert q s d t v e)
]

-- A cursor moves up to `to`, and the documents before it cannot enter.
module _ (end to : ℕ) (cs ds : List Cursor) (q : Topk) (a : Advanced end to cs ds)
    (refused : (d : ℕ) → d < to → would_enter q (doc_score cs d) ≡ false) where
  refused_later : (d : ℕ) → d < to → would_enter q (doc_score ds d) ≡ false
  refused_later d h = would_enter_mono q _ _ (a.lower d) (refused d h)

  advanced-ranks : rank (doc_score cs) 0 end q ≡ rank (doc_score ds) 0 end q
  advanced-ranks = elim (dec_le to end) [
    | yes le ↦
        rank_skip (doc_score cs) 0 end q to (omega arith) le (λ d _ b. refused d b)
        ∙ rank_cong (doc_score cs) to end q (doc_score ds) (λ d b _. sym (a.kept d b))
        ∙ sym (rank_skip (doc_score ds) 0 end q to (omega arith) le (λ d _ b. refused_later d b))
    | no gt ↦
        rank_refused (doc_score cs) 0 end q (λ d _ b. refused d (omega arith))
        ∙ sym (rank_refused (doc_score ds) 0 end q (λ d _ b. refused_later d (omega arith)))
  ]

  advanced-Kept : Inv end cs q → All (Blocked (Enters q cs)) ds → Kept end cs q (ds, q)
  advanced-Kept inv b = record {
    inv = record {
      valid = a.valid;
      sorted = a.sorted;
      blocked = Blocked-fewer cs ds q q (λ d h. would_enter_lower q _ _ (a.lower d) h) ds b;
      sound = inv.sound;
    };
    same = a.same;
    ranks = advanced-ranks;
    fewer = a.fewer;
  }

-- The rounds over cursors whose blocks were moved to the pivot's document `p`; `pivot` is the last
-- cursor there.
module _ (end p pivot : ℕ) (cs : List Cursor) (q : Topk) (inv : Inv end cs q) (inside : p < end)
    (refused : (d : ℕ) → d < p → would_enter q (doc_score cs d) ≡ false) (last : LastAt p cs pivot)
    (weights : Enters q cs p → All (λ c. gives p c ≤ block_weight c) (take (suc pivot) cs)) where
  pub skip-Kept :
      (list : ℕ)
      → list ≤ pivot
      → would_enter q (block_upper_bound (take (suc pivot) cs)) ≡ false
      → Kept end cs q
          (advance_by bubble cs list (skip_to end p (take (suc pivot) cs) (drop (suc pivot) cs)), q)
  skip-Kept list le low =
      let to = skip_to end p (take (suc pivot) cs) (drop (suc pivot) cs) in
      let at = docid_at_mono cs list pivot inv.sorted le last.0 in
      let far = skip_to-lt end p (take (suc pivot) cs) (drop (suc pivot) cs) in
      let a =
        advance_by-Advanced bubble bubble-Permᴰ bubble-IsSorted end to cs list
          (omega (arith, last.0)) (omega (arith, last.1)) (omega (arith, last.1)) inv.valid
          inv.sorted in
      let b =
        All-advance_by bubble bubble-Permᴰ bubble-IsSorted (Blocked (Enters q cs)) to
          (λ c k. Blocked-next_geq (Enters q cs) c to k) cs list inv.blocked in
      advanced-Kept end to cs _ q a
        (λ d h. elim (dec_le p d) [
          | yes from ↦
              skip_to-refused end p (suc pivot) d cs q inv.valid inv.sorted inv.blocked weights
                last.2 low from h
          | no before ↦ refused d (omega arith)
        ])
        inv b

  pub advance-Kept :
      (p == docid_at cs 0) ≡ false
      → Kept end cs q (advance_by bubble_past cs (next_list cs p pivot) p, q)
  advance-Kept e =
      let (le, other) = next_list_found cs p pivot (ground (arith, e)) in
      let at = docid_at_mono cs (next_list cs p pivot) pivot inv.sorted le last.0 in
      let a =
        advance_by-Advanced bubble_past bubble_past-Permᴰ bubble_past-IsSorted end p cs _
          (omega (arith, last.0)) (omega (arith, last.1)) (omega (arith, last.1)) inv.valid
          inv.sorted in
      let b =
        All-advance_by bubble_past bubble_past-Permᴰ bubble_past-IsSorted (Blocked (Enters q cs)) p
          (λ c k. Blocked-next_geq (Enters q cs) c p k) cs (next_list cs p pivot) inv.blocked in
      advanced-Kept end p cs _ q a refused inv b
