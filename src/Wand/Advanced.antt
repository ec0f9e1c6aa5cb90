-- ===== src/Wand/Advanced.antt =====
-- A round of the loop that moves a cursor up to the pivot's document.

use anytime_daat.Prelude.{
  ℕ, zero, suc, ◌+◌, ◌≤◌, ◌<◌, ◌≡◌, ◌≢◌, refl, ap, ◌∙◌, inl, inr, List, [], ◌∷◌, map, Permᴰ,
  Permᴰ-refl, Permᴰ-symm, map-Permᴰ, All, All-Permᴰ, length, sum_over, sum_over-Permᴰ, ◌==◌,
  Bool-cases, arith,
}
use anytime_daat.Cursor.{Cursor, docid, next_geq}
use anytime_daat.Cursor.Valid.{
  IsValid, gives, gives-next_geq, remaining, docid-next_geq_up, gives-next_geq_le, next_geq-IsValid,
  remaining-next_geq_lt,
}
use anytime_daat.Cursor.Lists.{
  bubble, bubble-Permᴰ, bubble-IsSorted, IsSorted, doc_score, total_remaining, base, base-next_geq,
  SameLists,
}
use anytime_daat.Wand.{docid_at, next_list, advance_by, advance_list}

-- A list of cursors of which one, before the document `p`, has moved up to `p`.
pub record Advanced (end p : ℕ) (cs ds : List Cursor) : Type 0 where
  pub valid : All (IsValid end) ds
  pub sorted : IsSorted ds
  pub above : (b : ℕ) → b ≤ p → b ≤ end → All (λ c. b ≤ docid c) cs → All (λ c. b ≤ docid c) ds
  pub same : SameLists ds cs
  pub kept : (d : ℕ) → p ≤ d → doc_score ds d ≡ doc_score cs d
  pub lower : (d : ℕ) → doc_score ds d ≤ doc_score cs d
  pub fewer : total_remaining ds < total_remaining cs

Advanced-cons :
    (end p : ℕ) (c : Cursor) (cs ds : List Cursor)
    → IsValid end c
    → docid c ≤ p
    → docid c < end
    → All (λ e. docid c ≤ docid e) cs
    → Advanced end p cs ds
    → Advanced end p (c ∷ cs) (c ∷ ds)
unfolding doc_score total_remaining
Advanced-cons end p c cs ds v h inside le a = record {
  valid = (v, a.valid);
  sorted = (a.above (docid c) h (omega arith) le, a.sorted);
  above = λ b lt to hb. (hb.0, a.above b lt to hb.1);
  same = Permᴰ.cons refl a.same;
  kept = λ d lt. omega (arith, a.kept d lt);
  lower = λ d. omega (arith, a.lower d);
  fewer = omega (arith, a.fewer);
}

pub docid_at-above :
    (b : ℕ) (cs : List Cursor) (i : ℕ)
    → All (λ c. b ≤ docid c) cs
    → i < length cs
    → b ≤ docid_at cs i
unfolding docid_at
docid_at-above b [] i h k = absurd (omega arith)
docid_at-above b (c ∷ cs) zero h k = h.0
docid_at-above b (c ∷ cs) (suc i) h k = docid_at-above b cs i h.1 (omega arith)

pub docid_at_mono :
    (cs : List Cursor) (i j : ℕ)
    → IsSorted cs
    → i ≤ j
    → j < length cs
    → docid_at cs i ≤ docid_at cs j
unfolding docid_at
docid_at_mono [] i j s h k = absurd (omega arith)
docid_at_mono (c ∷ cs) zero zero s h k = omega arith
docid_at_mono (c ∷ cs) zero (suc j) s h k = docid_at-above (docid c) cs j s.0 (omega arith)
docid_at_mono (c ∷ cs) (suc i) zero s h k = absurd (omega arith)
docid_at_mono (c ∷ cs) (suc i) (suc j) s h k = docid_at_mono cs i j s.1 (omega arith) (omega arith)

-- For every way to put the moved cursor into a sorted list.
module _ (put : Cursor → List Cursor → List Cursor)
    (put-Permᴰ : (c : Cursor) (cs : List Cursor) → Permᴰ (put c cs) (c ∷ cs))
    (put-IsSorted : (c : Cursor) (cs : List Cursor) → IsSorted cs → IsSorted (put c cs)) where
  Advanced-here :
      (end p : ℕ) (c : Cursor) (cs : List Cursor)
      → docid c < p
      → docid c < end
      → All (IsValid end) (c ∷ cs)
      → IsSorted (c ∷ cs)
      → Advanced end p (c ∷ cs) (put (next_geq c p) cs)
  Advanced-here end p c cs h inside (v, vs) (le, s) =
      let moved = next_geq c p in
      let perm = put-Permᴰ moved cs in
      record {
        valid = All-Permᴰ (IsValid end) (Permᴰ-symm perm) (next_geq-IsValid end c v p, vs);
        sorted = put-IsSorted moved cs s;
        above = λ b lt to hb.
            All-Permᴰ (λ e. b ≤ docid e) (Permᴰ-symm perm)
              (docid-next_geq_up end c v p b lt to, hb.1);
        same =
            Permᴰ.trans (map-Permᴰ base perm)
              (Permᴰ.cons (base-next_geq c p) (Permᴰ-refl (map base cs)));
        kept = λ d lt.
            unfold doc_score in
            sum_over-Permᴰ (gives d) perm
            ∙ ap (λ t. t + sum_over (gives d) cs) (gives-next_geq c p d lt);
        lower = λ d.
            unfold doc_score in
            omega (arith, sum_over-Permᴰ (gives d) perm, gives-next_geq_le end c v p d);
        fewer =
            unfold total_remaining in
            omega (arith, sum_over-Permᴰ remaining perm, remaining-next_geq_lt end c v p h inside);
      }

  pub advance_by-Advanced :
      (end p : ℕ) (cs : List Cursor) (i : ℕ)
      → i < length cs
      → docid_at cs i < p
      → docid_at cs i < end
      → All (IsValid end) cs
      → IsSorted cs
      → Advanced end p cs (advance_by put cs i p)
  unfolding advance_by docid_at
  advance_by-Advanced end p [] i l h inside v s = absurd (omega arith)
  advance_by-Advanced end p (c ∷ cs) zero l h inside v s = Advanced-here end p c cs h inside v s
  advance_by-Advanced end p (c ∷ cs) (suc i) l h inside v s =
      let first = docid_at-above (docid c) cs i s.0 (omega arith) in
      Advanced-cons end p c cs _ v.0 (omega arith) (omega arith) s.0
        (advance_by-Advanced end p cs i (omega arith) h inside v.1 s.1)

  -- What a move keeps of each cursor holds of the list.
  pub All-advance_by :
      (Q : Cursor → Type 0) (p : ℕ)
      → ((c : Cursor) → Q c → Q (next_geq c p))
      → (cs : List Cursor) (i : ℕ) → All Q cs
      → All Q (advance_by put cs i p)
  unfolding advance_by
  All-advance_by Q p move [] i h = tt
  All-advance_by Q p move (c ∷ cs) zero h =
      All-Permᴰ Q (Permᴰ-symm (put-Permᴰ (next_geq c p) cs)) (move c h.0, h.1)
  All-advance_by Q p move (c ∷ cs) (suc i) h = (h.0, All-advance_by Q p move cs i h.1)

pub advance_list-Advanced :
    (end p : ℕ) (cs : List Cursor) (i : ℕ)
    → i < length cs
    → docid_at cs i < p
    → p ≤ end
    → All (IsValid end) cs
    → IsSorted cs
    → Advanced end p cs (advance_list cs i p)
unfolding advance_list
advance_list-Advanced end p cs i l h k v s =
    advance_by-Advanced bubble bubble-Permᴰ bubble-IsSorted end p cs i l h (omega arith) v s

pub next_list_found :
    (cs : List Cursor) (p i : ℕ)
    → docid_at cs 0 ≢ p
    → (next_list cs p i ≤ i) × (docid_at cs (next_list cs p i) ≢ p)
unfolding next_list
next_list_found cs p zero h = (omega arith, h)
next_list_found cs p (suc i) h = elim (Bool-cases (docid_at cs (suc i) == p)) [
  | inl e ↦ rw e (ground (arith, next_list_found cs p i h))
  | inr e ↦ rw e (omega arith, ground arith)
]
