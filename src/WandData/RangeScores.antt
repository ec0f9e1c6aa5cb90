-- ===== src/WandData/RangeScores.antt =====
-- The score of a range is the best score of its postings.
use Prim.Native.Nat.{max}
use native.Mathlib.Nat.{le_trans}
use anytime_daat.Prelude.{
  ℕ, ◌≤◌, ◌<◌, ◌≡◌, refl, ◌∙◌, inl, inr, List, [], ◌∷◌, All, All-mono, ltb, ◌==◌, Bool-cases, arith,
  if◌then◌else◌,
}
use anytime_daat.Cursor.{Posting}
use anytime_daat.WandData.{range_partition, range_score, static_block_partition}

-- The best score of the postings of range `k`.
unfoldable pub best_in : (ℕ → ℕ → ℕ) → (ℕ → ℕ) → ℕ → List Posting → ℕ
best_in f doc_to_range k [] = 0
best_in f doc_to_range k (p ∷ ps) =
    let rest = best_in f doc_to_range k ps in
    if doc_to_range p.doc == k then max (f p.doc p.freq) rest else rest

-- The ranges do not fall along the list.
abbrev pub Along : (ℕ → ℕ) → List Posting → Type 0
Along doc_to_range [] = Unit
Along doc_to_range (p ∷ ps) =
    All (λ x. doc_to_range p.doc ≤ doc_to_range x.doc) ps × Along doc_to_range ps

module _ (f : ℕ → ℕ → ℕ) (doc_to_range : ℕ → ℕ) (k : ℕ) where
  best_in_none :
      (ps : List Posting) → All (λ x. k < doc_to_range x.doc) ps → best_in f doc_to_range k ps ≡ 0
  unfolding best_in
  best_in_none [] h = refl
  best_in_none (p ∷ ps) h = ground (arith, h.0, best_in_none ps h.1)

  range_partition-cons :
      (current m : ℕ) (ps : List Posting)
      → (x : ℕ × ℕ) × (xs : List (ℕ × ℕ)) × (range_partition f doc_to_range current m ps ≡ x ∷ xs)
  unfolding range_partition
  range_partition-cons current m [] = ((current, m), [], refl)
  range_partition-cons current m (p ∷ ps) = elim (Bool-cases (doc_to_range p.doc == current)) [
    | inl e ↦ rw e (range_partition-cons (doc_to_range p.doc) (max m (f p.doc p.freq)) ps)
    | inr e ↦ rw e (
      (current, m),
      range_partition f doc_to_range (doc_to_range p.doc) (max 0 (f p.doc p.freq)) ps,
      refl,
    )
  ]

  range_score-step :
      (r w : ℕ) (rs : List (ℕ × ℕ))
      → (x : ℕ × ℕ) × (xs : List (ℕ × ℕ)) × (rs ≡ x ∷ xs)
      → range_score k ((r, w) ∷ rs)
        ≡ (if ltb r k then range_score k rs else if r == k then w else 0)
  range_score-step r w rs (x, xs, e) = rw e (unfold range_score in refl)

  range_score-partition :
      (current m : ℕ) (ps : List Posting)
      → All (λ x. current ≤ doc_to_range x.doc) ps
      → Along doc_to_range ps
      → range_score k (range_partition f doc_to_range current m ps) ≡ (
          if current == k then max m (best_in f doc_to_range k ps) else best_in f doc_to_range k ps)
  unfolding range_partition best_in
  range_score-partition current m [] a s = unfold range_score in ground arith
  range_score-partition current m (p ∷ ps) a s = elim (Bool-cases (doc_to_range p.doc == current)) [
    | inl e ↦
        let ih = range_score-partition (doc_to_range p.doc) (max m (f p.doc p.freq)) ps s.0 s.1 in
        rw e (ih ∙ ground (arith, e))
    | inr e ↦
        let r = doc_to_range p.doc in
        let m' = max 0 (f p.doc p.freq) in
        let ih = range_score-partition r m' ps s.0 s.1 in
        let lt : current < r = ground (arith, a.0, e) in
        let none_left = λ (h : k < r). best_in_none ps (All-mono (λ x le. le_trans h le) ps s.0) in
        rw e (
          range_score-step current m (range_partition f doc_to_range r m' ps)
            (range_partition-cons r m' ps)
          ∙ (rw ih (ground (arith, none_left))))
  ]

  -- The score that the enumerator finds for a range among those of the partition is the best score
  -- of the list's postings in that range, and 0 if there is none, for a list along which the
  -- ranges do not fall.
  pub range_score-best_in :
      (size : ℕ) (p : Posting) (ps : List Posting)
      → Along doc_to_range (p ∷ ps)
      → range_score k (static_block_partition f size doc_to_range p ps).ranges
        ≡ best_in f doc_to_range k (p ∷ ps)
  unfolding static_block_partition
  range_score-best_in size p ps s =
      range_score-partition (doc_to_range p.doc) 0 (p ∷ ps) (omega arith, s.0) s ∙ ground arith

  pub best_in-le :
      (ps : List Posting)
      → All (λ x. doc_to_range x.doc ≡ k → f x.doc x.freq ≤ best_in f doc_to_range k ps) ps
  unfolding best_in
  best_in-le [] = tt
  best_in-le (p ∷ ps) =
      (λ h. ground arith, All-mono (λ x h e. le_trans (h e) (ground arith)) ps (best_in-le ps))
