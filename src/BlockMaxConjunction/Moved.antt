-- ===== src/BlockMaxConjunction/Moved.antt =====
-- What the move of the blocks keeps of the cursors, and what the blocks bound after it.
use anytime_daat.Prelude.{
  ℕ, zero, suc, ◌==◌, ◌≤◌, ◌<◌, ◌≡◌, refl, ap, inl, inr, List, [], ◌∷◌, Bool, true, false, ◌&&◌,
  All, All-mono, length, take, ltb, Bool-cases, arith, if◌then◌else◌,
}
use anytime_daat.Cursor.{
  Cursor, Posting, Block, docid, next_geq, next_block, last_of, block_max_docid, block_max_next_geq,
}
use anytime_daat.Cursor.Valid.{IsValid, gives}
use anytime_daat.Cursor.Lists.{doc_score}
use anytime_daat.OrQuery.Counts.{holds}
use anytime_daat.Conjunction.{advance_from, next_first}
use anytime_daat.Conjunction.Visits.{held_by_all}
use anytime_daat.Conjunction.Round.{Same}
use anytime_daat.BlockMaxWand.{block_upper_bound, least_block_docid, block_weight}
use anytime_daat.BlockMaxWand.Blocks.{
  Fits, Blocked, Blocked-mono, Blocked-next, Blocked-next_geq, Blocked-block_max_next_geq,
  contribution-le_at, gives-block_weight,
}
use anytime_daat.BlockMaxConjunction.{blocks_at}

-- A later move to an earlier document changes nothing.
next_block_back :
    (d p : ℕ) (bs : List Block) → d ≤ p → next_block d (next_block p bs) ≡ next_block p bs
unfolding next_block
next_block_back d p [] h = refl
next_block_back d p (b ∷ []) h = refl
next_block_back d p (b ∷ e ∷ bs) h = elim (Bool-cases (ltb b.last p)) [
  | inl k ↦ rw k (next_block_back d p (e ∷ bs) h)
  | inr k ↦ let k' : ltb b.last d ≡ false = ground (arith, k) in rw (k, k') refl
]

-- Behind blocks that end before the document nothing is left.
Fits-ended :
    (f : ℕ → ℕ → ℕ) (p : ℕ) (bs : List Block) (x : Posting)
    → last_of (next_block p bs) < p
    → p ≤ x.doc
    → ¬ Fits f (next_block p bs) x
unfolding next_block last_of
Fits-ended f p [] x h k fits = fits
Fits-ended f p (b ∷ []) x h k (inl here) = omega arith
Fits-ended f p (b ∷ []) x h k (inr later) = later.1
Fits-ended f p (b ∷ e ∷ bs) x h k fits = elim (Bool-cases (ltb b.last p)) [
  | inl t ↦ Fits-ended f p (e ∷ bs) x (rw t at h) k (rw t at fits)
  | inr t ↦ absurd (ground (arith, t, rw t at h))
]

module _ (p : ℕ) where
  -- The postings from the candidate on fit the blocks.
  abbrev pub From : Cursor → Type 0
  From = Blocked (λ d. p ≤ d)

  pub blocks_at-IsValid :
      (end : ℕ) (cs : List Cursor) → All (IsValid end) cs → All (IsValid end) (blocks_at p cs)
  unfolding blocks_at block_max_next_geq
  blocks_at-IsValid end [] v = tt
  blocks_at-IsValid end (c ∷ cs) v = (
    record {
      ascending = v.0.ascending;
      below = v.0.below;
      bounded = v.0.bounded;
      reach = v.0.reach;
    },
    blocks_at-IsValid end cs v.1,
  )

  pub blocks_at-From : (cs : List Cursor) → All From cs → All From (blocks_at p cs)
  unfolding blocks_at
  blocks_at-From [] b = tt
  blocks_at-From (c ∷ cs) b =
      (Blocked-block_max_next_geq (λ d. p ≤ d) c p (λ d h. h) b.0, blocks_at-From cs b.1)

  held_at : (cs : List Cursor) (d : ℕ) → held_by_all (blocks_at p cs) d ≡ held_by_all cs d
  unfolding blocks_at held_by_all
  held_at [] d = refl
  held_at (c ∷ cs) d =
      let here : holds d (block_max_next_geq c p) ≡ holds d c =
        unfold holds block_max_next_geq in refl in
      rw (here, held_at cs d) refl

  scores_at : (cs : List Cursor) (d : ℕ) → doc_score (blocks_at p cs) d ≡ doc_score cs d
  unfolding blocks_at doc_score
  scores_at [] d = refl
  scores_at (c ∷ cs) d =
      let here : gives d (block_max_next_geq c p) ≡ gives d c =
        unfold gives block_max_next_geq in refl in
      omega (arith, here, scores_at cs d)

  pub blocks_at-Same : (cs : List Cursor) → Same p (blocks_at p cs) cs
  blocks_at-Same cs = record { held = λ d h. held_at cs d; scores = λ d h. scores_at cs d }

  pub blocks_at-stands :
      (i : ℕ) (cs : List Cursor)
      → All (λ c. docid c ≡ p) (take i cs)
      → All (λ c. docid c ≡ p) (take i (blocks_at p cs))
  unfolding blocks_at docid block_max_next_geq
  blocks_at-stands zero cs a = a
  blocks_at-stands (suc i) [] a = a
  blocks_at-stands (suc i) (c ∷ cs) a = (a.0, blocks_at-stands i cs a.1)

  pub length-blocks_at : (cs : List Cursor) → length (blocks_at p cs) ≡ length cs
  unfolding blocks_at
  length-blocks_at [] = refl
  length-blocks_at (c ∷ cs) = ap suc (length-blocks_at cs)

  pub blocks_at_back :
      (d : ℕ) (cs : List Cursor) → d ≤ p → blocks_at d (blocks_at p cs) ≡ blocks_at p cs
  unfolding blocks_at
  blocks_at_back d [] h = refl
  blocks_at_back d (c ∷ cs) h =
      let here : block_max_next_geq (block_max_next_geq c p) d ≡ block_max_next_geq c p =
        unfold block_max_next_geq in rw (next_block_back d p c.blocks h) refl in
      rw (here, blocks_at_back d cs h) refl

  -- A list whose blocks have ended holds no document from the candidate on.
  ended_holds :
      (c : Cursor) (d : ℕ)
      → From (block_max_next_geq c p)
      → block_max_docid (block_max_next_geq c p) < p
      → p ≤ d
      → holds d (block_max_next_geq c p) ≡ 0
  unfolding holds block_max_docid block_max_next_geq
  ended_holds c d b h k =
      let le =
        contribution-le_at (λ _ _. 1) d 0 c.rest
          (All-mono
            (λ x fits e.
              absurd (Fits-ended c.term_scorer p c.blocks x h (omega arith) (fits (omega arith))))
            c.rest b.1) in
      omega (arith, le)

  pub ended_held :
      (end : ℕ) (cs : List Cursor) (d : ℕ)
      → All From (blocks_at p cs)
      → least_block_docid end (blocks_at p cs) < p
      → p ≤ end
      → p ≤ d
      → held_by_all (blocks_at p cs) d ≡ false
  unfolding blocks_at least_block_docid held_by_all
  ended_held end [] d b h k l = absurd (omega arith)
  ended_held end (c ∷ cs) d b h k l =
      let moved = block_max_next_geq c p in
      let next = if ltb (block_max_docid moved) end then block_max_docid moved else end in
      elim (Bool-cases (ltb (block_max_docid moved) p)) [
        | inl e ↦ let gone = ended_holds c d b.0 (ground (arith, e)) l in rw gone refl
        | inr e ↦
            let p_le : p ≤ next = ground (arith, e) in
            let rest : held_by_all (blocks_at p cs) d ≡ false = ended_held next cs d b.1 h p_le l in
            and_false (ltb 0 (holds d moved)) (held_by_all (blocks_at p cs) d) rest
      ]
    where
      and_false : (a b : Bool) → b ≡ false → (a && b) ≡ false
      and_false true b e = e
      and_false false b e = refl

  -- A document that all blocks reach scores their bound at most.
  pub doc_score-bound :
      (cs : List Cursor) (d : ℕ)
      → All From cs
      → p ≤ d
      → All (λ c. d ≤ block_max_docid c) cs
      → doc_score cs d ≤ block_upper_bound cs
  unfolding doc_score block_upper_bound
  doc_score-bound [] d b h k = omega arith
  doc_score-bound (c ∷ cs) d b h k =
      let here : gives d c ≤ block_weight c = gives-block_weight (λ d. p ≤ d) c d b.0 h k.0 in
      omega (arith, here, doc_score-bound cs d b.1 h k.1)

  pub next_first-From : (cs : List Cursor) → All From cs → All From (next_first cs)
  unfolding next_first
  next_first-From [] b = tt
  next_first-From (c ∷ cs) b = (Blocked-next (λ d. p ≤ d) c b.0, b.1)

  pub advance_from-From :
      (i candidate : ℕ) (cs : List Cursor) → All From cs → All From (advance_from i candidate cs).0
  unfolding advance_from
  advance_from-From zero candidate [] b = tt
  advance_from-From (suc i) candidate [] b = tt
  advance_from-From (suc i) candidate (c ∷ cs) b = (b.0, advance_from-From i candidate cs b.1)
  advance_from-From zero candidate (c ∷ cs) b =
      let moved = Blocked-next_geq (λ d. p ≤ d) c candidate b.0 in
      elim (Bool-cases (docid (next_geq c candidate) == candidate)) [
        | inl e ↦ rw e (moved, advance_from-From zero candidate cs b.1)
        | inr e ↦ rw e (moved, b.1)
      ]

pub From-later : (a b : ℕ) (cs : List Cursor) → a ≤ b → All (From a) cs → All (From b) cs
From-later a b cs h =
    All-mono (λ c. Blocked-mono (λ d. a ≤ d) (λ d. b ≤ d) (λ d k. omega arith) c) cs
