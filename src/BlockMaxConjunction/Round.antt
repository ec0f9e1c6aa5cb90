-- ===== src/BlockMaxConjunction/Round.antt =====
-- The rounds of the loop: what each finds, and what the blocks' bounds leave out.
use anytime_daat.Prelude.{
  ℕ, zero, suc, ◌+◌, ◌≤◌, ◌<◌, ◌≡◌, refl, sym, ◌∙◌, inl, inr, List, some, none, true, false, All,
  All-mono, length, take, ltb, ◌==◌, Bool-cases, arith,
}
use anytime_daat.Topk.{Topk, would_enter, insert}
use anytime_daat.Rank.{insert_refused, would_enter_mono}
use anytime_daat.Cursor.{Cursor, docid, block_max_docid}
use anytime_daat.Cursor.Valid.{IsValid}
use anytime_daat.Cursor.Lists.{doc_score}
use anytime_daat.Conjunction.{advance_from, next_first, first_docid, total_score}
use anytime_daat.Conjunction.Visits.{
  held_by_all, visit_held, visit_held_skip, visit_held-Passes, visit_held_end,
}
use anytime_daat.Conjunction.Round.{Same, Same-trans}
use anytime_daat.BlockMaxWand.{block_upper_bound, least_block_docid}
use anytime_daat.BlockMaxWand.Pivot.{least_block_docid-le}
use anytime_daat.BlockMaxConjunction.{blocks_at, and_loop}
use anytime_daat.BlockMaxConjunction.Moved.{
  From, blocks_at-IsValid, blocks_at-From, blocks_at-Same, blocks_at-stands, length-blocks_at,
  blocks_at_back, ended_held, doc_score-bound,
}

-- What the query does where all cursors stand, and what it comes to for the document.
abbrev pub emit : List Cursor → ℕ → Topk → Topk
emit moved candidate q = insert q (total_score moved) (first_docid moved)

-- The state at the head of the loop.
pub record Here (end candidate i : ℕ) (whole cs : List Cursor) : Type 0 where
  pub left : 0 < length cs
  pub valid : All (IsValid end) cs
  pub same : Same candidate cs whole
  pub stands : All (λ c. docid c ≡ candidate) (take i cs)
  pub fits : All (From candidate) cs

pub Here-blocks_at :
    (end candidate i : ℕ) (whole cs : List Cursor)
    → Here end candidate i whole cs
    → Here end candidate i whole (blocks_at candidate cs)
Here-blocks_at end candidate i whole cs s = record {
  left = omega (arith, s.left, length-blocks_at candidate cs);
  valid = blocks_at-IsValid candidate end cs s.valid;
  same =
      Same-trans candidate candidate _ cs whole (omega arith) (blocks_at-Same candidate cs) s.same;
  stands = blocks_at-stands candidate i cs s.stands;
  fits = blocks_at-From candidate cs s.fits;
}

module _ (end : ℕ) (whole : List Cursor) where
  abbrev pub step : ℕ → Topk → Topk
  step d r = insert r (doc_score whole d) d

  abbrev pub visited : ℕ → Topk → Topk
  visited candidate q = visit_held (held_by_all whole) step candidate end q

  -- The least last document of the blocks is the one behind which the candidate goes on.
  module _ (candidate i : ℕ) (at : List Cursor) (q : Topk) (s : Here end candidate i whole at) where
    abbrev jump : ℕ
    jump = least_block_docid end at

    -- Documents that the blocks reach do not enter.
    passes_refused :
        would_enter q (block_upper_bound at) ≡ false
        → (d : ℕ) → candidate ≤ d
        → d < jump + 1
        → step d q ≡ q
    passes_refused e d h k =
        let reach =
          All-mono (λ c (le : jump ≤ block_max_docid c). le_trans d jump (block_max_docid c) le k)
            at (least_block_docid-le end at).1 in
        let bound = doc_score-bound candidate at d s.fits h reach in
        let same = s.same.scores d h in
        insert_refused q (doc_score whole d) d
          (would_enter_mono q _ (block_upper_bound at) (omega (arith, bound, same)) e)
      where
        le_trans : (d j m : ℕ) → j ≤ m → d < j + 1 → d ≤ m
        le_trans d j m h k = omega arith

    pub visited-jump :
        would_enter q (block_upper_bound at) ≡ false
        → candidate ≤ jump
        → visited candidate q ≡ visited (jump + 1) q
    visited-jump e h =
        visit_held-Passes (held_by_all whole) step candidate (jump + 1) end q (omega arith)
          (λ d a b. inr (passes_refused e d a b))

-- Rounds of the loop by what they find.
pub and_loop_end :
    (fuel end candidate i : ℕ) (cs : List Cursor) (q : Topk)
    → 1 ≤ fuel
    → end ≤ candidate
    → and_loop fuel end cs candidate i q ≡ some q
unfolding and_loop
and_loop_end zero end candidate i cs q f h = absurd (omega arith)
and_loop_end (suc fuel) end candidate i cs q f h =
    let no : ltb candidate end ≡ false = ground arith in rw (no, and_loop) refl

module _ (fuel end candidate i : ℕ) (cs : List Cursor) (q : Topk) (lt : candidate < end) where
  abbrev moved_to : List Cursor
  moved_to = blocks_at candidate cs

  abbrev next_jump : ℕ
  next_jump = least_block_docid end moved_to

  pub and_loop_skips :
      would_enter q (block_upper_bound moved_to) ≡ false
      → (candidate == next_jump + 1) ≡ false
      → and_loop (suc fuel) end cs candidate i q ≡ and_loop fuel end moved_to (next_jump + 1) 0 q
  unfolding and_loop
  and_loop_skips e n =
      let yes : ltb candidate end ≡ true = ground arith in rw (yes, e, n, and_loop) refl

  and_loop_ends :
      would_enter q (block_upper_bound moved_to) ≡ false
      → candidate ≡ next_jump + 1
      → 1 ≤ fuel
      → and_loop (suc fuel) end cs candidate i q ≡ some q
  unfolding and_loop
  and_loop_ends e n h =
      let yes : ltb candidate end ≡ true = ground arith in
      let same : (candidate == next_jump + 1) ≡ true = ground arith in
      rw (yes, e, same, and_loop) (and_loop_end fuel end end 0 moved_to q h (omega arith))

  pub and_loop_moves :
      (d : ℕ)
      → would_enter q (block_upper_bound moved_to) ≡ true
      → (advance_from i candidate moved_to).1 ≡ some d
      → and_loop (suc fuel) end cs candidate i q
        ≡ and_loop fuel end (advance_from i candidate moved_to).0 d 0 q
  unfolding and_loop
  and_loop_moves d e g =
      let yes : ltb candidate end ≡ true = ground arith in rw (yes, e, g, and_loop) refl

  pub and_loop_scores :
      would_enter q (block_upper_bound moved_to) ≡ true
      → (advance_from i candidate moved_to).1 ≡ none
      → and_loop (suc fuel) end cs candidate i q
        ≡ and_loop fuel end
            (next_first (advance_from i candidate moved_to).0)
            (first_docid (next_first (advance_from i candidate moved_to).0))
            1
            (emit (advance_from i candidate moved_to).0 candidate q)
  unfolding and_loop
  and_loop_scores e g =
      let yes : ltb candidate end ≡ true = ground arith in rw (yes, e, g, and_loop) refl

-- A list has ended: the loop is over after this round or after one more.
module _ (fuel end candidate i : ℕ) (whole cs : List Cursor) (q : Topk) (lt : candidate < end)
    (enough : 3 ≤ fuel)
    (refused : would_enter q (block_upper_bound (blocks_at candidate cs)) ≡ false)
    (ended : least_block_docid end (blocks_at candidate cs) < candidate) where
  pub and_loop-ended : and_loop (suc fuel) end cs candidate i q ≡ some q
  and_loop-ended = elim (Bool-cases (candidate == least_block_docid end at + 1)) [
    | inl e ↦ and_loop_ends fuel end candidate i cs q lt refused (ground (arith, e)) (omega arith)
    | inr e ↦ and_loop_skips fuel end candidate i cs q lt refused e ∙ once_more fuel enough
  ]
    where
      at : List Cursor
      at = blocks_at candidate cs

      once_more :
          (fuel : ℕ) → 3 ≤ fuel → and_loop fuel end at (least_block_docid end at + 1) 0 q ≡ some q
      once_more zero h = absurd (omega arith)
      once_more (suc fuel) h =
          let jump = least_block_docid end at in
          let still : blocks_at (jump + 1) at ≡ at =
            blocks_at_back candidate (jump + 1) cs (omega arith) in
          and_loop_ends fuel end (jump + 1) 0 at q (omega arith) (rw still refused) (rw still refl)
            (omega arith)

  pub visited-ended :
      Here end candidate i whole (blocks_at candidate cs) → visited end whole candidate q ≡ q
  visited-ended s =
      visit_held_skip (held_by_all whole) (step end whole) candidate end end q (omega arith)
        (λ d a b.
          sym (s.same.held d a) ∙ ended_held candidate end cs d s.fits ended (omega arith) a)
      ∙ visit_held_end (held_by_all whole) (step end whole) end end q (omega arith)
