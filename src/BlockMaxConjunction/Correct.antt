-- ===== src/BlockMaxConjunction/Correct.antt =====
-- The query with block bounds beside the ranked conjunctive query.
use anytime_daat.Prelude.{
  ℕ, zero, suc, ◌+◌, ◌-◌, ◌≤◌, ◌<◌, ◌≡◌, refl, sym, ap, fun_ext, ◌∙◌, inl, inr, List, ◌∷◌, some,
  none, false, All, All-mono, length, ltb, ◌==◌, Bool-cases, Option-cases, arith,
}
use anytime_daat.Topk.{Topk, would_enter, insert}
use anytime_daat.Cursor.{Cursor, docid}
use anytime_daat.Cursor.Valid.{IsValid}
use anytime_daat.Cursor.Lists.{doc_score}
use anytime_daat.Conjunction.{
  advance_from, next_first, first_docid, total_score, ranked_and_query, sort_by_size,
}
use anytime_daat.Conjunction.Visits.{held_by_all, visit_held, visit_held_skip, visit_held_end}
use anytime_daat.Conjunction.Round.{
  Same, Same-refl, Same-later, Same-trans, Moved, advance_from-Moved,
}
use anytime_daat.Conjunction.Correct.{visits-next_first, length-advance_from}
use anytime_daat.Conjunction.Queries.{
  ordered_all, ordered_some, ordered_first, doc_score-ordered, visit_held-ordered,
  ranked_and_query-held,
}
use anytime_daat.BlockMaxWand.{block_upper_bound, least_block_docid}
use anytime_daat.BlockMaxWand.Query.{Ready}
use anytime_daat.BlockMaxConjunction.{blocks_at, and_loop, block_max_ranked_and_query}
use anytime_daat.BlockMaxConjunction.Moved.{From, From-later, next_first-From, advance_from-From}
use anytime_daat.BlockMaxConjunction.Round.{
  emit, Here, Here-blocks_at, step, visited, visited-jump, and_loop_end, and_loop_skips,
  and_loop_moves, and_loop_scores, and_loop-ended, visited-ended,
}

law :
    (whole : List Cursor) (d : ℕ) (c : Cursor) (cs : List Cursor) (q : Topk)
    → docid c ≡ d
    → total_score (c ∷ cs) ≡ doc_score whole d
    → emit (c ∷ cs) d q ≡ insert q (doc_score whole d) d
law whole d c cs q at k = unfold first_docid in rw (k, at) refl

module _ (end : ℕ) (whole : List Cursor) where
  -- A round in which the cursors move.
  module _ (candidate i : ℕ) (at : List Cursor) (lt : candidate < end)
      (s : Here end candidate i whole at) where
    abbrev moved : List Cursor
    moved = (advance_from i candidate at).0

    all-Moved : Moved end candidate at (advance_from i candidate at)
    all-Moved = advance_from-Moved end i candidate at lt s.valid s.stands

    moved-Same : Same candidate moved whole
    moved-Same = Same-trans candidate candidate moved at whole (omega arith) all-Moved.same s.same

    moved_left : 0 < length moved
    moved_left = omega (arith, length-advance_from i candidate at, s.left)

    moved_fits : All (From candidate) moved
    moved_fits = advance_from-From candidate i candidate at s.fits

    stopped_at :
        (d : ℕ) (q : Topk)
        → (advance_from i candidate at).1 ≡ some d
        → (candidate < d)
          × Here end d 0 whole moved
          × (visited end whole candidate q ≡ visited end whole d q)
    stopped_at d q g =
        let (up, none_held) = rw g at all-Moved.stopped in
        (
          up,
          record {
            left = moved_left;
            valid = all-Moved.valid;
            same = Same-later candidate d moved whole (omega (arith, up)) moved-Same;
            stands = tt;
            fits = From-later candidate d moved (omega (arith, up)) moved_fits;
          },
          visit_held_skip (held_by_all whole) (step end whole) candidate d end q (omega (arith, up))
              (λ x from upto. sym (moved-Same.held x from) ∙ none_held x from upto),
        )

    all_stand :
        (q : Topk)
        → (advance_from i candidate at).1 ≡ none
        → (candidate < first_docid (next_first moved))
          × Here end (first_docid (next_first moved)) 1 whole (next_first moved)
          × (visited end whole candidate q
              ≡ visited end whole (first_docid (next_first moved)) (emit moved candidate q))
    all_stand q g =
        let (up, left, valid, kept, stand, visits) =
          visits-next_first emit (step end whole) end whole (law whole) candidate moved q lt
            moved_left all-Moved.valid moved-Same (rw g at all-Moved.stopped) in
        (
          up,
          record {
            left = left;
            valid = valid;
            same = kept;
            stands = stand;
            fits =
                From-later candidate (first_docid (next_first moved)) (next_first moved)
                  (omega (arith, up)) (next_first-From candidate moved moved_fits);
          },
          visits,
        )

  and_loop-visits :
      (fuel candidate i : ℕ) (cs : List Cursor) (q : Topk)
      → end - candidate + 3 ≤ fuel
      → Here end candidate i whole cs
      → and_loop fuel end cs candidate i q ≡ some (visited end whole candidate q)
  and_loop-visits zero candidate i cs q f s = absurd (omega arith)
  and_loop-visits (suc fuel) candidate i cs q f s = elim (Bool-cases (ltb candidate end)) [
    | inr e ↦
        let h : end ≤ candidate = ground (arith, e) in
        and_loop_end (suc fuel) end candidate i cs q (omega arith) h
        ∙ ap some (sym (visit_held_end (held_by_all whole) (step end whole) candidate end q h))
    | inl e ↦
        let lt : candidate < end = ground (arith, e) in
        let at = blocks_at candidate cs in
        let here = Here-blocks_at end candidate i whole cs s in
        let jump = least_block_docid end at in
        elim (Bool-cases (would_enter q (block_upper_bound at))) [
          | inl enters ↦ elim (Option-cases (advance_from i candidate at).1) [
            | inl g ↦
                let (up, next_state, visits) = all_stand candidate i at lt here q g in
                and_loop_scores fuel end candidate i cs q lt enters g
                ∙ and_loop-visits fuel _ 1 _ _ (omega (arith, up)) next_state
                ∙ ap some (sym visits)
            | inr (d, g) ↦
                let (up, next_state, visits) = stopped_at candidate i at lt here d q g in
                and_loop_moves fuel end candidate i cs q lt d enters g
                ∙ and_loop-visits fuel d 0 _ q (omega (arith, up)) next_state
                ∙ ap some (sym visits)
          ]
          | inr refused ↦ elim (Bool-cases (ltb jump candidate)) [
            | inl back ↦
                let ended : jump < candidate = ground (arith, back) in
                and_loop-ended fuel end candidate i whole cs q lt (omega arith) refused ended
                ∙ ap some (
                    sym (
                      visited-ended fuel end candidate i whole cs q lt (omega arith) refused ended
                        here))
            | inr forth ↦
                let le : candidate ≤ jump = ground (arith, forth) in
                let other : (candidate == jump + 1) ≡ false = ground (arith, le) in
                and_loop_skips fuel end candidate i cs q lt refused other
                ∙ and_loop-visits fuel (jump + 1) 0 at q (omega (arith, le)) (record {
                  left = here.left;
                  valid = here.valid;
                  same = Same-later candidate (jump + 1) at whole (omega (arith, le)) here.same;
                  stands = tt;
                  fits = From-later candidate (jump + 1) at (omega (arith, le)) here.fits;
                })
                ∙ ap some (sym (visited-jump end whole candidate i at q here refused le))
          ]
        ]
  ]

-- The conjunctive query with block bounds ends, and its queue is the one that the ranked
-- conjunctive query leaves, for a cursor at least and cursors that are valid up to `max_docid` and
-- whose blocks bound the scores of the postings that each covers (Ready).
pub block_max_ranked_and_query-ranked_and_query :
    (c : Cursor) (cs : List Cursor) (max_docid : ℕ) (q : Topk)
    → All (Ready max_docid) (c ∷ cs)
    → (r : Topk) × (block_max_ranked_and_query (c ∷ cs) max_docid q ≡ some r)
      × (ranked_and_query (c ∷ cs) max_docid q ≡ some r)
unfolding block_max_ranked_and_query
block_max_ranked_and_query-ranked_and_query c cs max_docid q ready =
    let es = sort_by_size (c ∷ cs) in
    let valid = All-mono (λ e r. r.0) (c ∷ cs) ready in
    let start : Here max_docid (first_docid es) 1 es es = record {
      left = ordered_some max_docid c cs;
      valid = ordered_all max_docid c cs (IsValid max_docid) valid;
      same = Same-refl (first_docid es) es;
      stands = ordered_first max_docid c cs;
      fits =
          ordered_all max_docid c cs (From (first_docid es))
            (All-mono (λ e r. (r.1, All-mono (λ x k h. k) e.rest r.2)) (c ∷ cs) ready);
    } in
    let scores : step max_docid es ≡ step max_docid (c ∷ cs) =
      fun_ext (λ d. fun_ext (λ r. ap (λ s. insert r s d) (doc_score-ordered max_docid c cs d))) in
    (
      _,
      and_loop-visits max_docid es (max_docid + 3) (first_docid es) 1 es q (omega arith) start
          ∙ ap some (
              ap (λ f. visit_held (held_by_all es) f (first_docid es) max_docid q) scores
              ∙ visit_held-ordered max_docid c cs (step max_docid (c ∷ cs)) q valid),
      ranked_and_query-held c cs max_docid q valid,
    )
