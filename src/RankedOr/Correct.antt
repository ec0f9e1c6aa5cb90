-- ===== src/RankedOr/Correct.antt =====
-- The exhaustive evaluation offers every document.
use native.Mathlib.Nat.{le_trans}
use anytime_daat.Prelude.{
  ℕ, zero, suc, ◌-◌, ◌≤◌, ◌<◌, ◌≡◌, ap, sym, ◌∙◌, inl, inr, List, [], ◌∷◌, some, All, All-mono,
  false, ltb, Bool-cases, arith,
}
use anytime_daat.Topk.{Topk, insert, would_enter}
use anytime_daat.Rank.{
  rank, rank_step, rank_skip, rank_cong, rank_empty, rank_refused, would_enter-zero,
}
use anytime_daat.Cursor.{Cursor, docid}
use anytime_daat.Cursor.Valid.{IsValid}
use anytime_daat.Cursor.Lists.{doc_score, doc_score_before}
use anytime_daat.MaxScore.{essential_pass, min_docid}
use anytime_daat.MaxScore.Passes.{Essential, essential_pass-Essential}
use anytime_daat.MaxScore.Until.{min_docid-least, rank_from_least}
use anytime_daat.RankedOr.{ranked_or_loop, ranked_or_query}

module _ (end cur_doc : ℕ) (cs : List Cursor) (q : Topk) (inside : cur_doc < end)
    (v : All (IsValid end) cs) (above : All (λ c. cur_doc ≤ docid c) cs) where
  abbrev pass : ℕ × ℕ × List Cursor
  pass = essential_pass cur_doc 0 end cs

  passed : Essential end cur_doc 0 end cs pass
  passed = essential_pass-Essential end cur_doc 0 end cs inside v above

  nothing_between :
      (d : ℕ)
      → cur_doc < d
      → d < pass.1
      → would_enter (insert q (doc_score cs cur_doc) cur_doc) (doc_score cs d) ≡ false
  nothing_between d h k =
      let none_left =
        doc_score_before end d pass.2 passed.kept.valid
          (All-mono (λ c a. le_trans k a) pass.2 passed.above) in
      rw (sym (passed.kept.later d h) ∙ none_left) (would_enter-zero _)

  -- One document is ranked.
  pass-ranks :
      rank (doc_score cs) cur_doc end q
      ≡ rank (doc_score pass.2) pass.1 end (insert q pass.0 cur_doc)
  pass-ranks =
      let q' = insert q (doc_score cs cur_doc) cur_doc in
      rank_step (doc_score cs) cur_doc end q inside
      ∙ rank_skip (doc_score cs) (suc cur_doc) end q' pass.1 (passed.grows inside) passed.least
          nothing_between
      ∙ rank_cong (doc_score cs) pass.1 end q' (doc_score pass.2)
          (λ d a b. sym (passed.kept.later d (le_trans (passed.grows inside) a)))
      ∙ ap (λ s. rank (doc_score pass.2) pass.1 end (insert q s cur_doc))
          (omega (arith, passed.scored))

ranked_or_loop-rank :
    (fuel end cur_doc : ℕ) (cs : List Cursor) (q : Topk)
    → end - cur_doc < fuel
    → All (IsValid end) cs
    → All (λ c. cur_doc ≤ docid c) cs
    → ranked_or_loop fuel end cs cur_doc q ≡ some (rank (doc_score cs) cur_doc end q)
unfolding ranked_or_loop
ranked_or_loop-rank zero end cur_doc cs q h v above = absurd (omega arith)
ranked_or_loop-rank (suc fuel) end cur_doc cs q h v above = elim (Bool-cases (ltb cur_doc end)) [
  | inr over ↦
      rw (over, ranked_or_loop)
        (ap some (sym (rank_empty (doc_score cs) cur_doc end q (ground arith))))
  | inl inside ↦
      let lt : cur_doc < end = ground arith in
      let p = passed end cur_doc cs q lt v above in
      rw (inside, ranked_or_loop)
        (ranked_or_loop-rank fuel end _ _ _ (omega (arith, p.grows lt)) p.kept.valid p.above
          ∙ ap some (sym (pass-ranks end cur_doc cs q lt v above)))
]

-- The exhaustive evaluation ends, and its queue is the one to which every document before
-- `max_docid` was offered with its whole score, for cursors whose lists ascend below a universe
-- of `max_docid` at least and whose maximum scores bound the scores of their postings.
pub ranked_or_query_exhaustive :
    (cs : List Cursor) (max_docid : ℕ) (q : Topk)
    → All (IsValid max_docid) cs
    → ranked_or_query cs max_docid q ≡ some (rank (doc_score cs) 0 max_docid q)
unfolding ranked_or_query
ranked_or_query_exhaustive [] max_docid q v = ap some (
    sym
      (rank_refused (doc_score []) 0 max_docid q (λ d _ _. unfold doc_score in would_enter-zero q)))
ranked_or_query_exhaustive (c ∷ cs) max_docid q v =
    ranked_or_loop-rank (suc max_docid) max_docid (min_docid c cs) (c ∷ cs) q (omega arith) v
      (min_docid-least c cs)
    ∙ ap some (rank_from_least max_docid (min_docid c cs) (c ∷ cs) q v (min_docid-least c cs))
