-- ===== src/Taat/Correct.antt =====
-- The query term by term gives what the query document by document gives.
use native.Mathlib.Nat.{zero-add}
use anytime_daat.Prelude.{
  ℕ, suc, ◌+◌, ◌-◌, ◌<◌, ◌≡◌, refl, ap, sym, ◌∙◌, inl, inr, List, [], ◌∷◌, some, All, get_or,
  length, Bool-cases, arith,
}
use anytime_daat.Topk.{Topk, insert, would_enter}
use anytime_daat.Rank.{rank, rank_from, rank_refused, would_enter-zero, insert_refused}
use anytime_daat.Cursor.{Cursor}
use anytime_daat.Cursor.Valid.{IsValid}
use anytime_daat.Cursor.Lists.{doc_score}
use anytime_daat.Taat.{init, aggregate, ranked_or_taat_query}
use anytime_daat.Taat.Accumulate.{accumulate_cursors-Accumulated, get_or-init, length-init}

-- The aggregation offers every document, for scores `f` that the accumulator has from `lo` on.
aggregate-rank_from :
    (f : ℕ → ℕ) (acc : List ℕ) (lo : ℕ) (q : Topk)
    → ((i : ℕ) → i < length acc → get_or acc i 0 ≡ f (lo + i))
    → aggregate acc lo q ≡ rank_from f (length acc) lo q
unfolding aggregate rank_from
aggregate-rank_from f [] lo q h = refl
aggregate-rank_from f (s ∷ acc) lo q h =
    let here : s ≡ f lo = h 0 (omega arith) ∙ ap f (omega arith) in
    let rest = λ (r : Topk).
      aggregate-rank_from f acc (suc lo) r (λ i k. h (suc i) (omega arith) ∙ ap f (omega arith)) in
    elim (Bool-cases (would_enter q s)) [
      | inl e ↦
          rw e (
            rest (insert q s lo) ∙ ap (λ x. rank_from f (length acc) (suc lo) (insert q x lo)) here)
      | inr e ↦ rw e (
          rest q
          ∙ ap (rank_from f (length acc) (suc lo))
              (sym (insert_refused q (f lo) lo (rw here at e))))
    ]

-- The query term by term ends, and its queue is the one to which every document before
-- `max_docid` was offered with its whole score, for an accumulator of that size, whatever it
-- held before, and cursors whose lists ascend below a universe of `max_docid` at least and whose
-- maximum scores bound the scores of their postings.
pub ranked_or_taat_query_exhaustive :
    (cs : List Cursor) (max_docid : ℕ) (acc : List ℕ) (q : Topk)
    → length acc ≡ max_docid
    → All (IsValid max_docid) cs
    → ranked_or_taat_query cs max_docid acc q ≡ some (rank (doc_score cs) 0 max_docid q)
unfolding ranked_or_taat_query
ranked_or_taat_query_exhaustive [] max_docid acc q size v = ap some (
    sym
      (rank_refused (doc_score []) 0 max_docid q (λ d _ _. unfold doc_score in would_enter-zero q)))
ranked_or_taat_query_exhaustive (c ∷ cs) max_docid acc q size v =
    let (acc', runs, a) =
      accumulate_cursors-Accumulated max_docid (c ∷ cs) (init acc) v
        (omega (arith, length-init acc)) in
    let sized : length acc' ≡ max_docid = a.same_size ∙ length-init acc ∙ size in
    let whole : length acc' ≡ max_docid - 0 = omega arith in
    let scores = λ (i : ℕ) (k : i < length acc').
      a.added i (omega arith)
      ∙ ap (λ n. n + doc_score (c ∷ cs) i) (get_or-init acc i)
      ∙ zero-add (doc_score (c ∷ cs) i)
      ∙ ap (doc_score (c ∷ cs)) (sym (zero-add i)) in
    rw (runs, ranked_or_taat_query)
      (ap some (
        aggregate-rank_from (doc_score (c ∷ cs)) acc' 0 q scores
        ∙ ap (λ n. rank_from (doc_score (c ∷ cs)) n 0 q) whole
        ∙ unfold rank in refl))
