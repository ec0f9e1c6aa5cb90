-- ===== src/Agreement.antt =====
-- The algorithms of include/pisa/query/algorithm against each other, and against the best documents.
use anytime_daat.Prelude.{ℕ, ◌≤◌, ◌≡◌, sym, ◌∙◌, List, some, All, length, subst}
use anytime_daat.Topk.{Topk, topk_queue}
use anytime_daat.Topk.Order.{IsSound}
use anytime_daat.Topk.Best.{IsBest, offer-IsBest}
use anytime_daat.Rank.{rank}
use anytime_daat.Rank.Offers.{documents, rank-offer}
use anytime_daat.Cursor.{Cursor}
use anytime_daat.Cursor.Valid.{IsValid}
use anytime_daat.Cursor.Lists.{doc_score}
use anytime_daat.Wand.{wand_query}
use anytime_daat.Wand.Correct.{wand_query_exhaustive}
use anytime_daat.MaxScore.{maxscore_query}
use anytime_daat.MaxScore.Query.{maxscore_query_exhaustive}
use anytime_daat.RankedOr.{ranked_or_query}
use anytime_daat.RankedOr.Correct.{ranked_or_query_exhaustive}
use anytime_daat.Taat.{ranked_or_taat_query}
use anytime_daat.Taat.Correct.{ranked_or_taat_query_exhaustive}

-- Run on the same cursors from a sound queue, WAND, MaxScore, the exhaustive query and the query
-- term by term, with an accumulator of the collection's size, give the same queue, the order of
-- its entries and the choice among equal scores included.
-- The cursors are valid up to `max_docid` (IsValid).
pub algorithms_agree :
    (cs : List Cursor) (max_docid : ℕ) (acc : List ℕ) (q : Topk)
    → All (IsValid max_docid) cs
    → IsSound q
    → length acc ≡ max_docid
    → (wand_query cs max_docid q ≡ ranked_or_query cs max_docid q)
      × (maxscore_query cs max_docid q ≡ ranked_or_query cs max_docid q)
      × (ranked_or_taat_query cs max_docid acc q ≡ ranked_or_query cs max_docid q)
algorithms_agree cs max_docid acc q v sound size =
    let result = sym (ranked_or_query_exhaustive cs max_docid q v) in
    (
      wand_query_exhaustive cs max_docid q v ∙ result,
      maxscore_query_exhaustive cs max_docid q v sound ∙ result,
      ranked_or_taat_query_exhaustive cs max_docid acc q size v ∙ result,
    )

-- WAND from a fresh queue with room ends with a queue that holds the best documents before
-- `max_docid`: what it holds and what it dropped are together all of them, and none dropped
-- scores more than its threshold.
-- The cursors are valid up to `max_docid` (IsValid).
pub wand_query-IsBest :
    (cs : List Cursor) (max_docid k : ℕ)
    → 1 ≤ k
    → All (IsValid max_docid) cs
    → (r : Topk) × (wand_query cs max_docid (topk_queue k) ≡ some r)
      × IsBest (documents (doc_score cs) 0 max_docid) r
wand_query-IsBest cs max_docid k room v = (
  rank (doc_score cs) 0 max_docid (topk_queue k),
  wand_query_exhaustive cs max_docid (topk_queue k) v,
  subst (IsBest (documents (doc_score cs) 0 max_docid))
      (sym (rank-offer (doc_score cs) 0 max_docid (topk_queue k)))
      (offer-IsBest k (documents (doc_score cs) 0 max_docid) room),
)
