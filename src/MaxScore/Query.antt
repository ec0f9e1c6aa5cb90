-- ===== src/MaxScore/Query.antt =====
-- MaxScore over the whole collection, and what the order of the cursors does not change.
use anytime_daat.Prelude.{
  ℕ, suc, ◌≡◌, refl, ap, sym, ◌∙◌, fun_ext, inl, inr, List, [], ◌∷◌, Permᴰ, Permᴰ-refl, Permᴰ-symm,
  some, All, All-Permᴰ, sum_over-Permᴰ, ltb, Bool-cases,
}
use anytime_daat.Topk.{Topk}
use anytime_daat.Topk.Order.{IsSound}
use anytime_daat.Rank.{rank, rank_refused, would_enter-zero}
use anytime_daat.Cursor.{Cursor, get_range_max_score}
use anytime_daat.Cursor.Valid.{IsValid, gives}
use anytime_daat.Cursor.Lists.{doc_score}
use anytime_daat.Ranges.{ClusterMap, enter_range, range_and_score, bound_sum, sort_ranges}
use anytime_daat.Ranges.Spec.{whole_score, gives_whole, Ranked, Ranks, NoBlocks, plain-Ranks}
use anytime_daat.Ranges.Order.{range_order, ids}
use anytime_daat.MaxScore.{insert_by_max, sorted, maxscore_until, maxscore_query}
use anytime_daat.MaxScore.Until.{maxscore_until-Ranked_cons}

insert_by_max-Permᴰ : (c : Cursor) (cs : List Cursor) → Permᴰ (insert_by_max c cs) (c ∷ cs)
unfolding insert_by_max
insert_by_max-Permᴰ c [] = Permᴰ-refl (c ∷ [])
insert_by_max-Permᴰ c (e ∷ es) = elim (Bool-cases (ltb c.max_score e.max_score)) [
  | inl h ↦ rw h (Permᴰ.trans (Permᴰ.cons refl (insert_by_max-Permᴰ c es)) (Permᴰ.swap refl refl))
  | inr h ↦ rw h (Permᴰ-refl (c ∷ e ∷ es))
]

pub sorted-Permᴰ : (cs : List Cursor) → Permᴰ (sorted cs) cs
unfolding sorted
sorted-Permᴰ [] = Permᴰ.nil
sorted-Permᴰ (c ∷ cs) =
    Permᴰ.trans (insert_by_max-Permᴰ c (sorted cs)) (Permᴰ.cons refl (sorted-Permᴰ cs))

maxscore_until-Ranked :
    (end : ℕ) (cs : List Cursor) (q : Topk)
    → All (IsValid end) cs
    → IsSound q
    → (r : List Cursor × Topk) × (maxscore_until end cs q ≡ some r) × Ranked end cs q r
maxscore_until-Ranked end [] q v sound = (
  ([], q),
  unfold maxscore_until in refl,
  record {
    same = Permᴰ.nil;
    result =
        sym (rank_refused (doc_score []) 0 end q (λ d _ _. unfold doc_score in would_enter-zero q));
  },
)
maxscore_until-Ranked end (c ∷ cs) q v sound = maxscore_until-Ranked_cons end c cs q v sound

pub maxscore-Ranks : Ranks NoBlocks IsValid enter_range maxscore_until
maxscore-Ranks = plain-Ranks maxscore_until maxscore_until-Ranked

doc_score-sorted : (cs : List Cursor) → doc_score (sorted cs) ≡ doc_score cs
unfolding doc_score
doc_score-sorted cs = fun_ext (λ d. sum_over-Permᴰ (gives d) (sorted-Permᴰ cs))

pub whole_score-sorted : (cs : List Cursor) → whole_score (sorted cs) ≡ whole_score cs
unfolding whole_score
whole_score-sorted cs = fun_ext (λ d. sum_over-Permᴰ (gives_whole d) (sorted-Permᴰ cs))

range_and_score-sorted :
    (cs : List Cursor) (k : ℕ) (m : ClusterMap)
    → range_and_score (sorted cs) k m ≡ range_and_score cs k m
unfolding range_and_score
range_and_score-sorted cs k [] = refl
range_and_score-sorted cs k (r ∷ m) =
    let bound : bound_sum (sorted cs) k ≡ bound_sum cs k =
      unfold bound_sum in sum_over-Permᴰ (λ c. get_range_max_score c k) (sorted-Permᴰ cs) in
    let rest = range_and_score-sorted cs (suc k) m in λ i. (k, bound i) ∷ rest i

pub range_order-sorted :
    (cs : List Cursor) (m : ClusterMap) → range_order (sorted cs) m ≡ range_order cs m
unfolding range_order
range_order-sorted cs m = ap (λ rs. ids (sort_ranges rs)) (range_and_score-sorted cs 0 m)

-- MaxScore ends, and its queue is the one to which every document before `max_docid` was offered
-- with its whole score, for cursors whose lists ascend below a universe of `max_docid` at least
-- and whose maximum scores bound the scores of their postings, from any sound queue.
pub maxscore_query_exhaustive :
    (cs : List Cursor) (max_docid : ℕ) (q : Topk)
    → All (IsValid max_docid) cs
    → IsSound q
    → maxscore_query cs max_docid q ≡ some (rank (doc_score cs) 0 max_docid q)
unfolding maxscore_query
maxscore_query_exhaustive [] max_docid q v sound = ap some (
    sym
      (rank_refused (doc_score []) 0 max_docid q (λ d _ _. unfold doc_score in would_enter-zero q)))
maxscore_query_exhaustive (c ∷ cs) max_docid q v sound =
    let valid = All-Permᴰ (IsValid max_docid) (Permᴰ-symm (sorted-Permᴰ (c ∷ cs))) v in
    let (r, runs, done) = maxscore_until-Ranked max_docid (sorted (c ∷ cs)) q valid sound in
    rw (runs, maxscore_query)
      (ap some (done.result ∙ ap (λ f. rank f 0 max_docid q) (doc_score-sorted (c ∷ cs))))
