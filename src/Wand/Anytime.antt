-- ===== src/Wand/Anytime.antt =====
-- The queries of WAND over ranges.
use Prim.Native.Nat.{min}
use anytime_daat.Prelude.{
  ℕ, ◌≤◌, ◌<◌, ◌≡◌, refl, ap, ◌∙◌, inr, List, ◌∷◌, some, All, length, take, true, false, arith,
}
use anytime_daat.Topk.{Topk, topk_queue}
use anytime_daat.Topk.Order.{IsSound}
use anytime_daat.Topk.Counts.{count_above}
use anytime_daat.Rank.Within.{documents_where, Rises}
use anytime_daat.Ranges.Complete.{take-range_order, range_order-Permᴰ, rank_ranges-Rises}
use anytime_daat.Cursor.{Cursor}
use anytime_daat.Ranges.{ClusterMap}
use anytime_daat.Ranges.Spec.{whole_score, Indexed, All-NoBlocks, rank_ranges, in_ranges}
use anytime_daat.Ranges.Correct.{ordered_loop-ranks}
use anytime_daat.Ranges.Order.{range_order, sorted-Scored, sort_ranges-IsFalling}
use anytime_daat.Ranges.Boundsum.{boundsum_loop-ranks}
use anytime_daat.Ranges.Deadline.{Timed, Visits-all, timeout_loop-Visits}
use anytime_daat.Wand.{
  wand_until, ordered_range_query, boundsum_range_query, boundsum_timeout_query,
}
use anytime_daat.Wand.Correct.{wand-Ranks}

module _ (c : Cursor) (cs : List Cursor) (m : ClusterMap) (q : Topk) (ix : All (Indexed m) (c ∷ cs))
    (sound : IsSound q) where
  -- The query over selected ranges ends, and ranks the documents of the first `max_clusters` of
  -- them by their whole scores.
  -- All this for cursors that fit the map (Indexed), a sound queue and selected ranges of the map.
  pub ordered_range_query_ranks :
      (selected : List ℕ) (max_clusters : ℕ)
      → All (λ s. s < length m) selected
      → ordered_range_query (c ∷ cs) m selected max_clusters q
        ≡ some (rank_ranges (whole_score (c ∷ cs)) m (take max_clusters selected) q)
  unfolding ordered_range_query
  ordered_range_query_ranks selected max_clusters h =
      ordered_loop-ranks wand_until wand-Ranks m true max_clusters 0 max_clusters selected (c ∷ cs)
        q (omega arith) h ix (All-NoBlocks (c ∷ cs)) sound

  -- The query by bound sums ends, and leaves the queue that ranks the first `max_clusters` ranges
  -- of the order, also where it ended before at a bound that cannot enter.
  -- All this for cursors that fit the map (Indexed) and a sound queue.
  pub boundsum_range_query_ranks :
      (max_clusters : ℕ)
      → boundsum_range_query (c ∷ cs) m max_clusters q
        ≡ some (rank_ranges (whole_score (c ∷ cs)) m (take max_clusters (range_order (c ∷ cs) m)) q)
  unfolding boundsum_range_query range_order
  boundsum_range_query_ranks max_clusters =
      boundsum_loop-ranks wand_until wand-Ranks m false max_clusters 0 max_clusters _ (c ∷ cs) q
        (omega arith) (sorted-Scored (c ∷ cs) m) (sort_ranges-IsFalling _) ix
        (All-NoBlocks (c ∷ cs)) sound

  -- The query with a deadline ends, and has ranked the first n ranges of the order, for some n
  -- up to all of them. The clock was in time after every number of ranges from 1 up to n - 1
  -- (InTime); and either n is 1 at least and the clock is late after n ranges (IsLate), or the
  -- queue is the one that all ranges leave (Timed).
  -- All this for cursors that fit the map (Indexed) and a sound queue.
  pub boundsum_timeout_query_ranks :
      (timeout risk scale : ℕ) (clock : ℕ → ℕ)
      → Timed
          (λ n. rank_ranges (whole_score (c ∷ cs)) m (take n (range_order (c ∷ cs) m)) q)
          (length m)
          risk
          scale
          timeout
          clock
          (boundsum_timeout_query (c ∷ cs) m timeout risk scale clock q)
  unfolding boundsum_timeout_query range_order
  boundsum_timeout_query_ranks timeout risk scale clock =
      Visits-all m (c ∷ cs) q risk scale timeout clock _ (
        timeout_loop-Visits wand_until wand-Ranks m (λ _ _ _. true) risk scale timeout clock
          (λ r es u ixs scored enters. refl) 0 0 _ (c ∷ cs) q (inr (refl, refl))
          (sorted-Scored (c ∷ cs) m) (sort_ranges-IsFalling _) ix (All-NoBlocks (c ∷ cs)) sound)

  -- With room for every range the query by bound sums is safe: over a map whose ranges rise up
  -- to the size of the collection (Rises), as those of all_ranges do, it ends, and a fresh queue
  -- then holds the scores of the k best of all documents that the ranges hold (in_ranges),
  -- whatever ranges the bounds let it skip.
  -- All this for cursors that fit the map (Indexed) and a sound queue.
  pub boundsum_range_query_safe :
      (max_clusters k documents_count n : ℕ)
      → q ≡ topk_queue k
      → 1 ≤ k
      → length m ≤ max_clusters
      → Rises 0 documents_count m
      → (r : Topk) × (boundsum_range_query (c ∷ cs) m max_clusters q ≡ some r)
        × (count_above n r.entries
            ≡ min k (
                count_above n
                  (documents_where (whole_score (c ∷ cs)) (λ d. in_ranges d m) documents_count 0)))
  boundsum_range_query_safe max_clusters k documents_count n fresh room enough rises =
      let f = whole_score (c ∷ cs) in
      let order = range_order (c ∷ cs) m in
      (
        rank_ranges f m order (topk_queue k),
        boundsum_range_query_ranks max_clusters
            ∙ ap some (
                ap (λ ss. rank_ranges f m ss q) (take-range_order max_clusters (c ∷ cs) m enough)
                ∙ ap (rank_ranges f m order) fresh),
        rank_ranges-Rises f m documents_count k order n room rises (range_order-Permᴰ (c ∷ cs) m),
      )
