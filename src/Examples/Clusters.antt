-- ===== src/Examples/Clusters.antt =====
-- The queries over clusters.
use Prim.Native.Nat.{min}
use anytime_daat.Prelude.{◌≡◌, refl, [], ◌∷◌, some, take, arith}
use anytime_daat.Topk.{Topk, topk_queue}
use anytime_daat.Topk.Counts.{count_above}
use anytime_daat.Rank.Within.{documents_where}
use anytime_daat.Ranges.Spec.{whole_score, rank_ranges, in_ranges}
use anytime_daat.Ranges.Order.{range_order}
use anytime_daat.Ranges.Deadline.{Timed}
use anytime_daat.Wand
use anytime_daat.Wand.Anytime.{
  boundsum_range_query_ranks, boundsum_timeout_query_ranks, boundsum_range_query_safe,
}
use anytime_daat.MaxScore
use anytime_daat.MaxScore.Anytime.{maxscore_timeout_ranks, maxscore_boundsum_safe}
use anytime_daat.Examples.{
  clusters-Rises, first, second, cursors, clusters, clock, fresh-IsSound, cursors-Indexed,
}

boundsum_range_query_ranks_example :
    Wand.boundsum_range_query cursors clusters 1 (topk_queue 2)
    ≡ some (
        rank_ranges
          (whole_score cursors)
          clusters
          (take 1 (range_order cursors clusters))
          (topk_queue 2))
boundsum_range_query_ranks_example =
    boundsum_range_query_ranks first (second ∷ []) clusters (topk_queue 2) cursors-Indexed
      fresh-IsSound 1

boundsum_timeout_query_ranks_example :
    Timed
      (λ n.
        rank_ranges
          (whole_score cursors)
          clusters
          (take n (range_order cursors clusters))
          (topk_queue 2))
      2
      1
      1
      4
      clock
      (Wand.boundsum_timeout_query cursors clusters 4 1 1 clock (topk_queue 2))
boundsum_timeout_query_ranks_example =
    boundsum_timeout_query_ranks first (second ∷ []) clusters (topk_queue 2) cursors-Indexed
      fresh-IsSound 4 1 1 clock

boundsum_range_query_safe_example :
    (r : Topk) × (Wand.boundsum_range_query cursors clusters 2 (topk_queue 2) ≡ some r)
    × (count_above 3 r.entries
        ≡ min 2
            (count_above 3 (documents_where (whole_score cursors) (λ d. in_ranges d clusters) 8 0)))
boundsum_range_query_safe_example =
    boundsum_range_query_safe first (second ∷ []) clusters (topk_queue 2) cursors-Indexed
      fresh-IsSound 2 2 8 3 refl (omega arith) (omega arith) clusters-Rises

maxscore_timeout_ranks_example :
    Timed
      (λ n.
        rank_ranges
          (whole_score cursors)
          clusters
          (take n (range_order cursors clusters))
          (topk_queue 2))
      2
      1
      1
      4
      clock
      (MaxScore.boundsum_timeout_query cursors clusters 4 1 1 clock (topk_queue 2))
maxscore_timeout_ranks_example =
    maxscore_timeout_ranks first (second ∷ []) clusters (topk_queue 2) cursors-Indexed fresh-IsSound
      4 1 1 clock

maxscore_boundsum_safe_example :
    (r : Topk) × (MaxScore.boundsum_range_query cursors clusters 2 (topk_queue 2) ≡ some r)
    × (count_above 3 r.entries
        ≡ min 2
            (count_above 3 (documents_where (whole_score cursors) (λ d. in_ranges d clusters) 8 0)))
maxscore_boundsum_safe_example =
    maxscore_boundsum_safe first (second ∷ []) clusters (topk_queue 2) cursors-Indexed fresh-IsSound
      2 2 8 3 refl (omega arith) (omega arith) clusters-Rises
