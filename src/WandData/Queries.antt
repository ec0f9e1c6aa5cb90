-- ===== src/WandData/Queries.antt =====
-- The queries on built WAND data.
use anytime_daat.Prelude.{ℕ, ◌≡◌, sym, ◌∙◌, List, ◌∷◌, some, All, take}
use anytime_daat.Topk.{Topk}
use anytime_daat.Topk.Order.{IsSound}
use anytime_daat.Ranges.Spec.{whole_score, rank_ranges}
use anytime_daat.Ranges.Order.{range_order}
use anytime_daat.Wand.{wand_query}
use anytime_daat.MaxScore.{maxscore_query}
use anytime_daat.RankedOr.{ranked_or_query}
use anytime_daat.RankedOr.Correct.{ranked_or_query_exhaustive}
use anytime_daat.Wand.Correct.{wand_query_exhaustive}
use anytime_daat.MaxScore.Query.{maxscore_query_exhaustive}
use anytime_daat.BlockMaxWand.{block_max_wand_query, boundsum_range_query}
use anytime_daat.BlockMaxWand.Query.{block_max_wand_query_exhaustive}
use anytime_daat.BlockMaxWand.Anytime.{block_max_boundsum_ranks}
use anytime_daat.WandData.{Term, all_ranges, cursors_of}
use anytime_daat.WandData.Ends.{IsEnds}
use anytime_daat.WandData.Built.{IsTerm, cursors_of-Indexed}

-- On WAND data built of the lists of the query's terms, with blocks of a fixed size, block-max
-- WAND, WAND and MaxScore give the queue of the exhaustive query, from a sound queue.
-- The ends of the clusters rise up to the size of the collection, and the lists ascend below it.
pub built_queries_agree :
    (size u : ℕ) (ends : List ℕ) (ts : List Term) (q : Topk)
    → IsEnds 0 u ends
    → All (IsTerm u) ts
    → IsSound q
    → (block_max_wand_query (cursors_of size ends u ts) u q
        ≡ ranked_or_query (cursors_of size ends u ts) u q)
      × (wand_query (cursors_of size ends u ts) u q
          ≡ ranked_or_query (cursors_of size ends u ts) u q)
      × (maxscore_query (cursors_of size ends u ts) u q
          ≡ ranked_or_query (cursors_of size ends u ts) u q)
built_queries_agree size u ends ts q h ok sound =
    let cs = cursors_of size ends u ts in
    let (_, valid, _, ready) = cursors_of-Indexed size u ends ts h ok in
    let result = sym (ranked_or_query_exhaustive cs u q valid) in
    (
      block_max_wand_query_exhaustive cs u q ready sound ∙ result,
      wand_query_exhaustive cs u q valid ∙ result,
      maxscore_query_exhaustive cs u q valid sound ∙ result,
    )

-- On WAND data built of the lists of the query's terms, the block-max WAND query by bound sums
-- over the ranges of the collection ends, and leaves the queue that ranks the first
-- `max_clusters` ranges of the order by the whole scores, from a sound queue.
-- The ends of the clusters rise up to the size of the collection, and the lists ascend below it.
pub built_boundsum_ranks :
    (size u max_clusters : ℕ) (ends : List ℕ) (t : Term) (ts : List Term) (q : Topk)
    → IsEnds 0 u ends
    → All (IsTerm u) (t ∷ ts)
    → IsSound q
    → boundsum_range_query (cursors_of size ends u (t ∷ ts)) (all_ranges 0 ends) max_clusters q
      ≡ some (
          rank_ranges
            (whole_score (cursors_of size ends u (t ∷ ts)))
            (all_ranges 0 ends)
            (take max_clusters (range_order (cursors_of size ends u (t ∷ ts)) (all_ranges 0 ends)))
            q)
unfolding cursors_of
built_boundsum_ranks size u max_clusters ends t ts q h ok sound =
    let (indexed, _, static, _) = cursors_of-Indexed size u ends (t ∷ ts) h ok in
    block_max_boundsum_ranks _ _ (all_ranges 0 ends) q (unfold cursors_of in indexed)
      (unfold cursors_of in static) sound max_clusters
