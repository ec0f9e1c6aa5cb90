-- ===== src/Examples/Joins.antt =====
-- The conjunctive queries on the two lists.
use anytime_daat.Prelude.{◌≡◌, refl, [], ◌∷◌, some}
use anytime_daat.Topk.{topk_queue, insert}
use anytime_daat.Cursor.Lists.{doc_score}
use anytime_daat.Conjunction.{and_query, ranked_and_query}
use anytime_daat.Conjunction.Visits.{held_by_all, visit_held}
use anytime_daat.Conjunction.Queries.{held_items, and_query-held, ranked_and_query-held}
use anytime_daat.Topk.{Topk, would_enter}
use anytime_daat.Cursor.{
  block_max_docid, block_max_score, block_max_next_geq, docid, next, next_geq, score,
}
use anytime_daat.Conjunction.{advance_from, next_first, first_docid, total_score, sort_by_size}
use anytime_daat.BlockMaxWand.{block_upper_bound, block_weight, least_block_docid}
use anytime_daat.BlockMaxConjunction.{blocks_at, and_loop, block_max_ranked_and_query}
use anytime_daat.BlockMaxConjunction.Correct.{block_max_ranked_and_query-ranked_and_query}
use anytime_daat.Examples.Blocks.{first', second', blocked, blocked-Ready}
use anytime_daat.Examples.{first, second, cursors, first-IsValid, second-IsValid}

-- Document 3 stands in both lists.
and_run : and_query cursors 8 ≡ some (3 ∷ [])
unfolding and_query anytime_daat.Cursor.docid anytime_daat.Cursor.next_geq anytime_daat.Cursor.next
and_run = refl

and_query-held_example : and_query cursors 8 ≡ some (held_items (held_by_all cursors) (λ d. d) 8 0)
and_query-held_example = and_query-held first (second ∷ []) 8 (first-IsValid, (second-IsValid, tt))

ranked_and_query-held_example :
    ranked_and_query cursors 8 (topk_queue 2)
    ≡ some (
        visit_held
          (held_by_all cursors)
          (λ d r. insert r (doc_score cursors d) d)
          0
          8
          (topk_queue 2))
ranked_and_query-held_example =
    ranked_and_query-held first (second ∷ []) 8 (topk_queue 2) (first-IsValid, (second-IsValid, tt))

-- With blocks, the query leaves the same queue.
block_max_run :
    block_max_ranked_and_query blocked 8 (topk_queue 2) ≡ ranked_and_query blocked 8 (topk_queue 2)
unfolding block_max_ranked_and_query and_loop blocks_at advance_from next_first first_docid
    total_score sort_by_size ranked_and_query block_upper_bound block_weight least_block_docid
    block_max_docid block_max_score block_max_next_geq docid next next_geq score would_enter insert
    topk_queue
block_max_run = refl

block_max_ranked_and_query-ranked_and_query_example :
    (r : Topk) × (block_max_ranked_and_query blocked 8 (topk_queue 2) ≡ some r)
    × (ranked_and_query blocked 8 (topk_queue 2) ≡ some r)
block_max_ranked_and_query-ranked_and_query_example =
    block_max_ranked_and_query-ranked_and_query first' (second' ∷ []) 8 (topk_queue 2) blocked-Ready
