-- ===== src/BlockMaxConjunction.antt =====
-- include/pisa/query/algorithm/block_max_ranked_and_query.hpp: the ranked conjunctive query, which
-- leaves out the documents that the blocks of all lists bound too low.
pub mod Moved
pub mod Round
pub mod Correct
use anytime_daat.Prelude.{
  ℕ, zero, suc, ◌+◌, List, [], ◌∷◌, Option, none, some, true, false, map, ◌==◌, ltb,
}
use anytime_daat.Topk.{Topk, would_enter, insert}
use anytime_daat.Cursor.{Cursor, block_max_next_geq}
use anytime_daat.Conjunction.{sort_by_size, advance_from, next_first, first_docid, total_score}
use anytime_daat.BlockMaxWand.{block_upper_bound, least_block_docid}

-- The blocks of all cursors move up to the candidate.
unfoldable pub blocks_at : ℕ → List Cursor → List Cursor
blocks_at candidate cs = map (λ c. block_max_next_geq c candidate) cs

-- The loop with fuel; `none` means that the fuel ran out. `i` is candidate_list.
unfoldable pub and_loop : ℕ → ℕ → List Cursor → ℕ → ℕ → Topk → Option Topk
and_loop zero max_docid cs candidate i q = none
and_loop (suc fuel) max_docid cs candidate i q =
    let at = blocks_at candidate cs in
    let moved = (advance_from i candidate at).0 in
    let next_jump = least_block_docid max_docid at in
    elim (ltb candidate max_docid) [
      | false ↦ some q
      | true ↦ elim (would_enter q (block_upper_bound at)) [
        | true ↦ elim (advance_from i candidate at).1 [
          | some docid ↦ and_loop fuel max_docid moved docid 0 q
          | none ↦
              and_loop fuel max_docid (next_first moved) (first_docid (next_first moved)) 1
                (insert q (total_score moved) (first_docid moved))
        ]
        | false ↦ elim (candidate == next_jump + 1) [
          | true ↦ and_loop fuel max_docid at max_docid 0 q
          | false ↦ and_loop fuel max_docid at (next_jump + 1) 0 q
        ]
      ]
    ]

-- The candidate grows in every round, but for one step back when the blocks of a list have ended,
-- after which two rounds are left.
unfoldable pub block_max_ranked_and_query : List Cursor → ℕ → Topk → Option Topk
block_max_ranked_and_query [] max_docid q = some q
block_max_ranked_and_query (c ∷ cs) max_docid q =
    let ordered_cursors = sort_by_size (c ∷ cs) in
    and_loop (max_docid + 3) max_docid ordered_cursors (first_docid ordered_cursors) 1 q
