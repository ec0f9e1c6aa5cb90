-- ===== src/BlockMaxWand.antt =====
-- include/pisa/query/algorithm/block_max_wand_query.hpp: WAND with the bounds of blocks, over the
-- whole collection or over the ranges of clusters.
pub mod Blocks
pub mod Moved
pub mod Pivot
pub mod Scores
pub mod Round
pub mod Evaluated
pub mod Correct
pub mod Query
pub mod Anytime
use anytime_daat.Prelude.{
  ℕ, zero, suc, ◌+◌, ◌-◌, ◌*◌, List, [], ◌∷◌, Option, none, some, true, false, ltb, leb, ◌==◌, take,
  drop, sum_over, if◌then◌else◌,
}
use anytime_daat.Topk.{Topk, would_enter, insert}
use anytime_daat.Cursor.{
  Cursor, docid, score, next, block_max_docid, block_max_score, block_max_next_geq,
  block_max_global_geq,
}
use anytime_daat.Cursor.Lists.{bubble, sort_enums, total_remaining}
use anytime_daat.Ranges.{
  ClusterMap, enter_range, range_and_score, sort_ranges, ordered_loop, boundsum_loop, timeout_loop,
}
use anytime_daat.Wand.{find_pivot, docid_at, next_list, advance_by}

-- The pivot moves on over the cursors that stand at the same document.
unfoldable pub same_docs : ℕ → List Cursor → ℕ
same_docs p [] = 0
same_docs p (c ∷ cs) = let more = suc (same_docs p cs) in if docid c == p then more else 0

unfoldable pub extend_pivot : List Cursor → ℕ → ℕ
unfolding same_docs
extend_pivot [] i = i
extend_pivot (c ∷ cs) zero = same_docs (docid c) cs
extend_pivot (c ∷ cs) (suc i) = suc (extend_pivot cs i)

unfoldable pub move_block : ℕ → Cursor → Cursor
unfolding block_max_docid block_max_next_geq
move_block p c = if ltb (block_max_docid c) p then block_max_next_geq c p else c

-- The blocks of the first `n` cursors move up to the pivot's document.
unfoldable pub move_blocks : ℕ → ℕ → List Cursor → List Cursor
unfolding move_block
move_blocks p zero cs = cs
move_blocks p (suc n) [] = []
move_blocks p (suc n) (c ∷ cs) = move_block p c ∷ move_blocks p n cs

unfoldable pub block_weight : Cursor → ℕ
block_weight c = block_max_score c * c.query_weight

-- block_upper_bound, of the cursors up to the pivot.
unfoldable pub block_upper_bound : List Cursor → ℕ
unfolding block_weight
block_upper_bound cs = sum_over block_weight cs

-- The scores of the cursors at the pivot, until the bound shows that the document cannot enter.
-- `bound` is block_upper_bound so far, in which the weight of every cursor to come stands.
unfoldable pub block_scores : Topk → ℕ → ℕ → ℕ → List Cursor → ℕ
unfolding block_weight
block_scores q p sum bound [] = sum
block_scores q p sum bound (c ∷ cs) =
    let part_score = score c in
    let bound' = bound + part_score - block_weight c in
    let rest = block_scores q p (sum + part_score) bound' cs in
    if docid c == p then if would_enter q bound' then rest else sum + part_score else sum

-- All cursors at the pivot advance.
unfoldable pub next_all : ℕ → List Cursor → List Cursor
next_all p [] = []
next_all p (c ∷ cs) = let rest = next_all p cs in if docid c == p then next c ∷ rest else c ∷ cs

-- A cursor moves behind the cursors at smaller documents, and behind those at its own.
unfoldable pub bubble_past : Cursor → List Cursor → List Cursor
bubble_past c [] = c ∷ []
bubble_past c (e ∷ es) = if leb (docid e) (docid c) then e ∷ bubble_past c es else c ∷ e ∷ es

-- The position of the greatest maximum score: `best` at first, which a greater one replaces.
unfoldable pub heaviest : ℕ → ℕ → ℕ → List Cursor → ℕ
heaviest best weight i [] = best
heaviest best weight i (c ∷ cs) =
    let greater = ltb weight c.max_score in
    heaviest (if greater then i else best) (if greater then c.max_score else weight) (suc i) cs

unfoldable pub max_score_at : List Cursor → ℕ → ℕ
max_score_at [] i = 0
max_score_at (c ∷ cs) zero = c.max_score
max_score_at (c ∷ cs) (suc i) = max_score_at cs i

-- The least last document of the cursors' blocks, or `next` if that is less.
unfoldable pub least_block_docid : ℕ → List Cursor → ℕ
least_block_docid next [] = next
least_block_docid next (c ∷ cs) =
    least_block_docid (if ltb (block_max_docid c) next then block_max_docid c else next) cs

-- No further than the first cursor behind the pivot.
unfoldable pub up_to_docid : ℕ → List Cursor → ℕ
up_to_docid next [] = next
up_to_docid next (c ∷ cs) = if ltb (docid c) next then docid c else next

-- Where to go when the blocks cannot bring a document in: `front` are the cursors up to the pivot
-- and `back` the others.
unfoldable pub skip_to : ℕ → ℕ → List Cursor → List Cursor → ℕ
unfolding least_block_docid up_to_docid
skip_to end p front back =
    let next = up_to_docid (suc (least_block_docid end front)) back in
    if leb next p then suc p else next

-- One round of the loop with a pivot, the first one that find_pivot gives.
unfoldable pub visit_blocks : ℕ → List Cursor → Topk → ℕ → List Cursor × Topk
unfolding extend_pivot move_blocks block_upper_bound block_scores next_all heaviest max_score_at
    skip_to
visit_blocks end cs q first_pivot =
    let p = docid_at cs first_pivot in
    let pivot = extend_pivot cs first_pivot in
    let moved = move_blocks p (suc pivot) cs in
    let bound = block_upper_bound (take (suc pivot) moved) in
    let list = heaviest pivot (max_score_at moved pivot) 0 (take pivot moved) in
    let to = skip_to end p (take (suc pivot) moved) (drop (suc pivot) moved) in
    if would_enter q bound
    then if p == docid_at moved 0
      then (sort_enums (next_all p moved), insert q (block_scores q p 0 bound moved) p)
      else (advance_by bubble_past moved (next_list moved p pivot) p, q)
    else (advance_by bubble moved list to, q)

-- The loop with fuel; `none` means that the fuel ran out.
unfoldable pub block_loop : ℕ → ℕ → List Cursor → Topk → Option (List Cursor × Topk)
unfolding find_pivot
block_loop zero end cs q = none
block_loop (suc fuel) end cs q = elim (find_pivot q end 0 cs) [
  | none ↦ some (cs, q)
  | some pivot ↦ block_loop fuel end (visit_blocks end cs q pivot).0 (visit_blocks end cs q pivot).1
]

-- The algorithm from the first sort_cursors on, for the documents before `end`. Every round takes
-- a posting at least.
unfoldable pub block_until : ℕ → List Cursor → Topk → Option (List Cursor × Topk)
unfolding block_loop
block_until end cs q = block_loop (suc (total_remaining cs)) end (sort_enums cs) q

-- operator().
unfoldable pub block_max_wand_query : List Cursor → ℕ → Topk → Option Topk
block_max_wand_query [] max_docid q = some q
block_max_wand_query (c ∷ cs) max_docid q = elim (block_until max_docid (c ∷ cs) q) [
  | none ↦ none
  | some (cs', q') ↦ some q'
]

-- A cursor is set to a range: global_geq, block_max_global_geq and update_range_max_score.
unfoldable pub enter_blocks : ℕ → ℕ → Cursor → Cursor
unfolding enter_range block_max_global_geq
enter_blocks start shard c = enter_range start shard (block_max_global_geq c start)

unfoldable pub ordered_range_query : List Cursor → ClusterMap → List ℕ → ℕ → Topk → Option Topk
ordered_range_query [] m selected_ranges max_clusters q = some q
ordered_range_query (c ∷ cs) m selected_ranges max_clusters q =
    ordered_loop block_until enter_blocks true m max_clusters 0 selected_ranges (c ∷ cs) q

unfoldable pub boundsum_range_query : List Cursor → ClusterMap → ℕ → Topk → Option Topk
boundsum_range_query [] m max_clusters q = some q
boundsum_range_query (c ∷ cs) m max_clusters q =
    let ranges = sort_ranges (range_and_score (c ∷ cs) 0 m) in
    boundsum_loop block_until enter_blocks false m max_clusters 0 ranges (c ∷ cs) q

-- boundsum_timeout_query, with the risk factor `risk` / `scale`, and the time that the clock
-- shows after each number of ranges.
unfoldable pub boundsum_timeout_query :
    List Cursor → ClusterMap → ℕ → ℕ → ℕ → (ℕ → ℕ) → Topk → Option Topk
boundsum_timeout_query [] m timeout risk scale clock q = some q
boundsum_timeout_query (c ∷ cs) m timeout risk scale clock q =
    let ranges = sort_ranges (range_and_score (c ∷ cs) 0 m) in
    timeout_loop block_until enter_blocks (λ _ _ _. true) m risk scale timeout clock 0 0 0 ranges
      (c ∷ cs) q
