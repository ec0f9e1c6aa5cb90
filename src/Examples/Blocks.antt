-- ===== src/Examples/Blocks.antt =====
-- Block-max WAND, on the same lists with two blocks each.
use Prim.Native.Nat.{min}
use anytime_daat.Prelude.{ℕ, ◌≡◌, refl, List, [], ◌∷◌, some, All, take, arith, inl, inr}
use anytime_daat.Topk.{Topk, topk_queue}
use anytime_daat.Topk.Counts.{count_above}
use anytime_daat.Rank.{rank}
use anytime_daat.Rank.Within.{documents_where}
use anytime_daat.Cursor.{Cursor, Block}
use anytime_daat.Cursor.Valid.{IsValid}
use anytime_daat.Cursor.Lists.{doc_score}
use anytime_daat.Ranges.Spec.{in_ranges, whole_score, Indexed, rank_ranges}
use anytime_daat.Ranges.Order.{range_order}
use anytime_daat.Ranges.Deadline.{Timed}
use anytime_daat.BlockMaxWand
use anytime_daat.BlockMaxWand.Query.{Ready, Static, block_max_wand_query_exhaustive}
use anytime_daat.BlockMaxWand.Anytime.{block_max_timeout_ranks, block_max_boundsum_safe}
use anytime_daat.Examples.{
  clusters-Rises, first, second, entry, clusters, clock, fresh-IsSound, first-IsValid,
  second-IsValid, first-Indexed, second-Indexed,
}

abbrev block : ℕ → ℕ → Block
block l b = record { last = l; best = b }

abbrev with_blocks : List Block → Cursor → Cursor
with_blocks bs c = record c { block_list = bs; blocks = bs }

abbrev pub first' : Cursor
first' = with_blocks (block 3 2 ∷ block 5 4 ∷ []) first

abbrev pub second' : Cursor
second' = with_blocks (block 3 5 ∷ block 7 2 ∷ []) second

abbrev pub blocked : List Cursor
blocked = first' ∷ second' ∷ []

IsValid-with : (bs : List Block) (c : Cursor) → IsValid 8 c → IsValid 8 (with_blocks bs c)
IsValid-with bs c v = record {
  ascending = v.ascending;
  below = v.below;
  bounded = v.bounded;
  reach = v.reach;
}

first'-Static : Static first'
first'-Static = (
  omega arith,
  (
    inl (omega arith, omega arith),
    (inl (omega arith, omega arith), (inr (omega arith, inl (omega arith, omega arith)), tt)),
  ),
)

second'-Static : Static second'
second'-Static = (
  omega arith,
  (
    inl (omega arith, omega arith),
    (
      inr (omega arith, inl (omega arith, omega arith)),
      (inr (omega arith, inl (omega arith, omega arith)), tt),
    ),
  ),
)

blocked-Static : All Static blocked
blocked-Static = (first'-Static, (second'-Static, tt))

pub blocked-Ready : All (Ready 8) blocked
blocked-Ready = (
  (IsValid-with _ first first-IsValid, first'-Static.0, first'-Static.1),
  ((IsValid-with _ second second-IsValid, second'-Static.0, second'-Static.1), tt),
)

blocked-Indexed : All (Indexed clusters) blocked
unfolding anytime_daat.Cursor.get_range_max_score
blocked-Indexed = (first-Indexed, (second-Indexed, tt))

-- The two best documents.
run_query :
    BlockMaxWand.block_max_wand_query blocked 8 (topk_queue 2)
    ≡ some (record { threshold = 4; k = 2; entries = entry 4 5 ∷ entry 6 3 ∷ [] })
unfolding BlockMaxWand.block_max_wand_query BlockMaxWand.block_until BlockMaxWand.block_loop
    BlockMaxWand.visit_blocks anytime_daat.Cursor.Lists.sort_enums anytime_daat.Cursor.docid
    anytime_daat.Topk.would_enter topk_queue anytime_daat.Cursor.Lists.total_remaining
    anytime_daat.Cursor.Valid.remaining anytime_daat.Cursor.block_max_score
    anytime_daat.Wand.docid_at anytime_daat.Cursor.next anytime_daat.Topk.insert
    anytime_daat.Cursor.score anytime_daat.Wand.advance_by anytime_daat.Cursor.next_geq
run_query = refl

block_max_wand_query_exhaustive_example :
    BlockMaxWand.block_max_wand_query blocked 8 (topk_queue 2)
    ≡ some (rank (doc_score blocked) 0 8 (topk_queue 2))
block_max_wand_query_exhaustive_example =
    block_max_wand_query_exhaustive blocked 8 (topk_queue 2) blocked-Ready fresh-IsSound

block_max_timeout_ranks_example :
    Timed
      (λ n.
        rank_ranges
          (whole_score blocked)
          clusters
          (take n (range_order blocked clusters))
          (topk_queue 2))
      2
      1
      1
      4
      clock
      (BlockMaxWand.boundsum_timeout_query blocked clusters 4 1 1 clock (topk_queue 2))
block_max_timeout_ranks_example =
    block_max_timeout_ranks first' (second' ∷ []) clusters (topk_queue 2) blocked-Indexed
      blocked-Static fresh-IsSound 4 1 1 clock

block_max_boundsum_safe_example :
    (r : Topk) × (BlockMaxWand.boundsum_range_query blocked clusters 2 (topk_queue 2) ≡ some r)
    × (count_above 3 r.entries
        ≡ min 2
            (count_above 3 (documents_where (whole_score blocked) (λ d. in_ranges d clusters) 8 0)))
block_max_boundsum_safe_example =
    block_max_boundsum_safe first' (second' ∷ []) clusters (topk_queue 2) blocked-Indexed
      blocked-Static fresh-IsSound 2 2 8 3 refl (omega arith) (omega arith) clusters-Rises
