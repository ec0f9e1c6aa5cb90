-- ===== src/Ranges.antt =====
-- The visits of clusters in include/pisa/query/algorithm/wand_query.hpp and maxscore_query.hpp:
-- the loops of ordered_range_query, boundsum_range_query and boundsum_timeout_query, which the
-- two files share but for the algorithm inside a range. That one is a parameter here.
pub mod Spec
pub mod Enter
pub mod Correct
pub mod Order
pub mod Boundsum
pub mod Deadline
pub mod Complete
use anytime_daat.Prelude.{
  ℕ, zero, suc, ◌+◌, ◌*◌, List, [], ◌∷◌, map, Option, none, some, Bool, true, false, ◌&&◌, ◌||◌,
  not, get_elem?, sum_over, ltb, ◌==◌, if◌then◌else◌,
}
use anytime_daat.Topk.{Topk, would_enter}
use anytime_daat.Cursor.{Cursor, global_geq, get_range_max_score, update_range_max_score}
use anytime_daat.Cursor.Lists.{total_max_score}

-- include/pisa/clusters.hpp: cluster_map, the first document of each cluster and the one behind
-- its last.
abbrev pub ClusterMap : Type 0
ClusterMap = List (ℕ × ℕ)

-- What runs inside a range, up to its end. `none` is a fault, or fuel that ran out.
abbrev pub RangeAlgorithm : Type 0
RangeAlgorithm = ℕ → List Cursor → Topk → Option (List Cursor × Topk)

-- What sets a cursor to a range, given its start and its identifier.
abbrev pub RangeEntry : Type 0
RangeEntry = ℕ → ℕ → Cursor → Cursor

-- A cursor is set to a range: global_geq, then update_range_max_score.
unfoldable pub enter_range : ℕ → ℕ → Cursor → Cursor
unfolding global_geq update_range_max_score
enter_range start shard c = update_range_max_score (global_geq c start) shard

-- BoundSum of one range.
unfoldable pub bound_sum : List Cursor → ℕ → ℕ
bound_sum cs range_id = sum_over (λ c. get_range_max_score c range_id) cs

-- range_and_score: the ranges from `range_id` on, each with its bound sum.
unfoldable pub range_and_score : List Cursor → ℕ → ClusterMap → List (ℕ × ℕ)
unfolding bound_sum
range_and_score cs range_id [] = []
range_and_score cs range_id (r ∷ m) =
    (range_id, bound_sum cs range_id) ∷ range_and_score cs (suc range_id) m

unfoldable pub insert_range : ℕ × ℕ → List (ℕ × ℕ) → List (ℕ × ℕ)
insert_range r [] = r ∷ []
insert_range r (s ∷ rs) = if ltb r.1 s.1 then s ∷ insert_range r rs else r ∷ s ∷ rs

-- The std::sort from high to low; the order of equal bounds is open there.
unfoldable pub sort_ranges : List (ℕ × ℕ) → List (ℕ × ℕ)
unfolding insert_range
sort_ranges [] = []
sort_ranges (r ∷ rs) = insert_range r (sort_ranges rs)

-- One range: the cursors are set to it, a range whose maximum cannot enter is skipped where the
-- code looks at that (`checked`), and the algorithm runs up to its end. A cluster that the map
-- does not have is a fault.
unfoldable pub visit_range :
    RangeAlgorithm
    → RangeEntry
    → Bool
    → ClusterMap
    → ℕ
    → List Cursor
    → Topk
    → Option (List Cursor × Topk)
visit_range run enter checked m shard cs q = elim (get_elem? m shard) [
  | none ↦ none
  | some (start, end) ↦
      (let set = map (enter start shard) cs in
        if checked && not (would_enter q (total_max_score set))
        then some (set, q)
        else run end set q)
]

-- for (shard_id : selected_ranges), with processed_clusters.
unfoldable pub ordered_loop :
    RangeAlgorithm
    → RangeEntry
    → Bool
    → ClusterMap
    → ℕ
    → ℕ
    → List ℕ
    → List Cursor
    → Topk
    → Option Topk
ordered_loop run enter checked m max_clusters processed [] cs q = some q
ordered_loop run enter checked m max_clusters processed (shard ∷ shards) cs q =
    elim (processed == max_clusters) [
      | true ↦ some q
      | false ↦ elim (visit_range run enter checked m shard cs q) [
        | none ↦ none
        | some (cs', q') ↦
            ordered_loop run enter checked m max_clusters (suc processed) shards cs' q'
      ]
    ]

-- for (index : range_and_score), which also ends at a bound that cannot enter.
unfoldable pub boundsum_loop :
    RangeAlgorithm
    → RangeEntry
    → Bool
    → ClusterMap
    → ℕ
    → ℕ
    → List (ℕ × ℕ)
    → List Cursor
    → Topk
    → Option Topk
boundsum_loop run enter checked m max_clusters processed [] cs q = some q
boundsum_loop run enter checked m max_clusters processed (r ∷ rs) cs q =
    elim (processed == max_clusters || not (would_enter q r.1)) [
      | true ↦ some q
      | false ↦ elim (visit_range run enter checked m r.0 cs q) [
        | none ↦ none
        | some (cs', q') ↦ boundsum_loop run enter checked m max_clusters (suc processed) rs cs' q'
      ]
    ]

-- elapsed_latency + risk_factor * mean_latency > timeout_microseconds, with the risk factor as
-- the fraction `risk` / `scale`, and the mean as elapsed_latency over the number of ranges at
-- which the clock was read; all are 0 at first.
unfoldable pub too_late : ℕ → ℕ → ℕ → ℕ → ℕ → Bool
too_late risk scale timeout elapsed read_at =
    ltb (timeout * read_at * scale) (elapsed * read_at * scale + risk * elapsed)

-- The same with a deadline. `clock` gives the elapsed time after each number of ranges, and
-- `reads` says whether the code reads it after a range, from what it has before the range.
unfoldable pub timeout_loop :
    RangeAlgorithm
    → RangeEntry
    → (ℕ → List Cursor → Topk → Bool)
    → ClusterMap
    → ℕ
    → ℕ
    → ℕ
    → (ℕ → ℕ)
    → ℕ
    → ℕ
    → ℕ
    → List (ℕ × ℕ)
    → List Cursor
    → Topk
    → Option Topk
unfolding too_late
timeout_loop run enter reads m risk scale timeout clock processed read_at elapsed [] cs q = some q
timeout_loop run enter reads m risk scale timeout clock processed read_at elapsed (r ∷ rs) cs q =
    elim (too_late risk scale timeout elapsed read_at || not (would_enter q r.1)) [
      | true ↦ some q
      | false ↦ elim (visit_range run enter false m r.0 cs q) [
        | none ↦ none
        | some (cs', q') ↦
            timeout_loop run enter reads m risk scale timeout clock (suc processed)
              (if reads r.0 cs q then suc processed else read_at)
              (if reads r.0 cs q then clock (suc processed) else elapsed) rs cs' q'
      ]
    ]
