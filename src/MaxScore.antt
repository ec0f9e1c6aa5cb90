-- ===== src/MaxScore.antt =====
-- include/pisa/query/algorithm/maxscore_query.hpp: MaxScore, over the whole collection or over
-- the ranges of clusters. The vector of cursors is split at first_lookup: `essential` stands
-- before it and `lookup` from it on. first_upper_bound always has the same position.
pub mod Passes
pub mod Document
pub mod Split
pub mod Correct
pub mod Until
pub mod Query
pub mod Anytime
use anytime_daat.Prelude.{
  ℕ, zero, suc, ◌+◌, List, [], ◌∷◌, ◌++◌, Option, none, some, Bool, true, false, length, take, drop,
  map, get_or, get_elem?, ltb, leb, ◌==◌, if◌then◌else◌,
}
use anytime_daat.Topk.{Topk, would_enter, try_insert}
use anytime_daat.Cursor.{Cursor, docid, score, next, next_geq}
use anytime_daat.Ranges.{
  ClusterMap, enter_range, range_and_score, sort_ranges, ordered_loop, boundsum_loop, timeout_loop,
}

-- sorted(): by falling maximum score. std::sort leaves the order of equal ones open.
unfoldable pub insert_by_max : Cursor → List Cursor → List Cursor
insert_by_max c [] = c ∷ []
insert_by_max c (e ∷ es) =
    if ltb c.max_score e.max_score then e ∷ insert_by_max c es else c ∷ e ∷ es

unfoldable pub sorted : List Cursor → List Cursor
unfolding insert_by_max
sorted [] = []
sorted (c ∷ cs) = insert_by_max c (sorted cs)

-- calc_upper_bounds(): at each position the sum of the maximum scores from there on. The loop
-- goes from the back, and `bound` is what it has at the position before.
unfoldable pub calc_upper_bounds : List Cursor → List ℕ
calc_upper_bounds [] = []
calc_upper_bounds (c ∷ cs) =
    let bounds = calc_upper_bounds cs in (get_or bounds 0 0 + c.max_score) ∷ bounds

-- min_docid(), of a list that is not empty.
unfoldable pub min_docid : Cursor → List Cursor → ℕ
min_docid c [] = docid c
min_docid c (e ∷ es) = let least = min_docid e es in if ltb least (docid c) then least else docid c

-- update_non_essential_lists(): the new position of first_lookup. It short-circuits when that
-- is the first one.
unfoldable pub update_non_essential_lists : Topk → List ℕ → ℕ → ℕ
update_non_essential_lists q upper_bounds zero = zero
update_non_essential_lists q upper_bounds (suc i) =
    let further = update_non_essential_lists q upper_bounds i in
    if would_enter q (get_or upper_bounds i 0) then suc i else further

-- The for_each over the essential cursors: the score, the next document and the cursors.
unfoldable pub essential_pass : ℕ → ℕ → ℕ → List Cursor → ℕ × ℕ × List Cursor
essential_pass current sum next_docid [] = (sum, next_docid, [])
essential_pass current sum next_docid (c ∷ cs) =
    let here = docid c == current in
    let moved = if here then next c else c in
    let sum' = if here then sum + score c else sum in
    let next_docid' = if ltb (docid moved) next_docid then docid moved else next_docid in
    let rest = essential_pass current sum' next_docid' cs in (rest.0, rest.1, moved ∷ rest.2)

-- The loop over the lookup cursors: whether the document is to be inserted, its score, and the
-- cursors.
unfoldable pub lookup_pass : Topk → ℕ → ℕ → List ℕ → List Cursor → Bool × ℕ × List Cursor
lookup_pass q current sum bounds [] = (true, sum, [])
lookup_pass q current sum bounds (c ∷ cs) = elim (would_enter q (sum + get_or bounds 0 0)) [
  | false ↦ (false, sum, c ∷ cs)
  | true ↦
      (let moved = next_geq c current in
        let sum' = if docid moved == current then sum + score moved else sum in
        let rest = lookup_pass q current sum' (drop 1 bounds) cs in
        (rest.0, rest.1, moved ∷ rest.2))
]

-- The variables of the loop.
pub record State : Type 0 where
  pub essential : List Cursor
  pub lookup : List Cursor
  pub next_docid : ℕ
  pub topk : Topk

-- first_lookup moves back to the position `i`.
unfoldable pub split_at : ℕ → State → State
split_at i s = record s { essential = take i s.essential; lookup = drop i s.essential ++ s.lookup }

-- One document, from the test of next_docid on: the state behind it, and whether the loop goes
-- on. A document that is skipped leaves the queue and the split alone.
unfoldable pub visit : ℕ → List ℕ → State → State × Bool
unfolding essential_pass lookup_pass update_non_essential_lists split_at
visit end upper_bounds s =
    let current = s.next_docid in
    let (sum, next_docid, essential) = essential_pass current 0 end s.essential in
    let bounds = drop (length s.essential) upper_bounds in
    let (status, total, lookup) = lookup_pass s.topk current sum bounds s.lookup in
    let (topk, inserted) = try_insert s.topk total current in
    let skipped : State = record {
      essential = essential;
      lookup = lookup;
      next_docid = next_docid;
      topk = s.topk;
    } in
    let kept : State = record {
      essential = essential;
      lookup = lookup;
      next_docid = next_docid;
      topk = topk;
    } in
    let first_lookup = update_non_essential_lists topk upper_bounds (length essential) in
    if status
    then (if inserted then (split_at first_lookup kept, ltb 0 first_lookup) else (kept, true))
    else (skipped, true)

-- The loop with fuel; `none` means that the fuel ran out. Where next_docid reaches the end of a
-- range, the code falls through to an insert of the score 0 at `end`, which never enters.
unfoldable pub maxscore_loop : ℕ → ℕ → List ℕ → State → Option State
maxscore_loop zero end upper_bounds s = none
maxscore_loop (suc fuel) end upper_bounds s = elim (leb end s.next_docid) [
  | true ↦ some s
  | false ↦ elim (visit end upper_bounds s).1 [
    | true ↦ maxscore_loop fuel end upper_bounds (visit end upper_bounds s).0
    | false ↦ some (visit end upper_bounds s).0
  ]
]

unfoldable pub start_state : Cursor → List Cursor → Topk → State
unfolding min_docid
start_state c cs q = record {
  essential = c ∷ cs;
  lookup = [];
  next_docid = min_docid c cs;
  topk = q;
}

-- What runs over sorted cursors up to `end`. next_docid grows in every round.
unfoldable pub maxscore_until : ℕ → List Cursor → Topk → Option (List Cursor × Topk)
unfolding maxscore_loop start_state calc_upper_bounds update_non_essential_lists split_at
maxscore_until end [] q = some ([], q)
maxscore_until end (c ∷ cs) q =
    let upper_bounds = calc_upper_bounds (c ∷ cs) in
    let first_lookup = update_non_essential_lists q upper_bounds (length (c ∷ cs)) in
    let start = split_at first_lookup (start_state c cs q) in
    elim (ltb 0 first_lookup) [
      | false ↦ some (c ∷ cs, q)
      | true ↦ elim (maxscore_loop (suc end) end upper_bounds start) [
        | none ↦ none
        | some s ↦ some (s.essential ++ s.lookup, s.topk)
      ]
    ]

-- operator().
unfoldable pub maxscore_query : List Cursor → ℕ → Topk → Option Topk
maxscore_query [] max_docid q = some q
maxscore_query (c ∷ cs) max_docid q = elim (maxscore_until max_docid (sorted (c ∷ cs)) q) [
  | none ↦ none
  | some (cs', q') ↦ some q'
]

-- ordered_range_query, with the map m_range_to_docid. The order of the cursors stays that of
-- their maximum scores over the whole collection.
unfoldable pub ordered_range_query : List Cursor → ClusterMap → List ℕ → ℕ → Topk → Option Topk
ordered_range_query [] m selected_ranges max_clusters q = some q
ordered_range_query (c ∷ cs) m selected_ranges max_clusters q =
    ordered_loop maxscore_until enter_range true m max_clusters 0 selected_ranges (sorted (c ∷ cs))
      q

unfoldable pub boundsum_range_query : List Cursor → ClusterMap → ℕ → Topk → Option Topk
boundsum_range_query [] m max_clusters q = some q
boundsum_range_query (c ∷ cs) m max_clusters q =
    let cursors = sorted (c ∷ cs) in
    let ranges = sort_ranges (range_and_score cursors 0 m) in
    boundsum_loop maxscore_until enter_range false m max_clusters 0 ranges cursors q

-- Whether the clock is read after a range: the code goes on to the next range at once where the
-- first update short-circuits.
unfoldable pub reads_clock : ClusterMap → ℕ → List Cursor → Topk → Bool
unfolding calc_upper_bounds update_non_essential_lists enter_range
reads_clock m shard cs q = elim (get_elem? m shard) [
  | none ↦ true
  | some (start, end) ↦
      (let set = map (enter_range start shard) cs in
        ltb 0 (update_non_essential_lists q (calc_upper_bounds set) (length set)))
]

-- boundsum_timeout_query, with the risk factor `risk` / `scale`, and the time that the clock
-- shows after each number of ranges.
unfoldable pub boundsum_timeout_query :
    List Cursor → ClusterMap → ℕ → ℕ → ℕ → (ℕ → ℕ) → Topk → Option Topk
boundsum_timeout_query [] m timeout risk scale clock q = some q
boundsum_timeout_query (c ∷ cs) m timeout risk scale clock q =
    let cursors = sorted (c ∷ cs) in
    let ranges = sort_ranges (range_and_score cursors 0 m) in
    timeout_loop maxscore_until enter_range (reads_clock m) m risk scale timeout clock 0 0 0 ranges
      cursors q
