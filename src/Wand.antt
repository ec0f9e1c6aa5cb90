-- ===== src/Wand.antt =====
-- include/pisa/query/algorithm/wand_query.hpp: WAND, over the whole collection or over the
-- ranges of clusters. A list of cursors stands for the vector ordered_cursors.
pub mod Pivot
pub mod Scored
pub mod Advanced
pub mod Correct
pub mod Anytime
use anytime_daat.Prelude.{
  ℕ, zero, suc, ◌+◌, List, [], ◌∷◌, Option, none, some, leb, ◌==◌, true, false, if◌then◌else◌,
}
use anytime_daat.Topk.{Topk, would_enter, insert}
use anytime_daat.Cursor.{Cursor, docid, score, next, next_geq}
use anytime_daat.Ranges.{
  ClusterMap, enter_range, range_and_score, sort_ranges, ordered_loop, boundsum_loop, timeout_loop,
}
use anytime_daat.Cursor.Lists.{bubble, sort_enums, total_remaining}

abbrev pub one_later : Option ℕ → Option ℕ
one_later none = none
one_later (some i) = some (suc i)

-- The first position where the sum of the maximum scores may enter the queue; none if the
-- documents reach `end` before it. `bound` is upper_bound so far.
unfoldable pub find_pivot : Topk → ℕ → ℕ → List Cursor → Option ℕ
find_pivot q end bound [] = none
find_pivot q end bound (c ∷ cs) =
    let later = one_later (find_pivot q end (bound + c.max_score) cs) in
    if leb end (docid c)
    then none
    else if would_enter q (bound + c.max_score)
    then some 0
    else later

-- The document of the cursor at a position, where there is one.
unfoldable pub docid_at : List Cursor → ℕ → ℕ
docid_at [] i = 0
docid_at (c ∷ cs) zero = docid c
docid_at (c ∷ cs) (suc i) = docid_at cs i

-- The cursors at the pivot give their scores and advance; they stand first.
unfoldable pub take_scores : ℕ → ℕ → List Cursor → ℕ × List Cursor
take_scores pivot_id sum [] = (sum, [])
take_scores pivot_id sum (c ∷ cs) =
    let rest = take_scores pivot_id (sum + score c) cs in
    if docid c == pivot_id then (rest.0, next c ∷ rest.1) else (sum, c ∷ cs)

-- From the pivot back to the last cursor that stands before the pivot's document.
unfoldable pub next_list : List Cursor → ℕ → ℕ → ℕ
next_list cs pivot_id zero = zero
next_list cs pivot_id (suc i) =
    let earlier = next_list cs pivot_id i in
    if docid_at cs (suc i) == pivot_id then earlier else suc i

-- The cursor at a position moves up to a document, and then behind others, as `put` says.
unfoldable pub advance_by : (Cursor → List Cursor → List Cursor) → List Cursor → ℕ → ℕ → List Cursor
advance_by put [] i d = []
advance_by put (c ∷ cs) zero d = put (next_geq c d) cs
advance_by put (c ∷ cs) (suc i) d = c ∷ advance_by put cs i d

-- That cursor moves up to the pivot, and behind the cursors at smaller documents.
unfoldable pub advance_list : List Cursor → ℕ → ℕ → List Cursor
unfolding advance_by
advance_list = advance_by bubble

-- One round of the loop with a pivot.
unfoldable pub visit_pivot : List Cursor → Topk → ℕ → List Cursor × Topk
unfolding take_scores next_list advance_list
visit_pivot cs q pivot =
    let pivot_id = docid_at cs pivot in
    if pivot_id == docid_at cs 0
    then (let scored = take_scores pivot_id 0 cs in
        (sort_enums scored.1, insert q scored.0 pivot_id))
    else (advance_list cs (next_list cs pivot_id pivot) pivot_id, q)

-- The loop with fuel; `none` means that the fuel ran out.
unfoldable pub wand_loop : ℕ → ℕ → List Cursor → Topk → Option (List Cursor × Topk)
wand_loop zero end cs q = none
wand_loop (suc fuel) end cs q = elim (find_pivot q end 0 cs) [
  | none ↦ some (cs, q)
  | some pivot ↦ wand_loop fuel end (visit_pivot cs q pivot).0 (visit_pivot cs q pivot).1
]

-- The part of the algorithm from the first sort_enums on, for the documents before `end`. Every
-- round takes a posting at least.
unfoldable pub wand_until : ℕ → List Cursor → Topk → Option (List Cursor × Topk)
unfolding wand_loop
wand_until end cs q = wand_loop (suc (total_remaining cs)) end (sort_enums cs) q

-- operator(). The cursors are left where they stand; the queue is the result.
unfoldable pub wand_query : List Cursor → ℕ → Topk → Option Topk
wand_query [] max_docid q = some q
wand_query (c ∷ cs) max_docid q = elim (wand_until max_docid (c ∷ cs) q) [
  | none ↦ none
  | some (cs', q') ↦ some q'
]

-- ordered_range_query, with the map m_range_to_docid.
unfoldable pub ordered_range_query : List Cursor → ClusterMap → List ℕ → ℕ → Topk → Option Topk
ordered_range_query [] m selected_ranges max_clusters q = some q
ordered_range_query (c ∷ cs) m selected_ranges max_clusters q =
    ordered_loop wand_until enter_range true m max_clusters 0 selected_ranges (c ∷ cs) q

-- boundsum_range_query. Its second look at the bound of a range never fails: the queue is still
-- the one of the first look.
unfoldable pub boundsum_range_query : List Cursor → ClusterMap → ℕ → Topk → Option Topk
boundsum_range_query [] m max_clusters q = some q
boundsum_range_query (c ∷ cs) m max_clusters q =
    let ranges = sort_ranges (range_and_score (c ∷ cs) 0 m) in
    boundsum_loop wand_until enter_range false m max_clusters 0 ranges (c ∷ cs) q

-- boundsum_timeout_query, with the risk factor `risk` / `scale`, and the time that the clock
-- shows after each number of ranges.
unfoldable pub boundsum_timeout_query :
    List Cursor → ClusterMap → ℕ → ℕ → ℕ → (ℕ → ℕ) → Topk → Option Topk
boundsum_timeout_query [] m timeout risk scale clock q = some q
boundsum_timeout_query (c ∷ cs) m timeout risk scale clock q =
    let ranges = sort_ranges (range_and_score (c ∷ cs) 0 m) in
    timeout_loop wand_until enter_range (λ _ _ _. true) m risk scale timeout clock 0 0 0 ranges
      (c ∷ cs) q
