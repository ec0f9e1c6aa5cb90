-- ===== src/WandData.antt =====
-- include/pisa/wand_utils.hpp, wand_data_raw.hpp and wand_data.hpp: the blocks and the range bounds
-- of a list, how an enumerator reads them, and the ranges of the collection. The cursors of
-- include/pisa/cursor/block_max_scored_cursor.hpp are made from these.
pub mod Blocks
pub mod RangeScores
pub mod Ends
pub mod Built
pub mod Queries
use Prim.Native.Nat.{max}
use anytime_daat.Prelude.{
  ℕ, zero, suc, ◌+◌, ◌-◌, ◌*◌, ◌/◌, List, [], ◌∷◌, Bool, true, false, map, ltb, ◌==◌, ◌||◌,
  replicate, length, get_or, ◌++◌, if◌then◌else◌,
}
use anytime_daat.Ranges.{ClusterMap}
use anytime_daat.Cursor.{Posting, Block, Cursor}

-- The blocks that the loop of static_block_partition pushes from posting `i` on, and the one
-- behind it. `last` is the last document so far, and `block_size` is not 0.
unfoldable pub block_partition : (ℕ → ℕ → ℕ) → ℕ → ℕ → ℕ → ℕ → ℕ → List Posting → List Block
block_partition scorer block_size i current_block block_max_score last [] =
    record { last = last; best = block_max_score } ∷ []
block_partition scorer block_size i current_block block_max_score last (p ∷ ps) =
    let s = scorer p.doc p.freq in
    let same = (i == 0) || (i / block_size == current_block) in
    let rest =
      block_partition scorer block_size (suc i) (if same then current_block else suc current_block)
        (if same then max block_max_score s else max 0 s) p.doc ps in
    if same then rest else record { last = p.doc - 1; best = block_max_score } ∷ rest

-- The ranges of the same loop, which variable_block_partition has too, each with its best score.
unfoldable pub range_partition : (ℕ → ℕ → ℕ) → (ℕ → ℕ) → ℕ → ℕ → List Posting → List (ℕ × ℕ)
range_partition scorer doc_to_range current_range range_max_score [] =
    (current_range, range_max_score) ∷ []
range_partition scorer doc_to_range current_range range_max_score (p ∷ ps) =
    let s = scorer p.doc p.freq in
    let same = doc_to_range p.doc == current_range in
    let rest =
      range_partition scorer doc_to_range (doc_to_range p.doc)
        (if same then max range_max_score s else max 0 s) ps in
    if same then rest else (current_range, range_max_score) ∷ rest

-- What the partition of a list returns.
pub record Partition : Type 0 where
  pub blocks : List Block
  pub ranges : List (ℕ × ℕ)

-- A list has a posting at least.
unfoldable pub static_block_partition :
    (ℕ → ℕ → ℕ) → ℕ → (ℕ → ℕ) → Posting → List Posting → Partition
unfolding block_partition range_partition
static_block_partition scorer block_size doc_to_range p ps = record {
  blocks = block_partition scorer block_size 0 0 0 0 (p ∷ ps);
  ranges = range_partition scorer doc_to_range (doc_to_range p.doc) 0 (p ∷ ps);
}

-- enumerator::range_score: the walk stops at the last range, or at the first that is not before
-- `range_id`.
unfoldable pub range_score : ℕ → List (ℕ × ℕ) → ℕ
range_score range_id [] = 0
range_score range_id ((r, w) ∷ []) = if r == range_id then w else 0
range_score range_id ((r, w) ∷ x ∷ rs) =
    let rest = range_score range_id (x ∷ rs) in
    let here = if r == range_id then w else 0 in if ltb r range_id then rest else here

-- The maximum of the list, which add_sequence takes of the maxima of its blocks.
unfoldable pub max_element : List Block → ℕ
max_element [] = 0
max_element (b ∷ bs) = max b.best (max_element bs)

-- The map of wand_data.hpp from documents to ranges, by the ends of the clusters: the documents
-- from `doc_id` on, one entry each.
unfoldable pub doc_ranges : ℕ → ℕ → List ℕ → List ℕ
doc_ranges doc_id cluster_id [] = []
doc_ranges doc_id cluster_id (end ∷ ends) =
    replicate (end - doc_id) cluster_id ++ doc_ranges (max doc_id end) (suc cluster_id) ends

unfoldable pub doc_to_range : List ℕ → ℕ → ℕ
unfolding doc_ranges
doc_to_range ends d = get_or (doc_ranges 0 0 ends) d 0

-- all_ranges, from the lower end `lower` on: the ranges that the queries visit.
unfoldable pub all_ranges : ℕ → List ℕ → ClusterMap
all_ranges lower [] = []
all_ranges lower (upper ∷ uppers) = (lower, upper) ∷ all_ranges (suc upper) uppers

-- The scores of `n` ranges from `k` on, as get_range_max_score reads them of the enumerator.
unfoldable pub range_scores : ℕ → ℕ → List (ℕ × ℕ) → List ℕ
unfolding range_score
range_scores k zero rs = []
range_scores k (suc n) rs = range_score k rs ∷ range_scores (suc k) n rs

-- make_block_max_scored_cursors, for one term with its weight in the query.
unfoldable pub make_cursor : (ℕ → ℕ → ℕ) → ℕ → ℕ → ℕ → Partition → List Posting → Cursor
unfolding range_scores max_element
make_cursor scorer weight universe num_ranges wdata list = record {
  list = list;
  rest = list;
  universe = universe;
  term_scorer = scorer;
  query_weight = weight;
  max_score = weight * max_element wdata.blocks;
  range_scores = range_scores 0 num_ranges wdata.ranges;
  block_list = wdata.blocks;
  blocks = wdata.blocks;
}

-- A term of a query, with its list in the index.
pub record Term : Type 0 where
  pub term_scorer : ℕ → ℕ → ℕ
  pub weight : ℕ
  pub first : Posting
  pub others : List Posting

-- The cursor of a term on the WAND data that were built of its list.
unfoldable pub cursor_of : ℕ → List ℕ → ℕ → Term → Cursor
unfolding static_block_partition make_cursor doc_to_range
cursor_of block_size ends num_docs t =
    make_cursor t.term_scorer t.weight num_docs (length ends)
      (static_block_partition t.term_scorer block_size (doc_to_range ends) t.first t.others)
      (t.first ∷ t.others)

unfoldable pub cursors_of : ℕ → List ℕ → ℕ → List Term → List Cursor
unfolding cursor_of
cursors_of block_size ends num_docs ts = map (cursor_of block_size ends num_docs) ts
