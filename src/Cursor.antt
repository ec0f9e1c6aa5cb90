-- ===== src/Cursor.antt =====
-- include/pisa/cursor/scored_cursor.hpp, max_scored_cursor.hpp and block_max_scored_cursor.hpp:
-- cursors over posting lists. `list` is the whole list that the base cursor enumerates and `rest`
-- what it has not passed. m_wdata, whose enumerator is that of include/pisa/wand_data_raw.hpp, has
-- the blocks of the list in `block_list`, and `blocks` are those from cur_pos on.
pub mod Postings
pub mod Valid
pub mod Lists
use anytime_daat.Prelude.{ℕ, ◌*◌, List, [], ◌∷◌, ltb, get_or, if◌then◌else◌}

pub record Posting : Type 0 where
  pub doc : ℕ
  pub freq : ℕ

-- A block of the WAND data: its last document, and the best score of its postings.
pub record Block : Type 0 where
  pub last : ℕ
  pub best : ℕ

pub record Cursor : Type 0 where
  pub list : List Posting
  pub rest : List Posting
  pub universe : ℕ
  pub term_scorer : ℕ → ℕ → ℕ
  pub query_weight : ℕ
  pub max_score : ℕ
  pub range_scores : List ℕ
  pub block_list : List Block
  pub blocks : List Block

unfoldable pub first_doc : List Posting → ℕ → ℕ
first_doc [] u = u
first_doc (p ∷ ps) u = p.doc

unfoldable pub first_freq : List Posting → ℕ
first_freq [] = 0
first_freq (p ∷ ps) = p.freq

-- A cursor past its last posting stands at the universe.
unfoldable pub docid : Cursor → ℕ
unfolding first_doc
docid c = first_doc c.rest c.universe

unfoldable pub freq : Cursor → ℕ
unfolding first_freq
freq c = first_freq c.rest

unfoldable pub score : Cursor → ℕ
unfolding docid freq
score c = c.term_scorer (docid c) (freq c)

unfoldable pub after_first : List Posting → List Posting
after_first [] = []
after_first (p ∷ ps) = ps

unfoldable pub next : Cursor → Cursor
unfolding after_first
next c = record c { rest = after_first c.rest }

-- The postings from the first whose document is at least `d`.
unfoldable pub drop_below : ℕ → List Posting → List Posting
drop_below d [] = []
drop_below d (p ∷ ps) = if ltb p.doc d then drop_below d ps else p ∷ ps

unfoldable pub next_geq : Cursor → ℕ → Cursor
unfolding drop_below
next_geq c d = record c { rest = drop_below d c.rest }

-- `next_geq` from the start of the list, so that a cursor can move backwards.
unfoldable pub global_geq : Cursor → ℕ → Cursor
unfolding drop_below
global_geq c d = record c { rest = drop_below d c.list }

unfoldable pub get_range_max_score : Cursor → ℕ → ℕ
get_range_max_score c range = get_or c.range_scores range 0

unfoldable pub update_range_max_score : Cursor → ℕ → Cursor
unfolding get_range_max_score
update_range_max_score c range = record c {
  max_score = c.query_weight * get_range_max_score c range;
}

-- enumerator::next_geq: cur_pos grows while there is a block behind it and its own ends too soon.
unfoldable pub next_block : ℕ → List Block → List Block
next_block d [] = []
next_block d (b ∷ []) = b ∷ []
next_block d (b ∷ e ∷ bs) =
    let rest = next_block d (e ∷ bs) in if ltb b.last d then rest else b ∷ e ∷ bs

unfoldable pub last_of : List Block → ℕ
last_of [] = 0
last_of (b ∷ bs) = b.last

unfoldable pub best_of : List Block → ℕ
best_of [] = 0
best_of (b ∷ bs) = b.best

unfoldable pub block_max_docid : Cursor → ℕ
unfolding last_of
block_max_docid c = last_of c.blocks

unfoldable pub block_max_score : Cursor → ℕ
unfolding best_of
block_max_score c = best_of c.blocks

unfoldable pub block_max_next_geq : Cursor → ℕ → Cursor
unfolding next_block
block_max_next_geq c d = record c { blocks = next_block d c.blocks }

-- `block_max_next_geq` from the first block.
unfoldable pub block_max_global_geq : Cursor → ℕ → Cursor
unfolding next_block
block_max_global_geq c d = record c { blocks = next_block d c.block_list }
