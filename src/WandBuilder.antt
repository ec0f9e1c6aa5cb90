-- ===== src/WandBuilder.antt =====
-- The builder of include/pisa/wand_data_raw.hpp, which keeps the blocks and the ranges of all lists
-- in flat vectors, and the enumerator that it has for a list.
pub mod Flat
pub mod RoundTrip
use anytime_daat.Prelude.{
  ℕ, suc, ◌+◌, ◌-◌, ◌%◌, ◌^◌, List, [], ◌∷◌, ◌++◌, length, take, drop, get_or,
}
use anytime_daat.Cursor.{Block}
use anytime_daat.WandData.{Partition, max_element}

-- block_docid and block_max_term_weight stand as one vector of blocks, range_id and
-- range_max_term_weight as one vector of ranges.
pub record Builder : Type 0 where
  pub max_term_weight : List ℕ
  pub blocks_start : List ℕ
  pub blocks : List Block
  pub ranges_start : List ℕ
  pub ranges : List (ℕ × ℕ)

abbrev pub builder : Builder
builder = record {
  max_term_weight = [];
  blocks_start = 0 ∷ [];
  blocks = [];
  ranges_start = 0 ∷ [];
  ranges = [];
}

unfoldable pub back : List ℕ → ℕ
back [] = 0
back (x ∷ []) = x
back (x ∷ y ∷ ys) = back (y ∷ ys)

-- add_sequence, for a list whose partition is `t`.
unfoldable pub add_sequence : Builder → Partition → Builder
unfolding back max_element
add_sequence b t = record {
  max_term_weight = b.max_term_weight ++ (max_element t.blocks ∷ []);
  blocks_start = b.blocks_start ++ ((length t.blocks + back b.blocks_start) ∷ []);
  blocks = b.blocks ++ t.blocks;
  ranges_start = b.ranges_start ++ ((length t.ranges + back b.ranges_start) ∷ []);
  ranges = b.ranges ++ t.ranges;
}

unfoldable pub add_sequences : Builder → List Partition → Builder
unfolding add_sequence
add_sequences b [] = b
add_sequences b (t ∷ ts) = add_sequences (add_sequence b t) ts

-- The difference of two starts, in 64 bits, as the enumerator's constructor takes it, in 32.
unfoldable pub narrow_difference : ℕ → ℕ → ℕ
narrow_difference a b = (a + 2 ^ 64 - b) % 2 ^ 64 % 2 ^ 32

-- get_enum: the blocks and the ranges that the enumerator of list `i` reads. Its constructor takes
-- the starts and the numbers as uint32_t.
unfoldable pub get_enum : Builder → ℕ → Partition
get_enum b i =
    let block_start = get_or b.blocks_start i 0 % 2 ^ 32 in
    let block_number =
      narrow_difference (get_or b.blocks_start (suc i) 0) (get_or b.blocks_start i 0) in
    let range_start = get_or b.ranges_start i 0 % 2 ^ 32 in
    let range_number =
      narrow_difference (get_or b.ranges_start (suc i) 0) (get_or b.ranges_start i 0) in
    record {
      blocks = take block_number (drop block_start b.blocks);
      ranges = take range_number (drop range_start b.ranges);
    }
