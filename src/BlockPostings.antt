-- ===== src/BlockPostings.antt =====
-- include/pisa/block_posting_list.hpp: a posting list in blocks, each compressed by a codec, behind
-- a table of the blocks' last documents and one of their places. A uint32_t is a number below
-- 2 ^ 32 of four bytes, the lowest first.
pub mod Enumerator
pub mod Layout
pub mod Chunks
pub mod Tables
pub mod Stored
pub mod Decoded
pub mod Places
pub mod Lists
pub mod Shows
pub mod Found
pub mod Seeks
pub mod Opened
pub mod Refines
use anytime_daat.Prelude.{
  ℕ, zero, suc, ◌+◌, ◌-◌, ◌*◌, ◌/◌, ◌%◌, ◌^◌, List, [], ◌∷◌, ◌++◌, map, length, take, drop, leb,
  ◌==◌, if◌then◌else◌,
}
use anytime_daat.PayloadVector.{to_bytes}
use anytime_daat.VariableByte.{encode_single}

-- BlockCodec: `encode` writes numbers of a given sum, or of any sum if that is 2 ^ 32 - 1; `decode`
-- reads as many numbers as it is asked, and gives the bytes behind them.
pub record BlockCodec : Type 0 where
  pub block_size : ℕ
  pub encode : List ℕ → ℕ → List ℕ
  pub decode : List ℕ → ℕ → ℕ → List ℕ × List ℕ

-- a - b of uint32_t.
unfoldable pub sub32 : ℕ → ℕ → ℕ
sub32 a b = (a + 2 ^ 32 - b) % 2 ^ 32

-- ceil_div of util/util.hpp, for a uint32_t and a divisor below 2 ^ 32.
unfoldable pub ceil_div : ℕ → ℕ → ℕ
ceil_div n d = (n + d - 1) % 2 ^ 32 / d

unfoldable pub all_to_words : List ℕ → List ℕ
all_to_words [] = []
all_to_words (v ∷ vs) = to_bytes 4 v ++ all_to_words vs

-- The loop over the documents of a block, where `base` is last_doc + 1: what docs_buf gets, and
-- last_doc + 1 after it.
unfoldable pub gaps : ℕ → List ℕ → List ℕ
gaps base [] = []
gaps base (doc ∷ docs) = sub32 doc base ∷ gaps ((doc + 1) % 2 ^ 32) docs

unfoldable pub base_after : ℕ → List ℕ → ℕ
base_after base [] = base
base_after base (doc ∷ docs) = base_after ((doc + 1) % 2 ^ 32) docs

-- What the tables and the blocks hold so far.
pub record Written : Type 0 where
  pub block_maxs : List ℕ
  pub block_endpoints : List ℕ
  pub blocks_data : List ℕ

module _ (codec : BlockCodec) where
  unfoldable pub cur_block_size : ℕ → ℕ → ℕ
  cur_block_size n b =
      if leb ((b + 1) * codec.block_size) n then codec.block_size else n % codec.block_size

  -- The two codes of a block.
  unfoldable pub encode_block : ℕ → List ℕ → List ℕ → List ℕ
  encode_block base docs freqs =
      let last_doc = sub32 (base_after base docs) 1 in
      codec.encode (gaps base docs) (sub32 (sub32 last_doc base) (sub32 (length docs) 1))
      ++ codec.encode (map (λ f. sub32 f 1) freqs) (2 ^ 32 - 1)

  -- The loop over the blocks: `left` are left, and `b` is the next.
  unfoldable pub write_loop : ℕ → ℕ → ℕ → ℕ → List ℕ → List ℕ → Written → Written
  write_loop n zero b base docs freqs w = w
  write_loop n (suc left) b base docs freqs w =
      let size = cur_block_size n b in
      let block_base = base_after base (take size docs) in
      let blocks_data = w.blocks_data ++ encode_block base (take size docs) (take size freqs) in
      write_loop n left (suc b) block_base (drop size docs) (drop size freqs) (record {
        block_maxs = w.block_maxs ++ (sub32 block_base 1 ∷ []);
        block_endpoints =
            if left == 0
            then w.block_endpoints
            else w.block_endpoints ++ (length blocks_data % 2 ^ 32 ∷ []);
        blocks_data = blocks_data;
      })

  -- `write`, of a posting at least: the tables stand where `out` was made room for them.
  unfoldable pub write : List ℕ → ℕ → List ℕ → List ℕ → List ℕ
  write out n docs freqs =
      let w =
        write_loop n (ceil_div n codec.block_size) 0 0 docs freqs
          (record { block_maxs = []; block_endpoints = []; blocks_data = [] }) in
      encode_single n out
      ++ (all_to_words w.block_maxs ++ (all_to_words w.block_endpoints ++ w.blocks_data))
