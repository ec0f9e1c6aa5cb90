-- ===== src/BlockPostings/Enumerator.antt =====
-- document_enumerator. The pointers are the bytes from where they point.
use anytime_daat.Prelude.{
  ℕ, zero, suc, ◌+◌, ◌-◌, ◌*◌, ◌%◌, ◌^◌, List, [], ◌∷◌, Bool, true, false, none, some, take, drop,
  get_or, ltb, ◌==◌, if◌then◌else◌,
}
use anytime_daat.PayloadVector.{of_bytes}
use anytime_daat.VariableByte.{decode}
use anytime_daat.BlockPostings.{BlockCodec, sub32, ceil_div, cur_block_size}

-- What the constructor finds, and the state.
pub record DocumentEnumerator : Type 0 where
  pub n : ℕ
  pub blocks : ℕ
  pub block_maxs : List ℕ
  pub block_endpoints : List ℕ
  pub blocks_data : List ℕ
  pub universe : ℕ
  pub cur_block : ℕ
  pub pos_in_block : ℕ
  pub cur_block_max : ℕ
  pub cur_size : ℕ
  pub cur_docid : ℕ
  pub freqs_block_data : List ℕ
  pub freqs_decoded : Bool
  pub docs_buf : List ℕ
  pub freqs_buf : List ℕ

-- ((uint32_t const*)table)[i].
unfoldable pub word_at : List ℕ → ℕ → ℕ
word_at table i = of_bytes (take 4 (drop (i * 4) table))

unfoldable pub block_max : DocumentEnumerator → ℕ → ℕ
block_max e block = word_at e.block_maxs block

-- m_docs_buf[0] += cur_base.
unfoldable pub add_base : ℕ → List ℕ → List ℕ
add_base base [] = []
add_base base (d ∷ ds) = (d + base) % 2 ^ 32 ∷ ds

module _ (codec : BlockCodec) where
  unfoldable pub decode_docs_block : DocumentEnumerator → ℕ → DocumentEnumerator
  decode_docs_block e block =
      let endpoint = if block == 0 then 0 else word_at e.block_endpoints (block - 1) in
      let block_data = drop endpoint e.blocks_data in
      let size = cur_block_size codec e.n block in
      let cur_base = if block == 0 then 0 else (block_max e (block - 1) + 1) % 2 ^ 32 in
      let decoded =
        codec.decode block_data (sub32 (sub32 (block_max e block) cur_base) (sub32 size 1)) size in
      record e {
        cur_size = size;
        cur_block_max = block_max e block;
        freqs_block_data = decoded.1;
        docs_buf = add_base cur_base decoded.0;
        cur_block = block;
        pos_in_block = 0;
        cur_docid = get_or (add_base cur_base decoded.0) 0 0;
        freqs_decoded = false;
      }

  unfoldable pub reset : DocumentEnumerator → DocumentEnumerator
  reset e = decode_docs_block e 0

  -- The constructor. Where the bytes end before the number of postings does, the code reads past
  -- them, and here there is no posting.
  unfoldable pub document_enumerator : List ℕ → ℕ → DocumentEnumerator
  document_enumerator bytes universe = elim (decode 1 bytes) [
    | none ↦ at 0 []
    | some (ns, base) ↦ at (get_or ns 0 0) base
  ]
    where
      at : ℕ → List ℕ → DocumentEnumerator
      at n base =
          let blocks = ceil_div n codec.block_size in
          reset (record {
            n = n;
            blocks = blocks;
            block_maxs = base;
            block_endpoints = drop (4 * blocks) base;
            blocks_data = drop (4 * (blocks - 1)) (drop (4 * blocks) base);
            universe = universe;
            cur_block = 0;
            pos_in_block = 0;
            cur_block_max = 0;
            cur_size = 0;
            cur_docid = 0;
            freqs_block_data = [];
            freqs_decoded = false;
            docs_buf = [];
            freqs_buf = [];
          })

  -- m_cur_docid += m_docs_buf[++m_pos_in_block] + 1.
  unfoldable pub step : DocumentEnumerator → DocumentEnumerator
  step e = record e {
    pos_in_block = e.pos_in_block + 1;
    cur_docid = (e.cur_docid + get_or e.docs_buf (e.pos_in_block + 1) 0 + 1) % 2 ^ 32;
  }

  unfoldable pub next : DocumentEnumerator → DocumentEnumerator
  next e =
      if e.pos_in_block + 1 == e.cur_size
      then if e.cur_block + 1 == e.blocks
        then record e { pos_in_block = e.pos_in_block + 1; cur_docid = e.universe % 2 ^ 32 }
        else decode_docs_block e (e.cur_block + 1)
      else step e

  -- The loops over the blocks and in a block, on fuel: the last block ends the one, the end of the
  -- block the other.
  unfoldable pub find_block : ℕ → DocumentEnumerator → ℕ → ℕ → ℕ
  find_block zero e lower_bound block = block
  find_block (suc fuel) e lower_bound block =
      let rest = find_block fuel e lower_bound (block + 1) in
      if ltb (block_max e block) lower_bound then rest else block

  unfoldable pub find_document : ℕ → DocumentEnumerator → ℕ → DocumentEnumerator
  find_document zero e lower_bound = e
  find_document (suc fuel) e lower_bound =
      let rest = find_document fuel (step e) lower_bound in
      if ltb e.cur_docid lower_bound then rest else e

  unfoldable pub next_geq : DocumentEnumerator → ℕ → DocumentEnumerator
  next_geq e lower_bound =
      let block = find_block e.blocks e lower_bound (e.cur_block + 1) in
      if ltb e.cur_block_max lower_bound
      then if ltb (block_max e (e.blocks - 1)) lower_bound
        then record e { cur_docid = e.universe % 2 ^ 32 }
        else find_document codec.block_size (decode_docs_block e block) lower_bound
      else find_document codec.block_size e lower_bound

  unfoldable pub global_geq : DocumentEnumerator → ℕ → DocumentEnumerator
  global_geq e lower_bound =
      let block = find_block e.blocks e lower_bound 0 in
      if ltb (block_max e (e.blocks - 1)) lower_bound
      then record e { cur_docid = e.universe % 2 ^ 32 }
      else find_document codec.block_size (decode_docs_block e block) lower_bound

  unfoldable pub position : DocumentEnumerator → ℕ
  position e = e.cur_block * codec.block_size + e.pos_in_block

  unfoldable pub decode_freqs_block : DocumentEnumerator → DocumentEnumerator
  decode_freqs_block e = record e {
    freqs_buf = (codec.decode e.freqs_block_data (2 ^ 32 - 1) e.cur_size).0;
    freqs_decoded = true;
  }

  -- `freq`, with the state that it leaves.
  unfoldable pub freq : DocumentEnumerator → DocumentEnumerator × ℕ
  freq e =
      let e' = if e.freqs_decoded then e else decode_freqs_block e in
      (e', (get_or e'.freqs_buf e'.pos_in_block 0 + 1) % 2 ^ 32)
