-- ===== src/BlockPostings/Refines.antt =====
-- Runs of the enumerator on a list that was written, beside those of a cursor on its postings.
use anytime_daat.Prelude.{ℕ, ◌+◌, ◌%◌, ◌^◌, ◌<◌, ◌≤◌, ◌≡◌, List, [], ◌∷◌, length, get_or}
use anytime_daat.Cursor
use anytime_daat.Cursor.{Cursor, Posting, after_first, drop_below}
use anytime_daat.BlockPostings.{BlockCodec}
use anytime_daat.BlockPostings.Layout.{Chunk}
use anytime_daat.BlockPostings.Chunks.{Chain, postings, all_postings}
use anytime_daat.BlockPostings.Enumerator
use anytime_daat.BlockPostings.Enumerator.{DocumentEnumerator}
use anytime_daat.BlockPostings.Decoded.{IsCodec}
use anytime_daat.BlockPostings.Lists.{Before}
use anytime_daat.BlockPostings.Shows.{Shows}
use anytime_daat.BlockPostings.Opened.{
  IsWritable, stored_chunks, stored_chunks-Chain, stored_inside,
}

-- The moves of a cursor, and the reading of a frequency, which may decode a block of them.
pub data Operation : Type 0 where
  next freq : Operation
  next_geq global_geq : ℕ → Operation

unfoldable pub enumerate : BlockCodec → DocumentEnumerator → List Operation → DocumentEnumerator
enumerate codec e [] = e
enumerate codec e (next ∷ ops) = enumerate codec (Enumerator.next codec e) ops
enumerate codec e (freq ∷ ops) = enumerate codec (Enumerator.freq codec e).0 ops
enumerate codec e (next_geq d ∷ ops) = enumerate codec (Enumerator.next_geq codec e d) ops
enumerate codec e (global_geq d ∷ ops) = enumerate codec (Enumerator.global_geq codec e d) ops

unfoldable pub moved : Cursor → List Operation → Cursor
moved c [] = c
moved c (next ∷ ops) = moved (Cursor.next c) ops
moved c (freq ∷ ops) = moved c ops
moved c (next_geq d ∷ ops) = moved (Cursor.next_geq c d) ops
moved c (global_geq d ∷ ops) = moved (Cursor.global_geq c d) ops

-- What the code asks: a cursor at the end is not moved by `next` and its frequency is not read,
-- and `next_geq` does not go back.
abbrev pub Allowed : Cursor → List Operation → Type 0
Allowed c [] = Unit
Allowed c (next ∷ ops) = (Cursor.docid c < c.universe) × Allowed (Cursor.next c) ops
Allowed c (freq ∷ ops) = (Cursor.docid c < c.universe) × Allowed c ops
Allowed c (next_geq d ∷ ops) = (Cursor.docid c ≤ d) × Allowed (Cursor.next_geq c d) ops
Allowed c (global_geq d ∷ ops) = Allowed (Cursor.global_geq c d) ops

module _ (codec : BlockCodec) (law : IsCodec codec) (docs freqs : List ℕ) (universe : ℕ)
    (w : IsWritable codec docs freqs universe) (more : List ℕ) where
  abbrev n : ℕ
  n = length docs

  abbrev cks : List Chunk
  cks = stored_chunks codec law docs freqs universe w more

  abbrev chain : Chain codec n 0 0 cks
  chain = stored_chunks-Chain codec law docs freqs universe w more

  abbrev inside : Before universe (all_postings cks)
  inside = stored_inside codec law docs freqs universe w more

  abbrev ShowsList : DocumentEnumerator → List Posting → Type 0
  ShowsList = Shows codec law n cks more chain universe inside w.small

  abbrev read : DocumentEnumerator → DocumentEnumerator × ℕ
  read e = (e, (get_or e.freqs_buf e.pos_in_block 0 + 1) % 2 ^ 32)

  abbrev IsAt : DocumentEnumerator → Cursor → Type 0
  IsAt e c = ShowsList e c.rest × (c.list ≡ postings docs freqs) × (c.universe ≡ universe)
