-- ===== src/BlockPostings/Opened.antt =====
-- The constructor of the enumerator, on a list that was written.
use mathlib.Core.List.{append_assoc}
use anytime_daat.Prelude.{
  ℕ, zero, suc, ◌+◌, ◌-◌, ◌*◌, ◌%◌, ◌^◌, ◌<◌, ◌≤◌, ◌≡◌, refl, sym, ap, subst, ◌∙◌, inl, List, [],
  ◌∷◌, ◌++◌, some, All, map, length, length-map, drop, get_elem?, false, arith,
}
use mathlib.Core.Option.{some-injective}
use anytime_daat.WandBuilder.Flat.{flat}
use anytime_daat.PayloadVector.Offsets.{start_of, start_of-le}
use anytime_daat.VariableByte.{encode, encode_single}
use anytime_daat.VariableByte.RoundTrip.{decode-encode}
use anytime_daat.BlockPostings.{BlockCodec, ceil_div, cur_block_size, all_to_words, write}
use anytime_daat.BlockPostings.Layout.{Chunk, Run, IsFreq, chunks, Counted, ceil_div-Counted}
use anytime_daat.BlockPostings.Chunks.{
  Chain, postings, all_postings, Chain-at, chunks-Chain, all_postings-chunks,
}
use anytime_daat.BlockPostings.Tables.{
  drop-all_to_words, word_at-all_to_words, ends, length-ends, get_elem?-ends,
}
use anytime_daat.BlockPostings.Stored.{chunk_max, chunk_bytes, bytes_of, all_chunks, write-chunks}
use anytime_daat.BlockPostings.Enumerator.{
  DocumentEnumerator, document_enumerator, reset, decode_docs_block,
}
use anytime_daat.BlockPostings.Decoded.{IsCodec, StoredIn, chunk_at, chunk_max-end, end_u32}
use anytime_daat.BlockPostings.Lists.{Before}
use anytime_daat.BlockPostings.Shows.{Stored, Live, Shows, decoded-Live, decoded-Stored}

-- A list that can be written: documents in ascending order below the universe, a frequency for
-- each, and codes whose places fit a uint32_t.
pub record IsWritable (codec : BlockCodec) (docs freqs : List ℕ) (universe : ℕ) : Type 0 where
  pub positive : 1 ≤ codec.block_size
  pub some_docs : 1 ≤ length docs
  pub few : length docs + codec.block_size ≤ 2 ^ 32
  pub run : Run 0 docs
  pub same_count : length freqs ≡ length docs
  pub freqs_ok : All IsFreq freqs
  pub inside : Before universe (postings docs freqs)
  pub small : universe < 2 ^ 32
  pub places : length (flat (bytes_of codec (all_chunks codec (length docs) docs freqs))) < 2 ^ 32

length-chunks :
    (codec : BlockCodec) (n left b base : ℕ) (docs freqs : List ℕ)
    → length (chunks codec n left b base docs freqs) ≡ left
unfolding chunks
length-chunks codec n zero b base docs freqs = refl
length-chunks codec n (suc left) b base docs freqs =
    ap suc (length-chunks codec n left (suc b) _ _ _)

get_elem?-map :
    (f : Chunk → ℕ) (cks : List Chunk) (i : ℕ) (ck : Chunk)
    → get_elem? cks i ≡ some ck
    → get_elem? (map f cks) i ≡ some (f ck)
get_elem?-map f [] i ck e = cc
get_elem?-map f (c ∷ cks) zero ck e = ap (λ c. some (f c)) (some-injective c ck e)
get_elem?-map f (c ∷ cks) (suc i) ck e = get_elem?-map f cks i ck e

module _ (codec : BlockCodec) (law : IsCodec codec) (docs freqs : List ℕ) (universe : ℕ)
    (w : IsWritable codec docs freqs universe) (more : List ℕ) where
  abbrev n : ℕ
  n = length docs

  abbrev pub stored_chunks : List Chunk
  stored_chunks = all_chunks codec n docs freqs

  counted : Counted codec n (ceil_div n codec.block_size) 0 n
  counted = ceil_div-Counted codec n w.positive w.few

  pub stored_chunks-Chain : Chain codec n 0 0 stored_chunks
  stored_chunks-Chain =
      chunks-Chain codec n w.positive (ceil_div n codec.block_size) 0 0 docs freqs counted
        (omega arith) w.run w.same_count w.freqs_ok

  pub stored_chunks-postings : all_postings stored_chunks ≡ postings docs freqs
  stored_chunks-postings =
      all_postings-chunks codec n w.positive (ceil_div n codec.block_size) 0 0 docs freqs counted
        w.same_count

  pub stored_inside : Before universe (all_postings stored_chunks)
  stored_inside = rw stored_chunks-postings w.inside

  block_count : length stored_chunks ≡ ceil_div n codec.block_size
  block_count = length-chunks codec n (ceil_div n codec.block_size) 0 0 docs freqs

  pub some_blocks : 1 ≤ length stored_chunks
  some_blocks =
      rw block_count
        (some_factor (ceil_div n codec.block_size) codec.block_size n w.some_docs counted.enough)
    where
      some_factor : (k b m : ℕ) → 1 ≤ m → m ≤ k * b → 1 ≤ k
      some_factor zero b m h le = absurd (omega arith)
      some_factor (suc k) b m h le = omega arith

  -- What stands behind the number of postings.
  abbrev maxs : List ℕ
  maxs = map chunk_max stored_chunks

  abbrev codes : List (List ℕ)
  codes = bytes_of codec stored_chunks

  abbrev table : List ℕ
  table = all_to_words maxs ++ (all_to_words (ends 0 codes) ++ (flat codes ++ more))

  written : write codec [] n docs freqs ++ more ≡ encode (n ∷ []) ++ table
  written =
      ap (λ bs. bs ++ more) (write-chunks codec n w.positive docs freqs refl w.few w.run)
      ∙ unfold encode_single in
        append_assoc (encode (n ∷ [])) _ more
        ∙ ap (λ bs. encode (n ∷ []) ++ bs)
            (append_assoc (all_to_words maxs) (all_to_words (ends 0 codes) ++ flat codes) more
              ∙ ap (λ bs. all_to_words maxs ++ bs)
                  (append_assoc (all_to_words (ends 0 codes)) (flat codes) more))

  max_u32 : (i : ℕ) (ck : Chunk) → get_elem? stored_chunks i ≡ some ck → chunk_max ck < 2 ^ 32
  max_u32 i ck g =
      let good = Chain-at codec n 0 0 stored_chunks i ck stored_chunks-Chain g in
      omega (
        arith,
        chunk_max-end codec (cur_block_size codec n (0 + i)) ck good,
        end_u32 codec (cur_block_size codec n (0 + i)) ck good,
      )

  places_behind : length codes ≡ length stored_chunks
  places_behind = length-map stored_chunks (chunk_bytes codec)

  length-places : length (ends 0 codes) ≡ length stored_chunks - 1
  length-places =
      go codes (omega (arith, some_blocks, places_behind)) ∙ ap (λ k. k - 1) places_behind
    where
      go : (ps : List (List ℕ)) → 1 ≤ length ps → length (ends 0 ps) ≡ length ps - 1
      go [] h = absurd (omega arith)
      go (p ∷ ps) h = omega (arith, length-ends 0 p ps)

  tables-StoredIn :
      StoredIn codec law n stored_chunks more n
        (ceil_div n codec.block_size)
        table
        (drop (4 * ceil_div n codec.block_size) table)
        (drop
          (4 * (ceil_div n codec.block_size - 1))
          (drop (4 * ceil_div n codec.block_size) table))
  tables-StoredIn =
      let blocks = ceil_div n codec.block_size in
      let behind_maxs : drop (4 * blocks) table
          ≡ all_to_words (ends 0 codes) ++ (flat codes ++ more) =
        drop-all_to_words maxs _ (4 * blocks)
          (omega (arith, block_count, length-map stored_chunks chunk_max)) in
      let behind_places : drop (4 * (blocks - 1)) (drop (4 * blocks) table) ≡ flat codes ++ more =
        ap (drop (4 * (blocks - 1))) behind_maxs
        ∙ drop-all_to_words (ends 0 codes) _ (4 * (blocks - 1))
            (omega (arith, length-places, block_count)) in
      record {
        same_n = refl;
        count = sym block_count;
        max_at = λ i ck g.
            word_at-all_to_words maxs _ i (chunk_max ck)
              (get_elem?-map chunk_max stored_chunks i ck g) (max_u32 i ck g);
        place_at = λ i h.
            let small_place : start_of codes (suc i) < 2 ^ 32 =
              omega (arith, start_of-le codes (suc i), w.places) in
            let place : (0 + start_of codes (suc i)) % 2 ^ 32 ≡ start_of codes (suc i) =
              omega (arith, small_place) in
            rw behind_maxs (
              word_at-all_to_words (ends 0 codes) _ i (start_of codes (suc i))
                (get_elem?-ends 0 codes i (omega (arith, h, places_behind)) ∙ ap some place)
                small_place);
        stored = behind_places;
      }

  -- The enumerator before its first block is decoded.
  abbrev at_tables : DocumentEnumerator
  at_tables = record {
    n = n;
    blocks = ceil_div n codec.block_size;
    block_maxs = table;
    block_endpoints = drop (4 * ceil_div n codec.block_size) table;
    blocks_data =
        drop (4 * (ceil_div n codec.block_size - 1)) (drop (4 * ceil_div n codec.block_size) table);
    universe = universe;
    cur_block = 0;
    pos_in_block = 0;
    cur_block_max = 0;
    cur_size = 0;
    cur_docid = 0;
    freqs_block_data = [];
    freqs_decoded = false;
    docs_buf = [];
    freqs_buf = [];
  }

  opened :
      document_enumerator codec (write codec [] n docs freqs ++ more) universe
      ≡ reset codec at_tables
  unfolding document_enumerator
  opened =
      rw
        (
          written,
          decode-encode (n ∷ []) table (omega (arith, w.few, w.positive), tt),
          document_enumerator,
        )
        refl

  -- The enumerator starts with the whole list.
  pub document_enumerator-Shows :
      Shows codec law n stored_chunks more stored_chunks-Chain universe stored_inside w.small
        (document_enumerator codec (write codec [] n docs freqs ++ more) universe)
        (postings docs freqs)
  document_enumerator-Shows =
      let (ck, g) = chunk_at codec law n stored_chunks more 0 some_blocks in
      let tables : Stored codec law n stored_chunks more stored_chunks-Chain universe stored_inside
          w.small at_tables =
        (tables-StoredIn, refl) in
      let start : Live codec law n stored_chunks more stored_chunks-Chain universe stored_inside
          w.small (reset codec at_tables) (postings docs freqs) 0 0 ck =
        unfold reset in
        subst
          (λ left.
            Live codec law n stored_chunks more stored_chunks-Chain universe stored_inside w.small
              (decode_docs_block codec at_tables 0) left 0 0 ck)
          stored_chunks-postings
          (decoded-Live codec law n stored_chunks more stored_chunks-Chain universe stored_inside
            w.small at_tables 0 ck tables g) in
      rw opened (
        unfold reset in
            decoded-Stored codec law n stored_chunks more stored_chunks-Chain universe stored_inside
              w.small at_tables 0 tables,
        inl (0, 0, ck, start),
      )
