-- ===== src/BlockPostings/Stored.antt =====
-- What `write` stores, by blocks.
use mathlib.Core.List.{append_assoc, append-nil}
use anytime_daat.Prelude.{
  ℕ, zero, suc, ◌+◌, ◌-◌, ◌%◌, ◌^◌, ◌<◌, ◌≤◌, ◌≡◌, refl, ◌∙◌, List, [], ◌∷◌, ◌++◌, map, length,
  length-append, take, drop, length-take, length-drop, ◌==◌, false, if◌then◌else◌, arith,
}
use anytime_daat.WandBuilder.Flat.{flat}
use anytime_daat.VariableByte.{encode_single}
use anytime_daat.BlockPostings.{
  BlockCodec, sub32, ceil_div, cur_block_size, encode_block, Written, write_loop, write,
  all_to_words,
}
use anytime_daat.BlockPostings.Layout.{
  Chunk, Run, run_end, run_end-le, run_end-u32, base_after_lem, Run-take, Run-drop, chunks, Counted,
  Counted-Sized, ceil_div-Counted,
}
use anytime_daat.BlockPostings.Tables.{ends}

unfoldable pub chunk_max : Chunk → ℕ
chunk_max ck = run_end ck.base ck.docs - 1

module _ (codec : BlockCodec) where
  unfoldable pub chunk_bytes : Chunk → List ℕ
  chunk_bytes ck = encode_block codec ck.base ck.docs ck.freqs

  abbrev pub bytes_of : List Chunk → List (List ℕ)
  bytes_of cks = map chunk_bytes cks

  -- The blocks `cks` written behind `w`.
  abbrev pub behind : Written → List Chunk → Written
  behind w cks = record {
    block_maxs = w.block_maxs ++ map chunk_max cks;
    block_endpoints = w.block_endpoints ++ ends (length w.blocks_data) (bytes_of cks);
    blocks_data = w.blocks_data ++ flat (bytes_of cks);
  }

  -- The blocks of the whole list.
  abbrev pub all_chunks : ℕ → List ℕ → List ℕ → List Chunk
  all_chunks n docs freqs = chunks codec n (ceil_div n codec.block_size) 0 0 docs freqs

  module _ (n : ℕ) (one : 1 ≤ codec.block_size) where
    endpoints-cons :
        (es : List ℕ) (o : ℕ) (p : List ℕ) (left b base : ℕ) (docs freqs : List ℕ)
        → (if left == 0 then es else es ++ ((o + length p) % 2 ^ 32 ∷ []))
            ++ ends (o + length p) (bytes_of (chunks codec n left b base docs freqs))
          ≡ es ++ ends o (p ∷ bytes_of (chunks codec n left b base docs freqs))
    unfolding chunks ends
    endpoints-cons es o p zero b base docs freqs = refl
    endpoints-cons es o p (suc left) b base docs freqs =
        let some_left : (suc left == 0) ≡ false = ground arith in
        rw some_left (append_assoc es ((o + length p) % 2 ^ 32 ∷ []) _)

    write_loop-chunks :
        (left b base : ℕ) (docs freqs : List ℕ) (w : Written)
        → Counted codec n left b (length docs)
        → base < 2 ^ 32
        → Run base docs
        → write_loop codec n left b base docs freqs w
          ≡ behind w (chunks codec n left b base docs freqs)
    write_loop-chunks zero b base docs freqs w c u r =
        unfold write_loop chunks ends flat in
        rw (append-nil w.block_maxs, append-nil w.block_endpoints, append-nil w.blocks_data) refl
    write_loop-chunks (suc left) b base docs freqs w c u r =
        let s = Counted-Sized codec n left b (length docs) one c in
        let size = cur_block_size codec n b in
        let ds = take size docs in
        let fs = take size freqs in
        let r' = Run-take size base docs r in
        let count : length (drop size docs) ≡ length docs - size = length-drop size docs in
        let end = run_end base ds in
        let u' = run_end-u32 base ds u r' in
        let max : sub32 end 1 ≡ end - 1 =
          unfold sub32 in
          omega (arith, u', run_end-le base ds r', length-take size docs, s.some_left, s.inside) in
        let p = encode_block codec base ds fs in
        let ck : Chunk = record { base = base; docs = ds; freqs = fs } in
        let cks = chunks codec n left (suc b) end (drop size docs) (drop size freqs) in
        let bytes = w.blocks_data ++ p in
        let w' : Written = record {
          block_maxs = w.block_maxs ++ (chunk_max ck ∷ []);
          block_endpoints =
              if left == 0
              then w.block_endpoints
              else w.block_endpoints ++ (length bytes % 2 ^ 32 ∷ []);
          blocks_data = bytes;
        } in
        let one_round : write_loop codec n (suc left) b base docs freqs w
            ≡ write_loop codec n left (suc b) end (drop size docs) (drop size freqs) w' =
          unfold write_loop chunk_max in rw (base_after_lem base ds r', max) refl in
        let whole : chunks codec n (suc left) b base docs freqs ≡ ck ∷ cks =
          unfold chunks in refl in
        one_round
        ∙ write_loop-chunks left (suc b) end (drop size docs) (drop size freqs) w'
            (rw count s.later) u' (Run-drop size base docs r)
        ∙ rw
            (
              whole,
              append_assoc w.block_maxs (chunk_max ck ∷ []) (map chunk_max cks),
              append_assoc w.blocks_data p (flat (bytes_of cks)),
              length-append w.blocks_data p,
              endpoints-cons w.block_endpoints (length w.blocks_data) p left (suc b) end
                  (drop size docs) (drop size freqs),
            )
            (unfold flat chunk_bytes in refl)

    pub write-chunks :
        (docs freqs : List ℕ)
        → length docs ≡ n
        → n + codec.block_size ≤ 2 ^ 32
        → Run 0 docs
        → write codec [] n docs freqs
          ≡ encode_single n []
            ++ (all_to_words (map chunk_max (all_chunks n docs freqs))
                ++ (all_to_words (ends 0 (bytes_of (all_chunks n docs freqs)))
                    ++ flat (bytes_of (all_chunks n docs freqs))))
    unfolding write
    write-chunks docs freqs e few r =
        rw
          (write_loop-chunks (ceil_div n codec.block_size) 0 0 docs freqs
            (record { block_maxs = []; block_endpoints = []; blocks_data = [] })
            (rw e (ceil_div-Counted codec n one few)) (omega arith) r)
          refl
