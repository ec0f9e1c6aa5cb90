-- ===== src/BlockPostings/Places.antt =====
-- Where an enumerator stands, and a move to the next document of the block.

use anytime_daat.Prelude.{
  ℕ, suc, ◌+◌, ◌-◌, ◌%◌, ◌^◌, ◌≤◌, ◌≡◌, refl, sym, ap, subst, ◌∙◌, ◌⊎◌, inr, List, [], ◌∷◌, ◌++◌,
  some, Bool, true, false, length, get_elem?, get_or, arith,
}
use anytime_daat.BlockPostings.{BlockCodec, gaps, sub32}
use anytime_daat.BlockPostings.Layout.{Chunk, Run}
use anytime_daat.BlockPostings.Chunks.{Chain}
use anytime_daat.BlockPostings.Stored.{chunk_max}
use anytime_daat.BlockPostings.Enumerator.{DocumentEnumerator, add_base, decode_docs_block, step}
use anytime_daat.BlockPostings.Decoded.{
  IsCodec, IsStored, less_one, gap_at, good_at, decode_docs_block_lem,
}

first_at :
    (base : ℕ) (ds : List ℕ)
    → Run base ds
    → 1 ≤ length ds
    → get_elem? ds 0 ≡ some (get_or (add_base base (gaps base ds)) 0 0)
unfolding gaps add_base
first_at base [] r h = absurd (omega arith)
first_at base (d ∷ ds) (le, lt, r) h = ap some (unfold sub32 in omega arith)

add_base-later :
    (base : ℕ) (gs : List ℕ) (j : ℕ) → get_or (add_base base gs) (suc j) 0 ≡ get_or gs (suc j) 0
unfolding add_base
add_base-later base [] j = refl
add_base-later base (g ∷ gs) j = refl

module _ (codec : BlockCodec) where
  -- The frequencies of the block, decoded or not.
  abbrev pub FreqsAt : Chunk → Bool → List ℕ → List ℕ → Type 0
  FreqsAt ck decoded bytes buf =
      ((decoded ≡ true) × (buf ≡ less_one ck.freqs))
      ⊎ ((decoded ≡ false)
          × ((more : List ℕ) × (bytes ≡ codec.encode (less_one ck.freqs) (2 ^ 32 - 1) ++ more)))

  -- The enumerator stands at document `i` of block `b`, which is `ck`.
  pub record At (e : DocumentEnumerator) (b i : ℕ) (ck : Chunk) : Type 0 where
    pub in_block : e.cur_block ≡ b
    pub in_place : e.pos_in_block ≡ i
    pub here : get_elem? ck.docs i ≡ some e.cur_docid
    pub max : e.cur_block_max ≡ chunk_max ck
    pub size : e.cur_size ≡ length ck.docs
    pub gap :
        (j d d' : ℕ)
        → get_elem? ck.docs j ≡ some d
        → get_elem? ck.docs (suc j) ≡ some d'
        → get_or e.docs_buf (suc j) 0 ≡ d' - (d + 1)
    pub freqs : FreqsAt ck e.freqs_decoded e.freqs_block_data e.freqs_buf

  pub step-At :
      (e : DocumentEnumerator) (b i d' : ℕ) (ck : Chunk)
      → Run ck.base ck.docs
      → At e b i ck
      → get_elem? ck.docs (suc i) ≡ some d'
      → At (step codec e) b (suc i) ck
  unfolding step
  step-At e b i d' ck r a g =
      let (gap, up, small) = gap_at ck.base ck.docs i e.cur_docid d' r a.here g in
      let place : e.pos_in_block + 1 ≡ suc i = omega (arith, a.in_place) in
      let moved : (e.cur_docid + get_or e.docs_buf (suc i) 0 + 1) % 2 ^ 32 ≡ d' =
        omega (arith, a.gap i e.cur_docid d' a.here g, up, small) in
      record {
        in_block = a.in_block;
        in_place = place;
        here = rw (place, moved) g;
        max = a.max;
        size = a.size;
        gap = a.gap;
        freqs = a.freqs;
      }

  module _ (law : IsCodec codec) (n : ℕ) (cks : List Chunk) (rest : List ℕ) where
    pub decode_docs_block-At :
        (e : DocumentEnumerator) (b : ℕ) (ck : Chunk)
        → IsStored codec law n cks rest e
        → Chain codec n 0 0 cks
        → get_elem? cks b ≡ some ck
        → At (decode_docs_block codec e b) b 0 ck
    decode_docs_block-At e b ck s chain g =
        let (more, eq) = decode_docs_block_lem codec law n cks rest e s chain b ck g in
        let good = good_at codec law n cks rest e s chain b ck g in
        subst (λ x. At x b 0 ck) (sym eq)
          (record {
            in_block = refl;
            in_place = refl;
            here = first_at ck.base ck.docs good.run (omega (arith, good.count, good.some_left));
            max = refl;
            size = sym good.count;
            gap = λ j d d' f h.
                add_base-later ck.base (gaps ck.base ck.docs) j
                ∙ (gap_at ck.base ck.docs j d d' good.run f h).0;
            freqs = inr (refl, (more, refl));
          })

    -- The tables stay.
    pub decode_docs_block-IsStored :
        (e : DocumentEnumerator) (b : ℕ)
        → IsStored codec law n cks rest e
        → IsStored codec law n cks rest (decode_docs_block codec e b)
    decode_docs_block-IsStored e b s = unfold decode_docs_block in s
