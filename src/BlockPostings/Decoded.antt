-- ===== src/BlockPostings/Decoded.antt =====
-- What the enumerator finds of the blocks that were written.
use mathlib.Core.List.{append_assoc}
use mathlib.Core.Option.{some-injective}
use anytime_daat.Prelude.{
  ℕ, zero, suc, ◌+◌, ◌-◌, ◌%◌, ◌^◌, ◌<◌, ◌≤◌, ◌≡◌, refl, sym, ap, subst, ◌∙◌, ◌⊎◌, inl, List, [],
  ◌∷◌, ◌++◌, some, All, false, if◌then◌else◌, map, length, get_elem?, get_or, sum_over, ◌==◌, arith,
}
use anytime_daat.WandBuilder.Flat.{flat}
use anytime_daat.PayloadVector.Offsets.{start_of, start_of-zero, drop-flat}
use anytime_daat.BlockPostings.{BlockCodec, sub32, cur_block_size, gaps, encode_block, base_after}
use anytime_daat.BlockPostings.Layout.{
  Chunk, Run, run_end, run_end-le, run_end-u32, base_after_lem, sum_over-gaps, length-gaps,
}
use anytime_daat.BlockPostings.Chunks.{Good, Chain, Chain-at, Chain-first, Chain-next}
use anytime_daat.BlockPostings.Stored.{chunk_max, chunk_bytes, bytes_of}
use anytime_daat.BlockPostings.Enumerator.{
  DocumentEnumerator, word_at, block_max, add_base, decode_docs_block,
}

abbrev pub IsU32 : ℕ → Type 0
IsU32 v = v < 2 ^ 32

-- What a codec promises: numbers of uint32_t, a block of them at most, that were encoded with
-- their sum or with no sum are decoded, and the bytes behind them are found.
pub record IsCodec (codec : BlockCodec) : Type 0 where
  pub positive : 1 ≤ codec.block_size
  pub round_trip :
      (vals : List ℕ) (sum : ℕ) (rest : List ℕ)
      → 1 ≤ length vals
      → length vals ≤ codec.block_size
      → All IsU32 vals
      → (sum ≡ sum_over (λ v. v) vals) ⊎ (sum ≡ 2 ^ 32 - 1)
      → codec.decode (codec.encode vals sum ++ rest) sum (length vals) ≡ (vals, rest)

-- The gap in front of a document that is not the first.
pub gap_at :
    (base : ℕ) (ds : List ℕ) (j d d' : ℕ)
    → Run base ds
    → get_elem? ds j ≡ some d
    → get_elem? ds (suc j) ≡ some d'
    → (get_or (gaps base ds) (suc j) 0 ≡ d' - (d + 1)) × (d < d') × (d' < 2 ^ 32)
unfolding gaps
gap_at base [] j d d' r e f = cc
gap_at base (x ∷ []) zero d d' r e f = cc
gap_at base (x ∷ []) (suc j) d d' r e f = cc
gap_at base (x ∷ y ∷ ds) zero d d' (le, lt, (le', lt', r)) e f =
    let a = some-injective x d e in
    let b = some-injective y d' f in
    (unfold sub32 in omega (arith, a, b), omega (arith, a, b), omega (arith, b))
gap_at base (x ∷ y ∷ ds) (suc j) d d' (le, lt, r) e f =
    let next : (x + 1) % 2 ^ 32 ≡ x + 1 = omega arith in
    rw next (gap_at (x + 1) (y ∷ ds) j d d' r e f)

gaps-IsU32 : (base : ℕ) (ds : List ℕ) → All IsU32 (gaps base ds)
unfolding gaps sub32
gaps-IsU32 base [] = tt
gaps-IsU32 base (d ∷ ds) = (omega arith, gaps-IsU32 ((d + 1) % 2 ^ 32) ds)

-- The codes of the frequencies.
abbrev pub less_one : List ℕ → List ℕ
less_one fs = map (λ f. sub32 f 1) fs

pub less_one-IsU32 : (fs : List ℕ) → All IsU32 (less_one fs)
unfolding sub32
less_one-IsU32 [] = tt
less_one-IsU32 (f ∷ fs) = (omega arith, less_one-IsU32 fs)

-- The numbers that `write` and the enumerator compute for a block.
module _ (codec : BlockCodec) (size : ℕ) (ck : Chunk) (good : Good codec size ck) where
  some_docs : ck.base + size ≤ run_end ck.base ck.docs
  some_docs = omega (arith, run_end-le ck.base ck.docs good.run, good.count)

  pub end_u32 : run_end ck.base ck.docs < 2 ^ 32
  end_u32 = run_end-u32 ck.base ck.docs good.base_u32 good.run

  pub chunk_max-end : chunk_max ck + 1 ≡ run_end ck.base ck.docs
  unfolding chunk_max
  chunk_max-end = omega (arith, some_docs, good.some_left)

  last_doc : sub32 (base_after ck.base ck.docs) 1 ≡ chunk_max ck
  unfolding sub32
  last_doc = rw (base_after_lem ck.base ck.docs good.run) (omega (arith, chunk_max-end, end_u32))

  abbrev told : ℕ
  told = sub32 (sub32 (chunk_max ck) ck.base) (sub32 size 1)

  told-sum : told ≡ sum_over (λ g. g) (gaps ck.base ck.docs)
  unfolding sub32
  told-sum = omega (
    arith,
    chunk_max-end,
    end_u32,
    some_docs,
    good.some_left,
    good.count,
    good.base_u32,
    sum_over-gaps ck.base ck.docs good.run,
  )

  pub decode-chunk_bytes :
      IsCodec codec
      → (more : List ℕ)
      → codec.decode (chunk_bytes codec ck ++ more) told size
        ≡ (gaps ck.base ck.docs, codec.encode (less_one ck.freqs) (2 ^ 32 - 1) ++ more)
  unfolding chunk_bytes encode_block
  decode-chunk_bytes law more =
      let count : length (gaps ck.base ck.docs) ≡ size = length-gaps ck.base ck.docs ∙ good.count in
      rw
        (
          last_doc,
          good.count,
          append_assoc (codec.encode (gaps ck.base ck.docs) told)
              (codec.encode (less_one ck.freqs) (2 ^ 32 - 1)) more,
        )
        (rw count at (
          law.round_trip (gaps ck.base ck.docs) told
            (codec.encode (less_one ck.freqs) (2 ^ 32 - 1) ++ more)
            (omega (arith, count, good.some_left)) (omega (arith, count, good.fits))
            (gaps-IsU32 ck.base ck.docs) (inl told-sum)))

module _ (codec : BlockCodec) (law : IsCodec codec) (n : ℕ) (cks : List Chunk) (rest : List ℕ) where
  abbrev ps : List (List ℕ)
  ps = bytes_of codec cks

  -- The enumerator's data are those of the blocks.
  pub record StoredIn (n' blocks : ℕ) (maxs places bytes : List ℕ) : Type 0 where
    pub same_n : n' ≡ n
    pub count : blocks ≡ length cks
    pub max_at : (i : ℕ) (ck : Chunk) → get_elem? cks i ≡ some ck → word_at maxs i ≡ chunk_max ck
    pub place_at : (i : ℕ) → suc i < length cks → word_at places i ≡ start_of ps (suc i)
    pub stored : bytes ≡ flat ps ++ rest

  abbrev pub IsStored : DocumentEnumerator → Type 0
  IsStored e = StoredIn e.n e.blocks e.block_maxs e.block_endpoints e.blocks_data

  pub chunk_at : (i : ℕ) → i < length cks → (ck : Chunk) × (get_elem? cks i ≡ some ck)
  chunk_at i h = go cks i h
    where
      go : (cs : List Chunk) (i : ℕ) → i < length cs → (ck : Chunk) × (get_elem? cs i ≡ some ck)
      go [] i h = absurd (omega arith)
      go (c ∷ cs) zero h = (c, refl)
      go (c ∷ cs) (suc i) h = go cs i (omega arith)

  pub index-lt : (i : ℕ) (ck : Chunk) → get_elem? cks i ≡ some ck → i < length cks
  index-lt i ck e = go cks i e
    where
      go : (cs : List Chunk) (i : ℕ) → get_elem? cs i ≡ some ck → i < length cs
      go [] i e = cc
      go (c ∷ cs) zero e = omega arith
      go (c ∷ cs) (suc i) e = omega (arith, go cs i e)

  bytes_at :
      (i : ℕ) (ck : Chunk)
      → get_elem? cks i ≡ some ck
      → get_elem? ps i ≡ some (chunk_bytes codec ck)
  bytes_at i ck e = go cks i e
    where
      go :
          (cs : List Chunk) (i : ℕ)
          → get_elem? cs i ≡ some ck
          → get_elem? (bytes_of codec cs) i ≡ some (chunk_bytes codec ck)
      go [] i e = cc
      go (c ∷ cs) zero e = ap (λ c. some (chunk_bytes codec c)) (some-injective c ck e)
      go (c ∷ cs) (suc i) e = go cs i e

  module _ (e : DocumentEnumerator) (s : IsStored e) (chain : Chain codec n 0 0 cks) where
    abbrev endpoint_of : ℕ → ℕ
    endpoint_of b = if b == 0 then 0 else word_at e.block_endpoints (b - 1)

    abbrev base_of : ℕ → ℕ
    base_of b = if b == 0 then 0 else (block_max e (b - 1) + 1) % 2 ^ 32

    pub good_at :
        (b : ℕ) (ck : Chunk) → get_elem? cks b ≡ some ck → Good codec (cur_block_size codec n b) ck
    good_at b ck g =
        subst (λ k. Good codec (cur_block_size codec n k) ck) (omega arith)
          (Chain-at codec n 0 0 cks b ck chain g)

    pub block_max-at :
        (b : ℕ) (ck : Chunk) → get_elem? cks b ≡ some ck → block_max e b ≡ chunk_max ck
    block_max-at b ck g = unfold block_max in s.max_at b ck g

    endpoint-start : (b : ℕ) → b < length cks → endpoint_of b ≡ start_of ps b
    endpoint-start zero h = sym (start_of-zero ps)
    endpoint-start (suc i) h =
        let later : (suc i == 0) ≡ false = ground arith in
        let back : suc i - 1 ≡ i = omega arith in rw (later, back) (s.place_at i h)

    base-base : (b : ℕ) (ck : Chunk) → get_elem? cks b ≡ some ck → base_of b ≡ ck.base
    base-base zero ck g = sym (Chain-first codec n 0 0 cks ck chain g)
    base-base (suc i) ck g =
        let later : (suc i == 0) ≡ false = ground arith in
        let back : suc i - 1 ≡ i = omega arith in
        let (prev, f) = chunk_at i (omega (arith, index-lt (suc i) ck g)) in
        let end = chunk_max-end codec (cur_block_size codec n i) prev (good_at i prev f) in
        let next = Chain-next codec n 0 0 cks i prev ck chain f g in
        let small = (good_at (suc i) ck g).base_u32 in
        rw (later, back, block_max-at i prev f) (omega (arith, end, next, small))

    pub decode_docs_block_lem :
        (b : ℕ) (ck : Chunk)
        → get_elem? cks b ≡ some ck
        → (more : List ℕ) × (decode_docs_block codec e b ≡ record e {
          cur_size = cur_block_size codec n b;
          cur_block_max = chunk_max ck;
          freqs_block_data = codec.encode (less_one ck.freqs) (2 ^ 32 - 1) ++ more;
          docs_buf = add_base ck.base (gaps ck.base ck.docs);
          cur_block = b;
          pos_in_block = 0;
          cur_docid = get_or (add_base ck.base (gaps ck.base ck.docs)) 0 0;
          freqs_decoded = false;
        })
    decode_docs_block_lem b ck g =
        let (more, found) = drop-flat ps rest b (chunk_bytes codec ck) (bytes_at b ck g) in
        let decoded =
          decode-chunk_bytes codec (cur_block_size codec n b) ck (good_at b ck g) law more in
        (
          more,
          unfold decode_docs_block in
              rw
                (
                  endpoint-start b (index-lt b ck g),
                  base-base b ck g,
                  block_max-at b ck g,
                  s.stored,
                  found,
                  s.same_n,
                  decoded,
                )
                refl,
        )
