-- ===== src/BlockPostings/Shows.antt =====
-- The operations of the enumerator, by the postings that are left to it.
use anytime_daat.Prelude.{
  ℕ, suc, ◌+◌, ◌-◌, ◌^◌, ◌<◌, ◌≤◌, ◌≡◌, refl, sym, ap, ◌∙◌, ◌⊎◌, inl, inr, List, [], ◌∷◌, ◌++◌,
  some, length, drop, get_elem?, ◌==◌, Bool-cases, arith,
}
use anytime_daat.Cursor.{Posting, first_doc, after_first}
use anytime_daat.BlockPostings.{BlockCodec, cur_block_size}
use anytime_daat.BlockPostings.Layout.{Chunk, run_end}
use anytime_daat.BlockPostings.Chunks.{Good, Chain, postings, chunk_postings, all_postings}
use anytime_daat.BlockPostings.Stored.{chunk_max}
use anytime_daat.BlockPostings.Enumerator.{
  DocumentEnumerator, block_max, decode_docs_block, step, next,
}
use anytime_daat.BlockPostings.Decoded.{
  IsCodec, IsStored, good_at, block_max-at, chunk_at, index-lt, chunk_max-end,
}
use anytime_daat.BlockPostings.Places.{
  At, step-At, decode_docs_block-At, decode_docs_block-IsStored,
}
use anytime_daat.BlockPostings.Lists.{
  Before, Before-drop, postings-at, length-postings, drop-end, run_end-last, get_elem?-below,
  get_elem?-index, all_postings-drop, all_postings-none, chunk-Before,
}

module _ (codec : BlockCodec) (law : IsCodec codec) (n : ℕ) (cks : List Chunk) (rest : List ℕ)
    (chain : Chain codec n 0 0 cks) (universe : ℕ) (inside : Before universe (all_postings cks))
    (small : universe < 2 ^ 32) where
  abbrev pub Stored : DocumentEnumerator → Type 0
  Stored e = IsStored codec law n cks rest e × (e.universe ≡ universe)

  -- The postings from document `i` of block `b` on.
  abbrev pub left_at : ℕ → ℕ → Chunk → List Posting
  left_at b i ck = drop i (chunk_postings ck) ++ all_postings (drop (suc b) cks)

  -- The enumerator has these postings left: it stands at the first, or there is none and it is at
  -- the universe.
  pub record Live (e : DocumentEnumerator) (left : List Posting) (b i : ℕ) (ck : Chunk)
      : Type 0 where
    pub block : get_elem? cks b ≡ some ck
    pub place : At codec e b i ck
    pub is_left : left ≡ left_at b i ck

  abbrev pub Ended : DocumentEnumerator → List Posting → Type 0
  Ended e left = (left ≡ []) × (e.cur_docid ≡ universe) × (e.cur_block_max < universe)

  abbrev pub Shows : DocumentEnumerator → List Posting → Type 0
  Shows e left = Stored e × (((b : ℕ) × (i : ℕ) × (ck : Chunk) × Live e left b i ck) ⊎ Ended e left)

  module _ (e : DocumentEnumerator) (s : Stored e) where
    abbrev pub good :
        (b : ℕ) (ck : Chunk) → get_elem? cks b ≡ some ck → Good codec (cur_block_size codec n b) ck
    good = good_at codec law n cks rest e s.0 chain

    -- The maximum of a block is its last document.
    pub max-end :
        (b : ℕ) (ck : Chunk)
        → get_elem? cks b ≡ some ck
        → (block_max e b ≡ chunk_max ck) × (chunk_max ck + 1 ≡ run_end ck.base ck.docs)
    max-end b ck g = (
      block_max-at codec law n cks rest e s.0 chain b ck g,
      chunk_max-end codec (cur_block_size codec n b) ck (good b ck g),
    )

    -- What stands at a place.
    pub here :
        (b i : ℕ) (ck : Chunk)
        → get_elem? cks b ≡ some ck
        → At codec e b i ck
        → (f : ℕ) × (get_elem? ck.freqs i ≡ some f)
          × (drop i (chunk_postings ck)
              ≡ record { doc = e.cur_docid; freq = f } ∷ drop (suc i) (chunk_postings ck))
    here b i ck g a =
        let k = good b ck g in
        unfold chunk_postings in
        postings-at ck.docs ck.freqs i e.cur_docid (k.same_count ∙ sym k.count) a.here

    pub docid-Shows : (left : List Posting) → Shows e left → e.cur_docid ≡ first_doc left universe
    unfolding first_doc
    docid-Shows left (_, inl (b, i, ck, live)) =
        let (f, _, eq) = here b i ck live.block live.place in rw (live.is_left, eq) refl
    docid-Shows left (_, inr (none_left, at_end, _)) = rw none_left at_end

  -- A block that was decoded shows all of it and what stands behind.
  pub decoded-Live :
      (e : DocumentEnumerator) (b : ℕ) (ck : Chunk)
      → Stored e
      → get_elem? cks b ≡ some ck
      → Live (decode_docs_block codec e b) (all_postings (drop b cks)) b 0 ck
  decoded-Live e b ck s g = record {
    block = g;
    place = decode_docs_block-At codec law n cks rest e b ck s.0 chain g;
    is_left = all_postings-drop cks b ck g;
  }

  pub decoded-Stored :
      (e : DocumentEnumerator) (b : ℕ) → Stored e → Stored (decode_docs_block codec e b)
  decoded-Stored e b s =
      (decode_docs_block-IsStored codec law n cks rest e b s.0, unfold decode_docs_block in s.1)

  -- The last document of a block stands before the universe.
  pub max-inside :
      (e : DocumentEnumerator) (s : Stored e) (b : ℕ) (ck : Chunk)
      → get_elem? cks b ≡ some ck
      → chunk_max ck < universe
  max-inside e s b ck g =
      let k = good e s b ck g in
      let last = length ck.docs - 1 in
      let (d, at_last) = get_elem?-below ck.docs last (omega (arith, k.count, k.some_left)) in
      let end = run_end-last ck.base ck.docs last d at_last (omega (arith, k.count, k.some_left)) in
      let (f, _, eq) = postings-at ck.docs ck.freqs last d (k.same_count ∙ sym k.count) at_last in
      let before =
        Before-drop universe last (chunk_postings ck) (chunk-Before universe cks b ck inside g) in
      let opened : Before universe (drop last (postings ck.docs ck.freqs)) =
        unfold chunk_postings in before in
      let d_lt : d < universe = (rw eq at opened).0 in
      omega (arith, (max-end e s b ck g).1, end, d_lt)

  -- One document is passed.
  module _ (e : DocumentEnumerator) (left : List Posting) (s : Stored e) (b i : ℕ) (ck : Chunk)
      (live : Live e left b i ck) where
    shifted : after_first left ≡ left_at b (suc i) ck
    shifted =
        let (f, _, eq) = here e s b i ck live.block live.place in
        rw (live.is_left, eq) (unfold after_first in refl)

    pub block_done : suc i ≡ length ck.docs → after_first left ≡ all_postings (drop (suc b) cks)
    block_done h =
        let k = good e s b ck live.block in
        let none_left : drop (suc i) (chunk_postings ck) ≡ [] =
          unfold chunk_postings in
          drop-end (postings ck.docs ck.freqs) (suc i)
            (omega (arith, length-postings ck.docs ck.freqs (k.same_count ∙ sym k.count))) in
        shifted ∙ ap (λ ps. ps ++ all_postings (drop (suc b) cks)) none_left

    pub left-cons :
        (f : ℕ) × (left ≡ record { doc = e.cur_docid; freq = f } ∷ after_first left)
        × (get_elem? ck.freqs i ≡ some f)
    left-cons =
        let (f, g, eq) = here e s b i ck live.block live.place in
        (f, rw (live.is_left, eq) (unfold after_first in refl), g)

    pub step-Live : suc i < length ck.docs → Live (step codec e) (after_first left) b (suc i) ck
    step-Live h =
        let (d', g) = get_elem?-below ck.docs (suc i) h in
        record {
          block = live.block;
          place = step-At codec e b i d' ck (good e s b ck live.block).run live.place g;
          is_left = shifted;
        }

    pub step-Stored : Stored (step codec e)
    step-Stored = unfold step in s

    next-Live : Shows (next codec e) (after_first left)
    unfolding next
    next-Live = elim (Bool-cases (e.pos_in_block + 1 == e.cur_size)) [
      | inr p ↦
          let more : suc i < length ck.docs = ground (
            arith,
            p,
            live.place.in_place,
            live.place.size,
            get_elem?-index ck.docs i e.cur_docid live.place.here,
          ) in
          rw p (step-Stored, inl (b, suc i, ck, step-Live more))
      | inl p ↦
          let at_end : suc i ≡ length ck.docs =
            ground (arith, p, live.place.in_place, live.place.size) in
          elim (Bool-cases (e.cur_block + 1 == e.blocks)) [
            | inl q ↦
                let last : length cks ≤ suc b = ground (arith, q, live.place.in_block, s.0.count) in
                rw (p, q)
                  (
                    s,
                    inr (
                      block_done at_end ∙ all_postings-none cks (suc b) last,
                      rw s.1 (omega (arith, small)),
                      rw live.place.max (max-inside e s b ck live.block),
                    ),
                  )
            | inr q ↦
                let later : suc b < length cks = ground (
                  arith,
                  q,
                  live.place.in_block,
                  s.0.count,
                  index-lt codec law n cks rest b ck live.block,
                ) in
                let (ck', g) = chunk_at codec law n cks rest (suc b) later in
                let at : e.cur_block + 1 ≡ suc b = omega (arith, live.place.in_block) in
                rw (p, q, at, block_done at_end)
                  (decoded-Stored e (suc b) s, inl (suc b, 0, ck', decoded-Live e (suc b) ck' s g))
          ]
    ]

  pub next-Shows :
      (e : DocumentEnumerator) (left : List Posting)
      → Shows e left
      → 1 ≤ length left
      → Shows (next codec e) (after_first left)
  next-Shows e left (s, inr (none_left, _, _)) h = absurd (omega (arith, ap length none_left))
  next-Shows e left (s, inl (b, i, ck, live)) h = next-Live e left s b i ck live
