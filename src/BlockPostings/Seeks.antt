-- ===== src/BlockPostings/Seeks.antt =====
-- The seeks of the enumerator, next_geq and global_geq.

use anytime_daat.Prelude.{
  ℕ, suc, ◌+◌, ◌-◌, ◌%◌, ◌^◌, ◌<◌, ◌≤◌, ◌≡◌, refl, sym, ap, ◌∙◌, ◌⊎◌, inl, inr, List, [], some,
  true, length, drop, get_elem?, ltb, ltb→lt, lt→ltb, Bool-cases, arith,
}
use anytime_daat.Cursor.{Posting, drop_below}
use anytime_daat.BlockPostings.{BlockCodec}
use anytime_daat.BlockPostings.Layout.{Chunk}
use anytime_daat.BlockPostings.Chunks.{Chain, chunk_postings, all_postings}
use anytime_daat.BlockPostings.Stored.{chunk_max}
use anytime_daat.BlockPostings.Enumerator.{
  DocumentEnumerator, block_max, decode_docs_block, find_block, find_document, next_geq, global_geq,
}
use anytime_daat.BlockPostings.Decoded.{IsCodec, chunk_at, index-lt}
use anytime_daat.BlockPostings.Lists.{
  Before, drop_below-Before, drop_below-all, Before-drop, chunk_postings-Before,
  all_postings-Before, Chain-Before,
}
use anytime_daat.BlockPostings.Shows.{
  Stored, Shows, good, max-end, max-inside, decoded-Live, decoded-Stored,
}
use anytime_daat.BlockPostings.Found.{find_document-Shows, find_block-Found, not_end}

module _ (codec : BlockCodec) (law : IsCodec codec) (n : ℕ) (cks : List Chunk) (rest : List ℕ)
    (chain : Chain codec n 0 0 cks) (universe : ℕ) (inside : Before universe (all_postings cks))
    (small : universe < 2 ^ 32) where
  abbrev IsStoredHere : DocumentEnumerator → Type 0
  IsStoredHere = Stored codec law n cks rest chain universe inside small

  abbrev ShowsHere : DocumentEnumerator → List Posting → Type 0
  ShowsHere = Shows codec law n cks rest chain universe inside small

  abbrev last_block : ℕ
  last_block = length cks - 1

  -- A seek from block `k` on, over the whole blocks.
  module _ (e : DocumentEnumerator) (s : IsStoredHere e) (some_blocks : 1 ≤ length cks)
      (k d : ℕ) where
    abbrev sought : DocumentEnumerator
    sought =
        find_document codec codec.block_size
          (decode_docs_block codec e (find_block codec e.blocks e d k)) d

    abbrev at_universe : DocumentEnumerator
    at_universe = record e { cur_docid = e.universe % 2 ^ 32 }

    last_chunk : (ck : Chunk) × (get_elem? cks last_block ≡ some ck)
    last_chunk = chunk_at codec law n cks rest last_block (omega arith)

    last_max : block_max e (e.blocks - 1) ≡ chunk_max last_chunk.0
    last_max =
        ap (λ m. block_max e (m - 1)) s.0.count
        ∙ (max-end codec law n cks rest chain universe inside small e s last_block last_chunk.0
            last_chunk.1).0

    all_before : chunk_max last_chunk.0 < d → Before d (all_postings cks)
    all_before h =
        let end =
          (max-end codec law n cks rest chain universe inside small e s last_block last_chunk.0
            last_chunk.1).1 in
        (Chain-Before codec n 0 0 d cks last_block last_chunk.0 chain (omega arith) last_chunk.1
          (omega (arith, end, h))).1

    ended-Shows :
        (left : List Posting) → e.cur_block_max < universe → left ≡ [] → ShowsHere at_universe left
    ended-Shows left m none_left = (s, inr (none_left, rw s.1 (omega (arith, small)), m))

    sought-Shows :
        (left : List Posting)
        → d ≤ chunk_max last_chunk.0
        → k ≤ last_block
        → drop_below d left ≡ drop_below d (all_postings (drop k cks))
        → ShowsHere sought (drop_below d left)
    sought-Shows left h le eq =
        let found =
          find_block-Found codec law n cks rest chain universe inside small e.blocks e k d
            last_block last_chunk.0 s (omega arith) last_chunk.1 h le (omega (arith, s.0.count)) in
        let b = find_block codec e.blocks e d k in
        let fits =
          (good codec law n cks rest chain universe inside small e s b found.ck found.block) in
        rw (eq, found.skipped)
          (find_document-Shows codec law n cks rest chain universe inside small codec.block_size
            (decode_docs_block codec e b) (all_postings (drop b cks)) b 0 d found.ck
            (decoded-Stored codec law n cks rest chain universe inside small e b s)
            (decoded-Live codec law n cks rest chain universe inside small e b found.ck s
              found.block)
            found.reaches (omega (arith, fits.count, fits.fits)))

  module _ (some_blocks : 1 ≤ length cks) (e : DocumentEnumerator) (left : List Posting)
      (d : ℕ) where
    max-universe : ShowsHere e left → e.cur_block_max < universe
    max-universe (s, inl (b, i, ck, live)) =
        rw live.place.max
          (max-inside codec law n cks rest chain universe inside small e s b ck live.block)
    max-universe (s, inr (_, _, m)) = m

    pub next_geq-Shows :
        ShowsHere e left
        → (1 ≤ length left) ⊎ (universe ≤ d)
        → ShowsHere (next_geq codec e d) (drop_below d left)
    unfolding next_geq
    next_geq-Shows (s, inr (none_left, at_end, m)) allowed =
        let beyond : universe ≤ d = elim allowed [
          | inl h ↦ absurd (omega (arith, h, ap length none_left))
          | inr h ↦ h
        ] in
        let end = last_chunk e s some_blocks 0 d in
        let end_lt =
          max-inside codec law n cks rest chain universe inside small e s last_block end.0 end.1 in
        let in_block : ltb e.cur_block_max d ≡ true =
          lt→ltb e.cur_block_max d (omega (arith, m, beyond)) in
        let in_list : ltb (block_max e (e.blocks - 1)) d ≡ true =
          lt→ltb (block_max e (e.blocks - 1)) d
            (omega (arith, last_max e s some_blocks 0 d, end_lt, beyond)) in
        rw (in_block, in_list)
          (ended-Shows e s some_blocks 0 d (drop_below d left) m
            (ap (drop_below d) none_left ∙ drop_below-all d [] tt))
    next_geq-Shows (s, inl (b, i, ck, live)) allowed = elim (Bool-cases (ltb e.cur_block_max d)) [
      | inr n' ↦
          let fits = good codec law n cks rest chain universe inside small e s b ck live.block in
          rw n' (
            find_document-Shows codec law n cks rest chain universe inside small codec.block_size e
              left b i d ck s live (ground (arith, n', live.place.max))
              (omega (arith, fits.count, fits.fits)))
      | inl y ↦
          let lt : chunk_max ck < d = omega (arith, ltb→lt e.cur_block_max d y, live.place.max) in
          let chunk_end =
            (max-end codec law n cks rest chain universe inside small e s b ck live.block).1 in
          let run =
            (good codec law n cks rest chain universe inside small e s b ck live.block).run in
          let passed : drop_below d left ≡ drop_below d (all_postings (drop (suc b) cks)) =
            ap (drop_below d) live.is_left
            ∙ drop_below-Before d (drop i (chunk_postings ck)) (all_postings (drop (suc b) cks)) (
                Before-drop d i (chunk_postings ck)
                  (chunk_postings-Before ck d run (omega (arith, lt, chunk_end)))) in
          let k = e.cur_block + 1 in
          let at : k ≡ suc b = omega (arith, live.place.in_block) in
          let max = last_max e s some_blocks k d in
          let end = last_chunk e s some_blocks k d in
          elim (Bool-cases (ltb (block_max e (e.blocks - 1)) d)) [
            | inl z ↦
                let before =
                  all_before e s some_blocks k d
                    (omega (arith, ltb→lt (block_max e (e.blocks - 1)) d z, max)) in
                rw (y, z)
                  (ended-Shows e s some_blocks k d (drop_below d left)
                    (max-universe (s, inl (b, i, ck, live)))
                    (passed ∙ drop_below-all d _ (all_postings-Before d cks (suc b) before)))
            | inr z ↦
                let reaches : d ≤ chunk_max end.0 = ground (arith, z, max) in
                let later : b < last_block =
                  not_end cks b last_block ck end.0 live.block end.1
                    (omega (arith, index-lt codec law n cks rest b ck live.block))
                    (omega (arith, lt, reaches)) in
                rw (y, z)
                  (sought-Shows e s some_blocks k d left reaches (omega (arith, at, later))
                    (passed ∙ ap (λ j. drop_below d (all_postings (drop j cks))) (sym at)))
          ]
    ]

    pub global_geq-Shows :
        ShowsHere e left → ShowsHere (global_geq codec e d) (drop_below d (all_postings cks))
    unfolding global_geq
    global_geq-Shows shows = elim (Bool-cases (ltb (block_max e (e.blocks - 1)) d)) [
      | inl y ↦
          let before = all_before e shows.0 some_blocks 0 d (
            omega (
              arith,
              ltb→lt (block_max e (e.blocks - 1)) d y,
              last_max e shows.0 some_blocks 0 d,
            )) in
          rw y (
            ended-Shows e shows.0 some_blocks 0 d _ (max-universe shows)
              (drop_below-all d (all_postings cks) before))
      | inr n' ↦ rw n' (
          sought-Shows e shows.0 some_blocks 0 d (all_postings cks)
            (ground (arith, n', last_max e shows.0 some_blocks 0 d)) (omega arith) refl)
    ]
