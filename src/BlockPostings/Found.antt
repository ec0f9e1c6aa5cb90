-- ===== src/BlockPostings/Found.antt =====
-- The searches of the seeks: for the block, and in it.
use mathlib.Core.Option.{some-injective}
use anytime_daat.Prelude.{
  ℕ, zero, suc, ◌+◌, ◌^◌, ◌<◌, ◌≤◌, ◌≡◌, refl, sym, ap, ◌∙◌, inl, inr, List, ◌∷◌, some, true, false,
  ◌==◌, length, drop, get_elem?, ltb, ltb→lt, Bool-cases, arith,
}
use anytime_daat.Cursor.{Posting, after_first, drop_below}
use anytime_daat.BlockPostings.{BlockCodec}
use anytime_daat.BlockPostings.Layout.{Chunk, run_end}
use anytime_daat.BlockPostings.Chunks.{Chain, chunk_postings, all_postings}
use anytime_daat.BlockPostings.Stored.{chunk_max}
use anytime_daat.BlockPostings.Enumerator.{
  DocumentEnumerator, block_max, step, find_block, find_document,
}
use anytime_daat.BlockPostings.Decoded.{IsCodec, chunk_at}
use anytime_daat.BlockPostings.Lists.{
  Before, drop_below-Before, chunk_postings-Before, run_end-last, get_elem?-index,
  all_postings-drop,
}
use anytime_daat.BlockPostings.Shows.{
  Stored, Live, Shows, good, max-end, here, left-cons, step-Live, step-Stored,
}

-- Where one posting does not stand before the document, nothing behind it matters.
drop_below-stop :
    (d : ℕ) (p : Posting) (ps : List Posting) → d ≤ p.doc → drop_below d (p ∷ ps) ≡ p ∷ ps
unfolding drop_below
drop_below-stop d p ps h = let no : ltb p.doc d ≡ false = ground arith in rw no refl

drop_below-go :
    (d : ℕ) (p : Posting) (ps : List Posting) → p.doc < d → drop_below d (p ∷ ps) ≡ drop_below d ps
unfolding drop_below
drop_below-go d p ps h = let yes : ltb p.doc d ≡ true = ground arith in rw yes refl

-- A document before the one that the block reaches is not the last of the block.
not_last :
    (at i d : ℕ) (ck : Chunk)
    → get_elem? ck.docs i ≡ some at
    → at < d
    → d ≤ chunk_max ck
    → chunk_max ck + 1 ≡ run_end ck.base ck.docs
    → suc i < length ck.docs
not_last at i d ck g lt h e = elim (Bool-cases (suc i == length ck.docs)) [
  | inl k ↦
      let last = run_end-last ck.base ck.docs i at g (ground (arith, k)) in
      absurd (omega (arith, last, lt, h, e))
  | inr k ↦ ground (arith, k, get_elem?-index ck.docs i at g)
]

pub not_end :
    (cks : List Chunk) (k last : ℕ) (ck end : Chunk)
    → get_elem? cks k ≡ some ck
    → get_elem? cks last ≡ some end
    → k ≤ last
    → chunk_max ck < chunk_max end
    → k < last
not_end cks k last ck end e g le lt = elim (Bool-cases (ltb k last)) [
  | inl h ↦ ltb→lt k last h
  | inr h ↦
      let same : k ≡ last = ground (arith, h, le) in
      let eq : ck ≡ end = some-injective ck end (sym e ∙ ap (get_elem? cks) same ∙ g) in
      absurd (omega (arith, lt, ap chunk_max eq))
]

module _ (codec : BlockCodec) (law : IsCodec codec) (n : ℕ) (cks : List Chunk) (rest : List ℕ)
    (chain : Chain codec n 0 0 cks) (universe : ℕ) (inside : Before universe (all_postings cks))
    (small : universe < 2 ^ 32) where
  abbrev IsStoredHere : DocumentEnumerator → Type 0
  IsStoredHere = Stored codec law n cks rest chain universe inside small

  abbrev LiveHere : DocumentEnumerator → List Posting → ℕ → ℕ → Chunk → Type 0
  LiveHere = Live codec law n cks rest chain universe inside small

  abbrev ShowsHere : DocumentEnumerator → List Posting → Type 0
  ShowsHere = Shows codec law n cks rest chain universe inside small

  document_stop :
      (fuel : ℕ) (e : DocumentEnumerator) (d : ℕ)
      → d ≤ e.cur_docid
      → find_document codec fuel e d ≡ e
  unfolding find_document
  document_stop zero e d h = refl
  document_stop (suc fuel) e d h = let no : ltb e.cur_docid d ≡ false = ground arith in rw no refl

  document_go :
      (fuel : ℕ) (e : DocumentEnumerator) (d : ℕ)
      → e.cur_docid < d
      → find_document codec (suc fuel) e d ≡ find_document codec fuel (step codec e) d
  document_go fuel e d h =
      let yes : ltb e.cur_docid d ≡ true = ground arith in
      unfold find_document in rw (yes, find_document) refl

  -- In a block that reaches the document the loop finds it.
  pub find_document-Shows :
      (fuel : ℕ) (e : DocumentEnumerator) (left : List Posting) (b i d : ℕ) (ck : Chunk)
      → IsStoredHere e
      → LiveHere e left b i ck
      → d ≤ chunk_max ck
      → length ck.docs ≤ fuel + i
      → ShowsHere (find_document codec fuel e d) (drop_below d left)
  find_document-Shows zero e left b i d ck s live h f =
      absurd (omega (arith, f, get_elem?-index ck.docs i e.cur_docid live.place.here))
  find_document-Shows (suc fuel) e left b i d ck s live h f =
      let (freq, cons, _) =
        left-cons codec law n cks rest chain universe inside small e left s b i ck live in
      elim (Bool-cases (ltb e.cur_docid d)) [
        | inr k ↦
            let le : d ≤ e.cur_docid = ground (arith, k) in
            let same : drop_below d left ≡ left =
              ap (drop_below d) cons
              ∙ drop_below-stop d (record { doc = e.cur_docid; freq = freq }) (after_first left) le
              ∙ sym cons in
            rw (document_stop (suc fuel) e d le, same) (s, inl (b, i, ck, live))
        | inl k ↦
            let lt : e.cur_docid < d = ltb→lt e.cur_docid d k in
            let passed : drop_below d left ≡ drop_below d (after_first left) =
              ap (drop_below d) cons
              ∙ drop_below-go d (record { doc = e.cur_docid; freq = freq }) (after_first left) lt in
            let end =
              (max-end codec law n cks rest chain universe inside small e s b ck live.block).1 in
            let more : suc i < length ck.docs =
              not_last e.cur_docid i d ck live.place.here lt h end in
            rw (document_go fuel e d lt, passed)
              (find_document-Shows fuel (step codec e) (after_first left) b (suc i) d ck
                (step-Stored codec law n cks rest chain universe inside small e left s b i ck live)
                (step-Live codec law n cks rest chain universe inside small e left s b i ck live
                  more)
                h (omega (arith, f)))
      ]

  -- The loop over the blocks comes to the first that reaches the document.
  pub record Found (e : DocumentEnumerator) (k d b : ℕ) : Type 0 where
    pub ck : Chunk
    pub block : get_elem? cks b ≡ some ck
    pub reaches : d ≤ chunk_max ck
    pub skipped :
        drop_below d (all_postings (drop k cks)) ≡ drop_below d (all_postings (drop b cks))

  pub find_block-Found :
      (fuel : ℕ) (e : DocumentEnumerator) (k d last : ℕ) (end : Chunk)
      → IsStoredHere e
      → suc last ≡ length cks
      → get_elem? cks last ≡ some end
      → d ≤ chunk_max end
      → k ≤ last
      → last < fuel + k
      → Found e k d (find_block codec fuel e d k)
  find_block-Found zero e k d last end s l g h le f = absurd (omega arith)
  find_block-Found (suc fuel) e k d last end s l g h le f =
      let (ck, here) = chunk_at codec law n cks rest k (omega (arith, l)) in
      let (max, chunk_end) =
        max-end codec law n cks rest chain universe inside small e s k ck here in
      elim (Bool-cases (ltb (block_max e k) d)) [
        | inr n' ↦
            let stop : find_block codec (suc fuel) e d k ≡ k = unfold find_block in rw n' refl in
            rw stop
              (record { ck = ck; block = here; reaches = ground (arith, n', max); skipped = refl })
        | inl y ↦
            let lt : chunk_max ck < d = omega (arith, ltb→lt (block_max e k) d y, max) in
            let other : k < last = not_end cks k last ck end here g le (omega (arith, lt, h)) in
            let next : k + 1 ≡ suc k = omega arith in
            let go : find_block codec (suc fuel) e d k ≡ find_block codec fuel e d (suc k) =
              unfold find_block in rw (y, next, find_block) refl in
            let r = find_block-Found fuel e (suc k) d last end s l g h other (omega (arith, f)) in
            let run = (good codec law n cks rest chain universe inside small e s k ck here).run in
            let gone : drop_below d (all_postings (drop k cks))
                ≡ drop_below d (all_postings (drop (suc k) cks)) =
              ap (drop_below d) (all_postings-drop cks k ck here)
              ∙ drop_below-Before d (chunk_postings ck) (all_postings (drop (suc k) cks))
                  (chunk_postings-Before ck d run (omega (arith, lt, chunk_end))) in
            rw go (record {
              ck = r.ck;
              block = r.block;
              reaches = r.reaches;
              skipped = gone ∙ r.skipped;
            })
      ]
