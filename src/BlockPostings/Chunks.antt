-- ===== src/BlockPostings/Chunks.antt =====
-- The blocks of a list, and the postings of each.
use anytime_daat.Prelude.{
  ℕ, zero, suc, ◌+◌, ◌-◌, ◌^◌, ◌≤◌, ◌<◌, ◌≡◌, refl, ap, ◌∙◌, List, [], ◌∷◌, ◌++◌, some, All, length,
  take, drop, length-take, length-drop, get_elem?, arith,
}
use mathlib.Core.Option.{some-injective}
use anytime_daat.Cursor.{Posting}
use anytime_daat.BlockPostings.{BlockCodec, cur_block_size}
use anytime_daat.BlockPostings.Layout.{
  Chunk, Run, IsFreq, run_end, run_end-u32, Run-take, Run-drop, chunks, Counted, Counted-Sized,
}

-- A list of postings, of the documents and of the frequencies.
unfoldable pub postings : List ℕ → List ℕ → List Posting
postings [] fs = []
postings (d ∷ ds) [] = []
postings (d ∷ ds) (f ∷ fs) = record { doc = d; freq = f } ∷ postings ds fs

unfoldable pub chunk_postings : Chunk → List Posting
chunk_postings ck = postings ck.docs ck.freqs

unfoldable pub all_postings : List Chunk → List Posting
all_postings [] = []
all_postings (ck ∷ cks) = chunk_postings ck ++ all_postings cks

-- What is true of a block of `size` postings.
pub record Good (codec : BlockCodec) (size : ℕ) (ck : Chunk) : Type 0 where
  pub run : Run ck.base ck.docs
  pub base_u32 : ck.base < 2 ^ 32
  pub count : length ck.docs ≡ size
  pub same_count : length ck.freqs ≡ size
  pub some_left : 1 ≤ size
  pub fits : size ≤ codec.block_size
  pub freqs_ok : All IsFreq ck.freqs

-- Blocks from block `b` on, each behind the one before it.
abbrev pub Chain : BlockCodec → ℕ → ℕ → ℕ → List Chunk → Type 0
Chain codec n b base [] = Unit
Chain codec n b base (ck ∷ cks) =
    (ck.base ≡ base)
    × Good codec (cur_block_size codec n b) ck
    × Chain codec n (suc b) (run_end base ck.docs) cks

All-take : (P : ℕ → Type 0) (n : ℕ) (xs : List ℕ) → All P xs → All P (take n xs)
All-take P zero xs h = tt
All-take P (suc n) [] h = tt
All-take P (suc n) (x ∷ xs) (h, k) = (h, All-take P n xs k)

All-drop : (P : ℕ → Type 0) (n : ℕ) (xs : List ℕ) → All P xs → All P (drop n xs)
All-drop P zero xs h = h
All-drop P (suc n) [] h = tt
All-drop P (suc n) (x ∷ xs) (h, k) = All-drop P n xs k

postings_none : (ds : List ℕ) → postings ds [] ≡ []
unfolding postings
postings_none [] = refl
postings_none (d ∷ ds) = refl

postings-append :
    (k : ℕ) (ds fs : List ℕ)
    → postings (take k ds) (take k fs) ++ postings (drop k ds) (drop k fs) ≡ postings ds fs
unfolding postings
postings-append zero ds fs = refl
postings-append (suc k) [] fs = refl
postings-append (suc k) (d ∷ ds) [] = postings_none (drop k ds)
postings-append (suc k) (d ∷ ds) (f ∷ fs) =
    ap (λ ps. record { doc = d; freq = f } ∷ ps) (postings-append k ds fs)

module _ (codec : BlockCodec) (n : ℕ) (one : 1 ≤ codec.block_size) where
  pub chunks-Chain :
      (left b base : ℕ) (docs freqs : List ℕ)
      → Counted codec n left b (length docs)
      → base < 2 ^ 32
      → Run base docs
      → length freqs ≡ length docs
      → All IsFreq freqs
      → Chain codec n b base (chunks codec n left b base docs freqs)
  unfolding chunks
  chunks-Chain zero b base docs freqs c u r e f = tt
  chunks-Chain (suc left) b base docs freqs c u r e f =
      let s = Counted-Sized codec n left b (length docs) one c in
      let size = cur_block_size codec n b in
      let r' = Run-take size base docs r in
      let count : length (drop size docs) ≡ length docs - size = length-drop size docs in
      (
        refl,
        record {
          run = r';
          base_u32 = u;
          count = omega (arith, length-take size docs, s.inside);
          same_count = omega (arith, length-take size freqs, s.inside, e);
          some_left = s.some_left;
          fits = s.fits;
          freqs_ok = All-take IsFreq size freqs f;
        },
        chunks-Chain left (suc b) (run_end base (take size docs)) (drop size docs) (drop size freqs)
            (rw count s.later) (run_end-u32 base (take size docs) u r') (Run-drop size base docs r)
            (omega (arith, count, length-drop size freqs, e)) (All-drop IsFreq size freqs f),
      )

  pub all_postings-chunks :
      (left b base : ℕ) (docs freqs : List ℕ)
      → Counted codec n left b (length docs)
      → length freqs ≡ length docs
      → all_postings (chunks codec n left b base docs freqs) ≡ postings docs freqs
  unfolding chunks all_postings chunk_postings
  all_postings-chunks zero b base [] freqs c e = unfold postings in refl
  all_postings-chunks zero b base (d ∷ docs) freqs c e = absurd (omega (arith, c.enough))
  all_postings-chunks (suc left) b base docs freqs c e =
      let s = Counted-Sized codec n left b (length docs) one c in
      let size = cur_block_size codec n b in
      let count : length (drop size docs) ≡ length docs - size = length-drop size docs in
      ap (λ ps. postings (take size docs) (take size freqs) ++ ps)
        (all_postings-chunks left (suc b) (run_end base (take size docs)) (drop size docs)
          (drop size freqs) (rw count s.later) (omega (arith, count, length-drop size freqs, e)))
      ∙ postings-append size docs freqs

-- What a chain has at a place.
module _ (codec : BlockCodec) (n : ℕ) where
  pub Chain-at :
      (b base : ℕ) (cks : List Chunk) (i : ℕ) (ck : Chunk)
      → Chain codec n b base cks
      → get_elem? cks i ≡ some ck
      → Good codec (cur_block_size codec n (b + i)) ck
  Chain-at b base [] i ck h e = cc
  Chain-at b base (c ∷ cks) zero ck h e =
      let same : c ≡ ck = some-injective c ck e in
      let here : b + 0 ≡ b = omega arith in rw (← same, here) h.1
  Chain-at b base (c ∷ cks) (suc i) ck h e =
      let next : b + suc i ≡ suc b + i = omega arith in rw next (Chain-at (suc b) _ cks i ck h.2 e)

  pub Chain-first :
      (b base : ℕ) (cks : List Chunk) (ck : Chunk)
      → Chain codec n b base cks
      → get_elem? cks 0 ≡ some ck
      → ck.base ≡ base
  Chain-first b base [] ck h e = cc
  Chain-first b base (c ∷ cks) ck h e = let same : c ≡ ck = some-injective c ck e in rw (← same) h.0

  pub Chain-next :
      (b base : ℕ) (cks : List Chunk) (i : ℕ) (prev ck : Chunk)
      → Chain codec n b base cks
      → get_elem? cks i ≡ some prev
      → get_elem? cks (suc i) ≡ some ck
      → ck.base ≡ run_end prev.base prev.docs
  Chain-next b base [] i prev ck h e f = cc
  Chain-next b base (c ∷ cks) zero prev ck h e f =
      let same : c ≡ prev = some-injective c prev e in
      rw (← same, h.0) (Chain-first (suc b) (run_end base c.docs) cks ck h.2 f)
  Chain-next b base (c ∷ cks) (suc i) prev ck h e f =
      Chain-next (suc b) (run_end base c.docs) cks i prev ck h.2 e f
