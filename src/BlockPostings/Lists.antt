-- ===== src/BlockPostings/Lists.antt =====
-- The postings that are left from a place of a block on.
use mathlib.Core.Option.{some-injective}
use anytime_daat.Prelude.{
  ℕ, zero, suc, ◌+◌, ◌<◌, ◌≤◌, ◌≡◌, refl, ap, List, [], ◌∷◌, ◌++◌, some, true, All, length, drop,
  get_elem?, ltb, arith,
}
use anytime_daat.Cursor.{Posting, drop_below}
use anytime_daat.BlockPostings.{BlockCodec}
use anytime_daat.BlockPostings.Layout.{Chunk, Run, run_end, run_end-le}
use anytime_daat.BlockPostings.Chunks.{postings, chunk_postings, all_postings, Chain}

abbrev pub Before : ℕ → List Posting → Type 0
Before d = All (λ p. p.doc < d)

pub drop_below-Before :
    (d : ℕ) (ps qs : List Posting) → Before d ps → drop_below d (ps ++ qs) ≡ drop_below d qs
unfolding drop_below
drop_below-Before d [] qs h = refl
drop_below-Before d (p ∷ ps) qs h =
    let less : ltb p.doc d ≡ true = ground arith in rw less (drop_below-Before d ps qs h.1)

pub drop_below-all : (d : ℕ) (ps : List Posting) → Before d ps → drop_below d ps ≡ []
unfolding drop_below
drop_below-all d [] h = refl
drop_below-all d (p ∷ ps) h =
    let less : ltb p.doc d ≡ true = ground arith in rw less (drop_below-all d ps h.1)

pub Before-append : (d : ℕ) (ps qs : List Posting) → Before d ps → Before d qs → Before d (ps ++ qs)
Before-append d [] qs h k = k
Before-append d (p ∷ ps) qs h k = (h.0, Before-append d ps qs h.1 k)

pub Before-drop : (d i : ℕ) (ps : List Posting) → Before d ps → Before d (drop i ps)
Before-drop d zero ps h = h
Before-drop d (suc i) [] h = tt
Before-drop d (suc i) (p ∷ ps) h = Before-drop d i ps h.1

-- The documents of a run stand before its end.
pub postings-Before :
    (base : ℕ) (ds fs : List ℕ) (d : ℕ)
    → Run base ds
    → run_end base ds ≤ d
    → Before d (postings ds fs)
unfolding postings run_end
postings-Before base [] fs d r h = tt
postings-Before base (x ∷ ds) [] d r h = tt
postings-Before base (x ∷ ds) (f ∷ fs) d (le, lt, r) h =
    (omega (arith, run_end-le (x + 1) ds r), postings-Before (x + 1) ds fs d r h)

pub chunk_postings-Before :
    (ck : Chunk) (d : ℕ)
    → Run ck.base ck.docs
    → run_end ck.base ck.docs ≤ d
    → Before d (chunk_postings ck)
unfolding chunk_postings
chunk_postings-Before ck d = postings-Before ck.base ck.docs ck.freqs d

-- The posting at a place, and those behind it.
pub postings-at :
    (ds fs : List ℕ) (i d : ℕ)
    → length fs ≡ length ds
    → get_elem? ds i ≡ some d
    → (f : ℕ) × (get_elem? fs i ≡ some f)
      × (drop i (postings ds fs) ≡ record { doc = d; freq = f } ∷ drop (suc i) (postings ds fs))
unfolding postings
postings-at [] fs i d e g = cc
postings-at (x ∷ ds) [] i d e g = absurd (omega arith)
postings-at (x ∷ ds) (f ∷ fs) zero d e g =
    (f, refl, ap (λ x. record { doc = x; freq = f } ∷ postings ds fs) (some-injective x d g))
postings-at (x ∷ ds) (f ∷ fs) (suc i) d e g = postings-at ds fs i d (omega arith) g

pub length-postings : (ds fs : List ℕ) → length fs ≡ length ds → length (postings ds fs) ≡ length ds
unfolding postings
length-postings [] fs e = refl
length-postings (d ∷ ds) [] e = absurd (omega arith)
length-postings (d ∷ ds) (f ∷ fs) e = ap suc (length-postings ds fs (omega arith))

pub drop-end : (ps : List Posting) (k : ℕ) → length ps ≤ k → drop k ps ≡ []
drop-end [] zero h = refl
drop-end [] (suc k) h = refl
drop-end (p ∷ ps) zero h = absurd (omega arith)
drop-end (p ∷ ps) (suc k) h = drop-end ps k (omega arith)

-- The last document of a run is the one before its end.
pub run_end-last :
    (base : ℕ) (ds : List ℕ) (i d : ℕ)
    → get_elem? ds i ≡ some d
    → suc i ≡ length ds
    → run_end base ds ≡ d + 1
unfolding run_end
run_end-last base [] i d g e = cc
run_end-last base (x ∷ []) zero d g e = ap (λ x. x + 1) (some-injective x d g)
run_end-last base (x ∷ y ∷ ds) zero d g e = absurd (omega arith)
run_end-last base (x ∷ ds) (suc i) d g e = run_end-last (x + 1) ds i d g (omega arith)

pub get_elem?-below : (xs : List ℕ) (i : ℕ) → i < length xs → (x : ℕ) × (get_elem? xs i ≡ some x)
get_elem?-below [] i h = absurd (omega arith)
get_elem?-below (x ∷ xs) zero h = (x, refl)
get_elem?-below (x ∷ xs) (suc i) h = get_elem?-below xs i (omega arith)

pub get_elem?-index : (xs : List ℕ) (i x : ℕ) → get_elem? xs i ≡ some x → i < length xs
get_elem?-index [] i x e = cc
get_elem?-index (y ∷ xs) zero x e = omega arith
get_elem?-index (y ∷ xs) (suc i) x e = omega (arith, get_elem?-index xs i x e)

-- The postings from block `k` on.
pub all_postings-drop :
    (cks : List Chunk) (k : ℕ) (ck : Chunk)
    → get_elem? cks k ≡ some ck
    → all_postings (drop k cks) ≡ chunk_postings ck ++ all_postings (drop (suc k) cks)
all_postings-drop [] k ck e = cc
all_postings-drop (c ∷ cks) zero ck e =
    unfold all_postings in ap (λ c. chunk_postings c ++ all_postings cks) (some-injective c ck e)
all_postings-drop (c ∷ cks) (suc k) ck e = all_postings-drop cks k ck e

pub all_postings-none : (cks : List Chunk) (k : ℕ) → length cks ≤ k → all_postings (drop k cks) ≡ []
unfolding all_postings
all_postings-none [] zero h = refl
all_postings-none [] (suc k) h = refl
all_postings-none (c ∷ cks) zero h = absurd (omega arith)
all_postings-none (c ∷ cks) (suc k) h = all_postings-none cks k (omega arith)

-- All postings of a chain stand before the end of its last block.
pub Chain-Before :
    (codec : BlockCodec) (n b base d : ℕ) (cks : List Chunk) (last : ℕ) (ck : Chunk)
    → Chain codec n b base cks
    → suc last ≡ length cks
    → get_elem? cks last ≡ some ck
    → run_end ck.base ck.docs ≤ d
    → (base ≤ d) × Before d (all_postings cks)
unfolding all_postings
Chain-Before codec n b base d [] last ck ch e g h = cc
Chain-Before codec n b base d (c ∷ []) zero ck ch e g h =
    let same = some-injective c ck g in
    let le : run_end c.base c.docs ≤ d = rw same h in
    (
      omega (arith, ch.0, run_end-le c.base c.docs ch.1.run, le),
      Before-append d (chunk_postings c) [] (chunk_postings-Before c d ch.1.run le) tt,
    )
Chain-Before codec n b base d (c ∷ e' ∷ cks) zero ck ch e g h = absurd (omega arith)
Chain-Before codec n b base d (c ∷ []) (suc last) ck ch e g h = absurd (omega arith)
Chain-Before codec n b base d (c ∷ e' ∷ cks) (suc last) ck ch e g h =
    let (le, rest) =
      Chain-Before codec n (suc b) (run_end base c.docs) d (e' ∷ cks) last ck ch.2 (omega arith) g
        h in
    let mine : run_end c.base c.docs ≤ d = rw ch.0 le in
    (
      omega (arith, ch.0, run_end-le c.base c.docs ch.1.run, mine),
      Before-append d (chunk_postings c) (all_postings (e' ∷ cks))
          (chunk_postings-Before c d ch.1.run mine) rest,
    )

Before-left : (d : ℕ) (ps qs : List Posting) → Before d (ps ++ qs) → Before d ps
Before-left d [] qs h = tt
Before-left d (p ∷ ps) qs h = (h.0, Before-left d ps qs h.1)

Before-right : (d : ℕ) (ps qs : List Posting) → Before d (ps ++ qs) → Before d qs
Before-right d [] qs h = h
Before-right d (p ∷ ps) qs h = Before-right d ps qs h.1

pub chunk-Before :
    (d : ℕ) (cks : List Chunk) (k : ℕ) (ck : Chunk)
    → Before d (all_postings cks)
    → get_elem? cks k ≡ some ck
    → Before d (chunk_postings ck)
unfolding all_postings
chunk-Before d [] k ck h e = cc
chunk-Before d (c ∷ cks) zero ck h e =
    rw (← some-injective c ck e) (Before-left d (chunk_postings c) (all_postings cks) h)
chunk-Before d (c ∷ cks) (suc k) ck h e =
    chunk-Before d cks k ck (Before-right d (chunk_postings c) (all_postings cks) h) e

pub all_postings-Before :
    (d : ℕ) (cks : List Chunk) (k : ℕ)
    → Before d (all_postings cks)
    → Before d (all_postings (drop k cks))
unfolding all_postings
all_postings-Before d cks zero h = h
all_postings-Before d [] (suc k) h = tt
all_postings-Before d (c ∷ cks) (suc k) h =
    all_postings-Before d cks k (Before-right d (chunk_postings c) (all_postings cks) h)
