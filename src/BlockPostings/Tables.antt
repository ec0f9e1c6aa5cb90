-- ===== src/BlockPostings/Tables.antt =====
-- The tables of words: what stands at a place of one, and what stands behind it.
use mathlib.Core.List.{append_assoc}
use mathlib.Core.Option.{some-injective}
use anytime_daat.Prelude.{
  ℕ, zero, suc, ◌+◌, ◌*◌, ◌%◌, ◌^◌, ◌<◌, ◌≡◌, refl, sym, ap, ◌∙◌, List, [], ◌∷◌, ◌++◌, some, length,
  length-append, drop, get_elem?, arith,
}
use anytime_daat.PayloadVector.{to_bytes}
use anytime_daat.PayloadVector.Offsets.{start_of, start_of-zero, start_of-suc}
use anytime_daat.PayloadVector.Words.{length-to_bytes, of_bytes-to_bytes_4, take-front, drop-front}
use anytime_daat.BlockPostings.{all_to_words}
use anytime_daat.BlockPostings.Enumerator.{word_at}

length-all_to_words : (vs : List ℕ) → length (all_to_words vs) ≡ length vs * 4
unfolding all_to_words
length-all_to_words [] = refl
length-all_to_words (v ∷ vs) = omega (
  arith,
  length-append (to_bytes 4 v) (all_to_words vs),
  length-to_bytes 4 v,
  length-all_to_words vs,
)

-- Behind a table of words.
pub drop-all_to_words :
    (vs rest : List ℕ) (k : ℕ) → k ≡ 4 * length vs → drop k (all_to_words vs ++ rest) ≡ rest
drop-all_to_words vs rest k e =
    drop-front k (all_to_words vs) rest (omega (arith, length-all_to_words vs, e))

module _ {ℓ} {A : Type ℓ} where
  drop-nil : (k : ℕ) → drop {A = A} k [] ≡ []
  drop-nil zero = refl
  drop-nil (suc k) = refl

  pub drop-drop : (m k : ℕ) (xs : List A) → drop (k + m) xs ≡ drop m (drop k xs)
  drop-drop m zero xs = ap (λ j. drop j xs) (omega arith)
  drop-drop m (suc k) [] = drop-nil (suc k + m) ∙ sym (drop-nil m)
  drop-drop m (suc k) (x ∷ xs) =
      let next : suc k + m ≡ suc (k + m) = omega arith in rw next (drop-drop m k xs)

pub word_at-all_to_words :
    (vs rest : List ℕ) (i v : ℕ)
    → get_elem? vs i ≡ some v
    → v < 2 ^ 32
    → word_at (all_to_words vs ++ rest) i ≡ v
unfolding word_at all_to_words
word_at-all_to_words [] rest i v e h = cc
word_at-all_to_words (x ∷ vs) rest zero v e h =
    let same : x ≡ v = some-injective x v e in
    rw
      (
        append_assoc (to_bytes 4 x) (all_to_words vs) rest,
        take-front 4 (to_bytes 4 x) (all_to_words vs ++ rest) (length-to_bytes 4 x),
        same,
      )
      (of_bytes-to_bytes_4 v h)
word_at-all_to_words (x ∷ vs) rest (suc i) v e h =
    let next : suc i * 4 ≡ 4 + i * 4 = omega arith in
    rw
      (
        append_assoc (to_bytes 4 x) (all_to_words vs) rest,
        next,
        drop-drop (i * 4) 4 (to_bytes 4 x ++ (all_to_words vs ++ rest)),
        drop-front 4 (to_bytes 4 x) (all_to_words vs ++ rest) (length-to_bytes 4 x),
      )
      (word_at-all_to_words vs rest i v e h)

-- Where the blocks after the first start, behind `o` bytes.
unfoldable pub ends : ℕ → List (List ℕ) → List ℕ
ends o [] = []
ends o (p ∷ []) = []
ends o (p ∷ q ∷ ps) = (o + length p) % 2 ^ 32 ∷ ends (o + length p) (q ∷ ps)

pub length-ends : (o : ℕ) (p : List ℕ) (ps : List (List ℕ)) → length (ends o (p ∷ ps)) ≡ length ps
unfolding ends
length-ends o p [] = refl
length-ends o p (q ∷ ps) = ap suc (length-ends (o + length p) q ps)

pub get_elem?-ends :
    (o : ℕ) (ps : List (List ℕ)) (i : ℕ)
    → suc i < length ps
    → get_elem? (ends o ps) i ≡ some ((o + start_of ps (suc i)) % 2 ^ 32)
unfolding ends
get_elem?-ends o [] i h = absurd (omega arith)
get_elem?-ends o (p ∷ []) i h = absurd (omega arith)
get_elem?-ends o (p ∷ q ∷ ps) zero h =
    let here : start_of (p ∷ q ∷ ps) 1 ≡ length p =
      start_of-suc p (q ∷ ps) 0 ∙ omega (arith, start_of-zero (q ∷ ps)) in
    rw here refl
get_elem?-ends o (p ∷ q ∷ ps) (suc i) h =
    let here : start_of (p ∷ q ∷ ps) (suc (suc i)) ≡ length p + start_of (q ∷ ps) (suc i) =
      start_of-suc p (q ∷ ps) (suc i) in
    get_elem?-ends (o + length p) (q ∷ ps) i (omega arith)
    ∙ ap (λ n. some (n % 2 ^ 32)) (omega (arith, here))
