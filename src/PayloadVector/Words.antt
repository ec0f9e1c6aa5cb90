-- ===== src/PayloadVector/Words.antt =====
-- Numbers as bytes and back.

use anytime_daat.Prelude.{
  ℕ, zero, suc, ◌+◌, ◌*◌, ◌/◌, ◌%◌, ◌^◌, ◌<◌, ◌≤◌, ◌≡◌, refl, sym, ap, ◌∙◌, List, [], ◌∷◌, ◌++◌,
  All, length, length-append, take, drop, take-append-drop, length-take, length-drop, arith,
}
use anytime_daat.PayloadVector.{to_bytes, of_bytes, all_to_bytes, numbers_in}

abbrev pub IsByte : ℕ → Type 0
IsByte b = b < 2 ^ 8

abbrev pub IsU64 : ℕ → Type 0
IsU64 v = v < 2 ^ 64

pub length-to_bytes : (n v : ℕ) → length (to_bytes n v) ≡ n
unfolding to_bytes
length-to_bytes zero v = refl
length-to_bytes (suc n) v = ap suc (length-to_bytes n (v / 2 ^ 8))

-- What is left of a number after `n` bytes is nothing.
abbrev FitsIn : ℕ → ℕ → Type 0
FitsIn zero v = v ≡ 0
FitsIn (suc n) v = FitsIn n (v / 2 ^ 8)

of_bytes-to_bytes : (n v : ℕ) → FitsIn n v → of_bytes (to_bytes n v) ≡ v
unfolding of_bytes to_bytes
of_bytes-to_bytes zero v h = sym h
of_bytes-to_bytes (suc n) v h = omega (arith, of_bytes-to_bytes n (v / 2 ^ 8) h)

pub of_bytes-to_bytes_8 : (v : ℕ) → IsU64 v → of_bytes (to_bytes 8 v) ≡ v
of_bytes-to_bytes_8 v h = of_bytes-to_bytes 8 v (omega arith)

pub of_bytes-to_bytes_4 : (v : ℕ) → v < 2 ^ 32 → of_bytes (to_bytes 4 v) ≡ v
of_bytes-to_bytes_4 v h = of_bytes-to_bytes 4 v (omega arith)

pub to_bytes-of_bytes : (bs : List ℕ) → All IsByte bs → to_bytes (length bs) (of_bytes bs) ≡ bs
unfolding of_bytes to_bytes
to_bytes-of_bytes [] h = refl
to_bytes-of_bytes (b ∷ bs) (h, k) =
    let low : (b + 2 ^ 8 * of_bytes bs) % 2 ^ 8 ≡ b = omega arith in
    let high : (b + 2 ^ 8 * of_bytes bs) / 2 ^ 8 ≡ of_bytes bs = omega arith in
    rw (low, high, to_bytes-of_bytes bs k) refl

-- A prefix of known length is taken off.
module _ {ℓ} {A : Type ℓ} where
  take-prefix : (xs ys : List A) → take (length xs) (xs ++ ys) ≡ xs
  take-prefix [] ys = refl
  take-prefix (x ∷ xs) ys = ap (λ t. x ∷ t) (take-prefix xs ys)

  drop-prefix : (xs ys : List A) → drop (length xs) (xs ++ ys) ≡ ys
  drop-prefix [] ys = refl
  drop-prefix (x ∷ xs) ys = drop-prefix xs ys

  pub take-front : (n : ℕ) (xs ys : List A) → length xs ≡ n → take n (xs ++ ys) ≡ xs
  take-front n xs ys e = rw (sym e) (take-prefix xs ys)

  pub drop-front : (n : ℕ) (xs ys : List A) → length xs ≡ n → drop n (xs ++ ys) ≡ ys
  drop-front n xs ys e = rw (sym e) (drop-prefix xs ys)

pub length-all_to_bytes : (vs : List ℕ) → length (all_to_bytes vs) ≡ length vs * 8
unfolding all_to_bytes
length-all_to_bytes [] = refl
length-all_to_bytes (v ∷ vs) = omega (
  arith,
  length-append (to_bytes 8 v) (all_to_bytes vs),
  length-to_bytes 8 v,
  length-all_to_bytes vs,
)

pub numbers_in-all_to_bytes :
    (vs : List ℕ) → All IsU64 vs → numbers_in 8 (length vs) (all_to_bytes vs) ≡ vs
unfolding numbers_in all_to_bytes
numbers_in-all_to_bytes [] h = refl
numbers_in-all_to_bytes (v ∷ vs) (h, k) =
    let n = length-to_bytes 8 v in
    rw
      (
        take-front 8 (to_bytes 8 v) (all_to_bytes vs) n,
        drop-front 8 (to_bytes 8 v) (all_to_bytes vs) n,
        of_bytes-to_bytes_8 v h,
        numbers_in-all_to_bytes vs k,
      )
      refl

pub length-numbers_in : (n : ℕ) (mem : List ℕ) → length (numbers_in 8 n mem) ≡ n
unfolding numbers_in
length-numbers_in zero mem = refl
length-numbers_in (suc n) mem = ap suc (length-numbers_in n (drop 8 mem))

All-take : (P : ℕ → Type 0) (n : ℕ) (xs : List ℕ) → All P xs → All P (take n xs)
All-take P zero xs h = tt
All-take P (suc n) [] h = tt
All-take P (suc n) (x ∷ xs) (h, k) = (h, All-take P n xs k)

All-drop : (P : ℕ → Type 0) (n : ℕ) (xs : List ℕ) → All P xs → All P (drop n xs)
All-drop P zero xs h = h
All-drop P (suc n) [] h = tt
All-drop P (suc n) (x ∷ xs) (h, k) = All-drop P n xs k

pub All-parts :
    (P : ℕ → Type 0) (n : ℕ) (xs : List ℕ) → All P xs → All P (take n xs) × All P (drop n xs)
All-parts P n xs h = (All-take P n xs h, All-drop P n xs h)

-- A word in front of some bytes is these eight bytes.
pub to_bytes-take :
    (mem : List ℕ)
    → All IsByte mem
    → 8 ≤ length mem
    → to_bytes 8 (of_bytes (take 8 mem)) ≡ take 8 mem
to_bytes-take mem h k =
    let n : length (take 8 mem) ≡ 8 = omega (arith, length-take 8 mem) in
    ap (λ n. to_bytes n (of_bytes (take 8 mem))) (sym n)
    ∙ to_bytes-of_bytes (take 8 mem) (All-take IsByte 8 mem h)

pub all_to_bytes-numbers_in :
    (n : ℕ) (mem : List ℕ)
    → All IsByte mem
    → length mem ≡ n * 8
    → all_to_bytes (numbers_in 8 n mem) ≡ mem
unfolding numbers_in all_to_bytes
all_to_bytes-numbers_in zero [] h e = refl
all_to_bytes-numbers_in zero (b ∷ mem) h e = absurd (omega arith)
all_to_bytes-numbers_in (suc n) mem h e =
    rw
      (
        to_bytes-take mem h (omega arith),
        all_to_bytes-numbers_in n (drop 8 mem) (All-drop IsByte 8 mem h)
            (omega (arith, length-drop 8 mem)),
      )
      (take-append-drop 8 mem)
