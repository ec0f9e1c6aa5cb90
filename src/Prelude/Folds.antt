-- ===== src/Prelude/Folds.antt =====
-- Predicates on every item of a list, and sums over a list.
use Prim.Native.Nat.{ℕ, ◌+◌, ◌≤◌}
use mathlib.Core.Path.{◌≡◌, refl}
use mathlib.Core.List.{List, [], ◌∷◌, ◌++◌}
use native.Mathlib.Omega.{arith}

module _ {ℓ} {A : Type ℓ} where
  abbrev pub All {κ} : (A → Type κ) → List A → Type κ
  All P [] = Unit {κ}
  All P (x ∷ xs) = P x × All P xs

  abbrev pub sum_over : (A → ℕ) → List A → ℕ
  sum_over f [] = 0
  sum_over f (x ∷ xs) = f x + sum_over f xs

  pub All-mono {κ μ} :
      {P : A → Type κ} {Q : A → Type μ} (g : (x : A) → P x → Q x) (xs : List A)
      → All P xs
      → All Q xs
  All-mono g [] h = tt
  All-mono g (x ∷ xs) (p, h) = (g x p, All-mono g xs h)

  pub All-append {κ} : (P : A → Type κ) (xs ys : List A) → All P xs → All P ys → All P (xs ++ ys)
  All-append P [] ys h k = k
  All-append P (x ∷ xs) ys (p, h) k = (p, All-append P xs ys h k)

  pub sum_over-append :
      (f : A → ℕ) (xs ys : List A) → sum_over f (xs ++ ys) ≡ sum_over f xs + sum_over f ys
  sum_over-append f [] ys = omega arith
  sum_over-append f (x ∷ xs) ys = omega (arith, sum_over-append f xs ys)

  -- Two functions that agree on every item have the same sum.
  pub sum_over_cong :
      (f g : A → ℕ) (xs : List A) → All (λ x. f x ≡ g x) xs → sum_over f xs ≡ sum_over g xs
  sum_over_cong f g [] h = refl
  sum_over_cong f g (x ∷ xs) h = omega (arith, sum_over_cong f g xs h.1)

  pub sum_over_mono :
      (f g : A → ℕ) (xs : List A) → All (λ x. f x ≤ g x) xs → sum_over f xs ≤ sum_over g xs
  sum_over_mono f g [] h = omega arith
  sum_over_mono f g (x ∷ xs) h = omega (arith, sum_over_mono f g xs h.1)

module _ {ℓ} {A : Type ℓ} where
  pub All-both {κ μ ν} :
      {P : A → Type κ} {Q : A → Type μ} {R : A → Type ν} (g : (x : A) → P x → Q x → R x)
      (xs : List A)
      → All P xs
      → All Q xs
      → All R xs
  All-both g [] h k = tt
  All-both g (x ∷ xs) h k = (g x h.0 k.0, All-both g xs h.1 k.1)
