-- ===== src/Prelude/Perms.antt =====
-- Rearrangements of a list, with the sums and the predicates that they keep.
use Prim.Native.Nat.{ℕ, suc}
use mathlib.Core.Path.{◌≡◌, refl, sym, ap, subst, ◌∙◌}
use mathlib.Core.List.{List, [], ◌∷◌, ◌++◌, map, Permᴰ}
use native.Mathlib.Omega.{arith}
use anytime_daat.Prelude.Lists.{length}
use anytime_daat.Prelude.Folds.{All, sum_over}

module _ {ℓ} {A : Type ℓ} where
  pub Permᴰ-refl : (xs : List A) → Permᴰ xs xs
  Permᴰ-refl [] = Permᴰ.nil
  Permᴰ-refl (x ∷ xs) = Permᴰ.cons refl (Permᴰ-refl xs)

  pub Permᴰ-symm : {xs ys : List A} → Permᴰ xs ys → Permᴰ ys xs
  Permᴰ-symm Permᴰ.nil = Permᴰ.nil
  Permᴰ-symm (Permᴰ.cons e p) = Permᴰ.cons (sym e) (Permᴰ-symm p)
  Permᴰ-symm (Permᴰ.swap e g) = Permᴰ.swap (sym g) (sym e)
  Permᴰ-symm (Permᴰ.trans p q) = Permᴰ.trans (Permᴰ-symm q) (Permᴰ-symm p)

  pub sum_over-Permᴰ : (f : A → ℕ) {xs ys : List A} → Permᴰ xs ys → sum_over f xs ≡ sum_over f ys
  sum_over-Permᴰ f Permᴰ.nil = refl
  sum_over-Permᴰ f (Permᴰ.cons e p) = omega (arith, ap f e, sum_over-Permᴰ f p)
  sum_over-Permᴰ f (Permᴰ.swap e g) = omega (arith, ap f e, ap f g)
  sum_over-Permᴰ f (Permᴰ.trans p q) = sum_over-Permᴰ f p ∙ sum_over-Permᴰ f q

  pub All-Permᴰ {κ} : (P : A → Type κ) {xs ys : List A} → Permᴰ xs ys → All P xs → All P ys
  All-Permᴰ P Permᴰ.nil h = tt
  All-Permᴰ P (Permᴰ.cons e p) h = (subst P e h.0, All-Permᴰ P p h.1)
  All-Permᴰ P (Permᴰ.swap e g) h = (subst P g h.1.0, (subst P e h.0, h.1.1))
  All-Permᴰ P (Permᴰ.trans p q) h = All-Permᴰ P q (All-Permᴰ P p h)

  Permᴰ-append_left : (l : List A) {us vs : List A} → Permᴰ us vs → Permᴰ (l ++ us) (l ++ vs)
  Permᴰ-append_left [] q = q
  Permᴰ-append_left (x ∷ l) q = Permᴰ.cons refl (Permᴰ-append_left l q)

  pub Permᴰ-append :
      {xs ys us vs : List A} → Permᴰ xs ys → Permᴰ us vs → Permᴰ (xs ++ us) (ys ++ vs)
  Permᴰ-append Permᴰ.nil q = q
  Permᴰ-append (Permᴰ.cons e p) q = Permᴰ.cons e (Permᴰ-append p q)
  Permᴰ-append {us = us} {vs = vs} (Permᴰ.swap {a' = a} {b' = b} {l = l} e g) q =
      Permᴰ.trans (Permᴰ.swap e g) (Permᴰ-append_left (a ∷ b ∷ l) q)
  Permᴰ-append (Permᴰ.trans p r) q = Permᴰ.trans (Permᴰ-append p q) (Permᴰ-append r (Permᴰ-refl _))

  pub length-Permᴰ : {xs ys : List A} → Permᴰ xs ys → length xs ≡ length ys
  length-Permᴰ Permᴰ.nil = refl
  length-Permᴰ (Permᴰ.cons e p) = ap suc (length-Permᴰ p)
  length-Permᴰ (Permᴰ.swap e g) = refl
  length-Permᴰ (Permᴰ.trans p q) = length-Permᴰ p ∙ length-Permᴰ q

module _ {ℓ κ} {A : Type ℓ} {B : Type κ} (f : A → B) where
  pub map-Permᴰ : {xs ys : List A} → Permᴰ xs ys → Permᴰ (map f xs) (map f ys)
  map-Permᴰ Permᴰ.nil = Permᴰ.nil
  map-Permᴰ (Permᴰ.cons e p) = Permᴰ.cons (ap f e) (map-Permᴰ p)
  map-Permᴰ (Permᴰ.swap e g) = Permᴰ.swap (ap f e) (ap f g)
  map-Permᴰ (Permᴰ.trans p q) = Permᴰ.trans (map-Permᴰ p) (map-Permᴰ q)

  pub sum_over-map : (g : B → ℕ) (xs : List A) → sum_over g (map f xs) ≡ sum_over (λ x. g (f x)) xs
  sum_over-map g [] = refl
  sum_over-map g (x ∷ xs) = omega (arith, sum_over-map g xs)

  pub All-map {μ} : (P : B → Type μ) (xs : List A) → All P (map f xs) → All (λ x. P (f x)) xs
  All-map P [] h = tt
  All-map P (x ∷ xs) h = (h.0, All-map P xs h.1)

  pub map-All {μ} : (P : B → Type μ) (xs : List A) → All (λ x. P (f x)) xs → All P (map f xs)
  map-All P [] h = tt
  map-All P (x ∷ xs) h = (h.0, map-All P xs h.1)
