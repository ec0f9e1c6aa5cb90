-- ===== src/PayloadVector/Search.antt =====
-- binary_search over a range, by the lower bound of the standard library: the position after the
-- elements that stand before the value.
use mathlib.Core.Option.{some-injective}
use anytime_daat.Prelude.{
  ℕ, zero, suc, ◌+◌, ◌-◌, ◌/◌, ◌<◌, ◌≤◌, ◌≡◌, ◌≢◌, refl, sym, ap, subst, ◌∙◌, ◌⊎◌, inl, inr, Bool,
  true, false, List, [], ◌∷◌, Option, none, some, length, get_elem?, ltb, ltb→lt, Bool-cases,
  Option-cases, arith,
}

-- A comparison and an equality of the elements.
pub record Order {ℓ} (A : Type ℓ) : Type ℓ where
  pub cmp : A → A → Bool
  pub equal : A → A → Bool

-- std::lower_bound on the `count` elements from `first`, which it halves, on fuel.
unfoldable pub lower_bound {ℓ} : {A : Type ℓ} → Order A → List A → A → ℕ → ℕ → ℕ → ℕ
lower_bound o xs value zero first count = first
lower_bound o xs value (suc fuel) first zero = first
lower_bound o xs value (suc fuel) first (suc n) =
    let step = suc n / 2 in
    let right = lower_bound o xs value fuel (first + step + 1) (suc n - (step + 1)) in
    let left = lower_bound o xs value fuel first step in
    elim (get_elem? xs (first + step)) [
      | none ↦ left
      | some x ↦ elim (o.cmp x value) [ true ↦ right | false ↦ left ]
    ]

unfoldable pub binary_search {ℓ} : {A : Type ℓ} → Order A → List A → A → Option ℕ
unfolding lower_bound
binary_search o xs value =
    let pos = lower_bound o xs value (length xs) 0 (length xs) in
    elim (get_elem? xs pos) [
      | none ↦ none
      | some x ↦ elim (o.equal x value) [ true ↦ some pos | false ↦ none ]
    ]

-- A strict weak order, as the standard library asks of a comparison: elements of which neither
-- stands before the other need not be equal.
pub record IsOrder {ℓ} {A : Type ℓ} (o : Order A) : Type ℓ where
  pub irrefl : (x : A) → o.cmp x x ≡ false
  pub split : (x y z : A) → o.cmp x z ≡ true → (o.cmp x y ≡ true) ⊎ (o.cmp y z ≡ true)
  pub equal→eq : (x y : A) → o.equal x y ≡ true → x ≡ y
  pub eq→equal : (x : A) → o.equal x x ≡ true

-- Sorted by the comparison: no element stands before an earlier one.
abbrev pub IsSorted {ℓ} : {A : Type ℓ} → Order A → List A → Type ℓ
IsSorted o xs =
    (i j : _)
    → i < j
    → (x y : _) → get_elem? xs i ≡ some x
    → get_elem? xs j ≡ some y
    → o.cmp y x ≡ false

-- What the search gives for a value, as `r`: the first position that does not stand before the
-- value, if the value stands there; or nothing, and wherever the value stands, an earlier element
-- of another kind is at the first such position.
abbrev pub Searched {ℓ} : {A : Type ℓ} → Order A → List A → A → Option ℕ → Type ℓ
Searched o xs value r =
    ((p : ℕ) × (r ≡ some p)
      × (get_elem? xs p ≡ some value)
      × ((j : ℕ) → j < p → (x : _) → get_elem? xs j ≡ some x → o.cmp x value ≡ true))
    ⊎ ((r ≡ none)
        × ((j : ℕ)
            → get_elem? xs j ≡ some value
            → (k : ℕ) × (x : _) × (k < j)
              × (get_elem? xs k ≡ some x)
              × (x ≢ value)
              × (o.cmp x value ≡ false)
              × (o.cmp value x ≡ false)))

get_elem?-inside {ℓ} :
    {A : Type ℓ} (xs : List A) (i : ℕ) → i < length xs → (x : A) × (get_elem? xs i ≡ some x)
get_elem?-inside [] i h = absurd (omega arith)
get_elem?-inside (x ∷ xs) zero h = (x, refl)
get_elem?-inside (x ∷ xs) (suc i) h = get_elem?-inside xs i (omega arith)

get_elem?-some {ℓ} :
    {A : Type ℓ} (xs : List A) (i : ℕ) (x : A) → get_elem? xs i ≡ some x → i < length xs
get_elem?-some [] i x e = cc
get_elem?-some (y ∷ ys) zero x e = omega arith
get_elem?-some (y ∷ ys) (suc i) x e = omega (arith, get_elem?-some ys i x e)

module _ {ℓ} {A : Type ℓ} (o : Order A) (law : IsOrder o) (xs : List A) (sorted : IsSorted o xs)
    (value : A) where
  -- The elements before a position stand before the value; those from another one on do not.
  abbrev Before : ℕ → Type ℓ
  Before first = (i : ℕ) → i < first → (x : A) → get_elem? xs i ≡ some x → o.cmp x value ≡ true

  abbrev NotBefore : ℕ → Type ℓ
  NotBefore last = (i : ℕ) → last ≤ i → (x : A) → get_elem? xs i ≡ some x → o.cmp x value ≡ false

  Before-suc : (i : ℕ) (x : A) → get_elem? xs i ≡ some x → o.cmp x value ≡ true → Before (i + 1)
  Before-suc i x e c j h y f = elim (Bool-cases (ltb j i)) [
    | inl k ↦ elim (law.split x y value c) [
      | inl l ↦ absurd (cc (sorted j i (ltb→lt j i k) y x f e, l))
      | inr l ↦ l
    ]
    | inr k ↦
        let same : j ≡ i = ground (arith, k) in
        let eq : y ≡ x = some-injective y x (sym f ∙ ap (get_elem? xs) same ∙ e) in rw eq c
  ]

  NotBefore-here : (i : ℕ) (x : A) → get_elem? xs i ≡ some x → o.cmp x value ≡ false → NotBefore i
  NotBefore-here i x e c j h y f = elim (Bool-cases (ltb i j)) [
    | inl k ↦ elim (Bool-cases (o.cmp y value)) [
      | inl m ↦ elim (law.split y x value m) [
        | inl l ↦ absurd (cc (sorted i j (ltb→lt i j k) x y e f, l))
        | inr l ↦ absurd (cc (c, l))
      ]
      | inr m ↦ m
    ]
    | inr k ↦
        let same : j ≡ i = ground (arith, k) in
        let eq : y ≡ x = some-injective y x (sym f ∙ ap (get_elem? xs) same ∙ e) in rw eq c
  ]

  abbrev Splits : ℕ → Type ℓ
  Splits p = Before p × NotBefore p

  -- A round on more than no elements, by what the one in the middle is.
  module _ (fuel first m : ℕ) (x : A) (e : get_elem? xs (first + suc m / 2) ≡ some x) where
    goes_right :
        o.cmp x value ≡ true
        → lower_bound o xs value (suc fuel) first (suc m)
          ≡ lower_bound o xs value fuel (first + suc m / 2 + 1) (suc m - (suc m / 2 + 1))
    unfolding lower_bound
    goes_right c = rw (lower_bound, e, c) refl

    goes_left :
        o.cmp x value ≡ false
        → lower_bound o xs value (suc fuel) first (suc m)
          ≡ lower_bound o xs value fuel first (suc m / 2)
    unfolding lower_bound
    goes_left c = rw (lower_bound, e, c) refl

  lower_bound-Splits :
      (fuel first count : ℕ)
      → count ≤ fuel
      → first + count ≤ length xs
      → Before first
      → NotBefore (first + count)
      → Splits (lower_bound o xs value fuel first count)
  unfolding lower_bound
  lower_bound-Splits zero first count f h b n = (b, subst NotBefore (omega (arith, f)) n)
  lower_bound-Splits (suc fuel) first zero f h b n = (b, subst NotBefore (omega arith) n)
  lower_bound-Splits (suc fuel) first (suc m) f h b n =
      let step = suc m / 2 in
      let (x, e) = get_elem?-inside xs (first + step) (omega arith) in
      elim (Bool-cases (o.cmp x value)) [
        | inl c ↦ subst Splits (sym (goes_right fuel first m x e c)) (
            lower_bound-Splits fuel (first + step + 1) (suc m - (step + 1)) (omega arith)
              (omega arith) (Before-suc (first + step) x e c) (subst NotBefore (omega arith) n))
        | inr c ↦ subst Splits (sym (goes_left fuel first m x e c)) (
            lower_bound-Splits fuel first step (omega arith) (omega arith) b
              (NotBefore-here (first + step) x e c))
      ]

  -- The search is by the lower bound.
  abbrev pos : ℕ
  pos = lower_bound o xs value (length xs) 0 (length xs)

  pos-Splits : Splits pos
  pos-Splits =
      lower_bound-Splits (length xs) 0 (length xs) (omega arith) (omega arith)
        (λ i h x e. absurd (omega arith))
        (λ i h x e. absurd (omega (arith, get_elem?-some xs i x e)))

  -- Where the value stands, the position found is not after it.
  at_or_after : (j : ℕ) → get_elem? xs j ≡ some value → (pos ≤ j) × (o.cmp value value ≡ false)
  at_or_after j f = elim (Bool-cases (ltb j pos)) [
    | inl k ↦ absurd (cc (pos-Splits.0 j (ltb→lt j pos k) value f, law.irrefl value))
    | inr k ↦ (ground (arith, k), law.irrefl value)
  ]

  -- Where the search gives nothing, the element at the position is before the value, wherever that
  -- stands, and ties with it.
  none_at_end : get_elem? xs pos ≡ none → (j : ℕ) → get_elem? xs j ≢ some value
  none_at_end e j f =
      let (x, here) =
        get_elem?-inside xs pos (omega (arith, get_elem?-some xs j value f, (at_or_after j f).0)) in
      cc

  tied :
      (x : A)
      → get_elem? xs pos ≡ some x
      → o.equal x value ≡ false
      → (j : ℕ) → get_elem? xs j ≡ some value
      → (pos < j) × (x ≢ value) × (o.cmp x value ≡ false) × (o.cmp value x ≡ false)
  tied x e q j f =
      let differs : x ≢ value =
        λ r. cc (law.eq→equal value, subst (λ y. o.equal y value ≡ false) r q) in
      elim (Bool-cases (ltb pos j)) [
        | inl k ↦ (
          ltb→lt pos j k,
          differs,
          pos-Splits.1 pos (omega arith) x e,
          sorted pos j (ltb→lt pos j k) x value e f,
        )
        | inr k ↦
            let same : pos ≡ j = ground (arith, k, (at_or_after j f).0) in
            absurd (differs (some-injective x value (sym e ∙ ap (get_elem? xs) same ∙ f)))
      ]

  -- In a range that is sorted by a strict weak order the search gives the first position whose
  -- element does not stand before the value, if the value is there. Otherwise it gives nothing,
  -- and the value stands only behind a different element that ties with it: nowhere, where only
  -- equal elements tie.
  pub binary_search-first : Searched o xs value (binary_search o xs value)
  unfolding binary_search
  binary_search-first = elim (Option-cases (get_elem? xs pos)) [
    | inl e ↦ inr (rw (binary_search, e) refl, λ j f. absurd (none_at_end e j f))
    | inr (x, e) ↦ elim (Bool-cases (o.equal x value)) [
      | inl q ↦
          inl
            (pos, rw (binary_search, e, q) refl, e ∙ ap some (law.equal→eq x value q), pos-Splits.0)
      | inr q ↦ inr (
        rw (binary_search, e, q) refl,
        λ j f. let t = tied x e q j f in (pos, x, t.0, e, t.1, t.2, t.3),
      )
    ]
  ]
