-- ===== src/WandBuilder/Flat.antt =====
-- Lists one after the other in a vector, and the offsets at which they start.
use mathlib.Core.List.{append_assoc, append-nil}
use anytime_daat.Prelude.{
  ℕ, zero, suc, ◌+◌, ◌-◌, ◌%◌, ◌^◌, ◌≤◌, ◌<◌, ◌≡◌, refl, sym, ap, ◌∙◌, List, [], ◌∷◌, ◌++◌, some,
  length, length-append, take, drop, get_or, get_elem?, arith,
}
use mathlib.Core.Option.{some-injective}
use anytime_daat.WandBuilder.{back, narrow_difference}

unfoldable pub offsets {ℓ} : {A : Type ℓ} → ℕ → List (List A) → List ℕ
offsets o [] = o ∷ []
offsets o (p ∷ ps) = o ∷ offsets (o + length p) ps

unfoldable pub flat {ℓ} : {A : Type ℓ} → List (List A) → List A
flat [] = []
flat (p ∷ ps) = p ++ flat ps

module _ {ℓ} {A : Type ℓ} where
  pub flat-snoc : (ps : List (List A)) (p : List A) → flat (ps ++ (p ∷ [])) ≡ flat ps ++ p
  unfolding flat
  flat-snoc [] p = append-nil p
  flat-snoc (x ∷ ps) p = ap (λ t. x ++ t) (flat-snoc ps p) ∙ sym (append_assoc x (flat ps) p)

  back-offsets : (o n : ℕ) (ps : List (List A)) → back (o ∷ offsets n ps) ≡ back (offsets n ps)
  unfolding offsets back
  back-offsets o n [] = refl
  back-offsets o n (p ∷ ps) = refl

  pub offsets-snoc :
      (o : ℕ) (ps : List (List A)) (p : List A)
      → offsets o (ps ++ (p ∷ [])) ≡ offsets o ps ++ ((length p + back (offsets o ps)) ∷ [])
  unfolding offsets
  offsets-snoc o [] p = ap (λ n. o ∷ n ∷ []) (unfold back in omega arith)
  offsets-snoc o (x ∷ ps) p =
      let n = o + length x in
      ap (λ t. o ∷ t)
        (offsets-snoc n ps p
          ∙ ap (λ b. offsets n ps ++ ((length p + b) ∷ [])) (sym (back-offsets o n ps)))

  first_offset : (o : ℕ) (ps : List (List A)) → get_or (offsets o ps) 0 0 ≡ o
  unfolding offsets
  first_offset o [] = refl
  first_offset o (p ∷ ps) = refl

  drop-prefix : (xs ys : List A) → drop (length xs) (xs ++ ys) ≡ ys
  drop-prefix [] ys = refl
  drop-prefix (x ∷ xs) ys = drop-prefix xs ys

  take-prefix : (xs ys : List A) → take (length xs) (xs ++ ys) ≡ xs
  take-prefix [] ys = refl
  take-prefix (x ∷ xs) ys = ap (λ t. x ∷ t) (take-prefix xs ys)

  -- The part of the vector from the offset of list `i` up to the next one, from `offsets`.
  abbrev pub slice : List ℕ → List A → ℕ → List A
  slice starts items i =
      take (get_or starts (suc i) 0 - get_or starts i 0) (drop (get_or starts i 0) items)

  slice_from :
      (before : List A) (ps : List (List A)) (i : ℕ) (p : List A)
      → get_elem? ps i ≡ some p
      → slice (offsets (length before) ps) (before ++ flat ps) i ≡ p
  unfolding offsets flat
  slice_from before [] i p e = cc
  slice_from before (x ∷ ps) zero p e =
      let size : get_or (offsets (length before + length x) ps) 0 0 - length before ≡ length x =
        omega (arith, first_offset (length before + length x) ps) in
      rw (size, drop-prefix before (x ++ flat ps), take-prefix x (flat ps)) (some-injective x p e)
  slice_from before (x ∷ ps) (suc i) p e =
      rw (sym (length-append before x), sym (append_assoc before x (flat ps)))
        (slice_from (before ++ x) ps i p e)

  pub slice-flat :
      (ps : List (List A)) (i : ℕ) (p : List A)
      → get_elem? ps i ≡ some p
      → slice (offsets 0 ps) (flat ps) i ≡ p
  slice-flat = slice_from []

  get_or-offsets :
      (o : ℕ) (ps : List (List A)) (i : ℕ) (p : List A)
      → get_elem? ps i ≡ some p
      → (get_or (offsets o ps) i 0 ≤ get_or (offsets o ps) (suc i) 0)
        × (get_or (offsets o ps) (suc i) 0 ≤ o + length (flat ps))
  unfolding offsets flat
  get_or-offsets o [] i p e = cc
  get_or-offsets o (x ∷ ps) zero p e =
      let first = first_offset (o + length x) ps in
      (omega (arith, first), omega (arith, first, length-append x (flat ps)))
  get_or-offsets o (x ∷ ps) (suc i) p e =
      let (a, b) = get_or-offsets (o + length x) ps i p e in
      (a, omega (arith, b, length-append x (flat ps)))

  -- In fewer than 2 ^ 32 items no start is cut off.
  pub narrow-offsets :
      (ps : List (List A)) (i : ℕ) (p : List A)
      → length (flat ps) < 2 ^ 32
      → get_elem? ps i ≡ some p
      → (get_or (offsets 0 ps) i 0 % 2 ^ 32 ≡ get_or (offsets 0 ps) i 0)
        × (narrow_difference (get_or (offsets 0 ps) (suc i) 0) (get_or (offsets 0 ps) i 0)
            ≡ get_or (offsets 0 ps) (suc i) 0 - get_or (offsets 0 ps) i 0)
  unfolding narrow_difference
  narrow-offsets ps i p h e =
      let (a, b) = get_or-offsets 0 ps i p e in (omega (arith, a, b), omega (arith, a, b))
