-- ===== src/Conjunction/Visits.antt =====
-- The documents of a range that all lists hold, visited in order.
use native.Mathlib.Decide.{dec_le}
use anytime_daat.Prelude.{
  ℕ, zero, suc, ◌+◌, ◌-◌, ◌≤◌, ◌<◌, ◌≡◌, refl, ◌∙◌, List, [], ◌∷◌, Bool, true, false, ◌&&◌, ltb,
  ◌⊎◌, inl, inr, Bool-cases, arith, if◌then◌else◌,
}
use anytime_daat.Cursor.{Cursor}
use anytime_daat.OrQuery.Counts.{holds}

-- Whether every cursor has the document left.
unfoldable pub held_by_all : List Cursor → ℕ → Bool
held_by_all [] d = true
held_by_all (c ∷ cs) d = ltb 0 (holds d c) && held_by_all cs d

module _ {ℓ} {R : Type ℓ} (held : ℕ → Bool) (step : ℕ → R → R) where
  unfoldable pub visit_from : ℕ → ℕ → R → R
  visit_from zero lo r = r
  visit_from (suc n) lo r = visit_from n (suc lo) (if held lo then step lo r else r)

  -- The step for every document of [lo, hi) that is held, in order.
  unfoldable pub visit_held : ℕ → ℕ → R → R
  unfolding visit_from
  visit_held lo hi r = visit_from (hi - lo) lo r

  -- A document that is left out, since it is not held or since its step changes nothing.
  abbrev pub Passes : R → ℕ → Type ℓ
  Passes r d = (held d ≡ false) ⊎ (step d r ≡ r)

  visit_from_one :
      (n lo : ℕ) (r : R) → Passes r lo → visit_from (suc n) lo r ≡ visit_from n (suc lo) r
  unfolding visit_from
  visit_from_one n lo r (inl e) = rw e refl
  visit_from_one n lo r (inr e) = elim (Bool-cases (held lo)) [
    | inl h ↦ rw (h, e) refl
    | inr h ↦ rw h refl
  ]

  visit_from_none :
      (n lo hi : ℕ) (r : R)
      → hi ≡ lo + n
      → ((d : ℕ) → lo ≤ d → d < hi → Passes r d)
      → visit_from n lo r ≡ r
  visit_from_none zero lo hi r e h = unfold visit_from in refl
  visit_from_none (suc n) lo hi r e h =
      visit_from_one n lo r (h lo (omega arith) (omega arith))
      ∙ visit_from_none n (suc lo) hi r (omega arith) (λ d a b. h d (omega arith) b)

  visit_from_skip :
      (n m k lo mid : ℕ) (r : R)
      → k ≡ n + m
      → mid ≡ lo + n
      → ((d : ℕ) → lo ≤ d → d < mid → Passes r d)
      → visit_from k lo r ≡ visit_from m mid r
  visit_from_skip zero m k lo mid r e f h =
      let a : k ≡ m = omega arith in let b : mid ≡ lo = omega arith in rw (a, b) refl
  visit_from_skip (suc n) m zero lo mid r e f h = absurd (omega arith)
  visit_from_skip (suc n) m (suc k) lo mid r e f h =
      visit_from_one k lo r (h lo (omega arith) (omega arith))
      ∙ visit_from_skip n m k (suc lo) mid r (omega arith) (omega arith)
          (λ d a b. h d (omega arith) b)

  pub visit_held-Passes :
      (lo mid hi : ℕ) (r : R)
      → lo ≤ mid
      → ((d : ℕ) → lo ≤ d → d < mid → Passes r d)
      → visit_held lo hi r ≡ visit_held mid hi r
  unfolding visit_held
  visit_held-Passes lo mid hi r le h = elim (dec_le mid hi) [
    | yes inside ↦
        visit_from_skip (mid - lo) (hi - mid) (hi - lo) lo mid r (omega arith) (omega arith) h
    | no beyond ↦ elim (dec_le lo hi) [
      | yes some_left ↦
          let gone : hi - mid ≡ 0 = omega arith in
          visit_from_none (hi - lo) lo hi r (omega arith) (λ d a b. h d a (omega arith))
          ∙ rw gone (unfold visit_from in refl)
      | no none_left ↦
          let a : hi - mid ≡ 0 = omega arith in
          let b : hi - lo ≡ 0 = omega arith in rw (a, b) (unfold visit_from in refl)
    ]
  ]

  pub visit_held_skip :
      (lo mid hi : ℕ) (r : R)
      → lo ≤ mid
      → ((d : ℕ) → lo ≤ d → d < mid → held d ≡ false)
      → visit_held lo hi r ≡ visit_held mid hi r
  visit_held_skip lo mid hi r le h = visit_held-Passes lo mid hi r le (λ d a b. inl (h d a b))

  pub visit_held-step :
      (lo hi : ℕ) (r : R)
      → lo < hi
      → held lo ≡ true
      → visit_held lo hi r ≡ visit_held (suc lo) hi (step lo r)
  unfolding visit_held
  visit_held-step lo hi r h e =
      let n : hi - lo ≡ suc (hi - suc lo) = omega arith in rw (n, visit_from, e) refl

  pub visit_held_end : (lo hi : ℕ) (r : R) → hi ≤ lo → visit_held lo hi r ≡ r
  unfolding visit_held visit_from
  visit_held_end lo hi r h = let n : hi - lo ≡ 0 = omega arith in rw n refl
