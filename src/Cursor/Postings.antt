-- ===== src/Cursor/Postings.antt =====
-- Posting lists in ascending order: what a document gets from a list, and how the moves of a
-- cursor keep it.
use native.Mathlib.Nat.{le_trans, le_of_lt}
use anytime_daat.Prelude.{
  ℕ, suc, ◌≤◌, ◌<◌, ◌≡◌, refl, inl, inr, List, [], ◌∷◌, true, false, All, All-mono, length, ltb,
  ◌==◌, Bool-cases, arith, if◌then◌else◌,
}
use anytime_daat.Cursor.{Posting, first_doc, first_freq, after_first, drop_below}

-- Every posting stands behind the documents up to `b`.
abbrev pub Above : ℕ → List Posting → Type 0
Above b = All (λ p. b < p.doc)

abbrev pub Ascending : List Posting → Type 0
Ascending [] = Unit
Ascending (p ∷ ps) = Above p.doc ps × Ascending ps

abbrev pub Below : ℕ → List Posting → Type 0
Below u = All (λ p. p.doc < u)

-- No document before `e` scores more than `m`.
abbrev pub Bounded : (ℕ → ℕ → ℕ) → ℕ → ℕ → List Posting → Type 0
Bounded f m e = All (λ p. p.doc < e → f p.doc p.freq ≤ m)

-- What the list gives to the document `d`.
unfoldable pub contribution : (ℕ → ℕ → ℕ) → ℕ → List Posting → ℕ
contribution f d [] = 0
contribution f d (p ∷ ps) = if p.doc == d then f p.doc p.freq else contribution f d ps

pub Above-lower : (a b : ℕ) → a ≤ b → (ps : List Posting) → Above b ps → Above a ps
Above-lower a b h = All-mono (λ p k. omega arith)

pub contribution-Above :
    (f : ℕ → ℕ → ℕ) (d b : ℕ) (ps : List Posting) → d ≤ b → Above b ps → contribution f d ps ≡ 0
unfolding contribution
contribution-Above f d b [] h a = refl
contribution-Above f d b (p ∷ ps) h a = ground (arith, contribution-Above f d b ps)

-- Nothing stands before the first posting.
pub contribution_before :
    (f : ℕ → ℕ → ℕ) (d u : ℕ) (ps : List Posting)
    → Ascending ps
    → d < first_doc ps u
    → contribution f d ps ≡ 0
unfolding contribution first_doc
contribution_before f d u [] s h = refl
contribution_before f d u (p ∷ ps) s h = ground (arith, contribution-Above f d p.doc ps)

pub contribution_first :
    (f : ℕ → ℕ → ℕ) (u : ℕ) (ps : List Posting)
    → first_doc ps u < u
    → contribution f (first_doc ps u) ps ≡ f (first_doc ps u) (first_freq ps)
unfolding contribution first_doc first_freq
contribution_first f u [] h = absurd (omega arith)
contribution_first f u (p ∷ ps) h = ground arith

pub contribution-le :
    (f : ℕ → ℕ → ℕ) (m e d : ℕ) (ps : List Posting)
    → Bounded f m e ps
    → d < e
    → contribution f d ps ≤ m
unfolding contribution
contribution-le f m e d [] h k = omega arith
contribution-le f m e d (p ∷ ps) h k = ground (arith, contribution-le f m e d ps)

pub contribution-after_first :
    (f : ℕ → ℕ → ℕ) (u d : ℕ) (ps : List Posting)
    → first_doc ps u < d
    → contribution f d (after_first ps) ≡ contribution f d ps
unfolding contribution first_doc after_first
contribution-after_first f u d [] h = refl
contribution-after_first f u d (p ∷ ps) h = ground arith

pub contribution-drop_below :
    (f : ℕ → ℕ → ℕ) (b d : ℕ) (ps : List Posting)
    → b ≤ d
    → contribution f d (drop_below b ps) ≡ contribution f d ps
unfolding contribution drop_below
contribution-drop_below f b d [] h = refl
contribution-drop_below f b d (p ∷ ps) h = ground (arith, contribution-drop_below f b d ps)

pub first_doc-after_first :
    (u : ℕ) (ps : List Posting)
    → Ascending ps
    → Below u ps
    → first_doc ps u < u
    → first_doc ps u < first_doc (after_first ps) u
unfolding first_doc after_first
first_doc-after_first u [] s b h = absurd (omega arith)
first_doc-after_first u (p ∷ []) s b h = omega arith
first_doc-after_first u (p ∷ r ∷ ps) s b h = omega arith

pub first_doc-drop_below : (b u : ℕ) (ps : List Posting) → b ≤ u → b ≤ first_doc (drop_below b ps) u
unfolding first_doc drop_below
first_doc-drop_below b u [] h = h
first_doc-drop_below b u (p ∷ ps) h = ground (arith, first_doc-drop_below b u ps)

pub first_doc-drop_below_all :
    (d b u : ℕ) (ps : List Posting) → b ≤ d → b ≤ u → b ≤ first_doc (drop_below d ps) u
unfolding first_doc drop_below
first_doc-drop_below_all d b u [] h k = k
first_doc-drop_below_all d b u (p ∷ ps) h k = ground (arith, first_doc-drop_below_all d b u ps)

pub first_doc-le : (u : ℕ) (ps : List Posting) → Below u ps → first_doc ps u ≤ u
unfolding first_doc
first_doc-le u [] b = omega arith
first_doc-le u (p ∷ ps) b = omega arith

-- A list at its end stands at the universe; any other has a posting to give up.
pub length-after_first :
    (u : ℕ) (ps : List Posting) → first_doc ps u < u → suc (length (after_first ps)) ≡ length ps
unfolding first_doc after_first
length-after_first u [] h = absurd (omega arith)
length-after_first u (p ∷ ps) h = refl

pub length-drop_below : (b : ℕ) (ps : List Posting) → length (drop_below b ps) ≤ length ps
unfolding drop_below
length-drop_below b [] = omega arith
length-drop_below b (p ∷ ps) = ground (arith, length-drop_below b ps)

pub length-drop_below_lt :
    (b u : ℕ) (ps : List Posting)
    → first_doc ps u < u
    → first_doc ps u < b
    → length (drop_below b ps) < length ps
unfolding first_doc drop_below
length-drop_below_lt b u [] h k = absurd (omega arith)
length-drop_below_lt b u (p ∷ ps) h k = ground (arith, length-drop_below b ps)

module _ {κ} (P : Posting → Type κ) where
  pub All-after_first : (ps : List Posting) → All P ps → All P (after_first ps)
  unfolding after_first
  All-after_first [] h = tt
  All-after_first (p ∷ ps) h = h.1

  pub All-drop_below : (b : ℕ) (ps : List Posting) → All P ps → All P (drop_below b ps)
  unfolding drop_below
  All-drop_below b [] h = tt
  All-drop_below b (p ∷ ps) h =
      elim (ltb p.doc b) as (λ t. All P (if t then drop_below b ps else p ∷ ps)) [
        | true ↦ All-drop_below b ps h.1
        | false ↦ h
      ]

pub Ascending-after_first : (ps : List Posting) → Ascending ps → Ascending (after_first ps)
unfolding after_first
Ascending-after_first [] s = tt
Ascending-after_first (p ∷ ps) s = s.1

pub Ascending-drop_below : (b : ℕ) (ps : List Posting) → Ascending ps → Ascending (drop_below b ps)
unfolding drop_below
Ascending-drop_below b [] s = tt
Ascending-drop_below b (p ∷ ps) s =
    elim (ltb p.doc b) as (λ t. Ascending (if t then drop_below b ps else p ∷ ps)) [
      | true ↦ Ascending-drop_below b ps s.1
      | false ↦ s
    ]

pub drop_below-above :
    (b : ℕ) (ps : List Posting) → Ascending ps → All (λ p. b ≤ p.doc) (drop_below b ps)
unfolding drop_below
drop_below-above b [] s = tt
drop_below-above b (p ∷ ps) (h, s) = elim (Bool-cases (ltb p.doc b)) [
  | inl e ↦ rw e (drop_below-above b ps s)
  | inr e ↦
      let le : b ≤ p.doc = ground arith in
      rw e (le, All-mono (λ r k. le_trans le (le_of_lt k)) ps h)
]

pub contribution_below :
    (f : ℕ → ℕ → ℕ) (d b : ℕ) (ps : List Posting)
    → d < b
    → All (λ p. b ≤ p.doc) ps
    → contribution f d ps ≡ 0
unfolding contribution
contribution_below f d b [] h a = refl
contribution_below f d b (p ∷ ps) h a = ground (arith, contribution_below f d b ps)

pub contribution_range :
    (f : ℕ → ℕ → ℕ) (start end m d : ℕ) (ps : List Posting)
    → start ≤ d
    → d < end
    → All (λ p. start ≤ p.doc → p.doc < end → f p.doc p.freq ≤ m) ps
    → contribution f d ps ≤ m
unfolding contribution
contribution_range f start end m d [] from to h = omega arith
contribution_range f start end m d (p ∷ ps) from to h = elim (Bool-cases (p.doc == d)) [
  | inl e ↦ rw e (h.0 (ground arith) (ground arith))
  | inr e ↦ rw e (contribution_range f start end m d ps from to h.1)
]
