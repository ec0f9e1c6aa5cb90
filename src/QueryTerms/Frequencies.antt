-- ===== src/QueryTerms/Frequencies.antt =====
-- The frequencies are the numbers of occurrences, of each term once.
use native.Mathlib.Nat.{le_trans}
use anytime_daat.Prelude.{
  ℕ, suc, ◌+◌, ◌≤◌, ◌<◌, ◌≡◌, refl, ap, sym, ◌∙◌, inl, inr, List, [], ◌∷◌, map, Permᴰ, Permᴰ-refl,
  Permᴰ-symm, All, All-mono, All-Permᴰ, sum_over, sum_over-Permᴰ, leb, ◌==◌, Bool-cases, arith,
  if◌then◌else◌,
}
use anytime_daat.QueryTerms.{
  insert_term, sort_terms, count_terms, freqs_of_sorted, query_freqs, unique_behind, unique,
  remove_duplicate_terms,
}

-- How often a term stands in a list of terms, and its frequency in a list of pairs.
abbrev pub occurs : ℕ → ℕ → ℕ
occurs x u = if u == x then 1 else 0

abbrev pub occurrences : ℕ → List ℕ → ℕ
occurrences x = sum_over (occurs x)

abbrev pub weight : ℕ → ℕ × ℕ → ℕ
weight x p = if p.0 == x then p.1 else 0

abbrev pub frequency : ℕ → List (ℕ × ℕ) → ℕ
frequency x = sum_over (weight x)

abbrev IsRising : List ℕ → Type 0
IsRising [] = Unit
IsRising (t ∷ ts) = All (λ u. t ≤ u) ts × IsRising ts

-- Each term stands once, the terms in ascending order.
abbrev pub IsStrict : List (ℕ × ℕ) → Type 0
IsStrict [] = Unit
IsStrict (p ∷ ps) = All (λ r. p.0 < r.0) ps × IsStrict ps

insert_term-Permᴰ : (t : ℕ) (ts : List ℕ) → Permᴰ (insert_term t ts) (t ∷ ts)
unfolding insert_term
insert_term-Permᴰ t [] = Permᴰ-refl (t ∷ [])
insert_term-Permᴰ t (u ∷ us) = elim (Bool-cases (leb t u)) [
  | inl h ↦ rw h (Permᴰ-refl (t ∷ u ∷ us))
  | inr h ↦ rw h (Permᴰ.trans (Permᴰ.cons refl (insert_term-Permᴰ t us)) (Permᴰ.swap refl refl))
]

sort_terms-Permᴰ : (ts : List ℕ) → Permᴰ (sort_terms ts) ts
unfolding sort_terms
sort_terms-Permᴰ [] = Permᴰ.nil
sort_terms-Permᴰ (t ∷ ts) =
    Permᴰ.trans (insert_term-Permᴰ t (sort_terms ts)) (Permᴰ.cons refl (sort_terms-Permᴰ ts))

insert_term-IsRising : (t : ℕ) (ts : List ℕ) → IsRising ts → IsRising (insert_term t ts)
unfolding insert_term
insert_term-IsRising t [] h = (tt, tt)
insert_term-IsRising t (u ∷ us) (h, r) = elim (Bool-cases (leb t u)) [
  | inl e ↦
      let le : t ≤ u = ground arith in rw e ((le, All-mono (λ x k. le_trans le k) us h), (h, r))
  | inr e ↦
      let le : u ≤ t = ground arith in
      rw e (
        All-Permᴰ (λ x. u ≤ x) (Permᴰ-symm (insert_term-Permᴰ t us)) (le, h),
        insert_term-IsRising t us r,
      )
]

sort_terms-IsRising : (ts : List ℕ) → IsRising (sort_terms ts)
unfolding sort_terms
sort_terms-IsRising [] = tt
sort_terms-IsRising (t ∷ ts) = insert_term-IsRising t (sort_terms ts) (sort_terms-IsRising ts)

frequency-count_terms :
    (x t n : ℕ) (us : List ℕ)
    → frequency x (count_terms t n us) ≡ weight x (t, n) + occurrences x us
unfolding count_terms
frequency-count_terms x t n [] = refl
frequency-count_terms x t n (u ∷ us) =
    ground (arith, frequency-count_terms x t (suc n) us, frequency-count_terms x u 1 us)

-- The terms behind `t` in a rising list.
count_terms-IsStrict :
    (t n : ℕ) (us : List ℕ)
    → IsRising (t ∷ us)
    → All (λ r. t ≤ r.0) (count_terms t n us) × IsStrict (count_terms t n us)
unfolding count_terms
count_terms-IsStrict t n [] h = ((omega arith, tt), (tt, tt))
count_terms-IsStrict t n (u ∷ us) ((le, les), (h, r)) = elim (Bool-cases (u == t)) [
  | inl e ↦ rw e (count_terms-IsStrict t (suc n) us (les, r))
  | inr e ↦
      let lt : t < u = ground arith in
      let (above, strict) = count_terms-IsStrict u 1 us (h, r) in
      let past = All-mono (λ x (k : u ≤ x.0). le_trans lt k) (count_terms u 1 us) above in
      rw e (
        (omega arith, All-mono (λ x (k : t < x.0). omega arith) (count_terms u 1 us) past),
        (past, strict),
      )
]

-- Each term of a query has one pair, with the number of its occurrences, and the pairs stand in
-- ascending order of the terms.
pub query_freqs-IsStrict :
    (terms : List ℕ)
    → IsStrict (query_freqs terms)
      × ((x : ℕ) → frequency x (query_freqs terms) ≡ occurrences x terms)
unfolding query_freqs freqs_of_sorted
query_freqs-IsStrict terms = (
  strict (sort_terms terms) (sort_terms-IsRising terms),
  λ x. counted x (sort_terms terms) ∙ sum_over-Permᴰ (occurs x) (sort_terms-Permᴰ terms),
)
  where
    strict : (ts : List ℕ) → IsRising ts → IsStrict (freqs_of_sorted ts)
    strict [] h = tt
    strict (t ∷ ts) h = (count_terms-IsStrict t 1 ts h).1

    counted : (x : ℕ) (ts : List ℕ) → frequency x (freqs_of_sorted ts) ≡ occurrences x ts
    counted x [] = refl
    counted x (t ∷ ts) = frequency-count_terms x t 1 ts

unique_behind-count_terms :
    (t n : ℕ) (us : List ℕ) → map (λ p. p.0) (count_terms t n us) ≡ t ∷ unique_behind t us
unfolding count_terms unique_behind
unique_behind-count_terms t n [] = refl
unique_behind-count_terms t n (u ∷ us) = elim (Bool-cases (u == t)) [
  | inl e ↦ rw e (unique_behind-count_terms t (suc n) us)
  | inr e ↦ rw e (ap (◌∷◌ t) (unique_behind-count_terms u 1 us))
]

-- The terms without duplicates are those of the frequencies.
pub remove_duplicate_terms-query_freqs :
    (terms : List ℕ) → remove_duplicate_terms terms ≡ map (λ p. p.0) (query_freqs terms)
unfolding remove_duplicate_terms query_freqs unique freqs_of_sorted
remove_duplicate_terms-query_freqs terms = same (sort_terms terms)
  where
    same : (ts : List ℕ) → unique ts ≡ map (λ p. p.0) (freqs_of_sorted ts)
    same [] = refl
    same (t ∷ ts) = sym (unique_behind-count_terms t 1 ts)
