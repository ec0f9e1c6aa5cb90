-- ===== src/QueryTerms.antt =====
-- src/query/queries.cpp: the terms of a query, with their frequencies or without duplicates.
pub mod Frequencies
use anytime_daat.Prelude.{ℕ, suc, List, [], ◌∷◌, leb, ◌==◌, if◌then◌else◌}

unfoldable pub insert_term : ℕ → List ℕ → List ℕ
insert_term t [] = t ∷ []
insert_term t (u ∷ us) = if leb t u then t ∷ u ∷ us else u ∷ insert_term t us

-- std::sort of the terms.
unfoldable pub sort_terms : List ℕ → List ℕ
unfolding insert_term
sort_terms [] = []
sort_terms (t ∷ ts) = insert_term t (sort_terms ts)

-- The loop of query_freqs behind the first term, with the pair (t, n) at the back of the result.
unfoldable pub count_terms : ℕ → ℕ → List ℕ → List (ℕ × ℕ)
count_terms t n [] = (t, n) ∷ []
count_terms t n (u ∷ us) =
    let same = count_terms t (suc n) us in
    let other = count_terms u 1 us in if u == t then same else (t, n) ∷ other

unfoldable pub freqs_of_sorted : List ℕ → List (ℕ × ℕ)
unfolding count_terms
freqs_of_sorted [] = []
freqs_of_sorted (t ∷ ts) = count_terms t 1 ts

unfoldable pub query_freqs : List ℕ → List (ℕ × ℕ)
unfolding sort_terms freqs_of_sorted
query_freqs terms = freqs_of_sorted (sort_terms terms)

-- std::unique and erase, behind the first term `t`.
unfoldable pub unique_behind : ℕ → List ℕ → List ℕ
unique_behind t [] = []
unique_behind t (u ∷ us) =
    let same = unique_behind t us in
    let other = unique_behind u us in if u == t then same else u ∷ other

unfoldable pub unique : List ℕ → List ℕ
unfolding unique_behind
unique [] = []
unique (t ∷ ts) = t ∷ unique_behind t ts

unfoldable pub remove_duplicate_terms : List ℕ → List ℕ
unfolding sort_terms unique
remove_duplicate_terms terms = unique (sort_terms terms)
