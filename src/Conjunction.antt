-- ===== src/Conjunction.antt =====
-- include/pisa/query/algorithm/and_query.hpp and ranked_and_query.hpp: the documents that every
-- list holds. The three queries share the loop, with what they do for a document as a parameter.
pub mod Visits
pub mod Round
pub mod Correct
pub mod Queries
use anytime_daat.Prelude.{
  ℕ, zero, suc, List, [], ◌∷◌, ◌++◌, Option, none, some, true, false, length, sum_over, ltb, ◌==◌,
  if◌then◌else◌,
}
use anytime_daat.Topk.{Topk, insert}
use anytime_daat.Cursor.{Cursor, docid, score, next, next_geq}

-- sort by increasing frequency, where size() is the length of the whole list.
unfoldable pub insert_by_size : Cursor → List Cursor → List Cursor
insert_by_size c [] = c ∷ []
insert_by_size c (e ∷ es) =
    if ltb (length e.list) (length c.list) then e ∷ insert_by_size c es else c ∷ e ∷ es

unfoldable pub sort_by_size : List Cursor → List Cursor
unfolding insert_by_size
sort_by_size [] = []
sort_by_size (c ∷ cs) = insert_by_size c (sort_by_size cs)

-- The for loop from cursor `i` on: the cursors move up to the candidate, until one of them stands
-- at another document, which is the next candidate.
unfoldable pub advance_from : ℕ → ℕ → List Cursor → List Cursor × Option ℕ
advance_from i candidate [] = ([], none)
advance_from zero candidate (c ∷ cs) =
    let moved = next_geq c candidate in
    let rest = advance_from zero candidate cs in
    if docid moved == candidate then (moved ∷ rest.0, rest.1) else (moved ∷ cs, some (docid moved))
advance_from (suc i) candidate (c ∷ cs) =
    let rest = advance_from i candidate cs in (c ∷ rest.0, rest.1)

unfoldable pub next_first : List Cursor → List Cursor
next_first [] = []
next_first (c ∷ cs) = next c ∷ cs

unfoldable pub first_docid : List Cursor → ℕ
first_docid [] = 0
first_docid (c ∷ cs) = docid c

-- The loop with fuel; `none` means that the fuel ran out. `emit` is what the query does for a
-- candidate at which all cursors stand.
unfoldable pub join_loop {ℓ} :
    {R : Type ℓ} → (List Cursor → ℕ → R → R) → ℕ → ℕ → List Cursor → ℕ → ℕ → R → Option R
unfolding advance_from next_first first_docid
join_loop emit zero max_docid cs candidate i r = none
join_loop emit (suc fuel) max_docid cs candidate i r = elim (ltb candidate max_docid) [
  | false ↦ some r
  | true ↦
      (let moved = (advance_from i candidate cs).0 in
        elim ((advance_from i candidate cs).1) [
          | some docid ↦ join_loop emit fuel max_docid moved docid 0 r
          | none ↦
              join_loop emit fuel max_docid (next_first moved) (first_docid (next_first moved)) 1
                (emit moved candidate r)
        ])
]

-- The candidate grows in every round.
unfoldable pub join {ℓ} : {R : Type ℓ} → (List Cursor → ℕ → R → R) → List Cursor → ℕ → R → Option R
unfolding join_loop sort_by_size
join emit [] max_docid r = some r
join emit (c ∷ cs) max_docid r =
    let ordered_cursors = sort_by_size (c ∷ cs) in
    join_loop emit (suc max_docid) max_docid ordered_cursors (first_docid ordered_cursors) 1 r

unfoldable pub total_score : List Cursor → ℕ
total_score cs = sum_over score cs

unfoldable pub and_query : List Cursor → ℕ → Option (List ℕ)
unfolding join
and_query cs max_docid =
    join (λ moved candidate results. results ++ (candidate ∷ [])) cs max_docid []

unfoldable pub scored_and_query : List Cursor → ℕ → Option (List (ℕ × ℕ))
unfolding join total_score
scored_and_query cs max_docid =
    join (λ moved candidate results. results ++ ((candidate, total_score moved) ∷ [])) cs max_docid
      []

unfoldable pub ranked_and_query : List Cursor → ℕ → Topk → Option Topk
unfolding join total_score first_docid
ranked_and_query cs max_docid q =
    join (λ moved candidate topk. insert topk (total_score moved) (first_docid moved)) cs max_docid
      q
