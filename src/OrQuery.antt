-- ===== src/OrQuery.antt =====
-- include/pisa/query/algorithm/or_query.hpp: the number of documents in any of the lists.
pub mod Counts
pub mod Pass
pub mod Correct
use anytime_daat.Prelude.{
  ℕ, zero, suc, ◌+◌, List, [], ◌∷◌, Option, none, some, true, false, ltb, ◌==◌, if◌then◌else◌,
}
use anytime_daat.Cursor.{Cursor, docid, next}
use anytime_daat.MaxScore.{min_docid}

-- The for loop over the cursors: the next document, and the cursors. The frequencies, which
-- with_freqs reads, go nowhere.
unfoldable pub or_pass : ℕ → ℕ → List Cursor → ℕ × List Cursor
or_pass cur_doc next_doc [] = (next_doc, [])
or_pass cur_doc next_doc (c ∷ cs) =
    let moved = if docid c == cur_doc then next c else c in
    let next_doc' = if ltb (docid moved) next_doc then docid moved else next_doc in
    let rest = or_pass cur_doc next_doc' cs in (rest.0, moved ∷ rest.1)

-- The loop with fuel; `none` means that the fuel ran out.
unfoldable pub or_loop : ℕ → ℕ → List Cursor → ℕ → ℕ → Option ℕ
unfolding or_pass
or_loop zero max_docid cs cur_doc results = none
or_loop (suc fuel) max_docid cs cur_doc results = elim (ltb cur_doc max_docid) [
  | false ↦ some results
  | true ↦
      (let (next_doc, moved) = or_pass cur_doc max_docid cs in
        or_loop fuel max_docid moved next_doc (results + 1))
]

-- operator(). The document grows in every round.
unfoldable pub or_query : List Cursor → ℕ → Option ℕ
unfolding or_loop min_docid
or_query [] max_docid = some 0
or_query (c ∷ cs) max_docid = or_loop (suc max_docid) max_docid (c ∷ cs) (min_docid c cs) 0
