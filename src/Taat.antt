-- ===== src/Taat.antt =====
-- include/pisa/query/algorithm/ranked_or_taat_query.hpp with the accumulator of
-- include/pisa/accumulator/simple_accumulator.hpp: the query term by term.
pub mod Accumulate
pub mod Correct
use anytime_daat.Prelude.{
  ℕ, zero, suc, ◌+◌, List, [], ◌∷◌, map, set, get_or, Option, none, some, true, false, ltb,
  if◌then◌else◌,
}
use anytime_daat.Topk.{Topk, would_enter, insert}
use anytime_daat.Cursor.{Cursor, docid, score, next}
use anytime_daat.Cursor.Valid.{remaining}

-- Simple_Accumulator: a score for each document.
unfoldable pub init : List ℕ → List ℕ
init = map (λ _. 0)

-- accumulate(). A document behind the end is undefined behaviour in the code, and changes
-- nothing here.
unfoldable pub accumulate : List ℕ → ℕ → ℕ → List ℕ
accumulate acc doc s = set acc doc (get_or acc doc 0 + s)

-- aggregate(), from the document `d` on.
unfoldable pub aggregate : List ℕ → ℕ → Topk → Topk
unfolding would_enter insert
aggregate [] d q = q
aggregate (s ∷ acc) d q = aggregate acc (suc d) (if would_enter q s then insert q s d else q)

-- The while loop over one cursor, with fuel; `none` means that the fuel ran out.
unfoldable pub accumulate_cursor : ℕ → ℕ → Cursor → List ℕ → Option (List ℕ)
unfolding accumulate
accumulate_cursor zero max_docid c acc = none
accumulate_cursor (suc fuel) max_docid c acc = elim (ltb (docid c) max_docid) [
  | false ↦ some acc
  | true ↦ accumulate_cursor fuel max_docid (next c) (accumulate acc (docid c) (score c))
]

-- The loop over the cursors. Each round of one takes a posting.
unfoldable pub accumulate_cursors : ℕ → List Cursor → List ℕ → Option (List ℕ)
unfolding accumulate_cursor
accumulate_cursors max_docid [] acc = some acc
accumulate_cursors max_docid (c ∷ cs) acc =
    elim (accumulate_cursor (suc (remaining c)) max_docid c acc) [
      | none ↦ none
      | some acc' ↦ accumulate_cursors max_docid cs acc'
    ]

-- operator(). The cursors are left where they stand, and the accumulator with what it has.
unfoldable pub ranked_or_taat_query : List Cursor → ℕ → List ℕ → Topk → Option Topk
unfolding init accumulate_cursors aggregate
ranked_or_taat_query [] max_docid acc q = some q
ranked_or_taat_query (c ∷ cs) max_docid acc q =
    elim (accumulate_cursors max_docid (c ∷ cs) (init acc)) [
      | none ↦ none
      | some acc' ↦ some (aggregate acc' 0 q)
    ]
