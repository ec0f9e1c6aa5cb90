-- ===== src/RankedOr.antt =====
-- include/pisa/query/algorithm/ranked_or_query.hpp: the exhaustive evaluation of a query.
pub mod Correct
use anytime_daat.Prelude.{ℕ, zero, suc, List, [], ◌∷◌, Option, none, some, true, false, ltb}
use anytime_daat.Topk.{Topk, insert}
use anytime_daat.Cursor.{Cursor}
use anytime_daat.MaxScore.{essential_pass, min_docid}

-- The loop with fuel; `none` means that the fuel ran out. The for loop over the cursors is the
-- one that MaxScore has over its essential cursors.
unfoldable pub ranked_or_loop : ℕ → ℕ → List Cursor → ℕ → Topk → Option Topk
unfolding essential_pass insert
ranked_or_loop zero max_docid cs cur_doc q = none
ranked_or_loop (suc fuel) max_docid cs cur_doc q = elim (ltb cur_doc max_docid) [
  | false ↦ some q
  | true ↦
      (let (score, next_doc, moved) = essential_pass cur_doc 0 max_docid cs in
        ranked_or_loop fuel max_docid moved next_doc (insert q score cur_doc))
]

-- operator(). The document grows in every round.
unfoldable pub ranked_or_query : List Cursor → ℕ → Topk → Option Topk
unfolding ranked_or_loop min_docid
ranked_or_query [] max_docid q = some q
ranked_or_query (c ∷ cs) max_docid q =
    ranked_or_loop (suc max_docid) max_docid (c ∷ cs) (min_docid c cs) q
