-- ===== src/LazyTaat.antt =====
-- include/pisa/accumulator/lazy_accumulator.hpp in the query of
-- include/pisa/query/algorithm/ranked_or_taat_query.hpp. A document has a slot: its counter in the
-- descriptor of its block, and its accumulator. The slots of the blocks stand one after the other.
pub mod Slots
pub mod Refines
use anytime_daat.Prelude.{
  ℕ, zero, suc, ◌+◌, ◌-◌, ◌*◌, ◌/◌, ◌%◌, List, [], ◌∷◌, map, set, get_or, replicate, Option, none,
  some, true, false, Bool, ◌&&◌, ltb, ◌==◌, if◌then◌else◌,
}
use anytime_daat.Topk.{Topk, would_enter, insert}
use anytime_daat.Cursor.{Cursor, docid, score, next}
use anytime_daat.Cursor.Valid.{remaining}

pub record Slot : Type 0 where
  pub counter : ℕ
  pub accumulator : ℕ

abbrev pub zero_slot : Slot
zero_slot = record { counter = 0; accumulator = 0 }

pub record LazyAccumulator : Type 0 where
  pub slots : List Slot
  pub m_counter : ℕ

-- The constructor, with `n` counters in a descriptor: the last block has slots behind the size.
unfoldable pub lazy_accumulator : ℕ → ℕ → LazyAccumulator
lazy_accumulator n size = record {
  slots = replicate ((size + n - 1) / n * n) zero_slot;
  m_counter = 0;
}

-- init(): the slots are cleared once in a cycle of the counter.
unfoldable pub lazy_init : LazyAccumulator → LazyAccumulator
lazy_init l = if l.m_counter == 0 then record l { slots = map (λ _. zero_slot) l.slots } else l

-- reset_counter(), for a slot with another counter.
unfoldable pub current_slot : ℕ → Slot → Slot
current_slot k s = if s.counter == k then s else record { counter = k; accumulator = 0 }

-- accumulate(). A document behind the end is undefined behaviour in the code, and changes nothing
-- here.
unfoldable pub lazy_accumulate : LazyAccumulator → ℕ → ℕ → LazyAccumulator
unfolding current_slot
lazy_accumulate l document s =
    let slot = current_slot l.m_counter (get_or l.slots document zero_slot) in
    record l { slots = set l.slots document (record slot { accumulator = slot.accumulator + s }) }

-- The loop of aggregate(), from the document `d` on.
unfoldable pub aggregate_slots : ℕ → List Slot → ℕ → Topk → Topk
aggregate_slots k [] d q = q
aggregate_slots k (s ∷ slots) d q =
    aggregate_slots k slots (suc d)
      (if (s.counter == k) && would_enter q s.accumulator then insert q s.accumulator d else q)

-- The counter after aggregate().
unfoldable pub next_counter : ℕ → LazyAccumulator → LazyAccumulator
next_counter cycle l = record l { m_counter = suc l.m_counter % cycle }

-- The while loop over one cursor, with fuel, and the loop over the cursors, as with the simple
-- accumulator.
unfoldable pub lazy_cursor : ℕ → ℕ → Cursor → LazyAccumulator → Option LazyAccumulator
unfolding lazy_accumulate
lazy_cursor zero max_docid c l = none
lazy_cursor (suc fuel) max_docid c l = elim (ltb (docid c) max_docid) [
  | false ↦ some l
  | true ↦ lazy_cursor fuel max_docid (next c) (lazy_accumulate l (docid c) (score c))
]

unfoldable pub lazy_cursors : ℕ → List Cursor → LazyAccumulator → Option LazyAccumulator
unfolding lazy_cursor
lazy_cursors max_docid [] l = some l
lazy_cursors max_docid (c ∷ cs) l = elim (lazy_cursor (suc (remaining c)) max_docid c l) [
  | none ↦ none
  | some l' ↦ lazy_cursors max_docid cs l'
]

-- operator(), which leaves the accumulator for the next query.
unfoldable pub lazy_taat_query :
    ℕ → List Cursor → ℕ → LazyAccumulator → Topk → Option (LazyAccumulator × Topk)
unfolding lazy_init lazy_cursors aggregate_slots next_counter
lazy_taat_query cycle [] max_docid l q = some (l, q)
lazy_taat_query cycle (c ∷ cs) max_docid l q =
    elim (lazy_cursors max_docid (c ∷ cs) (lazy_init l)) [
      | none ↦ none
      | some l' ↦ some (next_counter cycle l', aggregate_slots l'.m_counter l'.slots 0 q)
    ]
