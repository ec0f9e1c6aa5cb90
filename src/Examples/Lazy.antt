-- ===== src/Examples/Lazy.antt =====
-- The query term by term with the lazy accumulator, as the counter wraps round.
use anytime_daat.Prelude.{ℕ, refl, [], ◌∷◌, replicate, arith, inr}
use anytime_daat.Topk.{topk_queue}
use anytime_daat.Taat.{ranked_or_taat_query}
use anytime_daat.LazyTaat.{Slot, LazyAccumulator, lazy_accumulator, lazy_taat_query}
use anytime_daat.LazyTaat.Refines.{
  Ready, SameResult, lazy_accumulator-Ready, lazy_taat_query-SameResult,
}
use anytime_daat.Examples.{cursors}

abbrev slot : ℕ → ℕ → Slot
slot k s = record { counter = k; accumulator = s }

-- The last counter of a cycle of four, with what earlier queries left.
abbrev used : LazyAccumulator
used = record {
  slots =
      slot 2 7 ∷ slot 0 0 ∷ slot 1 3 ∷ slot 2 9 ∷ slot 0 5 ∷ slot 1 1 ∷ slot 2 2 ∷ slot 0 4 ∷ [];
  m_counter = 3;
}

used-Ready : Ready 4 used
used-Ready = (
  omega arith,
  inr (
    omega arith,
    (
      omega arith,
      (omega arith, (omega arith, (omega arith, (omega arith, (omega arith, (omega arith, tt)))))),
    ),
  ),
)

new-Ready : Ready 16 (lazy_accumulator 16 8)
new-Ready = lazy_accumulator-Ready 16 16 8 (omega arith)

lazy_taat_query-SameResult_example :
    SameResult 4
      (lazy_taat_query 4 cursors 8 used (topk_queue 2))
      (ranked_or_taat_query cursors 8 (replicate 8 0) (topk_queue 2))
lazy_taat_query-SameResult_example =
    lazy_taat_query-SameResult 4 cursors 8 used (replicate 8 0) (topk_queue 2) used-Ready refl
