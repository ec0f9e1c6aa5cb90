-- ===== src/LazyTaat/Refines.antt =====
-- The query does with the lazy accumulator what it does with the simple one.
use native.Mathlib.Decide.{ℕ_discrete}
use anytime_daat.Prelude.{
  ℕ, zero, suc, ◌%◌, ◌≤◌, ◌<◌, ◌≡◌, refl, ap, subst, ◌∙◌, inl, inr, List, [], ◌∷◌, map, get_or,
  Option, none, some, true, false, All-mono, length, ltb, ◌==◌, Bool-cases, arith, if◌then◌else◌,
}
use anytime_daat.Topk.{Topk, would_enter, insert}
use anytime_daat.Rank.{would_enter-zero}
use anytime_daat.Cursor.{Cursor, docid, score, next}
use anytime_daat.Cursor.Valid.{remaining}
use anytime_daat.Taat.{
  init, accumulate, aggregate, accumulate_cursor, accumulate_cursors, ranked_or_taat_query,
}
use anytime_daat.LazyTaat.{
  Slot, LazyAccumulator, zero_slot, lazy_accumulator, lazy_init, lazy_accumulate, aggregate_slots,
  next_counter, lazy_cursor, lazy_cursors, lazy_taat_query,
}
use anytime_daat.LazyTaat.Slots.{
  view, Idle, value, Running, lazy_init-view, added, counter-added, set-view, set-Running,
  lazy_init-counter,
}

-- The two accumulators after the same steps: both ran out of fuel, or the simple one shows what
-- the lazy one has.
abbrev Alike : ℕ → Option LazyAccumulator → Option (List ℕ) → Type 0
Alike k none none = Unit
Alike k none (some acc) = ⊥
Alike k (some l) none = ⊥
Alike k (some l) (some acc) = (view l ≡ acc) × Running l × (l.m_counter ≡ k)

lazy_accumulate-Alike :
    (l : LazyAccumulator) (acc : List ℕ) (d s : ℕ)
    → Alike l.m_counter (some l) (some acc)
    → Alike l.m_counter (some (lazy_accumulate l d s)) (some (accumulate acc d s))
unfolding lazy_accumulate added
lazy_accumulate-Alike l acc d s (e, run, _) =
    let x = get_or l.slots d zero_slot in
    (
      set-view l.m_counter l.slots d s ∙ ap (λ t. accumulate t d s) e,
      set-Running l.m_counter l.slots d (added l.m_counter x s) (counter-added l.m_counter x s) run,
      refl,
    )

lazy_cursor-Alike :
    (fuel max_docid : ℕ) (c : Cursor) (k : ℕ) (l : LazyAccumulator) (acc : List ℕ)
    → Alike k (some l) (some acc)
    → Alike k (lazy_cursor fuel max_docid c l) (accumulate_cursor fuel max_docid c acc)
unfolding lazy_cursor accumulate_cursor
lazy_cursor-Alike zero max_docid c k l acc a = tt
lazy_cursor-Alike (suc fuel) max_docid c k l acc a =
    let l' = lazy_accumulate l (docid c) (score c) in
    let acc' = accumulate acc (docid c) (score c) in
    elim (ltb (docid c) max_docid)
      as (λ t.
        Alike k (elim t [ false ↦ some l | true ↦ lazy_cursor fuel max_docid (next c) l' ])
          (elim t [ false ↦ some acc | true ↦ accumulate_cursor fuel max_docid (next c) acc' ])) [
            | false ↦ a
            | true ↦ lazy_cursor-Alike fuel max_docid (next c) k l' acc' (moved k a)
          ]
  where
    moved :
        (k : ℕ)
        → Alike k (some l) (some acc)
        → Alike k
            (some (lazy_accumulate l (docid c) (score c)))
            (some (accumulate acc (docid c) (score c)))
    moved k (e, run, same) =
        subst
          (λ j.
            Alike j (some (lazy_accumulate l (docid c) (score c)))
              (some (accumulate acc (docid c) (score c))))
          same (lazy_accumulate-Alike l acc (docid c) (score c) (e, run, refl))

lazy_cursors-Alike :
    (max_docid : ℕ) (cs : List Cursor) (k : ℕ) (l : LazyAccumulator) (acc : List ℕ)
    → Alike k (some l) (some acc)
    → Alike k (lazy_cursors max_docid cs l) (accumulate_cursors max_docid cs acc)
unfolding lazy_cursors accumulate_cursors
lazy_cursors-Alike max_docid [] k l acc a = a
lazy_cursors-Alike max_docid (c ∷ cs) k l acc a =
    go (lazy_cursor (suc (remaining c)) max_docid c l)
      (accumulate_cursor (suc (remaining c)) max_docid c acc)
      (lazy_cursor-Alike (suc (remaining c)) max_docid c k l acc a)
      (λ l' acc' b. lazy_cursors-Alike max_docid cs k l' acc' b)
  where
    go :
        (r : Option LazyAccumulator) (o : Option (List ℕ))
        → Alike k r o
        → ((l' : LazyAccumulator) (acc' : List ℕ)
            → Alike k (some l') (some acc')
            → Alike k (lazy_cursors max_docid cs l') (accumulate_cursors max_docid cs acc'))
        → Alike k
            (elim r [ none ↦ none | some l' ↦ lazy_cursors max_docid cs l' ])
            (elim o [ none ↦ none | some acc' ↦ accumulate_cursors max_docid cs acc' ])
    go none none b next = tt
    go none (some acc') b next = absurd b
    go (some l') none b next = absurd b
    go (some l') (some acc') b next = next l' acc' b

-- A slot of another query has no score to offer.
aggregate_slots-view :
    (k : ℕ) (ss : List Slot) (d : ℕ) (q : Topk)
    → aggregate_slots k ss d q ≡ aggregate (map (value k) ss) d q
unfolding aggregate_slots aggregate
aggregate_slots-view k [] d q = refl
aggregate_slots-view k (s ∷ ss) d q = elim (Bool-cases (s.counter == k)) [
  | inl e ↦ rw e (
      aggregate_slots-view k ss (suc d)
        (if would_enter q s.accumulator then insert q s.accumulator d else q))
  | inr e ↦ rw (e, aggregate, would_enter-zero q) (aggregate_slots-view k ss (suc d) q)
]

-- Between two queries the counter is one of the cycle, and all slots' counters are below it, or it
-- is 0 and the next query clears the slots.
abbrev pub Ready : ℕ → LazyAccumulator → Type 0
Ready cycle l = (l.m_counter < cycle) × Idle l

next_counter-Ready :
    (cycle : ℕ) (l : LazyAccumulator)
    → l.m_counter < cycle
    → Running l
    → Ready cycle (next_counter cycle l)
unfolding next_counter
next_counter-Ready cycle l h run = elim (ℕ_discrete (suc l.m_counter) cycle) [
  | yes e ↦
      let wrapped : suc l.m_counter % cycle ≡ 0 = grind arith in
      (omega (arith, wrapped, h), inl wrapped)
  | no ne ↦
      let same : suc l.m_counter % cycle ≡ suc l.m_counter = grind arith in
      rw same (omega (arith, ne, h), inr (All-mono (λ s k. omega (arith, k)) l.slots run))
]

-- The same queue, and an accumulator that is ready for the next query.
abbrev pub SameResult : ℕ → Option (LazyAccumulator × Topk) → Option Topk → Type 0
SameResult cycle none none = Unit
SameResult cycle none (some q) = ⊥
SameResult cycle (some r) none = ⊥
SameResult cycle (some r) (some q) = (r.1 ≡ q) × Ready cycle r.0

-- The query term by term has the same result with the lazy accumulator as with a simple one of
-- the same number of slots, and leaves the lazy one ready for the next query, also where its
-- counter wraps round.
-- The lazy accumulator is ready before (Ready): its counter is below the cycle, and it is 0 or
-- every slot's counter is below it.
pub lazy_taat_query-SameResult :
    (cycle : ℕ) (cs : List Cursor) (max_docid : ℕ) (l : LazyAccumulator) (acc : List ℕ) (q : Topk)
    → Ready cycle l
    → length acc ≡ length l.slots
    → SameResult cycle
        (lazy_taat_query cycle cs max_docid l q)
        (ranked_or_taat_query cs max_docid acc q)
unfolding lazy_taat_query ranked_or_taat_query
lazy_taat_query-SameResult cycle [] max_docid l acc q ready size = (refl, ready)
lazy_taat_query-SameResult cycle (c ∷ cs) max_docid l acc q ready size =
    let (shown, run) = lazy_init-view l acc ready.1 size in
    go (lazy_cursors max_docid (c ∷ cs) (lazy_init l))
      (accumulate_cursors max_docid (c ∷ cs) (init acc))
      (lazy_cursors-Alike max_docid (c ∷ cs) l.m_counter (lazy_init l) (init acc)
        (shown, run, lazy_init-counter l))
  where
    go :
        (r : Option LazyAccumulator) (o : Option (List ℕ))
        → Alike l.m_counter r o
        → SameResult cycle
            (elim r [
              | none ↦ none
              | some l' ↦ some (next_counter cycle l', aggregate_slots l'.m_counter l'.slots 0 q)
            ])
            (elim o [ none ↦ none | some acc' ↦ some (aggregate acc' 0 q) ])
    go none none a = tt
    go none (some acc') a = absurd a
    go (some l') none a = absurd a
    go (some l') (some acc') (e, run, same) = (
      aggregate_slots-view l'.m_counter l'.slots 0 q ∙ ap (λ t. aggregate t 0 q) e,
      next_counter-Ready cycle l' (omega (arith, ready.0, same)) run,
    )

pub lazy_accumulator-Ready : (cycle n size : ℕ) → 1 ≤ cycle → Ready cycle (lazy_accumulator n size)
unfolding lazy_accumulator
lazy_accumulator-Ready cycle n size h = (omega arith, inl refl)
