-- ===== src/LazyTaat/Slots.antt =====
-- What the lazy accumulator shows of the simple one.

use anytime_daat.Prelude.{
  ℕ, zero, suc, ◌+◌, ◌≤◌, ◌<◌, ◌≡◌, ◌⊎◌, refl, ap, ◌∙◌, inl, inr, List, [], ◌∷◌, map, set, get_or,
  true, false, All, All-mono, length, ◌==◌, Bool-cases, arith, if◌then◌else◌,
}
use anytime_daat.Taat.{init, accumulate}
use anytime_daat.LazyTaat.{Slot, LazyAccumulator, zero_slot, lazy_init, current_slot}

-- What the simple accumulator would hold: slots with another counter count as cleared.
abbrev pub value : ℕ → Slot → ℕ
value k s = if s.counter == k then s.accumulator else 0

abbrev pub view : LazyAccumulator → List ℕ
view l = map (value l.m_counter) l.slots

-- Between two queries all slots' counters are below the next query's, or that is 0 and clears them.
abbrev pub Idle : LazyAccumulator → Type 0
Idle l = (l.m_counter ≡ 0) ⊎ All (λ s. s.counter < l.m_counter) l.slots

-- During a query no counter is ahead.
abbrev pub Running : LazyAccumulator → Type 0
Running l = All (λ s. s.counter ≤ l.m_counter) l.slots

length-value : (k : ℕ) (ss : List Slot) → length (map (value k) ss) ≡ length ss
length-value k [] = refl
length-value k (s ∷ ss) = ap suc (length-value k ss)

-- The accumulators start at 0.
view-cleared : (ss : List Slot) → map (value 0) (map (λ _. zero_slot) ss) ≡ map (λ _. 0) ss
view-cleared [] = refl
view-cleared (s ∷ ss) = ap (λ t. 0 ∷ t) (view-cleared ss)

view-behind :
    (k : ℕ) (ss : List Slot) → All (λ s. s.counter < k) ss → map (value k) ss ≡ map (λ _. 0) ss
view-behind k [] h = refl
view-behind k (s ∷ ss) h =
    let other : (s.counter == k) ≡ false = ground (arith, h.0) in
    rw (other, view-behind k ss h.1) refl

same_zeros : (acc : List ℕ) (ss : List Slot) → length acc ≡ length ss → map (λ _. 0) ss ≡ init acc
unfolding init
same_zeros [] [] h = refl
same_zeros [] (s ∷ ss) h = absurd (omega arith)
same_zeros (x ∷ acc) [] h = absurd (omega arith)
same_zeros (x ∷ acc) (s ∷ ss) h = ap (λ t. 0 ∷ t) (same_zeros acc ss (omega arith))

Running-cleared : (ss : List Slot) → All (λ s. s.counter ≤ 0) (map (λ _. zero_slot) ss)
Running-cleared [] = tt
Running-cleared (s ∷ ss) = (omega arith, Running-cleared ss)

pub lazy_init-view :
    (l : LazyAccumulator) (acc : List ℕ)
    → Idle l
    → length acc ≡ length l.slots
    → (view (lazy_init l) ≡ init acc) × Running (lazy_init l)
unfolding lazy_init
lazy_init-view l acc idle size = elim (Bool-cases (l.m_counter == 0)) [
  | inl e ↦
      let at : l.m_counter ≡ 0 = ground (arith, e) in
      rw (e, at) (view-cleared l.slots ∙ same_zeros acc l.slots size, Running-cleared l.slots)
  | inr e ↦ elim idle [
    | inl at ↦ absurd (ground (arith, e, at))
    | inr behind ↦ rw e (
      view-behind l.m_counter l.slots behind ∙ same_zeros acc l.slots size,
      All-mono (λ s lt. omega (arith, lt)) l.slots behind,
    )
  ]
]

-- A slot with the added score.
unfoldable pub added : ℕ → Slot → ℕ → Slot
added k x s = record (current_slot k x) { accumulator = (current_slot k x).accumulator + s }

value-added : (k : ℕ) (x : Slot) (s : ℕ) → value k (added k x s) ≡ value k x + s
unfolding added current_slot
value-added k x s = elim (Bool-cases (x.counter == k)) [
  | inl e ↦ rw (e, e) refl
  | inr e ↦ let own : (k == k) ≡ true = ground arith in rw (e, own) refl
]

pub counter-added : (k : ℕ) (x : Slot) (s : ℕ) → (added k x s).counter ≡ k
unfolding added current_slot
counter-added k x s = elim (Bool-cases (x.counter == k)) [
  | inl e ↦ rw e (ground (arith, e))
  | inr e ↦ rw e refl
]

pub lazy_init-counter : (l : LazyAccumulator) → (lazy_init l).m_counter ≡ l.m_counter
unfolding lazy_init
lazy_init-counter l = elim (Bool-cases (l.m_counter == 0)) [ inl e ↦ rw e refl | inr e ↦ rw e refl ]

pub set-view :
    (k : ℕ) (ss : List Slot) (d s : ℕ)
    → map (value k) (set ss d (added k (get_or ss d zero_slot) s))
      ≡ accumulate (map (value k) ss) d s
unfolding accumulate
set-view k [] d s = refl
set-view k (x ∷ ss) zero s = ap (λ v. v ∷ map (value k) ss) (value-added k x s)
set-view k (x ∷ ss) (suc d) s = ap (λ t. value k x ∷ t) (set-view k ss d s)

pub set-Running :
    (k : ℕ) (ss : List Slot) (d : ℕ) (x : Slot)
    → x.counter ≡ k
    → All (λ s. s.counter ≤ k) ss
    → All (λ s. s.counter ≤ k) (set ss d x)
set-Running k [] d x e h = tt
set-Running k (y ∷ ss) zero x e h = (omega (arith, e), h.1)
set-Running k (y ∷ ss) (suc d) x e h = (h.0, set-Running k ss d x e h.1)
