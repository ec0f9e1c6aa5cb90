-- ===== src/Topk/Finalize.antt =====
-- What finalize leaves.
use mathlib.Core.List.{reverse, reverse-cons}
use native.Mathlib.Nat.{le_trans}
use anytime_daat.Prelude.{
  ℕ, ◌≤◌, ◌<◌, ◌≡◌, refl, ap, sym, ◌∙◌, subst, inl, inr, List, [], ◌∷◌, ◌++◌, All, All-mono,
  All-append, sum_over, sum_over-append, ltb, Bool-cases, arith,
}
use anytime_daat.Topk.{Entry, Topk, positive_prefix, finalize}
use anytime_daat.Topk.Order.{IsRising, IsSound}
use anytime_daat.Topk.Counts.{beats, count_above}

abbrev pub IsFalling : List Entry → Type 0
IsFalling [] = Unit
IsFalling (e ∷ es) = All (λ x. x.score ≤ e.score) es × IsFalling es

sum_over-reverse : (g : Entry → ℕ) (es : List Entry) → sum_over g (reverse es) ≡ sum_over g es
sum_over-reverse g [] = refl
sum_over-reverse g (e ∷ es) =
    ap (sum_over g) (reverse-cons e es)
    ∙ omega (arith, sum_over-append g (reverse es) (e ∷ []), sum_over-reverse g es)

All-reverse : (P : Entry → Type 0) (es : List Entry) → All P es → All P (reverse es)
All-reverse P [] h = tt
All-reverse P (e ∷ es) h =
    subst (All P) (sym (reverse-cons e es))
      (All-append P (reverse es) (e ∷ []) (All-reverse P es h.1) (h.0, tt))

IsFalling-snoc :
    (es : List Entry) (e : Entry)
    → IsFalling es
    → All (λ x. e.score ≤ x.score) es
    → IsFalling (es ++ e ∷ [])
IsFalling-snoc [] e f h = (tt, tt)
IsFalling-snoc (x ∷ es) e f h =
    (All-append (λ y. y.score ≤ x.score) es (e ∷ []) f.0 (h.0, tt), IsFalling-snoc es e f.1 h.1)

IsFalling-reverse : (es : List Entry) → IsRising es → IsFalling (reverse es)
IsFalling-reverse [] r = tt
IsFalling-reverse (e ∷ es) r =
    subst IsFalling (sym (reverse-cons e es))
      (IsFalling-snoc (reverse es) e (IsFalling-reverse es r.1) (All-reverse _ es r.0))

-- Below an entry of score 0 nothing counts.
nothing_above :
    (n b : ℕ) (es : List Entry) → b ≤ n → All (λ x. x.score ≤ b) es → sum_over (beats n) es ≡ 0
unfolding beats
nothing_above n b [] le h = refl
nothing_above n b (e ∷ es) le h = ground (arith, nothing_above n b es le h.1)

count_above-positive_prefix :
    (n : ℕ) (es : List Entry) → IsFalling es → count_above n (positive_prefix es) ≡ count_above n es
unfolding count_above positive_prefix
count_above-positive_prefix n [] f = refl
count_above-positive_prefix n (e ∷ es) f = elim (Bool-cases (ltb 0 e.score)) [
  | inl h ↦ rw h (omega (arith, count_above-positive_prefix n es f.1))
  | inr h ↦
      let zero_score : e.score ≤ 0 = ground arith in
      let none_here =
        nothing_above n 0 (e ∷ es) (omega arith)
          (zero_score, All-mono (λ x k. le_trans k zero_score) es f.0) in
      rw h (sym none_here)
]

All-positive_prefix : (P : Entry → Type 0) (es : List Entry) → All P es → All P (positive_prefix es)
unfolding positive_prefix
All-positive_prefix P [] h = tt
All-positive_prefix P (e ∷ es) h = elim (Bool-cases (ltb 0 e.score)) [
  | inl p ↦ rw p (h.0, All-positive_prefix P es h.1)
  | inr p ↦ rw p tt
]

positive_prefix-IsFalling :
    (es : List Entry)
    → IsFalling es
    → IsFalling (positive_prefix es) × All (λ e. 0 < e.score) (positive_prefix es)
unfolding positive_prefix
positive_prefix-IsFalling [] f = (tt, tt)
positive_prefix-IsFalling (e ∷ es) f = elim (Bool-cases (ltb 0 e.score)) [
  | inl p ↦
      let (falling, positive) = positive_prefix-IsFalling es f.1 in
      let some_score : 0 < e.score = ground arith in
      rw p ((All-positive_prefix _ es f.0, falling), (some_score, positive))
  | inr p ↦ rw p (tt, tt)
]

-- The results of a sound queue stand by falling score, all scores are positive, and no entry of
-- positive score is lost.
pub finalize-IsFalling :
    (q : Topk)
    → IsSound q
    → IsFalling (finalize q).entries
      × All (λ e. 0 < e.score) (finalize q).entries
      × ((n : ℕ) → count_above n (finalize q).entries ≡ count_above n q.entries)
unfolding finalize
finalize-IsFalling q v =
    let falling = IsFalling-reverse q.entries v.rising in
    let (kept, positive) = positive_prefix-IsFalling (reverse q.entries) falling in
    (
      kept,
      positive,
      λ n.
          count_above-positive_prefix n (reverse q.entries) falling
          ∙ unfold count_above in sum_over-reverse (beats n) q.entries,
    )
