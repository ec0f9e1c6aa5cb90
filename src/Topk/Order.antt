-- ===== src/Topk/Order.antt =====
-- The order inside the queue, and what an insert does to the threshold.
use native.Mathlib.Nat.{le_trans}
use anytime_daat.Prelude.{
  ℕ, suc, ◌≤◌, ◌≡◌, refl, inl, inr, List, [], ◌∷◌, Permᴰ, Permᴰ-refl, Permᴰ-symm, All, All-mono,
  All-Permᴰ, length, leb, Bool-cases, arith,
}
use anytime_daat.Topk.{Entry, Topk, push_heap, front_score}

abbrev pub IsRising : List Entry → Type 0
IsRising [] = Unit
IsRising (e ∷ es) = All (λ x. e.score ≤ x.score) es × IsRising es

-- There is room for an entry, the entries rise from the front, none is below the threshold, and the front of a full queue
-- is the threshold.
pub record IsSound (q : Topk) : Type 0 where
  pub positive : 1 ≤ q.k
  pub rising : IsRising q.entries
  pub above : All (λ e. q.threshold ≤ e.score) q.entries
  pub size : length q.entries ≤ q.k
  pub full : length q.entries ≡ q.k → front_score q.entries q.threshold ≡ q.threshold

pub push_heap-Permᴰ : (e : Entry) (es : List Entry) → Permᴰ (push_heap e es) (e ∷ es)
unfolding push_heap
push_heap-Permᴰ e [] = Permᴰ-refl (e ∷ [])
push_heap-Permᴰ e (x ∷ xs) = elim (Bool-cases (leb e.score x.score)) [
  | inl h ↦ rw h (Permᴰ-refl (e ∷ x ∷ xs))
  | inr h ↦ rw h (Permᴰ.trans (Permᴰ.cons refl (push_heap-Permᴰ e xs)) (Permᴰ.swap refl refl))
]

pub length-push_heap : (e : Entry) (es : List Entry) → length (push_heap e es) ≡ suc (length es)
unfolding push_heap
length-push_heap e [] = refl
length-push_heap e (x ∷ xs) = ground (arith, length-push_heap e xs)

pub push_heap-above :
    (b : ℕ) (e : Entry) (es : List Entry)
    → b ≤ e.score
    → All (λ x. b ≤ x.score) es
    → All (λ x. b ≤ x.score) (push_heap e es)
push_heap-above b e es h k = All-Permᴰ (λ x. b ≤ x.score) (Permᴰ-symm (push_heap-Permᴰ e es)) (h, k)

pub push_heap-IsRising : (e : Entry) (es : List Entry) → IsRising es → IsRising (push_heap e es)
unfolding push_heap
push_heap-IsRising e [] r = (tt, tt)
push_heap-IsRising e (x ∷ xs) (h, r) = elim (Bool-cases (leb e.score x.score)) [
  | inl le ↦
      let lt : e.score ≤ x.score = ground arith in
      rw le ((lt, All-mono (λ y k. le_trans lt k) xs h), (h, r))
  | inr gt ↦
      let lt : x.score ≤ e.score = ground arith in
      rw gt (push_heap-above x.score e xs lt h, push_heap-IsRising e xs r)
]

pub front_score-least :
    (t : ℕ) (es : List Entry) → IsRising es → All (λ e. front_score es t ≤ e.score) es
unfolding front_score
front_score-least t [] r = tt
front_score-least t (e ∷ es) r = (omega arith, r.0)

pub le-front_score : (t : ℕ) (es : List Entry) → All (λ e. t ≤ e.score) es → t ≤ front_score es t
unfolding front_score
le-front_score t [] h = omega arith
le-front_score t (e ∷ es) h = h.0

pub front_score_self :
    (t : ℕ) (es : List Entry) → front_score es (front_score es t) ≡ front_score es t
unfolding front_score
front_score_self t [] = refl
front_score_self t (e ∷ es) = refl
