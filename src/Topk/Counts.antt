-- ===== src/Topk/Counts.antt =====
-- The scores in the queue, counted: they do not depend on the order of the offers.
use Prim.Native.Nat.{min}
use anytime_daat.Prelude.{
  ℕ, ◌+◌, ◌≤◌, ◌<◌, ◌≡◌, refl, ap, ◌∙◌, inl, inr, List, [], ◌∷◌, All, All-mono, sum_over, length,
  ltb, arith, if◌then◌else◌,
}
use native.Mathlib.Nat.{le_trans}
use native.Mathlib.Decide.{dec_lt}
use anytime_daat.Topk.{Entry, Topk, topk_queue, insert}
use anytime_daat.Topk.Best.{offer, IsBest, offer-IsBest}

-- How many entries score more than `n`.
unfoldable pub beats : ℕ → Entry → ℕ
beats n e = if ltb n e.score then 1 else 0

unfoldable pub count_above : ℕ → List Entry → ℕ
count_above n es = sum_over (beats n) es

count_above-length : (n : ℕ) (es : List Entry) → count_above n es ≤ length es
unfolding count_above beats
count_above-length n [] = omega arith
count_above-length n (e ∷ es) = ground (arith, count_above-length n es)

count_above-All :
    (n : ℕ) (es : List Entry) → All (λ e. n < e.score) es → count_above n es ≡ length es
unfolding count_above beats
count_above-All n [] h = refl
count_above-All n (e ∷ es) h = ground (arith, count_above-All n es h.1)

count_above-none : (n : ℕ) (es : List Entry) → All (λ e. e.score ≤ n) es → count_above n es ≡ 0
unfolding count_above beats
count_above-none n [] h = refl
count_above-none n (e ∷ es) h = ground (arith, count_above-none n es h.1)

insert-k : (q : Topk) (s d : ℕ) → (insert q s d).k ≡ q.k
unfolding insert
insert-k q s d = ground arith

counts_of_best :
    (n : ℕ) (es : List Entry) (q : Topk)
    → IsBest es q
    → count_above n q.entries ≡ min q.k (count_above n es)
counts_of_best n es q b = elim (dec_lt n q.threshold) [
  | yes below ↦
      let all_count =
        count_above-All n q.entries (All-mono (λ e k. le_trans below k) q.entries b.sound.above) in
      elim b.full [
        | inl zero_still ↦ absurd (omega arith)
        | inr was_full ↦ omega (arith, all_count, split)
      ]
  | no above ↦
      let none_dropped =
        count_above-none n b.dropped (All-mono (λ e l. le_trans l (le_of above)) b.dropped b.low) in
      omega (arith, none_dropped, split, count_above-length n q.entries, b.sound.size)
]
  where
    split : count_above n q.entries + count_above n b.dropped ≡ count_above n es
    split = unfold count_above in b.split (beats n)

    le_of : ¬ (n < q.threshold) → q.threshold ≤ n
    le_of h = omega arith

offer-k : (es : List Entry) (q : Topk) → (offer es q).k ≡ q.k
unfolding offer
offer-k [] q = refl
offer-k (e ∷ es) q = offer-k es (insert q e.score e.docid) ∙ insert-k q e.score e.docid

-- A fresh queue with room for `k` entries, offered any entries in any order, holds min(k, m)
-- entries that score more than `n`, where m of those offered do.
pub count_above-offer :
    (k : ℕ) (es : List Entry) (n : ℕ)
    → 1 ≤ k
    → count_above n (offer es (topk_queue k)).entries ≡ min k (count_above n es)
count_above-offer k es n h =
    let b = offer-IsBest k es h in
    counts_of_best n es _ b
    ∙ ap (λ x. min x (count_above n es)) (offer-k es (topk_queue k) ∙ topk_queue-k)
  where
    topk_queue-k : (topk_queue k).k ≡ k
    topk_queue-k = unfold topk_queue in refl
