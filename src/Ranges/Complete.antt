-- ===== src/Ranges/Complete.antt =====
-- The ranges of a map that rises, visited in any order, and the documents that they hold.
use Prim.Native.Nat.{min}
use native.Mathlib.Nat.{zero-add}
use anytime_daat.Prelude.{
  ℕ, zero, suc, ◌≤◌, ◌≡◌, refl, sym, ap, ◌∙◌, List, [], ◌∷◌, Permᴰ, length, length-Permᴰ, take,
  sum_over, sum_over-Permᴰ, arith,
}
use anytime_daat.Topk.{topk_queue}
use anytime_daat.Topk.Counts.{beats, count_above, count_above-offer}
use anytime_daat.Rank.Offers.{
  ranges_documents, range_documents, rank_ranges-offer, sum_over-ranges, ids_from,
}
use anytime_daat.Rank.Within.{documents_where, Rises, ranges_documents-Rises}
use anytime_daat.Cursor.{Cursor}
use anytime_daat.Ranges.{ClusterMap, range_and_score}
use anytime_daat.Ranges.Spec.{rank_ranges, in_ranges}
use anytime_daat.Ranges.Order.{ids, range_order, sort_ranges-Permᴰ}

ids-Permᴰ : {rs ss : List (ℕ × ℕ)} → Permᴰ rs ss → Permᴰ (ids rs) (ids ss)
unfolding ids
ids-Permᴰ Permᴰ.nil = Permᴰ.nil
ids-Permᴰ (Permᴰ.cons e p) = Permᴰ.cons (ap (λ r. r.0) e) (ids-Permᴰ p)
ids-Permᴰ (Permᴰ.swap e g) = Permᴰ.swap (ap (λ r. r.0) e) (ap (λ r. r.0) g)
ids-Permᴰ (Permᴰ.trans p q) = Permᴰ.trans (ids-Permᴰ p) (ids-Permᴰ q)

ids-range_and_score :
    (cs : List Cursor) (k : ℕ) (m : ClusterMap) → ids (range_and_score cs k m) ≡ ids_from k m
unfolding ids range_and_score ids_from
ids-range_and_score cs k [] = refl
ids-range_and_score cs k (r ∷ m) = ap (◌∷◌ k) (ids-range_and_score cs (suc k) m)

-- The visit by bound sums goes to every range, once.
pub range_order-Permᴰ :
    (cs : List Cursor) (m : ClusterMap) → Permᴰ (range_order cs m) (ids_from 0 m)
unfolding range_order
range_order-Permᴰ cs m =
    rw (ids-range_and_score cs 0 m) at (ids-Permᴰ (sort_ranges-Permᴰ (range_and_score cs 0 m)))

length-ids_from : (k : ℕ) (m : ClusterMap) → length (ids_from k m) ≡ length m
unfolding ids_from
length-ids_from k [] = refl
length-ids_from k (r ∷ m) = ap suc (length-ids_from (suc k) m)

take_all : (n : ℕ) (xs : List ℕ) → length xs ≤ n → take n xs ≡ xs
take_all zero [] h = refl
take_all zero (x ∷ xs) h = absurd (omega arith)
take_all (suc n) [] h = refl
take_all (suc n) (x ∷ xs) h = ap (◌∷◌ x) (take_all n xs (omega arith))

pub take-range_order :
    (n : ℕ) (cs : List Cursor) (m : ClusterMap)
    → length m ≤ n
    → take n (range_order cs m) ≡ range_order cs m
take-range_order n cs m h =
    take_all n (range_order cs m)
      (omega (arith, length-Permᴰ (range_order-Permᴰ cs m), length-ids_from 0 m))

count_above-Rises :
    (f : ℕ → ℕ) (m : ClusterMap) (hi : ℕ) (ss : List ℕ) (n : ℕ)
    → Rises 0 hi m
    → Permᴰ ss (ids_from 0 m)
    → count_above n (ranges_documents f m ss)
      ≡ count_above n (documents_where f (λ d. in_ranges d m) hi 0)
unfolding count_above
count_above-Rises f m hi ss n h p =
    let g = beats n in
    let of_range = λ (s : ℕ). sum_over g (range_documents f m s) in
    sum_over-ranges g f m ss
    ∙ sum_over-Permᴰ of_range p
    ∙ sym (sum_over-ranges g f m (ids_from 0 m))
    ∙ ap (sum_over g) (ranges_documents-Rises f m 0 0 hi m (λ i. rw zero-add) h)
    ∙ ap (λ x. sum_over g (documents_where f (λ d. in_ranges d m) x 0)) (omega arith)

-- Ranking the ranges of a map that rises, in any order, leaves a fresh queue with the scores of the
-- k best documents that the ranges hold.
pub rank_ranges-Rises :
    (f : ℕ → ℕ) (m : ClusterMap) (hi k : ℕ) (ss : List ℕ) (n : ℕ)
    → 1 ≤ k
    → Rises 0 hi m
    → Permᴰ ss (ids_from 0 m)
    → count_above n (rank_ranges f m ss (topk_queue k)).entries
      ≡ min k (count_above n (documents_where f (λ d. in_ranges d m) hi 0))
rank_ranges-Rises f m hi k ss n room h p =
    ap (λ q. count_above n q.entries) (rank_ranges-offer f m ss (topk_queue k))
    ∙ count_above-offer k (ranges_documents f m ss) n room
    ∙ ap (min k) (count_above-Rises f m hi ss n h p)
