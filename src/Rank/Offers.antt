-- ===== src/Rank/Offers.antt =====
-- A ranking as a sequence of offers to the queue.

use anytime_daat.Prelude.{
  ℕ, zero, suc, ◌-◌, ◌≡◌, refl, sym, ap, ◌∙◌, List, [], ◌∷◌, ◌++◌, none, some, sum_over,
  sum_over-append, get_elem?, inl, inr, Option-cases, arith,
}
use anytime_daat.Topk.{Entry, Topk, insert}
use anytime_daat.Topk.Best.{offer}
use anytime_daat.Rank.{rank_from, rank}
use anytime_daat.Ranges.{ClusterMap}
use anytime_daat.Ranges.Spec.{rank_ranges}

-- The `n` documents from `lo` on, with the scores that `f` gives them.
unfoldable pub documents_from : (ℕ → ℕ) → ℕ → ℕ → List Entry
documents_from f zero lo = []
documents_from f (suc n) lo = record { score = f lo; docid = lo } ∷ documents_from f n (suc lo)

unfoldable pub documents : (ℕ → ℕ) → ℕ → ℕ → List Entry
unfolding documents_from
documents f lo hi = documents_from f (hi - lo) lo

unfoldable pub range_documents : (ℕ → ℕ) → ClusterMap → ℕ → List Entry
range_documents f m shard = elim (get_elem? m shard) [
  | none ↦ []
  | some (start, end) ↦ documents f start end
]

unfoldable pub ranges_documents : (ℕ → ℕ) → ClusterMap → List ℕ → List Entry
ranges_documents f m [] = []
ranges_documents f m (s ∷ ss) = range_documents f m s ++ ranges_documents f m ss

pub offer-append : (xs ys : List Entry) (q : Topk) → offer (xs ++ ys) q ≡ offer ys (offer xs q)
unfolding offer
offer-append [] ys q = refl
offer-append (x ∷ xs) ys q = offer-append xs ys (insert q x.score x.docid)

rank_from-offer :
    (f : ℕ → ℕ) (n lo : ℕ) (q : Topk) → rank_from f n lo q ≡ offer (documents_from f n lo) q
unfolding rank_from offer documents_from
rank_from-offer f zero lo q = refl
rank_from-offer f (suc n) lo q = rank_from-offer f n (suc lo) (insert q (f lo) lo)

pub rank-offer : (f : ℕ → ℕ) (lo hi : ℕ) (q : Topk) → rank f lo hi q ≡ offer (documents f lo hi) q
unfolding rank documents
rank-offer f lo hi q = rank_from-offer f (hi - lo) lo q

-- Offering the documents of a range is ranking it; a range that is not in the map has none.
rank_ranges-range :
    (f : ℕ → ℕ) (m : ClusterMap) (s : ℕ) (ss : List ℕ) (q : Topk)
    → rank_ranges f m (s ∷ ss) q ≡ rank_ranges f m ss (offer (range_documents f m s) q)
unfolding rank_ranges range_documents
rank_ranges-range f m s ss q = elim (Option-cases (get_elem? m s)) [
  | inl e ↦ rw (e, rank_ranges, range_documents) (unfold offer in refl)
  | inr ((start, end), e) ↦
      rw (e, rank_ranges, range_documents) (ap (rank_ranges f m ss) (rank-offer f start end q))
]

pub rank_ranges-offer :
    (f : ℕ → ℕ) (m : ClusterMap) (ss : List ℕ) (q : Topk)
    → rank_ranges f m ss q ≡ offer (ranges_documents f m ss) q
unfolding ranges_documents
rank_ranges-offer f m [] q = unfold rank_ranges offer in refl
rank_ranges-offer f m (s ∷ ss) q =
    rank_ranges-range f m s ss q
    ∙ rank_ranges-offer f m ss (offer (range_documents f m s) q)
    ∙ sym (offer-append (range_documents f m s) (ranges_documents f m ss) q)

-- The sum over the documents of some ranges does not depend on their order.
pub sum_over-ranges :
    (g : Entry → ℕ) (f : ℕ → ℕ) (m : ClusterMap) (ss : List ℕ)
    → sum_over g (ranges_documents f m ss) ≡ sum_over (λ s. sum_over g (range_documents f m s)) ss
unfolding ranges_documents
sum_over-ranges g f m [] = refl
sum_over-ranges g f m (s ∷ ss) = omega (
  arith,
  sum_over-append g (range_documents f m s) (ranges_documents f m ss),
  sum_over-ranges g f m ss,
)

-- The identifiers of the ranges of a map, from `k` on.
unfoldable pub ids_from : ℕ → ClusterMap → List ℕ
ids_from k [] = []
ids_from k (r ∷ m) = k ∷ ids_from (suc k) m

pub range_documents_at :
    (f : ℕ → ℕ) (m : ClusterMap) (s : ℕ) {r : ℕ × ℕ}
    → get_elem? m s ≡ some r
    → range_documents f m s ≡ documents f r.0 r.1
unfolding range_documents
range_documents_at f m s e = rw (e, range_documents)
