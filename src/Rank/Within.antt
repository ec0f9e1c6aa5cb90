-- ===== src/Rank/Within.antt =====
-- The documents that the ranges of a map hold.
use native.Mathlib.Nat.{add-zero}
use anytime_daat.Prelude.{
  ℕ, zero, suc, ◌+◌, ◌-◌, ◌≤◌, ◌<◌, ◌≡◌, refl, sym, ap, ◌∙◌, List, [], ◌∷◌, ◌++◌, some, Bool, true,
  false, get_elem?, inl, inr, Bool-cases, arith, if◌then◌else◌,
}
use anytime_daat.Topk.{Entry}
use anytime_daat.Ranges.{ClusterMap}
use anytime_daat.Ranges.Spec.{in_ranges}
use anytime_daat.Rank.Offers.{
  documents_from, documents, ranges_documents, ids_from, range_documents_at,
}

-- Those of the `n` documents from `lo` on for which `p` is true, with the scores that `f` gives
-- them.
unfoldable pub documents_where : (ℕ → ℕ) → (ℕ → Bool) → ℕ → ℕ → List Entry
documents_where f p zero lo = []
documents_where f p (suc n) lo =
    let rest = documents_where f p n (suc lo) in
    if p lo then record { score = f lo; docid = lo } ∷ rest else rest

-- The ranges rise from `lo` to `hi`, with or without documents between them.
abbrev pub Rises : ℕ → ℕ → ClusterMap → Type 0
Rises lo hi [] = lo ≤ hi
Rises lo hi ((start, end) ∷ m) = (lo ≤ start) × (start ≤ end) × Rises end hi m

Rises-le : (lo hi : ℕ) (m : ClusterMap) → Rises lo hi m → lo ≤ hi
Rises-le lo hi [] h = h
Rises-le lo hi ((start, end) ∷ m) h = omega (arith, h.0, h.1, Rises-le end hi m h.2)

in_ranges_below : (d lo hi : ℕ) (m : ClusterMap) → Rises lo hi m → d < lo → in_ranges d m ≡ false
unfolding in_ranges
in_ranges_below d lo hi [] h k = refl
in_ranges_below d lo hi ((start, end) ∷ m) (from, le, h) k =
    ground (arith, from, in_ranges_below d end hi m h (omega (arith, from, le)))

documents_where-append :
    (f : ℕ → ℕ) (p : ℕ → Bool) (n k i lo mid : ℕ)
    → k ≡ n + i
    → mid ≡ lo + n
    → documents_where f p k lo ≡ documents_where f p n lo ++ documents_where f p i mid
unfolding documents_where
documents_where-append f p zero k i lo mid e g =
    let e' : k ≡ i = omega arith in let g' : lo ≡ mid = omega arith in cc
documents_where-append f p (suc n) zero i lo mid e g = absurd (omega arith)
documents_where-append f p (suc n) (suc k) i lo mid e g =
    let rest = documents_where-append f p n k i (suc lo) mid (omega arith) (omega arith) in
    elim (Bool-cases (p lo)) [
      | inl y ↦ rw y (ap (◌∷◌ (record { score = f lo; docid = lo })) rest)
      | inr y ↦ rw y rest
    ]

documents_where_none :
    (f : ℕ → ℕ) (p : ℕ → Bool) (n lo : ℕ)
    → ((d : ℕ) → lo ≤ d → d < lo + n → p d ≡ false)
    → documents_where f p n lo ≡ []
unfolding documents_where
documents_where_none f p zero lo h = refl
documents_where_none f p (suc n) lo h =
    rw (h lo (omega arith) (omega arith))
      (documents_where_none f p n (suc lo) (λ d a b. h d (omega arith) (omega arith)))

documents_where_all :
    (f : ℕ → ℕ) (p : ℕ → Bool) (n lo : ℕ)
    → ((d : ℕ) → lo ≤ d → d < lo + n → p d ≡ true)
    → documents_where f p n lo ≡ documents_from f n lo
unfolding documents_where documents_from
documents_where_all f p zero lo h = refl
documents_where_all f p (suc n) lo h = rw (h lo (omega arith) (omega arith)) (
    ap (◌∷◌ (record { score = f lo; docid = lo }))
      (documents_where_all f p n (suc lo) (λ d a b. h d (omega arith) (omega arith))))

documents_where_same :
    (f : ℕ → ℕ) (p r : ℕ → Bool) (n lo : ℕ)
    → ((d : ℕ) → lo ≤ d → p d ≡ r d)
    → documents_where f p n lo ≡ documents_where f r n lo
unfolding documents_where
documents_where_same f p r zero lo h = refl
documents_where_same f p r (suc n) lo h =
    let rest = documents_where_same f p r n (suc lo) (λ d a. h d (omega arith)) in
    rw (h lo (omega arith), rest) refl

later : (k i : ℕ) → suc k + i ≡ k + suc i
later k i = omega arith

-- The first range of a map that rises, and the documents in front of it and behind it.
module _ (f : ℕ → ℕ) (lo start end hi : ℕ) (m : ClusterMap) (from : lo ≤ start) (le : start ≤ end)
    (h : Rises end hi m) where
  abbrev within : ℕ → Bool
  within d = in_ranges d ((start, end) ∷ m)

  in_front : documents_where f within (start - lo) lo ≡ []
  in_front = documents_where_none f within (start - lo) lo (λ d a b.
      unfold in_ranges in
      ground (arith, b, from, in_ranges_below d end hi m h (omega (arith, b, from, le))))

  first_range : documents_where f within (end - start) start ≡ documents f start end
  unfolding documents
  first_range =
      documents_where_all f within (end - start) start
        (λ d a b. unfold in_ranges in ground (arith, a, b, le))

  behind :
      documents_where f within (hi - end) end
      ≡ documents_where f (λ d. in_ranges d m) (hi - end) end
  behind =
      documents_where_same f within (λ d. in_ranges d m) (hi - end) end
        (λ d a. unfold in_ranges in ground (arith, a))

  documents_where_first :
      documents_where f within (hi - lo) lo
      ≡ documents f start end ++ documents_where f (λ d. in_ranges d m) (hi - end) end
  documents_where_first =
      let upto : end ≤ hi = Rises-le end hi m h in
      documents_where-append f within (start - lo) (hi - lo) (hi - start) lo start
        (omega (arith, upto, le, from)) (omega (arith, from))
      ∙ ap (λ t. t ++ documents_where f within (hi - start) start) in_front
      ∙ documents_where-append f within (end - start) (hi - start) (hi - end) start end
          (omega (arith, upto, le)) (omega (arith, le))
      ∙ ap (λ t. t ++ documents_where f within (hi - end) end) first_range
      ∙ ap (λ t. documents f start end ++ t) behind

-- The ranges of a map that rises, in the order of their identifiers, are the documents that they
-- hold. `whole` is the map, and `m` what it holds from `k` on.
pub ranges_documents-Rises :
    (f : ℕ → ℕ) (whole : ClusterMap) (k lo hi : ℕ) (m : ClusterMap)
    → ((i : ℕ) → get_elem? whole (k + i) ≡ get_elem? m i)
    → Rises lo hi m
    → ranges_documents f whole (ids_from k m) ≡ documents_where f (λ d. in_ranges d m) (hi - lo) lo
unfolding ranges_documents ids_from
ranges_documents-Rises f whole k lo hi [] at h =
    sym (
      documents_where_none f (λ d. in_ranges d []) (hi - lo) lo (λ d a b. unfold in_ranges in refl))
ranges_documents-Rises f whole k lo hi ((start, end) ∷ m) at (from, le, h) =
    let here : get_elem? whole k ≡ some (start, end) = rw add-zero at (at 0) in
    let rest =
      ranges_documents-Rises f whole (suc k) end hi m (λ i. rw (later k i) (at (suc i))) h in
    ap (λ t. t ++ ranges_documents f whole (ids_from (suc k) m)) (range_documents_at f whole k here)
    ∙ ap (λ t. documents f start end ++ t) rest
    ∙ sym (documents_where_first f lo start end hi m from le h)
