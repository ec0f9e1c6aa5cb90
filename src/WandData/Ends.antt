-- ===== src/WandData/Ends.antt =====
-- The ends of the clusters: the range of a document, and the documents of the ranges.
use Prim.Native.Nat.{max}
use anytime_daat.Prelude.{
  ℕ, zero, suc, ◌+◌, ◌-◌, ◌≤◌, ◌<◌, ◌≡◌, refl, ◌∙◌, ap, inl, inr, List, [], ◌∷◌, ◌++◌, Bool, true,
  false, not, ◌&&◌, ◌||◌, ltb, leb, ◌==◌, get_or, replicate, Bool-cases, arith, if◌then◌else◌,
}
use anytime_daat.Ranges.Spec.{in_ranges}
use anytime_daat.Rank.Within.{Rises}
use anytime_daat.WandData.{doc_ranges, doc_to_range, all_ranges}

-- The ends rise from `lo` on, and the last one is the size of the collection.
abbrev pub IsEnds : ℕ → ℕ → List ℕ → Type 0
IsEnds lo u [] = u < lo
IsEnds lo u (e ∷ es) = (lo ≤ e) × (e ≤ u) × IsEnds (suc e) u es

-- The first end behind the document says its range.
unfoldable pub range_from : ℕ → ℕ → List ℕ → ℕ
range_from k d [] = 0
range_from k d (e ∷ es) = let rest = range_from (suc k) d es in if ltb d e then k else rest

get_or-replicate :
    (n a z i : ℕ) (xs : List ℕ)
    → get_or (replicate n a ++ xs) i z ≡ (if ltb i n then a else get_or xs (i - n) z)
get_or-replicate zero a z i xs = rw (minus_zero i) (ground arith)
  where
    minus_zero : (i : ℕ) → i - 0 ≡ i
    minus_zero i = omega arith
get_or-replicate (suc n) a z zero xs = ground arith
get_or-replicate (suc n) a z (suc i) xs =
    let same : suc i - suc n ≡ i - n = omega arith in
    rw same (get_or-replicate n a z i xs ∙ ground arith)

get_or-doc_ranges :
    (lo from k u i : ℕ) (es : List ℕ)
    → lo ≤ from
    → IsEnds from u es
    → get_or (doc_ranges lo k es) i 0 ≡ range_from k (lo + i) es
unfolding doc_ranges range_from
get_or-doc_ranges lo from k u i [] b h = refl
get_or-doc_ranges lo from k u i (e ∷ es) b (le, _, h) =
    get_or-replicate (e - lo) k 0 i (doc_ranges (max lo e) (suc k) es)
    ∙ elim (Bool-cases (ltb (lo + i) e)) [
      | inl before ↦
          let early : ltb i (e - lo) ≡ true = ground (arith, before) in rw (before, early) refl
      | inr behind ↦
          let late : ltb i (e - lo) ≡ false = ground (arith, behind, le) in
          let at : max lo e ≡ e = omega (arith, le, b) in
          let there : e + (i - (e - lo)) ≡ lo + i = ground (arith, behind, le, b) in
          rw (behind, late, at)
            (get_or-doc_ranges e (suc e) (suc k) u (i - (e - lo)) es (omega arith) h
              ∙ ap (λ d. range_from (suc k) d es) there)
    ]

-- The documents before some end.
unfoldable pub ends_behind : ℕ → List ℕ → Bool
ends_behind d [] = false
ends_behind d (e ∷ es) = ltb d e || ends_behind d es

unfoldable pub elem : ℕ → List ℕ → Bool
elem d [] = false
elem d (e ∷ es) = (d == e) || elem d es

elem_below : (d lo u : ℕ) (es : List ℕ) → IsEnds lo u es → d < lo → elem d es ≡ false
unfolding elem
elem_below d lo u [] h k = refl
elem_below d lo u (e ∷ es) (le, _, h) k =
    ground (arith, le, elem_below d (suc e) u es h (omega (arith, le)))

in_ranges-all_ranges_from :
    (d lo u : ℕ) (es : List ℕ)
    → IsEnds lo u es
    → in_ranges d (all_ranges lo es) ≡ (leb lo d && (ends_behind d es && not (elem d es)))
unfolding in_ranges all_ranges ends_behind elem
in_ranges-all_ranges_from d lo u [] h = ground arith
in_ranges-all_ranges_from d lo u (e ∷ es) (le, _, h) =
    let ih = in_ranges-all_ranges_from d (suc e) u es h in
    let below = λ (k : d < e). elem_below d (suc e) u es h (omega arith) in
    ground (arith, le, ih, below)

-- The ranges that the queries visit hold a document exactly if it stands before some end and is
-- not an end itself, for ends that rise up to the size of the collection.
pub in_ranges-all_ranges :
    (u d : ℕ) (ends : List ℕ)
    → IsEnds 0 u ends
    → in_ranges d (all_ranges 0 ends) ≡ (ends_behind d ends && not (elem d ends))
in_ranges-all_ranges u d ends h = in_ranges-all_ranges_from d 0 u ends h ∙ ground arith

-- The ranges rise from any `b` on that is not behind the first.
all_ranges-Rises_from :
    (b lo u : ℕ) (es : List ℕ) → b ≤ lo → b ≤ u → IsEnds lo u es → Rises b u (all_ranges lo es)
unfolding all_ranges
all_ranges-Rises_from b lo u [] h k e = k
all_ranges-Rises_from b lo u (e ∷ es) h k (le, upto, rest) =
    (h, le, all_ranges-Rises_from e (suc e) u es (omega arith) upto rest)

pub all_ranges-Rises : (u : ℕ) (ends : List ℕ) → IsEnds 0 u ends → Rises 0 u (all_ranges 0 ends)
all_ranges-Rises u ends = all_ranges-Rises_from 0 0 u ends (omega arith) (omega arith)

pub ends_behind-IsEnds :
    (d lo u : ℕ) (es : List ℕ) → IsEnds lo u es → lo ≤ suc d → d < u → ends_behind d es ≡ true
unfolding ends_behind
ends_behind-IsEnds d lo u [] h k l = absurd (omega (arith, h))
ends_behind-IsEnds d lo u (e ∷ es) (le, _, h) k l = elim (Bool-cases (ltb d e)) [
  | inl b ↦ rw b refl
  | inr b ↦ rw b (ends_behind-IsEnds d (suc e) u es h (ground (arith, b)) l)
]

range_from-le : (k d : ℕ) (es : List ℕ) → ends_behind d es ≡ true → k ≤ range_from k d es
unfolding range_from ends_behind
range_from-le k d [] h = absurd (ground (arith, h))
range_from-le k d (e ∷ es) h = elim (Bool-cases (ltb d e)) [
  | inl b ↦ rw b (omega arith)
  | inr b ↦ let ih = range_from-le (suc k) d es (rw b at h) in rw b (omega (arith, ih))
]

-- The ranges do not fall along the documents.
range_from_mono :
    (k d f : ℕ) (es : List ℕ)
    → d ≤ f
    → ends_behind f es ≡ true
    → range_from k d es ≤ range_from k f es
unfolding range_from ends_behind
range_from_mono k d f [] le h = omega arith
range_from_mono k d f (e ∷ es) le h = elim (Bool-cases (ltb f e)) [
  | inl b ↦ let a : ltb d e ≡ true = ground (arith, b, le) in rw (a, b) (omega arith)
  | inr b ↦ elim (Bool-cases (ltb d e)) [
    | inl a ↦ let ih = range_from-le (suc k) f es (rw b at h) in rw (a, b) (omega (arith, ih))
    | inr a ↦ rw (a, b) (range_from_mono (suc k) d f es le (rw b at h))
  ]
]

module _ (u : ℕ) (ends : List ℕ) (h : IsEnds 0 u ends) where
  pub doc_to_range_lem : (d : ℕ) → doc_to_range ends d ≡ range_from 0 d ends
  unfolding doc_to_range
  doc_to_range_lem d =
      get_or-doc_ranges 0 0 0 u d ends (omega arith) h ∙ ap (λ x. range_from 0 x ends) (omega arith)

  pub doc_to_range_mono : (d f : ℕ) → d ≤ f → f < u → doc_to_range ends d ≤ doc_to_range ends f
  doc_to_range_mono d f le lt =
      rw (doc_to_range_lem d, doc_to_range_lem f)
        (range_from_mono 0 d f ends le (ends_behind-IsEnds f 0 u ends h (omega arith) lt))
