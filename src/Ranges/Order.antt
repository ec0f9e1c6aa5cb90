-- ===== src/Ranges/Order.antt =====
-- The order of the ranges by falling bound sums.
use native.Mathlib.Nat.{le_trans}
use anytime_daat.Prelude.{
  ℕ, zero, suc, ◌+◌, ◌≤◌, ◌<◌, ◌≡◌, refl, sym, ap, ◌∙◌, inl, inr, List, [], ◌∷◌, Permᴰ, Permᴰ-refl,
  Permᴰ-symm, All, All-mono, All-Permᴰ, length, take, ltb, Bool-cases, arith,
}
use anytime_daat.Cursor.{Cursor}
use anytime_daat.Cursor.Lists.{SameLists}
use anytime_daat.Ranges.{ClusterMap, bound_sum, range_and_score, insert_range, sort_ranges}
use anytime_daat.Ranges.Correct.{bound_sum-SameLists}

-- The identifiers of the ranges, in the order of the visit.
unfoldable pub ids : List (ℕ × ℕ) → List ℕ
ids [] = []
ids (r ∷ rs) = r.0 ∷ ids rs

unfoldable pub range_order : List Cursor → ClusterMap → List ℕ
range_order cs m = ids (sort_ranges (range_and_score cs 0 m))

abbrev pub IsFalling : List (ℕ × ℕ) → Type 0
IsFalling [] = Unit
IsFalling (r ∷ rs) = All (λ s. s.1 ≤ r.1) rs × IsFalling rs

-- A range of the map with its bound sum.
abbrev pub Scored : List Cursor → ℕ → ℕ × ℕ → Type 0
Scored cs n r = (r.0 < n) × (r.1 ≡ bound_sum cs r.0)

insert_range-Permᴰ : (r : ℕ × ℕ) (rs : List (ℕ × ℕ)) → Permᴰ (insert_range r rs) (r ∷ rs)
unfolding insert_range
insert_range-Permᴰ r [] = Permᴰ-refl (r ∷ [])
insert_range-Permᴰ r (s ∷ rs) = elim (Bool-cases (ltb r.1 s.1)) [
  | inl e ↦ rw e (Permᴰ.trans (Permᴰ.cons refl (insert_range-Permᴰ r rs)) (Permᴰ.swap refl refl))
  | inr e ↦ rw e (Permᴰ-refl (r ∷ s ∷ rs))
]

pub sort_ranges-Permᴰ : (rs : List (ℕ × ℕ)) → Permᴰ (sort_ranges rs) rs
unfolding sort_ranges
sort_ranges-Permᴰ [] = Permᴰ.nil
sort_ranges-Permᴰ (r ∷ rs) =
    Permᴰ.trans (insert_range-Permᴰ r (sort_ranges rs)) (Permᴰ.cons refl (sort_ranges-Permᴰ rs))

insert_range-IsFalling :
    (r : ℕ × ℕ) (rs : List (ℕ × ℕ)) → IsFalling rs → IsFalling (insert_range r rs)
unfolding insert_range
insert_range-IsFalling r [] h = (tt, tt)
insert_range-IsFalling r (s ∷ rs) (b, h) = elim (Bool-cases (ltb r.1 s.1)) [
  | inl e ↦
      let le : r.1 ≤ s.1 = ground arith in
      let below = All-Permᴰ (λ x. x.1 ≤ s.1) (Permᴰ-symm (insert_range-Permᴰ r rs)) (le, b) in
      rw e (below, insert_range-IsFalling r rs h)
  | inr e ↦
      let le : s.1 ≤ r.1 = ground arith in rw e ((le, All-mono (λ x k. le_trans k le) rs b), (b, h))
]

pub sort_ranges-IsFalling : (rs : List (ℕ × ℕ)) → IsFalling (sort_ranges rs)
unfolding sort_ranges
sort_ranges-IsFalling [] = tt
sort_ranges-IsFalling (r ∷ rs) =
    insert_range-IsFalling r (sort_ranges rs) (sort_ranges-IsFalling rs)

range_and_score-Scored :
    (cs : List Cursor) (k n : ℕ) (m : ClusterMap)
    → k + length m ≤ n
    → All (Scored cs n) (range_and_score cs k m)
unfolding range_and_score
range_and_score-Scored cs k n [] h = tt
range_and_score-Scored cs k n (r ∷ m) h =
    ((omega arith, refl), range_and_score-Scored cs (suc k) n m (omega arith))

pub sorted-Scored :
    (cs : List Cursor) (m : ClusterMap)
    → All (Scored cs (length m)) (sort_ranges (range_and_score cs 0 m))
sorted-Scored cs m =
    All-Permᴰ (Scored cs (length m)) (Permᴰ-symm (sort_ranges-Permᴰ _))
      (range_and_score-Scored cs 0 (length m) m (omega arith))

-- The ranges behind one that cannot enter cannot enter.
pub falling_refused :
    (cs : List Cursor) (n b left : ℕ) (rs : List (ℕ × ℕ))
    → All (Scored cs n) rs
    → All (λ s. s.1 ≤ b) rs
    → All (λ s. (s < n) × (bound_sum cs s ≤ b)) (take left (ids rs))
unfolding ids
falling_refused cs n b zero rs h k = tt
falling_refused cs n b (suc left) [] h k = tt
falling_refused cs n b (suc left) (r ∷ rs) h k =
    ((h.0.0, omega arith), falling_refused cs n b left rs h.1 k.1)

pub Scored-SameLists :
    (cs ds : List Cursor) (n : ℕ) (rs : List (ℕ × ℕ))
    → SameLists ds cs
    → All (Scored cs n) rs
    → All (Scored ds n) rs
Scored-SameLists cs ds n rs p =
    All-mono (λ r h. (h.0, h.1 ∙ sym (bound_sum-SameLists ds cs r.0 p))) rs

pub length-range_and_score :
    (cs : List Cursor) (k : ℕ) (m : ClusterMap) → length (range_and_score cs k m) ≡ length m
unfolding range_and_score
length-range_and_score cs k [] = refl
length-range_and_score cs k (r ∷ m) = ap suc (length-range_and_score cs (suc k) m)
