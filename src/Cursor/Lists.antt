-- ===== src/Cursor/Lists.antt =====
-- The cursors of a query, as the vector of pointers that the algorithms keep in the order of
-- their documents. std::sort leaves the order of equal documents open; here it is that of a
-- stable sort.
use native.Mathlib.Nat.{le_trans}
use anytime_daat.Prelude.{
  ℕ, ◌≤◌, ◌<◌, ◌≡◌, refl, inl, inr, List, [], ◌∷◌, map, Permᴰ, true, false, All, All-mono,
  All-Permᴰ, sum_over, Permᴰ-refl, Permᴰ-symm, ltb, Bool-cases, arith, tests, if◌then◌else◌,
}
use anytime_daat.Cursor.{Cursor, docid, next, next_geq}
use anytime_daat.Cursor.Valid.{IsValid, gives, gives_before, gives-le, remaining}

-- A cursor that has advanced, or a new one, moves behind the cursors at smaller documents.
unfoldable pub bubble : Cursor → List Cursor → List Cursor
bubble c [] = c ∷ []
bubble c (e ∷ es) = if ltb (docid e) (docid c) then e ∷ bubble c es else c ∷ e ∷ es

unfoldable pub sort_enums : List Cursor → List Cursor
unfolding bubble
sort_enums [] = []
sort_enums (c ∷ cs) = bubble c (sort_enums cs)

abbrev pub IsSorted : List Cursor → Type 0
IsSorted [] = Unit
IsSorted (c ∷ cs) = All (λ e. docid c ≤ docid e) cs × IsSorted cs

-- The score that the cursors still have for a document, the postings that they have left, and
-- the sum of the maximum scores.
unfoldable pub doc_score : List Cursor → ℕ → ℕ
doc_score cs d = sum_over (gives d) cs

unfoldable pub total_remaining : List Cursor → ℕ
total_remaining cs = sum_over remaining cs

unfoldable pub total_max_score : List Cursor → ℕ
total_max_score cs = sum_over (λ c. c.max_score) cs

-- What no move of a cursor changes.
unfoldable pub base : Cursor → Cursor
base c = record c { rest = []; max_score = 0; blocks = [] }

pub base-next : (c : Cursor) → base (next c) ≡ base c
unfolding base next
base-next c = refl

pub base-next_geq : (c : Cursor) (d : ℕ) → base (next_geq c d) ≡ base c
unfolding base next_geq
base-next_geq c d = refl

-- The same lists, in any order and at any position.
abbrev pub SameLists : List Cursor → List Cursor → Type 0
SameLists cs ds = Permᴰ (map base cs) (map base ds)

pub bubble-Permᴰ : (c : Cursor) (cs : List Cursor) → Permᴰ (bubble c cs) (c ∷ cs)
unfolding bubble
bubble-Permᴰ c [] = Permᴰ-refl (c ∷ [])
bubble-Permᴰ c (e ∷ es) =
    elim (ltb (docid e) (docid c))
      as (λ t. Permᴰ (if t then e ∷ bubble c es else c ∷ e ∷ es) (c ∷ e ∷ es)) [
        | true ↦ Permᴰ.trans (Permᴰ.cons refl (bubble-Permᴰ c es)) (Permᴰ.swap refl refl)
        | false ↦ Permᴰ-refl (c ∷ e ∷ es)
      ]

pub sort_enums-Permᴰ : (cs : List Cursor) → Permᴰ (sort_enums cs) cs
unfolding sort_enums
sort_enums-Permᴰ [] = Permᴰ.nil
sort_enums-Permᴰ (c ∷ cs) =
    Permᴰ.trans (bubble-Permᴰ c (sort_enums cs)) (Permᴰ.cons refl (sort_enums-Permᴰ cs))

-- A lower bound of the documents of `c` and of `cs` is one of the list with `c` in its place.
bubble-above :
    (b : ℕ) (c : Cursor) (cs : List Cursor)
    → b ≤ docid c
    → All (λ e. b ≤ docid e) cs
    → All (λ e. b ≤ docid e) (bubble c cs)
bubble-above b c cs h k = All-Permᴰ (λ e. b ≤ docid e) (Permᴰ-symm (bubble-Permᴰ c cs)) (h, k)

pub bubble-IsSorted : (c : Cursor) (cs : List Cursor) → IsSorted cs → IsSorted (bubble c cs)
unfolding bubble
bubble-IsSorted c [] s = (tt, tt)
bubble-IsSorted c (e ∷ es) (h, s) = elim (Bool-cases (ltb (docid e) (docid c))) [
  | inl p ↦ rw p (bubble-above (docid e) c es (omega tests) h, bubble-IsSorted c es s)
  | inr p ↦
      let le : docid c ≤ docid e = ground arith in
      rw p ((le, All-mono (λ x k. le_trans le k) es h), (h, s))
]

pub sort_enums-IsSorted : (cs : List Cursor) → IsSorted (sort_enums cs)
unfolding sort_enums
sort_enums-IsSorted [] = tt
sort_enums-IsSorted (c ∷ cs) = bubble-IsSorted c (sort_enums cs) (sort_enums-IsSorted cs)

-- Nothing is left for the documents before every cursor.
pub doc_score_before :
    (end d : ℕ) (cs : List Cursor)
    → All (IsValid end) cs
    → All (λ c. d < docid c) cs
    → doc_score cs d ≡ 0
unfolding doc_score
doc_score_before end d [] v h = refl
doc_score_before end d (c ∷ cs) (v, vs) (h, hs) =
    omega (arith, gives_before end c v d h, doc_score_before end d cs vs hs)

pub doc_score-le :
    (end d : ℕ) (cs : List Cursor)
    → All (IsValid end) cs
    → d < end
    → doc_score cs d ≤ total_max_score cs
unfolding doc_score total_max_score
doc_score-le end d [] v h = omega arith
doc_score-le end d (c ∷ cs) (v, vs) h =
    omega (arith, gives-le end c v d h, doc_score-le end d cs vs h)
