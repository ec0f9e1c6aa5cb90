-- ===== src/OrQuery/Pass.antt =====
-- One document of the query.
use native.Mathlib.Decide.{dec_le}
use anytime_daat.Prelude.{
  ℕ, ◌+◌, ◌≤◌, ◌<◌, ◌≡◌, ◌⊎◌, refl, ap, inl, inr, List, [], ◌∷◌, All, ltb, ◌==◌, Bool-cases, arith,
  if◌then◌else◌,
}
use anytime_daat.Cursor.{Cursor, docid, score, next}
use anytime_daat.Cursor.Postings.{contribution_before, contribution_first, contribution-after_first}
use anytime_daat.Cursor.Valid.{IsValid}
use anytime_daat.MaxScore.{essential_pass, min_docid}
use anytime_daat.OrQuery.{or_pass}
use anytime_daat.OrQuery.Counts.{holds, held_by}

-- The pass goes as the one of MaxScore over its essential cursors.
pub or_pass-essential_pass :
    (cur_doc sum next_doc : ℕ) (cs : List Cursor)
    → or_pass cur_doc next_doc cs
      ≡ ((essential_pass cur_doc sum next_doc cs).1, (essential_pass cur_doc sum next_doc cs).2)
unfolding or_pass essential_pass
or_pass-essential_pass cur_doc sum next_doc [] = refl
or_pass-essential_pass cur_doc sum next_doc (c ∷ cs) =
    let here = docid c == cur_doc in
    let moved = if here then next c else c in
    let next_doc' = if ltb (docid moved) next_doc then docid moved else next_doc in
    let sum' = if here then sum + score c else sum in
    ap (λ (r : ℕ × List Cursor). (r.0, moved ∷ r.1))
      (or_pass-essential_pass cur_doc sum' next_doc' cs)

holds-moved :
    (cur_doc d : ℕ) (c : Cursor)
    → cur_doc < d
    → holds d (if docid c == cur_doc then next c else c) ≡ holds d c
unfolding holds docid next
holds-moved cur_doc d c h = elim (Bool-cases (docid c == cur_doc)) [
  | inl e ↦ rw e (contribution-after_first (λ _ _. 1) c.universe d c.rest (ground arith))
  | inr e ↦ rw e refl
]

pub holds-docid : (end : ℕ) (c : Cursor) → IsValid end c → docid c < end → holds (docid c) c ≡ 1
unfolding holds docid
holds-docid end c v h = contribution_first (λ _ _. 1) c.universe c.rest (omega (arith, v.reach))

pub held_by_later :
    (cur_doc next_doc d : ℕ) (cs : List Cursor)
    → cur_doc < d
    → held_by (or_pass cur_doc next_doc cs).1 d ≡ held_by cs d
unfolding held_by or_pass
held_by_later cur_doc next_doc d [] h = refl
held_by_later cur_doc next_doc d (c ∷ cs) h = omega (
  arith,
  holds-moved cur_doc d c h,
  held_by_later cur_doc
      (if ltb (docid (if docid c == cur_doc then next c else c)) next_doc
        then docid (if docid c == cur_doc then next c else c)
        else next_doc)
      d cs h,
)

held-cons :
    (end next_doc n : ℕ) (moved : Cursor) (r : ℕ × List Cursor)
    → next_doc ≤ end
    → IsValid end moved
    → n ≡ (if ltb (docid moved) next_doc then docid moved else next_doc)
    → (r.0 ≡ n) ⊎ (1 ≤ held_by r.1 r.0)
    → (r.0 ≡ next_doc) ⊎ (1 ≤ holds r.0 moved + held_by r.1 r.0)
held-cons end next_doc n moved r h v e (inr k) = inr (omega arith)
held-cons end next_doc n moved r h v e (inl k) = elim (Bool-cases (ltb (docid moved) next_doc)) [
  | inl lt ↦
      let at : r.0 ≡ docid moved = ground (arith, k, e, lt) in
      let inside : docid moved < end = ground (arith, h, lt) in
      inr (rw at (omega (arith, holds-docid end moved v inside)))
  | inr ge ↦ inl (ground (arith, k, e, ge))
]

least-le :
    (end next_doc : ℕ) (moved : Cursor)
    → next_doc ≤ end
    → (if ltb (docid moved) next_doc then docid moved else next_doc) ≤ end
least-le end next_doc moved h = ground arith

-- The next document is one that a cursor holds, or the one that the pass started with.
pub or_pass-held :
    (end cur_doc next_doc : ℕ) (cs : List Cursor)
    → next_doc ≤ end
    → All (IsValid end) (or_pass cur_doc next_doc cs).1
    → ((or_pass cur_doc next_doc cs).0 ≡ next_doc)
      ⊎ (1 ≤ held_by (or_pass cur_doc next_doc cs).1 (or_pass cur_doc next_doc cs).0)
unfolding or_pass held_by
or_pass-held end cur_doc next_doc [] h v = inl refl
or_pass-held end cur_doc next_doc (c ∷ cs) h (v, vs) =
    let moved = if docid c == cur_doc then next c else c in
    let next_doc' = if ltb (docid moved) next_doc then docid moved else next_doc in
    held-cons end next_doc next_doc' moved (or_pass cur_doc next_doc' cs) h v refl
      (or_pass-held end cur_doc next_doc' cs (least-le end next_doc moved h) vs)

pub held_by_before :
    (end d : ℕ) (cs : List Cursor)
    → All (IsValid end) cs
    → All (λ c. d < docid c) cs
    → held_by cs d ≡ 0
unfolding held_by holds docid
held_by_before end d [] v h = refl
held_by_before end d (c ∷ cs) (v, vs) (h, hs) = omega (
  arith,
  contribution_before (λ _ _. 1) d c.universe c.rest v.ascending h,
  held_by_before end d cs vs hs,
)

held_by-cons :
    (c : Cursor) (cs : List Cursor) (d : ℕ) → held_by (c ∷ cs) d ≡ holds d c + held_by cs d
unfolding held_by
held_by-cons c cs d = refl

held_first :
    (end least : ℕ) (c : Cursor) (cs : List Cursor)
    → IsValid end c
    → (end ≤ least) ⊎ (1 ≤ held_by cs least)
    → (end ≤ (if ltb least (docid c) then least else docid c))
      ⊎ (1 ≤ held_by (c ∷ cs) (if ltb least (docid c) then least else docid c))
held_first end least c cs v rest = elim (Bool-cases (ltb least (docid c))) [
  | inl h ↦
      rw h (elim rest [
        | inl le ↦ inl le
        | inr some_hold ↦ inr (omega (arith, held_by-cons c cs least))
      ])
  | inr h ↦ rw h (elim (dec_le end (docid c)) [
    | yes le ↦ inl le
    | no gt ↦ inr (omega (arith, holds-docid end c v (omega arith), held_by-cons c cs (docid c)))
  ])
]

-- The first document is one that a cursor holds, where it stands before the end.
pub min_docid-held :
    (end : ℕ) (c : Cursor) (cs : List Cursor)
    → All (IsValid end) (c ∷ cs)
    → (end ≤ min_docid c cs) ⊎ (1 ≤ held_by (c ∷ cs) (min_docid c cs))
unfolding min_docid held_by
min_docid-held end c [] (v, vs) = elim (dec_le end (docid c)) [
  | yes le ↦ inl le
  | no gt ↦ inr (omega (arith, holds-docid end c v (omega arith)))
]
min_docid-held end c (e ∷ es) (v, vs) =
    held_first end (min_docid e es) c (e ∷ es) v (min_docid-held end e es vs)
