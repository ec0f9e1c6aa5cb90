-- ===== src/Conjunction/Correct.antt =====
-- The join visits the documents that all lists hold, in order.

use anytime_daat.Prelude.{
  ℕ, zero, suc, ◌-◌, ◌<◌, ◌≡◌, refl, sym, ap, ◌∙◌, inl, inr, List, [], ◌∷◌, some, true, false, All,
  length, take, ltb, Bool-cases, Option-cases, arith,
}
use anytime_daat.Cursor.{Cursor, docid, score, next}
use anytime_daat.Cursor.Valid.{IsValid, gives, gives-docid, next-IsValid, docid-next}
use anytime_daat.Cursor.Lists.{doc_score}
use anytime_daat.OrQuery.Counts.{holds}
use anytime_daat.OrQuery.Pass.{holds-docid}
use anytime_daat.Conjunction.{advance_from, next_first, first_docid, join_loop, total_score}
use anytime_daat.Conjunction.Visits.{
  held_by_all, visit_held, visit_held_skip, visit_held-step, visit_held_end,
}
use anytime_daat.Conjunction.Round.{
  Same, Same-later, Same-trans, Same-next_first, advance_from-Moved, holds_before,
}

pub length-advance_from :
    (i candidate : ℕ) (cs : List Cursor) → length (advance_from i candidate cs).0 ≡ length cs
unfolding advance_from
length-advance_from zero candidate [] = refl
length-advance_from (suc i) candidate [] = refl
length-advance_from (suc i) candidate (c ∷ cs) = ap suc (length-advance_from i candidate cs)
length-advance_from zero candidate (c ∷ cs) = ground (arith, length-advance_from zero candidate cs)

held_by_all-at :
    (end d : ℕ) (cs : List Cursor)
    → d < end
    → All (IsValid end) cs
    → All (λ c. docid c ≡ d) cs
    → held_by_all cs d ≡ true
unfolding held_by_all
held_by_all-at end d [] h v a = refl
held_by_all-at end d (c ∷ cs) h v a =
    let one : holds d c ≡ 1 = rw (← a.0) (holds-docid end c v.0 (omega (arith, a.0))) in
    rw (one, held_by_all-at end d cs h v.1 a.1) refl

-- The cursors' scores are those of the document.
total_score-at :
    (end d : ℕ) (cs : List Cursor)
    → d < end
    → All (IsValid end) cs
    → All (λ c. docid c ≡ d) cs
    → total_score cs ≡ doc_score cs d
unfolding total_score doc_score
total_score-at end d [] h v a = refl
total_score-at end d (c ∷ cs) h v a =
    let here : gives d c ≡ score c = rw (← a.0) (gives-docid end c v.0 (omega (arith, a.0))) in
    omega (arith, here, total_score-at end d cs h v.1 a.1)

-- `emit` does at the cursors what `step` does for the document.
module _ {ℓ} {R : Type ℓ} (emit : List Cursor → ℕ → R → R) (step : ℕ → R → R) (end : ℕ)
    (whole : List Cursor)
    (law : (d : ℕ) (c : Cursor) (cs : List Cursor) (r : R)
      → docid c ≡ d
      → total_score (c ∷ cs) ≡ doc_score whole d
      → emit (c ∷ cs) d r ≡ step d r) where
  abbrev pub Visits : ℕ → R → R
  Visits candidate r = visit_held (held_by_all whole) step candidate end r

  -- After a candidate at which all cursors stand.
  visits-emitted :
      (candidate : ℕ) (c : Cursor) (cs : List Cursor) (r : R)
      → candidate < end
      → All (IsValid end) (c ∷ cs)
      → Same candidate (c ∷ cs) whole
      → All (λ e. docid e ≡ candidate) (c ∷ cs)
      → (candidate < docid (next c))
        × Same (docid (next c)) (next c ∷ cs) whole
        × (Visits candidate r ≡ Visits (docid (next c)) (emit (c ∷ cs) candidate r))
  visits-emitted candidate c cs r h v s a =
      let up : candidate < docid (next c) =
        omega (arith, a.0, docid-next end c v.0 (omega (arith, a.0))) in
      let s' : Same (docid (next c)) (next c ∷ cs) whole =
        Same-trans candidate (docid (next c)) (next c ∷ cs) (c ∷ cs) whole (omega (arith, up))
          (Same-later (suc (docid c)) (docid (next c)) _ _ (omega (arith, a.0, up))
            (Same-next_first c cs))
          s in
      let held_here =
        sym (s.held candidate (omega arith)) ∙ held_by_all-at end candidate (c ∷ cs) h v a in
      let score_here =
        total_score-at end candidate (c ∷ cs) h v a ∙ s.scores candidate (omega arith) in
      let offered = law candidate c cs r a.0 score_here in
      (
        up,
        s',
        visit_held-step (held_by_all whole) step candidate end r h held_here
            ∙ visit_held_skip (held_by_all whole) step (suc candidate) (docid (next c)) end _ up
                (λ d from upto. none_held d (omega (arith, from, a.0)) upto)
            ∙ ap (λ x. Visits (docid (next c)) x) (sym offered),
      )
    where
      none_held : (d : ℕ) → docid c < d → d < docid (next c) → held_by_all whole d ≡ false
      none_held d lt upto =
          let gone = holds_before end (next c) d (next-IsValid end c v.0) upto in
          let here : held_by_all (next c ∷ cs) d ≡ false = unfold held_by_all in rw gone refl in
          sym (s.held d (omega (arith, a.0, lt))) ∙ sym ((Same-next_first c cs).held d lt) ∙ here

  pub visits-next_first :
      (candidate : ℕ) (ms : List Cursor) (r : R)
      → candidate < end
      → 0 < length ms
      → All (IsValid end) ms
      → Same candidate ms whole
      → All (λ c. docid c ≡ candidate) ms
      → (candidate < first_docid (next_first ms))
        × (0 < length (next_first ms))
        × All (IsValid end) (next_first ms)
        × Same (first_docid (next_first ms)) (next_first ms) whole
        × All (λ c. docid c ≡ first_docid (next_first ms)) (take 1 (next_first ms))
        × (Visits candidate r ≡ Visits (first_docid (next_first ms)) (emit ms candidate r))
  unfolding next_first first_docid
  visits-next_first candidate [] r lt n v s a = absurd (omega arith)
  visits-next_first candidate (c ∷ cs) r lt n v s a =
      let (up, same, visits) = visits-emitted candidate c cs r lt v s a in
      (up, omega arith, (next-IsValid end c v.0, v.1), same, (refl, tt), visits)

  pub join_loop-visits :
      (fuel candidate i : ℕ) (cs : List Cursor) (r : R)
      → end - candidate < fuel
      → 0 < length cs
      → All (IsValid end) cs
      → Same candidate cs whole
      → All (λ c. docid c ≡ candidate) (take i cs)
      → join_loop emit fuel end cs candidate i r ≡ some (Visits candidate r)
  unfolding join_loop
  join_loop-visits zero candidate i cs r f n v s a = absurd (omega arith)
  join_loop-visits (suc fuel) candidate i cs r f n v s a = elim (Bool-cases (ltb candidate end)) [
    | inr e ↦
        rw (e, join_loop)
          (ap some
            (sym (visit_held_end (held_by_all whole) step candidate end r (ground (arith, e)))))
    | inl e ↦
        let lt : candidate < end = ground (arith, e) in
        let m = advance_from-Moved end i candidate cs lt v a in
        let same = Same-trans candidate candidate _ cs whole (omega arith) m.same s in
        let some_left : 0 < length (advance_from i candidate cs).0 =
          omega (arith, length-advance_from i candidate cs) in
        elim (Option-cases (advance_from i candidate cs).1) [
          | inl g ↦
              let ms = (advance_from i candidate cs).0 in
              let (up, left, valid, kept, at, visits) =
                visits-next_first candidate ms r lt some_left m.valid same (rw g at m.stopped) in
              rw (e, g, join_loop)
                (join_loop-visits fuel (first_docid (next_first ms)) 1 (next_first ms)
                    (emit ms candidate r) (omega (arith, up)) left valid kept at
                  ∙ ap some (sym visits))
          | inr (d, g) ↦
              let (up, none_held) = rw g at m.stopped in
              rw (e, g, join_loop)
                (join_loop-visits fuel d 0 _ r (omega (arith, up)) some_left m.valid
                    (Same-later candidate d _ whole (omega (arith, up)) same) tt
                  ∙ ap some (
                      sym (
                        visit_held_skip (held_by_all whole) step candidate d end r
                          (omega (arith, up))
                          (λ x from upto. sym (same.held x from) ∙ none_held x from upto))))
        ]
  ]
