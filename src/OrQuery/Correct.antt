-- ===== src/OrQuery/Correct.antt =====
-- The result is the number of documents.
use native.Mathlib.Nat.{le_trans}
use native.Mathlib.Decide.{dec_le}
use anytime_daat.Prelude.{
  ℕ, zero, suc, ◌+◌, ◌-◌, ◌≤◌, ◌<◌, ◌≡◌, ◌⊎◌, refl, ap, sym, ◌∙◌, inl, inr, List, [], ◌∷◌, some,
  All, All-mono, subst, ltb, Bool-cases, arith,
}
use anytime_daat.Cursor.{Cursor, docid}
use anytime_daat.Cursor.Valid.{IsValid}
use anytime_daat.MaxScore.{min_docid}
use anytime_daat.MaxScore.Passes.{essential_pass-Essential}
use anytime_daat.MaxScore.Until.{min_docid-least}
use anytime_daat.OrQuery.{or_pass, or_loop, or_query}
use anytime_daat.OrQuery.Counts.{held_by, count_from, count_from_skip}
use anytime_daat.OrQuery.Pass.{
  or_pass-essential_pass, held_by_later, or_pass-held, held_by_before, min_docid-held,
}

-- What the pass leaves.
record OrPassed (end cur_doc : ℕ) (cs : List Cursor) (r : ℕ × List Cursor) : Type 0 where
  valid : All (IsValid end) r.1
  above : All (λ c. r.0 ≤ docid c) r.1
  grows : cur_doc < r.0
  least : r.0 ≤ end
  later : (d : ℕ) → cur_doc < d → held_by r.1 d ≡ held_by cs d
  held : (r.0 ≡ end) ⊎ (1 ≤ held_by r.1 r.0)

or_pass-OrPassed :
    (end cur_doc : ℕ) (cs : List Cursor)
    → cur_doc < end
    → All (IsValid end) cs
    → All (λ c. cur_doc ≤ docid c) cs
    → OrPassed end cur_doc cs (or_pass cur_doc end cs)
or_pass-OrPassed end cur_doc cs inside v above =
    let e = essential_pass-Essential end cur_doc 0 end cs inside v above in
    let same = sym (or_pass-essential_pass cur_doc 0 end cs) in
    let valid = subst (λ (r : ℕ × List Cursor). All (IsValid end) r.1) same e.kept.valid in
    record {
      valid = valid;
      above = subst (λ (r : ℕ × List Cursor). All (λ c. r.0 ≤ docid c) r.1) same e.above;
      grows = subst (λ (r : ℕ × List Cursor). cur_doc < r.0) same (e.grows inside);
      least = subst (λ (r : ℕ × List Cursor). r.0 ≤ end) same e.least;
      later = λ d h. held_by_later cur_doc end d cs h;
      held = or_pass-held end cur_doc end cs (omega arith) valid;
    }

-- One document is counted.
count-pass :
    (end cur_doc n : ℕ) (cs : List Cursor) (r : ℕ × List Cursor)
    → end ≡ cur_doc + suc n
    → 1 ≤ held_by cs cur_doc
    → OrPassed end cur_doc cs r
    → count_from (held_by cs) (suc n) cur_doc ≡ 1 + count_from (held_by r.1) (end - r.0) r.0
count-pass end cur_doc n cs r e here p =
    let rest =
      count_from_skip (held_by cs) (held_by r.1) (r.0 - suc cur_doc) (end - r.0) n (suc cur_doc) r.0
        end (omega (arith, p.grows, p.least)) (omega (arith, p.grows)) (omega arith)
        (λ d a b.
          sym (p.later d a)
          ∙ held_by_before end d r.1 p.valid (All-mono (λ c k. le_trans b k) r.1 p.above))
        (λ d a b. sym (p.later d (le_trans p.grows a))) in
    unfold count_from in ground (arith, here, rest)

or_loop-count :
    (fuel end cur_doc results : ℕ) (cs : List Cursor)
    → end - cur_doc < fuel
    → All (IsValid end) cs
    → All (λ c. cur_doc ≤ docid c) cs
    → (end ≤ cur_doc) ⊎ (1 ≤ held_by cs cur_doc)
    → or_loop fuel end cs cur_doc results
      ≡ some (results + count_from (held_by cs) (end - cur_doc) cur_doc)
unfolding or_loop
or_loop-count zero end cur_doc results cs h v above held = absurd (omega arith)
or_loop-count (suc fuel) end cur_doc results cs h v above held =
    elim (Bool-cases (ltb cur_doc end)) [
      | inr over ↦
          let none_left : end - cur_doc ≡ 0 = ground (arith, over) in
          rw (over, or_loop) (ap some (rw none_left (unfold count_from in omega arith)))
      | inl inside ↦
          let lt : cur_doc < end = ground (arith, inside) in
          let p = or_pass-OrPassed end cur_doc cs lt v above in
          let size : end - cur_doc ≡ suc (end - suc cur_doc) = omega arith in
          let here : 1 ≤ held_by cs cur_doc = elim held [
            | inl over ↦ absurd (omega arith)
            | inr some_hold ↦ some_hold
          ] in
          let next_held =
            elim p.held
              as (λ _.
                (end ≤ (or_pass cur_doc end cs).0)
                ⊎ (1 ≤ held_by (or_pass cur_doc end cs).1 (or_pass cur_doc end cs).0)) [
                  | inl last ↦ inl (omega arith)
                  | inr some_hold ↦ inr some_hold
                ] in
          rw (inside, or_loop)
            (or_loop-count fuel end _ (results + 1) _ (omega (arith, p.grows)) p.valid p.above
                next_held
              ∙ ap some (
                  rw size (
                    omega (
                      arith,
                      count-pass end cur_doc (end - suc cur_doc) cs (or_pass cur_doc end cs)
                          (omega arith) here p,
                    ))))
    ]

-- The documents before every cursor count nothing.
count_from_least :
    (end b : ℕ) (cs : List Cursor)
    → All (IsValid end) cs
    → All (λ c. b ≤ docid c) cs
    → count_from (held_by cs) end 0 ≡ count_from (held_by cs) (end - b) b
count_from_least end b cs v above = elim (dec_le b end) [
  | yes le ↦
      count_from_skip (held_by cs) (held_by cs) b (end - b) end 0 b end (omega arith) (omega arith)
        (omega arith) (λ d _ k. nothing d k) (λ d _ _. refl)
  | no gt ↦
      let none_left : end - b ≡ 0 = omega arith in
      rw none_left (
        count_from_skip (held_by cs) (held_by cs) end 0 end 0 end end (omega arith) (omega arith)
          (omega arith) (λ d _ k. nothing d (omega arith)) (λ d _ _. refl)
        ∙ unfold count_from in refl)
]
  where
    nothing : (d : ℕ) → d < b → held_by cs d ≡ 0
    nothing d k = held_by_before end d cs v (All-mono (λ c a. le_trans k a) cs above)

-- The query ends, and its result is the number of documents before `max_docid` that one cursor
-- at least holds, for cursors whose lists ascend below a universe of `max_docid` at least and
-- whose maximum scores bound the scores of their postings.
pub or_query-count :
    (cs : List Cursor) (max_docid : ℕ)
    → All (IsValid max_docid) cs
    → or_query cs max_docid ≡ some (count_from (held_by cs) max_docid 0)
unfolding or_query
or_query-count [] max_docid v =
    ap some (sym (count_from_least max_docid max_docid [] tt tt ∙ no_documents))
  where
    no_documents : count_from (held_by []) (max_docid - max_docid) max_docid ≡ 0
    no_documents =
        let e : max_docid - max_docid ≡ 0 = omega arith in rw e (unfold count_from in refl)
or_query-count (c ∷ cs) max_docid v =
    or_loop-count (suc max_docid) max_docid (min_docid c cs) 0 (c ∷ cs) (omega arith) v
      (min_docid-least c cs) (min_docid-held max_docid c cs v)
    ∙ ap some (
        omega
          (arith, count_from_least max_docid (min_docid c cs) (c ∷ cs) v (min_docid-least c cs)))
