-- ===== src/MaxScore/Passes.antt =====
-- The two passes over the cursors for one document.
use anytime_daat.Prelude.{
  ℕ, ◌+◌, ◌≤◌, ◌<◌, ◌≡◌, refl, ◌∙◌, inl, inr, List, [], ◌∷◌, map, Permᴰ, Permᴰ-refl, Bool, true,
  false, All, sum_over, get_or, ltb, ◌==◌, Bool-cases, arith, if◌then◌else◌,
}
use anytime_daat.Topk.{Topk, would_enter}
use anytime_daat.Rank.{would_enter_mono}
use anytime_daat.Cursor.{Cursor, docid, score, next, next_geq}
use anytime_daat.Cursor.Valid.{
  IsValid, gives, gives_before, gives-docid, gives-next, gives-next_geq, docid-next, docid-next_geq,
  next-IsValid, next_geq-IsValid,
}
use anytime_daat.Cursor.Lists.{
  doc_score, doc_score-le, total_max_score, base, base-next, base-next_geq, SameLists,
}
use anytime_daat.MaxScore.{calc_upper_bounds, essential_pass, lookup_pass}

-- The maximum scores, which the passes keep.
abbrev pub maxes : List Cursor → List ℕ
maxes = map (λ c. c.max_score)

-- What a pass keeps: the cursors of the same lists, with the same maximum scores, and all that
-- they have for the documents behind `current`.
pub record Kept (end current : ℕ) (cs ds : List Cursor) : Type 0 where
  pub valid : All (IsValid end) ds
  pub same : SameLists ds cs
  pub same_maxes : maxes ds ≡ maxes cs
  pub later : (d : ℕ) → current < d → doc_score ds d ≡ doc_score cs d

Kept-refl : (end current : ℕ) (cs : List Cursor) → All (IsValid end) cs → Kept end current cs cs
Kept-refl end current cs v = record {
  valid = v;
  same = Permᴰ-refl (map base cs);
  same_maxes = refl;
  later = λ d h. refl;
}

-- One cursor more, that moved from `c` to `moved`.
Kept-cons :
    (end current : ℕ) (c moved : Cursor) (cs ds : List Cursor)
    → IsValid end moved
    → base moved ≡ base c
    → moved.max_score ≡ c.max_score
    → ((d : ℕ) → current < d → gives d moved ≡ gives d c)
    → Kept end current cs ds
    → Kept end current (c ∷ cs) (moved ∷ ds)
unfolding doc_score
Kept-cons end current c moved cs ds v b m g k = record {
  valid = (v, k.valid);
  same = Permᴰ.cons b k.same;
  same_maxes = λ i. m i ∷ k.same_maxes i;
  later = λ d h. omega (arith, g d h, k.later d h);
}

-- The essential cursors give their scores for `current`, and the next document is the least of
-- theirs and `next_docid`.
pub record Essential (end current sum next_docid : ℕ) (cs : List Cursor) (r : ℕ × ℕ × List Cursor)
    : Type 0 where
  pub kept : Kept end current cs r.2
  pub scored : r.0 ≡ sum + doc_score cs current
  pub least : r.1 ≤ next_docid
  pub above : All (λ c. r.1 ≤ docid c) r.2
  pub grows : current < next_docid → current < r.1

Essential-cons :
    (end current sum sum' next_docid next_docid' : ℕ) (c moved : Cursor) (cs : List Cursor)
    (r : ℕ × ℕ × List Cursor)
    → Kept end current (c ∷ cs) (moved ∷ r.2)
    → sum' ≡ sum + gives current c
    → next_docid' ≤ next_docid
    → next_docid' ≤ docid moved
    → (current < next_docid → current < next_docid')
    → Essential end current sum' next_docid' cs r
    → Essential end current sum next_docid (c ∷ cs) (r.0, r.1, moved ∷ r.2)
unfolding doc_score
Essential-cons end current sum sum' n n' c moved cs r kept s le at grows e = record {
  kept = kept;
  scored = omega (arith, s, e.scored);
  least = omega (arith, e.least);
  above = (omega (arith, e.least), e.above);
  grows = λ h. e.grows (grows h);
}

gives-current :
    (end current : ℕ) (c : Cursor)
    → IsValid end c
    → current < end
    → docid c ≡ current
    → gives current c ≡ score c
gives-current end current c v h e = rw (← e) (gives-docid end c v (omega arith))

module _ (end current : ℕ) (c : Cursor) (v : IsValid end c) (inside : current < end) where
  -- The moves of one cursor keep what it has behind `current`.
  Kept-next :
      (cs ds : List Cursor)
      → docid c ≡ current
      → Kept end current cs ds
      → Kept end current (c ∷ cs) (next c ∷ ds)
  Kept-next cs ds e k =
      Kept-cons end current c (next c) cs ds (next-IsValid end c v) (base-next c)
        (unfold next in refl) (λ d h. gives-next c d (omega arith)) k

  Kept-next_geq :
      (cs ds : List Cursor)
      → Kept end current cs ds
      → Kept end current (c ∷ cs) (next_geq c current ∷ ds)
  Kept-next_geq cs ds k =
      Kept-cons end current c (next_geq c current) cs ds (next_geq-IsValid end c v current)
        (base-next_geq c current) (unfold next_geq in refl)
        (λ d h. gives-next_geq c current d (omega arith)) k

  Kept-still : (cs ds : List Cursor) → Kept end current cs ds → Kept end current (c ∷ cs) (c ∷ ds)
  Kept-still cs ds k = Kept-cons end current c c cs ds v refl refl (λ d h. refl) k

  -- A lookup at `current` gives what the cursor has for it.
  lookup_gives :
      (sum : ℕ)
      → (if docid (next_geq c current) == current then sum + score (next_geq c current) else sum)
        ≡ sum + gives current c
  lookup_gives sum =
      let moved = next_geq c current in
      let mv = next_geq-IsValid end c v current in
      let same = gives-next_geq c current current (omega arith) in
      let reached = docid-next_geq end c v current (omega arith) in
      elim (Bool-cases (docid moved == current)) [
        | inl e ↦
            let at : docid moved ≡ current = ground arith in
            let got = gives-current end current moved mv inside at in
            rw e (omega (arith, got, same))
        | inr e ↦
            let passed : current < docid moved = ground arith in
            rw e (omega (arith, same, gives_before end moved mv current passed))
      ]

pub essential_pass-Essential :
    (end current sum next_docid : ℕ) (cs : List Cursor)
    → current < end
    → All (IsValid end) cs
    → All (λ c. current ≤ docid c) cs
    → Essential end current sum next_docid cs (essential_pass current sum next_docid cs)
unfolding essential_pass
essential_pass-Essential end current sum n [] h v a = record {
  kept = Kept-refl end current [] tt;
  scored = unfold doc_score in omega arith;
  least = omega arith;
  above = tt;
  grows = λ k. k;
}
essential_pass-Essential end current sum n (c ∷ cs) h (v, vs) (a, above) =
    elim (Bool-cases (docid c == current)) [
      | inl e ↦
          let at : docid c ≡ current = ground arith in
          let moves = docid-next end c v (omega arith) in
          let n' = if ltb (docid (next c)) n then docid (next c) else n in
          let rest = essential_pass-Essential end current (sum + score c) n' cs h vs above in
          rw e (
            Essential-cons end current sum (sum + score c) n n' c (next c) cs _
              (Kept-next end current c v h cs _ at rest.kept)
              (omega (arith, gives-current end current c v h at)) (ground arith) (ground arith)
              (λ k. ground arith) rest)
      | inr e ↦
          let passed : current < docid c = ground arith in
          let n' = if ltb (docid c) n then docid c else n in
          let rest = essential_pass-Essential end current sum n' cs h vs above in
          rw e (
            Essential-cons end current sum sum n n' c c cs _
              (Kept-still end current c v h cs _ rest.kept)
              (omega (arith, gives_before end c v current passed)) (ground arith) (ground arith)
              (λ k. ground arith) rest)
    ]

pub get_or-calc_upper_bounds :
    (cs : List Cursor) → get_or (calc_upper_bounds cs) 0 0 ≡ total_max_score cs
unfolding calc_upper_bounds total_max_score
get_or-calc_upper_bounds [] = refl
get_or-calc_upper_bounds (c ∷ cs) = omega (arith, get_or-calc_upper_bounds cs)

-- The lookups give the rest of the score of `current`, or show that its score does not enter.
pub record Lookup (q : Topk) (end current sum : ℕ) (cs : List Cursor) (r : Bool × ℕ × List Cursor)
    : Type 0 where
  pub kept : Kept end current cs r.2
  pub scored : r.0 ≡ true → r.1 ≡ sum + doc_score cs current
  pub refused : r.0 ≡ false → would_enter q (sum + doc_score cs current) ≡ false

Lookup-cons :
    (q : Topk) (end current sum sum' : ℕ) (c moved : Cursor) (cs : List Cursor)
    (r : Bool × ℕ × List Cursor)
    → Kept end current (c ∷ cs) (moved ∷ r.2)
    → sum' ≡ sum + gives current c
    → Lookup q end current sum' cs r
    → Lookup q end current sum (c ∷ cs) (r.0, r.1, moved ∷ r.2)
unfolding doc_score
Lookup-cons q end current sum sum' c moved cs r kept s l =
    let same : sum' + sum_over (gives current) cs
        ≡ sum + (gives current c + sum_over (gives current) cs) =
      omega arith in
    record { kept = kept; scored = λ h. l.scored h ∙ same; refused = λ h. rw same at (l.refused h) }

pub lookup_pass-Lookup :
    (q : Topk) (end current sum : ℕ) (cs : List Cursor)
    → current < end
    → All (IsValid end) cs
    → Lookup q end current sum cs (lookup_pass q current sum (calc_upper_bounds cs) cs)
unfolding lookup_pass calc_upper_bounds
lookup_pass-Lookup q end current sum [] h v = record {
  kept = Kept-refl end current [] tt;
  scored = λ k. unfold doc_score in omega arith;
  refused = λ k. cc;
}
lookup_pass-Lookup q end current sum (c ∷ cs) h (v, vs) =
    let bound = get_or (calc_upper_bounds (c ∷ cs)) 0 0 in
    let le = doc_score-le end current (c ∷ cs) (v, vs) h in
    let sum' =
      if docid (next_geq c current) == current then sum + score (next_geq c current) else sum in
    let rest = lookup_pass-Lookup q end current sum' cs h vs in
    elim (Bool-cases (would_enter q (sum + bound))) [
      | inl e ↦
          rw (e, lookup_pass)
            (Lookup-cons q end current sum sum' c (next_geq c current) cs _
              (Kept-next_geq end current c v h cs _ rest.kept) (lookup_gives end current c v h sum)
              rest)
      | inr e ↦
          rw (e, lookup_pass)
            (record {
              kept = Kept-refl end current (c ∷ cs) (v, vs);
              scored = λ k. cc;
              refused = λ k.
                  would_enter_mono q _ _ (omega (arith, le, get_or-calc_upper_bounds (c ∷ cs))) e;
            })
    ]
