-- ===== src/BlockMaxWand/Scores.antt =====
-- The document of the pivot: what its evaluation offers, and how the cursors advance.
use native.Mathlib.Nat.{le_trans}
use anytime_daat.Prelude.{
  ℕ, zero, suc, ◌+◌, ◌-◌, ◌≤◌, ◌<◌, ◌≡◌, ◌⊎◌, refl, sym, ap, ◌∙◌, inl, inr, List, [], ◌∷◌, true,
  false, All, All-mono, take, drop, sum_over, ◌==◌, Bool-cases, arith, if◌then◌else◌,
}
use anytime_daat.Topk.{Topk, would_enter, insert}
use anytime_daat.Rank.{would_enter_mono, insert_refused}
use anytime_daat.Cursor.{Cursor, docid, score, next}
use anytime_daat.Cursor.Valid.{IsValid, gives, gives-docid}
use anytime_daat.Cursor.Lists.{IsSorted, doc_score, doc_score_before}
use anytime_daat.Wand.{take_scores}
use anytime_daat.BlockMaxWand.{block_weight, block_upper_bound, block_scores, next_all}

-- The advance of WAND, without its scores.
pub next_all-take_scores : (p sum : ℕ) (cs : List Cursor) → next_all p cs ≡ (take_scores p sum cs).1
unfolding next_all take_scores
next_all-take_scores p sum [] = refl
next_all-take_scores p sum (c ∷ cs) = elim (Bool-cases (docid c == p)) [
  | inl e ↦ rw e (ap (◌∷◌ (next c)) (next_all-take_scores p (sum + score c) cs))
  | inr e ↦ rw e refl
]

-- The weights of the cursors at `p`, which stand first.
pub weights_at : ℕ → List Cursor → ℕ
weights_at p [] = 0
weights_at p (c ∷ cs) =
    let rest = weights_at p cs in if docid c == p then block_weight c + rest else 0

pub weights_at-take :
    (p n : ℕ) (cs : List Cursor)
    → IsSorted cs
    → All (λ c. p < docid c) (drop n cs)
    → weights_at p cs ≤ block_upper_bound (take n cs)
unfolding weights_at block_upper_bound
weights_at-take p zero [] s h = omega arith
weights_at-take p zero (c ∷ cs) s h = let lt = h.0 in ground arith
weights_at-take p (suc n) [] s h = omega arith
weights_at-take p (suc n) (c ∷ cs) s h = ground (arith, weights_at-take p n cs s.1 h)

-- Of a document that the cursors have passed, or of the cursor's own.
module _ (end p : ℕ) (inside : p < end) where
  gives-at : (c : Cursor) → IsValid end c → (docid c == p) ≡ true → gives p c ≡ score c
  gives-at c v e =
      let at : docid c ≡ p = ground (arith, e) in rw (← at) (gives-docid end c v (omega arith))

  past :
      (c : Cursor) (cs : List Cursor)
      → All (IsValid end) (c ∷ cs)
      → IsSorted (c ∷ cs)
      → p ≤ docid c
      → (docid c == p) ≡ false
      → doc_score (c ∷ cs) p ≡ 0
  past c cs v s h e =
      let lt : p < docid c = ground (arith, e, h) in
      doc_score_before end p (c ∷ cs) v (lt, All-mono (λ x k. le_trans lt k) cs s.0)

  block_scores-le :
      (q : Topk) (sum bound : ℕ) (cs : List Cursor)
      → All (IsValid end) cs
      → block_scores q p sum bound cs ≤ sum + doc_score cs p
  unfolding block_scores doc_score
  block_scores-le q sum bound [] v = omega arith
  block_scores-le q sum bound (c ∷ cs) v = elim (Bool-cases (docid c == p)) [
    | inr e ↦ rw e (omega arith)
    | inl e ↦
        let bound' = bound + score c - block_weight c in
        let at = gives-at c v.0 e in
        elim (Bool-cases (would_enter q bound')) [
          | inl enters ↦
              rw (e, enters) (omega (arith, at, block_scores-le q (sum + score c) bound' cs v.1))
          | inr refused ↦ rw (e, refused) (omega (arith, at))
        ]
  ]

  doc_score-weights_at :
      (cs : List Cursor)
      → All (IsValid end) cs
      → IsSorted cs
      → All (λ c. p ≤ docid c) cs
      → All (λ c. gives p c ≤ block_weight c) cs
      → doc_score cs p ≤ weights_at p cs
  unfolding weights_at doc_score
  doc_score-weights_at [] v s h w = omega arith
  doc_score-weights_at (c ∷ cs) v s h w = elim (Bool-cases (docid c == p)) [
    | inr e ↦
        let none_left : gives p c + sum_over (gives p) cs ≡ 0 = past c cs v s h.0 e in
        rw e (omega (arith, none_left))
    | inl e ↦ rw e (omega (arith, w.0, doc_score-weights_at cs v.1 s.1 h.1 w.1))
  ]

  -- Where the weights bound the scores, the evaluation ends early only at a document that cannot
  -- enter.
  block_scores-eq :
      (q : Topk) (sum bound : ℕ) (cs : List Cursor)
      → All (IsValid end) cs
      → IsSorted cs
      → All (λ c. p ≤ docid c) cs
      → All (λ c. gives p c ≤ block_weight c) cs
      → sum + weights_at p cs ≤ bound
      → (block_scores q p sum bound cs ≡ sum + doc_score cs p)
        ⊎ (would_enter q (sum + doc_score cs p) ≡ false)
  unfolding block_scores weights_at
  block_scores-eq q sum bound [] v s h w b = inl (unfold doc_score in omega arith)
  block_scores-eq q sum bound (c ∷ cs) v s h w b = elim (Bool-cases (docid c == p)) [
    | inr e ↦ rw e (inl (omega (arith, past c cs v s h.0 e)))
    | inl e ↦
        let bound' = bound + score c - block_weight c in
        let at = gives-at c v.0 e in
        let total : doc_score (c ∷ cs) p ≡ score c + doc_score cs p =
          unfold doc_score in omega (arith, at) in
        let within : sum + score c + weights_at p cs ≤ bound' = omega (arith, rw e at b) in
        elim (Bool-cases (would_enter q bound')) [
          | inl enters ↦
              rw (e, enters)
                (elim (block_scores-eq q (sum + score c) bound' cs v.1 s.1 h.1 w.1 within) [
                  | inl same ↦ inl (omega (arith, total, same))
                  | inr no_entry ↦
                      let sums : sum + score c + doc_score cs p ≡ sum + doc_score (c ∷ cs) p =
                        omega (arith, total) in
                      inr (rw sums at no_entry)
                ])
          | inr refused ↦
              let rest = doc_score-weights_at cs v.1 s.1 h.1 w.1 in
              rw (e, refused)
                (inr (would_enter_mono q _ bound' (omega (arith, total, rest, within)) refused))
        ]
  ]

  -- So the queue takes what the whole score would bring it.
  pub insert-block_scores :
      (q : Topk) (bound : ℕ) (cs : List Cursor)
      → All (IsValid end) cs
      → IsSorted cs
      → All (λ c. p ≤ docid c) cs
      → (would_enter q (doc_score cs p) ≡ true → All (λ c. gives p c ≤ block_weight c) cs)
      → weights_at p cs ≤ bound
      → insert q (block_scores q p 0 bound cs) p ≡ insert q (doc_score cs p) p
  insert-block_scores q bound cs v s h w b = elim (Bool-cases (would_enter q (doc_score cs p))) [
    | inr refused ↦
        let partial = would_enter_mono q _ _ (block_scores-le q 0 bound cs v) in
        insert_refused q _ p (partial (rw zero_sum refused)) ∙ sym (insert_refused q _ p refused)
    | inl yes_enters ↦ elim (block_scores-eq q 0 bound cs v s h (w yes_enters) (omega arith)) [
      | inl same ↦ ap (λ x. insert q x p) (omega (arith, same))
      | inr refused ↦ absurd (clash (rw zero_sum at refused) yes_enters)
    ]
  ]
    where
      zero_sum : 0 + doc_score cs p ≡ doc_score cs p
      zero_sum = omega arith

      clash : would_enter q (doc_score cs p) ≡ false → would_enter q (doc_score cs p) ≡ true → ⊥
      clash a b = cc
