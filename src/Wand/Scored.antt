-- ===== src/Wand/Scored.antt =====
-- A round of the loop that scores the pivot's document.
use native.Mathlib.Nat.{le_trans}
use anytime_daat.Prelude.{
  ℕ, suc, ◌+◌, ◌≤◌, ◌<◌, ◌≡◌, refl, inl, inr, List, [], ◌∷◌, map, Permᴰ, Permᴰ-refl, All, All-mono,
  ◌==◌, true, Bool-cases, arith,
}
use anytime_daat.Cursor.{Cursor, docid, score, next}
use anytime_daat.Cursor.Valid.{
  IsValid, gives, gives_before, gives-docid, gives-next, docid-next, next-IsValid, remaining-next,
}
use anytime_daat.Cursor.Lists.{
  IsSorted, doc_score, doc_score_before, total_remaining, base, base-next, SameLists,
}
use anytime_daat.Wand.{take_scores}

-- What the cursors that gave their scores to `p` are like afterwards.
pub record Taken (end p sum : ℕ) (cs : List Cursor) (r : ℕ × List Cursor) : Type 0 where
  pub scored : r.0 ≡ sum + doc_score cs p
  pub valid : All (IsValid end) r.1
  pub same : SameLists r.1 cs
  pub later : (d : ℕ) → p < d → doc_score r.1 d ≡ doc_score cs d
  pub done : (d : ℕ) → d ≤ p → doc_score r.1 d ≡ 0
  pub fewer : total_remaining r.1 ≤ total_remaining cs

Taken-stop :
    (end p sum : ℕ) (cs : List Cursor)
    → All (IsValid end) cs
    → All (λ c. p < docid c) cs
    → Taken end p sum cs (sum, cs)
Taken-stop end p sum cs v b =
    let none_left = λ (d : ℕ) (h : d ≤ p).
      doc_score_before end d cs v (All-mono (λ c lt. le_trans (s_le h) lt) cs b) in
    record {
      scored = omega (arith, none_left p (omega arith));
      valid = v;
      same = Permᴰ-refl (map base cs);
      later = λ d h. refl;
      done = none_left;
      fewer = omega arith;
    }
  where
    s_le : {d : ℕ} → d ≤ p → suc d ≤ suc p
    s_le h = omega arith

Taken-cons :
    (end p sum : ℕ) (c : Cursor) (cs : List Cursor) (r : ℕ × List Cursor)
    → docid c ≡ p
    → p < end
    → IsValid end c
    → Taken end p (sum + score c) cs r
    → Taken end p sum (c ∷ cs) (r.0, next c ∷ r.1)
unfolding doc_score total_remaining
Taken-cons end p sum c cs r e h v t =
    let inside : docid c < end = omega arith in
    let at_p : gives p c ≡ score c = rw (← e) (gives-docid end c v inside) in
    record {
      scored = omega (arith, t.scored, at_p);
      valid = (next-IsValid end c v, t.valid);
      same = Permᴰ.cons (base-next c) t.same;
      later = λ d k. omega (arith, t.later d k, gives-next c d (omega arith));
      done = λ d k. omega (
        arith,
        t.done d k,
        gives_before end (next c) (next-IsValid end c v) d
            (omega (arith, docid-next end c v inside)),
      );
      fewer = omega (arith, t.fewer, remaining-next end c v inside);
    }

pub take_scores-Taken :
    (end p sum : ℕ) (cs : List Cursor)
    → p < end
    → All (IsValid end) cs
    → IsSorted cs
    → All (λ c. p ≤ docid c) cs
    → Taken end p sum cs (take_scores p sum cs)
unfolding take_scores
take_scores-Taken end p sum [] h v s b = Taken-stop end p sum [] tt tt
take_scores-Taken end p sum (c ∷ cs) h (v, vs) (le, s) (b, bs) = elim (Bool-cases (docid c == p)) [
  | inl e ↦ rw e (
      Taken-cons end p sum c cs _ (ground arith) h v
        (take_scores-Taken end p (sum + score c) cs h vs s bs))
  | inr e ↦
      let lt : p < docid c = ground arith in
      rw e (Taken-stop end p sum (c ∷ cs) (v, vs) (lt, All-mono (λ x k. le_trans lt k) cs le))
]

fewer-cons :
    (end : ℕ) (c : Cursor) (cs ds : List Cursor)
    → IsValid end c
    → docid c < end
    → total_remaining ds ≤ total_remaining cs
    → total_remaining (next c ∷ ds) < total_remaining (c ∷ cs)
unfolding total_remaining
fewer-cons end c cs ds v h k = omega (arith, remaining-next end c v h)

-- The first cursor stands at `p`, so a posting is taken.
pub take_scores_fewer :
    (end p : ℕ) (c : Cursor) (cs : List Cursor)
    → docid c ≡ p
    → p < end
    → All (IsValid end) (c ∷ cs)
    → IsSorted (c ∷ cs)
    → total_remaining (take_scores p 0 (c ∷ cs)).1 < total_remaining (c ∷ cs)
unfolding take_scores
take_scores_fewer end p c cs e h (v, vs) (le, s) =
    let at_p : (docid c == p) ≡ true = ground arith in
    let above = All-mono (λ x (k : docid c ≤ docid x). rw e at k) cs le in
    let t = take_scores-Taken end p (0 + score c) cs h vs s above in
    rw at_p (fewer-cons end c cs _ v (omega arith) t.fewer)
