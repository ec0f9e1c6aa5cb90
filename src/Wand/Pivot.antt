-- ===== src/Wand/Pivot.antt =====
-- What the search for the pivot shows, and what a round does to the scores that are left.
use native.Mathlib.Nat.{le_trans}
use anytime_daat.Prelude.{
  ℕ, ◌+◌, ◌≤◌, ◌<◌, ◌≡◌, inl, inr, List, [], ◌∷◌, Option, none, some, false, All, All-mono, length,
  leb, Bool-cases, arith, tests,
}
use anytime_daat.Topk.{Topk, would_enter}
use anytime_daat.Rank.{would_enter_mono, would_enter-zero}
use anytime_daat.Cursor.{Cursor, docid}
use anytime_daat.Cursor.Valid.{IsValid, gives-le}
use anytime_daat.Cursor.Lists.{IsSorted, doc_score, doc_score_before}
use anytime_daat.Wand.{one_later, find_pivot, docid_at}

-- No document before `d` can enter with `bound` on top of what the cursors have for it.
abbrev pub Refused : Topk → ℕ → ℕ → List Cursor → Type 0
Refused q d bound cs = (x : ℕ) → x < d → would_enter q (bound + doc_score cs x) ≡ false

-- What holds of the answer of find_pivot.
abbrev pub PivotOk : Topk → ℕ → ℕ → List Cursor → Option ℕ → Type 0
PivotOk q end bound cs none = Refused q end bound cs
PivotOk q end bound cs (some i) =
    (i < length cs) × (docid_at cs i < end) × Refused q (docid_at cs i) bound cs

-- Before the first cursor nothing is added to `bound`.
Refused-first :
    (q : Topk) (end d bound : ℕ) (c : Cursor) (cs : List Cursor)
    → All (IsValid end) (c ∷ cs)
    → IsSorted (c ∷ cs)
    → d ≤ docid c
    → would_enter q bound ≡ false
    → Refused q d bound (c ∷ cs)
Refused-first q end d bound c cs v (h, s) k r = λ x lt.
    let below : x < docid c = omega arith in
    let none_left =
      doc_score_before end x (c ∷ cs) v (below, All-mono (λ e le. le_trans below le) cs h) in
    would_enter_mono q _ bound (omega (arith, none_left)) r

-- A cursor adds its maximum score at most.
Refused-cons :
    (q : Topk) (end d bound : ℕ) (c : Cursor) (cs : List Cursor)
    → IsValid end c
    → d ≤ end
    → Refused q d (bound + c.max_score) cs
    → Refused q d bound (c ∷ cs)
unfolding doc_score
Refused-cons q end d bound c cs v k r =
    λ x lt. would_enter_mono q _ _ (omega (arith, gives-le end c v x (omega arith))) (r x lt)

PivotOk-cons :
    (q : Topk) (end bound : ℕ) (c : Cursor) (cs : List Cursor) (o : Option ℕ)
    → IsValid end c
    → PivotOk q end (bound + c.max_score) cs o
    → PivotOk q end bound (c ∷ cs) (one_later o)
unfolding docid_at
PivotOk-cons q end bound c cs none v r = Refused-cons q end end bound c cs v (omega arith) r
PivotOk-cons q end bound c cs (some i) v (k, h, r) =
    (omega arith, h, Refused-cons q end (docid_at cs i) bound c cs v (omega arith) r)

find_pivot-ok :
    (q : Topk) (end bound : ℕ) (cs : List Cursor)
    → All (IsValid end) cs
    → IsSorted cs
    → would_enter q bound ≡ false
    → PivotOk q end bound cs (find_pivot q end bound cs)
unfolding find_pivot docid_at
find_pivot-ok q end bound [] v s r =
    λ x h. would_enter_mono q _ bound (unfold doc_score in omega arith) r
find_pivot-ok q end bound (c ∷ cs) (v, vs) (h, s) r = elim (Bool-cases (leb end (docid c))) [
  | inl p ↦ rw p (Refused-first q end end bound c cs (v, vs) (h, s) (omega tests) r)
  | inr p ↦ elim (Bool-cases (would_enter q (bound + c.max_score))) [
    | inl e ↦
        rw (p, e)
          (
            omega arith,
            ground arith,
            Refused-first q end (docid c) bound c cs (v, vs) (h, s) (omega arith) r,
          )
    | inr e ↦
        rw (p, e)
          (PivotOk-cons q end bound c cs _ v (find_pivot-ok q end (bound + c.max_score) cs vs s e))
  ]
]

-- With a pivot found, no document before it can enter; with none, no document of the range.
pub find_pivot-PivotOk :
    (q : Topk) (end : ℕ) (cs : List Cursor)
    → All (IsValid end) cs
    → IsSorted cs
    → PivotOk q end 0 cs (find_pivot q end 0 cs)
find_pivot-PivotOk q end cs v s = find_pivot-ok q end 0 cs v s (would_enter-zero q)
