-- ===== src/BlockMaxWand/Pivot.antt =====
-- The extended pivot, and the documents that a skip leaves out.
use native.Mathlib.Nat.{le_trans}
use anytime_daat.Prelude.{
  ℕ, zero, suc, ◌≤◌, ◌<◌, ◌≡◌, refl, ap, inl, inr, List, [], ◌∷◌, true, false, All, All-mono,
  length, take, drop, take-append-drop, sum_over, sum_over-append, sum_over_mono, ltb, ◌==◌,
  Bool-cases, arith, if◌then◌else◌,
}
use native.Mathlib.Decide.{ℕ_discrete}
use anytime_daat.Topk.{Topk, would_enter}
use anytime_daat.Rank.{would_enter_mono}
use anytime_daat.Cursor.{Cursor, docid, block_max_docid}
use anytime_daat.Cursor.Valid.{IsValid, gives}
use anytime_daat.Cursor.Lists.{IsSorted, doc_score, doc_score_before}
use anytime_daat.Wand.{docid_at}
use anytime_daat.BlockMaxWand.{
  same_docs, extend_pivot, block_weight, block_upper_bound, least_block_docid, up_to_docid, skip_to,
}
use anytime_daat.BlockMaxWand.Blocks.{Blocked, gives-block_weight}

-- The last of the cursors at the pivot's document `p`.
abbrev pub LastAt : ℕ → List Cursor → ℕ → Type 0
LastAt p cs n = (n < length cs) × (docid_at cs n ≡ p) × All (λ c. p < docid c) (drop (suc n) cs)

same_docs-LastAt :
    (p : ℕ) (c : Cursor) (cs : List Cursor)
    → docid c ≡ p
    → IsSorted cs
    → All (λ e. p ≤ docid e) cs
    → LastAt p (c ∷ cs) (same_docs p cs)
unfolding same_docs docid_at
same_docs-LastAt p c [] e s h = (omega arith, e, tt)
same_docs-LastAt p c (x ∷ xs) e (le, s) (h, hs) = elim (Bool-cases (docid x == p)) [
  | inl at ↦
      let (inside, last, behind) = same_docs-LastAt p x xs (ground (arith, at)) s hs in
      rw at (omega arith, last, behind)
  | inr past ↦
      let lt : p < docid x = ground (arith, past) in
      rw past (omega arith, e, (lt, All-mono (λ y k. le_trans lt k) xs le))
]

pub extend_pivot-LastAt :
    (cs : List Cursor) (i : ℕ)
    → IsSorted cs
    → i < length cs
    → LastAt (docid_at cs i) cs (extend_pivot cs i)
unfolding extend_pivot docid_at
extend_pivot-LastAt [] i s h = absurd (omega arith)
extend_pivot-LastAt (c ∷ cs) zero s h = same_docs-LastAt (docid c) c cs refl s.1 s.0
extend_pivot-LastAt (c ∷ cs) (suc i) s h =
    let (inside, last, behind) = extend_pivot-LastAt cs i s.1 (omega arith) in
    (omega arith, last, behind)

pub least_block_docid-le :
    (n : ℕ) (cs : List Cursor)
    → (least_block_docid n cs ≤ n) × All (λ c. least_block_docid n cs ≤ block_max_docid c) cs
unfolding least_block_docid
least_block_docid-le n [] = (omega arith, tt)
least_block_docid-le n (c ∷ cs) =
    let n' = if ltb (block_max_docid c) n then block_max_docid c else n in
    let (le, rest) = least_block_docid-le n' cs in
    let first : (n' ≤ n) × (n' ≤ block_max_docid c) = ground arith in
    (le_trans le first.0, (le_trans le first.1, rest))

up_to_docid-le :
    (n : ℕ) (cs : List Cursor)
    → IsSorted cs
    → (up_to_docid n cs ≤ n) × All (λ c. up_to_docid n cs ≤ docid c) cs
unfolding up_to_docid
up_to_docid-le n [] s = (omega arith, tt)
up_to_docid-le n (c ∷ cs) s =
    let first : (up_to_docid n (c ∷ cs) ≤ n) × (up_to_docid n (c ∷ cs) ≤ docid c) = ground arith in
    (first.0, (first.1, All-mono (λ x k. le_trans first.1 k) cs s.0))

pub skip_to-lt : (end p : ℕ) (front back : List Cursor) → p < skip_to end p front back
unfolding skip_to
skip_to-lt end p front back = ground arith

-- Between the pivot and the document of the skip, the blocks reach and no further cursor stands.
skip_to_between :
    (end p d : ℕ) (front back : List Cursor)
    → IsSorted back
    → p < d
    → d < skip_to end p front back
    → All (λ c. d ≤ block_max_docid c) front × All (λ c. d < docid c) back
unfolding skip_to
skip_to_between end p d front back s h k =
    let least = least_block_docid-le end front in
    let upto = up_to_docid-le (suc (least_block_docid end front)) back s in
    let lt : d < up_to_docid (suc (least_block_docid end front)) back = ground (arith, h, k) in
    (
      All-mono (λ c le. omega (arith, upto.0, lt)) front least.1,
      All-mono (λ c le. le_trans lt le) back upto.1,
    )

drop-IsSorted : (n : ℕ) (cs : List Cursor) → IsSorted cs → IsSorted (drop n cs)
drop-IsSorted zero cs s = s
drop-IsSorted (suc n) [] s = tt
drop-IsSorted (suc n) (c ∷ cs) s = drop-IsSorted n cs s.1

All-drop : (Q : Cursor → Type 0) (n : ℕ) (cs : List Cursor) → All Q cs → All Q (drop n cs)
All-drop Q zero cs h = h
All-drop Q (suc n) [] h = tt
All-drop Q (suc n) (c ∷ cs) h = All-drop Q n cs h.1

All-take : (Q : Cursor → Type 0) (n : ℕ) (cs : List Cursor) → All Q cs → All Q (take n cs)
All-take Q zero cs h = tt
All-take Q (suc n) [] h = tt
All-take Q (suc n) (c ∷ cs) h = (h.0, All-take Q n cs h.1)

-- A document at which no cursor behind the first `n` stands scores what these weigh at most.
pub doc_score-block_upper_bound :
    (end d n : ℕ) (cs : List Cursor)
    → All (IsValid end) cs
    → All (λ c. gives d c ≤ block_weight c) (take n cs)
    → All (λ c. d < docid c) (drop n cs)
    → doc_score cs d ≤ block_upper_bound (take n cs)
unfolding block_upper_bound doc_score
doc_score-block_upper_bound end d n cs v h b =
    let none_behind : sum_over (gives d) (drop n cs) ≡ 0 =
      doc_score_before end d (drop n cs) (All-drop (IsValid end) n cs v) b in
    let split = ap (sum_over (gives d)) (take-append-drop n cs) in
    omega (
      arith,
      none_behind,
      split,
      sum_over-append (gives d) (take n cs) (drop n cs),
      sum_over_mono (gives d) block_weight (take n cs) h,
    )

-- What can still enter.
abbrev pub Enters : Topk → List Cursor → ℕ → Type 0
Enters q cs d = would_enter q (doc_score cs d) ≡ true

-- With a bound that does not enter, no document before that of the skip can enter.
pub skip_to-refused :
    (end p n d : ℕ) (cs : List Cursor) (q : Topk)
    → All (IsValid end) cs
    → IsSorted cs
    → All (Blocked (Enters q cs)) cs
    → (Enters q cs p → All (λ c. gives p c ≤ block_weight c) (take n cs))
    → All (λ c. p < docid c) (drop n cs)
    → would_enter q (block_upper_bound (take n cs)) ≡ false
    → p ≤ d
    → d < skip_to end p (take n cs) (drop n cs)
    → would_enter q (doc_score cs d) ≡ false
skip_to-refused end p n d cs q v s b at behind r h k =
    elim (Bool-cases (would_enter q (doc_score cs d))) [
      | inr refused ↦ refused
      | inl enters ↦ elim (ℕ_discrete p d) [
        | yes e ↦
            let here = doc_score-block_upper_bound end p n cs v (at (rw e enters)) behind in
            would_enter_mono q _ _ (rw (← e) here) r
        | no ne ↦
            let (reach, before) =
              skip_to_between end p d (take n cs) (drop n cs) (drop-IsSorted n cs s)
                (omega (arith, h, ne)) k in
            would_enter_mono q _ _
              (doc_score-block_upper_bound end d n cs v
                (weights d enters (take n cs) (All-take _ n cs b) reach) before)
              r
      ]
    ]
  where
    weights :
        (d : ℕ)
        → Enters q cs d
        → (xs : List Cursor) → All (Blocked (Enters q cs)) xs
        → All (λ c. d ≤ block_max_docid c) xs
        → All (λ c. gives d c ≤ block_weight c) xs
    weights d e [] b h = tt
    weights d e (x ∷ xs) b h =
        (gives-block_weight (Enters q cs) x d b.0 e h.0, weights d e xs b.1 h.1)
