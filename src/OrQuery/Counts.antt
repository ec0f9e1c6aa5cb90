-- ===== src/OrQuery/Counts.antt =====
-- The documents of a range that some list holds, counted.
use anytime_daat.Prelude.{
  ℕ, zero, suc, ◌+◌, ◌≤◌, ◌<◌, ◌≡◌, refl, List, sum_over, ltb, arith, if◌then◌else◌,
}
use anytime_daat.Cursor.{Cursor}
use anytime_daat.Cursor.Postings.{contribution}

-- Whether the postings that a cursor has left hold the document: 1 or 0, and for how many of the
-- cursors.
unfoldable pub holds : ℕ → Cursor → ℕ
holds d c = contribution (λ _ _. 1) d c.rest

unfoldable pub held_by : List Cursor → ℕ → ℕ
held_by cs d = sum_over (holds d) cs

-- How many of the `n` documents from `lo` on have a value of 1 at least.
unfoldable pub count_from : (ℕ → ℕ) → ℕ → ℕ → ℕ
count_from f zero lo = 0
count_from f (suc n) lo = (if ltb 0 (f lo) then 1 else 0) + count_from f n (suc lo)

-- Documents without one can be left out at the start, and what follows can be counted by other
-- values that agree.
pub count_from_skip :
    (f g : ℕ → ℕ) (n m k lo mid hi : ℕ)
    → k ≡ n + m
    → mid ≡ lo + n
    → hi ≡ lo + k
    → ((d : ℕ) → lo ≤ d → d < mid → f d ≡ 0)
    → ((d : ℕ) → mid ≤ d → d < hi → f d ≡ g d)
    → count_from f k lo ≡ count_from g m mid
unfolding count_from
count_from_skip f g zero zero zero lo mid hi e1 e2 e3 h same = refl
count_from_skip f g zero zero (suc k) lo mid hi e1 e2 e3 h same = absurd (omega arith)
count_from_skip f g zero (suc m) zero lo mid hi e1 e2 e3 h same = absurd (omega arith)
count_from_skip f g zero (suc m) (suc k) lo mid hi e1 e2 e3 h same =
    let at : lo ≡ mid = omega arith in
    let here : f lo ≡ g mid = rw at (same mid (omega arith) (omega arith)) in
    let rest =
      count_from_skip f g zero m k (suc lo) (suc mid) hi (omega arith) (omega arith) (omega arith)
        (λ d a b. absurd (omega arith)) (λ d a b. same d (omega arith) b) in
    rw (here, rest)
count_from_skip f g (suc n) m zero lo mid hi e1 e2 e3 h same = absurd (omega arith)
count_from_skip f g (suc n) m (suc k) lo mid hi e1 e2 e3 h same =
    let none_here : f lo ≡ 0 = h lo (omega arith) (omega arith) in
    let rest =
      count_from_skip f g n m k (suc lo) mid hi (omega arith) (omega arith) (omega arith)
        (λ d a b. h d (omega arith) b) same in
    ground (arith, none_here, rest)
