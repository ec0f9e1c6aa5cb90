-- ===== src/Ranges/Deadline.antt =====
-- The visit of ranges by falling bound sums with a deadline.
use anytime_daat.Prelude.{
  ℕ, suc, ◌+◌, ◌*◌, ◌≤◌, ◌<◌, ◌≡◌, subst, ltb→lt, ◌⊎◌, refl, sym, ap, ◌∙◌, inl, inr, List, [], ◌∷◌,
  some, All, length, length-Permᴰ, take, true, false, Bool, Option, ◌==◌, Bool-cases, arith,
}
use anytime_daat.Topk.{Topk, would_enter}
use anytime_daat.Topk.Order.{IsSound}
use anytime_daat.Cursor.{Cursor}
use anytime_daat.Ranges.{
  ClusterMap, RangeAlgorithm, RangeEntry, range_and_score, sort_ranges, timeout_loop, too_late,
}
use anytime_daat.Ranges.Spec.{whole_score, Indexed, rank_ranges, Ranks}
use anytime_daat.Ranges.Correct.{visit_range-Continued}
use anytime_daat.Ranges.Order.{
  ids, range_order, IsFalling, Scored, sort_ranges-Permᴰ, Scored-SameLists, length-range_and_score,
}
use anytime_daat.Ranges.Boundsum.{stopped}

-- The elapsed time, with the risk times the mean over `n` ranges, is over the limit: the deadline's
-- rule with its fractions multiplied out; or it is not.
abbrev pub IsLate : ℕ → ℕ → ℕ → ℕ → ℕ → Type 0
IsLate risk scale timeout elapsed n = timeout * n * scale < elapsed * n * scale + risk * elapsed

abbrev pub InTime : ℕ → ℕ → ℕ → ℕ → ℕ → Type 0
InTime risk scale timeout elapsed n = elapsed * n * scale + risk * elapsed ≤ timeout * n * scale

-- A visit with a deadline, where `ranked n` is the queue after `n` of the ranges, and they are `all`:
-- it ends after some number of them. The clock was in time after every number before, one or more;
-- and it is late then, or the queue is the one that all ranges leave.
abbrev pub Timed : (ℕ → Topk) → ℕ → ℕ → ℕ → ℕ → (ℕ → ℕ) → Option Topk → Type 0
Timed ranked all risk scale timeout clock r =
    (n : ℕ) × (r ≡ some (ranked n))
    × (n ≤ all)
    × ((p : ℕ) → 1 ≤ p → p < n → InTime risk scale timeout (clock p) p)
    × (((1 ≤ n) × IsLate risk scale timeout (clock n) n) ⊎ (ranked n ≡ ranked all))

-- The same from `processed` ranges on.
abbrev pub Visits : (ℕ → Topk) → ℕ → ℕ → ℕ → ℕ → (ℕ → ℕ) → ℕ → Option Topk → Type 0
Visits ranked all risk scale timeout clock processed r =
    (n : ℕ) × (r ≡ some (ranked n))
    × (n ≤ all)
    × ((p : ℕ) → 1 ≤ p → processed ≤ p → p < processed + n → InTime risk scale timeout (clock p) p)
    × (((1 ≤ processed + n) × IsLate risk scale timeout (clock (processed + n)) (processed + n))
        ⊎ (ranked n ≡ ranked all))

-- What was read of the clock is what it shows; at first nothing was read.
abbrev pub IsRead : (ℕ → ℕ) → ℕ → ℕ → Type 0
IsRead clock processed elapsed =
    ((1 ≤ processed) × (elapsed ≡ clock processed)) ⊎ ((processed ≡ 0) × (elapsed ≡ 0))

read-IsLate :
    (risk scale timeout : ℕ) (clock : ℕ → ℕ) (processed elapsed : ℕ)
    → IsRead clock processed elapsed
    → too_late risk scale timeout elapsed processed ≡ true
    → (1 ≤ processed) × IsLate risk scale timeout (clock processed) processed
unfolding too_late
read-IsLate risk scale timeout clock processed elapsed (inl (later, e)) h =
    (later, ltb→lt _ _ (rw e at h))
read-IsLate risk scale timeout clock processed elapsed (inr (none_yet, e)) h =
    absurd (ground (arith, rw (none_yet, e) at h))

read-InTime :
    (risk scale timeout : ℕ) (clock : ℕ → ℕ) (processed elapsed : ℕ)
    → IsRead clock processed elapsed
    → too_late risk scale timeout elapsed processed ≡ false
    → 1 ≤ processed
    → InTime risk scale timeout (clock processed) processed
unfolding too_late
read-InTime risk scale timeout clock processed elapsed (inl (later, e)) h some_read =
    ground (arith, rw e at h)
read-InTime risk scale timeout clock processed elapsed (inr (none_yet, e)) h some_read =
    absurd (omega arith)

-- A range before the others.
Visits-next :
    (ranked after : ℕ → Topk) (all risk scale timeout : ℕ) (clock : ℕ → ℕ) (processed : ℕ)
    (o : Option Topk)
    → ((n : ℕ) → after n ≡ ranked (suc n))
    → (1 ≤ processed → InTime risk scale timeout (clock processed) processed)
    → Visits after all risk scale timeout clock (suc processed) o
    → Visits ranked (suc all) risk scale timeout clock processed o
Visits-next ranked after all risk scale timeout clock processed o same early
      (n, runs, le, in_time, ended) =
    let next : suc processed + n ≡ processed + suc n = omega arith in
    (
      suc n,
      runs ∙ ap some (same n),
      omega arith,
      λ p some_read from upto. elim (Bool-cases (p == processed)) [
        | inl k ↦
            let here : p ≡ processed = ground (arith, k) in rw here (early (rw here at some_read))
        | inr k ↦ in_time p some_read (ground (arith, k, from)) (omega arith)
      ],
      elim ended [
        | inl late ↦ inl (subst (λ j. (1 ≤ j) × IsLate risk scale timeout (clock j) j) next late)
        | inr done ↦ inr (sym (same n) ∙ done ∙ same all)
      ],
    )

pub Visits→Timed :
    (ranked : ℕ → Topk) (all risk scale timeout : ℕ) (clock : ℕ → ℕ) (o : Option Topk)
    → Visits ranked all risk scale timeout clock 0 o
    → Timed ranked all risk scale timeout clock o
Visits→Timed ranked all risk scale timeout clock o (n, runs, le, in_time, ended) =
    let same : 0 + n ≡ n = omega arith in
    (
      n,
      runs,
      le,
      λ p some_read upto. in_time p some_read (omega arith) (omega arith),
      elim ended [
        | inl late ↦ inl (subst (λ j. (1 ≤ j) × IsLate risk scale timeout (clock j) j) same late)
        | inr done ↦ inr done
      ],
    )

module _ {Static : Cursor → Type 0} {Ready : ℕ → Cursor → Type 0} {enter : RangeEntry}
    (run : RangeAlgorithm) (ranks : Ranks Static Ready enter run) (m : ClusterMap) where
  -- The visit with a deadline, where the clock is read after every range that is visited.
  pub timeout_loop-Visits :
      (reads : ℕ → List Cursor → Topk → Bool) (risk scale timeout : ℕ) (clock : ℕ → ℕ)
      → ((r : ℕ × ℕ) (cs : List Cursor) (q : Topk)
          → All (Indexed m) cs
          → Scored cs (length m) r
          → would_enter q r.1 ≡ true
          → reads r.0 cs q ≡ true)
      → (processed elapsed : ℕ) (rs : List (ℕ × ℕ)) (cs : List Cursor) (q : Topk)
      → IsRead clock processed elapsed
      → All (Scored cs (length m)) rs
      → IsFalling rs
      → All (Indexed m) cs
      → All Static cs
      → IsSound q
      → Visits
          (λ n. rank_ranges (whole_score cs) m (take n (ids rs)) q)
          (length rs)
          risk
          scale
          timeout
          clock
          processed
          (timeout_loop run enter reads m risk scale timeout clock processed processed elapsed rs cs
            q)
  unfolding timeout_loop
  timeout_loop-Visits reads risk scale timeout clock every processed elapsed [] cs q rd h f ix st
        sound =
      (
        0,
        unfold rank_ranges in refl,
        omega arith,
        λ p some_read from upto. absurd (omega arith),
        inr refl,
      )
  timeout_loop-Visits reads risk scale timeout clock every processed elapsed (r ∷ rs) cs q rd h f ix
        st sound =
      let (s, runs, go) = visit_range-Continued run ranks m false r.0 cs q h.0.0 ix st sound in
      let no_range : rank_ranges (whole_score cs) m [] q ≡ q = unfold rank_ranges in refl in
      let here : processed + 0 ≡ processed = omega arith in
      elim (Bool-cases (too_late risk scale timeout elapsed processed)) [
        | inl late ↦
            rw (late, timeout_loop)
              (
                0,
                unfold rank_ranges in refl,
                omega arith,
                λ p some_read from upto. absurd (omega arith),
                inl (rw here (read-IsLate risk scale timeout clock processed elapsed rd late)),
              )
        | inr early ↦ elim (Bool-cases (would_enter q r.1)) [
          | inr refused ↦
              rw (early, refused, timeout_loop)
                (
                  0,
                  unfold rank_ranges in refl,
                  omega arith,
                  λ p some_read from upto. absurd (omega arith),
                  inr (
                      no_range
                      ∙ sym (stopped run ranks m (suc (length rs)) r rs cs q refused h f ix)),
                )
          | inl enters ↦
              rw (early, enters, timeout_loop)
                (rw (runs, every r cs q ix h.0 enters)
                  (Visits-next (λ n. rank_ranges (whole_score cs) m (take n (ids (r ∷ rs))) q)
                    (λ n. rank_ranges (whole_score s.0) m (take n (ids rs)) s.1) (length rs) risk
                    scale timeout clock processed _
                    (λ n. go.ranks_on (take n (ids rs)) ∙ unfold ids in refl)
                    (read-InTime risk scale timeout clock processed elapsed rd early)
                    (timeout_loop-Visits reads risk scale timeout clock every (suc processed)
                      (clock (suc processed)) rs s.0 s.1 (inl (omega arith, refl))
                      (Scored-SameLists cs s.0 (length m) rs go.same_lists h.1) f.1 go.indexed
                      go.static go.sound)))
        ]
      ]

-- From the start, over the sorted ranges.
pub Visits-all :
    (m : ClusterMap) (cs : List Cursor) (q : Topk) (risk scale timeout : ℕ) (clock : ℕ → ℕ)
    (o : Option Topk)
    → Visits
        (λ n. rank_ranges (whole_score cs) m (take n (range_order cs m)) q)
        (length (sort_ranges (range_and_score cs 0 m)))
        risk
        scale
        timeout
        clock
        0
        o
    → Timed
        (λ n. rank_ranges (whole_score cs) m (take n (range_order cs m)) q)
        (length m)
        risk
        scale
        timeout
        clock
        o
Visits-all m cs q risk scale timeout clock o v =
    Visits→Timed _ (length m) risk scale timeout clock o (
      subst
        (λ k.
          Visits (λ n. rank_ranges (whole_score cs) m (take n (range_order cs m)) q) k risk scale
            timeout clock 0 o)
        all v)
  where
    all : length (sort_ranges (range_and_score cs 0 m)) ≡ length m
    all = length-Permᴰ (sort_ranges-Permᴰ (range_and_score cs 0 m)) ∙ length-range_and_score cs 0 m
