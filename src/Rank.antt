-- ===== src/Rank.antt =====
-- The specification of ranked retrieval: every document of a range is offered to the queue, in
-- the order of the documents, with its whole score.
pub mod Offers
pub mod Within
use anytime_daat.Prelude.{ℕ, zero, suc, ◌+◌, ◌-◌, ◌≤◌, ◌<◌, ◌≡◌, refl, sym, ◌∙◌, ap, false, arith}
use native.Mathlib.Decide.{dec_le}
use anytime_daat.Topk.{Topk, would_enter, insert}
use anytime_daat.Topk.Order.{IsSound}
use anytime_daat.Topk.Insert.{insert-Entered}

-- The `n` documents from `lo` on.
unfoldable pub rank_from : (ℕ → ℕ) → ℕ → ℕ → Topk → Topk
rank_from f zero lo q = q
rank_from f (suc n) lo q = rank_from f n (suc lo) (insert q (f lo) lo)

-- The documents from `lo` up to `hi`, without it.
unfoldable pub rank : (ℕ → ℕ) → ℕ → ℕ → Topk → Topk
unfolding rank_from
rank f lo hi q = rank_from f (hi - lo) lo q

pub insert_refused : (q : Topk) (s d : ℕ) → would_enter q s ≡ false → insert q s d ≡ q
unfolding insert
insert_refused q s d h = rw (h, insert)

pub would_enter-zero : (q : Topk) → would_enter q 0 ≡ false
unfolding would_enter
would_enter-zero q = ground arith

-- What is below a score that does not enter does not enter.
pub would_enter_mono :
    (q : Topk) (s t : ℕ) → s ≤ t → would_enter q t ≡ false → would_enter q s ≡ false
unfolding would_enter
would_enter_mono q s t h k = ground arith

rank_from_skip :
    (f : ℕ → ℕ) (n m k lo mid : ℕ) (q : Topk)
    → k ≡ n + m
    → mid ≡ lo + n
    → ((d : ℕ) → lo ≤ d → d < mid → would_enter q (f d) ≡ false)
    → rank_from f k lo q ≡ rank_from f m mid q
unfolding rank_from
rank_from_skip f zero m k lo mid q e g h =
    let e' : k ≡ m = omega arith in let g' : mid ≡ lo = omega arith in cc
rank_from_skip f (suc n) m zero lo mid q e g h = absurd (omega arith)
rank_from_skip f (suc n) m (suc k) lo mid q e g h =
    ap (rank_from f k (suc lo)) (insert_refused q (f lo) lo (h lo (omega arith) (omega arith)))
    ∙ rank_from_skip f n m k (suc lo) mid q (omega arith) (omega arith)
        (λ d a b. h d (omega arith) b)

rank_from_cong :
    (f g : ℕ → ℕ) (n lo hi : ℕ) (q : Topk)
    → hi ≡ lo + n
    → ((d : ℕ) → lo ≤ d → d < hi → f d ≡ g d)
    → rank_from f n lo q ≡ rank_from g n lo q
unfolding rank_from
rank_from_cong f g zero lo hi q e h = refl
rank_from_cong f g (suc n) lo hi q e h =
    ap (λ s. rank_from f n (suc lo) (insert q s lo)) (h lo (omega arith) (omega arith))
    ∙ rank_from_cong f g n (suc lo) hi (insert q (g lo) lo) (omega arith)
        (λ d a b. h d (omega arith) b)

module _ (f : ℕ → ℕ) (lo hi : ℕ) (q : Topk) where
  -- Documents that do not enter can be left out at the start.
  pub rank_skip :
      (mid : ℕ)
      → lo ≤ mid
      → mid ≤ hi
      → ((d : ℕ) → lo ≤ d → d < mid → would_enter q (f d) ≡ false)
      → rank f lo hi q ≡ rank f mid hi q
  unfolding rank
  rank_skip mid a b h =
      rank_from_skip f (mid - lo) (hi - mid) (hi - lo) lo mid q (omega arith) (omega arith) h

  pub rank_none :
      lo ≤ hi → ((d : ℕ) → lo ≤ d → d < hi → would_enter q (f d) ≡ false) → rank f lo hi q ≡ q
  unfolding rank rank_from
  rank_none a h = rank_from_skip f (hi - lo) 0 (hi - lo) lo hi q (omega arith) (omega arith) h

  pub rank_step : lo < hi → rank f lo hi q ≡ rank f (suc lo) hi (insert q (f lo) lo)
  unfolding rank
  rank_step h = let e : hi - lo ≡ suc (hi - suc lo) = omega arith in rw e (unfold rank_from in refl)

  pub rank_cong :
      (g : ℕ → ℕ) → ((d : ℕ) → lo ≤ d → d < hi → f d ≡ g d) → rank f lo hi q ≡ rank g lo hi q
  unfolding rank
  rank_cong g h = elim (dec_le lo hi) [
    | yes p ↦ rank_from_cong f g (hi - lo) lo hi q (omega arith) h
    | no p ↦ let e : hi - lo ≡ 0 = omega arith in rw e (unfold rank_from in refl)
  ]

  pub rank_empty : hi ≤ lo → rank f lo hi q ≡ q
  unfolding rank
  rank_empty h = let e : hi - lo ≡ 0 = omega arith in rw e (unfold rank_from in refl)

  -- A range of which nothing enters, in whatever order its ends stand.
  pub rank_refused : ((d : ℕ) → lo ≤ d → d < hi → would_enter q (f d) ≡ false) → rank f lo hi q ≡ q
  rank_refused h = elim (dec_le lo hi) [
    | yes le ↦ rank_none le h
    | no gt ↦ rank_empty (omega arith)
  ]

rank_from-IsSound : (f : ℕ → ℕ) (n lo : ℕ) (q : Topk) → IsSound q → IsSound (rank_from f n lo q)
unfolding rank_from
rank_from-IsSound f zero lo q v = v
rank_from-IsSound f (suc n) lo q v =
    rank_from-IsSound f n (suc lo) (insert q (f lo) lo) (insert-Entered q (f lo) lo v).sound

pub rank-IsSound : (f : ℕ → ℕ) (lo hi : ℕ) (q : Topk) → IsSound q → IsSound (rank f lo hi q)
unfolding rank
rank-IsSound f lo hi q v = rank_from-IsSound f (hi - lo) lo q v

-- One document `p` is the next that matters: the documents before it do not enter, and those
-- after it are ranked from the state that its insert leaves, by scores `g` that no longer count
-- the documents up to `p`.
pub rank_visit :
    (f g : ℕ → ℕ) (p hi : ℕ) (q : Topk)
    → p < hi
    → ((d : ℕ) → d < p → would_enter q (f d) ≡ false)
    → ((d : ℕ) → p < d → f d ≡ g d)
    → ((d : ℕ) → d ≤ p → g d ≡ 0)
    → rank f 0 hi q ≡ rank g 0 hi (insert q (f p) p)
rank_visit f g p hi q h before after none =
    rank_skip f 0 hi q p (omega arith) (omega arith) (λ d a b. before d b)
    ∙ rank_step f p hi q h
    ∙ rank_cong f (suc p) hi (insert q (f p) p) g (λ d a b. after d a)
    ∙ sym (
        rank_skip g 0 hi (insert q (f p) p) (suc p) (omega arith) h
          (λ d a b. rw (none d (omega arith)) (would_enter-zero _)))
