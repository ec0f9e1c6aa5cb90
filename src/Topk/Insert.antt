-- ===== src/Topk/Insert.antt =====
-- The insert keeps the queue sound, and the threshold never falls.
use native.Mathlib.Decide.{dec_lt, ℕ_discrete}
use anytime_daat.Prelude.{
  ℕ, suc, ◌≤◌, ◌<◌, ◌≡◌, refl, ap, subst, inl, inr, List, [], ◌∷◌, true, false, All, length, leb,
  ◌==◌, Bool-cases, arith,
}
use anytime_daat.Topk.{
  Entry, Topk, topk_queue, would_enter, push_heap, replace_front, front_score, enter, insert,
}
use anytime_daat.Topk.Order.{
  IsRising, IsSound, push_heap-above, push_heap-IsRising, length-push_heap, front_score-least,
  le-front_score, front_score_self,
}

pub non_empty : (es : List Entry) → 0 < length es → (x : Entry) × (xs : List Entry) × (es ≡ x ∷ xs)
non_empty [] h = absurd (omega arith)
non_empty (x ∷ xs) h = (x, xs, refl)

-- What an insert that enters leaves behind.
pub record Entered (q r : Topk) : Type 0 where
  pub sound : IsSound r
  pub grows : q.threshold ≤ r.threshold
  pub same_k : r.k ≡ q.k

module _ (q : Topk) (s d : ℕ) where
  abbrev item : Entry
  item = record { score = s; docid = d }

  abbrev grown : List Entry
  grown = push_heap item q.entries

  -- The three ways in: with room left, into the last place, and in place of the front.
  pub enter_room :
      suc (length q.entries) < q.k
      → enter q s d ≡ record q { entries = push_heap (record { score = s; docid = d }) q.entries }
  unfolding enter
  enter_room h =
      let fits : leb (suc (length q.entries)) q.k ≡ true = ground arith in
      let room : (suc (length q.entries) == q.k) ≡ false = ground arith in rw fits (rw room)

  pub enter_last :
      suc (length q.entries) ≡ q.k
      → enter q s d ≡ record q {
        threshold = front_score (push_heap (record { score = s; docid = d }) q.entries) q.threshold;
        entries = push_heap (record { score = s; docid = d }) q.entries;
      }
  unfolding enter
  enter_last h =
      let fits : leb (suc (length q.entries)) q.k ≡ true = ground arith in
      let last : (suc (length q.entries) == q.k) ≡ true = ground arith in rw fits (rw last)

  pub enter_full :
      (x : Entry) (xs : List Entry)
      → q.entries ≡ x ∷ xs
      → q.k ≤ length q.entries
      → enter q s d ≡ record q {
        threshold = front_score (push_heap (record { score = s; docid = d }) xs) q.threshold;
        entries = push_heap (record { score = s; docid = d }) xs;
      }
  unfolding enter replace_front
  enter_full x xs e h =
      let fits : leb (suc (length q.entries)) q.k ≡ false = ground arith in rw fits (rw e)

  module _ (v : IsSound q) (h : q.threshold < s) where
    abbrev raised : List Entry → Topk
    raised es = record q { threshold = front_score es q.threshold; entries = es }

    -- A full queue whose threshold is its front is sound.
    raised-Entered :
        (es : List Entry)
        → IsRising es
        → All (λ e. q.threshold ≤ e.score) es
        → length es ≤ q.k
        → Entered q (raised es)
    raised-Entered es rising above size = record {
      sound = record {
        positive = v.positive;
        rising = rising;
        above = front_score-least q.threshold es rising;
        size = size;
        full = λ e. front_score_self q.threshold es;
      };
      grows = le-front_score q.threshold es above;
      same_k = refl;
    }

    room-Entered : suc (length q.entries) < q.k → Entered q (record q { entries = grown })
    room-Entered room = record {
      sound = record {
        positive = v.positive;
        rising = push_heap-IsRising item q.entries v.rising;
        above = push_heap-above q.threshold item q.entries (omega arith) v.above;
        size = omega (arith, length-push_heap item q.entries);
        full = λ e. absurd (omega (arith, length-push_heap item q.entries));
      };
      grows = omega arith;
      same_k = refl;
    }

    last-Entered : suc (length q.entries) ≡ q.k → Entered q (raised grown)
    last-Entered last =
        raised-Entered grown (push_heap-IsRising item q.entries v.rising)
          (push_heap-above q.threshold item q.entries (omega arith) v.above)
          (omega (arith, length-push_heap item q.entries))

    full-Entered :
        (x : Entry) (xs : List Entry) → q.entries ≡ x ∷ xs → Entered q (raised (push_heap item xs))
    full-Entered x xs e =
        let rising : IsRising (x ∷ xs) = subst IsRising e v.rising in
        let above = subst (All (λ y. q.threshold ≤ y.score)) e v.above in
        raised-Entered (push_heap item xs) (push_heap-IsRising item xs rising.1)
          (push_heap-above q.threshold item xs (omega arith) above.1)
          (omega (arith, length-push_heap item xs, ap length e, v.size))

    pub enter-Entered : Entered q (enter q s d)
    enter-Entered = elim (dec_lt (suc (length q.entries)) q.k) [
      | yes room ↦ rw (enter_room room) (room-Entered room)
      | no crowded ↦ elim (ℕ_discrete (suc (length q.entries)) q.k) [
        | yes last ↦ rw (enter_last last) (last-Entered last)
        | no other ↦
            let (x, xs, e) = non_empty q.entries (omega (arith, v.positive)) in
            rw (enter_full x xs e (omega arith)) (full-Entered x xs e)
      ]
    ]

-- An insert keeps a sound queue sound and does not lower the threshold, whether the score enters or
-- not.
pub insert-Entered : (q : Topk) (s d : ℕ) → IsSound q → Entered q (insert q s d)
unfolding insert would_enter
insert-Entered q s d v = elim (Bool-cases (would_enter q s)) [
  | inl e ↦ rw (e, insert) (enter-Entered q s d v (ground arith))
  | inr e ↦ rw (e, insert) (record { sound = v; grows = omega arith; same_k = refl })
]

-- What does not enter a sound queue before an insert does not enter after it.
pub would_enter-insert :
    (q : Topk) (s d t : ℕ)
    → IsSound q
    → would_enter q t ≡ false
    → would_enter (insert q s d) t ≡ false
would_enter-insert q s d t v h =
    let grows = (insert-Entered q s d v).grows in unfold would_enter in ground (arith, grows)

pub topk_queue-IsSound : (k : ℕ) → 1 ≤ k → IsSound (topk_queue k)
unfolding topk_queue
topk_queue-IsSound k h = record {
  positive = h;
  rising = tt;
  above = tt;
  size = omega arith;
  full = λ e. absurd (omega arith);
}
