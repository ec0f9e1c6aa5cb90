-- ===== src/Topk/Best.antt =====
-- The queue as the k best of what it was offered, in any order.
use native.Mathlib.Nat.{le_trans}
use native.Mathlib.Decide.{dec_lt, ℕ_discrete}
use mathlib.Core.List.{append-nil}
use anytime_daat.Prelude.{
  ℕ, suc, ◌+◌, ◌≤◌, ◌<◌, ◌≡◌, ◌⊎◌, refl, ap, ◌∙◌, inl, inr, List, [], ◌∷◌, ◌++◌, All, All-mono,
  sum_over, sum_over-Permᴰ, sum_over-append, length, Bool-cases, arith,
}
use anytime_daat.Topk.{Entry, Topk, topk_queue, would_enter, front_score, enter, insert}
use anytime_daat.Topk.Order.{IsSound, push_heap-Permᴰ, length-push_heap}
use anytime_daat.Topk.Insert.{
  topk_queue-IsSound, enter-Entered, enter_room, enter_last, enter_full, non_empty,
}

-- The entries are offered one after the other.
unfoldable pub offer : List Entry → Topk → Topk
offer [] q = q
offer (e ∷ es) q = offer es (insert q e.score e.docid)

-- `q` keeps some of the entries offered, and the others could not enter now.
pub record IsBest (offered : List Entry) (q : Topk) : Type 0 where
  pub sound : IsSound q
  pub dropped : List Entry
  pub split : (g : Entry → ℕ) → sum_over g q.entries + sum_over g dropped ≡ sum_over g offered
  pub low : All (λ e. e.score ≤ q.threshold) dropped
  pub full : (q.threshold ≡ 0) ⊎ (length q.entries ≡ q.k)

front_entry :
    (es : List Entry) (x : Entry) (xs : List Entry) (t : ℕ)
    → es ≡ x ∷ xs
    → front_score es t ≡ x.score
front_entry es x xs t e = rw e (unfold front_score in refl)

module _ (offered : List Entry) (q : Topk) (b : IsBest offered q) (s d : ℕ)
    (h : q.threshold < s) where
  abbrev item : Entry
  item = record { score = s; docid = d }

  lowered : (t : ℕ) → q.threshold ≤ t → All (λ e. e.score ≤ t) b.dropped
  lowered t k = All-mono (λ e l. le_trans l k) b.dropped b.low

  room-IsBest : suc (length q.entries) < q.k → IsBest (item ∷ offered) (enter q s d)
  room-IsBest room = rw (enter_room q s d room) (record {
    sound = rw (enter_room q s d room) at (enter-Entered q s d b.sound h).sound;
    dropped = b.dropped;
    split = λ g. omega (arith, b.split g, sum_over-Permᴰ g (push_heap-Permᴰ item q.entries));
    low = b.low;
    full = elim b.full [ inl zero_still ↦ inl zero_still | inr was_full ↦ absurd (omega arith) ];
  })

  last-IsBest : suc (length q.entries) ≡ q.k → IsBest (item ∷ offered) (enter q s d)
  last-IsBest last = rw (enter_last q s d last) (record {
    sound = rw (enter_last q s d last) at (enter-Entered q s d b.sound h).sound;
    dropped = b.dropped;
    split = λ g. omega (arith, b.split g, sum_over-Permᴰ g (push_heap-Permᴰ item q.entries));
    low = lowered _ (rw (enter_last q s d last) at (enter-Entered q s d b.sound h).grows);
    full = inr (omega (arith, length-push_heap item q.entries));
  })

  full-IsBest :
      (x : Entry) (xs : List Entry)
      → q.entries ≡ x ∷ xs
      → q.k ≤ length q.entries
      → IsBest (item ∷ offered) (enter q s d)
  full-IsBest x xs e crowded =
      let became = enter_full q s d x xs e crowded in
      let grows = rw became at (enter-Entered q s d b.sound h).grows in
      let front = front_entry q.entries x xs q.threshold e in
      let was_full = b.sound.full (omega (arith, b.sound.size)) in
      rw became (record {
        sound = rw became at (enter-Entered q s d b.sound h).sound;
        dropped = x ∷ b.dropped;
        split = λ g.
            omega (arith, b.split g, ap (sum_over g) e, sum_over-Permᴰ g (push_heap-Permᴰ item xs));
        low = (omega arith, lowered _ grows);
        full = inr (omega (arith, length-push_heap item xs, ap length e, b.sound.size));
      })

  enter-IsBest : IsBest (item ∷ offered) (enter q s d)
  enter-IsBest = elim (dec_lt (suc (length q.entries)) q.k) [
    | yes room ↦ room-IsBest room
    | no crowded ↦ elim (ℕ_discrete (suc (length q.entries)) q.k) [
      | yes last ↦ last-IsBest last
      | no other ↦
          let (x, xs, e) = non_empty q.entries (omega (arith, b.sound.positive)) in
          full-IsBest x xs e (omega arith)
    ]
  ]

insert-IsBest :
    (offered : List Entry) (q : Topk) (e : Entry)
    → IsBest offered q
    → IsBest (e ∷ offered) (insert q e.score e.docid)
unfolding insert would_enter
insert-IsBest offered q e b = elim (Bool-cases (would_enter q e.score)) [
  | inl enters ↦ rw (enters, insert) (enter-IsBest offered q b e.score e.docid (ground arith))
  | inr refused ↦
      rw (refused, insert)
        (record {
          sound = b.sound;
          dropped = e ∷ b.dropped;
          split = λ g. omega (arith, b.split g);
          low = (ground arith, b.low);
          full = b.full;
        })
]

-- The sums of the entries offered, whatever their order.
IsBest-SameSums :
    (xs ys : List Entry) (q : Topk)
    → ((g : Entry → ℕ) → sum_over g xs ≡ sum_over g ys)
    → IsBest xs q
    → IsBest ys q
IsBest-SameSums xs ys q same b = record {
  sound = b.sound;
  dropped = b.dropped;
  split = λ g. b.split g ∙ same g;
  low = b.low;
  full = b.full;
}

offer-IsBest_from :
    (before es : List Entry) (q : Topk) → IsBest before q → IsBest (es ++ before) (offer es q)
unfolding offer
offer-IsBest_from before [] q b = b
offer-IsBest_from before (e ∷ es) q b =
    IsBest-SameSums (es ++ e ∷ before) (e ∷ es ++ before) _
      (λ g. omega (arith, sum_over-append g es (e ∷ before), sum_over-append g es before))
      (offer-IsBest_from (e ∷ before) es (insert q e.score e.docid) (insert-IsBest before q e b))

topk_queue-IsBest : (k : ℕ) → 1 ≤ k → IsBest [] (topk_queue k)
topk_queue-IsBest k h = record {
  sound = topk_queue-IsSound k h;
  dropped = [];
  split = λ g. unfold topk_queue in omega arith;
  low = tt;
  full = inl (unfold topk_queue in refl);
}

-- A fresh queue that was offered `es` holds the best of them.
pub offer-IsBest : (k : ℕ) (es : List Entry) → 1 ≤ k → IsBest es (offer es (topk_queue k))
offer-IsBest k es h =
    IsBest-SameSums (es ++ []) es _ (λ g. ap (sum_over g) (append-nil es))
      (offer-IsBest_from [] es (topk_queue k) (topk_queue-IsBest k h))
