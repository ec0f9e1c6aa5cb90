-- ===== src/Taat/Accumulate.antt =====
-- What the cursors add to the accumulator.
use native.Mathlib.Decide.{dec_lt, ℕ_discrete}
use anytime_daat.Prelude.{
  ℕ, zero, suc, ◌+◌, ◌≤◌, ◌<◌, ◌≡◌, ◌≢◌, refl, ap, ◌∙◌, inl, inr, List, [], ◌∷◌, some, All, get_or,
  set, length, length-set, ltb, Bool-cases, arith,
}
use anytime_daat.Cursor.{Cursor, docid, score, next}
use anytime_daat.Cursor.Valid.{
  IsValid, gives, gives_before, gives-docid, gives-next, docid-next, next-IsValid, remaining,
  remaining-next,
}
use anytime_daat.Cursor.Lists.{doc_score}
use anytime_daat.Taat.{init, accumulate, accumulate_cursor, accumulate_cursors}

-- `acc'` has more than `acc` for each document before `end`: what `f` says.
pub record Accumulated (end : ℕ) (f : ℕ → ℕ) (acc acc' : List ℕ) : Type 0 where
  pub same_size : length acc' ≡ length acc
  pub added : (d : ℕ) → d < end → get_or acc' d 0 ≡ get_or acc d 0 + f d

length-accumulate : (acc : List ℕ) (p s : ℕ) → length (accumulate acc p s) ≡ length acc
unfolding accumulate
length-accumulate acc p s = length-set acc p (get_or acc p 0 + s)

get_or-set_self : (acc : List ℕ) (p v : ℕ) → p < length acc → get_or (set acc p v) p 0 ≡ v
get_or-set_self [] p v h = absurd (omega arith)
get_or-set_self (x ∷ acc) zero v h = refl
get_or-set_self (x ∷ acc) (suc p) v h = get_or-set_self acc p v (omega arith)

get_or-set_other : (acc : List ℕ) (p d v : ℕ) → p ≢ d → get_or (set acc p v) d 0 ≡ get_or acc d 0
get_or-set_other [] p d v h = refl
get_or-set_other (x ∷ acc) zero zero v h = absurd (h refl)
get_or-set_other (x ∷ acc) zero (suc d) v h = refl
get_or-set_other (x ∷ acc) (suc p) zero v h = refl
get_or-set_other (x ∷ acc) (suc p) (suc d) v h = get_or-set_other acc p d v (λ e. h (ap suc e))

-- One posting goes from the cursor to the accumulator.
accumulate-next :
    (end : ℕ) (c : Cursor) (acc : List ℕ) (d : ℕ)
    → IsValid end c
    → docid c < end
    → end ≤ length acc
    → get_or (accumulate acc (docid c) (score c)) d 0 + gives d (next c)
      ≡ get_or acc d 0 + gives d c
unfolding accumulate
accumulate-next end c acc d v inside room = elim (ℕ_discrete (docid c) d) [
  | yes e ↦
      let at = get_or-set_self acc (docid c) (get_or acc (docid c) 0 + score c) (omega arith) in
      let later =
        gives_before end (next c) (next-IsValid end c v) (docid c) (docid-next end c v inside) in
      rw (← e) (omega (arith, at, later, gives-docid end c v inside))
  | no other ↦
      let kept = get_or-set_other acc (docid c) d (get_or acc (docid c) 0 + score c) other in
      elim (dec_lt d (docid c)) [
        | yes before ↦
            let moved = docid-next end c v inside in
            let none_after = gives_before end (next c) (next-IsValid end c v) d (omega arith) in
            omega (arith, kept, none_after, gives_before end c v d before)
        | no behind ↦
            let past : docid c < d = omega arith in omega (arith, kept, gives-next c d past)
      ]
]

accumulate_cursor-Accumulated :
    (fuel end : ℕ) (c : Cursor) (acc : List ℕ)
    → remaining c < fuel
    → IsValid end c
    → end ≤ length acc
    → (acc' : List ℕ) × (accumulate_cursor fuel end c acc ≡ some acc')
      × Accumulated end (λ d. gives d c) acc acc'
unfolding accumulate_cursor
accumulate_cursor-Accumulated zero end c acc h v room = absurd (omega arith)
accumulate_cursor-Accumulated (suc fuel) end c acc h v room =
    elim (Bool-cases (ltb (docid c) end)) [
      | inr over ↦ (
        acc,
        rw (over, accumulate_cursor) refl,
        record {
          same_size = refl;
          added = λ d k. omega (arith, gives_before end c v d (ground (arith, over, k)));
        },
      )
      | inl inside ↦
          let lt : docid c < end = ground arith in
          let size = length-accumulate acc (docid c) (score c) in
          let (acc', runs, a) =
            accumulate_cursor-Accumulated fuel end (next c) (accumulate acc (docid c) (score c))
              (omega (arith, remaining-next end c v lt)) (next-IsValid end c v) (omega arith) in
          (
            acc',
            rw (inside, accumulate_cursor) runs,
            record {
              same_size = a.same_size ∙ size;
              added = λ d k. omega (arith, a.added d k, accumulate-next end c acc d v lt room);
            },
          )
    ]

pub accumulate_cursors-Accumulated :
    (end : ℕ) (cs : List Cursor) (acc : List ℕ)
    → All (IsValid end) cs
    → end ≤ length acc
    → (acc' : List ℕ) × (accumulate_cursors end cs acc ≡ some acc')
      × Accumulated end (doc_score cs) acc acc'
unfolding accumulate_cursors doc_score
accumulate_cursors-Accumulated end [] acc v room =
    (acc, refl, record { same_size = refl; added = λ d k. omega arith })
accumulate_cursors-Accumulated end (c ∷ cs) acc v room =
    let (acc', runs, a) =
      accumulate_cursor-Accumulated (suc (remaining c)) end c acc (omega arith) v.0 room in
    let (last, rest, b) =
      accumulate_cursors-Accumulated end cs acc' v.1 (omega (arith, a.same_size)) in
    (
      last,
      rw (runs, accumulate_cursors) rest,
      record {
        same_size = b.same_size ∙ a.same_size;
        added = λ d k. omega (arith, a.added d k, b.added d k);
      },
    )

pub get_or-init : (acc : List ℕ) (d : ℕ) → get_or (init acc) d 0 ≡ 0
unfolding init
get_or-init [] d = refl
get_or-init (x ∷ acc) zero = refl
get_or-init (x ∷ acc) (suc d) = get_or-init acc d

pub length-init : (acc : List ℕ) → length (init acc) ≡ length acc
unfolding init
length-init [] = refl
length-init (x ∷ acc) = ap suc (length-init acc)
