-- ===== src/PayloadVector/Access.antt =====
-- What operator[] gives of a vector that was made, and a pass over it.

use anytime_daat.Prelude.{
  ℕ, zero, suc, ◌+◌, ◌-◌, ◌%◌, ◌^◌, ◌<◌, ◌≤◌, ◌≡◌, refl, sym, ap, ◌∙◌, ◌⊎◌, inl, inr, List, [], ◌∷◌,
  none, some, true, false, map, length, drop, get_elem?, leb, ◌==◌, ltb, Bool-cases, arith,
}
use anytime_daat.WandBuilder.Flat.{flat}
use anytime_daat.PayloadVector.{
  PayloadVector, Result, ok, err, ◌>>=◌, out_of_span, index_too_large, offset_too_large, make,
  payload_vector,
}
use anytime_daat.PayloadVector.Iterator.{
  Iterator, difference, offset_at, increment, plus, dereference, begin, end, at, to_end, each,
}
use anytime_daat.PayloadVector.Offsets.{
  joined, make-joined, start_of, get_elem?-offsets, length-offsets, start_of-le, start_of-next,
  start_of-zero, start_of-end, slice-at, get_elem?-inside, payload_at, drop-at, drop-all,
}
use anytime_daat.PayloadVector.Words.{IsU64}

abbrev pub vector_of : List (List ℕ) → PayloadVector
vector_of ps = payload_vector (joined ps)

offset_at-some :
    (v : PayloadVector) (i o : ℕ) → get_elem? v.offsets i ≡ some o → offset_at v i ≡ ok o
offset_at-some v i o e = ap (λ r. elim r [ none ↦ err out_of_span | some o ↦ ok o ]) e

offset_at-none :
    (v : PayloadVector) (i : ℕ) → length v.offsets ≤ i → offset_at v i ≡ err out_of_span
offset_at-none v i h =
    ap (λ r. elim r [ none ↦ err out_of_span | some o ↦ ok o ]) (get_elem?-out v.offsets i h)
  where
    get_elem?-out : (xs : List ℕ) (i : ℕ) → length xs ≤ i → get_elem? xs i ≡ none
    get_elem?-out [] i h = refl
    get_elem?-out (x ∷ xs) zero h = absurd (omega arith)
    get_elem?-out (x ∷ xs) (suc i) h = get_elem?-out xs i (omega arith)

-- What operator[] gives at any index.
abbrev pub Accessed : List (List ℕ) → ℕ → Result (List ℕ) → Type 0
Accessed ps i r =
    ((p : List ℕ) × (get_elem? ps i ≡ some p) × (start_of ps i < length (flat ps)) × (r ≡ ok p))
    ⊎ ((i ≤ length ps)
        × (start_of ps i ≡ length (flat ps))
        × (r ≡ err (offset_too_large (length (flat ps)) (length (flat ps)))))
    ⊎ ((length ps < i) × (r ≡ err (index_too_large i (length ps + 1))))

-- What a pass from payload `i` on comes to.
abbrev pub Walked : List (List ℕ) → ℕ → Result (List (List ℕ)) → Type 0
Walked ps i r =
    (((j : ℕ) → i ≤ j → j < length ps → start_of ps j < length (flat ps)) × (r ≡ ok (drop i ps)))
    ⊎ ((j : ℕ) × (i ≤ j)
        × (j < length ps)
        × (start_of ps j ≡ length (flat ps))
        × (r ≡ err out_of_span))

module _ (ps : List (List ℕ)) (fits : IsU64 (length (flat ps))) where
  -- The iterator at payload `i`.
  abbrev pub iterator_at : ℕ → Iterator
  iterator_at i = record { offset_iter = i; payload_iter = start_of ps i }

  pub offset_at-vector_of :
      (i : ℕ) → i ≤ length ps → offset_at (vector_of ps) i ≡ ok (start_of ps i)
  offset_at-vector_of i h =
      offset_at-some (vector_of ps) i (start_of ps i)
        (unfold payload_vector in get_elem?-offsets 0 ps i h ∙ ap some (omega arith))

  -- From one offset to a later one.
  forward :
      (i n : ℕ)
      → (start_of ps i + difference (start_of ps (i + n)) (start_of ps i)) % 2 ^ 64
        ≡ start_of ps (i + n)
  unfolding difference
  forward i n = omega (arith, start_of-le ps i, start_of-le ps (i + n), fits)

  pub plus-iterator_at :
      (i n : ℕ)
      → i + n ≤ length ps
      → plus (vector_of ps) (iterator_at i) n ≡ ok (iterator_at (i + n))
  unfolding plus
  plus-iterator_at i n h =
      rw (offset_at-vector_of (i + n) h, offset_at-vector_of i (omega arith), forward i n) refl

  pub increment-iterator_at :
      (i : ℕ) → i < length ps → increment (vector_of ps) (iterator_at i) ≡ ok (iterator_at (i + 1))
  unfolding increment
  increment-iterator_at i h =
      rw
        (
          offset_at-vector_of (i + 1) (omega arith),
          offset_at-vector_of i (omega arith),
          forward i 1,
        )
        refl

  -- The byte at the payload iterator.
  dereference-iterator_at :
      (i : ℕ) (p : List ℕ)
      → get_elem? ps i ≡ some p
      → start_of ps i < length (flat ps)
      → dereference (vector_of ps) (iterator_at i) ≡ ok p
  unfolding dereference
  dereference-iterator_at i p e inside =
      let h = get_elem?-inside ps i p e in
      let next : start_of ps (i + 1) ≡ start_of ps i + length p =
        ap (start_of ps) (omega arith) ∙ start_of-next ps i p e in
      let size : difference (start_of ps (i + 1)) (start_of ps i) ≡ length p =
        unfold difference in omega (arith, next, start_of-le ps (i + 1), fits) in
      let has_byte : leb (length (vector_of ps).payloads) (start_of ps i) ≡ false =
        unfold payload_vector in ground arith in
      rw
        (
          offset_at-vector_of (i + 1) (omega (arith, h)),
          offset_at-vector_of i (omega (arith, h)),
          size,
          has_byte,
        )
        (unfold payload_vector in ap ok (slice-at ps i p e))

  dereference-end :
      (i : ℕ)
      → i < length ps
      → start_of ps i ≡ length (flat ps)
      → dereference (vector_of ps) (iterator_at i) ≡ err out_of_span
  unfolding dereference
  dereference-end i h e =
      let none_left : leb (length (vector_of ps).payloads) (start_of ps i) ≡ true =
        unfold payload_vector in ground arith in
      rw (offset_at-vector_of (i + 1) (omega arith), offset_at-vector_of i (omega arith), none_left)
        refl

  offset_count : length (vector_of ps).offsets ≡ length ps + 1
  offset_count = unfold payload_vector in length-offsets 0 ps

  pub end-iterator_at : end (vector_of ps) ≡ iterator_at (length ps)
  unfolding end
  end-iterator_at =
      let last : length (vector_of ps).offsets - 1 ≡ length ps = omega (arith, offset_count) in
      rw (last, start_of-end ps (length ps) (omega arith)) (unfold payload_vector in refl)

  Walked-cons :
      (i : ℕ) (p : List ℕ)
      → get_elem? ps i ≡ some p
      → start_of ps i < length (flat ps)
      → (r : Result (List (List ℕ))) → Walked ps (i + 1) r
      → Walked ps i (r >>= λ payloads. ok (p ∷ payloads))
  Walked-cons i p e here r (inl (all, g)) = inl (
    λ j from upto. elim (Bool-cases (j == i)) [
      | inl k ↦ let same : j ≡ i = ground (arith, k) in rw same here
      | inr k ↦ all j (ground (arith, k)) upto
    ],
    rw g (ap ok (sym (drop-at ps i p e))),
  )
  Walked-cons i p e here r (inr (j, from, upto, last, g)) =
      inr (j, omega arith, upto, last, rw g refl)

  to_end-Walked :
      (fuel i : ℕ)
      → i ≤ length ps
      → length ps ≤ fuel + i
      → Walked ps i (to_end fuel (vector_of ps) (iterator_at i))
  unfolding to_end end
  to_end-Walked zero i h f =
      let last : (i == length (vector_of ps).offsets - 1) ≡ true = ground (arith, offset_count) in
      let all : i ≡ length ps = omega arith in
      rw last (inl (λ j from upto. absurd (omega arith), rw all (ap ok (sym (drop-all ps)))))
  to_end-Walked (suc fuel) i h f = elim (Bool-cases (ltb i (length ps))) [
    | inl k ↦
        let i_lt : i < length ps = ground (arith, k) in
        let (p, e) = payload_at ps i i_lt in
        let more : (i == length (vector_of ps).offsets - 1) ≡ false =
          ground (arith, offset_count, k) in
        elim (Bool-cases (ltb (start_of ps i) (length (flat ps)))) [
          | inl l ↦
              let start_lt : start_of ps i < length (flat ps) = ground (arith, l) in
              rw (more, dereference-iterator_at i p e start_lt, increment-iterator_at i i_lt)
                (Walked-cons i p e start_lt _
                  (to_end-Walked fuel (i + 1) (omega arith) (omega arith)))
          | inr l ↦
              let at_end : start_of ps i ≡ length (flat ps) = ground (arith, l, start_of-le ps i) in
              rw (more, dereference-end i i_lt at_end) (inr (i, omega arith, i_lt, at_end, refl))
        ]
    | inr k ↦
        let last : (i == length (vector_of ps).offsets - 1) ≡ true =
          ground (arith, offset_count, k) in
        let all : i ≡ length ps = ground (arith, k) in
        rw last (inl (λ j from upto. absurd (omega arith), rw all (ap ok (sym (drop-all ps)))))
  ]

  -- operator[] by where the payload starts.
  begin-iterator_at : begin ≡ iterator_at 0
  begin-iterator_at = unfold begin in rw (start_of-zero ps) refl

  module _ (i : ℕ) (h : i ≤ length ps) where
    at-inside :
        (p : List ℕ)
        → get_elem? ps i ≡ some p
        → start_of ps i < length (flat ps)
        → at (vector_of ps) i ≡ ok p
    unfolding at
    at-inside p e k =
        let has : leb (length (vector_of ps).offsets) i ≡ false = ground (arith, offset_count) in
        let room : leb (length (vector_of ps).payloads) (start_of ps i) ≡ false =
          unfold payload_vector in ground arith in
        let reached : plus (vector_of ps) begin i ≡ ok (iterator_at i) =
          rw begin-iterator_at
            (plus-iterator_at 0 i (omega arith) ∙ ap (λ j. ok (iterator_at j)) (omega arith)) in
        rw (has, offset_at-vector_of i h, room, reached) (dereference-iterator_at i p e k)

    at-last :
        start_of ps i ≡ length (flat ps)
        → at (vector_of ps) i ≡ err (offset_too_large (length (flat ps)) (length (flat ps)))
    unfolding at
    at-last e =
        let has : leb (length (vector_of ps).offsets) i ≡ false = ground (arith, offset_count) in
        let none_left : leb (length (vector_of ps).payloads) (start_of ps i) ≡ true =
          unfold payload_vector in ground arith in
        rw (has, offset_at-vector_of i h, none_left, e) (unfold payload_vector in refl)

  at-outside :
      (i : ℕ) → length ps < i → at (vector_of ps) i ≡ err (index_too_large i (length ps + 1))
  unfolding at
  at-outside i k =
      let t : leb (length (vector_of ps).offsets) i ≡ true = ground (arith, offset_count) in
      rw (t, offset_count) refl

  at-vector_of : (i : ℕ) → Accessed ps i (at (vector_of ps) i)
  at-vector_of i = elim (Bool-cases (ltb (length ps) i)) [
    | inl k ↦ let h : length ps < i = ground (arith, k) in inr (inr (h, at-outside i h))
    | inr k ↦
        let h : i ≤ length ps = ground (arith, k) in
        elim (Bool-cases (ltb (start_of ps i) (length (flat ps)))) [
          | inl l ↦
              let start_lt : start_of ps i < length (flat ps) = ground (arith, l) in
              let (p, e) = payload_at ps i (ground (arith, start_lt, start_of-end ps i)) in
              inl (p, e, start_lt, at-inside i h p e start_lt)
          | inr l ↦
              let e : start_of ps i ≡ length (flat ps) = ground (arith, l, start_of-le ps i) in
              inr (inl (h, e, at-last i h e))
        ]
  ]

  each-Walked : Walked ps 0 (each (vector_of ps))
  unfolding each
  each-Walked =
      rw begin-iterator_at (
        to_end-Walked (length (vector_of ps).offsets) 0 (omega arith) (omega (arith, offset_count)))

module _ {ℓ} {A : Type ℓ} (encoding_fn : A → List ℕ) (values : List A) where
  abbrev encoded : List (List ℕ)
  encoded = map encoding_fn values

  -- A pass from begin to end over a vector that was made of values whose payloads have fewer than
  -- 2 ^ 64 bytes in all: either every payload starts before the end of the bytes, and the pass gives
  -- the payload of each value in their order; or a payload starts at the end, as one of no bytes that
  -- stands last does, and the pass leaves the span there.
  pub each-make :
      IsU64 (length (flat encoded))
      → Walked encoded 0 (each (payload_vector (make encoding_fn values)))
  each-make fits = rw (make-joined encoding_fn values) (each-Walked encoded fits)

  -- operator[] of a vector that was made of values whose payloads have fewer than 2 ^ 64 bytes in
  -- all: at the index of a value it gives that value's payload if some byte of this or of a later
  -- payload is left there; where none is left, and at the number of the values, it throws that the
  -- offset is too large; beyond that, that the index is.
  pub at-make :
      IsU64 (length (flat encoded))
      → (i : ℕ) → Accessed encoded i (at (payload_vector (make encoding_fn values)) i)
  at-make fits i = rw (make-joined encoding_fn values) (at-vector_of encoded fits i)
