-- ===== src/PayloadVector/Moves.antt =====
-- Moving an iterator on and back.
use anytime_daat.Prelude.{
  ℕ, ◌+◌, ◌-◌, ◌%◌, ◌^◌, ◌≤◌, ◌≡◌, refl, List, false, map, length, ltb, arith,
}
use anytime_daat.WandBuilder.Flat.{flat}
use anytime_daat.PayloadVector.{ok, ◌>>=◌, make, payload_vector}
use anytime_daat.PayloadVector.Iterator.{difference, plus, minus, end}
use anytime_daat.PayloadVector.Offsets.{make-joined, start_of, start_of-le, start_of_mono}
use anytime_daat.PayloadVector.Words.{IsU64}
use anytime_daat.PayloadVector.Access.{
  vector_of, iterator_at, offset_at-vector_of, plus-iterator_at, end-iterator_at,
}

module _ (ps : List (List ℕ)) (fits : IsU64 (length (flat ps))) where
  minus-iterator_at :
      (i n : ℕ)
      → n ≤ i
      → i ≤ length ps
      → minus (vector_of ps) (iterator_at ps fits i) n ≡ ok (iterator_at ps fits (i - n))
  unfolding minus
  minus-iterator_at i n k l =
      let some_left : ltb i n ≡ false = ground arith in
      let sum : i - n + n ≡ i = omega arith in
      let up : start_of ps (i - n) ≤ start_of ps i = rw sum at (start_of_mono ps (i - n) n) in
      let back : (start_of ps i + 2 ^ 64 - difference (start_of ps i) (start_of ps (i - n)))
            % 2 ^ 64
          ≡ start_of ps (i - n) =
        unfold difference in omega (arith, start_of-le ps i, start_of-le ps (i - n), fits) in
      rw
        (
          some_left,
          offset_at-vector_of ps fits i l,
          offset_at-vector_of ps fits (i - n) (omega arith),
          back,
        )
        refl

module _ {ℓ} {A : Type ℓ} (encoding_fn : A → List ℕ) (values : List A) where
  abbrev encoded : List (List ℕ)
  encoded = map encoding_fn values

  -- On a vector that was made of payloads with fewer than 2 ^ 64 bytes in all, an iterator that goes
  -- `n` places on, to the end at most, and `n` back is where it was, in the offsets and in the
  -- payloads; and `n` places before the end, where there are as many, is the payload at that place
  -- from the end.
  pub minus-plus :
      (fits : IsU64 (length (flat encoded))) (i n : ℕ)
      → i + n ≤ length encoded
      → ((plus (payload_vector (make encoding_fn values)) (iterator_at encoded fits i) n >>= λ it.
            minus (payload_vector (make encoding_fn values)) it n)
          ≡ ok (iterator_at encoded fits i))
        × (minus
              (payload_vector (make encoding_fn values))
              (end (payload_vector (make encoding_fn values)))
              n
            ≡ ok (iterator_at encoded fits (length encoded - n)))
  minus-plus fits i n h =
      let back : i + n - n ≡ i = omega arith in
      rw (make-joined encoding_fn values) (
        rw
            (
              plus-iterator_at encoded fits i n h,
              minus-iterator_at encoded fits (i + n) n (omega arith) h,
              back,
            )
            refl,
        rw (end-iterator_at encoded fits)
            (minus-iterator_at encoded fits (length encoded) n (omega arith) (omega arith)),
      )
