-- ===== src/PayloadVector/Iterator.antt =====
-- Payload_Vector_Iterator and what a payload vector does by it. Both iterators are positions in
-- their spans; the difference of two offsets is taken below 2 ^ 64.
use anytime_daat.Prelude.{
  ℕ, zero, suc, ◌+◌, ◌-◌, ◌%◌, ◌^◌, List, [], ◌∷◌, none, some, length, take, drop, get_elem?, ltb,
  leb, ◌==◌, if◌then◌else◌,
}
use anytime_daat.PayloadVector.{
  PayloadVector, Result, ok, err, ◌>>=◌, out_of_span, index_too_large, offset_too_large,
}

pub record Iterator : Type 0 where
  pub offset_iter : ℕ
  pub payload_iter : ℕ

unfoldable pub difference : ℕ → ℕ → ℕ
difference a b = (a + 2 ^ 64 - b) % 2 ^ 64

-- The offset at a position of the table.
abbrev pub offset_at : PayloadVector → ℕ → Result ℕ
offset_at v i = elim (get_elem? v.offsets i) [ none ↦ err out_of_span | some o ↦ ok o ]

-- The position `n` before position `i`.
abbrev pub prev : ℕ → ℕ → Result ℕ
prev i n = if ltb i n then err out_of_span else ok (i - n)

-- operator++.
unfoldable pub increment : PayloadVector → Iterator → Result Iterator
unfolding difference
increment v it = do
  let next = it.offset_iter + 1
  there ← offset_at v next
  here ← offset_at v it.offset_iter
  ok (record {
    offset_iter = next;
    payload_iter = (it.payload_iter + difference there here) % 2 ^ 64;
  })

-- operator+, and operator+= which moves the other iterator first.
unfoldable pub plus : PayloadVector → Iterator → ℕ → Result Iterator
unfolding difference
plus v it n = do
  let next = it.offset_iter + n
  there ← offset_at v next
  here ← offset_at v it.offset_iter
  ok (record {
    offset_iter = next;
    payload_iter = (it.payload_iter + difference there here) % 2 ^ 64;
  })

-- operator- and operator-=.
unfoldable pub minus : PayloadVector → Iterator → ℕ → Result Iterator
unfolding difference
minus v it n = do
  offset_iter ← prev it.offset_iter n
  here ← offset_at v it.offset_iter
  there ← offset_at v offset_iter
  ok (record {
    offset_iter = offset_iter;
    payload_iter = (it.payload_iter + 2 ^ 64 - difference here there) % 2 ^ 64;
  })

-- operator--.
unfoldable pub decrement : PayloadVector → Iterator → Result Iterator
unfolding minus
decrement v it = minus v it 1

-- operator*, which takes the address of the byte at the payload iterator: at the end of the span
-- there is none, also for a payload of no bytes.
unfoldable pub dereference : PayloadVector → Iterator → Result (List ℕ)
unfolding difference
dereference v it = do
  there ← offset_at v (it.offset_iter + 1)
  here ← offset_at v it.offset_iter
  if leb (length v.payloads) it.payload_iter
      then err out_of_span
      else ok (take (difference there here) (drop it.payload_iter v.payloads))

-- `begin`, and `end` of a vector that has an offset at all.
unfoldable pub begin : Iterator
begin = record { offset_iter = 0; payload_iter = 0 }

unfoldable pub end : PayloadVector → Iterator
end v = record { offset_iter = length v.offsets - 1; payload_iter = length v.payloads }

-- operator[].
unfoldable pub at : PayloadVector → ℕ → Result (List ℕ)
at v idx =
    if leb (length v.offsets) idx
    then err (index_too_large idx (length v.offsets))
    else (offset_at v idx >>= λ offset.
        if leb (length v.payloads) offset
        then err (offset_too_large offset (length v.payloads))
        else (plus v begin idx >>= λ it. dereference v it))

-- A loop from an iterator up to `end`, on fuel: it takes a step of the table in every round.
unfoldable pub to_end : ℕ → PayloadVector → Iterator → Result (List (List ℕ))
to_end zero v it = if it.offset_iter == (end v).offset_iter then ok [] else err out_of_span
to_end (suc fuel) v it = if it.offset_iter == (end v).offset_iter then ok [] else do
  payload ← dereference v it
  it' ← increment v it
  payloads ← to_end fuel v it'
  ok (payload ∷ payloads)

unfoldable pub each : PayloadVector → Result (List (List ℕ))
each v = to_end (length v.offsets) v begin
