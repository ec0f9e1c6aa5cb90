-- ===== src/PayloadVector/RoundTrip.antt =====
-- A vector is written to bytes and read back, and what reading refuses.

use anytime_daat.Prelude.{
  ℕ, ◌+◌, ◌-◌, ◌*◌, ◌/◌, ◌%◌, ◌^◌, ◌<◌, ◌≤◌, ◌≡◌, refl, ap, ◌∙◌, ◌⊎◌, inl, inr, List, ◌++◌, true,
  false, All, length, length-append, take, drop, take-append-drop, length-take, length-drop, ltb,
  ◌==◌, Bool-cases, arith,
}
use anytime_daat.PayloadVector.{
  Buffer, PayloadVector, ok, err, ◌>>=◌, rethrow, cannot_unpack, cannot_split,
  failed_to_parse_length, failed_to_parse_offsets, to_bytes, of_bytes, all_to_bytes, to_stream,
  sizeofs, unpack, unpack_head, split, numbers_in, cast_span, payload_vector, from,
}
use anytime_daat.PayloadVector.Words.{
  IsByte, IsU64, length-to_bytes, of_bytes-to_bytes_8, take-front, drop-front, length-all_to_bytes,
  numbers_in-all_to_bytes, length-numbers_in, All-parts, to_bytes-take, all_to_bytes-numbers_in,
}

-- The size that the table has by the number in front.
pub table_size : ℕ → ℕ
table_size n = (n + 1) % 2 ^ 64 * 8 % 2 ^ 64

-- Reading by its three outcomes.
from_short :
    (mem : List ℕ)
    → length mem < 8
    → from mem ≡ err (failed_to_parse_length (cannot_unpack (length mem) 8))
unfolding from unpack_head sizeofs
from_short mem h = let t : ltb (length mem) 8 ≡ true = ground arith in rw t refl

from_rest :
    (mem : List ℕ)
    → 8 ≤ length mem
    → from mem ≡ (
        rethrow failed_to_parse_offsets (split (drop 8 mem) (table_size (of_bytes (take 8 mem))))
        >>= λ r. cast_span 8 r.0 >>= λ offsets. ok (record { offsets = offsets; payloads = r.1 }))
unfolding from unpack_head sizeofs unpack table_size
from_rest mem h = let t : ltb (length mem) 8 ≡ false = ground arith in rw t refl

module _ (mem : List ℕ) (h : 8 ≤ length mem) where
  -- The number in front, and how long the table is by it.
  abbrev counted : ℕ
  counted = table_size (of_bytes (take 8 mem))

  from_small :
      length (drop 8 mem) < counted
      → from mem ≡ err (failed_to_parse_offsets (cannot_split (length (drop 8 mem)) counted))
  from_small k =
      let t : ltb (length (drop 8 mem)) counted ≡ true = ground arith in
      from_rest mem h ∙ unfold split in rw t refl

  from_enough :
      (n : ℕ)
      → counted ≡ n * 8
      → counted ≤ length (drop 8 mem)
      → from mem
        ≡ ok (record {
          offsets = numbers_in 8 n (take (n * 8) (drop 8 mem));
          payloads = drop (n * 8) (drop 8 mem);
        })
  from_enough n e k =
      let t : ltb (length (drop 8 mem)) (n * 8) ≡ false = ground arith in
      let size : length (take (n * 8) (drop 8 mem)) ≡ n * 8 =
        omega (arith, length-take (n * 8) (drop 8 mem)) in
      let whole : (n * 8 % 8 == 0) ≡ true = ground arith in
      let count : n * 8 / 8 ≡ n = omega arith in
      from_rest mem h ∙ unfold split cast_span in rw (e, t, size, whole, count) refl

-- Reading takes from bytes what it says in front: it refuses fewer than eight bytes, and fewer
-- bytes behind these than the table has by its size below 2 ^ 64; otherwise the offsets fill the
-- table, the payloads are all that is left, and the cast of the table does not fail.
pub from_outcome :
    (mem : List ℕ)
    → ((length mem < 8) × (from mem ≡ err (failed_to_parse_length (cannot_unpack (length mem) 8))))
      ⊎ ((8 ≤ length mem)
          × (length mem < 8 + table_size (of_bytes (take 8 mem)))
          × (from mem
              ≡ err (
                  failed_to_parse_offsets
                    (cannot_split (length mem - 8) (table_size (of_bytes (take 8 mem)))))))
      ⊎ ((v : PayloadVector) × (from mem ≡ ok v)
          × (length v.offsets * 8 ≡ table_size (of_bytes (take 8 mem)))
          × (8 + length v.offsets * 8 + length v.payloads ≡ length mem))
from_outcome mem = elim (Bool-cases (ltb (length mem) 8)) [
  | inl a ↦ let h : length mem < 8 = ground (arith, a) in inl (h, from_short mem h)
  | inr a ↦
      let h : 8 ≤ length mem = ground (arith, a) in
      let c = table_size (of_bytes (take 8 mem)) in
      let rest : length (drop 8 mem) ≡ length mem - 8 = length-drop 8 mem in
      elim (Bool-cases (ltb (length mem - 8) c)) [
        | inl b ↦
            let k : length (drop 8 mem) < c = ground (arith, b, rest) in
            let e : from mem ≡ err (failed_to_parse_offsets (cannot_split (length mem - 8) c)) =
              from_small mem h k
              ∙ ap (λ n. err (failed_to_parse_offsets (cannot_split n c))) rest in
            inr (inl (h, ground (arith, b), e))
        | inr b ↦
            let n = c / 8 in
            let whole : c ≡ n * 8 = unfold table_size in omega arith in
            let k : n * 8 ≤ length (drop 8 mem) = ground (arith, b, rest, whole) in
            let count = length-numbers_in n (take (n * 8) (drop 8 mem)) in
            inr (
              inr (
                _,
                from_enough mem h n whole (omega (arith, k, whole)),
                omega (arith, count, whole),
                omega (arith, count, length-drop (n * 8) (drop 8 mem), rest, k),
              ))
      ]
]

-- What was written is read back.
module _ (b : Buffer) (some_offset : 1 ≤ length b.offsets) (few : length b.offsets < 2 ^ 61)
    (are_u64 : All IsU64 b.offsets) where
  abbrev front : ℕ
  front = (length b.offsets + 2 ^ 64 - 1) % 2 ^ 64

  abbrev behind : List ℕ
  behind = all_to_bytes b.offsets ++ b.payloads

  from_behind :
      (mem : List ℕ)
      → 8 ≤ length mem
      → take 8 mem ≡ to_bytes 8 front
      → drop 8 mem ≡ behind
      → from mem ≡ ok (payload_vector b)
  from_behind mem h e f =
      let n = length b.offsets in
      let size : table_size (of_bytes (take 8 mem)) ≡ n * 8 =
        rw (e, of_bytes-to_bytes_8 front (omega arith)) (unfold table_size in omega arith) in
      let table = length-all_to_bytes b.offsets in
      let enough : table_size (of_bytes (take 8 mem)) ≤ length (drop 8 mem) =
        rw (size, f) (omega (arith, length-append (all_to_bytes b.offsets) b.payloads, table)) in
      from_enough mem h n size enough
      ∙ rw
          (
            f,
            take-front (n * 8) (all_to_bytes b.offsets) b.payloads table,
            drop-front (n * 8) (all_to_bytes b.offsets) b.payloads table,
            numbers_in-all_to_bytes b.offsets are_u64,
          )
          (unfold payload_vector in refl)

  -- A buffer with an offset at least and fewer than 2 ^ 61, all below 2 ^ 64, that to_stream wrote
  -- is read back as the vector of that buffer.
  pub from-to_stream : from (to_stream b) ≡ ok (payload_vector b)
  from-to_stream =
      let n = length-to_bytes 8 front in
      let shape : to_stream b ≡ to_bytes 8 front ++ behind = unfold to_stream in refl in
      from_behind (to_stream b)
        (rw shape (omega (arith, length-append (to_bytes 8 front) behind, n)))
        (rw shape (take-front 8 (to_bytes 8 front) behind n))
        (rw shape (drop-front 8 (to_bytes 8 front) behind n))

module _ (mem : List ℕ) (v : PayloadVector) (bytes : All IsByte mem) where
  -- The vector that is read, written out.
  read_vector : ℕ → PayloadVector
  read_vector n = record {
    offsets = numbers_in 8 n (take (n * 8) (drop 8 mem));
    payloads = drop (n * 8) (drop 8 mem);
  }

  to_stream-read_vector :
      (n : ℕ)
      → of_bytes (take 8 mem) + 1 ≡ n
      → n < 2 ^ 61
      → 8 + n * 8 ≤ length mem
      → to_stream
          (record { offsets = (read_vector n).offsets; payloads = (read_vector n).payloads })
        ≡ mem
  unfolding read_vector to_stream
  to_stream-read_vector n e short h =
      let count = length-numbers_in n (take (n * 8) (drop 8 mem)) in
      let rest = drop 8 mem in
      let rest_bytes = (All-parts IsByte 8 mem bytes).1 in
      let rest_size = length-drop 8 mem in
      let front : (n + 2 ^ 64 - 1) % 2 ^ 64 ≡ of_bytes (take 8 mem) = omega arith in
      rw
        (
          count,
          front,
          to_bytes-take mem bytes (omega (arith, h)),
          all_to_bytes-numbers_in n (take (n * 8) rest) (All-parts IsByte (n * 8) rest rest_bytes).0
              (omega (arith, length-take (n * 8) rest, rest_size, h)),
          take-append-drop (n * 8) rest,
        )
        (take-append-drop 8 mem)

  -- Bytes that are read, with a number in front that is below 2 ^ 61 - 1, are what to_stream writes
  -- of the offsets and payloads that were read.
  pub to_stream-from :
      of_bytes (take 8 mem) + 1 < 2 ^ 61
      → from mem ≡ ok v
      → to_stream (record { offsets = v.offsets; payloads = v.payloads }) ≡ mem
  to_stream-from short e =
      let n = of_bytes (take 8 mem) + 1 in
      let size : table_size (of_bytes (take 8 mem)) ≡ n * 8 = unfold table_size in omega arith in
      elim (from_outcome mem) [
        | inl (h, f) ↦ absurd cc
        | inr (inl (h, k, f)) ↦ absurd cc
        | inr (inr (w, f, c, total)) ↦
            let rest = length-drop 8 mem in
            let enough : table_size (of_bytes (take 8 mem)) ≤ length (drop 8 mem) =
              omega (arith, c, total, rest) in
            let g = from_enough mem (omega (arith, total)) n size enough in
            let same : v ≡ read_vector n = unfold read_vector in cc (e, g) in
            rw same (to_stream-read_vector n refl short (omega (arith, size, c, total)))
      ]
