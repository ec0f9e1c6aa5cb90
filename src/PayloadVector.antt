-- ===== src/PayloadVector.antt =====
-- include/pisa/payload_vector.hpp: payloads of any length one after the other, with a table of the
-- offsets at which they start, in memory and as bytes of a file. A size_type is a number below
-- 2 ^ 64 of eight bytes, the lowest first; an exception is an error, and its text is kept as the
-- numbers that stand in it.
pub mod Iterator
pub mod Search
pub mod Offsets
pub mod Words
pub mod RoundTrip
pub mod Access
pub mod Moves
use anytime_daat.Prelude.{
  ℕ, zero, suc, ◌+◌, ◌-◌, ◌*◌, ◌/◌, ◌%◌, ◌^◌, List, [], ◌∷◌, ◌++◌, length, take, drop, get_or, ltb,
  ◌==◌, if◌then◌else◌,
}

-- What was asked of how much; out_of_span is a read outside of a span, which the span refuses.
pub data Error : Type 0 where
  cannot_unpack cannot_split : ℕ → ℕ → Error
  failed_to_cast : ℕ → Error
  failed_to_parse_length failed_to_parse_offsets : Error → Error
  index_too_large offset_too_large : ℕ → ℕ → Error
  out_of_span : Error

pub data Result {ℓ} (A : Type ℓ) : Type ℓ where
  ok : A → Result A
  err : Error → Result A

infixl 5 ◌>>=◌
abbrev pub ◌>>=◌ {ℓ κ} : {A : Type ℓ} {B : Type κ} → Result A → (A → Result B) → Result B
ok a >>= f = f a
err e >>= f = err e

-- A catch that puts its own text in front.
abbrev pub rethrow {ℓ} : {A : Type ℓ} → (Error → Error) → Result A → Result A
rethrow context (ok a) = ok a
rethrow context (err e) = err (context e)

pub record Buffer : Type 0 where
  pub offsets : List ℕ
  pub payloads : List ℕ

-- The round of the loop of make for each value, and the loop.
unfoldable pub make_loop {ℓ} : {A : Type ℓ} → (A → List ℕ) → Buffer → List A → Buffer
make_loop encoding_fn b [] = b
make_loop encoding_fn b (value ∷ values) =
    let payloads = b.payloads ++ encoding_fn value in
    make_loop encoding_fn
      (record { offsets = b.offsets ++ (length payloads ∷ []); payloads = payloads }) values

unfoldable pub make {ℓ} : {A : Type ℓ} → (A → List ℕ) → List A → Buffer
unfolding make_loop
make encoding_fn values = make_loop encoding_fn (record { offsets = 0 ∷ []; payloads = [] }) values

-- The bytes of a number in memory, and the number of some bytes.
unfoldable pub to_bytes : ℕ → ℕ → List ℕ
to_bytes zero v = []
to_bytes (suc n) v = v % 2 ^ 8 ∷ to_bytes n (v / 2 ^ 8)

unfoldable pub of_bytes : List ℕ → ℕ
of_bytes [] = 0
of_bytes (b ∷ bs) = b + 2 ^ 8 * of_bytes bs

unfoldable pub all_to_bytes : List ℕ → List ℕ
all_to_bytes [] = []
all_to_bytes (v ∷ vs) = to_bytes 8 v ++ all_to_bytes vs

-- What to_stream writes.
unfoldable pub to_stream : Buffer → List ℕ
to_stream b =
    to_bytes 8 ((length b.offsets + 2 ^ 64 - 1) % 2 ^ 64) ++ (all_to_bytes b.offsets ++ b.payloads)

-- A tuple of plain types is the list of their sizes.
unfoldable pub sizeofs : List ℕ → ℕ
sizeofs [] = 0
sizeofs (size ∷ sizes) = size + sizeofs sizes

unfoldable pub unpack : List ℕ → List ℕ → List ℕ
unpack [] mem = []
unpack (size ∷ sizes) mem = of_bytes (take size mem) ∷ unpack sizes (drop size mem)

unfoldable pub unpack_head : List ℕ → List ℕ → Result (List ℕ × List ℕ)
unpack_head sizes mem =
    let offset = sizeofs sizes in
    if ltb (length mem) offset
    then err (cannot_unpack (length mem) offset)
    else ok (unpack sizes mem, drop offset mem)

unfoldable pub split : List ℕ → ℕ → Result (List ℕ × List ℕ)
split mem offset =
    if ltb (length mem) offset
    then err (cannot_split (length mem) offset)
    else ok (take offset mem, drop offset mem)

-- The numbers of `size` bytes each that stand in the bytes.
unfoldable pub numbers_in : ℕ → ℕ → List ℕ → List ℕ
numbers_in size zero mem = []
numbers_in size (suc n) mem = of_bytes (take size mem) ∷ numbers_in size n (drop size mem)

unfoldable pub cast_span : ℕ → List ℕ → Result (List ℕ)
cast_span type_size mem =
    if length mem % type_size == 0
    then ok (numbers_in type_size (length mem / type_size) mem)
    else err (failed_to_cast type_size)

-- Payload_Vector, which has spans where the buffer has vectors.
pub record PayloadVector : Type 0 where
  pub offsets : List ℕ
  pub payloads : List ℕ

unfoldable pub payload_vector : Buffer → PayloadVector
payload_vector b = record { offsets = b.offsets; payloads = b.payloads }

unfoldable pub size : PayloadVector → ℕ
size v = (length v.offsets + 2 ^ 64 - 1) % 2 ^ 64

unfoldable pub from : List ℕ → Result PayloadVector
from mem = do
  (head, tail) ← rethrow failed_to_parse_length (unpack_head (8 ∷ []) mem)
  let table_size = (get_or head 0 0 + 1) % 2 ^ 64 * 8 % 2 ^ 64
  (table, payloads) ← rethrow failed_to_parse_offsets (split tail table_size)
  offsets ← cast_span 8 table
  ok (record { offsets = offsets; payloads = payloads })
