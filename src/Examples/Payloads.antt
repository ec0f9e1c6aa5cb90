-- ===== src/Examples/Payloads.antt =====
-- Payload vectors.
use mathlib.Core.Option.{some-injective}
use anytime_daat.Prelude.{
  ℕ, ◌+◌, ◌-◌, ◌*◌, ◌<◌, ◌≤◌, ◌≡◌, sym, zero, suc, take, ◌⊎◌, refl, inl, inr, List, [], ◌∷◌, none,
  some, true, false, ◌&&◌, Bool-cases, map, All, length, get_elem?, ltb, ◌==◌, arith,
}
use anytime_daat.WandBuilder.Flat.{flat}
use anytime_daat.PayloadVector.{
  Buffer, PayloadVector, unpack_head, unpack, of_bytes, split, cast_span, numbers_in,
  failed_to_parse_offsets, cannot_split, ok, err, ◌>>=◌, make, payload_vector, to_stream, from,
  sizeofs, failed_to_parse_length, cannot_unpack, offset_too_large, out_of_span,
}
use anytime_daat.PayloadVector.Iterator.{
  plus, minus, dereference, increment, difference, begin, end, at, to_end, each,
}
use anytime_daat.PayloadVector.Search.{
  Order, IsOrder, IsSorted, Searched, lower_bound, binary_search, binary_search-first,
}
use anytime_daat.PayloadVector.RoundTrip.{table_size, from_outcome, from-to_stream, to_stream-from}
use anytime_daat.PayloadVector.Access.{iterator_at, Accessed, Walked, at-make, each-make}
use anytime_daat.PayloadVector.Words.{IsByte, IsU64}
use anytime_daat.PayloadVector.Moves.{minus-plus}

-- Three words, the last of which has no letter.
abbrev words : List (List ℕ)
words = (97 ∷ 98 ∷ []) ∷ (99 ∷ []) ∷ [] ∷ []

abbrev plain : List ℕ → List ℕ
plain w = w

words_fit : length (flat (map plain words)) ≡ 3
unfolding flat
words_fit = refl

make_run : make plain words ≡ record { offsets = 0 ∷ 2 ∷ 3 ∷ 3 ∷ []; payloads = 97 ∷ 98 ∷ 99 ∷ [] }
unfolding make
make_run = refl

at_run : at (payload_vector (make plain words)) 1 ≡ ok (99 ∷ [])
unfolding make payload_vector at plus dereference begin
at_run = refl

at_last_run : at (payload_vector (make plain words)) 2 ≡ err (offset_too_large 3 3)
unfolding make payload_vector at plus dereference begin
at_last_run = refl

abbrev buffer : Buffer
buffer = record { offsets = 0 ∷ 2 ∷ 3 ∷ []; payloads = 97 ∷ 98 ∷ 99 ∷ [] }

from-to_stream_example : from (to_stream buffer) ≡ ok (payload_vector buffer)
from-to_stream_example =
    from-to_stream buffer (omega arith) (omega arith)
      (omega arith, (omega arith, (omega arith, tt)))

abbrev memory : List ℕ
memory = 0 ∷ 0 ∷ 0 ∷ 0 ∷ 0 ∷ 0 ∷ 0 ∷ 0 ∷ 0 ∷ 0 ∷ 0 ∷ 0 ∷ 0 ∷ 0 ∷ 0 ∷ 0 ∷ 7 ∷ []

memory_bytes : All IsByte memory
memory_bytes = search (arith)

abbrev in_memory : PayloadVector
in_memory = record { offsets = 0 ∷ []; payloads = 7 ∷ [] }

memory_run : from memory ≡ ok in_memory
unfolding from unpack_head sizeofs unpack of_bytes split cast_span numbers_in
memory_run = refl

to_stream-from_example : to_stream (record { offsets = 0 ∷ []; payloads = 7 ∷ [] }) ≡ memory
to_stream-from_example =
    to_stream-from memory in_memory memory_bytes (unfold of_bytes in omega arith) memory_run

from_outcome_example :
    ((length memory < 8)
      × (from memory ≡ err (failed_to_parse_length (cannot_unpack (length memory) 8))))
    ⊎ ((8 ≤ length memory)
        × (length memory < 8 + table_size (of_bytes (take 8 memory)))
        × (from memory
            ≡ err (
                failed_to_parse_offsets
                  (cannot_split (length memory - 8) (table_size (of_bytes (take 8 memory)))))))
    ⊎ ((v : PayloadVector) × (from memory ≡ ok v)
        × (length v.offsets * 8 ≡ table_size (of_bytes (take 8 memory)))
        × (8 + length v.offsets * 8 + length v.payloads ≡ length memory))
from_outcome_example = from_outcome memory

-- A number in front that is too large for the table is not noticed: eight times one more than it
-- is 8 below 2 ^ 64.
too_long_run :
    from (0 ∷ 0 ∷ 0 ∷ 0 ∷ 0 ∷ 0 ∷ 0 ∷ 32 ∷ 5 ∷ 0 ∷ 0 ∷ 0 ∷ 0 ∷ 0 ∷ 0 ∷ 0 ∷ [])
    ≡ ok (record { offsets = 5 ∷ []; payloads = [] })
unfolding from unpack_head sizeofs unpack of_bytes split cast_span numbers_in
too_long_run = refl

words_IsU64 : IsU64 (length (flat (map plain words)))
words_IsU64 = rw words_fit (omega arith)

at-make_example : Accessed (map plain words) 1 (at (payload_vector (make plain words)) 1)
at-make_example = at-make plain words words_IsU64 1

each-make_example : Walked (map plain words) 0 (each (payload_vector (make plain words)))
each-make_example = each-make plain words words_IsU64

-- The last word has no byte to point at, and a vector of words with letters has them all.
each_last_run : each (payload_vector (make plain words)) ≡ err out_of_span
unfolding make payload_vector each to_end dereference increment begin end difference
each_last_run = refl

each_run :
    each (payload_vector (make plain ((97 ∷ 98 ∷ []) ∷ (99 ∷ []) ∷ [])))
    ≡ ok ((97 ∷ 98 ∷ []) ∷ (99 ∷ []) ∷ [])
unfolding make payload_vector each to_end dereference increment begin end difference
each_run = refl

minus-plus_example :
    ((plus (payload_vector (make plain words)) (iterator_at (map plain words) words_IsU64 0) 2
        >>= λ it. minus (payload_vector (make plain words)) it 2)
      ≡ ok (iterator_at (map plain words) words_IsU64 0))
    × (minus (payload_vector (make plain words)) (end (payload_vector (make plain words))) 2
        ≡ ok (iterator_at (map plain words) words_IsU64 1))
minus-plus_example = minus-plus plain words words_IsU64 0 2 (omega arith)

-- Numbers in their order.
abbrev number_order : Order ℕ
number_order = record { cmp = ltb; equal = ◌==◌ }

number_order-IsOrder : IsOrder number_order
number_order-IsOrder = record {
  irrefl = λ x. ground arith;
  split = λ x y z h. either x y z h;
  equal→eq = λ x y h. ground arith;
  eq→equal = λ x. ground arith;
}
  where
    either : (x y z : ℕ) → ltb x z ≡ true → (ltb x y ≡ true) ⊎ (ltb y z ≡ true)
    either x y z h = elim (Bool-cases (ltb x y)) [
      | inl e ↦ inl e
      | inr e ↦ inr (ground (arith, h, e))
    ]

abbrev sorted_numbers : List ℕ
sorted_numbers = 2 ∷ 4 ∷ 4 ∷ 9 ∷ []

-- Each number with all behind it.
abbrev InOrder : ℕ → ℕ → Type 0
InOrder x y = ltb y x ≡ false

abbrev Pairs : List ℕ → Type 0
Pairs [] = Unit
Pairs (x ∷ xs) = All (InOrder x) xs × Pairs xs

All-elem :
    (a : ℕ) (xs : List ℕ) (j y : ℕ) → All (InOrder a) xs → get_elem? xs j ≡ some y → InOrder a y
All-elem a [] j y h f = cc
All-elem a (x ∷ xs) zero y h f = rw (sym (some-injective x y f)) h.0
All-elem a (x ∷ xs) (suc j) y h f = All-elem a xs j y h.1 f

Pairs-IsSorted : (xs : List ℕ) → Pairs xs → IsSorted number_order xs
Pairs-IsSorted [] p i j h x y e f = cc
Pairs-IsSorted (a ∷ xs) p zero zero h x y e f = absurd (omega arith)
Pairs-IsSorted (a ∷ xs) p zero (suc j) h x y e f =
    rw (sym (some-injective a x e)) (All-elem a xs j y p.0 f)
Pairs-IsSorted (a ∷ xs) p (suc i) zero h x y e f = absurd (omega arith)
Pairs-IsSorted (a ∷ xs) p (suc i) (suc j) h x y e f =
    Pairs-IsSorted xs p.1 i j (omega arith) x y e f

sorted_numbers-IsSorted : IsSorted number_order sorted_numbers
sorted_numbers-IsSorted =
    Pairs-IsSorted sorted_numbers
      ((refl, (refl, (refl, tt))), ((refl, (refl, tt)), ((refl, tt), (tt, tt))))

binary_search-first_example :
    Searched number_order sorted_numbers 4 (binary_search number_order sorted_numbers 4)
binary_search-first_example =
    binary_search-first number_order number_order-IsOrder sorted_numbers sorted_numbers-IsSorted 4

-- Of the elements that tie only the first is found.
abbrev by_key : Order (ℕ × ℕ)
by_key = record { cmp = λ x y. ltb x.0 y.0; equal = λ x y. (x.0 == y.0) && (x.1 == y.1) }

tied_run : binary_search by_key ((1, 5) ∷ (1, 6) ∷ []) (1, 6) ≡ none
unfolding binary_search lower_bound
tied_run = refl

tied_first_run : binary_search by_key ((1, 5) ∷ (1, 6) ∷ []) (1, 5) ≡ some 0
unfolding binary_search lower_bound
tied_first_run = refl
