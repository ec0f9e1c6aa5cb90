-- ===== src/VariableByte.antt =====
-- include/pisa/codec/block_codecs.hpp: TightVariableByte, which writes each number in groups of
-- seven bits, the lowest first, with the top bit set on the last byte. A uint8_t is a number below
-- 2 ^ 8 and a uint32_t one below 2 ^ 32.
pub mod Bytes
pub mod RoundTrip
use Prim.Native.Nat.{bit_or}
use anytime_daat.Prelude.{
  ℕ, zero, suc, ◌+◌, ◌*◌, ◌/◌, ◌%◌, ◌^◌, List, [], ◌∷◌, ◌++◌, Option, none, some, length, ◌>>=◌,
  ltb, ◌==◌, if◌then◌else◌,
}

unfoldable pub extract7bits : ℕ → ℕ → ℕ
extract7bits i val = val / 2 ^ (7 * i) % 2 ^ 7

unfoldable pub extract7bitsmaskless : ℕ → ℕ → ℕ
extract7bitsmaskless i val = val / 2 ^ (7 * i) % 2 ^ 8

-- One round of the loop of encode.
unfoldable pub encode_one : ℕ → List ℕ
unfolding extract7bits extract7bitsmaskless
encode_one val =
    if ltb val (2 ^ 7)
    then bit_or val (2 ^ 7) % 2 ^ 8 ∷ []
    else if ltb val (2 ^ 14)
    then extract7bits 0 val ∷ bit_or (extract7bitsmaskless 1 val) (2 ^ 7) ∷ []
    else if ltb val (2 ^ 21)
    then extract7bits 0 val ∷ extract7bits 1 val ∷ bit_or (extract7bitsmaskless 2 val) (2 ^ 7) ∷ []
    else if ltb val (2 ^ 28)
    then extract7bits 0 val
      ∷ extract7bits 1 val
      ∷ extract7bits 2 val
      ∷ bit_or (extract7bitsmaskless 3 val) (2 ^ 7)
      ∷ []
    else extract7bits 0 val
      ∷ extract7bits 1 val
      ∷ extract7bits 2 val
      ∷ extract7bits 3 val
      ∷ bit_or (extract7bitsmaskless 4 val) (2 ^ 7)
      ∷ []

unfoldable pub encode : List ℕ → List ℕ
unfolding encode_one
encode [] = []
encode (val ∷ vals) = encode_one val ++ encode vals

-- encode_single, which appends one number to `out`.
unfoldable pub encode_single : ℕ → List ℕ → List ℕ
unfolding encode
encode_single val out = out ++ encode (val ∷ [])

-- The inner loop of decode: the number, and the bytes behind it; `none` means that the bytes ended
-- inside a number, where the code reads on.
unfoldable pub decode_one : ℕ → ℕ → List ℕ → Option (ℕ × List ℕ)
decode_one shift v [] = none
decode_one shift v (c ∷ cs) =
    let v' = (v + c % 2 ^ 7 * 2 ^ shift) % 2 ^ 32 in
    let rest = decode_one (shift + 7) v' cs in if c / 2 ^ 7 % 2 == 1 then some (v', cs) else rest

-- decode of `n` numbers: these, and the bytes behind them.
unfoldable pub decode : ℕ → List ℕ → Option (List ℕ × List ℕ)
unfolding decode_one
decode zero inbyte = some ([], inbyte)
decode (suc n) inbyte = do
  (v, inbyte') ← decode_one 0 0 inbyte
  (vs, rest) ← decode n inbyte'
  some (v ∷ vs, rest)

-- decode up to the end of the bytes, on fuel: every number takes a byte at least.
unfoldable pub decode_loop : ℕ → List ℕ → Option (List ℕ)
unfolding decode_one
decode_loop fuel [] = some []
decode_loop zero (c ∷ cs) = none
decode_loop (suc fuel) (c ∷ cs) = do
  (v, inbyte) ← decode_one 0 0 (c ∷ cs)
  vs ← decode_loop fuel inbyte
  some (v ∷ vs)

unfoldable pub decode_all : List ℕ → Option (List ℕ)
unfolding decode_loop
decode_all inbyte = decode_loop (length inbyte) inbyte
