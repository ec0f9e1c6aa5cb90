-- ===== src/Examples/Bytes.antt =====
-- Numbers as bytes.
use anytime_daat.Prelude.{ℕ, ◌≡◌, refl, List, [], ◌∷◌, ◌++◌, some, All, length, arith}
use anytime_daat.VariableByte.{encode, decode}
use anytime_daat.VariableByte.RoundTrip.{IsU32, decode-encode}

abbrev numbers : List ℕ
numbers = 5 ∷ 300 ∷ 4294967295 ∷ []

numbers-IsU32 : All IsU32 numbers
numbers-IsU32 = (omega arith, (omega arith, (omega arith, tt)))

encode_run : encode numbers ≡ 133 ∷ 44 ∷ 130 ∷ 127 ∷ 127 ∷ 127 ∷ 127 ∷ 143 ∷ []
unfolding encode
encode_run = refl

decode-encode_example : decode (length numbers) (encode numbers ++ 9 ∷ []) ≡ some (numbers, 9 ∷ [])
decode-encode_example = decode-encode numbers (9 ∷ []) numbers-IsU32
