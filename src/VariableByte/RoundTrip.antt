-- ===== src/VariableByte/RoundTrip.antt =====
-- What was encoded is decoded.
use Prim.Native.Nat.{bit_or}
use mathlib.Core.List.{append_assoc}
use anytime_daat.Prelude.{
  ℕ, zero, suc, ◌+◌, ◌*◌, ◌/◌, ◌%◌, ◌^◌, ◌≤◌, ◌<◌, ◌≡◌, refl, ap, ◌∙◌, inl, inr, List, [], ◌∷◌,
  ◌++◌, some, ◌>>=◌, true, false, All, length, length-append, ltb, ◌==◌, Bool-cases, arith,
}
use anytime_daat.VariableByte.{
  extract7bits, extract7bitsmaskless, encode_one, encode, decode_one, decode, decode_loop,
  decode_all,
}
use anytime_daat.VariableByte.Bytes.{set_top_bit}

abbrev pub IsU32 : ℕ → Type 0
IsU32 v = v < 2 ^ 32

-- A byte below 2 ^ 7 is a group with more behind it.
decode_more :
    (shift v x : ℕ) (cs : List ℕ)
    → x < 2 ^ 7
    → decode_one shift v (x ∷ cs) ≡ decode_one (shift + 7) ((v + x * 2 ^ shift) % 2 ^ 32) cs
unfolding decode_one
decode_more shift v x cs h =
    let low : x % 2 ^ 7 ≡ x = omega arith in
    let top : (x / 2 ^ 7 % 2 == 1) ≡ false = ground arith in rw (low, top) refl

decode_last :
    (shift v x : ℕ) (cs : List ℕ)
    → x < 2 ^ 7
    → decode_one shift v (bit_or x (2 ^ 7) ∷ cs) ≡ some ((v + x * 2 ^ shift) % 2 ^ 32, cs)
unfolding decode_one
decode_last shift v x cs h =
    let low : (x + 128) % 2 ^ 7 ≡ x = omega arith in
    let top : ((x + 128) / 2 ^ 7 % 2 == 1) ≡ true = ground arith in
    rw (set_top_bit x h, low, top) refl

-- Numbers of one byte up to five.
module _ (val : ℕ) (rest : List ℕ) (h : IsU32 val) where
  in_one : val < 2 ^ 7 → decode_one 0 0 (bit_or val (2 ^ 7) % 2 ^ 8 ∷ rest) ≡ some (val, rest)
  in_one k =
      let byte : bit_or val (2 ^ 7) % 2 ^ 8 ≡ bit_or val (2 ^ 7) =
        rw (set_top_bit val k) (omega arith) in
      ap (λ b. decode_one 0 0 (b ∷ rest)) byte
      ∙ decode_last 0 0 val rest k
      ∙ ap (λ v. some (v, rest)) (omega arith)

  in_two :
      val < 2 ^ 14
      → decode_one 0 0 (extract7bits 0 val ∷ bit_or (extract7bitsmaskless 1 val) (2 ^ 7) ∷ rest)
        ≡ some (val, rest)
  unfolding extract7bits extract7bitsmaskless
  in_two k =
      decode_more 0 0 _ _ (omega arith)
      ∙ decode_last 7 _ _ rest (omega arith)
      ∙ ap (λ v. some (v, rest)) (omega arith)

  in_three :
      val < 2 ^ 21
      → decode_one 0 0 (
          extract7bits 0 val
          ∷ extract7bits 1 val
          ∷ bit_or (extract7bitsmaskless 2 val) (2 ^ 7)
          ∷ rest)
        ≡ some (val, rest)
  unfolding extract7bits extract7bitsmaskless
  in_three k =
      decode_more 0 0 _ _ (omega arith)
      ∙ decode_more 7 _ _ _ (omega arith)
      ∙ decode_last 14 _ _ rest (omega arith)
      ∙ ap (λ v. some (v, rest)) (omega arith)

  in_four :
      val < 2 ^ 28
      → decode_one 0 0 (
          extract7bits 0 val
          ∷ extract7bits 1 val
          ∷ extract7bits 2 val
          ∷ bit_or (extract7bitsmaskless 3 val) (2 ^ 7)
          ∷ rest)
        ≡ some (val, rest)
  unfolding extract7bits extract7bitsmaskless
  in_four k =
      decode_more 0 0 _ _ (omega arith)
      ∙ decode_more 7 _ _ _ (omega arith)
      ∙ decode_more 14 _ _ _ (omega arith)
      ∙ decode_last 21 _ _ rest (omega arith)
      ∙ ap (λ v. some (v, rest)) (omega arith)

  in_five :
      decode_one 0 0 (
        extract7bits 0 val
        ∷ extract7bits 1 val
        ∷ extract7bits 2 val
        ∷ extract7bits 3 val
        ∷ bit_or (extract7bitsmaskless 4 val) (2 ^ 7)
        ∷ rest)
      ≡ some (val, rest)
  unfolding extract7bits extract7bitsmaskless
  in_five =
      decode_more 0 0 _ _ (omega arith)
      ∙ decode_more 7 _ _ _ (omega arith)
      ∙ decode_more 14 _ _ _ (omega arith)
      ∙ decode_more 21 _ _ _ (omega arith)
      ∙ decode_last 28 _ _ rest (omega arith)
      ∙ ap (λ v. some (v, rest)) (omega arith)

  decode_one-encode_one : decode_one 0 0 (encode_one val ++ rest) ≡ some (val, rest)
  unfolding encode_one
  decode_one-encode_one = elim (Bool-cases (ltb val (2 ^ 7))) [
    | inl a ↦ rw a (in_one (ground (arith, a)))
    | inr a ↦ elim (Bool-cases (ltb val (2 ^ 14))) [
      | inl b ↦ rw (a, b) (in_two (ground (arith, b)))
      | inr b ↦ elim (Bool-cases (ltb val (2 ^ 21))) [
        | inl c ↦ rw (a, b, c) (in_three (ground (arith, c)))
        | inr c ↦ elim (Bool-cases (ltb val (2 ^ 28))) [
          | inl d ↦ rw (a, b, c, d) (in_four (ground (arith, d)))
          | inr d ↦ rw (a, b, c, d) in_five
        ]
      ]
    ]
  ]

-- decode of as many numbers as were encoded gives these, and the bytes that stand behind
-- them, for numbers below 2 ^ 32.
pub decode-encode :
    (vals rest : List ℕ)
    → All IsU32 vals
    → decode (length vals) (encode vals ++ rest) ≡ some (vals, rest)
unfolding decode encode
decode-encode [] rest h = refl
decode-encode (val ∷ vals) rest h =
    rw
      (
        append_assoc (encode_one val) (encode vals) rest,
        decode_one-encode_one val (encode vals ++ rest) h.0,
        decode-encode vals rest h.1,
      )
      refl

length-encode_one : (val : ℕ) → 1 ≤ length (encode_one val)
unfolding encode_one
length-encode_one val = ground arith

cons-encode_one : (val : ℕ) → (c : ℕ) × (cs : List ℕ) × (encode_one val ≡ c ∷ cs)
cons-encode_one val = non_empty (encode_one val) (length-encode_one val)
  where
    non_empty : (xs : List ℕ) → 1 ≤ length xs → (c : ℕ) × (cs : List ℕ) × (xs ≡ c ∷ cs)
    non_empty [] h = absurd (omega arith)
    non_empty (x ∷ xs) h = (x, xs, refl)

decode_loop-step :
    (fuel : ℕ) (bytes : List ℕ)
    → (c : ℕ) × (cs : List ℕ) × (bytes ≡ c ∷ cs)
    → decode_loop (suc fuel) bytes
      ≡ (decode_one 0 0 bytes >>= λ r. decode_loop fuel r.1 >>= λ vs. some (r.0 ∷ vs))
decode_loop-step fuel bytes (c, cs, e) = rw e (unfold decode_loop in refl)

decode_loop-encode :
    (fuel : ℕ) (vals : List ℕ)
    → length (encode vals) ≤ fuel
    → All IsU32 vals
    → decode_loop fuel (encode vals) ≡ some vals
unfolding encode
decode_loop-encode fuel [] h k = unfold decode_loop in refl
decode_loop-encode zero (val ∷ vals) h k =
    absurd (omega (arith, length-append (encode_one val) (encode vals), length-encode_one val))
decode_loop-encode (suc fuel) (val ∷ vals) h k =
    let (c, cs, e) = cons-encode_one val in
    let bytes = encode_one val ++ encode vals in
    let here : (c : ℕ) × (cs : List ℕ) × (bytes ≡ c ∷ cs) =
      (c, cs ++ encode vals, ap (λ t. t ++ encode vals) e) in
    let enough : length (encode vals) ≤ fuel =
      omega (arith, length-append (encode_one val) (encode vals), length-encode_one val) in
    decode_loop-step fuel bytes here
    ∙ rw (decode_one-encode_one val (encode vals) k.0, decode_loop-encode fuel vals enough k.1) refl

-- decode up to the end of the bytes of encoded numbers below 2 ^ 32 gives these.
pub decode_all-encode : (vals : List ℕ) → All IsU32 vals → decode_all (encode vals) ≡ some vals
unfolding decode_all
decode_all-encode vals h = decode_loop-encode (length (encode vals)) vals (omega arith) h
