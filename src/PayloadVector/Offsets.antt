-- ===== src/PayloadVector/Offsets.antt =====
-- What the buffer of a make holds.
use mathlib.Core.List.{append_assoc, append-nil}
use mathlib.Core.Option.{some-injective}
use anytime_daat.Prelude.{
  ℕ, zero, suc, ◌+◌, ◌≤◌, ◌≡◌, refl, sym, ap, ◌∙◌, List, [], ◌∷◌, ◌++◌, some, map, length,
  length-append, get_elem?, take, drop, ◌<◌, arith,
}
use anytime_daat.WandBuilder.{back}
use anytime_daat.WandBuilder.Flat.{offsets, flat, flat-snoc, offsets-snoc}
use anytime_daat.PayloadVector.{Buffer, make, make_loop}
use anytime_daat.PayloadVector.Words.{take-front}

-- The payloads one after the other, and the offsets at which they start and end.
abbrev pub joined : List (List ℕ) → Buffer
joined ps = record { offsets = offsets 0 ps; payloads = flat ps }

pub back-offsets : (o : ℕ) (ps : List (List ℕ)) → back (offsets o ps) ≡ o + length (flat ps)
unfolding offsets flat back
back-offsets o [] = omega arith
back-offsets o (p ∷ []) = omega (arith, length-append p [])
back-offsets o (p ∷ q ∷ ps) =
    omega (arith, back-offsets (o + length p) (q ∷ ps), length-append p (q ++ flat ps))

joined-snoc :
    (ps : List (List ℕ)) (p : List ℕ)
    → record { offsets = offsets 0 ps ++ (length (flat ps ++ p) ∷ []); payloads = flat ps ++ p }
      ≡ joined (ps ++ (p ∷ []))
joined-snoc ps p =
    let last : length (flat ps ++ p) ≡ length p + back (offsets 0 ps) =
      omega (arith, length-append (flat ps) p, back-offsets 0 ps) in
    rw (offsets-snoc 0 ps p, flat-snoc ps p, last) refl

joined-nil : record { offsets = 0 ∷ []; payloads = [] } ≡ joined []
unfolding offsets flat
joined-nil = refl

module _ {ℓ} {A : Type ℓ} (encoding_fn : A → List ℕ) where
  make_loop-joined :
      (ps : List (List ℕ)) (values : List A)
      → make_loop encoding_fn (joined ps) values ≡ joined (ps ++ map encoding_fn values)
  unfolding make_loop
  make_loop-joined ps [] = ap joined (sym (append-nil ps))
  make_loop-joined ps (value ∷ values) =
      let p = encoding_fn value in
      ap (λ b. make_loop encoding_fn b values) (joined-snoc ps p)
      ∙ make_loop-joined (ps ++ (p ∷ [])) values
      ∙ ap joined (append_assoc ps (p ∷ []) (map encoding_fn values))

  pub make-joined : (values : List A) → make encoding_fn values ≡ joined (map encoding_fn values)
  unfolding make
  make-joined values =
      ap (λ b. make_loop encoding_fn b values) joined-nil ∙ make_loop-joined [] values

-- The offset at which payload `i` starts, and where the last one ends.
pub start_of : List (List ℕ) → ℕ → ℕ
start_of [] i = 0
start_of (p ∷ ps) zero = 0
start_of (p ∷ ps) (suc i) = length p + start_of ps i

pub start_of-suc :
    (p : List ℕ) (ps : List (List ℕ)) (i : ℕ) → start_of (p ∷ ps) (suc i) ≡ length p + start_of ps i
unfolding start_of
start_of-suc p ps i = refl

pub get_elem?-offsets :
    (o : ℕ) (ps : List (List ℕ)) (i : ℕ)
    → i ≤ length ps
    → get_elem? (offsets o ps) i ≡ some (o + start_of ps i)
unfolding offsets start_of
get_elem?-offsets o [] zero h = ap some (omega arith)
get_elem?-offsets o [] (suc i) h = absurd (omega arith)
get_elem?-offsets o (p ∷ ps) zero h = ap some (omega arith)
get_elem?-offsets o (p ∷ ps) (suc i) h =
    get_elem?-offsets (o + length p) ps i (omega arith) ∙ ap some (omega arith)

pub length-offsets : (o : ℕ) (ps : List (List ℕ)) → length (offsets o ps) ≡ length ps + 1
unfolding offsets
length-offsets o [] = refl
length-offsets o (p ∷ ps) = omega (arith, length-offsets (o + length p) ps)

pub start_of-le : (ps : List (List ℕ)) (i : ℕ) → start_of ps i ≤ length (flat ps)
unfolding start_of flat
start_of-le [] i = omega arith
start_of-le (p ∷ ps) zero = omega arith
start_of-le (p ∷ ps) (suc i) = omega (arith, start_of-le ps i, length-append p (flat ps))

pub start_of_mono : (ps : List (List ℕ)) (i n : ℕ) → start_of ps i ≤ start_of ps (i + n)
unfolding start_of
start_of_mono [] i n = omega arith
start_of_mono (p ∷ ps) zero n = omega arith
start_of_mono (p ∷ ps) (suc i) n =
    let same : suc i + n ≡ suc (i + n) = omega arith in
    rw same (omega (arith, start_of_mono ps i n))

pub start_of-zero : (ps : List (List ℕ)) → start_of ps 0 ≡ 0
unfolding start_of
start_of-zero [] = refl
start_of-zero (p ∷ ps) = refl

pub start_of-next :
    (ps : List (List ℕ)) (i : ℕ) (p : List ℕ)
    → get_elem? ps i ≡ some p
    → start_of ps (suc i) ≡ start_of ps i + length p
unfolding start_of
start_of-next [] i p e = cc
start_of-next (x ∷ ps) zero p e = rw (some-injective x p e) (omega (arith, start_of-zero ps))
start_of-next (x ∷ ps) (suc i) p e = omega (arith, start_of-next ps i p e)

drop-append : (x : List ℕ) (n : ℕ) (ys : List ℕ) → drop (length x + n) (x ++ ys) ≡ drop n ys
drop-append [] n ys = ap (λ m. drop m ys) (omega arith)
drop-append (y ∷ x) n ys =
    let next : length (y ∷ x) + n ≡ suc (length x + n) = omega arith in rw next (drop-append x n ys)

-- The bytes from the start of a payload on, where more bytes stand behind all payloads.
pub drop-flat :
    (ps : List (List ℕ)) (rest : List ℕ) (i : ℕ) (p : List ℕ)
    → get_elem? ps i ≡ some p
    → (more : List ℕ) × (drop (start_of ps i) (flat ps ++ rest) ≡ p ++ more)
unfolding start_of flat
drop-flat [] rest i p e = cc
drop-flat (x ∷ ps) rest zero p e =
    let same : x ≡ p = some-injective x p e in
    (flat ps ++ rest, rw same (append_assoc p (flat ps) rest))
drop-flat (x ∷ ps) rest (suc i) p e =
    let (more, k) = drop-flat ps rest i p e in
    (more, rw (append_assoc x (flat ps) rest, drop-append x (start_of ps i) (flat ps ++ rest)) k)

-- The payload at its place in the bytes.
pub slice-at :
    (ps : List (List ℕ)) (i : ℕ) (p : List ℕ)
    → get_elem? ps i ≡ some p
    → take (length p) (drop (start_of ps i) (flat ps)) ≡ p
unfolding start_of flat
slice-at [] i p e = cc
slice-at (x ∷ ps) zero p e =
    let same : x ≡ p = some-injective x p e in
    rw (sym same) (take-front (length x) x (flat ps) refl)
slice-at (x ∷ ps) (suc i) p e = rw (drop-append x (start_of ps i) (flat ps)) (slice-at ps i p e)

pub get_elem?-inside :
    (ps : List (List ℕ)) (i : ℕ) (p : List ℕ) → get_elem? ps i ≡ some p → i < length ps
get_elem?-inside [] i p e = cc
get_elem?-inside (x ∷ ps) zero p e = omega arith
get_elem?-inside (x ∷ ps) (suc i) p e = omega (arith, get_elem?-inside ps i p e)

pub start_of-end : (ps : List (List ℕ)) (i : ℕ) → length ps ≤ i → start_of ps i ≡ length (flat ps)
unfolding start_of flat
start_of-end [] i h = refl
start_of-end (p ∷ ps) zero h = absurd (omega arith)
start_of-end (p ∷ ps) (suc i) h =
    omega (arith, start_of-end ps i (omega arith), length-append p (flat ps))

pub payload_at :
    (ps : List (List ℕ)) (i : ℕ) → i < length ps → (p : List ℕ) × (get_elem? ps i ≡ some p)
payload_at [] i h = absurd (omega arith)
payload_at (p ∷ ps) zero h = (p, refl)
payload_at (p ∷ ps) (suc i) h = payload_at ps i (omega arith)

pub drop-at :
    (ps : List (List ℕ)) (i : ℕ) (p : List ℕ)
    → get_elem? ps i ≡ some p
    → drop i ps ≡ p ∷ drop (i + 1) ps
drop-at [] i p e = cc
drop-at (x ∷ ps) zero p e = ap (λ q. q ∷ ps) (some-injective x p e)
drop-at (x ∷ ps) (suc i) p e =
    let next : suc i + 1 ≡ suc (i + 1) = omega arith in rw next (drop-at ps i p e)

pub drop-all : (ps : List (List ℕ)) → drop (length ps) ps ≡ []
drop-all [] = refl
drop-all (p ∷ ps) = drop-all ps
