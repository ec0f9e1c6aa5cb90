-- ===== src/BlockPostings/Layout.antt =====
-- The blocks of a list of postings.
use native.Mathlib.Nat.{div-add-mod', mod-lt, mod-eq_of_lt, mul-add-mod_self_right}
use anytime_daat.Prelude.{
  ℕ, zero, suc, ◌+◌, ◌-◌, ◌*◌, ◌%◌, ◌^◌, ◌≤◌, ◌<◌, ◌≡◌, refl, ap, ◌∙◌, inl, inr, List, [], ◌∷◌,
  length, take, drop, leb, sum_over, Bool-cases, leb→le, arith,
}
use anytime_daat.BlockPostings.{BlockCodec, sub32, ceil_div, cur_block_size, gaps, base_after}

-- A block: what stands before its first document, and its documents and frequencies.
pub record Chunk : Type 0 where
  pub base : ℕ
  pub docs : List ℕ
  pub freqs : List ℕ

-- Documents that ascend from `base` on, below 2 ^ 32 - 1.
abbrev pub Run : ℕ → List ℕ → Type 0
Run base [] = Unit
Run base (d ∷ ds) = (base ≤ d) × (d + 1 < 2 ^ 32) × Run (d + 1) ds

abbrev pub IsFreq : ℕ → Type 0
IsFreq f = (1 ≤ f) × (f < 2 ^ 32)

-- One more than the last document.
unfoldable pub run_end : ℕ → List ℕ → ℕ
run_end base [] = base
run_end base (d ∷ ds) = run_end (d + 1) ds

pub base_after_lem : (base : ℕ) (ds : List ℕ) → Run base ds → base_after base ds ≡ run_end base ds
unfolding base_after run_end
base_after_lem base [] h = refl
base_after_lem base (d ∷ ds) (le, lt, h) =
    let here : (d + 1) % 2 ^ 32 ≡ d + 1 = omega arith in rw here (base_after_lem (d + 1) ds h)

pub run_end-le : (base : ℕ) (ds : List ℕ) → Run base ds → base + length ds ≤ run_end base ds
unfolding run_end
run_end-le base [] h = omega arith
run_end-le base (d ∷ ds) (le, lt, h) = omega (arith, run_end-le (d + 1) ds h)

pub run_end-u32 : (base : ℕ) (ds : List ℕ) → base < 2 ^ 32 → Run base ds → run_end base ds < 2 ^ 32
unfolding run_end
run_end-u32 base [] b h = b
run_end-u32 base (d ∷ ds) b (le, lt, h) = run_end-u32 (d + 1) ds lt h

-- The gaps add up to what the codec is told.
pub sum_over-gaps :
    (base : ℕ) (ds : List ℕ)
    → Run base ds
    → sum_over (λ g. g) (gaps base ds) + length ds + base ≡ run_end base ds
unfolding gaps run_end
sum_over-gaps base [] h = omega arith
sum_over-gaps base (d ∷ ds) (le, lt, h) =
    let gap : sub32 d base ≡ d - base = unfold sub32 in omega arith in
    let next : (d + 1) % 2 ^ 32 ≡ d + 1 = omega arith in
    rw next (omega (arith, gap, sum_over-gaps (d + 1) ds h))

pub length-gaps : (base : ℕ) (ds : List ℕ) → length (gaps base ds) ≡ length ds
unfolding gaps
length-gaps base [] = refl
length-gaps base (d ∷ ds) = ap suc (length-gaps ((d + 1) % 2 ^ 32) ds)

pub Run-take : (n base : ℕ) (ds : List ℕ) → Run base ds → Run base (take n ds)
Run-take zero base ds h = tt
Run-take (suc n) base [] h = tt
Run-take (suc n) base (d ∷ ds) (le, lt, h) = (le, lt, Run-take n (d + 1) ds h)

pub Run-drop : (n base : ℕ) (ds : List ℕ) → Run base ds → Run (run_end base (take n ds)) (drop n ds)
unfolding run_end
Run-drop zero base ds h = h
Run-drop (suc n) base [] h = tt
Run-drop (suc n) base (d ∷ ds) (le, lt, h) = Run-drop n (d + 1) ds h

module _ (codec : BlockCodec) where
  -- The blocks that the loop comes to.
  unfoldable pub chunks : ℕ → ℕ → ℕ → ℕ → List ℕ → List ℕ → List Chunk
  chunks n zero b base docs freqs = []
  chunks n (suc left) b base docs freqs =
      let size = cur_block_size codec n b in
      record { base = base; docs = take size docs; freqs = take size freqs }
      ∷ chunks n left (suc b) (run_end base (take size docs)) (drop size docs) (drop size freqs)

  -- `left` blocks from block `b` on hold the last `m` of the documents, and no fewer do.
  pub record Counted (n left b m : ℕ) : Type 0 where
    pub total : 1 ≤ m → n ≡ b * codec.block_size + m
    pub enough : m ≤ left * codec.block_size
    pub needed : left * codec.block_size < m + codec.block_size

  pub ceil_div-Counted :
      (n : ℕ)
      → 1 ≤ codec.block_size
      → n + codec.block_size ≤ 2 ^ 32
      → Counted n (ceil_div n codec.block_size) 0 n
  unfolding ceil_div
  ceil_div-Counted n h few =
      let s = codec.block_size in
      let whole : (n + s - 1) % 2 ^ 32 ≡ n + s - 1 = omega arith in
      let parts = div-add-mod' (n + s - 1) s in
      let below = mod-lt (n + s - 1) {m = s} h in
      rw whole (record {
        total = λ _. omega arith;
        enough = omega (arith, parts, below);
        needed = omega (arith, parts, below);
      })

  -- What the size of the next block is.
  pub record Sized (n left b m : ℕ) : Type 0 where
    pub some_left : 1 ≤ cur_block_size codec n b
    pub fits : cur_block_size codec n b ≤ codec.block_size
    pub inside : cur_block_size codec n b ≤ m
    pub later : Counted n left (suc b) (m - cur_block_size codec n b)

  Sized-of :
      (n left b m s : ℕ)
      → cur_block_size codec n b ≡ s
      → 1 ≤ s
      → s ≤ codec.block_size
      → s ≤ m
      → Counted n left (suc b) (m - s)
      → Sized n left b m
  Sized-of n left b m s e h k l c = record {
    some_left = rw e h;
    fits = rw e k;
    inside = rw e l;
    later = rw e c;
  }

  pub Counted-Sized :
      (n left b m : ℕ) → 1 ≤ codec.block_size → Counted n (suc left) b m → Sized n left b m
  Counted-Sized n left b m one c =
      let s = codec.block_size in
      let some_left : 1 ≤ m = omega (arith, c.needed) in
      let whole = c.total some_left in
      elim (Bool-cases (leb ((b + 1) * s) n)) [
        | inl e ↦
            let full : s ≤ m = omega (arith, leb→le ((b + 1) * s) n e, whole) in
            Sized-of n left b m s (unfold cur_block_size in rw e refl) one (omega arith) full
              (record {
                total = λ h. omega (arith, whole, full);
                enough = omega (arith, c.enough);
                needed = omega (arith, c.needed, full);
              })
        | inr e ↦
            let before_end : n < b * s + s = ground (arith, e) in
            let short : m < s = omega (arith, before_end, whole) in
            let size : n % s ≡ m = rw whole (mul-add-mod_self_right b s m ∙ mod-eq_of_lt short) in
            Sized-of n left b m m (unfold cur_block_size in rw e size) some_left (omega arith)
              (omega arith)
              (record {
                total = λ h. absurd (omega arith);
                enough = omega arith;
                needed = omega (arith, c.needed, short);
              })
      ]
