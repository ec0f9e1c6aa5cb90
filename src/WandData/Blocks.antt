-- ===== src/WandData/Blocks.antt =====
-- The blocks of a partition bound the scores of the postings that each covers.
use Prim.Native.Nat.{max}
use anytime_daat.Prelude.{
  ℕ, suc, ◌-◌, ◌/◌, ◌≤◌, ◌<◌, ◌≡◌, refl, sym, subst, inl, inr, List, [], ◌∷◌, true, false, All,
  All-mono, All-both, ◌==◌, ◌||◌, Bool-cases, arith,
}
use anytime_daat.Cursor.{Posting, Block}
use anytime_daat.Cursor.Postings.{Ascending, Above}
use anytime_daat.BlockMaxWand.Blocks.{Fits}
use anytime_daat.WandData.{block_partition, max_element, static_block_partition}

module _ (f : ℕ → ℕ → ℕ) (size : ℕ) where
  -- A posting that the current block has taken fits.
  block_partition-Fits_before :
      (i current m last : ℕ) (ps : List Posting) (x : Posting)
      → x.doc ≤ last
      → f x.doc x.freq ≤ m
      → Above last ps
      → Ascending ps
      → Fits f (block_partition f size i current m last ps) x
  unfolding block_partition
  block_partition-Fits_before i current m last [] x h k a s = inl (h, k)
  block_partition-Fits_before i current m last (p ∷ ps) x h k a s =
      elim (Bool-cases ((i == 0) || (i / size == current))) [
        | inl e ↦ rw e (
            block_partition-Fits_before (suc i) current (max m (f p.doc p.freq)) p.doc ps x
              (omega (arith, h, a.0)) (omega (arith, k)) s.0 s.1)
        | inr e ↦ rw e (inl (omega (arith, h, a.0), k))
      ]

  -- The two cases of the loop: the block goes on, or the posting opens a new one.
  block_partition_on :
      (i current m last : ℕ) (p : Posting) (ps : List Posting)
      → ((i == 0) || (i / size == current)) ≡ true
      → block_partition f size i current m last (p ∷ ps)
        ≡ block_partition f size (suc i) current (max m (f p.doc p.freq)) p.doc ps
  unfolding block_partition
  block_partition_on i current m last p ps e = rw e refl

  block_partition_new :
      (i current m last : ℕ) (p : Posting) (ps : List Posting)
      → ((i == 0) || (i / size == current)) ≡ false
      → block_partition f size i current m last (p ∷ ps)
        ≡ record { last = p.doc - 1; best = m }
          ∷ block_partition f size (suc i) (suc current) (max 0 (f p.doc p.freq)) p.doc ps
  unfolding block_partition
  block_partition_new i current m last p ps e = rw e refl

  block_partition-Fits :
      (i current m last : ℕ) (ps : List Posting)
      → Above last ps
      → Ascending ps
      → All (Fits f (block_partition f size i current m last ps)) ps
  block_partition-Fits i current m last [] a s = tt
  block_partition-Fits i current m last (p ∷ ps) a s =
      elim (Bool-cases ((i == 0) || (i / size == current))) [
        | inl e ↦
            let m' = max m (f p.doc p.freq) in
            subst (λ bs. All (Fits f bs) (p ∷ ps))
              (sym (block_partition_on i current m last p ps e))
              (
                block_partition-Fits_before (suc i) current m' p.doc ps p (omega arith)
                    (omega arith) s.0 s.1,
                block_partition-Fits (suc i) current m' p.doc ps s.0 s.1,
              )
        | inr e ↦
            let m' = max 0 (f p.doc p.freq) in
            let next = suc current in
            let behind : All (λ x. p.doc - 1 < x.doc) ps =
              All-mono (λ x k. omega (arith, k)) ps s.0 in
            subst (λ bs. All (Fits f bs) (p ∷ ps))
              (sym (block_partition_new i current m last p ps e))
              (
                inr (
                  omega (arith, a.0),
                  block_partition-Fits_before (suc i) next m' p.doc ps p (omega arith) (omega arith)
                      s.0 s.1,
                ),
                All-both (λ x h k. inr (h, k)) ps behind
                    (block_partition-Fits (suc i) next m' p.doc ps s.0 s.1),
              )
      ]

  -- The blocks that the partition of a list in ascending order returns fit its postings: the first
  -- block that does not end before a posting bounds its score, and there is one.
  pub static_block_partition-Fits :
      (doc_to_range : ℕ → ℕ) (p : Posting) (ps : List Posting)
      → Ascending (p ∷ ps)
      → All (Fits f (static_block_partition f size doc_to_range p ps).blocks) (p ∷ ps)
  unfolding static_block_partition
  static_block_partition-Fits doc_to_range p ps s =
      subst (λ bs. All (Fits f bs) (p ∷ ps)) (sym (block_partition_on 0 0 0 0 p ps refl))
        (
          block_partition-Fits_before 1 0 (max 0 (f p.doc p.freq)) p.doc ps p (omega arith)
              (omega arith) s.0 s.1,
          block_partition-Fits 1 0 (max 0 (f p.doc p.freq)) p.doc ps s.0 s.1,
        )

-- No posting that fits scores more than the maximum of the blocks.
pub max_element-Fits :
    (f : ℕ → ℕ → ℕ) (bs : List Block) (x : Posting) → Fits f bs x → f x.doc x.freq ≤ max_element bs
unfolding max_element
max_element-Fits f [] x h = absurd h
max_element-Fits f (b ∷ bs) x (inl here) = omega (arith, here.1)
max_element-Fits f (b ∷ bs) x (inr later) = omega (arith, max_element-Fits f bs x later.1)
