-- ===== src/BlockMaxWand/Moved.antt =====
-- The move of the blocks leaves everything else of the cursors alone.
use anytime_daat.Prelude.{
  ℕ, zero, suc, ◌≤◌, ◌≡◌, refl, sym, ap, subst, List, [], ◌∷◌, map, Permᴰ, Permᴰ-refl, All, length,
  take, drop, arith,
}
use anytime_daat.Cursor.{Cursor, docid, block_max_next_geq}
use anytime_daat.Cursor.Valid.{IsValid, gives, remaining}
use anytime_daat.Cursor.Lists.{IsSorted, doc_score, total_remaining, base, SameLists}
use anytime_daat.Wand.{docid_at}
use anytime_daat.BlockMaxWand.{move_block, move_blocks, block_weight}
use anytime_daat.BlockMaxWand.Blocks.{
  Blocked, Blocked-block_max_next_geq, gives-moved_weight, move_block_lem,
}

module _ (p : ℕ) where
  -- A fact about one cursor that does not look at its blocks.
  moved_fact :
      (Q : Cursor → Type 0)
      → ((c : Cursor) → Q c → Q (block_max_next_geq c p))
      → (c : Cursor) → Q c
      → Q (move_block p c)
  moved_fact Q h c k = subst Q (sym (move_block_lem p c)) (h c k)

  moved_value {ℓ} :
      {A : Type ℓ} (f : Cursor → A)
      → ((c : Cursor) → f (block_max_next_geq c p) ≡ f c)
      → (c : Cursor) → f (move_block p c) ≡ f c
  moved_value f h c = subst (λ e. f e ≡ f c) (sym (move_block_lem p c)) (h c)

  docid-move_block : (c : Cursor) → docid (move_block p c) ≡ docid c
  docid-move_block = moved_value docid (λ c. unfold docid block_max_next_geq in refl)

  gives-move_block : (d : ℕ) (c : Cursor) → gives d (move_block p c) ≡ gives d c
  gives-move_block d = moved_value (gives d) (λ c. unfold gives block_max_next_geq in refl)

  remaining-move_block : (c : Cursor) → remaining (move_block p c) ≡ remaining c
  remaining-move_block = moved_value remaining (λ c. unfold remaining block_max_next_geq in refl)

  base-move_block : (c : Cursor) → base (move_block p c) ≡ base c
  base-move_block = moved_value base (λ c. unfold base block_max_next_geq in refl)

  -- What each move keeps of a cursor holds of all.
  pub All-move_blocks :
      (Q : Cursor → Type 0)
      → ((c : Cursor) → Q c → Q (move_block p c))
      → (n : ℕ) (cs : List Cursor) → All Q cs
      → All Q (move_blocks p n cs)
  unfolding move_blocks
  All-move_blocks Q h zero cs k = k
  All-move_blocks Q h (suc n) [] k = tt
  All-move_blocks Q h (suc n) (c ∷ cs) k = (h c k.0, All-move_blocks Q h n cs k.1)

  pub move_blocks-IsValid :
      (end n : ℕ) (cs : List Cursor) → All (IsValid end) cs → All (IsValid end) (move_blocks p n cs)
  move_blocks-IsValid end n cs =
      All-move_blocks (IsValid end)
        (moved_fact (IsValid end) (λ c v.
          unfold block_max_next_geq in
          record {
            ascending = v.ascending;
            below = v.below;
            bounded = v.bounded;
            reach = v.reach;
          }))
        n cs

  pub move_blocks-above :
      (b n : ℕ) (cs : List Cursor)
      → All (λ c. b ≤ docid c) cs
      → All (λ c. b ≤ docid c) (move_blocks p n cs)
  move_blocks-above b n cs =
      All-move_blocks (λ c. b ≤ docid c) (λ c k. rw (docid-move_block c) k) n cs

  pub move_blocks-IsSorted :
      (n : ℕ) (cs : List Cursor) → IsSorted cs → IsSorted (move_blocks p n cs)
  unfolding move_blocks
  move_blocks-IsSorted zero cs s = s
  move_blocks-IsSorted (suc n) [] s = tt
  move_blocks-IsSorted (suc n) (c ∷ cs) s = (
    rw (docid-move_block c) (move_blocks-above (docid c) n cs s.0),
    move_blocks-IsSorted n cs s.1,
  )

  pub move_blocks-Blocked :
      (P : ℕ → Type 0)
      → ((d : ℕ) → P d → p ≤ d)
      → (n : ℕ) (cs : List Cursor) → All (Blocked P) cs
      → All (Blocked P) (move_blocks p n cs)
  move_blocks-Blocked P h n cs =
      All-move_blocks (Blocked P) (moved_fact (Blocked P) (λ c. Blocked-block_max_next_geq P c p h))
        n cs

  pub doc_score-move_blocks :
      (n : ℕ) (cs : List Cursor) (d : ℕ) → doc_score (move_blocks p n cs) d ≡ doc_score cs d
  unfolding move_blocks doc_score
  doc_score-move_blocks zero cs d = refl
  doc_score-move_blocks (suc n) [] d = refl
  doc_score-move_blocks (suc n) (c ∷ cs) d =
      omega (arith, gives-move_block d c, doc_score-move_blocks n cs d)

  pub total_remaining-move_blocks :
      (n : ℕ) (cs : List Cursor) → total_remaining (move_blocks p n cs) ≡ total_remaining cs
  unfolding move_blocks total_remaining
  total_remaining-move_blocks zero cs = refl
  total_remaining-move_blocks (suc n) [] = refl
  total_remaining-move_blocks (suc n) (c ∷ cs) =
      omega (arith, remaining-move_block c, total_remaining-move_blocks n cs)

  pub docid_at-move_blocks :
      (n : ℕ) (cs : List Cursor) (i : ℕ) → docid_at (move_blocks p n cs) i ≡ docid_at cs i
  unfolding move_blocks docid_at
  docid_at-move_blocks zero cs i = refl
  docid_at-move_blocks (suc n) [] i = refl
  docid_at-move_blocks (suc n) (c ∷ cs) zero = docid-move_block c
  docid_at-move_blocks (suc n) (c ∷ cs) (suc i) = docid_at-move_blocks n cs i

  pub length-move_blocks : (n : ℕ) (cs : List Cursor) → length (move_blocks p n cs) ≡ length cs
  unfolding move_blocks
  length-move_blocks zero cs = refl
  length-move_blocks (suc n) [] = refl
  length-move_blocks (suc n) (c ∷ cs) = ap suc (length-move_blocks n cs)

  pub drop-move_blocks : (n : ℕ) (cs : List Cursor) → drop n (move_blocks p n cs) ≡ drop n cs
  unfolding move_blocks
  drop-move_blocks zero cs = refl
  drop-move_blocks (suc n) [] = refl
  drop-move_blocks (suc n) (c ∷ cs) = drop-move_blocks n cs

  pub move_blocks-SameLists : (n : ℕ) (cs : List Cursor) → SameLists (move_blocks p n cs) cs
  unfolding move_blocks
  move_blocks-SameLists zero cs = Permᴰ-refl (map base cs)
  move_blocks-SameLists (suc n) [] = Permᴰ.nil
  move_blocks-SameLists (suc n) (c ∷ cs) =
      Permᴰ.cons (base-move_block c) (move_blocks-SameLists n cs)

  -- Where the document can enter, the moved blocks bound its scores.
  pub take-move_blocks-weight :
      (P : ℕ → Type 0)
      → P p
      → (n : ℕ) (cs : List Cursor) → All (Blocked P) (move_blocks p n cs)
      → All (λ c. gives p c ≤ block_weight c) (take n (move_blocks p n cs))
  unfolding move_blocks
  take-move_blocks-weight P y zero cs b = tt
  take-move_blocks-weight P y (suc n) [] b = tt
  take-move_blocks-weight P y (suc n) (c ∷ cs) b =
      (weight c b.0, take-move_blocks-weight P y n cs b.1)
    where
      weight :
          (c : Cursor)
          → Blocked P (move_block p c)
          → gives p (move_block p c) ≤ block_weight (move_block p c)
      weight c k =
          subst (λ e. gives p e ≤ block_weight e) (sym (move_block_lem p c))
            (gives-moved_weight P c p (subst (Blocked P) (move_block_lem p c) k) y)
