-- ===== src/BlockMaxWand/Blocks.antt =====
-- What the blocks of a cursor promise for the postings that it has left.

use anytime_daat.Prelude.{
  ℕ, ◌*◌, ◌≤◌, ◌<◌, ◌≡◌, ◌⊎◌, refl, inl, inr, List, [], ◌∷◌, All, All-mono, ltb, false, Bool-cases,
  arith,
}
use anytime_daat.Cursor.{
  Cursor, Posting, Block, next, next_geq, next_block, last_of, best_of, block_max_docid,
  block_max_score, block_max_next_geq,
}
use anytime_daat.Cursor.Postings.{contribution, All-after_first, All-drop_below}
use anytime_daat.Cursor.Valid.{gives}
use anytime_daat.BlockMaxWand.{move_block, block_weight}

-- The first block that does not end before the posting bounds its score; there is one.
abbrev pub Fits : (ℕ → ℕ → ℕ) → List Block → Posting → Type 0
Fits f [] x = ⊥
Fits f (b ∷ bs) x =
    ((x.doc ≤ b.last) × (f x.doc x.freq ≤ b.best)) ⊎ ((b.last < x.doc) × Fits f bs x)

pub Fits-next_block :
    (f : ℕ → ℕ → ℕ) (d : ℕ) (bs : List Block) (x : Posting)
    → d ≤ x.doc
    → Fits f bs x
    → Fits f (next_block d bs) x
unfolding next_block
Fits-next_block f d [] x h k = k
Fits-next_block f d (b ∷ []) x h k = k
Fits-next_block f d (b ∷ e ∷ bs) x h k = elim (Bool-cases (ltb b.last d)) [
  | inr e' ↦ rw e' k
  | inl e' ↦ rw e' (elim k [
    | inl here ↦ absurd (ground (arith, here.0))
    | inr later ↦ Fits-next_block f d (e ∷ bs) x h later.1
  ])
]

pub Fits-here :
    (f : ℕ → ℕ → ℕ) (bs : List Block) (x : Posting)
    → Fits f bs x
    → x.doc ≤ last_of bs
    → f x.doc x.freq ≤ best_of bs
unfolding last_of best_of
Fits-here f [] x k h = absurd k
Fits-here f (b ∷ bs) x (inl here) h = here.1
Fits-here f (b ∷ bs) x (inr later) h = absurd (omega (arith, later.0))

-- The block that `next_block` comes to bounds what stands at the document.
pub Fits-moved :
    (f : ℕ → ℕ → ℕ) (bs : List Block) (x : Posting)
    → Fits f (next_block x.doc bs) x
    → f x.doc x.freq ≤ best_of (next_block x.doc bs)
unfolding next_block
Fits-moved f [] x k = absurd k
Fits-moved f (b ∷ []) x (inl here) = unfold best_of in here.1
Fits-moved f (b ∷ []) x (inr later) = absurd later.1
Fits-moved f (b ∷ e ∷ bs) x k = elim (Bool-cases (ltb b.last x.doc)) [
  | inl e' ↦ rw e' (Fits-moved f (e ∷ bs) x (rw e' at k))
  | inr e' ↦ rw e' (Fits-here f (b ∷ e ∷ bs) x (rw e' at k) (unfold last_of in ground (arith, e')))
]

-- The blocks of the cursor fit the postings left at the documents of which `P` holds.
abbrev pub Blocked : (ℕ → Type 0) → Cursor → Type 0
Blocked P c = (1 ≤ c.query_weight) × All (λ x. P x.doc → Fits c.term_scorer c.blocks x) c.rest

module _ (P : ℕ → Type 0) where
  pub Blocked-mono :
      (Q : ℕ → Type 0) → ((d : ℕ) → Q d → P d) → (c : Cursor) → Blocked P c → Blocked Q c
  Blocked-mono Q h c b = (b.0, All-mono (λ x k y. k (h x.doc y)) c.rest b.1)

  pub Blocked-next : (c : Cursor) → Blocked P c → Blocked P (next c)
  unfolding next
  Blocked-next c b = (b.0, All-after_first _ c.rest b.1)

  pub Blocked-next_geq : (c : Cursor) (d : ℕ) → Blocked P c → Blocked P (next_geq c d)
  unfolding next_geq
  Blocked-next_geq c d b = (b.0, All-drop_below _ d c.rest b.1)

  pub Blocked-block_max_next_geq :
      (c : Cursor) (p : ℕ)
      → ((d : ℕ) → P d → p ≤ d)
      → Blocked P c
      → Blocked P (block_max_next_geq c p)
  unfolding block_max_next_geq
  Blocked-block_max_next_geq c p h b = (
    b.0,
    All-mono (λ x k y. Fits-next_block c.term_scorer p c.blocks x (h x.doc y) (k y)) c.rest b.1,
  )

pub contribution-le_at :
    (f : ℕ → ℕ → ℕ) (d m : ℕ) (ps : List Posting)
    → All (λ x. x.doc ≡ d → f x.doc x.freq ≤ m) ps
    → contribution f d ps ≤ m
unfolding contribution
contribution-le_at f d m [] h = omega arith
contribution-le_at f d m (x ∷ ps) h = ground (arith, contribution-le_at f d m ps, h.0)

le_weight : (a b w : ℕ) → a ≤ b → 1 ≤ w → a ≤ b * w
le_weight a b w h k = grind arith

-- A document that the block reaches scores its weight at most.
pub gives-block_weight :
    (P : ℕ → Type 0) (c : Cursor) (d : ℕ)
    → Blocked P c
    → P d
    → d ≤ block_max_docid c
    → gives d c ≤ block_weight c
unfolding gives block_weight block_max_docid block_max_score
gives-block_weight P c d (w, b) y h =
    le_weight _ _ c.query_weight
      (contribution-le_at c.term_scorer d _ c.rest
        (All-mono (λ x k e. Fits-here c.term_scorer c.blocks x (k (rw e y)) (rw e h)) c.rest b))
      w

-- So does the document that the blocks were moved to.
pub gives-moved_weight :
    (P : ℕ → Type 0) (c : Cursor) (p : ℕ)
    → Blocked P (block_max_next_geq c p)
    → P p
    → gives p (block_max_next_geq c p) ≤ block_weight (block_max_next_geq c p)
unfolding gives block_weight block_max_score block_max_next_geq
gives-moved_weight P c p (w, b) y =
    le_weight _ _ c.query_weight
      (contribution-le_at c.term_scorer p _ c.rest
        (All-mono (λ x k e. moved x e (k (rw e y))) c.rest b))
      w
  where
    moved :
        (x : Posting)
        → x.doc ≡ p
        → Fits c.term_scorer (next_block p c.blocks) x
        → c.term_scorer x.doc x.freq ≤ best_of (next_block p c.blocks)
    moved x e k = rw (← e) (Fits-moved c.term_scorer c.blocks x (rw (← e) at k))

next_block_still : (d : ℕ) (bs : List Block) → ltb (last_of bs) d ≡ false → next_block d bs ≡ bs
unfolding next_block last_of
next_block_still d [] h = refl
next_block_still d (b ∷ []) h = refl
next_block_still d (b ∷ e ∷ bs) h = rw h refl

-- The test before the move of the blocks only saves the call.
pub move_block_lem : (p : ℕ) (c : Cursor) → move_block p c ≡ block_max_next_geq c p
unfolding move_block block_max_docid block_max_next_geq
move_block_lem p c = elim (Bool-cases (ltb (last_of c.blocks) p)) [
  | inl e ↦ rw e refl
  | inr e ↦ rw (e, next_block_still p c.blocks e) refl
]
