-- ===== src/WandData/Built.antt =====
-- The cursors on built WAND data are what the queries ask for.

use native.Mathlib.Nat.{le_of_lt}
use anytime_daat.Prelude.{
  ℕ, zero, suc, ◌+◌, ◌*◌, ◌≤◌, ◌<◌, ◌≡◌, refl, sym, subst, ◌∙◌, List, [], ◌∷◌, All, All-both,
  length, get_or, arith,
}
use anytime_daat.Cursor.{Block, Posting, get_range_max_score}
use anytime_daat.Cursor.Postings.{Ascending, Bounded, Below}
use anytime_daat.Cursor.Valid.{IsValid}
use anytime_daat.Ranges.Spec.{RangeBounded, RangesBounded, Indexed}
use anytime_daat.BlockMaxWand.Blocks.{Fits}
use anytime_daat.BlockMaxWand.Query.{Ready, Static}
use anytime_daat.WandData.{
  Term, range_score, range_scores, max_element, static_block_partition, doc_to_range, all_ranges,
  make_cursor, cursor_of, cursors_of,
}
use anytime_daat.WandData.Blocks.{static_block_partition-Fits, max_element-Fits}
use anytime_daat.WandData.RangeScores.{best_in, Along, range_score-best_in, best_in-le}
use anytime_daat.WandData.Ends.{IsEnds, range_from, doc_to_range_lem, doc_to_range_mono}

-- The list ascends below the size of the collection, and the term stands in the query.
abbrev pub IsTerm : ℕ → Term → Type 0
IsTerm u t = Ascending (t.first ∷ t.others) × Below u (t.first ∷ t.others) × (1 ≤ t.weight)

Along-mono :
    (g : ℕ → ℕ) (u : ℕ)
    → ((d e : ℕ) → d ≤ e → e < u → g d ≤ g e)
    → (ps : List Posting) → Ascending ps
    → Below u ps
    → Along g ps
Along-mono g u h [] a b = tt
Along-mono g u h (p ∷ ps) (a, more) (b, bs) =
    (All-both (λ x k l. h p.doc x.doc (le_of_lt k) l) ps a bs, Along-mono g u h ps more bs)

get_or-range_scores :
    (k n i j : ℕ) (rs : List (ℕ × ℕ))
    → i < n
    → j ≡ k + i
    → get_or (range_scores k n rs) i 0 ≡ range_score j rs
unfolding range_scores
get_or-range_scores k zero i j rs h e = absurd (omega arith)
get_or-range_scores k (suc n) zero j rs h e = let same : j ≡ k = omega arith in rw same refl
get_or-range_scores k (suc n) (suc i) j rs h e =
    get_or-range_scores (suc k) n i j rs (omega arith) (omega arith)

le-weighted : (a b w : ℕ) → a ≤ b → 1 ≤ w → a ≤ w * b
le-weighted a b w h k = grind arith

Fits-Bounded :
    (f : ℕ → ℕ → ℕ) (bs : List Block) (w u : ℕ)
    → 1 ≤ w
    → (ps : List Posting) → All (Fits f bs) ps
    → Bounded f (w * max_element bs) u ps
Fits-Bounded f bs w u h [] k = tt
Fits-Bounded f bs w u h (p ∷ ps) (k, ks) =
    (λ _. le-weighted _ _ w (max_element-Fits f bs p k) h, Fits-Bounded f bs w u h ps ks)

range-Bounded :
    (f : ℕ → ℕ → ℕ) (start end k m : ℕ) (g : ℕ → ℕ)
    → ((d : ℕ) → start ≤ d → d < end → g d ≡ k)
    → (ps : List Posting) → best_in f g k ps ≡ m
    → RangeBounded f start end m ps
range-Bounded f start end k m g inside ps e =
    subst (λ b. RangeBounded f start end b ps) e (bounded _ ps (best_in-le f g k ps))
  where
    bounded :
        (b : ℕ) (xs : List Posting)
        → All (λ x. g x.doc ≡ k → f x.doc x.freq ≤ b) xs
        → RangeBounded f start end b xs
    bounded b [] h = tt
    bounded b (x ∷ xs) (h, hs) = (λ from upto. h (inside x.doc from upto), bounded b xs hs)

module _ (size u : ℕ) (ends : List ℕ) (h : IsEnds 0 u ends) (t : Term) (ok : IsTerm u t) where
  range_max :
      (k : ℕ)
      → k < length ends
      → get_range_max_score (cursor_of size ends u t) k
        ≡ best_in t.term_scorer (doc_to_range ends) k (t.first ∷ t.others)
  unfolding get_range_max_score cursor_of make_cursor
  range_max k lt =
      get_or-range_scores 0 (length ends) k k _ lt (omega arith)
      ∙ range_score-best_in t.term_scorer (doc_to_range ends) k size t.first t.others (
          Along-mono (doc_to_range ends) u (doc_to_range_mono u ends h) (t.first ∷ t.others) ok.0
            ok.1)

  cursor_of-RangesBounded :
      (k lo : ℕ) (es : List ℕ)
      → IsEnds lo u es
      → length ends ≡ k + length es
      → ((d : ℕ) → lo ≤ d → doc_to_range ends d ≡ range_from k d es)
      → RangesBounded k (all_ranges lo es) (cursor_of size ends u t)
  unfolding all_ranges range_from cursor_of make_cursor
  cursor_of-RangesBounded k lo [] i len at = tt
  cursor_of-RangesBounded k lo (e ∷ es) i len at = (
    i.1,
    range-Bounded t.term_scorer lo e k (get_range_max_score (cursor_of size ends u t) k)
        (doc_to_range ends) inside (t.first ∷ t.others) (sym (range_max k (omega arith))),
    cursor_of-RangesBounded (suc k) (suc e) es i.2 (omega arith)
        (λ d le. at d (omega arith) ∙ ground arith),
  )
    where
      inside : (d : ℕ) → lo ≤ d → d < e → doc_to_range ends d ≡ k
      inside d a b = at d a ∙ ground arith

  cursor_of-Indexed : Indexed (all_ranges 0 ends) (cursor_of size ends u t)
  cursor_of-Indexed = (
    unfold cursor_of make_cursor in ok.0,
    unfold cursor_of make_cursor in ok.1,
    unfold cursor_of make_cursor in ok.2,
    cursor_of-RangesBounded 0 0 ends h (omega arith) (λ d _. doc_to_range_lem u ends h d),
  )

  cursor_of-Static : Static (cursor_of size ends u t)
  unfolding cursor_of make_cursor
  cursor_of-Static = (
    ok.2,
    static_block_partition-Fits t.term_scorer size (doc_to_range ends) t.first t.others ok.0,
  )

  cursor_of-IsValid : IsValid u (cursor_of size ends u t)
  unfolding cursor_of make_cursor
  cursor_of-IsValid =
      let blocks =
        (static_block_partition t.term_scorer size (doc_to_range ends) t.first t.others).blocks in
      record {
        ascending = ok.0;
        below = ok.1;
        bounded =
            Fits-Bounded t.term_scorer blocks t.weight u ok.2 (t.first ∷ t.others)
              cursor_of-Static.1;
        reach = omega arith;
      }

-- The cursors on WAND data that were built of the lists of the query's terms, with blocks of a
-- fixed size, fit the ranges that the queries visit, are valid up to the size of the collection,
-- and have blocks that bound the scores of the postings that each covers. So the data fill all
-- that the queries ask of their cursors.
-- The ends of the clusters rise up to the size of the collection, and the lists ascend below it.
pub cursors_of-Indexed :
    (size u : ℕ) (ends : List ℕ) (ts : List Term)
    → IsEnds 0 u ends
    → All (IsTerm u) ts
    → All (Indexed (all_ranges 0 ends)) (cursors_of size ends u ts)
      × All (IsValid u) (cursors_of size ends u ts)
      × All Static (cursors_of size ends u ts)
      × All (Ready u) (cursors_of size ends u ts)
unfolding cursors_of
cursors_of-Indexed size u ends [] h ok = (tt, tt, tt, tt)
cursors_of-Indexed size u ends (t ∷ ts) h (ok, oks) =
    let (indexed, valid, static, ready) = cursors_of-Indexed size u ends ts h oks in
    let v = cursor_of-IsValid size u ends h t ok in
    let s = cursor_of-Static size u ends h t ok in
    (
      (cursor_of-Indexed size u ends h t ok, indexed),
      (v, valid),
      (s, static),
      ((v, unfold cursor_of make_cursor in s.0, unfold cursor_of make_cursor in s.1), ready),
    )
