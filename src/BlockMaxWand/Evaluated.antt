-- ===== src/BlockMaxWand/Evaluated.antt =====
-- The round that evaluates the document of the pivot.
use native.Mathlib.Decide.{dec_le}
use native.Mathlib.Nat.{zero-add}
use anytime_daat.Prelude.{
  ℕ, zero, suc, ◌≤◌, ◌<◌, ◌≡◌, sym, ap, ◌∙◌, inl, inr, List, [], ◌∷◌, All, All-Permᴰ, Permᴰ-symm,
  take, drop, ◌==◌, true, false, Bool-cases, arith,
}
use anytime_daat.Topk.{Topk, would_enter, insert}
use anytime_daat.Topk.Insert.{insert-Entered}
use anytime_daat.Cursor.{Cursor, docid}
use anytime_daat.Cursor.Valid.{IsValid, gives, gives_before}
use anytime_daat.Cursor.Lists.{doc_score, sort_enums, sort_enums-Permᴰ}
use anytime_daat.Wand.{docid_at, take_scores}
use anytime_daat.Wand.Scored.{Taken, take_scores-Taken}
use anytime_daat.Wand.Correct.{Round, Round-scores, doc_score-sort_enums}
use anytime_daat.BlockMaxWand.{block_weight, block_upper_bound, block_scores, next_all}
use anytime_daat.BlockMaxWand.Blocks.{Blocked, Blocked-next}
use anytime_daat.BlockMaxWand.Pivot.{LastAt, Enters}
use anytime_daat.BlockMaxWand.Scores.{next_all-take_scores, weights_at-take, insert-block_scores}
use anytime_daat.BlockMaxWand.Round.{
  Inv, Kept, Blocked-fewer, would_enter_lower, would_enter_before,
}

next_all-Blocked :
    (P : ℕ → Type 0) (p : ℕ) (cs : List Cursor)
    → All (Blocked P) cs
    → All (Blocked P) (next_all p cs)
unfolding next_all
next_all-Blocked P p [] b = tt
next_all-Blocked P p (c ∷ cs) b = elim (Bool-cases (docid c == p)) [
  | inl e ↦ rw e (Blocked-next P c b.0, next_all-Blocked P p cs b.1)
  | inr e ↦ rw e b
]

-- The cursors behind the document give it nothing.
weights_all :
    (end p n : ℕ) (cs : List Cursor)
    → All (IsValid end) cs
    → All (λ c. gives p c ≤ block_weight c) (take n cs)
    → All (λ c. p < docid c) (drop n cs)
    → All (λ c. gives p c ≤ block_weight c) cs
weights_all end p zero [] v h b = tt
weights_all end p zero (c ∷ cs) v h b =
    let none_given = gives_before end c v.0 p b.0 in
    (omega (arith, none_given), weights_all end p zero cs v.1 tt b.1)
weights_all end p (suc n) [] v h b = tt
weights_all end p (suc n) (c ∷ cs) v h b = (h.0, weights_all end p n cs v.1 h.1 b)

Taken-lower :
    (end p : ℕ) (cs : List Cursor) (r : ℕ × List Cursor)
    → Taken end p 0 cs r
    → (d : ℕ) → doc_score (sort_enums r.1) d ≤ doc_score cs d
Taken-lower end p cs r t d = elim (dec_le d p) [
  | yes upto ↦ omega (arith, doc_score-sort_enums r.1 d, t.done d upto)
  | no later ↦ omega (arith, doc_score-sort_enums r.1 d, t.later d (omega (arith, later)))
]

-- The round with the scores of WAND, of which the blocks are known too.
evaluated-Kept :
    (end p s : ℕ) (cs : List Cursor) (q : Topk)
    → Inv end cs q
    → Taken end p 0 cs (take_scores p 0 cs)
    → Round end cs q (sort_enums (take_scores p 0 cs).1, insert q s p)
    → Kept end cs q (sort_enums (take_scores p 0 cs).1, insert q s p)
evaluated-Kept end p s cs q inv t round =
    let left = (take_scores p 0 cs).1 in
    let moved = next_all-Blocked (Enters q cs) p cs inv.blocked in
    let kept : All (Blocked (Enters q cs)) (sort_enums left) =
      All-Permᴰ (Blocked (Enters q cs)) (Permᴰ-symm (sort_enums-Permᴰ left))
        (rw (next_all-take_scores p 0 cs) at moved) in
    record {
      inv = record {
        valid = round.valid;
        sorted = round.sorted;
        blocked =
            Blocked-fewer cs (sort_enums left) q (insert q s p)
              (λ d h.
                would_enter_lower q _ _ (Taken-lower end p cs _ t d)
                  (would_enter_before q s p _ inv.sound h))
              (sort_enums left) kept;
        sound = (insert-Entered q s p inv.sound).sound;
      };
      same = round.same;
      ranks = round.ranks;
      fewer = round.fewer;
    }

pub evaluate-Kept :
    (end p pivot : ℕ) (cs : List Cursor) (q : Topk)
    → Inv end cs q
    → p < end
    → ((d : ℕ) → d < p → would_enter q (doc_score cs d) ≡ false)
    → LastAt p cs pivot
    → (Enters q cs p → All (λ c. gives p c ≤ block_weight c) (take (suc pivot) cs))
    → (p == docid_at cs 0) ≡ true
    → Kept end cs q (
      sort_enums (next_all p cs),
      insert q (block_scores q p 0 (block_upper_bound (take (suc pivot) cs)) cs) p,
    )
unfolding docid_at
evaluate-Kept end p pivot [] q inv inside refused last weights e = absurd (omega (arith, last.0))
evaluate-Kept end p pivot (c ∷ cs) q inv inside refused last weights e =
    let bound = block_upper_bound (take (suc pivot) (c ∷ cs)) in
    let first : docid c ≡ p = ground (arith, e) in
    let above : All (λ x. p ≤ docid x) (c ∷ cs) = (omega arith, rw first at inv.sorted.0) in
    let t = take_scores-Taken end p 0 (c ∷ cs) inside inv.valid inv.sorted above in
    let offered : insert q (block_scores q p 0 bound (c ∷ cs)) p
        ≡ insert q (take_scores p 0 (c ∷ cs)).0 p =
      insert-block_scores end p inside q bound (c ∷ cs) inv.valid inv.sorted above
        (λ h. weights_all end p (suc pivot) (c ∷ cs) inv.valid (weights h) last.2)
        (weights_at-take p (suc pivot) (c ∷ cs) inv.sorted last.2)
      ∙ ap (λ x. insert q x p) (sym (rw zero-add at t.scored)) in
    let round =
      Round-scores end p c cs q first inside (λ d k. rw zero-add (refused d k)) inv.valid
        inv.sorted in
    rw (next_all-take_scores p 0 (c ∷ cs), offered)
      (evaluated-Kept end p (take_scores p 0 (c ∷ cs)).0 (c ∷ cs) q inv t round)
