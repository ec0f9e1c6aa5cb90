-- ===== src/BlockMaxWand/Correct.antt =====
-- Block-max WAND ranks the documents of a range as the exhaustive evaluation does.
use native.Mathlib.Decide.{dec_le}
use native.Mathlib.Nat.{zero-add}
use anytime_daat.Prelude.{
  ℕ, zero, suc, ◌+◌, ◌≤◌, ◌<◌, ◌≡◌, sym, ◌∙◌, inl, inr, List, [], ◌∷◌, map, Permᴰ, Permᴰ-refl,
  Permᴰ-symm, map-Permᴰ, some, false, All, All-Permᴰ, length, take, ◌==◌, Option-cases, Bool-cases,
  arith,
}
use anytime_daat.Topk.{Topk, would_enter}
use anytime_daat.Topk.Order.{IsSound}
use anytime_daat.Rank.{rank_none, rank_cong}
use anytime_daat.Cursor.{Cursor}
use anytime_daat.Cursor.Valid.{IsValid, gives}
use anytime_daat.Cursor.Lists.{
  doc_score, total_remaining, base, sort_enums, sort_enums-Permᴰ, sort_enums-IsSorted,
}
use anytime_daat.Ranges.Spec.{Ranked}
use anytime_daat.Wand.{find_pivot, docid_at}
use anytime_daat.Wand.Pivot.{PivotOk, find_pivot-PivotOk}
use anytime_daat.Wand.Correct.{doc_score-sort_enums, total_remaining-sort_enums}
use anytime_daat.BlockMaxWand.{
  extend_pivot, move_blocks, block_weight, block_upper_bound, heaviest, max_score_at, visit_blocks,
  block_loop, block_until,
}
use anytime_daat.BlockMaxWand.Blocks.{Blocked}
use anytime_daat.BlockMaxWand.Moved.{
  move_blocks-IsValid, move_blocks-IsSorted, move_blocks-Blocked, move_blocks-SameLists,
  doc_score-move_blocks, total_remaining-move_blocks, docid_at-move_blocks, length-move_blocks,
  drop-move_blocks, take-move_blocks-weight,
}
use anytime_daat.BlockMaxWand.Pivot.{LastAt, Enters, extend_pivot-LastAt}
use anytime_daat.BlockMaxWand.Round.{Inv, Kept, Blocked-fewer, heaviest-le, skip-Kept, advance-Kept}
use anytime_daat.BlockMaxWand.Evaluated.{evaluate-Kept}

heaviest-le_pivot :
    (pivot weight : ℕ) (cs : List Cursor) → heaviest pivot weight 0 (take pivot cs) ≤ pivot
heaviest-le_pivot pivot weight cs =
    heaviest-le pivot pivot weight 0 (take pivot cs) (omega arith) (length-take_le pivot cs)
  where
    length-take_le : (n : ℕ) (cs : List Cursor) → 0 + length (take n cs) ≤ n
    length-take_le zero cs = omega arith
    length-take_le (suc n) [] = omega arith
    length-take_le (suc n) (c ∷ cs) = omega (arith, length-take_le n cs)

-- The blocks of the cursors up to the pivot are moved first.
module _ (end p n : ℕ) (cs : List Cursor) (q : Topk) (inv : Inv end cs q)
    (refused : (d : ℕ) → d < p → would_enter q (doc_score cs d) ≡ false) where
  from_pivot : (d : ℕ) → Enters q cs d → p ≤ d
  from_pivot d h = elim (dec_le p d) [
    | yes le ↦ le
    | no gt ↦ let r = refused d (omega (arith, gt)) in cc
  ]

  moved_blocked : All (Blocked (Enters q cs)) (move_blocks p n cs)
  moved_blocked = move_blocks-Blocked p (Enters q cs) from_pivot n cs inv.blocked

  moved_Inv : Inv end (move_blocks p n cs) q
  moved_Inv = record {
    valid = move_blocks-IsValid p end n cs inv.valid;
    sorted = move_blocks-IsSorted p n cs inv.sorted;
    blocked =
        Blocked-fewer cs (move_blocks p n cs) q q (λ d h. rw (doc_score-move_blocks p n cs d) at h)
          (move_blocks p n cs) moved_blocked;
    sound = inv.sound;
  }

  moved_refused : (d : ℕ) → d < p → would_enter q (doc_score (move_blocks p n cs) d) ≡ false
  moved_refused d h = rw (doc_score-move_blocks p n cs d) (refused d h)

  moved_weights :
      Enters q (move_blocks p n cs) p
      → All (λ c. gives p c ≤ block_weight c) (take n (move_blocks p n cs))
  moved_weights h =
      take-move_blocks-weight p (Enters q cs) (rw (doc_score-move_blocks p n cs p) at h) n cs
        moved_blocked

  moved_Kept : (r : List Cursor × Topk) → Kept end (move_blocks p n cs) q r → Kept end cs q r
  moved_Kept r k = record {
    inv = k.inv;
    same = Permᴰ.trans k.same (move_blocks-SameLists p n cs);
    ranks =
        rank_cong (doc_score cs) 0 end q (doc_score (move_blocks p n cs))
          (λ d _ _. sym (doc_score-move_blocks p n cs d))
        ∙ k.ranks;
    fewer = omega (arith, k.fewer, total_remaining-move_blocks p n cs);
  }

moved_LastAt :
    (p pivot : ℕ) (cs : List Cursor)
    → LastAt p cs pivot
    → LastAt p (move_blocks p (suc pivot) cs) pivot
moved_LastAt p pivot cs (inside, last, behind) = (
  rw (length-move_blocks p (suc pivot) cs) inside,
  docid_at-move_blocks p (suc pivot) cs pivot ∙ last,
  rw (drop-move_blocks p (suc pivot) cs) behind,
)

visit_blocks-Kept :
    (end i : ℕ) (cs : List Cursor) (q : Topk)
    → PivotOk q end 0 cs (some i)
    → Inv end cs q
    → Kept end cs q (visit_blocks end cs q i)
unfolding visit_blocks
visit_blocks-Kept end i cs q (l, h, r) inv =
    let p = docid_at cs i in
    let pivot = extend_pivot cs i in
    let ms = move_blocks p (suc pivot) cs in
    let refused = λ (d : ℕ) (lt : d < p). let k = r d lt in rw zero-add at k in
    let last = moved_LastAt p pivot cs (extend_pivot-LastAt cs i inv.sorted l) in
    let inv' = moved_Inv end p (suc pivot) cs q inv refused in
    let refused' = moved_refused end p (suc pivot) cs q inv refused in
    let weights = moved_weights end p (suc pivot) cs q inv refused in
    moved_Kept end p (suc pivot) cs q inv refused _
      (elim (Bool-cases (would_enter q (block_upper_bound (take (suc pivot) ms)))) [
        | inl e ↦ elim (Bool-cases (p == docid_at ms 0)) [
          | inl at ↦ rw (e, at) (evaluate-Kept end p pivot ms q inv' h refused' last weights at)
          | inr other ↦
              rw (e, other) (advance-Kept end p pivot ms q inv' h refused' last weights other)
        ]
        | inr e ↦ rw e (
            skip-Kept end p pivot ms q inv' h refused' last weights _
              (heaviest-le_pivot pivot (max_score_at ms pivot) ms) e)
      ])

block_loop-Ranked :
    (fuel end : ℕ) (cs : List Cursor) (q : Topk)
    → total_remaining cs < fuel
    → Inv end cs q
    → (r : List Cursor × Topk) × (block_loop fuel end cs q ≡ some r) × Ranked end cs q r
unfolding block_loop
block_loop-Ranked zero end cs q h inv = absurd (omega arith)
block_loop-Ranked (suc fuel) end cs q h inv =
    let ok = find_pivot-PivotOk q end cs inv.valid inv.sorted in
    elim (Option-cases (find_pivot q end 0 cs)) [
      | inl e ↦
          let none_enters = rw e at ok in
          (
            (cs, q),
            rw (e, block_loop),
            record {
              same = Permᴰ-refl (map base cs);
              result = sym (
                  rank_none (doc_score cs) 0 end q (omega arith)
                    (λ d _ k. rw zero-add at (none_enters d k)));
            },
          )
      | inr (i, e) ↦
          let round = visit_blocks-Kept end i cs q (rw e at ok) inv in
          let (r, runs, done) =
            block_loop-Ranked fuel end _ (visit_blocks end cs q i).1 (omega (arith, round.fewer))
              round.inv in
          (
            r,
            rw (e, block_loop) runs,
            record {
              same = Permᴰ.trans done.same round.same;
              result = done.result ∙ sym round.ranks;
            },
          )
    ]

pub block_until-Ranked :
    (end : ℕ) (cs : List Cursor) (q : Topk)
    → All (IsValid end) cs
    → All (Blocked (Enters q cs)) cs
    → IsSound q
    → (r : List Cursor × Topk) × (block_until end cs q ≡ some r) × Ranked end cs q r
unfolding block_until
block_until-Ranked end cs q v b sound =
    let perm = sort_enums-Permᴰ cs in
    let fits =
      Blocked-fewer cs (sort_enums cs) q q (λ d h. rw (doc_score-sort_enums cs d) at h)
        (sort_enums cs) (All-Permᴰ (Blocked (Enters q cs)) (Permᴰ-symm perm) b) in
    let (r, runs, done) =
      block_loop-Ranked (suc (total_remaining cs)) end (sort_enums cs) q
        (omega (arith, total_remaining-sort_enums cs))
        (record {
          valid = All-Permᴰ (IsValid end) (Permᴰ-symm perm) v;
          sorted = sort_enums-IsSorted cs;
          blocked = fits;
          sound = sound;
        }) in
    (
      r,
      runs,
      record {
        same = Permᴰ.trans done.same (map-Permᴰ base perm);
        result =
            done.result
            ∙ rank_cong (doc_score (sort_enums cs)) 0 end q (doc_score cs)
                (λ d _ k. doc_score-sort_enums cs d);
      },
    )
