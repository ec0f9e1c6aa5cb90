-- ===== src/Wand/Correct.antt =====
-- WAND ranks the documents of a range as the exhaustive evaluation does.
use native.Mathlib.Nat.{zero-add}
use anytime_daat.Prelude.{
  ℕ, zero, suc, ◌≤◌, ◌<◌, ◌≡◌, ap, ◌∙◌, sym, inl, inr, List, [], ◌∷◌, map, Permᴰ, Permᴰ-symm,
  Permᴰ-refl, map-Permᴰ, some, All, All-Permᴰ, All-mono, length, sum_over-Permᴰ, ◌==◌, Option-cases,
  Bool-cases, arith,
}
use anytime_daat.Topk.{Topk, insert}
use anytime_daat.Rank.{
  rank, rank_none, rank_skip, rank_cong, rank_visit, would_enter_mono, would_enter-zero,
}
use anytime_daat.Cursor.{Cursor, docid}
use anytime_daat.Cursor.Valid.{IsValid, gives, remaining}
use anytime_daat.Cursor.Lists.{
  sort_enums, sort_enums-Permᴰ, sort_enums-IsSorted, IsSorted, doc_score, total_remaining, base,
  SameLists,
}
use anytime_daat.Ranges.{enter_range}
use anytime_daat.Ranges.Spec.{Ranked, Ranks, NoBlocks, plain-Ranks}
use anytime_daat.Wand.{
  find_pivot, docid_at, take_scores, next_list, advance_list, visit_pivot, wand_loop, wand_until,
  wand_query,
}
use anytime_daat.Wand.Pivot.{Refused, PivotOk, find_pivot-PivotOk}
use anytime_daat.Wand.Scored.{take_scores-Taken, take_scores_fewer}
use anytime_daat.Wand.Advanced.{advance_list-Advanced, docid_at_mono, next_list_found}

-- From the state `cs`, `q` to the state `r` the ranking of the range stays the same.
pub record Round (end : ℕ) (cs : List Cursor) (q : Topk) (r : List Cursor × Topk) : Type 0 where
  pub valid : All (IsValid end) r.0
  pub sorted : IsSorted r.0
  pub same : SameLists r.0 cs
  pub ranks : rank (doc_score cs) 0 end q ≡ rank (doc_score r.0) 0 end r.1
  pub fewer : total_remaining r.0 < total_remaining cs

pub doc_score-sort_enums : (cs : List Cursor) (d : ℕ) → doc_score (sort_enums cs) d ≡ doc_score cs d
unfolding doc_score
doc_score-sort_enums cs d = sum_over-Permᴰ (gives d) (sort_enums-Permᴰ cs)

pub total_remaining-sort_enums :
    (cs : List Cursor) → total_remaining (sort_enums cs) ≡ total_remaining cs
unfolding total_remaining
total_remaining-sort_enums cs = sum_over-Permᴰ remaining (sort_enums-Permᴰ cs)

-- The pivot's document is evaluated.
pub Round-scores :
    (end p : ℕ) (c : Cursor) (cs : List Cursor) (q : Topk)
    → docid c ≡ p
    → p < end
    → Refused q p 0 (c ∷ cs)
    → All (IsValid end) (c ∷ cs)
    → IsSorted (c ∷ cs)
    → Round end
        (c ∷ cs)
        q
        (sort_enums (take_scores p 0 (c ∷ cs)).1, insert q (take_scores p 0 (c ∷ cs)).0 p)
Round-scores end p c cs q e h r v s =
    let above = All-mono (λ x (k : docid c ≤ docid x). rw e at k) cs s.0 in
    let t = take_scores-Taken end p 0 (c ∷ cs) h v s (omega arith, above) in
    let left = (take_scores p 0 (c ∷ cs)).1 in
    record {
      valid = All-Permᴰ (IsValid end) (Permᴰ-symm (sort_enums-Permᴰ left)) t.valid;
      sorted = sort_enums-IsSorted left;
      same = Permᴰ.trans (map-Permᴰ base (sort_enums-Permᴰ left)) t.same;
      ranks =
          rank_visit (doc_score (c ∷ cs)) (doc_score (sort_enums left)) p end q h
            (λ d k. rw zero-add at (r d k)) (λ d k. sym (doc_score-sort_enums left d ∙ t.later d k))
            (λ d k. doc_score-sort_enums left d ∙ t.done d k)
          ∙ ap (λ x. rank (doc_score (sort_enums left)) 0 end (insert q x p))
              (rw zero-add at (sym t.scored));
      fewer = omega (arith, take_scores_fewer end p c cs e h v s, total_remaining-sort_enums left);
    }

-- A cursor moves up to the pivot's document.
Round-advances :
    (end p i : ℕ) (cs : List Cursor) (q : Topk)
    → i < length cs
    → docid_at cs i < p
    → p < end
    → Refused q p 0 cs
    → All (IsValid end) cs
    → IsSorted cs
    → Round end cs q (advance_list cs i p, q)
Round-advances end p i cs q l k h r v s =
    let a = advance_list-Advanced end p cs i l k (omega arith) v s in
    let ds = advance_list cs i p in
    let refused = λ (d : ℕ) (lt : d < p). let h = r d lt in rw zero-add at h in
    record {
      valid = a.valid;
      sorted = a.sorted;
      same = a.same;
      ranks =
          rank_skip (doc_score cs) 0 end q p (omega arith) (omega arith) (λ d _ b. refused d b)
          ∙ rank_cong (doc_score cs) p end q (doc_score ds) (λ d b _. sym (a.kept d b))
          ∙ sym (
              rank_skip (doc_score ds) 0 end q p (omega arith) (omega arith)
                (λ d _ b. would_enter_mono q _ _ (a.lower d) (refused d b)));
      fewer = a.fewer;
    }

visit_pivot-Round :
    (end i : ℕ) (cs : List Cursor) (q : Topk)
    → PivotOk q end 0 cs (some i)
    → All (IsValid end) cs
    → IsSorted cs
    → Round end cs q (visit_pivot cs q i)
unfolding visit_pivot
visit_pivot-Round end i [] q (l, h, r) v s = absurd (omega arith)
visit_pivot-Round end i (c ∷ cs) q (l, h, r) v s =
    let p = docid_at (c ∷ cs) i in
    elim (Bool-cases (p == docid_at (c ∷ cs) 0)) [
      | inl e ↦ rw e (Round-scores end p c cs q (unfold docid_at in ground arith) h r v s)
      | inr e ↦
          let (j, other) = next_list_found (c ∷ cs) p i (ground arith) in
          let upto = docid_at_mono (c ∷ cs) (next_list (c ∷ cs) p i) i s j l in
          rw e (Round-advances end p _ (c ∷ cs) q (omega arith) (omega arith) h r v s)
    ]

wand_loop-Ranked :
    (fuel end : ℕ) (cs : List Cursor) (q : Topk)
    → total_remaining cs < fuel
    → All (IsValid end) cs
    → IsSorted cs
    → (r : List Cursor × Topk) × (wand_loop fuel end cs q ≡ some r) × Ranked end cs q r
unfolding wand_loop
wand_loop-Ranked zero end cs q h v s = absurd (omega arith)
wand_loop-Ranked (suc fuel) end cs q h v s =
    let ok = find_pivot-PivotOk q end cs v s in
    elim (Option-cases (find_pivot q end 0 cs)) [
      | inl e ↦
          let none_enters = rw e at ok in
          (
            (cs, q),
            rw (e, wand_loop),
            record {
              same = Permᴰ-refl (map base cs);
              result = sym (
                  rank_none (doc_score cs) 0 end q (omega arith)
                    (λ d _ k. rw zero-add at (none_enters d k)));
            },
          )
      | inr (i, e) ↦
          let round = visit_pivot-Round end i cs q (rw e at ok) v s in
          let (r, runs, done) =
            wand_loop-Ranked fuel end _ (visit_pivot cs q i).1 (omega (arith, round.fewer))
              round.valid round.sorted in
          (
            r,
            rw (e, wand_loop) runs,
            record {
              same = Permᴰ.trans done.same round.same;
              result = done.result ∙ sym round.ranks;
            },
          )
    ]

pub wand_until-Ranked :
    (end : ℕ) (cs : List Cursor) (q : Topk)
    → All (IsValid end) cs
    → (r : List Cursor × Topk) × (wand_until end cs q ≡ some r) × Ranked end cs q r
unfolding wand_until
wand_until-Ranked end cs q v =
    let perm = sort_enums-Permᴰ cs in
    let (r, runs, done) =
      wand_loop-Ranked (suc (total_remaining cs)) end (sort_enums cs) q
        (omega (arith, total_remaining-sort_enums cs)) (All-Permᴰ (IsValid end) (Permᴰ-symm perm) v)
        (sort_enums-IsSorted cs) in
    (
      r,
      runs,
      record {
        same = Permᴰ.trans done.same (map-Permᴰ base perm);
        result =
            done.result
            ∙ rank_cong (doc_score (sort_enums cs)) 0 end q (doc_score cs)
                (λ d _ k. doc_score-sort_enums cs d);
      },
    )

pub wand-Ranks : Ranks NoBlocks IsValid enter_range wand_until
wand-Ranks = plain-Ranks wand_until (λ end cs q v _. wand_until-Ranked end cs q v)

-- WAND ends, and its queue is the one to which every document before `max_docid` was offered
-- with its whole score, for cursors whose lists ascend below a universe of `max_docid` at least
-- and whose maximum scores bound the scores of their postings.
pub wand_query_exhaustive :
    (cs : List Cursor) (max_docid : ℕ) (q : Topk)
    → All (IsValid max_docid) cs
    → wand_query cs max_docid q ≡ some (rank (doc_score cs) 0 max_docid q)
unfolding wand_query
wand_query_exhaustive [] max_docid q v = ap some (
    sym (
      rank_none (doc_score []) 0 max_docid q (omega arith)
        (λ d _ k. unfold doc_score in would_enter-zero q)))
wand_query_exhaustive (c ∷ cs) max_docid q v =
    let (r, runs, done) = wand_until-Ranked max_docid (c ∷ cs) q v in
    rw (runs, wand_query) (ap some done.result)
