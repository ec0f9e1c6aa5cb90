-- ===== src/MaxScore/Correct.antt =====
-- MaxScore ranks the documents of a range as the exhaustive evaluation does.
use mathlib.Core.List.{map-append}
use anytime_daat.Prelude.{
  ℕ, zero, suc, ◌+◌, ◌-◌, ◌<◌, ◌≡◌, refl, ap, sym, ◌∙◌, inl, inr, List, ◌++◌, map, Permᴰ,
  Permᴰ-refl, Permᴰ-append, subst, Bool, true, false, All, All-append, length, drop, leb, ltb,
  Bool-cases, arith, some,
}
use anytime_daat.Topk.{Topk, would_enter, insert, try_insert}
use anytime_daat.Rank.{rank, rank_refused, rank_empty, would_enter_mono, insert_refused}
use anytime_daat.Cursor.{Cursor}
use anytime_daat.Cursor.Valid.{IsValid}
use anytime_daat.Cursor.Lists.{base, doc_score, doc_score-le, total_max_score, SameLists}
use anytime_daat.MaxScore.{
  State, calc_upper_bounds, essential_pass, lookup_pass, split_at, visit, maxscore_loop,
}
use anytime_daat.MaxScore.Passes.{Essential, Lookup, essential_pass-Essential, lookup_pass-Lookup}
use anytime_daat.MaxScore.Document.{
  whole, Inv, Passed, passed-Inv, passed-ranks, drop-calc_upper_bounds, doc_score-append,
}
use anytime_daat.MaxScore.Split.{new_lookup, whole-split_at, split-Inv, split_none}

-- The ranking that is still to be done from a state.
abbrev pub to_rank : ℕ → State → Topk
to_rank end s = rank (doc_score (whole s)) s.next_docid end s.topk

-- What one document leaves: another state from which the ranking is the same, and nothing to
-- rank where the loop stops.
record Visited (end : ℕ) (upper_bounds : List ℕ) (s : State) (r : State × Bool) : Type 0 where
  inv : Inv end upper_bounds r.0
  same : SameLists (whole r.0) (whole s)
  grows : s.next_docid < r.0.next_docid
  ranks : to_rank end s ≡ to_rank end r.0
  stops : r.1 ≡ false → to_rank end r.0 ≡ r.0.topk

SameLists-append :
    (cs ds es ls : List Cursor)
    → SameLists es cs
    → SameLists ls ds
    → SameLists (es ++ ls) (cs ++ ds)
SameLists-append cs ds es ls p r =
    rw (map-append base es ls, map-append base cs ds) (Permᴰ-append p r)

-- Nothing is to be ranked from a state whose cursors cannot bring anything in together.
pub rank_whole_refused :
    (end lo : ℕ) (cs : List Cursor) (q : Topk)
    → All (IsValid end) cs
    → would_enter q (total_max_score cs) ≡ false
    → rank (doc_score cs) lo end q ≡ q
rank_whole_refused end lo cs q v h =
    rank_refused (doc_score cs) lo end q
      (λ d _ k. would_enter_mono q _ _ (doc_score-le end d cs v k) h)

whole-IsValid :
    (end : ℕ) (upper_bounds : List ℕ) (s : State)
    → Inv end upper_bounds s
    → All (IsValid end) (whole s)
whole-IsValid end upper_bounds s inv =
    All-append (IsValid end) s.essential s.lookup inv.valid_essential inv.valid_lookup

module _ (end : ℕ) (upper_bounds : List ℕ) (s : State) (inv : Inv end upper_bounds s)
    (inside : s.next_docid < end) where
  abbrev current : ℕ
  current = s.next_docid

  abbrev ep : ℕ × ℕ × List Cursor
  ep = essential_pass current 0 end s.essential

  abbrev lp : Bool × ℕ × List Cursor
  lp = lookup_pass s.topk current ep.0 (drop (length s.essential) upper_bounds) s.lookup

  abbrev behind : Topk → State
  behind q = record { essential = ep.2; lookup = lp.2; next_docid = ep.1; topk = q }

  essential : Essential end current 0 end s.essential ep
  essential =
      essential_pass-Essential end current 0 end s.essential inside inv.valid_essential inv.above

  lookup : Lookup s.topk end current ep.0 s.lookup lp
  lookup =
      let bounds : drop (length s.essential) upper_bounds ≡ calc_upper_bounds s.lookup =
        rw inv.bounds (drop-calc_upper_bounds s.essential s.lookup) in
      rw bounds (lookup_pass-Lookup s.topk end current ep.0 s.lookup inside inv.valid_lookup)

  passes : Passed end s ep.1 ep.2 lp.2
  passes = record {
    essential = essential.kept;
    lookup = lookup.kept;
    above = essential.above;
    grows = essential.grows inside;
    within = essential.least;
  }

  total : ep.0 + doc_score s.lookup current ≡ doc_score (whole s) current
  total = omega (arith, essential.scored, doc_score-append s.essential s.lookup current)

  -- The state behind the document, with the queue that ranks it.
  behind-Visited :
      (q : Topk)
      → q ≡ insert s.topk (doc_score (whole s) current) current
      → Visited end upper_bounds s (behind q, true)
  behind-Visited q e = rw e (record {
    inv = passed-Inv end upper_bounds s inv inside ep.1 ep.2 lp.2 passes;
    same = SameLists-append s.essential s.lookup ep.2 lp.2 essential.kept.same lookup.kept.same;
    grows = essential.grows inside;
    ranks = passed-ranks end upper_bounds s inv inside ep.1 ep.2 lp.2 passes;
    stops = λ k. cc;
  })

  same_rank : (i : ℕ) (t : State) → to_rank end (split_at i t) ≡ to_rank end t
  unfolding split_at
  same_rank i t = ap (λ cs. rank (doc_score cs) t.next_docid end t.topk) (whole-split_at i t)

  nothing_left :
      (t : State)
      → Visited end upper_bounds s (t, true)
      → new_lookup upper_bounds t ≡ 0
      → to_rank end t ≡ t.topk
  nothing_left t v e =
      rank_whole_refused end t.next_docid (whole t) t.topk (whole-IsValid end upper_bounds t v.inv)
        (split_none end upper_bounds t v.inv e)

  -- The same with the split moved.
  split-Visited :
      (t : State) (b : Bool)
      → Visited end upper_bounds s (t, true)
      → (ltb 0 (new_lookup upper_bounds t) ≡ b)
      → Visited end upper_bounds s (split_at (new_lookup upper_bounds t) t, b)
  unfolding split_at
  split-Visited t b v e =
      let i = new_lookup upper_bounds t in
      let inv' = split-Inv end upper_bounds t v.inv in
      record {
        inv = inv';
        same = subst (λ cs. SameLists cs (whole s)) (sym (whole-split_at i t)) v.same;
        grows = v.grows;
        ranks = v.ranks ∙ sym (same_rank i t);
        stops = λ k. same_rank i t ∙ nothing_left t v (ground (arith, e, k));
      }

  skipped-Visited : lp.0 ≡ false → Visited end upper_bounds s (behind s.topk, true)
  skipped-Visited e =
      let refused = rw total at (lookup.refused e) in
      behind-Visited s.topk (sym (insert_refused s.topk _ current refused))

  tried-Visited :
      lp.0 ≡ true → Visited end upper_bounds s (behind (try_insert s.topk lp.1 current).0, true)
  tried-Visited e =
      behind-Visited _
        (unfold insert in ap (λ x. (try_insert s.topk x current).0) (lookup.scored e ∙ total))

  visit-Visited : Visited end upper_bounds s (visit end upper_bounds s)
  unfolding visit
  visit-Visited = elim (Bool-cases lp.0) [
    | inr skipped ↦ rw skipped (skipped-Visited skipped)
    | inl looked_up ↦ elim (Bool-cases (try_insert s.topk lp.1 current).1) [
      | inl inserted ↦ rw (looked_up, inserted) (split-Visited _ _ (tried-Visited looked_up) refl)
      | inr refused ↦ rw (looked_up, refused) (tried-Visited looked_up)
    ]
  ]

not_over : (end n : ℕ) → leb end n ≡ false → n < end
not_over end n h = ground arith

-- What the loop returns, with enough fuel.
pub record Looped (end : ℕ) (s r : State) : Type 0 where
  pub same : SameLists (whole r) (whole s)
  pub result : r.topk ≡ to_rank end s

pub maxscore_loop-Looped :
    (fuel end : ℕ) (upper_bounds : List ℕ) (s : State)
    → end - s.next_docid < fuel
    → Inv end upper_bounds s
    → (r : State) × (maxscore_loop fuel end upper_bounds s ≡ some r) × Looped end s r
unfolding maxscore_loop
maxscore_loop-Looped zero end upper_bounds s h inv = absurd (omega arith)
maxscore_loop-Looped (suc fuel) end upper_bounds s h inv =
    elim (Bool-cases (leb end s.next_docid)) [
      | inl over ↦ (
        s,
        rw (over, maxscore_loop),
        record {
          same = Permᴰ-refl (map base (whole s));
          result = sym (rank_empty (doc_score (whole s)) s.next_docid end s.topk (ground arith));
        },
      )
      | inr inside ↦
          let v = visit-Visited end upper_bounds s inv (ground arith) in
          let s' = (visit end upper_bounds s).0 in
          elim (Bool-cases (visit end upper_bounds s).1) [
            | inl goes_on ↦
                let (r, runs, l) =
                  maxscore_loop-Looped fuel end upper_bounds s'
                    (omega (arith, v.grows, not_over end s.next_docid inside)) v.inv in
                (
                  r,
                  rw (inside, goes_on, maxscore_loop) runs,
                  record { same = Permᴰ.trans l.same v.same; result = l.result ∙ sym v.ranks },
                )
            | inr stops ↦ (
              s',
              rw (inside, stops, maxscore_loop),
              record { same = v.same; result = sym (v.ranks ∙ v.stops stops) },
            )
          ]
    ]
