-- ===== src/Ranges/Correct.antt =====
-- The loops over ranges rank the ranges that they visit, for every algorithm that ranks a range.
use anytime_daat.Prelude.{
  ℕ, zero, suc, ◌+◌, ◌≤◌, ◌<◌, ◌≡◌, refl, sym, ap, fun_ext, ◌∙◌, inl, inr, List, [], ◌∷◌, map,
  Permᴰ, sum_over-map, sum_over-Permᴰ, some, All, All-mono, length, take, get_elem?, Bool, true,
  false, ◌&&◌, not, ◌==◌, Bool-cases, arith,
}
use anytime_daat.Topk.{Topk, would_enter}
use anytime_daat.Rank.{rank, rank_none, rank_refused, rank-IsSound, would_enter_mono}
use anytime_daat.Topk.Order.{IsSound}
use anytime_daat.Cursor.Postings.{contribution_range}
use anytime_daat.Cursor.{Cursor, get_range_max_score}
use anytime_daat.Cursor.Lists.{doc_score, doc_score-le, total_max_score, SameLists, base}
use anytime_daat.Ranges.{
  ClusterMap, RangeAlgorithm, RangeEntry, visit_range, ordered_loop, bound_sum,
}
use anytime_daat.Ranges.Spec.{gives_whole, whole_score, Indexed, rank_ranges, Ranks}
use anytime_daat.Ranges.Enter.{
  RangesBounded-at, set-Ready, rank-set, SameLists-set, Static-SameLists, Indexed-SameLists,
  whole_score-SameLists,
}

in_range : (m : ClusterMap) (i : ℕ) → i < length m → (r : ℕ × ℕ) × (get_elem? m i ≡ some r)
in_range [] i h = absurd (omega arith)
in_range (r ∷ m) zero h = (r, refl)
in_range (r ∷ m) (suc i) h = in_range m i (omega arith)

rank_ranges-cons :
    (f : ℕ → ℕ) (m : ClusterMap) (shard : ℕ) (shards : List ℕ) (q : Topk) (r : ℕ × ℕ)
    → get_elem? m shard ≡ some r
    → rank_ranges f m (shard ∷ shards) q ≡ rank_ranges f m shards (rank f r.0 r.1 q)
unfolding rank_ranges
rank_ranges-cons f m shard shards q r e = rw (e, rank_ranges)

-- No score of the range passes its bound sum.
gives_whole-le :
    (m : ClusterMap) (shard d : ℕ) (c : Cursor) (r : ℕ × ℕ)
    → get_elem? m shard ≡ some r
    → Indexed m c
    → r.0 ≤ d
    → d < r.1
    → gives_whole d c ≤ get_range_max_score c shard
unfolding gives_whole
gives_whole-le m shard d c r at ix from to =
    let bound = (RangesBounded-at 0 shard shard m c r (omega arith) ix.3 at).1 in
    contribution_range c.term_scorer r.0 r.1 (get_range_max_score c shard) d c.list from to bound

whole_score-le :
    (m : ClusterMap) (shard d : ℕ) (cs : List Cursor) (r : ℕ × ℕ)
    → get_elem? m shard ≡ some r
    → All (Indexed m) cs
    → r.0 ≤ d
    → d < r.1
    → whole_score cs d ≤ bound_sum cs shard
unfolding whole_score bound_sum
whole_score-le m shard d [] r at ix from to = omega arith
whole_score-le m shard d (c ∷ cs) r at ix from to = omega (
  arith,
  gives_whole-le m shard d c r at ix.0 from to,
  whole_score-le m shard d cs r at ix.1 from to,
)

pub bound_sum-SameLists :
    (cs ds : List Cursor) (shard : ℕ) → SameLists cs ds → bound_sum cs shard ≡ bound_sum ds shard
unfolding bound_sum base get_range_max_score
bound_sum-SameLists cs ds shard p =
    let f = λ (c : Cursor). get_range_max_score c shard in
    sym (sum_over-map base f cs) ∙ sum_over-Permᴰ f p ∙ sum_over-map base f ds

-- Ranges whose bound sums cannot enter leave the queue as it is.
pub rank_ranges_refused :
    (m : ClusterMap) (cs : List Cursor) (q : Topk) (b : ℕ) (shards : List ℕ)
    → All (Indexed m) cs
    → would_enter q b ≡ false
    → All (λ s. (s < length m) × (bound_sum cs s ≤ b)) shards
    → rank_ranges (whole_score cs) m shards q ≡ q
rank_ranges_refused m cs q b [] ix r h = unfold rank_ranges in refl
rank_ranges_refused m cs q b (s ∷ ss) ix r ((lt, le), h) =
    let (range, at) = in_range m s lt in
    let refused = λ (d : ℕ) (from : range.0 ≤ d) (to : d < range.1).
      would_enter_mono q _ b (omega (arith, whole_score-le m s d cs range at ix from to)) r in
    rank_ranges-cons (whole_score cs) m s ss q range at
    ∙ ap (rank_ranges (whole_score cs) m ss)
        (rank_refused (whole_score cs) range.0 range.1 q refused)
    ∙ rank_ranges_refused m cs q b ss ix r h

module _ {Static : Cursor → Type 0} {Ready : ℕ → Cursor → Type 0} {enter : RangeEntry}
    (run : RangeAlgorithm) (ranks : Ranks Static Ready enter run) (m : ClusterMap) where
  -- What a visit of the range from `start` to `end` leaves.
  record Visited (start end : ℕ) (cs : List Cursor) (q : Topk) (r : List Cursor × Topk)
      : Type 0 where
    same : SameLists r.0 cs
    result : r.1 ≡ rank (whole_score cs) start end q

  visit_range-Visited :
      (checked : Bool) (shard start end : ℕ) (cs : List Cursor) (q : Topk)
      → get_elem? m shard ≡ some (start, end)
      → All (Indexed m) cs
      → All Static cs
      → IsSound q
      → (r : List Cursor × Topk) × (visit_range run enter checked m shard cs q ≡ some r)
        × Visited start end cs q r
  unfolding visit_range
  visit_range-Visited checked shard start end cs q at ix st sound =
      let set = map (enter start shard) cs in
      let v = set-Ready m shard start end at ranks cs ix st in
      let valid = All-mono (ranks.valid end) set v in
      let same = SameLists-set ranks start shard cs in
      let whole = rank-set m shard start end at ranks cs q ix in
      let (r, runs, done) = ranks.ranked end set q v sound in
      elim (Bool-cases (checked && not (would_enter q (total_max_score set)))) [
        | inl skipped ↦ (
          (set, q),
          rw (at, visit_range, skipped),
          record {
            same = same;
            result =
                sym (
                  rank_none (doc_score set) 0 end q (omega arith) (λ d _ k.
                    would_enter_mono q _ _ (doc_score-le end d set valid k) (ground arith)))
                ∙ whole;
          },
        )
        | inr runs_on ↦ (
          r,
          rw (at, visit_range, runs_on) runs,
          record { same = Permᴰ.trans done.same same; result = done.result ∙ whole },
        )
      ]

  -- The same with the range looked up, and the rest of the ranges to be visited from there.
  pub record Continued (shard : ℕ) (cs : List Cursor) (q : Topk) (r : List Cursor × Topk)
      : Type 0 where
    pub same_lists : SameLists r.0 cs
    pub sound : IsSound r.1
    pub indexed : All (Indexed m) r.0
    pub static : All Static r.0
    pub ranks_on :
        (shards : List ℕ)
        → rank_ranges (whole_score r.0) m shards r.1
          ≡ rank_ranges (whole_score cs) m (shard ∷ shards) q

  pub visit_range-Continued :
      (checked : Bool) (shard : ℕ) (cs : List Cursor) (q : Topk)
      → shard < length m
      → All (Indexed m) cs
      → All Static cs
      → IsSound q
      → (r : List Cursor × Topk) × (visit_range run enter checked m shard cs q ≡ some r)
        × Continued shard cs q r
  visit_range-Continued checked shard cs q h ix st sound =
      let ((start, end), at) = in_range m shard h in
      let (r, runs, done) = visit_range-Visited checked shard start end cs q at ix st sound in
      let whole = fun_ext (λ d. whole_score-SameLists r.0 cs d done.same) in
      (
        r,
        runs,
        record {
          same_lists = done.same;
          sound = rw done.result (rank-IsSound (whole_score cs) start end q sound);
          indexed = Indexed-SameLists m r.0 cs done.same ix;
          static = Static-SameLists ranks r.0 cs done.same st;
          ranks_on = λ shards.
              ap (λ f. rank_ranges f m shards r.1) whole
              ∙ ap (rank_ranges (whole_score cs) m shards) done.result
              ∙ sym (rank_ranges-cons (whole_score cs) m shard shards q (start, end) at);
        },
      )

  pub ordered_loop-ranks :
      (checked : Bool) (max processed left : ℕ) (shards : List ℕ) (cs : List Cursor) (q : Topk)
      → max ≡ processed + left
      → All (λ s. s < length m) shards
      → All (Indexed m) cs
      → All Static cs
      → IsSound q
      → ordered_loop run enter checked m max processed shards cs q
        ≡ some (rank_ranges (whole_score cs) m (take left shards) q)
  unfolding ordered_loop
  ordered_loop-ranks checked max processed zero [] cs q e h ix st sound = unfold rank_ranges in refl
  ordered_loop-ranks checked max processed (suc left) [] cs q e h ix st sound =
      unfold rank_ranges in refl
  ordered_loop-ranks checked max processed zero (s ∷ ss) cs q e h ix st sound =
      let stop : (processed == max) ≡ true = ground arith in
      rw (stop, ordered_loop) (unfold rank_ranges in refl)
  ordered_loop-ranks checked max processed (suc left) (s ∷ ss) cs q e h ix st sound =
      let (r, runs, go) = visit_range-Continued checked s cs q h.0 ix st sound in
      let more : (processed == max) ≡ false = ground arith in
      rw (more, ordered_loop)
        (rw runs (
          ordered_loop-ranks checked max (suc processed) left ss r.0 r.1 (omega arith) h.1
            go.indexed go.static go.sound
          ∙ ap some (go.ranks_on (take left ss))))
