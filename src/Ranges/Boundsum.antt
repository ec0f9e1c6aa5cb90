-- ===== src/Ranges/Boundsum.antt =====
-- The visit of ranges by falling bound sums, up to a number of ranges.
use anytime_daat.Prelude.{
  ℕ, zero, suc, ◌+◌, ◌≡◌, refl, sym, ap, ◌∙◌, inl, inr, List, [], ◌∷◌, some, All, length, take,
  true, false, Bool, ◌==◌, Bool-cases, arith,
}
use anytime_daat.Topk.{Topk, would_enter}
use anytime_daat.Topk.Order.{IsSound}
use anytime_daat.Cursor.{Cursor}
use anytime_daat.Ranges.{ClusterMap, RangeAlgorithm, RangeEntry, boundsum_loop}
use anytime_daat.Ranges.Spec.{whole_score, Indexed, rank_ranges, Ranks}
use anytime_daat.Ranges.Correct.{visit_range-Continued, rank_ranges_refused}
use anytime_daat.Ranges.Order.{ids, IsFalling, Scored, falling_refused, Scored-SameLists}

module _ {Static : Cursor → Type 0} {Ready : ℕ → Cursor → Type 0} {enter : RangeEntry}
    (run : RangeAlgorithm) (ranks : Ranks Static Ready enter run) (m : ClusterMap) where
  -- Behind a bound that cannot enter no range changes the queue.
  pub stopped :
      (left : ℕ) (r : ℕ × ℕ) (rs : List (ℕ × ℕ)) (cs : List Cursor) (q : Topk)
      → would_enter q r.1 ≡ false
      → All (Scored cs (length m)) (r ∷ rs)
      → IsFalling (r ∷ rs)
      → All (Indexed m) cs
      → rank_ranges (whole_score cs) m (take left (ids (r ∷ rs))) q ≡ q
  stopped left r rs cs q no_entry h f ix =
      rank_ranges_refused m cs q r.1 (take left (ids (r ∷ rs))) ix no_entry
        (falling_refused cs (length m) r.1 left (r ∷ rs) h (omega arith, f.0))

  -- The visit by falling bound sums ranks the ranges that the limit admits, all of them, also
  -- where it ends at a bound that cannot enter.
  pub boundsum_loop-ranks :
      (checked : Bool) (max processed left : ℕ) (rs : List (ℕ × ℕ)) (cs : List Cursor) (q : Topk)
      → max ≡ processed + left
      → All (Scored cs (length m)) rs
      → IsFalling rs
      → All (Indexed m) cs
      → All Static cs
      → IsSound q
      → boundsum_loop run enter checked m max processed rs cs q
        ≡ some (rank_ranges (whole_score cs) m (take left (ids rs)) q)
  unfolding boundsum_loop
  boundsum_loop-ranks checked max processed zero [] cs q e h f ix st sound =
      unfold rank_ranges in refl
  boundsum_loop-ranks checked max processed (suc left) [] cs q e h f ix st sound =
      unfold rank_ranges ids in refl
  boundsum_loop-ranks checked max processed zero (r ∷ rs) cs q e h f ix st sound =
      let stop : (processed == max) ≡ true = ground arith in
      rw (stop, boundsum_loop) (unfold rank_ranges in refl)
  boundsum_loop-ranks checked max processed (suc left) (r ∷ rs) cs q e h f ix st sound =
      let (s, runs, go) = visit_range-Continued run ranks m checked r.0 cs q h.0.0 ix st sound in
      let more : (processed == max) ≡ false = ground arith in
      elim (Bool-cases (would_enter q r.1)) [
        | inl enters ↦
            rw (more, enters, boundsum_loop)
              (rw runs (
                boundsum_loop-ranks checked max (suc processed) left rs s.0 s.1 (omega arith)
                  (Scored-SameLists cs s.0 (length m) rs go.same_lists h.1) f.1 go.indexed go.static
                  go.sound
                ∙ ap some (go.ranks_on (take left (ids rs)) ∙ unfold ids in refl)))
        | inr refused ↦
            rw (more, refused, boundsum_loop)
              (ap some (sym (stopped (suc left) r rs cs q refused h f ix)))
      ]
