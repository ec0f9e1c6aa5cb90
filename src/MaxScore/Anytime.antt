-- ===== src/MaxScore/Anytime.antt =====
-- The queries of MaxScore over ranges.
use Prim.Native.Nat.{min}
use anytime_daat.Prelude.{
  ℕ, ◌≤◌, ◌<◌, ◌≡◌, refl, ap, subst, fun_ext, ◌∙◌, inl, inr, List, [], ◌∷◌, some, map, drop,
  get_elem?, get_or, ◌==◌, Bool-cases, Option-cases, lt→ltb, All, All-Permᴰ, Permᴰ-symm, length,
  take, true, false, arith,
}
use anytime_daat.Topk.{Topk, topk_queue, would_enter}
use anytime_daat.Rank.{would_enter-zero, would_enter_mono}
use anytime_daat.Topk.Order.{IsSound}
use anytime_daat.Topk.Counts.{count_above}
use anytime_daat.Rank.Within.{documents_where, Rises}
use anytime_daat.Ranges.Complete.{take-range_order, range_order-Permᴰ, rank_ranges-Rises}
use anytime_daat.Cursor.{Cursor}
use anytime_daat.Cursor.Lists.{total_max_score}
use anytime_daat.Ranges.{ClusterMap, bound_sum, enter_range}
use anytime_daat.Ranges.Spec.{whole_score, Indexed, All-NoBlocks, rank_ranges, in_ranges}
use anytime_daat.Ranges.Enter.{le-mul}
use anytime_daat.Ranges.Correct.{ordered_loop-ranks}
use anytime_daat.Ranges.Order.{range_order, Scored, sorted-Scored, sort_ranges-IsFalling}
use anytime_daat.Ranges.Boundsum.{boundsum_loop-ranks}
use anytime_daat.Ranges.Deadline.{Timed, Visits-all, timeout_loop-Visits}
use anytime_daat.MaxScore.{
  sorted, maxscore_until, ordered_range_query, boundsum_range_query, reads_clock,
  boundsum_timeout_query, calc_upper_bounds, update_non_essential_lists,
}
use anytime_daat.MaxScore.Document.{update-refused}
use anytime_daat.MaxScore.Query.{
  sorted-Permᴰ, maxscore-Ranks, whole_score-sorted, range_order-sorted,
}

-- The clock is read after a range whose bound sum can enter: some list is essential there.
bound_sum-entered :
    (m : ClusterMap) (start shard : ℕ) (cs : List Cursor)
    → All (Indexed m) cs
    → bound_sum cs shard ≤ total_max_score (map (enter_range start shard) cs)
unfolding total_max_score bound_sum enter_range anytime_daat.Cursor.update_range_max_score
    anytime_daat.Cursor.get_range_max_score anytime_daat.Cursor.global_geq
bound_sum-entered m start shard [] ix = omega arith
bound_sum-entered m start shard (c ∷ cs) ix = omega (
  arith,
  bound_sum-entered m start shard cs ix.1,
  le-mul (get_or c.range_scores shard 0) (get_or c.range_scores shard 0) c.query_weight
      (omega arith) ix.0.2,
)

some_essential :
    (q : Topk) (cs : List Cursor)
    → would_enter q (total_max_score cs) ≡ true
    → 0 < update_non_essential_lists q (calc_upper_bounds cs) (length cs)
some_essential q cs h =
    let none_left : would_enter q (total_max_score (drop (length cs) cs)) ≡ false =
      rw (drop_length cs) (unfold total_max_score in would_enter-zero q) in
    let (_, refused) = update-refused q cs (length cs) none_left in
    elim (Bool-cases (update_non_essential_lists q (calc_upper_bounds cs) (length cs) == 0)) [
      | inl e ↦
          let zero_left : update_non_essential_lists q (calc_upper_bounds cs) (length cs) ≡ 0 =
            ground (arith, e) in
          absurd (cc (h, rw zero_left at refused))
      | inr e ↦ ground (arith, e)
    ]
  where
    drop_length : (cs : List Cursor) → drop (length cs) cs ≡ []
    drop_length [] = refl
    drop_length (c ∷ cs) = drop_length cs

reads_clock-entered :
    (m : ClusterMap) (r : ℕ × ℕ) (cs : List Cursor) (q : Topk)
    → All (Indexed m) cs
    → Scored cs (length m) r
    → would_enter q r.1 ≡ true
    → reads_clock m r.0 cs q ≡ true
unfolding reads_clock
reads_clock-entered m r cs q ix (_, bound) enters = elim (Option-cases (get_elem? m r.0)) [
  | inl e ↦ rw (e, reads_clock) refl
  | inr ((start, end), e) ↦
      let set = map (enter_range start r.0) cs in
      let le : r.1 ≤ total_max_score set =
        omega (arith, bound, bound_sum-entered m start r.0 cs ix) in
      let can_enter : would_enter q (total_max_score set) ≡ true =
        elim (Bool-cases (would_enter q (total_max_score set))) [
          | inl y ↦ y
          | inr n' ↦ absurd (cc (enters, would_enter_mono q r.1 (total_max_score set) le n'))
        ] in
      rw (e, reads_clock) (lt→ltb _ _ (some_essential q set can_enter))
]

module _ (c : Cursor) (cs : List Cursor) (m : ClusterMap) (q : Topk) (ix : All (Indexed m) (c ∷ cs))
    (sound : IsSound q) where
  indexed : All (Indexed m) (sorted (c ∷ cs))
  indexed = All-Permᴰ (Indexed m) (Permᴰ-symm (sorted-Permᴰ (c ∷ cs))) ix

  -- The order of the cursors plays no part in the ranking.
  unsorted :
      (shards : List ℕ)
      → rank_ranges (whole_score (sorted (c ∷ cs))) m shards q
        ≡ rank_ranges (whole_score (c ∷ cs)) m shards q
  unsorted shards = ap (λ f. rank_ranges f m shards q) (whole_score-sorted (c ∷ cs))

  unsorted_order :
      (n : ℕ)
      → rank_ranges (whole_score (sorted (c ∷ cs))) m (take n (range_order (sorted (c ∷ cs)) m)) q
        ≡ rank_ranges (whole_score (c ∷ cs)) m (take n (range_order (c ∷ cs) m)) q
  unsorted_order n =
      unsorted (take n (range_order (sorted (c ∷ cs)) m))
      ∙ ap (λ ss. rank_ranges (whole_score (c ∷ cs)) m (take n ss) q)
          (range_order-sorted (c ∷ cs) m)

  -- The query over selected ranges ends, and ranks the documents of the first `max_clusters` of
  -- them by their whole scores.
  -- All this for cursors that fit the map (Indexed), a sound queue and selected ranges of the map.
  pub maxscore_ordered_ranks :
      (selected : List ℕ) (max_clusters : ℕ)
      → All (λ s. s < length m) selected
      → ordered_range_query (c ∷ cs) m selected max_clusters q
        ≡ some (rank_ranges (whole_score (c ∷ cs)) m (take max_clusters selected) q)
  unfolding ordered_range_query
  maxscore_ordered_ranks selected max_clusters h =
      ordered_loop-ranks maxscore_until maxscore-Ranks m true max_clusters 0 max_clusters selected
        (sorted (c ∷ cs)) q (omega arith) h indexed (All-NoBlocks (sorted (c ∷ cs))) sound
      ∙ ap some (unsorted (take max_clusters selected))

  -- The query by bound sums ends, and leaves the queue that ranks the first `max_clusters` ranges
  -- of the order, also where it ended before at a bound that cannot enter.
  -- All this for cursors that fit the map (Indexed) and a sound queue.
  pub maxscore_boundsum_ranks :
      (max_clusters : ℕ)
      → boundsum_range_query (c ∷ cs) m max_clusters q
        ≡ some (rank_ranges (whole_score (c ∷ cs)) m (take max_clusters (range_order (c ∷ cs) m)) q)
  unfolding boundsum_range_query
  maxscore_boundsum_ranks max_clusters =
      boundsum_loop-ranks maxscore_until maxscore-Ranks m false max_clusters 0 max_clusters _
        (sorted (c ∷ cs)) q (omega arith) (sorted-Scored (sorted (c ∷ cs)) m)
        (sort_ranges-IsFalling _) indexed (All-NoBlocks (sorted (c ∷ cs))) sound
      ∙ ap some (unfold range_order in unsorted_order max_clusters)

  -- The query with a deadline ends, and has ranked the first n ranges of the order, for some n
  -- up to all of them. The clock was in time after every number of ranges from 1 up to n - 1
  -- (InTime); and either n is 1 at least and the clock is late after n ranges (IsLate), or the
  -- queue is the one that all ranges leave (Timed).
  -- All this for cursors that fit the map (Indexed) and a sound queue.
  pub maxscore_timeout_ranks :
      (timeout risk scale : ℕ) (clock : ℕ → ℕ)
      → Timed
          (λ n. rank_ranges (whole_score (c ∷ cs)) m (take n (range_order (c ∷ cs) m)) q)
          (length m)
          risk
          scale
          timeout
          clock
          (boundsum_timeout_query (c ∷ cs) m timeout risk scale clock q)
  unfolding boundsum_timeout_query
  maxscore_timeout_ranks timeout risk scale clock =
      subst
        (λ ranked.
          Timed ranked (length m) risk scale timeout clock
            (boundsum_timeout_query (c ∷ cs) m timeout risk scale clock q))
        (fun_ext unsorted_order)
        (Visits-all m (sorted (c ∷ cs)) q risk scale timeout clock _ (
          unfold range_order in
          timeout_loop-Visits maxscore_until maxscore-Ranks m (reads_clock m) risk scale timeout
            clock (reads_clock-entered m) 0 0 _ (sorted (c ∷ cs)) q (inr (refl, refl))
            (sorted-Scored (sorted (c ∷ cs)) m) (sort_ranges-IsFalling _) indexed
            (All-NoBlocks (sorted (c ∷ cs))) sound))

  -- With room for every range the query by bound sums is safe: over a map whose ranges rise up
  -- to the size of the collection (Rises), as those of all_ranges do, it ends, and a fresh queue
  -- then holds the scores of the k best of all documents that the ranges hold (in_ranges),
  -- whatever ranges the bounds let it skip.
  -- All this for cursors that fit the map (Indexed) and a sound queue.
  pub maxscore_boundsum_safe :
      (max_clusters k documents_count n : ℕ)
      → q ≡ topk_queue k
      → 1 ≤ k
      → length m ≤ max_clusters
      → Rises 0 documents_count m
      → (r : Topk) × (boundsum_range_query (c ∷ cs) m max_clusters q ≡ some r)
        × (count_above n r.entries
            ≡ min k (
                count_above n
                  (documents_where (whole_score (c ∷ cs)) (λ d. in_ranges d m) documents_count 0)))
  maxscore_boundsum_safe max_clusters k documents_count n fresh room enough rises =
      let f = whole_score (c ∷ cs) in
      let order = range_order (c ∷ cs) m in
      (
        rank_ranges f m order (topk_queue k),
        maxscore_boundsum_ranks max_clusters
            ∙ ap some (
                ap (λ ss. rank_ranges f m ss q) (take-range_order max_clusters (c ∷ cs) m enough)
                ∙ ap (rank_ranges f m order) fresh),
        rank_ranges-Rises f m documents_count k order n room rises (range_order-Permᴰ (c ∷ cs) m),
      )
