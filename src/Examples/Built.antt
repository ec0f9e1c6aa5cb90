-- ===== src/Examples/Built.antt =====
-- WAND data of two lists in two clusters, the queries on them, and the ranges.
use anytime_daat.Prelude.{length, map, get_or, ℕ, ◌≡◌, refl, List, [], ◌∷◌, not, ◌&&◌, All, arith}
use anytime_daat.Topk.{topk_queue}
use anytime_daat.Cursor.{Posting}
use anytime_daat.Cursor.Valid.{IsValid}
use anytime_daat.Ranges.Spec.{Indexed}
use anytime_daat.Wand.{wand_query}
use anytime_daat.MaxScore.{maxscore_query}
use anytime_daat.RankedOr.{ranked_or_query}
use anytime_daat.BlockMaxWand.{block_max_wand_query}
use anytime_daat.BlockMaxWand.Blocks.{Fits}
use anytime_daat.BlockMaxWand.Query.{Ready, Static}
use anytime_daat.WandBuilder.{builder, add_sequences, get_enum}
use anytime_daat.WandBuilder.Flat.{flat}
use anytime_daat.WandBuilder.RoundTrip.{blocks_of, ranges_of, get_enum-add_sequences}
use anytime_daat.WandData.{
  Term, Partition, max_element, static_block_partition, block_partition, range_partition,
  doc_ranges, range_score, doc_to_range, all_ranges, cursors_of,
}
use anytime_daat.WandData.Blocks.{static_block_partition-Fits}
use anytime_daat.WandData.RangeScores.{best_in, range_score-best_in}
use anytime_daat.Ranges.Spec.{in_ranges}
use anytime_daat.WandData.Ends.{IsEnds, ends_behind, elem, in_ranges-all_ranges}
use anytime_daat.WandData.Built.{IsTerm, cursors_of-Indexed}
use anytime_daat.WandData.Queries.{built_queries_agree}
use anytime_daat.Examples.{at, fresh-IsSound}

abbrev frequency_of : ℕ → ℕ → ℕ
frequency_of d f = f

abbrev term : Posting → List Posting → Term
term p ps = record { term_scorer = frequency_of; weight = 1; first = p; others = ps }

abbrev terms : List Term
terms = term (at 0 2) (at 3 1 ∷ at 5 4 ∷ []) ∷ term (at 3 5) (at 4 1 ∷ at 7 2 ∷ []) ∷ []

abbrev ends : List ℕ
ends = 4 ∷ 8 ∷ []

ends-IsEnds : IsEnds 0 8 ends
ends-IsEnds = (omega arith, omega arith, (omega arith, omega arith, omega arith))

terms-IsTerm : All (IsTerm 8) terms
terms-IsTerm = (
  (
    ((omega arith, (omega arith, tt)), ((omega arith, tt), (tt, tt))),
    (omega arith, (omega arith, (omega arith, tt))),
    omega arith,
  ),
  (
    (
      ((omega arith, (omega arith, tt)), ((omega arith, tt), (tt, tt))),
      (omega arith, (omega arith, (omega arith, tt))),
      omega arith,
    ),
    tt,
  ),
)

-- Document 4 is in no range.
all_ranges_run : all_ranges 0 ends ≡ (0, 4) ∷ (5, 8) ∷ []
unfolding all_ranges
all_ranges_run = refl

in_ranges-all_ranges_example :
    in_ranges 4 (all_ranges 0 ends) ≡ (ends_behind 4 ends && not (elem 4 ends))
in_ranges-all_ranges_example = in_ranges-all_ranges 8 4 ends ends-IsEnds

static_block_partition-Fits_example :
    All
      (Fits frequency_of
        (static_block_partition frequency_of 2
          (doc_to_range ends)
          (at 0 2)
          (at 3 1 ∷ at 5 4 ∷ [])).blocks)
      (at 0 2 ∷ at 3 1 ∷ at 5 4 ∷ [])
static_block_partition-Fits_example =
    static_block_partition-Fits frequency_of 2 (doc_to_range ends) (at 0 2) (at 3 1 ∷ at 5 4 ∷ [])
      terms-IsTerm.0.0

range_score-best_in_example :
    range_score 1 (static_block_partition frequency_of 2 (λ d. d) (at 0 2) (at 1 3 ∷ [])).ranges
    ≡ best_in frequency_of (λ d. d) 1 (at 0 2 ∷ at 1 3 ∷ [])
range_score-best_in_example =
    range_score-best_in frequency_of (λ d. d) 1 2 (at 0 2) (at 1 3 ∷ [])
      ((omega arith, tt), (tt, tt))

cursors_of-Indexed_example :
    All (Indexed (all_ranges 0 ends)) (cursors_of 2 ends 8 terms)
    × All (IsValid 8) (cursors_of 2 ends 8 terms)
    × All Static (cursors_of 2 ends 8 terms)
    × All (Ready 8) (cursors_of 2 ends 8 terms)
cursors_of-Indexed_example = cursors_of-Indexed 2 8 ends terms ends-IsEnds terms-IsTerm

built_queries_agree_example :
    (block_max_wand_query (cursors_of 2 ends 8 terms) 8 (topk_queue 2)
      ≡ ranked_or_query (cursors_of 2 ends 8 terms) 8 (topk_queue 2))
    × (wand_query (cursors_of 2 ends 8 terms) 8 (topk_queue 2)
        ≡ ranked_or_query (cursors_of 2 ends 8 terms) 8 (topk_queue 2))
    × (maxscore_query (cursors_of 2 ends 8 terms) 8 (topk_queue 2)
        ≡ ranked_or_query (cursors_of 2 ends 8 terms) 8 (topk_queue 2))
built_queries_agree_example =
    built_queries_agree 2 8 ends terms (topk_queue 2) ends-IsEnds terms-IsTerm fresh-IsSound

abbrev partition_of : Term → Partition
partition_of t = static_block_partition t.term_scorer 2 (doc_to_range ends) t.first t.others

block_count : length (flat (blocks_of (map partition_of terms))) ≡ 4
unfolding flat static_block_partition block_partition range_partition doc_to_range doc_ranges
block_count = refl

range_count : length (flat (ranges_of (map partition_of terms))) ≡ 4
unfolding flat static_block_partition block_partition range_partition doc_to_range doc_ranges
range_count = refl

-- The second list's.
get_enum-add_sequences_example :
    ((get_enum (add_sequences builder (map partition_of terms)) 1).blocks
      ≡ (partition_of (term (at 3 5) (at 4 1 ∷ at 7 2 ∷ []))).blocks)
    × ((get_enum (add_sequences builder (map partition_of terms)) 1).ranges
        ≡ (partition_of (term (at 3 5) (at 4 1 ∷ at 7 2 ∷ []))).ranges)
    × (get_or (add_sequences builder (map partition_of terms)).max_term_weight 1 0
        ≡ max_element (partition_of (term (at 3 5) (at 4 1 ∷ at 7 2 ∷ []))).blocks)
get_enum-add_sequences_example =
    get_enum-add_sequences (map partition_of terms) 1
      (partition_of (term (at 3 5) (at 4 1 ∷ at 7 2 ∷ []))) (rw block_count (omega arith))
      (rw range_count (omega arith)) refl
