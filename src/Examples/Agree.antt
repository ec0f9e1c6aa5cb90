-- ===== src/Examples/Agree.antt =====
-- The algorithms on the same cursors, and the terms of a query.
use anytime_daat.Prelude.{ℕ, ◌<◌, ◌≡◌, refl, List, [], ◌∷◌, map, some, All, arith}
use anytime_daat.Topk.{Topk, topk_queue, finalize}
use anytime_daat.Topk.Best.{IsBest}
use anytime_daat.Topk.Counts.{count_above}
use anytime_daat.Topk.Finalize.{IsFalling, finalize-IsFalling}
use anytime_daat.Rank.{rank}
use anytime_daat.Rank.Offers.{documents}
use anytime_daat.Cursor.Lists.{doc_score}
use anytime_daat.Wand.{wand_query}
use anytime_daat.MaxScore.{maxscore_query}
use anytime_daat.RankedOr.{ranked_or_query}
use anytime_daat.RankedOr.Correct.{ranked_or_query_exhaustive}
use anytime_daat.Taat.{ranked_or_taat_query}
use anytime_daat.Taat.Correct.{ranked_or_taat_query_exhaustive}
use anytime_daat.Agreement.{algorithms_agree, wand_query-IsBest}
use anytime_daat.OrQuery.{or_query}
use anytime_daat.OrQuery.Counts.{held_by, count_from}
use anytime_daat.OrQuery.Correct.{or_query-count}
use anytime_daat.QueryTerms.{query_freqs, remove_duplicate_terms}
use anytime_daat.QueryTerms.Frequencies.{
  IsStrict, frequency, occurrences, query_freqs-IsStrict, remove_duplicate_terms-query_freqs,
}
use anytime_daat.Examples.{
  cursors, first-IsValid, second-IsValid, fresh-IsSound, full_queue, full_queue-IsSound,
}

abbrev accumulator : List ℕ
accumulator = 7 ∷ 0 ∷ 0 ∷ 9 ∷ 0 ∷ 0 ∷ 0 ∷ 1 ∷ []

algorithms_agree_example :
    (wand_query cursors 8 (topk_queue 2) ≡ ranked_or_query cursors 8 (topk_queue 2))
    × (maxscore_query cursors 8 (topk_queue 2) ≡ ranked_or_query cursors 8 (topk_queue 2))
    × (ranked_or_taat_query cursors 8 accumulator (topk_queue 2)
        ≡ ranked_or_query cursors 8 (topk_queue 2))
algorithms_agree_example =
    algorithms_agree cursors 8 accumulator (topk_queue 2) (first-IsValid, (second-IsValid, tt))
      fresh-IsSound refl

wand_query-IsBest_example :
    (r : Topk) × (wand_query cursors 8 (topk_queue 2) ≡ some r)
    × IsBest (documents (doc_score cursors) 0 8) r
wand_query-IsBest_example =
    wand_query-IsBest cursors 8 2 (omega arith) (first-IsValid, (second-IsValid, tt))

ranked_or_query_exhaustive_example :
    ranked_or_query cursors 8 (topk_queue 2) ≡ some (rank (doc_score cursors) 0 8 (topk_queue 2))
ranked_or_query_exhaustive_example =
    ranked_or_query_exhaustive cursors 8 (topk_queue 2) (first-IsValid, (second-IsValid, tt))

ranked_or_taat_query_exhaustive_example :
    ranked_or_taat_query cursors 8 accumulator (topk_queue 2)
    ≡ some (rank (doc_score cursors) 0 8 (topk_queue 2))
ranked_or_taat_query_exhaustive_example =
    ranked_or_taat_query_exhaustive cursors 8 accumulator (topk_queue 2) refl
      (first-IsValid, (second-IsValid, tt))

abbrev terms : List ℕ
terms = 4 ∷ 2 ∷ 4 ∷ []

query_freqs-IsStrict_example :
    IsStrict (query_freqs terms) × ((x : ℕ) → frequency x (query_freqs terms) ≡ occurrences x terms)
query_freqs-IsStrict_example = query_freqs-IsStrict terms

remove_duplicate_terms-query_freqs_example :
    remove_duplicate_terms terms ≡ map (λ p. p.0) (query_freqs terms)
remove_duplicate_terms-query_freqs_example = remove_duplicate_terms-query_freqs terms

finalize-IsFalling_example :
    IsFalling (finalize full_queue).entries
    × All (λ e. 0 < e.score) (finalize full_queue).entries
    × ((n : ℕ) → count_above n (finalize full_queue).entries ≡ count_above n full_queue.entries)
finalize-IsFalling_example = finalize-IsFalling full_queue full_queue-IsSound

or_query-count_example : or_query cursors 8 ≡ some (count_from (held_by cursors) 8 0)
or_query-count_example = or_query-count cursors 8 (first-IsValid, (second-IsValid, tt))
