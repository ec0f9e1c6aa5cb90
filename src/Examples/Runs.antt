-- ===== src/Examples/Runs.antt =====
-- Runs of the queries.

use anytime_daat.Prelude.{◌≡◌, refl, [], ◌∷◌, some}
use anytime_daat.Topk.{Entry, Topk, topk_queue, would_enter, insert, finalize}
use anytime_daat.Cursor.{Cursor, Posting}
use anytime_daat.Cursor.Valid.{IsValid}
use anytime_daat.Cursor.Lists.{doc_score}
use anytime_daat.Ranges.{ClusterMap}
use anytime_daat.Wand
use anytime_daat.MaxScore
use anytime_daat.Examples.{entry, cursors, clusters}

-- Both algorithms find the best two of the documents 0, 3, 4, 5 and 7.
wand_run :
    Wand.wand_query cursors 8 (topk_queue 2)
    ≡ some (record { threshold = 4; k = 2; entries = entry 4 5 ∷ entry 6 3 ∷ [] })
unfolding Wand.wand_query topk_queue Wand.wand_until Wand.find_pivot
    anytime_daat.Cursor.Lists.sort_enums anytime_daat.Cursor.docid would_enter
    anytime_daat.Cursor.Lists.total_remaining anytime_daat.Cursor.Valid.remaining Wand.visit_pivot
    Wand.docid_at anytime_daat.Cursor.next insert anytime_daat.Cursor.score
wand_run = refl

maxscore_run :
    MaxScore.maxscore_query cursors 8 (topk_queue 2)
    ≡ some (record { threshold = 4; k = 2; entries = entry 4 5 ∷ entry 6 3 ∷ [] })
unfolding MaxScore.maxscore_query topk_queue MaxScore.maxscore_until MaxScore.sorted would_enter
    anytime_daat.Cursor.docid MaxScore.visit anytime_daat.Topk.try_insert anytime_daat.Cursor.score
    anytime_daat.Cursor.next anytime_daat.Cursor.next_geq
maxscore_run = refl

boundsum_run :
    MaxScore.boundsum_range_query cursors clusters 1 (topk_queue 2)
    ≡ some (record { threshold = 2; k = 2; entries = entry 2 0 ∷ entry 6 3 ∷ [] })
unfolding MaxScore.boundsum_range_query topk_queue anytime_daat.Ranges.boundsum_loop
    anytime_daat.Ranges.sort_ranges anytime_daat.Ranges.range_and_score MaxScore.sorted
    anytime_daat.Cursor.get_range_max_score would_enter anytime_daat.Ranges.visit_range
    MaxScore.maxscore_until anytime_daat.Cursor.docid MaxScore.visit anytime_daat.Topk.try_insert
    anytime_daat.Cursor.score anytime_daat.Cursor.next anytime_daat.Ranges.enter_range
boundsum_run = refl

finalize_run :
    (finalize
      (record { threshold = 0; k = 3; entries = entry 0 9 ∷ entry 4 5 ∷ entry 6 3 ∷ [] })).entries
    ≡ entry 6 3 ∷ entry 4 5 ∷ []
unfolding finalize
finalize_run = refl
