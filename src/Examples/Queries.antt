-- ===== src/Examples/Queries.antt =====
-- The queries over the whole collection.

use anytime_daat.Prelude.{◌≡◌, some}
use anytime_daat.Topk.{topk_queue}
use anytime_daat.Rank.{rank}
use anytime_daat.Cursor.Lists.{doc_score}
use anytime_daat.Wand
use anytime_daat.Wand.Correct.{wand_query_exhaustive}
use anytime_daat.MaxScore
use anytime_daat.MaxScore.Query.{maxscore_query_exhaustive}
use anytime_daat.Examples.{cursors, first-IsValid, second-IsValid, fresh-IsSound}

maxscore_query_exhaustive_example :
    MaxScore.maxscore_query cursors 8 (topk_queue 2)
    ≡ some (rank (doc_score cursors) 0 8 (topk_queue 2))
maxscore_query_exhaustive_example =
    maxscore_query_exhaustive cursors 8 (topk_queue 2) (first-IsValid, (second-IsValid, tt))
      fresh-IsSound

wand_query_exhaustive_example :
    Wand.wand_query cursors 8 (topk_queue 2) ≡ some (rank (doc_score cursors) 0 8 (topk_queue 2))
wand_query_exhaustive_example =
    wand_query_exhaustive cursors 8 (topk_queue 2) (first-IsValid, (second-IsValid, tt))
