-- ===== src/Examples.antt =====
-- Two posting lists in two clusters, and a queue, on which the queries run and the theorems are used.
pub mod Runs
pub mod Queries
pub mod Clusters
pub mod Queue
pub mod Agree
pub mod Blocks
pub mod Built
pub mod Bytes
pub mod Joins
pub mod Lazy
pub mod Lists
pub mod Payloads
use Prim.Native.Nat.{min}
use anytime_daat.Prelude.{
  ℕ, suc, ◌*◌, ◌≤◌, ◌<◌, ◌≡◌, refl, List, [], ◌∷◌, Option, some, All, length, take, false, true,
  arith, inr,
}
use anytime_daat.Topk.{Entry, Topk, topk_queue, would_enter, insert, finalize}
use anytime_daat.Topk.Order.{IsSound}
use anytime_daat.Topk.Insert.{Entered, insert-Entered, would_enter-insert, topk_queue-IsSound}
use anytime_daat.Topk.Best.{offer, IsBest, offer-IsBest}
use anytime_daat.Topk.Counts.{count_above, count_above-offer}
use anytime_daat.Rank.{rank}
use anytime_daat.Rank.Offers.{documents}
use anytime_daat.Cursor.{Cursor, Posting}
use anytime_daat.Cursor.Valid.{IsValid}
use anytime_daat.Cursor.Lists.{doc_score}
use anytime_daat.Ranges.{ClusterMap}
use anytime_daat.Ranges.Spec.{whole_score, Indexed, rank_ranges}
use anytime_daat.Rank.Within.{Rises}
use anytime_daat.WandData.{all_ranges}
use anytime_daat.WandData.Ends.{all_ranges-Rises}
use anytime_daat.Ranges.Order.{range_order}
use anytime_daat.Wand
use anytime_daat.Wand.Correct.{wand_query_exhaustive}
use anytime_daat.Wand.Anytime.{
  ordered_range_query_ranks, boundsum_range_query_ranks, boundsum_timeout_query_ranks,
  boundsum_range_query_safe,
}
use anytime_daat.MaxScore
use anytime_daat.MaxScore.Query.{maxscore_query_exhaustive}
use anytime_daat.MaxScore.Anytime.{
  maxscore_ordered_ranks, maxscore_boundsum_ranks, maxscore_timeout_ranks, maxscore_boundsum_safe,
}

abbrev pub at : ℕ → ℕ → Posting
at d f = record { doc = d; freq = f }

abbrev pub entry : ℕ → ℕ → Entry
entry s d = record { score = s; docid = d }

abbrev pub cursor : List Posting → ℕ → List ℕ → Cursor
cursor ps best ranges = record {
  list = ps;
  rest = ps;
  universe = 8;
  term_scorer = λ d f. f;
  query_weight = 1;
  max_score = best;
  range_scores = ranges;
  block_list = [];
  blocks = [];
}

abbrev pub first : Cursor
first = cursor (at 0 2 ∷ at 3 1 ∷ at 5 4 ∷ []) 4 (2 ∷ 4 ∷ [])

abbrev pub second : Cursor
second = cursor (at 3 5 ∷ at 4 1 ∷ at 7 2 ∷ []) 5 (5 ∷ 2 ∷ [])

abbrev pub cursors : List Cursor
cursors = first ∷ second ∷ []

-- As all_ranges has them for the ends 4 and 8: no range holds the document 4.
abbrev pub clusters : ClusterMap
clusters = (0, 4) ∷ (5, 8) ∷ []

clusters_run : all_ranges 0 (4 ∷ 8 ∷ []) ≡ clusters
unfolding all_ranges
clusters_run = refl

pub clusters-Rises : Rises 0 8 clusters
clusters-Rises = rw clusters_run at (
    all_ranges-Rises 8 (4 ∷ 8 ∷ [])
      (omega arith, omega arith, (omega arith, omega arith, omega arith)))

-- Every read of the clock shows 3 more, and the deadline is 4.
abbrev pub clock : ℕ → ℕ
clock n = n * 3

pub first-IsValid : IsValid 8 first
first-IsValid = record {
  ascending = ((omega arith, (omega arith, tt)), ((omega arith, tt), (tt, tt)));
  below = (omega arith, (omega arith, (omega arith, tt)));
  bounded = ((λ _. omega arith), ((λ _. omega arith), ((λ _. omega arith), tt)));
  reach = omega arith;
}

pub second-IsValid : IsValid 8 second
second-IsValid = record {
  ascending = ((omega arith, (omega arith, tt)), ((omega arith, tt), (tt, tt)));
  below = (omega arith, (omega arith, (omega arith, tt)));
  bounded = ((λ _. omega arith), ((λ _. omega arith), ((λ _. omega arith), tt)));
  reach = omega arith;
}

pub first-Indexed : Indexed clusters first
unfolding anytime_daat.Cursor.get_range_max_score
first-Indexed = (
  ((omega arith, (omega arith, tt)), ((omega arith, tt), (tt, tt))),
  (omega arith, (omega arith, (omega arith, tt))),
  omega arith,
  (
    omega arith,
    ((λ a b. omega arith), ((λ a b. omega arith), ((λ a b. omega arith), tt))),
    (omega arith, ((λ a b. omega arith), ((λ a b. omega arith), ((λ a b. omega arith), tt))), tt),
  ),
)

pub second-Indexed : Indexed clusters second
unfolding anytime_daat.Cursor.get_range_max_score
second-Indexed = (
  ((omega arith, (omega arith, tt)), ((omega arith, tt), (tt, tt))),
  (omega arith, (omega arith, (omega arith, tt))),
  omega arith,
  (
    omega arith,
    ((λ a b. omega arith), ((λ a b. omega arith), ((λ a b. omega arith), tt))),
    (omega arith, ((λ a b. omega arith), ((λ a b. omega arith), ((λ a b. omega arith), tt))), tt),
  ),
)

pub fresh-IsSound : IsSound (topk_queue 2)
fresh-IsSound = topk_queue-IsSound 2 (omega arith)

pub cursors-Indexed : All (Indexed clusters) cursors
cursors-Indexed = (first-Indexed, (second-Indexed, tt))

abbrev pub full_queue : Topk
full_queue = record { threshold = 4; k = 2; entries = entry 4 5 ∷ entry 6 3 ∷ [] }

pub full_queue-IsSound : IsSound full_queue
full_queue-IsSound = record {
  positive = omega arith;
  rising = ((omega arith, tt), (tt, tt));
  above = (omega arith, (omega arith, tt));
  size = omega arith;
  full = λ _. unfold anytime_daat.Topk.front_score in refl;
}

abbrev pub offers : List Entry
offers = entry 2 0 ∷ entry 6 3 ∷ entry 1 4 ∷ entry 4 5 ∷ []
