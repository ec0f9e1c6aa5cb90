-- ===== src/Ranges/Spec.antt =====
-- What the visit of ranges promises: the documents of each range are offered to the queue, with
-- their whole scores.
use anytime_daat.Prelude.{
  ℕ, suc, ◌≤◌, ◌<◌, ◌≡◌, ◌↔◌, refl, List, [], ◌∷◌, none, some, All, sum_over, get_elem?, Bool,
  false, ◌&&◌, ◌||◌, leb, ltb,
}
use anytime_daat.Topk.{Topk}
use anytime_daat.Topk.Order.{IsSound}
use anytime_daat.Rank.{rank}
use anytime_daat.Cursor.{Cursor, Posting, get_range_max_score}
use anytime_daat.Cursor.Postings.{Ascending, Below, contribution}
use anytime_daat.Cursor.Valid.{IsValid, gives}
use anytime_daat.Cursor.Lists.{doc_score, base, SameLists}
use anytime_daat.Ranges.{ClusterMap, RangeAlgorithm, RangeEntry, enter_range}

-- What the whole lists give to a document, wherever the cursors stand.
unfoldable pub gives_whole : ℕ → Cursor → ℕ
gives_whole d c = contribution c.term_scorer d c.list

unfoldable pub whole_score : List Cursor → ℕ → ℕ
whole_score cs d = sum_over (gives_whole d) cs

-- The postings of a range score `m` at most.
abbrev pub RangeBounded : (ℕ → ℕ → ℕ) → ℕ → ℕ → ℕ → List Posting → Type 0
RangeBounded f start end m = All (λ p. start ≤ p.doc → p.doc < end → f p.doc p.freq ≤ m)

-- The ranges from `k` on end in the universe, and the stored range scores bound their postings.
abbrev pub RangesBounded : ℕ → ClusterMap → Cursor → Type 0
RangesBounded k [] c = Unit
RangesBounded k ((start, end) ∷ m) c =
    (end ≤ c.universe)
    × RangeBounded c.term_scorer start end (get_range_max_score c k) c.list
    × RangesBounded (suc k) m c

-- The list ascends below the universe, the term stands in the query, and its range scores are
-- bounds.
abbrev pub Indexed : ClusterMap → Cursor → Type 0
Indexed m c =
    Ascending c.list × Below c.universe c.list × (1 ≤ c.query_weight) × RangesBounded 0 m c

-- The ranking of ranges, one after the other.
unfoldable pub rank_ranges : (ℕ → ℕ) → ClusterMap → List ℕ → Topk → Topk
rank_ranges f m [] q = q
rank_ranges f m (shard ∷ shards) q = elim (get_elem? m shard) [
  | none ↦ rank_ranges f m shards q
  | some (start, end) ↦ rank_ranges f m shards (rank f start end q)
]

-- What a range algorithm owes: it ends, keeps the lists, and ranks the documents before `end`.
pub record Ranked (end : ℕ) (cs : List Cursor) (q : Topk) (r : List Cursor × Topk) : Type 0 where
  pub same : SameLists r.0 cs
  pub result : r.1 ≡ rank (doc_score cs) 0 end q

-- For cursors that are ready for the range, from a sound queue. A cursor that `enter` sets to a
-- range is one that enter_range sets to it, but for its blocks; it is ready for the range where it
-- is valid up to the end and `Static` holds, which no move of a cursor changes.
pub record Ranks (Static : Cursor → Type 0) (Ready : ℕ → Cursor → Type 0) (enter : RangeEntry)
    (run : RangeAlgorithm) : Type 0 where
  pub ranked :
      (end : ℕ) (cs : List Cursor) (q : Topk)
      → All (Ready end) cs
      → IsSound q
      → (r : List Cursor × Topk) × (run end cs q ≡ some r) × Ranked end cs q r
  pub entered :
      (start end shard : ℕ) (c : Cursor)
      → IsValid end (enter_range start shard c)
      → Ascending c.list
      → Static c
      → Ready end (enter start shard c)
  pub valid : (end : ℕ) (c : Cursor) → Ready end c → IsValid end c
  pub same_gives :
      (start shard d : ℕ) (c : Cursor)
      → gives d (enter start shard c) ≡ gives d (enter_range start shard c)
  pub same_base : (start shard : ℕ) (c : Cursor) → base (enter start shard c) ≡ base c
  pub static_base : (c : Cursor) → Static c ↔ Static (base c)

-- Nothing more is asked of the cursors of an algorithm that does not look at blocks.
abbrev pub NoBlocks : Cursor → Type 0
NoBlocks c = Unit

pub All-NoBlocks : (cs : List Cursor) → All NoBlocks cs
All-NoBlocks [] = tt
All-NoBlocks (c ∷ cs) = (tt, All-NoBlocks cs)

pub plain-Ranks :
    (run : RangeAlgorithm)
    → ((end : ℕ) (cs : List Cursor) (q : Topk)
        → All (IsValid end) cs
        → IsSound q
        → (r : List Cursor × Topk) × (run end cs q ≡ some r) × Ranked end cs q r)
    → Ranks NoBlocks IsValid enter_range run
plain-Ranks run h = record {
  ranked = h;
  entered = λ start end shard c v asc s. v;
  valid = λ end c v. v;
  same_gives = λ start shard d c. refl;
  same_base = λ start shard c. unfold base enter_range in refl;
  static_base = λ c. (λ s. s, λ s. s);
}

-- Whether some range of the map holds the document.
unfoldable pub in_ranges : ℕ → ClusterMap → Bool
in_ranges d [] = false
in_ranges d ((start, end) ∷ m) = (leb start d && ltb d end) || in_ranges d m
