-- ===== src/BlockMaxWand/Query.antt =====
-- operator(), and what the queries over ranges ask of the blocks.
use anytime_daat.Prelude.{
  ℕ, ◌≤◌, ◌≡◌, refl, sym, ap, List, [], ◌∷◌, some, All, All-mono, All-both, arith,
}
use anytime_daat.Topk.{Topk}
use anytime_daat.Topk.Order.{IsSound}
use anytime_daat.Rank.{rank, rank_none, would_enter-zero}
use anytime_daat.Cursor.{Cursor, block_max_global_geq}
use anytime_daat.Cursor.Postings.{Ascending, drop_below-above, All-drop_below}
use anytime_daat.Cursor.Valid.{IsValid, gives}
use anytime_daat.Cursor.Lists.{doc_score, base}
use anytime_daat.Ranges.{enter_range}
use anytime_daat.Ranges.Spec.{Ranked, Ranks}
use anytime_daat.BlockMaxWand.{block_until, block_max_wand_query, enter_blocks}
use anytime_daat.BlockMaxWand.Blocks.{Fits, Fits-next_block, Blocked}
use anytime_daat.BlockMaxWand.Pivot.{Enters}
use anytime_daat.BlockMaxWand.Correct.{block_until-Ranked}

-- A cursor that the algorithm can start with: its blocks fit the postings that it has left.
abbrev pub Ready : ℕ → Cursor → Type 0
Ready end c = IsValid end c × (1 ≤ c.query_weight) × All (Fits c.term_scorer c.blocks) c.rest

-- The blocks of the whole list fit its postings.
abbrev pub Static : Cursor → Type 0
Static c = (1 ≤ c.query_weight) × All (Fits c.term_scorer c.block_list) c.list

Ready-IsValid : (end : ℕ) (cs : List Cursor) → All (Ready end) cs → All (IsValid end) cs
Ready-IsValid end cs h = All-mono (λ c r. r.0) cs h

Ready-Blocked :
    (P : ℕ → Type 0) (end : ℕ) (cs : List Cursor) → All (Ready end) cs → All (Blocked P) cs
Ready-Blocked P end cs h = All-mono (λ c r. (r.1, All-mono (λ x k y. k) c.rest r.2)) cs h

Ready-Ranked :
    (end : ℕ) (cs : List Cursor) (q : Topk)
    → All (Ready end) cs
    → IsSound q
    → (r : List Cursor × Topk) × (block_until end cs q ≡ some r) × Ranked end cs q r
Ready-Ranked end cs q h =
    block_until-Ranked end cs q (Ready-IsValid end cs h) (Ready-Blocked (Enters q cs) end cs h)

enter_blocks-Ready :
    (start end shard : ℕ) (c : Cursor)
    → IsValid end (enter_range start shard c)
    → Ascending c.list
    → Static c
    → Ready end (enter_blocks start shard c)
unfolding enter_blocks enter_range block_max_global_geq
enter_blocks-Ready start end shard c v asc (w, fits) = (
  record { ascending = v.ascending; below = v.below; bounded = v.bounded; reach = v.reach },
  w,
  All-both (λ x from k. Fits-next_block c.term_scorer start c.block_list x from k) _
      (drop_below-above start c.list asc) (All-drop_below _ start c.list fits),
)

pub block-Ranks : Ranks Static Ready enter_blocks block_until
block-Ranks = record {
  ranked = Ready-Ranked;
  entered = enter_blocks-Ready;
  valid = λ end c r. r.0;
  same_gives =
      λ start shard d c. unfold gives enter_blocks enter_range block_max_global_geq in refl;
  same_base = λ start shard c. unfold base enter_blocks enter_range block_max_global_geq in refl;
  static_base = λ c. unfold base in (λ s. s, λ s. s);
}

-- Block-max WAND ends, and its queue is the one to which every document before `max_docid` was
-- offered with its whole score, from a sound queue, for cursors whose lists ascend below a
-- universe of `max_docid` at least, whose maximum scores bound the scores of their postings, and
-- whose blocks bound the scores of the postings that each covers.
pub block_max_wand_query_exhaustive :
    (cs : List Cursor) (max_docid : ℕ) (q : Topk)
    → All (Ready max_docid) cs
    → IsSound q
    → block_max_wand_query cs max_docid q ≡ some (rank (doc_score cs) 0 max_docid q)
unfolding block_max_wand_query
block_max_wand_query_exhaustive [] max_docid q h sound = ap some (
    sym (
      rank_none (doc_score []) 0 max_docid q (omega arith)
        (λ d _ k. unfold doc_score in would_enter-zero q)))
block_max_wand_query_exhaustive (c ∷ cs) max_docid q h sound =
    let (r, runs, done) = Ready-Ranked max_docid (c ∷ cs) q h sound in
    rw (runs, block_max_wand_query) (ap some done.result)
