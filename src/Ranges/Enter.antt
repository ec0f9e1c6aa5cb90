-- ===== src/Ranges/Enter.antt =====
-- The cursors set to a range are valid up to its end, and have the scores of the whole lists in it.
use native.Mathlib.Decide.{dec_le}
use mathlib.Core.Option.{some-injective}
use anytime_daat.Prelude.{
  ℕ, zero, suc, ◌+◌, ◌*◌, ◌≤◌, ◌<◌, ◌≡◌, ◌↔◌, refl, sym, subst, ◌∙◌, List, [], ◌∷◌, map, Permᴰ,
  Permᴰ-symm, some, All, All-mono, All-both, All-Permᴰ, All-map, map-All, sum_over-Permᴰ,
  sum_over-map, get_elem?, arith,
}
use anytime_daat.Topk.{Topk}
use anytime_daat.Rank.{rank, rank_skip, rank_cong, rank_none, rank_empty, would_enter-zero}
use anytime_daat.Cursor.{Cursor, get_range_max_score}
use anytime_daat.Cursor.Postings.{
  contribution_below, contribution-drop_below, drop_below-above, All-drop_below,
  Ascending-drop_below,
}
use anytime_daat.Cursor.Valid.{IsValid, gives}
use anytime_daat.Cursor.Lists.{doc_score, base, SameLists}
use anytime_daat.Ranges.{ClusterMap, RangeAlgorithm, RangeEntry, enter_range}
use anytime_daat.Ranges.Spec.{gives_whole, whole_score, RangeBounded, RangesBounded, Indexed, Ranks}

-- What the map holds for the range `j`, with the bound that the cursor stores for it.
abbrev pub BoundedAt : Cursor → ℕ → ℕ × ℕ → Type 0
BoundedAt c j r =
    (r.1 ≤ c.universe) × RangeBounded c.term_scorer r.0 r.1 (get_range_max_score c j) c.list

pub RangesBounded-at :
    (k i j : ℕ) (m : ClusterMap) (c : Cursor) (r : ℕ × ℕ)
    → j ≡ k + i
    → RangesBounded k m c
    → get_elem? m i ≡ some r
    → BoundedAt c j r
RangesBounded-at k i j [] c r g h e = cc
RangesBounded-at k zero j ((start, end) ∷ m) c r g h e =
    let same : k ≡ j = omega arith in
    subst (BoundedAt c j) (some-injective _ _ e)
      (subst (λ t. BoundedAt c t (start, end)) same (h.0, h.1))
RangesBounded-at k (suc i) j ((start, end) ∷ m) c r g h e =
    RangesBounded-at (suc k) i j m c r (omega arith) h.2 e

pub le-mul : (a b w : ℕ) → a ≤ b → 1 ≤ w → a ≤ w * b
le-mul a b w h k = grind arith

module _ (m : ClusterMap) (shard start end : ℕ) (at : get_elem? m shard ≡ some (start, end)) where
  enter_range-IsValid : (c : Cursor) → Indexed m c → IsValid end (enter_range start shard c)
  unfolding enter_range
  enter_range-IsValid c (asc, below, weight, ranges) =
      let (reach, bound) =
        RangesBounded-at 0 shard shard m c (start, end) (omega arith) ranges at in
      record {
        ascending = Ascending-drop_below start c.list asc;
        below = All-drop_below _ start c.list below;
        bounded =
            All-both (λ p from b lt. le-mul _ _ _ (b from lt) weight) _
              (drop_below-above start c.list asc) (All-drop_below _ start c.list bound);
        reach = reach;
      }

  -- Inside the range a cursor gives what its whole list gives, and nothing before.
  gives-enter_range :
      (c : Cursor) (d : ℕ) → start ≤ d → gives d (enter_range start shard c) ≡ gives_whole d c
  unfolding gives gives_whole enter_range
  gives-enter_range c d h = contribution-drop_below c.term_scorer start d c.list h

  gives-enter_range_before :
      (c : Cursor) (d : ℕ) → Indexed m c → d < start → gives d (enter_range start shard c) ≡ 0
  unfolding gives enter_range
  gives-enter_range_before c d ix h =
      contribution_below c.term_scorer d start _ h (drop_below-above start c.list ix.0)

  module _ {Static : Cursor → Type 0} {Ready : ℕ → Cursor → Type 0} {enter : RangeEntry}
      {run : RangeAlgorithm} (ranks : Ranks Static Ready enter run) where
    pub set-Ready :
        (cs : List Cursor)
        → All (Indexed m) cs
        → All Static cs
        → All (Ready end) (map (enter start shard) cs)
    set-Ready [] h s = tt
    set-Ready (c ∷ cs) h s = (
      ranks.entered start end shard c (enter_range-IsValid c h.0) h.0.0 s.0,
      set-Ready cs h.1 s.1,
    )

    doc_score-set :
        (cs : List Cursor) (d : ℕ)
        → start ≤ d
        → doc_score (map (enter start shard) cs) d ≡ whole_score cs d
    unfolding doc_score whole_score
    doc_score-set [] d h = refl
    doc_score-set (c ∷ cs) d h =
        omega
          (arith, ranks.same_gives start shard d c, gives-enter_range c d h, doc_score-set cs d h)

    doc_score-set_before :
        (cs : List Cursor) (d : ℕ)
        → All (Indexed m) cs
        → d < start
        → doc_score (map (enter start shard) cs) d ≡ 0
    unfolding doc_score
    doc_score-set_before [] d ix h = refl
    doc_score-set_before (c ∷ cs) d ix h = omega (
      arith,
      ranks.same_gives start shard d c,
      gives-enter_range_before c d ix.0 h,
      doc_score-set_before cs d ix.1 h,
    )

    -- The ranking from the cursors set to the range is that of the range by whole scores.
    pub rank-set :
        (cs : List Cursor) (q : Topk)
        → All (Indexed m) cs
        → rank (doc_score (map (enter start shard) cs)) 0 end q ≡ rank (whole_score cs) start end q
    rank-set cs q ix = elim (dec_le start end) [
      | yes le ↦
          rank_skip _ 0 end q start (omega arith) le
            (λ d _ k. rw (doc_score-set_before cs d ix k) (would_enter-zero q))
          ∙ rank_cong _ start end q (whole_score cs) (λ d k _. doc_score-set cs d k)
      | no gt ↦
          rank_none _ 0 end q (omega arith)
            (λ d _ k. rw (doc_score-set_before cs d ix (omega arith)) (would_enter-zero q))
          ∙ sym (rank_empty (whole_score cs) start end q (omega arith))
    ]

module _ {Static : Cursor → Type 0} {Ready : ℕ → Cursor → Type 0} {enter : RangeEntry}
    {run : RangeAlgorithm} (ranks : Ranks Static Ready enter run) where
  pub SameLists-set :
      (start shard : ℕ) (cs : List Cursor) → SameLists (map (enter start shard) cs) cs
  SameLists-set start shard [] = Permᴰ.nil
  SameLists-set start shard (c ∷ cs) =
      Permᴰ.cons (ranks.same_base start shard c) (SameLists-set start shard cs)

  pub Static-SameLists : (cs ds : List Cursor) → SameLists cs ds → All Static ds → All Static cs
  Static-SameLists cs ds p h =
      let moved = map-All base Static ds (All-mono (λ c. (ranks.static_base c).0) ds h) in
      let kept = All-map base Static cs (All-Permᴰ Static (Permᴰ-symm p) moved) in
      All-mono (λ c. (ranks.static_base c).1) cs kept

RangesBounded-base :
    (k : ℕ) (m : ClusterMap) (c : Cursor) → RangesBounded k m c ↔ RangesBounded k m (base c)
unfolding base get_range_max_score
RangesBounded-base k [] c = (λ h. h, λ h. h)
RangesBounded-base k (r ∷ m) c =
    let ih = RangesBounded-base (suc k) m c in
    (λ h. (h.0, h.1, ih.0 h.2), λ h. (h.0, h.1, ih.1 h.2))

Indexed-base : (m : ClusterMap) (c : Cursor) → Indexed m c → Indexed m (base c)
unfolding base
Indexed-base m c h = (h.0, h.1, h.2, (RangesBounded-base 0 m c).0 h.3)

Indexed-of_base : (m : ClusterMap) (c : Cursor) → Indexed m (base c) → Indexed m c
unfolding base
Indexed-of_base m c h = (h.0, h.1, h.2, (RangesBounded-base 0 m c).1 h.3)

pub Indexed-SameLists :
    (m : ClusterMap) (cs ds : List Cursor)
    → SameLists cs ds
    → All (Indexed m) ds
    → All (Indexed m) cs
Indexed-SameLists m cs ds p h =
    let moved = map-All base (Indexed m) ds (All-mono (Indexed-base m) ds h) in
    let kept = All-map base (Indexed m) cs (All-Permᴰ (Indexed m) (Permᴰ-symm p) moved) in
    All-mono (Indexed-of_base m) cs kept

pub whole_score-SameLists :
    (cs ds : List Cursor) (d : ℕ) → SameLists cs ds → whole_score cs d ≡ whole_score ds d
unfolding whole_score gives_whole base
whole_score-SameLists cs ds d p =
    sym (sum_over-map base (gives_whole d) cs)
    ∙ sum_over-Permᴰ (gives_whole d) p
    ∙ sum_over-map base (gives_whole d) ds
