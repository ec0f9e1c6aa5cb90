-- ===== src/MaxScore/Document.antt =====
-- The invariant of the loop of MaxScore, and what one document does to the ranking.
use native.Mathlib.Nat.{le_trans}
use anytime_daat.Prelude.{
  ℕ, zero, suc, ◌+◌, ◌≤◌, ◌<◌, ◌≡◌, refl, ap, sym, ◌∙◌, inl, inr, List, [], ◌∷◌, ◌++◌, false, All,
  All-mono, sum_over, sum_over-map, sum_over-append, get_or, drop, length, Bool-cases, arith,
}
use anytime_daat.Topk.{Topk, would_enter, insert}
use anytime_daat.Topk.Order.{IsSound}
use anytime_daat.Topk.Insert.{insert-Entered, would_enter-insert}
use anytime_daat.Rank.{rank, rank_step, rank_skip, rank_cong, would_enter_mono}
use anytime_daat.Cursor.{Cursor, docid}
use anytime_daat.Cursor.Valid.{IsValid, gives}
use anytime_daat.Cursor.Lists.{doc_score, doc_score-le, doc_score_before, total_max_score}
use anytime_daat.MaxScore.{State, calc_upper_bounds, update_non_essential_lists}
use anytime_daat.MaxScore.Passes.{maxes, Kept, get_or-calc_upper_bounds}

abbrev pub whole : State → List Cursor
whole s = s.essential ++ s.lookup

-- What holds at the head of the loop: the essential cursors stand at next_docid or behind it,
-- and the lookup cursors alone cannot bring a document into the queue.
pub record Inv (end : ℕ) (upper_bounds : List ℕ) (s : State) : Type 0 where
  pub valid_essential : All (IsValid end) s.essential
  pub valid_lookup : All (IsValid end) s.lookup
  pub above : All (λ c. s.next_docid ≤ docid c) s.essential
  pub refused : would_enter s.topk (total_max_score s.lookup) ≡ false
  pub bounds : upper_bounds ≡ calc_upper_bounds (whole s)
  pub sound : IsSound s.topk

pub drop-calc_upper_bounds :
    (cs ds : List Cursor) → drop (length cs) (calc_upper_bounds (cs ++ ds)) ≡ calc_upper_bounds ds
unfolding calc_upper_bounds
drop-calc_upper_bounds [] ds = refl
drop-calc_upper_bounds (c ∷ cs) ds = drop-calc_upper_bounds cs ds

-- The bounds are those of the maximum scores.
pub calc_upper_bounds-maxes :
    (cs ds : List Cursor) → maxes cs ≡ maxes ds → calc_upper_bounds cs ≡ calc_upper_bounds ds
unfolding calc_upper_bounds
calc_upper_bounds-maxes [] [] h = refl
calc_upper_bounds-maxes [] (d ∷ ds) h = cc
calc_upper_bounds-maxes (c ∷ cs) [] h = cc
calc_upper_bounds-maxes (c ∷ cs) (d ∷ ds) h =
    let heads : c.max_score ≡ d.max_score = cc in
    let tails : maxes cs ≡ maxes ds = cc in let rest = calc_upper_bounds-maxes cs ds tails in cc

-- The bound at a position is the sum of the maximum scores from there on.
get_or-calc_upper_bounds_at :
    (i : ℕ) (cs : List Cursor) → get_or (calc_upper_bounds cs) i 0 ≡ total_max_score (drop i cs)
unfolding calc_upper_bounds
get_or-calc_upper_bounds_at zero cs = get_or-calc_upper_bounds cs
get_or-calc_upper_bounds_at (suc i) [] = unfold total_max_score in refl
get_or-calc_upper_bounds_at (suc i) (c ∷ cs) = get_or-calc_upper_bounds_at i cs

-- The new first lookup: at most the old one, and from it on nothing enters.
pub update-refused :
    (q : Topk) (cs : List Cursor) (n : ℕ)
    → would_enter q (total_max_score (drop n cs)) ≡ false
    → (update_non_essential_lists q (calc_upper_bounds cs) n ≤ n)
      × (would_enter q
            (total_max_score (drop (update_non_essential_lists q (calc_upper_bounds cs) n) cs))
          ≡ false)
unfolding update_non_essential_lists
update-refused q cs zero h = (omega arith, h)
update-refused q cs (suc i) h =
    elim (Bool-cases (would_enter q (get_or (calc_upper_bounds cs) i 0))) [
      | inl e ↦ rw e (omega arith, h)
      | inr e ↦
          let (le, r) = update-refused q cs i (rw (get_or-calc_upper_bounds_at i cs) at e) in
          rw e (omega arith, r)
    ]

pub doc_score-append :
    (cs ds : List Cursor) (d : ℕ) → doc_score (cs ++ ds) d ≡ doc_score cs d + doc_score ds d
unfolding doc_score
doc_score-append cs ds d = sum_over-append (gives d) cs ds

total_max_score-maxes :
    (cs ds : List Cursor) → maxes cs ≡ maxes ds → total_max_score cs ≡ total_max_score ds
unfolding total_max_score
total_max_score-maxes cs ds h =
    sym (sum_over-map (λ c. c.max_score) (λ n. n) cs)
    ∙ ap (sum_over (λ n. n)) h
    ∙ sum_over-map (λ c. c.max_score) (λ n. n) ds

maxes-append : (cs ds : List Cursor) → maxes (cs ++ ds) ≡ maxes cs ++ maxes ds
maxes-append [] ds = refl
maxes-append (c ∷ cs) ds = ap (◌∷◌ c.max_score) (maxes-append cs ds)

maxes_split :
    (cs ds es ls : List Cursor)
    → maxes es ≡ maxes cs
    → maxes ls ≡ maxes ds
    → maxes (cs ++ ds) ≡ maxes (es ++ ls)
maxes_split cs ds es ls h k = cc (maxes-append cs ds, maxes-append es ls)

-- What the two passes over the cursors leave, with every document up to the next one done.
pub record Passed (end : ℕ) (s : State) (next_docid : ℕ) (es ls : List Cursor) : Type 0 where
  pub essential : Kept end s.next_docid s.essential es
  pub lookup : Kept end s.next_docid s.lookup ls
  pub above : All (λ c. next_docid ≤ docid c) es
  pub grows : s.next_docid < next_docid
  pub within : next_docid ≤ end

module _ (end : ℕ) (upper_bounds : List ℕ) (s : State) (inv : Inv end upper_bounds s)
    (inside : s.next_docid < end) (next_docid : ℕ) (es ls : List Cursor)
    (p : Passed end s next_docid es ls) where
  abbrev pub q' : Topk
  q' = insert s.topk (doc_score (whole s) s.next_docid) s.next_docid

  abbrev pub passed : Topk → State
  passed q = record { essential = es; lookup = ls; next_docid = next_docid; topk = q }

  later : (d : ℕ) → s.next_docid < d → doc_score (es ++ ls) d ≡ doc_score (whole s) d
  later d h = omega (
    arith,
    doc_score-append es ls d,
    doc_score-append s.essential s.lookup d,
    p.essential.later d h,
    p.lookup.later d h,
  )

  -- Between the document and the next one no essential cursor has anything.
  between :
      (d : ℕ) → s.next_docid < d → d < next_docid → doc_score (whole s) d ≤ total_max_score s.lookup
  between d h k = omega (
    arith,
    doc_score-append s.essential s.lookup d,
    p.essential.later d h,
    doc_score_before end d es p.essential.valid (All-mono (λ c a. le_trans k a) es p.above),
    doc_score-le end d s.lookup inv.valid_lookup (le_trans k p.within),
  )

  still_refused : would_enter q' (total_max_score s.lookup) ≡ false
  still_refused = would_enter-insert s.topk _ s.next_docid _ inv.sound inv.refused

  pub passed-ranks :
      rank (doc_score (whole s)) s.next_docid end s.topk
      ≡ rank (doc_score (es ++ ls)) next_docid end q'
  passed-ranks =
      rank_step (doc_score (whole s)) s.next_docid end s.topk inside
      ∙ rank_skip (doc_score (whole s)) (suc s.next_docid) end q' next_docid p.grows p.within
          (λ d a b. would_enter_mono q' _ _ (between d a b) still_refused)
      ∙ rank_cong (doc_score (whole s)) next_docid end q' (doc_score (es ++ ls))
          (λ d a b. sym (later d (le_trans p.grows a)))

  pub passed-Inv : Inv end upper_bounds (passed q')
  passed-Inv = record {
    valid_essential = p.essential.valid;
    valid_lookup = p.lookup.valid;
    above = p.above;
    refused = rw (total_max_score-maxes ls s.lookup p.lookup.same_maxes) still_refused;
    bounds =
        inv.bounds
        ∙ calc_upper_bounds-maxes (whole s) (es ++ ls)
            (maxes_split s.essential s.lookup es ls p.essential.same_maxes p.lookup.same_maxes);
    sound = (insert-Entered s.topk _ s.next_docid inv.sound).sound;
  }
