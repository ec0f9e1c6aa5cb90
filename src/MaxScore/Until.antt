-- ===== src/MaxScore/Until.antt =====
-- MaxScore from its start: over a range, and over the whole collection.
use native.Mathlib.Nat.{le_trans}
use native.Mathlib.Decide.{dec_le}
use mathlib.Core.List.{append-nil}
use anytime_daat.Prelude.{
  ℕ, suc, ◌≤◌, ◌<◌, ◌≡◌, refl, ap, sym, ◌∙◌, inl, inr, List, [], ◌∷◌, ◌++◌, Permᴰ-refl, map, some,
  All, All-mono, ltb, false, subst, Bool-cases, arith,
}
use anytime_daat.Topk.{Topk, would_enter}
use anytime_daat.Topk.Order.{IsSound}
use anytime_daat.Rank.{rank, rank_empty, rank_refused, rank_skip, would_enter-zero}
use anytime_daat.Cursor.{Cursor, docid}
use anytime_daat.Cursor.Valid.{IsValid}
use anytime_daat.Cursor.Lists.{base, doc_score, doc_score_before, total_max_score, SameLists}
use anytime_daat.Ranges.Spec.{Ranked}
use anytime_daat.MaxScore.{
  State, calc_upper_bounds, min_docid, split_at, maxscore_loop, start_state, maxscore_until,
}
use anytime_daat.MaxScore.Document.{whole, Inv}
use anytime_daat.MaxScore.Split.{new_lookup, whole-split_at, split-Inv, split_none}
use anytime_daat.MaxScore.Correct.{rank_whole_refused, maxscore_loop-Looped}

min_docid-le :
    (c e : Cursor) (es : List Cursor)
    → (min_docid c (e ∷ es) ≤ docid c) × (min_docid c (e ∷ es) ≤ min_docid e es)
unfolding min_docid
min_docid-le c e es = ground arith

pub min_docid-least : (c : Cursor) (cs : List Cursor) → All (λ e. min_docid c cs ≤ docid e) (c ∷ cs)
min_docid-least c [] = (unfold min_docid in omega arith, tt)
min_docid-least c (e ∷ es) =
    let (le, rest) = min_docid-le c e es in
    (le, All-mono (λ x k. le_trans rest k) (e ∷ es) (min_docid-least e es))

-- The documents before every cursor need no ranking.
pub rank_from_least :
    (end b : ℕ) (cs : List Cursor) (q : Topk)
    → All (IsValid end) cs
    → All (λ c. b ≤ docid c) cs
    → rank (doc_score cs) b end q ≡ rank (doc_score cs) 0 end q
rank_from_least end b cs q v above = elim (dec_le b end) [
  | yes le ↦ sym (rank_skip (doc_score cs) 0 end q b (omega arith) le (λ d _ k. nothing d k))
  | no gt ↦
      rank_empty (doc_score cs) b end q (omega arith)
      ∙ sym (rank_refused (doc_score cs) 0 end q (λ d _ k. nothing d (omega arith)))
]
  where
    nothing : (d : ℕ) → d < b → would_enter q (doc_score cs d) ≡ false
    nothing d k =
        rw (doc_score_before end d cs v (All-mono (λ c a. le_trans k a) cs above))
          (would_enter-zero q)

module _ (end : ℕ) (c : Cursor) (cs : List Cursor) (q : Topk) (v : All (IsValid end) (c ∷ cs))
    (sound : IsSound q) where
  abbrev start : State
  start = start_state c cs q

  abbrev bounds : List ℕ
  bounds = calc_upper_bounds (c ∷ cs)

  start-Inv : Inv end bounds start
  unfolding start_state
  start-Inv = record {
    valid_essential = v;
    valid_lookup = tt;
    above = min_docid-least c cs;
    refused = unfold total_max_score in would_enter-zero q;
    bounds = ap calc_upper_bounds (sym (append-nil (c ∷ cs)));
    sound = sound;
  }

  split : State
  split = split_at (new_lookup bounds start) start

  whole_split : whole split ≡ c ∷ cs
  unfolding split start_state
  whole_split = whole-split_at (new_lookup bounds start) start ∙ append-nil (c ∷ cs)

  -- The ranking from the first document is the whole one.
  rank-whole :
      rank (doc_score (whole split)) split.next_docid end split.topk
      ≡ rank (doc_score (c ∷ cs)) 0 end q
  unfolding split split_at start_state
  rank-whole =
      ap (λ ds. rank (doc_score ds) (min_docid c cs) end q) whole_split
      ∙ rank_from_least end (min_docid c cs) (c ∷ cs) q v (min_docid-least c cs)

  no_entry : new_lookup bounds start ≡ 0 → would_enter q (total_max_score (c ∷ cs)) ≡ false
  unfolding start_state
  no_entry e =
      subst (λ ds. would_enter q (total_max_score ds) ≡ false) (append-nil (c ∷ cs))
        (split_none end bounds start start-Inv e)

  runs_loop :
      (r : State) × (maxscore_loop (suc end) end bounds split ≡ some r)
      × SameLists (whole r) (c ∷ cs)
      × (r.topk ≡ rank (doc_score (c ∷ cs)) 0 end q)
  unfolding split
  runs_loop =
      let (r, runs, l) =
        maxscore_loop-Looped (suc end) end bounds split (omega arith)
          (split-Inv end bounds start start-Inv) in
      (r, runs, subst (λ ds. SameLists (whole r) ds) whole_split l.same, l.result ∙ rank-whole)

  pub maxscore_until-Ranked_cons :
      (r : List Cursor × Topk) × (maxscore_until end (c ∷ cs) q ≡ some r) × Ranked end (c ∷ cs) q r
  unfolding maxscore_until split
  maxscore_until-Ranked_cons = elim (Bool-cases (ltb 0 (new_lookup bounds start))) [
    | inr e ↦ (
      (c ∷ cs, q),
      rw (e, maxscore_until) refl,
      record {
        same = Permᴰ-refl (map base (c ∷ cs));
        result = sym (rank_whole_refused end 0 (c ∷ cs) q v (no_entry (ground (arith, e))));
      },
    )
    | inl e ↦
        let (r, runs, same, result) = runs_loop in
        (
          (r.essential ++ r.lookup, r.topk),
          rw (e, runs, maxscore_until) refl,
          record { same = same; result = result },
        )
  ]
