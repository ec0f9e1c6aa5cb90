-- ===== src/Conjunction/Queries.antt =====
-- The three queries: what they return.
use mathlib.Core.List.{append_assoc, append-nil}
use anytime_daat.Prelude.{
  ℕ, zero, suc, ◌-◌, ◌<◌, ◌≡◌, refl, sym, ap, fun_ext, ◌∙◌, inl, inr, List, [], ◌∷◌, ◌++◌, some,
  Bool, true, false, ◌&&◌, All, All-Permᴰ, take, Permᴰ, Permᴰ-refl, Permᴰ-symm, length,
  length-Permᴰ, ltb, sum_over-Permᴰ, Bool-cases, arith, if◌then◌else◌,
}
use anytime_daat.Topk.{Topk, insert}
use anytime_daat.Cursor.{Cursor, docid}
use anytime_daat.Cursor.Valid.{IsValid, gives}
use anytime_daat.Cursor.Lists.{doc_score}
use anytime_daat.OrQuery.Counts.{holds}
use anytime_daat.Conjunction.{
  insert_by_size, sort_by_size, first_docid, join, total_score, and_query, scored_and_query,
  ranked_and_query,
}
use anytime_daat.Conjunction.Visits.{held_by_all, visit_from, visit_held, visit_held_skip}
use anytime_daat.Conjunction.Round.{Same-refl, holds_before}
use anytime_daat.Conjunction.Correct.{join_loop-visits}

insert_by_size-Permᴰ : (c : Cursor) (cs : List Cursor) → Permᴰ (insert_by_size c cs) (c ∷ cs)
unfolding insert_by_size
insert_by_size-Permᴰ c [] = Permᴰ-refl (c ∷ [])
insert_by_size-Permᴰ c (e ∷ es) = elim (Bool-cases (ltb (length e.list) (length c.list))) [
  | inl h ↦ rw h (Permᴰ.trans (Permᴰ.cons refl (insert_by_size-Permᴰ c es)) (Permᴰ.swap refl refl))
  | inr h ↦ rw h (Permᴰ-refl (c ∷ e ∷ es))
]

sort_by_size-Permᴰ : (cs : List Cursor) → Permᴰ (sort_by_size cs) cs
unfolding sort_by_size
sort_by_size-Permᴰ [] = Permᴰ.nil
sort_by_size-Permᴰ (c ∷ cs) =
    Permᴰ.trans (insert_by_size-Permᴰ c (sort_by_size cs)) (Permᴰ.cons refl (sort_by_size-Permᴰ cs))

and_swap : (a b c : Bool) → (a && (b && c)) ≡ (b && (a && c))
and_swap true true c = refl
and_swap true false c = refl
and_swap false true c = refl
and_swap false false c = refl

held_by_all-Permᴰ :
    {cs ds : List Cursor} (d : ℕ) → Permᴰ cs ds → held_by_all cs d ≡ held_by_all ds d
unfolding held_by_all
held_by_all-Permᴰ d Permᴰ.nil = refl
held_by_all-Permᴰ d (Permᴰ.cons e p) = rw (e, held_by_all-Permᴰ d p) refl
held_by_all-Permᴰ d (Permᴰ.swap {a' = a'} {b' = b'} {l = l} e g) =
    rw (e, g) (and_swap (ltb 0 (holds d b')) (ltb 0 (holds d a')) (held_by_all l d))
held_by_all-Permᴰ d (Permᴰ.trans p q) = held_by_all-Permᴰ d p ∙ held_by_all-Permᴰ d q

held_before :
    (end d : ℕ) (cs : List Cursor)
    → 0 < length cs
    → All (IsValid end) cs
    → d < first_docid cs
    → held_by_all cs d ≡ false
unfolding held_by_all first_docid
held_before end d [] n v h = absurd (omega arith)
held_before end d (c ∷ cs) n v h = let gone = holds_before end c d v.0 h in rw gone refl

-- The cursors in their order, and what the loop asks of them at its start.
module _ (end : ℕ) (c : Cursor) (cs : List Cursor) where
  abbrev pub ordered : List Cursor
  ordered = sort_by_size (c ∷ cs)

  pub ordered_all : (P : Cursor → Type 0) → All P (c ∷ cs) → All P ordered
  ordered_all P = All-Permᴰ P (Permᴰ-symm (sort_by_size-Permᴰ (c ∷ cs)))

  pub ordered_some : 0 < length ordered
  ordered_some = omega (arith, length-Permᴰ (sort_by_size-Permᴰ (c ∷ cs)))

  pub ordered_first : All (λ e. docid e ≡ first_docid ordered) (take 1 ordered)
  ordered_first = first_at ordered
    where
      first_at : (es : List Cursor) → All (λ e. docid e ≡ first_docid es) (take 1 es)
      first_at [] = tt
      first_at (e ∷ es) = (unfold first_docid in refl, tt)

  pub doc_score-ordered : (d : ℕ) → doc_score ordered d ≡ doc_score (c ∷ cs) d
  doc_score-ordered d = unfold doc_score in sum_over-Permᴰ (gives d) (sort_by_size-Permᴰ (c ∷ cs))

  -- A visit of the ordered cursors from their first document is one of all documents.
  pub visit_held-ordered {ℓ} :
      {R : Type ℓ} (step : ℕ → R → R) (r : R)
      → All (IsValid end) (c ∷ cs)
      → visit_held (held_by_all ordered) step (first_docid ordered) end r
        ≡ visit_held (held_by_all (c ∷ cs)) step 0 end r
  visit_held-ordered step r v =
      let held : held_by_all ordered ≡ held_by_all (c ∷ cs) =
        fun_ext (λ d. held_by_all-Permᴰ d (sort_by_size-Permᴰ (c ∷ cs))) in
      sym (
        visit_held_skip (held_by_all ordered) step 0 (first_docid ordered) end r (omega arith)
          (λ d _ h. held_before end d ordered ordered_some (ordered_all (IsValid end) v) h))
      ∙ ap (λ f. visit_held f step 0 end r) held

module _ {ℓ} {R : Type ℓ} (emit : List Cursor → ℕ → R → R) (step : ℕ → R → R) (end : ℕ) (c : Cursor)
    (cs : List Cursor)
    (law : (d : ℕ) (e : Cursor) (es : List Cursor) (r : R)
      → docid e ≡ d
      → total_score (e ∷ es) ≡ doc_score (c ∷ cs) d
      → emit (e ∷ es) d r ≡ step d r) where
  join-visits :
      (r : R)
      → All (IsValid end) (c ∷ cs)
      → join emit (c ∷ cs) end r ≡ some (visit_held (held_by_all (c ∷ cs)) step 0 end r)
  unfolding join
  join-visits r v =
      let es = sort_by_size (c ∷ cs) in
      let law' =
        λ (d : ℕ) (e : Cursor) (fs : List Cursor) (r : R) (at : docid e ≡ d)
            (k : total_score (e ∷ fs) ≡ doc_score es d).
          law d e fs r at (k ∙ doc_score-ordered end c cs d) in
      join_loop-visits emit step end es law' (suc end) (first_docid es) 1 es r (omega arith)
        (ordered_some end c cs) (ordered_all end c cs (IsValid end) v)
        (Same-refl (first_docid es) es) (ordered_first end c cs)
      ∙ ap some (visit_held-ordered end c cs step r v)

-- The documents of a range that are held, in order, each as `g` writes it.
unfoldable pub held_items {ℓ} : {A : Type ℓ} → (ℕ → Bool) → (ℕ → A) → ℕ → ℕ → List A
held_items held g zero lo = []
held_items held g (suc n) lo =
    let rest = held_items held g n (suc lo) in if held lo then g lo ∷ rest else rest

visit_from-items {ℓ} :
    {A : Type ℓ} (held : ℕ → Bool) (g : ℕ → A) (n lo : ℕ) (r : List A)
    → visit_from held (λ d r. r ++ (g d ∷ [])) n lo r ≡ r ++ held_items held g n lo
unfolding visit_from held_items
visit_from-items held g zero lo r = sym (append-nil r)
visit_from-items held g (suc n) lo r = elim (Bool-cases (held lo)) [
  | inl e ↦
      rw (e, visit_from)
        (visit_from-items held g n (suc lo) (r ++ (g lo ∷ []))
          ∙ append_assoc r (g lo ∷ []) (held_items held g n (suc lo)))
  | inr e ↦ rw (e, visit_from) (visit_from-items held g n (suc lo) r)
]

visit_held-items {ℓ} :
    {A : Type ℓ} (held : ℕ → Bool) (g : ℕ → A) (n : ℕ)
    → visit_held held (λ d r. r ++ (g d ∷ [])) 0 n [] ≡ held_items held g n 0
unfolding visit_held
visit_held-items held g n =
    let all : n - 0 ≡ n = omega arith in
    ap (λ k. visit_from held (λ d r. r ++ (g d ∷ [])) k 0 []) all ∙ visit_from-items held g n 0 []

-- The conjunctive query ends, and returns the documents before `max_docid` that every list holds,
-- in ascending order, for a cursor at least and cursors that are valid up to `max_docid` (IsValid).
pub and_query-held :
    (c : Cursor) (cs : List Cursor) (max_docid : ℕ)
    → All (IsValid max_docid) (c ∷ cs)
    → and_query (c ∷ cs) max_docid ≡ some (held_items (held_by_all (c ∷ cs)) (λ d. d) max_docid 0)
unfolding and_query
and_query-held c cs max_docid v =
    join-visits (λ moved candidate results. results ++ (candidate ∷ [])) (λ d r. r ++ (d ∷ []))
      max_docid c cs (λ d e es r _ _. refl) [] v
    ∙ ap some (visit_held-items (held_by_all (c ∷ cs)) (λ d. d) max_docid)

-- A document with its score.
abbrev pub scored_as : List Cursor → ℕ → ℕ × ℕ
scored_as cs d = (d, doc_score cs d)

-- The scored conjunctive query ends, and returns the documents before `max_docid` that every list
-- holds, in ascending order, each with its whole score.
-- It has a cursor at least, and its cursors are valid up to `max_docid` (IsValid).
pub scored_and_query-held :
    (c : Cursor) (cs : List Cursor) (max_docid : ℕ)
    → All (IsValid max_docid) (c ∷ cs)
    → scored_and_query (c ∷ cs) max_docid
      ≡ some (held_items (held_by_all (c ∷ cs)) (scored_as (c ∷ cs)) max_docid 0)
unfolding scored_and_query
scored_and_query-held c cs max_docid v =
    join-visits (λ moved candidate results. results ++ ((candidate, total_score moved) ∷ []))
      (λ d r. r ++ (scored_as (c ∷ cs) d ∷ [])) max_docid c cs
      (λ d e es r _ k. ap (λ s. r ++ ((d, s) ∷ [])) k) [] v
    ∙ ap some (visit_held-items (held_by_all (c ∷ cs)) (scored_as (c ∷ cs)) max_docid)

-- The ranked conjunctive query ends, and its queue is the one to which every document before
-- `max_docid` that every list holds was offered in order, with its whole score.
-- It has a cursor at least, and its cursors are valid up to `max_docid` (IsValid).
pub ranked_and_query-held :
    (c : Cursor) (cs : List Cursor) (max_docid : ℕ) (q : Topk)
    → All (IsValid max_docid) (c ∷ cs)
    → ranked_and_query (c ∷ cs) max_docid q
      ≡ some (
          visit_held
            (held_by_all (c ∷ cs))
            (λ d r. insert r (doc_score (c ∷ cs) d) d)
            0
            max_docid
            q)
unfolding ranked_and_query
ranked_and_query-held c cs max_docid q v =
    join-visits (λ moved candidate topk. insert topk (total_score moved) (first_docid moved))
      (λ d r. insert r (doc_score (c ∷ cs) d) d) max_docid c cs
      (λ d e es r at k. unfold first_docid in rw (k, at) refl) q v
