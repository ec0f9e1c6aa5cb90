-- ===== src/Conjunction/Round.antt =====
-- One round of the join: what the cursors have left, and why the candidate moves on.

use anytime_daat.Prelude.{
  ℕ, zero, suc, ◌≤◌, ◌<◌, ◌≡◌, refl, ◌∙◌, inl, inr, List, [], ◌∷◌, Option, none, some, false, All,
  take, ◌==◌, Bool-cases, arith,
}
use anytime_daat.Cursor.{Cursor, docid, next, next_geq}
use anytime_daat.Cursor.Postings.{
  contribution_before, contribution-after_first, contribution-drop_below,
}
use anytime_daat.Cursor.Valid.{
  IsValid, gives, gives-next, gives-next_geq, next_geq-IsValid, docid-next_geq,
}
use anytime_daat.Cursor.Lists.{doc_score}
use anytime_daat.OrQuery.Counts.{holds}
use anytime_daat.Conjunction.{advance_from}
use anytime_daat.Conjunction.Visits.{held_by_all}

holds-next : (c : Cursor) (d : ℕ) → docid c < d → holds d (next c) ≡ holds d c
unfolding holds docid next
holds-next c d h = contribution-after_first _ c.universe d c.rest h

holds-next_geq : (c : Cursor) (b d : ℕ) → b ≤ d → holds d (next_geq c b) ≡ holds d c
unfolding holds next_geq
holds-next_geq c b d h = contribution-drop_below _ b d c.rest h

pub holds_before : (end : ℕ) (c : Cursor) (d : ℕ) → IsValid end c → d < docid c → holds d c ≡ 0
unfolding holds docid
holds_before end c d v h = contribution_before _ d c.universe c.rest v.ascending h

-- From `b` on the cursors have the same documents left, with the same scores.
pub record Same (b : ℕ) (ds cs : List Cursor) : Type 0 where
  pub held : (d : ℕ) → b ≤ d → held_by_all ds d ≡ held_by_all cs d
  pub scores : (d : ℕ) → b ≤ d → doc_score ds d ≡ doc_score cs d

pub Same-refl : (b : ℕ) (cs : List Cursor) → Same b cs cs
Same-refl b cs = record { held = λ d h. refl; scores = λ d h. refl }

pub Same-later : (a b : ℕ) (cs ds : List Cursor) → a ≤ b → Same a cs ds → Same b cs ds
Same-later a b cs ds le s = record {
  held = λ d h. s.held d (omega arith);
  scores = λ d h. s.scores d (omega arith);
}

pub Same-trans :
    (a b : ℕ) (cs ds es : List Cursor) → a ≤ b → Same b cs ds → Same a ds es → Same b cs es
Same-trans a b cs ds es le s t = record {
  held = λ d h. s.held d h ∙ t.held d (omega arith);
  scores = λ d h. s.scores d h ∙ t.scores d (omega arith);
}

Same-cons :
    (b : ℕ) (c e : Cursor) (cs es : List Cursor)
    → ((d : ℕ) → b ≤ d → holds d c ≡ holds d e)
    → ((d : ℕ) → b ≤ d → gives d c ≡ gives d e)
    → Same b cs es
    → Same b (c ∷ cs) (e ∷ es)
unfolding held_by_all doc_score
Same-cons b c e cs es h g s = record {
  held = λ d k. rw (h d k, s.held d k) refl;
  scores = λ d k. omega (arith, g d k, s.scores d k);
}

pub Same-next_first : (c : Cursor) (cs : List Cursor) → Same (suc (docid c)) (next c ∷ cs) (c ∷ cs)
Same-next_first c cs =
    Same-cons (suc (docid c)) (next c) c cs cs (λ d h. holds-next c d h) (λ d h. gives-next c d h)
      (Same-refl (suc (docid c)) cs)

-- Why the loop stopped: all cursors stand at the candidate, or none of the documents up to the
-- next candidate is in all lists.
abbrev pub Stopped : ℕ → List Cursor → Option ℕ → Type 0
Stopped candidate cs none = All (λ c. docid c ≡ candidate) cs
Stopped candidate cs (some d) =
    (candidate < d) × ((x : ℕ) → candidate ≤ x → x < d → held_by_all cs x ≡ false)

pub record Moved (end candidate : ℕ) (cs : List Cursor) (r : List Cursor × Option ℕ) : Type 0 where
  pub valid : All (IsValid end) r.0
  pub same : Same candidate r.0 cs
  pub stopped : Stopped candidate r.0 r.1

Stopped-cons :
    (candidate : ℕ) (c : Cursor) (cs : List Cursor) (o : Option ℕ)
    → docid c ≡ candidate
    → Stopped candidate cs o
    → Stopped candidate (c ∷ cs) o
unfolding held_by_all
Stopped-cons candidate c cs none e s = (e, s)
Stopped-cons candidate c cs (some d) e s = (s.0, λ x h k. let f = s.1 x h k in grind (arith, f))

Stopped-first :
    (end candidate : ℕ) (c : Cursor) (cs : List Cursor)
    → IsValid end c
    → candidate < docid c
    → Stopped candidate (c ∷ cs) (some (docid c))
unfolding held_by_all
Stopped-first end candidate c cs v lt = (lt, λ x h k. let f = holds_before end c x v k in rw f refl)

-- The first `i` cursors stand at the candidate already.
pub advance_from-Moved :
    (end i candidate : ℕ) (cs : List Cursor)
    → candidate < end
    → All (IsValid end) cs
    → All (λ c. docid c ≡ candidate) (take i cs)
    → Moved end candidate cs (advance_from i candidate cs)
unfolding advance_from
advance_from-Moved end zero candidate [] h v a = record {
  valid = tt;
  same = Same-refl candidate [];
  stopped = tt;
}
advance_from-Moved end (suc i) candidate [] h v a = record {
  valid = tt;
  same = Same-refl candidate [];
  stopped = tt;
}
advance_from-Moved end (suc i) candidate (c ∷ cs) h v a =
    let r = advance_from-Moved end i candidate cs h v.1 a.1 in
    record {
      valid = (v.0, r.valid);
      same = Same-cons candidate c c _ cs (λ d k. refl) (λ d k. refl) r.same;
      stopped = Stopped-cons candidate c _ _ a.0 r.stopped;
    }
advance_from-Moved end zero candidate (c ∷ cs) h v a =
    let moved = next_geq c candidate in
    let r = advance_from-Moved end zero candidate cs h v.1 tt in
    let valid = next_geq-IsValid end c v.0 candidate in
    let keeps = λ (d : ℕ) (k : candidate ≤ d). holds-next_geq c candidate d k in
    let scores = λ (d : ℕ) (k : candidate ≤ d). gives-next_geq c candidate d k in
    elim (Bool-cases (docid moved == candidate)) [
      | inl e ↦ rw e (record {
        valid = (valid, r.valid);
        same = Same-cons candidate moved c _ cs keeps scores r.same;
        stopped = Stopped-cons candidate moved _ _ (ground (arith, e)) r.stopped;
      })
      | inr e ↦
          let up = docid-next_geq end c v.0 candidate (omega arith) in
          rw e (record {
            valid = (valid, v.1);
            same = Same-cons candidate moved c cs cs keeps scores (Same-refl candidate cs);
            stopped = Stopped-first end candidate moved cs valid (ground (arith, e, up));
          })
    ]
