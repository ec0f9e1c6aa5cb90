-- ===== src/Cursor/Valid.antt =====
-- What a range of documents may rely on of a cursor, and the moves of a cursor inside it.
use native.Mathlib.Decide.{dec_le}
use anytime_daat.Prelude.{ℕ, suc, ◌≤◌, ◌<◌, ◌≡◌, length, arith}
use anytime_daat.Cursor.{Cursor, docid, score, next, next_geq, drop_below}
use anytime_daat.Cursor.Postings.{
  Ascending, Below, Bounded, contribution, contribution_before, contribution_first, contribution-le,
  contribution-after_first, contribution-drop_below, first_doc-after_first, first_doc-drop_below,
  first_doc-le, first_doc-drop_below_all, contribution_below, drop_below-above, length-after_first,
  length-drop_below_lt, All-after_first, All-drop_below, Ascending-after_first,
  Ascending-drop_below,
}

-- The postings that are left ascend below the universe, the range ends there at the latest, and
-- the maximum score bounds every posting before the range's end.
pub record IsValid (end : ℕ) (c : Cursor) : Type 0 where
  pub ascending : Ascending c.rest
  pub below : Below c.universe c.rest
  pub bounded : Bounded c.term_scorer c.max_score end c.rest
  pub reach : end ≤ c.universe

-- What the postings that are left give to the document `d`.
unfoldable pub gives : ℕ → Cursor → ℕ
gives d c = contribution c.term_scorer d c.rest

unfoldable pub remaining : Cursor → ℕ
remaining c = length c.rest

module _ (end : ℕ) (c : Cursor) (v : IsValid end c) where
  pub gives_before : (d : ℕ) → d < docid c → gives d c ≡ 0
  unfolding gives docid
  gives_before d h = contribution_before c.term_scorer d c.universe c.rest v.ascending h

  pub gives-docid : docid c < end → gives (docid c) c ≡ score c
  unfolding gives docid score
  gives-docid h = contribution_first c.term_scorer c.universe c.rest (omega (arith, v.reach))

  pub gives-le : (d : ℕ) → d < end → gives d c ≤ c.max_score
  unfolding gives
  gives-le d h = contribution-le c.term_scorer c.max_score end d c.rest v.bounded h

  pub docid-le : docid c ≤ c.universe
  unfolding docid
  docid-le = first_doc-le c.universe c.rest v.below

  pub docid-next : docid c < end → docid c < docid (next c)
  unfolding docid next
  docid-next h =
      first_doc-after_first c.universe c.rest v.ascending v.below (omega (arith, v.reach))

  pub remaining-next : docid c < end → suc (remaining (next c)) ≡ remaining c
  unfolding docid next remaining
  remaining-next h = length-after_first c.universe c.rest (omega (arith, v.reach))

  pub next-IsValid : IsValid end (next c)
  unfolding next
  next-IsValid = record {
    ascending = Ascending-after_first c.rest v.ascending;
    below = All-after_first _ c.rest v.below;
    bounded = All-after_first _ c.rest v.bounded;
    reach = v.reach;
  }

  pub next_geq-IsValid : (d : ℕ) → IsValid end (next_geq c d)
  unfolding next_geq
  next_geq-IsValid d = record {
    ascending = Ascending-drop_below d c.rest v.ascending;
    below = All-drop_below _ d c.rest v.below;
    bounded = All-drop_below _ d c.rest v.bounded;
    reach = v.reach;
  }

  pub docid-next_geq : (d : ℕ) → d ≤ end → d ≤ docid (next_geq c d)
  unfolding docid next_geq
  docid-next_geq d h = first_doc-drop_below d c.universe c.rest (omega (arith, v.reach))

  pub remaining-next_geq : (d : ℕ) → docid c < d → d ≤ end → remaining (next_geq c d) < remaining c
  unfolding docid next_geq remaining
  remaining-next_geq d h k = length-drop_below_lt d c.universe c.rest (omega (arith, v.reach)) h

  -- The same for a document behind the range's end too.
  pub docid-next_geq_up : (d b : ℕ) → b ≤ d → b ≤ end → b ≤ docid (next_geq c d)
  unfolding docid next_geq
  docid-next_geq_up d b h k =
      first_doc-drop_below_all d b c.universe c.rest h (omega (arith, v.reach))

  pub gives-next_geq_le : (d x : ℕ) → gives x (next_geq c d) ≤ gives x c
  unfolding gives next_geq
  gives-next_geq_le d x = elim (dec_le d x) [
    | yes le ↦ omega (arith, contribution-drop_below c.term_scorer d x c.rest le)
    | no gt ↦ omega (
      arith,
      contribution_below c.term_scorer x d (drop_below d c.rest) (omega arith)
          (drop_below-above d c.rest v.ascending),
    )
  ]

  pub remaining-next_geq_lt :
      (d : ℕ) → docid c < d → docid c < end → remaining (next_geq c d) < remaining c
  unfolding docid next_geq remaining
  remaining-next_geq_lt d h k = length-drop_below_lt d c.universe c.rest (omega (arith, v.reach)) h

pub gives-next : (c : Cursor) (d : ℕ) → docid c < d → gives d (next c) ≡ gives d c
unfolding gives docid next
gives-next c d h = contribution-after_first c.term_scorer c.universe d c.rest h

pub gives-next_geq : (c : Cursor) (b d : ℕ) → b ≤ d → gives d (next_geq c b) ≡ gives d c
unfolding gives next_geq
gives-next_geq c b d h = contribution-drop_below c.term_scorer b d c.rest h
