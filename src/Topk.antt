-- ===== src/Topk.antt =====
-- include/pisa/topk_queue.hpp: the bounded queue of the best documents seen so far.
-- A score is an exact non-negative number. The vector m_q is kept by the heap functions of the
-- standard library, which leave its order open but for the front, an entry of least score; here
-- it is kept in ascending order of score, the entry that came last first among equals.
pub mod Order
pub mod Insert
pub mod Best
pub mod Counts
pub mod Finalize
use anytime_daat.Prelude.{
  ℕ, suc, List, [], ◌∷◌, Bool, true, false, length, ltb, leb, ◌==◌, if◌then◌else◌,
}
use mathlib.Core.List.{reverse}

-- entry_type: the score and the document of a result.
pub record Entry : Type 0 where
  pub score : ℕ
  pub docid : ℕ

pub record Topk : Type 0 where
  pub threshold : ℕ
  pub k : ℕ
  pub entries : List Entry

-- The constructor of topk_queue.
unfoldable pub topk_queue : ℕ → Topk
topk_queue k = record { threshold = 0; k = k; entries = [] }

unfoldable pub would_enter : Topk → ℕ → Bool
would_enter q score = ltb q.threshold score

-- emplace_back followed by std::push_heap.
unfoldable pub push_heap : Entry → List Entry → List Entry
push_heap e [] = e ∷ []
push_heap e (x ∷ xs) = if leb e.score x.score then e ∷ x ∷ xs else x ∷ push_heap e xs

-- emplace_back, std::pop_heap on the whole vector and pop_back: the entry at the front goes, and
-- the new one, which stood last, is sifted into its place. The vector of one entry is left empty.
unfoldable pub replace_front : Entry → List Entry → List Entry
unfolding push_heap
replace_front e [] = []
replace_front e (x ∷ xs) = push_heap e xs

-- m_q.front().first, with the threshold that stands where the vector is empty.
unfoldable pub front_score : List Entry → ℕ → ℕ
front_score [] t = t
front_score (x ∷ xs) t = x.score

-- The insert of a document that is known to enter.
unfoldable pub enter : Topk → ℕ → ℕ → Topk
unfolding push_heap replace_front front_score
enter q score docid =
    let e : Entry = record { score = score; docid = docid } in
    let size = suc (length q.entries) in
    if leb size q.k
    then (let grown = push_heap e q.entries in
        record q {
          threshold = if size == q.k then front_score grown q.threshold else q.threshold;
          entries = grown;
        })
    else (let kept = replace_front e q.entries in
        record q { threshold = front_score kept q.threshold; entries = kept })

-- insert(score, docid), with the queue that it leaves and its result.
unfoldable pub try_insert : Topk → ℕ → ℕ → Topk × Bool
unfolding would_enter enter
try_insert q score docid = if would_enter q score then (enter q score docid, true) else (q, false)

unfoldable pub insert : Topk → ℕ → ℕ → Topk
unfolding try_insert
insert q score docid = (try_insert q score docid).0

unfoldable pub set_threshold : Topk → ℕ → Topk
set_threshold q t = record q { threshold = t }

unfoldable pub clear : Topk → Topk
clear q = record q { threshold = 0; entries = [] }

-- The std::lower_bound of finalize: the entries before the first whose score is 0.
unfoldable pub positive_prefix : List Entry → List Entry
positive_prefix [] = []
positive_prefix (e ∷ es) = if ltb 0 e.score then e ∷ positive_prefix es else []

-- finalize(): std::sort_heap puts the best entry first.
unfoldable pub finalize : Topk → Topk
unfolding positive_prefix
finalize q = record q { entries = positive_prefix (reverse q.entries) }
