-- ===== src/Examples/Lists.antt =====
-- A list of three postings in blocks of two, over a codec that writes each number as a word.
use anytime_daat.Prelude.{ℕ, ◌*◌, List, [], ◌∷◌, drop}
use anytime_daat.PayloadVector.{numbers_in}
use anytime_daat.Cursor
use anytime_daat.Cursor.{Cursor, Posting}
use anytime_daat.BlockPostings.{BlockCodec, all_to_words}
use anytime_daat.BlockPostings.Enumerator
use anytime_daat.BlockPostings.Chunks.{postings}
use anytime_daat.BlockPostings.Refines.{Operation, next, freq, next_geq, global_geq}

abbrev words : BlockCodec
words = record {
  block_size = 2;
  encode = λ vals sum. all_to_words vals;
  decode = λ bytes sum n. (numbers_in 4 n bytes, drop (4 * n) bytes);
}

abbrev documents : List ℕ
documents = 1 ∷ 4 ∷ 9 ∷ []

abbrev frequencies : List ℕ
frequencies = 2 ∷ 1 ∷ 5 ∷ []

abbrev three : Cursor
three = record {
  list = postings documents frequencies;
  rest = postings documents frequencies;
  universe = 20;
  term_scorer = λ d f. f;
  query_weight = 1;
  max_score = 5;
  range_scores = [];
  block_list = [];
  blocks = [];
}

-- To the second block, back to the first, and on.
abbrev moves : List Operation
moves = next_geq 5 ∷ freq ∷ global_geq 2 ∷ next ∷ []
