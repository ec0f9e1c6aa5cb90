-- ===== src/Lib.antt =====
-- Verification of query processing in the anytime ranking engine.
--
-- The program ranks documents for a query. Every term of the query has a posting list and a
-- cursor on it; an algorithm walks the cursors document by document and offers scores to a
-- bounded queue, whose threshold lets the algorithm leave out documents that cannot enter. The
-- anytime queries do so cluster by cluster, in a given order or by falling bounds, up to a
-- number of clusters or to a deadline.
--
-- Topk: include/pisa/topk_queue.hpp. The record Topk has m_threshold, m_k and m_q, and one
--   function for each member function. Order has the invariant IsSound, Insert what an insert
--   does to it, Best and Counts what the queue holds after a series of offers.
-- Cursor: include/pisa/cursor/scored_cursor.hpp, max_scored_cursor.hpp and
--   block_max_scored_cursor.hpp. A cursor has its whole list and the postings that are left; the
--   base cursor's moves are those on a list in ascending order. Postings, Valid and Lists have
--   the lemmas on one list, one cursor and the cursors of a query.
-- Rank: the specification of a query, by which every document of a range is offered to the queue
--   in order. It is the exhaustive evaluation that the algorithms shorten.
--   Offers has it as a series of offers, Within the documents that the ranges of a map hold.
-- Wand: include/pisa/query/algorithm/wand_query.hpp: operator(), ordered_range_query,
--   boundsum_range_query and boundsum_timeout_query. Pivot has what a pivot promises, Scored and
--   Advanced what the two kinds of round keep, Correct and Anytime the four queries.
-- MaxScore: include/pisa/query/algorithm/maxscore_query.hpp, with the same four queries. Passes
--   has the two passes over the cursors for one document, Document the invariant of the loop,
--   Split the move of first_lookup, Correct the loop, Until what stands before it.
-- BlockMaxWand: include/pisa/query/algorithm/block_max_wand_query.hpp, with the same four
--   queries. Blocks has what the blocks of include/pisa/wand_data_raw.hpp promise, Moved their
--   move to the pivot, Pivot and Scores the bounds that end a round early, Round and Evaluated
--   the three kinds of round, Correct the loop, Query and Anytime the four queries.
-- Ranges: the loops over clusters that the three files have, with the algorithm inside a range
--   as a parameter. Spec states what such an algorithm owes (the record Ranks), which
--   Wand.Correct, MaxScore.Query and BlockMaxWand.Query fill; Order has the order by bounds,
--   Enter, Correct, Boundsum and Deadline the loops, Complete the visit of all ranges.
-- RankedOr: include/pisa/query/algorithm/ranked_or_query.hpp, the exhaustive query.
-- OrQuery: include/pisa/query/algorithm/or_query.hpp, the number of documents in any list.
-- Taat: include/pisa/query/algorithm/ranked_or_taat_query.hpp over the accumulator of
--   include/pisa/accumulator/simple_accumulator.hpp.
-- LazyTaat: the same query over include/pisa/accumulator/lazy_accumulator.hpp. Slots has what
--   the lazy accumulator shows of the simple one, Refines the query with both.
-- Agreement: the four algorithms against each other and against the best documents.
-- QueryTerms: query_freqs and remove_duplicate_terms of src/query/queries.cpp.
-- Conjunction: include/pisa/query/algorithm/and_query.hpp and ranked_and_query.hpp. Visits has
--   the documents that all lists hold, Round one round of the loop, Correct the loop, Queries
--   the three queries.
-- WandData: include/pisa/wand_utils.hpp (static_block_partition), wand_data_raw.hpp (the
--   enumerator), wand_data.hpp (the ranges of the collection) and the making of cursors in
--   include/pisa/cursor/block_max_scored_cursor.hpp. Blocks has what the blocks bound,
--   RangeScores the bounds of the ranges, Ends the ranges of the documents, Built the cursors
--   and what the queries ask of them, Queries the queries on them.
-- WandBuilder: the builder and get_enum of include/pisa/wand_data_raw.hpp, with the flat vectors
--   (Flat) and what an enumerator reads of them (RoundTrip).
-- VariableByte: TightVariableByte of include/pisa/codec/block_codecs.hpp, with its round trip.
-- PayloadVector: include/pisa/payload_vector.hpp, the buffer, its bytes and reading them;
--   Iterator has the iterators and operator[], Search the binary search. Offsets has what the
--   offsets say of the payloads, Words the numbers in bytes, RoundTrip, Access and Moves the
--   theorems.
-- BlockMaxConjunction: include/pisa/query/algorithm/block_max_ranked_and_query.hpp, over the
--   loop of Conjunction and the blocks of BlockMaxWand. Moved has what a round with blocks
--   keeps, Round what each round finds, Correct the query.
-- BlockPostings: write of include/pisa/block_posting_list.hpp; Enumerator has its
--   document_enumerator. Layout and Chunks divide a list into blocks, Tables and Stored have
--   what write stores, Decoded and Places what the enumerator reads of it, Lists and Shows the
--   postings that it stands for, Found, Seeks and Opened its moves and its start, Refines its runs
--   beside those of a cursor.
-- Examples: runs of the queries, and uses of the theorems.
--
-- Scores are exact non-negative numbers where the code has float, so that a sum does not depend
-- on its order, and document numbers have no upper
-- bound but in the posting lists and the codecs. The heap functions and std::sort of
-- the standard library leave the order of equal items open, and the model takes one order. The
-- scorer of a term, the clock, the map of the clusters and the codec of a block are parameters;
-- of the codec the theorems ask that it decodes what it encoded (IsCodec).
--
-- The loops run on fuel, and run out of it nowhere: WAND and block-max WAND have one more than
-- the postings that are left, since every round moves a cursor over a posting, as has the loop
-- over one cursor in the query term by term; MaxScore, the exhaustive query, the conjunction and
-- the disjunction have one more than the end of the range, since the document grows in every
-- round; and the decoder up to the end of its bytes has as much as there are bytes. The
-- conjunction with block bounds has three more than the end of the range, since its candidate
-- grows in every round but for one step back. The binary search has as much as there are
-- elements, a pass over a payload vector as there are offsets, and the searches of the document
-- enumerator as there are blocks, and documents in a block.
--
-- Not modelled: block-max MaxScore, the queries over ranges of fixed size, the bits of the lazy
-- accumulator's descriptors, the partition into variable blocks, quantised WAND data, the codecs
-- of blocks but for the variable-byte codec, the move, write_blocks and get_blocks of the
-- posting lists, payload vectors in files, the construction of the index, the scorers, parsing,
-- and the tools.
pub mod Agreement
pub mod BlockMaxConjunction
pub mod BlockMaxWand
pub mod BlockPostings
pub mod Conjunction
pub mod Cursor
pub mod Examples
pub mod LazyTaat
pub mod MaxScore
pub mod OrQuery
pub mod PayloadVector
pub mod Prelude
pub mod QueryTerms
pub mod Ranges
pub mod Rank
pub mod RankedOr
pub mod Taat
pub mod Topk
pub mod VariableByte
pub mod Wand
pub mod WandBuilder
pub mod WandData
