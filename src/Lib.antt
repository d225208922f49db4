-- ===== src/Lib.antt =====
-- PromTCS, a time series database: its compressed chunks, the series in memory that fill them, the
-- records of its log, the plans of its compactor, and parts of its labels, of its index and of its
-- tombstones.
--
-- A chunk holds the samples of one series, each a timestamp (an int64_t) and a value (a double). An
-- appender writes the samples into a stream of bits: the first one whole, the second one as the
-- difference of the timestamps, and the later ones as the difference of these differences; the values
-- as the bits in which they differ from the value before. An iterator reads them back.
--
-- Which file models which part:
--   Base/Endian         base/Endian.cpp: big-endian fields, varints, the zigzag order of signed ones.
--     BigEndian           the bytes of the fields of fixed width.
--     Varint              the shape of an encoding, and decoding it.
--     Widths              `max_bits64`, `max_bytes64`, `get_origin`, `get_max`, `get_min`.
--   Chunk/BitStream     chunk/BitStream.cpp: `write_bit`, `write_byte`, `write_bits`, `write_stream`,
--                       `write_padding`, `read_bit`, `read_byte`, `read_bits`, and the members.
--     Write, WriteByte, WriteBits, Appends   what the writers append.
--     Read, Took, ReadBytes, ReadBits        what the readers return.
--     Varints                      `read_unsigned_varint`, `read_signed_varint`.
--     Positions                    the readers that take a position in bits.
--   Chunk/DeleteIterator   chunk/DeleteIterator.cpp: `next` and `at`, over any iterator of samples.
--     Kept, Yields        the samples that no interval has, and that they are what is yielded.
--   Chunk/Zeros         `__builtin_clzll` and `__builtin_ctzll`.
--   Chunk/XorAppender   chunk/XORAppender.cpp: `append`, `write_delta_value`, `bit_range`.
--   Chunk/XorIterator   chunk/XORIterator.cpp: the constructor, `next`, `read_value`, `at`.
--   Chunk/XorChunk      chunk/XORChunk.cpp: the constructors, `appender`, `iterator`, the sizes.
--     Values, Changes, Timestamps, Samples   one sample, written and read.
--     Header, Opening              the bytes of a chunk, and an iterator opened on them.
--     Runs, Written, Reopening     rounds of an iterator, a written stream, an appender opened again.
--     RoundTrip                    a whole chunk.
--   Label               label/Label.cpp: labels, label sets and the texts made of them.
--     Order, Hash         the order and the ordered sets; the hashes, with XXH64 as a parameter.
--   Tsdbutil/EncBuf, Tsdbutil/DecBuf   tsdbutil/EncBuf.hpp and tsdbutil/DecBuf.hpp: buffers.
--     Contents; Reads, Progress    what a setter appends; what a getter reads, and how far it goes.
--   Tsdbutil/RecordEncoder, Tsdbutil/RecordDecoder   tsdbutil/RecordEncoder.cpp and
--                       tsdbutil/RecordDecoder.cpp: `series`, `samples`, `tombstones` and `type`.
--   Tsdbutil/Records    the records written and read back.
--     Loop, Rounds, Ends, Written, RoundTrip   the loop of the decoders, its rounds and its end, the
--                       bytes of a record, and a whole record.
--   Index/Postings      index/PostingsInterface.hpp: the operations of postings and their laws.
--     Lists               increasing lists as sets.
--   Index/ListPostings  index/ListPostings.cpp: a cursor over the series that a label matches.
--     Implements          it keeps the laws.
--   Index/IntersectPostings   index/IntersectPostings.cpp: `next`, `seek`, `at`, `recursive_next`, over
--                       any postings that keep the laws.
--     Rounds, Settling, Refines, Laws, OfLists   a round of `recursive_next`, its end, the view of an
--                       intersection as a list, its laws, and intersections of list postings.
--   Index/SubtractionPostings   index/SubtractionPostings.cpp: `next`, `seek`, `at`.
--     Lists, Branches, Refines, OfLists   the difference of lists, the branches of a round, and that
--                       the difference is what is returned.
--   Index/UnionPostings   index/UnionPostings.cpp: the constructors and the cursor.
--     Sets, Refines       the set of numbers, and that it is what is returned.
--   Tombstone/Interval  tombstone/Interval.cpp: the deleted ranges of a series.
--     Added, Ordered      that adding one deletes nothing else, and when the order is kept.
--   Block               block/BlockUtils.hpp: what is known of a block and of its directory.
--   Compact             compact/LeveledCompactor.cpp: `overlapping_dirs`, `split_by_range`,
--                       `select_dirs`, `plan_helper`, `plan`.
--     Overlap, Window, Split, Select, Plan, Errors   blocks that overlap, the aligned windows, the parts
--                       of the blocks, the part that is selected, and what is planned.
--     Metas, Merged       `compact_block_metas`, and what it describes.
--   Head/MemSeries      head/MemSeries.cpp: the constructor, `append`, `_flush`, `min_time`, `max_time`;
--                       querier/tsdb_querier.cc: `decode_value`.
--     Header, Chunks      the header of a flushed chunk, and reading the chunk behind it.
--     Append (Parts, Runs, Whole, Values)  the parts that are put and held, one call, any number of
--                       calls, and when a value is put.
--   Querier             querier/SeriesIteratorInterface.hpp: the interface of the iterators.
--     ChainSeriesIterator (Yields, Seeks)   querier/ChainSeriesIterator.cpp: the constructor, `seek`,
--                       `next`, `at`; what is yielded, and what is found.
--     MergeSeriesIterator (Marks, Picks, Merged, Lookup, Yields)   the class of that name: `init`,
--                       `_next`, `seek`, `next`, `at`; the iterators that go on, the one that is picked,
--                       the merge of lists, what it has at a time, and that it is yielded.
--   Prelude             shared names and the lemmas on lists, bitwise operations and digits.
--   Examples            the theorems at concrete inputs.
--
-- Records are encoded into a buffer by setters and decoded from one by getters, in loops that stop at
-- the end of the bytes or at the first error. The postings of labels are cursors over increasing lists
-- of series; an intersection moves its parts on until they stand at the same number. A series in memory
-- appends to a chunk, and puts it into LevelDB under its first time when it has 32 samples or a sample
-- of another partition comes; a querier decodes the value again. The compactor sorts the blocks by their
-- starts, and plans for those that overlap, else for a part of them in one window, else for one with
-- many tombstones. A query chains or merges the iterators of the series that it finds.
--
-- State is passed explicitly: a BitStream, a XorAppender or a XorIterator is a record of the members,
-- and an operation yields the record after it. A read yields `ok`, or `eof` where the code throws
-- TSDBException("bitstream EOF"), each with the members at that point; the iterator turns an `eof`
-- into what its catch clauses do. Integers are natural numbers with their wrap-around written out; an
-- int64_t and a double are their 64 bits in chunks and records, and times are integers in the compactor
-- and in the series in memory, where sums and differences are taken not to overflow; in the tombstone
-- intervals, and in the `int` that counts labels in a decoder, they wrap around. Shifts and
-- subtractions stay within the widths of the code. A vector that is written past its end keeps its
-- size, so such bytes are not in it. `pop_back` on an empty deque leaves it empty.
--
-- Bounds: the loop that writes a varint has as much fuel as the number and one more, since each round
-- makes it less; one that reads a varint has as much as there are bytes left, and one more; the loop over an
-- iterator has one more round than there are samples, and so has `next` over deleted intervals; a
-- decoder has one more than there are bytes, `recursive_next` one more than there are numbers above
-- the first one that it looks for, and `next` of a subtraction one more than there are numbers in both
-- lists; `split_by_range` has as much as there are blocks, and `next` of a chain one more
-- than there are series. A chunk counts its samples in 16 bits, so the results on chunks take fewer than 65536 samples.
-- A byte behind the memory of a stream is the parameter `past`, since the code reads such bytes, and so
-- are the members that the constructor of a subtraction leaves without a value; no result depends on
-- them.
--
-- `std::sort` is an insertion sort, a `std::set` an increasing list; the hash function of third_party/
-- and the kinds of postings that others are made of are parameters; so are the sort of blocks by their
-- starts, which may order equal ones in any way, the test of two floating-point numbers, the order of
-- ULIDs, the reads of directories, and the encodings of LevelDB. The size of the header of a chunk and the
-- length of a partition, variables of the program, are parameters of a series: head/HeadUtils.cpp sets
-- the first to 11. A chunk takes 32 samples, the value that `MEM_TUPLE_SIZE` starts with.
--
-- Not modelled: the files of chunks, of tombstones, of the index and of the write-ahead log, the
-- postings that are in them or in memory, the tree of series and its members, the writing of a compacted
-- block, and the sets of series of queries; LevelDB, protobuf and the other third-party code; threads, locks and file access.
pub mod Prelude
pub mod Base
pub mod Chunk
pub mod Tsdbutil
pub mod Label
pub mod Index
pub mod Tombstone
pub mod Block
pub mod Compact
pub mod Head
pub mod Querier
mod Examples
