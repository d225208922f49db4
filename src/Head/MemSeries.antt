-- ===== src/Head/MemSeries.antt =====
-- head/MemSeries.hpp and head/MemSeries.cpp: the samples of a series that are in memory, and those
-- that it has put into the database, with `decode_value` of querier/tsdb_querier.cc, which reads
-- them. The encodings of LevelDB and the sizes that are variables of the program are parameters.
pub mod Header
pub mod Chunks
pub mod Append
use prom_tcs.Prelude.{
  ℕ, zero, suc, ◌+◌, ◌-◌, ◌%◌, ◌^◌, Bool, true, false, not, ◌&&◌, ◌||◌, Option, none, some, List,
  [], ◌∷◌, ◌++◌, map, length, drop, set, get_or, ◌==◌, if◌then◌else◌,
}
use prom_tcs.Prelude.Int.{ℤ, pos, negsuc, ◌*ℤ◌, ◌/ℤ◌, ltb_ℤ, eqb_ℤ}
use prom_tcs.Block.{int64_min, int64_max}
use prom_tcs.Chunk.XorAppender.{XorAppender}
use prom_tcs.Chunk.XorIterator.{XorIterator, collect}
use prom_tcs.Chunk.XorChunk.{
  ChunkAppender, xor_appender, empty_appender, new_chunk, read_chunk, xor_iterator, appender,
  append_to,
}

-- The value that the variable starts with; only tests assign another.
abbrev pub mem_tuple_size : ℕ
mem_tuple_size = 32

-- The 64 bits of an `int64_t`.
abbrev pub bits64 : ℤ → ℕ
bits64 (pos n) = n % 2 ^ 64
bits64 (negsuc n) = 2 ^ 64 - suc (n % 2 ^ 64)

-- What is put into the database.
pub record Put : Type 0 where
  pub key : List ℕ
  pub value : List ℕ

-- `appender` stands for the chunk as well, whose stream it writes; `none` is an appender that threw.
pub record MemSeries : Type 0 where
  pub ref : ℕ
  pub logical_id : ℕ
  pub min_time : ℤ
  pub max_time : ℤ
  pub global_max_time : ℤ
  pub num_samples : ℕ
  pub tuple_st : ℤ
  pub chunk_appender : Option ChunkAppender
  pub time_boundary : ℤ

abbrev pub append_chunk : Option ChunkAppender → ℕ → ℕ → Option ChunkAppender
append_chunk none timestamp value = none
append_chunk (some a) timestamp value = some (append_to a timestamp value)

-- The bytes of the chunk.
abbrev pub stream_of : Option ChunkAppender → List ℕ
stream_of none = []
stream_of (some (xor_appender a)) = a.bstream.stream
stream_of (some empty_appender) = []

-- Writes into memory from index `i` on.
unfoldable pub write_at : List ℕ → ℕ → List ℕ → List ℕ
write_at stream i [] = stream
write_at stream i (b ∷ bytes) = write_at (set stream i b) (i + 1) bytes

unfoldable pub min_time : MemSeries → ℤ
min_time s = if eqb_ℤ s.min_time int64_max then int64_min else s.min_time

unfoldable pub max_time : MemSeries → ℤ
max_time s = if eqb_ℤ s.max_time int64_min then int64_max else s.max_time

abbrev pub time_boundary_of : ℤ → ℤ → ℤ
time_boundary_of partition_length timestamp = timestamp /ℤ partition_length *ℤ partition_length

-- The first statements of `append`.
unfoldable pub note_time : MemSeries → ℤ → MemSeries
note_time s timestamp = record s {
  global_max_time = if ltb_ℤ s.global_max_time timestamp then timestamp else s.global_max_time;
  min_time = if eqb_ℤ s.min_time int64_max then timestamp else s.min_time;
}

unfoldable pub crosses : ℤ → MemSeries → ℤ → Bool
crosses partition_length s timestamp =
    not (eqb_ℤ (time_boundary_of partition_length timestamp) s.time_boundary)
    && not (eqb_ℤ s.time_boundary (negsuc 0))
    && not (s.num_samples == 0)

-- The sample goes into the chunk.
unfoldable pub take_sample : MemSeries → ℤ → ℕ → MemSeries
take_sample s timestamp value = record s {
  max_time = timestamp;
  chunk_appender = append_chunk s.chunk_appender (bits64 timestamp) value;
  num_samples = s.num_samples + 1;
  tuple_st = if s.num_samples + 1 == 1 then timestamp else s.tuple_st;
}

-- The header that `_flush` writes at the start of the chunk.
unfoldable pub with_header : (ℕ → List ℕ) → List ℕ → ℕ → ℕ → List ℕ
unfolding write_at
with_header fixed64_be stream logical_id txn =
    write_at (write_at (set stream 0 1) 1 (fixed64_be logical_id)) 9 (fixed64_be txn)

module _ (header_size past : ℕ) where
  abbrev pub new_appender : Option ChunkAppender
  new_appender = appender (new_chunk header_size past)

  -- MemSeries(labels, id, log_pos), where `logical_id` and `tuple_st` are not set.
  unfoldable pub new_series : ℕ → ℕ → ℤ → MemSeries
  new_series id logical_id tuple_st = record {
    ref = id;
    logical_id = logical_id;
    min_time = int64_max;
    max_time = int64_min;
    global_max_time = int64_min;
    num_samples = 0;
    tuple_st = tuple_st;
    chunk_appender = new_appender;
    time_boundary = negsuc 0;
  }

  module _ (fixed64_be : ℕ → List ℕ) (encode_key : ℕ → ℤ → List ℕ) (partition_length : ℤ) where
    unfoldable pub flush : MemSeries → List Put → ℕ → MemSeries × List Put
    unfolding with_header
    flush s db txn = (
      record s {
        chunk_appender = new_appender;
        num_samples = 0;
        min_time = int64_max;
        max_time = int64_min;
      },
      db
          ++ (record {
            key = encode_key s.ref s.tuple_st;
            value = with_header fixed64_be (stream_of s.chunk_appender) s.logical_id txn;
          }
              ∷ []),
    )

    abbrev pub flush_if : Bool → MemSeries → List Put → ℕ → MemSeries × List Put
    flush_if true s db txn = flush s db txn
    flush_if false s db txn = (s, db)

    -- `append` behind the test whether the sample is in another partition than those held; what it
    -- returns is the last part, whether it has flushed.
    unfoldable pub append_noted :
        Bool → MemSeries → List Put → ℤ → ℕ → ℕ → MemSeries × List Put × Bool
    append_noted is_other s db timestamp value txn =
        let (begun, db') = flush_if is_other s db txn in
        let held = take_sample begun timestamp value in
        let is_full = held.num_samples == mem_tuple_size in
        let (left, db'') = flush_if is_full held db' txn in
        (
          record left { time_boundary = time_boundary_of partition_length timestamp },
          db'',
          is_other || is_full,
        )

    unfoldable pub append : MemSeries → List Put → ℤ → ℕ → ℕ → MemSeries × List Put × Bool
    unfolding append_noted
    append s db timestamp value txn =
        let noted = note_time s timestamp in
        append_noted (crosses partition_length noted timestamp) noted db timestamp value txn

-- `decode_value` without the cache: the samples of a value.
unfoldable pub decode_value : ℕ → List ℕ → List (ℕ × ℕ)
decode_value past s =
    let value = drop (if get_or s 0 0 == 1 then 17 else 1) s in
    let start = xor_iterator (read_chunk value (length value) past) in
    (collect (suc start.num_total) start).0
