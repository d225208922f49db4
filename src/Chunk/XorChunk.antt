-- ===== src/Chunk/XorChunk.antt =====
-- chunk/XORChunk.hpp and chunk/XORChunk.cpp, with chunk/EmptyAppender.hpp.
pub mod Values
pub mod Changes
pub mod Opening
pub mod RoundTrip
pub mod Runs
pub mod Written
pub mod Reopening
pub mod Samples
pub mod Header
pub mod Timestamps
use prom_tcs.Prelude.{
  ℕ, zero, suc, ◌+◌, ◌-◌, ◌^◌, Bool, true, false, not, List, [], ◌∷◌, Option, none, some, ◌==◌,
  if◌then◌else◌,
}
use prom_tcs.Base.Endian.{get_uint16_big_endian}
use prom_tcs.Chunk.BitStream.{BitStream, sized, of_pointer, bytes_ptr, size}
use prom_tcs.Chunk.XorAppender.{XorAppender, stored_count, append}
use prom_tcs.Chunk.XorIterator.{XorIterator, xor_iterator_of, collect}

-- `rbuf_` is the copy of the memory in `bstream`, if there is one.
pub record XorChunk : Type 0 where
  pub bstream : BitStream
  pub read_mode : Bool
  pub read_size : ℕ

-- XORChunk() and XORChunk(int header_size)
unfoldable pub new_chunk : ℕ → ℕ → XorChunk
new_chunk header_size past = record {
  bstream = sized 2 header_size past;
  read_mode = false;
  read_size = 0;
}

-- XORChunk(const uint8_t *stream_ptr, uint64_t size, bool copy)
unfoldable pub read_chunk : List ℕ → ℕ → ℕ → XorChunk
read_chunk stream size past = record {
  bstream = of_pointer stream size past;
  read_mode = true;
  read_size = size;
}

unfoldable pub xor_iterator : XorChunk → XorIterator
xor_iterator c = xor_iterator_of c.bstream false

unfoldable pub iterator : XorChunk → XorIterator
iterator c = xor_iterator_of c.bstream (not c.read_mode)

-- What `appender` returns, where it does not throw.
pub data ChunkAppender : Type 0 where
  xor_appender : XorAppender → ChunkAppender
  empty_appender : ChunkAppender

unfoldable pub appender : XorChunk → Option ChunkAppender
appender c =
    let start = xor_iterator c in
    let (samples, it) = collect (suc start.num_total) start in
    let lz = if stored_count c.bstream == 0 then 0xff else it.leading_zero in
    if c.read_mode
    then some empty_appender
    else if it.err
    then none
    else some (
        xor_appender (record {
          bstream = c.bstream;
          timestamp = it.timestamp;
          value = it.value;
          delta_timestamp = it.delta_timestamp;
          leading_zero = lz;
          trailing_zero = it.trailing_zero;
        }))

-- An appender's `append`, on the chunk that it belongs to; an EmptyAppender does nothing.
unfoldable pub append_to : ChunkAppender → ℕ → ℕ → ChunkAppender
append_to (xor_appender a) timestamp value = xor_appender (append a timestamp value)
append_to empty_appender timestamp value = empty_appender

unfoldable pub num_samples : XorChunk → ℕ
num_samples c = get_uint16_big_endian (bytes_ptr c.bstream) 0

unfoldable pub chunk_size : XorChunk → ℕ
chunk_size c = if c.read_mode then c.read_size else size c.bstream - c.bstream.header_size

unfoldable pub all_size : XorChunk → ℕ
all_size c = size c.bstream
