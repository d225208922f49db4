-- ===== src/Examples.antt =====
-- The theorems at concrete inputs, and runs of the definitions.
mod Compaction
mod Deletions
mod Queries
mod Records
mod Series
mod Intersections
mod Labels
use prom_tcs.Prelude.{
  inl, ◌⊎◌, drop, ◌+◌, ℕ, suc, ◌≤◌, ◌≡◌, ◌≢◌, refl, Bool, true, false, List, [], ◌∷◌, ◌++◌, some,
  arith, length, concat, All, IsByte,
}
use prom_tcs.Prelude.Digits.{bits_be, bits_of}
use prom_tcs.Base.Endian.{
  encode_unsigned_varint, decode_unsigned_varint, encode_signed_varint, decode_signed_varint,
}
use prom_tcs.Base.Endian.Varint.{
  decode-encode_unsigned_varint, decode-encode_signed_varint, encode_unsigned_varint-bounds,
}
use prom_tcs.Chunk.BitStream.{
  BitStream, ok, stuck, empty, write_bit, write_byte, write_bits, read_bit, read_byte, read_bits,
}
use prom_tcs.Chunk.BitStream.Write.{Wrote, Wrote-write_bit}
use prom_tcs.Chunk.BitStream.WriteByte.{Wrote-write_byte}
use prom_tcs.Chunk.BitStream.WriteBits.{Wrote-write_bits}
use prom_tcs.Chunk.BitStream.Read.{IsReader, unread}
use prom_tcs.Chunk.BitStream.ReadBits.{read_bits_lem, read_byte_lem}
use prom_tcs.Chunk.BitStream.ReadBytes.{read_bit_lem}
use prom_tcs.Chunk.BitStream.Varints.{
  read_unsigned_varint, read_signed_varint, read_signed_varint_lem, read_unsigned_varint-ends,
}
use prom_tcs.Chunk.XorIterator.{collect}
use prom_tcs.Base.Endian.Widths.{max_bits64, max_bits64-short}
use prom_tcs.Tombstone.Interval.Added.{itvls_add-Old}
use prom_tcs.Tombstone.Interval.Ordered.{itvls_add-InOrder}
use prom_tcs.Tombstone.Interval.{
  Interval, itvls_add, Covers, InOrder, here, later, itvls_add-Covers,
}
use prom_tcs.Tsdbutil.EncBuf.{
  EncBuf, IsBuf, contents, put_uvariant_string, contents-put_uvariant_string,
}
use prom_tcs.Tsdbutil.DecBuf.{DecBuf, get_uvariant_string, get_uvariant_string_lem}
use prom_tcs.Index.ListPostings.{ListPostings}
use prom_tcs.Chunk.XorChunk.{XorChunk, new_chunk, iterator, num_samples}
use prom_tcs.Chunk.XorChunk.RoundTrip.{add_batches, IsSample, iterator-add_batches}

abbrev itvs : List Interval
itvs = record { min_time = 10; max_time = 20 } ∷ record { min_time = 30; max_time = 40 } ∷ []

itvls_add-Covers_example : Covers 35 (itvls_add itvs (record { min_time = 21; max_time = 32 }))
itvls_add-Covers_example =
    itvls_add-Covers 35 0 itvs (record { min_time = 21; max_time = 32 })
      (omega arith, (omega arith, (omega arith, (omega arith, tt)))) (omega arith) (omega arith)
      (omega arith) (inl (later (here (omega arith) (omega arith))))

itvls_add-Old_example : Covers 35 itvs ⊎ ((21 ≤ 35) × (35 ≤ 32))
itvls_add-Old_example =
    itvls_add-Old 35 itvs (record { min_time = 21; max_time = 32 }) itvls_add-Covers_example

itvls_add-InOrder_example : InOrder 5 (itvls_add itvs (record { min_time = 21; max_time = 32 }))
itvls_add-InOrder_example =
    itvls_add-InOrder 5 itvs (record { min_time = 21; max_time = 32 })
      (omega arith, (omega arith, (omega arith, (omega arith, tt)))) (omega arith) (omega arith)
      (omega arith) (omega arith) (λ h. absurd (omega arith), (λ h. omega arith, tt))

-- A buffer that is used again: two bytes are written, the third is left over.
abbrev used_buf : EncBuf
used_buf = record { b = 1 ∷ 2 ∷ 9 ∷ []; index = 2 }

contents-put_uvariant_string_example :
    (contents (put_uvariant_string used_buf (97 ∷ 98 ∷ []))
      ≡ contents used_buf ++ (encode_unsigned_varint 2 ++ 97 ∷ 98 ∷ []))
    × IsBuf (put_uvariant_string used_buf (97 ∷ 98 ∷ []))
contents-put_uvariant_string_example =
    contents-put_uvariant_string used_buf (97 ∷ 98 ∷ []) (omega arith) (omega arith)

abbrev postings : ListPostings
postings = record { list = 2 ∷ 5 ∷ 9 ∷ []; position = 1 }

-- A timestamp twice, then a jump of the value and of the timestamp, in two batches.
abbrev batches : List (List (ℕ × ℕ))
batches = ((1000, 5) ∷ (1010, 4607182418800017408) ∷ []) ∷ ((1020, 4607182418800017408) ∷ []) ∷ []

batches_small : All IsSample (concat batches)
batches_small =
    ((omega arith, omega arith), ((omega arith, omega arith), ((omega arith, omega arith), tt)))

iterator-add_batches_example :
    (c : XorChunk) × (add_batches (new_chunk 3 77) batches ≡ some c)
    × (num_samples c ≡ length (concat batches))
    × ((collect (suc (length (concat batches))) (iterator c)).0 ≡ concat batches)
    × ((collect (suc (length (concat batches))) (iterator c)).1.err ≡ false)
iterator-add_batches_example =
    iterator-add_batches 3 77 batches (omega arith) batches_small (omega arith)

-- Two bytes, read from the start.
abbrev two_bytes : BitStream
two_bytes = record {
  stream = 0xc8 ∷ 0x01 ∷ [];
  head_count = 8;
  tail_count = 0;
  vector_mode = true;
  index = 0;
  end = 2;
  header_size = 0;
  past = 0;
}

two_bytes-IsReader : IsReader two_bytes
two_bytes-IsReader = record {
  ends = refl;
  head_small = omega arith;
  bytes = (omega arith, (omega arith, tt));
  past_byte = omega arith;
}

tail_11 : List Bool
tail_11 = bits_be 11 1

two_bytes_split : unread two_bytes ≡ bits_be 5 25 ++ tail_11
unfolding unread bits_be bits_of tail_11
two_bytes_split = refl

read_bits_lem_example :
    (s' : BitStream) × (read_bits 5 two_bytes ≡ ok 25 s') × IsReader s' × (unread s' ≡ tail_11)
read_bits_lem_example =
    read_bits_lem 5 25 two_bytes tail_11 two_bytes-IsReader (omega arith) (omega arith)
      two_bytes_split

two_bytes_encode : unread two_bytes ≡ bits_of (encode_signed_varint 100) ++ []
unfolding unread bits_be bits_of encode_signed_varint
two_bytes_encode = refl

read_signed_varint_lem_example :
    (s' : BitStream) × (read_signed_varint two_bytes ≡ ok 100 s') × IsReader s' × (unread s' ≡ [])
read_signed_varint_lem_example =
    read_signed_varint_lem 100 two_bytes [] two_bytes-IsReader (omega arith) two_bytes_encode

read_unsigned_varint-ends_example : read_unsigned_varint two_bytes ≢ stuck
read_unsigned_varint-ends_example = read_unsigned_varint-ends two_bytes

nothing_written : Wrote (empty 0) []
unfolding empty bits_of bits_be
nothing_written = record {
  full = [];
  q = 0;
  full_bytes = tt;
  tail_small = omega arith;
  q_small = omega arith;
  stream = refl;
  digits = refl;
  ends = refl;
}

Wrote-write_bits_example : Wrote (write_bits (empty 0) 37 11) ([] ++ bits_be 11 37)
Wrote-write_bits_example = Wrote-write_bits 37 11 nothing_written (omega arith)

decode-encode_signed_varint_example :
    decode_signed_varint (encode_signed_varint 18446744073709551615 ++ 7 ∷ [])
    ≡ some (18446744073709551615, length (encode_signed_varint 18446744073709551615))
decode-encode_signed_varint_example =
    decode-encode_signed_varint 18446744073709551615 (7 ∷ []) (omega arith)

decode-encode_unsigned_varint_example :
    decode_unsigned_varint (encode_unsigned_varint 300 ++ 7 ∷ [])
    ≡ some (300, length (encode_unsigned_varint 300))
decode-encode_unsigned_varint_example = decode-encode_unsigned_varint 300 (7 ∷ []) (omega arith)

encode_unsigned_varint-bounds_example :
    (1 ≤ length (encode_unsigned_varint 300))
    × (length (encode_unsigned_varint 300) ≤ 10)
    × All IsByte (encode_unsigned_varint 300)
encode_unsigned_varint-bounds_example = encode_unsigned_varint-bounds 300 (omega arith)

max_bits64-short_example : max_bits64 300 ≡ 8
max_bits64-short_example = max_bits64-short 300 (omega arith) (omega arith)
