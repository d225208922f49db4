-- ===== src/Chunk/BitStream/Positions.antt =====
-- The readers of chunk/BitStream.cpp that take a position in bits and leave the stream as it is.
use prom_tcs.Prelude.{
  zero, suc, ℕ, suc, ◌+◌, ◌-◌, ◌*◌, ◌/◌, ◌%◌, ◌^◌, bit_and, bit_or, Bool, not, ◌&&◌, ◌==◌, leb,
  if◌then◌else◌,
}
use prom_tcs.Base.Endian.{add_group, decode_zigzag}
use prom_tcs.Chunk.BitStream.{
  BitStream, Result, ok, eof, stuck, Reader, ◌>>=◌, pure, byte_at, read_byte, read_bits,
}

-- The stream with the position in the locals `index_` and `head_count_` of the code.
unfoldable pub at_position : ℕ → BitStream → BitStream
at_position pos s = record s { index = pos / 8; head_count = 8 - pos % 8 }

-- A call does not change the members, whatever it returns.
unfoldable pub restore : {A : Type 0} → BitStream → Result A → Result A
restore s r = elim r [ ok a s' ↦ ok a s | eof s' ↦ eof s | stuck ↦ stuck ]

-- `bool read_bit(int pos)`
unfoldable pub read_bit_at : ℕ → Reader Bool
read_bit_at pos s =
    if leb s.end (pos / 8)
    then eof s
    else ok (bit_and (byte_at s (pos / 8) * 2 ^ (pos % 8)) 0x80 == 0x80) s

-- `uint8_t read_byte(int pos)`
unfoldable pub read_byte_at : ℕ → Reader ℕ
read_byte_at pos s =
    if leb s.end (pos / 8)
    then eof s
    else if not (pos % 8 == 0) && leb s.end (pos / 8 + 1)
    then eof s
    else ok
        (bit_or (byte_at s (pos / 8) * 2 ^ (pos % 8) % 256)
            (byte_at s (pos / 8 + 1) / 2 ^ (8 - pos % 8))
          % 256)
        s

-- `read_byte_helper` does on its two locals what `read_byte` does on `index` and `head_count`.
unfoldable pub read_byte_helper : Reader ℕ
unfolding read_byte
read_byte_helper = read_byte

-- `uint64_t read_bits(int pos, int num)`; `head_count_` is dropped at the end.
unfoldable pub read_bits_at : ℕ → ℕ → Reader ℕ
unfolding read_bits restore at_position
read_bits_at pos num s = restore s (read_bits num (at_position pos s))

-- The loop of `read_unsigned_varint(int pos)`; `c` counts the bits in a uint8_t.
unfoldable pub read_varint_at_loop : ℕ → ℕ → ℕ → ℕ → Reader (ℕ × ℕ)
unfolding read_byte_helper
read_varint_at_loop zero decoded_value shift_amount c s = stuck
read_varint_at_loop (suc fuel) decoded_value shift_amount c s =
    (read_byte_helper >>= λ current s'.
    let decoded = add_group decoded_value current shift_amount in
    let c' = (c + 8) % 256 in
    let more = read_varint_at_loop fuel decoded (shift_amount + 7) c' s' in
    if bit_and current 0x80 == 0 then ok (decoded, c') s' else more)
      s

-- `read_unsigned_varint(int pos)`: the value and the number of bits that it takes.
unfoldable pub read_unsigned_varint_at : ℕ → Reader (ℕ × ℕ)
unfolding read_varint_at_loop restore at_position
read_unsigned_varint_at pos s =
    restore s (read_varint_at_loop (suc (s.end - pos / 8)) 0 0 0 (at_position pos s))

unfoldable pub read_signed_varint_at : ℕ → Reader (ℕ × ℕ)
unfolding read_unsigned_varint_at decode_zigzag
read_signed_varint_at pos = do
  unsigned_value ← read_unsigned_varint_at pos
  pure (decode_zigzag unsigned_value.0, unsigned_value.1)

-- The loop of `read_bytes_be`, with `i` rounds left.
unfoldable pub read_bytes_loop : ℕ → ℕ → Reader ℕ
unfolding read_byte_helper
read_bytes_loop zero result = pure result
read_bytes_loop (suc i) result = do
  byte ← read_byte_helper
  read_bytes_loop i (bit_or (result * 2 ^ 8 % 2 ^ 64) byte)

-- `bytes64pretable[num - 1]`: the bits above `num` bytes.
unfoldable pub bytes64pretable : ℕ → ℕ
bytes64pretable i = 2 ^ 64 - 2 ^ (8 * (i + 1))

-- `int64_t read_bytes_be(int pos, int num)`, for at least one byte. Of eight bytes the test sees the
-- sign as -1, and of fewer ones as 1.
unfoldable pub read_bytes_be : ℕ → ℕ → Reader ℕ
unfolding read_bytes_loop bytes64pretable restore at_position
read_bytes_be pos num s = restore s (
    (read_bytes_loop num 0 >>= λ result.
    if (result / 2 ^ (num * 8 - 1) == 1) && not (num == 8)
    then pure (bit_or result (bytes64pretable (num - 1)))
    else pure result)
      (at_position pos s))
