-- ===== src/Chunk/XorAppender.antt =====
-- chunk/XORAppender.hpp and chunk/XORAppender.cpp. Timestamps and values are the 64 bits of an int64_t
-- and of a double (`encode_double` yields those); a difference of timestamps wraps around.
use prom_tcs.Prelude.{
  ℕ, ◌+◌, ◌-◌, ◌/◌, ◌%◌, ◌^◌, bit_xor, Bool, true, false, not, ◌&&◌, List, [], ◌∷◌, leb, ◌==◌,
  if◌then◌else◌,
}
use prom_tcs.Base.Endian.{get_uint16_big_endian, put_uint16_big_endian, encode_signed_varint}
use prom_tcs.Chunk.Zeros.{clz, ctz}
use prom_tcs.Chunk.BitStream.{BitStream, write_bit, write_byte, write_bits}

-- `bstream` is a reference to the stream of the chunk; the chunk takes it over after each call.
pub record XorAppender : Type 0 where
  pub bstream : BitStream
  pub timestamp : ℕ
  pub value : ℕ
  pub delta_timestamp : ℕ
  pub leading_zero : ℕ
  pub trailing_zero : ℕ

-- `a - b` on 64 bits.
abbrev pub sub64 : ℕ → ℕ → ℕ
sub64 a b = (a + 2 ^ 64 - b) % 2 ^ 64

-- `a <= b` for the int64_t that the bits stand for.
abbrev pub signed_le : ℕ → ℕ → Bool
signed_le a b = leb ((a + 2 ^ 63) % 2 ^ 64) ((b + 2 ^ 63) % 2 ^ 64)

unfoldable pub bit_range : ℕ → ℕ → Bool
bit_range delta_delta_timestamp num =
    signed_le (sub64 0 (2 ^ (num - 1) - 1)) delta_delta_timestamp
    && signed_le delta_delta_timestamp (2 ^ (num - 1))

-- The number of leading zeros, with `if (lz >= 32) lz = 31`.
abbrev pub clamped_clz : ℕ → ℕ
clamped_clz v = if leb 32 (clz v) then 31 else clz v

-- `64 - leading_zero - trailing_zero`
abbrev pub sigbits : XorAppender → ℕ
sigbits a = 64 - a.leading_zero - a.trailing_zero

-- The bits of the difference, within the window of leading and trailing zeros written before.
unfoldable pub write_same_window : XorAppender → ℕ → XorAppender
write_same_window a delta_vale = record a {
  bstream = write_bits (write_bit a.bstream false) (delta_vale / 2 ^ a.trailing_zero) (sigbits a);
}

unfoldable pub write_new_window : XorAppender → ℕ → XorAppender
write_new_window a delta_vale =
    let lz = clamped_clz delta_vale in
    let b = record a { leading_zero = lz; trailing_zero = ctz delta_vale } in
    record b {
      bstream =
          write_bits (write_bits (write_bits (write_bit b.bstream true) lz 5) (sigbits b) 6)
            (delta_vale / 2 ^ b.trailing_zero) (sigbits b);
    }

unfoldable pub write_delta_value : XorAppender → ℕ → XorAppender
write_delta_value a value =
    let delta_vale = bit_xor value a.value in
    let b = record a { bstream = write_bit a.bstream true } in
    if delta_vale == 0
    then record a { bstream = write_bit a.bstream false }
    else if not (a.leading_zero == 0xff)
        && leb a.leading_zero (clamped_clz delta_vale)
        && leb a.trailing_zero (ctz delta_vale)
    then write_same_window b delta_vale
    else write_new_window b delta_vale

-- `for (...) bstream.write_byte(temp[i])`
unfoldable pub write_all : BitStream → List ℕ → BitStream
write_all s [] = s
write_all s (x ∷ xs) = write_all (write_byte s x) xs

-- The branches for the delta of deltas.
unfoldable pub write_delta_delta : BitStream → ℕ → BitStream
write_delta_delta s dd =
    if dd == 0
    then write_bit s false
    else if bit_range dd 14
    then write_bits (write_bits s 0x02 2) dd 14
    else if bit_range dd 17
    then write_bits (write_bits s 0x06 3) dd 17
    else if bit_range dd 20
    then write_bits (write_bits s 0x0e 4) dd 20
    else write_bits (write_bits s 0x0f 4) dd 64

unfoldable pub append_first : XorAppender → ℕ → ℕ → XorAppender
append_first a timestamp value = record a {
  bstream = write_bits (write_all a.bstream (encode_signed_varint timestamp)) value 64;
}

unfoldable pub append_second : XorAppender → ℕ → ℕ → XorAppender
append_second a timestamp value =
    write_delta_value
      (record a {
        bstream = write_all a.bstream (encode_signed_varint (sub64 timestamp a.timestamp));
      })
      value

unfoldable pub append_later : XorAppender → ℕ → ℕ → XorAppender
append_later a timestamp value =
    write_delta_value
      (record a {
        bstream =
            write_delta_delta a.bstream (sub64 (sub64 timestamp a.timestamp) a.delta_timestamp);
      })
      value

-- The number of samples that the first two bytes behind the header tell.
unfoldable pub stored_count : BitStream → ℕ
stored_count s = get_uint16_big_endian s.stream s.header_size

-- The last statements of `append`.
unfoldable pub finish_append : XorAppender → ℕ → ℕ → ℕ → ℕ → XorAppender
finish_append a timestamp value num_samples current_delta_timestamp = record a {
  bstream = record (a.bstream) {
    stream = put_uint16_big_endian a.bstream.stream a.bstream.header_size (num_samples + 1);
  };
  timestamp = timestamp;
  value = value;
  delta_timestamp = current_delta_timestamp;
}

unfoldable pub append : XorAppender → ℕ → ℕ → XorAppender
append a timestamp value =
    let num_samples = stored_count a.bstream in
    let delta = sub64 timestamp a.timestamp in
    if num_samples == 0
    then finish_append (append_first a timestamp value) timestamp value num_samples 0
    else if num_samples == 1
    then finish_append (append_second a timestamp value) timestamp value num_samples delta
    else finish_append (append_later a timestamp value) timestamp value num_samples delta
