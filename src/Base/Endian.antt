-- ===== src/Base/Endian.antt =====
-- base/Endian.hpp and base/Endian.cpp. A pointer into a buffer is the buffer's list and an offset;
-- the overloads for deque, vector and pointer do the same, and the model has one of each.
pub mod BigEndian
pub mod Varint
pub mod Widths
use prom_tcs.Prelude.{
  ℕ, zero, suc, ◌+◌, ◌-◌, ◌*◌, ◌/◌, ◌%◌, ◌^◌, bit_and, bit_or, List, [], ◌∷◌, Option, none, some,
  ltb, ◌==◌, if◌then◌else◌, get_or, set, All, IsByte,
}

abbrev pub max_varint_len_64 : ℕ
max_varint_len_64 = 10

unfoldable pub put_uint16_big_endian : List ℕ → ℕ → ℕ → List ℕ
put_uint16_big_endian bytes at num =
    set (set bytes (at + 1) (bit_and num 0xff)) at (bit_and (num / 2 ^ 8) 0xff)

unfoldable pub get_uint16_big_endian : List ℕ → ℕ → ℕ
get_uint16_big_endian bytes at = get_or bytes at 0 * 2 ^ 8 + get_or bytes (at + 1) 0

unfoldable pub put_uint32_big_endian : List ℕ → ℕ → ℕ → List ℕ
put_uint32_big_endian bytes at num =
    let b3 = set bytes (at + 3) (bit_and num 0xff) in
    let b2 = set b3 (at + 2) (bit_and (num / 2 ^ 8) 0xff) in
    let b1 = set b2 (at + 1) (bit_and (num / 2 ^ 16) 0xff) in
    set b1 at (bit_and (num / 2 ^ 24) 0xff)

unfoldable pub get_uint32_big_endian : List ℕ → ℕ → ℕ
get_uint32_big_endian bytes at =
    (get_or bytes at 0 * 2 ^ 24
      + get_or bytes (at + 1) 0 * 2 ^ 16
      + get_or bytes (at + 2) 0 * 2 ^ 8
      + get_or bytes (at + 3) 0)
    % 2 ^ 32

unfoldable pub put_uint64_big_endian : List ℕ → ℕ → ℕ → List ℕ
put_uint64_big_endian bytes at num =
    let b7 = set bytes (at + 7) (bit_and num 0xff) in
    let b6 = set b7 (at + 6) (bit_and (num / 2 ^ 8) 0xff) in
    let b5 = set b6 (at + 5) (bit_and (num / 2 ^ 16) 0xff) in
    let b4 = set b5 (at + 4) (bit_and (num / 2 ^ 24) 0xff) in
    let b3 = set b4 (at + 3) (bit_and (num / 2 ^ 32) 0xff) in
    let b2 = set b3 (at + 2) (bit_and (num / 2 ^ 40) 0xff) in
    let b1 = set b2 (at + 1) (bit_and (num / 2 ^ 48) 0xff) in
    set b1 at (bit_and (num / 2 ^ 56) 0xff)

unfoldable pub get_uint64_big_endian : List ℕ → ℕ → ℕ
get_uint64_big_endian bytes at =
    (get_or bytes at 0 * 2 ^ 56
      + get_or bytes (at + 1) 0 * 2 ^ 48
      + get_or bytes (at + 2) 0 * 2 ^ 40
      + get_or bytes (at + 3) 0 * 2 ^ 32
      + get_or bytes (at + 4) 0 * 2 ^ 24
      + get_or bytes (at + 5) 0 * 2 ^ 16
      + get_or bytes (at + 6) 0 * 2 ^ 8
      + get_or bytes (at + 7) 0)
    % 2 ^ 64

-- The bytes that `encode_unsigned_varint` puts into its buffer; their number is what it returns.
-- A round makes the value less, so as many rounds as the value and one more are enough.
unfoldable pub encode_varint_loop : ℕ → ℕ → List ℕ
encode_varint_loop zero value = []
encode_varint_loop (suc fuel) value =
    let next_byte = bit_and value 0x7f in
    let more = bit_or next_byte 0x80 ∷ encode_varint_loop fuel (value / 2 ^ 7) in
    if value / 2 ^ 7 == 0 then next_byte ∷ [] else more

unfoldable pub encode_unsigned_varint : ℕ → List ℕ
unfolding encode_varint_loop
encode_unsigned_varint value = encode_varint_loop (suc value) value

-- `decoded_value |= static_cast<uint64_t>(byte & 0x7F) << shift_amount`
abbrev pub add_group : ℕ → ℕ → ℕ → ℕ
add_group decoded_value byte shift_amount =
    bit_or decoded_value (bit_and byte 0x7f * 2 ^ shift_amount % 2 ^ 64)

-- `input` is what the loop has not reached of the `size` bytes, and `i` how many it has. At the end of
-- the data the last byte had its top bit set: the code throws TSDBException("Early decoding EOF").
unfoldable pub decode_varint_loop : List ℕ → ℕ → ℕ → ℕ → Option (ℕ × ℕ)
decode_varint_loop [] i decoded_value shift_amount = none
decode_varint_loop (byte ∷ input) i decoded_value shift_amount =
    let decoded = add_group decoded_value byte shift_amount in
    let more = decode_varint_loop input (i + 1) decoded (shift_amount + 7) in
    if bit_and byte 0x80 == 0 then some (decoded, i + 1) else more

-- The value and the number of bytes that it takes.
unfoldable pub decode_unsigned_varint : List ℕ → Option (ℕ × ℕ)
unfolding decode_varint_loop
decode_unsigned_varint input = decode_varint_loop input 0 0 0

-- `value < 0 ? ~(value << 1) : (value << 1)` on the 64 bits of `value`.
unfoldable pub encode_zigzag : ℕ → ℕ
encode_zigzag value =
    if ltb value (2 ^ 63) then value * 2 % 2 ^ 64 else 2 ^ 64 - 1 - value * 2 % 2 ^ 64

-- `unsigned_value & 1 ? ~(unsigned_value >> 1) : (unsigned_value >> 1)`
unfoldable pub decode_zigzag : ℕ → ℕ
decode_zigzag unsigned_value =
    if bit_and unsigned_value 1 == 1 then 2 ^ 64 - 1 - unsigned_value / 2 else unsigned_value / 2

unfoldable pub encode_signed_varint : ℕ → List ℕ
unfolding encode_zigzag encode_unsigned_varint
encode_signed_varint value = encode_unsigned_varint (encode_zigzag value)

unfoldable pub decode_signed_varint : List ℕ → Option (ℕ × ℕ)
unfolding decode_zigzag decode_unsigned_varint
decode_signed_varint input = elim (decode_unsigned_varint input) [
  | none ↦ none
  | some (unsigned_value, decoded_bytes) ↦ some (decode_zigzag unsigned_value, decoded_bytes)
]
