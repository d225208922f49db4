-- ===== src/Base/Endian/Widths.antt =====
-- The bit widths of base/Endian.hpp and base/Endian.cpp.
use prom_tcs.Prelude.{
  ℕ, ◌+◌, ◌-◌, ◌/◌, ◌^◌, ◌≤◌, ◌<◌, bit_or, ◌≡◌, arith, leb, ltb, ◌==◌, if◌then◌else◌,
}

-- `len8table[v]`: how many binary digits a number below 256 has.
unfoldable pub len8table : ℕ → ℕ
len8table v =
    if v == 0
    then 0
    else if ltb v 2
    then 1
    else if ltb v 4
    then 2
    else if ltb v 8
    then 3
    else if ltb v 16
    then 4
    else if ltb v 32
    then 5
    else if ltb v 64
    then 6
    else if ltb v 128
    then 7
    else 8

-- The last test and its step; a number of 8 bits is shifted by 16.
unfoldable pub max_bits8 : ℕ → ℕ → ℕ
unfolding len8table
max_bits8 n v = if leb (2 ^ 8) v then n + 8 + len8table (v / 2 ^ 16) else n + len8table v

unfoldable pub max_bits16 : ℕ → ℕ → ℕ
unfolding max_bits8
max_bits16 n v = if leb (2 ^ 16) v then max_bits8 (n + 16) (v / 2 ^ 16) else max_bits8 n v

unfoldable pub max_bits64 : ℕ → ℕ
unfolding max_bits16
max_bits64 v = if leb (2 ^ 32) v then max_bits16 32 (v / 2 ^ 32) else max_bits16 0 v

unfoldable pub max_bytes64 : ℕ → ℕ
max_bytes64 v =
    let top = if leb (2 ^ 32) v then v / 2 ^ 32 else v in
    let low = if leb (2 ^ 16) top then top / 2 ^ 16 else top in
    (if leb (2 ^ 32) v then 4 else 0)
    + (if leb (2 ^ 16) top then 2 else 0)
    + (if leb (2 ^ 8) low then 1 else 0)
    + 1

-- `get_origin`: a field of `bits` bits with its sign, as 64 bits.
unfoldable pub get_origin : ℕ → ℕ → ℕ
get_origin word bits = if word / 2 ^ (bits - 1) == 1 then bit_or word (2 ^ 64 - 2 ^ bits) else word

unfoldable pub get_max : ℕ → ℕ
get_max bits = 2 ^ (bits - 1) - 1

-- The 64 bits of the negative number.
unfoldable pub get_min : ℕ → ℕ
get_min bits = 2 ^ 64 - 2 ^ (bits - 1)

-- Each number of 9 to 16 bits gets the width 8: the last step shifts all its digits out.
pub max_bits64-short : (v : ℕ) → 2 ^ 8 ≤ v → v < 2 ^ 16 → max_bits64 v ≡ 8
unfolding max_bits64 max_bits16 max_bits8 len8table
max_bits64-short v large small = ground arith
