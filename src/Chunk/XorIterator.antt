-- ===== src/Chunk/XorIterator.antt =====
-- chunk/XORIterator.hpp and chunk/XORIterator.cpp.
use prom_tcs.Prelude.{
  ℕ, zero, suc, ◌+◌, ◌-◌, ◌*◌, ◌%◌, ◌^◌, bit_or, bit_xor, Bool, true, false, ◌||◌, List, [], ◌∷◌,
  ◌++◌, ltb, ◌==◌, if◌then◌else◌, take, replicate,
}
use prom_tcs.Base.Endian.{get_uint16_big_endian}
use prom_tcs.Chunk.BitStream.{
  BitStream, ok, eof, stuck, Reader, ◌>>=◌, pure, of_vector, of_pointer, bytes_ptr, size, pop_front,
  read_bit, read_bits,
}
use prom_tcs.Chunk.BitStream.Varints.{read_signed_varint}

pub record XorIterator : Type 0 where
  pub bstream : BitStream
  pub timestamp : ℕ
  pub value : ℕ
  pub delta_timestamp : ℕ
  pub leading_zero : ℕ
  pub trailing_zero : ℕ
  pub num_total : ℕ
  pub num_read : ℕ
  pub err : Bool
  pub safe_mode : Bool

-- The memory from `bytes_ptr()` on, as far as `size()` reaches. In vector mode `size()` counts the
-- header, which `bytes_ptr()` skips: so many bytes behind the vector belong to it.
unfoldable pub memory : BitStream → List ℕ
memory s = if s.vector_mode then bytes_ptr s ++ replicate s.header_size s.past else bytes_ptr s

-- The constructor. In safe mode the memory is copied to a vector.
unfoldable pub xor_iterator_of : BitStream → Bool → XorIterator
xor_iterator_of s safe_mode = record {
  bstream = pop_front (
      pop_front (
        if safe_mode
        then of_vector (take (size s) (memory s)) s.past
        else of_pointer (memory s) (size s) s.past));
  timestamp = 0;
  value = 0;
  delta_timestamp = 0;
  leading_zero = 0;
  trailing_zero = 0;
  num_total = get_uint16_big_endian (bytes_ptr s) 0;
  num_read = 0;
  err = false;
  safe_mode = safe_mode;
}

unfoldable pub at : XorIterator → ℕ × ℕ
at it = (it.timestamp, it.value)

-- What `next` returns, and the members after it.
abbrev pub Step : Type 0
Step = Bool × XorIterator

-- `try { ... } catch (...)` around a read of the stream.
unfoldable pub try_read :
    {A : Type 0} → Reader A → (XorIterator → Step) → (A → XorIterator → Step) → XorIterator → Step
try_read m handler body it = elim (m it.bstream) [
  | ok a s ↦ body a (record it { bstream = s })
  | eof s ↦ handler (record it { bstream = s })
  | stuck ↦ handler it
]

-- `err_ = true; return false;`
abbrev pub failed : XorIterator → Step
failed it = (false, record it { err = true })

-- `return false;`
abbrev pub ended : XorIterator → Step
ended it = (false, it)

-- `++num_read; return true;`
abbrev pub counted : XorIterator → Step
counted it = (true, record it { num_read = (it.num_read + 1) % 2 ^ 16 })

unfoldable pub add_difference : ℕ → XorIterator → Step
add_difference bits it =
    counted (record it { value = bit_xor it.value (bits * 2 ^ it.trailing_zero % 2 ^ 64) })

-- The bits of the difference. Where the window is wider than 64 bits, which no appender writes, the
-- code reads a negative number of bits; the model reads none.
unfoldable pub read_difference : XorIterator → Step
read_difference it =
    try_read (read_bits (64 - it.leading_zero - it.trailing_zero)) ended add_difference it

-- 0 stands for 64 significant bits.
abbrev pub significant : ℕ → ℕ
significant bits = if bits == 0 then 64 else bits

unfoldable pub set_trailing : ℕ → XorIterator → Step
set_trailing bits it =
    read_difference
      (record it { trailing_zero = (64 + 256 - it.leading_zero - significant bits) % 256 })

unfoldable pub set_leading : ℕ → XorIterator → Step
set_leading lz it = try_read (read_bits 6) ended set_trailing (record it { leading_zero = lz })

-- The new numbers of leading and significant bits.
unfoldable pub read_window : XorIterator → Step
read_window it = try_read (read_bits 5) ended set_leading it

unfoldable pub second_control : Bool → XorIterator → Step
second_control control_bit it = if control_bit then read_window it else read_difference it

unfoldable pub first_control : Bool → XorIterator → Step
first_control control_bit it =
    if control_bit then try_read read_bit ended second_control it else counted it

unfoldable pub read_value : XorIterator → Step
read_value it = try_read read_bit ended first_control it

unfoldable pub first_sample : ℕ → ℕ → XorIterator → Step
first_sample current_t current_v it =
    counted (record it { timestamp = current_t; value = current_v })

unfoldable pub first_value : ℕ → XorIterator → Step
first_value current_t it = try_read (read_bits 64) failed (first_sample current_t) it

unfoldable pub next_first : XorIterator → Step
next_first it = try_read read_signed_varint failed first_value it

unfoldable pub add_delta : ℕ → XorIterator → Step
add_delta delta_t it =
    read_value
      (record it { delta_timestamp = delta_t; timestamp = (it.timestamp + delta_t) % 2 ^ 64 })

unfoldable pub next_second : XorIterator → Step
next_second it = try_read read_signed_varint failed add_delta it

-- The loop over the control bits, with `k` rounds left.
unfoldable pub read_type : ℕ → ℕ → Reader ℕ
read_type zero type = pure type
read_type (suc k) type = do
  bit ← read_bit
  if bit then read_type k (bit_or (type * 2 % 256) 1) else pure (type * 2 % 256)

-- A number of `size` bits with its sign.
unfoldable pub read_sized : ℕ → Reader ℕ
read_sized size = do
  delta_delta ← read_bits size
  pure (
      if ltb (2 ^ (size - 1)) delta_delta
      then (delta_delta + 2 ^ 64 - 2 ^ size) % 2 ^ 64
      else delta_delta)

unfoldable pub read_delta_delta : ℕ → Reader ℕ
read_delta_delta type =
    if type == 0x02
    then read_sized 14
    else if type == 0x06
    then read_sized 17
    else if type == 0x0e
    then read_sized 20
    else if type == 0x0f
    then read_bits 64
    else pure 0

unfoldable pub add_delta_delta : ℕ → XorIterator → Step
add_delta_delta delta_delta it = add_delta ((delta_delta + it.delta_timestamp) % 2 ^ 64) it

unfoldable pub type_known : ℕ → XorIterator → Step
type_known type it = try_read (read_delta_delta type) failed add_delta_delta it

unfoldable pub next_later : XorIterator → Step
next_later it = try_read (read_type 4 0) failed type_known it

unfoldable pub next : XorIterator → Step
next it =
    if it.err || (it.num_read == it.num_total)
    then (false, it)
    else if it.num_read == 0
    then next_first it
    else if it.num_read == 1
    then next_second it
    else next_later it

-- `while (it->next()) ...`: the samples and the iterator at the end. A round that goes on counts
-- `num_read` up to `num_total`, so one more round than that is enough.
unfoldable pub collect : ℕ → XorIterator → List (ℕ × ℕ) × XorIterator
collect zero it = ([], it)
collect (suc fuel) it =
    let (more, it') = next it in
    let (samples, it'') = collect fuel it' in if more then (at it' ∷ samples, it'') else ([], it')
