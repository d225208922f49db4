-- ===== src/Chunk/BitStream.antt =====
-- chunk/BitStream.hpp and chunk/BitStream.cpp: bits written into and read from a byte vector.
-- `stream` stands for the vector in vector mode and for the memory at `stream_ptr` in pointer mode;
-- the two branches of each read do the same on it, and the model has one. An access behind the last
-- byte yields `past`, an arbitrary byte: the code makes such accesses, so no theorem may rest on it.
pub mod Write
pub mod WriteByte
pub mod WriteBits
pub mod Appends
pub mod Read
pub mod Took
pub mod ReadBits
pub mod ReadBytes
pub mod Varints
pub mod Positions
use prom_tcs.Prelude.{
  ℕ, zero, suc, ◌+◌, ◌-◌, ◌*◌, ◌/◌, ◌%◌, ◌^◌, bit_and, bit_or, Bool, true, false, not, ◌&&◌, List,
  [], ◌∷◌, ◌++◌, leb, ltb, ◌==◌, if◌then◌else◌, length, get_or, replicate, drop,
}

pub record BitStream : Type 0 where
  pub stream : List ℕ
  pub head_count : ℕ
  pub tail_count : ℕ
  pub vector_mode : Bool
  pub index : ℕ
  pub end : ℕ
  pub header_size : ℕ
  pub past : ℕ

-- A read returns a value or throws TSDBException("bitstream EOF"); both keep the members as they are
-- at that point. `stuck` is no outcome of the code: the loop of a varint ran out of fuel.
pub data Result {ℓ} (A : Type ℓ) : Type ℓ where
  ok : A → BitStream → Result A
  eof : BitStream → Result A
  stuck : Result A

-- A member function that reads.
abbrev pub Reader : Type 0 → Type 0
Reader A = BitStream → Result A

infixl 5 ◌>>=◌ ◌>>◌
abbrev pub ◌>>=◌ : {A B : Type 0} → Reader A → (A → Reader B) → Reader B
◌>>=◌ m f s = elim (m s) [ ok a s' ↦ f a s' | eof s' ↦ eof s' | stuck ↦ stuck ]

abbrev pub ◌>>◌ : {B : Type 0} → Reader (Unit {0}) → Reader B → Reader B
m >> k = m >>= λ _. k

abbrev pub pure : {A : Type 0} → A → Reader A
pure a s = ok a s

-- BitStream(const std::vector<uint8_t> &stream)
unfoldable pub of_vector : List ℕ → ℕ → BitStream
of_vector stream past = record {
  stream = stream;
  head_count = if leb 1 (length stream) then 8 else 0;
  tail_count = 0;
  vector_mode = true;
  index = 0;
  end = length stream;
  header_size = 0;
  past = past;
}

-- BitStream(const uint8_t *stream_ptr, int size), where `stream` is the memory from `stream_ptr` on.
unfoldable pub of_pointer : List ℕ → ℕ → ℕ → BitStream
of_pointer stream size past = record {
  stream = stream;
  head_count = if leb 1 size then 8 else 0;
  tail_count = 0;
  vector_mode = false;
  index = 0;
  end = size;
  header_size = 0;
  past = past;
}

-- BitStream()
unfoldable pub empty : ℕ → BitStream
empty past = record {
  stream = [];
  head_count = 0;
  tail_count = 0;
  vector_mode = true;
  index = 0;
  end = 0;
  header_size = 0;
  past = past;
}

-- BitStream(int size, int header_size)
unfoldable pub sized : ℕ → ℕ → ℕ → BitStream
sized size header_size past = record {
  stream = replicate (size + header_size) 0;
  head_count = 0;
  tail_count = 0;
  vector_mode = true;
  index = 0;
  end = size + header_size;
  header_size = header_size;
  past = past;
}

-- `stream.back() |= v`
unfoldable pub or_back : List ℕ → ℕ → List ℕ
or_back [] v = []
or_back (x ∷ []) v = bit_or x v ∷ []
or_back (x ∷ y ∷ xs) v = x ∷ or_back (y ∷ xs) v

-- `if (tail_count == 0) { stream.push_back(0); ++end; }`
unfoldable pub grow : BitStream → BitStream
grow s = if s.tail_count == 0 then record s { stream = s.stream ++ 0 ∷ []; end = s.end + 1 } else s

unfoldable pub write_bit : BitStream → Bool → BitStream
unfolding or_back grow
write_bit s bit =
    let g = grow s in
    let tail = g.tail_count + 1 in
    record g {
      stream = if bit then or_back g.stream (2 ^ (8 - tail)) else g.stream;
      tail_count = bit_and tail 0x07;
    }

unfoldable pub write_byte : BitStream → ℕ → BitStream
unfolding or_back grow
write_byte s byte =
    let g = grow s in
    let merged = or_back g.stream (byte / 2 ^ g.tail_count) in
    if g.tail_count == 0 then record g { stream = merged } else record g {
      stream = merged ++ bit_and (byte * 2 ^ (8 - g.tail_count)) 0xff ∷ [];
      end = g.end + 1;
    }

-- The loop of `write_bytes_be`, with `num` rounds left; `bytes` is the two's complement of an int64.
unfoldable pub write_bytes_be : BitStream → ℕ → ℕ → BitStream
unfolding write_byte
write_bytes_be s bytes zero = s
write_bytes_be s bytes (suc i) = write_bytes_be (write_byte s (bytes / 2 ^ (8 * i) % 256)) bytes i

-- `while (num >= 8)` of `write_bits`, with `k` rounds left, and the bits still to be written.
unfoldable pub write_bits_bytes : BitStream → ℕ → ℕ → BitStream × ℕ
unfolding write_byte
write_bits_bytes s bits zero = (s, bits)
write_bits_bytes s bits (suc k) =
    write_bits_bytes (write_byte s (bits / 2 ^ 56 % 256)) (bits * 2 ^ 8 % 2 ^ 64) k

-- `while (num > 0)` of `write_bits`.
unfoldable pub write_bits_tail : BitStream → ℕ → ℕ → BitStream
unfolding write_bit
write_bits_tail s bits zero = s
write_bits_tail s bits (suc num) =
    write_bits_tail (write_bit s (bits / 2 ^ 63 == 1)) (bits * 2 % 2 ^ 64) num

unfoldable pub write_bits : BitStream → ℕ → ℕ → BitStream
unfolding write_bits_bytes write_bits_tail
write_bits s bits num =
    let (s', rest) = write_bits_bytes s (bits * 2 ^ (64 - num) % 2 ^ 64) (num / 8) in
    write_bits_tail s' rest (num % 8)

-- `ptr[i]` of `s.bytes_ptr()`: the header is skipped in vector mode.
unfoldable pub pointed_byte : BitStream → ℕ → ℕ
pointed_byte s i = get_or s.stream (if s.vector_mode then s.header_size + i else i) s.past

-- `while (num >= 8)` of `write_stream`, with `k` rounds left.
unfoldable pub write_stream_bytes : BitStream → BitStream → ℕ → ℕ → BitStream
unfolding write_byte pointed_byte
write_stream_bytes s src i zero = s
write_stream_bytes s src i (suc k) =
    write_stream_bytes (write_byte s (pointed_byte src i)) src (i + 1) k

-- The leading bits of the byte `j`.
unfoldable pub write_stream_bits : BitStream → ℕ → ℕ → BitStream
unfolding write_bit
write_stream_bits s j zero = s
write_stream_bits s j (suc num) = write_stream_bits (write_bit s (j / 2 ^ 7 == 1)) (j * 2 % 256) num

unfoldable pub write_stream : BitStream → BitStream → ℕ → BitStream
unfolding write_stream_bytes write_stream_bits pointed_byte
write_stream s src num =
    let copied = write_stream_bytes s src 0 (num / 8) in
    if ltb 0 (num % 8)
    then write_stream_bits copied (pointed_byte src (num / 8)) (num % 8)
    else copied

unfoldable pub write_padding_bits : BitStream → ℕ → BitStream
unfolding write_bit
write_padding_bits s zero = s
write_padding_bits s (suc num) = write_padding_bits (write_bit s false) num

unfoldable pub write_padding_bytes : BitStream → ℕ → BitStream
unfolding write_byte
write_padding_bytes s zero = s
write_padding_bytes s (suc k) = write_padding_bytes (write_byte s 0) k

unfoldable pub write_padding : BitStream → ℕ → BitStream
unfolding write_padding_bits write_padding_bytes
write_padding s num = write_padding_bits (write_padding_bytes s (num / 8)) (num % 8)

abbrev pub byte_at : BitStream → ℕ → ℕ
byte_at s i = get_or s.stream i s.past

-- The first lines of `read_bit` and `read_byte`: step to the next byte if this one is used up.
unfoldable pub refill : Reader (Unit {0})
refill s =
    if leb s.end s.index
    then eof s
    else if s.head_count == 0
    then if leb s.end (s.index + 1)
      then eof (record s { index = s.index + 1 })
      else ok tt (record s { index = s.index + 1; head_count = 8 })
    else ok tt s

-- `((stream[index] << (8 - (head_count--))) & 0x80) == 0x80`
unfoldable pub take_bit : Reader Bool
take_bit s =
    ok (bit_and (byte_at s s.index * 2 ^ (8 - s.head_count)) 0x80 == 0x80)
      (record s { head_count = s.head_count - 1 })

unfoldable pub read_bit : Reader Bool
unfolding refill take_bit
read_bit = refill >> take_bit

-- The byte at the position is joined from this byte and the next; the next one is read even if no
-- bit of it is wanted.
unfoldable pub join_byte : Reader ℕ
join_byte s =
    let temp = byte_at s s.index * 2 ^ (8 - s.head_count) % 256 in
    let s' = record s { index = s.index + 1 } in
    if not (s.head_count == 8) && leb s'.end s'.index
    then eof s'
    else ok (bit_or temp (byte_at s s'.index / 2 ^ s.head_count) % 256) s'

unfoldable pub read_byte : Reader ℕ
unfolding refill join_byte
read_byte = refill >> join_byte

-- `while (num >= 8)` of `read_bits`, with `k` rounds left.
unfoldable pub read_bits_bytes : ℕ → ℕ → Reader ℕ
unfolding read_byte
read_bits_bytes zero result = pure result
read_bits_bytes (suc k) result = do
  temp ← read_byte
  read_bits_bytes k (bit_or (result * 2 ^ 8 % 2 ^ 64) temp)

-- The last statements of `read_bits`.
unfoldable pub read_bits_last : ℕ → ℕ → Reader ℕ
read_bits_last num result s =
    ok
      (bit_or (result * 2 ^ num % 2 ^ 64)
        (bit_and (byte_at s s.index / 2 ^ (s.head_count - num)) (2 ^ num - 1)))
      (record s { head_count = s.head_count - num })

-- `if (head_count < num)` of `read_bits`: the bits that are left in this byte come first.
unfoldable pub read_bits_tail : ℕ → ℕ → Reader ℕ
unfolding read_bits_last
read_bits_tail num result s =
    if ltb s.head_count num
    then (let joined =
          bit_or (result * 2 ^ s.head_count % 2 ^ 64)
            (bit_and (byte_at s s.index) (2 ^ s.head_count - 1)) in
        if leb s.end (s.index + 1)
        then eof (record s { index = s.index + 1 })
        else read_bits_last (num - s.head_count) joined
            (record s { index = s.index + 1; head_count = 8 }))
    else read_bits_last num result s

unfoldable pub read_bits : ℕ → Reader ℕ
unfolding read_bits_bytes read_bits_tail
read_bits num = do result ← read_bits_bytes (num / 8) 0; read_bits_tail (num % 8) result

-- `bytes()` and, in vector mode, `bytes_ptr()`: the memory behind the header.
unfoldable pub bytes : BitStream → List ℕ
bytes s = drop s.header_size s.stream

-- `bytes_ptr()`
unfoldable pub bytes_ptr : BitStream → List ℕ
unfolding bytes
bytes_ptr s = if s.vector_mode then bytes s else s.stream

unfoldable pub pop_front : BitStream → BitStream
pop_front s = record s { index = s.index + 1 }

unfoldable pub size : BitStream → ℕ
size s = if s.vector_mode then length s.stream else s.end

-- The number of bits that are written.
unfoldable pub write_pos : BitStream → ℕ
unfolding size
write_pos s = if s.tail_count == 0 then size s * 8 else (size s - 1) * 8 + s.tail_count
