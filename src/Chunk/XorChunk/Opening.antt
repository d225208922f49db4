-- ===== src/Chunk/XorChunk/Opening.antt =====
-- The constructor of XORIterator on the stream of a chunk in write mode.
use prom_tcs.Prelude.{
  ℕ, zero, suc, ◌+◌, ◌*◌, ◌/◌, ◌%◌, ◌^◌, ◌≤◌, ◌≡◌, refl, sym, ap, ap₂, ◌∙◌, Bool, true, false, List,
  [], ◌∷◌, ◌++◌, append-nil, append_assoc, arith, length, length-append, length-replicate, get_or,
  drop, drop-length, take, take-length, replicate, All, All-append, if◌then◌else◌, IsByte,
}
use prom_tcs.Prelude.Digits.{bits_of, bits_of-append}
use prom_tcs.Base.Endian.{get_uint16_big_endian}
use prom_tcs.Chunk.BitStream.{BitStream, of_vector, of_pointer, bytes, bytes_ptr, size, pop_front}
use prom_tcs.Chunk.BitStream.Read.{IsReader, unread, rest_bits}
use prom_tcs.Chunk.XorIterator.{XorIterator, memory, xor_iterator_of}
use prom_tcs.Chunk.XorChunk.Header.{Counted, after_count, counted_stream, after_count_digits}

-- An iterator that has read nothing.
pub record Fresh (it : XorIterator) (total : ℕ) : Type 0 where
  pub reader : IsReader it.bstream
  pub no_err : it.err ≡ false
  pub timestamp : it.timestamp ≡ 0
  pub value : it.value ≡ 0
  pub delta_timestamp : it.delta_timestamp ≡ 0
  pub leading_zero : it.leading_zero ≡ 0
  pub trailing_zero : it.trailing_zero ≡ 0
  pub num_read : it.num_read ≡ 0
  pub num_total : it.num_total ≡ total

rest_bits_whole : (l : List ℕ) → rest_bits 8 l ≡ bits_of l
unfolding rest_bits bits_of
rest_bits_whole [] = refl
rest_bits_whole (x ∷ xs) = refl

all_taken : (xs : List ℕ) (n : ℕ) → n ≡ length xs → take n xs ≡ xs
all_taken xs n e =
    ap₂ (λ (k : ℕ) (l : List ℕ). take k l) e (sym (append-nil xs)) ∙ take-length xs []

replicated : (n x : ℕ) → IsByte x → All IsByte (replicate n x)
replicated zero x h = tt
replicated (suc n) x h = (h, replicated n x h)

module _ {s : BitStream} {hdr : List ℕ} {n : ℕ} {body : List Bool} (c : Counted s hdr n body) where
  abbrev behind_header : List ℕ
  behind_header = n / 256 ∷ n % 256 ∷ after_count c

  pointed : bytes_ptr s ≡ behind_header
  unfolding bytes_ptr bytes
  pointed = rw c.in_vector (
      ap₂ (λ (k : ℕ) (l : List ℕ). drop k l) c.header (counted_stream c)
      ∙ drop-length hdr behind_header)

  memory_lem : memory s ≡ behind_header ++ replicate s.header_size s.past
  unfolding memory
  memory_lem =
      let extra = replicate s.header_size s.past in
      ap (λ (m : Bool). if m then bytes_ptr s ++ extra else bytes_ptr s) c.in_vector
      ∙ ap (λ (l : List ℕ). l ++ extra) pointed

  size_is_length : size s ≡ length s.stream
  unfolding size
  size_is_length = rw c.in_vector refl

  length-memory : size s ≡ length (memory s)
  length-memory = omega (
    arith,
    size_is_length,
    c.header,
    ap length (counted_stream c),
    length-append hdr behind_header,
    ap length memory_lem,
    length-append behind_header (replicate s.header_size s.past),
    length-replicate s.header_size s.past,
  )

  not_empty : 2 ≤ length (memory s)
  not_empty =
      omega
        (arith, ap length memory_lem, length-append behind_header (replicate s.header_size s.past))

  abbrev start_of : Bool → ℕ → ℕ → BitStream
  start_of safe_mode head end = record {
    stream = memory s;
    head_count = head;
    tail_count = 0;
    vector_mode = safe_mode;
    index = 0;
    end = end;
    header_size = 0;
    past = s.past;
  }

  abbrev first_stream : Bool → BitStream
  first_stream safe_mode =
      if safe_mode
      then of_vector (take (size s) (memory s)) s.past
      else of_pointer (memory s) (size s) s.past

  -- Either way the whole memory is read from its start.
  started : (safe_mode : Bool) → first_stream safe_mode ≡ start_of safe_mode 8 (size s)
  unfolding of_vector of_pointer
  started true =
      ap (λ (l : List ℕ). of_vector l s.past) (all_taken (memory s) (size s) length-memory)
      ∙ ap₂ (start_of true) (ground (arith, not_empty)) (sym length-memory)
  started false =
      ap (λ (h : ℕ). start_of false h (size s)) (ground (arith, not_empty, length-memory))

  memory_bytes : All IsByte (memory s)
  memory_bytes =
      let (pad, bytes, digits) = after_count_digits c in
      rw memory_lem (
        All-append IsByte behind_header (replicate s.header_size s.past)
          (omega (arith, c.n_small), (omega arith, bytes))
          (replicated s.header_size s.past c.past_byte))

  -- Behind the number of samples.
  abbrev popped : Bool → BitStream
  popped safe_mode = record (start_of safe_mode 8 (size s)) { index = 2 }

  popped-unread :
      (safe_mode : Bool) → (rest : List Bool) × (unread (popped safe_mode) ≡ body ++ rest)
  unfolding unread
  popped-unread safe_mode =
      let (pad, bytes, digits) = after_count_digits c in
      let extra = replicate s.header_size s.past in
      (
        pad ++ bits_of extra,
        ap (λ (l : List ℕ). rest_bits 8 (drop 2 l)) memory_lem
            ∙ rest_bits_whole (after_count c ++ extra)
            ∙ bits_of-append (after_count c) extra
            ∙ ap (λ (l : List Bool). l ++ bits_of extra) digits
            ∙ append_assoc body pad (bits_of extra),
      )

  abbrev iterator_on : BitStream → ℕ → Bool → XorIterator
  iterator_on b total safe_mode = record {
    bstream = b;
    timestamp = 0;
    value = 0;
    delta_timestamp = 0;
    leading_zero = 0;
    trailing_zero = 0;
    num_total = total;
    num_read = 0;
    err = false;
    safe_mode = safe_mode;
  }

  opens :
      (safe_mode : Bool) → xor_iterator_of s safe_mode ≡ iterator_on (popped safe_mode) n safe_mode
  unfolding xor_iterator_of pop_front get_uint16_big_endian
  opens safe_mode =
      ap₂
        (λ (b : BitStream) (total : ℕ).
          iterator_on (record b { index = b.index + 1 + 1 }) total safe_mode)
        (started safe_mode)
        (ap (λ (l : List ℕ). get_or l 0 0 * 2 ^ 8 + get_or l 1 0) pointed ∙ omega arith)

  -- A new iterator stands at the digits of the samples.
  pub opened :
      (safe_mode : Bool)
      → Fresh (xor_iterator_of s safe_mode) n
        × ((rest : List Bool) × (unread (xor_iterator_of s safe_mode).bstream ≡ body ++ rest))
  opened safe_mode = rw (opens safe_mode) (
    record {
      reader = record {
        ends = length-memory;
        head_small = omega arith;
        bytes = memory_bytes;
        past_byte = c.past_byte;
      };
      no_err = refl;
      timestamp = refl;
      value = refl;
      delta_timestamp = refl;
      leading_zero = refl;
      trailing_zero = refl;
      num_read = refl;
      num_total = refl;
    },
    popped-unread safe_mode,
  )
