-- ===== src/Chunk/XorChunk/Header.antt =====
-- The bytes of a chunk: a reserved header, the number of samples in two bytes, and the samples.
use native.Mathlib.Nat.{one-le-pow}
use prom_tcs.Prelude.{
  ℕ, zero, suc, ◌+◌, ◌-◌, ◌*◌, ◌/◌, ◌%◌, ◌^◌, ◌≤◌, ◌<◌, bit_and, ◌≡◌, refl, sym, ap, ap₂, ◌∙◌, Bool,
  true, List, [], ◌∷◌, ◌++◌, append-nil, append_assoc, arith, length, length-append,
  length-replicate, get_or, set, set-append, get_or-append, replicate, All, All-append,
  append_cancel, IsByte,
}
use prom_tcs.Prelude.Bits.{bit_and_mask}
use prom_tcs.Prelude.Digits.{
  bits_be, bits_of, length-bits_be, bits_of-append, eq_of_bits_be, bits_be_fields, fields-lt,
}
use prom_tcs.Base.Endian.{get_uint16_big_endian, put_uint16_big_endian}
use prom_tcs.Chunk.BitStream.{BitStream, sized}
use prom_tcs.Chunk.BitStream.Write.{Wrote, unfinished}
use prom_tcs.Chunk.BitStream.Read.{length-bits_of}
use prom_tcs.Chunk.BitStream.Appends.{Appends}
use prom_tcs.Chunk.XorAppender.{stored_count}

-- The two bytes of the number of samples.
abbrev pub count_bytes : ℕ → List ℕ
count_bytes n = n / 256 ∷ n % 256 ∷ []

-- The stream holds the header `hdr`, the number `n` and the digits `body`.
pub record Counted (s : BitStream) (hdr : List ℕ) (n : ℕ) (body : List Bool) : Type 0 where
  pub header : s.header_size ≡ length hdr
  pub header_bytes : All IsByte hdr
  pub n_small : n < 2 ^ 16
  pub past_byte : IsByte s.past
  pub in_vector : s.vector_mode ≡ true
  pub wrote : Wrote s (bits_of (hdr ++ count_bytes n) ++ body)

-- Appending keeps the header and the number.
pub Counted-Appends :
    {s s' : BitStream} {hdr : List ℕ} {n : ℕ} {body digits : List Bool}
    → Counted s hdr n body
    → Appends s s' digits
    → Counted s' hdr n (body ++ digits)
Counted-Appends {hdr = hdr} {n} {body} {digits} c a = record {
  header = a.keeps.header_size ∙ c.header;
  header_bytes = c.header_bytes;
  n_small = c.n_small;
  past_byte = rw a.keeps.past c.past_byte;
  in_vector = a.keeps.vector_mode ∙ c.in_vector;
  wrote =
      rw (sym (append_assoc (bits_of (hdr ++ count_bytes n)) body digits))
        (a.wrote (bits_of (hdr ++ count_bytes n) ++ body) c.wrote);
}

-- Equal digits start with equal bytes.
same_front :
    (pre full : List ℕ) (body tail : List Bool)
    → All IsByte pre
    → All IsByte full
    → length pre ≤ length full
    → bits_of pre ++ body ≡ bits_of full ++ tail
    → (rest : List ℕ) × (full ≡ pre ++ rest) × All IsByte rest × (body ≡ bits_of rest ++ tail)
unfolding bits_of
same_front [] full body tail h h' le e = (full, refl, h', e)
same_front (p ∷ pre) [] body tail h h' le e = absurd (omega arith)
same_front (p ∷ pre) (x ∷ full) body tail h h' le e =
    let (heads, tails) =
      append_cancel (bits_be 8 p) (bits_be 8 x) (bits_of pre ++ body) (bits_of full ++ tail)
        (omega (arith, length-bits_be 8 p, length-bits_be 8 x))
        (sym (append_assoc (bits_be 8 p) (bits_of pre) body)
          ∙ e
          ∙ append_assoc (bits_be 8 x) (bits_of full) tail) in
    let (rest, split, bytes, body_rest) =
      same_front pre full body tail h.1 h'.1 (omega arith) tails in
    (
      rest,
      ap₂ (λ (y : ℕ) (ys : List ℕ). y ∷ ys) (sym (eq_of_bits_be 8 p x h.0 h'.0 heads)) split,
      bytes,
      body_rest,
    )

-- The last byte is filled up with zeros.
filled :
    (t q : ℕ)
    → t < 8
    → q < 2 ^ t
    → (pad : List Bool) × All IsByte (unfinished t q)
      × (bits_of (unfinished t q) ≡ bits_be t q ++ pad)
unfolding bits_of
filled zero q h small = ([], tt, unfold bits_be in refl)
filled (suc t) q h small =
    let exponent : 8 ≡ (7 - t) + suc t = omega arith in
    (
      bits_be (7 - t) 0,
      (
        omega (
          arith,
          fields-lt (suc t) (7 - t) 8 q 0 (omega arith) small (one-le-pow (7 - t) 2 (omega arith)),
        ),
        tt,
      ),
      ap (λ (x : ℕ). bits_be 8 x ++ []) (omega arith)
          ∙ append-nil (bits_be 8 (q * 2 ^ (7 - t) + 0))
          ∙ bits_be_fields (suc t) (7 - t) 8 q 0 exponent (one-le-pow (7 - t) 2 (omega arith)),
    )

-- The bytes behind the number.
pub record Behind (s : BitStream) (hdr : List ℕ) (n : ℕ) (body : List Bool)
    (w : Wrote s (bits_of (hdr ++ count_bytes n) ++ body)) : Type 0 where
  pub rest : List ℕ
  pub full : w.full ≡ (hdr ++ count_bytes n) ++ rest
  pub rest_bytes : All IsByte rest
  pub digits : body ≡ bits_of rest ++ bits_be s.tail_count w.q

module _ {s : BitStream} {hdr : List ℕ} {n : ℕ} {body : List Bool} (c : Counted s hdr n body) where
  front_bytes : All IsByte (hdr ++ count_bytes n)
  front_bytes =
      All-append IsByte hdr (count_bytes n) c.header_bytes
        (omega (arith, c.n_small), (omega arith, tt))

  pub Behind-after_count : Behind s hdr n body c.wrote
  Behind-after_count =
      let w = c.wrote in
      let long : length (hdr ++ count_bytes n) ≤ length w.full = omega (
        arith,
        w.tail_small,
        ap length w.digits,
        length-append (bits_of (hdr ++ count_bytes n)) body,
        length-append (bits_of w.full) (bits_be s.tail_count w.q),
        length-bits_of (hdr ++ count_bytes n),
        length-bits_of w.full,
        length-bits_be s.tail_count w.q,
      ) in
      let (rest, full, rest_bytes, digits) =
        same_front (hdr ++ count_bytes n) w.full body (bits_be s.tail_count w.q) front_bytes
          w.full_bytes long w.digits in
      record { rest = rest; full = full; rest_bytes = rest_bytes; digits = digits }

  abbrev pub after_count : List ℕ
  after_count = Behind-after_count.rest ++ unfinished s.tail_count c.wrote.q

  -- The whole stream.
  pub counted_stream : s.stream ≡ hdr ++ (n / 256 ∷ n % 256 ∷ after_count)
  counted_stream =
      let b = Behind-after_count in
      c.wrote.stream
      ∙ ap (λ (l : List ℕ). l ++ unfinished s.tail_count c.wrote.q) b.full
      ∙ append_assoc (hdr ++ count_bytes n) b.rest (unfinished s.tail_count c.wrote.q)
      ∙ append_assoc hdr (count_bytes n) after_count

  stored :
      (k v : ℕ)
      → get_or (n / 256 ∷ n % 256 ∷ after_count) k 0 ≡ v
      → get_or s.stream (s.header_size + k) 0 ≡ v
  stored k v e =
      ap₂ (λ (l : List ℕ) (i : ℕ). get_or l (i + k) 0) counted_stream c.header
      ∙ get_or-append hdr (n / 256 ∷ n % 256 ∷ after_count) k 0
      ∙ e

  -- The number that is read from the header.
  pub stored_count_lem : stored_count s ≡ n
  unfolding stored_count get_uint16_big_endian
  stored_count_lem = omega (
    arith,
    stored 0 (n / 256) refl,
    stored 1 (n % 256) refl,
    ap (λ (i : ℕ). get_or s.stream i 0)
        (let e : s.header_size + 0 ≡ s.header_size = omega arith in e),
  )

  -- The digits behind the number, up to the end of the last byte.
  pub after_count_digits :
      (pad : List Bool) × All IsByte after_count × (bits_of after_count ≡ body ++ pad)
  after_count_digits =
      let b = Behind-after_count in
      let w = c.wrote in
      let (pad, bytes, digits) = filled s.tail_count w.q w.tail_small w.q_small in
      (
        pad,
        All-append IsByte b.rest (unfinished s.tail_count w.q) b.rest_bytes bytes,
        bits_of-append b.rest (unfinished s.tail_count w.q)
            ∙ ap (◌++◌ (bits_of b.rest)) digits
            ∙ sym (append_assoc (bits_of b.rest) (bits_be s.tail_count w.q) pad)
            ∙ ap (λ (l : List Bool). l ++ pad) (sym b.digits),
      )

  abbrev put_count : BitStream
  put_count = record s { stream = put_uint16_big_endian s.stream s.header_size (n + 1) }

  put_stream :
      n + 1 < 2 ^ 16
      → put_uint16_big_endian s.stream s.header_size (n + 1)
        ≡ hdr ++ (count_bytes (n + 1) ++ after_count)
  unfolding put_uint16_big_endian
  put_stream fits =
      let hi = bit_and ((n + 1) / 2 ^ 8) 0xff in
      let lo = bit_and (n + 1) 0xff in
      let here : length hdr ≡ length hdr + 0 = omega arith in
      let high : hi ≡ (n + 1) / 256 = bit_and_mask 8 ((n + 1) / 2 ^ 8) ∙ omega arith in
      ap₂ (λ (l : List ℕ) (i : ℕ). set (set l (i + 1) lo) i hi) counted_stream c.header
      ∙ ap (λ (l : List ℕ). set l (length hdr) hi)
          (set-append hdr (n / 256 ∷ n % 256 ∷ after_count) 1 lo)
      ∙ ap (λ (i : ℕ). set (hdr ++ (n / 256 ∷ lo ∷ after_count)) i hi) here
      ∙ set-append hdr (n / 256 ∷ lo ∷ after_count) 0 hi
      ∙ ap₂ (λ (x y : ℕ). hdr ++ (x ∷ y ∷ after_count)) high (bit_and_mask 8 (n + 1))

  -- The new number takes the place of the old one.
  pub Counted-put : n + 1 < 2 ^ 16 → Counted put_count hdr (n + 1) body
  Counted-put fits =
      let b = Behind-after_count in
      let w = c.wrote in
      record {
        header = c.header;
        header_bytes = c.header_bytes;
        n_small = fits;
        past_byte = c.past_byte;
        in_vector = c.in_vector;
        wrote = record {
          full = (hdr ++ count_bytes (n + 1)) ++ b.rest;
          q = w.q;
          full_bytes =
              All-append IsByte (hdr ++ count_bytes (n + 1)) b.rest
                (All-append IsByte hdr (count_bytes (n + 1)) c.header_bytes
                  (omega arith, (omega arith, tt)))
                b.rest_bytes;
          tail_small = w.tail_small;
          q_small = w.q_small;
          stream =
              put_stream fits
              ∙ sym (append_assoc hdr (count_bytes (n + 1)) after_count)
              ∙ sym
                  (append_assoc (hdr ++ count_bytes (n + 1)) b.rest (unfinished s.tail_count w.q));
          digits =
              ap (◌++◌ (bits_of (hdr ++ count_bytes (n + 1)))) b.digits
              ∙ sym (
                  append_assoc (bits_of (hdr ++ count_bytes (n + 1))) (bits_of b.rest)
                    (bits_be s.tail_count w.q))
              ∙ ap (λ (l : List Bool). l ++ bits_be s.tail_count w.q)
                  (sym (bits_of-append (hdr ++ count_bytes (n + 1)) b.rest));
          ends =
              w.ends
              ∙ omega (
                arith,
                ap length counted_stream,
                ap length (put_stream fits),
                length-append hdr (n / 256 ∷ n % 256 ∷ after_count),
                length-append hdr (count_bytes (n + 1) ++ after_count),
              );
        };
      }

-- A new chunk.
zeros_bytes : (n : ℕ) → All IsByte (replicate n 0)
zeros_bytes zero = tt
zeros_bytes (suc n) = (omega arith, zeros_bytes n)

replicate_add : (m n : ℕ) → replicate {A = ℕ} (n + m) 0 ≡ replicate m 0 ++ replicate n 0
replicate_add zero n = let e : n + 0 ≡ n = omega arith in rw e refl
replicate_add (suc m) n =
    let e : n + suc m ≡ suc (n + m) = omega arith in rw e (ap (◌∷◌ 0) (replicate_add m n))

pub Counted-sized :
    (header_size past : ℕ)
    → IsByte past
    → Counted (sized 2 header_size past) (replicate header_size 0) 0 []
unfolding sized
Counted-sized h past small = record {
  header = sym (length-replicate h 0);
  header_bytes = zeros_bytes h;
  n_small = omega arith;
  past_byte = small;
  in_vector = refl;
  wrote = record {
    full = replicate h 0 ++ count_bytes 0;
    q = 0;
    full_bytes =
        All-append IsByte (replicate h 0) (count_bytes 0) (zeros_bytes h)
          (omega arith, (omega arith, tt));
    tail_small = omega arith;
    q_small = omega arith;
    stream = replicate_add h 2 ∙ sym (append-nil (replicate h 0 ++ count_bytes 0));
    digits = ap (◌++◌ (bits_of (replicate h 0 ++ count_bytes 0))) (unfold bits_be in refl);
    ends = sym (length-replicate (2 + h) 0);
  };
}
