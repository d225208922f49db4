-- ===== src/Chunk/BitStream/ReadBits.antt =====
-- `read_bit`, `read_byte` and `read_bits` return the digits that come next.
use native.Mathlib.Nat.{one-le-pow, mod-lt}
use prom_tcs.Prelude.{
  ℕ, ◌+◌, ◌-◌, ◌*◌, ◌/◌, ◌%◌, ◌^◌, ◌≤◌, ◌<◌, bit_or, ◌≡◌, refl, sym, ap, ◌∙◌, inl, inr, Bool, true,
  false, List, ◌∷◌, ◌++◌, append_assoc, arith, leb, ltb, ltb→lt, length, length-append, drop,
  Bool-cases, IsByte,
}
use prom_tcs.Prelude.Bits.{bit_and_mask}
use prom_tcs.Prelude.Digits.{
  bits_be, bits_of, length-bits_be, bits_be_split, bits_be-mod, fields-lt,
}
use prom_tcs.Chunk.BitStream.{
  BitStream, ok, byte_at, read_byte, read_bits_bytes, read_bits_last, read_bits_tail, read_bits,
}
use prom_tcs.Chunk.BitStream.Read.{
  unread, IsReader, At-drop, behind, inside, unread-at, unread-behind, stepped, drop_next,
  length-bits_of,
}
use prom_tcs.Chunk.BitStream.Took.{Took}
use prom_tcs.Chunk.BitStream.ReadBytes.{
  >>=-ok, Took-append, length-Took, Took-eq, read_byte-Took, or_field, join_fields, Reads,
  zero_digits, read_bits_bytes_took,
}

-- The first `n` of `h` digits of a byte.
first_digits :
    (n h x : ℕ) → n ≤ h → bits_be h x ≡ bits_be n (x / 2 ^ (h - n) % 2 ^ n) ++ bits_be (h - n) x
first_digits n h x short =
    bits_be_split n (h - n) h x (omega arith)
    ∙ ap (λ (l : List Bool). l ++ bits_be (h - n) x) (sym (bits_be-mod n (x / 2 ^ (h - n))))

module _ (n : ℕ) (s : BitStream) (r : IsReader s) (short : n ≤ s.head_count) where
  abbrev consumed : BitStream
  consumed = record s { head_count = s.head_count - n }

  abbrev first_field : ℕ
  first_field = byte_at s s.index / 2 ^ (s.head_count - n) % 2 ^ n

  consumed_digits : n ≤ length (unread s) → unread s ≡ bits_be n first_field ++ unread consumed
  consumed_digits enough = elim (At-drop s.stream s.index s.past r.bytes) [
    | behind e p le ↦
        let none_left : n ≡ 0 = omega (arith, enough, ap length (unread-behind s e)) in
        unread-behind s e
        ∙ sym (unread-behind consumed e)
        ∙ ap (λ (l : List Bool). l ++ unread consumed)
            (sym (ap (λ (k : ℕ). bits_be k first_field) none_left ∙ zero_digits first_field))
    | inside x xs here there byte lt fits ↦
        unread-at s here
        ∙ ap (λ (l : List Bool). l ++ bits_of xs)
            (ap (bits_be s.head_count) (sym byte)
              ∙ first_digits n s.head_count (byte_at s s.index) short
              ∙ ap (λ (y : ℕ). bits_be n first_field ++ bits_be (s.head_count - n) y) byte)
        ∙ append_assoc (bits_be n first_field) (bits_be (s.head_count - n) x) (bits_of xs)
        ∙ ap (◌++◌ (bits_be n first_field)) (sym (unread-at consumed here))
  ]

  consumed-Took : n ≤ length (unread s) → Took n s consumed first_field
  consumed-Took enough = record {
    value_small = mod-lt _ (one-le-pow n 2 (omega arith));
    digits = consumed_digits enough;
    reader = record {
      ends = r.ends;
      head_small = omega (arith, r.head_small);
      bytes = r.bytes;
      past_byte = r.past_byte;
    };
  }

  -- The last statements, where the byte in hand has the digits.
  read_bits_last_took :
      (a acc : ℕ)
      → a + n ≤ 64
      → acc < 2 ^ a
      → n ≤ length (unread s)
      → Reads n acc s (read_bits_last n acc s)
  unfolding read_bits_last
  read_bits_last_took a acc fits small enough = (
    first_field,
    consumed,
    ap (λ (t : ℕ). ok t consumed)
        (ap (bit_or (acc * 2 ^ n % 2 ^ 64))
            (bit_and_mask n (byte_at s s.index / 2 ^ (s.head_count - n)))
          ∙ or_field a n acc first_field fits small (mod-lt _ (one-le-pow n 2 (omega arith)))),
    consumed-Took enough,
  )

module _ (n a acc : ℕ) (s : BitStream) (r : IsReader s) (few : n < 8) (fits : a + n ≤ 64)
    (small : acc < 2 ^ a) (enough : n ≤ length (unread s)) where
  -- The digits of the byte in hand come first, and the others from the next byte.
  abbrev hand_field : ℕ
  hand_field = byte_at s s.index % 2 ^ s.head_count

  -- The byte in hand is used up, and there is another.
  record Crossing : Type 0 where
    x : ℕ
    xs : List ℕ
    here : drop s.index s.stream ≡ x ∷ xs
    byte : byte_at s s.index ≡ x
    next : unread (stepped s) ≡ bits_of xs
    more : s.index + 1 < length s.stream

  crossing : s.head_count < n → Crossing
  crossing short = elim (At-drop s.stream s.index s.past r.bytes) [
    | behind e p le ↦ absurd (omega (arith, enough, ap length (unread-behind s e)))
    | inside x xs here there byte lt fits ↦
        let left : length (unread s) ≡ s.head_count + 8 * length xs = omega (
          arith,
          ap length (unread-at s here),
          length-append (bits_be s.head_count x) (bits_of xs),
          length-bits_be s.head_count x,
          length-bits_of xs,
        ) in
        elim (At-drop s.stream (s.index + 1) s.past r.bytes) [
          | behind e p le ↦
              absurd (omega (arith, enough, left, short, ap length (sym (drop_next s there) ∙ e)))
          | inside y ys here' there' byte' lt' fits' ↦ record {
            x = x;
            xs = xs;
            here = here;
            byte = byte;
            next =
                unread-at (stepped s) here'
                ∙ sym (ap bits_of (sym (drop_next s there) ∙ here') ∙ unfold bits_of in refl);
            more = lt';
          }
        ]
  ]

  across-Took : s.head_count < n → Took s.head_count s (stepped s) hand_field
  across-Took short =
      let c = crossing short in
      record {
        value_small = mod-lt _ (one-le-pow s.head_count 2 (omega arith));
        digits =
            unread-at s c.here
            ∙ ap (λ (y : ℕ). bits_be s.head_count y ++ bits_of c.xs) (sym c.byte)
            ∙ ap (λ (l : List Bool). l ++ bits_of c.xs)
                (sym (bits_be-mod s.head_count (byte_at s s.index)))
            ∙ ap (◌++◌ (bits_be s.head_count hand_field)) (sym c.next);
        reader = record {
          ends = r.ends;
          head_small = omega arith;
          bytes = r.bytes;
          past_byte = r.past_byte;
        };
      }

  across_runs :
      s.head_count < n
      → read_bits_tail n acc s
        ≡ read_bits_last (n - s.head_count) (acc * 2 ^ s.head_count + hand_field) (stepped s)
  unfolding read_bits_tail
  across_runs short =
      let cross : ltb s.head_count n ≡ true = ground arith in
      let c = crossing short in
      let more : leb s.end (s.index + 1) ≡ false = ground (arith, r.ends, c.more) in
      rw (cross, more)
        (ap (λ (t : ℕ). read_bits_last (n - s.head_count) t (stepped s))
          (ap (bit_or (acc * 2 ^ s.head_count % 2 ^ 64))
              (bit_and_mask s.head_count (byte_at s s.index))
            ∙ or_field a s.head_count acc hand_field (omega arith) small
                (mod-lt _ (one-le-pow s.head_count 2 (omega arith)))))

  across-Reads : s.head_count < n → Reads n acc s (read_bits_tail n acc s)
  across-Reads short =
      let h = s.head_count in
      let took = across-Took short in
      let (w, s2, runs, took') =
        read_bits_last_took (n - h) (stepped s) took.reader (omega arith) (a + h)
          (acc * 2 ^ h + hand_field) (omega arith)
          (fields-lt a h (a + h) acc hand_field refl small took.value_small)
          (omega (arith, enough, length-Took took)) in
      (
        hand_field * 2 ^ (n - h) + w,
        s2,
        across_runs short
            ∙ runs
            ∙ ap (λ (t : ℕ). ok t s2) (join_fields h (n - h) n acc hand_field w (omega arith)),
        Took-append h (n - h) n hand_field w (omega arith) took took',
      )

  read_bits_tail_took : Reads n acc s (read_bits_tail n acc s)
  read_bits_tail_took = elim (Bool-cases (ltb s.head_count n)) [
    | inl across ↦ across-Reads (ltb→lt s.head_count n across)
    | inr within ↦
        let stays : read_bits_tail n acc s ≡ read_bits_last n acc s =
          unfold read_bits_tail in rw within in
        let (v, s', runs, took) =
          read_bits_last_took n s r (ground arith) a acc fits small enough in
        (v, s', stays ∙ runs, took)
  ]

read_bits_steps :
    (num : ℕ) (s : BitStream) {v : ℕ} {s' : BitStream}
    → read_bits_bytes (num / 8) 0 s ≡ ok v s'
    → read_bits num s ≡ read_bits_tail (num % 8) v s'
unfolding read_bits
read_bits_steps num s e = >>=-ok (read_bits_bytes (num / 8) 0) (read_bits_tail (num % 8)) s e

read_bits-Took :
    (num : ℕ) (s : BitStream)
    → IsReader s
    → num ≤ 64
    → num ≤ length (unread s)
    → (v : ℕ) × (s' : BitStream) × (read_bits num s ≡ ok v s') × Took num s s' v
read_bits-Took num s r fits enough =
    let k = num / 8 in
    let n = num % 8 in
    let (v, s1, runs, took) =
      read_bits_bytes_took k 0 0 s r (omega arith) (omega arith) (omega (arith, enough)) in
    let (w, s2, runs', took') =
      read_bits_tail_took n (k * 8) v s1 took.reader (omega arith) (omega arith) took.value_small
        (omega (arith, enough, length-Took took)) in
    (
      v * 2 ^ n + w,
      s2,
      read_bits_steps num s (runs ∙ ap (λ (t : ℕ). ok t s1) (omega arith)) ∙ runs',
      Took-append (k * 8) n num v w (omega arith) took took',
    )

enough_for :
    (n v : ℕ) (s : BitStream) (rest : List Bool)
    → unread s ≡ bits_be n v ++ rest
    → n ≤ length (unread s)
enough_for n v s rest e =
    omega (arith, ap length e, length-append (bits_be n v) rest, length-bits_be n v)

-- In a stream whose bytes are bytes and whose end is its length, at any position inside a byte: if
-- the next `num` digits, at most 64, are those of `v`, then `read_bits(num)` returns `v` and does not
-- throw, and what is unread afterwards is exactly what followed those digits.
pub read_bits_lem :
    (num v : ℕ) (s : BitStream) (rest : List Bool)
    → IsReader s
    → num ≤ 64
    → v < 2 ^ num
    → unread s ≡ bits_be num v ++ rest
    → (s' : BitStream) × (read_bits num s ≡ ok v s') × IsReader s' × (unread s' ≡ rest)
read_bits_lem num v s rest r fits small e =
    let (w, s', reads, took) = read_bits-Took num s r fits (enough_for num v s rest e) in
    let (same, after) = Took-eq num v w rest took small e in
    (s', reads ∙ ap (λ (t : ℕ). ok t s') same, took.reader, after)

-- In such a stream, at any position inside a byte: if the next eight digits are those of the byte
-- `v`, then `read_byte` returns `v`, and what is unread afterwards is exactly what followed them.
pub read_byte_lem :
    (v : ℕ) (s : BitStream) (rest : List Bool)
    → IsReader s
    → IsByte v
    → unread s ≡ bits_be 8 v ++ rest
    → (s' : BitStream) × (read_byte s ≡ ok v s') × IsReader s' × (unread s' ≡ rest)
read_byte_lem v s rest r small e =
    let (w, s', reads, took) = read_byte-Took s r (enough_for 8 v s rest e) in
    let (same, after) = Took-eq 8 v w rest took small e in
    (s', reads ∙ ap (λ (t : ℕ). ok t s') same, took.reader, after)
