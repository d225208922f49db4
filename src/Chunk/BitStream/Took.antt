-- ===== src/Chunk/BitStream/Took.antt =====
-- The digits that one read of a bit or of a byte takes.
use native.Mathlib.Nat.{mul-div-mul_right, one-le-pow, mod-lt, mod-eq_of_lt}
use prom_tcs.Prelude.{
  ℕ, ◌+◌, ◌-◌, ◌*◌, ◌/◌, ◌%◌, ◌^◌, ◌≤◌, ◌<◌, bit_and, bit_or, ◌≡◌, refl, sym, ap, ◌∙◌, ◌⊎◌, inl,
  inr, Bool, List, [], ◌∷◌, ◌++◌, append-nil, append_assoc, arith, ◌==◌, length, length-append,
  drop, IsByte,
}
use prom_tcs.Prelude.Bits.{bit_or_disjoint, bit_and_bit7}
use prom_tcs.Prelude.Digits.{
  bits_be, bits_of, length-bits_be, bits_be_fields, bits_be_split, bits_be-mod, is_odd, div-lt_pow,
  fields-lt, shift_mod, pow_add,
}
use prom_tcs.Chunk.BitStream.{BitStream, ok, byte_at, take_bit, join_byte}
use prom_tcs.Chunk.BitStream.Read.{
  unread, IsReader, behind, inside, At-drop, IsReady, unread-at, unread-behind, drop_next,
  length-bits_of,
}

-- From `s` to `s'` the digits of `v`, `n` of them, are read.
pub record Took (n : ℕ) (s s' : BitStream) (v : ℕ) : Type 0 where
  pub value_small : v < 2 ^ n
  pub digits : unread s ≡ bits_be n v ++ unread s'
  pub reader : IsReader s'

head_digit :
    (h x : ℕ) → 0 < h → h ≤ 8 → (bit_and (x * 2 ^ (8 - h)) 0x80 == 0x80) ≡ is_odd (x / 2 ^ (h - 1))
head_digit h x pos small =
    let shifted : x * 2 ^ (8 - h) / 128 ≡ x / 2 ^ (h - 1) =
      ap (λ (d : ℕ). x * 2 ^ (8 - h) / d)
        (ap (λ (k : ℕ). 2 ^ k) (let e : 7 ≡ h - 1 + (8 - h) = omega arith in e)
          ∙ pow_add (h - 1) (8 - h))
      ∙ mul-div-mul_right x (2 ^ (h - 1)) (one-le-pow (8 - h) 2 (omega arith)) in
    ground (arith, bit_and_bit7 (x * 2 ^ (8 - h)), shifted)

one_digit : (x : ℕ) → bits_be 1 x ≡ is_odd x ∷ []
unfolding bits_be
one_digit x = refl

-- The first unread digit.
pub take_bit_digits :
    (s : BitStream)
    → IsReady s
    → (b : Bool) × (s' : BitStream) × (take_bit s ≡ ok b s')
      × (unread s ≡ b ∷ unread s')
      × IsReader s'
unfolding take_bit
take_bit_digits s r = (
  is_odd (r.x / 2 ^ (s.head_count - 1)),
  after,
  ap (λ (c : Bool). ok c after)
      (ap (λ (y : ℕ). bit_and (y * 2 ^ (8 - s.head_count)) 0x80 == 0x80) r.byte
        ∙ head_digit s.head_count r.x r.pos r.reader.head_small),
  unread-at s r.here
      ∙ ap (λ (l : List Bool). l ++ bits_of r.xs)
          (bits_be_split 1 (s.head_count - 1) s.head_count r.x (omega (arith, r.pos))
            ∙ ap (λ (l : List Bool). l ++ bits_be (s.head_count - 1) r.x) (one_digit _))
      ∙ ap (◌∷◌ (is_odd (r.x / 2 ^ (s.head_count - 1)))) (sym (unread-at after r.here)),
  record {
    ends = r.reader.ends;
    head_small = omega (arith, r.reader.head_small);
    bytes = r.reader.bytes;
    past_byte = r.reader.past_byte;
  },
)
  where
    after : BitStream
    after = record s { head_count = s.head_count - 1 }

joined_small : (h x y : ℕ) → h ≤ 8 → IsByte y → x % 2 ^ h * 2 ^ (8 - h) + y / 2 ^ h < 256
joined_small h x y small fits =
    fields-lt h (8 - h) 8 (x % 2 ^ h) (y / 2 ^ h) (omega arith)
      (mod-lt x (one-le-pow h 2 (omega arith))) (div-lt_pow (8 - h) h 8 y (omega arith) fits)

-- The byte that `join_byte` puts together.
joined_byte :
    (h x y : ℕ)
    → h ≤ 8
    → IsByte y
    → bit_or (x * 2 ^ (8 - h) % 256) (y / 2 ^ h) % 256 ≡ x % 2 ^ h * 2 ^ (8 - h) + y / 2 ^ h
joined_byte h x y small fits =
    let low : y / 2 ^ h < 2 ^ (8 - h) = div-lt_pow (8 - h) h 8 y (omega arith) fits in
    ap (λ (t : ℕ). bit_or t (y / 2 ^ h) % 256) (shift_mod h (8 - h) 8 x (omega arith))
    ∙ ap (λ (t : ℕ). t % 256) (bit_or_disjoint (8 - h) (x % 2 ^ h) (y / 2 ^ h) low)
    ∙ mod-eq_of_lt (joined_small h x y small fits)

joined_digits :
    (h x y : ℕ)
    → h ≤ 8
    → IsByte y
    → bits_be 8 (x % 2 ^ h * 2 ^ (8 - h) + y / 2 ^ h) ≡ bits_be h x ++ bits_be (8 - h) (y / 2 ^ h)
joined_digits h x y small fits =
    bits_be_fields h (8 - h) 8 (x % 2 ^ h) (y / 2 ^ h) (omega arith)
      (div-lt_pow (8 - h) h 8 y (omega arith) fits)
    ∙ ap (λ (l : List Bool). l ++ bits_be (8 - h) (y / 2 ^ h)) (bits_be-mod h x)

-- The digits of the next byte, split where the byte in hand ends.
next_digits : (h y : ℕ) → h ≤ 8 → bits_be (8 - h) (y / 2 ^ h) ++ bits_be h y ≡ bits_be 8 y
next_digits h y small = sym (bits_be_split (8 - h) h 8 y (omega arith))

next_regroup :
    (h y : ℕ) (front : List Bool) (ys : List ℕ)
    → h ≤ 8
    → (front ++ bits_be (8 - h) (y / 2 ^ h)) ++ (bits_be h y ++ bits_of ys)
      ≡ front ++ bits_of (y ∷ ys)
unfolding bits_of
next_regroup h y front ys small = rw (← next_digits h y small) (simp append_assoc)

whole_byte : (h x y : ℕ) → h ≡ 8 → bits_be h x ++ bits_be (8 - h) y ≡ bits_be h x ++ bits_of []
unfolding bits_of
whole_byte h x y e = rw e (unfold bits_be in refl)

module _ (s : BitStream) (r : IsReady s) where
  abbrev advanced : BitStream
  advanced = record s { index = s.index + 1 }

  abbrev next_byte : ℕ
  next_byte = byte_at s (s.index + 1)

  abbrev joined : ℕ
  joined = r.x % 2 ^ s.head_count * 2 ^ (8 - s.head_count) + next_byte / 2 ^ s.head_count

  advanced-IsReader : IsReader advanced
  advanced-IsReader = record {
    ends = r.reader.ends;
    head_small = r.reader.head_small;
    bytes = r.reader.bytes;
    past_byte = r.reader.past_byte;
  }

  join_byte_runs :
      IsByte next_byte
      → (s.head_count ≡ 8) ⊎ (s.index + 1 < length s.stream)
      → join_byte s ≡ ok joined advanced
  unfolding join_byte
  join_byte_runs fits why = ground (
    arith,
    r.reader.ends,
    r.byte,
    joined_byte s.head_count r.x next_byte r.reader.head_small fits,
  )

  joined-Took :
      IsByte next_byte
      → (s.head_count ≡ 8) ⊎ (s.index + 1 < length s.stream)
      → unread s ≡ bits_be 8 joined ++ unread advanced
      → (v : ℕ) × (s' : BitStream) × (join_byte s ≡ ok v s') × Took 8 s s' v
  joined-Took fits why digits = (
    joined,
    advanced,
    join_byte_runs fits why,
    record {
      value_small = joined_small s.head_count r.x next_byte r.reader.head_small fits;
      digits = digits;
      reader = advanced-IsReader;
    },
  )

  join_byte_inner :
      (y : ℕ) (ys : List ℕ)
      → drop (s.index + 1) s.stream ≡ y ∷ ys
      → next_byte ≡ y
      → s.index + 1 < length s.stream
      → IsByte y
      → (v : ℕ) × (s' : BitStream) × (join_byte s ≡ ok v s') × Took 8 s s' v
  join_byte_inner y ys here byte lt small = joined-Took (rw byte small) (inr lt) (
      unread-at s r.here
      ∙ ap (λ (l : List ℕ). bits_be s.head_count r.x ++ bits_of l)
          (sym (drop_next s r.there) ∙ here)
      ∙ sym (
          rw
            (
              unread-at advanced here,
              joined_digits s.head_count r.x next_byte r.reader.head_small (rw byte small),
              byte,
            )
            (next_regroup s.head_count y (bits_be s.head_count r.x) ys r.reader.head_small)))

  join_byte_last :
      drop (s.index + 1) s.stream ≡ []
      → next_byte ≡ s.past
      → 8 ≤ length (unread s)
      → (v : ℕ) × (s' : BitStream) × (join_byte s ≡ ok v s') × Took 8 s s' v
  join_byte_last e p enough = joined-Took fits (inl whole) (
      unread-at s r.here
      ∙ ap (λ (l : List ℕ). bits_be s.head_count r.x ++ bits_of l) no_more
      ∙ sym (
          rw
            (
              unread-behind advanced e,
              joined_digits s.head_count r.x next_byte r.reader.head_small fits,
              append-nil,
            )
            (whole_byte s.head_count r.x (next_byte / 2 ^ s.head_count) whole)))
    where
      fits : IsByte next_byte
      fits = rw p r.reader.past_byte

      no_more : r.xs ≡ []
      no_more = sym (drop_next s r.there) ∙ e

      whole : s.head_count ≡ 8
      whole = omega (
        arith,
        enough,
        r.reader.head_small,
        ap length (unread-at s r.here),
        length-append (bits_be s.head_count r.x) (bits_of r.xs),
        length-bits_be s.head_count r.x,
        length-bits_of r.xs,
        ap length no_more,
      )

  pub join_byte_digits :
      8 ≤ length (unread s) → (v : ℕ) × (s' : BitStream) × (join_byte s ≡ ok v s') × Took 8 s s' v
  join_byte_digits enough = elim (At-drop s.stream (s.index + 1) s.past r.reader.bytes) [
    | behind e p le ↦ join_byte_last e p enough
    | inside y ys here there byte lt small ↦ join_byte_inner y ys here byte lt small
  ]
