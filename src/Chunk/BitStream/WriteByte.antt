-- ===== src/Chunk/BitStream/WriteByte.antt =====
-- `write_byte` appends the digits of a byte.
use native.Mathlib.Nat.{one-le-pow, mod-lt}
use prom_tcs.Prelude.{
  ℕ, suc, ◌+◌, ◌-◌, ◌*◌, ◌/◌, ◌%◌, ◌^◌, ◌<◌, bit_and, ◌≡◌, refl, ap, ◌∙◌, inl, inr, Bool, List, [],
  ◌∷◌, ◌++◌, append-nil, append_assoc, arith, length, length-append, All, All-append, IsByte,
}
use prom_tcs.Prelude.Bits.{bit_or_disjoint, bit_and_mask}
use prom_tcs.Prelude.Digits.{
  bits_be, bits_of, bits_be_fields, bits_be_split, bits_be-mod, bits_of-append, div-lt_pow,
  fields-lt, shift_mod,
}
use prom_tcs.Chunk.BitStream.{BitStream, or_back, grow, write_byte}
use prom_tcs.Chunk.BitStream.Write.{
  unfinished, Wrote, zero_or_suc, or_back-append, length-or_back, grow-stream, tail_count-grow,
  end-grow,
}

merge_byte :
    (t q : ℕ) (full : List ℕ) (byte : ℕ)
    → t < 8
    → IsByte byte
    → or_back (full ++ q * 2 ^ (8 - t) ∷ []) (byte / 2 ^ t)
      ≡ full ++ (q * 2 ^ (8 - t) + byte / 2 ^ t) ∷ []
merge_byte t q full byte small fits =
    or_back-append full (q * 2 ^ (8 - t)) (byte / 2 ^ t)
    ∙ ap (λ (x : ℕ). full ++ x ∷ [])
        (bit_or_disjoint (8 - t) q (byte / 2 ^ t) (div-lt_pow (8 - t) t 8 byte (omega arith) fits))

-- The low digits of the byte start the next one.
spill_byte : (t byte : ℕ) → t < 8 → bit_and (byte * 2 ^ (8 - t)) 0xff ≡ byte % 2 ^ t * 2 ^ (8 - t)
spill_byte t byte small =
    bit_and_mask 8 (byte * 2 ^ (8 - t)) ∙ shift_mod t (8 - t) 8 byte (omega arith)

byte_digits :
    (t q byte : ℕ)
    → t < 8
    → IsByte byte
    → bits_be 8 (q * 2 ^ (8 - t) + byte / 2 ^ t) ++ bits_be t (byte % 2 ^ t)
      ≡ bits_be t q ++ bits_be 8 byte
byte_digits t q byte small fits =
    let high : byte / 2 ^ t < 2 ^ (8 - t) = div-lt_pow (8 - t) t 8 byte (omega arith) fits in
    rw
      (
        bits_be_fields t (8 - t) 8 q (byte / 2 ^ t) (omega arith) high,
        bits_be_split (8 - t) t 8 byte (omega arith),
        bits_be-mod,
      )
      (append_assoc (bits_be t q) (bits_be (8 - t) (byte / 2 ^ t)) (bits_be t byte))

spilled :
    (byte t : ℕ) {c : ℕ}
    → c ≡ suc t
    → byte % 2 ^ c * 2 ^ (8 - c) ∷ [] ≡ unfinished (suc t) (byte % 2 ^ suc t)
spilled byte t e = let same : 8 - suc t ≡ 7 - t = omega arith in rw (e, same)

abbrev at_count : List ℕ → ℕ → ℕ → List Bool
at_count full byte t = bits_of full ++ bits_be t (byte % 2 ^ t)

module _ {s : BitStream} {bits : List Bool} (w : Wrote s bits) (byte : ℕ) (fits : IsByte byte) where
  -- The byte in progress with the first digits of `byte`, and the byte after it.
  abbrev upper : ℕ
  upper = w.q * 2 ^ (8 - s.tail_count) + byte / 2 ^ s.tail_count

  merged : or_back (grow s).stream (byte / 2 ^ (grow s).tail_count) ≡ w.full ++ upper ∷ []
  merged =
      rw (grow-stream w, tail_count-grow w)
        (merge_byte s.tail_count w.q w.full byte w.tail_small fits)

  upper-IsByte : IsByte upper
  upper-IsByte =
      fields-lt s.tail_count (8 - s.tail_count) 8 w.q (byte / 2 ^ s.tail_count)
        (omega (arith, w.tail_small)) w.q_small
        (div-lt_pow (8 - s.tail_count) s.tail_count 8 byte (omega (arith, w.tail_small)) fits)

  full_after : All IsByte (w.full ++ upper ∷ [])
  full_after = All-append IsByte w.full (upper ∷ []) w.full_bytes (upper-IsByte, tt)

  digits_after :
      bits ++ bits_be 8 byte
      ≡ bits_of (w.full ++ upper ∷ []) ++ bits_be s.tail_count (byte % 2 ^ s.tail_count)
  digits_after =
      rw
        (
          bits_of-append,
          w.digits,
          append_assoc (bits_of w.full) (bits_be s.tail_count w.q) (bits_be 8 byte),
          ← byte_digits s.tail_count w.q byte w.tail_small fits,
        )
        (unfold bits_of in simp (append_assoc, append-nil))

  stream_aligned : s.tail_count ≡ 0 → (write_byte s byte).stream ≡ w.full ++ upper ∷ []
  unfolding write_byte
  stream_aligned start = ground (arith, merged, tail_count-grow w)

  stream_across :
      (t : ℕ)
      → s.tail_count ≡ suc t
      → (write_byte s byte).stream
        ≡ (w.full ++ upper ∷ []) ++ byte % 2 ^ s.tail_count * 2 ^ (8 - s.tail_count) ∷ []
  unfolding write_byte
  stream_across t inside =
      ground (arith, merged, tail_count-grow w, spill_byte s.tail_count byte w.tail_small)

  end-write_byte : (write_byte s byte).end ≡ length (write_byte s byte).stream
  unfolding write_byte
  end-write_byte = ground (
    arith,
    end-grow w,
    length-or_back (grow s).stream (byte / 2 ^ (grow s).tail_count),
    length-append (or_back (grow s).stream (byte / 2 ^ (grow s).tail_count))
        (bit_and (byte * 2 ^ (8 - (grow s).tail_count)) 0xff ∷ []),
  )

  Wrote-aligned : s.tail_count ≡ 0 → Wrote (write_byte s byte) (bits ++ bits_be 8 byte)
  Wrote-aligned start =
      let same : (write_byte s byte).tail_count ≡ 0 =
        unfold write_byte in ground (arith, tail_count-grow w) in
      record {
        full = w.full ++ upper ∷ [];
        q = 0;
        full_bytes = full_after;
        tail_small = omega arith;
        q_small = rw same (omega arith);
        stream = rw (same, append-nil) (stream_aligned start);
        digits = rw same (
            digits_after
            ∙ ap (at_count (w.full ++ upper ∷ []) byte) start
            ∙ unfold bits_be in refl);
        ends = end-write_byte;
      }

  Wrote-across : (t : ℕ) → s.tail_count ≡ suc t → Wrote (write_byte s byte) (bits ++ bits_be 8 byte)
  Wrote-across t inside =
      let same : (write_byte s byte).tail_count ≡ suc t =
        unfold write_byte in ground (arith, tail_count-grow w) in
      record {
        full = w.full ++ upper ∷ [];
        q = byte % 2 ^ suc t;
        full_bytes = full_after;
        tail_small = omega (arith, w.tail_small);
        q_small = rw same (mod-lt byte (one-le-pow (suc t) 2 (omega arith)));
        stream =
            rw same
              (stream_across t inside ∙ ap (◌++◌ (w.full ++ upper ∷ [])) (spilled byte t inside));
        digits = rw same (digits_after ∙ ap (at_count (w.full ++ upper ∷ []) byte) inside);
        ends = end-write_byte;
      }

  -- If the stream consists of the digits `bits` and of zeros up to the end of the last byte, then after
  -- `write_byte(byte)`, whether or not the last byte is full, it consists of `bits`, the eight digits
  -- of the byte, and zeros up to the end of the last byte.
  pub Wrote-write_byte : Wrote (write_byte s byte) (bits ++ bits_be 8 byte)
  Wrote-write_byte = elim (zero_or_suc s.tail_count) [
    | inl start ↦ Wrote-aligned start
    | inr (t, inside) ↦ Wrote-across t inside
  ]
