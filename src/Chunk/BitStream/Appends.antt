-- ===== src/Chunk/BitStream/Appends.antt =====
-- What the writers of chunk/BitStream.cpp append, put together call by call.
use prom_tcs.Prelude.{
  ℕ, zero, suc, ◌*◌, ◌/◌, ◌%◌, ◌^◌, ◌≤◌, ◌≡◌, refl, sym, ◌∙◌, Bool, List, [], ◌∷◌, ◌++◌,
  append_assoc, ◌==◌, Bool-cases, inl, inr, IsByte,
}
use prom_tcs.Prelude.Digits.{bits_be}
use prom_tcs.Chunk.BitStream.{
  BitStream, grow, write_bit, write_byte, write_bits_bytes, write_bits_tail, write_bits,
}
use prom_tcs.Chunk.BitStream.Write.{Wrote, Wrote-write_bit}
use prom_tcs.Chunk.BitStream.WriteByte.{Wrote-write_byte}
use prom_tcs.Chunk.BitStream.WriteBits.{Wrote-write_bits}

-- The members that no writer changes.
pub record Keeps (s s' : BitStream) : Type 0 where
  pub header_size : s'.header_size ≡ s.header_size
  pub past : s'.past ≡ s.past
  pub vector_mode : s'.vector_mode ≡ s.vector_mode

pub Keeps-refl : (s : BitStream) → Keeps s s
Keeps-refl s = record { header_size = refl; past = refl; vector_mode = refl }

pub Keeps-trans : {s s' s'' : BitStream} → Keeps s s' → Keeps s' s'' → Keeps s s''
Keeps-trans k l = record {
  header_size = l.header_size ∙ k.header_size;
  past = l.past ∙ k.past;
  vector_mode = l.vector_mode ∙ k.vector_mode;
}

Keeps-grow : (s : BitStream) → Keeps s (grow s)
unfolding grow
Keeps-grow s = elim (Bool-cases (s.tail_count == 0)) [
  | inl t ↦ rw t (record { header_size = refl; past = refl; vector_mode = refl })
  | inr f ↦ rw f (record { header_size = refl; past = refl; vector_mode = refl })
]

Keeps-write_bit : (s : BitStream) (b : Bool) → Keeps s (write_bit s b)
unfolding write_bit
Keeps-write_bit s b =
    let k = Keeps-grow s in
    record { header_size = k.header_size; past = k.past; vector_mode = k.vector_mode }

Keeps-write_byte : (s : BitStream) (byte : ℕ) → Keeps s (write_byte s byte)
unfolding write_byte
Keeps-write_byte s byte =
    let k = Keeps-grow s in
    elim (Bool-cases ((grow s).tail_count == 0)) [
      | inl t ↦
          rw t (record { header_size = k.header_size; past = k.past; vector_mode = k.vector_mode })
      | inr f ↦
          rw f (record { header_size = k.header_size; past = k.past; vector_mode = k.vector_mode })
    ]

Keeps-write_bits_bytes : (s : BitStream) (bits k : ℕ) → Keeps s (write_bits_bytes s bits k).0
unfolding write_bits_bytes
Keeps-write_bits_bytes s bits zero = Keeps-refl s
Keeps-write_bits_bytes s bits (suc k) =
    Keeps-trans (Keeps-write_byte s (bits / 2 ^ 56 % 256))
      (Keeps-write_bits_bytes (write_byte s (bits / 2 ^ 56 % 256)) (bits * 2 ^ 8 % 2 ^ 64) k)

Keeps-write_bits_tail : (s : BitStream) (bits num : ℕ) → Keeps s (write_bits_tail s bits num)
unfolding write_bits_tail
Keeps-write_bits_tail s bits zero = Keeps-refl s
Keeps-write_bits_tail s bits (suc num) =
    Keeps-trans (Keeps-write_bit s (bits / 2 ^ 63 == 1))
      (Keeps-write_bits_tail (write_bit s (bits / 2 ^ 63 == 1)) (bits * 2 % 2 ^ 64) num)

Keeps-write_bits : (s : BitStream) (bits num : ℕ) → Keeps s (write_bits s bits num)
unfolding write_bits
Keeps-write_bits s bits num =
    Keeps-trans (Keeps-write_bits_bytes s _ (num / 8)) (Keeps-write_bits_tail _ _ (num % 8))

-- From `s` to `s'` the digits `digits` are appended.
pub record Appends (s s' : BitStream) (digits : List Bool) : Type 0 where
  pub keeps : Keeps s s'
  pub wrote : (bits : List Bool) → Wrote s bits → Wrote s' (bits ++ digits)

pub Appends-then :
    {s s' s'' : BitStream} {d e : List Bool}
    → Appends s s' d
    → Appends s' s'' e
    → Appends s s'' (d ++ e)
Appends-then {s'' = s''} {d} {e} a b = record {
  keeps = Keeps-trans a.keeps b.keeps;
  wrote = λ bits w. rw (sym (append_assoc bits d e)) (b.wrote (bits ++ d) (a.wrote bits w));
}

pub Appends-write_bit : (s : BitStream) (b : Bool) → Appends s (write_bit s b) (b ∷ [])
Appends-write_bit s b = record {
  keeps = Keeps-write_bit s b;
  wrote = λ bits w. Wrote-write_bit w b;
}

pub Appends-write_byte :
    (s : BitStream) (byte : ℕ) → IsByte byte → Appends s (write_byte s byte) (bits_be 8 byte)
Appends-write_byte s byte h = record {
  keeps = Keeps-write_byte s byte;
  wrote = λ bits w. Wrote-write_byte w byte h;
}

pub Appends-write_bits :
    (s : BitStream) (v num : ℕ) → num ≤ 64 → Appends s (write_bits s v num) (bits_be num v)
Appends-write_bits s v num h = record {
  keeps = Keeps-write_bits s v num;
  wrote = λ bits w. Wrote-write_bits v num w h;
}
