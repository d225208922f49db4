-- ===== src/Chunk/BitStream/WriteBits.antt =====
-- `write_bits` appends the lowest `num` digits of its argument.
use native.Mathlib.Nat.{one-le-pow}
use prom_tcs.Prelude.{
  ℕ, zero, suc, ◌+◌, ◌-◌, ◌*◌, ◌/◌, ◌%◌, ◌^◌, ◌≤◌, ◌≡◌, sym, ap, ◌∙◌, Bool, List, [], ◌∷◌, ◌++◌,
  append-nil, append_assoc, arith, ◌==◌, take, take-append_le, take-append_add, IsU64,
}
use prom_tcs.Prelude.Digits.{
  bits_be, length-bits_be, bits_be_fields, bits_be_split, bits_be-mod, shift_mod,
}
use prom_tcs.Chunk.BitStream.{BitStream, write_bits_bytes, write_bits_tail, write_bits}
use prom_tcs.Chunk.BitStream.Write.{Wrote, Wrote-write_bit}
use prom_tcs.Chunk.BitStream.WriteByte.{Wrote-write_byte}

-- Shifting the 64 bits to the left by `n` drops the first `n` of them.
shifted_digits :
    (n m w : ℕ) → n + m ≡ 64 → bits_be 64 (w * 2 ^ n % 2 ^ 64) ≡ bits_be m w ++ bits_be n 0
shifted_digits n m w e =
    ap (bits_be 64) (shift_mod m n 64 w (omega arith) ∙ omega arith)
    ∙ bits_be_fields m n 64 (w % 2 ^ m) 0 (omega arith) (one-le-pow n 2 (omega arith))
    ∙ ap (λ (l : List Bool). l ++ bits_be n 0) (bits_be-mod m w)

-- What is still to be written, once the first `n` of `n + m` leading bits are.
leading_step :
    (n m w : ℕ)
    → n + m ≤ 64
    → take (n + m) (bits_be 64 w)
      ≡ bits_be n (w / 2 ^ (64 - n)) ++ take m (bits_be 64 (w * 2 ^ n % 2 ^ 64))
leading_step n m w h =
    ap (take (n + m)) (bits_be_split n (64 - n) 64 w (omega arith))
    ∙ take-append_add (n + m) m (bits_be n (w / 2 ^ (64 - n))) (bits_be (64 - n) w)
        (omega (arith, length-bits_be n (w / 2 ^ (64 - n))))
    ∙ ap (◌++◌ (bits_be n (w / 2 ^ (64 - n)))) (sym rest)
  where
    rest : take m (bits_be 64 (w * 2 ^ n % 2 ^ 64)) ≡ take m (bits_be (64 - n) w)
    rest =
        ap (take m) (shifted_digits n (64 - n) w (omega arith))
        ∙ take-append_le m (bits_be (64 - n) w) (bits_be n 0)
            (omega (arith, length-bits_be (64 - n) w))

record WroteBytes (bits : List Bool) (k m w : ℕ) (s : BitStream) (rest : ℕ) : Type 0 where
  written : List Bool
  holds : Wrote s (bits ++ written)
  split : written ++ take m (bits_be 64 rest) ≡ take (k * 8 + m) (bits_be 64 w)
  rest_small : IsU64 rest

Wrote-write_bits_bytes :
    (k m w : ℕ) {s : BitStream} {bits : List Bool}
    → Wrote s bits
    → IsU64 w
    → k * 8 + m ≤ 64
    → WroteBytes bits k m w (write_bits_bytes s w k).0 (write_bits_bytes s w k).1
unfolding write_bits_bytes
Wrote-write_bits_bytes zero m w {bits = bits} h small fits = record {
  written = [];
  holds = rw append-nil h;
  split = ap (λ (n : ℕ). take n (bits_be 64 w)) (omega arith);
  rest_small = small;
}
Wrote-write_bits_bytes (suc k) m w {s = s} {bits = bits} h small fits =
    let byte : ℕ = w / 2 ^ 56 % 256 in
    let same : byte ≡ w / 2 ^ 56 = omega arith in
    let later =
      Wrote-write_bits_bytes k m (w * 2 ^ 8 % 2 ^ 64) (Wrote-write_byte h byte (omega arith))
        (omega arith) (omega arith) in
    record {
      written = bits_be 8 byte ++ later.written;
      holds = rw (← append_assoc) later.holds;
      split =
          append_assoc (bits_be 8 byte) later.written (take m (bits_be 64 _))
          ∙ rw (later.split, same)
              (sym (leading_step 8 (k * 8 + m) w (omega arith))
                ∙ ap (λ (n : ℕ). take n (bits_be 64 w)) (omega arith));
      rest_small = later.rest_small;
    }

top_digit : (w : ℕ) → IsU64 w → bits_be 1 (w / 2 ^ 63) ≡ (w / 2 ^ 63 == 1) ∷ []
unfolding bits_be
top_digit w small = let same : w / 2 ^ 63 % 2 ≡ w / 2 ^ 63 = omega arith in rw same

Wrote-write_bits_tail :
    (n w : ℕ) {s : BitStream} {bits : List Bool}
    → Wrote s bits
    → IsU64 w
    → n ≤ 64
    → Wrote (write_bits_tail s w n) (bits ++ take n (bits_be 64 w))
unfolding write_bits_tail
Wrote-write_bits_tail zero w h small fits = rw append-nil h
Wrote-write_bits_tail (suc n) w {s = s} {bits = bits} h small fits =
    let digit : Bool = w / 2 ^ 63 == 1 in
    let split =
      ap (λ (k : ℕ). take k (bits_be 64 w)) (let e : suc n ≡ 1 + n = omega arith in e)
      ∙ leading_step 1 n w (omega arith) in
    rw (split, top_digit w small, ← append_assoc)
      (Wrote-write_bits_tail n (w * 2 % 2 ^ 64) (Wrote-write_bit h digit) (omega arith)
        (omega arith))

-- If the stream consists of the digits `bits` (and of zeros up to the end of the last byte), then
-- after `write_bits(v, num)`, for at most 64 bits, it consists of `bits` and of the lowest `num` bits
-- of `v`, the highest of them first.
pub Wrote-write_bits :
    (v num : ℕ) {s : BitStream} {bits : List Bool}
    → Wrote s bits
    → num ≤ 64
    → Wrote (write_bits s v num) (bits ++ bits_be num v)
unfolding write_bits
Wrote-write_bits v num {s = s} {bits = bits} h fits =
    rw (← wanted, ← bytes.split, ← append_assoc)
      (Wrote-write_bits_tail (num % 8) (write_bits_bytes s start (num / 8)).1 bytes.holds
        bytes.rest_small (omega arith))
  where
    start : ℕ
    start = v * 2 ^ (64 - num) % 2 ^ 64

    bytes :
        WroteBytes bits
          (num / 8)
          (num % 8)
          start
          (write_bits_bytes s start (num / 8)).0
          (write_bits_bytes s start (num / 8)).1
    bytes = Wrote-write_bits_bytes (num / 8) (num % 8) start h (omega arith) (omega arith)

    wanted : take (num / 8 * 8 + num % 8) (bits_be 64 start) ≡ bits_be num v
    wanted =
        ap (take (num / 8 * 8 + num % 8)) (shifted_digits (64 - num) num v (omega arith))
        ∙ take-append_add (num / 8 * 8 + num % 8) 0 (bits_be num v) (bits_be (64 - num) 0)
            (omega (arith, length-bits_be num v))
        ∙ append-nil (bits_be num v)
