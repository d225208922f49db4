-- ===== src/Chunk/BitStream/Write.antt =====
-- What the writers append, digit by digit.
use native.Mathlib.Nat.{pow-suc, one-le-pow}
use prom_tcs.Prelude.{
  ℕ, zero, suc, ◌+◌, ◌-◌, ◌*◌, ◌/◌, ◌%◌, ◌^◌, ◌<◌, bit_or, ◌≡◌, refl, ap, ◌∙◌, ◌⊎◌, inl, inr, Bool,
  true, false, List, [], ◌∷◌, ◌++◌, append-nil, append_assoc, arith, ◌==◌, if◌then◌else◌, length,
  length-append, All, All-append, Bool-cases, IsByte,
}
use prom_tcs.Prelude.Bits.{bit_or_disjoint, bit_and_mask}
use prom_tcs.Prelude.Digits.{bits_be, bits_of, bits_of-append}
use prom_tcs.Chunk.BitStream.{BitStream, or_back, grow, write_bit}

-- The byte in progress: its first `t` digits are those of `q`, the others are 0.
abbrev pub unfinished : ℕ → ℕ → List ℕ
unfinished zero q = []
unfinished (suc t) q = q * 2 ^ (7 - t) ∷ []

-- The stream consists of the digits `bits` and of zeros up to the end of the last byte.
pub record Wrote (s : BitStream) (bits : List Bool) : Type 0 where
  pub full : List ℕ
  pub q : ℕ
  pub full_bytes : All IsByte full
  pub tail_small : s.tail_count < 8
  pub q_small : q < 2 ^ s.tail_count
  pub stream : s.stream ≡ full ++ unfinished s.tail_count q
  pub digits : bits ≡ bits_of full ++ bits_be s.tail_count q
  pub ends : s.end ≡ length s.stream

pub zero_or_suc : (n : ℕ) → (n ≡ 0) ⊎ ((m : ℕ) × (n ≡ suc m))
zero_or_suc zero = inl refl
zero_or_suc (suc m) = inr (m, refl)

pub or_back-append : (xs : List ℕ) (x v : ℕ) → or_back (xs ++ x ∷ []) v ≡ xs ++ bit_or x v ∷ []
unfolding or_back
or_back-append [] x v = refl
or_back-append (y ∷ []) x v = refl
or_back-append (y ∷ z ∷ xs) x v = ap (◌∷◌ y) (or_back-append (z ∷ xs) x v)

abbrev to_digit : Bool → ℕ
to_digit b = if b then 1 else 0

-- One more digit, set from the top.
set_digit :
    (u q : ℕ) (b : Bool)
    → (if b then bit_or (q * 2 ^ suc u) (2 ^ u) else q * 2 ^ suc u) ≡ (q * 2 + to_digit b) * 2 ^ u
set_digit u q true =
    bit_or_disjoint (suc u) q (2 ^ u) (omega (arith, pow-suc 2 u, one-le-pow u 2))
    ∙ omega (arith, ap (λ (t : ℕ). q * t) (pow-suc 2 u))
set_digit u q false = omega (arith, ap (λ (t : ℕ). q * t) (pow-suc 2 u))

add_digit : (t q : ℕ) (b : Bool) → bits_be (suc t) (q * 2 + to_digit b) ≡ bits_be t q ++ b ∷ []
unfolding bits_be
add_digit t q true =
    let half : (q * 2 + 1) / 2 ≡ q = omega arith in
    let low : (q * 2 + 1) % 2 ≡ 1 = omega arith in rw (half, low)
add_digit t q false =
    let half : (q * 2 + 0) / 2 ≡ q = omega arith in
    let low : (q * 2 + 0) % 2 ≡ 0 = omega arith in rw (half, low)

grown :
    (t q : ℕ) (full stream : List ℕ)
    → q < 2 ^ t
    → stream ≡ full ++ unfinished t q
    → (if t == 0 then stream ++ 0 ∷ [] else stream) ≡ full ++ q * 2 ^ (8 - t) ∷ []
grown zero q full stream small e = rw (e, append-nil) (ap (λ (x : ℕ). full ++ x ∷ []) (omega arith))
grown (suc t) q full stream small e =
    let same : 7 - t ≡ 8 - suc t = omega arith in
    ground (arith, e, ap (λ (k : ℕ). full ++ q * 2 ^ k ∷ []) same)

put_digit :
    (t q : ℕ) (full : List ℕ) (b : Bool)
    → t < 8
    → (if b
        then or_back (full ++ q * 2 ^ (8 - t) ∷ []) (2 ^ (8 - (t + 1)))
        else full ++ q * 2 ^ (8 - t) ∷ [])
      ≡ full ++ (q * 2 + to_digit b) * 2 ^ (7 - t) ∷ []
put_digit t q full b h =
    let above : 8 - t ≡ suc (7 - t) = omega arith in
    let below : 8 - (t + 1) ≡ 7 - t = omega arith in
    rw (above, below, or_back-append)
      (ground (arith, ap (λ (x : ℕ). full ++ x ∷ []) (set_digit (7 - t) q b)))

pub length-or_back : (xs : List ℕ) (v : ℕ) → length (or_back xs v) ≡ length xs
unfolding or_back
length-or_back [] v = refl
length-or_back (x ∷ []) v = refl
length-or_back (x ∷ y ∷ xs) v = ap suc (length-or_back (y ∷ xs) v)

digit_fits : (t q : ℕ) (b : Bool) → q < 2 ^ t → q * 2 + to_digit b < 2 ^ suc t
digit_fits t q true h = omega (arith, pow-suc 2 t)
digit_fits t q false h = omega (arith, pow-suc 2 t)

finished_digits :
    (t q : ℕ) (b : Bool)
    → t ≡ 7
    → bits_of ((q * 2 + to_digit b) * 2 ^ (7 - t) ∷ []) ≡ bits_be t q ++ b ∷ []
unfolding bits_of
finished_digits t q b e = rw (e, append-nil) (ap (bits_be 8) (omega arith) ∙ add_digit 7 q b)

finished_byte :
    (t q : ℕ) (b : Bool) → t ≡ 7 → q < 2 ^ t → IsByte ((q * 2 + to_digit b) * 2 ^ (7 - t))
finished_byte t q b e h = rw e (omega (arith, digit_fits 7 q b (rw e at h)))

module _ {s : BitStream} {bits : List Bool} (w : Wrote s bits) where
  -- With the new byte pushed, if there is need of one.
  pub grow-stream : (grow s).stream ≡ w.full ++ w.q * 2 ^ (8 - s.tail_count) ∷ []
  unfolding grow
  grow-stream = ground (arith, grown s.tail_count w.q w.full s.stream w.q_small w.stream)

  pub tail_count-grow : (grow s).tail_count ≡ s.tail_count
  unfolding grow
  tail_count-grow = ground arith

  pub end-grow : (grow s).end ≡ length (grow s).stream
  unfolding grow
  end-grow = ground (arith, w.ends, length-append s.stream (0 ∷ []))

  stream-write_bit :
      (b : Bool)
      → (write_bit s b).stream ≡ w.full ++ (w.q * 2 + to_digit b) * 2 ^ (7 - s.tail_count) ∷ []
  unfolding write_bit
  stream-write_bit b =
      rw (grow-stream, tail_count-grow) (put_digit s.tail_count w.q w.full b w.tail_small)

  tail_count-write_bit : (b : Bool) → (write_bit s b).tail_count ≡ (s.tail_count + 1) % 8
  unfolding write_bit
  tail_count-write_bit b = rw tail_count-grow (bit_and_mask 3 (s.tail_count + 1))

  end-write_bit : (b : Bool) → (write_bit s b).end ≡ length (write_bit s b).stream
  unfolding write_bit
  end-write_bit b =
      ground (arith, end-grow, length-or_back (grow s).stream (2 ^ (8 - ((grow s).tail_count + 1))))

  abbrev digit_byte : Bool → ℕ
  digit_byte b = (w.q * 2 + to_digit b) * 2 ^ (7 - s.tail_count)

  -- The digit fills the byte in progress.
  Wrote-last : (b : Bool) → s.tail_count ≡ 7 → Wrote (write_bit s b) (bits ++ b ∷ [])
  Wrote-last b last =
      let fresh : (write_bit s b).tail_count ≡ 0 = omega (arith, tail_count-write_bit b) in
      record {
        full = w.full ++ digit_byte b ∷ [];
        q = 0;
        full_bytes =
            All-append IsByte w.full (digit_byte b ∷ []) w.full_bytes
              (finished_byte s.tail_count w.q b last w.q_small, tt);
        tail_small = omega arith;
        q_small = rw fresh (omega arith);
        stream = rw (fresh, append-nil) (stream-write_bit b);
        digits =
            rw (fresh, w.digits, bits_of-append, finished_digits s.tail_count w.q b last)
              (unfold bits_be in simp (append_assoc, append-nil));
        ends = end-write_bit b;
      }

  Wrote-inside : (b : Bool) → s.tail_count < 7 → Wrote (write_bit s b) (bits ++ b ∷ [])
  Wrote-inside b inside =
      let more : (write_bit s b).tail_count ≡ suc s.tail_count =
        omega (arith, tail_count-write_bit b) in
      record {
        full = w.full;
        q = w.q * 2 + to_digit b;
        full_bytes = w.full_bytes;
        tail_small = omega arith;
        q_small = rw more (digit_fits s.tail_count w.q b w.q_small);
        stream = rw more (stream-write_bit b);
        digits =
            rw (more, w.digits, add_digit)
              (append_assoc (bits_of w.full) (bits_be s.tail_count w.q) (b ∷ []));
        ends = end-write_bit b;
      }

  -- If the stream consists of the digits `bits` and of zeros up to the end of the last byte, then after
  -- `write_bit(b)` it consists of `bits`, the digit `b`, and zeros up to the end of the last byte.
  pub Wrote-write_bit : (b : Bool) → Wrote (write_bit s b) (bits ++ b ∷ [])
  Wrote-write_bit b = elim (Bool-cases (s.tail_count == 7)) [
    | inl last ↦ Wrote-last b (ground arith)
    | inr inside ↦ Wrote-inside b (ground (arith, w.tail_small))
  ]
