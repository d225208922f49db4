-- ===== src/Base/Endian/Varint.antt =====
-- Variable-length integers: the shape of an encoding, and reading it back.
use native.Mathlib.Nat.{pow-suc, mod-eq_of_lt, mul-le-mul_right}
use prom_tcs.Prelude.{
  ℕ, zero, suc, ◌+◌, ◌-◌, ◌*◌, ◌/◌, ◌%◌, ◌^◌, ◌≤◌, ◌<◌, bit_and, bit_or, ◌≡◌, refl, ap, ap₂, ◌∙◌,
  List, [], ◌∷◌, ◌++◌, Option, none, some, arith, ltb, length, All, IsByte, IsU64, Bool-cases, ◌⊎◌,
  inl, inr,
}
use prom_tcs.Prelude.Bits.{bit_and_mask, bit_and_bit7, bit_or_disjoint_left}
use prom_tcs.Prelude.Digits.{pow_add}
use prom_tcs.Base.Endian.{
  encode_varint_loop, encode_unsigned_varint, add_group, decode_varint_loop, decode_unsigned_varint,
  encode_zigzag, decode_zigzag, encode_signed_varint, decode_signed_varint,
}

-- The groups of seven bits, with 128 added to all but the last.
top_set : (g : ℕ) → g < 128 → bit_or g 0x80 ≡ g + 128
top_set g h = omega (arith, bit_or_disjoint_left 7 1 g h)

-- A last byte and an inner one.
pub data Groups : ℕ → List ℕ → Type 0 where
  last : (v : ℕ) → v < 128 → Groups v (v ∷ [])
  inner :
      (v g w : ℕ) {l : List ℕ}
      → g < 128
      → 0 < w
      → v ≡ w * 128 + g
      → Groups w l
      → Groups v ((g + 128) ∷ l)

one_group : (fuel v : ℕ) → v < 128 → encode_varint_loop (suc fuel) v ≡ v ∷ []
unfolding encode_varint_loop
one_group fuel v h = ground (arith, bit_and_mask 7 v)

more_groups :
    (fuel v : ℕ)
    → 128 ≤ v
    → encode_varint_loop (suc fuel) v ≡ (v % 128 + 128) ∷ encode_varint_loop fuel (v / 128)
unfolding encode_varint_loop
more_groups fuel v h = ground (arith, bit_and_mask 7 v, top_set (v % 128))

encode_loop-Groups : (k v : ℕ) → v ≤ k → Groups v (encode_varint_loop (suc k) v)
encode_loop-Groups zero v h = rw (one_group 0 v (omega arith)) (last v (omega arith))
encode_loop-Groups (suc k) v h = elim (Bool-cases (ltb v 128)) [
  | inl small ↦ let lt : v < 128 = ground arith in rw (one_group (suc k) v lt) (last v lt)
  | inr large ↦ rw (more_groups (suc k) v (ground arith)) (
      inner v (v % 128) (v / 128) (omega arith) (ground arith) (omega arith)
        (encode_loop-Groups k (v / 128) (ground arith)))
]

pub encode-Groups : (v : ℕ) → Groups v (encode_unsigned_varint v)
unfolding encode_unsigned_varint
encode-Groups v = encode_loop-Groups v v (omega arith)

pub length-Groups :
    (k : ℕ) {v : ℕ} {l : List ℕ}
    → Groups v l
    → v < 128 ^ suc k
    → (1 ≤ length l) × (length l ≤ suc k)
length-Groups k (last v h) fits = omega arith
length-Groups zero (inner v g w h pos e gs) fits = absurd (omega arith)
length-Groups (suc k) (inner v g w h pos e gs) fits =
    omega (arith, length-Groups k gs (omega (arith, pow-suc 128 (suc k))))

pub Groups-length-pos : {v : ℕ} {l : List ℕ} → Groups v l → 0 < length l
Groups-length-pos (last v h) = omega arith
Groups-length-pos (inner v g w h pos e gs) = omega arith

pub Groups-IsByte : {v : ℕ} {l : List ℕ} → Groups v l → All IsByte l
Groups-IsByte (last v h) = (omega arith, tt)
Groups-IsByte (inner v g w h pos e gs) = (omega arith, Groups-IsByte gs)

pub add_group_lem :
    (acc byte g shift : ℕ)
    → g < 128
    → (byte ≡ g) ⊎ (byte ≡ g + 128)
    → acc < 2 ^ shift
    → g * 2 ^ shift < 2 ^ 64
    → add_group acc byte shift ≡ acc + g * 2 ^ shift
add_group_lem acc byte g shift small e fits fits' =
    ap (bit_or acc) (ap (λ (t : ℕ). t * 2 ^ shift % 2 ^ 64) low ∙ mod-eq_of_lt fits')
    ∙ bit_or_disjoint_left shift g acc fits
    ∙ omega arith
  where
    low : bit_and byte 0x7f ≡ g
    low = bit_and_mask 7 byte ∙ omega arith

-- Seven more digits.
pub shift_seven : (s : ℕ) → 2 ^ (s + 7) ≡ 128 * 2 ^ s
shift_seven s = rw (pow_add s 7) (omega arith)

-- `v` is what is still to be read; it counts from bit `shift` on.
decode_loop-Groups :
    {v : ℕ} {l : List ℕ} (rest : List ℕ) (i acc shift : ℕ)
    → Groups v l
    → acc < 2 ^ shift
    → acc + v * 2 ^ shift < 2 ^ 64
    → decode_varint_loop (l ++ rest) i acc shift ≡ some (acc + v * 2 ^ shift, i + length l)
unfolding decode_varint_loop
decode_loop-Groups rest i acc shift (last v h) below fits =
    ground (arith, bit_and_bit7 v, add_group_lem acc v v shift h (inl refl) below (omega arith))
decode_loop-Groups rest i acc shift (inner v g w {l = l} h pos e gs) below fits =
    let joined = acc + g * 2 ^ shift in
    let whole : joined + w * 2 ^ (shift + 7) ≡ acc + v * 2 ^ shift =
      omega (arith, ap (λ (t : ℕ). t * 2 ^ shift) e, ap (λ (t : ℕ). w * t) (shift_seven shift)) in
    let below' : joined < 2 ^ (shift + 7) =
      omega (arith, shift_seven shift, mul-le-mul_right (2 ^ shift) h) in
    ground (
      arith,
      bit_and_bit7 (g + 128),
      add_group_lem acc (g + 128) g shift h (inr refl) below (omega (arith, whole)),
      whole,
      decode_loop-Groups rest (i + 1) joined (shift + 7) gs below' (rw whole fits),
    )

-- Decoding reads back an encoded uint64 and the number of bytes of its encoding, whatever follows
-- it.
pub decode-encode_unsigned_varint :
    (v : ℕ) (rest : List ℕ)
    → IsU64 v
    → decode_unsigned_varint (encode_unsigned_varint v ++ rest)
      ≡ some (v, length (encode_unsigned_varint v))
unfolding decode_unsigned_varint
decode-encode_unsigned_varint v rest h =
    decode_loop-Groups rest 0 0 0 (encode-Groups v) (omega arith) (omega arith)
    ∙ ap₂ (λ (a b : ℕ). some (a, b)) (omega arith) (omega arith)

pub decode-encode_zigzag : (v : ℕ) → IsU64 v → decode_zigzag (encode_zigzag v) ≡ v
unfolding decode_zigzag encode_zigzag
decode-encode_zigzag v h =
    ground (arith, bit_and_mask 1 (v * 2 % 2 ^ 64), bit_and_mask 1 (2 ^ 64 - 1 - v * 2 % 2 ^ 64))

pub encode_zigzag-IsU64 : (v : ℕ) → IsU64 (encode_zigzag v)
unfolding encode_zigzag
encode_zigzag-IsU64 v = ground arith

pub encode_signed-Groups : (v : ℕ) → Groups (encode_zigzag v) (encode_signed_varint v)
unfolding encode_signed_varint
encode_signed-Groups v = encode-Groups (encode_zigzag v)

pub encode_signed_varint-short : (v : ℕ) → length (encode_signed_varint v) ≤ 10
encode_signed_varint-short v =
    (length-Groups 9 (encode_signed-Groups v) (omega (arith, encode_zigzag-IsU64 v))).1

-- Decoding a signed integer, given by its 64 bits, reads back the integer and the number of bytes
-- of its encoding, whatever follows it.
pub decode-encode_signed_varint :
    (v : ℕ) (rest : List ℕ)
    → IsU64 v
    → decode_signed_varint (encode_signed_varint v ++ rest)
      ≡ some (v, length (encode_signed_varint v))
unfolding decode_signed_varint encode_signed_varint
decode-encode_signed_varint v rest h =
    ap decode_result (decode-encode_unsigned_varint (encode_zigzag v) rest (encode_zigzag-IsU64 v))
    ∙ ap (λ (t : ℕ). some (t, length (encode_unsigned_varint (encode_zigzag v))))
        (decode-encode_zigzag v h)
  where
    decode_result : Option (ℕ × ℕ) → Option (ℕ × ℕ)
    decode_result r = elim r [ none ↦ none | some (u, n) ↦ some (decode_zigzag u, n) ]

-- An encoded 64-bit integer takes at least one and at most ten bytes, which is the size of the
-- buffers that the callers provide, and each of them is a byte.
pub encode_unsigned_varint-bounds :
    (v : ℕ)
    → IsU64 v
    → (1 ≤ length (encode_unsigned_varint v))
      × (length (encode_unsigned_varint v) ≤ 10)
      × All IsByte (encode_unsigned_varint v)
encode_unsigned_varint-bounds v h =
    let gs = encode-Groups v in
    let (low, high) = length-Groups 9 gs (omega arith) in (low, high, Groups-IsByte gs)
