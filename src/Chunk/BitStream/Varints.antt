-- ===== src/Chunk/BitStream/Varints.antt =====
-- `read_unsigned_varint` and `read_signed_varint` of chunk/BitStream.cpp.
use native.Mathlib.Nat.{mul-le-mul_right}
use prom_tcs.Prelude.{
  ℕ, zero, suc, ◌+◌, ◌-◌, ◌*◌, ◌^◌, ◌≤◌, ◌<◌, bit_and, ◌≡◌, refl, sym, ap, ◌∙◌, Bool, true, false,
  List, [], ◌∷◌, ◌++◌, append_assoc, arith, ◌==◌, if◌then◌else◌, IsU64, length, length-append,
  length-drop, inl, inr, not, ◌&&◌, leb, Bool-cases, ◌≢◌,
}
use prom_tcs.Prelude.Bits.{bit_and_bit7}
use prom_tcs.Prelude.Digits.{bits_be, bits_of, length-bits_be}
use prom_tcs.Base.Endian.{add_group, decode_zigzag, encode_unsigned_varint, encode_signed_varint}
use prom_tcs.Base.Endian.Varint.{
  Groups, last, inner, Groups-length-pos, add_group_lem, shift_seven, encode-Groups,
  encode_signed-Groups, encode_zigzag-IsU64, decode-encode_zigzag,
}
use prom_tcs.Chunk.BitStream.{
  BitStream, Result, ok, eof, stuck, Reader, ◌>>=◌, pure, refill, join_byte, read_byte,
}
use prom_tcs.Chunk.BitStream.Read.{
  IsReader, unread, At-drop, behind, inside, unread-at, unread-behind, length-bits_of,
}
use prom_tcs.Chunk.BitStream.ReadBits.{read_byte_lem}
use prom_tcs.Chunk.BitStream.ReadBytes.{>>=-ok}

-- The do-while loop of `read_unsigned_varint`.
unfoldable pub read_varint_loop : ℕ → ℕ → ℕ → Reader ℕ
unfolding read_byte
read_varint_loop zero decoded_value shift_amount s = stuck
read_varint_loop (suc fuel) decoded_value shift_amount s =
    (read_byte >>= λ current s'.
    let decoded = add_group decoded_value current shift_amount in
    let more = read_varint_loop fuel decoded (shift_amount + 7) s' in
    if bit_and current 0x80 == 0 then ok decoded s' else more)
      s

-- A byte that is read leaves one byte less, so the bytes that are left, and one more round to find
-- the end, are enough fuel.
unfoldable pub read_unsigned_varint : Reader ℕ
unfolding read_varint_loop
read_unsigned_varint s = read_varint_loop (suc (s.end - s.index)) 0 0 s

unfoldable pub read_signed_varint : Reader ℕ
unfolding read_unsigned_varint decode_zigzag
read_signed_varint = do unsigned_value ← read_unsigned_varint; pure (decode_zigzag unsigned_value)

read_varint_step :
    (fuel acc shift byte joined : ℕ) (s s' : BitStream)
    → read_byte s ≡ ok byte s'
    → add_group acc byte shift ≡ joined
    → read_varint_loop (suc fuel) acc shift s ≡ (
        if bit_and byte 0x80 == 0
        then ok joined s'
        else read_varint_loop fuel joined (shift + 7) s')
unfolding read_varint_loop
read_varint_step fuel acc shift byte joined s s' e j =
    >>=-ok read_byte after s e
    ∙ ap
        (λ (d : ℕ).
          if bit_and byte 0x80 == 0 then ok d s' else read_varint_loop fuel d (shift + 7) s')
        j
  where
    after : ℕ → Reader ℕ
    after current s' =
        let decoded = add_group acc current shift in
        let more = read_varint_loop fuel decoded (shift + 7) s' in
        if bit_and current 0x80 == 0 then ok decoded s' else more

-- What the digits of an encoding are followed by.
bits_of-front :
    (x : ℕ) (l : List ℕ) (rest : List Bool)
    → bits_of (x ∷ l) ++ rest ≡ bits_be 8 x ++ (bits_of l ++ rest)
unfolding bits_of
bits_of-front x l rest = append_assoc (bits_be 8 x) (bits_of l) rest

-- A reader that returns `v` and goes on with the digits `rest`.
abbrev pub Returns : {A : Type 0} → Result A → A → List Bool → Type 0
Returns r v rest = (s' : BitStream) × (r ≡ ok v s') × IsReader s' × (unread s' ≡ rest)

read_loop-Groups :
    (rest : List Bool) (fuel acc shift : ℕ) (s : BitStream) {v : ℕ} {l : List ℕ}
    → Groups v l
    → length l ≤ fuel
    → acc < 2 ^ shift
    → acc + v * 2 ^ shift < 2 ^ 64
    → IsReader s
    → unread s ≡ bits_of l ++ rest
    → Returns (read_varint_loop fuel acc shift s) (acc + v * 2 ^ shift) rest
read_loop-Groups rest zero acc shift s gs enough below fits r e =
    absurd (omega (arith, Groups-length-pos gs, enough))
read_loop-Groups rest (suc fuel) acc shift s (last v h) enough below fits r e =
    let (s', reads, r', after) =
      read_byte_lem v s (bits_of [] ++ rest) r (omega arith) (e ∙ bits_of-front v [] rest) in
    (
      s',
      read_varint_step fuel acc shift v (acc + v * 2 ^ shift) s s' reads
            (add_group_lem acc v v shift h (inl refl) below (omega arith))
          ∙ ground (arith, bit_and_bit7 v),
      r',
      after ∙ unfold bits_of in refl,
    )
read_loop-Groups rest (suc fuel) acc shift s (inner v g w {l = l} h pos e gs) enough below fits r
      d =
    let joined = acc + g * 2 ^ shift in
    let whole : joined + w * 2 ^ (shift + 7) ≡ acc + v * 2 ^ shift =
      omega (arith, ap (λ (t : ℕ). t * 2 ^ shift) e, ap (λ (t : ℕ). w * t) (shift_seven shift)) in
    let below' : joined < 2 ^ (shift + 7) =
      omega (arith, shift_seven shift, mul-le-mul_right (2 ^ shift) h) in
    let (s1, reads, r1, after) =
      read_byte_lem (g + 128) s (bits_of l ++ rest) r (omega arith)
        (d ∙ bits_of-front (g + 128) l rest) in
    let (s2, loops, r2, after') =
      read_loop-Groups rest fuel joined (shift + 7) s1 gs (omega arith) below' (rw whole fits) r1
        after in
    (
      s2,
      read_varint_step fuel acc shift (g + 128) joined s s1 reads
            (add_group_lem acc (g + 128) g shift h (inr refl) below (omega (arith, whole)))
          ∙ ground (arith, bit_and_bit7 (g + 128))
          ∙ loops
          ∙ ap (λ (t : ℕ). ok t s2) whole,
      r2,
      after',
    )

-- The fuel covers the digits that are left.
fuel_enough : (s : BitStream) → IsReader s → length (unread s) ≤ 8 * (s.end - s.index)
fuel_enough s r = elim (At-drop s.stream s.index s.past r.bytes) [
  | behind e p le ↦ omega (arith, ap length (unread-behind s e))
  | inside x xs here there byte lt small ↦ omega (
    arith,
    ap length (unread-at s here),
    length-append (bits_be s.head_count x) (bits_of xs),
    length-bits_be s.head_count x,
    length-bits_of xs,
    ap length here,
    length-drop s.index s.stream,
    r.ends,
    r.head_small,
  )
]

read_unsigned-Groups :
    {v : ℕ} {l : List ℕ} (rest : List Bool) (s : BitStream)
    → Groups v l
    → IsU64 v
    → IsReader s
    → unread s ≡ bits_of l ++ rest
    → Returns (read_unsigned_varint s) v rest
unfolding read_unsigned_varint
read_unsigned-Groups {v} {l} rest s gs small r e =
    let (s', reads, r', after) =
      read_loop-Groups rest (suc (s.end - s.index)) 0 0 s gs
        (omega
          (arith, fuel_enough s r, ap length e, length-append (bits_of l) rest, length-bits_of l))
        (omega arith) (omega arith) r e in
    (s', reads ∙ ap (λ (t : ℕ). ok t s') (omega arith), r', after)

-- `read_unsigned_varint` reads an encoded uint64 and nothing behind it.
pub read_unsigned_varint_lem :
    (v : ℕ) (s : BitStream) (rest : List Bool)
    → IsReader s
    → IsU64 v
    → unread s ≡ bits_of (encode_unsigned_varint v) ++ rest
    → Returns (read_unsigned_varint s) v rest
read_unsigned_varint_lem v s rest r small e =
    read_unsigned-Groups rest s (encode-Groups v) small r e

-- In a stream whose bytes are bytes and whose end is its length, at any position inside a byte: if
-- the digits of the encoding of an int64 are next, `read_signed_varint` returns the integer, and what
-- is unread afterwards is exactly what followed the encoding.
pub read_signed_varint_lem :
    (v : ℕ) (s : BitStream) (rest : List Bool)
    → IsReader s
    → IsU64 v
    → unread s ≡ bits_of (encode_signed_varint v) ++ rest
    → Returns (read_signed_varint s) v rest
unfolding read_signed_varint
read_signed_varint_lem v s rest r small e =
    let (s', reads, r', after) =
      read_unsigned-Groups rest s (encode_signed-Groups v) (encode_zigzag-IsU64 v) r e in
    (
      s',
      >>=-ok read_unsigned_varint (λ u. pure (decode_zigzag u)) s reads
          ∙ ap (λ (t : ℕ). ok t s') (decode-encode_zigzag v small),
      r',
      after,
    )

-- Reading a varint ends for every stream: the loop never runs out of fuel.

-- What a read can do: move the position on within the same end, or throw.
abbrev Progress : ℕ → ℕ → Result ℕ → Type 0
Progress e i (ok v s') = (s'.end ≡ e) × (i < s'.index) × (i < e)
Progress e i (eof s') = Unit {0}
Progress e i stuck = ⊥

join_byte-Progress :
    (s : BitStream) (i : ℕ) → i ≤ s.index → s.index < s.end → Progress s.end i (join_byte s)
unfolding join_byte
join_byte-Progress s i le lt =
    elim (Bool-cases (not (s.head_count == 8) && leb s.end (s.index + 1))) [
      | inl t ↦ rw t tt
      | inr f ↦ rw f (refl, omega arith, omega arith)
    ]

after_refill : Result (Unit {0}) → Result ℕ
after_refill r = elim r [ ok a s' ↦ join_byte s' | eof s' ↦ eof s' | stuck ↦ stuck ]

refill-Progress : (s : BitStream) → Progress s.end s.index (after_refill (refill s))
unfolding refill after_refill
refill-Progress s = elim (Bool-cases (leb s.end s.index)) [
  | inl t ↦ rw t tt
  | inr f ↦ elim (Bool-cases (s.head_count == 0)) [
    | inr some_left ↦ rw (f, some_left) (join_byte-Progress s s.index (omega arith) (ground arith))
    | inl none_left ↦ elim (Bool-cases (leb s.end (s.index + 1))) [
      | inl t' ↦ rw (f, none_left, t') tt
      | inr f' ↦
          rw (f, none_left, f')
            (join_byte-Progress (record s { index = s.index + 1; head_count = 8 }) s.index
              (omega arith) (ground arith))
    ]
  ]
]

read_byte-Progress : (s : BitStream) → Progress s.end s.index (read_byte s)
unfolding read_byte after_refill
read_byte-Progress s = refill-Progress s

after_byte : ℕ → ℕ → ℕ → Result ℕ → Result ℕ
after_byte fuel acc shift r = elim r [
  | ok current s' ↦
      let decoded = add_group acc current shift in
      let more = read_varint_loop fuel decoded (shift + 7) s' in
      if bit_and current 0x80 == 0 then ok decoded s' else more
  | eof s' ↦ eof s'
  | stuck ↦ stuck
]

is_stuck : Result ℕ → Bool
is_stuck r = elim r [ ok v s' ↦ false | eof s' ↦ false | stuck ↦ true ]

after_byte-ends :
    (fuel acc shift e i : ℕ) (r : Result ℕ)
    → ((acc' shift' : ℕ) (s' : BitStream)
        → s'.end - s'.index < fuel
        → is_stuck (read_varint_loop fuel acc' shift' s') ≡ false)
    → Progress e i r
    → e - i < suc fuel
    → is_stuck (after_byte fuel acc shift r) ≡ false
unfolding after_byte is_stuck
after_byte-ends fuel acc shift e i (ok v s') ih (same, further, before) enough =
    elim (Bool-cases (bit_and v 0x80 == 0)) [
      | inl t ↦ rw t refl
      | inr f ↦ rw f (ih (add_group acc v shift) (shift + 7) s' (omega (arith, same)))
    ]
after_byte-ends fuel acc shift e i (eof s') ih p enough = refl
after_byte-ends fuel acc shift e i stuck ih p enough = absurd p

loop-ends :
    (fuel acc shift : ℕ) (s : BitStream)
    → s.end - s.index < fuel
    → is_stuck (read_varint_loop fuel acc shift s) ≡ false
unfolding read_varint_loop after_byte
loop-ends zero acc shift s enough = absurd (omega arith)
loop-ends (suc fuel) acc shift s enough =
    after_byte-ends fuel acc shift s.end s.index (read_byte s) (loop-ends fuel)
      (read_byte-Progress s) enough

-- Reading a varint ends on every stream, whatever its members and its bytes: the loop never runs
-- out of its fuel, so it returns a value or throws.
pub read_unsigned_varint-ends : (s : BitStream) → read_unsigned_varint s ≢ stuck
unfolding read_unsigned_varint is_stuck
read_unsigned_varint-ends s e =
    let ends = loop-ends (suc (s.end - s.index)) 0 0 s (omega arith) in
    let clash : true ≡ false = sym (ap is_stuck e) ∙ ends in cc clash
