-- ===== src/Tsdbutil/EncBuf.antt =====
-- tsdbutil/EncBuf.hpp: a buffer that is written from its index on and grows when it is full.
pub mod Contents
use prom_tcs.Prelude.{
  ℕ, zero, suc, ◌+◌, ◌-◌, ◌≤◌, ◌≡◌, refl, ap, ◌∙◌, List, [], ◌∷◌, ◌++◌, append_assoc, arith, ltb,
  IsU64, length-replicate, ◌==◌, if◌then◌else◌, Bool-cases, inl, inr, length, length-append,
  length-take, take, drop, take-append_le, take-append_add, replicate,
}
use prom_tcs.Base.Endian.Varint.{encode_unsigned_varint-bounds}
use prom_tcs.Base.Endian.{
  max_varint_len_64, put_uint16_big_endian, put_uint32_big_endian, put_uint64_big_endian,
  encode_unsigned_varint, encode_signed_varint,
}

pub record EncBuf : Type 0 where
  pub b : List ℕ
  pub index : ℕ

unfoldable pub new_buf : EncBuf
new_buf = record { b = []; index = 0 }

-- The memory of the last use stays.
unfoldable pub reset : EncBuf → EncBuf
reset e = record e { index = 0 }

-- `get()`: the first `index` bytes.
unfoldable pub contents : EncBuf → List ℕ
contents e = take e.index e.b

-- Bytes written over those from `at` on. The vector keeps its size: what is written past its end is
-- not in it (in the code it is outside the memory of the vector).
unfoldable pub overwrite : List ℕ → ℕ → List ℕ → List ℕ
overwrite [] at bytes = []
overwrite (x ∷ b) zero [] = x ∷ b
overwrite (x ∷ b) zero (v ∷ bytes) = v ∷ overwrite b zero bytes
overwrite (x ∷ b) (suc at) bytes = x ∷ overwrite b at bytes

-- `b.resize(n)` to a larger size; no change if there are more.
unfoldable pub resize : List ℕ → ℕ → List ℕ
resize b n = b ++ replicate (n - length b) 0

-- `if (index + n > b.size()) ...`: zeros are pushed until `n` bytes fit.
unfoldable pub padded : EncBuf → ℕ → List ℕ
unfolding resize
padded e n = if ltb (length e.b) (e.index + n) then resize e.b (e.index + n) else e.b

unfoldable pub put_string : EncBuf → List ℕ → EncBuf
unfolding resize overwrite
put_string e str =
    let room =
      if ltb (length e.b) (length str + e.index)
      then resize e.b (length str + e.index + 1)
      else e.b in
    record { b = overwrite room e.index str; index = e.index + length str }

unfoldable pub put_byte : EncBuf → ℕ → EncBuf
unfolding overwrite
put_byte e byte = record {
  b = if e.index == length e.b then e.b ++ byte ∷ [] else overwrite e.b e.index (byte ∷ []);
  index = e.index + 1;
}

unfoldable pub put_be_uint16 : EncBuf → ℕ → EncBuf
unfolding padded put_uint16_big_endian
put_be_uint16 e num = record {
  b = put_uint16_big_endian (padded e 2) e.index num;
  index = e.index + 2;
}

unfoldable pub put_be_uint32 : EncBuf → ℕ → EncBuf
unfolding padded put_uint32_big_endian
put_be_uint32 e num = record {
  b = put_uint32_big_endian (padded e 4) e.index num;
  index = e.index + 4;
}

unfoldable pub put_be_uint64 : EncBuf → ℕ → EncBuf
unfolding padded put_uint64_big_endian
put_be_uint64 e num = record {
  b = put_uint64_big_endian (padded e 8) e.index num;
  index = e.index + 8;
}

unfoldable pub put_unsigned_variant : EncBuf → ℕ → EncBuf
unfolding padded overwrite encode_unsigned_varint
put_unsigned_variant e num = record {
  b = overwrite (padded e max_varint_len_64) e.index (encode_unsigned_varint num);
  index = e.index + length (encode_unsigned_varint num);
}

unfoldable pub put_signed_variant : EncBuf → ℕ → EncBuf
unfolding padded overwrite encode_signed_varint
put_signed_variant e num = record {
  b = overwrite (padded e max_varint_len_64) e.index (encode_signed_varint num);
  index = e.index + length (encode_signed_varint num);
}

unfoldable pub put_uvariant_string : EncBuf → List ℕ → EncBuf
unfolding put_string put_unsigned_variant
put_uvariant_string e str = put_string (put_unsigned_variant e (length str)) str

-- The index does not pass the end of the memory.
abbrev pub IsBuf : EncBuf → Type 0
IsBuf e = e.index ≤ length e.b

length-overwrite : (b : List ℕ) (at : ℕ) (bytes : List ℕ) → length (overwrite b at bytes) ≡ length b
unfolding overwrite
length-overwrite [] at bytes = refl
length-overwrite (x ∷ b) zero [] = refl
length-overwrite (x ∷ b) zero (v ∷ bytes) = ap suc (length-overwrite b zero bytes)
length-overwrite (x ∷ b) (suc at) bytes = ap suc (length-overwrite b at bytes)

take-overwrite :
    (b : List ℕ) (at : ℕ) (bytes : List ℕ)
    → at + length bytes ≤ length b
    → take (at + length bytes) (overwrite b at bytes) ≡ take at b ++ bytes
unfolding overwrite
take-overwrite [] zero [] fits = refl
take-overwrite [] zero (v ∷ bytes) fits = absurd (omega arith)
take-overwrite [] (suc at) bytes fits = absurd (omega arith)
take-overwrite (x ∷ b) zero [] fits = refl
take-overwrite (x ∷ b) zero (v ∷ bytes) fits =
    let ih = take-overwrite b zero bytes (omega arith) in
    let e : 0 + suc (length bytes) ≡ suc (0 + length bytes) = omega arith in rw e (ap (◌∷◌ v) ih)
take-overwrite (x ∷ b) (suc at) bytes fits =
    let ih = take-overwrite b at bytes (omega arith) in
    let e : suc at + length bytes ≡ suc (at + length bytes) = omega arith in rw e (ap (◌∷◌ x) ih)

pub take-resize : (b : List ℕ) (n at : ℕ) → at ≤ length b → take at (resize b n) ≡ take at b
unfolding resize
take-resize b n at le = take-append_le at b (replicate (n - length b) 0) le

pub length-resize : (b : List ℕ) (n : ℕ) → length b ≤ length (resize b n)
unfolding resize
length-resize b n = omega (arith, length-append b (replicate (n - length b) 0))

pub resize-length : (b : List ℕ) (n : ℕ) → n ≤ length (resize b n)
unfolding resize
resize-length b n =
    omega (
      arith,
      length-append b (replicate (n - length b) 0),
      length-replicate {A = ℕ} (n - length b) 0,
    )

-- Bytes put into a room that starts with what was there, and where they fit.
pub put_lem :
    (e : EncBuf) (room bytes : List ℕ)
    → e.index + length bytes ≤ length room
    → take e.index room ≡ take e.index e.b
    → (take (e.index + length bytes) (overwrite room e.index bytes) ≡ take e.index e.b ++ bytes)
      × (e.index + length bytes ≤ length (overwrite room e.index bytes))
put_lem e room bytes fits same = (
  take-overwrite room e.index bytes fits ∙ ap (λ (l : List ℕ). l ++ bytes) same,
  omega (arith, length-overwrite room e.index bytes, fits),
)

pub string_lem :
    (e : EncBuf) (str : List ℕ)
    → IsBuf e
    → (contents (put_string e str) ≡ contents e ++ str) × IsBuf (put_string e str)
unfolding contents put_string
string_lem e str ok = elim (Bool-cases (ltb (length e.b) (length str + e.index))) [
  | inl t ↦
      let n = length str + e.index + 1 in
      rw t (
        put_lem e (resize e.b n) str (omega (arith, resize-length e.b n))
          (take-resize e.b n e.index ok))
  | inr f ↦ rw f (put_lem e e.b str (ground arith) refl)
]

pub variant_lem :
    (e : EncBuf) (num : ℕ)
    → IsBuf e
    → IsU64 num
    → (contents (put_unsigned_variant e num) ≡ contents e ++ encode_unsigned_varint num)
      × IsBuf (put_unsigned_variant e num)
unfolding contents put_unsigned_variant padded
variant_lem e num ok small =
    let bytes = encode_unsigned_varint num in
    let short : length bytes ≤ 10 = (encode_unsigned_varint-bounds num small).1 in
    elim (Bool-cases (ltb (length e.b) (e.index + max_varint_len_64))) [
      | inl t ↦
          let n = e.index + max_varint_len_64 in
          rw t (
            put_lem e (resize e.b n) bytes (omega (arith, short, resize-length e.b n))
              (take-resize e.b n e.index ok))
      | inr f ↦ rw f (put_lem e e.b bytes (ground (arith, short)) refl)
    ]

-- Where the index of a buffer is within its vector, and the length of the string has 64 bits,
-- `put_uvariant_string` appends the length of the string as a varint and the bytes of the string to
-- the contents, whatever is left in the vector from an earlier use, and keeps the index within the
-- vector. So the vector has grown enough: what is written past its end would not be in the contents.
pub contents-put_uvariant_string :
    (e : EncBuf) (str : List ℕ)
    → IsBuf e
    → IsU64 (length str)
    → (contents (put_uvariant_string e str)
        ≡ contents e ++ (encode_unsigned_varint (length str) ++ str))
      × IsBuf (put_uvariant_string e str)
unfolding put_uvariant_string
contents-put_uvariant_string e str ok small =
    let (there, ok1) = variant_lem e (length str) ok small in
    let (there', ok2) = string_lem (put_unsigned_variant e (length str)) str ok1 in
    (
      there'
          ∙ ap (λ (l : List ℕ). l ++ str) there
          ∙ append_assoc (contents e) (encode_unsigned_varint (length str)) str,
      ok2,
    )
