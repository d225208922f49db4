-- ===== src/Tsdbutil/DecBuf.antt =====
-- tsdbutil/DecBuf.hpp: a cursor over some bytes that remembers its first error.
pub mod Progress
pub mod Reads
use prom_tcs.Prelude.{
  ℕ, ◌+◌, ◌-◌, ◌≤◌, ◌<◌, ◌≡◌, refl, sym, ap, ap₂, ◌∙◌, true, false, append-nil, drop_add, List, [],
  ◌++◌, Option, none, some, not, arith, leb, ltb, ◌==◌, if◌then◌else◌, length, length-append,
  length-drop, take, drop, drop-length, take-length, get_or, IsU64,
}
use prom_tcs.Base.Endian.{
  get_uint16_big_endian, get_uint32_big_endian, get_uint64_big_endian, encode_unsigned_varint,
  decode_unsigned_varint, decode_signed_varint,
}
use prom_tcs.Base.Endian.Varint.{decode-encode_unsigned_varint, encode_unsigned_varint-bounds}

abbrev pub no_err : ℕ
no_err = 0

abbrev pub err_invalid_size : ℕ
err_invalid_size = 1

-- `index` does not pass `size`, so that `size - index` does not wrap around.
pub record DecBuf : Type 0 where
  pub b : List ℕ
  pub size : ℕ
  pub index : ℕ
  pub err : ℕ

unfoldable pub dec_buf : List ℕ → DecBuf
dec_buf b = record { b = b; size = length b; index = 0; err = no_err }

abbrev pub invalid_size : DecBuf → DecBuf
invalid_size d = record d { err = err_invalid_size }

-- The getters of `n` bytes: nothing after an error, an error where too few bytes are left.
unfoldable pub get_fixed : (List ℕ → ℕ → ℕ) → ℕ → DecBuf → ℕ × DecBuf
get_fixed read n d =
    if not (d.err == no_err)
    then (0, d)
    else if ltb (d.size - d.index) n
    then (0, invalid_size d)
    else (read d.b d.index, record d { index = d.index + n })

unfoldable pub get_byte : DecBuf → ℕ × DecBuf
unfolding get_fixed
get_byte = get_fixed (λ b at. get_or b at 0) 1

unfoldable pub get_be_uint16 : DecBuf → ℕ × DecBuf
unfolding get_fixed get_uint16_big_endian
get_be_uint16 = get_fixed get_uint16_big_endian 2

unfoldable pub get_be_uint32 : DecBuf → ℕ × DecBuf
unfolding get_fixed get_uint32_big_endian
get_be_uint32 = get_fixed get_uint32_big_endian 4

unfoldable pub get_be_uint64 : DecBuf → ℕ × DecBuf
unfolding get_fixed get_uint64_big_endian
get_be_uint64 = get_fixed get_uint64_big_endian 8

-- The getters of varints; a TSDBException is turned into the error.
unfoldable pub get_variant : (List ℕ → Option (ℕ × ℕ)) → DecBuf → ℕ × DecBuf
get_variant decode d =
    if not (d.err == no_err)
    then (0, d)
    else if leb d.size d.index
    then (0, invalid_size d)
    else elim (decode (take (d.size - d.index) (drop d.index d.b))) [
      | none ↦ (0, invalid_size d)
      | some (r, decoded) ↦ (r, record d { index = d.index + decoded })
    ]

unfoldable pub get_unsigned_variant : DecBuf → ℕ × DecBuf
unfolding get_variant decode_unsigned_varint
get_unsigned_variant = get_variant decode_unsigned_varint

unfoldable pub get_signed_variant : DecBuf → ℕ × DecBuf
unfolding get_variant decode_signed_varint
get_signed_variant = get_variant decode_signed_varint

-- `get_uvariant_string` behind its length.
unfoldable pub get_rest : ℕ × DecBuf → List ℕ × DecBuf
get_rest (len, d) =
    if not (d.err == no_err)
    then ([], d)
    else if ltb (d.size - d.index) len
    then ([], invalid_size d)
    else (take len (drop d.index d.b), record d { index = d.index + len })

unfoldable pub get_uvariant_string : DecBuf → List ℕ × DecBuf
unfolding get_rest get_unsigned_variant
get_uvariant_string d = get_rest (get_unsigned_variant d)

pub all_left :
    (d : DecBuf)
    → d.size ≡ length d.b
    → take (d.size - d.index) (drop d.index d.b) ≡ drop d.index d.b
all_left d whole =
    ap₂ (λ (n : ℕ) (l : List ℕ). take n l) (omega (arith, whole, length-drop d.index d.b))
      (sym (append-nil (drop d.index d.b)))
    ∙ take-length (drop d.index d.b) []

pub get_variant-ok :
    (decode : List ℕ → Option (ℕ × ℕ)) (d : DecBuf) (r n : ℕ)
    → d.err ≡ no_err
    → d.index < d.size
    → decode (take (d.size - d.index) (drop d.index d.b)) ≡ some (r, n)
    → get_variant decode d ≡ (r, record d { index = d.index + n })
unfolding get_variant
get_variant-ok decode d r n fine more e =
    let here : d.err == no_err ≡ true = ground (arith, fine) in
    let inside : leb d.size d.index ≡ false = ground (arith, more) in rw (here, inside) (ap go e)
  where
    go : Option (ℕ × ℕ) → ℕ × DecBuf
    go o = elim o [
      | none ↦ (0, invalid_size d)
      | some (r', decoded) ↦ (r', record d { index = d.index + decoded })
    ]

pub get_rest-ok :
    (d : DecBuf) (len : ℕ)
    → d.err ≡ no_err
    → len ≤ d.size - d.index
    → get_rest (len, d) ≡ (take len (drop d.index d.b), record d { index = d.index + len })
unfolding get_rest
get_rest-ok d len fine enough =
    let here : d.err == no_err ≡ true = ground (arith, fine) in
    let inside : ltb (d.size - d.index) len ≡ false = ground (arith, enough) in
    rw (here, inside) refl

-- Where a cursor over a whole buffer has no error and the encoding of a string is next, as
-- `put_uvariant_string` writes it, `get_uvariant_string` returns the string and moves exactly behind
-- it, without an error. The string is shorter than 2^64 bytes.
pub get_uvariant_string_lem :
    (d : DecBuf) (str rest : List ℕ)
    → d.err ≡ no_err
    → d.size ≡ length d.b
    → IsU64 (length str)
    → drop d.index d.b ≡ encode_unsigned_varint (length str) ++ (str ++ rest)
    → get_uvariant_string d ≡ (
      str,
      record d { index = d.index + length (encode_unsigned_varint (length str)) + length str },
    )
unfolding get_uvariant_string get_unsigned_variant
get_uvariant_string_lem d str rest fine whole small e =
    let enc = encode_unsigned_varint (length str) in
    let (pos, few, bytes) = encode_unsigned_varint-bounds (length str) small in
    let d1 = record d { index = d.index + length enc } in
    let left : length (drop d.index d.b) ≡ length enc + (length str + length rest) =
      omega (arith, ap length e, length-append enc (str ++ rest), length-append str rest) in
    let first =
      get_variant-ok decode_unsigned_varint d (length str) (length enc) fine
        (omega (arith, left, pos, whole, length-drop d.index d.b))
        (ap decode_unsigned_varint (all_left d whole ∙ e)
          ∙ decode-encode_unsigned_varint (length str) (str ++ rest) small) in
    let behind_length : drop (d.index + length enc) d.b ≡ str ++ rest =
      sym (drop_add d.index (length enc) d.b)
      ∙ ap (drop (length enc)) e
      ∙ drop-length enc (str ++ rest) in
    ap get_rest first
    ∙ get_rest-ok d1 (length str) fine (
        omega (arith, left, whole, length-drop d.index d.b, length-drop (d.index + length enc) d.b))
    ∙ ap (λ (l : List ℕ). (l, record d1 { index = d1.index + length str }))
        (ap (take (length str)) behind_length ∙ take-length str rest)
