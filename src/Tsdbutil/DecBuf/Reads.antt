-- ===== src/Tsdbutil/DecBuf/Reads.antt =====
-- What each getter of tsdbutil/DecBuf.hpp reads where it is next, and that no getter goes back.
use prom_tcs.Prelude.{
  ℕ, subst, ◌+◌, ◌-◌, ◌≤◌, ◌≡◌, refl, sym, ap, ap₂, ◌∙◌, true, false, List, [], ◌∷◌, ◌++◌, Option,
  some, arith, length, length-append, length-drop, drop, drop-length, drop_add, take-all, get_or,
  get_or-drop, IsU64, ltb, ◌==◌,
}
use prom_tcs.Base.Endian.{
  get_uint64_big_endian, encode_unsigned_varint, decode_unsigned_varint, encode_signed_varint,
  decode_signed_varint,
}
use prom_tcs.Base.Endian.BigEndian.{be64, get_uint64_lem}
use prom_tcs.Base.Endian.Varint.{
  decode-encode_unsigned_varint, decode-encode_signed_varint, encode_unsigned_varint-bounds,
  encode_zigzag-IsU64,
}
use prom_tcs.Tsdbutil.DecBuf.{
  DecBuf, no_err, get_fixed, get_variant, get_variant-ok, get_byte, get_be_uint64,
  get_unsigned_variant, get_signed_variant, get_uvariant_string, get_uvariant_string_lem,
}

-- A cursor without an error, within a whole buffer, with some bytes next.
pub record IsAt (d : DecBuf) (rest : List ℕ) : Type 0 where
  pub fine : d.err ≡ no_err
  pub whole : d.size ≡ length d.b
  pub within : d.index ≤ d.size
  pub next_bytes : drop d.index d.b ≡ rest

-- `get` reads a value and leaves some bytes.
abbrev pub Reads {ℓ} : {A : Type ℓ} → A × DecBuf → A → List ℕ → Type ℓ
Reads result v rest = (result.0 ≡ v) × IsAt result.1 rest

-- One result and the cursor behind it.
Reads-eq {ℓ} :
    {A : Type ℓ}
    → (result : A × DecBuf) (v : A) (d' : DecBuf) (rest : List ℕ) → result ≡ (v, d')
    → IsAt d' rest
    → Reads result v rest
Reads-eq {A} result v d' rest e h = (
  ap (λ (r : A × DecBuf). r.0) e,
  subst (λ (x : DecBuf). IsAt x rest) (ap (λ (r : A × DecBuf). r.1) (sym e)) h,
)

pub left_lem : (d : DecBuf) (rest : List ℕ) → IsAt d rest → d.size - d.index ≡ length rest
left_lem d rest h = omega (arith, h.whole, length-drop d.index d.b, ap length h.next_bytes)

-- The cursor behind some bytes.
IsAt-behind :
    (d : DecBuf) (bytes rest : List ℕ) (n : ℕ)
    → n ≡ length bytes
    → IsAt d (bytes ++ rest)
    → IsAt (record d { index = d.index + n }) rest
IsAt-behind d bytes rest n same h = record {
  fine = h.fine;
  whole = h.whole;
  within = omega (arith, same, h.within, left_lem d (bytes ++ rest) h, length-append bytes rest);
  next_bytes =
      sym (drop_add d.index n d.b)
      ∙ ap₂ (λ (k : ℕ) (l : List ℕ). drop k l) same h.next_bytes
      ∙ drop-length bytes rest;
}

get_fixed-Reads :
    (read : List ℕ → ℕ → ℕ) (n : ℕ) (d : DecBuf) (bytes rest : List ℕ) (v : ℕ)
    → n ≡ length bytes
    → IsAt d (bytes ++ rest)
    → read d.b d.index ≡ v
    → Reads (get_fixed read n d) v rest
unfolding get_fixed
get_fixed-Reads read n d bytes rest v same h e =
    let here : d.err == no_err ≡ true = ground (arith, h.fine) in
    let enough : ltb (d.size - d.index) n ≡ false =
      ground (arith, same, left_lem d (bytes ++ rest) h, length-append bytes rest) in
    Reads-eq _ v (record d { index = d.index + n }) rest (rw (here, enough, e) refl)
      (IsAt-behind d bytes rest n same h)

pub get_byte-Reads :
    (d : DecBuf) (v : ℕ) (rest : List ℕ) → IsAt d (v ∷ rest) → Reads (get_byte d) v rest
unfolding get_byte
get_byte-Reads d v rest h =
    let here : d.index + 0 ≡ d.index = omega arith in
    get_fixed-Reads (λ b at. get_or b at 0) 1 d (v ∷ []) rest v refl h
      (ap (λ (i : ℕ). get_or d.b i 0) (sym here)
        ∙ sym (get_or-drop d.index 0 d.b 0)
        ∙ ap (λ (l : List ℕ). get_or l 0 0) h.next_bytes)

pub get_be_uint64-Reads :
    (d : DecBuf) (v : ℕ) (rest : List ℕ)
    → IsU64 v
    → IsAt d (be64 v ++ rest)
    → Reads (get_be_uint64 d) v rest
unfolding get_be_uint64
get_be_uint64-Reads d v rest small h =
    get_fixed-Reads get_uint64_big_endian 8 d (be64 v) rest v refl h
      (get_uint64_lem d.b rest d.index v small h.next_bytes)

get_variant-Reads :
    (decode : List ℕ → Option (ℕ × ℕ)) (d : DecBuf) (v : ℕ) (bytes rest : List ℕ)
    → 1 ≤ length bytes
    → IsAt d (bytes ++ rest)
    → decode (bytes ++ rest) ≡ some (v, length bytes)
    → Reads (get_variant decode d) v rest
get_variant-Reads decode d v bytes rest pos h e =
    let left = left_lem d (bytes ++ rest) h in
    let all =
      take-all (d.size - d.index) (drop d.index d.b)
        (omega (arith, left, ap length h.next_bytes)) in
    Reads-eq _ v (record d { index = d.index + length bytes }) rest
      (get_variant-ok decode d v (length bytes) h.fine
        (omega (arith, left, pos, length-append bytes rest)) (ap decode (all ∙ h.next_bytes) ∙ e))
      (IsAt-behind d bytes rest (length bytes) refl h)

pub get_unsigned_variant-Reads :
    (d : DecBuf) (v : ℕ) (rest : List ℕ)
    → IsU64 v
    → IsAt d (encode_unsigned_varint v ++ rest)
    → Reads (get_unsigned_variant d) v rest
unfolding get_unsigned_variant
get_unsigned_variant-Reads d v rest small h =
    get_variant-Reads decode_unsigned_varint d v (encode_unsigned_varint v) rest
      (encode_unsigned_varint-bounds v small).0 h (decode-encode_unsigned_varint v rest small)

pub get_signed_variant-Reads :
    (d : DecBuf) (v : ℕ) (rest : List ℕ)
    → IsU64 v
    → IsAt d (encode_signed_varint v ++ rest)
    → Reads (get_signed_variant d) v rest
unfolding get_signed_variant encode_signed_varint
get_signed_variant-Reads d v rest small h =
    get_variant-Reads decode_signed_varint d v (encode_signed_varint v) rest
      (encode_unsigned_varint-bounds _ (encode_zigzag-IsU64 v)).0 h
      (decode-encode_signed_varint v rest small)

pub get_uvariant_string-Reads :
    (d : DecBuf) (str rest : List ℕ)
    → IsU64 (length str)
    → IsAt d (encode_unsigned_varint (length str) ++ (str ++ rest))
    → Reads (get_uvariant_string d) str rest
get_uvariant_string-Reads d str rest small h =
    let enc = encode_unsigned_varint (length str) in
    let d1 = record d { index = d.index + length enc } in
    Reads-eq _ str (record d { index = d.index + length enc + length str }) rest
      (get_uvariant_string_lem d str rest h.fine h.whole small h.next_bytes)
      (IsAt-behind d1 str rest (length str) refl
        (IsAt-behind d enc (str ++ rest) (length enc) refl h))
