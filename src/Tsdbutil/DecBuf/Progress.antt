-- ===== src/Tsdbutil/DecBuf/Progress.antt =====
-- No getter of tsdbutil/DecBuf.hpp goes back or forgets an error.
use prom_tcs.Prelude.{
  ℕ, ◌+◌, ◌-◌, ◌≤◌, ◌<◌, ◌≡◌, ◌⊎◌, inl, inr, refl, not, List, Option, none, some, arith, Bool-cases,
  ltb, leb, take, drop, get_or, ◌==◌,
}
use prom_tcs.Base.Endian.{get_uint64_big_endian, decode_unsigned_varint, decode_signed_varint}
use prom_tcs.Tsdbutil.DecBuf.{
  DecBuf, no_err, invalid_size, get_fixed, get_variant, get_rest, get_byte, get_be_uint64,
  get_unsigned_variant, get_signed_variant, get_uvariant_string,
}

-- From `d` on.
pub record Goes (d d' : DecBuf) : Type 0 where
  pub same : d'.size ≡ d.size
  pub forward : d.index ≤ d'.index
  pub keeps : 0 < d.err → 0 < d'.err

-- From `d` on, by a byte at least or with an error.
abbrev pub Advanced : DecBuf → DecBuf → Type 0
Advanced d d' = (0 < d'.err) ⊎ ((d'.size ≡ d.size) × d.index < d'.index)

pub Goes-refl : (d : DecBuf) → Goes d d
Goes-refl d = record { same = refl; forward = omega arith; keeps = λ h. h }

pub Goes-trans : (d d' d'' : DecBuf) → Goes d d' → Goes d' d'' → Goes d d''
Goes-trans d d' d'' g g' = record {
  same = omega (arith, g.same, g'.same);
  forward = omega (arith, g.forward, g'.forward);
  keeps = λ h. g'.keeps (g.keeps h);
}

pub Advanced-Goes : (d d' d'' : DecBuf) → Advanced d d' → Goes d' d'' → Advanced d d''
Advanced-Goes d d' d'' (inl failed) g = inl (g.keeps failed)
Advanced-Goes d d' d'' (inr (same, less)) g = inr (omega (arith, g.same), omega (arith, g.forward))

pub Goes-Advanced : (d d' d'' : DecBuf) → Goes d d' → Advanced d' d'' → Advanced d d''
Goes-Advanced d d' d'' g (inl failed) = inl failed
Goes-Advanced d d' d'' g (inr (same, less)) = inr (omega (arith, g.same), omega (arith, g.forward))

invalid-Goes : (d : DecBuf) → Goes d (invalid_size d)
invalid-Goes d = record { same = refl; forward = omega arith; keeps = λ h. omega arith }

behind-Goes : (d : DecBuf) (n : ℕ) → Goes d (record d { index = d.index + n })
behind-Goes d n = record { same = refl; forward = omega arith; keeps = λ h. h }

get_fixed-Goes : (read : List ℕ → ℕ → ℕ) (n : ℕ) (d : DecBuf) → Goes d (get_fixed read n d).1
unfolding get_fixed
get_fixed-Goes read n d = elim (Bool-cases (not (d.err == no_err))) [
  | inl t ↦ rw t (Goes-refl d)
  | inr f ↦ elim (Bool-cases (ltb (d.size - d.index) n)) [
    | inl t ↦ rw (f, t) (invalid-Goes d)
    | inr f' ↦ rw (f, f') (behind-Goes d n)
  ]
]

get_fixed-Advanced :
    (read : List ℕ → ℕ → ℕ) (n : ℕ) (d : DecBuf) → 0 < n → Advanced d (get_fixed read n d).1
unfolding get_fixed
get_fixed-Advanced read n d pos = elim (Bool-cases (not (d.err == no_err))) [
  | inl t ↦ rw t (inl (ground arith))
  | inr f ↦ elim (Bool-cases (ltb (d.size - d.index) n)) [
    | inl t ↦ rw (f, t) (inl (omega arith))
    | inr f' ↦ rw (f, f') (inr (refl, omega (arith, pos)))
  ]
]

decoded-Goes :
    (d : DecBuf) (o : Option (ℕ × ℕ))
    → Goes d
        (elim o as (λ x. ℕ × DecBuf) [
          | none ↦ (0, invalid_size d)
          | some (r, decoded) ↦ (r, record d { index = d.index + decoded })
        ]).1
decoded-Goes d none = invalid-Goes d
decoded-Goes d (some (r, decoded)) = behind-Goes d decoded

get_variant-Goes : (decode : List ℕ → Option (ℕ × ℕ)) (d : DecBuf) → Goes d (get_variant decode d).1
unfolding get_variant
get_variant-Goes decode d = elim (Bool-cases (not (d.err == no_err))) [
  | inl t ↦ rw t (Goes-refl d)
  | inr f ↦ elim (Bool-cases (leb d.size d.index)) [
    | inl t ↦ rw (f, t) (invalid-Goes d)
    | inr f' ↦ rw (f, f') (decoded-Goes d (decode (take (d.size - d.index) (drop d.index d.b))))
  ]
]

get_rest-Goes : (len : ℕ) (d : DecBuf) → Goes d (get_rest (len, d)).1
unfolding get_rest
get_rest-Goes len d = elim (Bool-cases (not (d.err == no_err))) [
  | inl t ↦ rw t (Goes-refl d)
  | inr f ↦ elim (Bool-cases (ltb (d.size - d.index) len)) [
    | inl t ↦ rw (f, t) (invalid-Goes d)
    | inr f' ↦ rw (f, f') (behind-Goes d len)
  ]
]

pub get_be_uint64-Goes : (d : DecBuf) → Goes d (get_be_uint64 d).1
unfolding get_be_uint64
get_be_uint64-Goes d = get_fixed-Goes get_uint64_big_endian 8 d

pub get_be_uint64-Advanced : (d : DecBuf) → Advanced d (get_be_uint64 d).1
unfolding get_be_uint64
get_be_uint64-Advanced d = get_fixed-Advanced get_uint64_big_endian 8 d (omega arith)

pub get_unsigned_variant-Goes : (d : DecBuf) → Goes d (get_unsigned_variant d).1
unfolding get_unsigned_variant
get_unsigned_variant-Goes d = get_variant-Goes decode_unsigned_varint d

pub get_signed_variant-Goes : (d : DecBuf) → Goes d (get_signed_variant d).1
unfolding get_signed_variant
get_signed_variant-Goes d = get_variant-Goes decode_signed_varint d

pub get_uvariant_string-Goes : (d : DecBuf) → Goes d (get_uvariant_string d).1
unfolding get_uvariant_string
get_uvariant_string-Goes d =
    Goes-trans d (get_unsigned_variant d).1 _ (get_unsigned_variant-Goes d)
      (get_rest-Goes (get_unsigned_variant d).0 (get_unsigned_variant d).1)

pub get_byte-Goes : (d : DecBuf) → Goes d (get_byte d).1
unfolding get_byte
get_byte-Goes d = get_fixed-Goes (λ b at. get_or b at 0) 1 d
