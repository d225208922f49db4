-- ===== src/Base/Endian/BigEndian.antt =====
-- Integers of fixed width: their bytes, and reading them back.
use prom_tcs.Prelude.{
  ℕ, ◌+◌, ◌/◌, ◌%◌, ◌^◌, ◌≡◌, sym, ap, ◌∙◌, List, [], ◌∷◌, ◌++◌, arith, drop, get_or, get_or-drop,
  IsU64, ◌<◌,
}
use prom_tcs.Base.Endian.{get_uint32_big_endian, get_uint64_big_endian}

abbrev pub be16 : ℕ → List ℕ
be16 v = v / 2 ^ 8 % 256 ∷ v % 256 ∷ []

abbrev pub be32 : ℕ → List ℕ
be32 v = v / 2 ^ 24 % 256 ∷ v / 2 ^ 16 % 256 ∷ v / 2 ^ 8 % 256 ∷ v % 256 ∷ []

abbrev pub be64 : ℕ → List ℕ
be64 v =
    v / 2 ^ 56 % 256
    ∷ v / 2 ^ 48 % 256
    ∷ v / 2 ^ 40 % 256
    ∷ v / 2 ^ 32 % 256
    ∷ v / 2 ^ 24 % 256
    ∷ v / 2 ^ 16 % 256
    ∷ v / 2 ^ 8 % 256
    ∷ v % 256
    ∷ []

-- The `k`-th byte of what is next.
byte_at : (b bytes : List ℕ) (at k : ℕ) → drop at b ≡ bytes → get_or b (at + k) 0 ≡ get_or bytes k 0
byte_at b bytes at k e = sym (get_or-drop at k b 0) ∙ ap (λ (l : List ℕ). get_or l k 0) e

pub get_uint32_lem :
    (b rest : List ℕ) (at v : ℕ)
    → v < 2 ^ 32
    → drop at b ≡ be32 v ++ rest
    → get_uint32_big_endian b at ≡ v
unfolding get_uint32_big_endian
get_uint32_lem b rest at v h e =
    let here : at + 0 ≡ at = omega arith in
    omega (
      arith,
      ap (λ (i : ℕ). get_or b i 0) here,
      byte_at b (be32 v ++ rest) at 0 e,
      byte_at b (be32 v ++ rest) at 1 e,
      byte_at b (be32 v ++ rest) at 2 e,
      byte_at b (be32 v ++ rest) at 3 e,
    )

pub get_uint64_lem :
    (b rest : List ℕ) (at v : ℕ)
    → IsU64 v
    → drop at b ≡ be64 v ++ rest
    → get_uint64_big_endian b at ≡ v
unfolding get_uint64_big_endian
get_uint64_lem b rest at v h e =
    let here : at + 0 ≡ at = omega arith in
    let byte = λ (k : ℕ). byte_at b (be64 v ++ rest) at k e in
    omega (
      arith,
      ap (λ (i : ℕ). get_or b i 0) here,
      byte 0,
      byte 1,
      byte 2,
      byte 3,
      byte 4,
      byte 5,
      byte 6,
      byte 7,
    )
