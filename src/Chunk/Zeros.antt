-- ===== src/Chunk/Zeros.antt =====
-- `__builtin_clzll` and `__builtin_ctzll`, which chunk/XORAppender.cpp calls on numbers other than 0,
-- and what the zeros at both ends of a number say of it.
use native.Mathlib.Nat.{
  pow-suc, one-le-pow, pow-le-pow_right, div-add-mod', mod-lt, mul-le-mul_right,
}
use prom_tcs.Prelude.{
  ℕ, zero, suc, ◌+◌, ◌-◌, ◌*◌, ◌/◌, ◌%◌, ◌^◌, ◌≤◌, ◌<◌, ◌≡◌, sym, ap, ◌∙◌, arith, ◌==◌,
  if◌then◌else◌, Bool-cases, inl, inr, leb,
}
use prom_tcs.Prelude.Digits.{pow_add, half_div, div_fields}

-- The zeros in front, among the lowest `width` digits.
unfoldable pub leading_zeros : ℕ → ℕ → ℕ
leading_zeros zero v = 0
leading_zeros (suc width) v =
    let more = suc (leading_zeros width v) in if v / 2 ^ width == 0 then more else 0

-- The zeros at the end, among the lowest `width` digits.
unfoldable pub trailing_zeros : ℕ → ℕ → ℕ
trailing_zeros zero v = 0
trailing_zeros (suc width) v =
    let more = suc (trailing_zeros width (v / 2)) in if v % 2 == 0 then more else 0

abbrev pub clz : ℕ → ℕ
clz v = leading_zeros 64 v

abbrev pub ctz : ℕ → ℕ
ctz v = trailing_zeros 64 v

lt_of_no_quotient : (n v : ℕ) → v / 2 ^ n ≡ 0 → v < 2 ^ n
lt_of_no_quotient n v e = omega (
  arith,
  div-add-mod' v (2 ^ n),
  mod-lt v (one-le-pow n 2 (omega arith)),
  ap (λ (t : ℕ). t * 2 ^ n) e,
)

pub leading_zeros-lt :
    (width v : ℕ)
    → v < 2 ^ width
    → (leading_zeros width v ≤ width) × (v < 2 ^ (width - leading_zeros width v))
unfolding leading_zeros
leading_zeros-lt zero v h = (omega arith, h)
leading_zeros-lt (suc width) v h = elim (Bool-cases (v / 2 ^ width == 0)) [
  | inr f ↦ let same : suc width - 0 ≡ suc width = omega arith in rw (f, same) (omega arith, h)
  | inl t ↦
      let (le, lt) = leading_zeros-lt width v (lt_of_no_quotient width v (ground arith)) in
      let same : suc width - suc (leading_zeros width v) ≡ width - leading_zeros width v =
        omega arith in
      rw (t, same) (omega (arith, le), lt)
]

-- A number without its zeros at the end.
pub trailing_zeros-exact :
    (width v : ℕ) → v / 2 ^ trailing_zeros width v * 2 ^ trailing_zeros width v ≡ v
unfolding trailing_zeros
trailing_zeros-exact zero v = omega arith
trailing_zeros-exact (suc width) v = elim (Bool-cases (v % 2 == 0)) [
  | inr f ↦ rw f (omega arith)
  | inl t ↦
      let z = trailing_zeros width (v / 2) in
      let even : v % 2 ≡ 0 = ground arith in
      rw t (
        ap (λ (q : ℕ). q * 2 ^ suc z) (sym (half_div v z))
        ∙ ap (λ (q : ℕ). v / 2 / 2 ^ z * q) (pow-suc 2 z)
        ∙ omega (arith, trailing_zeros-exact width (v / 2), even))
]

-- Fewer digits can be cut off as well.
pub cut_exact : (t z v : ℕ) → t ≤ z → v / 2 ^ z * 2 ^ z ≡ v → v / 2 ^ t * 2 ^ t ≡ v
cut_exact t z v le e =
    let q = v / 2 ^ z * 2 ^ (z - t) in
    let back : z ≡ (z - t) + t = omega arith in
    let split : q * 2 ^ t ≡ v = omega (
      arith,
      e,
      ap (λ (k : ℕ). v / 2 ^ z * 2 ^ k) back,
      ap (λ (k : ℕ). v / 2 ^ z * k) (pow_add (z - t) t),
    ) in
    let quotient : v / 2 ^ t ≡ q =
      ap (λ (k : ℕ). k / 2 ^ t) (sym split ∙ omega arith)
      ∙ div_fields t q 0 (one-le-pow t 2 (omega arith)) in
    rw quotient split

-- The zeros at both ends leave a digit.
pub zeros_leave : (v : ℕ) → 0 < v → v < 2 ^ 64 → clz v + ctz v ≤ 63
zeros_leave v pos h = elim (Bool-cases (leb (clz v + ctz v) 63)) [
  | inl t ↦ ground arith
  | inr f ↦
      let (le, lt) = leading_zeros-lt 64 v h in
      let exact = trailing_zeros-exact 64 v in
      let order : 2 ^ (64 - clz v) ≤ 2 ^ ctz v =
        pow-le-pow_right {n = 2} (omega arith) (ground arith) in
      let large : 2 ^ ctz v ≤ v = elim (Bool-cases (v / 2 ^ ctz v == 0)) [
        | inl none_left ↦
            let gone : v / 2 ^ ctz v ≡ 0 = ground arith in
            absurd (omega (arith, exact, pos, ap (λ (q : ℕ). q * 2 ^ ctz v) gone))
        | inr some_left ↦
            let there : 1 ≤ v / 2 ^ ctz v = ground arith in
            omega (arith, exact, mul-le-mul_right (2 ^ ctz v) there)
      ] in
      absurd (omega (arith, lt, order, large))
]
