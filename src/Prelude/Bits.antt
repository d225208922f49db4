-- ===== src/Prelude/Bits.antt =====
-- Laws of `bit_and`, `bit_or` and `bit_xor` at variables, from one equation for the lowest digit.
use Prim.Native.Nat.{
  ℕ, zero, suc, ◌+◌, ◌-◌, ◌*◌, ◌/◌, ◌%◌, ◌^◌, ◌≤◌, ◌<◌, min, max, bit_and, bit_or, bit_xor, digits,
  bit_and-bitwise, bit_or-bitwise, bit_xor-bitwise, differ,
}
use mathlib.Core.Path.{ap₂, ◌≡◌, refl, ap, sym, ◌∙◌}
use native.Mathlib.Omega.{arith}
use native.Mathlib.Nat.{pow-suc, one-le-pow, div-div-eq-div-mul}

module _ (z : ℕ → ℕ) (f : ℕ → ℕ → ℕ) where
  -- Fuel beyond the first number changes nothing.
  digits_fuel : (k l a b : ℕ) → a ≤ k → a ≤ l → digits z f k a b ≡ digits z f l a b
  digits_fuel zero zero a b p q = refl
  digits_fuel zero (suc l) zero b p q = refl
  digits_fuel zero (suc l) (suc a) b p q = absurd (omega arith)
  digits_fuel (suc k) zero zero b p q = refl
  digits_fuel (suc k) zero (suc a) b p q = absurd (omega arith)
  digits_fuel (suc k) (suc l) zero b p q = refl
  digits_fuel (suc k) (suc l) (suc a) b p q =
      ap (λ (t : ℕ). t * 2 + f (suc a % 2) (b % 2))
        (digits_fuel k l (suc a / 2) (b / 2) (omega arith) (omega arith))

  digits_step :
      (a b : ℕ)
      → digits z f (suc a) (suc a) b
        ≡ digits z f (suc a / 2) (suc a / 2) (b / 2) * 2 + f (suc a % 2) (b % 2)
  digits_step a b =
      ap (λ (t : ℕ). t * 2 + f (suc a % 2) (b % 2))
        (digits_fuel a (suc a / 2) (suc a / 2) (b / 2) (omega arith) (omega arith))

pub bit_xor_step : (a b : ℕ) → bit_xor a b ≡ bit_xor (a / 2) (b / 2) * 2 + differ (a % 2) (b % 2)
bit_xor_step zero y = simp bit_xor-bitwise (omega arith)
bit_xor_step (suc x) y = simp bit_xor-bitwise (digits_step (λ r. r) differ x y)

pub bit_and_step : (x y : ℕ) → bit_and x y ≡ bit_and (x / 2) (y / 2) * 2 + min (x % 2) (y % 2)
bit_and_step (suc x) y = simp bit_and-bitwise (digits_step (λ r. 0) min x y)
bit_and_step zero y = simp bit_and-bitwise (omega arith)

pub bit_or_step : (x y : ℕ) → bit_or x y ≡ bit_or (x / 2) (y / 2) * 2 + max (x % 2) (y % 2)
bit_or_step (suc x) y = simp bit_or-bitwise (digits_step (λ r. r) max x y)
bit_or_step zero y = simp bit_or-bitwise (omega arith)

-- Zero on the right.
bit_or-zero : (k a : ℕ) → a ≤ k → bit_or a 0 ≡ a
bit_or-zero k zero h = refl
bit_or-zero zero (suc a) h = absurd (omega arith)
bit_or-zero (suc k) (suc a) h =
    omega (arith, bit_or_step (suc a) 0, bit_or-zero k (suc a / 2) (omega arith))

bit_and-zero : (k a : ℕ) → a ≤ k → bit_and a 0 ≡ 0
bit_and-zero k zero h = refl
bit_and-zero zero (suc a) h = absurd (omega arith)
bit_and-zero (suc k) (suc a) h =
    omega (arith, bit_and_step (suc a) 0, bit_and-zero k (suc a / 2) (omega arith))

and-zero : (a : ℕ) → bit_and a 0 ≡ 0
and-zero a = bit_and-zero a a (omega arith)

half_div : (a k : ℕ) → a / 2 / 2 ^ k ≡ a / 2 ^ suc k
half_div a k = div-div-eq-div-mul a 2 (2 ^ k) ∙ ap (λ (t : ℕ). a / t) (omega (arith, pow-suc 2 k))

double_pow : (q k : ℕ) → q * 2 ^ suc k ≡ 2 * (q * 2 ^ k)
double_pow q k = omega (arith, ap (λ (t : ℕ). q * t) (pow-suc 2 k))

-- Fields that do not overlap are joined by addition.
pub bit_or_disjoint : (k q r : ℕ) → r < 2 ^ k → bit_or (q * 2 ^ k) r ≡ q * 2 ^ k + r
bit_or_disjoint zero q r h = ground (arith, bit_or-zero q q)
bit_or_disjoint (suc k) q r h = ground (
  arith,
  bit_or_step (q * 2 ^ suc k) r,
  double_pow q k,
  pow-suc 2 k,
  bit_or_disjoint k q (r / 2) (omega (arith, pow-suc 2 k)),
)

pub bit_or_disjoint_left : (k q r : ℕ) → r < 2 ^ k → bit_or r (q * 2 ^ k) ≡ q * 2 ^ k + r
bit_or_disjoint_left zero zero zero h = refl
bit_or_disjoint_left zero q zero h = omega (arith, bit_or-bitwise 0 (q * 1))
bit_or_disjoint_left zero q (suc r) h = absurd (omega arith)
bit_or_disjoint_left (suc k) q r h = ground (
  arith,
  bit_or_step r (q * 2 ^ suc k),
  double_pow q k,
  pow-suc 2 k,
  bit_or_disjoint_left k q (r / 2) (omega (arith, pow-suc 2 k)),
)

and_low : (k q r : ℕ) → r < 2 ^ k → bit_and (q * 2 ^ k + r) (2 ^ k - 1) ≡ r
and_low zero q r h = ground (arith, and-zero q)
and_low (suc k) q r h = ground (
  arith,
  bit_and_step (q * 2 ^ suc k + r) (2 ^ suc k - 1),
  double_pow q k,
  pow-suc 2 k,
  one-le-pow k 2,
  and_low k q (r / 2) (omega (arith, pow-suc 2 k)),
)

-- A mask of `k` ones is the remainder by `2 ^ k`.
pub bit_and_mask : (k a : ℕ) → bit_and a (2 ^ k - 1) ≡ a % 2 ^ k
bit_and_mask k a = ground (arith, one-le-pow k 2, and_low k (a / 2 ^ k) (a % 2 ^ k))

-- A mask of one bit.
and_even : (a m : ℕ) → bit_and a (m * 2) ≡ bit_and (a / 2) m * 2
and_even a m = omega (
  arith,
  bit_and_step a (m * 2),
  ap (λ (t : ℕ). bit_and (a / 2) t) (let e : m * 2 / 2 ≡ m = omega arith in e),
)

and_one : (a : ℕ) → bit_and a 1 ≡ a % 2
and_one a = omega (arith, bit_and_step a 1, and-zero (a / 2))

pub bit_and_pow : (k a : ℕ) → bit_and a (2 ^ k) ≡ a / 2 ^ k % 2 * 2 ^ k
bit_and_pow zero a = omega (arith, and_one a)
bit_and_pow (suc k) a = omega (
  arith,
  ap (bit_and a) (pow-suc 2 k),
  and_even a (2 ^ k),
  bit_and_pow k (a / 2),
  pow-suc 2 k,
  half_div a k,
  double_pow (a / 2 ^ suc k % 2) k,
  ap (λ (t : ℕ). t % 2 * 2 ^ k) (half_div a k),
)

-- Bit 7.
pub bit_and_bit7 : (a : ℕ) → bit_and a 0x80 ≡ a / 128 % 2 * 128
bit_and_bit7 a = bit_and_pow 7 a

xor_digit : (x y : ℕ) → x < 2 → y < 2 → (differ (differ x y) y ≡ x) × (differ x y < 2)
xor_digit zero zero p q = (refl, omega arith)
xor_digit zero (suc zero) p q = (refl, omega arith)
xor_digit (suc zero) zero p q = (refl, omega arith)
xor_digit (suc zero) (suc zero) p q = (refl, omega arith)
xor_digit zero (suc (suc y)) p q = absurd (omega arith)
xor_digit (suc zero) (suc (suc y)) p q = absurd (omega arith)
xor_digit (suc (suc x)) y p q = absurd (omega arith)

xor_laws :
    (k a b : ℕ) → a < 2 ^ k → b < 2 ^ k → (bit_xor (bit_xor a b) b ≡ a) × (bit_xor a b < 2 ^ k)
xor_laws zero zero zero p q = (refl, omega arith)
xor_laws zero zero (suc b) p q = absurd (omega arith)
xor_laws zero (suc a) b p q = absurd (omega arith)
xor_laws (suc k) a b p q =
    let halves =
      xor_laws k (a / 2) (b / 2) (omega (arith, pow-suc 2 k)) (omega (arith, pow-suc 2 k)) in
    let digit = xor_digit (a % 2) (b % 2) (omega arith) (omega arith) in
    let step = bit_xor_step a b in
    let half : bit_xor a b / 2 ≡ bit_xor (a / 2) (b / 2) = omega (arith, step, digit) in
    let low : bit_xor a b % 2 ≡ differ (a % 2) (b % 2) = omega (arith, step, digit) in
    (
      rw (bit_xor_step (bit_xor a b) b) (rw (half, low, halves.0, digit.0) (omega arith)),
      omega (arith, step, digit, halves, pow-suc 2 k),
    )

-- XOR with the same number twice gives the number back, at every width.
pub bit_xor_cancel : (k a b : ℕ) → a < 2 ^ k → b < 2 ^ k → bit_xor (bit_xor a b) b ≡ a
bit_xor_cancel k a b p q = (xor_laws k a b p q).0

pub bit_xor-lt : (k a b : ℕ) → a < 2 ^ k → b < 2 ^ k → bit_xor a b < 2 ^ k
bit_xor-lt k a b p q = (xor_laws k a b p q).1

-- Only equal numbers differ in no bit.
pub eq_of_bit_xor-zero : (k a b : ℕ) → a < 2 ^ k → b < 2 ^ k → bit_xor a b ≡ 0 → a ≡ b
eq_of_bit_xor-zero k a b p q e =
    sym (bit_xor_cancel k a b p q) ∙ ap (λ (t : ℕ). bit_xor t b) e ∙ bit_xor-bitwise 0 b

differ_comm : (x y : ℕ) → x < 2 → y < 2 → differ x y ≡ differ y x
differ_comm zero zero p q = refl
differ_comm zero (suc zero) p q = refl
differ_comm (suc zero) zero p q = refl
differ_comm (suc zero) (suc zero) p q = refl
differ_comm zero (suc (suc y)) p q = absurd (omega arith)
differ_comm (suc zero) (suc (suc y)) p q = absurd (omega arith)
differ_comm (suc (suc x)) y p q = absurd (omega arith)

pub bit_xor_comm : (k a b : ℕ) → a < 2 ^ k → b < 2 ^ k → bit_xor a b ≡ bit_xor b a
bit_xor_comm zero zero zero p q = refl
bit_xor_comm zero zero (suc b) p q = absurd (omega arith)
bit_xor_comm zero (suc a) b p q = absurd (omega arith)
bit_xor_comm (suc k) a b p q =
    rw (bit_xor_step a b, bit_xor_step b a)
      (ap₂ (λ (x y : ℕ). x * 2 + y)
        (bit_xor_comm k (a / 2) (b / 2) (omega (arith, pow-suc 2 k)) (omega (arith, pow-suc 2 k)))
        (differ_comm (a % 2) (b % 2) (omega arith) (omega arith)))
