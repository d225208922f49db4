-- ===== src/Prelude/Digits.antt =====
-- The binary digits of a number, highest first, and what shifts and masks do to them.
use Prim.Native.Nat.{ℕ, zero, suc, ◌+◌, ◌*◌, ◌/◌, ◌%◌, ◌^◌, ◌<◌}
use mathlib.Core.Path.{◌≡◌, refl, ap, sym, ◌∙◌}
use mathlib.Core.Bool.{Bool}
use mathlib.Core.List.{List, [], ◌∷◌, ◌++◌, append_assoc, append-nil}
use native.Mathlib.Omega.{arith}
use native.Mathlib.Nat.{
  pow-suc, one-le-pow, div-div-eq-div-mul, div-add-mod', mod-lt, mod-eq_of_lt,
  add-mul-mod_self_right, mul-add-div_right, div-eq_of_lt, div-lt_iff_lt-mul, mul-le-mul_right,
}
use prom_tcs.Prelude.Tests.{◌==◌, if◌then◌else◌}
use prom_tcs.Prelude.Lists.{length, length-append}

-- The lowest digit.
abbrev pub is_odd : ℕ → Bool
is_odd v = v % 2 == 1

-- The lowest `n` digits of `v`, the highest of them first.
unfoldable pub bits_be : ℕ → ℕ → List Bool
bits_be zero v = []
bits_be (suc n) v = bits_be n (v / 2) ++ is_odd v ∷ []

-- Eight digits of each byte.
unfoldable pub bits_of : List ℕ → List Bool
bits_of [] = []
bits_of (x ∷ xs) = bits_be 8 x ++ bits_of xs

pub half_div : (v n : ℕ) → v / 2 / 2 ^ n ≡ v / 2 ^ suc n
half_div v n = div-div-eq-div-mul v 2 (2 ^ n) ∙ ap (λ (t : ℕ). v / t) (omega (arith, pow-suc 2 n))

pub length-bits_be : (n v : ℕ) → length (bits_be n v) ≡ n
unfolding bits_be
length-bits_be zero v = refl
length-bits_be (suc n) v =
    omega (arith, length-append (bits_be n (v / 2)) (is_odd v ∷ []), length-bits_be n (v / 2))

-- The highest `m` of `k` digits, and the lowest `n`.
pub bits_be_split : (m n k v : ℕ) → k ≡ n + m → bits_be k v ≡ bits_be m (v / 2 ^ n) ++ bits_be n v
unfolding bits_be
bits_be_split m zero k v e =
    let same : k ≡ m = omega arith in rw (same, append-nil) (ap (bits_be m) (omega arith))
bits_be_split m (suc n) zero v e = absurd (omega arith)
bits_be_split m (suc n) (suc k) v e =
    rw (bits_be_split m n k (v / 2) (omega arith), half_div)
      (append_assoc (bits_be m (v / 2 ^ suc n)) (bits_be n (v / 2)) (is_odd v ∷ []))

mod_half : (v n : ℕ) → v % 2 ^ suc n ≡ v / 2 % 2 ^ n * 2 + v % 2
mod_half v n =
    ap (λ (t : ℕ). t % 2 ^ suc n) whole
    ∙ add-mul-mod_self_right (v / 2 % 2 ^ n * 2 + v % 2) (v / 2 / 2 ^ n) (2 ^ suc n)
    ∙ mod-eq_of_lt (omega (arith, mod-lt (v / 2) (one-le-pow n 2 (omega arith)), pow-suc 2 n))
  where
    whole : v ≡ v / 2 % 2 ^ n * 2 + v % 2 + v / 2 / 2 ^ n * 2 ^ suc n
    whole =
        omega (arith, div-add-mod' (v / 2) (2 ^ n), ap (λ (t : ℕ). v / 2 / 2 ^ n * t) (pow-suc 2 n))

-- Digits above the ones that are read do not matter.
pub bits_be-mod : (n v : ℕ) → bits_be n (v % 2 ^ n) ≡ bits_be n v
unfolding bits_be
bits_be-mod zero v = refl
bits_be-mod (suc n) v =
    let low : v % 2 ^ suc n % 2 ≡ v % 2 = omega (arith, mod_half v n) in
    let high : v % 2 ^ suc n / 2 ≡ v / 2 % 2 ^ n = omega (arith, mod_half v n) in
    rw (low, high, bits_be-mod n (v / 2))

pub mod_fields : (n q r : ℕ) → r < 2 ^ n → (q * 2 ^ n + r) % 2 ^ n ≡ r
mod_fields n q r h =
    ap (λ (t : ℕ). t % 2 ^ n) (omega arith) ∙ add-mul-mod_self_right r q (2 ^ n) ∙ mod-eq_of_lt h

pub div_fields : (n q r : ℕ) → r < 2 ^ n → (q * 2 ^ n + r) / 2 ^ n ≡ q
div_fields n q r h =
    mul-add-div_right (one-le-pow n 2 (omega arith)) q r ∙ omega (arith, div-eq_of_lt h)

pub pow_add : (m n : ℕ) → 2 ^ (m + n) ≡ 2 ^ m * 2 ^ n
pow_add m zero = let e : m + 0 ≡ m = omega arith in rw e (omega arith)
pow_add m (suc n) =
    let e : m + suc n ≡ suc (m + n) = omega arith in
    rw e (
      omega (
        arith,
        pow-suc 2 (m + n),
        pow-suc 2 n,
        pow_add m n,
        ap (λ (t : ℕ). 2 ^ m * t) (pow-suc 2 n),
      ))

pub fields-lt : (m n k q r : ℕ) → k ≡ m + n → q < 2 ^ m → r < 2 ^ n → q * 2 ^ n + r < 2 ^ k
fields-lt m n k q r e p h = rw (e, pow_add) (omega (arith, mul-le-mul_right (2 ^ n) p))

pub div-lt_pow : (m n k v : ℕ) → k ≡ m + n → v < 2 ^ k → v / 2 ^ n < 2 ^ m
div-lt_pow m n k v e h = (div-lt_iff_lt-mul (one-le-pow n 2 (omega arith))).1 (rw (e, pow_add) at h)

-- Shifting left within `k` digits keeps the lowest `m` digits.
pub shift_mod : (m n k v : ℕ) → k ≡ m + n → v * 2 ^ n % 2 ^ k ≡ v % 2 ^ m * 2 ^ n
shift_mod m n k v e = ap (λ (t : ℕ). t % 2 ^ k) whole ∙ mod_fields k (v / 2 ^ m) _ small
  where
    whole : v * 2 ^ n ≡ v / 2 ^ m * 2 ^ k + v % 2 ^ m * 2 ^ n
    whole = rw (e, pow_add) (omega (arith, ap (λ (t : ℕ). t * 2 ^ n) (div-add-mod' v (2 ^ m))))

    small : v % 2 ^ m * 2 ^ n < 2 ^ k
    small = omega (
      arith,
      fields-lt m n k (v % 2 ^ m) 0 e (mod-lt v (one-le-pow m 2 (omega arith)))
          (one-le-pow n 2 (omega arith)),
    )

-- The digits of a number made of two fields.
pub bits_be_fields :
    (m n k q r : ℕ) → k ≡ n + m → r < 2 ^ n → bits_be k (q * 2 ^ n + r) ≡ bits_be m q ++ bits_be n r
bits_be_fields m n k q r e h =
    rw (bits_be_split m n k (q * 2 ^ n + r) e, div_fields n q r h)
      (ap (◌++◌ (bits_be m q)) (sym (bits_be-mod n _) ∙ ap (bits_be n) (mod_fields n q r h)))

-- The number that some digits stand for, read into `acc` from the highest on.
pub of_bits : ℕ → List Bool → ℕ
of_bits acc [] = acc
of_bits acc (b ∷ bs) = of_bits (acc * 2 + (if b then 1 else 0)) bs

of_bits-append :
    (acc : ℕ) (bs cs : List Bool) → of_bits acc (bs ++ cs) ≡ of_bits (of_bits acc bs) cs
unfolding of_bits
of_bits-append acc [] cs = refl
of_bits-append acc (b ∷ bs) cs = of_bits-append (acc * 2 + (if b then 1 else 0)) bs cs

of_bits-bits_be : (n v acc : ℕ) → v < 2 ^ n → of_bits acc (bits_be n v) ≡ acc * 2 ^ n + v
unfolding of_bits bits_be
of_bits-bits_be zero v acc h = omega arith
of_bits-bits_be (suc n) v acc h =
    of_bits-append acc (bits_be n (v / 2)) (is_odd v ∷ [])
    ∙ rw (of_bits-bits_be n (v / 2) acc (omega (arith, pow-suc 2 n)))
        (ground (arith, ap (λ (t : ℕ). acc * t) (pow-suc 2 n)))

-- Two numbers with the same digits are equal.
pub eq_of_bits_be : (n v w : ℕ) → v < 2 ^ n → w < 2 ^ n → bits_be n v ≡ bits_be n w → v ≡ w
eq_of_bits_be n v w p q e =
    omega (arith, of_bits-bits_be n v 0 p, of_bits-bits_be n w 0 q, ap (of_bits 0) e)

pub bits_of-append : (xs ys : List ℕ) → bits_of (xs ++ ys) ≡ bits_of xs ++ bits_of ys
unfolding bits_of
bits_of-append [] ys = refl
bits_of-append (x ∷ xs) ys =
    rw (bits_of-append xs ys) (sym (append_assoc (bits_be 8 x) (bits_of xs) (bits_of ys)))
