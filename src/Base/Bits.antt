-- ===== src/Base/Bits.antt =====
-- `x |= d` where the bits of `d` are clear in `x` is a sum.
use Prim.Native.Nat.{
  ℕ, zero, suc, ◌+◌, ◌*◌, ◌/◌, ◌%◌, ◌≤◌, ◌<◌, max, bit_or, digits, bit_or-bitwise,
}
use mathlib.Core.Path.{◌≡◌, refl, ap}
use native.Mathlib.Omega.{arith}

abbrev or_digits : ℕ → ℕ → ℕ → ℕ
or_digits n a b = digits (λ x. x) max n a b

or_digits_fuel : (n m a b : ℕ) → a ≤ n → a ≤ m → or_digits n a b ≡ or_digits m a b
or_digits_fuel zero zero a b p q = refl
or_digits_fuel zero (suc m) zero b p q = refl
or_digits_fuel zero (suc m) (suc a) b p q = absurd (omega arith)
or_digits_fuel (suc n) zero zero b p q = refl
or_digits_fuel (suc n) zero (suc a) b p q = absurd (omega arith)
or_digits_fuel (suc n) (suc m) zero b p q = refl
or_digits_fuel (suc n) (suc m) (suc a) b p q =
    omega (arith, or_digits_fuel n m (suc a / 2) (b / 2) (omega arith) (omega arith))

zero-bit_or : (b : ℕ) → bit_or 0 b ≡ b
zero-bit_or b = bit_or-bitwise 0 b

bit_or_step : (a b : ℕ) → bit_or a b ≡ bit_or (a / 2) (b / 2) * 2 + max (a % 2) (b % 2)
bit_or_step zero b = omega (arith, zero-bit_or b, zero-bit_or (b / 2))
bit_or_step (suc a) b = omega (
  arith,
  bit_or-bitwise (suc a) b,
  bit_or-bitwise (suc a / 2) (b / 2),
  or_digits_fuel a (suc a / 2) (suc a / 2) (b / 2) (omega arith) (omega arith),
)

bit_or-zero_fuel : (n a : ℕ) → a ≤ n → bit_or a 0 ≡ a
bit_or-zero_fuel n zero h = refl
bit_or-zero_fuel zero (suc a) h = absurd (omega arith)
bit_or-zero_fuel (suc n) (suc a) h =
    omega (arith, bit_or_step (suc a) 0, bit_or-zero_fuel n (suc a / 2) (omega arith))

bit_or_even : (q d : ℕ) → bit_or (q * 2) d ≡ bit_or q (d / 2) * 2 + d % 2
bit_or_even q d =
    let half : q * 2 / 2 ≡ q = omega arith in
    let e = bit_or_step (q * 2) d in omega (arith, e, ap (λ x. bit_or x (d / 2)) half)

-- A digit of 16 behind a number that is moved by one digit.
pub bit_or_hex : (q d : ℕ) → d < 16 → bit_or (q * 16) d ≡ q * 16 + d
bit_or_hex q d h =
    let s1 : q * 8 * 2 ≡ q * 16 = omega arith in
    let s2 : q * 4 * 2 ≡ q * 8 = omega arith in
    let s3 : q * 2 * 2 ≡ q * 4 = omega arith in
    let none_left : d / 2 / 2 / 2 / 2 ≡ 0 = omega arith in
    let e1 = rw s1 at (bit_or_even (q * 8) d) in
    let e2 = rw s2 at (bit_or_even (q * 4) (d / 2)) in
    let e3 = rw s3 at (bit_or_even (q * 2) (d / 2 / 2)) in
    let e4 =
      rw (none_left, bit_or-zero_fuel q q (omega arith)) at (bit_or_even q (d / 2 / 2 / 2)) in
    omega (arith, e1, e2, e3, e4)
