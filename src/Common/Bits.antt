-- ===== src/Common/Bits.antt =====
-- The bitwise or of a shifted number and a number below the shift is their sum. The libraries have
-- no law of `bit_or` at variables.
use Prim.Native.Nat.{
  ℕ, zero, suc, ◌+◌, ◌*◌, ◌/◌, ◌%◌, ◌^◌, ◌≤◌, ◌<◌, max, bit_or, digits, bit_or-bitwise,
}
use mathlib.Core.Path.{◌≡◌, refl}
use native.Mathlib.Omega.{arith}
use native.Mathlib.Nat.{pow-suc, mul_assoc, mul-one, add-zero}

abbrev or_digits : ℕ → ℕ → ℕ → ℕ
or_digits n a b = digits (λ b. b) max n a b

or_digits_fuel : (n m a b : ℕ) → a ≤ n → a ≤ m → or_digits n a b ≡ or_digits m a b
or_digits_fuel zero zero a b p q = refl
or_digits_fuel zero (suc m) zero b p q = refl
or_digits_fuel zero (suc m) (suc a) b p q = absurd (omega arith)
or_digits_fuel (suc n) zero zero b p q = refl
or_digits_fuel (suc n) zero (suc a) b p q = absurd (omega arith)
or_digits_fuel (suc n) (suc m) zero b p q = refl
or_digits_fuel (suc n) (suc m) (suc a) b p q =
    omega (arith, or_digits_fuel n m (suc a / 2) (b / 2) (omega arith) (omega arith))

zero-bit_or : (b : ℕ) → bit_or 0 b ≡ b
zero-bit_or b = bit_or-bitwise 0 b

bit_or_step : (a b : ℕ) → bit_or a b ≡ bit_or (a / 2) (b / 2) * 2 + max (a % 2) (b % 2)
bit_or_step zero b = omega (arith, zero-bit_or b, zero-bit_or (b / 2))
bit_or_step (suc a) b = omega (
  arith,
  bit_or-bitwise (suc a) b,
  bit_or-bitwise (suc a / 2) (b / 2),
  or_digits_fuel a (suc a / 2) (suc a / 2) (b / 2) (omega arith) (omega arith),
)

bit_or-zero_fuel : (n a : ℕ) → a ≤ n → bit_or a 0 ≡ a
bit_or-zero_fuel n zero h = refl
bit_or-zero_fuel zero (suc a) h = absurd (omega arith)
bit_or-zero_fuel (suc n) (suc a) h =
    omega (arith, bit_or_step (suc a) 0, bit_or-zero_fuel n (suc a / 2) (omega arith))

bit_or_double : (y b : ℕ) → bit_or y (b / 2) ≡ y + b / 2 → bit_or (y * 2) b ≡ y * 2 + b
bit_or_double y b h =
    let half : y * 2 / 2 ≡ y = omega arith in omega (arith, rw half at (bit_or_step (y * 2) b))

-- `(x << k) | b` for `b < 2^k`.
bit_or_shifted : (k x b : ℕ) → b < 2 ^ k → bit_or (x * 2 ^ k) b ≡ x * 2 ^ k + b
bit_or_shifted zero x zero h = rw (mul-one, add-zero) (bit_or-zero_fuel x x (omega arith))
bit_or_shifted zero x (suc b) h = absurd (omega arith)
bit_or_shifted (suc k) x b h =
    rw (pow-suc 2 k, ← mul_assoc)
      (bit_or_double (x * 2 ^ k) b (bit_or_shifted k x (b / 2) (omega (arith, pow-suc 2 k))))

pub bit_or-add : (k x : ℕ) {a b : ℕ} → a ≡ x * 2 ^ k → b < 2 ^ k → bit_or a b ≡ a + b
bit_or-add k x e h = rw e (bit_or_shifted k x _ h)
