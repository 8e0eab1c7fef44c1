-- ===== src/Common/Xor.antt =====
-- `bit_xor`, by the digit recursion that it stands for.
use Prim.Native.Nat.{ℕ, zero, suc, ◌+◌, ◌*◌, ◌/◌, ◌%◌, ◌≤◌, ◌<◌, ◌^◌}
use native.Mathlib.Nat.{pow-suc}
use Prim.Native.Nat.{bit_xor, bit_xor-bitwise, digits, differ}
use mathlib.Core.Path.{◌≡◌, refl}
use native.Mathlib.Omega.{arith}

abbrev xor_digits : ℕ → ℕ → ℕ → ℕ
xor_digits n a b = digits (λ y. y) differ n a b

xor_digits_fuel : (n m a b : ℕ) → a ≤ n → a ≤ m → xor_digits n a b ≡ xor_digits m a b
xor_digits_fuel zero zero a b p q = refl
xor_digits_fuel zero (suc m) zero b p q = refl
xor_digits_fuel zero (suc m) (suc a) b p q = absurd (omega arith)
xor_digits_fuel (suc n) zero zero b p q = refl
xor_digits_fuel (suc n) zero (suc a) b p q = absurd (omega arith)
xor_digits_fuel (suc n) (suc m) zero b p q = refl
xor_digits_fuel (suc n) (suc m) (suc a) b p q =
    omega (arith, xor_digits_fuel n m (suc a / 2) (b / 2) (omega arith) (omega arith))

zero-bit_xor : (b : ℕ) → bit_xor 0 b ≡ b
zero-bit_xor b = bit_xor-bitwise 0 b

bit_xor_step : (a b : ℕ) → bit_xor a b ≡ bit_xor (a / 2) (b / 2) * 2 + differ (a % 2) (b % 2)
bit_xor_step zero b = omega (arith, zero-bit_xor b, zero-bit_xor (b / 2))
bit_xor_step (suc a) b = omega (
  arith,
  bit_xor-bitwise (suc a) b,
  bit_xor-bitwise (suc a / 2) (b / 2),
  xor_digits_fuel a (suc a / 2) (suc a / 2) (b / 2) (omega arith) (omega arith),
)

differ_bits : (x y : ℕ) → x < 2 → y < 2 → (differ x y < 2) × (differ (differ x y) y ≡ x)
differ_bits zero zero p q = omega arith
differ_bits zero (suc zero) p q = omega arith
differ_bits (suc zero) zero p q = omega arith
differ_bits (suc zero) (suc zero) p q = omega arith
differ_bits zero (suc (suc y)) p q = absurd (omega arith)
differ_bits (suc zero) (suc (suc y)) p q = absurd (omega arith)
differ_bits (suc (suc x)) y p q = absurd (omega arith)

-- The step equation, read as quotient and remainder by 2.
xor_halves :
    (a b : ℕ)
    → (bit_xor a b / 2 ≡ bit_xor (a / 2) (b / 2)) × (bit_xor a b % 2 ≡ differ (a % 2) (b % 2))
xor_halves a b =
    omega (arith, bit_xor_step a b, differ_bits (a % 2) (b % 2) (omega arith) (omega arith))

xor_twice_fuel : (n a k : ℕ) → a + k ≤ n → bit_xor (bit_xor a k) k ≡ a
xor_twice_fuel zero zero zero h = refl
xor_twice_fuel zero (suc a) k h = absurd (omega arith)
xor_twice_fuel zero zero (suc k) h = absurd (omega arith)
xor_twice_fuel (suc n) zero zero h = refl
xor_twice_fuel (suc n) a k h = ground (
  arith,
  bit_xor_step (bit_xor a k) k,
  xor_halves a k,
  differ_bits (a % 2) (k % 2),
  xor_twice_fuel n (a / 2) (k / 2),
)

-- Applying the same key twice gives the number back.
pub xor_twice : (a k : ℕ) → bit_xor (bit_xor a k) k ≡ a
xor_twice a k = xor_twice_fuel (a + k) a k (omega arith)

-- The result fits the width of the operands.
pub xor_lt_pow : (w a b : ℕ) → a < 2 ^ w → b < 2 ^ w → bit_xor a b < 2 ^ w
xor_lt_pow zero zero zero p q = omega arith
xor_lt_pow zero (suc a) b p q = absurd (omega arith)
xor_lt_pow zero zero (suc b) p q = absurd (omega arith)
xor_lt_pow (suc w) a b p q = omega (
  arith,
  pow-suc 2 w,
  xor_lt_pow w (a / 2) (b / 2) (omega (arith, pow-suc 2 w)) (omega (arith, pow-suc 2 w)),
  xor_halves a b,
  differ_bits (a % 2) (b % 2) (omega arith) (omega arith),
)
