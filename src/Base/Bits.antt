-- ===== src/Base/Bits.antt =====
-- The bitwise or of numbers that have no binary digit in common.
use Prim.Native.Nat.{
  ℕ, zero, suc, ◌+◌, ◌*◌, ◌/◌, ◌%◌, ◌^◌, ◌≤◌, ◌<◌, max, bit_or, digits, bit_or-bitwise,
}
use mathlib.Core.Path.{◌≡◌, refl, ◌∙◌, ap}
use native.Mathlib.Numerals.{unary_clauses}
use native.Mathlib.Omega.{arith}

abbrev or_digits : ℕ → ℕ → ℕ → ℕ
or_digits n a b = digits (λ b. b) max n a b

or_digits_fuel : (n m a b : ℕ) → a ≤ n → a ≤ m → or_digits n a b ≡ or_digits m a b
or_digits_fuel zero zero a b p q = refl
or_digits_fuel zero (suc m) zero b p q = refl
or_digits_fuel zero (suc m) (suc a) b p q = absurd (omega arith)
or_digits_fuel (suc n) zero zero b p q = refl
or_digits_fuel (suc n) zero (suc a) b p q = absurd (omega arith)
or_digits_fuel (suc n) (suc m) zero b p q = refl
or_digits_fuel (suc n) (suc m) (suc a) b p q =
    omega (arith, or_digits_fuel n m (suc a / 2) (b / 2) (omega arith) (omega arith))

zero-bit_or : (b : ℕ) → bit_or 0 b ≡ b
zero-bit_or b = bit_or-bitwise 0 b

bit_or_step : (a b : ℕ) → bit_or a b ≡ bit_or (a / 2) (b / 2) * 2 + max (a % 2) (b % 2)
bit_or_step zero b = omega (arith, zero-bit_or b, zero-bit_or (b / 2))
bit_or_step (suc a) b = omega (
  arith,
  bit_or-bitwise (suc a) b,
  bit_or-bitwise (suc a / 2) (b / 2),
  or_digits_fuel a (suc a / 2) (suc a / 2) (b / 2) (omega arith) (omega arith),
)

bit_or-zero_fuel : (n a : ℕ) → a ≤ n → bit_or a 0 ≡ a
bit_or-zero_fuel n zero h = zero-bit_or 0
bit_or-zero_fuel zero (suc a) h = absurd (omega arith)
bit_or-zero_fuel (suc n) (suc a) h =
    omega (arith, bit_or_step (suc a) 0, bit_or-zero_fuel n (suc a / 2) (omega arith))

double : (k h : ℕ) → (2 ^ suc k ≡ 2 ^ k * 2) × (h * 2 ^ suc k ≡ h * 2 ^ k * 2)
double k h = simp unary_clauses (omega arith, grind arith)

-- The digits of `x` stand above the lowest `k`, and those of `a` are among them.
pub bit_or_above : (k h x a : ℕ) → x ≡ h * 2 ^ k → a < 2 ^ k → bit_or x a ≡ x + a
bit_or_above zero h x a e l =
    let z : a ≡ 0 = omega arith in
    ap (bit_or x) z ∙ bit_or-zero_fuel x x (omega arith) ∙ omega arith
bit_or_above (suc k) h x a e l =
    let (p, q) = double k h in
    omega (arith, bit_or_step x a, bit_or_above k h (x / 2) (a / 2) (omega arith) (omega arith))

pub bit_or_below : (k h a x : ℕ) → x ≡ h * 2 ^ k → a < 2 ^ k → bit_or a x ≡ a + x
bit_or_below zero h a x e l =
    let z : a ≡ 0 = omega arith in ap (λ n. bit_or n x) z ∙ zero-bit_or x ∙ omega arith
bit_or_below (suc k) h a x e l =
    let (p, q) = double k h in
    omega (arith, bit_or_step a x, bit_or_below k h (a / 2) (x / 2) (omega arith) (omega arith))
