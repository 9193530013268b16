-- ===== src/Base/Bits.antt =====
-- The lowest digits of `bit_and` and `bit_or`.
use Prim.Native.Nat.{
  ℕ, zero, suc, ◌+◌, ◌*◌, ◌/◌, ◌%◌, ◌≤◌, min, max, bit_and, bit_or, digits, bit_and-bitwise,
  bit_or-bitwise,
}
use mathlib.Core.Path.{◌≡◌, refl}
use native.Mathlib.Omega.{arith}

-- More digits than the first number has do not matter.
digits-enough :
    (z : ℕ → ℕ) (f : ℕ → ℕ → ℕ) (n m a b : ℕ) → a ≤ n → a ≤ m → digits z f n a b ≡ digits z f m a b
digits-enough z f zero zero a b p q = refl
digits-enough z f zero (suc m) zero b p q = refl
digits-enough z f zero (suc m) (suc a) b p q = absurd (omega arith)
digits-enough z f (suc n) zero zero b p q = refl
digits-enough z f (suc n) zero (suc a) b p q = absurd (omega arith)
digits-enough z f (suc n) (suc m) zero b p q = refl
digits-enough z f (suc n) (suc m) (suc a) b p q =
    omega (arith, digits-enough z f n m (suc a / 2) (b / 2) (omega arith) (omega arith))

pub bit_and-digit : (a b : ℕ) → bit_and a b ≡ bit_and (a / 2) (b / 2) * 2 + min (a % 2) (b % 2)
bit_and-digit zero b = omega (arith, bit_and-bitwise 0 b, bit_and-bitwise 0 (b / 2))
bit_and-digit (suc a) b = omega (
  arith,
  bit_and-bitwise (suc a) b,
  bit_and-bitwise (suc a / 2) (b / 2),
  digits-enough (λ y. zero) min a (suc a / 2) (suc a / 2) (b / 2) (omega arith) (omega arith),
)

pub bit_or-digit : (a b : ℕ) → bit_or a b ≡ bit_or (a / 2) (b / 2) * 2 + max (a % 2) (b % 2)
bit_or-digit zero b = omega (arith, bit_or-bitwise 0 b, bit_or-bitwise 0 (b / 2))
bit_or-digit (suc a) b = omega (
  arith,
  bit_or-bitwise (suc a) b,
  bit_or-bitwise (suc a / 2) (b / 2),
  digits-enough (λ y. y) max a (suc a / 2) (suc a / 2) (b / 2) (omega arith) (omega arith),
)

bit_and-none : (n a : ℕ) → a ≤ n → bit_and a 0 ≡ 0
bit_and-none n zero p = refl
bit_and-none zero (suc a) p = absurd (omega arith)
bit_and-none (suc n) (suc a) p =
    omega (arith, bit_and-digit (suc a) 0, bit_and-none n (suc a / 2) (omega arith))

pub bit_and-first : (a : ℕ) → bit_and a 1 ≡ a % 2
bit_and-first a = omega (arith, bit_and-digit a 1, bit_and-none (a / 2) (a / 2) (omega arith))

pub bit_and-two : (a : ℕ) → bit_and a 3 ≡ a % 4
bit_and-two a = omega (arith, bit_and-digit a 3, bit_and-first (a / 2))
