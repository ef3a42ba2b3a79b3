-- ===== src/Prelude/Bits.antt =====
-- Exclusive or stays as wide as its arguments. The tactics take the call for an unknown.
use Prim.Native.Nat.{ℕ, zero, suc, ◌/◌, ◌%◌, ◌^◌, ◌<◌, bit_xor, digits, differ, bit_xor-bitwise}
use native.Mathlib.Nat.{pow-suc}
use native.Mathlib.Omega.{arith}

differ-lt_two : (x y : ℕ) → x < 2 → y < 2 → differ x y < 2
differ-lt_two zero y hx hy = hy
differ-lt_two (suc zero) zero hx hy = omega arith
differ-lt_two (suc zero) (suc y) hx hy = omega arith
differ-lt_two (suc (suc x)) y hx hy = absurd (omega arith)

-- By the recursion that the native operation stands for, over its count of digits.
digits-lt : (n k a b : ℕ) → a < 2 ^ k → b < 2 ^ k → digits (λ y. y) differ n a b < 2 ^ k
digits-lt zero k a b ha hb = hb
digits-lt (suc n) k zero b ha hb = hb
digits-lt (suc n) zero (suc a) b ha hb = absurd (omega arith)
digits-lt (suc n) (suc k) (suc a) b ha hb = omega (
  arith,
  pow-suc 2 k,
  digits-lt n k (suc a / 2) (b / 2) (omega (arith, pow-suc 2 k)) (omega (arith, pow-suc 2 k)),
  differ-lt_two (suc a % 2) (b % 2) (omega arith) (omega arith),
)

pub bit_xor-lt : (k a b : ℕ) → a < 2 ^ k → b < 2 ^ k → bit_xor a b < 2 ^ k
bit_xor-lt k a b ha hb = simp bit_xor-bitwise (digits-lt a k a b ha hb)
