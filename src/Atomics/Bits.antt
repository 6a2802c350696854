-- ===== src/Atomics/Bits.antt =====
-- The binary operations of the words stay below a power of two.
use Prim.Native.Nat.{
  two, digits, differ, max, bit_and, bit_and-bitwise, bit_or, bit_or-bitwise, bit_xor,
  bit_xor-bitwise,
}
use picasso_lang.Base.{ℕ, zero, suc, min, ◌/◌, ◌%◌, ◌^◌, ◌<◌, ◌≤◌, arith}

module _ (z : ℕ → ℕ) (f : ℕ → ℕ → ℕ) (z_le : (b : ℕ) → z b ≤ b)
    (f_lt : (x y : ℕ) → x < 2 → y < 2 → f x y < 2) where
  pub digits_lt : (n w a b : ℕ) → a < 2 ^ w → b < 2 ^ w → digits z f n a b < 2 ^ w
  digits_lt zero w a b la lb = omega (arith, z_le b)
  digits_lt (suc n) w zero b la lb = omega (arith, z_le b)
  digits_lt (suc n) zero (suc a) b la lb = omega arith
  digits_lt (suc n) (suc w) (suc a) b la lb =
      let rest = digits_lt n w (suc a / two) (b / two) (omega arith) (omega arith) in
      let low = f_lt (suc a % two) (b % two) (omega arith) (omega arith) in omega arith

pub differ_lt : (x y : ℕ) → x < 2 → y < 2 → differ x y < 2
differ_lt zero y lx ly = ly
differ_lt (suc x) zero lx ly = lx
differ_lt (suc zero) (suc y) lx ly = omega arith
differ_lt (suc (suc x)) (suc y) lx ly = omega arith

pub bit_and_lt : (w a b : ℕ) → a < 2 ^ w → b < 2 ^ w → bit_and a b < 2 ^ w
bit_and_lt w a b la lb =
    rw (bit_and-bitwise a b)
      (digits_lt (λ b. zero) min (λ b. omega arith) (λ x y lx ly. omega arith) a w a b la lb)

pub bit_or_lt : (w a b : ℕ) → a < 2 ^ w → b < 2 ^ w → bit_or a b < 2 ^ w
bit_or_lt w a b la lb =
    rw (bit_or-bitwise a b)
      (digits_lt (λ b. b) max (λ b. omega arith) (λ x y lx ly. omega arith) a w a b la lb)

pub bit_xor_lt : (w a b : ℕ) → a < 2 ^ w → b < 2 ^ w → bit_xor a b < 2 ^ w
bit_xor_lt w a b la lb =
    rw (bit_xor-bitwise a b) (digits_lt (λ b. b) differ (λ b. omega arith) differ_lt a w a b la lb)
