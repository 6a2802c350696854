-- ===== src/Base/Bits.antt =====
-- Bit operations on 64-bit words in the form that the arithmetic tactics read.
use Prim.Native.Nat.{ℕ, ◌+◌, ◌-◌, ◌*◌, ◌/◌, ◌%◌, ◌<◌, bit_or, bit_or-bitwise}
use mathlib.Core.Path.{◌≡◌}
use mathlib.Core.Bool.{Bool}
use native.Mathlib.Omega.{arith}
use picasso_lang.Base.Tests.{◌==◌, if◌then◌else◌}

-- `(w & bit) != 0` for a mask of one bit
abbrev pub has_bit : ℕ → ℕ → Bool
has_bit w bit = w / bit % 2 == 1

-- `w |= bit`
abbrev pub set_bit : ℕ → ℕ → ℕ
set_bit w bit = if has_bit w bit then w else w + bit

-- `w &= ~bit`
abbrev pub unset_bit : ℕ → ℕ → ℕ
unset_bit w bit = if has_bit w bit then w - bit else w

-- `a | b` where `b` has only the three lowest bits
unfoldable pub or_low : ℕ → ℕ → ℕ
or_low a b = a / 8 * 8 + bit_or (a % 8) (b % 8)

pub zero-bit_or : (b : ℕ) → bit_or 0 b ≡ b
zero-bit_or b = bit_or-bitwise 0 b

-- On a multiple of eight the low bits are free, and the bits of `b` are put there.
pub or_low-multiple : (a b : ℕ) → a % 8 ≡ 0 → b < 8 → or_low a b ≡ a + b
unfolding or_low
or_low-multiple a b m l = rw (m, zero-bit_or) (omega arith)
