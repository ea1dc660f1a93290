-- ===== src/Prelude/Words.antt =====
-- Unsigned words of 8, 32 and 64 bits: every result that the program stores is taken modulo the width.
use Prim.Native.Nat.{ℕ, ◌+◌, ◌-◌, ◌%◌, ◌<◌, ◌≤◌}
use mathlib.Core.Path.{◌≡◌}
use native.Mathlib.Omega.{arith}

abbrev pub u32_size : ℕ
u32_size = 4294967296

abbrev pub u8 : ℕ → ℕ
u8 x = x % 256

abbrev pub u32 : ℕ → ℕ
u32 x = x % u32_size

-- a - b on 32-bit words.
abbrev pub sub32 : ℕ → ℕ → ℕ
sub32 a b = u32 (a + u32_size - b)

pub u32_of_lt : (x : ℕ) → x < u32_size → u32 x ≡ x
u32_of_lt x h = omega arith

pub sub32_of_le : (a b : ℕ) → b ≤ a → a < u32_size → sub32 a b ≡ a - b
sub32_of_le a b h k = omega arith

-- 64-bit results.
unfoldable pub u64 : ℕ → ℕ
u64 x = x % 18446744073709551616

unfoldable pub sub64 : ℕ → ℕ → ℕ
sub64 a b = (a + (18446744073709551616 - b)) % 18446744073709551616
