-- ===== src/Prelude/Division.antt =====
-- Rows and columns: a number below `rows * columns`, taken apart.
use Prim.Native.Nat.{ℕ, ◌+◌, ◌*◌, ◌/◌, ◌%◌, ◌<◌}
use mathlib.Core.Path.{◌≡◌, ◌∙◌, ap}
use native.Mathlib.Nat.{
  mul-add-mod_self_right, mul-add-div_right, div-eq_of_lt, mod-eq_of_lt, mul-le-mul_right,
  div-add-mod',
}
use native.Mathlib.Omega.{arith}

pub mod-of_row : (x r n : ℕ) → r < n → (x * n + r) % n ≡ r
mod-of_row x r n h = mul-add-mod_self_right x n r ∙ mod-eq_of_lt h

pub div-of_row : (x r n : ℕ) → r < n → (x * n + r) / n ≡ x
div-of_row x r n h = omega (arith, mul-add-div_right {m = n} (omega arith) x r, div-eq_of_lt h)

pub row-lt : (x r m n : ℕ) → x < m → r < n → x * n + r < m * n
row-lt x r m n h k = omega (arith, mul-le-mul_right {m = x + 1} {n = m} n (omega arith))

pub eq_of_div-mod : (a b n : ℕ) → a / n ≡ b / n → a % n ≡ b % n → a ≡ b
eq_of_div-mod a b n p q =
    omega (arith, div-add-mod' a n, div-add-mod' b n, ap (λ (x : ℕ). x * n) p, q)
