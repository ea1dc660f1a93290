-- ===== src/Prelude/Bits.antt =====
-- Single bits of a number, and `|` and `&` read bit by bit.
use Prim.Native.Nat.{
  ℕ, zero, suc, ◌+◌, ◌*◌, ◌/◌, ◌%◌, ◌^◌, ◌≤◌, ◌<◌, min, max, bit_and, bit_or, digits,
  bit_and-bitwise, bit_or-bitwise,
}
use mathlib.Core.Path.{◌≡◌, refl, ◌∙◌, ap}
use mathlib.Core.Logic.{◌≢◌}
use native.Mathlib.Nat.{pow-suc, mul_assoc, add-zero, add-suc, div-div-eq-div-mul}
use native.Mathlib.Omega.{arith}

-- The bit of weight 2^k.
unfoldable pub bit : ℕ → ℕ → ℕ
bit x zero = x % 2
bit x (suc k) = bit (x / 2) k

abbrev or_digits : ℕ → ℕ → ℕ → ℕ
or_digits n a b = digits (λ b. b) max n a b

-- Fuel from the number itself on makes no difference.
or_digits_fuel : (f g x y : ℕ) → x ≤ f → x ≤ g → or_digits f x y ≡ or_digits g x y
or_digits_fuel zero zero x y hf hg = refl
or_digits_fuel (suc f) zero zero y hf hg = refl
or_digits_fuel (suc f) zero (suc x) y hf hg = absurd (omega arith)
or_digits_fuel zero (suc g) zero y hf hg = refl
or_digits_fuel zero (suc g) (suc x) y hf hg = absurd (omega arith)
or_digits_fuel (suc f) (suc g) zero y hf hg = refl
or_digits_fuel (suc f) (suc g) (suc x) y hf hg =
    let half = or_digits_fuel f g (suc x / 2) (y / 2) (omega arith) (omega arith) in
    omega (arith, half)

zero-bit_or : (b : ℕ) → bit_or 0 b ≡ b
zero-bit_or b = bit_or-bitwise 0 b

bit_or_step : (a b : ℕ) → bit_or a b ≡ bit_or (a / 2) (b / 2) * 2 + max (a % 2) (b % 2)
bit_or_step zero b = omega (arith, zero-bit_or b, zero-bit_or (b / 2))
bit_or_step (suc a) b = omega (
  arith,
  bit_or-bitwise (suc a) b,
  bit_or-bitwise (suc a / 2) (b / 2),
  or_digits_fuel a (suc a / 2) (suc a / 2) (b / 2) (omega arith) (omega arith),
)

pub bit-bit_or : (k a b : ℕ) → bit (bit_or a b) k ≡ max (bit a k) (bit b k)
unfolding bit
bit-bit_or zero a b = omega (arith, bit_or_step a b)
bit-bit_or (suc k) a b =
    let half : bit_or a b / 2 ≡ bit_or (a / 2) (b / 2) = omega (arith, bit_or_step a b) in
    rw half (bit-bit_or k (a / 2) (b / 2))

pub bit_or-lt : (n a b : ℕ) → a < 2 ^ n → b < 2 ^ n → bit_or a b < 2 ^ n
bit_or-lt zero zero zero h k = omega arith
bit_or-lt zero (suc a) b h k = absurd (omega arith)
bit_or-lt zero a (suc b) h k = absurd (omega arith)
bit_or-lt (suc n) a b h k = omega (
  arith,
  bit_or_step a b,
  pow-suc 2 n,
  bit_or-lt n (a / 2) (b / 2) (omega (arith, pow-suc 2 n)) (omega (arith, pow-suc 2 n)),
)

pub bit-le-one : (k x : ℕ) → bit x k ≤ 1
unfolding bit
bit-le-one zero x = omega arith
bit-le-one (suc k) x = bit-le-one k (x / 2)

zero-bit : (k : ℕ) → bit 0 k ≡ 0
unfolding bit
zero-bit zero = refl
zero-bit (suc k) = zero-bit k

pub pow-bit_self : (k : ℕ) → bit (2 ^ k) k ≡ 1
unfolding bit
pow-bit_self zero = refl
pow-bit_self (suc k) =
    let half : 2 ^ suc k / 2 ≡ 2 ^ k = omega (arith, pow-suc 2 k) in rw half (pow-bit_self k)

pub pow-bit_ne : (j k : ℕ) → j ≢ k → bit (2 ^ j) k ≡ 0
unfolding bit
pow-bit_ne zero zero h = absurd (h refl)
pow-bit_ne zero (suc k) h = zero-bit k
pow-bit_ne (suc j) zero h = omega (arith, pow-suc 2 j)
pow-bit_ne (suc j) (suc k) h =
    let half : 2 ^ suc j / 2 ≡ 2 ^ j = omega (arith, pow-suc 2 j) in
    rw half (pow-bit_ne j k (λ e. h (ap suc e)))

-- A shift to the right, and its lowest bit.
pub bit_of_shift : (k x : ℕ) → x / 2 ^ k % 2 ≡ bit x k
unfolding bit
bit_of_shift zero x = omega arith
bit_of_shift (suc k) x =
    let halve : x / 2 / 2 ^ k ≡ x / 2 ^ suc k =
      div-div-eq-div-mul x 2 (2 ^ k) ∙ ap (λ (d : ℕ). x / d) (omega (arith, pow-suc 2 k)) in
    rw (← halve) (bit_of_shift k (x / 2))

abbrev and_digits : ℕ → ℕ → ℕ → ℕ
and_digits n a b = digits (λ b. zero) min n a b

and_digits_zero : (n a : ℕ) → and_digits n a 0 ≡ 0
and_digits_zero zero a = refl
and_digits_zero (suc n) zero = refl
and_digits_zero (suc n) (suc a) = omega (arith, and_digits_zero n (suc a / 2))

-- x & 1.
pub bit_and-one : (a : ℕ) → bit_and a 1 ≡ a % 2
bit_and-one zero = refl
bit_and-one (suc a) = omega (arith, bit_and-bitwise (suc a) 1, and_digits_zero a (suc a / 2))

bit_or-zero_fuel : (n x : ℕ) → x ≤ n → bit_or x 0 ≡ x
bit_or-zero_fuel zero x h = let none : x ≡ 0 = omega arith in rw none (zero-bit_or 0)
bit_or-zero_fuel (suc n) zero h = zero-bit_or 0
bit_or-zero_fuel (suc n) (suc x) h =
    omega (arith, bit_or_step (suc x) 0, bit_or-zero_fuel n (suc x / 2) (omega arith))

-- `|` of a multiple of 2^k and a number below 2^k is their sum.
pub bit_or_disjoint : (k x y : ℕ) → y < 2 ^ k → bit_or (x * 2 ^ k) y ≡ x * 2 ^ k + y
bit_or_disjoint zero x zero h =
    let once : x * 2 ^ 0 ≡ x = omega arith in
    rw once (omega (arith, bit_or-zero_fuel x x (omega arith)))
bit_or_disjoint zero x (suc y) h = absurd (omega arith)
bit_or_disjoint (suc k) x y h =
    let even : x * 2 ^ suc k ≡ x * 2 ^ k * 2 =
      omega (arith, ap (λ (p : ℕ). x * p) (pow-suc 2 k), mul_assoc x (2 ^ k) 2) in
    let half = bit_or_disjoint k x (y / 2) (omega (arith, pow-suc 2 k)) in
    let step = bit_or_step (x * 2 ^ k * 2) y in
    let front : x * 2 ^ k * 2 / 2 ≡ x * 2 ^ k = omega arith in
    let back : x * 2 ^ k * 2 % 2 ≡ 0 = omega arith in
    rw even (step ∙ rw (front, back, half) (omega arith))

pub pow_add : (m l : ℕ) → 2 ^ (m + l) ≡ 2 ^ m * 2 ^ l
pow_add m zero = omega (arith, ap (λ (e : ℕ). 2 ^ e) (add-zero m))
pow_add m (suc l) = omega (
  arith,
  ap (λ (e : ℕ). 2 ^ e) (add-suc m l),
  pow-suc 2 (m + l),
  pow-suc 2 l,
  pow_add m l,
  ap (λ (p : ℕ). p * 2) (pow_add m l),
  ap (λ (p : ℕ). 2 ^ m * p) (pow-suc 2 l),
  mul_assoc (2 ^ m) (2 ^ l) 2,
)
