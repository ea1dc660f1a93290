-- ===== src/PageInfo/Counting.antt =====
-- The loops that count the blocks of a word end, and count its bits.
use sniper_zip.Prelude.{
  ℕ, zero, suc, ◌+◌, ◌/◌, ◌%◌, ◌^◌, ◌<◌, ◌≤◌, ◌≡◌, refl, Bool-cases, inl, inr, ◌==◌, if◌then◌else◌,
  ltb, some, u32, u32_size, ap, ◌∙◌, arith, ltb→lt, ltb→le,
}
use sniper_zip.Prelude.Bits.{bit_and-one}
use native.Mathlib.Nat.{pow-suc}
use Prim.Native.Nat.{bit_and}
use sniper_zip.PageInfo.{count_blocks, blocks_in}

-- How many of the lowest `n` bits are set.
unfoldable pub ones : ℕ → ℕ → ℕ
ones zero x = 0
ones (suc n) x = x % 2 + ones n (x / 2)

pub ones-le : (n x : ℕ) → ones n x ≤ n
unfolding ones
ones-le zero x = omega arith
ones-le (suc n) x = omega (arith, ones-le n (x / 2))

ones-zero : (n : ℕ) → ones n 0 ≡ 0
unfolding ones
ones-zero zero = refl
ones-zero (suc n) = omega (arith, ones-zero n)

next_count :
    (x c : ℕ) → c + 1 < u32_size → (if bit_and x 1 == 1 then u32 (c + 1) else c) ≡ c + x % 2
next_count x c s = ground (arith, bit_and-one x)

count_more :
    (n fuel x c : ℕ)
    → 0 < x
    → n < suc fuel
    → x < 2 ^ n
    → c + n < u32_size
    → ((k y d : ℕ)
        → k < fuel
        → y < 2 ^ k
        → d + k < u32_size
        → count_blocks fuel y d ≡ some (d + ones k y))
    → count_blocks fuel (x / 2) (if bit_and x 1 == 1 then u32 (c + 1) else c) ≡ some (c + ones n x)
unfolding ones
count_more zero fuel x c p h b s ih = absurd (omega arith)
count_more (suc n) fuel x c p h b s ih = rw (next_count x c (omega arith)) (
    ih n (x / 2) (c + x % 2) (omega arith) (omega (arith, pow-suc 2 n)) (omega arith)
    ∙ ap some (omega arith))

-- On a word of at most `n` bits, and while the count fits in 32 bits, any fuel above `n` ends the
-- loop, and it has added the number of the set bits.
pub count_blocks_total :
    (n fuel x c : ℕ)
    → n < fuel
    → x < 2 ^ n
    → c + n < u32_size
    → count_blocks fuel x c ≡ some (c + ones n x)
unfolding count_blocks
count_blocks_total n zero x c h b s = absurd (omega arith)
count_blocks_total n (suc fuel) x c h b s = elim (Bool-cases (ltb 0 x)) [
  | inl more ↦
      rw more
        (count_more n fuel x c (ltb→lt 0 x more) h b s (λ k y d. count_blocks_total k fuel y d))
  | inr done ↦
      let e : x ≡ 0 = omega (arith, ltb→le 0 x done) in
      rw (done, e) (ap some (omega (arith, ones-zero n)))
]

-- The loop on a 32-bit word: the count goes up by the number of its set bits.
pub blocks_in_lem : (x c : ℕ) → x < u32_size → c + 32 < u32_size → blocks_in x c ≡ c + ones 32 x
unfolding blocks_in
blocks_in_lem x c h s = rw (count_blocks_total 32 33 x c (omega arith) h s, blocks_in)
