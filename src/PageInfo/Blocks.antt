-- ===== src/PageInfo/Blocks.antt =====
-- Which blocks of a page an access finds, and which it marks.
use sniper_zip.Prelude.{
  ℕ, suc, ◌^◌, ◌<◌, ◌≡◌, ◌≢◌, refl, sym, ◌∙◌, true, ◌==◌, u32_size, u32_of_lt, sub32, arith, lt→ltb,
}
use sniper_zip.Prelude.Bits.{
  bit, bit_and-one, bit_of_shift, bit-bit_or, bit_or-lt, pow-bit_self, pow-bit_ne, bit-le-one,
}
use native.Mathlib.Nat.{pow-le-pow_right, pow-suc, one-le-pow}
use Prim.Native.Nat.{bit_and, bit_or}
use sniper_zip.PageInfo.{PageInfo, Undefined, MemOp, shr32, with_block, access_block}

pow-lt : (k : ℕ) → k < 32 → 2 ^ k < 2 ^ 32
pow-lt k h = omega (
  arith,
  pow-le-pow_right {n = 2} (omega arith) {i = suc k} {j = 32} h,
  pow-suc 2 k,
  one-le-pow k 2 (omega arith),
)

-- `v | (1UL << k)` for a block of the word.
with_block-bit_or :
    (u : Undefined) (v k : ℕ) → v < 2 ^ 32 → k < 32 → with_block u v k ≡ bit_or v (2 ^ k)
unfolding with_block
with_block-bit_or u v k h lt =
    rw (lt→ltb k 64 (omega arith)) (u32_of_lt _ (bit_or-lt 32 v (2 ^ k) h (pow-lt k lt)))

pub with_block-lt : (u : Undefined) (v k : ℕ) → with_block u v k < u32_size
unfolding with_block
with_block-lt u v k = omega arith

-- Marking block `k` sets its bit and no other.
pub with_block-bit :
    (u : Undefined) (v k j : ℕ)
    → v < u32_size
    → k < 32
    → (bit (with_block u v k) k ≡ 1) × (j ≢ k → bit (with_block u v k) j ≡ bit v j)
with_block-bit u v k j h lt = rw (with_block-bit_or u v k h lt) (
  omega (arith, bit-bit_or k v (2 ^ k), pow-bit_self k, bit-le-one k v),
  λ ne. omega (arith, bit-bit_or j v (2 ^ k), pow-bit_ne k j (λ e. ne (sym e))),
)

shift_bit : (u : Undefined) (x k : ℕ) → k < 32 → bit_and (shr32 u x k) 1 ≡ bit x k
unfolding shr32
shift_bit u x k h = rw (lt→ltb k 32 h) (bit_and-one _ ∙ bit_of_shift k x)

-- An access to block `k + 1` reports the bit of block `k`.
access_block-hit :
    (u : Undefined) (op : MemOp) (k : ℕ) (p : PageInfo)
    → k < 32
    → (access_block u op (suc k) p).1 ≡ (bit p.vbits_0 k == 1)
unfolding access_block
access_block-hit u op k p lt =
    let e : sub32 (suc k) 1 ≡ k = omega arith in rw (e, shift_bit u p.vbits_0 k lt)

access_block-vbits :
    (u : Undefined) (op : MemOp) (k : ℕ) (p : PageInfo)
    → (access_block u op k p).0.vbits_0 ≡ with_block u p.vbits_0 k
unfolding access_block
access_block-vbits u op k p = refl

-- An access to block `k + 1` reports whether block `k` was valid; it makes block `k + 1` valid, so the
-- next access to block `k + 2` hits; but a second access to block `k + 1` reports just what the first
-- one did: a miss is never repaired by loading the block.
pub access_block_again :
    (u : Undefined) (op op' : MemOp) (k : ℕ) (p : PageInfo)
    → p.vbits_0 < u32_size
    → suc k < 32
    → let q = (access_block u op (suc k) p).0 in
      ((access_block u op (suc k) p).1 ≡ (bit p.vbits_0 k == 1))
      × ((access_block u op' (suc (suc k)) q).1 ≡ true)
      × ((access_block u op' (suc k) q).1 ≡ (access_block u op (suc k) p).1)
access_block_again u op op' k p h lt =
    let q = (access_block u op (suc k) p).0 in
    let e = access_block-vbits u op (suc k) p in
    let (own, rest) = with_block-bit u p.vbits_0 (suc k) k h lt in
    let here : bit q.vbits_0 (suc k) ≡ 1 = rw e own in
    let there : bit q.vbits_0 k ≡ bit p.vbits_0 k = rw e (rest (omega arith)) in
    (
      access_block-hit u op k p (omega arith),
      access_block-hit u op' (suc k) q lt ∙ rw here refl,
      access_block-hit u op' k q (omega arith)
          ∙ rw there (sym (access_block-hit u op k p (omega arith))),
    )
