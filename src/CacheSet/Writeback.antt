-- ===== src/CacheSet/Writeback.antt =====
-- What `invalidateContent` writes back.
use sniper_zip.Prelude.{
  ℕ, zero, suc, ◌+◌, ◌*◌, ◌<◌, ◌≤◌, ◌≡◌, refl, if◌then◌else◌, ltb, u32_size, for_range_inv, arith,
  ◌∙◌, sym, lt→ltb,
}
use native.Mathlib.Numerals.{add-one}
use sniper_zip.PageInfo.{PageInfo, invalidate, blocks_in}
use sniper_zip.PageInfo.Counting.{ones, ones-le, blocks_in_lem}
use sniper_zip.CacheSet.{CacheSet, invalidate_way, invalidate_content, get_dirty_blocks}

-- The sum of `f` over the numbers below `n`.
unfoldable pub sum_below : ℕ → (ℕ → ℕ) → ℕ
sum_below zero f = 0
sum_below (suc n) f = sum_below n f + f n

abbrev pub dirty_in : (ℕ → PageInfo) → ℕ → ℕ
dirty_in pages j = ones 32 (pages j).dbits_0

sum_below-le : (n : ℕ) (f : ℕ → ℕ) → ((j : ℕ) → f j ≤ 32) → sum_below n f ≤ 32 * n
unfolding sum_below
sum_below-le zero f h = omega arith
sum_below-le (suc n) f h = omega (arith, sum_below-le n f h, h n)

-- Every word of dirty bits has 32 bits.
abbrev pub IsWide : (ℕ → PageInfo) → Type 0
IsWide pages = (j : ℕ) → (pages j).dbits_0 < u32_size

sum_below-zero : (f : ℕ → ℕ) → 0 ≡ sum_below 0 f
unfolding sum_below
sum_below-zero f = refl

sum_below-suc : (n : ℕ) (f : ℕ → ℕ) → sum_below (n + 1) f ≡ sum_below n f + f n
unfolding sum_below
sum_below-suc n f = rw add-one

get_dirty_blocks-sum :
    (s : CacheSet)
    → IsWide s.pages
    → 32 * s.associativity < u32_size
    → get_dirty_blocks s ≡ sum_below s.associativity (dirty_in s.pages)
unfolding get_dirty_blocks
get_dirty_blocks-sum s wide small =
    for_range_inv (λ i c. c ≡ sum_below i (dirty_in s.pages))
      (λ i count. blocks_in (s.pages i).dbits_0 count) s.associativity 0 s.associativity 0
      (λ i c lo hi h. count i c hi h) (omega arith) first
  where
    first : 0 ≡ sum_below 0 (dirty_in s.pages)
    first = sum_below-zero (dirty_in s.pages)

    count :
        (i c : ℕ)
        → i < s.associativity
        → c ≡ sum_below i (dirty_in s.pages)
        → blocks_in (s.pages i).dbits_0 c ≡ sum_below (i + 1) (dirty_in s.pages)
    count i c hi h = omega (
      arith,
      blocks_in_lem (s.pages i).dbits_0 c (wide i)
          (omega (arith, sum_below-le i (dirty_in s.pages) (λ j. ones-le 32 (s.pages j).dbits_0))),
      sum_below-suc i (dirty_in s.pages),
    )

-- The loop of `invalidateContent` before way `i`: the ways below are emptied and counted.
record Emptied (s : CacheSet) (i : ℕ) (r : CacheSet × ℕ) : Type 0 where
  size : r.0.associativity ≡ s.associativity
  count : r.1 ≡ sum_below i (dirty_in s.pages)
  pages : (j : ℕ) → r.0.pages j ≡ (if ltb j i then (invalidate (s.pages j)).0 else s.pages j)

invalidate-wb : (p : PageInfo) → p.dbits_0 < u32_size → (invalidate p).1 ≡ ones 32 p.dbits_0
unfolding invalidate
invalidate-wb p h = omega (arith, blocks_in_lem p.dbits_0 0 h (omega arith))

Emptied-start : (s : CacheSet) → Emptied s 0 (s, 0)
Emptied-start s = record {
  size = refl;
  count = sum_below-zero (dirty_in s.pages);
  pages = λ j. ground arith;
}

Emptied-step :
    (s : CacheSet) (i : ℕ) (r : CacheSet × ℕ)
    → IsWide s.pages
    → 32 * s.associativity < u32_size
    → i < s.associativity
    → Emptied s i r
    → Emptied s (i + 1) (invalidate_way i r)
unfolding invalidate_way
Emptied-step s i r wide small hi e =
    let own : r.0.pages i ≡ s.pages i = e.pages i ∙ ground arith in
    record {
      size = e.size;
      count =
          rw (own, e.count, invalidate-wb (s.pages i) (wide i))
            (omega (
              arith,
              sum_below-suc i (dirty_in s.pages),
              sum_below-le i (dirty_in s.pages) (λ j. ones-le 32 (s.pages j).dbits_0),
              ones-le 32 (s.pages i).dbits_0,
            ));
      pages = λ j. ground (arith, own, e.pages j);
    }

emptied :
    (s : CacheSet)
    → IsWide s.pages
    → 32 * s.associativity < u32_size
    → Emptied s s.associativity (invalidate_content s)
unfolding invalidate_content
emptied s wide small =
    for_range_inv (Emptied s) invalidate_way s.associativity 0 s.associativity (s, 0)
      (λ i r lo hi e. Emptied-step s i r wide small hi e) (omega arith) (Emptied-start s)

sum_below_none : (n : ℕ) (f : ℕ → ℕ) → ((j : ℕ) → j < n → f j ≡ 0) → sum_below n f ≡ 0
unfolding sum_below
sum_below_none zero f h = refl
sum_below_none (suc n) f h =
    omega (arith, sum_below_none n f (λ j p. h j (omega arith)), h n (omega arith))

invalidate-dbits : (p : PageInfo) → (invalidate p).0.dbits_0 ≡ 0
unfolding invalidate
invalidate-dbits p = refl

ones-zero : ones 32 0 ≡ 0
unfolding ones
ones-zero = refl

-- Where the dirty bits are 32-bit words and the blocks of the set can be counted in 32 bits,
-- `invalidateContent` returns the number of dirty blocks that `getDirtyBlocks` counts before it, and
-- that counts none after it; every way of the set is emptied, and the others are untouched.
pub invalidate_content-get_dirty_blocks :
    (s : CacheSet)
    → IsWide s.pages
    → 32 * s.associativity < u32_size
    → let (s', wb) = invalidate_content s in
      (wb ≡ get_dirty_blocks s)
      × (get_dirty_blocks s' ≡ 0)
      × ((j : ℕ)
          → s'.pages j ≡ (if ltb j s.associativity then (invalidate (s.pages j)).0 else s.pages j))
invalidate_content-get_dirty_blocks s wide small =
    let s' = (invalidate_content s).0 in
    (
      done.count ∙ sym (get_dirty_blocks-sum s wide small),
      get_dirty_blocks-sum s' still (rw done.size small) ∙ clean,
      done.pages,
    )
  where
    done : Emptied s s.associativity (invalidate_content s)
    done = emptied s wide small

    dbits :
        (j : ℕ)
        → ((invalidate_content s).0.pages j).dbits_0
          ≡ (if ltb j s.associativity then 0 else (s.pages j).dbits_0)
    dbits j = rw (done.pages j) (ground (arith, invalidate-dbits (s.pages j)))

    still : IsWide (invalidate_content s).0.pages
    still j = rw (dbits j) (ground (arith, wide j))

    clean :
        sum_below (invalidate_content s).0.associativity (dirty_in (invalidate_content s).0.pages)
        ≡ 0
    clean =
        sum_below_none _ _
          λ j p. rw (dbits j, lt→ltb j s.associativity (rw (← done.size) p)) ones-zero
