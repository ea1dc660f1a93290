-- ===== src/Tests/CacheSet.antt =====
-- Pages and sets of the DRAM cache at work, and their theorems at concrete ones.
use sniper_zip.Prelude.{
  ℕ, ◌+◌, ◌*◌, ◌<◌, ◌≡◌, refl, true, false, if◌then◌else◌, ◌==◌, ltb, some, [], ◌∷◌, arith,
  u32_size, update,
}
use sniper_zip.Prelude.Bits.{bit}
use sniper_zip.PageInfo.{
  PageInfo, Undefined, read, write, new_page, access_block, count_blocks, invalidate, blocks_in,
}
use sniper_zip.PageInfo.Blocks.{access_block_again}
use sniper_zip.PageInfo.Counting.{ones, count_blocks_total}
use sniper_zip.CacheSet.{
  CacheSet, new_set, get_replacement_index, invalidate_content, get_dirty_blocks,
}
use sniper_zip.CacheSet.Replacement.{
  get_replacement_index_stuck, attempts, chooses, replaces, calls,
}
use sniper_zip.CacheSet.Writeback.{invalidate_content-get_dirty_blocks}

-- The x86 shift takes its count modulo the width.
abbrev pub x86 : Undefined
x86 = record { shr = λ x count. x; shl = λ count. 1 }

abbrev page : PageInfo
page = record new_page { tag = 40; vbits_0 = 0b1001; dbits_0 = 0b1000 }

abbrev set : CacheSet
set = record (new_set 4) { pages = update (λ i. new_page) 2 page }

-- Block 4 is valid, so the access to block 5 hits; the access to block 4 misses, twice.
access_block_runs :
    ((access_block x86 write 5 (record page { vbits_0 = 0b10000 })).1 ≡ true)
    × ((access_block x86 read 4 (record page { vbits_0 = 0b10000 })).1 ≡ false)
unfolding access_block
access_block_runs = (refl, refl)

access_block_again_example :
    let q = (access_block x86 read 4 page).0 in
    ((access_block x86 read 4 page).1 ≡ (bit page.vbits_0 3 == 1))
    × ((access_block x86 read 5 q).1 ≡ true)
    × ((access_block x86 read 4 q).1 ≡ (access_block x86 read 4 page).1)
unfolding new_page
access_block_again_example = access_block_again x86 read read 3 page (omega arith) (omega arith)

count_blocks_total_example : count_blocks 33 0b1011 2 ≡ some (2 + ones 4 0b1011)
count_blocks_total_example =
    count_blocks_total 4 33 0b1011 2 (omega arith) (omega arith) (omega arith)

get_replacement_index_stuck_example :
    let s =
      calls x86
        (attempts read 40 128 ∷ chooses ∷ replaces 2 40 255 ∷ attempts write 40 64 ∷ [])
        (new_set 4) in
    ((j : ℕ) → (s.pages j).used ≡ 0) × ((get_replacement_index s).1 ≡ 0)
get_replacement_index_stuck_example =
    get_replacement_index_stuck x86
      (attempts read 40 128 ∷ chooses ∷ replaces 2 40 255 ∷ attempts write 40 64 ∷ []) 4

set-IsWide : (j : ℕ) → (set.pages j).dbits_0 < u32_size
unfolding new_set new_page
set-IsWide j = ground arith

set-small : 32 * set.associativity < u32_size
unfolding new_set
set-small = omega arith

invalidate_content-get_dirty_blocks_example :
    let (s', wb) = invalidate_content set in
    (wb ≡ get_dirty_blocks set)
    × (get_dirty_blocks s' ≡ 0)
    × ((j : ℕ)
        → s'.pages j
          ≡ (if ltb j set.associativity then (invalidate (set.pages j)).0 else set.pages j))
invalidate_content-get_dirty_blocks_example =
    invalidate_content-get_dirty_blocks set set-IsWide set-small

one_block_written_back : (invalidate_content set).1 ≡ 1
unfolding invalidate_content invalidate blocks_in count_blocks new_set new_page
one_block_written_back = refl
