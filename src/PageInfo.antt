-- ===== src/PageInfo.antt =====
-- A page of the DRAM cache: `DramCachePageInfo` of performance_model/dram_perf_model_normal.h and
-- .cc. A shift by the width of the word or more is undefined in C++; what it gives is a parameter.
pub mod Blocks
pub mod Counting
use sniper_zip.Prelude.{
  ℕ, zero, suc, ◌+◌, ◌/◌, ◌%◌, ◌^◌, Bool, true, false, ◌==◌, if◌then◌else◌, ltb, Option, none, some,
  u8, u32, sub32,
}
use Prim.Native.Nat.{bit_and, bit_or}

-- The state that cache_state.h numbers as INVALID, or another of its states.
pub data CacheState : Type 0 where
  invalid_state : CacheState
  other_state : ℕ → CacheState

pub record PageInfo : Type 0 where
  pub tag : ℕ
  pub vbits_0 : ℕ
  pub vbits_1 : ℕ
  pub dbits_0 : ℕ
  pub dbits_1 : ℕ
  pub footprint : ℕ
  pub cstate : CacheState
  pub used : ℕ
  pub pc : ℕ
  pub offset : ℕ

-- ~0 as a 32-bit and as a 64-bit word.
abbrev pub ones32 : ℕ
ones32 = 4294967295

abbrev pub no_tag : ℕ
no_tag = 18446744073709551615

-- The constructor.
unfoldable pub new_page : PageInfo
new_page = record {
  tag = no_tag;
  vbits_0 = ones32;
  vbits_1 = ones32;
  dbits_0 = 0;
  dbits_1 = 0;
  footprint = 0;
  cstate = invalid_state;
  used = 0;
  pc = 0;
  offset = 0;
}

-- What the compiler makes of an undefined `x >> count` on 32 bits, and of `1UL << count`.
pub record Undefined : Type 0 where
  pub shr : ℕ → ℕ → ℕ
  pub shl : ℕ → ℕ

unfoldable pub shr32 : Undefined → ℕ → ℕ → ℕ
shr32 u x count = if ltb count 32 then x / 2 ^ count else u32 (u.shr x count)

-- `1UL << count`, as a 64-bit word.
unfoldable pub shl_one : Undefined → ℕ → ℕ
shl_one u count = if ltb count 64 then 2 ^ count else u.shl count

-- v | (1UL << block_num), stored in 32 bits.
unfoldable pub with_block : Undefined → ℕ → ℕ → ℕ
unfolding shl_one
with_block u v block_num = u32 (bit_or v (shl_one u block_num))

pub data MemOp : Type 0 where
  read write : MemOp

abbrev pub is_write : MemOp → Bool
is_write read = false
is_write write = true

-- `accessBlock`: whether the block was valid. It is marked valid, part of the footprint, and dirty
-- on a write.
unfoldable pub access_block : Undefined → MemOp → ℕ → PageInfo → PageInfo × Bool
unfolding shr32 with_block
access_block u type block_num p =
    let v0 = bit_and (shr32 u p.vbits_0 (sub32 block_num 1)) 1 == 1 in
    (
      record p {
        vbits_0 = with_block u p.vbits_0 block_num;
        dbits_0 = if is_write type then with_block u p.dbits_0 block_num else p.dbits_0;
        footprint = with_block u p.footprint block_num;
      },
      v0,
    )

-- while (bits > 0) { if ((bits & 1) == 1) count++; bits >>= 1; } with fuel; `none` means that the
-- fuel ran out.
unfoldable pub count_blocks : ℕ → ℕ → ℕ → Option ℕ
count_blocks zero bits count = none
count_blocks (suc fuel) bits count =
    let rest =
      count_blocks fuel (bits / 2) (if bit_and bits 1 == 1 then u32 (count + 1) else count) in
    if ltb 0 bits then rest else some count

-- The loop on a 32-bit word. 33 rounds are enough (`PageInfo.Counting`).
unfoldable pub blocks_in : ℕ → ℕ → ℕ
blocks_in bits count = elim (count_blocks 33 bits count) [ some c ↦ c | none ↦ 0 ]

-- `invalidate`: the number of dirty blocks, and the emptied page.
unfoldable pub invalidate : PageInfo → PageInfo × ℕ
invalidate p = (
  record p {
    tag = no_tag;
    cstate = invalid_state;
    vbits_0 = ones32;
    vbits_1 = ones32;
    dbits_0 = 0;
    dbits_1 = 0;
    used = 0;
    offset = 0;
    footprint = 0;
  },
  blocks_in p.dbits_0 0,
)

-- `clone`: the page takes tag, state and usage of another.
unfoldable pub clone : PageInfo → PageInfo → PageInfo
clone from p = record p { tag = from.tag; cstate = from.cstate; used = from.used }

-- `updateUsage`, stored in 8 bits.
unfoldable pub update_usage : ℕ → PageInfo → PageInfo
update_usage used p = record p { used = u8 used }

unfoldable pub load_blocks : ℕ → PageInfo → PageInfo
load_blocks footprint p = record p { footprint = 0; vbits_0 = footprint }

unfoldable pub is_valid : PageInfo → Bool
is_valid p = if p.tag == no_tag then false else true
