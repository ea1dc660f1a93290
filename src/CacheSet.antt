-- ===== src/CacheSet.antt =====
-- A set of the DRAM cache: `DramCacheSetUnison` of performance_model/dram_perf_model_normal.h and
-- .cc, with its pages as a function of the way. The signed counters `reads` and `writes` do not wrap.
pub mod Replacement
pub mod Lookup
pub mod Writeback
use sniper_zip.Prelude.{
  ℕ, zero, suc, ◌+◌, ◌/◌, Bool, true, false, not, ◌==◌, if◌then◌else◌, ltb, Option, none, some, u8,
  u32, update, for_range,
}
use sniper_zip.PageInfo.{
  PageInfo, Undefined, MemOp, new_page, access_block, invalidate, update_usage, blocks_in,
}

pub record CacheSet : Type 0 where
  pub reads : ℕ
  pub writes : ℕ
  pub associativity : ℕ
  pub lru_bits : ℕ → ℕ
  pub pages : ℕ → PageInfo

-- The constructor.
unfoldable pub new_set : ℕ → CacheSet
unfolding new_page
new_set associativity = record {
  reads = 0;
  writes = 0;
  associativity = associativity;
  lru_bits = u8;
  pages = λ i. new_page;
}

-- The way with the greatest usage so far, and that usage.
pub record Oldest : Type 0 where
  pub max_t : ℕ
  pub index : ℕ

unfoldable pub older : (ℕ → PageInfo) → ℕ → Oldest → Oldest
older pages i o =
    if ltb o.max_t (pages i).used then record { max_t = (pages i).used; index = i } else o

-- `getReplacementIndex`: it counts a read.
unfoldable pub get_replacement_index : CacheSet → CacheSet × ℕ
unfolding older for_range
get_replacement_index s =
    let start : Oldest = record { max_t = 0; index = 0 } in
    (record s { reads = s.reads + 1 }, (for_range s.associativity 0 (older s.pages) start).index)

-- `invalidateContent`: the number of blocks to write back.
unfoldable pub invalidate_way : ℕ → CacheSet × ℕ → CacheSet × ℕ
invalidate_way i (s, wb_blocks) = (
  record s { pages = update s.pages i (invalidate (s.pages i)).0 },
  u32 (wb_blocks + (invalidate (s.pages i)).1),
)

unfoldable pub invalidate_content : CacheSet → CacheSet × ℕ
unfolding invalidate_way for_range
invalidate_content s = for_range s.associativity 0 invalidate_way (s, 0)

-- `getDirtyBlocks` and `getValidBlocks`: the loop over the pages goes on counting.
unfoldable pub get_dirty_blocks : CacheSet → ℕ
unfolding for_range
get_dirty_blocks s = for_range s.associativity 0 (λ i count. blocks_in (s.pages i).dbits_0 count) 0

unfoldable pub get_valid_blocks : CacheSet → ℕ
unfolding for_range
get_valid_blocks s = for_range s.associativity 0 (λ i count. blocks_in (s.pages i).vbits_0 count) 0

-- The first of `n` ways from `i` on whose page has the tag.
unfoldable pub find_tag : ℕ → ℕ → ℕ → (ℕ → PageInfo) → Option ℕ
find_tag zero i tag pages = none
find_tag (suc n) i tag pages = if (pages i).tag == tag then some i else find_tag n (i + 1) tag pages

-- One way of the loop that makes `index` the most recent.
unfoldable pub age : ℕ → ℕ → (ℕ → PageInfo) → ℕ → PageInfo
unfolding update_usage
age index i pages =
    if index == i
    then update pages i (update_usage 0 (pages i))
    else update pages i (update_usage ((pages i).used + 1) (pages i))

unfoldable pub age_all : ℕ → CacheSet → CacheSet
unfolding age for_range
age_all index s = record s { pages = for_range s.associativity 0 (age index) s.pages }

-- `updateUsedInfo`: nothing changes where no page has the tag, or where the page has usage 0.
unfoldable pub update_used_info : ℕ → CacheSet → CacheSet
unfolding find_tag
update_used_info tag s = elim (find_tag s.associativity 0 tag s.pages) [
  | none ↦ s
  | some index ↦ if not ((s.pages index).used == 0) then age_all index s else s
]

-- `updateReplacementIndexTag`: the page of a way is replaced. `pc` and `offset` are not used.
unfoldable pub update_replacement_index_tag : ℕ → ℕ → ℕ → CacheSet → CacheSet
unfolding update_used_info
update_replacement_index_tag index tag footprint s = update_used_info tag (record s {
  pages =
      update s.pages index
        (record (s.pages index) { tag = tag; vbits_0 = footprint; dbits_0 = 0; footprint = 0 });
  writes = s.writes + 1;
})

-- `StackedBlockSize` of fixed_types.h.
abbrev pub stacked_block_size : ℕ
stacked_block_size = 64

-- `accessAttempt`: 0 where no page has the tag, 1 where its block is not valid, 2 where it is.
unfoldable pub access_attempt : Undefined → MemOp → ℕ → ℕ → CacheSet → CacheSet × ℕ
unfolding find_tag access_block
access_attempt u type tag offset s =
    let block_num = u32 (offset / stacked_block_size) in
    elim (find_tag s.associativity 0 tag s.pages) [
      | none ↦ (record s { reads = s.reads + 1 }, 0)
      | some i ↦
          let (page, hit) = access_block u type block_num (s.pages i) in
          if hit then (record s { reads = s.reads + 1; pages = update s.pages i page }, 2) else (
            record s { reads = s.reads + 1; writes = s.writes + 1; pages = update s.pages i page },
            1,
          )
    ]
