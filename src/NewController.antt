-- ===== src/NewController.antt =====
-- The DRAM cache controller over the second manager: `handleDramAccess`, `checkRemapping`,
-- `SplitAddress` and `ProcessRequest` of performance_model/new_remapping/dram_perf_model_normal.cc.
-- The sets and pages of the cache are those of the first controller, whose code is the same.
pub mod Requests
pub mod Migrates
pub mod Addresses
pub mod Distinct
use sniper_zip.Prelude.{
  ℕ, ◌+◌, ◌*◌, ◌/◌, ◌%◌, ◌^◌, Bool, true, false, not, ◌==◌, if◌then◌else◌, ◌&&◌, ◌||◌, update, u8,
  u32, u64, for_range,
}
use sniper_zip.DramVault
use sniper_zip.DramVault.{Access}
use sniper_zip.PageInfo.{Undefined, blocks_in}
use sniper_zip.CacheSet.{
  CacheSet, new_set, get_dirty_blocks, get_valid_blocks, invalidate_content, access_attempt,
}
use sniper_zip.PageTable.{PageTable, Split, new_pages, translate_address}
use sniper_zip.StackedDram.{Config}
use sniper_zip.StackedDram.Latency.{rounds_of}
use sniper_zip.NewDram.{
  NewDram, NewCosts, bank_bit, row_bit, get_set_num, get_access_latency, check_row_valid,
  check_row_migrated, clear_remapping_stat, check_set_disabled, get_remap_set,
}
use sniper_zip.Request.{DramStats, evict_page, count_stats, mem_op}

-- One round of the loop of `handleDramAccess`.
unfoldable pub access_step : Config → NewCosts → ℕ → ℕ → Access → ℕ → NewDram × ℕ → NewDram × ℕ
access_step c costs pkt_time set_n access_type k (d, delay) =
    let r = get_access_latency c costs (u64 (pkt_time + delay)) 128 set_n access_type d in
    (r.0, u64 (delay + r.1))

-- `handleDramAccess`: the DRAM, and the delay.
unfoldable pub handle_dram_access : Config → NewCosts → ℕ → ℕ → ℕ → Access → NewDram → NewDram × ℕ
unfolding for_range
handle_dram_access c costs pkt_time pkt_size set_n access_type d =
    for_range (rounds_of pkt_size 128) 0 (access_step c costs pkt_time set_n access_type) (d, 0)

pub record NewCntlr : Type 0 where
  pub sets : ℕ → CacheSet
  pub dram : NewDram
  pub pages : PageTable
  pub set_num : ℕ
  pub blocksize : ℕ
  pub pagesize : ℕ
  pub vault_num : ℕ
  -- FHT, the footprint history table.
  pub history : ℕ → ℕ
  pub cache_access : ℕ
  pub page_misses : ℕ
  pub block_misses : ℕ
  pub page_disabled : ℕ
  pub cache_access_no_roi : ℕ
  pub page_misses_no_roi : ℕ
  pub block_misses_no_roi : ℕ
  pub wb_blocks : ℕ
  pub ld_blocks : ℕ
  pub invalid_times : ℕ
  pub invalid_blocks : ℕ
  pub migrate_times : ℕ
  pub migrate_blocks : ℕ
  pub dram_stats : ℕ → DramStats

-- The constructor, over the DRAM that it builds; the counters of the time before the region of
-- interest are not set there.
unfoldable pub new_cntlr : ℕ → ℕ → ℕ → ℕ → ℕ × ℕ × ℕ → NewDram → NewCntlr
unfolding new_set new_pages
new_cntlr set_num associativity blocksize pagesize garbage dram = record {
  sets = λ x. new_set associativity;
  dram = dram;
  pages = new_pages;
  set_num = set_num;
  blocksize = blocksize;
  pagesize = pagesize;
  vault_num = 32;
  history = λ i. 0;
  cache_access = 0;
  page_misses = 0;
  block_misses = 0;
  page_disabled = 0;
  cache_access_no_roi = garbage.0;
  page_misses_no_roi = garbage.1;
  block_misses_no_roi = garbage.2;
  wb_blocks = 0;
  ld_blocks = 0;
  invalid_times = 0;
  invalid_blocks = 0;
  migrate_times = 0;
  migrate_blocks = 0;
  dram_stats = λ i. record { reads = 0; writes = 0; misses = 0 };
}

-- The controller in the loops of `checkRemapping`, with `dram_delay` and `writeback_blocks`.
pub record CheckState : Type 0 where
  pub cntlr : NewCntlr
  pub dram_delay : ℕ
  pub writeback_blocks : ℕ

-- The row is invalid: its set is read and given up.
unfoldable pub invalidate_set : Config → NewCosts → ℕ → ℕ → ℕ → CheckState → CheckState
invalidate_set c costs pkt_time set_i wb s =
    let k = s.cntlr in
    let r = handle_dram_access c costs pkt_time (u32 (wb * 64)) set_i DramVault.read k.dram in
    record s {
      cntlr = record k {
        dram = r.0;
        sets = update k.sets set_i (invalidate_content (k.sets set_i)).0;
        invalid_times = u32 (k.invalid_times + 1);
        invalid_blocks = u32 (k.invalid_blocks + wb);
      };
      dram_delay = u64 (s.dram_delay + costs.rounded_latency (u32 (64 * wb)) + r.1);
    }

-- The row was migrated: its set is read and written.
unfoldable pub migrate_set : Config → NewCosts → ℕ → ℕ → ℕ → CheckState → CheckState
migrate_set c costs pkt_time set_i blocks s =
    let k = s.cntlr in
    let size = u32 (blocks * 64) in
    let r = handle_dram_access c costs pkt_time size set_i DramVault.read k.dram in
    let w = handle_dram_access c costs pkt_time size set_i DramVault.write r.0 in
    record s {
      cntlr = record k {
        dram = w.0;
        migrate_times = u32 (k.migrate_times + 1);
        migrate_blocks = u32 (k.migrate_blocks + blocks);
      };
      dram_delay = u64 (s.dram_delay + r.1 + w.1);
    }

-- A row that is invalid, or was migrated.
unfoldable pub change_set : Config → NewCosts → ℕ → ℕ → ℕ → ℕ → CheckState → CheckState
change_set c costs pkt_time v b r s =
    let k = s.cntlr in
    let set_i = get_set_num c k.dram (record { vault = v; bank = b; row = r }) in
    if not (check_row_valid v b r k.dram)
    then invalidate_set c costs pkt_time set_i (get_dirty_blocks (k.sets set_i)) s
    else if check_row_migrated v b r k.dram
    then migrate_set c costs pkt_time set_i (get_valid_blocks (k.sets set_i)) s
    else s

-- The innermost loop body.
unfoldable pub check_row : Config → NewCosts → ℕ → ℕ → ℕ → ℕ → CheckState → CheckState
check_row c costs pkt_time v b r s =
    let k = s.cntlr in
    let set_i = get_set_num c k.dram (record { vault = v; bank = b; row = r }) in
    let wb = get_dirty_blocks (k.sets set_i) in
    if check_row_valid v b r k.dram && not (check_row_migrated v b r k.dram)
    then s
    else record (change_set c costs pkt_time v b r s) {
      writeback_blocks = u32 ((change_set c costs pkt_time v b r s).writeback_blocks + wb);
    }

unfoldable pub check_bank : Config → NewCosts → ℕ → ℕ → ℕ → ℕ → CheckState → CheckState
check_bank c costs pkt_time row_num v b s = for_range row_num 0 (check_row c costs pkt_time v b) s

unfoldable pub check_vault : Config → NewCosts → ℕ → ℕ → ℕ → ℕ → CheckState → CheckState
check_vault c costs pkt_time bank_num row_num v s =
    for_range bank_num 0 (check_bank c costs pkt_time row_num v) s

-- The loops, after the flag is taken back.
unfoldable pub sweep : Config → NewCosts → ℕ → NewCntlr → CheckState
sweep c costs pkt_time k =
    for_range k.vault_num 0
      (check_vault c costs pkt_time (2 ^ bank_bit c k.dram) (2 ^ row_bit c k.dram))
      (record {
        cntlr = record k { dram = record k.dram { remapped = false } };
        dram_delay = 0;
        writeback_blocks = 0;
      })

-- After the loops.
unfoldable pub finish_check : CheckState → NewCntlr
finish_check s =
    let k = s.cntlr in
    record k {
      dram = clear_remapping_stat k.dram;
      wb_blocks = u32 (k.wb_blocks + s.writeback_blocks);
    }

abbrev pub before_roi : NewCntlr → NewCntlr
before_roi k = record k {
  cache_access_no_roi = k.cache_access;
  page_misses_no_roi = k.page_misses;
  block_misses_no_roi = k.block_misses;
}

-- The loops and what follows them, if banks have moved.
unfoldable pub check_moved : Config → NewCosts → ℕ → NewCntlr → NewCntlr × ℕ
check_moved c costs pkt_time k =
    let s = sweep c costs pkt_time k in
    if k.dram.remapped then (finish_check s, s.dram_delay) else (k, 0)

-- `checkRemapping`: the controller, and the delay.
unfoldable pub check_remapping : Config → NewCosts → ℕ → NewCntlr → NewCntlr × ℕ
check_remapping c costs pkt_time k =
    check_moved c costs pkt_time (if k.dram.enter_roi then k else before_roi k)
