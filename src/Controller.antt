-- ===== src/Controller.antt =====
-- The DRAM cache controller when banks have moved: `handleDramAccess` and `checkRemapping` of
-- `StackDramCacheCntlrUnison`, performance_model/dram_perf_model_normal.cc. The times that are sent
-- to the statistics and to `ShmemPerf`, and the lines that are printed, are not modelled.
pub mod Kept
pub mod Emptying
pub mod Sweep
pub mod Untouched
pub mod Each
use sniper_zip.Prelude.{
  ℕ, ◌+◌, ◌*◌, ◌^◌, Bool, true, false, not, ◌==◌, if◌then◌else◌, ◌&&◌, ltb, update, u32, u64,
  for_range,
}
use sniper_zip.DramBank.{ns}
use sniper_zip.DramVault.{Access, read, write}
use sniper_zip.CacheSet.{CacheSet, get_dirty_blocks, get_valid_blocks, invalidate_content}
use sniper_zip.StackedDram.{
  Config, StackedDram, Index, bank_bit, row_bit, get_set_num, check_row_valid, check_row_migrated,
  clear_remapping_stat,
}
use sniper_zip.StackedDram.Latency.{Costs, rounds_of, get_access_latency}

-- One round of the loop of `handleDramAccess`.
unfoldable pub access_step : Config → Costs → ℕ → ℕ → Access → ℕ → StackedDram × ℕ → StackedDram × ℕ
access_step c costs pkt_time set_n access_type k (d, delay) =
    let r = get_access_latency c costs (u64 (pkt_time + delay)) 128 set_n access_type d in
    (r.0, u64 (delay + r.1))

-- `handleDramAccess`: the DRAM, and the delay.
unfoldable pub handle_dram_access :
    Config → Costs → ℕ → ℕ → ℕ → Access → StackedDram → StackedDram × ℕ
unfolding for_range
handle_dram_access c costs pkt_time pkt_size set_n access_type d =
    let r =
      for_range (rounds_of pkt_size costs.bandwidth) 0
        (access_step c costs pkt_time set_n access_type) (d, 0) in
    (r.0, if costs.on_top then r.1 else u64 (r.1 + ns costs.obus_delay))

-- The part of the controller that remapping reads and writes.
pub record Controller : Type 0 where
  pub sets : ℕ → CacheSet
  pub dram : StackedDram
  pub vault_num : ℕ
  pub cache_access : ℕ
  pub page_misses : ℕ
  pub block_misses : ℕ
  pub cache_access_no_roi : ℕ
  pub page_misses_no_roi : ℕ
  pub block_misses_no_roi : ℕ
  pub wb_blocks : ℕ
  pub invalid_times : ℕ
  pub invalid_blocks : ℕ
  pub migrate_times : ℕ
  pub migrate_blocks : ℕ

-- The controller in the loops of `checkRemapping`, with `cntlr_delay` and `writeback_blocks`.
pub record CheckState : Type 0 where
  pub cntlr : Controller
  pub cntlr_delay : ℕ → ℕ
  pub writeback_blocks : ℕ

abbrev pub add_delay : ℕ → ℕ → (ℕ → ℕ) → ℕ → ℕ
add_delay v x f = update f v (u64 (f v + x))

-- The row is invalid: its set is read and given up.
unfoldable pub invalidate_set : Config → Costs → ℕ → ℕ → ℕ → ℕ → CheckState → CheckState
invalidate_set c costs pkt_time v set_i wb s =
    let k = s.cntlr in
    let r = handle_dram_access c costs pkt_time (u32 (8 * wb * 64)) set_i read k.dram in
    record s {
      cntlr = record k {
        dram = r.0;
        sets = update k.sets set_i (invalidate_content (k.sets set_i)).0;
        invalid_times = u32 (k.invalid_times + 1);
        invalid_blocks = u32 (k.invalid_blocks + wb);
      };
      cntlr_delay =
          add_delay v r.1 (add_delay v (costs.rounded_latency (u32 (8 * 64 * wb))) s.cntlr_delay);
    }

-- The row was migrated: its set is read and written.
unfoldable pub migrate_set : Config → Costs → ℕ → ℕ → ℕ → ℕ → CheckState → CheckState
migrate_set c costs pkt_time v set_i blocks s =
    let k = s.cntlr in
    let size = u32 (blocks * 64) in
    let r = handle_dram_access c costs pkt_time size set_i read k.dram in
    let w = handle_dram_access c costs pkt_time size set_i write r.0 in
    record s {
      cntlr = record k {
        dram = w.0;
        migrate_times = u32 (k.migrate_times + 1);
        migrate_blocks = u32 (k.migrate_blocks + blocks);
      };
      cntlr_delay = add_delay v w.1 (add_delay v r.1 s.cntlr_delay);
    }

abbrev pub set_of : Config → ℕ → ℕ → ℕ → CheckState → ℕ
set_of c v b r s = get_set_num c s.cntlr.dram (record { vault = v; bank = b; row = r })

-- A row that is invalid, or was migrated.
unfoldable pub change_set : Config → Costs → ℕ → ℕ → ℕ → ℕ → CheckState → CheckState
change_set c costs pkt_time v b r s =
    let k = s.cntlr in
    let set_i = set_of c v b r s in
    if not (check_row_valid v b r k.dram)
    then invalidate_set c costs pkt_time v set_i (get_dirty_blocks (k.sets set_i)) s
    else if check_row_migrated v b r k.dram
    then migrate_set c costs pkt_time v set_i (get_valid_blocks (k.sets set_i)) s
    else s

-- The innermost loop body.
unfoldable pub check_row : Config → Costs → ℕ → ℕ → ℕ → ℕ → CheckState → CheckState
check_row c costs pkt_time v b r s =
    let k = s.cntlr in
    let wb = get_dirty_blocks (k.sets (set_of c v b r s)) in
    if check_row_valid v b r k.dram && not (check_row_migrated v b r k.dram)
    then s
    else record (change_set c costs pkt_time v b r s) {
      writeback_blocks = u32 ((change_set c costs pkt_time v b r s).writeback_blocks + wb);
    }

unfoldable pub check_bank : Config → Costs → ℕ → ℕ → ℕ → ℕ → CheckState → CheckState
check_bank c costs pkt_time row_num v b s = for_range row_num 0 (check_row c costs pkt_time v b) s

unfoldable pub check_vault : Config → Costs → ℕ → ℕ → ℕ → ℕ → CheckState → CheckState
check_vault c costs pkt_time bank_num row_num v s =
    for_range bank_num 0 (check_bank c costs pkt_time row_num v) s

unfoldable pub sweep : Config → Costs → ℕ → Controller → CheckState
sweep c costs pkt_time k =
    for_range k.vault_num 0
      (check_vault c costs pkt_time (2 ^ bank_bit c k.dram) (2 ^ row_bit c k.dram))
      (record { cntlr = k; cntlr_delay = λ i. 0; writeback_blocks = 0 })

-- The greatest delay of the controllers of the vaults.
unfoldable pub longest : ℕ → (ℕ → ℕ) → ℕ
unfolding for_range
longest vault_num delay = for_range vault_num 0 (λ i d. if ltb d (delay i) then delay i else d) 0

abbrev pub before_roi : Controller → Controller
before_roi k = record k {
  cache_access_no_roi = k.cache_access;
  page_misses_no_roi = k.page_misses;
  block_misses_no_roi = k.block_misses;
}

-- After the loops.
unfoldable pub finish_check : CheckState → Controller
finish_check s =
    let k = s.cntlr in
    record k {
      dram = record (clear_remapping_stat k.dram) { remapped = false };
      wb_blocks = u32 (k.wb_blocks + s.writeback_blocks);
    }

-- The loops and what follows them, if banks have moved.
unfoldable pub check_moved : Config → Costs → ℕ → Controller → Controller × ℕ
check_moved c costs pkt_time k =
    let s = sweep c costs pkt_time k in
    if k.dram.remapped then (finish_check s, longest k.vault_num s.cntlr_delay) else (k, 0)

-- `checkRemapping`: the controller, and the delay.
unfoldable pub check_remapping : Config → Costs → ℕ → Controller → Controller × ℕ
check_remapping c costs pkt_time k =
    check_moved c costs pkt_time (if k.dram.enter_roi then k else before_roi k)
