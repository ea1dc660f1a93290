-- ===== src/NewDram.antt =====
-- The stacked DRAM over the second manager: `StackedDramPerfUnison` of
-- performance_model/new_remapping/stacked_dram_cntlr.h and .cc. The DRAM simulator is a copy of another
-- project: the clocks that the latest of its requests takes, with those until it is accepted, are a
-- function of all of them and their times.
use sniper_zip.Prelude.{
  ℕ, ◌+◌, ◌*◌, ◌/◌, Bool, true, false, not, ◌==◌, if◌then◌else◌, ◌&&◌, leb, List, ◌∷◌, u32, u64,
  update, for_range,
}
use sniper_zip.DramBank.{ns}
use sniper_zip.DramVault.{Access, read, write}
use sniper_zip.StackedDram.{
  Message, set_number_differs, impossible_set_number, Config, Served, Index, split_vbr, split_bvr,
  split_rbv, shl32, join, mapping_log,
}
use sniper_zip.StackedDram.Latency.{rounds_of}
use sniper_zip.NewRemapping
use sniper_zip.NewRemapping.{RemappingManager}

pub record NewDram : Type 0 where
  pub n_vaults : ℕ
  pub vault_size : ℕ
  pub bank_size : ℕ
  pub row_size : ℕ
  pub tot_reads : ℕ
  pub tot_writes : ℕ
  pub tot_misses : ℕ
  pub manager : RemappingManager
  pub remapped : Bool
  pub enter_roi : Bool
  pub bank_level_refresh : Bool
  -- `stats.hot` of each bank of each vault.
  pub hot : ℕ → ℕ → Bool
  -- The calls of `setBankRef` on the DRAM simulator, the last one first.
  pub refreshed : List (ℕ × ℕ × Bool)
  pub last_req : ℕ
  -- The requests to the DRAM simulator, the last one first.
  pub served : List Served
  pub log : List Message

abbrev pub vault_bit : Config → NewDram → ℕ
vault_bit c d = c.floor_log2 d.n_vaults

abbrev pub bank_bit : Config → NewDram → ℕ
bank_bit c d = c.floor_log2 (d.vault_size / d.bank_size)

abbrev pub row_bit : Config → NewDram → ℕ
row_bit c d = c.floor_log2 (d.bank_size / d.row_size)

-- `splitSetNum`. Without such a mapping the index stays 0, as its callers set it.
unfoldable pub split_set_num : Config → NewDram → ℕ → Index
unfolding split_vbr split_bvr split_rbv
split_set_num c d x =
    if c.addr_map == 1
    then split_vbr (bank_bit c d) (row_bit c d) x
    else if c.addr_map == 2
    then split_bvr (vault_bit c d) (row_bit c d) x
    else if c.addr_map == 3
    then split_rbv (vault_bit c d) (bank_bit c d) x
    else record { vault = 0; bank = 0; row = 0 }

-- `getSetNum`.
unfoldable pub get_set_num : Config → NewDram → Index → ℕ
unfolding shl32 join
get_set_num c d i =
    let vb = vault_bit c d in
    let bb = bank_bit c d in
    let rb = row_bit c d in
    if c.addr_map == 1
    then join (shl32 (shl32 i.vault bb) rb) i.bank rb i.row
    else if c.addr_map == 2
    then join (shl32 (shl32 i.bank vb) rb) i.vault rb i.row
    else if c.addr_map == 3
    then join (shl32 (shl32 i.row vb) bb) i.bank vb i.vault
    else 0

abbrev print_if : Bool → Message → List Message → List Message
print_if b e l = if b then e ∷ l else l

-- The set number, split and put together again, as the callers check it.
unfoldable pub check_set_num : Config → ℕ → NewDram → NewDram
check_set_num c x d =
    let ss = get_set_num c d (split_set_num c d x) in
    record d {
      log = print_if (not (ss == x)) set_number_differs (mapping_log c (mapping_log c d.log));
    }

-- `getRemapSet`: where the accesses to a set go.
unfoldable pub get_remap_set : Config → ℕ → NewDram → NewDram × ℕ
get_remap_set c x d0 =
    let d = check_set_num c x d0 in
    let i = split_set_num c d x in
    let l = NewRemapping.get_logical_index i.vault i.bank i.row d.manager in
    let remap_set = get_set_num c d (record { vault = l.0; bank = l.1; row = l.2 }) in
    (
      record d {
        log =
            print_if (not (c.n_remap == 1) && not (remap_set == x)) impossible_set_number
              (mapping_log c d.log);
      },
      remap_set,
    )

-- What the parts outside the repository cost.
pub record NewCosts : Type 0 where
  -- The clocks of the latest request to the DRAM simulator.
  pub clocks : List Served → ℕ
  -- UInt64(tCK)
  pub clock_ns : ℕ
  -- m_dram_bandwidth.getRoundedLatency(bits)
  pub rounded_latency : ℕ → ℕ

-- One round of the loop on the requests.
unfoldable pub serve : NewCosts → Served → ℕ → NewDram × ℕ → NewDram × ℕ
serve costs q k (d, latency) =
    let all = q ∷ d.served in
    (record d { served = all }, u64 (latency + ns (u64 (costs.clock_ns * u32 (costs.clocks all)))))

abbrev pub count_request : Access → NewDram → NewDram
count_request read d = record d { tot_reads = u32 (d.tot_reads + 1) }
count_request write d = record d { tot_writes = u32 (d.tot_writes + 1) }

-- The statistics of a request: the time, the row's counter, and reads or writes.
unfoldable pub count_access : Config → ℕ → ℕ → Access → NewDram → NewDram
count_access c pkt_time set_i access_type d =
    let i = split_set_num c d set_i in
    count_request access_type (record d {
      last_req = pkt_time;
      manager = NewRemapping.access_row i.vault i.bank i.row d.manager;
    })

-- `getAccessLatency`: the DRAM, and the latency.
unfoldable pub get_access_latency : Config → NewCosts → ℕ → ℕ → ℕ → Access → NewDram → NewDram × ℕ
unfolding for_range
get_access_latency c costs pkt_time pkt_size set_i access_type d0 =
    let d = check_set_num c set_i d0 in
    let i = split_set_num c d set_i in
    let place = NewRemapping.get_physical_index i.vault i.bank i.row d.manager in
    let q : Served = record { access_type = access_type; place = place; time = pkt_time } in
    for_range (rounds_of pkt_size 128) 0 (serve costs q)
      (count_access c pkt_time set_i access_type d, 0)

unfoldable pub check_row_valid : ℕ → ℕ → ℕ → NewDram → Bool
unfolding NewRemapping.check_valid
check_row_valid v b r d = NewRemapping.check_valid v b r d.manager

unfoldable pub check_row_migrated : ℕ → ℕ → ℕ → NewDram → Bool
unfolding NewRemapping.check_migrated
check_row_migrated v b r d = NewRemapping.check_migrated v b r d.manager

unfoldable pub check_row_disabled : ℕ → ℕ → ℕ → NewDram → Bool
unfolding NewRemapping.check_disabled
check_row_disabled v b r d = NewRemapping.check_disabled v b r d.manager

unfoldable pub check_set_disabled : Config → ℕ → NewDram → Bool
unfolding split_set_num check_row_disabled
check_set_disabled c x d = let i = split_set_num c d x in check_row_disabled i.vault i.bank i.row d

-- `tryRemapping`: its body is a comment.
unfoldable pub try_remapping : NewDram → NewDram
try_remapping d = d

-- `clearRemappingStat`.
unfoldable pub clear_remapping_stat : NewDram → NewDram
unfolding NewRemapping.reset_stats
clear_remapping_stat d = record d { manager = NewRemapping.reset_stats false d.manager }

unfoldable pub clear_cache_stats : NewDram → NewDram
clear_cache_stats d = record d { tot_reads = 0; tot_writes = 0; tot_misses = 0 }

-- `updateTemperature`, with a temperature in whole degrees: the policy runs at once.
unfoldable pub update_temperature : Config → ℕ → ℕ → ℕ → NewDram → NewDram
unfolding NewRemapping.update_temperature
update_temperature c v b temperature d =
    let is_hot = leb c.high_temp_thres temperature in
    let m = NewRemapping.update_temperature v b (temperature * d.manager.temp_unit) d.manager in
    record d {
      enter_roi = if c.in_roi then true else d.enter_roi;
      manager = NewRemapping.run_mechanism m;
      remapped = true;
      hot = update d.hot v (update (d.hot v) b is_hot);
      refreshed = if d.bank_level_refresh then (v, b, is_hot) ∷ d.refreshed else d.refreshed;
    }
