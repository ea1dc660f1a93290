-- ===== src/StackedDram.antt =====
-- The stacked DRAM of a DRAM cache: `StackedDramPerfUnison` and `StackedDramPerfMem` of
-- performance_model/stacked_dram_cntlr.h and .cc. `floor_log2` and the configuration are not under
-- the repository and are parameters. `x & ((1UL << k) - 1)` is written `x % 2 ^ k`, and `x >> k` as
-- `x / 2 ^ k`.
pub mod SetNumber
pub mod Latency
use sniper_zip.Prelude.{
  ℕ, zero, suc, ◌+◌, ◌-◌, ◌*◌, ◌/◌, ◌%◌, ◌^◌, Bool, true, false, not, ◌==◌, if◌then◌else◌, ◌&&◌,
  leb, List, [], ◌∷◌, u32, update,
}
use Prim.Native.Nat.{bit_or}
use sniper_zip.Remapping
use sniper_zip.Remapping.{RemappingManager}
use sniper_zip.Remapping.Mechanism.{run_mechanism}
use sniper_zip.DramVault.{Access, VaultPerfModel, process_request}

-- What the code prints when it finds something that it does not expect.
pub data Message : Type 0 where
  no_such_mapping set_number_differs impossible_set_number : Message

-- The configuration keys that the modelled functions read, and floorLog2.
pub record Config : Type 0 where
  pub addr_map : ℕ
  pub n_remap : ℕ
  pub high_temp_thres : ℕ
  pub in_roi : Bool
  pub floor_log2 : ℕ → ℕ

-- A request to the DRAM simulator, which is a copy of another project: the physical place and the
-- time.
pub record Served : Type 0 where
  pub access_type : Access
  pub place : ℕ × ℕ × ℕ
  pub time : ℕ

pub record StackedDram : Type 0 where
  pub n_vaults : ℕ
  pub vault_size : ℕ
  pub bank_size : ℕ
  pub row_size : ℕ
  pub tot_reads : ℕ
  pub tot_writes : ℕ
  pub tot_misses : ℕ
  pub manager : RemappingManager
  pub enable_remap : Bool
  pub remapped : Bool
  pub enter_roi : Bool
  pub bank_level_refresh : Bool
  -- `freq_lev` of the statistics manager, which the latency is read from.
  pub freq_lev : ℕ
  -- `stats.hot` of each bank of each vault.
  pub hot : ℕ → ℕ → Bool
  -- The calls of `setBankRef` on the DRAM simulator, the last one first.
  pub refreshed : List (ℕ × ℕ × Bool)
  pub last_req : ℕ
  -- The requests to the DRAM simulator, the last one first.
  pub served : List Served
  pub log : List Message

abbrev pub vault_bit : Config → StackedDram → ℕ
vault_bit c d = c.floor_log2 d.n_vaults

abbrev pub bank_bit : Config → StackedDram → ℕ
bank_bit c d = c.floor_log2 (d.vault_size / d.bank_size)

abbrev pub row_bit : Config → StackedDram → ℕ
row_bit c d = c.floor_log2 (d.bank_size / d.row_size)

pub record Index : Type 0 where
  pub vault : ℕ
  pub bank : ℕ
  pub row : ℕ

-- The three mappings of `splitSetNum`.
unfoldable pub split_vbr : ℕ → ℕ → ℕ → Index
split_vbr bb rb x = record {
  vault = x / 2 ^ rb / 2 ^ bb;
  bank = x / 2 ^ rb % 2 ^ bb;
  row = x % 2 ^ rb;
}

unfoldable pub split_bvr : ℕ → ℕ → ℕ → Index
split_bvr vb rb x = record {
  vault = x / 2 ^ rb % 2 ^ vb;
  bank = x / 2 ^ rb / 2 ^ vb;
  row = x % 2 ^ rb;
}

unfoldable pub split_rbv : ℕ → ℕ → ℕ → Index
split_rbv vb bb x = record {
  vault = x % 2 ^ vb;
  bank = x / 2 ^ vb % 2 ^ bb;
  row = x / 2 ^ vb / 2 ^ bb;
}

-- `splitSetNum`. Without such a mapping the index stays 0, as its callers set it.
unfoldable pub split_set_num : Config → StackedDram → ℕ → Index
unfolding split_vbr split_bvr split_rbv
split_set_num c d x =
    if c.addr_map == 1
    then split_vbr (bank_bit c d) (row_bit c d) x
    else if c.addr_map == 2
    then split_bvr (vault_bit c d) (row_bit c d) x
    else if c.addr_map == 3
    then split_rbv (vault_bit c d) (bank_bit c d) x
    else record { vault = 0; bank = 0; row = 0 }

-- x << k on 32 bits.
unfoldable pub shl32 : ℕ → ℕ → ℕ
shl32 x k = u32 (x * 2 ^ k)

-- set_i = high; set_i |= middle << k; set_i |= low;
unfoldable pub join : ℕ → ℕ → ℕ → ℕ → ℕ
unfolding shl32
join high middle k low = bit_or (bit_or high (shl32 middle k)) low

-- `getSetNum`.
unfoldable pub get_set_num : Config → StackedDram → Index → ℕ
unfolding shl32 join
get_set_num c d i =
    let vb = vault_bit c d in
    let bb = bank_bit c d in
    let rb = row_bit c d in
    if c.addr_map == 1
    then join (shl32 (shl32 i.vault bb) rb) i.bank rb i.row
    else if c.addr_map == 2
    then join (shl32 (shl32 i.bank vb) rb) i.vault rb i.row
    else if c.addr_map == 3
    then join (shl32 (shl32 i.row vb) bb) i.bank vb i.vault
    else 0

abbrev print_if : Bool → Message → List Message → List Message
print_if b e l = if b then e ∷ l else l

-- The messages of a call of `splitSetNum` or `getSetNum`.
unfoldable pub mapping_log : Config → List Message → List Message
mapping_log c l =
    print_if (not (c.addr_map == 1) && not (c.addr_map == 2) && not (c.addr_map == 3))
      no_such_mapping l

-- The set number, split and put together again, as the callers check it.
unfoldable pub check_set_num : Config → ℕ → StackedDram → StackedDram
check_set_num c x d =
    let ss = get_set_num c d (split_set_num c d x) in
    record d {
      log = print_if (not (ss == x)) set_number_differs (mapping_log c (mapping_log c d.log));
    }

-- `getRemapSet`: where the accesses to a set go.
unfoldable pub get_remap_set : Config → ℕ → StackedDram → StackedDram × ℕ
get_remap_set c x d0 =
    let d = check_set_num c x d0 in
    let i = split_set_num c d x in
    let l = Remapping.get_logical_index i.vault i.bank i.row d.manager in
    let remap_set = get_set_num c d (record { vault = l.0; bank = l.1; row = l.2 }) in
    (
      record d {
        log =
            print_if (not (c.n_remap == 1) && not (remap_set == x)) impossible_set_number
              (mapping_log c d.log);
      },
      remap_set,
    )

-- `tryRemapping`.
unfoldable pub try_remapping : StackedDram → StackedDram
unfolding run_mechanism
try_remapping d =
    if d.remapped && d.enable_remap then record d { manager = run_mechanism d.manager } else d

unfoldable pub check_row_valid : ℕ → ℕ → ℕ → StackedDram → Bool
unfolding Remapping.check_valid
check_row_valid v b r d = Remapping.check_valid v b r d.manager

unfoldable pub check_row_migrated : ℕ → ℕ → ℕ → StackedDram → Bool
unfolding Remapping.check_migrated
check_row_migrated v b r d = Remapping.check_migrated v b r d.manager

unfoldable pub check_row_disabled : ℕ → ℕ → ℕ → StackedDram → Bool
unfolding Remapping.check_disabled
check_row_disabled v b r d = Remapping.check_disabled v b r d.manager

unfoldable pub check_set_disabled : Config → ℕ → StackedDram → Bool
unfolding split_set_num check_row_disabled
check_set_disabled c x d = let i = split_set_num c d x in check_row_disabled i.vault i.bank i.row d

-- `clearRemappingStat`.
unfoldable pub clear_remapping_stat : StackedDram → StackedDram
unfolding Remapping.reset_stats
clear_remapping_stat d = record d { manager = Remapping.reset_stats false d.manager }

unfoldable pub clear_cache_stats : StackedDram → StackedDram
clear_cache_stats d = record d { tot_reads = 0; tot_writes = 0; tot_misses = 0 }

-- `updateTemperature`, with a temperature in steps of 1 / `temp_unit` of a degree.
unfoldable pub update_temperature : Config → ℕ → ℕ → ℕ → StackedDram → StackedDram
unfolding Remapping.update_temperature
update_temperature c v b temperature d =
    let is_hot = leb (c.high_temp_thres * d.manager.temp_unit) temperature in
    record d {
      enter_roi = if c.in_roi then true else d.enter_roi;
      manager = Remapping.update_temperature v b temperature d.manager;
      remapped = true;
      hot = update d.hot v (update (d.hot v) b is_hot);
      refreshed = if d.bank_level_refresh then (v, b, is_hot) ∷ d.refreshed else d.refreshed;
    }

-- OFF_BIT, VAULT_BIT, BANK_BIT and PART_BIT of fixed_types.h.
abbrev pub off_bit : ℕ
off_bit = 5

abbrev pub vault_bits : ℕ
vault_bits = 5

abbrev pub bank_bits : ℕ
bank_bits = 1

abbrev pub part_bits : ℕ
part_bits = 2

-- The vault, bank and row of an address in `StackedDramPerfMem::getAccessLatency`.
unfoldable pub split_mem : (ℕ → ℕ) → ℕ → ℕ → Index
split_mem floor_log2 row_size address =
    let offset = address % 2 ^ off_bit in
    let a0 = address / 2 ^ off_bit in
    let v = a0 % 2 ^ vault_bits in
    let a1 = a0 / 2 ^ vault_bits in
    let b = a1 % 2 ^ bank_bits in
    let a2 = a1 / 2 ^ bank_bits in
    let p = a2 % 2 ^ part_bits in
    let a3 = a2 / 2 ^ part_bits in
    let rest = bit_or (a3 * 2 ^ off_bit) offset in
    record { vault = v; bank = p * 2 + b; row = rest / 2 ^ floor_log2 row_size % 2 ^ 11 }

-- `StackedDramPerfMem::getAccessLatency`: the vaults, and the latency.
unfoldable pub mem_access_latency :
    (ℕ → ℕ) → ℕ → ℕ → ℕ → Access → (ℕ → VaultPerfModel) → (ℕ → VaultPerfModel) × ℕ
unfolding split_mem process_request
mem_access_latency floor_log2 row_size pkt_time address access_type vaults =
    let i = split_mem floor_log2 row_size address in
    let r = process_request pkt_time access_type i.bank i.row (vaults i.vault) in
    (update vaults i.vault r.0, r.1)
