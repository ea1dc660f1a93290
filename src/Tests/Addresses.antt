-- ===== src/Tests/Addresses.antt =====
-- Set numbers and addresses at work, and their theorems at concrete ones.
use sniper_zip.Prelude.{
  ℕ, ◌+◌, ◌*◌, ◌≡◌, ◌≢◌, refl, true, false, [], ◌∷◌, inr, inl, arith, ◌==◌, if◌then◌else◌, u64,
}
use sniper_zip.Remapping.{new_manager}
use sniper_zip.StackedDram.{Config, StackedDram, Index, split_set_num, get_set_num, split_rbv}
use sniper_zip.StackedDram.SetNumber.{
  IsMapped, get_set_num-split_set_num, split_set_num-get_set_num,
}
use sniper_zip.PageTable.{new_pages, translate_address, translate_all, page_address}
use sniper_zip.PageTable.Distinct.{translate_address-distinct}

-- The logarithm at the sizes of the example: 4 vaults of 8 banks of 16 rows.
abbrev log2 : ℕ → ℕ
log2 x = if x == 4 then 2 else if x == 8 then 3 else if x == 16 then 4 else 0

abbrev pub config : ℕ → Config
config addr_map = record {
  addr_map = addr_map;
  n_remap = 0;
  high_temp_thres = 85;
  in_roi = true;
  floor_log2 = log2;
}

abbrev pub dram : StackedDram
dram = record {
  n_vaults = 4;
  vault_size = 8192;
  bank_size = 1024;
  row_size = 64;
  tot_reads = 0;
  tot_writes = 0;
  tot_misses = 0;
  manager = new_manager 1 4 8 16;
  enable_remap = true;
  remapped = false;
  enter_roi = false;
  bank_level_refresh = false;
  hot = λ v b. false;
  freq_lev = 4;
  refreshed = [];
  last_req = 0;
  served = [];
  log = [];
}

-- Vault 2, bank 5 and row 9 in the mapping of rows, banks and vaults.
split_set_num_runs : split_set_num (config 3) dram 310 ≡ record { vault = 2; bank = 5; row = 9 }
unfolding split_set_num split_rbv
split_set_num_runs = refl

get_set_num-split_set_num_example :
    get_set_num (config 3) dram (split_set_num (config 3) dram 310) ≡ 310
unfolding IsMapped
get_set_num-split_set_num_example =
    get_set_num-split_set_num (config 3) dram 310 (inr (inr refl)) (omega arith)

abbrev index : Index
index = record { vault = 2; bank = 5; row = 9 }

split_set_num-get_set_num_example :
    split_set_num (config 2) dram (get_set_num (config 2) dram index) ≡ index
unfolding IsMapped
split_set_num-get_set_num_example =
    split_set_num-get_set_num (config 2) dram index (inr (inl refl)) (record {
      vault_inside = omega arith;
      bank_inside = omega arith;
      row_inside = omega arith;
      fits = omega arith;
    })

translate_address-distinct_example :
    let t = translate_all (70000 ∷ 5 ∷ []) new_pages in
    let r = translate_address 9000 t in
    let q = translate_address 70001 r.0 in (r.1 ≢ q.1) × ((translate_address 9000 q.0).1 ≡ r.1)
translate_address-distinct_example =
    translate_address-distinct (70000 ∷ 5 ∷ []) 9000 70001 (omega arith) (omega arith)

-- The third page of the program is the third physical page.
translate_address_runs :
    (translate_address 9000 (translate_all (70000 ∷ 5 ∷ []) new_pages)).1 ≡ 2 * 4096 + 808
unfolding translate_address translate_all new_pages page_address u64
translate_address_runs = refl
