-- ===== src/Tests/NewController.antt =====
-- The controller over the second manager at work, and the theorems about it.
use sniper_zip.Prelude.{◌+◌, ◌*◌, ◌^◌, ◌≡◌, ◌≢◌, refl, true, false, [], ◌∷◌, List, arith, u32}
use sniper_zip.NewRemapping
use sniper_zip.NewDram.{NewDram, NewCosts}
use sniper_zip.NewController.{NewCntlr, new_cntlr, check_remapping}
use sniper_zip.NewController.Migrates.{check_remapping_all}
use sniper_zip.NewController.Addresses.{whole, split_address-whole}
use sniper_zip.NewController.Requests.{
  split_address, Event, requests, heats, remaps, clears, happen_all,
}
use sniper_zip.NewController.Distinct.{happen_all-apart}
use sniper_zip.PageTable.{new_pages, translate_all, translate_address}
use sniper_zip.Request.Distinct.{IsDistinct}
use sniper_zip.Tests.Addresses.{config}
use sniper_zip.Tests.CacheSet.{x86}
use sniper_zip.Tests.Request.{load, store}

abbrev costs : NewCosts
costs = record { clocks = λ all. 7; clock_ns = 2; rounded_latency = λ bits. bits }

-- Four vaults of 8 banks of 16 rows.
abbrev dram : NewDram
dram = record {
  n_vaults = 4;
  vault_size = 8192;
  bank_size = 1024;
  row_size = 64;
  tot_reads = 0;
  tot_writes = 0;
  tot_misses = 0;
  manager = NewRemapping.new_manager 1 (85, 95, 75, 40) 4 8 16;
  remapped = true;
  enter_roi = false;
  bank_level_refresh = false;
  hot = λ v b. false;
  refreshed = [];
  last_req = 0;
  served = [];
  log = [];
}

abbrev cntlr : NewCntlr
cntlr = record (new_cntlr 16 4 64 1984 (0, 0, 0) dram) { vault_num = 4 }

-- All 4 * 8 * 16 rows.
check_remapping_all_example :
    let k' = (check_remapping (config 1) costs 0 cntlr).0 in
    u32 (k'.invalid_times + k'.migrate_times) ≡ u32 (0 + 0 + 4 * (2 ^ 3 * 2 ^ 4))
unfolding new_cntlr
check_remapping_all_example = check_remapping_all (config 1) costs 0 cntlr refl

split_address-whole_example :
    let t = translate_all (70000 ∷ 5 ∷ []) new_pages in
    let r = split_address (λ n. 4) 16 1984 9000 t in
    let q = split_address (λ n. 4) 16 1984 70001 r.0 in
    (whole 16 1984 r.1 ≡ (translate_address 9000 t).1) × (r.1 ≢ q.1)
split_address-whole_example =
    split_address-whole (λ n. 4) 16 1984 (70000 ∷ 5 ∷ []) 9000 70001 (omega arith) (omega arith)
      (omega arith) (omega arith)

abbrev events : List Event
events =
    requests (load 5000)
    ∷ heats 0 0 99
    ∷ remaps
    ∷ clears
    ∷ requests (store 9000)
    ∷ requests (load 5064)
    ∷ []

happen_all-apart_example :
    IsDistinct
      ((happen_all (config 1) costs x86 events (new_cntlr 16 4 64 1984 (0, 0, 0) dram)).sets 3)
happen_all-apart_example =
    happen_all-apart (config 1) costs x86 events 16 4 64 1984 (0, 0, 0) dram 3
