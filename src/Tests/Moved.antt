-- ===== src/Tests/Moved.antt =====
-- A check of the cache after bank 0 became invalid, and the theorems about it.
use sniper_zip.Prelude.{
  ℕ, ◌*◌, ◌/◌, ◌<◌, ◌≡◌, refl, sym, ap, ◌∙◌, true, false, not, ◌==◌, inl, arith,
}
use sniper_zip.PageInfo.{new_page}
use sniper_zip.CacheSet.{CacheSet, new_set}
use sniper_zip.Remapping.{new_manager, get_bank_id, check_valid}
use sniper_zip.Remapping.Bank.{new_bank}
use sniper_zip.StackedDram.{
  StackedDram, Index, split_set_num, split_vbr, get_set_num, check_row_valid,
}
use sniper_zip.StackedDram.SetNumber.{IsMapped, split_set_num-get_set_num}
use sniper_zip.StackedDram.Latency.{Costs}
use sniper_zip.Controller.{Controller, check_remapping}
use sniper_zip.Controller.Emptying.{IsEmpty}
use sniper_zip.Controller.Sweep.{check_remapping_lem}
use sniper_zip.Controller.Untouched.{AllClear, check_remapping-same}
use sniper_zip.Tests.Addresses.{config, dram}

-- Every request costs 3 ns.
abbrev pub costs : Costs
costs = record {
  max_block = 128;
  bandwidth = 128;
  obus_delay = 1;
  on_top = true;
  freq_table = λ lev. 1000 * lev;
  clocks = λ all. 9;
  clocks_ns = λ freq clocks. clocks / 3;
  rounded_latency = λ bits. bits;
}

abbrev pub moved : StackedDram
moved = record dram {
  remapped = true;
  manager = record (new_manager 1 4 8 16) {
    bank_stat = λ i. record (new_bank i) { valid = not (i == 0) };
  };
}

abbrev dirty : CacheSet
dirty = record (new_set 4) { pages = λ j. record new_page { tag = j; dbits_0 = 5 } }

abbrev cntlr : Controller
cntlr = record {
  sets = λ x. dirty;
  dram = moved;
  vault_num = 4;
  cache_access = 0;
  page_misses = 0;
  block_misses = 0;
  cache_access_no_roi = 0;
  page_misses_no_roi = 0;
  block_misses_no_roi = 0;
  wb_blocks = 0;
  invalid_times = 0;
  invalid_blocks = 0;
  migrate_times = 0;
  migrate_blocks = 0;
}

check_remapping_lem_example :
    let done = (check_remapping (config 1) costs 0 cntlr).0 in
    IsEmpty (done.sets (get_set_num (config 1) moved (record { vault = 0; bank = 0; row = 9 })))
    × (done.dram.remapped ≡ false)
unfolding new_manager new_bank check_row_valid check_valid get_bank_id
check_remapping_lem_example =
    check_remapping_lem (config 1) costs 0 0 0 9 cntlr refl (omega arith) (omega arith)
      (omega arith) refl

first_bank : (v b : ℕ) → v < 4 → b < 8 → (r : ℕ) → check_row_valid v b r moved ≡ false → v ≡ 0
unfolding new_manager new_bank check_row_valid check_valid get_bank_id
first_bank v b hv hb r e = ground arith

-- The set 310 is of vault 2.
clear : AllClear (config 1) cntlr 310
unfolding AllClear IsMapped split_set_num split_vbr new_manager
clear v b r hv hb hr e same =
    let i : Index = record { vault = v; bank = b; row = r } in
    let back =
      split_set_num-get_set_num (config 1) moved i (inl refl)
        (record { vault_inside = hv; bank_inside = hb; row_inside = hr; fits = omega arith }) in
    let two : 2 ≡ v =
      ap (λ (j : Index). j.vault)
        (ap (λ (x : ℕ). split_set_num (config 1) moved x) (sym same) ∙ back) in
    omega (arith, two, first_bank v b hv hb r e)

check_remapping-same_example : (check_remapping (config 1) costs 0 cntlr).0.sets 310 ≡ dirty
check_remapping-same_example = check_remapping-same (config 1) costs 0 310 cntlr clear
