-- ===== src/Tests/Thermal.antt =====
-- Temperatures that arrive, and the theorems about them.
use sniper_zip.Prelude.{ℕ, ◌*◌, ◌/◌, ◌<◌, ◌≡◌, refl, ◌==◌, if◌then◌else◌, arith}
use sniper_zip.Remapping.{new_manager}
use sniper_zip.Dtm.Domains.{hz_at}
use sniper_zip.Thermal.{
  Setting, Interval, Thermal, get_dram_bank_temp, get_dram_cntlr_temp, accesses, call_hot_spot,
}
use sniper_zip.Thermal.Banks.{view, counted, entered, call_hot_spot-view}
use sniper_zip.Thermal.Hottest.{call_hot_spot-slows}
use sniper_zip.Tests.Addresses.{config, dram}
use sniper_zip.Tests.Dtm.{platform, at_top}

abbrev pub setting : Setting
setting = record {
  dram = config 1;
  platform = platform;
  unit_num = 328;
  temperature_type = 1;
  average = λ temps core. 0;
}

-- Bank 5 of vault 3 is the only hot one.
abbrev pub temps : ℕ → ℕ
temps i = if i == 235 then 90 else 60

abbrev interval : Interval
interval = record { reads = λ v b. 7; writes = λ v b. v }

abbrev pub before : Thermal
before = record {
  dram = record dram { n_vaults = 32; manager = new_manager 1 32 8 16 };
  dtm = at_top;
  prev_bank_temp = λ v b. 86;
  hot_access = λ v b. 1;
  cool_access = λ v b. 1;
  err_access = λ v b. 1;
}

sensed : (get_dram_bank_temp temps 3 5 ≡ 90) × (get_dram_cntlr_temp temps 3 ≡ 60)
unfolding get_dram_bank_temp get_dram_cntlr_temp
sensed = (refl, refl)

call_hot_spot-view_example :
    view (call_hot_spot setting temps interval before) 3 5
    ≡ counted setting
        (entered setting before.dram)
        (accesses interval 3 5)
        (get_dram_bank_temp temps 3 5)
        (view before 3 5)
call_hot_spot-view_example =
    call_hot_spot-view setting temps interval before 3 5 (omega arith) (omega arith) (omega arith)

-- The ten accesses count as hot.
ten_hot :
    counted setting
      (entered setting before.dram)
      (accesses interval 3 5)
      (get_dram_bank_temp temps 3 5)
      (view before 3 5)
    ≡ record { prev = 90; hot = 11; cool = 1; err = 1 }
unfolding get_dram_bank_temp
ten_hot = refl

hot_bank : 80 * 1 < get_dram_bank_temp temps 3 5
unfolding get_dram_bank_temp
hot_bank = omega arith

call_hot_spot-slows_example :
    let d = (call_hot_spot setting temps interval before).dtm in
    (d.freq_lev ≡ 3) × (d.domains (2 / 2) ≡ platform.period_of (hz_at platform 3))
call_hot_spot-slows_example =
    call_hot_spot-slows setting temps interval before 3 5 2 (omega arith) (omega arith)
      (omega arith) refl hot_bank (omega arith) (omega arith) (omega arith) (omega arith)
      (omega arith)
