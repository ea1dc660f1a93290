-- ===== src/Thermal.antt =====
-- What `callHotSpot` of misc/stats.cc does with the temperatures that HotSpot computed: it hands them to
-- the stacked DRAM, counts the accesses to hot and cool banks, checks the thermal management and starts
-- the remapping. The temperatures are an argument, in steps of 1 / `temp_unit` degree; what doubles make
-- of the average of a core's ten units is a parameter. Traces and values that are only printed are left
-- out.
pub mod Banks
pub mod Hottest
use sniper_zip.Prelude.{
  ℕ, ◌+◌, ◌-◌, ◌*◌, ◌/◌, ◌%◌, Bool, ◌==◌, if◌then◌else◌, ltb, leb, List, [], ◌∷◌, update, u32,
  for_range,
}
use sniper_zip.StackedDram.{
  Config, StackedDram, update_temperature, try_remapping, clear_cache_stats,
}
use sniper_zip.Dtm.{Platform, Dtm, check_dtm}

pub record Setting : Type 0 where
  pub dram : Config
  pub platform : Platform
  -- The units that HotSpot knows: 40 of the cores, a controller for each vault, the banks.
  pub unit_num : ℕ
  pub temperature_type : ℕ
  pub average : (ℕ → ℕ) → ℕ → ℕ

-- Reads and writes of the banks of each vault in the interval that ends, `bank_stats_interval`.
pub record Interval : Type 0 where
  pub reads : ℕ → ℕ → ℕ
  pub writes : ℕ → ℕ → ℕ

pub record Thermal : Type 0 where
  pub dram : StackedDram
  pub dtm : Dtm
  pub prev_bank_temp : ℕ → ℕ → ℕ
  -- Signed counters, by their 32 bits.
  pub hot_access : ℕ → ℕ → ℕ
  pub cool_access : ℕ → ℕ → ℕ
  pub err_access : ℕ → ℕ → ℕ

-- The variables of the loop over the units.
pub record Reading : Type 0 where
  pub thermal : Thermal
  pub max_bank_temp : ℕ
  pub core_max_temp : ℕ → ℕ

unfoldable pub get_dram_cntlr_temp : (ℕ → ℕ) → ℕ → ℕ
get_dram_cntlr_temp unit_temp vault_num = unit_temp (40 + vault_num)

unfoldable pub get_dram_bank_temp : (ℕ → ℕ) → ℕ → ℕ → ℕ
get_dram_bank_temp unit_temp vault_num bank_num = unit_temp (40 + 32 + bank_num * 32 + vault_num)

abbrev pub update2 : (ℕ → ℕ → ℕ) → ℕ → ℕ → ℕ → ℕ → ℕ → ℕ
update2 f v b x = update f v (update (f v) b x)

abbrev pub accesses : Interval → ℕ → ℕ → ℕ
accesses n v b = u32 (n.reads v b + n.writes v b)

-- A counter of a bank takes the accesses of the interval.
abbrev pub count : Interval → ℕ → ℕ → (ℕ → ℕ → ℕ) → ℕ → ℕ → ℕ
count n v b f = update2 f v b (u32 (f v b + accesses n v b))

-- The accesses are hot or cool by the temperature of the bank at the previous call.
unfoldable pub count_accesses : Setting → Interval → ℕ → ℕ → Thermal → Thermal
count_accesses c n v b s =
    let above = λ (degrees : ℕ). ltb (degrees * c.platform.temp_unit) (s.prev_bank_temp v b) in
    if above 85
    then record s {
      hot_access = count n v b s.hot_access;
      err_access = if above 95 then count n v b s.err_access else s.err_access;
    }
    else if s.dram.enter_roi
    then record s { cool_access = count n v b s.cool_access }
    else s

-- The temperature of a bank.
unfoldable pub bank_step : Setting → Interval → ℕ → ℕ → ℕ → Reading → Reading
unfolding update_temperature count_accesses
bank_step c n v b temp r =
    let told = record r.thermal { dram = update_temperature c.dram v b temp r.thermal.dram } in
    let s = count_accesses c n v b told in
    record r {
      max_bank_temp = if ltb r.max_bank_temp temp then temp else r.max_bank_temp;
      thermal = record s { prev_bank_temp = update2 s.prev_bank_temp v b temp };
    }

unfoldable pub core_step : ℕ → ℕ → Reading → Reading
core_step core temp r =
    if ltb (r.core_max_temp core) temp
    then record r { core_max_temp = update r.core_max_temp core temp }
    else r

-- The body of the loop over the units.
unfoldable pub unit_step : Setting → (ℕ → ℕ) → Interval → ℕ → Reading → Reading
unfolding bank_step core_step
unit_step c unit_temp n i r =
    if ltb i 40
    then core_step (i / 10) (unit_temp i) r
    else if leb 72 i
    then bank_step c n ((i - 72) % 32) ((i - 72) / 32) (unit_temp i) r
    else r

abbrev pub new_reading : Thermal → Reading
new_reading s = record { thermal = s; max_bank_temp = 0; core_max_temp = λ core. 0 }

unfoldable pub read_units : Setting → (ℕ → ℕ) → Interval → Thermal → Reading
unfolding unit_step for_range
read_units c unit_temp n s = for_range c.unit_num 0 (unit_step c unit_temp n) (new_reading s)

-- What the thermal management is told of the cores.
abbrev pub core_temps : Setting → (ℕ → ℕ) → Reading → List ℕ
core_temps c unit_temp r =
    let temp = λ (core : ℕ).
      if c.temperature_type == 0 then c.average unit_temp core else r.core_max_temp core in
    temp 0 ∷ temp 1 ∷ temp 2 ∷ temp 3 ∷ []

-- `callHotSpot`, from the temperatures on.
unfoldable pub call_hot_spot : Setting → (ℕ → ℕ) → Interval → Thermal → Thermal
unfolding read_units check_dtm try_remapping clear_cache_stats
call_hot_spot c unit_temp n s =
    let r = read_units c unit_temp n s in
    let dtm = check_dtm c.platform (core_temps c unit_temp r) r.max_bank_temp r.thermal.dtm in
    record r.thermal {
      dtm = dtm;
      dram = clear_cache_stats (try_remapping (record r.thermal.dram { freq_lev = dtm.freq_lev }));
    }
