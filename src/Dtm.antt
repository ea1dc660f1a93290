-- ===== src/Dtm.antt =====
-- Dynamic thermal management: `checkDTM`, `setGlobalFrequency` and `setFrequency` of misc/stats.cc, and
-- the clock domains of system/dvfs_manager.cc that they set. `ComponentPeriod::fromFreqHz` is a
-- parameter, and temperatures are counted in steps of 1 / `temp_unit` degree. The frequencies are those
-- that `StatsManager::init` computes from the configured one.
pub mod Domains
pub mod Slows
use sniper_zip.Prelude.{
  ℕ, ◌+◌, ◌-◌, ◌*◌, ◌/◌, Bool, not, ◌==◌, if◌then◌else◌, ◌||◌, ltb, List, [], ◌∷◌, update, u64,
  for_range,
}

-- What the code prints.
pub data Message : Type 0 where
  cpu_hot dram_hot unrecognized_method failed_frequency non_core : Message

pub record Platform : Type 0 where
  pub num_cores : ℕ
  pub cores_per_socket : ℕ
  pub period_of : ℕ → ℕ
  pub cpu_temp_thres : ℕ
  pub dram_temp_thres : ℕ
  pub dtm_method : ℕ
  -- In MHz.
  pub max_freq : ℕ
  pub freq_num : ℕ
  pub temp_unit : ℕ

-- `max_freq * 0.2`, cut to an integer.
abbrev pub min_freq : Platform → ℕ
min_freq p = p.max_freq / 5

abbrev pub freq_step : Platform → ℕ
freq_step p = (p.max_freq - min_freq p) / (p.freq_num - 1)

-- Of the table, the entries below the last, and the last.
unfoldable pub freq_table : Platform → ℕ → ℕ
freq_table p i = if ltb i (p.freq_num - 1) then min_freq p + freq_step p * i else p.max_freq

abbrev pub max_lev : Platform → ℕ
max_lev p = p.freq_num - 1

pub record Dtm : Type 0 where
  pub freq_lev : ℕ
  -- `app_proc_domains`, by their periods.
  pub domains : ℕ → ℕ
  -- How many instructions that account for a transition each core was given.
  pub delays : ℕ → ℕ
  pub log : List Message

abbrev pub print : Message → Dtm → Dtm
print e s = record s { log = e ∷ s.log }

unfoldable pub get_core_domain_id : Platform → ℕ → ℕ
get_core_domain_id p core_id = core_id / p.cores_per_socket

-- `setCoreDomain`.
unfoldable pub set_core_domain : Platform → ℕ → ℕ → Dtm → Dtm
unfolding get_core_domain_id
set_core_domain p core_id period s =
    let d = get_core_domain_id p core_id in
    if ltb core_id p.num_cores
    then record s {
      delays =
          if period == s.domains d
          then s.delays
          else update s.delays core_id (s.delays core_id + 1);
      domains = update s.domains d period;
    }
    else print non_core s

-- `setFrequency`.
unfoldable pub set_frequency : Platform → ℕ → ℕ → Dtm → Dtm
unfolding set_core_domain
set_frequency p core_num freq_in_mhz s =
    let freq_in_hz = u64 (freq_in_mhz * 1000000) in
    if ltb 0 freq_in_hz
    then set_core_domain p core_num (p.period_of freq_in_hz) s
    else print failed_frequency s

-- `setGlobalFrequency`.
unfoldable pub set_global_frequency : Platform → ℕ → Dtm → Dtm
unfolding set_frequency for_range
set_global_frequency p freq_in_mhz s =
    for_range p.num_cores 0 (λ c. set_frequency p c freq_in_mhz) s

-- One level down, or up.
unfoldable pub slow_down : Platform → Dtm → Dtm
unfolding set_global_frequency freq_table
slow_down p s =
    if ltb 0 s.freq_lev
    then set_global_frequency p (freq_table p (s.freq_lev - 1))
        (record s { freq_lev = s.freq_lev - 1 })
    else s

unfoldable pub speed_up : Platform → Dtm → Dtm
unfolding set_global_frequency freq_table
speed_up p s =
    if ltb s.freq_lev (max_lev p)
    then set_global_frequency p (freq_table p (s.freq_lev + 1))
        (record s { freq_lev = s.freq_lev + 1 })
    else s

-- The greatest of the temperatures, and 0.
unfoldable pub max_temp : List ℕ → ℕ → ℕ
max_temp [] t = t
max_temp (x ∷ xs) t = max_temp xs (if ltb t x then x else t)

-- `checkDTM`.
unfoldable pub check_dtm : Platform → List ℕ → ℕ → Dtm → Dtm
unfolding max_temp slow_down speed_up
check_dtm p cpu_temp dram_temp s =
    let cpu = ltb (p.cpu_temp_thres * p.temp_unit) (max_temp cpu_temp 0) in
    let dram = ltb (p.dram_temp_thres * p.temp_unit) dram_temp in
    if p.dtm_method == 0
    then s
    else if p.dtm_method == 1
    then (if cpu then slow_down p (print cpu_hot s) else speed_up p s)
    else if p.dtm_method == 2
    then (if cpu || dram
        then slow_down p (print (if cpu then cpu_hot else dram_hot) s)
        else speed_up p s)
    else print unrecognized_method s

-- Checks, one after the other, each with the temperatures of the cores and of the DRAM.
unfoldable pub check_all : Platform → List (List ℕ × ℕ) → Dtm → Dtm
check_all p [] s = s
check_all p (t ∷ ts) s = check_all p ts (check_dtm p t.0 t.1 s)
