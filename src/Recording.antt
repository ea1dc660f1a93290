-- ===== src/Recording.antt =====
-- `recordStats` of misc/stats.cc as far as the stacked DRAM and its temperatures are concerned: `updatePower`
-- takes what the counters of each bank grew by since the last time, and `callHotSpot` follows once
-- the processor has used power. What `updateStats` reads from the DRAM simulator, the temperatures and
-- whether the power is above its limit are arguments. Power, times and the database are left out.
pub mod Taken
pub mod Conserved
use sniper_zip.Prelude.{ℕ, Bool, true, ◌||◌, if◌then◌else◌, List, [], ◌∷◌, update, sub32, for_range}
use sniper_zip.Thermal.{Setting, Interval, Thermal, update2, call_hot_spot}

pub record Recorder : Type 0 where
  pub thermal : Thermal
  pub n_banks : ℕ
  -- The counters of the banks when they were taken last, and their growth up to then.
  pub bank_stats : Interval
  pub interval : Interval
  pub start_hotspot : Bool

-- What a call of `recordStats` finds: the counters of the DRAM simulator for each bank of each vault,
-- whether the processor's power is above 0.001, and the temperatures.
pub record Found : Type 0 where
  pub counters : Interval
  pub powered : Bool
  pub unit_temp : ℕ → ℕ

-- A bank's growth, `updateBankStat` included.
unfoldable pub take_bank : Interval → ℕ → ℕ → Recorder → Recorder
take_bank n i j s = record s {
  interval = record {
    reads = update2 s.interval.reads i j (sub32 (n.reads i j) (s.bank_stats.reads i j));
    writes = update2 s.interval.writes i j (sub32 (n.writes i j) (s.bank_stats.writes i j));
  };
  bank_stats = record {
    reads = update2 s.bank_stats.reads i j (n.reads i j);
    writes = update2 s.bank_stats.writes i j (n.writes i j);
  };
}

unfoldable pub take_vault : Interval → ℕ → ℕ → Recorder → Recorder
unfolding take_bank for_range
take_vault n n_banks i s = for_range n_banks 0 (take_bank n i) s

-- The loops of `updatePower` over the vaults and their banks.
unfoldable pub update_power : Interval → Recorder → Recorder
unfolding take_vault for_range
update_power n s = for_range s.thermal.dram.n_vaults 0 (take_vault n s.n_banks) s

-- `recordStats`.
unfoldable pub record_stats : Setting → Found → Recorder → Recorder
unfolding update_power call_hot_spot
record_stats c found s =
    let taken = update_power found.counters s in
    if found.powered || taken.start_hotspot
    then record taken {
      thermal = call_hot_spot c found.unit_temp taken.interval taken.thermal;
      start_hotspot = true;
    }
    else taken

unfoldable pub record_all : Setting → List Found → Recorder → Recorder
record_all c [] s = s
record_all c (x ∷ xs) s = record_all c xs (record_stats c x s)
