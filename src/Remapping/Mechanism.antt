-- ===== src/Remapping/Mechanism.antt =====
-- `RemappingManager::runMechanism` of performance_model/remapping.cc: the thermal policy, run over
-- the banks in order. The local counts of hot and cool banks are never read and are left out.
use sniper_zip.Prelude.{
  ℕ, ◌+◌, ◌-◌, ◌*◌, ◌/◌, Bool, true, false, not, ◌==◌, if◌then◌else◌, ◌||◌, ◌&&◌, ltb, u32,
  for_range,
}
use sniper_zip.Remapping.{
  RemappingManager, unrecognized_policy, set_bank, set_phy_valid, print, is_below, is_high,
  reset_bank, combine_with,
}
use sniper_zip.Remapping.Bank.{set_valid, set_disabled}

-- Count a recovery and reset the bank.
unfoldable pub recover : ℕ → RemappingManager → RemappingManager
unfolding reset_bank
recover bank_id m = reset_bank bank_id (record m { recovery_times = m.recovery_times + 1 })

-- Disable a bank and give up its content.
unfoldable pub disable : ℕ → ℕ → RemappingManager → RemappingManager
unfolding set_disabled set_valid
disable bank_id physical_bank m =
    set_phy_valid physical_bank false
      (set_bank bank_id (set_valid false) (set_bank bank_id (set_disabled true) m))

-- `_n_remap == 0`, the first test: a disabled bank that has cooled down is recovered.
unfoldable pub cool_disabled : ℕ → ℕ → RemappingManager → RemappingManager
unfolding recover
cool_disabled bank_id bank_temp m =
    if is_below m bank_temp m.remap_thres && (m.bank_stat bank_id).disabled
    then recover bank_id m
    else m

-- The second test: a hot bank is disabled.
unfoldable pub heat : ℕ → ℕ → ℕ → RemappingManager → RemappingManager
unfolding disable
heat bank_id physical_bank bank_temp m =
    if is_high m bank_temp && not (m.bank_stat bank_id).disabled
    then disable bank_id physical_bank (record m { disable_times = m.disable_times + 1 })
    else m

unfoldable pub run_disable : ℕ → RemappingManager → RemappingManager
unfolding cool_disabled heat
run_disable bank_id m =
    let physical_bank = (m.bank_stat bank_id).physical_id in
    let bank_temp = (m.phy_banks physical_bank).temperature in
    heat bank_id physical_bank bank_temp (cool_disabled bank_id bank_temp m)

-- The coolest bank found so far, and its temperature.
pub record Search : Type 0 where
  pub target : ℕ
  pub min_temp : ℕ

unfoldable pub search_step : RemappingManager → ℕ → Search → Search
search_step m j s =
    let log_bank = (m.phy_banks j).logical_bank in
    let temp = (m.phy_banks j).temperature in
    if (m.bank_stat log_bank).combined || (m.bank_stat log_bank).disabled
    then s
    else if is_below m temp m.remap_thres && ltb temp s.min_temp
    then record { target = log_bank; min_temp = temp }
    else s

-- The first index of the search, and the one behind its last.
unfoldable pub search_begin : ℕ → RemappingManager → ℕ
search_begin bank_id m = if m.inter_vault then 0 else bank_id / m.n_banks

unfoldable pub search_end : ℕ → RemappingManager → ℕ
search_end bank_id m = if m.inter_vault then m.tot_banks else u32 (bank_id / m.n_banks + m.n_banks)

-- The bank to combine `bank_id` with, or `bank_id` itself if there is none.
unfoldable pub find_target : ℕ → RemappingManager → ℕ
unfolding search_step search_begin search_end for_range
find_target bank_id m =
    let start : Search = record { target = bank_id; min_temp = 1000 * m.temp_unit } in
    (for_range (search_end bank_id m - search_begin bank_id m) (search_begin bank_id m)
      (search_step m) start).target

-- Combine a hot bank with the target of the search.
unfoldable pub combine : ℕ → ℕ → RemappingManager → RemappingManager
unfolding combine_with
combine bank_id target m =
    set_phy_valid target false
      (combine_with bank_id target (record m { remap_times = m.remap_times + 1 }))

-- A hot bank that has another combined with it is disabled with that one; a bank that was combined
-- with another is left alone.
unfoldable pub disable_pair : ℕ → ℕ → ℕ → RemappingManager → RemappingManager
unfolding disable set_disabled
disable_pair bank_id logical_bank physical_bank m =
    if logical_bank == physical_bank
    then disable bank_id physical_bank (
        set_bank (m.bank_stat bank_id).remap_id (set_disabled true)
          (record m { double_disable_times = m.double_disable_times + 1 }))
    else m

unfoldable pub disable_enabled : ℕ → ℕ → ℕ → RemappingManager → RemappingManager
unfolding disable_pair disable
disable_enabled bank_id logical_bank physical_bank m =
    if (m.bank_stat bank_id).combined
    then disable_pair bank_id logical_bank physical_bank m
    else disable bank_id physical_bank (record m { disable_times = m.disable_times + 1 })

-- A hot bank that was not combined now is disabled, unless it is already.
unfoldable pub disable_hot : ℕ → ℕ → ℕ → RemappingManager → RemappingManager
unfolding disable_enabled
disable_hot bank_id logical_bank physical_bank m =
    if (m.bank_stat bank_id).disabled
    then m
    else disable_enabled bank_id logical_bank physical_bank m

-- `_n_remap == 1`, the first test: a combined or disabled bank that has cooled down is recovered.
unfoldable pub cool_combined : ℕ → ℕ → ℕ → RemappingManager → RemappingManager
unfolding recover
cool_combined bank_id logical_bank bank_temp m =
    if is_below m bank_temp m.remap_thres
      && (not (logical_bank == bank_id) || (m.bank_stat bank_id).disabled)
    then recover bank_id m
    else m

-- The test whether a bank is hot and not yet taken care of.
unfoldable pub is_hot_free : ℕ → ℕ → RemappingManager → Bool
is_hot_free bank_id bank_temp m =
    is_high m bank_temp
    && (not (m.bank_stat bank_id).combined && not (m.bank_stat bank_id).disabled)

unfoldable pub disable_if_hot : ℕ → ℕ → ℕ → ℕ → RemappingManager → RemappingManager
unfolding disable_hot
disable_if_hot bank_id logical_bank physical_bank bank_temp m =
    if is_high m bank_temp then disable_hot bank_id logical_bank physical_bank m else m

-- A hot bank is combined with a cool one, and disabled where there is none.
unfoldable pub combine_or_disable : ℕ → ℕ → ℕ → ℕ → RemappingManager → RemappingManager
unfolding is_hot_free find_target combine disable_if_hot
combine_or_disable bank_id logical_bank physical_bank bank_temp m =
    let target = find_target bank_id m in
    if is_hot_free bank_id bank_temp m && not (target == bank_id)
    then combine bank_id target m
    else disable_if_hot bank_id logical_bank physical_bank bank_temp m

unfoldable pub run_combine : ℕ → RemappingManager → RemappingManager
unfolding cool_combined combine_or_disable
run_combine bank_id m =
    let bank = m.bank_stat bank_id in
    let bank_temp = (m.phy_banks bank.physical_id).temperature in
    combine_or_disable bank_id bank.logical_id bank.physical_id bank_temp
      (cool_combined bank_id bank.logical_id bank_temp m)

unfoldable pub run_bank : ℕ → RemappingManager → RemappingManager
unfolding run_disable run_combine
run_bank bank_id m =
    if m.n_remap == 0
    then run_disable bank_id m
    else if m.n_remap == 1
    then run_combine bank_id m
    else if m.n_remap == 2
    then m
    else print unrecognized_policy m

unfoldable pub run_mechanism : RemappingManager → RemappingManager
unfolding run_bank for_range
run_mechanism m = for_range m.tot_banks 0 run_bank m
