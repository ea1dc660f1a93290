-- ===== src/Tests/NewRemapping.antt =====
-- The second thermal manager at work, and the theorems about it.
use sniper_zip.Prelude.{
  ℕ, ◌+◌, ◌<◌, ◌≤◌, ◌≡◌, ◌⊎◌, refl, true, [], ◌∷◌, List, arith, ◌==◌, if◌then◌else◌, ltb,
}
use sniper_zip.NewRemapping.{
  RemappingManager, new_manager, set_remap_config, run_mechanism, find_target, search_begin,
  search_end, search_step,
}
use sniper_zip.NewRemapping.Settled.{settled, is_cool_bank, run_mechanism-threshold}
use sniper_zip.NewRemapping.Target.{IsFree, temp, find_target_within}
use sniper_zip.NewRemapping.Inside.{
  ManagerCall, configures, heats, accesses, resets, runs, calls, calls_inside,
}

-- Two vaults of 2 banks, temperatures in tenths of a degree; bank 0 is hot, and bank 2 is a little
-- cooler than bank 1.
abbrev manager : ℕ → RemappingManager
manager policy =
    record (set_remap_config policy true 85 95 75 40 (new_manager 10 (0, 0, 0, 0) 2 2 8)) {
      phy_banks = λ i. record {
        logical_bank = i;
        temperature = if i == 0 then 900 else if i == 1 then 802 else if i == 2 then 801 else 850;
        valid = true;
      };
    }

run_mechanism-threshold_example : (run_mechanism (manager 0)).bank_stat 0 ≡ (
    if ltb 0 4
    then settled (is_cool_bank (manager 0) 0) ((manager 0).bank_stat 0)
    else (manager 0).bank_stat 0)
unfolding new_manager set_remap_config
run_mechanism-threshold_example = run_mechanism-threshold (manager 0) 0 refl

find_target_within_example :
    let m = manager 1 in
    let a = search_begin 0 m in
    let e = search_end 0 m in
    let t = (find_target 0 m).target in
    ((t ≡ 0) × ((j : ℕ) → a ≤ j → j < e → ¬ IsFree m j))
    ⊎ ((a ≤ t)
        × (t < e)
        × IsFree m t
        × ((j : ℕ) → a ≤ j → j < e → IsFree m j → temp m t < temp m j + 10))
unfolding new_manager set_remap_config
find_target_within_example = find_target_within (manager 1) 0 (λ j. refl) (omega arith)

-- The search takes bank 1, though bank 2 is cooler.
find_target_runs : (find_target 0 (manager 1)).target ≡ 1
unfolding find_target search_begin search_end search_step new_manager set_remap_config
find_target_runs = refl

abbrev history : List ManagerCall
history =
    configures 1 true 85 95 75 40
    ∷ heats 0 0 900
    ∷ accesses 0 1 5
    ∷ runs
    ∷ heats 0 0 700
    ∷ resets true
    ∷ runs
    ∷ []

calls_inside_example :
    let s = (calls history (new_manager 10 (0, 0, 0, 0) 2 2 8)).bank_stat 3 in
    (s.logical_id < 4) × (s.physical_id ≡ s.logical_id)
calls_inside_example =
    calls_inside 10 (0, 0, 0, 0) 2 2 8 history 3 (omega arith) (omega arith) (omega arith)
