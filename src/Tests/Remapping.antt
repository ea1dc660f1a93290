-- ===== src/Tests/Remapping.antt =====
-- The remapping policies at work on two vaults of two banks, and their theorems there.
use sniper_zip.Prelude.{
  ℕ, ◌+◌, ◌*◌, ◌/◌, ◌%◌, ◌<◌, ◌≤◌, ◌≡◌, ◌≢◌, ◌⊎◌, refl, true, false, if◌then◌else◌, ltb, List, [],
  ◌∷◌, ◌++◌, arith, u32,
}
use sniper_zip.Remapping.{
  RemappingManager, split_id, get_bank_id, get_logical_index, get_physical_index,
}
use sniper_zip.Remapping.Mechanism.{run_mechanism, find_target, search_begin, search_end}
use sniper_zip.Remapping.Target.{IsCandidate, temp, find_target_lem, find_target_other_vault}
use sniper_zip.Remapping.Operations.{IsSafe}
use sniper_zip.Remapping.Runs.{
  Event, heats, accesses, resets, manages, run, configured, run-configured-IsSafe,
}
use sniper_zip.Remapping.Hysteresis.{settled_in, run_mechanism-settled}
use sniper_zip.Remapping.Index.{
  IsSized, split_id-get_bank_id, get_logical_index_lem, get_physical_index_collapsed,
}

-- 16 rows in a bank; high from 90 degrees on, cool below 80.
abbrev start : ℕ → RemappingManager
start n_remap = configured 1 2 2 16 n_remap true 90 100 80 60

-- Bank 3 becomes hot, and is combined with bank 0.
abbrev hot_bank : List Event
hot_bank = heats 1 1 95 ∷ accesses false 1 1 5 ∷ manages ∷ []

abbrev cooled_bank : List Event
cooled_bank = hot_bank ++ heats 1 1 70 ∷ manages ∷ resets false ∷ []

combined : RemappingManager
combined = run hot_bank (start 1)

disabled : RemappingManager
disabled = run hot_bank (start 0)

combined_goes_to_bank_0 : get_logical_index 1 1 5 combined ≡ (0, 0, 5)
unfolding combined get_logical_index run configured
combined_goes_to_bank_0 = refl

recovered : get_logical_index 1 1 5 (run cooled_bank (start 1)) ≡ (1, 1, 5)
unfolding get_logical_index run configured
recovered = refl

is_disabled : (disabled.bank_stat 3).disabled ≡ true
unfolding disabled run configured
is_disabled = refl

run-configured-IsSafe_example : IsSafe (2 * 2) 2 1 combined
unfolding combined
run-configured-IsSafe_example =
    run-configured-IsSafe hot_bank 1 2 2 16 1 true 90 100 80 60 (omega arith) (omega arith)
      (omega arith)

run_mechanism-settled_example :
    (run_mechanism disabled).bank_stat 3
    ≡ (if ltb 3 disabled.tot_banks then settled_in disabled 3 else disabled.bank_stat 3)
unfolding disabled run configured
run_mechanism-settled_example = run_mechanism-settled disabled 3 refl

combined-IsSized : IsSized 2 2 16 combined
unfolding combined run configured
combined-IsSized = record {
  banks = refl;
  rows = refl;
  small = omega arith;
  some_rows = omega arith;
}

split_id-get_bank_id_example :
    split_id (u32 (u32 (get_bank_id 1 0 combined * combined.n_rows) + 5)) combined ≡ (1, 0, 5)
split_id-get_bank_id_example =
    split_id-get_bank_id 1 0 5 combined combined-IsSized (omega arith) (omega arith) (omega arith)

get_logical_index_lem_example :
    let l = (combined.bank_stat (1 * 2 + 1)).logical_id in
    (get_logical_index 1 1 5 combined ≡ (l / 2, l % 2, 5))
    × (l < 2 * 2)
    × (get_logical_index 0 0 5 combined ≡ get_logical_index 1 1 5 combined
        → (0 * 2 + 0 ≡ 1 * 2 + 1) ⊎ (l ≡ 0 * 2 + 0) ⊎ (l ≡ 1 * 2 + 1))
get_logical_index_lem_example =
    get_logical_index_lem 1 1 0 0 5 combined combined-IsSized run-configured-IsSafe_example
      (omega arith) (omega arith) (omega arith) (omega arith) (omega arith)

get_physical_index_collapsed_example : get_physical_index 1 1 5 combined ≡ (0, 0, 3)
get_physical_index_collapsed_example =
    get_physical_index_collapsed 1 1 5 combined combined-IsSized run-configured-IsSafe_example
      (omega arith) (omega arith) (omega arith)

start-placed : (n : ℕ) → (j : ℕ) → ((start n).phy_banks j).logical_bank ≡ j
unfolding configured
start-placed n j = refl

find_target_lem_example :
    let m = start 1 in
    let t = find_target 3 m in
    ((t ≡ 3) × ((j : ℕ) → search_begin 3 m ≤ j → j < search_end 3 m → ¬ IsCandidate m j))
    ⊎ ((search_begin 3 m ≤ t)
        × (t < search_end 3 m)
        × IsCandidate m t
        × ((j : ℕ)
            → search_begin 3 m ≤ j
            → j < search_end 3 m
            → IsCandidate m j
            → temp m t ≤ temp m j)
        × ((j : ℕ)
            → search_begin 3 m ≤ j
            → j < search_end 3 m
            → IsCandidate m j
            → temp m j ≤ temp m t
            → t ≤ j))
find_target_lem_example = find_target_lem 3 (start 1) (start-placed 1)

-- Four vaults of two banks, combined within the vault: banks 6 and 7 are vault 3.
abbrev own_vaults : RemappingManager
own_vaults = configured 1 4 2 16 1 false 90 100 80 60

own_vaults_target : find_target 7 own_vaults ≡ 3
unfolding find_target configured
own_vaults_target = refl

own_vaults-placed : (j : ℕ) → (own_vaults.phy_banks j).logical_bank ≡ j
unfolding configured
own_vaults-placed j = refl

find_target_other_vault_example :
    let t = find_target 7 own_vaults in
    ((t ≡ 7) × ((j : ℕ) → 3 ≤ j → j < 3 + 2 → ¬ IsCandidate own_vaults j))
    ⊎ ((3 ≤ t) × (t < 3 + 2) × IsCandidate own_vaults t × (t / 2 ≢ 3))
unfolding configured
find_target_other_vault_example =
    find_target_other_vault 7 own_vaults own_vaults-placed refl (omega arith) (omega arith)
