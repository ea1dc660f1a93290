-- ===== src/BankTable.antt =====
-- Banks that are swapped within a vault: `BankRemappingEntry` and `BankRemappingStructure` of
-- performance_model/bank_remap.h and .cc. The statistics manager is not under the repository: the
-- temperature of a physical bank of a physical vault is a function, in steps of 1 / `temp_unit` of a
-- degree. An interval in ms is compared as the exact number of femtoseconds.
pub mod Swap
pub mod Balance
use sniper_zip.Prelude.{
  ℕ, zero, suc, ◌+◌, ◌*◌, ◌/◌, Bool, true, false, refl, not, ◌==◌, if◌then◌else◌, ◌&&◌, ltb, update,
  for_range, u32, sub64,
}
use sniper_zip.DramBank.{BankStatEntry, zero_stats}
use sniper_zip.DramVault.{Access, read, write}
use sniper_zip.SwapTable.{SwapEntry, remap, marked, swap_entries, data_mov}

pub record BankRemappingEntry : Type 0 where
  pub idx : ℕ
  pub ridx : ℕ
  pub valid : Bool
  pub orig : Bool
  pub changed : Bool
  pub n_access : ℕ
  pub level : ℕ
  pub stats : BankStatEntry

-- The constructor.
unfoldable pub new_entry : ℕ → BankRemappingEntry
new_entry idx = record {
  idx = idx;
  ridx = idx;
  valid = true;
  orig = true;
  changed = false;
  n_access = 0;
  level = idx / 2;
  stats = zero_stats;
}

unfoldable pub clear_access : BankRemappingEntry → BankRemappingEntry
clear_access e = record e { n_access = 0 }

abbrev pub set_changed_bit : Bool → BankRemappingEntry → BankRemappingEntry
set_changed_bit changed e = record e { changed = changed }

abbrev pub set_valid_bit : Bool → BankRemappingEntry → BankRemappingEntry
set_valid_bit valid e = record e { valid = valid }

-- `remapTo`, with `clearStats`.
unfoldable pub entry_remap_to : ℕ → BankRemappingEntry → BankRemappingEntry
entry_remap_to idx e = record e {
  ridx = idx;
  stats = zero_stats;
  orig = idx == e.idx;
  valid = false;
}

-- `BankRemappingEntry::accessOnce`; its latency is always 0.
unfoldable pub entry_access_once : Access → BankRemappingEntry → BankRemappingEntry
entry_access_once write e = record e {
  n_access = e.n_access + 1;
  stats = record e.stats { writes = u32 (e.stats.writes + 1) };
}
entry_access_once read e = record e {
  n_access = e.n_access + 1;
  stats = record e.stats { reads = u32 (e.stats.reads + 1) };
}

instance unfoldable pub bank_entry : SwapEntry BankRemappingEntry
unfolding entry_remap_to clear_access
bank_entry = record {
  idx = λ e. e.idx;
  ridx = λ e. e.ridx;
  orig = λ e. e.orig;
  remap_to = entry_remap_to;
  mark = λ e. clear_access (set_changed_bit true e);
  idx-remap_to = λ x e. refl;
  ridx-remap_to = λ x e. refl;
  orig-remap_to = λ x e. refl;
  idx-mark = λ e. refl;
  ridx-mark = λ e. refl;
  orig-mark = λ e. refl;
}

pub record BankRemappingStructure : Type 0 where
  pub arr : ℕ → BankRemappingEntry
  pub last_time : ℕ
  pub current_time : ℕ
  pub n_banks : ℕ
  pub copy_times : ℕ

-- The constructor.
unfoldable pub new_table : ℕ → BankRemappingStructure
new_table bank_num = record {
  arr = new_entry;
  last_time = 0;
  current_time = 0;
  n_banks = bank_num;
  copy_times = 0;
}

-- `swap`.
unfoldable pub swap : ℕ → ℕ → BankRemappingStructure → BankRemappingStructure
unfolding swap_entries data_mov
swap src des s = record s {
  arr = swap_entries src des s.arr;
  copy_times = s.copy_times + data_mov (s.arr src).orig (s.arr des).orig (src == des);
}

-- `getBankIdx`: the physical bank, and the valid bit.
unfoldable pub get_bank_idx : ℕ → BankRemappingStructure → ℕ × Bool
get_bank_idx idx s = ((s.arr idx).ridx, (s.arr idx).valid)

unfoldable pub is_valid : ℕ → BankRemappingStructure → Bool
is_valid idx s = (s.arr idx).valid

unfoldable pub set_valid : ℕ → BankRemappingStructure → BankRemappingStructure
set_valid idx s = record s { arr = update s.arr idx (set_valid_bit true (s.arr idx)) }

unfoldable pub set_invalid : ℕ → BankRemappingStructure → BankRemappingStructure
set_invalid idx s = record s { arr = update s.arr idx (set_valid_bit false (s.arr idx)) }

-- One round of the loop of `clearAllAccess`.
unfoldable pub clear_bank : ℕ → (ℕ → BankRemappingEntry) → ℕ → BankRemappingEntry
unfolding clear_access
clear_bank i t = update t i (set_changed_bit false (clear_access (t i)))

unfoldable pub clear_all_access : BankRemappingStructure → BankRemappingStructure
unfolding for_range clear_bank
clear_all_access s = record s {
  arr = for_range s.n_banks 0 clear_bank s.arr;
  last_time = s.current_time;
}

-- interval_ms > update_time + 0.1
abbrev pub clear_interval : ℕ
clear_interval = 110000000000

-- `isTooHot`: its branch that says so is disabled (`if (0)`), so it only clears the counts after an
-- interval. The line that it prints is not modelled.
unfoldable pub is_too_hot : BankRemappingStructure → BankRemappingStructure × Bool
unfolding clear_all_access
is_too_hot s =
    (if ltb clear_interval (sub64 s.current_time s.last_time) then clear_all_access s else s, false)

-- The locals `min_temp` and `target` of `balanceBanks`.
pub record Coolest : Type 0 where
  pub min_temp : ℕ
  pub target : ℕ

-- One round of its loop. The temperature is that of the bank `idx` in every round.
unfoldable pub coolest_step : (ℕ → ℕ → ℕ) → ℕ → ℕ → BankRemappingStructure → ℕ → Coolest → Coolest
unfolding get_bank_idx
coolest_step bank_temp phy_vault_i idx s i c =
    let temp = bank_temp phy_vault_i (get_bank_idx idx s).0 in
    if (s.arr i).changed
    then c
    else if ltb temp c.min_temp
    then record { min_temp = temp; target = (s.arr i).ridx }
    else c

unfoldable pub coolest : (ℕ → ℕ → ℕ) → ℕ → ℕ → ℕ → BankRemappingStructure → Coolest
unfolding for_range coolest_step
coolest bank_temp temp_unit phy_vault_i idx s =
    for_range s.n_banks 0 (coolest_step bank_temp phy_vault_i idx s)
      (record { min_temp = 999 * temp_unit; target = 100 })

-- `balanceBanks`.
unfoldable pub balance_banks :
    (ℕ → ℕ → ℕ) → ℕ → ℕ → ℕ → BankRemappingStructure → BankRemappingStructure
unfolding coolest swap
balance_banks bank_temp temp_unit phy_vault_i idx s =
    let target = (coolest bank_temp temp_unit phy_vault_i idx s).target in
    if not (target == (s.arr idx).ridx) && not (target == 100) then swap idx target s else s

-- `BankRemappingStructure::accessOnce`.
unfoldable pub access_once : ℕ → Access → ℕ → BankRemappingStructure → BankRemappingStructure
unfolding entry_access_once
access_once idx access_type pkt_time s = record s {
  current_time = if ltb s.current_time pkt_time then pkt_time else s.current_time;
  arr = update s.arr idx (entry_access_once access_type (s.arr idx));
}
