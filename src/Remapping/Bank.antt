-- ===== src/Remapping/Bank.antt =====
-- One bank of the stacked DRAM as the remapping sees it: `BankStat` of
-- performance_model/remapping.h and .cc. A message stands for a line that the code prints.
use sniper_zip.Prelude.{ℕ, ◌+◌, Bool, true, false, List, [], ◌∷◌, ◌==◌, if◌then◌else◌, ◌||◌}
use sniper_zip.Mea.{MeaMap, access_row as count_row}

pub record BankStat : Type 0 where
  pub bank_id : ℕ
  pub logical_id : ℕ
  pub physical_id : ℕ
  pub remap_id : ℕ
  pub valid : Bool
  pub disabled : Bool
  pub combined : Bool
  pub valid_rows : List ℕ
  pub mea_map : MeaMap
  pub n_migrate_row : ℕ
  pub remap_times : ℕ
  pub disabled_times : ℕ
  pub invalidate_times : ℕ

-- What a bank prints about a row.
pub data Warning : Type 0 where
  chosen_row : Warning

-- The constructor.
unfoldable pub new_bank : ℕ → BankStat
new_bank id = record {
  bank_id = id;
  logical_id = id;
  physical_id = id;
  remap_id = id;
  valid = true;
  disabled = false;
  combined = false;
  valid_rows = [];
  mea_map = [];
  n_migrate_row = 10;
  remap_times = 0;
  disabled_times = 0;
  invalidate_times = 0;
}

unfoldable pub access_row : ℕ → BankStat → BankStat
access_row row_id b = record b { mea_map = count_row b.n_migrate_row row_id b.mea_map }

unfoldable pub remap_to : ℕ → Bool → BankStat → BankStat
remap_to phy_bank_id disabled b = record b {
  physical_id = phy_bank_id;
  valid = false;
  disabled = disabled;
  invalidate_times = b.invalidate_times + 1;
  remap_times = b.remap_times + 1;
  disabled_times = if disabled then b.disabled_times + 1 else b.disabled_times;
}

-- valid_rows.find(row_id) != valid_rows.end().
unfoldable pub contains : ℕ → List ℕ → Bool
contains r [] = false
contains r (x ∷ xs) = x == r || contains r xs

-- `migrateRow`, with what it prints: the row goes into the set `valid_rows`.
unfoldable pub migrate_row : ℕ → BankStat → BankStat × List Warning
unfolding contains
migrate_row row_id b =
    if contains row_id b.valid_rows
    then (b, chosen_row ∷ [])
    else (record b { valid_rows = row_id ∷ b.valid_rows }, [])

unfoldable pub set_valid : Bool → BankStat → BankStat
set_valid valid b = record b { valid = valid }

unfoldable pub set_disabled : Bool → BankStat → BankStat
set_disabled disabled b = record b { disabled = disabled }

unfoldable pub set_id : ℕ → ℕ → BankStat → BankStat
set_id log_id phy_id b = record b { logical_id = log_id; physical_id = phy_id }

unfoldable pub finish_remapping : BankStat → BankStat
finish_remapping b = record b { valid_rows = [] }
