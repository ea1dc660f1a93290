-- ===== src/NewRemapping.antt =====
-- The second version of the thermal manager: `BankStat` and `RemappingManager` of
-- performance_model/new_remapping/remapping.h and .cc, which keeps no pairs of banks and disables and
-- enables at one threshold. Vectors are functions of the index. A temperature is counted in steps of
-- 1 / `temp_unit` degree.
pub mod Settled
pub mod Target
pub mod Inside
use sniper_zip.Prelude.{
  ℕ, ◌+◌, ◌-◌, ◌*◌, ◌/◌, ◌%◌, Bool, true, false, not, List, [], ◌∷◌, ◌==◌, if◌then◌else◌, ◌||◌,
  ◌&&◌, ltb, leb, u32, update, for_range,
}
use sniper_zip.Mea.{MeaMap, access_row as count_row}

pub record BankStat : Type 0 where
  pub bank_id : ℕ
  pub logical_id : ℕ
  pub physical_id : ℕ
  pub valid : Bool
  pub disabled : Bool
  pub valid_rows : List ℕ
  pub mea_map : MeaMap
  pub n_migrate_row : ℕ
  pub remap_times : ℕ
  pub disabled_times : ℕ
  pub invalidate_times : ℕ

-- What the code prints when it finds something that it does not expect.
pub data Message : Type 0 where
  chosen_row no_target unrecognized_policy : Message

-- The constructor.
unfoldable pub new_bank : ℕ → BankStat
new_bank id = record {
  bank_id = id;
  logical_id = id;
  physical_id = id;
  valid = true;
  disabled = false;
  valid_rows = [];
  mea_map = [];
  n_migrate_row = 10;
  remap_times = 0;
  disabled_times = 0;
  invalidate_times = 0;
}

-- `BankStat::accessRow`.
unfoldable pub access_bank_row : ℕ → BankStat → BankStat
access_bank_row row_id b = record b { mea_map = count_row b.n_migrate_row row_id b.mea_map }

unfoldable pub remap_to : ℕ → Bool → BankStat → BankStat
remap_to phy_bank_id disabled b = record b {
  physical_id = phy_bank_id;
  valid = false;
  disabled = disabled;
  invalidate_times = b.invalidate_times + 1;
  remap_times = b.remap_times + 1;
  disabled_times = if disabled then b.disabled_times + 1 else b.disabled_times;
}

-- `combineWith`, with the target as it is.
unfoldable pub combine_with : BankStat → BankStat → BankStat
combine_with target b = record b {
  logical_id = target.logical_id;
  physical_id = target.physical_id;
  valid = false;
  disabled = false;
  invalidate_times = b.invalidate_times + 1;
}

unfoldable pub contains : ℕ → List ℕ → Bool
contains r [] = false
contains r (x ∷ xs) = x == r || contains r xs

-- `migrateRow`, with the messages that it prints.
unfoldable pub migrate_row : ℕ → BankStat → BankStat × List Message
unfolding contains
migrate_row row_id b =
    if contains row_id b.valid_rows
    then (b, chosen_row ∷ [])
    else (record b { valid_rows = row_id ∷ b.valid_rows }, [])

unfoldable pub set_valid : Bool → BankStat → BankStat
set_valid valid b = record b { valid = valid }

unfoldable pub set_disabled : Bool → BankStat → BankStat
set_disabled disabled b = record b { disabled = disabled }

unfoldable pub set_id : ℕ → ℕ → BankStat → BankStat
set_id log_id phy_id b = record b { logical_id = log_id; physical_id = phy_id }

unfoldable pub finish_remapping : BankStat → BankStat
finish_remapping b = record b { valid_rows = [] }

pub record PhyBank : Type 0 where
  pub logical_bank : ℕ
  pub temperature : ℕ
  pub valid : Bool

pub record RemappingManager : Type 0 where
  pub n_vaults : ℕ
  pub n_banks : ℕ
  pub n_rows : ℕ
  pub tot_banks : ℕ
  pub inter_vault : Bool
  pub n_remap : ℕ
  pub high_thres : ℕ
  pub dangerous_thres : ℕ
  pub remap_thres : ℕ
  pub init_temp : ℕ
  pub phy_banks : ℕ → PhyBank
  pub bank_stat : ℕ → BankStat
  pub temp_unit : ℕ
  pub log : List Message

-- The constructor. The thresholds are not set there; what the memory held is a parameter.
unfoldable pub new_manager : ℕ → ℕ × ℕ × ℕ × ℕ → ℕ → ℕ → ℕ → RemappingManager
unfolding new_bank
new_manager temp_unit garbage n_vaults n_banks n_rows = record {
  n_vaults = n_vaults;
  n_banks = n_banks;
  n_rows = n_rows;
  tot_banks = u32 (n_vaults * n_banks);
  inter_vault = false;
  n_remap = 0;
  high_thres = garbage.0;
  dangerous_thres = garbage.1;
  remap_thres = garbage.2;
  init_temp = garbage.3;
  phy_banks = λ i. record { logical_bank = i; temperature = 0; valid = true };
  bank_stat = new_bank;
  temp_unit = temp_unit;
  log = [];
}

unfoldable pub set_remap_config : ℕ → Bool → ℕ → ℕ → ℕ → ℕ → RemappingManager → RemappingManager
set_remap_config n_remap inter_vault high dangerous remap init m = record m {
  n_remap = n_remap;
  inter_vault = inter_vault;
  high_thres = high;
  dangerous_thres = dangerous;
  remap_thres = remap;
  init_temp = init;
}

abbrev pub set_bank : ℕ → (BankStat → BankStat) → RemappingManager → RemappingManager
set_bank i f m = record m { bank_stat = update m.bank_stat i (f (m.bank_stat i)) }

abbrev pub set_phy_valid : ℕ → Bool → RemappingManager → RemappingManager
set_phy_valid i v m = record m {
  phy_banks = update m.phy_banks i (record (m.phy_banks i) { valid = v });
}

abbrev pub print : Message → RemappingManager → RemappingManager
print e m = record m { log = e ∷ m.log }

-- `temperature < _high_thres`.
abbrev pub is_cool : RemappingManager → ℕ → Bool
is_cool m t = ltb t (m.high_thres * m.temp_unit)

unfoldable pub get_bank_id : ℕ → ℕ → RemappingManager → ℕ
get_bank_id v b m = u32 (v * m.n_banks + b)

unfoldable pub update_temperature : ℕ → ℕ → ℕ → RemappingManager → RemappingManager
unfolding get_bank_id
update_temperature v b temp m =
    let id = get_bank_id v b m in
    record m { phy_banks = update m.phy_banks id (record (m.phy_banks id) { temperature = temp }) }

unfoldable pub reset_bank : ℕ → RemappingManager → RemappingManager
unfolding set_disabled set_id
reset_bank bank_id m =
    let m1 = set_phy_valid (m.bank_stat bank_id).physical_id true m in
    if m.n_remap == 0
    then set_bank bank_id (set_disabled false) m1
    else if m.n_remap == 1
    then set_bank bank_id (set_id bank_id bank_id) m1
    else if m.n_remap == 2
    then set_bank bank_id (set_disabled false) m1
    else print unrecognized_policy m1

unfoldable pub reset_stats_bank : Bool → ℕ → RemappingManager → RemappingManager
unfolding reset_bank set_valid finish_remapping
reset_stats_bank reset bank_id m =
    let phy_id = (m.bank_stat bank_id).physical_id in
    let m1 = set_bank bank_id finish_remapping (set_bank bank_id (set_valid true) m) in
    if reset && is_cool m (m.phy_banks phy_id).temperature then reset_bank bank_id m1 else m1

unfoldable pub reset_stats : Bool → RemappingManager → RemappingManager
unfolding reset_stats_bank for_range
reset_stats reset m = for_range (u32 (m.n_vaults * m.n_banks)) 0 (reset_stats_bank reset) m

unfoldable pub check_migrated : ℕ → ℕ → ℕ → RemappingManager → Bool
unfolding get_bank_id contains
check_migrated v b r m =
    let bank = m.bank_stat (get_bank_id v b m) in
    if bank.valid then true else if contains r bank.valid_rows then true else false

unfoldable pub check_valid : ℕ → ℕ → ℕ → RemappingManager → Bool
unfolding get_bank_id
check_valid v b r m = (m.bank_stat (get_bank_id v b m)).valid

unfoldable pub check_disabled : ℕ → ℕ → ℕ → RemappingManager → Bool
unfolding get_bank_id
check_disabled v b r m = (m.bank_stat (get_bank_id v b m)).disabled

unfoldable pub access_row : ℕ → ℕ → ℕ → RemappingManager → RemappingManager
unfolding get_bank_id access_bank_row
access_row v b r m = set_bank (get_bank_id v b m) (access_bank_row r) m

-- `_n_remap == 0`: below the threshold a disabled bank is reset, from it on a bank is disabled.
unfoldable pub run_disable : ℕ → RemappingManager → RemappingManager
unfolding reset_bank set_disabled set_valid
run_disable bank_id m =
    let phy_bank = (m.bank_stat bank_id).physical_id in
    let cool = is_cool m (m.phy_banks phy_bank).temperature in
    let m1 = if cool && (m.bank_stat bank_id).disabled then reset_bank bank_id m else m in
    if not cool && not (m1.bank_stat bank_id).disabled
    then set_phy_valid phy_bank false
        (set_bank bank_id (set_valid false) (set_bank bank_id (set_disabled true) m1))
    else m1

-- The bank found so far; `min_temp` is a UInt32, so it is the temperature cut to whole degrees.
pub record Search : Type 0 where
  pub target : ℕ
  pub min_temp : ℕ

unfoldable pub search_step : RemappingManager → ℕ → Search → Search
search_step m j s =
    let p = m.phy_banks j in
    if p.valid && is_cool m p.temperature && ltb p.temperature (s.min_temp * m.temp_unit)
    then record { target = p.logical_bank; min_temp = p.temperature / m.temp_unit }
    else s

unfoldable pub search_begin : ℕ → RemappingManager → ℕ
search_begin bank_id m = if m.inter_vault then 0 else bank_id / m.n_banks

unfoldable pub search_end : ℕ → RemappingManager → ℕ
search_end bank_id m = if m.inter_vault then m.tot_banks else u32 (bank_id / m.n_banks + m.n_banks)

unfoldable pub find_target : ℕ → RemappingManager → Search
unfolding search_step search_begin search_end for_range
find_target bank_id m =
    for_range (search_end bank_id m - search_begin bank_id m) (search_begin bank_id m)
      (search_step m) (record { target = bank_id; min_temp = 1000 })

-- A hot bank that stands for itself is combined with the target of the search.
unfoldable pub combine : ℕ → RemappingManager → RemappingManager
unfolding find_target combine_with
combine bank_id m =
    let target = (find_target bank_id m).target in
    if target == bank_id
    then print no_target m
    else set_phy_valid target false (set_bank bank_id (combine_with (m.bank_stat target)) m)

-- `_n_remap == 1`.
unfoldable pub run_combine : ℕ → RemappingManager → RemappingManager
unfolding reset_bank combine
run_combine bank_id m =
    let cool = is_cool m (m.phy_banks (m.bank_stat bank_id).physical_id).temperature in
    let m1 =
      if cool && not ((m.bank_stat bank_id).logical_id == bank_id)
      then reset_bank bank_id m
      else m in
    if not cool && (m1.bank_stat bank_id).logical_id == bank_id then combine bank_id m1 else m1

unfoldable pub run_bank : ℕ → RemappingManager → RemappingManager
unfolding run_disable run_combine
run_bank bank_id m =
    if m.n_remap == 0
    then run_disable bank_id m
    else if m.n_remap == 1
    then run_combine bank_id m
    else if m.n_remap == 2
    then m
    else print unrecognized_policy m

unfoldable pub run_mechanism : RemappingManager → RemappingManager
unfolding run_bank for_range
run_mechanism m = for_range m.tot_banks 0 run_bank m

-- `splitId`: a vault, a bank and a row.
unfoldable pub split_id : ℕ → RemappingManager → ℕ × ℕ × ℕ
split_id idx m = (idx / m.n_rows / m.n_banks, idx / m.n_rows % m.n_banks, idx % m.n_rows)

unfoldable pub get_physical_index : ℕ → ℕ → ℕ → RemappingManager → ℕ × ℕ × ℕ
unfolding get_bank_id split_id
get_physical_index v b r m = split_id (m.bank_stat (get_bank_id v b m)).physical_id m

unfoldable pub get_logical_index : ℕ → ℕ → ℕ → RemappingManager → ℕ × ℕ × ℕ
unfolding get_bank_id split_id
get_logical_index v b r m =
    split_id (u32 (u32 ((m.bank_stat (get_bank_id v b m)).logical_id * m.n_rows) + r)) m
