-- ===== src/Remapping.antt =====
-- `RemappingManager` of performance_model/remapping.h and .cc: the banks of the stacked DRAM, their
-- temperatures, and the policies that disable or combine hot banks. Vectors are functions of the
-- index. The pointers of `_bank_stat` are the indices into it, so a bank that is its own target is
-- written twice. A temperature is counted in steps of 1 / `temp_unit` degree.
pub mod Bank
pub mod Mechanism
pub mod Pairing
pub mod Operations
pub mod Safety
pub mod Runs
pub mod Hysteresis
pub mod Index
pub mod Target
use sniper_zip.Prelude.{
  ℕ, ◌+◌, ◌-◌, ◌*◌, ◌/◌, ◌%◌, ◌≡◌, refl, Bool, true, false, not, List, [], ◌∷◌, ◌==◌, if◌then◌else◌,
  ◌||◌, ◌&&◌, ltb, leb, u32, update, for_range,
}
use Bank.{BankStat, new_bank, set_valid, set_disabled, set_id, finish_remapping, contains}
use Bank

pub record PhyBank : Type 0 where
  pub logical_bank : ℕ
  pub temperature : ℕ
  pub valid : Bool
  pub hot_access : ℕ
  pub cool_access : ℕ
  pub remap_access : ℕ

-- What the code prints when it finds something that it does not expect.
pub data Message : Type 0 where
  combined_twice remap_id_set not_combined unrecognized_policy : Message

pub record RemappingManager : Type 0 where
  pub n_vaults : ℕ
  pub n_banks : ℕ
  pub n_rows : ℕ
  pub tot_banks : ℕ
  pub inter_vault : Bool
  pub n_remap : ℕ
  pub high_thres : ℕ
  pub dangerous_thres : ℕ
  pub remap_thres : ℕ
  pub init_temp : ℕ
  pub remap_times : ℕ
  pub disable_times : ℕ
  pub double_disable_times : ℕ
  pub recovery_times : ℕ
  pub phy_banks : ℕ → PhyBank
  pub bank_stat : ℕ → BankStat
  pub temp_unit : ℕ
  pub log : List Message

-- The constructor; `n_vaults`, `n_banks` and `n_rows` are those of the DRAM controller.
unfoldable pub new_manager : ℕ → ℕ → ℕ → ℕ → RemappingManager
unfolding new_bank
new_manager temp_unit n_vaults n_banks n_rows = record {
  n_vaults = n_vaults;
  n_banks = n_banks;
  n_rows = n_rows;
  tot_banks = u32 (n_vaults * n_banks);
  inter_vault = false;
  n_remap = 0;
  high_thres = 0;
  dangerous_thres = 0;
  remap_thres = 0;
  init_temp = 0;
  remap_times = 0;
  disable_times = 0;
  double_disable_times = 0;
  recovery_times = 0;
  phy_banks = λ i. record {
    logical_bank = i;
    temperature = 0;
    valid = true;
    hot_access = 0;
    cool_access = 0;
    remap_access = 0;
  };
  bank_stat = new_bank;
  temp_unit = temp_unit;
  log = [];
}

unfoldable pub set_remap_config : ℕ → Bool → ℕ → ℕ → ℕ → ℕ → RemappingManager → RemappingManager
set_remap_config n_remap inter_vault high dangerous remap init m = record m {
  n_remap = n_remap;
  inter_vault = inter_vault;
  high_thres = high;
  dangerous_thres = dangerous;
  remap_thres = remap;
  init_temp = init;
}

-- Writes through the pointers `_bank_stat[i]` and the references `_phy_banks[i]`.
abbrev pub set_bank : ℕ → (BankStat → BankStat) → RemappingManager → RemappingManager
set_bank i f m = record m { bank_stat = update m.bank_stat i (f (m.bank_stat i)) }

abbrev pub set_phy : ℕ → (PhyBank → PhyBank) → RemappingManager → RemappingManager
set_phy i f m = record m { phy_banks = update m.phy_banks i (f (m.phy_banks i)) }

abbrev pub set_phy_valid : ℕ → Bool → RemappingManager → RemappingManager
set_phy_valid i v = set_phy i (λ p. record p { valid = v })

abbrev pub print : Message → RemappingManager → RemappingManager
print e m = record m { log = e ∷ m.log }

abbrev pub print_if : Bool → Message → RemappingManager → RemappingManager
print_if b e m = if b then print e m else m

-- `temperature < thres` and `temperature >= thres`, for a threshold in degrees.
abbrev pub is_below : RemappingManager → ℕ → ℕ → Bool
is_below m t thres = ltb t (thres * m.temp_unit)

abbrev pub is_high : RemappingManager → ℕ → Bool
is_high m t = leb (m.high_thres * m.temp_unit) t

unfoldable pub get_bank_id : ℕ → ℕ → RemappingManager → ℕ
get_bank_id v b m = u32 (v * m.n_banks + b)

unfoldable pub update_temperature : ℕ → ℕ → ℕ → RemappingManager → RemappingManager
unfolding get_bank_id
update_temperature v b temp m = set_phy (get_bank_id v b m) (λ p. record p { temperature = temp }) m

-- `BankStat::combineWith`, on the banks of the manager: bank `b` is combined with bank `t`.
unfoldable pub combine_with : ℕ → ℕ → RemappingManager → RemappingManager
combine_with b t m0 =
    let m1 =
      set_bank b
        (λ s. record s {
          logical_id = (m0.bank_stat t).logical_id;
          valid = false;
          disabled = false;
          combined = true;
        })
        m0 in
    let m2 = print_if (m1.bank_stat t).combined combined_twice m1 in
    let m3 =
      print_if (not ((m2.bank_stat t).remap_id == (m2.bank_stat t).physical_id)) remap_id_set m2 in
    let m4 =
      set_bank t (λ s. record s { combined = true; remap_id = (m3.bank_stat b).physical_id }) m3 in
    set_bank b (λ s. record s { invalidate_times = s.invalidate_times + 1 }) m4

-- `n_remap == 1` in `resetBank`: the bank takes its own id again. If it was combined with another
-- bank the pair is dissolved; if another bank was combined with it, that bank is enabled.
unfoldable pub reset_combined : ℕ → ℕ → ℕ → RemappingManager → RemappingManager
unfolding set_id set_disabled
reset_combined bank_id log_bank remap_bank m0 =
    let m1 = set_bank bank_id (set_id bank_id bank_id) m0 in
    let m2 = set_bank bank_id (set_disabled false) m1 in
    if not (bank_id == log_bank)
    then (let m3 = set_bank bank_id (λ s. record s { combined = false }) m2 in
        let m4 = set_bank log_bank (λ s. record s { combined = false }) m3 in
        let m5 = print_if (not ((m4.bank_stat log_bank).remap_id == bank_id)) not_combined m4 in
        set_bank log_bank (λ s. record s { remap_id = s.physical_id }) m5)
    else if not (remap_bank == bank_id)
    then set_bank remap_bank (set_disabled false) m2
    else m2

unfoldable pub reset_bank : ℕ → RemappingManager → RemappingManager
unfolding reset_combined set_disabled
reset_bank bank_id m =
    let bank = m.bank_stat bank_id in
    let m1 = set_phy_valid bank.physical_id true m in
    if m.n_remap == 0
    then set_bank bank_id (set_disabled false) m1
    else if m.n_remap == 1
    then reset_combined bank_id bank.logical_id bank.remap_id m1
    else if m.n_remap == 2
    then set_bank bank_id (set_disabled false) m1
    else print unrecognized_policy m1

unfoldable pub reset_stats_bank : Bool → ℕ → RemappingManager → RemappingManager
unfolding reset_bank set_valid finish_remapping
reset_stats_bank reset bank_id m =
    let phy_id = (m.bank_stat bank_id).physical_id in
    let m1 = set_bank bank_id (set_valid true) m in
    let m2 = set_bank bank_id finish_remapping m1 in
    if reset && is_below m2 (m2.phy_banks phy_id).temperature m2.high_thres
    then reset_bank bank_id m2
    else m2

unfoldable pub reset_stats : Bool → RemappingManager → RemappingManager
unfolding reset_stats_bank for_range
reset_stats reset m = for_range m.tot_banks 0 (reset_stats_bank reset) m

unfoldable pub check_migrated : ℕ → ℕ → ℕ → RemappingManager → Bool
unfolding get_bank_id contains
check_migrated v b r m =
    let bank = m.bank_stat (get_bank_id v b m) in
    if bank.valid then false else if contains r bank.valid_rows then true else false

unfoldable pub check_valid : ℕ → ℕ → ℕ → RemappingManager → Bool
unfolding get_bank_id
check_valid v b r m = (m.bank_stat (get_bank_id v b m)).valid

unfoldable pub check_disabled : ℕ → ℕ → ℕ → RemappingManager → Bool
unfolding get_bank_id
check_disabled v b r m = (m.bank_stat (get_bank_id v b m)).disabled

-- `accessRow`; `remapped` is the flag of the DRAM controller.
unfoldable pub access_row : Bool → ℕ → ℕ → ℕ → RemappingManager → RemappingManager
unfolding get_bank_id Bank.access_row
access_row remapped v b r m =
    let bank_id = get_bank_id v b m in
    let phy_bank = (m.bank_stat bank_id).physical_id in
    let hot = is_high m (m.phy_banks phy_bank).temperature in
    let count = λ (p : PhyBank).
      if hot
      then if remapped
        then record p { remap_access = p.remap_access + 1 }
        else record p { hot_access = p.hot_access + 1 }
      else record p { cool_access = p.cool_access + 1 } in
    set_bank bank_id (Bank.access_row r) (set_phy phy_bank count m)

-- `splitId`: a vault, a bank and a row.
unfoldable pub split_id : ℕ → RemappingManager → ℕ × ℕ × ℕ
split_id idx m = (idx / m.n_rows / m.n_banks, idx / m.n_rows % m.n_banks, idx % m.n_rows)

unfoldable pub get_physical_index : ℕ → ℕ → ℕ → RemappingManager → ℕ × ℕ × ℕ
unfolding get_bank_id split_id
get_physical_index v b r m = split_id (m.bank_stat (get_bank_id v b m)).physical_id m

unfoldable pub get_logical_index : ℕ → ℕ → ℕ → RemappingManager → ℕ × ℕ × ℕ
unfolding get_bank_id split_id
get_logical_index v b r m =
    split_id (u32 (u32 ((m.bank_stat (get_bank_id v b m)).logical_id * m.n_rows) + r)) m
