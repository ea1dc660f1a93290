-- ===== src/VaultTable.antt =====
-- Vaults that are swapped: `VaultRemappingEntry` and `VaultRemappingStructure` of
-- performance_model/vault_remap.h and .cc. The statistics manager is not under the repository: the
-- temperature of a vault's controller is a function, in steps of 1 / `temp_unit` of a degree. The
-- lines that the code prints are not modelled.
pub mod Swap
use sniper_zip.Prelude.{
  ℕ, zero, suc, ◌+◌, ◌*◌, ◌^◌, Bool, true, false, refl, not, ◌==◌, if◌then◌else◌, ◌&&◌, ltb, update,
  for_range, u32, sub64,
}
use Prim.Native.Nat.{bit_or}
use sniper_zip.DramVault.{Access, read, write, VaultStatEntry, cleared_stats}
use sniper_zip.SwapTable.{SwapEntry, remap, marked, swap_entries, data_mov}
use sniper_zip.BankTable
use sniper_zip.BankTable.{BankRemappingStructure}

pub record VaultRemappingEntry : Type 0 where
  pub idx : ℕ
  pub ridx : ℕ
  pub bank_num : ℕ
  pub n_access : ℕ
  pub bremap_table : BankRemappingStructure
  pub valid : Bool
  pub orig : Bool
  pub changed : Bool
  pub stats : VaultStatEntry

-- The constructor. What `que_len` holds is a parameter: nothing sets it.
unfoldable pub new_entry : ℕ → ℕ → VaultRemappingEntry
unfolding cleared_stats
new_entry que_len idx = record {
  idx = idx;
  ridx = idx;
  bank_num = 8;
  n_access = 0;
  bremap_table = BankTable.new_table 8;
  valid = true;
  orig = true;
  changed = false;
  stats = cleared_stats que_len;
}

unfoldable pub clear_access : VaultRemappingEntry → VaultRemappingEntry
clear_access e = record e { n_access = 0; bremap_table = BankTable.clear_all_access e.bremap_table }

abbrev pub set_changed_bit : Bool → VaultRemappingEntry → VaultRemappingEntry
set_changed_bit changed e = record e { changed = changed }

-- One round of the loop of `setValidBit`.
unfoldable set_bank_valid : Bool → ℕ → BankRemappingStructure → BankRemappingStructure
unfolding BankTable.set_valid BankTable.set_invalid
set_bank_valid valid i t = if valid then BankTable.set_valid i t else BankTable.set_invalid i t

-- `setValidBit`: the vault's bit, and those of its banks.
unfoldable pub set_valid_bit : Bool → VaultRemappingEntry → VaultRemappingEntry
unfolding for_range set_bank_valid
set_valid_bit valid e = record e {
  valid = valid;
  bremap_table = for_range e.bank_num 0 (set_bank_valid valid) e.bremap_table;
}

-- `remapTo`, with `clearStats`.
unfoldable pub entry_remap_to : ℕ → VaultRemappingEntry → VaultRemappingEntry
unfolding cleared_stats set_valid_bit
entry_remap_to idx e =
    set_valid_bit false
      (record e { ridx = idx; stats = cleared_stats e.stats.que_len; orig = idx == e.idx })

abbrev pub count_access : Access → VaultStatEntry → VaultStatEntry
count_access write s = record s { writes = u32 (s.writes + 1) }
count_access read s = record s { reads = u32 (s.reads + 1) }

-- `VaultRemappingEntry::accessOnce`; its latency is always 0.
unfoldable pub entry_access_once : ℕ → Access → ℕ → VaultRemappingEntry → VaultRemappingEntry
unfolding BankTable.access_once
entry_access_once bank_idx access_type pkt_time e = record e {
  n_access = e.n_access + 1;
  stats = count_access access_type e.stats;
  bremap_table = BankTable.access_once bank_idx access_type pkt_time e.bremap_table;
}

-- One round of the loop of `getBankValid`.
unfoldable or_valid : BankRemappingStructure → ℕ → ℕ → ℕ
unfolding BankTable.is_valid
or_valid t i res = if BankTable.is_valid i t then bit_or res (2 ^ i) else res

-- `VaultRemappingEntry::getBankValid`.
unfoldable entry_bank_valid : VaultRemappingEntry → ℕ
unfolding for_range or_valid
entry_bank_valid e = for_range e.bank_num 0 (or_valid e.bremap_table) (2 ^ e.bank_num)

instance pub vault_entry : SwapEntry VaultRemappingEntry
unfolding entry_remap_to set_valid_bit clear_access
vault_entry = record {
  idx = λ e. e.idx;
  ridx = λ e. e.ridx;
  orig = λ e. e.orig;
  remap_to = entry_remap_to;
  mark = λ e. clear_access (set_changed_bit true e);
  idx-remap_to = λ x e. refl;
  ridx-remap_to = λ x e. refl;
  orig-remap_to = λ x e. refl;
  idx-mark = λ e. refl;
  ridx-mark = λ e. refl;
  orig-mark = λ e. refl;
}

pub record VaultRemappingStructure : Type 0 where
  pub arr : ℕ → VaultRemappingEntry
  pub n_clock : ℕ
  pub n_vaults : ℕ
  pub last_time : ℕ
  pub current_time : ℕ
  pub copy_times : ℕ

-- The constructor; a SubsecondTime starts as 0.
unfoldable pub new_table : ℕ → ℕ → VaultRemappingStructure
unfolding new_entry
new_table que_len vault_num = record {
  arr = new_entry que_len;
  n_clock = 0;
  n_vaults = vault_num;
  last_time = 0;
  current_time = 0;
  copy_times = 0;
}

-- `swap`.
unfoldable pub swap : ℕ → ℕ → VaultRemappingStructure → VaultRemappingStructure
unfolding swap_entries data_mov
swap src des s = record s {
  arr = swap_entries src des s.arr;
  copy_times = s.copy_times + data_mov (s.arr src).orig (s.arr des).orig (src == des);
}

abbrev pub set_entry : ℕ → VaultRemappingEntry → VaultRemappingStructure → VaultRemappingStructure
set_entry i e s = record s { arr = update s.arr i e }

-- `getVaultIdx`: the physical vault, and the valid bit.
unfoldable pub get_vault_idx : ℕ → VaultRemappingStructure → ℕ × Bool
get_vault_idx idx s = ((s.arr idx).ridx, (s.arr idx).valid)

unfoldable pub get_bank_idx : ℕ → ℕ → VaultRemappingStructure → ℕ × Bool
unfolding BankTable.get_bank_idx
get_bank_idx vault_idx bank_idx s = BankTable.get_bank_idx bank_idx (s.arr vault_idx).bremap_table

-- `isValid`: the vault's bit, and the word of its banks.
unfoldable pub is_valid : ℕ → VaultRemappingStructure → Bool × ℕ
unfolding entry_bank_valid
is_valid idx s = ((s.arr idx).valid, entry_bank_valid (s.arr idx))

unfoldable pub get_bank_valid : ℕ → VaultRemappingStructure → ℕ
unfolding entry_bank_valid
get_bank_valid vault_idx s = entry_bank_valid (s.arr vault_idx)

unfoldable pub clear_vault : ℕ → (ℕ → VaultRemappingEntry) → ℕ → VaultRemappingEntry
unfolding clear_access
clear_vault i t = update t i (clear_access (t i))

-- `clearAllAccess`.
unfoldable pub clear_all_access : VaultRemappingStructure → VaultRemappingStructure
unfolding for_range clear_vault
clear_all_access s = record s {
  arr = for_range s.n_vaults 0 clear_vault s.arr;
  last_time = s.current_time;
}

unfoldable pub enable_vault : ℕ → (ℕ → VaultRemappingEntry) → ℕ → VaultRemappingEntry
enable_vault i t = update t i (set_changed_bit false (t i))

-- `enableAllVault`.
unfoldable pub enable_all_vault : VaultRemappingStructure → VaultRemappingStructure
unfolding for_range enable_vault
enable_all_vault s = record s { arr = for_range s.n_vaults 0 enable_vault s.arr }

unfoldable pub usable_step : (ℕ → VaultRemappingEntry) → ℕ → ℕ → ℕ
usable_step t i num = if not (t i).changed then num + 1 else num

-- `getUsableVaultNum`.
unfoldable pub get_usable_vault_num : VaultRemappingStructure → ℕ
unfolding for_range usable_step
get_usable_vault_num s = for_range s.n_vaults 0 (usable_step s.arr) 0

-- interval_ms > update_time * 2
abbrev pub clear_interval : ℕ
clear_interval = 20000000000

-- `isTooHot`: its own branch that says so is disabled (`if (0)`). The bank is balanced if its table
-- says that it is too hot, and the counts are cleared after an interval.
unfoldable pub is_too_hot :
    (ℕ → ℕ → ℕ) → ℕ → ℕ → ℕ → VaultRemappingStructure → VaultRemappingStructure × Bool
unfolding BankTable.is_too_hot BankTable.balance_banks clear_all_access get_vault_idx
is_too_hot bank_temp temp_unit idx bank_i s =
    let phy_vault_i = (get_vault_idx idx s).0 in
    let e = s.arr idx in
    let hot = BankTable.is_too_hot e.bremap_table in
    let balanced =
      if hot.1
      then BankTable.balance_banks bank_temp temp_unit phy_vault_i bank_i hot.0
      else hot.0 in
    let s1 = set_entry idx (record e { bremap_table = balanced }) s in
    (
      if ltb clear_interval (sub64 s1.current_time s1.last_time) then clear_all_access s1 else s1,
      false,
    )

-- The locals of `balanceVaults`; `min_temp` is only printed.
pub record Idlest : Type 0 where
  pub min_cnt : ℕ
  pub target : ℕ

-- One round of its loop.
unfoldable pub idlest_step : (ℕ → ℕ) → ℕ → ℕ → (ℕ → VaultRemappingEntry) → ℕ → Idlest → Idlest
idlest_step cntlr_temp temp_unit orig_temp t i c =
    if (t i).changed
    then c
    else if ltb (t i).n_access c.min_cnt && ltb (cntlr_temp (t i).ridx) (orig_temp + 5 * temp_unit)
    then record { min_cnt = (t i).n_access; target = (t i).ridx }
    else c

unfoldable pub idlest : (ℕ → ℕ) → ℕ → ℕ → VaultRemappingStructure → Idlest
unfolding for_range idlest_step
idlest cntlr_temp temp_unit idx s =
    for_range s.n_vaults 0 (idlest_step cntlr_temp temp_unit (cntlr_temp (s.arr idx).ridx) s.arr)
      (record { min_cnt = 9999999; target = 100 })

-- `balanceVaults`.
unfoldable pub balance_vaults : (ℕ → ℕ) → ℕ → ℕ → VaultRemappingStructure → VaultRemappingStructure
unfolding idlest swap enable_all_vault
balance_vaults cntlr_temp temp_unit idx s =
    let target = (idlest cntlr_temp temp_unit idx s).target in
    if not (target == (s.arr idx).ridx) && not (target == 100)
    then swap idx target s
    else if target == 100
    then enable_all_vault s
    else s

unfoldable pub set_valid : ℕ → VaultRemappingStructure → VaultRemappingStructure
unfolding set_valid_bit
set_valid idx s = set_entry idx (set_valid_bit true (s.arr idx)) s

unfoldable pub set_invalid : ℕ → VaultRemappingStructure → VaultRemappingStructure
unfolding set_valid_bit
set_invalid idx s = set_entry idx (set_valid_bit false (s.arr idx)) s

-- `VaultRemappingStructure::accessOnce`.
unfoldable pub access_once : ℕ → ℕ → Access → ℕ → VaultRemappingStructure → VaultRemappingStructure
unfolding entry_access_once
access_once vault_idx bank_idx access_type pkt_time s = record s {
  current_time = if ltb s.current_time pkt_time then pkt_time else s.current_time;
  arr = update s.arr vault_idx (entry_access_once bank_idx access_type pkt_time (s.arr vault_idx));
}
