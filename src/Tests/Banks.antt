-- ===== src/Tests/Banks.antt =====
-- Banks, vaults and their tables at work, and their theorems at concrete ones.
use sniper_zip.Prelude.{
  ℕ, ◌+◌, ◌<◌, ◌≤◌, ◌≡◌, refl, true, false, ◌==◌, [], arith, update, u64, for_range,
}
use sniper_zip.DramBank
use sniper_zip.DramVault
use sniper_zip.DramBank.{BankPerfModel, closed, openned, wr, rd, act, get_transition_latency}
use sniper_zip.DramVault.{
  Access, read, write, access_command, VaultPerfModel, new_vault, process_bank, process_request,
}
use sniper_zip.DramVault.Commands.{IsOpenAt, Issued, access_cost}
use sniper_zip.DramVault.Requests.{
  IsAtRest, one_open, opening_cost, process_bank_lem, created, requested, process_request_bounds,
}
use sniper_zip.SwapTable.{swap_entries, data_mov}
use sniper_zip.BankTable
use sniper_zip.BankTable.Swap as BankSwap
use sniper_zip.BankTable.Balance.{coolest_lem}
use sniper_zip.VaultTable
use sniper_zip.VaultTable.Swap as VaultSwap

-- A bank whose row 2 was just written.
abbrev written : BankPerfModel
written = record (DramBank.new_bank 1024 64) {
  cur_open_row = 2;
  cur_cmd = wr;
  cur_time = 5;
  row_state = update (λ i. closed) 2 openned;
}

written-IsOpenAt : IsOpenAt 2 (access_command write) written
unfolding DramBank.new_bank
written-IsOpenAt = record {
  inside = omega arith;
  opened = refl;
  others = λ i k ne. ground arith;
  open_row = refl;
  cmd = refl;
}

process_bank_lem_example :
    Issued
      (IsOpenAt 3 (access_command read))
      (opening_cost (one_open 2 write written-IsOpenAt) 3 + access_cost read)
      written
      (process_bank false 100 read 3 written)
unfolding DramBank.new_bank
process_bank_lem_example =
    process_bank_lem written 100 3 read (one_open 2 write written-IsOpenAt) (omega arith)

-- The same request, run: 28 ns to close, 14 ns to open, 14 ns to read.
process_bank_runs : (process_bank false 100 read 3 written).1 ≡ 56000000
unfolding process_bank DramVault.make_open DramVault.change_row DramBank.get_openned_row
    DramBank.first_openned DramBank.process_command DramBank.charged DramBank.is_row_hit
    DramBank.get_transition_latency DramBank.find_timing DramBank.timing DramBank.new_bank u64
process_bank_runs = refl

abbrev vault : VaultPerfModel
vault = (process_request 0 read 1 3 (new_vault 0 8192 1024 64)).0

process_request_bounds_example :
    ((i : ℕ) → IsAtRest (vault.banks i) × ((vault.banks i).log ≡ []))
    × (12000000 ≤ (process_request 9 write 0 7 vault).1)
    × ((process_request 9 write 0 7 vault).1 ≤ 56000000)
unfolding new_vault process_request DramBank.new_bank
process_request_bounds_example =
    process_request_bounds vault 9 write 0 7
      (requested (new_vault 0 8192 1024 64) 0 read 1 3 (omega arith) (created 0 8192 1024 64))
      (omega arith)

abbrev warm : ℕ → ℕ → ℕ
warm v b = 50

abbrev banks : BankTable.BankRemappingStructure
banks = BankTable.balance_banks warm 1 0 2 (BankTable.new_table 4)

IsUsed-pairs_example :
    ((banks.arr 2).ridx < banks.n_banks)
    × ((banks.arr (banks.arr 2).ridx).ridx ≡ 2)
    × ((banks.arr 2).orig ≡ ((banks.arr 2).ridx == 2))
unfolding BankTable.balance_banks BankTable.swap BankTable.new_table BankTable.coolest
    BankTable.coolest_step for_range BankTable.get_bank_idx BankTable.new_entry
IsUsed-pairs_example =
    BankSwap.IsUsed-pairs banks 2
      (BankSwap.balanced warm 1 0 2 (BankTable.new_table 4) (omega arith) (BankSwap.created 4))
      (omega arith)

-- Bank 2 went to bank 0.
balance_banks_runs : ((banks.arr 2).ridx ≡ 0) × ((banks.arr 0).ridx ≡ 2) × (banks.copy_times ≡ 3)
unfolding BankTable.balance_banks BankTable.swap BankTable.new_table BankTable.coolest
    BankTable.coolest_step for_range BankTable.get_bank_idx BankTable.new_entry swap_entries
    data_mov BankTable.bank_entry BankTable.entry_remap_to BankTable.clear_access
balance_banks_runs = (refl, refl, refl)

-- Bank 0 was swapped before.
abbrev moved : BankTable.BankRemappingStructure
moved = record (BankTable.new_table 4) {
  arr = update BankTable.new_entry 0 (record (BankTable.new_entry 0) { changed = true });
}

coolest_lem_example : (BankTable.coolest warm 1 0 2 moved).target ≡ 1
unfolding BankTable.new_table BankTable.new_entry
coolest_lem_example =
    coolest_lem warm 1 0 2 1 moved (omega arith) (λ i k. ground arith) refl (omega arith)

abbrev vaults : VaultTable.VaultRemappingStructure
vaults = VaultTable.balance_vaults (λ v. 50) 1 2 (VaultTable.new_table 0 4)

IsUsed-vault_pairs_example :
    ((vaults.arr 2).ridx < vaults.n_vaults)
    × ((vaults.arr (vaults.arr 2).ridx).ridx ≡ 2)
    × ((vaults.arr 2).orig ≡ ((vaults.arr 2).ridx == 2))
unfolding VaultTable.balance_vaults VaultTable.swap VaultTable.new_table VaultTable.idlest
    VaultTable.idlest_step for_range VaultTable.new_entry
IsUsed-vault_pairs_example =
    VaultSwap.IsUsed-vault_pairs vaults 2
      (VaultSwap.balanced (λ v. 50) 1 2 (VaultTable.new_table 0 4) (omega arith)
        (VaultSwap.created 0 4))
      (omega arith)
