-- ===== src/DramVault.antt =====
-- A vault of the stacked DRAM: `VaultPerfModel` of performance_model/dram_vault.h and .cc. What
-- `que_len` holds at first is a parameter, since the constructor does not set it.
pub mod Rows
pub mod Commands
pub mod Requests
use sniper_zip.Prelude.{
  ℕ, ◌+◌, ◌/◌, Bool, true, false, not, ◌==◌, if◌then◌else◌, Option, none, some, update, u64,
}
use sniper_zip.DramBank.{
  BankPerfModel, new_bank, process_command, get_openned_row, no_row, act, pre, rd, wr, Command,
}

-- DramCntlrInterface::access_t
pub data Access : Type 0 where
  read write : Access

pub record VaultStatEntry : Type 0 where
  pub t_act : ℕ
  pub t_pre : ℕ
  pub t_rd : ℕ
  pub t_wr : ℕ
  pub reads : ℕ
  pub writes : ℕ
  pub row_hits : ℕ
  pub que_len : ℕ

-- The zeros that a vault's statistics are cleared to.
unfoldable pub cleared_stats : ℕ → VaultStatEntry
cleared_stats que_len = record {
  t_act = 0;
  t_pre = 0;
  t_rd = 0;
  t_wr = 0;
  reads = 0;
  writes = 0;
  row_hits = 0;
  que_len = que_len;
}

pub record VaultPerfModel : Type 0 where
  pub size : ℕ
  pub bank_size : ℕ
  pub row_size : ℕ
  pub n_banks : ℕ
  pub auto_ref : Bool
  pub banks : ℕ → BankPerfModel
  pub stats : VaultStatEntry

-- The constructor.
unfoldable pub new_vault : ℕ → ℕ → ℕ → ℕ → VaultPerfModel
unfolding cleared_stats
new_vault que_len size bank_size row_size = record {
  size = size;
  bank_size = bank_size;
  row_size = row_size;
  n_banks = size / bank_size;
  auto_ref = false;
  banks = λ i. new_bank bank_size row_size;
  stats = cleared_stats que_len;
}

-- A bank, the latency so far, and the row that `openned_row` holds, as an unsigned word.
pub record Progress : Type 0 where
  pub bank : BankPerfModel
  pub latency : ℕ
  pub openned_row : ℕ

-- process_latency += bank->processCommand(cmd, row_i, time)
abbrev pub issue : Command → ℕ → ℕ → Progress → Progress
issue cmd row_i time p =
    let r = process_command cmd row_i time p.bank in
    record p { bank = r.0; latency = u64 (p.latency + r.1) }

abbrev pub row_or_minus_one : Option ℕ → ℕ
row_or_minus_one none = no_row
row_or_minus_one (some r) = r

-- No row is open: open `row_i`.
unfoldable pub open_row : ℕ → ℕ → BankPerfModel → Progress
open_row cur_time row_i b =
    let p = issue act row_i cur_time (record { bank = b; latency = 0; openned_row = no_row }) in
    record p { openned_row = row_or_minus_one (get_openned_row p.bank) }

-- The row `r` is open: close it, unless it refreshes by itself, and open `row_i`.
unfoldable pub change_row : Bool → ℕ → ℕ → ℕ → BankPerfModel → Progress
change_row auto_ref cur_time row_i r b =
    let start : Progress = record { bank = b; latency = 0; openned_row = r } in
    let p = if auto_ref then start else issue pre r cur_time start in
    issue act row_i (u64 (cur_time + p.latency)) p

-- The branches on the row that is open.
unfoldable pub make_open : Bool → ℕ → ℕ → BankPerfModel → Progress
unfolding open_row change_row
make_open auto_ref cur_time row_i b = elim (get_openned_row b) [
  | none ↦ open_row cur_time row_i b
  | some r ↦
      if r == row_i
      then record { bank = b; latency = 0; openned_row = r }
      else change_row auto_ref cur_time row_i r b
]

abbrev pub access_command : Access → Command
access_command write = wr
access_command read = rd

-- `processRequest` on one bank: open the row, then read or write it.
unfoldable pub process_bank : Bool → ℕ → Access → ℕ → BankPerfModel → BankPerfModel × ℕ
unfolding make_open
process_bank auto_ref cur_time access_type row_i b =
    let p = make_open auto_ref cur_time row_i b in
    let q = issue (access_command access_type) row_i (u64 (cur_time + p.latency)) p in
    let r = if auto_ref then issue pre q.openned_row cur_time q else q in (r.bank, r.latency)

-- `processRequest`: the vault, and the latency of the request.
unfoldable pub process_request : ℕ → Access → ℕ → ℕ → VaultPerfModel → VaultPerfModel × ℕ
unfolding process_bank
process_request cur_time access_type bank_i row_i v =
    let r = process_bank v.auto_ref cur_time access_type row_i (v.banks bank_i) in
    (record v { banks = update v.banks bank_i r.0 }, r.1)
