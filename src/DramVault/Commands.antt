-- ===== src/DramVault/Commands.antt =====
-- Single commands on a bank: what each leaves open, and what it costs.
use sniper_zip.Prelude.{ℕ, ◌<◌, ◌≡◌, ◌≢◌, refl, true, false, ◌==◌, none, some, arith, ==_refl}
use sniper_zip.DramBank.{
  BankPerfModel, Command, openned, closed, process_command, act, pre, no_row,
  get_transition_latency, charged, is_row_hit, count_command, switch_command, find_timing, timing,
  ns, get_openned_row,
}
use sniper_zip.DramVault.{Access, read, write, access_command}
use sniper_zip.DramVault.Rows.{first_openned-none, first_openned-some}

-- Every row is closed, and the last command was a precharge.
pub record IsClosed (b : BankPerfModel) : Type 0 where
  pub rows : (i : ℕ) → i < b.n_rows → b.row_state i ≡ closed
  pub open_row : b.cur_open_row ≡ no_row
  pub cmd : b.cur_cmd ≡ pre

-- The row `r` and no other is open, and the last command was `c`.
pub record IsOpenAt (r : ℕ) (c : Command) (b : BankPerfModel) : Type 0 where
  pub inside : r < b.n_rows
  pub opened : b.row_state r ≡ openned
  pub others : (i : ℕ) → i < b.n_rows → i ≢ r → b.row_state i ≡ closed
  pub open_row : b.cur_open_row ≡ r
  pub cmd : b.cur_cmd ≡ c

-- A result that was legal, cost `cost`, and left the bank in a state of `P`.
pub record Issued (P : BankPerfModel → Type 0) (cost : ℕ) (b : BankPerfModel)
    (r : BankPerfModel × ℕ) : Type 0 where
  pub holds : P r.0
  pub costs : r.1 ≡ cost
  pub kept_log : r.0.log ≡ b.log
  pub kept_rows : r.0.n_rows ≡ b.n_rows

-- What reading or writing an open row costs, and what closing it costs after that.
abbrev pub access_cost : Access → ℕ
access_cost read = ns 14
access_cost write = ns 12

abbrev pub close_cost : Access → ℕ
close_cost read = ns 14
close_cost write = ns 28

abbrev pub open_cost : ℕ
open_cost = ns 14

pub IsClosed-get_openned_row : (b : BankPerfModel) → IsClosed b → get_openned_row b ≡ none
unfolding get_openned_row
IsClosed-get_openned_row b h =
    first_openned-none b.row_state b.n_rows 0 (λ i k. h.rows i (omega arith))

pub IsOpenAt-get_openned_row :
    (b : BankPerfModel) (r : ℕ) (c : Command) → IsOpenAt r c b → get_openned_row b ≡ some r
unfolding get_openned_row
IsOpenAt-get_openned_row b r c h =
    first_openned-some b.row_state b.n_rows 0 r (λ i k. h.others i (omega arith)) h.opened
      (omega arith) (omega (arith, h.inside))

pub process_command-act :
    (b : BankPerfModel) (r time : ℕ)
    → IsClosed b
    → r < b.n_rows
    → Issued (IsOpenAt r act) open_cost b (process_command act r time b)
unfolding process_command get_transition_latency charged is_row_hit count_command switch_command
    find_timing timing
process_command-act b r time h k = record {
  holds = record {
    inside = k;
    opened = ground arith;
    others = λ i l ne. ground (arith, h.rows i l);
    open_row = refl;
    cmd = refl;
  };
  costs = rw h.cmd refl;
  kept_log = rw h.cmd refl;
  kept_rows = refl;
}

pub process_command-access :
    (b : BankPerfModel) (r time : ℕ) (c : Command) (a : Access)
    → IsOpenAt r c b
    → Issued
        (IsOpenAt r (access_command a))
        (access_cost a)
        b
        (process_command (access_command a) r time b)
unfolding process_command get_transition_latency charged is_row_hit count_command switch_command
    find_timing timing
process_command-access b r time c read h =
    let hit : (b.cur_open_row == r) ≡ true = rw h.open_row (==_refl r) in
    record {
      holds = record {
        inside = h.inside;
        opened = h.opened;
        others = h.others;
        open_row = h.open_row;
        cmd = refl;
      };
      costs = rw hit refl;
      kept_log = rw hit refl;
      kept_rows = refl;
    }
process_command-access b r time c write h =
    let hit : (b.cur_open_row == r) ≡ true = rw h.open_row (==_refl r) in
    record {
      holds = record {
        inside = h.inside;
        opened = h.opened;
        others = h.others;
        open_row = h.open_row;
        cmd = refl;
      };
      costs = rw hit refl;
      kept_log = rw hit refl;
      kept_rows = refl;
    }

latency-pre : (a : Access) → get_transition_latency (access_command a) pre ≡ (close_cost a, false)
unfolding get_transition_latency find_timing timing
latency-pre read = refl
latency-pre write = refl

pub process_command-pre :
    (b : BankPerfModel) (r time : ℕ) (a : Access)
    → IsOpenAt r (access_command a) b
    → Issued IsClosed (close_cost a) b (process_command pre r time b)
unfolding process_command charged is_row_hit count_command switch_command
process_command-pre b r time a h = record {
  holds = record { rows = λ i l. ground (arith, h.others i l); open_row = refl; cmd = refl };
  costs = rw (h.cmd, latency-pre a) refl;
  kept_log = rw (h.cmd, latency-pre a) refl;
  kept_rows = refl;
}
