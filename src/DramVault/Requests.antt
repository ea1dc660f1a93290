-- ===== src/DramVault/Requests.antt =====
-- Requests to a vault: what they leave open, what they cost, and that no command is illegal.
use sniper_zip.Prelude.{
  ℕ, ◌+◌, ◌<◌, ◌≤◌, ◌≡◌, inl, inr, refl, ◌∙◌, false, ◌==◌, if◌then◌else◌, update, if_rule, arith,
  Bool-cases, [], u64,
}
use sniper_zip.DramBank.{BankPerfModel, new_bank, Command, process_command, act, pre}
use sniper_zip.DramVault.{
  Access, read, write, access_command, VaultPerfModel, new_vault, Progress, open_row, change_row,
  make_open, process_bank, process_request,
}
use sniper_zip.DramVault.Commands.{
  IsClosed, IsOpenAt, Issued, access_cost, close_cost, open_cost, IsClosed-get_openned_row,
  IsOpenAt-get_openned_row, process_command-act, process_command-access, process_command-pre,
}

-- A bank between requests: closed, or open where the last read or write was.
pub data IsAtRest (b : BankPerfModel) : Type 0 where
  all_closed : IsClosed b → IsAtRest b
  one_open : (r : ℕ) (a : Access) → IsOpenAt r (access_command a) b → IsAtRest b

-- What it costs to open a row, from there.
abbrev pub opening_cost : {b : BankPerfModel} → IsAtRest b → ℕ → ℕ
opening_cost (all_closed h) row_i = open_cost
opening_cost (one_open r a h) row_i = if r == row_i then 0 else close_cost a + open_cost

-- Where the code stands when the row is open, `cost` later.
record IsMade (row_i cost : ℕ) (b : BankPerfModel) (p : Progress) : Type 0 where
  cmd : Command
  opened : IsOpenAt row_i cmd p.bank
  costs : p.latency ≡ cost
  kept_log : p.bank.log ≡ b.log
  kept_rows : p.bank.n_rows ≡ b.n_rows

open_row_lem :
    (b : BankPerfModel) (t row_i : ℕ)
    → IsClosed b
    → row_i < b.n_rows
    → IsMade row_i open_cost b (open_row t row_i b)
unfolding open_row u64
open_row_lem b t row_i h k =
    let done = process_command-act b row_i t h k in
    record {
      cmd = act;
      opened = done.holds;
      costs = rw done.costs refl;
      kept_log = done.kept_log;
      kept_rows = done.kept_rows;
    }

sums : (a : Access) → u64 (u64 (0 + close_cost a) + open_cost) ≡ close_cost a + open_cost
unfolding u64
sums read = refl
sums write = refl

change_row_lem :
    (b : BankPerfModel) (t row_i r : ℕ) (a : Access)
    → IsOpenAt r (access_command a) b
    → row_i < b.n_rows
    → IsMade row_i (close_cost a + open_cost) b (change_row false t row_i r b)
unfolding change_row
change_row_lem b t row_i r a h k =
    let done = process_command-pre b r t a h in
    let next =
      process_command-act (process_command pre r t b).0 row_i
        (u64 (t + u64 (0 + (process_command pre r t b).1))) done.holds (rw done.kept_rows k) in
    record {
      cmd = act;
      opened = next.holds;
      costs = rw (next.costs, done.costs) (sums a);
      kept_log = next.kept_log ∙ done.kept_log;
      kept_rows = next.kept_rows ∙ done.kept_rows;
    }

make_open_lem :
    (b : BankPerfModel) (t row_i : ℕ) (rest : IsAtRest b)
    → row_i < b.n_rows
    → IsMade row_i (opening_cost rest row_i) b (make_open false t row_i b)
unfolding make_open
make_open_lem b t row_i (all_closed h) k =
    rw (make_open, IsClosed-get_openned_row b h) (open_row_lem b t row_i h k)
make_open_lem b t row_i (one_open r a h) k = elim (Bool-cases (r == row_i)) [
  | inl e ↦
      let same : row_i ≡ r = ground arith in
      rw (make_open, IsOpenAt-get_openned_row b r _ h, e)
        (record {
          cmd = access_command a;
          opened = rw same h;
          costs = refl;
          kept_log = refl;
          kept_rows = refl;
        })
  | inr e ↦ rw (make_open, IsOpenAt-get_openned_row b r _ h, e) (change_row_lem b t row_i r a h k)
]

opening_cost-le :
    {b : BankPerfModel} (rest : IsAtRest b) (row_i : ℕ) → opening_cost rest row_i ≤ 42000000
opening_cost-le (all_closed h) row_i = omega arith
opening_cost-le (one_open r read h) row_i = ground arith
opening_cost-le (one_open r write h) row_i = ground arith

access_cost-bounds : (a : Access) → (12000000 ≤ access_cost a) × (access_cost a ≤ 14000000)
access_cost-bounds read = (omega arith, omega arith)
access_cost-bounds write = (omega arith, omega arith)

u64_sum :
    {b : BankPerfModel} (rest : IsAtRest b) (row_i : ℕ) (a : Access)
    → u64 (opening_cost rest row_i + access_cost a) ≡ opening_cost rest row_i + access_cost a
unfolding u64
u64_sum rest row_i read = omega (arith, opening_cost-le rest row_i)
u64_sum rest row_i write = omega (arith, opening_cost-le rest row_i)

-- A request to a row of a bank that is at rest leaves exactly that row open, prints no illegal
-- transition, and costs 14 ns for a read and 12 ns for a write, plus: nothing if the row was open;
-- 14 ns to open it if no row was; and, if another row was open, also the precharge, which is 14 ns
-- after a read and 28 ns after a write.
pub process_bank_lem :
    (b : BankPerfModel) (t row_i : ℕ) (a : Access) (rest : IsAtRest b)
    → row_i < b.n_rows
    → Issued
        (IsOpenAt row_i (access_command a))
        (opening_cost rest row_i + access_cost a)
        b
        (process_bank false t a row_i b)
unfolding process_bank
process_bank_lem b t row_i a rest k =
    let made = make_open_lem b t row_i rest k in
    let done =
      process_command-access (make_open false t row_i b).bank row_i
        (u64 (t + (make_open false t row_i b).latency)) made.cmd a made.opened in
    record {
      holds = done.holds;
      costs = rw (done.costs, made.costs) (u64_sum rest row_i a);
      kept_log = done.kept_log ∙ made.kept_log;
      kept_rows = done.kept_rows ∙ made.kept_rows;
    }

-- The vaults that the constructor and requests to rows of their banks lead to.
pub data IsReached : VaultPerfModel → Type 0 where
  created :
      (que_len size bank_size row_size : ℕ) → IsReached (new_vault que_len size bank_size row_size)
  requested :
      (v : VaultPerfModel) (t : ℕ) (a : Access) (bank_i row_i : ℕ)
      → row_i < (v.banks bank_i).n_rows
      → IsReached v
      → IsReached (process_request t a bank_i row_i v).0

record IsCalm (b : BankPerfModel) : Type 0 where
  rest : IsAtRest b
  legal : b.log ≡ []

record AreCalm (v : VaultPerfModel) : Type 0 where
  manual : v.auto_ref ≡ false
  calm : (i : ℕ) → IsCalm (v.banks i)

update-IsCalm :
    (banks : ℕ → BankPerfModel) (i : ℕ) (b : BankPerfModel)
    → ((j : ℕ) → IsCalm (banks j))
    → IsCalm b
    → (j : ℕ) → IsCalm (update banks i b j)
update-IsCalm banks i b h k j = if_rule IsCalm (j == i) b (banks j) (λ e. k) (λ e. h j)

new_bank-IsCalm : (bank_size row_size : ℕ) → IsCalm (new_bank bank_size row_size)
unfolding new_bank
new_bank-IsCalm bank_size row_size = record {
  rest = all_closed (record { rows = λ i k. refl; open_row = refl; cmd = refl });
  legal = refl;
}

IsReached-AreCalm : (v : VaultPerfModel) → IsReached v → AreCalm v
unfolding new_vault process_request
IsReached-AreCalm v (created q s b r) = record { manual = refl; calm = λ i. new_bank-IsCalm b r }
IsReached-AreCalm v (requested w t a bank_i row_i k h) =
    let before = IsReached-AreCalm w h in
    let old = before.calm bank_i in
    let done = process_bank_lem (w.banks bank_i) t row_i a old.rest k in
    record {
      manual = before.manual;
      calm = rw before.manual (
          update-IsCalm w.banks bank_i _ before.calm
            (record { rest = one_open row_i a done.holds; legal = done.kept_log ∙ old.legal }));
    }

-- In a vault that has served any requests to rows of its banks, every bank is at rest and has printed
-- no illegal transition, and the next request costs 12 to 56 ns.
pub process_request_bounds :
    (v : VaultPerfModel) (t : ℕ) (a : Access) (bank_i row_i : ℕ)
    → IsReached v
    → row_i < (v.banks bank_i).n_rows
    → ((i : ℕ) → IsAtRest (v.banks i) × ((v.banks i).log ≡ []))
      × (12000000 ≤ (process_request t a bank_i row_i v).1)
      × ((process_request t a bank_i row_i v).1 ≤ 56000000)
unfolding process_request
process_request_bounds v t a bank_i row_i h k =
    let all = IsReached-AreCalm v h in
    let old = all.calm bank_i in
    let done = process_bank_lem (v.banks bank_i) t row_i a old.rest k in
    let bounds = access_cost-bounds a in
    (
      λ i. ((all.calm i).rest, (all.calm i).legal),
      rw (all.manual, done.costs) (omega (arith, bounds)),
      rw (all.manual, done.costs) (omega (arith, bounds, opening_cost-le old.rest row_i)),
    )
