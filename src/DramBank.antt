-- ===== src/DramBank.antt =====
-- A bank of the stacked DRAM and its timing: `BankPerfModel` of performance_model/dram_bank.h and
-- .cc. A time is a number of femtoseconds in 64 bits.
use sniper_zip.Prelude.{
  ℕ, zero, suc, ◌+◌, ◌*◌, ◌/◌, Bool, true, false, not, ◌==◌, if◌then◌else◌, ◌&&◌, ltb, Option, none,
  some, List, [], ◌∷◌, update, u32, u64, sub64,
}

pub data Command : Type 0 where
  act pre prea rd wr rda wra ref refsb pde pdx sre srx max_command : Command

-- The number of the enumeration.
abbrev pub code : Command → ℕ
code act = 0
code pre = 1
code prea = 2
code rd = 3
code wr = 4
code rda = 5
code wra = 6
code ref = 7
code refsb = 8
code pde = 9
code pdx = 10
code sre = 11
code srx = 12
code max_command = 13

pub record BankStatEntry : Type 0 where
  pub t_act : ℕ
  pub t_pre : ℕ
  pub t_rd : ℕ
  pub t_wr : ℕ
  pub reads : ℕ
  pub writes : ℕ
  pub row_hits : ℕ

abbrev pub zero_stats : BankStatEntry
zero_stats = record {
  t_act = 0;
  t_pre = 0;
  t_rd = 0;
  t_wr = 0;
  reads = 0;
  writes = 0;
  row_hits = 0;
}

pub record TimingEntry : Type 0 where
  pub cmd : Command
  pub dist : ℕ
  pub val : ℕ

-- The entries of `speed_table` that the code reads.
pub record SpeedEntry : Type 0 where
  pub freq : ℕ
  pub n_bl : ℕ
  pub n_rcdr : ℕ
  pub n_rcdw : ℕ
  pub n_rp : ℕ
  pub n_cwl : ℕ
  pub n_ras : ℕ
  pub n_rc : ℕ
  pub n_rtp : ℕ
  pub n_wr : ℕ
  pub n_rfc : ℕ

abbrev pub speed_table : SpeedEntry
speed_table = record {
  freq = 500;
  n_bl = 2;
  n_rcdr = 7;
  n_rcdw = 6;
  n_rp = 7;
  n_cwl = 4;
  n_ras = 17;
  n_rc = 24;
  n_rtp = 7;
  n_wr = 8;
  n_rfc = 0;
}

abbrev pub after_one : Command → ℕ → TimingEntry
after_one c v = record { cmd = c; dist = 1; val = v }

-- `init_timing`: what may follow a command, in the order in which the entries are pushed.
unfoldable pub timing : Command → List TimingEntry
timing act =
    let s = speed_table in
    after_one rd s.n_rcdr
    ∷ after_one rda s.n_rcdr
    ∷ after_one wr s.n_rcdw
    ∷ after_one wra s.n_rcdw
    ∷ after_one act s.n_rc
    ∷ after_one pre s.n_ras
    ∷ []
timing rd = after_one pre speed_table.n_rtp ∷ []
timing wr = let s = speed_table in after_one pre (s.n_cwl + s.n_bl + s.n_wr) ∷ []
timing rda = let s = speed_table in after_one act (s.n_rtp + s.n_rp) ∷ []
timing wra = let s = speed_table in after_one act (s.n_cwl + s.n_bl + s.n_wr + s.n_rp) ∷ []
timing pre = let s = speed_table in after_one act s.n_rp ∷ after_one refsb s.n_rp ∷ []
timing refsb = let s = speed_table in after_one refsb s.n_rfc ∷ after_one act s.n_rfc ∷ []
timing prea = []
timing ref = []
timing pde = []
timing pdx = []
timing sre = []
timing srx = []
timing max_command = []

unfoldable pub find_timing : Command → List TimingEntry → Option ℕ
find_timing a [] = none
find_timing a (e ∷ es) = if code e.cmd == code a then some e.val else find_timing a es

-- SubsecondTime::NS(x)
abbrev pub ns : ℕ → ℕ
ns x = x * 1000000

-- `getTransitionLatency`: the latency, and whether the code prints that the transition is illegal.
unfoldable pub get_transition_latency : Command → Command → ℕ × Bool
unfolding find_timing timing
get_transition_latency p a = elim (find_timing a (timing p)) [
  | some v ↦ (ns (v * 1000 / speed_table.freq), false)
  | none ↦ (0, true)
]

pub data RowState : Type 0 where
  openned closed : RowState

abbrev pub is_openned_state : RowState → Bool
is_openned_state openned = true
is_openned_state closed = false

pub record BankPerfModel : Type 0 where
  pub bank_size : ℕ
  pub row_size : ℕ
  pub n_rows : ℕ
  pub cur_open_row : ℕ
  pub cur_cmd : Command
  pub cur_time : ℕ
  pub tot_time : ℕ
  pub stats : BankStatEntry
  pub row_state : ℕ → RowState
  -- The illegal transitions that were printed, the last one first.
  pub log : List (Command × Command)

-- -1 as an unsigned word.
abbrev pub no_row : ℕ
no_row = 4294967295

-- The constructor.
unfoldable pub new_bank : ℕ → ℕ → BankPerfModel
new_bank bank_size row_size = record {
  bank_size = bank_size;
  row_size = row_size;
  n_rows = bank_size / row_size;
  cur_open_row = no_row;
  cur_cmd = pre;
  cur_time = 0;
  tot_time = 0;
  stats = zero_stats;
  row_state = λ i. closed;
  log = [];
}

-- A read or write of the row that is open.
unfoldable pub is_row_hit : Command → ℕ → BankPerfModel → Bool
is_row_hit wr row_i b = b.cur_open_row == row_i
is_row_hit rd row_i b = b.cur_open_row == row_i
is_row_hit cmd row_i b = false

-- The switch on the command.
unfoldable pub switch_command : Command → ℕ → ℕ → BankPerfModel → BankPerfModel
switch_command act row_i latency b = record b {
  stats = record b.stats { t_act = u64 (b.stats.t_act + latency) };
  row_state = update b.row_state row_i openned;
  cur_open_row = row_i;
}
switch_command pre row_i latency b = record b {
  stats = record b.stats { t_pre = u64 (b.stats.t_pre + latency) };
  row_state = update b.row_state row_i closed;
  cur_open_row = no_row;
}
switch_command rd row_i latency b = record b {
  stats = record b.stats { t_rd = u64 (b.stats.t_rd + latency); reads = u32 (b.stats.reads + 1) };
}
switch_command wr row_i latency b = record b {
  stats = record b.stats { t_wr = u64 (b.stats.t_wr + latency); writes = u32 (b.stats.writes + 1) };
}
switch_command cmd row_i latency b = b

-- The transition whose latency is charged: a row hit costs what the command costs after ACT.
unfoldable pub charged : Command → ℕ → BankPerfModel → Command
unfolding is_row_hit
charged cmd row_i b = if is_row_hit cmd row_i b then act else b.cur_cmd

-- row_hits++, the two times, and the message of an illegal transition.
unfoldable pub count_command : Command → ℕ → ℕ → BankPerfModel → BankPerfModel
unfolding is_row_hit get_transition_latency charged
count_command cmd row_i cmd_time b =
    let hit = is_row_hit cmd row_i b && not (code b.cur_cmd == code act) in
    let illegal = (get_transition_latency (charged cmd row_i b) cmd).1 in
    record b {
      stats = record b.stats {
        row_hits = if hit then u32 (b.stats.row_hits + 1) else b.stats.row_hits;
      };
      tot_time =
          if b.cur_time == 0 then b.tot_time else u64 (b.tot_time + sub64 cmd_time b.cur_time);
      cur_time = cmd_time;
      log = if illegal then (charged cmd row_i b, cmd) ∷ b.log else b.log;
    }

-- `processCommand`: the bank, and the latency of the command.
unfoldable pub process_command : Command → ℕ → ℕ → BankPerfModel → BankPerfModel × ℕ
unfolding get_transition_latency charged count_command switch_command
process_command cmd row_i cmd_time b =
    let latency = (get_transition_latency (charged cmd row_i b) cmd).0 in
    let counted = count_command cmd row_i cmd_time b in
    (record (switch_command cmd row_i latency counted) { cur_cmd = cmd }, latency)

-- `isOpenned`: the state of the row, and whether the row number is reported as illegal.
unfoldable pub is_openned : ℕ → BankPerfModel → Bool × Bool
is_openned row_i b = (is_openned_state (b.row_state row_i), not (ltb row_i b.n_rows))

-- The rows from `from` on, `rounds` of them; `none` is -1.
unfoldable pub first_openned : (ℕ → RowState) → ℕ → ℕ → Option ℕ
first_openned rows zero from = none
first_openned rows (suc rounds) from =
    let rest = first_openned rows rounds (from + 1) in
    if is_openned_state (rows from) then some from else rest

unfoldable pub get_openned_row : BankPerfModel → Option ℕ
unfolding first_openned
get_openned_row b = first_openned b.row_state b.n_rows 0
