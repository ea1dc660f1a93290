-- ===== src/Recording/Taken.antt =====
-- What `updatePower` takes of the counters of a bank.
use sniper_zip.Prelude.{ℕ, ◌<◌, ◌≡◌, ◌≢◌, refl, Bool, sub32, arith, for_range_none, for_range_once}
use sniper_zip.Thermal.{Interval, Thermal}
use sniper_zip.Recording.{Recorder, take_bank, take_vault, update_power}

-- What is kept of a bank's counters.
pub record Taken : Type 0 where
  pub reads : ℕ
  pub writes : ℕ
  pub new_reads : ℕ
  pub new_writes : ℕ

module _ (v b : ℕ) where
  abbrev pub taken : Recorder → Taken
  taken s = record {
    reads = s.bank_stats.reads v b;
    writes = s.bank_stats.writes v b;
    new_reads = s.interval.reads v b;
    new_writes = s.interval.writes v b;
  }

  -- The counters at hand, and their growth.
  abbrev pub takes : Interval → Taken → Taken
  takes n t = record {
    reads = n.reads v b;
    writes = n.writes v b;
    new_reads = sub32 (n.reads v b) t.reads;
    new_writes = sub32 (n.writes v b) t.writes;
  }

  take_bank_here : (n : Interval) (s : Recorder) → taken (take_bank n v b s) ≡ takes n (taken s)
  unfolding take_bank
  take_bank_here n s = ground arith

  take_bank_bank :
      (n : Interval) (i j : ℕ) (s : Recorder) → j ≢ b → taken (take_bank n i j s) ≡ taken s
  unfolding take_bank
  take_bank_bank n i j s ne = ground arith

  take_bank_vault :
      (n : Interval) (i j : ℕ) (s : Recorder) → i ≢ v → taken (take_bank n i j s) ≡ taken s
  unfolding take_bank
  take_bank_vault n i j s ne = ground arith

  -- The sizes stay, and so does what `callHotSpot` keeps.
  abbrev pub rest : Recorder → Thermal × ℕ × Bool
  rest s = (s.thermal, s.n_banks, s.start_hotspot)

  take_vault_rest :
      (n : Interval) (n_banks i : ℕ) (s : Recorder) → rest (take_vault n n_banks i s) ≡ rest s
  unfolding take_vault take_bank
  take_vault_rest n n_banks i s = for_range_none rest (take_bank n i) n_banks s (λ j y. refl)

  pub update_power_rest : (n : Interval) (s : Recorder) → rest (update_power n s) ≡ rest s
  unfolding update_power
  update_power_rest n s =
      for_range_none rest (take_vault n s.n_banks) s.thermal.dram.n_vaults s
        (λ i y. take_vault_rest n s.n_banks i y)

  take_vault_here :
      (n : Interval) (n_banks : ℕ) (s : Recorder)
      → b < n_banks
      → taken (take_vault n n_banks v s) ≡ takes n (taken s)
  unfolding take_vault
  take_vault_here n n_banks s lt =
      for_range_once taken (takes n) (take_bank n v) b n_banks s lt (take_bank_here n)
        (λ j y ne. take_bank_bank n v j y ne)

  take_vault_other :
      (n : Interval) (n_banks i : ℕ) (s : Recorder)
      → i ≢ v
      → taken (take_vault n n_banks i s) ≡ taken s
  unfolding take_vault
  take_vault_other n n_banks i s ne =
      for_range_none taken (take_bank n i) n_banks s (λ j y. take_bank_vault n i j y ne)

  pub update_power-takes :
      (n : Interval) (s : Recorder)
      → v < s.thermal.dram.n_vaults
      → b < s.n_banks
      → taken (update_power n s) ≡ takes n (taken s)
  unfolding update_power
  update_power-takes n s lt_v lt_b =
      for_range_once taken (takes n) (take_vault n s.n_banks) v s.thermal.dram.n_vaults s lt_v
        (λ y. take_vault_here n s.n_banks y lt_b) (λ i y ne. take_vault_other n s.n_banks i y ne)
