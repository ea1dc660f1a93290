-- ===== src/NewRemapping/Settled.antt =====
-- Policy 0 of the second manager, as one equation for each bank.
use sniper_zip.Prelude.{
  ℕ, ◌+◌, ◌≡◌, refl, ◌∙◌, Bool, false, not, if◌then◌else◌, ◌&&◌, ltb, arith, update, for_range_inv,
}
use sniper_zip.NewRemapping.{
  BankStat, RemappingManager, is_cool, reset_bank, run_disable, run_bank, run_mechanism,
}

-- A bank after one round: disabled exactly if it is not cool, its content lost when that begins.
unfoldable pub settled : Bool → BankStat → BankStat
settled cool b = record b {
  disabled = not cool;
  valid = if not cool && not b.disabled then false else b.valid;
}

abbrev pub is_cool_bank : RemappingManager → ℕ → Bool
is_cool_bank m b = is_cool m (m.phy_banks (m.bank_stat b).physical_id).temperature

abbrev settled_in : RemappingManager → ℕ → BankStat
settled_in m b = settled (is_cool_bank m b) (m.bank_stat b)

-- What a round leaves alone.
record IsSameShape (m m' : RemappingManager) : Type 0 where
  policy : m'.n_remap ≡ m.n_remap
  high : m'.high_thres ≡ m.high_thres
  step : m'.temp_unit ≡ m.temp_unit
  temps : (j : ℕ) → (m'.phy_banks j).temperature ≡ (m.phy_banks j).temperature

run_bank-settled :
    (b : ℕ) (m : RemappingManager)
    → m.n_remap ≡ 0
    → (j : ℕ) → (run_bank b m).bank_stat j ≡ update m.bank_stat b (settled_in m b) j
unfolding run_bank run_disable reset_bank settled
run_bank-settled b m h j = ground arith

run_bank-IsSameShape : (b : ℕ) (m : RemappingManager) → m.n_remap ≡ 0 → IsSameShape m (run_bank b m)
unfolding run_bank run_disable reset_bank
run_bank-IsSameShape b m h = record {
  policy = ground arith;
  high = ground arith;
  step = ground arith;
  temps = λ j. ground arith;
}

-- The banks below `i` are settled, the others as they were.
record Progress (m : RemappingManager) (i : ℕ) (s : RemappingManager) : Type 0 where
  shape : IsSameShape m s
  banks : (j : ℕ) → s.bank_stat j ≡ (if ltb j i then settled_in m j else m.bank_stat j)

settled_in_same :
    (i : ℕ) (m s : RemappingManager)
    → IsSameShape m s
    → s.bank_stat i ≡ m.bank_stat i
    → settled_in s i ≡ settled_in m i
settled_in_same i m s h e =
    let t : (s.phy_banks (s.bank_stat i).physical_id).temperature
        ≡ (m.phy_banks (m.bank_stat i).physical_id).temperature =
      rw e (h.temps (m.bank_stat i).physical_id) in
    rw (t, e, h.high, h.step) refl

Progress-step :
    (m : RemappingManager) (i : ℕ) (s : RemappingManager)
    → m.n_remap ≡ 0
    → Progress m i s
    → Progress m (i + 1) (run_bank i s)
Progress-step m i s k p =
    let same = settled_in_same i m s p.shape (p.banks i ∙ ground arith) in
    let round = run_bank-IsSameShape i s (p.shape.policy ∙ k) in
    record {
      shape = record {
        policy = round.policy ∙ p.shape.policy;
        high = round.high ∙ p.shape.high;
        step = round.step ∙ p.shape.step;
        temps = λ j. round.temps j ∙ p.shape.temps j;
      };
      banks = λ j. run_bank-settled i s (p.shape.policy ∙ k) j ∙ cell same j;
    }
  where
    cell :
        settled_in s i ≡ settled_in m i
        → (j : ℕ)
        → update s.bank_stat i (settled_in s i) j
          ≡ (if ltb j (i + 1) then settled_in m j else m.bank_stat j)
    cell same j = rw same (ground (arith, p.banks j))

-- Under policy 0 `runMechanism` of the second manager leaves a bank of the table disabled if and only
-- if its physical bank is not below the high threshold, without a valid content if it was disabled
-- now, and all else of it as it was; banks outside the table are untouched.
pub run_mechanism-threshold :
    (m : RemappingManager) (b : ℕ)
    → m.n_remap ≡ 0
    → (run_mechanism m).bank_stat b
      ≡ (if ltb b m.tot_banks then settled (is_cool_bank m b) (m.bank_stat b) else m.bank_stat b)
unfolding run_mechanism
run_mechanism-threshold m b k =
    let done : Progress m m.tot_banks (run_mechanism m) =
      for_range_inv (Progress m) run_bank m.tot_banks 0 m.tot_banks m
        (λ i s lo hi p. Progress-step m i s k p) (omega arith)
        (record {
          shape = record { policy = refl; high = refl; step = refl; temps = λ j. refl };
          banks = λ j. ground arith;
        }) in
    done.banks b
