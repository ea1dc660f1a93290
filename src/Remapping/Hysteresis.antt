-- ===== src/Remapping/Hysteresis.antt =====
-- Policy 0, as one equation for each bank.
use sniper_zip.Prelude.{
  ℕ, ◌+◌, ◌≡◌, refl, Bool, true, false, not, if◌then◌else◌, ◌||◌, ◌&&◌, ltb, arith, for_range_inv,
  ◌∙◌, update,
}
use sniper_zip.Remapping.{RemappingManager, reset_bank, is_below, is_high}
use sniper_zip.Remapping.Bank.{BankStat}
use sniper_zip.Remapping.Mechanism.{run_bank, run_mechanism}

-- A bank after one round: disabled from the high threshold on, enabled below the remap threshold,
-- and as it was between them; its content is lost when it is disabled.
unfoldable pub settled : Bool → Bool → BankStat → BankStat
settled high low b = record b {
  disabled = if high then true else if low then false else b.disabled;
  valid = if high && (low || not b.disabled) then false else b.valid;
}

abbrev pub temp_of : RemappingManager → ℕ → ℕ
temp_of m b = (m.phy_banks (m.bank_stat b).physical_id).temperature

abbrev pub settled_in : RemappingManager → ℕ → BankStat
settled_in m b =
    settled (is_high m (temp_of m b)) (is_below m (temp_of m b) m.remap_thres) (m.bank_stat b)

-- What a round leaves alone.
record IsSameShape (m m' : RemappingManager) : Type 0 where
  policy : m'.n_remap ≡ m.n_remap
  high : m'.high_thres ≡ m.high_thres
  low : m'.remap_thres ≡ m.remap_thres
  step : m'.temp_unit ≡ m.temp_unit
  temps : (j : ℕ) → (m'.phy_banks j).temperature ≡ (m.phy_banks j).temperature

run_bank-settled :
    (b : ℕ) (m : RemappingManager)
    → m.n_remap ≡ 0
    → (j : ℕ) → (run_bank b m).bank_stat j ≡ update m.bank_stat b (settled_in m b) j
unfolding run_bank reset_bank settled
run_bank-settled b m h j = ground arith

run_bank-IsSameShape : (b : ℕ) (m : RemappingManager) → m.n_remap ≡ 0 → IsSameShape m (run_bank b m)
unfolding run_bank reset_bank
run_bank-IsSameShape b m h = record {
  policy = ground arith;
  high = ground arith;
  low = ground arith;
  step = ground arith;
  temps = λ j. ground arith;
}

-- The banks below `i` are settled, the others as they were.
record Progress (m : RemappingManager) (i : ℕ) (s : RemappingManager) : Type 0 where
  shape : IsSameShape m s
  banks : (j : ℕ) → s.bank_stat j ≡ (if ltb j i then settled_in m j else m.bank_stat j)

settled_in_same :
    (i : ℕ) (m s : RemappingManager)
    → IsSameShape m s
    → s.bank_stat i ≡ m.bank_stat i
    → settled_in s i ≡ settled_in m i
settled_in_same i m s h e =
    let t : temp_of s i ≡ temp_of m i = rw (temp_of, e) (h.temps (m.bank_stat i).physical_id) in cc

Progress-step :
    (m : RemappingManager) (i : ℕ) (s : RemappingManager)
    → m.n_remap ≡ 0
    → Progress m i s
    → Progress m (i + 1) (run_bank i s)
Progress-step m i s k p =
    let same = settled_in_same i m s p.shape (p.banks i ∙ ground arith) in
    let round = run_bank-IsSameShape i s (p.shape.policy ∙ k) in
    record {
      shape = record {
        policy = round.policy ∙ p.shape.policy;
        high = round.high ∙ p.shape.high;
        low = round.low ∙ p.shape.low;
        step = round.step ∙ p.shape.step;
        temps = λ j. round.temps j ∙ p.shape.temps j;
      };
      banks = λ j. run_bank-settled i s (p.shape.policy ∙ k) j ∙ cell same j;
    }
  where
    cell :
        settled_in s i ≡ settled_in m i
        → (j : ℕ)
        → update s.bank_stat i (settled_in s i) j
          ≡ (if ltb j (i + 1) then settled_in m j else m.bank_stat j)
    cell same j = rw same (ground (arith, p.banks j))

-- Under policy 0 `runMechanism` leaves every bank of the table settled by its own temperature, in
-- all of its fields, and the others untouched.
pub run_mechanism-settled :
    (m : RemappingManager) (b : ℕ)
    → m.n_remap ≡ 0
    → (run_mechanism m).bank_stat b ≡ (if ltb b m.tot_banks then settled_in m b else m.bank_stat b)
unfolding run_mechanism
run_mechanism-settled m b k = done.banks b
  where
    done : Progress m m.tot_banks (run_mechanism m)
    done =
        for_range_inv (Progress m) run_bank m.tot_banks 0 m.tot_banks m
          (λ i s lo hi p. Progress-step m i s k p) (omega arith)
          (record {
            shape = record {
              policy = refl;
              high = refl;
              low = refl;
              step = refl;
              temps = λ j. refl;
            };
            banks = λ j. ground arith;
          })
