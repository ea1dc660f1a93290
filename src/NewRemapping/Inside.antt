-- ===== src/NewRemapping/Inside.antt =====
-- The ids of the second manager never leave the table, whatever is done to it.
use native.Mathlib.Nat.{div-lt_iff_lt-mul, mul-le-mul_right}
use sniper_zip.Prelude.{
  ℕ, ◌+◌, ◌*◌, ◌/◌, ◌<◌, ◌≤◌, ◌≡◌, inl, inr, refl, sym, ◌∙◌, Bool, true, false, not, ◌==◌,
  if◌then◌else◌, ◌&&◌, arith, List, [], ◌∷◌, u32, u32_of_lt, update, if_rule, for_range_inv,
}
use sniper_zip.NewRemapping.{
  BankStat, RemappingManager, PhyBank, is_cool, new_manager, new_bank, set_remap_config,
  update_temperature, get_bank_id, reset_bank, reset_stats_bank, reset_stats, access_row,
  access_bank_row, combine_with, run_disable, combine, run_combine, run_bank, run_mechanism,
  find_target, search_end, set_bank, set_id, set_disabled, set_valid, finish_remapping,
}
use sniper_zip.NewRemapping.Target.{find_target-Found}

-- A bank whose logical and physical bank are the same bank of the table.
abbrev IsTwin : ℕ → BankStat → Type 0
IsTwin tot b = (b.logical_id < tot) × (b.physical_id ≡ b.logical_id)

-- The size of the table, the numbers of physical banks, and the ids of the banks of the table.
record IsInside (vaults banks : ℕ) (m : RemappingManager) : Type 0 where
  width : m.n_banks ≡ banks
  size : m.tot_banks ≡ vaults * banks
  vaults_same : m.n_vaults ≡ vaults
  placed : (j : ℕ) → (m.phy_banks j).logical_bank ≡ j
  twins : (b : ℕ) → b < vaults * banks → IsTwin (vaults * banks) (m.bank_stat b)

-- A write to a bank that keeps its twin.
IsTwin-update :
    (tot i : ℕ) (banks : ℕ → BankStat) (s : BankStat)
    → ((b : ℕ) → b < tot → IsTwin tot (banks b))
    → (i < tot → IsTwin tot s)
    → (b : ℕ) → b < tot
    → IsTwin tot (update banks i s b)
IsTwin-update tot i banks s h k b lt =
    if_rule (IsTwin tot) (b == i) s (banks b)
      (λ e. let same : b ≡ i = ground arith in k (rw (← same) lt)) (λ e. h b lt)

placed-update :
    (i : ℕ) (phys : ℕ → PhyBank) (p : PhyBank)
    → ((j : ℕ) → (phys j).logical_bank ≡ j)
    → p.logical_bank ≡ i
    → (j : ℕ) → (update phys i p j).logical_bank ≡ j
placed-update i phys p h k j =
    if_rule (λ (x : PhyBank). x.logical_bank ≡ j) (j == i) p (phys j)
      (λ e. let same : j ≡ i = ground arith in k ∙ sym same) (λ e. h j)

module _ (vaults banks : ℕ) where
  -- Writes of the valid bit of a physical bank, and of a bank.
  phy-IsInside :
      (i : ℕ) (v : Bool) (m : RemappingManager)
      → IsInside vaults banks m
      → IsInside vaults banks
          (record m { phy_banks = update m.phy_banks i (record (m.phy_banks i) { valid = v }) })
  phy-IsInside i v m h = record {
    width = h.width;
    size = h.size;
    vaults_same = h.vaults_same;
    placed = placed-update i m.phy_banks _ h.placed (h.placed i);
    twins = h.twins;
  }

  bank-IsInside :
      (i : ℕ) (f : BankStat → BankStat) (m : RemappingManager)
      → IsInside vaults banks m
      → (i < vaults * banks → IsTwin (vaults * banks) (f (m.bank_stat i)))
      → IsInside vaults banks (set_bank i f m)
  bank-IsInside i f m h k = record {
    width = h.width;
    size = h.size;
    vaults_same = h.vaults_same;
    placed = h.placed;
    twins = IsTwin-update (vaults * banks) i m.bank_stat (f (m.bank_stat i)) h.twins k;
  }

  reset_bank-IsInside :
      (i : ℕ) (m : RemappingManager)
      → IsInside vaults banks m
      → IsInside vaults banks (reset_bank i m)
  unfolding reset_bank set_id set_disabled
  reset_bank-IsInside i m h =
      let m1 : RemappingManager = record m {
        phy_banks =
            update m.phy_banks (m.bank_stat i).physical_id
              (record (m.phy_banks (m.bank_stat i).physical_id) { valid = true });
      } in
      let h1 : IsInside vaults banks m1 = phy-IsInside (m.bank_stat i).physical_id true m h in
      let enabled = bank-IsInside i (set_disabled false) m1 h1 (λ lt. h.twins i lt) in
      if_rule (IsInside vaults banks) (m.n_remap == 0) _ _ (λ e. enabled)
        (λ e.
          if_rule (IsInside vaults banks) (m.n_remap == 1) _ _
            (λ g. bank-IsInside i (set_id i i) m1 h1 (λ lt. (lt, refl)))
            (λ g.
              if_rule (IsInside vaults banks) (m.n_remap == 2) _ _ (λ k. enabled)
                (λ k. record {
                  width = h.width;
                  size = h.size;
                  vaults_same = h.vaults_same;
                  placed = h1.placed;
                  twins = h.twins;
                })))

  reset_stats-IsInside :
      (reset : Bool) (m : RemappingManager)
      → IsInside vaults banks m
      → IsInside vaults banks (reset_stats reset m)
  unfolding reset_stats reset_stats_bank set_valid finish_remapping
  reset_stats-IsInside reset m h =
      let n = u32 (m.n_vaults * m.n_banks) in
      for_range_inv (λ _ s. IsInside vaults banks s) (reset_stats_bank reset) n 0 n m
        (λ i s lo hi k.
          let ready =
            bank-IsInside i finish_remapping (set_bank i (set_valid true) s)
              (bank-IsInside i (set_valid true) s k (λ lt. k.twins i lt))
              (λ lt. (bank-IsInside i (set_valid true) s k (λ lt. k.twins i lt)).twins i lt) in
          if_rule (IsInside vaults banks)
            (reset && is_cool s (s.phy_banks (s.bank_stat i).physical_id).temperature) _ _
            (λ e. reset_bank-IsInside i _ ready) (λ e. ready))
        (omega arith) h

  run_disable-IsInside :
      (i : ℕ) (m : RemappingManager)
      → IsInside vaults banks m
      → IsInside vaults banks (run_disable i m)
  unfolding run_disable set_disabled set_valid
  run_disable-IsInside i m h =
      let phy = (m.bank_stat i).physical_id in
      let cool = is_cool m (m.phy_banks phy).temperature in
      let m1 = if cool && (m.bank_stat i).disabled then reset_bank i m else m in
      let h1 : IsInside vaults banks m1 =
        if_rule (IsInside vaults banks) (cool && (m.bank_stat i).disabled) (reset_bank i m) m
          (λ e. reset_bank-IsInside i m h) (λ e. h) in
      let off = bank-IsInside i (set_disabled true) m1 h1 (λ lt. h1.twins i lt) in
      let lost = bank-IsInside i (set_valid false) _ off (λ lt. off.twins i lt) in
      if_rule (IsInside vaults banks) (not cool && not (m1.bank_stat i).disabled) _ m1
        (λ e. phy-IsInside phy false _ lost) (λ e. h1)

  search_end-le :
      (i : ℕ) (m : RemappingManager)
      → 0 < banks
      → i < vaults * banks
      → IsInside vaults banks m
      → search_end i m ≤ vaults * banks
  unfolding search_end
  search_end-le i m some_banks lt h =
      let v = i / banks in
      let low : v < vaults = (div-lt_iff_lt-mul some_banks).1 lt in
      let rows = mul-le-mul_right {m = v + 1} {n = vaults} banks (omega arith) in
      let wide = mul-le-mul_right {m = 1} {n = banks} v (omega arith) in
      if_rule (λ (x : ℕ). x ≤ vaults * banks) m.inter_vault m.tot_banks _
        (λ e. omega (arith, h.size)) (λ e. rw h.width (omega (arith, rows, wide)))

  find_target-lt :
      (i : ℕ) (m : RemappingManager)
      → 0 < banks
      → i < vaults * banks
      → IsInside vaults banks m
      → (find_target i m).target < vaults * banks
  find_target-lt i m some_banks lt h =
      let end = search_end-le i m some_banks lt h in
      elim (find_target-Found m i h.placed).origin [
        | inl (t, z) ↦ omega arith
        | inr (lo, hi, c, z) ↦ omega arith
      ]

  combine-IsInside :
      (i : ℕ) (m : RemappingManager)
      → 0 < banks
      → i < vaults * banks
      → IsInside vaults banks m
      → IsInside vaults banks (combine i m)
  unfolding combine combine_with
  combine-IsInside i m some_banks lt h =
      let t = (find_target i m).target in
      let twin = h.twins t (find_target-lt i m some_banks lt h) in
      let joined = bank-IsInside i (combine_with (m.bank_stat t)) m h (λ _. twin) in
      if_rule (IsInside vaults banks) (t == i) _ _
        (λ e. record {
          width = h.width;
          size = h.size;
          vaults_same = h.vaults_same;
          placed = h.placed;
          twins = h.twins;
        })
        (λ e. phy-IsInside t false _ joined)

  run_combine-IsInside :
      (i : ℕ) (m : RemappingManager)
      → 0 < banks
      → i < vaults * banks
      → IsInside vaults banks m
      → IsInside vaults banks (run_combine i m)
  unfolding run_combine
  run_combine-IsInside i m some_banks lt h =
      let cool = is_cool m (m.phy_banks (m.bank_stat i).physical_id).temperature in
      let moved = not ((m.bank_stat i).logical_id == i) in
      let m1 = if cool && moved then reset_bank i m else m in
      let h1 : IsInside vaults banks m1 =
        if_rule (IsInside vaults banks) (cool && moved) (reset_bank i m) m
          (λ e. reset_bank-IsInside i m h) (λ e. h) in
      if_rule (IsInside vaults banks) (not cool && (m1.bank_stat i).logical_id == i) (combine i m1)
        m1 (λ e. combine-IsInside i m1 some_banks lt h1) (λ e. h1)

  run_bank-IsInside :
      (i : ℕ) (m : RemappingManager)
      → 0 < banks
      → i < vaults * banks
      → IsInside vaults banks m
      → IsInside vaults banks (run_bank i m)
  unfolding run_bank
  run_bank-IsInside i m some_banks lt h =
      if_rule (IsInside vaults banks) (m.n_remap == 0) _ _ (λ e. run_disable-IsInside i m h)
        (λ e.
          if_rule (IsInside vaults banks) (m.n_remap == 1) _ _
            (λ g. run_combine-IsInside i m some_banks lt h)
            (λ g.
              if_rule (IsInside vaults banks) (m.n_remap == 2) m _ (λ k. h)
                (λ k. record {
                  width = h.width;
                  size = h.size;
                  vaults_same = h.vaults_same;
                  placed = h.placed;
                  twins = h.twins;
                })))

  run_mechanism-IsInside :
      (m : RemappingManager)
      → 0 < banks
      → IsInside vaults banks m
      → IsInside vaults banks (run_mechanism m)
  unfolding run_mechanism
  run_mechanism-IsInside m some_banks h =
      for_range_inv (λ _ s. IsInside vaults banks s) run_bank m.tot_banks 0 m.tot_banks m
        (λ i s lo hi k. run_bank-IsInside i s some_banks (omega (arith, h.size)) k) (omega arith) h

-- What the DRAM controller does to the manager.
pub data ManagerCall : Type 0 where
  configures : ℕ → Bool → ℕ → ℕ → ℕ → ℕ → ManagerCall
  heats : ℕ → ℕ → ℕ → ManagerCall
  accesses : ℕ → ℕ → ℕ → ManagerCall
  resets : Bool → ManagerCall
  runs : ManagerCall

unfoldable pub call : ManagerCall → RemappingManager → RemappingManager
call (configures n inter high dangerous remap init) m =
    set_remap_config n inter high dangerous remap init m
call (heats v b t) m = update_temperature v b t m
call (accesses v b r) m = access_row v b r m
call (resets reset) m = reset_stats reset m
call runs m = run_mechanism m

unfoldable pub calls : List ManagerCall → RemappingManager → RemappingManager
calls [] m = m
calls (c ∷ rest) m = calls rest (call c m)

call-IsInside :
    (vaults banks : ℕ) (c : ManagerCall) (m : RemappingManager)
    → 0 < banks
    → IsInside vaults banks m
    → IsInside vaults banks (call c m)
unfolding call set_remap_config update_temperature access_row access_bank_row
call-IsInside vaults banks (configures n inter high dangerous remap init) m some_banks h = record {
  width = h.width;
  size = h.size;
  vaults_same = h.vaults_same;
  placed = h.placed;
  twins = h.twins;
}
call-IsInside vaults banks (heats v b t) m some_banks h = record {
  width = h.width;
  size = h.size;
  vaults_same = h.vaults_same;
  placed = placed-update (get_bank_id v b m) m.phy_banks _ h.placed (h.placed (get_bank_id v b m));
  twins = h.twins;
}
call-IsInside vaults banks (accesses v b r) m some_banks h =
    let i = get_bank_id v b m in
    bank-IsInside vaults banks i (access_bank_row r) m h (λ lt. h.twins i lt)
call-IsInside vaults banks (resets reset) m some_banks h =
    reset_stats-IsInside vaults banks reset m h
call-IsInside vaults banks runs m some_banks h = run_mechanism-IsInside vaults banks m some_banks h

calls-IsInside :
    (vaults banks : ℕ) (cs : List ManagerCall) (m : RemappingManager)
    → 0 < banks
    → IsInside vaults banks m
    → IsInside vaults banks (calls cs m)
unfolding calls
calls-IsInside vaults banks [] m some_banks h = h
calls-IsInside vaults banks (c ∷ rest) m some_banks h =
    calls-IsInside vaults banks rest (call c m) some_banks
      (call-IsInside vaults banks c m some_banks h)

-- In a second manager built for some vaults and banks, fewer than 2^32 in all, after any calls with any
-- policies and temperatures in any order: the logical bank of every bank of the table is a bank of the
-- table, and its physical bank is the same, so no access through them leaves the arrays.
pub calls_inside :
    (temp_unit : ℕ) (garbage : ℕ × ℕ × ℕ × ℕ) (vaults banks rows : ℕ) (cs : List ManagerCall)
    (b : ℕ)
    → 0 < banks
    → vaults * banks < 4294967296
    → b < vaults * banks
    → let s = (calls cs (new_manager temp_unit garbage vaults banks rows)).bank_stat b in
      (s.logical_id < vaults * banks) × (s.physical_id ≡ s.logical_id)
unfolding new_manager new_bank
calls_inside temp_unit garbage vaults banks rows cs b some_banks small lt =
    let start : IsInside vaults banks (new_manager temp_unit garbage vaults banks rows) = record {
      width = refl;
      size = u32_of_lt (vaults * banks) small;
      vaults_same = refl;
      placed = λ j. refl;
      twins = λ i p. (p, refl);
    } in
    (calls-IsInside vaults banks cs (new_manager temp_unit garbage vaults banks rows) some_banks
        start).twins
      b lt
