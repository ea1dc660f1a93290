-- ===== src/Remapping/Safety.antt =====
-- `runMechanism` keeps the banks paired, stays within the tables, and prints nothing.
use sniper_zip.Prelude.{
  ℕ, ◌+◌, ◌-◌, ◌*◌, ◌/◌, ◌<◌, ◌≤◌, ◌≡◌, ◌≢◌, ◌⊎◌, inl, inr, refl, Bool, true, false, not, ◌==◌,
  ◌||◌, ◌&&◌, ltb, arith, ◌∙◌, Bool-cases, if_rule, for_range_inv, u32_size,
}
use native.Mathlib.Nat.{div-lt_iff_lt-mul, mul-le-mul_right, le-mul_of_pos_right}
use mathlib.Core.Path.{subst, sym}
use sniper_zip.Remapping.{RemappingManager, combine_with, set_bank, is_high, is_below}
use sniper_zip.Remapping.Bank.{set_disabled, set_valid}
use sniper_zip.Remapping.Mechanism.{
  recover, disable, run_disable, Search, search_step, search_begin, search_end, find_target,
  combine, disable_hot, disable_enabled, cool_combined, disable_if_hot, is_hot_free,
  combine_or_disable, heat, run_combine, run_bank, run_mechanism,
}
use sniper_zip.Remapping.Pairing.{links, IsSingle, IsPaired, join, join-IsPaired, IsSingle-of_free}
use sniper_zip.Remapping.Operations.{
  IsSafe, IsSafe-step, reset_bank-IsSafe, set_bank-IsSafe, set_phy_valid-IsSafe, combine_with-join,
  combine_with-IsQuiet, set_disabled-link, set_valid-link, known,
}

-- What the search has found is the bank itself, or a free bank of the table.
pub record IsTarget (n : ℕ) (m : RemappingManager) (f : Search) : Type 0 where
  pub inside : f.target < n
  pub free : (m.bank_stat f.target).combined ≡ false
  pub enabled : (m.bank_stat f.target).disabled ≡ false

abbrev IsFound : ℕ → RemappingManager → ℕ → Search → Type 0
IsFound n m b f = (f.target ≡ b) ⊎ IsTarget n m f

search_step-IsFound :
    (n : ℕ) (m : RemappingManager) (b j : ℕ) (f : Search)
    → j < n
    → (m.phy_banks j).logical_bank ≡ j
    → IsFound n m b f
    → IsFound n m b (search_step m j f)
unfolding search_step
search_step-IsFound n m b j f hj placed t = elim (Bool-cases (taken)) [
  | inl e ↦ rw (placed, e) t
  | inr e ↦ elim (Bool-cases (better)) [
    | inl c ↦
        rw (placed, e, c)
          (inr (record { inside = hj; free = ground arith; enabled = ground arith }))
    | inr c ↦ rw (placed, e, c) t
  ]
]
  where
    taken : Bool
    taken = (m.bank_stat j).combined || (m.bank_stat j).disabled

    better : Bool
    better =
        is_below m (m.phy_banks j).temperature m.remap_thres
        && ltb (m.phy_banks j).temperature f.min_temp

module _ {n nb k : ℕ} where
  pub recount :
      {m : RemappingManager} (remaps disables doubles recoveries : ℕ)
      → IsSafe n nb k m
      → IsSafe n nb k (record m {
        remap_times = remaps;
        disable_times = disables;
        double_disable_times = doubles;
        recovery_times = recoveries;
      })
  recount r d e f s = record {
    banks = s.banks;
    vault_banks = s.vault_banks;
    policy = s.policy;
    placed = s.placed;
    quiet = s.quiet;
    paired = s.paired;
  }

  recover-IsSafe :
      (b : ℕ) (m : RemappingManager) → k < 3 → b < n → IsSafe n nb k m → IsSafe n nb k (recover b m)
  unfolding recover
  recover-IsSafe b m hk hb s =
      reset_bank-IsSafe b (record m { recovery_times = m.recovery_times + 1 }) hk hb
        (recount m.remap_times m.disable_times m.double_disable_times (m.recovery_times + 1) s)

  disable-IsSafe :
      (b p : ℕ) (m : RemappingManager) → IsSafe n nb k m → IsSafe n nb k (disable b p m)
  unfolding disable
  disable-IsSafe b p m s =
      let m1 = set_bank b (set_disabled true) m in
      set_phy_valid-IsSafe p false (set_bank b (set_valid false) m1) (
        set_bank-IsSafe b (set_valid false) m1 (set_valid-link false)
          (set_bank-IsSafe b (set_disabled true) m (set_disabled-link true) s))

  heat-IsSafe : (b p t : ℕ) (m : RemappingManager) → IsSafe n nb k m → IsSafe n nb k (heat b p t m)
  unfolding heat
  heat-IsSafe b p t m s =
      if_rule (IsSafe n nb k) (is_high m t && not (m.bank_stat b).disabled)
        (disable b p (record m { disable_times = m.disable_times + 1 })) m
        (λ _. disable-IsSafe b p _ (recount _ (m.disable_times + 1) _ _ s)) (λ _. s)

  run_disable-IsSafe :
      (b : ℕ) (m : RemappingManager)
      → k < 3
      → b < n
      → IsSafe n nb k m
      → IsSafe n nb k (run_disable b m)
  unfolding run_disable
  run_disable-IsSafe b m hk hb s =
      heat-IsSafe b _ _ _
        (if_rule (IsSafe n nb k) _ (recover b m) m (λ _. recover-IsSafe b m hk hb s) (λ _. s))

  disable_hot-IsSafe :
      (b l p : ℕ) (m : RemappingManager) → IsSafe n nb k m → IsSafe n nb k (disable_hot b l p m)
  unfolding disable_hot
  disable_hot-IsSafe b l p m s =
      let pair =
        if_rule (IsSafe n nb k) (l == p) _ m
          (λ _. disable-IsSafe b p _ (
            set_bank-IsSafe (m.bank_stat b).remap_id (set_disabled true) _ (set_disabled-link true)
              (recount _ _ (m.double_disable_times + 1) _ s)))
          (λ _. s) in
      let single = disable-IsSafe b p _ (recount _ (m.disable_times + 1) _ _ s) in
      if_rule (IsSafe n nb k) (m.bank_stat b).disabled m (disable_enabled b l p m) (λ _. s)
        (λ _. if_rule (IsSafe n nb k) (m.bank_stat b).combined _ _ (λ _. pair) (λ _. single))

-- Vaults of `nb` banks, in a table that a word can index.
pub record IsShaped (nv nb n : ℕ) : Type 0 where
  pub total : nv * nb ≡ n
  pub some_banks : 0 < nb
  pub small : n < u32_size

window-le : (x nv nb : ℕ) → x < nv → 0 < nb → x + nb ≤ nv * nb
window-le x nv nb h p =
    omega (arith, mul-le-mul_right {m = x + 1} {n = nv} nb (omega arith), le-mul_of_pos_right x p)

search_end-le :
    {nv nb n : ℕ} (b : ℕ) (m : RemappingManager)
    → IsShaped nv nb n
    → m.tot_banks ≡ n
    → m.n_banks ≡ nb
    → b < n
    → search_end b m ≤ n
unfolding search_end
search_end-le {nv} {nb} {n} b m h e f hb =
    let inside : b / nb < nv = (div-lt_iff_lt-mul h.some_banks).1 (rw h.total hb) in
    let fits : b / nb + nb ≤ n = rw (← h.total) (window-le (b / nb) nv nb inside h.some_banks) in
    rw f (ground arith)

-- The search stays within the table, and finds a free bank other than `b`, or `b`.
find_target-IsFound :
    {nv nb n k : ℕ} (b : ℕ) (m : RemappingManager)
    → IsShaped nv nb n
    → b < n
    → IsSafe n nb k m
    → (f : Search) × (find_target b m ≡ f.target) × IsFound n m b f
unfolding find_target
find_target-IsFound {nv} {nb} {n} b m h hb s = (
  _,
  refl,
  for_range_inv (λ _. IsFound n m b) (search_step m) (search_end b m - search_begin b m)
      (search_begin b m) (search_begin b m + (search_end b m - search_begin b m)) _
      (λ j f lo hi. search_step-IsFound n m b j f (omega (arith, end)) (s.placed j)) refl
      (inl refl),
)
  where
    end : search_end b m ≤ n
    end = search_end-le b m h s.banks s.vault_banks hb

is_hot_free-combined :
    (b t : ℕ) (m : RemappingManager) → is_hot_free b t m ≡ true → (m.bank_stat b).combined ≡ false
unfolding is_hot_free
is_hot_free-combined b t m e = ground arith

module _ {nv nb n k : ℕ} (shape : IsShaped nv nb n) where
  combine-IsSafe :
      (b : ℕ) (f : Search) (m : RemappingManager)
      → b < n
      → b ≢ f.target
      → (m.bank_stat b).combined ≡ false
      → IsTarget n m f
      → IsSafe n nb k m
      → IsSafe n nb k (combine b f.target m)
  unfolding combine
  combine-IsSafe b f m hb ne free t s = set_phy_valid-IsSafe f.target false _ (
      IsSafe-step counted (combine_with-IsQuiet b f.target m' quiet) (
        subst (IsPaired n) (sym ties) (
          join-IsPaired n b f.target (links m) hb t.inside ne
            (IsSingle-of_free n b (links m) (s.paired.role b hb) free) alone s.paired)))
    where
      m' : RemappingManager
      m' = record m { remap_times = m.remap_times + 1 }

      counted : IsSafe n nb k m'
      counted = recount (m.remap_times + 1) _ _ _ s

      alone : IsSingle (links m) f.target
      alone = IsSingle-of_free n f.target (links m) (s.paired.role f.target t.inside) t.free

      both :
          (links (combine_with b f.target m') ≡ join b f.target (links m))
          × ((combine_with b f.target m').log ≡ m.log)
      both =
          combine_with-join b f.target m' ne (s.paired.home b hb) (s.paired.home f.target t.inside)
            alone

      ties : links (combine_with b f.target m') ≡ join b f.target (links m)
      ties = both.0

      quiet : (combine_with b f.target m').log ≡ m'.log
      quiet = both.1

  combine_found-IsSafe :
      (b t : ℕ) (m : RemappingManager)
      → (is_hot_free b t m && not (find_target b m == b)) ≡ true
      → b < n
      → IsSafe n nb k m
      → IsSafe n nb k (combine b (find_target b m) m)
  combine_found-IsSafe b t m e hb s =
      let (f, same, which) = find_target-IsFound b m shape hb s in
      elim which [
        | inl own ↦ absurd (other (same ∙ own))
        | inr t' ↦ rw same (combine-IsSafe b f m hb (λ own. other (same ∙ sym own)) free t' s)
      ]
    where
      other : find_target b m ≢ b
      other = ground arith

      free : (m.bank_stat b).combined ≡ false
      free = is_hot_free-combined b t m (ground arith)

  combine_or_disable-IsSafe :
      (b l p t : ℕ) (m : RemappingManager)
      → b < n
      → IsSafe n nb k m
      → IsSafe n nb k (combine_or_disable b l p t m)
  unfolding combine_or_disable
  combine_or_disable-IsSafe b l p t m hb s =
      if_rule (IsSafe n nb k) (is_hot_free b t m && not (find_target b m == b))
        (combine b (find_target b m) m) (disable_if_hot b l p t m)
        (λ e. combine_found-IsSafe b t m e hb s)
        (λ _.
          if_rule (IsSafe n nb k) (is_high m t) (disable_hot b l p m) m
            (λ _. disable_hot-IsSafe b l p m s) (λ _. s))

  run_bank-IsSafe :
      (b : ℕ) (m : RemappingManager)
      → k < 3
      → b < n
      → IsSafe n nb k m
      → IsSafe n nb k (run_bank b m)
  unfolding run_bank
  run_bank-IsSafe b m hk hb s =
      if_rule (IsSafe n nb k) _ _ _ (λ _. run_disable-IsSafe b m hk hb s)
        λ n0.
          if_rule (IsSafe n nb k) _ _ _ (λ _. combining)
            λ n1.
              if_rule (IsSafe n nb k) _ _ _ (λ _. s)
                λ n2. absurd (known m.n_remap (rw s.policy hk) n0 n1 n2)
    where
      cooled : IsSafe n nb k (
          cool_combined b
            (m.bank_stat b).logical_id
            (m.phy_banks (m.bank_stat b).physical_id).temperature
            m)
      cooled = if_rule (IsSafe n nb k) _ (recover b m) m (λ _. recover-IsSafe b m hk hb s) (λ _. s)

      combining : IsSafe n nb k (run_combine b m)
      combining = combine_or_disable-IsSafe b _ _ _ _ hb cooled

  -- From a safe manager of whole vaults, under policy 0, 1 or 2, `runMechanism` leads to a safe
  -- one: its banks are paired, and it has printed no error.
  pub run_mechanism-IsSafe :
      (m : RemappingManager) → k < 3 → IsSafe n nb k m → IsSafe n nb k (run_mechanism m)
  unfolding run_mechanism
  run_mechanism-IsSafe m hk s =
      for_range_inv (λ _. IsSafe n nb k) run_bank m.tot_banks 0 n m
        (λ b t lo hi h. run_bank-IsSafe b t hk hi h) (omega (arith, s.banks)) s
