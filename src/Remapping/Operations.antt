-- ===== src/Remapping/Operations.antt =====
-- The operations of the manager keep the banks paired, and print nothing.
use sniper_zip.Prelude.{
  ℕ, ◌<◌, ◌≡◌, ◌≢◌, refl, Bool, true, false, ◌==◌, arith, [], ◌∙◌, if_rule, for_range_inv,
}
use native.Mathlib.Decide.{ℕ_discrete}
use mathlib.Core.Path.{fun_ext, subst, sym}
use sniper_zip.Remapping.{
  RemappingManager, combine_with, reset_combined, reset_bank, reset_stats, reset_stats_bank,
  set_bank, set_phy_valid,
}
use sniper_zip.Remapping.Bank.{BankStat, set_disabled, set_valid, finish_remapping}
use sniper_zip.Remapping.Pairing.{
  link, links, IsSingle, IsPair, IsPaired, join, part, part-IsPaired, source_of_logical,
}

-- On a free bank and a free target, combining is a join and prints nothing.
pub combine_with-join :
    (b t : ℕ) (m : RemappingManager)
    → b ≢ t
    → (m.bank_stat b).physical_id ≡ b
    → (m.bank_stat t).physical_id ≡ t
    → IsSingle (links m) t
    → (links (combine_with b t m) ≡ join b t (links m)) × ((combine_with b t m).log ≡ m.log)
unfolding combine_with
combine_with-join b t m ne hb ht st = (fun_ext (λ j. ground arith), ground arith)

-- Resetting the source of a pair parts it and prints nothing.
pub reset_combined-part :
    (b t r : ℕ) (m : RemappingManager)
    → IsPair (links m) b t
    → (links (reset_combined b t r m) ≡ part b t (links m)) × ((reset_combined b t r m).log ≡ m.log)
unfolding reset_combined
reset_combined-part b t r m p = (fun_ext (λ j. ground arith), ground arith)

-- Resetting any other bank leaves the ties alone.
pub reset_combined-links :
    (b r : ℕ) (m : RemappingManager)
    → (m.bank_stat b).physical_id ≡ b
    → (m.bank_stat b).logical_id ≡ b
    → (links (reset_combined b b r m) ≡ links m) × ((reset_combined b b r m).log ≡ m.log)
unfolding reset_combined
reset_combined-links b r m hp hl = (fun_ext (λ j. ground arith), ground arith)

-- A manager of `n` banks, `nb` to a vault, under policy `k`: the banks are paired, each physical
-- bank holds the bank of its own number, and nothing was printed.
pub record IsSafe (n nb k : ℕ) (m : RemappingManager) : Type 0 where
  pub banks : m.tot_banks ≡ n
  pub vault_banks : m.n_banks ≡ nb
  pub policy : m.n_remap ≡ k
  pub placed : (j : ℕ) → (m.phy_banks j).logical_bank ≡ j
  pub quiet : m.log ≡ []
  pub paired : IsPaired n (links m)

-- An operation leaves the shape of the manager alone and prints nothing.
pub record IsQuiet (m m' : RemappingManager) : Type 0 where
  pub banks : m'.tot_banks ≡ m.tot_banks
  pub vault_banks : m'.n_banks ≡ m.n_banks
  pub policy : m'.n_remap ≡ m.n_remap
  pub placed : (j : ℕ) → (m'.phy_banks j).logical_bank ≡ (m.phy_banks j).logical_bank
  pub quiet : m'.log ≡ m.log

pub IsSafe-step :
    {n nb k : ℕ} {m m' : RemappingManager}
    → IsSafe n nb k m
    → IsQuiet m m'
    → IsPaired n (links m')
    → IsSafe n nb k m'
IsSafe-step s q p = record {
  banks = q.banks ∙ s.banks;
  vault_banks = q.vault_banks ∙ s.vault_banks;
  policy = q.policy ∙ s.policy;
  placed = λ j. q.placed j ∙ s.placed j;
  quiet = q.quiet ∙ s.quiet;
  paired = p;
}

pub IsSafe-same :
    {n nb k : ℕ} {m m' : RemappingManager}
    → IsSafe n nb k m
    → IsQuiet m m'
    → links m' ≡ links m
    → IsSafe n nb k m'
IsSafe-same {n} s q l = IsSafe-step s q (subst (IsPaired n) (sym l) s.paired)

pub combine_with-IsQuiet :
    (b t : ℕ) (m : RemappingManager)
    → (combine_with b t m).log ≡ m.log
    → IsQuiet m (combine_with b t m)
unfolding combine_with
combine_with-IsQuiet b t m e = record {
  banks = ground arith;
  vault_banks = ground arith;
  policy = ground arith;
  placed = λ j. ground arith;
  quiet = e;
}

reset_combined-IsQuiet :
    (b t r : ℕ) (m : RemappingManager)
    → (reset_combined b t r m).log ≡ m.log
    → IsQuiet m (reset_combined b t r m)
unfolding reset_combined
reset_combined-IsQuiet b t r m e = record {
  banks = ground arith;
  vault_banks = ground arith;
  policy = ground arith;
  placed = λ j. ground arith;
  quiet = e;
}

reset_combined-IsSafe :
    {n nb k : ℕ} (b t r : ℕ) (m : RemappingManager)
    → b < n
    → t ≡ (m.bank_stat b).logical_id
    → IsSafe n nb k m
    → IsSafe n nb k (reset_combined b t r m)
reset_combined-IsSafe {n} b t r m hb e s = elim (ℕ_discrete t b) [
  | yes same ↦
      let (ties, quiet) = reset_combined-links b r m (s.paired.home b hb) (sym e ∙ same) in
      rw same (IsSafe-same s (reset_combined-IsQuiet b b r m quiet) ties)
  | no other ↦
      let (pair, ht) = source_of_logical n b (links m) (s.paired.role b hb) (λ p. other (e ∙ p)) in
      let pair' = subst (IsPair (links m) b) (sym e) pair in
      let (ties, quiet) = reset_combined-part b t r m pair' in
      IsSafe-step s (reset_combined-IsQuiet b t r m quiet) (
        subst (IsPaired n) (sym ties)
          (part-IsPaired n b t (links m) hb (subst (λ x. x < n) (sym e) ht) pair' s.paired))
]

pub set_disabled-link : (v : Bool) (b : BankStat) → link (set_disabled v b) ≡ link b
unfolding set_disabled
set_disabled-link v b = refl

pub set_valid-link : (v : Bool) (b : BankStat) → link (set_valid v b) ≡ link b
unfolding set_valid
set_valid-link v b = refl

finish_remapping-link : (b : BankStat) → link (finish_remapping b) ≡ link b
unfolding finish_remapping
finish_remapping-link b = refl

pub known : (k : ℕ) → k < 3 → (k == 0) ≡ false → (k == 1) ≡ false → (k == 2) ≡ false → ⊥
known k h a b c = ground arith

-- A write to one bank that leaves its ties alone.
pub set_bank-IsSafe :
    {n nb k : ℕ} (i : ℕ) (f : BankStat → BankStat) (m : RemappingManager)
    → ((b : BankStat) → link (f b) ≡ link b)
    → IsSafe n nb k m
    → IsSafe n nb k (set_bank i f m)
set_bank-IsSafe i f m h s =
    IsSafe-same s
      (record { banks = refl; vault_banks = refl; policy = refl; placed = λ j. refl; quiet = refl })
      (fun_ext (λ j. ground (arith, h (m.bank_stat i))))

pub set_phy_valid-IsSafe :
    {n nb k : ℕ} (i : ℕ) (v : Bool) (m : RemappingManager)
    → IsSafe n nb k m
    → IsSafe n nb k (set_phy_valid i v m)
set_phy_valid-IsSafe i v m s =
    IsSafe-same s
      (record {
        banks = refl;
        vault_banks = refl;
        policy = refl;
        placed = λ j. ground arith;
        quiet = refl;
      })
      refl

-- `resetBank` keeps the manager safe.
pub reset_bank-IsSafe :
    {n nb k : ℕ} (b : ℕ) (m : RemappingManager)
    → k < 3
    → b < n
    → IsSafe n nb k m
    → IsSafe n nb k (reset_bank b m)
unfolding reset_bank
reset_bank-IsSafe {n} {nb} {k} b m hk hb s =
    if_rule (IsSafe n nb k) _ _ _ (λ _. plain)
      λ n0.
        if_rule (IsSafe n nb k) _ _ _ (λ _. paired)
          λ n1.
            if_rule (IsSafe n nb k) _ _ _ (λ _. plain)
              λ n2. absurd (known m.n_remap (rw s.policy hk) n0 n1 n2)
  where
    bank : BankStat
    bank = m.bank_stat b

    m1 : RemappingManager
    m1 = set_phy_valid bank.physical_id true m

    s1 : IsSafe n nb k m1
    s1 = set_phy_valid-IsSafe bank.physical_id true m s

    plain : IsSafe n nb k (set_bank b (set_disabled false) m1)
    plain = set_bank-IsSafe b (set_disabled false) m1 (set_disabled-link false) s1

    paired : IsSafe n nb k (reset_combined b bank.logical_id bank.remap_id m1)
    paired = reset_combined-IsSafe b bank.logical_id bank.remap_id m1 hb refl s1

-- `resetStats` keeps the manager safe.
reset_stats_bank-IsSafe :
    {n nb k : ℕ} (reset : Bool) (b : ℕ) (m : RemappingManager)
    → k < 3
    → b < n
    → IsSafe n nb k m
    → IsSafe n nb k (reset_stats_bank reset b m)
unfolding reset_stats_bank
reset_stats_bank-IsSafe {n} {nb} {k} reset b m hk hb s =
    if_rule (IsSafe n nb k) _ _ _ (λ _. reset_bank-IsSafe b m2 hk hb s2) (λ _. s2)
  where
    m1 : RemappingManager
    m1 = set_bank b (set_valid true) m

    m2 : RemappingManager
    m2 = set_bank b finish_remapping m1

    s2 : IsSafe n nb k m2
    s2 =
        set_bank-IsSafe b finish_remapping m1 finish_remapping-link
          (set_bank-IsSafe b (set_valid true) m (set_valid-link true) s)

-- From a safe manager under policy 0, 1 or 2, `resetStats` leads to a safe one.
pub reset_stats-IsSafe :
    {n nb k : ℕ} (reset : Bool) (m : RemappingManager)
    → k < 3
    → IsSafe n nb k m
    → IsSafe n nb k (reset_stats reset m)
unfolding reset_stats
reset_stats-IsSafe {n} {nb} {k} reset m hk s =
    for_range_inv (λ _. IsSafe n nb k) (reset_stats_bank reset) m.tot_banks 0 n m
      (λ b t lo hi h. reset_stats_bank-IsSafe reset b t hk hi h) (omega (arith, s.banks)) s
