-- ===== src/Controller/Sweep.antt =====
-- After `checkRemapping`, nothing is left in the sets of invalid rows.
use sniper_zip.Prelude.{
  ℕ, ◌^◌, ◌<◌, ◌≡◌, ◌≢◌, refl, ◌∙◌, true, false, not, ◌&&◌, for_range_inv, if_rule, arith, sym,
}
use sniper_zip.StackedDram.{
  Config, StackedDram, get_set_num, check_row_valid, check_row_migrated, bank_bit, row_bit,
}
use sniper_zip.StackedDram.Latency.{Costs}
use sniper_zip.Controller.{
  Controller, CheckState, check_row, check_bank, check_vault, sweep, before_roi, finish_check,
  check_moved, check_remapping,
}
use sniper_zip.Controller.Kept.{Keeps-refl}
use sniper_zip.Controller.Emptying.{
  IsEmpty, for_range_hit, Inv, Gone, change_set-Inv, change_set-Gone, change_set-here,
}

-- The loops: a row, a bank, a vault.
pub check_row-Inv :
    (c : Config) (costs : Costs) (t v b r : ℕ) (d : StackedDram) (s : CheckState)
    → Inv d s
    → Inv d (check_row c costs t v b r s)
unfolding check_row
check_row-Inv c costs t v b r d s h =
    if_rule (Inv d)
      (check_row_valid v b r s.cntlr.dram && not (check_row_migrated v b r s.cntlr.dram)) s _
      (λ e. h) (λ e. change_set-Inv c costs t v b r d s h)

check_row-Gone :
    (c : Config) (costs : Costs) (t v b r y : ℕ) (s : CheckState)
    → Gone y s
    → Gone y (check_row c costs t v b r s)
unfolding check_row
check_row-Gone c costs t v b r y s h =
    if_rule (Gone y)
      (check_row_valid v b r s.cntlr.dram && not (check_row_migrated v b r s.cntlr.dram)) s _
      (λ e. h) (λ e. change_set-Gone c costs t v b r y s h)

check_row-here :
    (c : Config) (costs : Costs) (t v b r : ℕ) (d : StackedDram) (s : CheckState)
    → Inv d s
    → check_row_valid v b r d ≡ false
    → Gone (get_set_num c d (record { vault = v; bank = b; row = r })) (check_row c costs t v b r s)
unfolding check_row
check_row-here c costs t v b r d s h e =
    let invalid = h.valid v b r ∙ e in
    let here = change_set-here c costs t v b r s invalid in
    rw (invalid, ← h.set_num c (record { vault = v; bank = b; row = r })) here

pub check_bank-Inv :
    (c : Config) (costs : Costs) (t n v b : ℕ) (d : StackedDram) (s : CheckState)
    → Inv d s
    → Inv d (check_bank c costs t n v b s)
unfolding check_bank
check_bank-Inv c costs t n v b d s h =
    for_range_inv (λ (i : ℕ) (y : CheckState). Inv d y) (check_row c costs t v b) n 0 n s
      (λ i y lo hi k. check_row-Inv c costs t v b i d y k) (omega arith) h

check_bank-Gone :
    (c : Config) (costs : Costs) (t n v b y : ℕ) (s : CheckState)
    → Gone y s
    → Gone y (check_bank c costs t n v b s)
unfolding check_bank
check_bank-Gone c costs t n v b y s h =
    for_range_inv (λ (i : ℕ) (z : CheckState). Gone y z) (check_row c costs t v b) n 0 n s
      (λ i z lo hi k. check_row-Gone c costs t v b i y z k) (omega arith) h

check_bank-here :
    (c : Config) (costs : Costs) (t n v b r : ℕ) (d : StackedDram) (s : CheckState)
    → Inv d s
    → r < n
    → check_row_valid v b r d ≡ false
    → Gone
        (get_set_num c d (record { vault = v; bank = b; row = r }))
        (check_bank c costs t n v b s)
unfolding check_bank
check_bank-here c costs t n v b r d s h k e =
    let x = get_set_num c d (record { vault = v; bank = b; row = r }) in
    for_range_hit (Inv d) (Gone x) (check_row c costs t v b) n 0 r s
      (λ i y. check_row-Inv c costs t v b i d y) (λ i y l. check_row-Gone c costs t v b i x y)
      (λ y l. check_row-here c costs t v b r d y l e) (omega arith) (omega arith) h

pub check_vault-Inv :
    (c : Config) (costs : Costs) (t m n v : ℕ) (d : StackedDram) (s : CheckState)
    → Inv d s
    → Inv d (check_vault c costs t m n v s)
unfolding check_vault
check_vault-Inv c costs t m n v d s h =
    for_range_inv (λ (i : ℕ) (y : CheckState). Inv d y) (check_bank c costs t n v) m 0 m s
      (λ i y lo hi k. check_bank-Inv c costs t n v i d y k) (omega arith) h

check_vault-Gone :
    (c : Config) (costs : Costs) (t m n v y : ℕ) (s : CheckState)
    → Gone y s
    → Gone y (check_vault c costs t m n v s)
unfolding check_vault
check_vault-Gone c costs t m n v y s h =
    for_range_inv (λ (i : ℕ) (z : CheckState). Gone y z) (check_bank c costs t n v) m 0 m s
      (λ i z lo hi k. check_bank-Gone c costs t n v i y z k) (omega arith) h

check_vault-here :
    (c : Config) (costs : Costs) (t m n v b r : ℕ) (d : StackedDram) (s : CheckState)
    → Inv d s
    → b < m
    → r < n
    → check_row_valid v b r d ≡ false
    → Gone
        (get_set_num c d (record { vault = v; bank = b; row = r }))
        (check_vault c costs t m n v s)
unfolding check_vault
check_vault-here c costs t m n v b r d s h k l e =
    let x = get_set_num c d (record { vault = v; bank = b; row = r }) in
    for_range_hit (Inv d) (Gone x) (check_bank c costs t n v) m 0 b s
      (λ i y. check_bank-Inv c costs t n v i d y) (λ i y g. check_bank-Gone c costs t n v i x y)
      (λ y g. check_bank-here c costs t n v b r d y g l e) (omega arith) (omega arith) h

sweep-here :
    (c : Config) (costs : Costs) (t v b r : ℕ) (k : Controller)
    → v < k.vault_num
    → b < 2 ^ bank_bit c k.dram
    → r < 2 ^ row_bit c k.dram
    → check_row_valid v b r k.dram ≡ false
    → Gone (get_set_num c k.dram (record { vault = v; bank = b; row = r })) (sweep c costs t k)
unfolding sweep
sweep-here c costs t v b r k hv hb hr e =
    let d = k.dram in
    let x = get_set_num c d (record { vault = v; bank = b; row = r }) in
    let m = 2 ^ bank_bit c d in
    let n = 2 ^ row_bit c d in
    for_range_hit (Inv d) (Gone x) (check_vault c costs t m n) k.vault_num 0 v _
      (λ i y. check_vault-Inv c costs t m n i d y) (λ i y g. check_vault-Gone c costs t m n i x y)
      (λ y g. check_vault-here c costs t m n v b r d y g hb hr e) (omega arith) (omega arith)
      (Keeps-refl d)

true_ne_false : true ≢ false
true_ne_false e = ground arith

check_moved-here :
    (c : Config) (costs : Costs) (t v b r : ℕ) (k : Controller)
    → k.dram.remapped ≡ true
    → v < k.vault_num
    → b < 2 ^ bank_bit c k.dram
    → r < 2 ^ row_bit c k.dram
    → check_row_valid v b r k.dram ≡ false
    → let done = (check_moved c costs t k).0 in
      let x = get_set_num c k.dram (record { vault = v; bank = b; row = r }) in
      IsEmpty (done.sets x) × (done.dram.remapped ≡ false)
unfolding check_moved finish_check
check_moved-here c costs t v b r k moved hv hb hr e =
    let x = get_set_num c k.dram (record { vault = v; bank = b; row = r }) in
    if_rule (λ (q : Controller × ℕ). IsEmpty (q.0.sets x) × (q.0.dram.remapped ≡ false))
      k.dram.remapped _ (k, 0) (λ f. (sweep-here c costs t v b r k hv hb hr e, refl))
      (λ f. absurd (true_ne_false (sym moved ∙ f)))

-- When banks have moved, `checkRemapping` empties the set of every row within the sizes whose bank is
-- invalid, so that no way of it has a dirty block or a tag, and takes back the flag that banks moved.
pub check_remapping_lem :
    (c : Config) (costs : Costs) (t v b r : ℕ) (k : Controller)
    → k.dram.remapped ≡ true
    → v < k.vault_num
    → b < 2 ^ bank_bit c k.dram
    → r < 2 ^ row_bit c k.dram
    → check_row_valid v b r k.dram ≡ false
    → let done = (check_remapping c costs t k).0 in
      let x = get_set_num c k.dram (record { vault = v; bank = b; row = r }) in
      IsEmpty (done.sets x) × (done.dram.remapped ≡ false)
unfolding check_remapping
check_remapping_lem c costs t v b r k moved hv hb hr e =
    let x = get_set_num c k.dram (record { vault = v; bank = b; row = r }) in
    if_rule
      (λ (y : Controller).
        IsEmpty ((check_moved c costs t y).0.sets x)
        × ((check_moved c costs t y).0.dram.remapped ≡ false))
      k.dram.enter_roi k (before_roi k) (λ f. check_moved-here c costs t v b r k moved hv hb hr e)
      (λ f. check_moved-here c costs t v b r (before_roi k) moved hv hb hr e)
