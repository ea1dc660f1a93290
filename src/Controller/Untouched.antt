-- ===== src/Controller/Untouched.antt =====
-- The sets that `checkRemapping` leaves as they are.
use sniper_zip.Prelude.{
  ℕ, ◌^◌, ◌<◌, ◌≡◌, ◌≢◌, refl, ◌∙◌, false, not, if◌then◌else◌, ◌&&◌, for_range_inv, if_rule, arith,
  sym, update_ne,
}
use sniper_zip.CacheSet.{CacheSet, get_dirty_blocks, get_valid_blocks}
use sniper_zip.StackedDram.{
  Config, StackedDram, get_set_num, check_row_valid, check_row_migrated, bank_bit, row_bit,
}
use sniper_zip.StackedDram.Latency.{Costs}
use sniper_zip.Controller.{
  Controller, CheckState, invalidate_set, migrate_set, set_of, change_set, check_row, check_bank,
  check_vault, sweep, before_roi, finish_check, check_moved, check_remapping,
}
use sniper_zip.Controller.Kept.{Keeps-refl}
use sniper_zip.Controller.Emptying.{Inv}
use sniper_zip.Controller.Sweep.{check_row-Inv}

-- The set `x` is as it was.
record IsKept (d : StackedDram) (x : ℕ) (old : CacheSet) (s : CheckState) : Type 0 where
  inv : Inv d s
  same : s.cntlr.sets x ≡ old

-- No invalid row of the bank, or of the vault, has the set `x`.
abbrev RowClear : Config → StackedDram → ℕ → ℕ → ℕ → ℕ → Type 0
RowClear c d x v b r =
    check_row_valid v b r d ≡ false → get_set_num c d (record { vault = v; bank = b; row = r }) ≢ x

change_set-same :
    (c : Config) (costs : Costs) (t v b r x : ℕ) (d : StackedDram) (s : CheckState)
    → Inv d s
    → RowClear c d x v b r
    → (change_set c costs t v b r s).cntlr.sets x ≡ s.cntlr.sets x
unfolding change_set invalidate_set migrate_set
change_set-same c costs t v b r x d s h clear =
    let k = s.cntlr in
    let y = set_of c v b r s in
    let given = invalidate_set c costs t v y (get_dirty_blocks (k.sets y)) s in
    let moved = migrate_set c costs t v y (get_valid_blocks (k.sets y)) s in
    let num = h.set_num c (record { vault = v; bank = b; row = r }) in
    if_rule (λ (q : CheckState). q.cntlr.sets x ≡ k.sets x) (not (check_row_valid v b r k.dram))
      given (if check_row_migrated v b r k.dram then moved else s)
      (λ e.
        let bad : check_row_valid v b r d ≡ false = sym (h.valid v b r) ∙ ground arith in
        let other = clear bad in update_ne k.sets y _ x (λ f. other (sym num ∙ sym f)))
      (λ e.
        if_rule (λ (q : CheckState). q.cntlr.sets x ≡ k.sets x) (check_row_migrated v b r k.dram)
          moved s (λ f. refl) (λ f. refl))

check_row-IsKept :
    (c : Config) (costs : Costs) (t v b r x : ℕ) (d : StackedDram) (old : CacheSet) (s : CheckState)
    → RowClear c d x v b r
    → IsKept d x old s
    → IsKept d x old (check_row c costs t v b r s)
unfolding check_row
check_row-IsKept c costs t v b r x d old s clear h = record {
  inv = check_row-Inv c costs t v b r d s h.inv;
  same =
      if_rule (λ (q : CheckState). q.cntlr.sets x ≡ old)
        (check_row_valid v b r s.cntlr.dram && not (check_row_migrated v b r s.cntlr.dram)) s _
        (λ e. h.same) (λ e. change_set-same c costs t v b r x d s h.inv clear ∙ h.same);
}

check_bank-IsKept :
    (c : Config) (costs : Costs) (t n v b x : ℕ) (d : StackedDram) (old : CacheSet) (s : CheckState)
    → ((r : ℕ) → r < n → RowClear c d x v b r)
    → IsKept d x old s
    → IsKept d x old (check_bank c costs t n v b s)
unfolding check_bank
check_bank-IsKept c costs t n v b x d old s clear h =
    for_range_inv (λ (i : ℕ) (y : CheckState). IsKept d x old y) (check_row c costs t v b) n 0 n s
      (λ i y lo hi k. check_row-IsKept c costs t v b i x d old y (clear i hi) k) (omega arith) h

check_vault-IsKept :
    (c : Config) (costs : Costs) (t m n v x : ℕ) (d : StackedDram) (old : CacheSet) (s : CheckState)
    → ((b r : ℕ) → b < m → r < n → RowClear c d x v b r)
    → IsKept d x old s
    → IsKept d x old (check_vault c costs t m n v s)
unfolding check_vault
check_vault-IsKept c costs t m n v x d old s clear h =
    for_range_inv (λ (i : ℕ) (y : CheckState). IsKept d x old y) (check_bank c costs t n v) m 0 m s
      (λ i y lo hi k. check_bank-IsKept c costs t n v i x d old y (λ r. clear i r hi) k)
      (omega arith) h

-- No row within the sizes that is invalid has the set `x`.
unfoldable pub AllClear : Config → Controller → ℕ → Type 0
AllClear c k x =
    (v b r : ℕ)
    → v < k.vault_num
    → b < 2 ^ bank_bit c k.dram
    → r < 2 ^ row_bit c k.dram
    → check_row_valid v b r k.dram ≡ false
    → get_set_num c k.dram (record { vault = v; bank = b; row = r }) ≢ x

check_moved-same :
    (c : Config) (costs : Costs) (t x : ℕ) (k : Controller)
    → AllClear c k x
    → (check_moved c costs t k).0.sets x ≡ k.sets x
unfolding check_moved finish_check sweep AllClear
check_moved-same c costs t x k clear =
    let d = k.dram in
    let m = 2 ^ bank_bit c d in
    let n = 2 ^ row_bit c d in
    let done =
      for_range_inv (λ (i : ℕ) (y : CheckState). IsKept d x (k.sets x) y)
        (check_vault c costs t m n) k.vault_num 0 k.vault_num
        (record { cntlr = k; cntlr_delay = λ i. 0; writeback_blocks = 0 })
        (λ i y lo hi h.
          check_vault-IsKept c costs t m n i x d (k.sets x) y (λ b r. clear i b r hi) h)
        (omega arith) (record { inv = Keeps-refl d; same = refl }) in
    if_rule (λ (q : Controller × ℕ). q.0.sets x ≡ k.sets x) k.dram.remapped _ (k, 0)
      (λ e. done.same) (λ e. refl)

-- `checkRemapping` leaves every set alone that is not the set of an invalid row within the sizes.
pub check_remapping-same :
    (c : Config) (costs : Costs) (t x : ℕ) (k : Controller)
    → AllClear c k x
    → (check_remapping c costs t k).0.sets x ≡ k.sets x
unfolding check_remapping AllClear
check_remapping-same c costs t x k clear =
    if_rule (λ (y : Controller). (check_moved c costs t y).0.sets x ≡ k.sets x) k.dram.enter_roi k
      (before_roi k) (λ e. check_moved-same c costs t x k clear)
      (λ e. check_moved-same c costs t x (before_roi k) clear)
