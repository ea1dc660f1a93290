-- ===== src/NewController/Migrates.antt =====
-- Which rows `checkRemapping` over the second manager handles.
use sniper_zip.Prelude.{
  ℕ, ◌+◌, ◌*◌, ◌^◌, ◌≡◌, refl, true, u32, for_range, for_range_inv, if_rule, arith, Bool-cases, inl,
  inr,
}
use sniper_zip.StackedDram.{Config}
use sniper_zip.NewRemapping
use sniper_zip.NewDram.{NewDram, NewCosts, bank_bit, row_bit, check_row_valid, check_row_migrated}
use sniper_zip.NewController.{
  NewCntlr, CheckState, invalidate_set, migrate_set, change_set, check_row, check_bank, check_vault,
  sweep, finish_check, before_roi, check_moved, check_remapping,
}

-- A loop whose body adds `d` to a 32-bit count adds `n * d` in `n` rounds.
for_range_count :
    {S : Type 0} (count : S → ℕ) (f : ℕ → S → S) (n d : ℕ) (x : S)
    → ((k : ℕ) (y : S) → u32 (count (f k y)) ≡ u32 (count y + d))
    → u32 (count (for_range n 0 f x)) ≡ u32 (count x + n * d)
for_range_count {S} count f n d x step =
    for_range_inv (λ (k : ℕ) (y : S). u32 (count y) ≡ u32 (count x + k * d)) f n 0 n x
      (λ k y lo hi h. let one = step k y in omega (arith, one, h)) (omega arith) (omega arith)

abbrev handled : CheckState → ℕ
handled s = s.cntlr.invalid_times + s.cntlr.migrate_times

valid_migrated :
    (v b r : ℕ) (d : NewDram) → check_row_valid v b r d ≡ true → check_row_migrated v b r d ≡ true
unfolding check_row_valid check_row_migrated NewRemapping.check_valid NewRemapping.check_migrated
valid_migrated v b r d h = rw h refl

check_row-handled :
    (c : Config) (costs : NewCosts) (t v b r : ℕ) (s : CheckState)
    → u32 (handled (check_row c costs t v b r s)) ≡ u32 (handled s + 1)
unfolding check_row change_set invalidate_set migrate_set
check_row-handled c costs t v b r s = elim (Bool-cases (check_row_valid v b r s.cntlr.dram)) [
  | inl e ↦ let f = valid_migrated v b r s.cntlr.dram e in rw (e, f) (omega arith)
  | inr e ↦ rw e (omega arith)
]

sweep-handled :
    (c : Config) (costs : NewCosts) (t : ℕ) (k : NewCntlr)
    → u32 (handled (sweep c costs t k))
      ≡ u32 (
          k.invalid_times
          + k.migrate_times
          + k.vault_num * (2 ^ bank_bit c k.dram * (2 ^ row_bit c k.dram * 1)))
unfolding sweep check_vault check_bank
sweep-handled c costs t k =
    let m = 2 ^ bank_bit c k.dram in
    let n = 2 ^ row_bit c k.dram in
    for_range_count handled (check_vault c costs t m n) k.vault_num (m * (n * 1)) _ (λ v s.
      for_range_count handled (λ b y. for_range n 0 (check_row c costs t v b) y) m (n * 1) s
        (λ b y.
          for_range_count handled (check_row c costs t v b) n 1 y
            (λ r z. check_row-handled c costs t v b r z)))

check_moved-handled :
    (c : Config) (costs : NewCosts) (t : ℕ) (k : NewCntlr)
    → k.dram.remapped ≡ true
    → let k' = (check_moved c costs t k).0 in
      u32 (k'.invalid_times + k'.migrate_times)
      ≡ u32 (
          k.invalid_times
          + k.migrate_times
          + k.vault_num * (2 ^ bank_bit c k.dram * (2 ^ row_bit c k.dram * 1)))
unfolding check_moved finish_check sweep
check_moved-handled c costs t k h = rw h (sweep-handled c costs t k)

-- Once a temperature has arrived, the next `checkRemapping` over the second manager handles every row
-- of every bank: the times that sets were invalidated or migrated grow together, modulo 2^32, by the
-- number of all rows, since rows of valid banks count as migrated.
pub check_remapping_all :
    (c : Config) (costs : NewCosts) (t : ℕ) (k : NewCntlr)
    → k.dram.remapped ≡ true
    → let k' = (check_remapping c costs t k).0 in
      u32 (k'.invalid_times + k'.migrate_times)
      ≡ u32 (
          k.invalid_times
          + k.migrate_times
          + k.vault_num * (2 ^ bank_bit c k.dram * 2 ^ row_bit c k.dram))
unfolding check_remapping
check_remapping_all c costs t k h =
    let n = 2 ^ row_bit c k.dram in
    let one : n * 1 ≡ n = omega arith in
    if_rule
      (λ (y : NewCntlr).
        u32 ((check_moved c costs t y).0.invalid_times + (check_moved c costs t y).0.migrate_times)
        ≡ u32 (k.invalid_times + k.migrate_times + k.vault_num * (2 ^ bank_bit c k.dram * n)))
      k.dram.enter_roi k (before_roi k) (λ e. rw one at (check_moved-handled c costs t k h))
      (λ e. rw one at (check_moved-handled c costs t (before_roi k) h))
