-- ===== src/BankTable/Swap.antt =====
-- Whatever is done to a table of banks, its banks stay in pairs.
use sniper_zip.Prelude.{
  ℕ, ◌<◌, ◌≡◌, ◌≢◌, ◌⊎◌, inl, inr, refl, true, not, ◌==◌, if◌then◌else◌, ◌&&◌, ltb, for_range_inv,
  if_rule, arith,
}
use sniper_zip.DramVault.{Access, read, write}
use sniper_zip.SwapTable.Tables.{IsTable, update-IsTable, swap_entries-IsTable}
use sniper_zip.BankTable.{
  BankRemappingEntry, BankRemappingStructure, new_entry, new_table, swap, set_valid, set_invalid,
  clear_bank, clear_all_access, clear_access, is_too_hot, Coolest, coolest_step, coolest,
  balance_banks, access_once, entry_access_once, clear_interval, bank_entry,
}

-- The banks of the table are in pairs, and each entry tells the truth about itself.
IsPaired : BankRemappingStructure → Type 0
IsPaired s = IsTable s.n_banks s.arr

new_table-IsPaired : (n : ℕ) → IsPaired (new_table n)
unfolding IsPaired new_table new_entry bank_entry
new_table-IsPaired n = record {
  true_entries = λ i. record { named = refl; flagged = ground arith };
  pairs = record { inside = λ i k. k; back = λ i. refl };
}

swap-IsPaired :
    (src des : ℕ) (s : BankRemappingStructure)
    → src < s.n_banks
    → des < s.n_banks
    → (s.arr src).ridx ≢ des
    → IsPaired s
    → IsPaired (swap src des s)
unfolding IsPaired swap bank_entry
swap-IsPaired src des s a b c h = swap_entries-IsTable s.n_banks src des s.arr a b c h

clear_all_access-IsPaired :
    (s : BankRemappingStructure) → IsPaired s → IsPaired (clear_all_access s)
unfolding IsPaired clear_all_access clear_bank clear_access bank_entry
clear_all_access-IsPaired s h =
    for_range_inv (λ (i : ℕ) (t : ℕ → BankRemappingEntry). IsTable s.n_banks t) clear_bank s.n_banks
      0 s.n_banks s.arr (λ i t lo hi k. update-IsTable s.n_banks i t _ refl refl refl k)
      (omega arith) h

is_too_hot-IsPaired : (s : BankRemappingStructure) → IsPaired s → IsPaired (is_too_hot s).0
unfolding is_too_hot
is_too_hot-IsPaired s h =
    if_rule IsPaired (ltb clear_interval _) _ s (λ e. clear_all_access-IsPaired s h) (λ e. h)

set_valid-IsPaired : (i : ℕ) (s : BankRemappingStructure) → IsPaired s → IsPaired (set_valid i s)
unfolding IsPaired set_valid bank_entry
set_valid-IsPaired i s h = update-IsTable s.n_banks i s.arr _ refl refl refl h

set_invalid-IsPaired :
    (i : ℕ) (s : BankRemappingStructure) → IsPaired s → IsPaired (set_invalid i s)
unfolding IsPaired set_invalid bank_entry
set_invalid-IsPaired i s h = update-IsTable s.n_banks i s.arr _ refl refl refl h

access_once-IsPaired :
    (i : ℕ) (a : Access) (t : ℕ) (s : BankRemappingStructure)
    → IsPaired s
    → IsPaired (access_once i a t s)
unfolding IsPaired access_once entry_access_once bank_entry
access_once-IsPaired i read t s h = update-IsTable s.n_banks i s.arr _ refl refl refl h
access_once-IsPaired i write t s h = update-IsTable s.n_banks i s.arr _ refl refl refl h

-- The target is the default, or where some bank of the table is.
IsTarget : BankRemappingStructure → ℕ → Type 0
IsTarget s x = (x ≡ 100) ⊎ (j : ℕ) × (j < s.n_banks) × (x ≡ (s.arr j).ridx)

coolest-IsTarget :
    (bank_temp : ℕ → ℕ → ℕ) (unit v idx : ℕ) (s : BankRemappingStructure)
    → IsTarget s (coolest bank_temp unit v idx s).target
unfolding coolest IsTarget coolest_step
coolest-IsTarget bank_temp unit v idx s =
    for_range_inv (λ (i : ℕ) (c : Coolest). IsTarget s c.target) (coolest_step bank_temp v idx s)
      s.n_banks 0 s.n_banks _ (λ i c lo hi h. step i c hi h) (omega arith) (inl refl)
  where
    step :
        (i : ℕ) (c : Coolest)
        → i < s.n_banks
        → IsTarget s c.target
        → IsTarget s (coolest_step bank_temp v idx s i c).target
    step i c hi h =
        if_rule (λ (d : Coolest). IsTarget s d.target) (s.arr i).changed c
          (if ltb (bank_temp v (s.arr idx).ridx) c.min_temp
            then record { min_temp = bank_temp v (s.arr idx).ridx; target = (s.arr i).ridx }
            else c)
          (λ e. h)
          (λ e.
            if_rule (λ (d : Coolest). IsTarget s d.target)
              (ltb (bank_temp v (s.arr idx).ridx) c.min_temp)
              (record { min_temp = bank_temp v (s.arr idx).ridx; target = (s.arr i).ridx }) c
              (λ f. inr (i, hi, refl)) (λ f. h))

-- A target that passes the tests is another bank of the table.
can_swap :
    (s : BankRemappingStructure) (idx x : ℕ)
    → IsPaired s
    → IsTarget s x
    → (not (x == (s.arr idx).ridx) && not (x == 100)) ≡ true
    → (x < s.n_banks) × ((s.arr idx).ridx ≢ x)
unfolding IsPaired IsTarget bank_entry
can_swap s idx x h (inl same) e = absurd (ground arith)
can_swap s idx x h (inr (j, l, same)) e = (rw same (h.pairs.inside j l), ground arith)

balance_banks-IsPaired :
    (bank_temp : ℕ → ℕ → ℕ) (unit v idx : ℕ) (s : BankRemappingStructure)
    → idx < s.n_banks
    → IsPaired s
    → IsPaired (balance_banks bank_temp unit v idx s)
unfolding balance_banks
balance_banks-IsPaired bank_temp unit v idx s k h =
    let target = (coolest bank_temp unit v idx s).target in
    if_rule IsPaired (not (target == (s.arr idx).ridx) && not (target == 100)) (swap idx target s) s
      (λ e.
        let able = can_swap s idx target h (coolest-IsTarget bank_temp unit v idx s) e in
        swap-IsPaired idx target s k able.0 able.1 h)
      (λ e. h)

-- The tables that the constructor and these calls lead to, on banks of the table.
pub data IsUsed : BankRemappingStructure → Type 0 where
  created : (n : ℕ) → IsUsed (new_table n)
  balanced :
      (bank_temp : ℕ → ℕ → ℕ) (unit v idx : ℕ) (s : BankRemappingStructure)
      → idx < s.n_banks
      → IsUsed s
      → IsUsed (balance_banks bank_temp unit v idx s)
  accessed :
      (i : ℕ) (a : Access) (t : ℕ) (s : BankRemappingStructure)
      → IsUsed s
      → IsUsed (access_once i a t s)
  measured : (s : BankRemappingStructure) → IsUsed s → IsUsed (is_too_hot s).0
  cleared : (s : BankRemappingStructure) → IsUsed s → IsUsed (clear_all_access s)
  validated : (i : ℕ) (s : BankRemappingStructure) → IsUsed s → IsUsed (set_valid i s)
  invalidated : (i : ℕ) (s : BankRemappingStructure) → IsUsed s → IsUsed (set_invalid i s)

used-IsPaired : (s : BankRemappingStructure) → IsUsed s → IsPaired s
used-IsPaired s (created n) = new_table-IsPaired n
used-IsPaired s (balanced bank_temp unit v idx w k h) =
    balance_banks-IsPaired bank_temp unit v idx w k (used-IsPaired w h)
used-IsPaired s (accessed i a t w h) = access_once-IsPaired i a t w (used-IsPaired w h)
used-IsPaired s (measured w h) = is_too_hot-IsPaired w (used-IsPaired w h)
used-IsPaired s (cleared w h) = clear_all_access-IsPaired w (used-IsPaired w h)
used-IsPaired s (validated i w h) = set_valid-IsPaired i w (used-IsPaired w h)
used-IsPaired s (invalidated i w h) = set_invalid-IsPaired i w (used-IsPaired w h)

-- However the banks of a table were balanced, accessed, cleared, validated and invalidated, at any
-- temperatures, every bank of the table goes to a bank of it, that bank goes back to it, and an entry
-- is flagged as original exactly if its bank goes to itself.
pub IsUsed-pairs :
    (s : BankRemappingStructure) (i : ℕ)
    → IsUsed s
    → i < s.n_banks
    → ((s.arr i).ridx < s.n_banks)
      × ((s.arr (s.arr i).ridx).ridx ≡ i)
      × ((s.arr i).orig ≡ ((s.arr i).ridx == i))
unfolding IsPaired bank_entry
IsUsed-pairs s i h k =
    let p = used-IsPaired s h in (p.pairs.inside i k, p.pairs.back i, (p.true_entries i).flagged)
