-- ===== src/VaultTable/Swap.antt =====
-- Whatever is done to a table of vaults, its vaults stay in pairs.
use sniper_zip.Prelude.{
  ℕ, ◌+◌, ◌*◌, ◌<◌, ◌≡◌, ◌≢◌, ◌⊎◌, inl, inr, refl, Bool, true, false, not, ◌==◌, if◌then◌else◌,
  ◌&&◌, ltb, for_range_inv, if_rule, arith,
}
use sniper_zip.DramVault.{Access}
use sniper_zip.SwapTable.Tables.{IsTable, update-IsTable, swap_entries-IsTable}
use sniper_zip.VaultTable.{
  VaultRemappingEntry, VaultRemappingStructure, new_entry, new_table, swap, set_entry, set_valid,
  set_invalid, set_valid_bit, clear_vault, clear_all_access, clear_access, enable_vault,
  enable_all_vault, is_too_hot, Idlest, idlest_step, idlest, balance_vaults, access_once,
  entry_access_once, vault_entry,
}

-- The vaults of the table are in pairs, and each entry tells the truth about itself.
IsPaired : VaultRemappingStructure → Type 0
IsPaired s = IsTable s.n_vaults s.arr

new_table-IsPaired : (q n : ℕ) → IsPaired (new_table q n)
unfolding IsPaired new_table new_entry vault_entry
new_table-IsPaired q n = record {
  true_entries = λ i. record { named = refl; flagged = ground arith };
  pairs = record { inside = λ i k. k; back = λ i. refl };
}

-- A write to an entry that keeps where it goes.
set_entry-IsPaired :
    (i : ℕ) (e : VaultRemappingEntry) (s : VaultRemappingStructure)
    → e.idx ≡ (s.arr i).idx
    → e.ridx ≡ (s.arr i).ridx
    → e.orig ≡ (s.arr i).orig
    → IsPaired s
    → IsPaired (set_entry i e s)
unfolding IsPaired vault_entry
set_entry-IsPaired i e s a b c h = update-IsTable s.n_vaults i s.arr e a b c h

swap-IsPaired :
    (src des : ℕ) (s : VaultRemappingStructure)
    → src < s.n_vaults
    → des < s.n_vaults
    → (s.arr src).ridx ≢ des
    → IsPaired s
    → IsPaired (swap src des s)
unfolding IsPaired swap vault_entry
swap-IsPaired src des s a b c h = swap_entries-IsTable s.n_vaults src des s.arr a b c h

clear_all_access-IsPaired :
    (s : VaultRemappingStructure) → IsPaired s → IsPaired (clear_all_access s)
unfolding IsPaired clear_all_access clear_vault clear_access vault_entry
clear_all_access-IsPaired s h =
    for_range_inv (λ (i : ℕ) (t : ℕ → VaultRemappingEntry). IsTable s.n_vaults t) clear_vault
      s.n_vaults 0 s.n_vaults s.arr
      (λ i t lo hi k. update-IsTable s.n_vaults i t _ refl refl refl k) (omega arith) h

enable_all_vault-IsPaired :
    (s : VaultRemappingStructure) → IsPaired s → IsPaired (enable_all_vault s)
unfolding IsPaired enable_all_vault enable_vault vault_entry
enable_all_vault-IsPaired s h =
    for_range_inv (λ (i : ℕ) (t : ℕ → VaultRemappingEntry). IsTable s.n_vaults t) enable_vault
      s.n_vaults 0 s.n_vaults s.arr
      (λ i t lo hi k. update-IsTable s.n_vaults i t _ refl refl refl k) (omega arith) h

clear_if-IsPaired :
    (b : Bool) (s : VaultRemappingStructure)
    → IsPaired s
    → IsPaired (if b then clear_all_access s else s)
clear_if-IsPaired true s h = clear_all_access-IsPaired s h
clear_if-IsPaired false s h = h

is_too_hot-IsPaired :
    (bank_temp : ℕ → ℕ → ℕ) (unit idx bank_i : ℕ) (s : VaultRemappingStructure)
    → IsPaired s
    → IsPaired (is_too_hot bank_temp unit idx bank_i s).0
unfolding is_too_hot
is_too_hot-IsPaired bank_temp unit idx bank_i s h =
    clear_if-IsPaired _ _ (set_entry-IsPaired idx _ s refl refl refl h)

set_valid-IsPaired : (i : ℕ) (s : VaultRemappingStructure) → IsPaired s → IsPaired (set_valid i s)
unfolding set_valid set_valid_bit
set_valid-IsPaired i s h = set_entry-IsPaired i _ s refl refl refl h

set_invalid-IsPaired :
    (i : ℕ) (s : VaultRemappingStructure) → IsPaired s → IsPaired (set_invalid i s)
unfolding set_invalid set_valid_bit
set_invalid-IsPaired i s h = set_entry-IsPaired i _ s refl refl refl h

access_once-IsPaired :
    (i bank : ℕ) (a : Access) (t : ℕ) (s : VaultRemappingStructure)
    → IsPaired s
    → IsPaired (access_once i bank a t s)
unfolding IsPaired access_once entry_access_once vault_entry
access_once-IsPaired i bank a t s h = update-IsTable s.n_vaults i s.arr _ refl refl refl h

-- The target is the default, or where some vault of the table is.
IsTarget : VaultRemappingStructure → ℕ → Type 0
IsTarget s x = (x ≡ 100) ⊎ (j : ℕ) × (j < s.n_vaults) × (x ≡ (s.arr j).ridx)

idlest-IsTarget :
    (temp : ℕ → ℕ) (unit idx : ℕ) (s : VaultRemappingStructure)
    → IsTarget s (idlest temp unit idx s).target
unfolding idlest IsTarget idlest_step
idlest-IsTarget temp unit idx s =
    for_range_inv (λ (i : ℕ) (c : Idlest). IsTarget s c.target)
      (idlest_step temp unit (temp (s.arr idx).ridx) s.arr) s.n_vaults 0 s.n_vaults _
      (λ i c lo hi h. step i c hi h) (omega arith) (inl refl)
  where
    step :
        (i : ℕ) (c : Idlest)
        → i < s.n_vaults
        → IsTarget s c.target
        → IsTarget s (idlest_step temp unit (temp (s.arr idx).ridx) s.arr i c).target
    step i c hi h =
        let chosen : Idlest = record { min_cnt = (s.arr i).n_access; target = (s.arr i).ridx } in
        let better =
          ltb (s.arr i).n_access c.min_cnt
          && ltb (temp (s.arr i).ridx) (temp (s.arr idx).ridx + 5 * unit) in
        if_rule (λ (d : Idlest). IsTarget s d.target) (s.arr i).changed c
          (if better then chosen else c) (λ e. h)
          (λ e.
            if_rule (λ (d : Idlest). IsTarget s d.target) better chosen c (λ f. inr (i, hi, refl))
              (λ f. h))

-- A target that passes the tests is another vault of the table.
can_swap :
    (s : VaultRemappingStructure) (idx x : ℕ)
    → IsPaired s
    → IsTarget s x
    → (not (x == (s.arr idx).ridx) && not (x == 100)) ≡ true
    → (x < s.n_vaults) × ((s.arr idx).ridx ≢ x)
unfolding IsPaired IsTarget vault_entry
can_swap s idx x h (inl same) e = absurd (ground arith)
can_swap s idx x h (inr (j, l, same)) e = (rw same (h.pairs.inside j l), ground arith)

enable_if-IsPaired :
    (b : Bool) (s : VaultRemappingStructure)
    → IsPaired s
    → IsPaired (if b then enable_all_vault s else s)
enable_if-IsPaired true s h = enable_all_vault-IsPaired s h
enable_if-IsPaired false s h = h

balance_vaults-IsPaired :
    (temp : ℕ → ℕ) (unit idx : ℕ) (s : VaultRemappingStructure)
    → idx < s.n_vaults
    → IsPaired s
    → IsPaired (balance_vaults temp unit idx s)
unfolding balance_vaults
balance_vaults-IsPaired temp unit idx s k h =
    let target = (idlest temp unit idx s).target in
    if_rule IsPaired (not (target == (s.arr idx).ridx) && not (target == 100)) (swap idx target s)
      (if target == 100 then enable_all_vault s else s)
      (λ e.
        let able = can_swap s idx target h (idlest-IsTarget temp unit idx s) e in
        swap-IsPaired idx target s k able.0 able.1 h)
      (λ e. enable_if-IsPaired (target == 100) s h)

-- The tables that the constructor and these calls lead to, on vaults of the table.
pub data IsUsed : VaultRemappingStructure → Type 0 where
  created : (que_len n : ℕ) → IsUsed (new_table que_len n)
  balanced :
      (temp : ℕ → ℕ) (unit idx : ℕ) (s : VaultRemappingStructure)
      → idx < s.n_vaults
      → IsUsed s
      → IsUsed (balance_vaults temp unit idx s)
  measured :
      (bank_temp : ℕ → ℕ → ℕ) (unit idx bank_i : ℕ) (s : VaultRemappingStructure)
      → IsUsed s
      → IsUsed (is_too_hot bank_temp unit idx bank_i s).0
  accessed :
      (i bank : ℕ) (a : Access) (t : ℕ) (s : VaultRemappingStructure)
      → IsUsed s
      → IsUsed (access_once i bank a t s)
  cleared : (s : VaultRemappingStructure) → IsUsed s → IsUsed (clear_all_access s)
  enabled : (s : VaultRemappingStructure) → IsUsed s → IsUsed (enable_all_vault s)
  validated : (i : ℕ) (s : VaultRemappingStructure) → IsUsed s → IsUsed (set_valid i s)
  invalidated : (i : ℕ) (s : VaultRemappingStructure) → IsUsed s → IsUsed (set_invalid i s)

used-IsPaired : (s : VaultRemappingStructure) → IsUsed s → IsPaired s
used-IsPaired s (created q n) = new_table-IsPaired q n
used-IsPaired s (balanced temp unit idx w k h) =
    balance_vaults-IsPaired temp unit idx w k (used-IsPaired w h)
used-IsPaired s (measured bank_temp unit idx bank_i w h) =
    is_too_hot-IsPaired bank_temp unit idx bank_i w (used-IsPaired w h)
used-IsPaired s (accessed i bank a t w h) = access_once-IsPaired i bank a t w (used-IsPaired w h)
used-IsPaired s (cleared w h) = clear_all_access-IsPaired w (used-IsPaired w h)
used-IsPaired s (enabled w h) = enable_all_vault-IsPaired w (used-IsPaired w h)
used-IsPaired s (validated i w h) = set_valid-IsPaired i w (used-IsPaired w h)
used-IsPaired s (invalidated i w h) = set_invalid-IsPaired i w (used-IsPaired w h)

-- However the vaults of a table were balanced, accessed, cleared, enabled, validated and invalidated,
-- at any temperatures, every vault of the table goes to a vault of it, that vault goes back to it, and
-- an entry is flagged as original exactly if its vault goes to itself.
pub IsUsed-vault_pairs :
    (s : VaultRemappingStructure) (i : ℕ)
    → IsUsed s
    → i < s.n_vaults
    → ((s.arr i).ridx < s.n_vaults)
      × ((s.arr (s.arr i).ridx).ridx ≡ i)
      × ((s.arr i).orig ≡ ((s.arr i).ridx == i))
unfolding IsPaired vault_entry
IsUsed-vault_pairs s i h k =
    let p = used-IsPaired s h in (p.pairs.inside i k, p.pairs.back i, (p.true_entries i).flagged)
