-- ===== src/Remapping/Index.antt =====
-- The indices of banks and rows, and where the accesses to a bank go.
use sniper_zip.Prelude.{
  ℕ, ◌+◌, ◌*◌, ◌/◌, ◌%◌, ◌<◌, ◌≤◌, ◌≡◌, ◌⊎◌, arith, ◌∙◌, u32, u32_size, u32_of_lt, sym, ap,
  div-of_row, mod-of_row, row-lt, eq_of_div-mod, inl, inr,
}
use native.Mathlib.Nat.{div-eq_of_lt, zero-div, zero-mod, mod-eq_of_lt, le-mul_of_pos_right}
use sniper_zip.Remapping.{
  RemappingManager, get_bank_id, split_id, get_physical_index, get_logical_index,
}
use sniper_zip.Remapping.Pairing.{links, logical_shared, logical-lt}
use sniper_zip.Remapping.Operations.{IsSafe}

-- The sizes of a DRAM whose rows a word can count.
pub record IsSized (nv nb nr : ℕ) (m : RemappingManager) : Type 0 where
  pub banks : m.n_banks ≡ nb
  pub rows : m.n_rows ≡ nr
  pub small : nv * nb * nr < u32_size
  pub some_rows : 0 < nr

bank_id_inside :
    {nv nb nr : ℕ} (v b : ℕ) (m : RemappingManager)
    → IsSized nv nb nr m
    → v < nv
    → b < nb
    → (get_bank_id v b m ≡ v * nb + b) × (v * nb + b < nv * nb)
unfolding get_bank_id
bank_id_inside {nv} {nb} {nr} v b m s hv hb =
    let inside = row-lt v b nv nb hv hb in
    let wide = le-mul_of_pos_right (nv * nb) s.some_rows in
    (rw s.banks (u32_of_lt (v * nb + b) (omega (arith, s.small))), inside)

-- A row of a bank, split again.
split_id-row :
    {nv nb nr : ℕ} (l r : ℕ) (m : RemappingManager)
    → IsSized nv nb nr m
    → l < nv * nb
    → r < nr
    → split_id (u32 (u32 (l * m.n_rows) + r)) m ≡ (l / nb, l % nb, r)
unfolding split_id
split_id-row {nv} {nb} {nr} l r m s hl hr =
    let inside = row-lt l r (nv * nb) nr hl hr in
    let a : u32 (l * nr) ≡ l * nr = u32_of_lt (l * nr) (omega (arith, s.small)) in
    let c : u32 (l * nr + r) ≡ l * nr + r = u32_of_lt (l * nr + r) (omega (arith, s.small)) in
    rw (s.rows, s.banks, a, c, div-of_row l r nr hr, mod-of_row l r nr hr)

-- Where all rows together are fewer than 2^32, vault, bank and row within the sizes, put together and split again, are the same.
pub split_id-get_bank_id :
    {nv nb nr : ℕ} (v b r : ℕ) (m : RemappingManager)
    → IsSized nv nb nr m
    → v < nv
    → b < nb
    → r < nr
    → split_id (u32 (u32 (get_bank_id v b m * m.n_rows) + r)) m ≡ (v, b, r)
split_id-get_bank_id {nv} {nb} v b r m s hv hb hr =
    let (e, h) = bank_id_inside v b m s hv hb in
    rw e (split_id-row (v * nb + b) r m s h hr ∙ rw (div-of_row v b nb hb, mod-of_row v b nb hb))

logical_row :
    {nv nb nr k : ℕ} (v b r : ℕ) (m : RemappingManager)
    → IsSized nv nb nr m
    → IsSafe (nv * nb) nb k m
    → v < nv
    → b < nb
    → r < nr
    → let l = (m.bank_stat (v * nb + b)).logical_id in
      get_logical_index v b r m ≡ (l / nb, l % nb, r)
unfolding get_logical_index
logical_row {nv} {nb} {nr} v b r m s safe hv hb hr =
    let (e, h) = bank_id_inside v b m s hv hb in
    let role = safe.paired.role (v * nb + b) h in
    rw e (
      split_id-row (m.bank_stat (v * nb + b)).logical_id r m s
        (logical-lt (nv * nb) (v * nb + b) (links m) h role) hr)

-- In a safe manager whose rows together are fewer than 2^32, and for banks and rows within the sizes: the
-- access to a row of a bank goes to the same row of the logical bank, which
-- is a bank of the table; and if the accesses to two banks go to one place, the two are one bank,
-- or one of them is the bank that serves both.
pub get_logical_index_lem :
    {nv nb nr k : ℕ} (v b v' b' r : ℕ) (m : RemappingManager)
    → IsSized nv nb nr m
    → IsSafe (nv * nb) nb k m
    → v < nv
    → b < nb
    → v' < nv
    → b' < nb
    → r < nr
    → let l = (m.bank_stat (v * nb + b)).logical_id in
      (get_logical_index v b r m ≡ (l / nb, l % nb, r))
      × (l < nv * nb)
      × (get_logical_index v' b' r m ≡ get_logical_index v b r m
          → (v' * nb + b' ≡ v * nb + b) ⊎ (l ≡ v' * nb + b') ⊎ (l ≡ v * nb + b))
get_logical_index_lem {nv} {nb} {nr} v b v' b' r m s safe hv hb hv' hb' hr =
    let a = v * nb + b in
    let a' = v' * nb + b' in
    let ha = row-lt v b nv nb hv hb in
    let ha' = row-lt v' b' nv nb hv' hb' in
    let role = safe.paired.role a ha in
    let role' = safe.paired.role a' ha' in
    let here = logical_row v b r m s safe hv hb hr in
    let there = logical_row v' b' r m s safe hv' hb' hr in
    (
      here,
      logical-lt (nv * nb) a (links m) ha role,
      λ same.
          let both = sym there ∙ same ∙ here in
          let l' = (m.bank_stat a').logical_id in
          let l = (m.bank_stat a).logical_id in
          let e : l' ≡ l =
            eq_of_div-mod l' l nb (ap (λ (t : ℕ × ℕ × ℕ). t.0) both)
              (ap (λ (t : ℕ × ℕ × ℕ). t.1) both) in
          shared l l' a a' e (logical_shared (nv * nb) a' a (links m) role' role e),
    )
  where
    shared :
        (l l' a a' : ℕ) → l' ≡ l → (a' ≡ a) ⊎ (l' ≡ a') ⊎ (l ≡ a) → (a' ≡ a) ⊎ (l ≡ a') ⊎ (l ≡ a)
    shared l l' a a' e (inl h) = inl h
    shared l l' a a' e (inr (inl h)) = inr (inl (sym e ∙ h))
    shared l l' a a' e (inr (inr h)) = inr (inr h)

-- While every bank keeps its own physical bank and the banks are no more than the rows of a bank,
-- the physical index of an access is vault 0, bank 0 and, as its row, the number of the bank: the
-- vault, the bank and the row of the access are lost.
pub get_physical_index_collapsed :
    {nv nb nr k : ℕ} (v b r : ℕ) (m : RemappingManager)
    → IsSized nv nb nr m
    → IsSafe (nv * nb) nb k m
    → v < nv
    → b < nb
    → nv * nb ≤ nr
    → get_physical_index v b r m ≡ (0, 0, v * nb + b)
unfolding get_physical_index split_id
get_physical_index_collapsed {nv} {nb} {nr} v b r m s safe hv hb few =
    let (e, h) = bank_id_inside v b m s hv hb in
    let row : v * nb + b < nr = omega arith in
    rw (
      e,
      safe.paired.home (v * nb + b) h,
      s.banks,
      s.rows,
      div-eq_of_lt row,
      mod-eq_of_lt row,
      zero-div nb,
      zero-mod nb,
    )
