-- ===== src/DramVault/Rows.antt =====
-- The open row of a bank: what `getOpennedRow` finds.
use sniper_zip.Prelude.{
  ℕ, zero, suc, ◌+◌, ◌<◌, ◌≤◌, ◌≡◌, ◌≢◌, inl, inr, refl, ◌==◌, none, some, Bool-cases, arith,
}
use sniper_zip.DramBank.{RowState, openned, closed, first_openned}

pub first_openned-none :
    (rows : ℕ → RowState) (n from : ℕ)
    → ((i : ℕ) → i < from + n → rows i ≡ closed)
    → first_openned rows n from ≡ none
unfolding first_openned
first_openned-none rows zero from h = refl
first_openned-none rows (suc n) from h =
    rw (h from (omega arith), first_openned-none rows n (from + 1) (λ i k. h i (omega arith))) refl

pub first_openned-some :
    (rows : ℕ → RowState) (n from r : ℕ)
    → ((i : ℕ) → i < from + n → i ≢ r → rows i ≡ closed)
    → rows r ≡ openned
    → from ≤ r
    → r < from + n
    → first_openned rows n from ≡ some r
unfolding first_openned
first_openned-some rows zero from r h o lo hi = absurd (omega arith)
first_openned-some rows (suc n) from r h o lo hi = elim (Bool-cases (from == r)) [
  | inl e ↦ let same : from ≡ r = ground arith in rw (same, o) refl
  | inr e ↦
      let differ : from ≢ r = ground arith in
      let later =
        first_openned-some rows n (from + 1) r (λ i k ne. h i (omega arith) ne) o (omega arith)
          (omega arith) in
      rw (h from (omega arith) differ, later) refl
]
