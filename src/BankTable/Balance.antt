-- ===== src/BankTable/Balance.antt =====
-- Which bank `balanceBanks` chooses.
use sniper_zip.Prelude.{
  ℕ, ◌+◌, ◌*◌, ◌<◌, ◌≤◌, ◌≡◌, refl, true, false, if◌then◌else◌, ltb, lt→ltb, ltb→lt, ltb→le, le→ltb,
  Bool-cases, if_rule, inl, inr, for_range_inv, arith,
}
use sniper_zip.BankTable.{BankRemappingStructure, Coolest, coolest_step, coolest}

-- Before the bank `j` nothing is chosen; after it, nothing else is.
record IsFirstChoice (s : BankRemappingStructure) (start : Coolest) (temp j i : ℕ) (c : Coolest)
    : Type 0 where
  before : i ≤ j → c ≡ start
  after_temp : j < i → c.min_temp ≡ temp
  after_target : j < i → c.target ≡ (s.arr j).ridx

IsFirstChoice-coolest_step :
    (bank_temp : ℕ → ℕ → ℕ) (unit v idx j i : ℕ) (s : BankRemappingStructure) (c : Coolest)
    → ((k : ℕ) → k < j → (s.arr k).changed ≡ true)
    → (s.arr j).changed ≡ false
    → bank_temp v (s.arr idx).ridx < 999 * unit
    → let start : Coolest = record { min_temp = 999 * unit; target = 100 } in
      let temp = bank_temp v (s.arr idx).ridx in
      IsFirstChoice s start temp j i c
      → IsFirstChoice s start temp j (i + 1) (coolest_step bank_temp v idx s i c)
unfolding coolest_step
IsFirstChoice-coolest_step bank_temp unit v idx j i s c old new cool h =
    elim (Bool-cases (ltb i j)) [
      | inl e ↦
          rw (coolest_step, old i (ltb→lt i j e))
            (record {
              before = λ k. h.before (omega arith);
              after_temp = λ k. absurd (omega (arith, ltb→lt i j e));
              after_target = λ k. absurd (omega (arith, ltb→lt i j e));
            })
      | inr e ↦ elim (Bool-cases (ltb j i)) [
        | inl f ↦
            let later = ltb→lt j i f in
            let kept : coolest_step bank_temp v idx s i c ≡ c =
              if_rule (λ (d : Coolest). d ≡ c) (s.arr i).changed c
                (if ltb (bank_temp v (s.arr idx).ridx) c.min_temp
                  then record { min_temp = bank_temp v (s.arr idx).ridx; target = (s.arr i).ridx }
                  else c)
                (λ g. refl)
                (λ g.
                  rw
                    (
                      h.after_temp later,
                      le→ltb (bank_temp v (s.arr idx).ridx) (bank_temp v (s.arr idx).ridx)
                          (omega arith),
                    )
                    refl) in
            rw kept (record {
              before = λ k. absurd (omega arith);
              after_temp = λ k. h.after_temp later;
              after_target = λ k. h.after_target later;
            })
        | inr f ↦
            let same : i ≡ j = omega (arith, ltb→le i j e, ltb→le j i f) in
            rw (coolest_step, h.before (omega arith), same, new, lt→ltb _ _ cool)
              (record {
                before = λ k. absurd (omega arith);
                after_temp = λ k. refl;
                after_target = λ k. refl;
              })
      ]
    ]

-- The bank that `balanceBanks` chooses is the first that was not swapped before, whatever the
-- temperatures of the banks of the table are, as long as the bank to be moved is below 999 degrees.
pub coolest_lem :
    (bank_temp : ℕ → ℕ → ℕ) (unit v idx j : ℕ) (s : BankRemappingStructure)
    → j < s.n_banks
    → ((i : ℕ) → i < j → (s.arr i).changed ≡ true)
    → (s.arr j).changed ≡ false
    → bank_temp v (s.arr idx).ridx < 999 * unit
    → (coolest bank_temp unit v idx s).target ≡ (s.arr j).ridx
unfolding coolest
coolest_lem bank_temp unit v idx j s inside old new cool =
    let start : Coolest = record { min_temp = 999 * unit; target = 100 } in
    let temp = bank_temp v (s.arr idx).ridx in
    let found =
      for_range_inv (IsFirstChoice s start temp j) (coolest_step bank_temp v idx s) s.n_banks 0
        s.n_banks start
        (λ i c lo hi h. IsFirstChoice-coolest_step bank_temp unit v idx j i s c old new cool h)
        (omega arith)
        (record {
          before = λ k. refl;
          after_temp = λ k. absurd (omega arith);
          after_target = λ k. absurd (omega arith);
        }) in
    found.after_target inside
