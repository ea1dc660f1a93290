-- ===== src/Thermal/Hottest.antt =====
-- The hottest bank and the clocks of the cores.
use sniper_zip.Prelude.{
  ℕ, ◌+◌, ◌-◌, ◌*◌, ◌/◌, ◌%◌, ◌<◌, ◌≤◌, ◌≡◌, ltb, leb, arith, if_rule, for_range_inv,
}
use native.Mathlib.Decide.{ℕ_discrete}
use sniper_zip.Dtm.{max_lev}
use sniper_zip.Dtm.Domains.{hz_at}
use sniper_zip.Dtm.Slows.{check_dtm-slows}
use sniper_zip.Thermal.{
  Setting, Interval, Thermal, Reading, get_dram_bank_temp, bank_step, core_step, unit_step,
  new_reading, read_units, core_temps, call_hot_spot,
}
use sniper_zip.Thermal.Banks.{read_units-dtm}

bank_step-max :
    (c : Setting) (n : Interval) (v b temp : ℕ) (r : Reading)
    → (temp ≤ (bank_step c n v b temp r).max_bank_temp)
      × (r.max_bank_temp ≤ (bank_step c n v b temp r).max_bank_temp)
unfolding bank_step
bank_step-max c n v b temp r = ground arith

core_step-max :
    (core temp : ℕ) (r : Reading) → (core_step core temp r).max_bank_temp ≡ r.max_bank_temp
unfolding core_step
core_step-max core temp r = ground arith

module _ (c : Setting) (unit_temp : ℕ → ℕ) (n : Interval) where
  -- The temperatures of the banks of units below `i` were seen.
  abbrev Seen : ℕ → Reading → Type 0
  Seen i r = (j : ℕ) → 72 ≤ j → j < i → unit_temp j ≤ r.max_bank_temp

  rises :
      (i : ℕ) (r r' : Reading)
      → r.max_bank_temp ≤ r'.max_bank_temp
      → (72 ≤ i → unit_temp i ≤ r'.max_bank_temp)
      → Seen i r
      → Seen (i + 1) r'
  rises i r r' le now h j lo hi = elim (ℕ_discrete j i) [
    | yes e ↦ rw e (now (omega (arith, e)))
    | no ne ↦ omega (arith, h j lo (omega arith), le)
  ]

  unit_step-Seen : (i : ℕ) (r : Reading) → Seen i r → Seen (i + 1) (unit_step c unit_temp n i r)
  unfolding unit_step
  unit_step-Seen i r h =
      if_rule (Seen (i + 1)) (ltb i 40) _ _
        (λ core.
          rises i r (core_step (i / 10) (unit_temp i) r)
            (omega (arith, core_step-max (i / 10) (unit_temp i) r)) (λ le. ground arith) h)
        (λ rest.
          if_rule (Seen (i + 1)) (leb 72 i) _ r
            (λ bank.
              let m = bank_step-max c n ((i - 72) % 32) ((i - 72) / 32) (unit_temp i) r in
              rises i r (bank_step c n ((i - 72) % 32) ((i - 72) / 32) (unit_temp i) r) m.1
                (λ le. m.0) h)
            (λ cntlr. rises i r r (omega arith) (λ le. ground arith) h))

  read_units-Seen : (s : Thermal) → Seen c.unit_num (read_units c unit_temp n s)
  unfolding read_units
  read_units-Seen s =
      for_range_inv Seen (unit_step c unit_temp n) c.unit_num 0 c.unit_num (new_reading s)
        (λ i r lo hi h. unit_step-Seen i r h) (omega arith) (λ j lo hi. omega arith)

-- When HotSpot has a unit for each bank, the method considers both temperatures, the highest frequency is
-- 5 MHz or more and fits into 31 bits, and one bank of the DRAM is hotter than its threshold while the
-- level is above 0 and one of the table, then the call leaves the level one
-- lower, and every core at the period of that level, whatever the other temperatures are.
pub call_hot_spot-slows :
    (c : Setting) (unit_temp : ℕ → ℕ) (n : Interval) (s : Thermal) (v b core : ℕ)
    → 328 ≤ c.unit_num
    → v < 32
    → b < 8
    → c.platform.dtm_method ≡ 2
    → c.platform.dram_temp_thres * c.platform.temp_unit < get_dram_bank_temp unit_temp v b
    → 0 < s.dtm.freq_lev
    → s.dtm.freq_lev ≤ max_lev c.platform
    → 5 ≤ c.platform.max_freq
    → c.platform.max_freq < 2147483648
    → core < c.platform.num_cores
    → let d = (call_hot_spot c unit_temp n s).dtm in
      let lev = s.dtm.freq_lev - 1 in
      (d.freq_lev ≡ lev)
      × (d.domains (core / c.platform.cores_per_socket)
          ≡ c.platform.period_of (hz_at c.platform lev))
unfolding call_hot_spot get_dram_bank_temp
call_hot_spot-slows c unit_temp n s v b core units lt_v lt_b two hot above at some fits lt =
    let r = read_units c unit_temp n s in
    let seen = read_units-Seen c unit_temp n s (72 + b * 32 + v) (omega arith) (omega arith) in
    let same = read_units-dtm c unit_temp n s in
    let h =
      check_dtm-slows c.platform (core_temps c unit_temp r) r.max_bank_temp s.dtm two
        (omega (arith, seen)) above at some fits in
    rw same (h.level, h.domains core lt)
