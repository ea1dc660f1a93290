-- ===== src/Thermal/Banks.antt =====
-- How the loop over the units reads each bank.
use native.Mathlib.Nat.{div-add-mod', mod-lt}
use native.Mathlib.Decide.{ℕ_discrete}
use mathlib.Core.Path.{subst}
use sniper_zip.Prelude.{
  if_lt, if_ge, if_skip, ℕ, ◌+◌, ◌-◌, ◌*◌, ◌/◌, ◌%◌, ◌<◌, ◌≤◌, ◌≡◌, ◌≢◌, refl, sym, ap, ◌∙◌, Bool,
  true, not, ◌&&◌, if◌then◌else◌, ltb, leb, u32, arith, if_rule, for_range_inv, for_range_none,
}
use sniper_zip.StackedDram.{StackedDram, update_temperature, try_remapping, clear_cache_stats}
use sniper_zip.Dtm.{check_dtm}
use sniper_zip.Thermal.{
  Setting, Interval, Thermal, Reading, get_dram_bank_temp, update2, accesses, count_accesses,
  bank_step, core_step, unit_step, new_reading, read_units, core_temps, call_hot_spot,
}

-- What is kept of a bank.
pub record View : Type 0 where
  pub prev : ℕ
  pub hot : ℕ
  pub cool : ℕ
  pub err : ℕ

abbrev pub view : Thermal → ℕ → ℕ → View
view s v b = record {
  prev = s.prev_bank_temp v b;
  hot = s.hot_access v b;
  cool = s.cool_access v b;
  err = s.err_access v b;
}

-- A bank whose accesses are counted by its old temperature, and that takes a new one.
abbrev pub counted : Setting → Bool → ℕ → ℕ → View → View
counted c roi accessed temp w =
    let above = λ (degrees : ℕ). ltb (degrees * c.platform.temp_unit) w.prev in
    record {
      prev = temp;
      hot = if above 85 then u32 (w.hot + accessed) else w.hot;
      cool = if not (above 85) && roi then u32 (w.cool + accessed) else w.cool;
      err = if above 85 && above 95 then u32 (w.err + accessed) else w.err;
    }

update2_self : (f : ℕ → ℕ → ℕ) (v b x : ℕ) → update2 f v b x v b ≡ x
update2_self f v b x = ground arith

update2_ne :
    (f : ℕ → ℕ → ℕ) (v b x v' b' : ℕ) → b' * 32 + v' ≢ b * 32 + v → update2 f v b x v' b' ≡ f v' b'
update2_ne f v b x v' b' ne = ground arith

bank_step-view :
    (c : Setting) (n : Interval) (v b temp : ℕ) (r : Reading)
    → view (bank_step c n v b temp r).thermal v b
      ≡ counted c
          (update_temperature c.dram v b temp r.thermal.dram).enter_roi
          (accesses n v b)
          temp
          (view r.thermal v b)
unfolding bank_step count_accesses
bank_step-view c n v b temp r = ground arith

bank_step-view_ne :
    (c : Setting) (n : Interval) (v b temp v' b' : ℕ) (r : Reading)
    → b' * 32 + v' ≢ b * 32 + v
    → view (bank_step c n v b temp r).thermal v' b' ≡ view r.thermal v' b'
unfolding bank_step count_accesses
bank_step-view_ne c n v b temp v' b' r ne = ground arith

-- Whether the region of interest was entered, once the stacked DRAM was told a temperature.
abbrev pub entered : Setting → StackedDram → Bool
entered c d = if c.dram.in_roi then true else d.enter_roi

-- A unit that is no bank.
core_step-thermal : (core temp : ℕ) (r : Reading) → (core_step core temp r).thermal ≡ r.thermal
unfolding core_step
core_step-thermal core temp r = ground arith

-- The banks of the units below `i` are read.
record IsRead (c : Setting) (unit_temp : ℕ → ℕ) (n : Interval) (s : Thermal) (i : ℕ) (r : Reading)
    : Type 0 where
  roi : entered c r.thermal.dram ≡ entered c s.dram
  dtm : r.thermal.dtm ≡ s.dtm
  banks :
      (v b : ℕ)
      → v < 32
      → view r.thermal v b ≡ (
          if ltb (72 + (b * 32 + v)) i
          then counted c
              (entered c s.dram)
              (accesses n v b)
              (unit_temp (72 + (b * 32 + v)))
              (view s v b)
          else view s v b)

bank_step-roi :
    (c : Setting) (n : Interval) (v b temp : ℕ) (r : Reading)
    → (bank_step c n v b temp r).thermal.dram.enter_roi ≡ entered c r.thermal.dram
unfolding bank_step count_accesses update_temperature
bank_step-roi c n v b temp r = ground arith

bank_step-dtm :
    (c : Setting) (n : Interval) (v b temp : ℕ) (r : Reading)
    → (bank_step c n v b temp r).thermal.dtm ≡ r.thermal.dtm
unfolding bank_step count_accesses
bank_step-dtm c n v b temp r = ground arith

entered_again :
    (c : Setting) (d : StackedDram) (r : Reading)
    → d.enter_roi ≡ entered c r.thermal.dram
    → entered c d ≡ entered c r.thermal.dram
entered_again c d r h = ground arith

bank_step-vaults :
    (c : Setting) (n : Interval) (v b temp : ℕ) (r : Reading)
    → (bank_step c n v b temp r).thermal.dram.n_vaults ≡ r.thermal.dram.n_vaults
unfolding bank_step count_accesses update_temperature
bank_step-vaults c n v b temp r = ground arith

try_remapping-keeps :
    (d : StackedDram)
    → ((clear_cache_stats (try_remapping d)).n_vaults ≡ d.n_vaults)
      × ((clear_cache_stats (try_remapping d)).enter_roi ≡ d.enter_roi)
unfolding try_remapping clear_cache_stats
try_remapping-keeps d = ground arith

same_v : (v b v' b' : ℕ) → v < 32 → v' < 32 → b' * 32 + v' ≡ b * 32 + v → v' ≡ v
same_v v b v' b' lt lt' e = omega (arith, e)

same_b : (v b v' b' : ℕ) → v < 32 → v' < 32 → b' * 32 + v' ≡ b * 32 + v → b' ≡ b
same_b v b v' b' lt lt' e = omega (arith, e)

i_of_bank : (i : ℕ) → 72 ≤ i → 72 + ((i - 72) / 32 * 32 + (i - 72) % 32) ≡ i
i_of_bank i le = omega (arith, div-add-mod' (i - 72) 32)

module _ (c : Setting) (unit_temp : ℕ → ℕ) (n : Interval) (s : Thermal) where
  abbrev done : ℕ → ℕ → View
  done v b =
      counted c (entered c s.dram) (accesses n v b) (unit_temp (72 + (b * 32 + v))) (view s v b)

  rest-IsRead :
      (i : ℕ) (r' r : Reading)
      → r'.thermal ≡ r.thermal
      → i < 72
      → IsRead c unit_temp n s i r
      → IsRead c unit_temp n s (i + 1) r'
  rest-IsRead i r' r e lt h = record {
    roi = ap (λ (t : Thermal). entered c t.dram) e ∙ h.roi;
    dtm = ap (λ (t : Thermal). t.dtm) e ∙ h.dtm;
    banks = λ v b lt_v.
        ap (λ (t : Thermal). view t v b) e
        ∙ h.banks v b lt_v
        ∙ if_skip _ _ (done v b) (view s v b) (λ same. omega (arith, same));
  }

  read_here :
      (v b : ℕ) (r : Reading)
      → v < 32
      → IsRead c unit_temp n s (72 + (b * 32 + v)) r
      → view (bank_step c n v b (unit_temp (72 + (b * 32 + v))) r).thermal v b ≡ done v b
  unfolding update_temperature
  read_here v b r lt h =
      let old = h.banks v b lt ∙ if_ge _ _ (done v b) (view s v b) (omega arith) in
      bank_step-view c n v b _ r
      ∙ ap
          (λ w.
            counted c (entered c r.thermal.dram) (accesses n v b) (unit_temp (72 + (b * 32 + v))) w)
          old
      ∙ ap (λ roi. counted c roi (accesses n v b) (unit_temp (72 + (b * 32 + v))) (view s v b))
          h.roi

  bank_step-IsRead :
      (v b : ℕ) (r : Reading)
      → v < 32
      → IsRead c unit_temp n s (72 + (b * 32 + v)) r
      → IsRead c unit_temp n s
          (72 + (b * 32 + v) + 1)
          (bank_step c n v b (unit_temp (72 + (b * 32 + v))) r)
  bank_step-IsRead v b r lt h = record {
    roi =
        entered_again c (bank_step c n v b (unit_temp (72 + (b * 32 + v))) r).thermal.dram r
          (bank_step-roi c n v b _ r)
        ∙ h.roi;
    dtm = bank_step-dtm c n _ _ _ r ∙ h.dtm;
    banks = λ v' b' lt'. elim (ℕ_discrete (b' * 32 + v') (b * 32 + v)) [
      | yes e ↦
          rw (same_v v b v' b' lt lt' e, same_b v b v' b' lt lt' e)
            (read_here v b r lt h ∙ sym (if_lt _ _ (done v b) (view s v b) (omega arith)))
      | no ne ↦
          bank_step-view_ne c n v b _ v' b' r ne
          ∙ h.banks v' b' lt'
          ∙ if_skip _ _ (done v' b') (view s v' b') (λ same. ne (omega (arith, same)))
    ];
  }

  at_bank :
      (v b i : ℕ) (r : Reading)
      → 72 + (b * 32 + v) ≡ i
      → v < 32
      → IsRead c unit_temp n s i r
      → IsRead c unit_temp n s (i + 1) (bank_step c n v b (unit_temp i) r)
  at_bank v b i r e lt =
      subst
        (λ j.
          IsRead c unit_temp n s j r
          → IsRead c unit_temp n s (j + 1) (bank_step c n v b (unit_temp j) r))
        e (bank_step-IsRead v b r lt)

  core_step-IsRead :
      (i core temp : ℕ) (r : Reading)
      → i < 72
      → IsRead c unit_temp n s i r
      → IsRead c unit_temp n s (i + 1) (core_step core temp r)
  core_step-IsRead i core temp r lt h = rest-IsRead i _ r (core_step-thermal core temp r) lt h

  unit_step-IsRead :
      (i : ℕ) (r : Reading)
      → IsRead c unit_temp n s i r
      → IsRead c unit_temp n s (i + 1) (unit_step c unit_temp n i r)
  unfolding unit_step
  unit_step-IsRead i r h =
      if_rule (IsRead c unit_temp n s (i + 1)) (ltb i 40) _ _
        (λ core. core_step-IsRead i (i / 10) (unit_temp i) r (ground arith) h)
        (λ rest.
          if_rule (IsRead c unit_temp n s (i + 1)) (leb 72 i) _ r
            (λ bank.
              at_bank ((i - 72) % 32) ((i - 72) / 32) i r (i_of_bank i (ground arith))
                (mod-lt (i - 72) (omega arith)) h)
            (λ cntlr. rest-IsRead i r r refl (ground arith) h))

  read_units-IsRead : IsRead c unit_temp n s c.unit_num (read_units c unit_temp n s)
  unfolding read_units
  read_units-IsRead =
      for_range_inv (IsRead c unit_temp n s) (unit_step c unit_temp n) c.unit_num 0 c.unit_num
        (new_reading s) (λ i r lo hi h. unit_step-IsRead i r h) (omega arith)
        record {
          roi = refl;
          dtm = refl;
          banks = λ v b lt. sym (if_ge _ 0 (done v b) (view s v b) (omega arith));
        }

  pub read_units-dtm : (read_units c unit_temp n s).thermal.dtm ≡ s.dtm
  read_units-dtm = read_units-IsRead.dtm

  unit_step-vaults :
      (i : ℕ) (r : Reading)
      → (unit_step c unit_temp n i r).thermal.dram.n_vaults ≡ r.thermal.dram.n_vaults
  unfolding unit_step
  unit_step-vaults i r =
      if_rule (λ (x : Reading). x.thermal.dram.n_vaults ≡ r.thermal.dram.n_vaults) (ltb i 40) _ _
        (λ core. ap (λ (t : Thermal). t.dram.n_vaults) (core_step-thermal (i / 10) (unit_temp i) r))
        (λ rest.
          if_rule (λ (x : Reading). x.thermal.dram.n_vaults ≡ r.thermal.dram.n_vaults) (leb 72 i) _
            r (λ bank. bank_step-vaults c n ((i - 72) % 32) ((i - 72) / 32) (unit_temp i) r)
            (λ cntlr. refl))

  -- The stacked DRAM keeps its size and the region of interest.
  pub call_hot_spot-keeps :
      ((call_hot_spot c unit_temp n s).dram.n_vaults ≡ s.dram.n_vaults)
      × (entered c (call_hot_spot c unit_temp n s).dram ≡ entered c s.dram)
  unfolding call_hot_spot read_units
  call_hot_spot-keeps =
      let r = read_units c unit_temp n s in
      let dtm = check_dtm c.platform (core_temps c unit_temp r) r.max_bank_temp r.thermal.dtm in
      let tried = try_remapping-keeps (record r.thermal.dram { freq_lev = dtm.freq_lev }) in
      (
        tried.0
            ∙ for_range_none (λ (r : Reading). r.thermal.dram.n_vaults) (unit_step c unit_temp n)
                c.unit_num (new_reading s) unit_step-vaults,
        ap (λ (x : Bool). if c.dram.in_roi then true else x) tried.1 ∙ read_units-IsRead.roi,
      )

  -- When HotSpot has a unit for each of the 8 banks of the 32 vaults behind the 40 of the cores and the 32
  -- of the vaults, a call gives each bank the temperature that `getDramBankTemp` reads for it, and counts
  -- the reads and writes of the interval once: by the temperature of the call before they are hot above
  -- 85 degrees and errors above 95, and below they are cool once the region of interest was entered.
  pub call_hot_spot-view :
      (v b : ℕ)
      → 328 ≤ c.unit_num
      → v < 32
      → b < 8
      → view (call_hot_spot c unit_temp n s) v b
        ≡ counted c
            (entered c s.dram)
            (accesses n v b)
            (get_dram_bank_temp unit_temp v b)
            (view s v b)
  unfolding call_hot_spot get_dram_bank_temp
  call_hot_spot-view v b units lt_v lt_b =
      read_units-IsRead.banks v b lt_v
      ∙ if_lt _ _ (done v b) (view s v b) (omega arith)
      ∙ ap (λ i. counted c (entered c s.dram) (accesses n v b) (unit_temp i) (view s v b))
          (omega arith)
