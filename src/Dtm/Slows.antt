-- ===== src/Dtm/Slows.antt =====
-- What a DRAM that is too hot does to the level.
use sniper_zip.Prelude.{
  ℕ, ◌-◌, ◌*◌, ◌<◌, ◌≤◌, ◌≡◌, refl, Bool, true, false, ◌==◌, ◌||◌, if◌then◌else◌, ltb, List, arith,
  if_rule,
}
use sniper_zip.Dtm.{
  Platform, Dtm, Message, cpu_hot, dram_hot, print, max_lev, slow_down, max_temp, check_dtm,
}
use sniper_zip.Dtm.Domains.{RunAt, AllSettable, hz_at, settable, set_level-RunAt}

or_true : (a b : Bool) → b ≡ true → (a || b) ≡ true
or_true a b h = ground arith

wrong_test : (a b : ℕ) → a < b → ltb a b ≡ false → ⊥
wrong_test a b lt h = ground arith

slow_down-RunAt :
    (p : Platform) (s : Dtm)
    → 0 < s.freq_lev
    → s.freq_lev ≤ max_lev p
    → AllSettable p
    → RunAt p (s.freq_lev - 1) (p.period_of (hz_at p (s.freq_lev - 1))) p.num_cores (slow_down p s)
unfolding slow_down
slow_down-RunAt p s above at settable =
    if_rule (RunAt p (s.freq_lev - 1) (p.period_of (hz_at p (s.freq_lev - 1))) p.num_cores)
      (ltb 0 s.freq_lev) _ s
      (λ some. set_level-RunAt p (s.freq_lev - 1) s settable (omega (arith, at)))
      (λ none. absurd (wrong_test 0 s.freq_lev above none))

-- The branch of method 2 when something is hot.
method_2 {ℓ} :
    {A : Type ℓ} (k : ℕ) (hot : Bool) (off one slow speed unknown : A)
    → k ≡ 2
    → hot ≡ true
    → (if k == 0
        then off
        else if k == 1
        then one
        else if k == 2
        then (if hot then slow else speed)
        else unknown)
      ≡ slow
method_2 k hot off one slow speed unknown two is_hot = rw (two, is_hot) refl

check_dtm-hot :
    (p : Platform) (cpu : List ℕ) (dram : ℕ) (s : Dtm)
    → p.dtm_method ≡ 2
    → p.dram_temp_thres * p.temp_unit < dram
    → (e : Message) × (check_dtm p cpu dram s ≡ slow_down p (print e s))
unfolding check_dtm
check_dtm-hot p cpu dram s two hot = (
  if ltb (p.cpu_temp_thres * p.temp_unit) (max_temp cpu 0) then cpu_hot else dram_hot,
  method_2 p.dtm_method _ s _ _ _ _ two
      (or_true (ltb (p.cpu_temp_thres * p.temp_unit) (max_temp cpu 0)) _ (ground arith)),
)

-- A DRAM above its threshold, when the method considers both, is a step down.
pub check_dtm-slows :
    (p : Platform) (cpu : List ℕ) (dram : ℕ) (s : Dtm)
    → p.dtm_method ≡ 2
    → p.dram_temp_thres * p.temp_unit < dram
    → 0 < s.freq_lev
    → s.freq_lev ≤ max_lev p
    → 5 ≤ p.max_freq
    → p.max_freq < 2147483648
    → RunAt p
        (s.freq_lev - 1)
        (p.period_of (hz_at p (s.freq_lev - 1)))
        p.num_cores
        (check_dtm p cpu dram s)
check_dtm-slows p cpu dram s two hot above at some fits =
    let (e, same) = check_dtm-hot p cpu dram s two hot in
    rw same (slow_down-RunAt p (print e s) above at (settable p some fits))
