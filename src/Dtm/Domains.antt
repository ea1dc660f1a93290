-- ===== src/Dtm/Domains.antt =====
-- The clocks of the cores and the level.
use native.Mathlib.Nat.{div-add-mod', div-le_self, le_of_lt, mul-le-mul_left}
use sniper_zip.Prelude.{
  ℕ, ◌+◌, ◌-◌, ◌*◌, ◌/◌, ◌<◌, ◌≤◌, ◌≡◌, ◌≢◌, refl, sym, ap, ◌∙◌, Bool, false, ◌==◌, if◌then◌else◌,
  ltb, List, [], ◌∷◌, u64, arith, if_rule, for_range_inv,
}
use sniper_zip.Dtm.{
  Platform, Dtm, Message, cpu_hot, print, get_core_domain_id, set_core_domain, set_frequency,
  set_global_frequency, freq_table, min_freq, max_lev, slow_down, speed_up, check_dtm, check_all,
}

-- The level is `lev`, and the cores below `c` are in domains of that period.
pub record RunAt (p : Platform) (lev period c : ℕ) (s : Dtm) : Type 0 where
  pub level : s.freq_lev ≡ lev
  pub domains : (core : ℕ) → core < c → s.domains (core / p.cores_per_socket) ≡ period

below_last : (core c : ℕ) → core < c + 1 → core ≢ c → core < c
below_last core c h ne = omega (arith, h, ne)

differs : (a b : ℕ) → (a == b) ≡ false → a ≢ b
differs a b h = ground arith

set_core_domain-RunAt :
    (p : Platform) (lev period c : ℕ) (s : Dtm)
    → c < p.num_cores
    → RunAt p lev period c s
    → RunAt p lev period (c + 1) (set_core_domain p c period s)
unfolding set_core_domain get_core_domain_id
set_core_domain-RunAt p lev period c s lt h =
    if_rule (RunAt p lev period (c + 1)) (ltb c p.num_cores) _ _
      (λ now. record {
        level = h.level;
        domains = λ core below.
            if_rule (λ (x : ℕ). x ≡ period) (core / p.cores_per_socket == c / p.cores_per_socket)
              period (s.domains (core / p.cores_per_socket)) (λ same. refl)
              (λ other. h.domains core (
                below_last core c below (λ e.
                  differs (core / p.cores_per_socket) _ other
                    (ap (λ x. x / p.cores_per_socket) e))));
      })
      (λ out. ground arith)

-- The frequency of a level, in hertz.
abbrev pub hz_at : Platform → ℕ → ℕ
hz_at p lev = u64 (freq_table p lev * 1000000)

set_frequency-RunAt :
    (p : Platform) (lev mhz c : ℕ) (s : Dtm)
    → 0 < u64 (mhz * 1000000)
    → c < p.num_cores
    → RunAt p lev (p.period_of (u64 (mhz * 1000000))) c s
    → RunAt p lev (p.period_of (u64 (mhz * 1000000))) (c + 1) (set_frequency p c mhz s)
unfolding set_frequency
set_frequency-RunAt p lev mhz c s some lt h =
    if_rule (RunAt p lev (p.period_of (u64 (mhz * 1000000))) (c + 1)) (ltb 0 (u64 (mhz * 1000000)))
      _ _ (λ ok. set_core_domain-RunAt p lev _ c s lt h) (λ failed. ground arith)

set_global_frequency-RunAt :
    (p : Platform) (lev mhz : ℕ) (s : Dtm)
    → 0 < u64 (mhz * 1000000)
    → s.freq_lev ≡ lev
    → RunAt p lev (p.period_of (u64 (mhz * 1000000))) p.num_cores (set_global_frequency p mhz s)
unfolding set_global_frequency
set_global_frequency-RunAt p lev mhz s some at =
    for_range_inv (RunAt p lev (p.period_of (u64 (mhz * 1000000)))) (λ c. set_frequency p c mhz)
      p.num_cores 0 p.num_cores s (λ c s' lo hi k. set_frequency-RunAt p lev mhz c s' some hi k)
      (omega arith) record { level = at; domains = λ core below. ground arith }

-- The level is one of the table, and every core runs at the period of its frequency.
pub record FollowsLevel (p : Platform) (s : Dtm) : Type 0 where
  pub level : s.freq_lev ≤ max_lev p
  pub periods :
      (core : ℕ)
      → core < p.num_cores
      → s.domains (core / p.cores_per_socket) ≡ p.period_of (hz_at p s.freq_lev)

-- Every level of the table is a frequency that can be set.
abbrev pub AllSettable : Platform → Type 0
AllSettable p = (lev : ℕ) → lev ≤ max_lev p → 0 < hz_at p lev

below_max : (min max num i : ℕ) → min ≤ max → i < num → min + (max - min) / num * i ≤ max
below_max min max num i le lt =
    omega
      (arith, mul-le-mul_left ((max - min) / num) (le_of_lt lt), div-add-mod' (max - min) num, le)

freq_table_bounds :
    (p : Platform) (lev : ℕ) → (min_freq p ≤ freq_table p lev) × (freq_table p lev ≤ p.max_freq)
unfolding freq_table
freq_table_bounds p lev =
    if_rule (λ (x : ℕ). (min_freq p ≤ x) × (x ≤ p.max_freq)) (ltb lev (p.freq_num - 1)) _ p.max_freq
      (λ below. (
        omega arith,
        below_max (min_freq p) p.max_freq (p.freq_num - 1) lev (div-le_self p.max_freq 5)
            (ground arith),
      ))
      (λ last. (div-le_self p.max_freq 5, omega arith))

pub settable : (p : Platform) → 5 ≤ p.max_freq → p.max_freq < 2147483648 → AllSettable p
unfolding u64
settable p some fits lev le = omega (arith, freq_table_bounds p lev, div-add-mod' p.max_freq 5)

pub set_level-RunAt :
    (p : Platform) (lev : ℕ) (s : Dtm)
    → AllSettable p
    → lev ≤ max_lev p
    → RunAt p lev
        (p.period_of (hz_at p lev))
        p.num_cores
        (set_global_frequency p (freq_table p lev) (record s { freq_lev = lev }))
set_level-RunAt p lev s settable le =
    set_global_frequency-RunAt p lev (freq_table p lev) (record s { freq_lev = lev })
      (settable lev le) refl

set_level-FollowsLevel :
    (p : Platform) (lev : ℕ) (s : Dtm)
    → AllSettable p
    → lev ≤ max_lev p
    → FollowsLevel p (set_global_frequency p (freq_table p lev) (record s { freq_lev = lev }))
set_level-FollowsLevel p lev s settable le =
    let h = set_level-RunAt p lev s settable le in
    record {
      level = omega (arith, h.level, le);
      periods =
          λ core below. h.domains core below ∙ ap (λ l. p.period_of (hz_at p l)) (sym h.level);
    }

slow_down-FollowsLevel :
    (p : Platform) (s : Dtm) → AllSettable p → FollowsLevel p s → FollowsLevel p (slow_down p s)
unfolding slow_down
slow_down-FollowsLevel p s settable h =
    if_rule (FollowsLevel p) (ltb 0 s.freq_lev) _ s
      (λ some. set_level-FollowsLevel p (s.freq_lev - 1) s settable (omega (arith, h.level)))
      (λ none. h)

speed_up-FollowsLevel :
    (p : Platform) (s : Dtm) → AllSettable p → FollowsLevel p s → FollowsLevel p (speed_up p s)
unfolding speed_up
speed_up-FollowsLevel p s settable h =
    if_rule (FollowsLevel p) (ltb s.freq_lev (max_lev p)) _ s
      (λ some. set_level-FollowsLevel p (s.freq_lev + 1) s settable (ground arith)) (λ none. h)

-- A record with another log.
logged :
    (p : Platform) (l : List Message) (s : Dtm)
    → FollowsLevel p s
    → FollowsLevel p (record s { log = l })
logged p l s h = record { level = h.level; periods = h.periods }

-- Either way the clocks follow.
slow_or_speed :
    (p : Platform) (hot : Bool) (e : Message) (s : Dtm)
    → AllSettable p
    → FollowsLevel p s
    → FollowsLevel p (if hot then slow_down p (print e s) else speed_up p s)
slow_or_speed p hot e s settable h =
    if_rule (FollowsLevel p) hot (slow_down p (print e s)) (speed_up p s)
      (λ too_hot. slow_down-FollowsLevel p _ settable (logged p (e ∷ s.log) s h))
      (λ cool. speed_up-FollowsLevel p s settable h)

check_dtm-FollowsLevel :
    (p : Platform) (cpu : List ℕ) (dram : ℕ) (s : Dtm)
    → AllSettable p
    → FollowsLevel p s
    → FollowsLevel p (check_dtm p cpu dram s)
unfolding check_dtm
check_dtm-FollowsLevel p cpu dram s settable h =
    if_rule (FollowsLevel p) (p.dtm_method == 0) s _ (λ off. h)
      (λ on.
        if_rule (FollowsLevel p) (p.dtm_method == 1) _ _
          (λ one. slow_or_speed p _ cpu_hot s settable h)
          (λ more.
            if_rule (FollowsLevel p) (p.dtm_method == 2) _ _
              (λ two. slow_or_speed p _ _ s settable h) (λ unknown. logged p _ s h)))

-- When the highest frequency is 5 MHz or more and fits into 31 bits, the level is one of the table, and
-- every core runs at the period of its level's frequency, then this is so after any sequence of checks,
-- whatever the temperatures are.
pub check_all-FollowsLevel :
    (p : Platform) (ts : List (List ℕ × ℕ)) (s : Dtm)
    → 5 ≤ p.max_freq
    → p.max_freq < 2147483648
    → FollowsLevel p s
    → FollowsLevel p (check_all p ts s)
unfolding check_all
check_all-FollowsLevel p [] s some fits h = h
check_all-FollowsLevel p (t ∷ ts) s some fits h =
    check_all-FollowsLevel p ts (check_dtm p t.0 t.1 s) some fits
      (check_dtm-FollowsLevel p t.0 t.1 s (settable p some fits) h)
