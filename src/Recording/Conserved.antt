-- ===== src/Recording/Conserved.antt =====
-- The hot and cool accesses of a bank, and its counters.
use mathlib.Core.Path.{subst}
use sniper_zip.Prelude.{
  ℕ, ◌+◌, ◌*◌, ◌<◌, ◌≤◌, ◌≡◌, refl, sym, ap, ◌∙◌, Bool, true, false, if◌then◌else◌, List, [], ◌∷◌,
  u32, sub32, u32_size, ltb, not, ◌&&◌, ◌||◌, arith,
}
use sniper_zip.Thermal.Banks.{View, entered, view, counted, call_hot_spot-view, call_hot_spot-keeps}
use sniper_zip.Thermal.{Setting, Interval, Thermal, call_hot_spot}
use sniper_zip.Recording.Taken.{Taken, taken, takes, update_power_rest, update_power-takes}
use sniper_zip.Recording.{Recorder, Found, update_power, record_stats, record_all}

-- Counters of 32 bits.
abbrev pub AreWords : Interval → Type 0
AreWords n = (v b : ℕ) → (n.reads v b < u32_size) × (n.writes v b < u32_size)

abbrev pub AllWords : List Found → Type 0
AllWords [] = Unit
AllWords (x ∷ xs) = AreWords x.counters × AllWords xs

-- The accesses that the last counters say, or `r` before any.
unfoldable pub latest : (v b : ℕ) → List Found → ℕ → ℕ
latest v b [] r = r
latest v b (x ∷ xs) r = latest v b xs (x.counters.reads v b + x.counters.writes v b)

-- Accesses counted as hot or cool, and accesses of the counters.
abbrev pub counted_accesses : ℕ → ℕ → Recorder → ℕ
counted_accesses v b s = s.thermal.hot_access v b + s.thermal.cool_access v b

abbrev pub taken_accesses : ℕ → ℕ → Recorder → ℕ
taken_accesses v b s = s.bank_stats.reads v b + s.bank_stats.writes v b

-- Temperatures are handled, in the region of interest, and the bank exists.
pub record IsOn (c : Setting) (v b : ℕ) (s : Recorder) : Type 0 where
  pub started : s.start_hotspot ≡ true
  pub roi : entered c s.thermal.dram ≡ true
  pub vault : v < s.thermal.dram.n_vaults
  pub bank : b < s.n_banks
  pub words : (s.bank_stats.reads v b < u32_size) × (s.bank_stats.writes v b < u32_size)

-- One interval: the counts grow as the counters do.
grows :
    (hot cool r w r' w' : ℕ) (is_hot : Bool)
    → r < u32_size
    → w < u32_size
    → let grown = u32 (sub32 r' r + sub32 w' w) in
      u32 (
        (if is_hot then u32 (hot + grown) else hot)
        + (if not is_hot && true then u32 (cool + grown) else cool)
        + (r + w))
      ≡ u32 (hot + cool + (r' + w'))
grows hot cool r w r' w' true lt lt' = omega arith
grows hot cool r w r' w' false lt lt' = omega arith

if_or {ℓ} : {A : Type ℓ} (p q : Bool) (x y : A) → q ≡ true → (if p || q then x else y) ≡ x
if_or p q x y h = ground arith

-- Two intervals.
chain :
    (a b c r s t : ℕ)
    → u32 (b + r) ≡ u32 (a + s)
    → u32 (c + s) ≡ u32 (b + t)
    → u32 (c + r) ≡ u32 (a + t)
chain a b c r s t h k = omega arith

module _ (v b : ℕ) where
  -- The recorder after temperatures were handled.
  abbrev handled : Setting → Found → Recorder → Recorder
  handled c x t = record t {
    thermal = call_hot_spot c x.unit_temp t.interval t.thermal;
    start_hotspot = true;
  }

  record_on :
      (c : Setting) (x : Found) (s : Recorder)
      → s.start_hotspot ≡ true
      → record_stats c x s ≡ handled c x (update_power x.counters s)
  unfolding record_stats
  record_on c x s started =
      if_or x.powered (update_power x.counters s).start_hotspot _ _
        (ap (λ (r : Thermal × ℕ × Bool). r.2) (update_power_rest v b x.counters s) ∙ started)

  -- The hot and cool accesses of a bank after a call.
  abbrev counts : Setting → Bool → ℕ → ℕ → Thermal → ℕ
  counts c roi reads writes t =
      let w = counted c roi (u32 (reads + writes)) 0 (view t v b) in w.hot + w.cool

  -- What a call of `recordStats` does to the bank.
  record Recorded (c : Setting) (n : Interval) (s s' : Recorder) : Type 0 where
    on : IsOn c v b s'
    grown :
        u32 (counted_accesses v b s' + taken_accesses v b s)
        ≡ u32 (counted_accesses v b s + taken_accesses v b s')
    now : taken_accesses v b s' ≡ n.reads v b + n.writes v b

  module _ (c : Setting) (units : 328 ≤ c.unit_num) (lt_v : v < 32) (lt_b : b < 8) where
    handled-Recorded :
        (x : Found) (s : Recorder)
        → AreWords x.counters
        → IsOn c v b s
        → Recorded c x.counters s (handled c x (update_power x.counters s))
    handled-Recorded x s words on =
        let n = x.counters in
        let t = update_power n s in
        let same = update_power_rest v b n s in
        let thermal = ap (λ (r : Thermal × ℕ × Bool). r.0) same in
        let took = update_power-takes v b n s on.vault on.bank in
        let reads = ap (λ (k : Taken). k.reads) took in
        let writes = ap (λ (k : Taken). k.writes) took in
        let keeps = call_hot_spot-keeps c x.unit_temp t.interval t.thermal in
        let vaults = keeps.0 ∙ ap (λ (h : Thermal). h.dram.n_vaults) thermal in
        let banks = ap (λ (r : Thermal × ℕ × Bool). r.1) same in
        let count =
          ap (λ (w : View). w.hot + w.cool)
            (call_hot_spot-view c x.unit_temp t.interval t.thermal v b units lt_v lt_b)
          ∙ ap (λ h. counts c (entered c h.dram) (taken v b t).new_reads (taken v b t).new_writes h)
              thermal
          ∙ ap
              (λ (k : Taken).
                counts c (entered c s.thermal.dram) k.new_reads k.new_writes s.thermal)
              took
          ∙ ap
              (λ roi.
                counts c roi (takes v b n (taken v b s)).new_reads
                  (takes v b n (taken v b s)).new_writes s.thermal)
              on.roi in
        record {
          on = record {
            started = refl;
            roi = keeps.1 ∙ ap (λ (h : Thermal). entered c h.dram) thermal ∙ on.roi;
            vault = omega (arith, vaults, on.vault);
            bank = omega (arith, banks, on.bank);
            words = (omega (arith, reads, (words v b).0), omega (arith, writes, (words v b).1));
          };
          grown =
              ap (λ k. u32 (k + taken_accesses v b s)) count
              ∙ grows (s.thermal.hot_access v b) (s.thermal.cool_access v b)
                  (s.bank_stats.reads v b) (s.bank_stats.writes v b) (n.reads v b) (n.writes v b)
                  (ltb (85 * c.platform.temp_unit) (s.thermal.prev_bank_temp v b)) on.words.0
                  on.words.1
              ∙ ap (λ (k : Taken). u32 (counted_accesses v b s + (k.reads + k.writes))) (sym took);
          now = omega (arith, reads, writes);
        }

    record_stats-Recorded :
        (x : Found) (s : Recorder)
        → AreWords x.counters
        → IsOn c v b s
        → Recorded c x.counters s (record_stats c x s)
    record_stats-Recorded x s words on =
        subst (Recorded c x.counters s) (sym (record_on c x s on.started))
          (handled-Recorded x s words on)

    -- With a unit for each bank in HotSpot, the region of interest entered and temperatures handled from now
    -- on, and 32-bit counters in the DRAM simulator: over any number of calls of `recordStats` the hot and
    -- the cool accesses of a bank together grow by as much, modulo 2^32, as its counters of reads and
    -- writes do, whatever the temperatures are.
    pub record_all-conserved :
        (xs : List Found) (s : Recorder)
        → AllWords xs
        → IsOn c v b s
        → let s' = record_all c xs s in
          u32 (counted_accesses v b s' + taken_accesses v b s)
          ≡ u32 (counted_accesses v b s + latest v b xs (taken_accesses v b s))
    unfolding record_all latest
    record_all-conserved [] s words on = refl
    record_all-conserved (x ∷ xs) s words on =
        let step = record_stats-Recorded x s words.0 on in
        let s1 = record_stats c x s in
        chain (counted_accesses v b s) (counted_accesses v b s1)
          (counted_accesses v b (record_all c xs s1)) (taken_accesses v b s) (taken_accesses v b s1)
          _ step.grown
          (record_all-conserved xs s1 words.1 step.on
            ∙ ap (λ k. u32 (counted_accesses v b s1 + latest v b xs k)) step.now)
