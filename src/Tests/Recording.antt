-- ===== src/Tests/Recording.antt =====
-- Records of the statistics one after the other, and the theorem about their counts.
use sniper_zip.Prelude.{ℕ, ◌+◌, ◌<◌, ◌≡◌, refl, true, false, List, [], ◌∷◌, u32, arith}
use sniper_zip.Thermal.{Interval}
use sniper_zip.Recording.{Recorder, Found, record_all}
use sniper_zip.Recording.Conserved.{
  AreWords, IsOn, latest, counted_accesses, taken_accesses, record_all-conserved,
}
use sniper_zip.Tests.Thermal.{setting, temps, before}

abbrev same_for_all : ℕ → ℕ → Interval
same_for_all r w = record { reads = λ v b. r; writes = λ v b. w }

abbrev recorder : Recorder
recorder = record {
  thermal = record before { dram = record before.dram { enter_roi = true } };
  n_banks = 8;
  bank_stats = same_for_all 100 50;
  interval = same_for_all 0 0;
  start_hotspot = true;
}

abbrev found : List Found
found =
    record { counters = same_for_all 110 55; powered = false; unit_temp = temps }
    ∷ record { counters = same_for_all 130 55; powered = true; unit_temp = λ i. 60 }
    ∷ []

words : (r w : ℕ) → r < 4294967296 → w < 4294967296 → AreWords (same_for_all r w)
words r w h k v b = (h, k)

on : IsOn setting 3 5 recorder
on = record {
  started = refl;
  roi = refl;
  vault = omega arith;
  bank = omega arith;
  words = (omega arith, omega arith);
}

record_all-conserved_example :
    let s' = record_all setting found recorder in
    u32 (counted_accesses 3 5 s' + taken_accesses 3 5 recorder)
    ≡ u32 (counted_accesses 3 5 recorder + latest 3 5 found (taken_accesses 3 5 recorder))
record_all-conserved_example =
    record_all-conserved 3 5 setting (omega arith) (omega arith) (omega arith) found recorder
      (words 110 55 (omega arith) (omega arith), (words 130 55 (omega arith) (omega arith), tt)) on

-- From 150 accesses to 185.
latest_185 : latest 3 5 found (taken_accesses 3 5 recorder) ≡ 185
unfolding latest
latest_185 = refl
