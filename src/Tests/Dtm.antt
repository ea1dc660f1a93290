-- ===== src/Tests/Dtm.antt =====
-- Dynamic thermal management at work, and the theorem about its clocks.
use sniper_zip.Prelude.{ℕ, ◌-◌, ◌≡◌, refl, List, [], ◌∷◌, u64, arith}
use sniper_zip.Dtm.{Platform, Dtm, freq_table, check_dtm, check_all}
use sniper_zip.Dtm.Domains.{FollowsLevel, check_all-FollowsLevel}

-- Three cores, two to a socket, and levels from 600 to 3000 MHz.
abbrev pub platform : Platform
platform = record {
  num_cores = 3;
  cores_per_socket = 2;
  period_of = λ hz. 5000000000 - hz;
  cpu_temp_thres = 85;
  dram_temp_thres = 80;
  dtm_method = 2;
  max_freq = 3000;
  freq_num = 5;
  temp_unit = 1;
}

abbrev pub at_top : Dtm
at_top = record { freq_lev = 4; domains = λ d. 2000000000; delays = λ core. 0; log = [] }

abbrev checks : List (List ℕ × ℕ)
checks = (90 ∷ 70 ∷ [], 60) ∷ (80 ∷ 70 ∷ [], 81) ∷ (80 ∷ 70 ∷ [], 60) ∷ []

-- Twice a level down and once up; the first core of each socket makes each transition.
slowed : (check_all platform checks at_top).freq_lev ≡ 3
unfolding check_all check_dtm u64
slowed = refl

delayed : (check_all platform checks at_top).delays 2 ≡ 3
unfolding check_all check_dtm u64
delayed = refl

not_delayed : (check_all platform checks at_top).delays 1 ≡ 0
unfolding check_all check_dtm u64
not_delayed = refl

follows : FollowsLevel platform at_top
unfolding u64 freq_table
follows = record { level = omega arith; periods = λ core below. refl }

check_all-FollowsLevel_example : FollowsLevel platform (check_all platform checks at_top)
check_all-FollowsLevel_example =
    check_all-FollowsLevel platform checks at_top (omega arith) (omega arith) follows
