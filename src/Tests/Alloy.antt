-- ===== src/Tests/Alloy.antt =====
-- The Alloy cache at work, and its refinement.
use sniper_zip.Prelude.{ℕ, ◌≡◌, refl, List, [], ◌∷◌, arith, u64}
use sniper_zip.DramVault
use sniper_zip.DramVault.{Access}
use sniper_zip.Alloy.{new_alloy, process_all}
use sniper_zip.Alloy.Refines.{ask, ask_all, new_table, AreBelow, process_all-refines}

-- Blocks 5, 5, 21 and 5, all of set 5 of 16.
abbrev loads : List (ℕ × Access × ℕ)
loads =
    (0, DramVault.read, 320)
    ∷ (1, DramVault.write, 330)
    ∷ (2, DramVault.read, 1344)
    ∷ (3, DramVault.read, 320)
    ∷ []

process_all-refines_example :
    let r = process_all (λ n. 4) (λ bits. bits) loads (new_alloy 16 1 64) in
    let q = ask_all 16 64 (λ bits. bits) loads new_table in (r.0.misses ≡ q.0.missed) × (r.1 ≡ q.1)
unfolding AreBelow
process_all-refines_example =
    process_all-refines (λ n. 4) (λ bits. bits) 16 1 64 loads (omega arith) (omega arith)
      (omega arith) (omega arith, (omega arith, (omega arith, (omega arith, refl))))

-- Three of them miss.
ask_all_runs : (ask_all 16 64 (λ bits. bits) loads new_table).1 ≡ 16384 ∷ 0 ∷ 16384 ∷ 16384 ∷ []
unfolding ask ask_all new_table u64
ask_all_runs = refl
