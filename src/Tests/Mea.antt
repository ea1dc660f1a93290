-- ===== src/Tests/Mea.antt =====
-- The row counters at work, and their theorems at concrete accesses.
use sniper_zip.Prelude.{ℕ, ◌+◌, ◌*◌, ◌≤◌, ◌<◌, ◌≡◌, refl, some, List, [], ◌∷◌, length, arith}
use sniper_zip.Mea.{find, access_row, access_rows}
use sniper_zip.Mea.Decrement.{Counters, value}
use sniper_zip.Mea.Frequency.{count, access_rows-value_bounds, access_rows-find_frequent}

abbrev rows : List ℕ
rows = 7 ∷ 3 ∷ 7 ∷ 9 ∷ 7 ∷ 4 ∷ 7 ∷ []

-- Two counters: row 3 is dropped by 9, and 9 never gets one.
rows_counted : access_rows 2 rows [] ≡ (4, 1) ∷ (7, 3) ∷ []
unfolding access_rows access_row
rows_counted = refl

access_rows-value_bounds_example :
    let m = access_rows 2 rows [] in
    (value 7 m ≤ count 7 rows)
    × ((2 + 1) * count 7 rows ≤ (2 + 1) * value 7 m + length rows)
    × Counters 0 m
    × (length m ≤ 2)
access_rows-value_bounds_example = access_rows-value_bounds 2 7 rows (omega arith)

access_rows-find_frequent_example :
    (c : ℕ) × (find 7 (access_rows 2 rows []) ≡ some c) × (0 < c) × (c ≤ count 7 rows)
unfolding count
access_rows-find_frequent_example = access_rows-find_frequent 2 7 rows (omega arith) (omega arith)
