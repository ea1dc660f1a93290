-- ===== src/Mea.antt =====
-- The row counters of a bank: `mea_map` of performance_model/remapping.h and `BankStat::accessRow`
-- of performance_model/remapping.cc. A std::map is the list of its entries in the order of the keys.
pub mod Decrement
pub mod Frequency
use sniper_zip.Prelude.{
  ℕ, ◌+◌, ◌≡◌, Option, none, some, List, [], ◌∷◌, ◌==◌, if◌then◌else◌, ltb, length, u32, sub32,
}

abbrev pub MeaMap : Type 0
MeaMap = List (ℕ × ℕ)

-- mea_map.find(row).
unfoldable pub find : ℕ → MeaMap → Option ℕ
find r [] = none
find r ((k, v) ∷ m) = if k == r then some v else find r m

-- mea_map[row] = v, which keeps the keys in order.
unfoldable pub put : ℕ → ℕ → MeaMap → MeaMap
put r v [] = (r, v) ∷ []
put r v ((k, w) ∷ m) =
    if k == r then (r, v) ∷ m else if ltb r k then (r, v) ∷ (k, w) ∷ m else (k, w) ∷ put r v m

-- mea_map.erase(row).
unfoldable pub erase : ℕ → MeaMap → MeaMap
erase r [] = []
erase r ((k, v) ∷ m) = if k == r then m else (k, v) ∷ erase r m

-- i->second-- at every entry.
unfoldable pub lower : MeaMap → MeaMap
lower [] = []
lower ((k, v) ∷ m) = (k, sub32 v 1) ∷ lower m

-- The keys whose counter is 0, in order: `deleted_keys`.
unfoldable pub zero_keys : MeaMap → List ℕ
zero_keys [] = []
zero_keys ((k, v) ∷ m) = if v == 0 then k ∷ zero_keys m else zero_keys m

unfoldable pub erase_all : List ℕ → MeaMap → MeaMap
erase_all [] m = m
erase_all (r ∷ rs) m = erase_all rs (erase r m)

-- The branch for a row that is not counted while the map is full.
unfoldable pub decrement : MeaMap → MeaMap
unfolding lower zero_keys erase_all erase
decrement m = erase_all (zero_keys (lower m)) (lower m)

-- `accessRow`; `n_migrate_row` is the number of counters.
unfoldable pub access_row : ℕ → ℕ → MeaMap → MeaMap
unfolding find put decrement
access_row n_migrate_row r m = elim (find r m) [
  | some c ↦ put r (u32 (c + 1)) m
  | none ↦ if ltb (length m) n_migrate_row then put r 1 m else decrement m
]

-- A sequence of accesses.
unfoldable pub access_rows : ℕ → List ℕ → MeaMap → MeaMap
access_rows n_migrate_row [] m = m
access_rows n_migrate_row (r ∷ rs) m = access_rows n_migrate_row rs (access_row n_migrate_row r m)
