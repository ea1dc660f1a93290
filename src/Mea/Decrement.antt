-- ===== src/Mea/Decrement.antt =====
-- What one decrement round does to a map in order: every counter falls by one, and those at 1 go.
use sniper_zip.Prelude.{
  ℕ, suc, ◌+◌, ◌-◌, ◌≤◌, ◌<◌, ◌≡◌, refl, List, [], ◌∷◌, ◌==◌, if◌then◌else◌, u32_size, sub32_of_le,
  arith,
}
use sniper_zip.Mea.{MeaMap, erase, lower, zero_keys, erase_all, decrement}

-- Keys ascend from `lo`, and every counter is positive.
abbrev pub Counters : ℕ → MeaMap → Type 0
Counters lo [] = Unit {0}
Counters lo ((k, v) ∷ m) = (lo ≤ k) × (0 < v) × Counters (suc k) m

unfoldable pub total : MeaMap → ℕ
total [] = 0
total ((k, v) ∷ m) = v + total m

-- The counter of a row, 0 where there is none.
unfoldable pub value : ℕ → MeaMap → ℕ
value r [] = 0
value r ((k, v) ∷ m) = if k == r then v else value r m

pub Counters-mono : (a b : ℕ) (m : MeaMap) → a ≤ b → Counters b m → Counters a m
Counters-mono a b [] h c = tt
Counters-mono a b ((k, v) ∷ m) h c = (omega arith, c.1, c.2)

-- The specification of a round.
unfoldable pub shrink : MeaMap → MeaMap
shrink [] = []
shrink ((k, v) ∷ m) = if v == 1 then shrink m else (k, v - 1) ∷ shrink m

pub AllAbove : ℕ → List ℕ → Type 0
AllAbove lo [] = Unit {0}
AllAbove lo (k ∷ ks) = (lo ≤ k) × AllAbove lo ks

AllAbove-mono : (a b : ℕ) (ks : List ℕ) → a ≤ b → AllAbove b ks → AllAbove a ks
unfolding AllAbove
AllAbove-mono a b [] h c = tt
AllAbove-mono a b (k ∷ ks) h c = (omega arith, AllAbove-mono a b ks h c.1)

zero_keys-AllAbove : (lo : ℕ) (m : MeaMap) → Counters lo m → AllAbove lo (zero_keys (lower m))
unfolding zero_keys lower AllAbove
zero_keys-AllAbove lo [] c = tt
zero_keys-AllAbove lo ((k, v) ∷ m) c =
    let rest =
      AllAbove-mono lo (suc k) (zero_keys (lower m)) (omega arith)
        (zero_keys-AllAbove (suc k) m c.2) in
    ground (arith, rest)

-- Keys above the head leave the head alone.
erase_all_skip :
    (k v : ℕ) (ks : List ℕ) (m : MeaMap)
    → AllAbove (suc k) ks
    → erase_all ks ((k, v) ∷ m) ≡ (k, v) ∷ erase_all ks m
unfolding erase_all erase AllAbove
erase_all_skip k v [] m a = refl
erase_all_skip k v (r ∷ ks) m a = ground (arith, erase_all_skip k v ks (erase r m) a.1)

pub decrement-shrink :
    (lo : ℕ) (m : MeaMap) → Counters lo m → total m < u32_size → decrement m ≡ shrink m
unfolding decrement shrink total
decrement-shrink lo [] c h = refl
decrement-shrink lo ((k, v) ∷ m) c h = ground (
  arith,
  decrement-shrink (suc k) m c.2,
  sub32_of_le v 1,
  erase_all_skip k (v - 1) (zero_keys (lower m)) (lower m) (zero_keys-AllAbove (suc k) m c.2),
)
