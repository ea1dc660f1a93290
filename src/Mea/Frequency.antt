-- ===== src/Mea/Frequency.antt =====
-- The counters find the frequent rows: the bounds of the Misra-Gries method for `accessRow`.
use sniper_zip.Prelude.{
  ℕ, suc, ◌+◌, ◌-◌, ◌*◌, ◌≤◌, ◌<◌, ◌≡◌, refl, none, some, List, [], ◌∷◌, ◌==◌, if◌then◌else◌, ltb,
  length, u32, u32_size, u32_of_lt, arith, Option-cases, Bool-cases, inl, inr, ltb→lt, ltb→le,
}
use native.Mathlib.Nat.{add-zero, mul-le-mul_left}
use sniper_zip.Mea.{MeaMap, find, put, access_row, access_rows}
use sniper_zip.Mea.Decrement.{Counters, Counters-mono, total, value, shrink, decrement-shrink}

-- How often a row occurs among the accesses.
unfoldable pub count : ℕ → List ℕ → ℕ
count r [] = 0
count r (x ∷ xs) = if x == r then suc (count r xs) else count r xs

value_of_find : (r : ℕ) (m : MeaMap) (c : ℕ) → find r m ≡ some c → value r m ≡ c
unfolding find value
value_of_find r [] c h = ground arith
value_of_find r ((k, v) ∷ m) c h = ground (arith, value_of_find r m c)

value_of_none : (r : ℕ) (m : MeaMap) → find r m ≡ none → value r m ≡ 0
unfolding find value
value_of_none r [] h = refl
value_of_none r ((k, v) ∷ m) h = ground (arith, value_of_none r m)

pub find_of_value : (r : ℕ) (m : MeaMap) → 0 < value r m → find r m ≡ some (value r m)
unfolding find value
find_of_value r [] h = absurd (omega arith)
find_of_value r ((k, v) ∷ m) h = ground (arith, find_of_value r m)

value-le-total : (r : ℕ) (m : MeaMap) → value r m ≤ total m
unfolding value total
value-le-total r [] = omega arith
value-le-total r ((k, v) ∷ m) = ground (arith, value-le-total r m)

value_above : (x k : ℕ) (m : MeaMap) → x ≤ k → Counters (suc k) m → value x m ≡ 0
unfolding value
value_above x k [] h c = refl
value_above x k ((j, u) ∷ m) h c = ground (arith, value_above x j m (omega arith) c.2)

value-put : (r x v : ℕ) (m : MeaMap) → value r (put x v m) ≡ (if x == r then v else value r m)
unfolding value put
value-put r x v [] = ground arith
value-put r x v ((k, w) ∷ m) = ground (arith, value-put r x v m)

total-put :
    (x v : ℕ) (m : MeaMap) (lo : ℕ) → Counters lo m → total (put x v m) + value x m ≡ total m + v
unfolding value put total
total-put x v [] lo c = omega arith
total-put x v ((k, w) ∷ m) lo c = ground (arith, value_above x k m, total-put x v m (suc k) c.2)

put-Counters : (x v lo : ℕ) (m : MeaMap) → 0 < v → lo ≤ x → Counters lo m → Counters lo (put x v m)
unfolding put
put-Counters x v lo [] p h c = (h, p, tt)
put-Counters x v lo ((k, w) ∷ m) p h c =
    ground (arith, put-Counters x v (suc k) m p, Counters-mono (suc x) (suc k) m)

length-put-le : (x v : ℕ) (m : MeaMap) → length (put x v m) ≤ length m + 1
unfolding put
length-put-le x v [] = omega arith
length-put-le x v ((k, w) ∷ m) = ground (arith, length-put-le x v m)

length-put_found :
    (x v c : ℕ) (m : MeaMap) (lo : ℕ)
    → Counters lo m
    → find x m ≡ some c
    → length (put x v m) ≡ length m
unfolding put find
length-put_found x v c [] lo o h = ground arith
length-put_found x v c ((k, w) ∷ m) lo o h =
    ground (arith, length-put_found x v c m (suc k) o.2, find_above x k c m)
  where
    find_above : (x k c : ℕ) (m : MeaMap) → x ≤ k → Counters (suc k) m → find x m ≡ some c → ⊥
    find_above x k c [] h o e = cc
    find_above x k c ((j, u) ∷ m) h o e = ground (arith, find_above x j c m (omega arith) o.2)

shrink-Counters : (lo : ℕ) (m : MeaMap) → Counters lo m → Counters lo (shrink m)
unfolding shrink
shrink-Counters lo [] c = tt
shrink-Counters lo ((k, v) ∷ m) c =
    ground (arith, shrink-Counters (suc k) m c.2, Counters-mono lo (suc k) (shrink m))

length-shrink-le : (m : MeaMap) → length (shrink m) ≤ length m
unfolding shrink
length-shrink-le [] = omega arith
length-shrink-le ((k, v) ∷ m) = ground (arith, length-shrink-le m)

total-shrink : (lo : ℕ) (m : MeaMap) → Counters lo m → total (shrink m) + length m ≡ total m
unfolding shrink total
total-shrink lo [] c = omega arith
total-shrink lo ((k, v) ∷ m) c = ground (arith, total-shrink (suc k) m c.2)

value-shrink : (r lo : ℕ) (m : MeaMap) → Counters lo m → value r (shrink m) ≡ value r m - 1
unfolding shrink value
value-shrink r lo [] c = omega arith
value-shrink r lo ((k, v) ∷ m) c =
    ground (
      arith,
      value-shrink r (suc k) m c.2,
      value_above r k (shrink m),
      shrink-Counters (suc k) m c.2,
    )

-- What is known of a row `r` after `n` accesses, `c` of them to `r`, in which the map was full
-- `rounds` times.
record Tracks (limit r n c : ℕ) (m : MeaMap) : Type 0 where
  rounds : ℕ
  ordered : Counters 0 m
  bounded : length m ≤ limit
  balance : total m + (rounds * limit + rounds) ≡ n
  below : value r m ≤ c
  above : c ≤ value r m + rounds

put-Tracks :
    (limit r x n c v : ℕ) (m : MeaMap)
    → length (put x v m) ≤ limit
    → v ≡ value x m + 1
    → Tracks limit r n c m
    → Tracks limit r (suc n) (if x == r then suc c else c) (put x v m)
put-Tracks limit r x n c v m size e t = record {
  rounds = t.rounds;
  ordered = put-Counters x v 0 m (omega arith) (omega arith) t.ordered;
  bounded = size;
  balance = omega (arith, total-put x v m 0 t.ordered);
  below = ground (arith, value-put r x v m);
  above = ground (arith, value-put r x v m);
}

shrink-Tracks :
    (limit r x n c : ℕ) (m : MeaMap)
    → find x m ≡ none
    → limit ≤ length m
    → Tracks limit r n c m
    → Tracks limit r (suc n) (if x == r then suc c else c) (shrink m)
shrink-Tracks limit r x n c m absent full t = record {
  rounds = suc t.rounds;
  ordered = shrink-Counters 0 m t.ordered;
  bounded = omega (arith, length-shrink-le m);
  balance = omega (arith, total-shrink 0 m t.ordered);
  below = ground (arith, value-shrink r 0 m t.ordered);
  above = ground (arith, value-shrink r 0 m t.ordered, value_of_none x m absent);
}

access_row-Tracks :
    (limit r x n c : ℕ) (m : MeaMap)
    → n + 1 < u32_size
    → Tracks limit r n c m
    → Tracks limit r (suc n) (if x == r then suc c else c) (access_row limit x m)
unfolding access_row
access_row-Tracks limit r x n c m small t = elim (Option-cases (find x m)) [
  | inr (v, found) ↦
      let old = value_of_find x m v found in
      let bound = value-le-total x m in
      let word : u32 (v + 1) ≡ v + 1 = u32_of_lt (v + 1) (omega (arith, t.balance)) in
      rw (found, access_row, word)
        (put-Tracks limit r x n c (v + 1) m
          (rw (length-put_found x (v + 1) v m 0 t.ordered found) t.bounded) (omega arith) t)
  | inl absent ↦ elim (Bool-cases (ltb (length m) limit)) [
    | inl room ↦
        rw (absent, access_row, room)
          (put-Tracks limit r x n c 1 m
            (omega (arith, length-put-le x 1 m, ltb→lt (length m) limit room))
            (omega (arith, value_of_none x m absent)) t)
    | inr full ↦
        rw (absent, access_row, full, decrement-shrink 0 m t.ordered (omega (arith, t.balance)))
          (shrink-Tracks limit r x n c m absent (ltb→le (length m) limit full) t)
  ]
]

Tracks-cast :
    {limit r n n' c c' : ℕ} {m : MeaMap}
    → n ≡ n'
    → c ≡ c'
    → Tracks limit r n c m
    → Tracks limit r n' c' m
Tracks-cast p q t = rw (← p, ← q) t

access_rows-Tracks :
    (limit r : ℕ) (xs : List ℕ) (n c : ℕ) (m : MeaMap)
    → n + length xs < u32_size
    → Tracks limit r n c m
    → Tracks limit r (n + length xs) (c + count r xs) (access_rows limit xs m)
unfolding access_rows count
access_rows-Tracks limit r [] n c m small t = simp add-zero t
access_rows-Tracks limit r (x ∷ xs) n c m small t =
    let step = access_row-Tracks limit r x n c m (omega arith) t in
    let rest =
      access_rows-Tracks limit r xs (suc n) (if x == r then suc c else c) (access_row limit x m)
        (omega arith) step in
    Tracks-cast (omega arith) (ground arith) rest

rows-Tracks :
    (limit r : ℕ) (xs : List ℕ)
    → length xs < u32_size
    → Tracks limit r (length xs) (count r xs) (access_rows limit xs [])
unfolding total value
rows-Tracks limit r xs small = Tracks-cast (omega arith) (omega arith) (
    access_rows-Tracks limit r xs 0 0 [] (omega arith) (record {
      rounds = 0;
      ordered = tt;
      bounded = omega arith;
      balance = omega arith;
      below = omega arith;
      above = omega arith;
    }))

-- From an empty map with `limit` counters, after fewer than 2^32 accesses: no counter exceeds the
-- number of accesses to its row, it falls short of that number by at most one (limit + 1)th of all
-- accesses, the keys stay in order with positive counters, and there are at most `limit` of them.
pub access_rows-value_bounds :
    (limit r : ℕ) (xs : List ℕ)
    → length xs < u32_size
    → let m = access_rows limit xs [] in
      (value r m ≤ count r xs)
      × ((limit + 1) * count r xs ≤ (limit + 1) * value r m + length xs)
      × Counters 0 m
      × (length m ≤ limit)
access_rows-value_bounds limit r xs small =
    let t = rows-Tracks limit r xs small in
    (t.below, omega (arith, mul-le-mul_left (limit + 1) t.above, t.balance), t.ordered, t.bounded)

-- Of fewer than 2^32 accesses, every row with more than one (limit + 1)th of them has a counter when
-- they end, which is above 0 and at most the number of accesses to the row.
pub access_rows-find_frequent :
    (limit r : ℕ) (xs : List ℕ)
    → length xs < u32_size
    → length xs < (limit + 1) * count r xs
    → (c : ℕ) × (find r (access_rows limit xs []) ≡ some c) × (0 < c) × (c ≤ count r xs)
access_rows-find_frequent limit r xs small frequent =
    let m = access_rows limit xs [] in
    let (below, above, _, _) = access_rows-value_bounds limit r xs small in
    let pos : 0 < value r m = grind arith in (value r m, find_of_value r m pos, pos, below)
