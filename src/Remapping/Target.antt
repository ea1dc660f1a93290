-- ===== src/Remapping/Target.antt =====
-- Which bank the search for a cool bank finds.
use sniper_zip.Prelude.{
  ℕ, ◌+◌, ◌-◌, ◌*◌, ◌/◌, ◌<◌, ◌≤◌, ◌≡◌, ◌≢◌, ◌⊎◌, inl, inr, refl, Bool, true, false, ◌||◌, ◌&&◌,
  ltb, arith, ap, Bool-cases, for_range, for_range_inv, u32_of_lt,
}
use native.Mathlib.Decide.{ℕ_discrete}
use native.Mathlib.Nat.{div-add-mod'}
use sniper_zip.Remapping.{RemappingManager, is_below}
use sniper_zip.Remapping.Mechanism.{Search, search_step, search_begin, search_end, find_target}

abbrev pub temp : RemappingManager → ℕ → ℕ
temp m j = (m.phy_banks j).temperature

-- A bank that the search may take: free, enabled, below the remap threshold and below 1000 degrees.
pub record IsCandidate (m : RemappingManager) (j : ℕ) : Type 0 where
  pub free : (m.bank_stat j).combined ≡ false
  pub enabled : (m.bank_stat j).disabled ≡ false
  pub cool : (m.phy_banks j).temperature < m.remap_thres * m.temp_unit
  pub sane : (m.phy_banks j).temperature < 1000 * m.temp_unit

-- The state of the search over the banks from `a` up to `e`.
record Found (m : RemappingManager) (b a e : ℕ) (f : Search) : Type 0 where
  origin :
      ((f.target ≡ b) × (f.min_temp ≡ 1000 * m.temp_unit))
      ⊎ ((a ≤ f.target) × (f.target < e) × IsCandidate m f.target × (f.min_temp ≡ temp m f.target))
  least : (j : ℕ) → a ≤ j → j < e → IsCandidate m j → f.min_temp ≤ temp m j
  first : (j : ℕ) → a ≤ j → j < e → IsCandidate m j → temp m j ≤ f.min_temp → f.target ≤ j

Found-limit :
    (m : RemappingManager) (b a e : ℕ) (f : Search)
    → Found m b a e f
    → f.min_temp ≤ 1000 * m.temp_unit
Found-limit m b a e f h = elim h.origin [
  | inl (t, z) ↦ omega arith
  | inr (lo, hi, c, z) ↦ omega (arith, c.sane)
]

-- The next bank is better than all before.
take-Found :
    (m : RemappingManager) (b a e : ℕ) (f : Search)
    → a ≤ e
    → IsCandidate m e
    → temp m e < f.min_temp
    → Found m b a e f
    → Found m b a (e + 1) (record { target = e; min_temp = temp m e })
take-Found m b a e f lo c better h = record {
  origin = inr (lo, omega arith, c, refl);
  least = λ j p q k. elim (ℕ_discrete j e) [
    | yes same ↦ rw same (omega arith)
    | no d ↦ omega (arith, h.least j p (omega arith) k)
  ];
  first = λ j p q k z. elim (ℕ_discrete j e) [
    | yes same ↦ omega arith
    | no d ↦ absurd (omega (arith, h.least j p (omega arith) k))
  ];
}

-- The next bank is no candidate, or no better.
skip-Found :
    (m : RemappingManager) (b a e : ℕ) (f : Search)
    → a ≤ e
    → (IsCandidate m e → f.min_temp ≤ temp m e)
    → Found m b a e f
    → Found m b a (e + 1) f
skip-Found m b a e f lo worse h = record {
  origin = elim h.origin [ inl o ↦ inl o | inr (p, q, c, z) ↦ inr (p, omega arith, c, z) ];
  least = λ j p q k. elim (ℕ_discrete j e) [
    | yes same ↦ rw same (worse (rw same at k))
    | no d ↦ h.least j p (omega arith) k
  ];
  first = λ j p q k z. elim (ℕ_discrete j e) [
    | yes same ↦ elim h.origin [
      | inl (t, y) ↦ absurd (omega (arith, k.sane, worse (rw same at k), ap (temp m) same))
      | inr (lo', hi', c, y) ↦ omega arith
    ]
    | no d ↦ h.first j p (omega arith) k z
  ];
}

search_step-Found :
    (m : RemappingManager) (b a e : ℕ) (f : Search)
    → (m.phy_banks e).logical_bank ≡ e
    → a ≤ e
    → Found m b a e f
    → Found m b a (e + 1) (search_step m e f)
unfolding search_step
search_step-Found m b a e f placed lo h = elim (Bool-cases taken) [
  | inl t ↦ rw (placed, t) (skip-Found m b a e f lo (λ c. absurd (busy t c.free c.enabled)) h)
  | inr t ↦ elim (Bool-cases better) [
    | inl p ↦
        rw (placed, t, p)
          (take-Found m b a e f lo
            (record {
              free = ground arith;
              enabled = ground arith;
              cool = ground arith;
              sane = ground (arith, Found-limit m b a e f h);
            })
            (ground arith) h)
    | inr p ↦ rw (placed, t, p) (skip-Found m b a e f lo (λ c. ground (arith, c.cool)) h)
  ]
]
  where
    taken : Bool
    taken = (m.bank_stat e).combined || (m.bank_stat e).disabled

    better : Bool
    better = is_below m (temp m e) m.remap_thres && ltb (temp m e) f.min_temp

    busy : taken ≡ true → (m.bank_stat e).combined ≡ false → (m.bank_stat e).disabled ≡ false → ⊥
    busy t x y = ground arith

ltb-window : (a e j : ℕ) → a ≤ j → (j < a + (e - a) → j < e) × (j < e → j < a + (e - a))
ltb-window a e j h = (λ p. omega arith, λ p. omega arith)

outcome :
    (m : RemappingManager) (b a e : ℕ) (f : Search)
    → ((j : ℕ) → a ≤ j → (j < a + (e - a) → j < e) × (j < e → j < a + (e - a)))
    → Found m b a (a + (e - a)) f
    → ((f.target ≡ b) × ((j : ℕ) → a ≤ j → j < e → ¬ IsCandidate m j))
      ⊎ ((a ≤ f.target)
          × (f.target < e)
          × IsCandidate m f.target
          × ((j : ℕ) → a ≤ j → j < e → IsCandidate m j → temp m f.target ≤ temp m j)
          × ((j : ℕ) → a ≤ j → j < e → IsCandidate m j → temp m j ≤ temp m f.target → f.target ≤ j))
outcome m b a e f w h = elim h.origin [
  | inl (t, z) ↦ inl (t, λ j p q k. omega (arith, h.least j p ((w j p).1 q) k, k.sane))
  | inr (lo, hi, c, z) ↦ inr (
    lo,
    (w f.target lo).0 hi,
    c,
    λ j p q k. omega (arith, h.least j p ((w j p).1 q) k),
    λ j p q k y. h.first j p ((w j p).1 q) k (omega arith),
  )
]

-- Where every physical bank holds the bank of its own number, the search over the banks from
-- `search_begin` up to `search_end` returns the bank itself if none of them is a candidate, and
-- otherwise the first of the coolest candidates.
pub find_target_lem :
    (b : ℕ) (m : RemappingManager)
    → ((j : ℕ) → (m.phy_banks j).logical_bank ≡ j)
    → let a = search_begin b m in
      let e = search_end b m in
      let t = find_target b m in
      ((t ≡ b) × ((j : ℕ) → a ≤ j → j < e → ¬ IsCandidate m j))
      ⊎ ((a ≤ t)
          × (t < e)
          × IsCandidate m t
          × ((j : ℕ) → a ≤ j → j < e → IsCandidate m j → temp m t ≤ temp m j)
          × ((j : ℕ) → a ≤ j → j < e → IsCandidate m j → temp m j ≤ temp m t → t ≤ j))
unfolding find_target
find_target_lem b m placed =
    let a = search_begin b m in
    let e = search_end b m in
    let f =
      for_range (e - a) a (search_step m) (record { target = b; min_temp = 1000 * m.temp_unit }) in
    outcome m b a e f (ltb-window a e) (
      for_range_inv (λ i. Found m b a i) (search_step m) (e - a) a (a + (e - a)) _
        (λ i g lo hi h. search_step-Found m b a i g (placed i) lo h) refl
        (record {
          origin = inl (refl, refl);
          least = λ j p q k. absurd (omega arith);
          first = λ j p q k z. absurd (omega arith);
        }))

search_begin_own :
    (b : ℕ) (m : RemappingManager) → m.inter_vault ≡ false → search_begin b m ≡ b / m.n_banks
unfolding search_begin
search_begin_own b m own = rw own refl

search_end_own :
    (b : ℕ) (m : RemappingManager)
    → m.inter_vault ≡ false
    → b / m.n_banks + m.n_banks < 4294967296
    → search_end b m ≡ b / m.n_banks + m.n_banks
unfolding search_end
search_end_own b m own small = rw own (u32_of_lt _ small)

-- A bank before the first of its number's vault is in another vault.
other_vault : (t v n : ℕ) → t < v * n → t / n ≢ v
other_vault t v n lt e = omega (arith, lt, div-add-mod' t n, ap (λ x. x * n) e)

-- Without `inter_vault`, where every physical bank holds the bank of its own number and the vault `v` of
-- the bank starts behind the first `n_banks` banks from `v` on: if one of those is a candidate, the
-- search returns a candidate among them, and that is in another vault than the bank; if none is, it
-- returns the bank itself.
pub find_target_other_vault :
    (b : ℕ) (m : RemappingManager)
    → ((j : ℕ) → (m.phy_banks j).logical_bank ≡ j)
    → m.inter_vault ≡ false
    → b / m.n_banks + m.n_banks ≤ b / m.n_banks * m.n_banks
    → b / m.n_banks + m.n_banks < 4294967296
    → let v = b / m.n_banks in
      let t = find_target b m in
      ((t ≡ b) × ((j : ℕ) → v ≤ j → j < v + m.n_banks → ¬ IsCandidate m j))
      ⊎ ((v ≤ t) × (t < v + m.n_banks) × IsCandidate m t × (t / m.n_banks ≢ v))
find_target_other_vault b m placed own far small =
    let begin = search_begin_own b m own in
    let last = search_end_own b m own small in
    elim (find_target_lem b m placed) [
      | inl h ↦ inl (h.0, λ j lo hi. h.1 j (omega (arith, begin)) (omega (arith, last)))
      | inr h ↦ inr (
        omega (arith, h.0, begin),
        omega (arith, h.1, last),
        h.2,
        other_vault _ _ _ (omega (arith, h.1, last)),
      )
    ]
