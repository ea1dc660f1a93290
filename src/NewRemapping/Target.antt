-- ===== src/NewRemapping/Target.antt =====
-- Which bank the search of the second manager finds.
use native.Mathlib.Nat.{div-add-mod', mod-lt}
use sniper_zip.Prelude.{
  ℕ, ◌+◌, ◌-◌, ◌*◌, ◌/◌, ◌<◌, ◌≤◌, ◌≡◌, ◌⊎◌, inl, inr, refl, ap, true, ◌&&◌, ltb, arith, Bool-cases,
  for_range_inv,
}
use native.Mathlib.Decide.{ℕ_discrete}
use sniper_zip.NewRemapping.{
  RemappingManager, Search, is_cool, search_step, search_begin, search_end, find_target,
}

abbrev pub temp : RemappingManager → ℕ → ℕ
temp m j = (m.phy_banks j).temperature

-- A bank that the search may take: not taken yet, below the high threshold and below 1000 degrees.
pub record IsFree (m : RemappingManager) (j : ℕ) : Type 0 where
  pub valid : (m.phy_banks j).valid ≡ true
  pub cool : temp m j < m.high_thres * m.temp_unit
  pub sane : temp m j < 1000 * m.temp_unit

-- The state of the search over the banks from `a` up to `e`.
pub record Found (m : RemappingManager) (b a e : ℕ) (f : Search) : Type 0 where
  pub origin :
      ((f.target ≡ b) × (f.min_temp ≡ 1000))
      ⊎ ((a ≤ f.target)
          × (f.target < e)
          × IsFree m f.target
          × (f.min_temp ≡ temp m f.target / m.temp_unit))
  pub sane : f.min_temp * m.temp_unit ≤ 1000 * m.temp_unit
  pub least : (j : ℕ) → a ≤ j → j < e → IsFree m j → f.min_temp * m.temp_unit ≤ temp m j

floor_le : (x n : ℕ) → x / n * n ≤ x
floor_le x n = omega (arith, div-add-mod' x n)

lt_floor : (x n : ℕ) → 0 < n → x < x / n * n + n
lt_floor x n h = omega (arith, div-add-mod' x n, mod-lt x h)

search_step-Found :
    (m : RemappingManager) (b a e : ℕ) (f : Search)
    → (m.phy_banks e).logical_bank ≡ e
    → a ≤ e
    → Found m b a e f
    → Found m b a (e + 1) (search_step m e f)
unfolding search_step
search_step-Found m b a e f placed lo h =
    let t = temp m e in
    elim (Bool-cases ((m.phy_banks e).valid && is_cool m t && ltb t (f.min_temp * m.temp_unit))) [
      | inl p ↦
          let better : t < f.min_temp * m.temp_unit = ground arith in
          let free : IsFree m e = record {
            valid = ground arith;
            cool = ground arith;
            sane = omega (arith, h.sane);
          } in
          let down = floor_le t m.temp_unit in
          rw (p, placed)
            (record {
              origin = inr (lo, omega arith, free, refl);
              sane = omega (arith, h.sane);
              least = λ j q r k. elim (ℕ_discrete j e) [
                | yes same ↦ rw same down
                | no d ↦ omega (arith, h.least j q (omega arith) k)
              ];
            })
      | inr p ↦ rw p (record {
        origin = elim h.origin [ inl o ↦ inl o | inr (q, r, c, z) ↦ inr (q, omega arith, c, z) ];
        sane = h.sane;
        least = λ j q r k. elim (ℕ_discrete j e) [
          | yes same ↦
              let here : IsFree m e = rw same at k in
              let worse : f.min_temp * m.temp_unit ≤ t = ground (arith, here.valid, here.cool) in
              rw same worse
          | no d ↦ h.least j q (omega arith) k
        ];
      })
    ]

pub find_target-Found :
    (m : RemappingManager) (b : ℕ)
    → ((j : ℕ) → (m.phy_banks j).logical_bank ≡ j)
    → let a = search_begin b m in Found m b a (a + (search_end b m - a)) (find_target b m)
unfolding find_target
find_target-Found m b placed =
    let a = search_begin b m in
    for_range_inv (Found m b a) (search_step m) (search_end b m - a) a _ _
      (λ i s lo hi h. search_step-Found m b a i s (placed i) lo h) refl
      (record {
        origin = inl (refl, refl);
        sane = omega arith;
        least = λ j p q k. absurd (omega arith);
      })

-- Where physical banks keep their own number, the search of the second manager returns the bank itself
-- and no bank of its range is free, below the high threshold and below 1000 degrees; or it returns
-- such a bank of the range, less than one degree above any other such bank.
pub find_target_within :
    (m : RemappingManager) (b : ℕ)
    → ((j : ℕ) → (m.phy_banks j).logical_bank ≡ j)
    → 0 < m.temp_unit
    → let a = search_begin b m in
      let e = search_end b m in
      let t = (find_target b m).target in
      ((t ≡ b) × ((j : ℕ) → a ≤ j → j < e → ¬ IsFree m j))
      ⊎ ((a ≤ t)
          × (t < e)
          × IsFree m t
          × ((j : ℕ) → a ≤ j → j < e → IsFree m j → temp m t < temp m j + m.temp_unit))
find_target_within m b placed unit =
    let a = search_begin b m in
    let e = search_end b m in
    let f = find_target b m in
    let h = find_target-Found m b placed in
    elim h.origin [
      | inl (t, z) ↦
          let all : f.min_temp * m.temp_unit ≡ 1000 * m.temp_unit =
            ap (λ (x : ℕ). x * m.temp_unit) z in
          inl (t, λ j p q k. absurd (omega (arith, all, k.sane, h.least j p (omega arith) k)))
      | inr (lo, hi, c, z) ↦
          let same : f.min_temp * m.temp_unit ≡ temp m f.target / m.temp_unit * m.temp_unit =
            ap (λ (x : ℕ). x * m.temp_unit) z in
          let up = lt_floor (temp m f.target) m.temp_unit unit in
          inr (lo, omega arith, c, λ j p q k. omega (arith, same, up, h.least j p (omega arith) k))
    ]
