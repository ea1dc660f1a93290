-- ===== src/Controller/Emptying.antt =====
-- One row in `checkRemapping`: what it gives up, and what it leaves.
use sniper_zip.Prelude.{
  ℕ, ◌+◌, ◌<◌, ◌≤◌, ◌≡◌, ◌≢◌, refl, false, not, ◌==◌, if◌then◌else◌, u32, for_range, for_range_inv,
  if_rule, ==_refl, ◌*◌, arith, zero, suc, Bool-cases, inl, inr,
}
use sniper_zip.DramVault.{read, write}
use sniper_zip.PageInfo.{PageInfo, no_tag, invalidate}
use sniper_zip.CacheSet.{
  CacheSet, invalidate_way, invalidate_content, get_dirty_blocks, get_valid_blocks,
}
use sniper_zip.StackedDram.{Config, StackedDram, check_row_valid, check_row_migrated}
use sniper_zip.StackedDram.Latency.{Costs}
use sniper_zip.Controller.{
  CheckState, handle_dram_access, invalidate_set, migrate_set, set_of, change_set,
}
use sniper_zip.Controller.Kept.{Keeps, Keeps-trans, handle_dram_access-Keeps}

-- A set that holds nothing that would have to be written back.
unfoldable pub IsEmpty : CacheSet → Type 0
IsEmpty s = (j : ℕ) → j < s.associativity → ((s.pages j).dbits_0 ≡ 0) × ((s.pages j).tag ≡ no_tag)

record EmptiedTo (n i : ℕ) (r : CacheSet × ℕ) : Type 0 where
  size : r.0.associativity ≡ n
  empty : (j : ℕ) → j < i → ((r.0.pages j).dbits_0 ≡ 0) × ((r.0.pages j).tag ≡ no_tag)

EmptiedTo-invalidate_way :
    (n i : ℕ) (r : CacheSet × ℕ) → EmptiedTo n i r → EmptiedTo n (i + 1) (invalidate_way i r)
unfolding invalidate_way invalidate
EmptiedTo-invalidate_way n i (s, wb) h = record {
  size = h.size;
  empty = λ j k.
      if_rule (λ (p : PageInfo). (p.dbits_0 ≡ 0) × (p.tag ≡ no_tag)) (j == i)
        (invalidate (s.pages i)).0 (s.pages j) (λ e. (refl, refl))
        (λ e. let other : j ≢ i = ground arith in h.empty j (omega arith));
}

pub invalidate_content-IsEmpty : (s : CacheSet) → IsEmpty (invalidate_content s).0
unfolding IsEmpty invalidate_content
invalidate_content-IsEmpty s j k =
    let done =
      for_range_inv (EmptiedTo s.associativity) invalidate_way s.associativity 0 s.associativity
        (s, 0) (λ i r lo hi h. EmptiedTo-invalidate_way s.associativity i r h) (omega arith)
        (record { size = refl; empty = λ i l. absurd (omega arith) }) in
    done.empty j (omega (arith, done.size, k))

-- A loop that reaches round `k`, whose body there makes `P`, ends with `P` if the others keep it.
pub for_range_hit {ℓ κ} :
    {S : Type ℓ} (Inv P : S → Type κ) (f : ℕ → S → S) (rounds from k : ℕ) (x : S)
    → ((j : ℕ) (y : S) → Inv y → Inv (f j y))
    → ((j : ℕ) (y : S) → Inv y → P y → P (f j y))
    → ((y : S) → Inv y → P (f k y))
    → from ≤ k
    → k < from + rounds
    → Inv x
    → P (for_range rounds from f x)
unfolding for_range
for_range_hit Inv P f zero from k x keep hold make lo hi h = absurd (omega arith)
for_range_hit Inv P f (suc rounds) from k x keep hold make lo hi h = elim (Bool-cases (from == k)) [
  | inr e ↦
      let later : from + 1 ≤ k = ground arith in
      for_range_hit Inv P f rounds (from + 1) k (f from x) keep hold make later (omega arith)
        (keep from x h)
  | inl e ↦
      let same : from ≡ k = ground arith in
      let both =
        for_range_inv (λ (i : ℕ) (y : _). Inv y × P y) f rounds (from + 1) (from + 1 + rounds)
          (f from x) (λ j y below above (a, b). (keep j y a, hold j y a b)) refl
          (keep from x h, rw same (make x h)) in
      both.1
]

-- The state of the loops, from the controller `k` on.
abbrev pub Inv : StackedDram → CheckState → Type 0
Inv d s = Keeps d s.cntlr.dram

abbrev pub Gone : ℕ → CheckState → Type 0
Gone x s = IsEmpty (s.cntlr.sets x)

invalidate_set-Inv :
    (c : Config) (costs : Costs) (t v x wb : ℕ) (d : StackedDram) (s : CheckState)
    → Inv d s
    → Inv d (invalidate_set c costs t v x wb s)
unfolding invalidate_set
invalidate_set-Inv c costs t v x wb d s h =
    Keeps-trans d s.cntlr.dram _ h (handle_dram_access-Keeps c costs t _ x read s.cntlr.dram)

migrate_set-Inv :
    (c : Config) (costs : Costs) (t v x n : ℕ) (d : StackedDram) (s : CheckState)
    → Inv d s
    → Inv d (migrate_set c costs t v x n s)
unfolding migrate_set
migrate_set-Inv c costs t v x n d s h =
    let r = (handle_dram_access c costs t (u32 (n * 64)) x read s.cntlr.dram).0 in
    Keeps-trans d r _
      (Keeps-trans d s.cntlr.dram r h
        (handle_dram_access-Keeps c costs t (u32 (n * 64)) x read s.cntlr.dram))
      (handle_dram_access-Keeps c costs t (u32 (n * 64)) x write r)

pub change_set-Inv :
    (c : Config) (costs : Costs) (t v b r : ℕ) (d : StackedDram) (s : CheckState)
    → Inv d s
    → Inv d (change_set c costs t v b r s)
unfolding change_set
change_set-Inv c costs t v b r d s h =
    let k = s.cntlr in
    let x = set_of c v b r s in
    let given = invalidate_set c costs t v x (get_dirty_blocks (k.sets x)) s in
    let moved = migrate_set c costs t v x (get_valid_blocks (k.sets x)) s in
    if_rule (Inv d) (not (check_row_valid v b r k.dram)) given
      (if check_row_migrated v b r k.dram then moved else s)
      (λ e. invalidate_set-Inv c costs t v x _ d s h)
      (λ e.
        if_rule (Inv d) (check_row_migrated v b r k.dram) moved s
          (λ f. migrate_set-Inv c costs t v x _ d s h) (λ f. h))

invalidate_set-Gone :
    (c : Config) (costs : Costs) (t v x wb y : ℕ) (s : CheckState)
    → Gone y s
    → Gone y (invalidate_set c costs t v x wb s)
unfolding invalidate_set
invalidate_set-Gone c costs t v x wb y s h =
    if_rule IsEmpty (y == x) (invalidate_content (s.cntlr.sets x)).0 (s.cntlr.sets y)
      (λ e. invalidate_content-IsEmpty (s.cntlr.sets x)) (λ e. h)

pub change_set-Gone :
    (c : Config) (costs : Costs) (t v b r y : ℕ) (s : CheckState)
    → Gone y s
    → Gone y (change_set c costs t v b r s)
unfolding change_set migrate_set
change_set-Gone c costs t v b r y s h =
    let k = s.cntlr in
    let x = set_of c v b r s in
    let given = invalidate_set c costs t v x (get_dirty_blocks (k.sets x)) s in
    let moved = migrate_set c costs t v x (get_valid_blocks (k.sets x)) s in
    if_rule (Gone y) (not (check_row_valid v b r k.dram)) given
      (if check_row_migrated v b r k.dram then moved else s)
      (λ e. invalidate_set-Gone c costs t v x _ y s h)
      (λ e. if_rule (Gone y) (check_row_migrated v b r k.dram) moved s (λ f. h) (λ f. h))

-- The set of an invalid row is given up.
pub change_set-here :
    (c : Config) (costs : Costs) (t v b r : ℕ) (s : CheckState)
    → check_row_valid v b r s.cntlr.dram ≡ false
    → Gone (set_of c v b r s) (change_set c costs t v b r s)
unfolding change_set invalidate_set
change_set-here c costs t v b r s e =
    let x = set_of c v b r s in rw (e, ==_refl x) (invalidate_content-IsEmpty (s.cntlr.sets x))
