-- ===== src/Controller/Each.antt =====
-- What `checkRemapping` does to every set, to the counters, and where no bank has moved.
use sniper_zip.Prelude.{
  ℕ, ◌^◌, ◌≡◌, refl, ◌==◌, false, not, if◌then◌else◌, ◌&&◌, update, for_range_inv, if_rule, arith,
}
use sniper_zip.CacheSet.{CacheSet, invalidate_content, get_dirty_blocks, get_valid_blocks}
use sniper_zip.StackedDram.{check_row_valid, check_row_migrated, bank_bit, row_bit, Config}
use sniper_zip.StackedDram.Latency.{Costs}
use sniper_zip.Controller.{
  Controller, CheckState, invalidate_set, migrate_set, set_of, change_set, check_row, check_bank,
  check_vault, sweep, before_roi, finish_check, check_moved, check_remapping,
}

-- A change of one set.
pub update-each {κ} :
    (P : CacheSet → Type κ) (sets : ℕ → CacheSet) (i : ℕ) (s : CacheSet)
    → ((x : ℕ) → P (sets x))
    → P s
    → (x : ℕ) → P (update sets i s x)
update-each P sets i s h k x = if_rule P (x == i) s (sets x) (λ e. k) (λ e. h x)

-- The counters of accesses and misses.
pub record CountsSame (k k' : Controller) : Type 0 where
  pub accesses : k'.cache_access ≡ k.cache_access
  pub pages : k'.page_misses ≡ k.page_misses
  pub blocks : k'.block_misses ≡ k.block_misses

-- After the loops or without them: the property, the counters, and no bank is moved.
pub record IsChecked {κ} (P : CacheSet → Type κ) (k k' : Controller) : Type κ where
  pub good : (x : ℕ) → P (k'.sets x)
  pub counts : CountsSame k k'
  pub remapped : k'.dram.remapped ≡ false

module _ {κ} (P : CacheSet → Type κ) (k : Controller)
    (empties : (s : CacheSet) → P s → P (invalidate_content s).0) where
  -- Every set has the property, and the counters are those of `k`.
  record IsGood (s : CheckState) : Type κ where
    good : (x : ℕ) → P (s.cntlr.sets x)
    counts : CountsSame k s.cntlr

  change_set-IsGood :
      (c : Config) (costs : Costs) (t v b r : ℕ) (s : CheckState)
      → IsGood s
      → IsGood (change_set c costs t v b r s)
  unfolding change_set invalidate_set migrate_set
  change_set-IsGood c costs t v b r s h =
      let x = set_of c v b r s in
      let y = s.cntlr.sets x in
      let given = invalidate_set c costs t v x (get_dirty_blocks y) s in
      let moved = migrate_set c costs t v x (get_valid_blocks y) s in
      if_rule IsGood (not (check_row_valid v b r s.cntlr.dram)) given
        (if check_row_migrated v b r s.cntlr.dram then moved else s)
        (λ e. record {
          good = update-each P s.cntlr.sets x _ h.good (empties y (h.good x));
          counts = record {
            accesses = h.counts.accesses;
            pages = h.counts.pages;
            blocks = h.counts.blocks;
          };
        })
        (λ e.
          if_rule IsGood (check_row_migrated v b r s.cntlr.dram) moved s
            (λ f. record {
              good = h.good;
              counts = record {
                accesses = h.counts.accesses;
                pages = h.counts.pages;
                blocks = h.counts.blocks;
              };
            })
            (λ f. h))

  check_row-IsGood :
      (c : Config) (costs : Costs) (t v b r : ℕ) (s : CheckState)
      → IsGood s
      → IsGood (check_row c costs t v b r s)
  unfolding check_row
  check_row-IsGood c costs t v b r s h =
      if_rule IsGood
        (check_row_valid v b r s.cntlr.dram && not (check_row_migrated v b r s.cntlr.dram)) s _
        (λ e. h)
        (λ e.
          let done = change_set-IsGood c costs t v b r s h in
          record { good = done.good; counts = done.counts })

  sweep-IsGood :
      (c : Config) (costs : Costs) (t : ℕ) → ((x : ℕ) → P (k.sets x)) → IsGood (sweep c costs t k)
  unfolding sweep check_vault check_bank
  sweep-IsGood c costs t h =
      let m = 2 ^ bank_bit c k.dram in
      let n = 2 ^ row_bit c k.dram in
      for_range_inv (λ _ s. IsGood s) (check_vault c costs t m n) k.vault_num 0 k.vault_num _
        (λ v s lo hi g.
          for_range_inv (λ _ y. IsGood y) (check_bank c costs t n v) m 0 m s
            (λ b y lo' hi' g'.
              for_range_inv (λ _ z. IsGood z) (check_row c costs t v b) n 0 n y
                (λ r z lo'' hi'' g''. check_row-IsGood c costs t v b r z g'') (omega arith) g')
            (omega arith) g)
        (omega arith)
        (record { good = h; counts = record { accesses = refl; pages = refl; blocks = refl } })

  check_moved-IsChecked :
      (c : Config) (costs : Costs) (t : ℕ)
      → ((x : ℕ) → P (k.sets x))
      → IsChecked P k (check_moved c costs t k).0
  unfolding check_moved finish_check
  check_moved-IsChecked c costs t h =
      if_rule (λ (q : Controller × ℕ). IsChecked P k q.0) k.dram.remapped _ (k, 0)
        (λ e.
          let done = sweep-IsGood c costs t h in
          record {
            good = done.good;
            counts = record {
              accesses = done.counts.accesses;
              pages = done.counts.pages;
              blocks = done.counts.blocks;
            };
            remapped = refl;
          })
        (λ e. record {
          good = h;
          counts = record { accesses = refl; pages = refl; blocks = refl };
          remapped = e;
        })

pub check_remapping-IsChecked {κ} :
    (P : CacheSet → Type κ) (k : Controller)
    → ((s : CacheSet) → P s → P (invalidate_content s).0)
    → (c : Config) (costs : Costs) (t : ℕ) → ((x : ℕ) → P (k.sets x))
    → IsChecked P k (check_remapping c costs t k).0
unfolding check_remapping
check_remapping-IsChecked P k empties c costs t h =
    if_rule (λ (y : Controller). IsChecked P k (check_moved c costs t y).0) k.dram.enter_roi k
      (before_roi k) (λ e. check_moved-IsChecked P k empties c costs t h)
      (λ e.
        let done = check_moved-IsChecked P (before_roi k) empties c costs t h in
        record {
          good = done.good;
          counts = record {
            accesses = done.counts.accesses;
            pages = done.counts.pages;
            blocks = done.counts.blocks;
          };
          remapped = done.remapped;
        })

-- The same sets and DRAM.
pub record IsIdle (k k' : Controller) : Type 0 where
  pub sets : k'.sets ≡ k.sets
  pub dram : k'.dram ≡ k.dram

check_moved-IsIdle :
    (c : Config) (costs : Costs) (t : ℕ) (k : Controller)
    → k.dram.remapped ≡ false
    → ((check_moved c costs t k).0 ≡ k) × ((check_moved c costs t k).1 ≡ 0)
unfolding check_moved
check_moved-IsIdle c costs t k h = rw h (refl, refl)

-- Where no bank has moved nothing is given up, and it takes no time.
pub check_remapping-IsIdle :
    (c : Config) (costs : Costs) (t : ℕ) (k : Controller)
    → k.dram.remapped ≡ false
    → IsIdle k (check_remapping c costs t k).0 × ((check_remapping c costs t k).1 ≡ 0)
unfolding check_remapping
check_remapping-IsIdle c costs t k h =
    if_rule
      (λ (y : Controller). IsIdle k (check_moved c costs t y).0 × ((check_moved c costs t y).1 ≡ 0))
      k.dram.enter_roi k (before_roi k)
      (λ e.
        let done = check_moved-IsIdle c costs t k h in
        (rw done.0 (record { sets = refl; dram = refl }), done.1))
      (λ e.
        let done = check_moved-IsIdle c costs t (before_roi k) h in
        (rw done.0 (record { sets = refl; dram = refl }), done.1))
