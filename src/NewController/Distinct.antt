-- ===== src/NewController/Distinct.antt =====
-- No page stands in two ways of a set, over the second manager either.
use sniper_zip.Prelude.{
  ℕ, ◌^◌, ◌<◌, ◌≡◌, ◌≢◌, refl, sym, ◌∙◌, ◌==◌, if◌then◌else◌, ◌&&◌, not, if_rule, List, [], ◌∷◌,
  update, for_range_inv, arith,
}
use sniper_zip.PageInfo.{Undefined, new_page}
use sniper_zip.CacheSet.{new_set, access_attempt, get_dirty_blocks, get_valid_blocks}
use sniper_zip.CacheSet.Lookup.{access_attempt-tag, HasTag-access_attempt}
use sniper_zip.StackedDram.{Config}
use sniper_zip.PageTable.{Split}
use sniper_zip.Controller.Each.{update-each}
use sniper_zip.Request.{Packet, evict_page, mem_op}
use sniper_zip.Request.Distinct.{
  IsDistinct, invalidate_content-IsDistinct, same_tags-IsDistinct, put_tag-IsDistinct, evicted_tag,
}
use sniper_zip.NewDram.{
  NewDram, NewCosts, bank_bit, row_bit, get_set_num, check_row_valid, check_row_migrated,
  get_remap_set, check_set_disabled,
}
use sniper_zip.NewController.{
  NewCntlr, CheckState, new_cntlr, invalidate_set, migrate_set, change_set, check_row, check_bank,
  check_vault, sweep, finish_check, before_roi, check_moved, check_remapping,
}
use sniper_zip.NewController.Requests.{
  Serving, touch, page_miss, block_miss, after_lookup, look_up, count_served, finish_request,
  use_cache, pass_by, receive, process_request, split_address, Event, requests, heats, remaps,
  clears, happen, happen_all,
}

abbrev AllDistinct : NewCntlr → Type 0
AllDistinct k = (x : ℕ) → IsDistinct (k.sets x)

check_row-AllDistinct :
    (c : Config) (costs : NewCosts) (t v b r : ℕ) (s : CheckState)
    → AllDistinct s.cntlr
    → AllDistinct (check_row c costs t v b r s).cntlr
unfolding check_row change_set invalidate_set migrate_set
check_row-AllDistinct c costs t v b r s h =
    let k = s.cntlr in
    let i = get_set_num c k.dram (record { vault = v; bank = b; row = r }) in
    let given = invalidate_set c costs t i (get_dirty_blocks (k.sets i)) s in
    let moved = migrate_set c costs t i (get_valid_blocks (k.sets i)) s in
    let changed : AllDistinct (change_set c costs t v b r s).cntlr =
      if_rule (λ (y : CheckState). AllDistinct y.cntlr) (not (check_row_valid v b r k.dram)) given
        (if check_row_migrated v b r k.dram then moved else s)
        (λ e. update-each IsDistinct k.sets i _ h (invalidate_content-IsDistinct (k.sets i) (h i)))
        (λ e.
          if_rule (λ (y : CheckState). AllDistinct y.cntlr) (check_row_migrated v b r k.dram) moved
            s (λ f. h) (λ f. h)) in
    if_rule (λ (y : CheckState). AllDistinct y.cntlr)
      (check_row_valid v b r k.dram && not (check_row_migrated v b r k.dram)) s _ (λ e. h)
      (λ e. changed)

sweep-AllDistinct :
    (c : Config) (costs : NewCosts) (t : ℕ) (k : NewCntlr)
    → AllDistinct k
    → AllDistinct (sweep c costs t k).cntlr
unfolding sweep check_vault check_bank
sweep-AllDistinct c costs t k h =
    let m = 2 ^ bank_bit c k.dram in
    let n = 2 ^ row_bit c k.dram in
    for_range_inv (λ _ (s : CheckState). AllDistinct s.cntlr) (check_vault c costs t m n)
      k.vault_num 0 k.vault_num _
      (λ v s lo hi g.
        for_range_inv (λ _ (y : CheckState). AllDistinct y.cntlr) (check_bank c costs t n v) m 0 m s
          (λ b y lo' hi' g'.
            for_range_inv (λ _ (z : CheckState). AllDistinct z.cntlr) (check_row c costs t v b) n 0
              n y (λ r z lo'' hi'' g''. check_row-AllDistinct c costs t v b r z g'') (omega arith)
              g')
          (omega arith) g)
      (omega arith) h

check_moved-AllDistinct :
    (c : Config) (costs : NewCosts) (t : ℕ) (k : NewCntlr)
    → AllDistinct k
    → AllDistinct (check_moved c costs t k).0
unfolding check_moved finish_check
check_moved-AllDistinct c costs t k h =
    if_rule (λ (r : NewCntlr × ℕ). AllDistinct r.0) k.dram.remapped _ (k, 0)
      (λ e. sweep-AllDistinct c costs t k h) (λ e. h)

receive-AllDistinct :
    (c : Config) (costs : NewCosts) (q : Packet) (k : NewCntlr)
    → AllDistinct k
    → AllDistinct (receive c costs q k).0
unfolding receive check_remapping
receive-AllDistinct c costs q k h =
    let k1 : NewCntlr = record k {
      pages = (split_address c.floor_log2 k.set_num k.pagesize q.address k.pages).0;
    } in
    if_rule (λ (y : NewCntlr). AllDistinct (check_moved c costs q.time y).0) k1.dram.enter_roi k1
      (before_roi k1) (λ e. check_moved-AllDistinct c costs q.time k1 h)
      (λ e. check_moved-AllDistinct c costs q.time (before_roi k1) h)

-- The set `x` was looked up for a tag that no way of it has: it takes the page in.
page_miss-AllDistinct :
    (costs : NewCosts) (x tag block fp : ℕ) (w : Serving)
    → AllDistinct w.machine
    → ((j : ℕ) → j < (w.machine.sets x).associativity → ((w.machine.sets x).pages j).tag ≢ tag)
    → AllDistinct (page_miss costs x tag block fp w).machine
unfolding page_miss
page_miss-AllDistinct costs x tag block fp w h new =
    let set = w.machine.sets x in
    let (i, out) = evicted_tag tag fp set in
    update-each IsDistinct w.machine.sets x _ h
      (put_tag-IsDistinct i tag set (evict_page tag fp set).0 out new (h x))

-- After the lookup no way has the tag if it gave 0, and the sets are apart.
record IsLooked (x tag hit : ℕ) (w : Serving) : Type 0 where
  apart : AllDistinct w.machine
  new :
      hit ≡ 0
      → (j : ℕ) → j < (w.machine.sets x).associativity
      → ((w.machine.sets x).pages j).tag ≢ tag

after_lookup-AllDistinct :
    (c : Config) (costs : NewCosts) (t x : ℕ) (s : Split) (block fp hit : ℕ) (w : Serving)
    → IsLooked x s.page_tag hit w
    → AllDistinct (after_lookup c costs t x s block fp hit w).machine
unfolding after_lookup touch block_miss
after_lookup-AllDistinct c costs t x s block fp hit w h =
    if_rule (λ (y : Serving). AllDistinct y.machine) (hit == 0) _ _
      (λ e. page_miss-AllDistinct costs x s.page_tag block fp w h.apart (h.new (ground arith)))
      (λ e.
        if_rule (λ (y : Serving). AllDistinct y.machine) (hit == 1) _ w (λ f. h.apart)
          (λ f. h.apart))

look_up-IsLooked :
    (c : Config) (costs : NewCosts) (u : Undefined) (q : Packet) (s : Split) (x : ℕ) (k : NewCntlr)
    → AllDistinct k
    → IsLooked x s.page_tag (look_up c costs u q s x k).1 (look_up c costs u q s x k).0
unfolding look_up touch
look_up-IsLooked c costs u q s x k h =
    let set = k.sets x in
    let op = mem_op q.access_type in
    let r = access_attempt u op s.page_tag s.page_offset set in
    let tags = λ (j : ℕ). access_attempt-tag u op s.page_tag s.page_offset j set in
    let here : update k.sets x r.0 x ≡ r.0 = ground arith in
    record {
      apart = update-each IsDistinct k.sets x r.0 h (same_tags-IsDistinct set r.0 tags (h x));
      new = λ e j. rw here (λ p same.
          HasTag-access_attempt u op s.page_tag s.page_offset set
            (record { way = j; inside = rw (← (tags j).1) p; same = sym (tags j).0 ∙ same }) e);
    }

process_request-AllDistinct :
    (c : Config) (costs : NewCosts) (u : Undefined) (q : Packet) (k : NewCntlr)
    → AllDistinct k
    → AllDistinct (process_request c costs u q k).0
unfolding process_request pass_by use_cache finish_request touch count_served
process_request-AllDistinct c costs u q k h =
    let s = (split_address c.floor_log2 k.set_num k.pagesize q.address k.pages).1 in
    let r = receive c costs q k in
    let good = receive-AllDistinct c costs q k h in
    if_rule (λ (y : NewCntlr × ℕ). AllDistinct y.0) (check_set_disabled c s.set_n r.0.dram)
      (pass_by costs r.1 r.0) (use_cache c costs u q s r.1 r.0) (λ e. good)
      (λ e.
        let g = get_remap_set c s.set_n r.0.dram in
        after_lookup-AllDistinct c costs q.time g.1 s _ _ _ _
          (look_up-IsLooked c costs u q s g.1 (record r.0 { dram = g.0 }) good))

happen_all-AllDistinct :
    (c : Config) (costs : NewCosts) (u : Undefined) (es : List Event) (k : NewCntlr)
    → AllDistinct k
    → AllDistinct (happen_all c costs u es k)
unfolding happen_all happen
happen_all-AllDistinct c costs u [] k h = h
happen_all-AllDistinct c costs u (requests q ∷ rest) k h =
    happen_all-AllDistinct c costs u rest _ (process_request-AllDistinct c costs u q k h)
happen_all-AllDistinct c costs u (heats v b t ∷ rest) k h =
    happen_all-AllDistinct c costs u rest _ h
happen_all-AllDistinct c costs u (remaps ∷ rest) k h = happen_all-AllDistinct c costs u rest _ h
happen_all-AllDistinct c costs u (clears ∷ rest) k h = happen_all-AllDistinct c costs u rest _ h

-- In a cache over the second manager built by the constructor, after any requests and temperatures in
-- any order: two ways of a set that are not empty have different tags.
pub happen_all-apart :
    (c : Config) (costs : NewCosts) (u : Undefined) (es : List Event)
    (set_num associativity blocksize pagesize : ℕ) (garbage : ℕ × ℕ × ℕ) (dram : NewDram) (x : ℕ)
    → IsDistinct (
        (happen_all c costs u es
            (new_cntlr set_num associativity blocksize pagesize garbage dram)).sets
          x)
unfolding new_cntlr new_set new_page IsDistinct
happen_all-apart c costs u es set_num associativity blocksize pagesize garbage dram x =
    happen_all-AllDistinct c costs u es
      (new_cntlr set_num associativity blocksize pagesize garbage dram)
      (λ y i j p q same full. absurd (full refl)) x
