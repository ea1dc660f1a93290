-- ===== src/Request/Received.antt =====
-- A request before the cache is looked up, and what the DRAM that stays the same has in common.
use sniper_zip.Prelude.{ℕ, ◌+◌, ◌≡◌, refl, ap, false, u32}
use sniper_zip.Remapping.{get_logical_index}
use sniper_zip.CacheSet.{CacheSet, invalidate_content}
use sniper_zip.StackedDram.{
  Config, StackedDram, get_set_num, split_set_num, check_set_num, get_remap_set, check_set_disabled,
}
use sniper_zip.StackedDram.Latency.{Costs}
use sniper_zip.Controller.Kept.{Keeps}
use sniper_zip.Controller.Each.{check_remapping-IsChecked, check_remapping-IsIdle}
use sniper_zip.Request.{CacheCntlr, Packet, receive}

remap_set_of :
    (c : Config) (x : ℕ) (d : StackedDram)
    → let i = split_set_num c d x in
      let l = get_logical_index i.vault i.bank i.row d.manager in
      (get_remap_set c x d).1 ≡ get_set_num c d (record { vault = l.0; bank = l.1; row = l.2 })
unfolding get_remap_set check_set_num split_set_num get_set_num
remap_set_of c x d = refl

-- The set that a set is remapped to, and whether it is disabled.
pub Keeps-remap_set :
    (c : Config) (x : ℕ) (d d' : StackedDram)
    → Keeps d d'
    → (get_remap_set c x d').1 ≡ (get_remap_set c x d).1
Keeps-remap_set c x d d' h =
    let i = split_set_num c d x in
    rw (remap_set_of c x d', remap_set_of c x d, h.split c x, h.logical i.vault i.bank i.row)
      (h.set_num c _)

pub Keeps-disabled :
    (c : Config) (x : ℕ) (d d' : StackedDram)
    → Keeps d d'
    → check_set_disabled c x d' ≡ check_set_disabled c x d
unfolding check_set_disabled
Keeps-disabled c x d d' h =
    let i = split_set_num c d x in rw (h.split c x) (h.disabled i.vault i.bank i.row)

-- The state in which the cache is looked up.
pub record IsReceived {κ} (P : CacheSet → Type κ) (m m' : CacheCntlr) : Type κ where
  pub good : (x : ℕ) → P (m'.cntlr.sets x)
  pub accesses : m'.cntlr.cache_access ≡ u32 (m.cntlr.cache_access + 1)
  pub page_misses : m'.cntlr.page_misses ≡ m.cntlr.page_misses
  pub block_misses : m'.cntlr.block_misses ≡ m.cntlr.block_misses
  pub remapped : m'.cntlr.dram.remapped ≡ false
  pub set_num : m'.set_num ≡ m.set_num
  pub pagesize : m'.pagesize ≡ m.pagesize
  pub page_disabled : m'.page_disabled ≡ m.page_disabled

pub receive-IsReceived {κ} :
    (P : CacheSet → Type κ) (c : Config) (costs : Costs) (q : Packet) (m : CacheCntlr)
    → ((s : CacheSet) → P s → P (invalidate_content s).0)
    → ((x : ℕ) → P (m.cntlr.sets x))
    → IsReceived P m (receive c costs q m).0
unfolding receive
receive-IsReceived P c costs q m empties h =
    let done = check_remapping-IsChecked P m.cntlr empties c costs q.time h in
    record {
      good = done.good;
      accesses = ap (λ (n : ℕ). u32 (n + 1)) done.counts.accesses;
      page_misses = done.counts.pages;
      block_misses = done.counts.blocks;
      remapped = done.remapped;
      set_num = refl;
      pagesize = refl;
      page_disabled = refl;
    }

pub record IsQuiet (q : Packet) (m m' : CacheCntlr) : Type 0 where
  pub sets : m'.cntlr.sets ≡ m.cntlr.sets
  pub dram : m'.cntlr.dram ≡ m.cntlr.dram

-- Where no bank has moved, the sets and the DRAM stay as they are.
pub receive-IsQuiet :
    (c : Config) (costs : Costs) (q : Packet) (m : CacheCntlr)
    → m.cntlr.dram.remapped ≡ false
    → IsQuiet q m (receive c costs q m).0
unfolding receive
receive-IsQuiet c costs q m h =
    let done = check_remapping-IsIdle c costs q.time m.cntlr h in
    record { sets = done.0.sets; dram = done.0.dram }
