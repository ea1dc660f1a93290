-- ===== src/Request/Kept.antt =====
-- What a request that uses the cache changes: one set, and the counters of misses.
use sniper_zip.Prelude.{
  ℕ, ◌+◌, ◌≡◌, refl, ap, ◌∙◌, Bool, false, ◌==◌, if◌then◌else◌, ltb, u32, if_rule, arith, inl, inr,
  update, Bool-cases,
}
use sniper_zip.DramVault
use sniper_zip.DramVault.{Access}
use sniper_zip.CacheSet.{CacheSet, access_attempt}
use sniper_zip.StackedDram.{
  Config, StackedDram, get_set_num, split_set_num, check_row_valid, check_row_disabled,
  get_remap_set,
}
use sniper_zip.StackedDram.Latency.{Costs}
use sniper_zip.PageTable.{Split}
use sniper_zip.Controller.{Controller}
use sniper_zip.Controller.Kept.{Keeps, Keeps-trans, handle_dram_access-Keeps, get_remap_set-Keeps}
use sniper_zip.Controller.Each.{CountsSame}
use sniper_zip.Request.{
  Outside, CacheCntlr, Packet, Serving, mem_op, touch, evict_page, page_miss, block_miss,
  after_lookup, count_dram, count_served, look_up, finish_request, use_cache, remap_cost,
}

-- The sets, the counters of accesses and misses, and what the DRAM keeps.
pub record Stays (m m' : CacheCntlr) : Type 0 where
  pub sets : (x : ℕ) → m'.cntlr.sets x ≡ m.cntlr.sets x
  pub counts : CountsSame m.cntlr m'.cntlr
  pub pages : m'.pages ≡ m.pages
  pub set_num : m'.set_num ≡ m.set_num
  pub pagesize : m'.pagesize ≡ m.pagesize
  pub dram : Keeps m.cntlr.dram m'.cntlr.dram

CountsSame-trans : (a b c : Controller) → CountsSame a b → CountsSame b c → CountsSame a c
CountsSame-trans a b c h k = record {
  accesses = k.accesses ∙ h.accesses;
  pages = k.pages ∙ h.pages;
  blocks = k.blocks ∙ h.blocks;
}

Stays-trans : (a b c : CacheCntlr) → Stays a b → Stays b c → Stays a c
Stays-trans a b c h k = record {
  sets = λ x. k.sets x ∙ h.sets x;
  counts = CountsSame-trans a.cntlr b.cntlr c.cntlr h.counts k.counts;
  pages = k.pages ∙ h.pages;
  set_num = k.set_num ∙ h.set_num;
  pagesize = k.pagesize ∙ h.pagesize;
  dram = Keeps-trans a.cntlr.dram b.cntlr.dram c.cntlr.dram h.dram k.dram;
}

touch-Stays :
    (c : Config) (costs : Costs) (t x : ℕ) (a : Access) (w : Serving)
    → Stays w.machine (touch c costs t x a w).machine
unfolding touch
touch-Stays c costs t x a w = record {
  sets = λ y. refl;
  counts = record { accesses = refl; pages = refl; blocks = refl };
  pages = refl;
  set_num = refl;
  pagesize = refl;
  dram = handle_dram_access-Keeps c costs t 64 x a w.machine.cntlr.dram;
}

count_dram-Keeps : (a : Access) (missed : Bool) (d : StackedDram) → Keeps d (count_dram a missed d)
unfolding count_dram check_row_disabled check_row_valid get_set_num split_set_num
count_dram-Keeps DramVault.write missed d = record {
  remapped = refl;
  split = λ c x. refl;
  disabled = λ v b r. refl;
  logical = λ v b r. refl;
  valid = λ v b r. refl;
  set_num = λ c i. refl;
}
count_dram-Keeps DramVault.read missed d = record {
  remapped = refl;
  split = λ c x. refl;
  disabled = λ v b r. refl;
  logical = λ v b r. refl;
  valid = λ v b r. refl;
  set_num = λ c i. refl;
}

count_served-Stays :
    (c : Config) (a : Access) (x : ℕ) (missed : Bool) (m : CacheCntlr)
    → Stays m (count_served c a x missed m)
unfolding count_served
count_served-Stays c a x missed m = record {
  sets = λ y. refl;
  counts = record { accesses = refl; pages = refl; blocks = refl };
  pages = refl;
  set_num = refl;
  pagesize = refl;
  dram = count_dram-Keeps a missed m.cntlr.dram;
}

finish_request-Stays :
    (c : Config) (costs : Costs) (q : Packet) (x hit mem queue remap : ℕ) (w : Serving)
    → Stays w.machine (finish_request c costs q x hit mem queue remap w).0
unfolding finish_request
finish_request-Stays c costs q x hit mem queue remap w =
    if_rule (λ (r : CacheCntlr × ℕ). Stays w.machine r.0) (ltb 0 w.load_blocks) _ _
      (λ e. count_served-Stays c q.access_type x _ w.machine)
      (λ e.
        let done = touch c costs q.time x q.access_type w in
        Stays-trans w.machine done.machine _ (touch-Stays c costs q.time x q.access_type w)
          (count_served-Stays c q.access_type x _ done.machine))

-- The set that a request looks up, when the request is done.
unfoldable pub set_after : Outside → Packet → Split → ℕ → CacheSet → CacheSet
set_after o q s footprint set =
    let r = access_attempt o.undefined (mem_op q.access_type) s.page_tag s.page_offset set in
    if r.1 == 0 then (evict_page s.page_tag footprint r.0).0 else r.0

-- The effect of a lookup that gives `hit`, with the set `x` after it.
pub record IsServed (x hit : ℕ) (set : CacheSet) (m m' : CacheCntlr) : Type 0 where
  pub here : m'.cntlr.sets x ≡ set
  pub others : (y : ℕ) → (y == x) ≡ false → m'.cntlr.sets y ≡ m.cntlr.sets y
  pub accesses : m'.cntlr.cache_access ≡ m.cntlr.cache_access
  pub page_misses :
      m'.cntlr.page_misses
      ≡ (if hit == 0 then u32 (m.cntlr.page_misses + 1) else m.cntlr.page_misses)
  pub block_misses :
      m'.cntlr.block_misses
      ≡ (if hit == 1 then u32 (m.cntlr.block_misses + 1) else m.cntlr.block_misses)
  pub pages : m'.pages ≡ m.pages
  pub set_num : m'.set_num ≡ m.set_num
  pub pagesize : m'.pagesize ≡ m.pagesize
  pub dram : Keeps m.cntlr.dram m'.cntlr.dram

IsServed-Stays :
    {x hit : ℕ} {set : CacheSet} (a b c : CacheCntlr)
    → IsServed x hit set a b
    → Stays b c
    → IsServed x hit set a c
IsServed-Stays {x} a b c h k = record {
  here = k.sets x ∙ h.here;
  others = λ y e. k.sets y ∙ h.others y e;
  accesses = k.counts.accesses ∙ h.accesses;
  page_misses = k.counts.pages ∙ h.page_misses;
  block_misses = k.counts.blocks ∙ h.block_misses;
  pages = k.pages ∙ h.pages;
  set_num = k.set_num ∙ h.set_num;
  pagesize = k.pagesize ∙ h.pagesize;
  dram = Keeps-trans a.cntlr.dram b.cntlr.dram c.cntlr.dram h.dram k.dram;
}

-- The set `x` was looked up and is `set` now.
record IsLooked (x : ℕ) (set : CacheSet) (m m' : CacheCntlr) : Type 0 where
  here : m'.cntlr.sets x ≡ set
  others : (y : ℕ) → (y == x) ≡ false → m'.cntlr.sets y ≡ m.cntlr.sets y
  counts : CountsSame m.cntlr m'.cntlr
  pages : m'.pages ≡ m.pages
  set_num : m'.set_num ≡ m.set_num
  pagesize : m'.pagesize ≡ m.pagesize
  dram : Keeps m.cntlr.dram m'.cntlr.dram

update_here : (sets : ℕ → CacheSet) (x : ℕ) (set : CacheSet) → update sets x set x ≡ set
update_here sets x set = ground arith

update_other :
    (sets : ℕ → CacheSet) (x : ℕ) (set : CacheSet) (y : ℕ)
    → (y == x) ≡ false
    → update sets x set y ≡ sets y
update_other sets x set y e = rw e refl

look_up-IsLooked :
    (c : Config) (costs : Costs) (o : Outside) (q : Packet) (s : Split) (x : ℕ) (w : Serving)
    → let m = w.machine in
      let op = mem_op q.access_type in
      let r = access_attempt o.undefined op s.page_tag s.page_offset (m.cntlr.sets x) in
      IsLooked x r.0 m (look_up c costs o q s x w).0.machine
unfolding look_up
look_up-IsLooked c costs o q s x w =
    let m = w.machine in
    let op = mem_op q.access_type in
    let r = access_attempt o.undefined op s.page_tag s.page_offset (m.cntlr.sets x) in
    record {
      here = update_here m.cntlr.sets x r.0;
      others = λ y e. update_other m.cntlr.sets x r.0 y e;
      counts = record { accesses = refl; pages = refl; blocks = refl };
      pages = refl;
      set_num = refl;
      pagesize = refl;
      dram = handle_dram_access-Keeps c costs q.time 64 x DramVault.read m.cntlr.dram;
    }

page_miss-IsServed :
    (x tag block fp : ℕ) (set : CacheSet) (m : CacheCntlr) (w : Serving)
    → IsLooked x set m w.machine
    → IsServed x 0 (evict_page tag fp set).0 m (page_miss x tag block fp w).machine
unfolding page_miss
page_miss-IsServed x tag block fp set m w h =
    let sets = w.machine.cntlr.sets in
    record {
      here =
          update_here sets x (evict_page tag fp (sets x)).0
          ∙ ap (λ (y : CacheSet). (evict_page tag fp y).0) h.here;
      others = λ y e. update_other sets x _ y e ∙ h.others y e;
      accesses = h.counts.accesses;
      page_misses = ap (λ (n : ℕ). u32 (n + 1)) h.counts.pages;
      block_misses = h.counts.blocks;
      pages = h.pages;
      set_num = h.set_num;
      pagesize = h.pagesize;
      dram = h.dram;
    }

block_miss-IsServed :
    (x : ℕ) (set : CacheSet) (m : CacheCntlr) (w : Serving)
    → IsLooked x set m w.machine
    → IsServed x 1 set m (block_miss w).machine
unfolding block_miss
block_miss-IsServed x set m w h = record {
  here = h.here;
  others = h.others;
  accesses = h.counts.accesses;
  page_misses = h.counts.pages;
  block_misses = ap (λ (n : ℕ). u32 (n + 1)) h.counts.blocks;
  pages = h.pages;
  set_num = h.set_num;
  pagesize = h.pagesize;
  dram = h.dram;
}

hit-IsServed :
    (x hit : ℕ) (set : CacheSet) (m m' : CacheCntlr)
    → (hit == 0) ≡ false
    → (hit == 1) ≡ false
    → IsLooked x set m m'
    → IsServed x hit set m m'
hit-IsServed x hit set m m' e f h = record {
  here = h.here;
  others = h.others;
  accesses = h.counts.accesses;
  page_misses = rw e h.counts.pages;
  block_misses = rw f h.counts.blocks;
  pages = h.pages;
  set_num = h.set_num;
  pagesize = h.pagesize;
  dram = h.dram;
}

after_lookup-IsServed :
    (c : Config) (costs : Costs) (t x : ℕ) (s : Split) (block fp hit : ℕ) (set : CacheSet)
    (m : CacheCntlr) (w : Serving)
    → IsLooked x set m w.machine
    → IsServed x hit
        (if hit == 0 then (evict_page s.page_tag fp set).0 else set)
        m
        (after_lookup c costs t x s block fp hit w).machine
unfolding after_lookup
after_lookup-IsServed c costs t x s block fp hit set m w h =
    let gone = page_miss x s.page_tag block fp w in
    elim (Bool-cases (hit == 0)) [
      | inl e ↦
          let zero' : hit ≡ 0 = ground arith in
          rw zero' (
            IsServed-Stays m gone.machine _ (page_miss-IsServed x s.page_tag block fp set m w h)
              (touch-Stays c costs t x DramVault.read gone))
      | inr e ↦ elim (Bool-cases (hit == 1)) [
        | inl f ↦ let one : hit ≡ 1 = ground arith in rw one (block_miss-IsServed x set m w h)
        | inr f ↦ rw (e, f) (hit-IsServed x hit set m w.machine e f h)
      ]
    ]

Keeps-IsServed :
    {x hit : ℕ} {set : CacheSet} (m : CacheCntlr) (d : StackedDram) (m' : CacheCntlr)
    → Keeps m.cntlr.dram d
    → IsServed x hit set (record m { cntlr = record m.cntlr { dram = d } }) m'
    → IsServed x hit set m m'
Keeps-IsServed m d m' k h = record {
  here = h.here;
  others = h.others;
  accesses = h.accesses;
  page_misses = h.page_misses;
  block_misses = h.block_misses;
  pages = h.pages;
  set_num = h.set_num;
  pagesize = h.pagesize;
  dram = Keeps-trans m.cntlr.dram d m'.cntlr.dram k h.dram;
}

-- A request that uses the cache: the set that it is remapped to is looked up.
pub use_cache-IsServed :
    (c : Config) (costs : Costs) (o : Outside) (q : Packet) (s : Split) (mem remap : ℕ)
    (m : CacheCntlr)
    → let x = (get_remap_set c s.set_n m.cntlr.dram).1 in
      let set = m.cntlr.sets x in
      let op = mem_op q.access_type in
      let hit = (access_attempt o.undefined op s.page_tag s.page_offset set).1 in
      (fp : ℕ) × IsServed x hit (set_after o q s fp set) m (use_cache c costs o q s mem remap m).0
unfolding use_cache set_after look_up
use_cache-IsServed c costs o q s mem remap m =
    let g = get_remap_set c s.set_n m.cntlr.dram in
    let start : Serving = record {
      machine = record m { cntlr = record m.cntlr { dram = g.0 } };
      dram_delay = remap_cost c o m.cntlr.dram;
      load_blocks = 0;
    } in
    (
      _,
      Keeps-IsServed m g.0 _ (get_remap_set-Keeps c s.set_n m.cntlr.dram) (
          IsServed-Stays _ _ _
            (after_lookup-IsServed c costs q.time _ s _ _ _ _ _ _
              (look_up-IsLooked c costs o q s g.1 start))
            (finish_request-Stays c costs q _ _ _ _ _ _)),
    )
