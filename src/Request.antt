-- ===== src/Request.antt =====
-- A request to the DRAM cache: the constructor of `StackDramCacheCntlrUnison`, its `ProcessRequest`,
-- and `DramPerfModelNormal::getAccessLatency`, performance_model/dram_perf_model_normal.cc. The samples
-- of the distribution of access costs are a function of their number. What is sent to the statistics
-- and to `ShmemPerf` is not modelled.
pub mod Kept
pub mod Received
pub mod Again
pub mod Distinct
pub mod Counts
use sniper_zip.Prelude.{
  ℕ, zero, suc, ◌+◌, ◌*◌, ◌/◌, ◌%◌, ◌^◌, Bool, true, false, ◌==◌, if◌then◌else◌, ◌&&◌, ◌||◌, not,
  ltb, leb, List, [], ◌∷◌, update, u8, u32, u64,
}
use sniper_zip.DramBank.{ns}
use sniper_zip.DramVault
use sniper_zip.DramVault.{Access}
use sniper_zip.PageInfo
use sniper_zip.PageInfo.{Undefined, MemOp, blocks_in, invalidate}
use sniper_zip.CacheSet.{
  CacheSet, new_set, access_attempt, get_replacement_index, update_replacement_index_tag,
}
use sniper_zip.StackedDram.{
  Config, StackedDram, row_bit, check_set_disabled, get_remap_set, update_temperature,
  try_remapping, clear_cache_stats,
}
use sniper_zip.StackedDram.Latency.{Costs}
use sniper_zip.PageTable.{PageTable, Split, new_pages, split_address}
use sniper_zip.Controller.{Controller, handle_dram_access, check_remapping}

-- Configuration keys that `ProcessRequest` reads, the samples of `m_dram_access_cost`, and undefined
-- shifts.
pub record Outside : Type 0 where
  pub avg_queue_latency : ℕ
  pub inter_vault : Bool
  pub disabled : Bool
  pub access_cost : ℕ → ℕ
  pub undefined : Undefined

pub record DramStats : Type 0 where
  pub reads : ℕ
  pub writes : ℕ
  pub misses : ℕ

pub record CacheCntlr : Type 0 where
  pub cntlr : Controller
  pub pages : PageTable
  pub set_num : ℕ
  pub blocksize : ℕ
  pub pagesize : ℕ
  -- FHT, the footprint history table.
  pub history : ℕ → ℕ
  pub ld_blocks : ℕ
  pub load_on_page_miss : ℕ
  pub write_on_page_miss : ℕ
  pub page_disabled : ℕ
  pub dram_stats : ℕ → DramStats
  -- How many costs were drawn.
  pub samples : ℕ

-- The constructor, over the DRAM that it builds. The counters of the time before the region of
-- interest are not set there; what the memory held is a parameter.
unfoldable pub new_controller : ℕ → ℕ × ℕ × ℕ → StackedDram → Controller
unfolding new_set
new_controller associativity garbage dram = record {
  sets = λ x. new_set associativity;
  dram = dram;
  vault_num = 32;
  cache_access = 0;
  page_misses = 0;
  block_misses = 0;
  cache_access_no_roi = garbage.0;
  page_misses_no_roi = garbage.1;
  block_misses_no_roi = garbage.2;
  wb_blocks = 0;
  invalid_times = 0;
  invalid_blocks = 0;
  migrate_times = 0;
  migrate_blocks = 0;
}

unfoldable pub new_cache : ℕ → ℕ → ℕ → ℕ → ℕ × ℕ × ℕ → StackedDram → CacheCntlr
unfolding new_controller new_pages
new_cache set_num associativity blocksize pagesize garbage dram = record {
  cntlr = new_controller associativity garbage dram;
  pages = new_pages;
  set_num = set_num;
  blocksize = blocksize;
  pagesize = pagesize;
  history = λ i. 0;
  ld_blocks = 0;
  load_on_page_miss = 0;
  write_on_page_miss = 0;
  page_disabled = 0;
  dram_stats = λ i. record { reads = 0; writes = 0; misses = 0 };
  samples = 0;
}

-- SubsecondTime::PS(n), in femtoseconds.
abbrev pub ps : ℕ → ℕ
ps n = u64 (n * 1000)

-- One request: its time, size, kind and address.
pub record Packet : Type 0 where
  pub time : ℕ
  pub size : ℕ
  pub access_type : Access
  pub address : ℕ

abbrev pub mem_op : Access → MemOp
mem_op DramVault.write = PageInfo.write
mem_op DramVault.read = PageInfo.read

-- The time that the remapping costs.
unfoldable pub remap_cost : Config → Outside → StackedDram → ℕ
remap_cost c o d =
    if d.enable_remap then (if c.n_remap == 1 && o.inter_vault then ps 200 else ps 10) else 0

-- The locals of `ProcessRequest` after the lookup.
pub record Serving : Type 0 where
  pub machine : CacheCntlr
  pub dram_delay : ℕ
  pub load_blocks : ℕ

-- dram_delay += handleDramAccess(pkt_time, 64, set_n, access_type, perf);
unfoldable pub touch : Config → Costs → ℕ → ℕ → Access → Serving → Serving
touch c costs t set_n access_type w =
    let m = w.machine in
    let h = handle_dram_access c costs t 64 set_n access_type m.cntlr.dram in
    record w {
      machine = record m { cntlr = record m.cntlr { dram = h.0 } };
      dram_delay = u64 (w.dram_delay + h.1);
    }

-- A set takes in a page for another: the set, the footprint of the page that leaves, and the number
-- of its blocks that are written back.
unfoldable pub evict_page : ℕ → ℕ → CacheSet → CacheSet × ℕ × ℕ
unfolding invalidate
evict_page tag footprint s =
    let g = get_replacement_index (record s { reads = s.reads + 1 }) in
    let p = invalidate (g.0.pages g.1) in
    (
      update_replacement_index_tag g.1 tag footprint
          (record g.0 { pages = update g.0.pages g.1 p.0 }),
      (g.0.pages g.1).footprint,
      p.1,
    )

-- hit == 0
unfoldable pub page_miss : ℕ → ℕ → ℕ → ℕ → Serving → Serving
unfolding evict_page
page_miss set_n tag block_num footprint w =
    let m = w.machine in
    let k = m.cntlr in
    let e = evict_page tag footprint (k.sets set_n) in
    let load = blocks_in e.1 w.load_blocks in
    record w {
      machine = record m {
        cntlr = record k {
          sets = update k.sets set_n e.0;
          page_misses = u32 (k.page_misses + 1);
          wb_blocks = u32 (k.wb_blocks + e.2);
        };
        history = update m.history block_num e.1;
        ld_blocks = u32 (m.ld_blocks + load);
        load_on_page_miss = u32 (m.load_on_page_miss + load);
        write_on_page_miss = u32 (m.write_on_page_miss + e.2);
      };
      load_blocks = load;
    }

-- hit == 1
unfoldable pub block_miss : Serving → Serving
block_miss w =
    let m = w.machine in
    record w {
      machine = record m {
        cntlr = record m.cntlr { block_misses = u32 (m.cntlr.block_misses + 1) };
      };
      load_blocks = u32 (w.load_blocks + 1);
    }

-- What follows the lookup, by its result.
unfoldable pub after_lookup : Config → Costs → ℕ → ℕ → Split → ℕ → ℕ → ℕ → Serving → Serving
after_lookup c costs t set_n s block_num footprint hit w =
    if hit == 0
    then touch c costs t set_n DramVault.read (page_miss set_n s.page_tag block_num footprint w)
    else if hit == 1
    then block_miss w
    else w

-- The counters of a served request.
unfoldable pub count_stats : Access → Bool → DramStats → DramStats
count_stats DramVault.write missed x = record x {
  writes = x.writes + 1;
  misses = if missed then x.misses + 1 else x.misses;
}
count_stats DramVault.read missed x = record x {
  reads = x.reads + 1;
  misses = if missed then x.misses + 1 else x.misses;
}

unfoldable pub count_dram : Access → Bool → StackedDram → StackedDram
count_dram DramVault.write missed d = record d {
  tot_writes = u32 (d.tot_writes + 1);
  tot_misses = if missed then u32 (d.tot_misses + 1) else d.tot_misses;
}
count_dram DramVault.read missed d = record d {
  tot_reads = u32 (d.tot_reads + 1);
  tot_misses = if missed then u32 (d.tot_misses + 1) else d.tot_misses;
}

unfoldable pub count_served : Config → Access → ℕ → Bool → CacheCntlr → CacheCntlr
unfolding count_stats count_dram
count_served c access_type set_n missed m =
    let k = m.cntlr in
    let v = set_n / 2 ^ row_bit c k.dram % 2 ^ c.floor_log2 k.vault_num in
    record m {
      cntlr = record k { dram = count_dram access_type missed k.dram };
      dram_stats = update m.dram_stats v (count_stats access_type missed (m.dram_stats v));
    }

-- The cache is looked up and the set accessed.
unfoldable pub look_up : Config → Costs → Outside → Packet → Split → ℕ → Serving → Serving × ℕ
unfolding touch
look_up c costs o q s set_n w =
    let m = w.machine in
    let k = m.cntlr in
    let r =
      access_attempt o.undefined (mem_op q.access_type) s.page_tag s.page_offset (k.sets set_n) in
    (
      touch c costs q.time set_n DramVault.read
          (record w { machine = record m { cntlr = record k { sets = update k.sets set_n r.0 } } }),
      r.1,
    )

-- From the accesses of the cache on: the machine, and `model_delay`. `mem_delay` is the cost of an
-- access to memory, `queue` the latency of its queue.
unfoldable pub finish_request :
    Config → Costs → Packet → ℕ → ℕ → ℕ → ℕ → ℕ → Serving → CacheCntlr × ℕ
unfolding count_served
finish_request c costs q set_n hit mem_delay queue remap_delay w =
    let missed = hit == 0 || hit == 1 in
    let done = touch c costs q.time set_n q.access_type w in
    if ltb 0 w.load_blocks
    then (
      count_served c q.access_type set_n missed w.machine,
      u64 (mem_delay + queue + w.dram_delay + remap_delay + costs.rounded_latency (8 * 64)),
    )
    else (
      count_served c q.access_type set_n missed done.machine,
      u64 (done.dram_delay + remap_delay),
    )

-- A request to a set that is enabled.
unfoldable pub use_cache :
    Config → Costs → Outside → Packet → Split → ℕ → ℕ → CacheCntlr → CacheCntlr × ℕ
use_cache c costs o q s mem_delay remap_delay m =
    let k = m.cntlr in
    let block_num = u8 (s.page_offset / m.blocksize) in
    let g = get_remap_set c s.set_n k.dram in
    let start : Serving = record {
      machine = record m { cntlr = record k { dram = g.0 } };
      dram_delay = remap_cost c o k.dram;
      load_blocks = 0;
    } in
    let l = look_up c costs o q s g.1 start in
    let w = after_lookup c costs q.time g.1 s block_num (m.history block_num) l.1 l.0 in
    finish_request c costs q g.1 l.1 mem_delay
      (if costs.on_top then 0 else ns o.avg_queue_latency / 4) remap_delay w

-- A request to a set that is disabled goes to memory.
unfoldable pub pass_by : Config → Costs → Outside → Packet → ℕ → ℕ → CacheCntlr → CacheCntlr × ℕ
pass_by c costs o q mem_delay remap_delay m = (
  record m {
    cntlr = record m.cntlr { block_misses = u32 (m.cntlr.block_misses + 1) };
    page_disabled = u32 (m.page_disabled + 1);
  },
  u64 (
      costs.rounded_latency (u64 (8 * q.size))
      + mem_delay
      + remap_delay
      + remap_cost c o m.cntlr.dram
      + ns o.avg_queue_latency),
)

-- Before the set is known to be enabled: the address is split, banks that moved are given up, the
-- access is counted and its cost drawn. The machine and the delay of the remapping.
unfoldable pub receive : Config → Costs → Packet → CacheCntlr → CacheCntlr × ℕ
receive c costs q m =
    let s = split_address c.floor_log2 m.set_num m.pagesize q.address m.pages in
    let r = check_remapping c costs q.time m.cntlr in
    (
      record m {
        cntlr = record r.0 { cache_access = u32 (r.0.cache_access + 1) };
        pages = s.0;
        samples = m.samples + 1;
      },
      r.1,
    )

-- `ProcessRequest`: the machine, and the delay.
unfoldable pub process_request : Config → Costs → Outside → Packet → CacheCntlr → CacheCntlr × ℕ
process_request c costs o q m =
    let s = (split_address c.floor_log2 m.set_num m.pagesize q.address m.pages).1 in
    let r = receive c costs q m in
    let cost = o.access_cost m.samples in
    if check_set_disabled c s.set_n r.0.cntlr.dram || o.disabled
    then pass_by c costs o q cost r.1 r.0
    else use_cache c costs o q s cost r.1 r.0

-- `DramPerfModelNormal::getAccessLatency` and its counters: nothing is charged where the model is not
-- enabled or the requester is not an application core.
pub record PerfModel : Type 0 where
  pub cache : CacheCntlr
  pub enabled : Bool
  pub num_accesses : ℕ
  pub total_access_latency : ℕ

unfoldable pub get_access_latency :
    Config → Costs → Outside → ℕ → ℕ → Packet → PerfModel → PerfModel × ℕ
get_access_latency c costs o application_cores requester q p =
    let r = process_request c costs o q p.cache in
    if not p.enabled || leb application_cores requester then (record p { cache = r.0 }, 0) else (
      record p {
        cache = r.0;
        num_accesses = u64 (p.num_accesses + 1);
        total_access_latency = u64 (p.total_access_latency + r.1);
      },
      r.1,
    )

-- What happens to the controller: a request, or what the statistics manager does to its DRAM when a
-- temperature arrives, when all have, and when counting starts anew.
pub data Event : Type 0 where
  requests : Packet → Event
  heats : ℕ → ℕ → ℕ → Event
  remaps : Event
  clears : Event
  -- The thermal management sets the level of the frequency.
  throttles : ℕ → Event

abbrev on_dram : (StackedDram → StackedDram) → CacheCntlr → CacheCntlr
on_dram f m = record m { cntlr = record m.cntlr { dram = f m.cntlr.dram } }

unfoldable pub happen : Config → Costs → Outside → Event → CacheCntlr → CacheCntlr
happen c costs o (requests q) m = (process_request c costs o q m).0
happen c costs o (heats v b temperature) m = on_dram (update_temperature c v b temperature) m
happen c costs o remaps m = on_dram try_remapping m
happen c costs o clears m = on_dram clear_cache_stats m
happen c costs o (throttles lev) m = on_dram (λ d. record d { freq_lev = lev }) m

unfoldable pub happen_all : Config → Costs → Outside → List Event → CacheCntlr → CacheCntlr
happen_all c costs o [] m = m
happen_all c costs o (e ∷ rest) m = happen_all c costs o rest (happen c costs o e m)
