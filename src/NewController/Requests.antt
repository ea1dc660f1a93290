-- ===== src/NewController/Requests.antt =====
-- `SplitAddress` and `ProcessRequest` over the second manager, and
-- `DramPerfModelNormal::getAccessLatency` around them,
-- performance_model/new_remapping/dram_perf_model_normal.cc.
use sniper_zip.Prelude.{
  ℕ, ◌+◌, ◌*◌, ◌/◌, ◌%◌, ◌^◌, Bool, not, ◌==◌, if◌then◌else◌, ◌||◌, leb, List, [], ◌∷◌, update, u8,
  u32, u64,
}
use sniper_zip.DramVault
use sniper_zip.DramVault.{Access}
use sniper_zip.PageInfo.{Undefined, blocks_in}
use sniper_zip.CacheSet.{access_attempt}
use sniper_zip.PageTable.{PageTable, Split, translate_address}
use sniper_zip.StackedDram.{Config}
use sniper_zip.NewDram.{
  NewDram, NewCosts, row_bit, check_set_disabled, get_remap_set, update_temperature, try_remapping,
  clear_cache_stats,
}
use sniper_zip.Request.{Packet, evict_page, count_stats, mem_op}
use sniper_zip.NewController.{NewCntlr, handle_dram_access, check_remapping}

-- `SplitAddress`: unlike in the first controller, the tag leaves the number of the set out.
unfoldable pub split_address : (ℕ → ℕ) → ℕ → ℕ → ℕ → PageTable → PageTable × Split
unfolding translate_address
split_address floor_log2 set_num pagesize v_address t =
    let r = translate_address v_address t in
    let addr = r.1 / pagesize in
    (
      r.0,
      record {
        set_n = u32 (addr % 2 ^ floor_log2 set_num);
        page_tag = addr / 2 ^ floor_log2 set_num;
        page_offset = r.1 % pagesize;
      },
    )

-- The locals of `ProcessRequest` after the lookup.
pub record Serving : Type 0 where
  pub machine : NewCntlr
  pub model_delay : ℕ
  pub dram_delay : ℕ
  pub load_blocks : ℕ
  pub writeback_blocks : ℕ

-- dram_delay += handleDramAccess(pkt_time, size, set_n, access_type, perf);
unfoldable pub touch : Config → NewCosts → ℕ → ℕ → ℕ → Access → Serving → Serving
touch c costs t size set_n access_type w =
    let h = handle_dram_access c costs t size set_n access_type w.machine.dram in
    record w { machine = record w.machine { dram = h.0 }; dram_delay = u64 (w.dram_delay + h.1) }

-- hit == 0
unfoldable pub page_miss : NewCosts → ℕ → ℕ → ℕ → ℕ → Serving → Serving
unfolding evict_page
page_miss costs set_n tag block_num footprint w =
    let k = w.machine in
    let e = evict_page tag footprint (k.sets set_n) in
    let load = blocks_in e.1 w.load_blocks in
    record w {
      machine = record k {
        sets = update k.sets set_n e.0;
        page_misses = u32 (k.page_misses + 1);
        wb_blocks = u32 (k.wb_blocks + e.2);
        ld_blocks = u32 (k.ld_blocks + load);
        history = update k.history block_num e.1;
      };
      model_delay = u64 (w.model_delay + costs.rounded_latency (8 * 2 * 1024));
      load_blocks = load;
      writeback_blocks = e.2;
    }

-- hit == 1
unfoldable pub block_miss : Serving → Serving
block_miss w = record w {
  machine = record w.machine { block_misses = u32 (w.machine.block_misses + 1) };
  load_blocks = u32 (w.load_blocks + 1);
}

-- What follows the lookup, by its result.
unfoldable pub after_lookup : Config → NewCosts → ℕ → ℕ → Split → ℕ → ℕ → ℕ → Serving → Serving
after_lookup c costs t set_n s block_num footprint hit w =
    if hit == 0
    then (let p = page_miss costs set_n s.page_tag block_num footprint w in
        let size = u32 (64 * p.writeback_blocks) in
        touch c costs t size set_n DramVault.read (touch c costs t size set_n DramVault.write p))
    else if hit == 1
    then touch c costs t 64 set_n DramVault.write (block_miss w)
    else w

unfoldable pub count_dram : Access → Bool → NewDram → NewDram
count_dram DramVault.write missed d = record d {
  tot_writes = u32 (d.tot_writes + 1);
  tot_misses = if missed then u32 (d.tot_misses + 1) else d.tot_misses;
}
count_dram DramVault.read missed d = record d {
  tot_reads = u32 (d.tot_reads + 1);
  tot_misses = if missed then u32 (d.tot_misses + 1) else d.tot_misses;
}

-- The counters of a served request.
unfoldable pub count_served : Config → Access → ℕ → Bool → NewCntlr → NewCntlr
unfolding count_stats count_dram
count_served c access_type set_n missed k =
    let v = set_n / 2 ^ row_bit c k.dram % 2 ^ c.floor_log2 k.vault_num in
    record k {
      dram = count_dram access_type missed k.dram;
      dram_stats = update k.dram_stats v (count_stats access_type missed (k.dram_stats v));
    }

-- The cache is looked up and the set accessed.
unfoldable pub look_up : Config → NewCosts → Undefined → Packet → Split → ℕ → NewCntlr → Serving × ℕ
unfolding touch
look_up c costs u q s set_n k =
    let r = access_attempt u (mem_op q.access_type) s.page_tag s.page_offset (k.sets set_n) in
    (
      touch c costs q.time 64 set_n DramVault.read (record {
        machine = record k { sets = update k.sets set_n r.0 };
        model_delay = 0;
        dram_delay = 0;
        load_blocks = 0;
        writeback_blocks = 0;
      }),
      r.1,
    )

-- From the last access of the cache on: the controller, and the delay.
unfoldable pub finish_request : Config → NewCosts → Packet → ℕ → ℕ → ℕ → Serving → NewCntlr × ℕ
finish_request c costs q set_n hit remap_delay w =
    let done = touch c costs q.time 64 set_n q.access_type w in
    (
      count_served c q.access_type set_n (hit == 0 || hit == 1) done.machine,
      u64 (
          done.model_delay
          + done.dram_delay
          + remap_delay
          + costs.rounded_latency (u32 (8 * 64 * done.load_blocks))
          + costs.rounded_latency (u32 (8 * 64 * done.writeback_blocks))),
    )

-- A request to a set that is enabled.
unfoldable pub use_cache :
    Config → NewCosts → Undefined → Packet → Split → ℕ → NewCntlr → NewCntlr × ℕ
use_cache c costs u q s remap_delay k =
    let block_num = u8 (s.page_offset / k.blocksize) in
    let g = get_remap_set c s.set_n k.dram in
    let l = look_up c costs u q s g.1 (record k { dram = g.0 }) in
    finish_request c costs q g.1 l.1 remap_delay
      (after_lookup c costs q.time g.1 s block_num (k.history block_num) l.1 l.0)

-- A request to a set that is disabled goes to memory.
unfoldable pub pass_by : NewCosts → ℕ → NewCntlr → NewCntlr × ℕ
pass_by costs remap_delay k = (
  record k { page_misses = u32 (k.page_misses + 1); page_disabled = u32 (k.page_disabled + 1) },
  u64 (costs.rounded_latency (8 * 64) + remap_delay),
)

-- Before the set is known to be enabled: the controller, and the delay of the remapping.
unfoldable pub receive : Config → NewCosts → Packet → NewCntlr → NewCntlr × ℕ
receive c costs q k =
    let s = split_address c.floor_log2 k.set_num k.pagesize q.address k.pages in
    let r = check_remapping c costs q.time (record k { pages = s.0 }) in
    (record r.0 { cache_access = u32 (r.0.cache_access + 1) }, r.1)

-- `ProcessRequest`: the controller, and the delay.
unfoldable pub process_request : Config → NewCosts → Undefined → Packet → NewCntlr → NewCntlr × ℕ
process_request c costs u q k =
    let s = (split_address c.floor_log2 k.set_num k.pagesize q.address k.pages).1 in
    let r = receive c costs q k in
    if check_set_disabled c s.set_n r.0.dram
    then pass_by costs r.1 r.0
    else use_cache c costs u q s r.1 r.0

-- `DramPerfModelNormal::getAccessLatency` and its counters.
pub record NewPerfModel : Type 0 where
  pub cache : NewCntlr
  pub enabled : Bool
  pub num_accesses : ℕ
  pub total_access_latency : ℕ

unfoldable pub get_access_latency :
    Config → NewCosts → Undefined → ℕ → ℕ → Packet → NewPerfModel → NewPerfModel × ℕ
get_access_latency c costs u application_cores requester q p =
    let r = process_request c costs u q p.cache in
    if not p.enabled || leb application_cores requester then (record p { cache = r.0 }, 0) else (
      record p {
        cache = r.0;
        num_accesses = u64 (p.num_accesses + 1);
        total_access_latency = u64 (p.total_access_latency + r.1);
      },
      r.1,
    )

-- What happens to the controller: a request, or what the statistics manager does to its DRAM.
pub data Event : Type 0 where
  requests : Packet → Event
  heats : ℕ → ℕ → ℕ → Event
  remaps : Event
  clears : Event

unfoldable pub happen : Config → NewCosts → Undefined → Event → NewCntlr → NewCntlr
happen c costs u (requests q) k = (process_request c costs u q k).0
happen c costs u (heats v b temperature) k = record k {
  dram = update_temperature c v b temperature k.dram;
}
happen c costs u remaps k = record k { dram = try_remapping k.dram }
happen c costs u clears k = record k { dram = clear_cache_stats k.dram }

unfoldable pub happen_all : Config → NewCosts → Undefined → List Event → NewCntlr → NewCntlr
happen_all c costs u [] k = k
happen_all c costs u (e ∷ rest) k = happen_all c costs u rest (happen c costs u e k)
