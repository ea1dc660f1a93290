-- ===== src/Segments.antt =====
-- Fast memory that holds one of six segments at each place: `SrcEntry` and `DramPerfModelConstant` of
-- performance_model/dram_perf_model_constant.h and .cc, over `StackedDramPerfMem`. The latency of the
-- memory bus and floorLog2 are parameters.
pub mod Window
use sniper_zip.Prelude.{
  ℕ, ◌+◌, ◌*◌, ◌/◌, ◌%◌, ◌^◌, Bool, not, ◌==◌, if◌then◌else◌, ◌||◌, ltb, leb, List, [], ◌∷◌, update,
  u32, u64, for_range,
}
use sniper_zip.DramVault
use sniper_zip.DramVault.{Access, VaultPerfModel}
use sniper_zip.StackedDram.{mem_access_latency}

pub record SrcEntry : Type 0 where
  pub tag : ℕ
  pub count : ℕ
  pub access : ℕ → ℕ
  pub start_address : ℕ
  pub swap_count : ℕ

-- The constructor.
unfoldable pub new_entry : ℕ → SrcEntry
new_entry seg_num = record {
  tag = 0;
  count = 0;
  access = λ i. 0;
  start_address = u32 (2 ^ 20 * seg_num);
  swap_count = 20;
}

-- The segment with the most accesses so far, and the counters, which are cleared on the way.
pub record Heaviest : Type 0 where
  pub max : ℕ
  pub idx : ℕ
  pub access : ℕ → ℕ

unfoldable pub weigh : ℕ → Heaviest → Heaviest
weigh i h =
    let cleared = update h.access i 0 in
    if ltb h.max (h.access i)
    then record { max = h.access i; idx = i; access = cleared }
    else record h { access = cleared }

unfoldable pub heaviest : (ℕ → ℕ) → Heaviest
unfolding weigh for_range
heaviest access = for_range 6 0 weigh (record { max = 0; idx = 0; access = access })

-- `accessEntry`: 2 for a segment that is in fast memory and 0 for one that is not, and one more where
-- the segments are swapped.
unfoldable pub access_entry : ℕ → SrcEntry → SrcEntry × ℕ
unfolding heaviest
access_entry n e =
    let hit = if n == e.tag then 2 else 0 in
    let count = u32 (e.count + 1) in
    let access = update e.access n (u32 (e.access n + 1)) in
    let h = heaviest access in
    if count == e.swap_count
    then (
      record e { tag = h.idx; count = 0; access = h.access },
      if h.idx == e.tag then hit else hit + 1,
    )
    else (record e { count = count; access = access }, hit)

-- Accesses to one entry, one after the other, with their results.
unfoldable pub access_all : List ℕ → SrcEntry → SrcEntry × List ℕ
access_all [] e = (e, [])
access_all (n ∷ ns) e =
    let r = access_entry n e in let done = access_all ns r.0 in (done.0, r.1 ∷ done.1)

pub record SegmentModel : Type 0 where
  pub seg_num : ℕ
  pub entries : ℕ → SrcEntry
  pub row_size : ℕ
  pub vaults : ℕ → VaultPerfModel
  pub enabled : Bool
  pub tot_access : ℕ
  pub swap_times : ℕ
  pub num_accesses : ℕ
  pub total_access_latency : ℕ

-- The constructor, over the vaults of `StackedDramPerfMem`: 4 GB of fast memory in segments of 1 MB.
unfoldable pub new_model : (ℕ → VaultPerfModel) → Bool → SegmentModel
unfolding new_entry
new_model vaults enabled = record {
  seg_num = 4 * 1024 / 1;
  entries = new_entry;
  row_size = 8;
  vaults = vaults;
  enabled = enabled;
  tot_access = 0;
  swap_times = 0;
  num_accesses = 0;
  total_access_latency = 0;
}

-- The vaults, the delay, and the address of the loop that copies a segment.
pub record Copying : Type 0 where
  pub vaults : ℕ → VaultPerfModel
  pub model_delay : ℕ
  pub cur_addr : ℕ

unfoldable pub copy_step : (ℕ → ℕ) → ℕ → ℕ → ℕ → Copying → Copying
copy_step floor_log2 row_size pkt_time i c =
    let r = mem_access_latency floor_log2 row_size pkt_time c.cur_addr DramVault.read c.vaults in
    let w = mem_access_latency floor_log2 row_size pkt_time c.cur_addr DramVault.write r.0 in
    record {
      vaults = w.0;
      model_delay = u64 (c.model_delay + r.1 + w.1);
      cur_addr = u32 (c.cur_addr + 2 ^ 13);
    }

unfoldable pub copy_segment : (ℕ → ℕ) → ℕ → ℕ → ℕ → (ℕ → VaultPerfModel) → Copying
unfolding copy_step for_range
copy_segment floor_log2 row_size pkt_time start_address vaults =
    for_range (2 ^ 7) 0 (copy_step floor_log2 row_size pkt_time)
      (record { vaults = vaults; model_delay = 0; cur_addr = start_address })

-- The place of an address in fast memory, and which of its segments it is in.
unfoldable pub split_segment : ℕ → ℕ → ℕ × ℕ
split_segment seg_num address =
    let seg_tag = address / 2 ^ 20 in (u32 (seg_tag % seg_num), u32 (seg_tag / seg_num % 6))

-- From the count of the access on: the model, and the latency. `rst` is the result of `access_entry`.
unfoldable pub charge :
    (ℕ → ℕ) → (ℕ → ℕ) → ℕ → ℕ → ℕ → Access → ℕ → ℕ → SegmentModel → SegmentModel × ℕ
unfolding copy_segment
charge floor_log2 rounded_latency pkt_time pkt_size address access_type rst start_address p =
    let swapped = rst == 1 || rst == 3 in
    let start : Copying = record { vaults = p.vaults; model_delay = 0; cur_addr = start_address } in
    let c =
      if swapped
      then copy_segment floor_log2 p.row_size pkt_time start_address p.vaults
      else start in
    let load = if swapped then rounded_latency (2 ^ 23) else 0 in
    let fetch = if rst == 0 || rst == 1 then rounded_latency (u64 (8 * pkt_size)) else 0 in
    let a = mem_access_latency floor_log2 p.row_size pkt_time address access_type c.vaults in
    let latency = u64 (c.model_delay + a.1 + load + fetch) in
    (
      record p {
        vaults = a.0;
        tot_access = u32 (p.tot_access + 1);
        swap_times = if swapped then u32 (p.swap_times + 1) else p.swap_times;
        num_accesses = u64 (p.num_accesses + 1);
        total_access_latency = u64 (p.total_access_latency + latency);
      },
      latency,
    )

-- `getAccessLatency`: the model, and the latency.
unfoldable pub get_access_latency :
    (ℕ → ℕ) → (ℕ → ℕ) → ℕ → ℕ → ℕ → ℕ → ℕ → Access → SegmentModel → SegmentModel × ℕ
unfolding split_segment access_entry charge
get_access_latency floor_log2 rounded_latency application_cores requester pkt_time pkt_size address
      access_type p =
    let s = split_segment p.seg_num address in
    let r = access_entry s.1 (p.entries s.0) in
    let p' : SegmentModel = record p { entries = update p.entries s.0 r.0 } in
    if not p.enabled || leb application_cores requester
    then (p', 0)
    else charge floor_log2 rounded_latency pkt_time pkt_size address access_type r.1
        (r.0).start_address p'
