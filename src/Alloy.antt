-- ===== src/Alloy.antt =====
-- The Alloy cache, direct-mapped with a tag beside each block: `DramCacheBlockInfo`,
-- `DramCacheSetAlloy`, `StackDramCacheCntlrAlloy` and `DramPerfModelAlloy` of
-- performance_model/dram_perf_model_alloy.h and .cc. `floor_log2` and the latency of the memory bus are
-- parameters. The count of misses is a double in the program, exact below 2^53.
pub mod Refines
use sniper_zip.Prelude.{
  ℕ, zero, suc, ◌+◌, ◌*◌, ◌/◌, ◌%◌, ◌^◌, Bool, true, false, not, ◌==◌, if◌then◌else◌, ◌||◌, leb,
  List, [], ◌∷◌, update, u32, u64,
}
use sniper_zip.DramVault
use sniper_zip.DramVault.{Access}
use sniper_zip.PageInfo.{CacheState, invalid_state, ones32, no_tag}

pub record BlockInfo : Type 0 where
  pub tag : ℕ
  pub vbit : ℕ
  pub dbit : ℕ
  pub cstate : CacheState

-- The constructor.
unfoldable pub new_block : BlockInfo
new_block = record { tag = no_tag; vbit = ones32; dbit = 0; cstate = invalid_state }

unfoldable pub invalidate_block : BlockInfo → BlockInfo
invalidate_block b = record b { tag = no_tag; cstate = invalid_state }

unfoldable pub is_valid : BlockInfo → Bool
is_valid b = not (b.tag == no_tag)

pub record AlloySet : Type 0 where
  pub reads : ℕ
  pub writes : ℕ
  pub associativity : ℕ
  pub blocks : ℕ → BlockInfo

-- The constructor.
unfoldable pub new_set : ℕ → AlloySet
unfolding new_block
new_set associativity = record {
  reads = 0;
  writes = 0;
  associativity = associativity;
  blocks = λ i. new_block;
}

-- `getReplacementIndex`.
unfoldable pub get_replacement_index : AlloySet → ℕ
get_replacement_index s = 0

unfoldable pub update_replacement_index_tag : ℕ → ℕ → AlloySet → AlloySet
update_replacement_index_tag index tag s = record s {
  blocks = update s.blocks index (record (s.blocks index) { tag = tag; vbit = 1; dbit = 0 });
  writes = s.writes + 1;
}

-- Whether one of `n` ways from `i` on has the tag.
unfoldable pub any_tag : ℕ → ℕ → ℕ → (ℕ → BlockInfo) → Bool
any_tag zero i tag blocks = false
any_tag (suc n) i tag blocks = (blocks i).tag == tag || any_tag n (i + 1) tag blocks

-- `accessAttempt`: 1 where a way has the tag, and 0.
unfoldable pub access_attempt : ℕ → AlloySet → AlloySet × ℕ
unfolding any_tag
access_attempt tag s =
    (record s { reads = s.reads + 1 }, if any_tag s.associativity 0 tag s.blocks then 1 else 0)

pub record AlloyCntlr : Type 0 where
  pub sets : ℕ → AlloySet
  pub set_num : ℕ
  pub blocksize : ℕ
  pub reads : ℕ
  pub writes : ℕ
  pub misses : ℕ

-- The constructor.
unfoldable pub new_alloy : ℕ → ℕ → ℕ → AlloyCntlr
unfolding new_set
new_alloy set_num associativity blocksize = record {
  sets = λ x. new_set associativity;
  set_num = set_num;
  blocksize = blocksize;
  reads = 0;
  writes = 0;
  misses = 0;
}

pub record Split : Type 0 where
  pub set_n : ℕ
  pub block_tag : ℕ
  pub block_offset : ℕ

-- `SplitAddress`.
unfoldable pub split_address : (ℕ → ℕ) → ℕ → ℕ → ℕ → Split
split_address floor_log2 set_num blocksize address =
    let addr = address / blocksize in
    record {
      set_n = u32 (addr % 2 ^ floor_log2 set_num);
      block_tag = addr / 2 ^ floor_log2 set_num;
      block_offset = address % blocksize;
    }

-- `StackedDramPerfAlloy::getAccessLatency`.
unfoldable pub dram_latency : ℕ → ℕ → ℕ → Access → ℕ
dram_latency pkt_time pkt_size set_i access_type = 0

-- A block that is not in the cache takes the place of another.
unfoldable pub fill : ℕ → AlloySet → AlloySet
unfolding get_replacement_index update_replacement_index_tag
fill tag s =
    let s' = record s { reads = s.reads + 1 } in
    update_replacement_index_tag (get_replacement_index s') tag s'

unfoldable pub count_access : Access → Bool → AlloyCntlr → AlloyCntlr
count_access DramVault.write missed k = record k {
  writes = k.writes + 1;
  misses = if missed then k.misses + 1 else k.misses;
}
count_access DramVault.read missed k = record k {
  reads = k.reads + 1;
  misses = if missed then k.misses + 1 else k.misses;
}

-- The delay of a request: the tag is read, on a miss a block is written and comes from memory, and the
-- block is accessed.
unfoldable pub request_delay : (ℕ → ℕ) → ℕ → ℕ → Access → Bool → ℕ
unfolding dram_latency
request_delay rounded_latency pkt_time row_i access_type missed =
    let tag_read = dram_latency pkt_time 32 row_i DramVault.read in
    let last = dram_latency pkt_time 32 row_i access_type in
    if missed
    then u64 (
        rounded_latency (8 * 2 * 1024)
        + tag_read
        + dram_latency pkt_time 32 row_i DramVault.write
        + last)
    else u64 (tag_read + last)

-- `ProcessRequest`: the controller, and the delay.
unfoldable pub process_request : (ℕ → ℕ) → (ℕ → ℕ) → ℕ → Access → ℕ → AlloyCntlr → AlloyCntlr × ℕ
unfolding split_address access_attempt fill count_access
process_request floor_log2 rounded_latency pkt_time access_type address k =
    let s = split_address floor_log2 k.set_num k.blocksize address in
    let r = access_attempt s.block_tag (k.sets s.set_n) in
    let missed = r.1 == 0 in
    (
      count_access access_type missed (record k {
        sets = update k.sets s.set_n (if missed then fill s.block_tag r.0 else r.0);
      }),
      request_delay rounded_latency pkt_time (s.set_n / 28) access_type missed,
    )

-- `DramPerfModelAlloy::getAccessLatency` and its counters.
pub record PerfModel : Type 0 where
  pub cache : AlloyCntlr
  pub enabled : Bool
  pub num_accesses : ℕ
  pub total_access_latency : ℕ

unfoldable pub get_access_latency :
    (ℕ → ℕ) → (ℕ → ℕ) → ℕ → ℕ → ℕ → Access → ℕ → PerfModel → PerfModel × ℕ
get_access_latency floor_log2 rounded_latency application_cores requester pkt_time access_type
      address p =
    let r = process_request floor_log2 rounded_latency pkt_time access_type address p.cache in
    if not p.enabled || leb application_cores requester then (record p { cache = r.0 }, 0) else (
      record p {
        cache = r.0;
        num_accesses = u64 (p.num_accesses + 1);
        total_access_latency = u64 (p.total_access_latency + r.1);
      },
      r.1,
    )

-- Requests, one after the other, with the delay of each.
unfoldable pub process_all :
    (ℕ → ℕ) → (ℕ → ℕ) → List (ℕ × Access × ℕ) → AlloyCntlr → AlloyCntlr × List ℕ
process_all floor_log2 rounded_latency [] k = (k, [])
process_all floor_log2 rounded_latency (q ∷ rest) k =
    let r = process_request floor_log2 rounded_latency q.0 q.1 q.2 k in
    let done = process_all floor_log2 rounded_latency rest r.0 in (done.0, r.1 ∷ done.1)
