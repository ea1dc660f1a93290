-- ===== src/Tests/Request.antt =====
-- Requests to the DRAM cache, and the theorems about them.
use sniper_zip.Prelude.{ℕ, ◌+◌, ◌<◌, ◌≤◌, ◌≡◌, refl, true, false, [], ◌∷◌, arith, List}
use sniper_zip.DramVault
use sniper_zip.CacheSet.{new_set}
use sniper_zip.StackedDram.{StackedDram}
use sniper_zip.Request.{
  Outside, CacheCntlr, Packet, new_cache, new_controller, process_request, happen_all, requests,
  heats, remaps, clears, throttles, Event,
}
use sniper_zip.Request.Again.{process_request_again}
use sniper_zip.Request.Distinct.{IsDistinct, happen_all-IsDistinct}
use sniper_zip.Request.Counts.{requests_in, happen_all_counts, request_all, happen_all_off}
use sniper_zip.Tests.Addresses.{config, dram}
use sniper_zip.Tests.CacheSet.{x86}
use sniper_zip.Tests.Moved.{costs, moved}

abbrev outside : Outside
outside = record {
  avg_queue_latency = 20;
  inter_vault = false;
  disabled = false;
  access_cost = λ n. 45000000;
  undefined = x86;
}

abbrev pub load : ℕ → Packet
load address = record { time = 0; size = 64; access_type = DramVault.read; address = address }

abbrev pub store : ℕ → Packet
store address = record { time = 9; size = 64; access_type = DramVault.write; address = address }

-- Pages of 31 blocks of 64 bytes, in 16 sets of 4 ways.
abbrev cache : StackedDram → CacheCntlr
cache d = new_cache 16 4 64 1984 (0, 0, 0) d

cache-HasWays : (x : ℕ) → 0 < ((cache moved).cntlr.sets x).associativity
unfolding new_cache new_controller new_set
cache-HasWays x = omega arith

process_request_again_example :
    let m' = (process_request (config 1) costs outside (load 5000) (cache moved)).0 in
    (process_request (config 1) costs outside (store 5000) m').0.cntlr.page_misses
    ≡ m'.cntlr.page_misses
process_request_again_example =
    process_request_again (config 1) costs outside (load 5000) (store 5000) (cache moved)
      cache-HasWays refl

abbrev events : List Event
events =
    requests (load 5000)
    ∷ heats 0 0 99
    ∷ remaps
    ∷ clears
    ∷ throttles 2
    ∷ requests (store 9000)
    ∷ requests (load 5064)
    ∷ []

happen_all-IsDistinct_example :
    IsDistinct ((happen_all (config 1) costs outside events (cache dram)).cntlr.sets 3)
happen_all-IsDistinct_example =
    happen_all-IsDistinct (config 1) costs outside events 16 4 64 1984 (0, 0, 0) dram 3

happen_all_counts_example :
    let k = (happen_all (config 1) costs outside events (cache dram)).cntlr in
    (k.cache_access ≡ 3) × (k.page_misses + k.block_misses ≤ k.cache_access)
unfolding requests_in
happen_all_counts_example =
    happen_all_counts (config 1) costs outside events 16 4 64 1984 (0, 0, 0) dram (omega arith)

abbrev off : Outside
off = record outside { disabled = true }

happen_all_off_example :
    let qs = load 5000 ∷ store 9000 ∷ [] in
    let m = happen_all (config 1) costs off (request_all qs) (cache dram) in
    (m.cntlr.sets 3 ≡ new_set 4)
    × (m.cntlr.dram ≡ dram)
    × (m.cntlr.page_misses ≡ 0)
    × (m.cntlr.block_misses ≡ 2)
    × (m.page_disabled ≡ 2)
happen_all_off_example =
    happen_all_off (config 1) costs off (load 5000 ∷ store 9000 ∷ []) 16 4 64 1984 (0, 0, 0) dram 3
      refl refl (omega arith)
