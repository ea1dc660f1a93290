-- ===== src/StackedDram/Latency.antt =====
-- `StackedDramPerfUnison::getAccessLatency` of performance_model/stacked_dram_cntlr.cc. The DRAM
-- simulator is a copy of another project: the clocks that the latest of its requests takes are a
-- function of all of them. The ticks and the locals that the code computes and does not use are not modelled.
use sniper_zip.Prelude.{
  ℕ, ◌+◌, ◌/◌, Bool, Option, none, some, if◌then◌else◌, ltb, List, ◌∷◌, u32, u64, for_range,
}
use sniper_zip.Remapping
use sniper_zip.DramBank.{ns}
use sniper_zip.DramVault.{Access, read, write}
use sniper_zip.StackedDram.{Config, StackedDram, Served, split_set_num, check_set_num}

-- Configured sizes and delays, and what the parts outside the repository cost.
pub record Costs : Type 0 where
  pub max_block : ℕ
  pub bandwidth : ℕ
  pub obus_delay : ℕ
  pub on_top : Bool
  -- `freq_table` of the statistics manager, in MHz.
  pub freq_table : ℕ → ℕ
  -- Clocks of the latest request to the DRAM simulator.
  pub clocks : List Served → ℕ
  -- `UInt64(tCK * clks)`: at 1000.0 / freq when a frequency is given, else at `tCK` of the simulator.
  pub clocks_ns : Option ℕ → ℕ → ℕ
  -- m_dram_bandwidth.getRoundedLatency(bits)
  pub rounded_latency : ℕ → ℕ

-- size / unit, and at least one.
abbrev pub rounds_of : ℕ → ℕ → ℕ
rounds_of size unit = if ltb (size / unit) 1 then 1 else size / unit

-- The latency of the latest request: on top of the cores the DRAM runs at their frequency.
abbrev pub latency_ns : Costs → ℕ → List Served → ℕ
latency_ns costs freq_lev all =
    let current_freq = if costs.on_top then some (costs.freq_table freq_lev) else none in
    costs.clocks_ns current_freq (costs.clocks all)

-- One round of the loop on the requests.
unfoldable pub serve : Costs → Served → ℕ → StackedDram × ℕ → StackedDram × ℕ
serve costs q k (d, latency) =
    let all = q ∷ d.served in
    (record d { served = all }, u64 (latency + ns (latency_ns costs d.freq_lev all)))

abbrev pub count_request : Access → StackedDram → StackedDram
count_request read d = record d { tot_reads = u32 (d.tot_reads + 1) }
count_request write d = record d { tot_writes = u32 (d.tot_writes + 1) }

-- The statistics of a request: the time, the row's counter, and reads or writes.
unfoldable pub count_access : Config → ℕ → ℕ → Access → StackedDram → StackedDram
count_access c pkt_time set_i access_type d =
    let i = split_set_num c d set_i in
    count_request access_type (record d {
      last_req = if ltb d.last_req pkt_time then pkt_time else d.last_req;
      manager = Remapping.access_row d.remapped i.vault i.bank i.row d.manager;
    })

-- `getAccessLatency`: the DRAM, and the latency.
unfoldable pub get_access_latency :
    Config → Costs → ℕ → ℕ → ℕ → Access → StackedDram → StackedDram × ℕ
unfolding for_range
get_access_latency c costs pkt_time pkt_size set_i access_type d0 =
    let d = check_set_num c set_i d0 in
    let i = split_set_num c d set_i in
    let place = Remapping.get_physical_index i.vault i.bank i.row d.manager in
    let q : Served = record { access_type = access_type; place = place; time = pkt_time } in
    for_range (rounds_of pkt_size costs.max_block) 0 (serve costs q)
      (count_access c pkt_time set_i access_type d, 0)
