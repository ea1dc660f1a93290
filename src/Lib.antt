-- ===== src/Lib.antt =====
-- sniper_zip: the stacked-DRAM cache model of the simulator, with its thermal remapping, as
-- definitions that run and theorems about them.
--
-- The program and its parts. A request to memory goes to the DRAM cache controller
-- (performance_model/dram_perf_model_normal.cc). It looks the page up in a set of the cache, and
-- passes the accesses to the stacked DRAM (performance_model/stacked_dram_cntlr.cc), which finds the
-- vault, bank and row of a set and asks the remapping manager (performance_model/remapping.cc) where
-- they are now. When temperatures arrive, the manager disables or combines hot banks; the controller
-- then gives up the content of the banks that moved.
--
-- The files.
--   Prelude      tests, arrays as functions of the index, counted loops, 8-, 32- and 64-bit words,
--                division into rows, single bits.
--   Mea          `mea_map` and `BankStat::accessRow` of performance_model/remapping.cc, a std::map as
--                the list of its entries in order; Mea/Decrement and Mea/Frequency prove what it counts.
--   Remapping    `RemappingManager` of performance_model/remapping.h and .cc. Remapping/Bank has
--                `BankStat`, Remapping/Mechanism has `runMechanism` with a function for each test of
--                its body. Remapping/Pairing, Operations, Safety and Runs prove how banks are
--                combined; Hysteresis has policy 0, Target the search for a cool bank, Index the
--                indices.
--   PageInfo     `DramCachePageInfo` of performance_model/dram_perf_model_normal.h and .cc.
--   CacheSet     `DramCacheSetUnison` of the same files.
--   DramBank     `BankPerfModel` of performance_model/dram_bank.h and .cc, and DramVault
--                `VaultPerfModel` of dram_vault.h and .cc; DramVault/Rows, Commands and Requests prove
--                what a request leaves open and costs.
--   SwapTable    the swap that two tables share, over an interface of their entries. BankTable is
--                performance_model/bank_remap.h and .cc, VaultTable vault_remap.h and .cc; their Swap
--                modules are about pairs of entries.
--   StackedDram  `StackedDramPerfUnison` and `StackedDramPerfMem` of
--                performance_model/stacked_dram_cntlr.h and .cc; what the DRAM simulator answers is
--                a parameter; StackedDram/SetNumber proves what set numbers stand for.
--                StackedDram/Latency has its `getAccessLatency`.
--   PageTable    `translateAddress` and `SplitAddress` of
--                performance_model/dram_perf_model_normal.cc.
--   Controller   `checkRemapping` and `handleDramAccess` of
--                performance_model/dram_perf_model_normal.cc; Controller/Kept, Emptying, Sweep,
--                Untouched and Each prove which sets it gives up.
--   Request      `ProcessRequest` of the controller and `DramPerfModelNormal::getAccessLatency`, over
--                all of the above. Request/Kept and Received prove what a request changes, Again is about
--                a repeated request, Distinct about the ways of a page, Counts about the counters.
--   Alloy        the direct-mapped cache of performance_model/dram_perf_model_alloy.h and .cc;
--                Alloy/Refines has the table that it refines.
--   NewRemapping the second version of the manager, performance_model/new_remapping/remapping.h and
--                .cc; Settled, Target and Inside prove what its policies do.
--   NewDram      `StackedDramPerfUnison` of performance_model/new_remapping/stacked_dram_cntlr.cc.
--   NewController `StackDramCacheCntlrUnison` of
--                performance_model/new_remapping/dram_perf_model_normal.cc, its requests in
--                NewController/Requests; Migrates, Addresses and Distinct prove what it does.
--   Segments     `SrcEntry` and `DramPerfModelConstant` of
--                performance_model/dram_perf_model_constant.h and .cc; Segments/Window proves which
--                segment is swapped in.
--   Dtm          dynamic thermal management: `checkDTM` and the functions below it of misc/stats.cc, and
--                the clock domains of system/dvfs_manager.cc; Dtm/Domains is about these and the
--                level, Dtm/Slows about a hot DRAM.
--   Thermal      what `callHotSpot` of misc/stats.cc does with the temperatures, over StackedDram and
--                Dtm; Thermal/Banks is about how each bank is read, Thermal/Hottest about the hottest
--                bank and the clocks.
--   Recording    `recordStats` and `updatePower` of misc/stats.cc for the banks; Recording/Taken and
--                Conserved are about its counts.
--   Tests        runs at concrete inputs, and each theorem applied at one.
--
-- How state is modelled. A class is a record, a method a function to the new record and the result.
-- Vectors and arrays are functions of the index; pointers into them are indices. A message on
-- std::cout that reports an error is a value in the field `log`, or in the list that `migrateRow` returns.
-- Unsigned results are taken modulo their width where they are stored; signed counters of statistics do
-- not wrap, except those of Thermal, which are taken by their 32 bits.
-- The level of the frequency, a global of the statistics manager that the DRAM reads, is a field of both;
-- `callHotSpot` and an event of Request set it.
-- Temperatures are doubles in the program: here a temperature is a number of steps of 1 / `temp_unit`
-- degree, for any `temp_unit`; with 2^1074 steps every finite double from 0 on is one of them.
-- Negative temperatures and NaN are not modelled. A shift by the width of a word or more is undefined
-- in C++, and what it gives is the parameter `Undefined`.
--
-- Fuel. The loops that shift a word to 0 have 33 rounds, one more than the bits of the word;
-- PageInfo/Counting proves that they end before.
--
-- Parameters. floorLog2, the configuration, the temperatures that HotSpot computes and the average that
-- doubles make of them, `ComponentPeriod::fromFreqHz`, the clocks of the DRAM simulator and what doubles
-- make of them in ns, the latency of the memory bus, and the samples of the distribution of memory's
-- access costs are arguments of the definitions that use them.
--
-- Not modelled: updateStats of the stacked DRAM, which copies counters of the DRAM simulator; the
-- database, the traces, the power and the arguments of HotSpot in misc/stats.cc. misc/HotSpot and
-- performance_model/ramulator are other projects' simulators; cache_cntlr.cc and the power model are
-- files of the Sniper simulator over classes that are not in the repository; printing, configuration
-- files and the Python tools.
mod Prelude
pub mod Mea
pub mod Remapping
pub mod PageInfo
pub mod CacheSet
pub mod DramBank
pub mod DramVault
pub mod BankTable
pub mod VaultTable
pub mod SwapTable
pub mod StackedDram
pub mod PageTable
pub mod Controller
pub mod Request
pub mod Alloy
pub mod NewRemapping
pub mod NewDram
pub mod NewController
pub mod Segments
pub mod Dtm
pub mod Thermal
pub mod Recording
mod Tests
