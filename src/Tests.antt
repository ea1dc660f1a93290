-- ===== src/Tests.antt =====
-- Runs of the models at concrete inputs, and the theorems applied there.
mod Mea
mod Remapping
mod Addresses
mod Banks
mod CacheSet
mod Moved
mod Request
mod Alloy
mod NewRemapping
mod NewController
mod Segments
mod Dtm
mod Thermal
mod Recording
