-- ===== src/Dex.antt =====
-- examples/linx-indexer/src/processors/dex_processor.rs: the pools of two exchanges, the swaps in
-- them, and the one row that the swaps of a transaction become.
pub mod Pools
pub mod Swaps
pub mod Hops
pub mod Processor
mod Tests
