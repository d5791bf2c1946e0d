-- ===== src/Indexer.antt =====
-- The indexer's core (crates/bento-core/src/workers): fetching blocks from a node, the worker that
-- decides which ranges to fetch, and the pipeline that processes and stores them.
pub mod Range
pub mod Fetch
pub mod Worker
pub mod Pipeline
