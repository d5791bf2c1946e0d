-- ===== src/Lib.antt =====
-- The backend of the Linx app: an indexer that reads blocks from the nodes of the Alephium network
-- and stores what its processors make of them in a database, and services that compute points on
-- what is stored. This library models the parts named below and proves what they do.
--
-- The parts and how they interact. A worker (crates/bento-core/src/workers/worker.rs) decides which
-- ranges of time to fetch. A range is divided among parallel requests (fetch.rs), which give
-- batches of blocks; the batches pass through a pipeline of two tasks (pipeline.rs, stage.rs), once
-- for each processor. A processor (crates/bento-trait/src/processor.rs) turns blocks into an output
-- and stores it through a repository. The points calculator runs once a day over what was stored.
--
-- Which file models which part:
--   Base and the files below it: shared helpers. Outcome is Rust's Result with panics, Action is
--     a fallible step on a state, Store a database whose calls can fail, U64 and I32 are wrapping
--     integers, Ints the exact signed ones, Equality and HashMap the standard library's sets and
--     maps, and Collect what collecting a list of results gives.
--   Types/Block: the node's data (crates/bento-types/src/lib.rs). Types/Libraries: the decimals and
--     times of libraries, as records of the operations that are called.
--   Indexer/Range, Indexer/Fetch: crates/bento-core/src/workers/fetch.rs. fetch_parallel and
--     fetch_chunk keep their names; the node is an argument.
--   Indexer/Pipeline: crates/bento-core/src/workers/pipeline.rs and stage.rs. A run is a sequence of
--     Steps of the sender and the two tasks, so that a theorem on runs holds under any scheduling.
--   Indexer/Worker: crates/bento-core/src/workers/worker.rs (run_backfill, run_sync, sync_range,
--     sync_at_height, run_pipeline).
--   Processors/Classifier, Records, Transfer, ContractCall, LendingEvents, Lending:
--     examples/linx-indexer/src/processors/classifier.rs, transfer_processor.rs,
--     contract_call_processor.rs and lending_processor.rs, and the rows of
--     examples/linx-indexer/src/models. Processors/Partition relates the first two processors, and
--     Processors/Storage has their store_output.
--   Accounts: examples/linx-indexer/src/repository/account_transactions_repository.rs.
--   Points/Activity, Sources, Swaps, Lending, Referrals, Snapshots, Calculator:
--     examples/linx-indexer/src/services/points_calculator_service.rs, with the operations of
--     examples/linx-indexer/src/repository/points_repository.rs that it uses.
--   Referral/Times, Request, Repository, Handler: apply_referral_handler of
--     examples/linx-indexer/src/routers/points_router.rs, with its operations of
--     examples/linx-indexer/src/repository/points_repository.rs. Referral/Applied says what a success
--     means, Referral/Lost what a failure leaves behind.
--   Positions/Shares, Pages: the positions of examples/linx-indexer/src/repository/lending_repository.rs
--     (calculate_user_position, calculate_positions_for_market). Positions/Markets, Snapshots:
--     examples/linx-indexer/src/services/position_snapshot_service.rs; Positions/Reached is about the
--     positions that its loop over pages gets to, Positions/Rounds about all markets.
--   Dex/Pools, Swaps, Processor: examples/linx-indexer/src/processors/dex_processor.rs,
--     examples/linx-indexer/src/models/pools.rs and
--     examples/linx-indexer/src/repository/pool_repository.rs. Dex/Hops and the files below it are
--     about aggregate_multi_hop_swaps: its grouping, its order and the routes it makes, with
--     Dex/Hops/Mixed from the events on.
--   Crypto: examples/linx-indexer/src/crypto.rs. Address: examples/linx-indexer/src/lib.rs.
--   Blocks, Blocks/Update: crates/bento-types/src/repository/mod.rs and block.rs (update_main_chain),
--     with crates/bento-types/src/models/block.rs. Blocks/Stored, Path, Settled and MainChain say
--     where it leads when the database answers, Blocks/Status what it keeps whatever fails.
--   Gaps, Gaps/Report, Gaps/Backfill: examples/linx-indexer/src/services/gap_detection_service.rs. The
--     backfill uses sync_at_height; Gaps/Lacking is about its panic.
--   A module Tests of a part runs its functions on small inputs and applies its theorems to them.
--
-- How the state is modelled. The database is a state that is passed on: any type where only the
-- repositories look into it, and otherwise a list or a map of rows. A hash map is the list of its
-- entries; the order in which a program visits it is an argument, and a theorem asks of it only
-- that every entry is visited. A call of the database that can fail has its answer as an argument:
-- by the number of the call in Blocks, where a transaction that fails is rolled back, by what the
-- statement asks for the snapshots of points (the answers of Surroundings), and by the connection
-- of a repository elsewhere; a row that the database refuses is a test on the row. Decimals and
-- times are arguments too, with the laws that a theorem uses as its hypotheses. A panic is an
-- outcome of its own, which no caller catches.
--
-- Bounds and fuel. A u64 is a number below 2 ^ 64 and an i32 the number of its 32 bits; both wrap
-- around as in a release build. The backfill loop takes fuel for its windows, and the theorem on it
-- states how much is enough; a pipeline with more batches than its channel holds never returns, and
-- the loops that wait for it have the value none, as they have without fuel; the loop over a range
-- of days is given exactly one turn per day and one to end. The walk of update_main_chain takes
-- fuel too: one round more than the blocks of the path is enough. The loop over pages of positions
-- takes fuel, where one turn more than the market has addresses is enough. The digits of a 64-bit
-- number take 20 rounds, which is as many as it can have.
--
-- What is not modelled: requests over HTTP and their retries, websockets, logging, pauses and
-- progress output, the parsing of configuration, the encoding of values as JSON, and the SQL of
-- queries that only the routers use. The endless loops of run_sync and of the scheduler are
-- modelled by their turns. Processors of one worker run one after the other. The storing of pools
-- and swaps, the snapshots of markets, the cache of prices, the other queries of the lending
-- repository and its router, the other handlers of the points router and the server are not part of
-- this library.
pub mod Base
pub mod Types
pub mod Indexer
pub mod Positions
pub mod Processors
pub mod Points
pub mod Accounts
pub mod Gaps
pub mod Address
pub mod Dex
pub mod Crypto
pub mod Blocks
pub mod Referral
