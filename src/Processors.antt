-- ===== src/Processors.antt =====
-- The processors of examples/linx-indexer/src/processors, which turn blocks into the rows that the
-- application stores.
pub mod Classifier
pub mod Records
pub mod Transfer
pub mod ContractCall
pub mod Partition
pub mod LendingEvents
pub mod Lending
pub mod Storage
pub mod Samples
mod Tests
