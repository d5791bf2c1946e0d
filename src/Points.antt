-- ===== src/Points.antt =====
-- examples/linx-indexer/src/services/points_calculator_service.rs and the tables it works on: the
-- points that users earn each day for swaps and for lending, with multipliers and referrals.
pub mod Activity
pub mod Sources
pub mod Swaps
pub mod Lending
pub mod Referrals
pub mod Snapshots
pub mod Calculator
pub mod Samples
mod Tests
