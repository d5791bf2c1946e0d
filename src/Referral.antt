-- ===== src/Referral.antt =====
-- The application of a referral code: the handler of
-- examples/linx-indexer/src/routers/points_router.rs and the operations of
-- examples/linx-indexer/src/repository/points_repository.rs that it uses.
pub mod Times
pub mod Repository
pub mod Request
pub mod Handler
pub mod Checks
pub mod Applied
pub mod Lost
mod Tests
