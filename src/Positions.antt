-- ===== src/Positions.antt =====
-- Positions of lenders and their snapshots: the positions of
-- examples/linx-indexer/src/repository/lending_repository.rs, and
-- examples/linx-indexer/src/services/position_snapshot_service.rs, which stores them with their values.
pub mod Shares
pub mod Pages
pub mod Markets
pub mod Snapshots
pub mod Slices
pub mod Reached
pub mod Rounds
mod Tests
