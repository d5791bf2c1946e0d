-- ===== src/Types.antt =====
-- crates/bento-types/src: the blocks, transactions and events that the node returns, and the two
-- libraries on whose values the program computes, decimal numbers and times.
pub mod Block
pub mod Libraries
