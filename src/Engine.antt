-- ===== src/Engine.antt =====
-- src/opoi/engine.rs: the life of a request that one miner answers as a whole.
pub mod Commit
pub mod Rows
pub mod Decided
pub mod Submit
pub mod Answered
pub mod Reveal
pub mod Stake
pub mod Assign
pub mod Held
mod Tests
