-- ===== src/Speculative.antt =====
-- src/opoi/speculative_engine.rs: speculative decoding. A small draft model proposes tokens; the
-- target pipeline verifies them in one pass, and the engine commits what the target confirms.
pub mod Round
pub mod Greedy
pub mod Pipeline
pub mod Dispatch
pub mod Rollback
pub mod Results
pub mod Steps
pub mod Lines
pub mod Committed
mod Tests
