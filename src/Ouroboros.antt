-- ===== src/Ouroboros.antt =====
-- src/ooptdd/ouroboros: the protocol kernel.
pub mod Model
pub mod Reducer
pub mod Receipt
pub mod Distinct
pub mod Outcome
pub mod Progress
pub mod Replay
pub mod History
mod Tests
