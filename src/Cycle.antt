-- ===== src/Cycle.antt =====
-- extensions/ooptdd-mutation/src/ooptdd_mutation/ouroboros: the evidence cycle of the mutation
-- extension, in which a run has to fail once its source is mutated and pass once it is restored.
pub mod Model
pub mod Payload
pub mod Runs
pub mod Reducer
pub mod Step
pub mod Invariant
pub mod Facts
pub mod Stages
pub mod Commit
pub mod Faults
pub mod Evidence
pub mod Ran
pub mod Moves
pub mod Bite
pub mod Restoring
pub mod Interrupting
pub mod Kept
pub mod Reach
pub mod Journal
pub mod Replays
pub mod Stops
pub mod Stored
mod Samples
mod Tests
