-- ===== src/Ltl.antt =====
-- Proofs on the monitors of src/ooptdd/engine/monitor.py: what their three-valued verdicts promise.
mod Numbers
mod Count
mod Present
mod Offenders
mod Heartbeat
mod Order
mod Sound
mod Compiled
pub mod Anticipation
mod Live
pub mod Entries
mod Foretold
mod Reference
mod Conformance
mod Tests
