-- ===== src/Gate.antt =====
-- src/ooptdd/engine/gate_rules.py, src/ooptdd/engine/gate_kernel.py and src/ooptdd/engine/gate.py: the
-- gate, which judges the events of a run against a spec.
pub mod Values
pub mod Rules
pub mod Label
pub mod Charged
pub mod Names
pub mod Scope
pub mod Decorate
pub mod Kernel
pub mod Verdict
pub mod Handlers
pub mod Settle
pub mod Evaluated
mod Kept
pub mod Silent
mod Irrevocable
mod Agreement
mod Alike
pub mod Shell
pub mod Reread
pub mod Tier
pub mod Rungs
pub mod Bounds
pub mod Strength
pub mod Samples
mod Tests
