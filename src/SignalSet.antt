-- ===== src/SignalSet.antt =====
-- src/gate/signal_set.rs: a set of gates kept as a bitmap.
pub mod Defs
pub mod Gates
pub mod Names
pub mod Acquire
