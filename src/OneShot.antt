-- ===== src/OneShot.antt =====
-- src/route/oneshot.rs: a channel for a single value. `Calls` has its methods as functions, `Protocol`
-- the same steps as two threads interleave them.
pub mod Calls
pub mod Laws
pub mod Protocol
pub mod Safety
