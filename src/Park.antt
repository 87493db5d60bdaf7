-- ===== src/Park.antt =====
-- src/waiter/park.rs: the waiter that parks an OS thread.
pub mod Calls
pub mod Sleep
pub mod Waits
pub mod Deadline
pub mod Race
pub mod Invariant
pub mod Wakes
