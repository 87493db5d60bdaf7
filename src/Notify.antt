-- ===== src/Notify.antt =====
-- src/waiter/notify.rs: the waiter that suspends a tokio task.
pub mod Tokio
pub mod Calls
pub mod Sleep
pub mod Waits
pub mod Race
pub mod Invariant
pub mod Wakes
pub mod Atomic
