-- ===== src/Waiter.antt =====
-- src/waiter: the wait/wake backends.
mod Trait
pub use Trait.*
pub mod Sleep
