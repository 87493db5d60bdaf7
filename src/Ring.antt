-- ===== src/Ring.antt =====
-- src/stream/ring.rs
pub mod Types
pub mod Shared
pub mod Tx
pub mod Rx
pub mod Queue
pub mod Basics
pub mod Send
pub mod Bulk
pub mod Recv
pub mod Feed
pub mod Drain
pub mod Unwind
pub mod Teardown
pub mod Attempts
pub mod Blocking
pub mod BlockingRecv
pub mod History
pub mod Threads
pub mod ThreadInv
pub mod ThreadCursors
pub mod ThreadSafety
pub mod ThreadCalls
