-- ===== src/Mpsc.antt =====
-- src/route/mpsc.rs: an M:1 channel made of one ring for each producer.
pub mod Types
pub mod Tx
pub mod Rx
pub mod Queues
pub mod Lanes
pub mod Send
pub mod SendBulk
pub mod Leave
pub mod Recv
pub mod Batch
pub mod Finish
pub mod Async
pub mod Pool
pub mod Slots
pub mod Lease
pub mod Leasing
pub mod Leases
pub mod LeaseInv
pub mod LeaseSteps
pub mod LeaseSafety
pub mod PoolNew
pub mod Held
pub mod Closing
pub mod Ports
pub mod Finished
