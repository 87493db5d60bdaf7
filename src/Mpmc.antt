-- ===== src/Mpmc.antt =====
-- src/route/mpmc.rs: an M:N channel, one ring for each pair of a producer and a shard.
pub mod Types
pub mod Tx
pub mod Rx
pub mod Grid
pub mod Rows
pub mod Send
pub mod SendBatch
pub mod Recv
pub mod DrainRound
pub mod Drain
pub mod Ends
pub mod LastSend
pub mod Gauges
pub mod Contents
pub mod History
pub mod Keeps
pub mod ExactlyOnce
