-- ===== src/Lib.antt =====
-- arbitro-kit: channels between threads, built on a single-producer single-consumer ring.
--
-- The program and its files:
--
-- * src/stream/ring.rs, the ring. Ring.Types has its state, `Ring.Shared` the methods of `Ring`, Ring.Tx
--   those of `Producer` and Ring.Rx those of `Consumer`; a function has the name of the method, and takes
--   and returns the handle and the shared state. Cells has the slot array: a cell holds `some v` or,
--   uninitialised, `none`. Ring.Queue is what the ring promises, a FIFO queue, and `Represents` relates the
--   two. Send, Bulk, Recv, Drain, Unwind, Teardown, Attempts, Blocking, BlockingRecv and History are about the
--   methods in turn.
--   Ring.Threads has the accesses of the two threads to the shared state as a step relation, in which a load
--   of the other side's cursor may be out of date; ThreadInv, ThreadSafety and ThreadCalls are about it.
-- * src/route/oneshot.rs, a channel for one value. OneShot.Calls has each method run to its end,
--   OneShot.Protocol the atomic accesses of the two threads as a step relation.
-- * src/route/mpsc.rs, one ring for each producer and a consumer that scans them. Mpsc.Types, Mpsc.Tx,
--   Mpsc.Rx and Mpsc.Async have the state and the methods, Mpsc.Queues the promise, Mpsc.Lanes the relation.
--   Mpsc.Closing has `recv` and the producers as threads, a call on one ring or an access of the counter or
--   the flag at a time; Mpsc.Finished is about it.
-- * src/gate/signal_set.rs, a bitmap of gates: SignalSet.
-- * src/route/mpmc.rs, a ring for each pair of a producer and a shard; each consumer has a shard. Mpmc.Types,
--   Mpmc.Tx and Mpmc.Rx have the state and the methods, Mpmc.Grid the promise, a grid of FIFO queues, and
--   `Stands`, which relates the two. The other files are about the methods in turn, and
--   Mpmc.History and Mpmc.ExactlyOnce about any sequence of them.
-- * The producer pool of src/route/mpsc.rs. Mpsc.Pool has `MpscProducerPool` and `MpscProducerLease`,
--   Mpsc.Slots its invariant, and PoolNew, Lease and Held are about its operations. Mpsc.Leasing has the
--   accesses of `acquire` and of a lease's drop by any number of threads as a step relation; Leases, LeaseInv,
--   LeaseSteps and LeaseSafety are about it.
-- * src/waiter/mod.rs and src/waiter/noop.rs: the trait that all of these are generic over, as an interface
--   (Waiter). Waiter.Sleep has `wait_until` as a loop over the caller's predicate, for a backend that Park.Sleep
--   and Notify.Sleep give.
-- * src/waiter/park.rs, the waiter that parks a thread. Park.Calls has the methods, which take the answers
--   of the predicate and the readings of the clock as lists, and Park.Race the accesses of the waiter's
--   thread and any number of wakers, with store buffers, as a step relation.
-- * src/waiter/notify.rs, the waiter that suspends a tokio task. Notify.Tokio is what it uses of tokio's
--   `Notify`, as a parameter with laws, Notify.Calls has the methods, and Notify.Race the accesses of the
--   task and any number of wakers. Waits, Wakes and Atomic are about these.
-- * Prelude has what they share, and Tests runs them on concrete inputs.
--
-- Conventions. A cursor is a `usize` of 64 bits, with its wrap-around written out. `none` is a fault: a
-- panic, or undefined behaviour such as reading an uninitialised slot. A call runs to its end before the
-- next begins, but in OneShot.Protocol, Ring.Threads, Mpsc.Closing, Mpsc.Leasing, Park.Race and Notify.Race, and
-- in the calls that wait. Those of the ring, the one-shot channel and the signal set take what the others do while
-- the caller sleeps as a list of functions on the shared state, and look again only after a wake; those of the
-- M:1 and M:N channels take a function for each wait, after which they look again. `recv` of the M:N channel
-- between its two looks, and `acquire` and the drop of a lease between their accesses, take such functions too.
-- A closure that may panic returns a `Call`.
--
-- Fuel. `drain_loop`, `ring_loop` and `drop_loop` have one round more than there are slots, which is enough
-- since the cursors are never further apart. `try_recv_batch` takes the number of passes as an argument, and so
-- does `drain_all`; with no sender active two are enough. `send` and `recv` of the ring take the number of rounds of
-- their loop; after a wake that makes room, or brings an item, two are enough.
--
-- Not modelled: memory orderings (accesses are taken in one order, but for the store buffers of Park.Race
-- and Notify.Race and the reads of Ring.Threads and Mpsc.Closing that miss the latest change), the threads
-- of the M:N channel interleaved at each atomic access, the predicates of the waits of the M:1 and M:N channels,
-- and a panic of the closure of `drain` in Ring.Threads.
pub mod Cells
pub mod Mpmc
pub mod Mpsc
pub mod Notify
pub mod OneShot
pub mod Park
pub mod Prelude
pub mod Ring
pub mod SignalSet
pub mod Tests
pub mod Waiter
