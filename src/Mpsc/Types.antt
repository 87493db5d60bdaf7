-- ===== src/Mpsc/Types.antt =====
-- The state of src/route/mpsc.rs. `MpscProducer` and `MpscConsumer` hold the two ends of each ring;
-- `Lane` gathers what belongs to one producer index.
use arbitro_kit.Prelude.{
  ℕ, Bool, false, List, Option, none, some, ltb, leb, ◌==◌, ◌&&◌, ◌||◌, if◌then◌else◌, ◌>>=◌,
  replicate,
}
use arbitro_kit.Waiter.{Waiter, NoopWaiter, noop_waiter}
use arbitro_kit.Ring.Types.{Ring, Producer, Consumer, Link}
use arbitro_kit.Ring.Shared

-- `MAX_MPSC_PRODUCERS`.
abbrev pub max_producers : ℕ
max_producers = 255

-- `Inner`.
pub record Inner (W : Type 0) : Type 0 where
  pub fanin_waiter : W
  pub producer_waiters : List W
  pub live_producers : ℕ
  pub shutdown : Bool
  pub m : ℕ

-- `ring_producer` is `none` once the producer has been dropped.
pub record Lane (A : Type 0) : Type 0 where
  pub ring_producer : Option Producer
  pub ring_consumer : Consumer
  pub shared : Ring A NoopWaiter

pub record Mpsc (A W : Type 0) : Type 0 where
  pub inner : Inner W
  pub lanes : List (Lane A)

abbrev pub lane_of : {A : Type 0} → Link A NoopWaiter → Lane A
lane_of l = record { ring_producer = some l.tx; ring_consumer = l.rx; shared = l.shared }

-- `Mpsc::new`: `none` is the panic of an assertion. Each ring is built alike.
unfoldable pub new : (A : Type 0) {W : Type 0} ⦃w : Waiter W⦄ → ℕ → ℕ → Option (Mpsc A W)
new A ⦃w⦄ cap m =
    if ltb 0 m && leb m max_producers
    then (do
      ring ← Shared.new A cap
      some (record {
        inner = record {
          fanin_waiter = w.fresh;
          producer_waiters = replicate m w.fresh;
          live_producers = m;
          shutdown = false;
          m = m;
        };
        lanes = replicate m (lane_of ring);
      }))
    else none

module _ {A W : Type 0} where
  -- `Inner::is_shutdown_signaled`.
  unfoldable pub is_shutdown_signaled : Mpsc A W → Bool
  is_shutdown_signaled ch = ch.inner.shutdown

  -- `Inner::all_producers_gone`.
  unfoldable pub all_producers_gone : Mpsc A W → Bool
  all_producers_gone ch = ch.inner.live_producers == 0

  -- `MpscConsumer::is_closed`, and `MpscShutdown::is_closed`.
  unfoldable pub is_closed : Mpsc A W → Bool
  unfolding is_shutdown_signaled all_producers_gone
  is_closed ch = is_shutdown_signaled ch || all_producers_gone ch

  -- `MpscShutdown::is_signaled`.
  unfoldable pub is_signaled : Mpsc A W → Bool
  is_signaled ch = ch.inner.shutdown
