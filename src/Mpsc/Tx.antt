-- ===== src/Mpsc/Tx.antt =====
-- `MpscProducer` and `MpscShutdown` of src/route/mpsc.rs. A producer is its index, `my_idx`. `none` is a
-- fault: an index out of range, the `expect` on a dropped producer, or a fault of the ring.
use arbitro_kit.Prelude.{
  ℕ, ◌-◌, Bool, true, false, List, [], ◌∷◌, Option, none, some, ltb, ◌==◌, ◌||◌, if◌then◌else◌,
  ◌>>=◌, get_elem?, set, map, length, wrapping_sub, Result, ok, err,
}
use arbitro_kit.Waiter.{Waiter, noop_waiter}
use arbitro_kit.Ring.Types.{TrySendError, full}
use arbitro_kit.Ring.Shared
use arbitro_kit.Ring.Tx
use arbitro_kit.Mpsc.Types.{Inner, Lane, Mpsc}

-- `MpscProducer::pending`: 0 where the ring's producer is gone.
unfoldable pub pending : {A : Type 0} → Lane A → ℕ
pending l = elim l.ring_producer [ none ↦ 0 | some p ↦ Shared.len l.shared ]

-- `MpscProducer::available`.
unfoldable pub available : {A : Type 0} → ℕ → Lane A → ℕ
unfolding pending
available cap l = cap - pending l

abbrev pub wake_fanin : {W : Type 0} ⦃w : Waiter W⦄ → Inner W → Inner W
wake_fanin ⦃w⦄ inner = record inner { fanin_waiter = w.wake inner.fanin_waiter }

module _ {A W : Type 0} ⦃w : Waiter W⦄ (cap : ℕ) where
  -- The result and the waking of `MpscProducer::try_send`, from what the ring's `try_send` returned.
  unfoldable pub settle :
      Inner W → Result (TrySendError A) (Unit {0}) → Result A (Unit {0}) × Inner W
  settle inner (ok _) = (ok tt, wake_fanin inner)
  settle inner (err (full v)) = (err v, inner)
  settle inner (err (TrySendError.closed v)) = (err v, inner)

  -- `MpscProducer::try_send` once the shutdown flag has been read.
  unfoldable pub transmit : Mpsc A W → ℕ → A → Option (Result A (Unit {0}) × Mpsc A W)
  transmit ch idx v = do
    lane ← get_elem? ch.lanes idx
    rp ← lane.ring_producer
    (res, rp', shared) ← Tx.try_send cap rp lane.shared v
    let (out, inner) = settle ch.inner res
    some (
      out,
      record {
        inner = inner;
        lanes = set ch.lanes idx (record lane { ring_producer = some rp'; shared = shared });
      },
    )

  -- `MpscProducer::try_send`.
  unfoldable pub try_send : Mpsc A W → ℕ → A → Option (Result A (Unit {0}) × Mpsc A W)
  try_send ch idx v = if ch.inner.shutdown then some (err v, ch) else transmit ch idx v

  -- `MpscProducer::try_send_bulk` once the emptiness of the vector and the flag have been tested.
  unfoldable pub transmit_bulk : Mpsc A W → ℕ → List A → Option (ℕ × List A × Mpsc A W)
  transmit_bulk ch idx items = do
    lane ← get_elem? ch.lanes idx
    rp ← lane.ring_producer
    (n, rest, rp', shared) ← Tx.try_send_bulk cap rp lane.shared items
    some (
      n,
      rest,
      record {
        inner = if ltb 0 n then wake_fanin ch.inner else ch.inner;
        lanes = set ch.lanes idx (record lane { ring_producer = some rp'; shared = shared });
      },
    )

  -- `MpscProducer::try_send_bulk`: the number sent, and the vector that is left.
  unfoldable pub try_send_bulk : Mpsc A W → ℕ → List A → Option (ℕ × List A × Mpsc A W)
  try_send_bulk ch idx items =
      if (length items == 0) || ch.inner.shutdown
      then some (0, items, ch)
      else transmit_bulk ch idx items

  -- How `send` goes on from what `try_send` left; `wait` is given a value that came back.
  unfoldable pub settle_send :
      (A → Mpsc A W → Option (Bool × Mpsc A W))
      → Result A (Unit {0}) × Mpsc A W
      → Option (Bool × Mpsc A W)
  settle_send wait (ok _, ch) = some (true, ch)
  settle_send wait (err v, ch) = wait v ch

  -- `MpscProducer::send`, and `send_async`, which differs in how it waits. The result says whether the
  -- call has returned: where the environment's steps run out it still waits.
  unfoldable pub send : List (Mpsc A W → Mpsc A W) → Mpsc A W → ℕ → A → Option (Bool × Mpsc A W)
  send [] ch idx v =
      if ch.inner.shutdown
      then some (true, ch)
      else try_send ch idx v >>= settle_send (λ u ch'. some (false, ch'))
  send (env ∷ later) ch idx v =
      let attempt = try_send ch idx v >>= settle_send (λ u ch'. send later (env ch') idx u) in
      if ch.inner.shutdown then some (true, ch) else attempt

  -- `MpscProducer::drop`: the ring is closed before the count goes down; the last one wakes the
  -- consumer.
  unfoldable pub drop_producer : Mpsc A W → ℕ → Option (Mpsc A W)
  drop_producer ch idx = do
    lane ← get_elem? ch.lanes idx
    rp ← lane.ring_producer
    let counted = record ch.inner { live_producers = wrapping_sub ch.inner.live_producers 1 }
    some (record {
      inner = if ch.inner.live_producers == 1 then wake_fanin counted else counted;
      lanes =
          set ch.lanes idx
            (record lane { ring_producer = none; shared = Tx.drop_producer cap lane.shared });
    })

  -- `MpscShutdown::signal`.
  unfoldable pub signal : Mpsc A W → Mpsc A W
  signal ch = record ch {
    inner = record ch.inner {
      fanin_waiter = w.wake ch.inner.fanin_waiter;
      producer_waiters = map w.wake ch.inner.producer_waiters;
      shutdown = true;
    };
  }

module _ {A W : Type 0} ⦃w : Waiter W⦄ where
  -- `MpscProducer::bind`, on thread `t`.
  unfoldable pub bind : Mpsc A W → ℕ → ℕ → Option (Mpsc A W)
  bind ch idx t = do
    x ← get_elem? ch.inner.producer_waiters idx
    some (record ch {
      inner = record ch.inner {
        producer_waiters = set ch.inner.producer_waiters idx (w.set_worker t x);
      };
    })
