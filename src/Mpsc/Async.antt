-- ===== src/Mpsc/Async.antt =====
-- The async methods of src/route/mpsc.rs. An await is, as a wait of the blocking methods, what the
-- other side does meanwhile: a function on the state. The `_send` methods are those for `NotifyWaiter`.
use arbitro_kit.Prelude.{
  ℕ, ◌≡◌, refl, Bool, true, false, List, [], ◌∷◌, Option, none, some, leb, if◌then◌else◌, ◌>>=◌,
  length, get_elem?, set, Result, ok, err, Bool-cases, inl, inr, arith,
}
use arbitro_kit.Cells.{IsCap}
use arbitro_kit.Waiter.{Waiter, noop_waiter}
use arbitro_kit.Ring.Types.{Producer, TrySendError, full}
use arbitro_kit.Ring.Tx
use arbitro_kit.Ring.Rx.{Call, returned, panicked, Drained, drained, unwound}
use arbitro_kit.Ring.Queue.{Queue, push-room, push-full, Represents}
use arbitro_kit.Ring.Send.{try_send-refines}
use arbitro_kit.Mpsc.Types.{Lane, Mpsc}
use arbitro_kit.Mpsc.Tx.{wake_fanin, settle, transmit, try_send, settle_send, send}
use arbitro_kit.Mpsc.Rx.{
  Shutdown, scan, try_recv, try_recv_batch, batch_loop, settle_recv, settle_batch, recv_batch,
}
use arbitro_kit.Mpsc.Lanes.{Stands, CarryAll-get, Carries-live}

module _ {A W : Type 0} ⦃w : Waiter W⦄ (cap : ℕ) where
  -- `MpscProducer::send_async`. The result says whether the call has returned.
  unfoldable pub send_async :
      List (Mpsc A W → Mpsc A W) → Mpsc A W → ℕ → A → Option (Bool × Mpsc A W)
  send_async [] ch idx v =
      if ch.inner.shutdown
      then some (true, ch)
      else try_send cap ch idx v >>= settle_send cap (λ u ch'. some (false, ch'))
  send_async (env ∷ later) ch idx v =
      let attempt =
        try_send cap ch idx v >>= settle_send cap (λ u ch'. send_async later (env ch') idx u) in
      if ch.inner.shutdown then some (true, ch) else attempt

  -- How `send_async_send` goes on from what the ring's `try_send` returned: a value that finds the ring
  -- closed is dropped.
  unfoldable pub settle_notify :
      (A → Mpsc A W → Option (Bool × Mpsc A W))
      → Result (TrySendError A) (Unit {0})
      → Mpsc A W
      → Option (Bool × Mpsc A W)
  settle_notify wait (ok _) ch = some (true, record ch { inner = wake_fanin ch.inner })
  settle_notify wait (err (full v)) ch = wait v ch
  settle_notify wait (err (TrySendError.closed v)) ch = some (true, ch)

  -- One round of `send_async_send` after the shutdown flag has been read: it returns where the ring's
  -- producer is gone.
  unfoldable pub notify_attempt :
      (A → Mpsc A W → Option (Bool × Mpsc A W)) → Mpsc A W → ℕ → A → Option (Bool × Mpsc A W)
  notify_attempt wait ch idx v = do
    lane ← get_elem? ch.lanes idx
    elim lane.ring_producer [
      | none ↦ some (true, ch)
      | some rp ↦ do
        (res, rp', shared) ← Tx.try_send cap rp lane.shared v
        settle_notify wait res (record ch {
          lanes = set ch.lanes idx (record lane { ring_producer = some rp'; shared = shared });
        })
    ]

  -- `MpscProducer::send_async_send`.
  unfoldable pub send_async_send :
      List (Mpsc A W → Mpsc A W) → Mpsc A W → ℕ → A → Option (Bool × Mpsc A W)
  send_async_send [] ch idx v =
      if ch.inner.shutdown
      then some (true, ch)
      else notify_attempt (λ u ch'. some (false, ch')) ch idx v
  send_async_send (env ∷ later) ch idx v =
      let attempt = notify_attempt (λ u ch'. send_async_send later (env ch') idx u) ch idx v in
      if ch.inner.shutdown then some (true, ch) else attempt

  -- `MpscConsumer::recv_async`.
  unfoldable pub recv_async :
      List (Mpsc A W → Mpsc A W) → Mpsc A W → Option (Option (Result Shutdown A) × Mpsc A W)
  recv_async [] ch = try_recv cap ch >>= settle_recv cap (λ ch'. some (none, ch'))
  recv_async (env ∷ later) ch =
      try_recv cap ch >>= settle_recv cap (λ ch'. recv_async later (env ch'))

  -- The scan of `recv_async_send`, with the lanes and the waiters put back.
  unfoldable pub notify_scan : Mpsc A W → Option (Option A × Mpsc A W)
  notify_scan ch = do
    (out, lanes, waiters) ← scan cap ch.inner.m ch.lanes ch.inner.producer_waiters
    some (out, record { inner = record ch.inner { producer_waiters = waiters }; lanes = lanes })

  -- `MpscConsumer::recv_async_send`.
  unfoldable pub recv_async_send :
      List (Mpsc A W → Mpsc A W) → Mpsc A W → Option (Option (Result Shutdown A) × Mpsc A W)
  recv_async_send [] ch = notify_scan ch >>= settle_recv cap (λ ch'. some (none, ch'))
  recv_async_send (env ∷ later) ch =
      notify_scan ch >>= settle_recv cap (λ ch'. recv_async_send later (env ch'))

  -- `MpscConsumer::recv_batch_async`, each `try_recv_batch` on fuel for `passes` passes.
  unfoldable pub recv_batch_async :
      {S : Type 0}
      → ℕ
      → List (Mpsc A W → Mpsc A W)
      → Mpsc A W
      → (S → A → Call S)
      → S
      → Option (Option (Result Shutdown (Drained S)) × Mpsc A W)
  recv_batch_async passes [] ch f s =
      try_recv_batch cap passes ch f s >>= settle_batch cap (λ s' ch'. some (none, ch'))
  recv_batch_async passes (env ∷ later) ch f s =
      try_recv_batch cap passes ch f s
      >>= settle_batch cap (λ s' ch'. recv_batch_async passes later (env ch') f s')

  -- `MpscConsumer::recv_batch_async_send`, whose own loop is that of `try_recv_batch`.
  unfoldable pub recv_batch_async_send :
      {S : Type 0}
      → ℕ
      → List (Mpsc A W → Mpsc A W)
      → Mpsc A W
      → (S → A → Call S)
      → S
      → Option (Option (Result Shutdown (Drained S)) × Mpsc A W)
  recv_batch_async_send passes [] ch f s =
      batch_loop cap passes ch f s 0 >>= settle_batch cap (λ s' ch'. some (none, ch'))
  recv_batch_async_send passes (env ∷ later) ch f s =
      batch_loop cap passes ch f s 0
      >>= settle_batch cap (λ s' ch'. recv_batch_async_send passes later (env ch') f s')

  -- The loop of `run_blocking`: batches until the channel has shut down. `waits` has, for each
  -- `recv_batch`, what happens during its waits. `none` inside the result is a consumer that still runs.
  unfoldable pub run_blocking :
      {S : Type 0}
      → ℕ
      → List (List (Mpsc A W → Mpsc A W))
      → Mpsc A W
      → (S → A → Call S)
      → S
      → Option (Option (Call S) × Mpsc A W)
  run_blocking passes [] ch f s = some (none, ch)
  run_blocking passes (waits ∷ later) ch f s = do
    (out, ch') ← recv_batch cap passes waits ch f s
    elim out [
      | none ↦ some (none, ch')
      | some (err _) ↦ some (some (returned s), ch')
      | some (ok (drained n s')) ↦ run_blocking passes later ch' f s'
      | some (ok (unwound s')) ↦ some (some (panicked s'), ch')
    ]

-- A flag that is read twice.
by_flag :
    {B D : Type 0} (b : Bool) (z : Option D) {x : Option D} (u t : Option B) (k : B → Option D)
    → x ≡ (t >>= k)
    → (if b then z else x) ≡ (if b then z else ((if b then u else t) >>= k))
by_flag true z u t k e = refl
by_flag false z u t k e = e

module _ {A W : Type 0} ⦃w : Waiter W⦄ {cap : ℕ} (ok_cap : IsCap cap) where
  agree :
      (ch : Mpsc A W) (i : ℕ) (v : A) {lane : Lane A} {p : Producer} {q : Queue A}
      → get_elem? ch.lanes i ≡ some lane
      → lane.ring_producer ≡ some p
      → Represents cap p lane.ring_consumer lane.shared q
      → q.closed ≡ false
      → notify_attempt cap (λ u ch'. some (false, ch')) ch i v
        ≡ (transmit cap ch i v >>= settle_send cap (λ u ch'. some (false, ch')))
  unfolding notify_attempt settle_notify transmit settle settle_send
  agree ch i v {q = q} at live rep opened =
      let (p', r', e, rep') = try_send-refines ok_cap v rep in
      elim (Bool-cases (leb cap (length q.items))) [
        | inl none_free ↦
            let back = push-full cap q v (ground arith) in rw (at, live, ◌>>=◌, e, back, opened)
        | inr room ↦ let taken = push-room cap q v (ground arith) in rw (at, live, ◌>>=◌, e, taken)
      ]

  -- On a channel that stands for queues, a live producer's `send_async_send` does at once what its `send`
  -- does at once: it returns, or comes to its first wait, with the channel in the same state.
  pub send_async_send-send :
      (ch : Mpsc A W) (qs : List (Queue A)) (i : ℕ) (v : A) {lane : Lane A} {p : Producer}
      → Stands cap ch qs
      → get_elem? ch.lanes i ≡ some lane
      → lane.ring_producer ≡ some p
      → send_async_send cap [] ch i v ≡ send cap [] ch i v
  unfolding send_async_send send try_send
  send_async_send-send ch qs i v st at live =
      let (q, _, carry) = CarryAll-get ch.lanes qs i st.carries at in
      let (rep, opened) = Carries-live carry live in
      let same = agree ch i v at live rep opened in
      by_flag ch.inner.shutdown (some (true, ch)) (some (err v, ch)) (transmit cap ch i v)
        (settle_send cap (λ u ch'. some (false, ch'))) same
