-- ===== src/Mpsc/Rx.antt =====
-- `MpscConsumer` of src/route/mpsc.rs. The loops `for idx in 0..m` go along the lanes and the producers'
-- waiters together; `none` is an index out of range or a fault of a ring.
use arbitro_kit.Prelude.{
  ℕ, zero, suc, ◌+◌, ◌*◌, Bool, false, List, [], ◌∷◌, Option, none, some, ltb, ◌==◌, ◌&&◌, ◌||◌,
  not, if◌then◌else◌, ◌>>=◌, Result, ok, err,
}
use arbitro_kit.Waiter.{Waiter, noop_waiter}
use arbitro_kit.Ring.Shared
use arbitro_kit.Ring.Rx
use arbitro_kit.Ring.Rx.{Call, Drained, drained, unwound}
use arbitro_kit.Mpsc.Types.{Lane, Mpsc, is_shutdown_signaled, all_producers_gone}

pub data Shutdown : Type 0 where
  shutdown : Shutdown

module _ {A : Type 0} where
  -- `MpscConsumer::pending`: the sum of the rings' lengths.
  unfoldable pub pending : List (Lane A) → ℕ
  pending [] = 0
  pending (l ∷ ls) = Shared.len l.shared + pending ls

  -- `MpscConsumer::any_ring_has_work`.
  unfoldable pub any_ring_has_work : List (Lane A) → Bool
  any_ring_has_work [] = false
  any_ring_has_work (l ∷ ls) = not (Shared.is_empty l.shared) || any_ring_has_work ls

module _ {A W : Type 0} where
  unfoldable pub total_capacity : ℕ → Mpsc A W → ℕ
  total_capacity cap ch = ch.inner.m * cap

  -- `MpscConsumer::is_finished`.
  unfoldable pub is_finished : Mpsc A W → Bool
  is_finished ch =
      is_shutdown_signaled ch || (all_producers_gone ch && not (any_ring_has_work ch.lanes))

module _ {A W : Type 0} ⦃w : Waiter W⦄ (cap : ℕ) where
  -- The scan of `try_recv` over `n` lanes.
  unfoldable pub scan : ℕ → List (Lane A) → List W → Option (Option A × List (Lane A) × List W)
  scan zero ls ws = some (none, ls, ws)
  scan (suc n) (l ∷ ls) (x ∷ ws) = do
    (res, c, shared) ← Rx.try_recv cap l.ring_consumer l.shared
    let l' = record l { ring_consumer = c; shared = shared }
    elim res [
      | ok v ↦ some (some v, l' ∷ ls, w.wake x ∷ ws)
      | err _ ↦ do (out, ls', ws') ← scan n ls ws; some (out, l' ∷ ls', x ∷ ws')
    ]
  scan (suc n) _ _ = none

  -- `MpscConsumer::try_recv`.
  unfoldable pub try_recv : Mpsc A W → Option (Option A × Mpsc A W)
  try_recv ch = do
    (out, lanes, waiters) ← scan ch.inner.m ch.lanes ch.inner.producer_waiters
    some (out, record { inner = record ch.inner { producer_waiters = waiters }; lanes = lanes })

  -- One pass of `try_recv_batch` over `n` lanes: the outcome with the items drained, the lanes and the
  -- waiters. A panic of the closure leaves the later lanes alone.
  unfoldable pub pass :
      {S : Type 0}
      → ℕ
      → List (Lane A)
      → List W
      → (S → A → Call S)
      → S
      → Option (Drained S × List (Lane A) × List W)
  pass zero ls ws f s = some (drained 0 s, ls, ws)
  pass (suc n) (l ∷ ls) (x ∷ ws) f s = do
    (out, c, shared) ← Rx.drain cap l.ring_consumer l.shared f s
    let l' = record l { ring_consumer = c; shared = shared }
    elim out [
      | unwound s' ↦ some (unwound s', l' ∷ ls, x ∷ ws)
      | drained k s' ↦ do
        (out', ls', ws') ← pass n ls ws f s'
        let x' = if ltb 0 k then w.wake x else x
        elim out' [
          | drained k' s'' ↦ some (drained (k + k') s'', l' ∷ ls', x' ∷ ws')
          | unwound s'' ↦ some (unwound s'', l' ∷ ls', x' ∷ ws')
        ]
    ]
  pass (suc n) _ _ f s = none

  -- The loop of `try_recv_batch`: passes until one drains nothing. `none` is a fault of a pass, or the
  -- end of the fuel.
  unfoldable pub batch_loop :
      {S : Type 0} → ℕ → Mpsc A W → (S → A → Call S) → S → ℕ → Option (Drained S × Mpsc A W)
  batch_loop zero ch f s total = none
  batch_loop {S} (suc fuel) ch f s total = do
    (out, lanes, waiters) ← pass ch.inner.m ch.lanes ch.inner.producer_waiters f s
    let ch' : Mpsc A W = record {
      inner = record ch.inner { producer_waiters = waiters };
      lanes = lanes;
    }
    elim out [
      | unwound s' ↦ some (unwound s', ch')
      | drained k s' ↦
          let rest = batch_loop fuel ch' f s' (total + k) in
          if k == 0 then some (drained total s', ch') else rest
    ]

  -- `MpscConsumer::try_recv_batch`, on fuel for `passes` passes.
  unfoldable pub try_recv_batch :
      {S : Type 0} → ℕ → Mpsc A W → (S → A → Call S) → S → Option (Drained S × Mpsc A W)
  try_recv_batch passes ch f s = batch_loop passes ch f s 0

  -- How `recv` goes on from what `try_recv` found: `wait` is for an unfinished channel.
  unfoldable pub settle_recv :
      (Mpsc A W → Option (Option (Result Shutdown A) × Mpsc A W))
      → Option A × Mpsc A W
      → Option (Option (Result Shutdown A) × Mpsc A W)
  settle_recv wait (some v, ch) = some (some (ok v), ch)
  settle_recv wait (none, ch) =
      let rest = wait ch in if is_finished ch then some (some (err shutdown), ch) else rest

  -- `MpscConsumer::recv`. What the producers do during each wait is a function on the state; where
  -- these run out the result is `none`: the thread still waits.
  unfoldable pub recv :
      List (Mpsc A W → Mpsc A W) → Mpsc A W → Option (Option (Result Shutdown A) × Mpsc A W)
  recv [] ch = try_recv ch >>= settle_recv (λ ch'. some (none, ch'))
  recv (env ∷ later) ch = try_recv ch >>= settle_recv (λ ch'. recv later (env ch'))

  -- How `recv_batch` goes on from what `try_recv_batch` did.
  unfoldable pub settle_batch :
      {S : Type 0}
      → (S → Mpsc A W → Option (Option (Result Shutdown (Drained S)) × Mpsc A W))
      → Drained S × Mpsc A W
      → Option (Option (Result Shutdown (Drained S)) × Mpsc A W)
  settle_batch wait (unwound s, ch) = some (some (ok (unwound s)), ch)
  settle_batch wait (drained n s, ch) =
      let rest = wait s ch in
      if ltb 0 n
      then some (some (ok (drained n s)), ch)
      else if is_finished ch
      then some (some (err shutdown), ch)
      else rest

  -- `MpscConsumer::recv_batch`, each `try_recv_batch` on fuel for `passes` passes.
  unfoldable pub recv_batch :
      {S : Type 0}
      → ℕ
      → List (Mpsc A W → Mpsc A W)
      → Mpsc A W
      → (S → A → Call S)
      → S
      → Option (Option (Result Shutdown (Drained S)) × Mpsc A W)
  recv_batch passes [] ch f s =
      try_recv_batch passes ch f s >>= settle_batch (λ s' ch'. some (none, ch'))
  recv_batch passes (env ∷ later) ch f s =
      try_recv_batch passes ch f s
      >>= settle_batch (λ s' ch'. recv_batch passes later (env ch') f s')

-- `MpscConsumer::bind`, on thread `t`.
unfoldable pub bind : {A W : Type 0} ⦃w : Waiter W⦄ → Mpsc A W → ℕ → Mpsc A W
bind ⦃w⦄ ch t = record ch {
  inner = record ch.inner { fanin_waiter = w.set_worker t ch.inner.fanin_waiter };
}
