-- ===== src/Ring/Rx.antt =====
-- The methods of `Consumer` in src/stream/ring.rs.
use arbitro_kit.Prelude.{
  ℕ, zero, suc, false, List, Option, none, some, ◌==◌, if◌then◌else◌, not, wrapping_add,
  wrapping_sub, ◌>>=◌, Result, ok, err, Bool, ◌||◌,
}
use arbitro_kit.Cells.{slot_index, read_cell}
use arbitro_kit.Waiter.{Waiter}
use arbitro_kit.Waiter.Sleep.{Sleeper, Waited, wait_until, settle_wait}
use arbitro_kit.Ring.Types.{Ring, Consumer, TryRecvError, empty}
use arbitro_kit.Ring.Shared.{is_empty, is_closed, close}

-- The result of one call of a caller's closure on its state: it returns, or it panics.
pub data Call (S : Type 0) : Type 0 where
  returned : S → Call S
  panicked : S → Call S

-- What a loop over a closure has done: the count, or the unwinding of a panic.
pub data Drained (S : Type 0) : Type 0 where
  drained : ℕ → S → Drained S
  unwound : S → Drained S

-- The loop of `drain` at cursor `t`: the slots, the guard's cursor and the outcome. The guard is
-- past a slot before the closure runs on its value. `none` is undefined behaviour, or the end of the
-- fuel.
unfoldable pub drain_loop :
    {A S : Type 0}
    → ℕ
    → ℕ
    → List (Option A)
    → ℕ
    → ℕ
    → (S → A → Call S)
    → S
    → Option (List (Option A) × ℕ × Call S)
drain_loop cap zero slots t head f s = none
drain_loop {A} {S} cap (suc fuel) slots t head f s =
    let rest = λ (slots' : List (Option A)) (s' : S).
      drain_loop cap fuel slots' (wrapping_add t 1) head f s' in
    if t == head then some (slots, t, returned s) else do
      (v, slots') ← read_cell slots (slot_index cap t)
      elim (f s v) [
        | returned s' ↦ rest slots' s'
        | panicked s' ↦ some (slots', wrapping_add t 1, panicked s')
      ]

module _ {A W : Type 0} ⦃w : Waiter W⦄ (cap : ℕ) where
  -- The end of `try_recv`: move the value out, free the slot, wake the producer.
  unfoldable pub take_front :
      Consumer → Ring A W → Option (Result TryRecvError A × Consumer × Ring A W)
  take_front c r = do
    (v, slots) ← read_cell r.slots (slot_index cap r.tail)
    some (
      ok v,
      c,
      record r { tail = wrapping_add r.tail 1; not_full = w.wake r.not_full; slots = slots },
    )

  unfoldable pub try_recv :
      Consumer → Ring A W → Option (Result TryRecvError A × Consumer × Ring A W)
  unfolding is_closed
  try_recv c r =
      if c.cached_head == r.tail
      then (let c' = record c { cached_head = r.head } in
          if c'.cached_head == r.tail
          then (if not (is_closed r)
              then some (err empty, c', r)
              else (let c'' = record c' { cached_head = r.head } in
                  if c''.cached_head == r.tail
                  then some (err TryRecvError.closed, c'', r)
                  else take_front c'' r))
          else take_front c' r)
      else take_front c r

  -- The end of `drain`. On a panic the guard's `Drop` still publishes the cursor; the wake and the
  -- cached cursor are left out.
  unfoldable pub finish_drain :
      {S : Type 0}
      → Consumer
      → Ring A W
      → List (Option A)
      → ℕ
      → Call S
      → Drained S × Consumer × Ring A W
  finish_drain c r slots t (returned s) = (
    drained (wrapping_sub t r.tail) s,
    record c { cached_head = r.head },
    record r { tail = t; not_full = w.wake r.not_full; slots = slots },
  )
  finish_drain c r slots t (panicked s) = (unwound s, c, record r { tail = t; slots = slots })

  -- `drain` with closure `f` from state `s`, on fuel for one round more than there are slots.
  unfoldable pub drain :
      {S : Type 0}
      → Consumer
      → Ring A W
      → (S → A → Call S)
      → S
      → Option (Drained S × Consumer × Ring A W)
  drain c r f s = if r.tail == r.head then some (drained 0 s, c, r) else do
    (slots, t, out) ← drain_loop cap (suc cap) r.slots r.tail r.head f s
    some (finish_drain c r slots t out)

  -- `register`, called by thread `t`.
  unfoldable pub register : Consumer → Ring A W → ℕ → Consumer × Ring A W
  register c r t =
      if (elim c.worker [ none ↦ false | some u ↦ u == t ])
      then (c, r)
      else (record c { worker = some t }, record r { not_empty = w.set_worker t r.not_empty })

  -- How `recv` goes on from what `try_recv` left.
  unfoldable pub settle_recv :
      (Consumer → Ring A W → Option (Option (Option A) × Consumer × Ring A W))
      → Result TryRecvError A × Consumer × Ring A W
      → Option (Option (Option A) × Consumer × Ring A W)
  settle_recv retry (ok v, c, r) = some (some (some v), c, r)
  settle_recv retry (err TryRecvError.closed, c, r) = some (some none, c, r)
  settle_recv retry (err empty, c, r) = retry c r

  -- The predicate of both waits, and the wait itself.
  unfoldable pub recv_ready : Ring A W → Bool
  unfolding is_empty is_closed
  recv_ready r = not (is_empty r) || is_closed r

  unfoldable pub wait_recv :
      ⦃sl : Sleeper W⦄ → List (Ring A W → Ring A W) → Ring A W → Option (Waited (Ring A W))
  wait_recv events r =
      wait_until (λ x. x.not_empty) (λ y x. record x { not_empty = y }) (λ x. some (recv_ready x))
        events r

  -- `recv` on thread `t`, for at most `rounds` rounds of its loop, with what the other side does while this
  -- thread sleeps, as in `Tx.send`.
  unfoldable pub recv :
      ⦃sl : Sleeper W⦄
      → ℕ
      → ℕ
      → List (Ring A W → Ring A W)
      → Consumer
      → Ring A W
      → Option (Option (Option A) × Consumer × Ring A W)
  recv t zero events c r = none
  recv t (suc rounds) events c r =
      try_recv c r
      >>= settle_recv (λ c' r'.
        let (c'', r'') = register c' r' t in
        wait_recv events r''
        >>= settle_wait (λ later x. recv t rounds later c'' x) (λ x. (none, c'', x)))

  -- `recv_async`: as `recv`, without a registration.
  unfoldable pub recv_async :
      ⦃sl : Sleeper W⦄
      → ℕ
      → List (Ring A W → Ring A W)
      → Consumer
      → Ring A W
      → Option (Option (Option A) × Consumer × Ring A W)
  recv_async zero events c r = none
  recv_async (suc rounds) events c r =
      try_recv c r
      >>= settle_recv (λ c' r'.
        wait_recv events r'
        >>= settle_wait (λ later x. recv_async rounds later c' x) (λ x. (none, c', x)))

  -- `Consumer::drop`.
  unfoldable pub drop_consumer : Ring A W → Ring A W
  unfolding close
  drop_consumer r = close r
