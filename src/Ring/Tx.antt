-- ===== src/Ring/Tx.antt =====
-- The methods of `Producer` in src/stream/ring.rs. Each takes the handle and the shared state, and
-- returns them as it leaves them. `none` is a fault of the slot array.
use arbitro_kit.Prelude.{
  ℕ, zero, suc, ◌-◌, min, Bool, false, List, [], ◌∷◌, Option, none, some, leb, ◌==◌, if◌then◌else◌,
  length, wrapping_add, wrapping_sub, ◌>>=◌, Result, ok, err, not, ◌||◌,
}
use arbitro_kit.Cells.{slot_index, write_cell}
use arbitro_kit.Waiter.{Waiter}
use arbitro_kit.Waiter.Sleep.{Sleeper, Waited, wait_until, settle_wait}
use arbitro_kit.Ring.Types.{Ring, Producer, TrySendError, full}
use arbitro_kit.Ring.Shared.{is_full, is_closed, close}

-- `Vec::pop`: the last item, and the items before it.
unfoldable pub pop_last : {A : Type 0} → List A → Option (A × List A)
pop_last [] = none
pop_last (x ∷ xs) = elim (pop_last xs) [ none ↦ some (x, []) | some (y, ys) ↦ some (y, x ∷ ys) ]

-- The loop of `try_send_bulk`: `take` rounds, each popping an item off the end of the vector.
unfoldable pub bulk_loop :
    {A : Type 0} → ℕ → ℕ → List A → List (Option A) → ℕ → Option (List A × List (Option A) × ℕ)
bulk_loop cap zero items slots h = some (items, slots, h)
bulk_loop cap (suc take) items slots h = do
  (v, rest) ← pop_last items
  slots' ← write_cell slots (slot_index cap h) v
  bulk_loop cap take rest slots' (wrapping_add h 1)

module _ {A W : Type 0} ⦃w : Waiter W⦄ (cap : ℕ) where
  -- The end of `try_send`: write the slot, publish the cursor, wake the consumer.
  unfoldable pub publish :
      Producer → Ring A W → A → Option (Result (TrySendError A) (Unit {0}) × Producer × Ring A W)
  publish p r v = do
    slots ← write_cell r.slots (slot_index cap r.head) v
    some (
      ok tt,
      p,
      record r { head = wrapping_add r.head 1; not_empty = w.wake r.not_empty; slots = slots },
    )

  unfoldable pub try_send :
      Producer → Ring A W → A → Option (Result (TrySendError A) (Unit {0}) × Producer × Ring A W)
  unfolding is_closed
  try_send p r v =
      if leb cap (wrapping_sub r.head p.cached_tail)
      then (let p' = record p { cached_tail = r.tail } in
          if leb cap (wrapping_sub r.head p'.cached_tail)
          then some (err (if is_closed r then TrySendError.closed v else full v), p', r)
          else publish p' r v)
      else publish p r v

  -- The part of `try_send_bulk` after the cached cursor is settled: `used` slots are taken.
  unfoldable pub bulk_burst :
      Producer → Ring A W → List A → ℕ → Option (ℕ × List A × Producer × Ring A W)
  bulk_burst p r items used =
      let avail = cap - used in
      if avail == 0
      then some (0, items, p, r)
      else (let take = min (length items) avail in
          do
            (items', slots, h) ← bulk_loop cap take items r.slots r.head
            some (
              take,
              items',
              p,
              record r { head = h; not_empty = w.wake r.not_empty; slots = slots },
            ))

  -- The number of items sent, and the vector that is left.
  unfoldable pub try_send_bulk :
      Producer → Ring A W → List A → Option (ℕ × List A × Producer × Ring A W)
  try_send_bulk p r [] = some (0, [], p, r)
  try_send_bulk p r (x ∷ xs) =
      let items = x ∷ xs in
      let used = wrapping_sub r.head p.cached_tail in
      if leb cap used
      then (let p' = record p { cached_tail = r.tail } in
          bulk_burst p' r items (wrapping_sub r.head p'.cached_tail))
      else bulk_burst p r items used

  -- `register`, called by thread `t`.
  unfoldable pub register : Producer → Ring A W → ℕ → Producer × Ring A W
  register p r t =
      if (elim p.worker [ none ↦ false | some u ↦ u == t ])
      then (p, r)
      else (record p { worker = some t }, record r { not_full = w.set_worker t r.not_full })

  -- How `send` goes on from what `try_send` left: `retry` is given the value back when the ring was
  -- full.
  unfoldable pub settle_send :
      (Producer → Ring A W → A → Option (Option (Result A (Unit {0})) × Producer × Ring A W))
      → Result (TrySendError A) (Unit {0}) × Producer × Ring A W
      → Option (Option (Result A (Unit {0})) × Producer × Ring A W)
  settle_send retry (ok _, p, r) = some (some (ok tt), p, r)
  settle_send retry (err (TrySendError.closed v), p, r) = some (some (err v), p, r)
  settle_send retry (err (full v), p, r) = retry p r v

  -- The predicate of both waits, and the wait itself.
  unfoldable pub send_ready : Ring A W → Bool
  unfolding is_full is_closed
  send_ready r = not (is_full cap r) || is_closed r

  unfoldable pub wait_send :
      ⦃sl : Sleeper W⦄ → List (Ring A W → Ring A W) → Ring A W → Option (Waited (Ring A W))
  wait_send events r =
      wait_until (λ x. x.not_full) (λ y x. record x { not_full = y }) (λ x. some (send_ready x))
        events r

  -- `send` on thread `t`, for at most `rounds` rounds of its loop. What the other side does while this thread
  -- sleeps is a list of functions on the shared state. A result without a value is a call that still sleeps;
  -- `none` is a fault, the panic of a wait by an unregistered thread, or the end of the rounds.
  unfoldable pub send :
      ⦃sl : Sleeper W⦄
      → ℕ
      → ℕ
      → List (Ring A W → Ring A W)
      → Producer
      → Ring A W
      → A
      → Option (Option (Result A (Unit {0})) × Producer × Ring A W)
  send t zero events p r v = none
  send t (suc rounds) events p r v =
      try_send p r v
      >>= settle_send (λ p' r' u.
        let (p'', r'') = register p' r' t in
        wait_send events r''
        >>= settle_wait (λ later x. send t rounds later p'' x u) (λ x. (none, p'', x)))

  -- `send_async`: as `send`, without a registration.
  unfoldable pub send_async :
      ⦃sl : Sleeper W⦄
      → ℕ
      → List (Ring A W → Ring A W)
      → Producer
      → Ring A W
      → A
      → Option (Option (Result A (Unit {0})) × Producer × Ring A W)
  send_async zero events p r v = none
  send_async (suc rounds) events p r v =
      try_send p r v
      >>= settle_send (λ p' r' u.
        wait_send events r'
        >>= settle_wait (λ later x. send_async rounds later p' x u) (λ x. (none, p', x)))

  -- `should_notify_consumer`: whether just the `n_pushed` items of a burst are in the ring.
  unfoldable pub should_notify_consumer : Producer → Ring A W → ℕ → Bool × Producer
  should_notify_consumer p r n_pushed =
      let p' = record p { cached_tail = r.tail } in
      (wrapping_sub r.head p'.cached_tail == n_pushed, p')

  -- `Producer::drop`.
  unfoldable pub drop_producer : Ring A W → Ring A W
  unfolding close
  drop_producer r = close r
