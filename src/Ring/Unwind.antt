-- ===== src/Ring/Unwind.antt =====
-- A consumer after a panic in the closure of `Consumer::drain`: `cached_head` is not refreshed on that
-- path, and may lie behind the `tail` that the guard published.
use arbitro_kit.Prelude.{ℕ, ◌+◌, ◌%◌, ◌≡◌, ◌≢◌, ap, ◌>>=◌, Bool, false, [], none, some, ◌==◌, arith}
use native.Mathlib.Nat.{add-zero}
use arbitro_kit.Cells.{IsCap, IsCap-bounds, slot_index, slot_index-mod, read_cell}
use arbitro_kit.Waiter.{Waiter}
use arbitro_kit.Ring.Types.{Ring, Producer, Consumer}
use arbitro_kit.Ring.Rx.{Call, panicked, unwound, take_front, try_recv, drain}
use arbitro_kit.Ring.Feed.{feed}
use arbitro_kit.Ring.Queue.{Queue, Represents}
use arbitro_kit.Ring.Drain.{drain-unwound}

module _ {A W : Type 0} ⦃w : Waiter W⦄ {cap : ℕ} (ok_cap : IsCap cap) where
  -- Reading the front of an empty ring is undefined behaviour.
  take_front-empty :
      {p : Producer} {c : Consumer} {r : Ring A W} {b : Bool} (d : Consumer)
      → Represents cap p c r (record { items = []; closed = b })
      → take_front cap d r ≡ none
  unfolding take_front read_cell
  take_front-empty {r} d rep =
      let e : slot_index cap r.tail ≡ (r.tail + 0) % cap =
        rw add-zero (slot_index-mod ok_cap r.tail) in
      rw (e, rep.window.cells 0 (omega (arith, IsCap-bounds ok_cap)), ◌>>=◌)

  -- Where the closure panics on the last item in flight, and the consumer had not cached the current
  -- `head` before, the next `try_recv` reads a slot that holds no value.
  pub try_recv-drain_unwound :
      {S : Type 0} {p : Producer} {c : Consumer} {r : Ring A W} (q : Queue A) (f : S → A → Call S)
      (s s' : S)
      → Represents cap p c r q
      → feed f s q.items ≡ (panicked s', [])
      → c.cached_head ≢ r.head
      → (r' : Ring A W) × (drain cap c r f s ≡ some (unwound s', c, r'))
        × (try_recv cap c r' ≡ none)
  unfolding try_recv
  try_recv-drain_unwound {p} {c} {r} q f s s' rep fed stale =
      let busy : (r.tail == r.head) ≡ false = ground (arith, rep) in
      let (r', e, rep', same) = drain-unwound ok_cap q f s s' rep busy (ap (λ o. o.0) fed) in
      let gone : Represents cap p (record c { cached_head = r'.head }) r'
          (record q { items = [] }) =
        rw (ap (λ o. o.1) fed) at rep' in
      let behind : (c.cached_head == r'.tail) ≡ false = ground (arith, gone, same) in
      (r', e, rw behind (take_front-empty c gone))
