-- ===== src/OneShot/Laws.antt =====
-- What `recv` and `try_recv` return, whichever side is first.
use arbitro_kit.Prelude.{
  ◌≡◌, ℕ, List, [], ◌∷◌, Option, none, some, ok, err, arith, true, refl, ap, ◌∙◌, ◌>>=◌, inl, inr,
  Bool-cases,
}
use arbitro_kit.Waiter.{Waiter}
use arbitro_kit.Waiter.Sleep.{Sleeper, Wakes, returned, settle_wait, wait_until-wakes}
use arbitro_kit.OneShot.Calls.{
  State, empty, full, taken, closed, Inner, send, drop_sender, drop_receiver, bind, take_slot,
  try_take_inner, try_recv, has_settled, wait_settled, expect_taken, wait_and_take, recv,
  recv_async, drop_inner,
}

-- A channel before either side has acted.
abbrev pub pending : {A W : Type 0} → W → Inner A W
pending x = record { state = empty; slot = none; waiter = x }

module _ {A W : Type 0} ⦃w : Waiter W⦄ where
  -- A value goes to one taker: after a `try_recv` that returned it, every later one says `Closed`, and
  -- the last drop finds nothing to destroy. Before the sender acts there is nothing to take.
  pub try_recv-once :
      (inner : Inner A W) (v : A)
      → inner.state ≡ empty
      → (try_recv inner ≡ some (ok none, inner))
        × ((i : Inner A W) × (try_recv (send inner v).0 ≡ some (ok (some v), i))
            × (try_recv i ≡ some (err closed, i))
            × (drop_inner i ≡ some []))
  unfolding try_recv try_take_inner take_slot send drop_inner
  try_recv-once inner v e = (
    ground arith,
    (
      record { state = taken; slot = none; waiter = w.wake inner.waiter },
      ground arith,
      ground arith,
      ground arith,
    ),
  )

  -- A receiver that goes first leaves the value to `send`, which drops it; one that goes after `send`
  -- leaves it to the last drop. Either way it is destroyed once.
  pub drop_receiver-send :
      (inner : Inner A W) (v : A)
      → inner.state ≡ empty
      → ((send (drop_receiver inner) v).1 ≡ v ∷ [])
        × (drop_inner (send (drop_receiver inner) v).0 ≡ some [])
        × ((send inner v).1 ≡ [])
        × (drop_inner (drop_receiver (send inner v).0) ≡ some (v ∷ []))
  unfolding send drop_receiver drop_inner
  drop_receiver-send inner v e = ground arith

module _ {A W : Type 0} ⦃w : Waiter W⦄ ⦃sl : Sleeper W⦄ (known : Wakes W) where
  -- A wait on a pending channel goes on after the step of the sender that settles it and wakes the waiter.
  wait_settled-wakes :
      (x : W) (env : Inner A W → Inner A W) (later : List (Inner A W → Inner A W)) (s : State)
      (slot : Option A)
      → known.Known x
      → env (pending (sl.arm x)) ≡ record { state = s; slot = slot; waiter = w.wake (sl.arm x) }
      → has_settled (record { state = s; slot = slot; waiter = x }) ≡ true
      → (y : W) × (wait_settled (env ∷ later) (pending x)
          ≡ some (returned later (record { state = s; slot = slot; waiter = y })))
  unfolding wait_settled has_settled
  wait_settled-wakes x env later s slot knows step good =
      let waited =
        wait_until-wakes (λ i. i.waiter) (λ y i. record i { waiter = y })
          (λ i. some (has_settled i)) env later (pending x) refl (known.has_worker-known x knows)
          refl (ap (λ i. sl.awake i.waiter) step ∙ known.awake-wake x knows)
          (rw step (ap some good)) in
      (sl.leave (sl.arm (sl.resume (w.wake (sl.arm x)))), rw step at waited)

  -- What `env` leaves behind the wait, for each step of the sender.
  expect-sent :
      (x : W) (v : A) (later : List (Inner A W → Inner A W))
      → expect_taken later (record { state = full; slot = some v; waiter = x })
        ≡ some (some (ok v), record { state = taken; slot = none; waiter = x })
  unfolding expect_taken try_take_inner take_slot
  expect-sent x v later = refl

  expect-closed :
      (x : W) (later : List (Inner A W → Inner A W))
      → expect_taken later (record { state = State.closed; slot = none; waiter = x })
        ≡ some (some (err closed), record { state = State.closed; slot = none; waiter = x })
  unfolding expect_taken try_take_inner
  expect-closed x later = refl

  wait_settled-send :
      (x : W) (v : A) (later : List (Inner A W → Inner A W))
      → known.Known x
      → (y : W) × (wait_settled ((λ i. (send i v).0) ∷ later) (pending x)
          ≡ some (returned later (record { state = full; slot = some v; waiter = y })))
  unfolding send has_settled
  wait_settled-send x v later knows =
      wait_settled-wakes x (λ i. (send i v).0) later full (some v) knows refl refl

  wait_settled-drop_sender :
      (x : W) (later : List (Inner A W → Inner A W))
      → known.Known x
      → (y : W) × (wait_settled (drop_sender ∷ later) (pending x)
          ≡ some (returned later (record { state = State.closed; slot = none; waiter = y })))
  unfolding drop_sender has_settled
  wait_settled-drop_sender x later knows =
      wait_settled-wakes x drop_sender later State.closed none knows refl refl

  -- On a pending channel `recv_async` suspends. If the sender's next step is a `send`, it returns the value; if it
  -- is the drop of the sender, it returns `Closed`. This holds of every backend whose wake reaches a known waiter,
  -- from a waiter that is known.
  pub recv_async-woken :
      (x : W) (v : A) (later : List (Inner A W → Inner A W))
      → known.Known x
      → ((y : W) × (recv_async (pending x) ((λ i. (send i v).0) ∷ later)
            ≡ some (some (ok v), record { state = taken; slot = none; waiter = y })))
        × ((y : W) × (recv_async (pending x) (drop_sender ∷ later)
              ≡ some (some (err closed), record { state = State.closed; slot = none; waiter = y })))
  unfolding recv_async try_take_inner settle_wait
  recv_async-woken x v later knows =
      let (y, sent) = wait_settled-send x v later knows in
      let (z, gone) = wait_settled-drop_sender x later knows in
      ((y, rw (◌>>=◌, sent) (expect-sent y v later)), (z, rw (◌>>=◌, gone) (expect-closed z later)))

  -- On a pending channel `recv` registers its thread unless one is registered, and sleeps. If the sender's next
  -- step is a `send`, it returns the value; if it is the drop of the sender, it returns `Closed`. This holds of
  -- every backend whose wake reaches a known waiter and whose `set_worker` makes one known, from a waiter that is
  -- known if it says that it has a worker.
  pub recv-settled :
      (x : W) (t : ℕ) (v : A) (later : List (Inner A W → Inner A W))
      → (w.has_worker x ≡ true → known.Known x)
      → ((u : W) → known.Known (w.set_worker t u))
      → ((y : W) × (recv (pending x) t ((λ i. (send i v).0) ∷ later)
            ≡ some (some (ok v), record { state = taken; slot = none; waiter = y })))
        × ((y : W) × (recv (pending x) t (drop_sender ∷ later)
              ≡ some (some (err closed), record { state = State.closed; slot = none; waiter = y })))
  unfolding recv wait_and_take bind try_take_inner settle_wait
  recv-settled x t v later before registers = elim (Bool-cases (w.has_worker x)) [
    | inl has_one ↦
        let (y, sent) = wait_settled-send x v later (before has_one) in
        let (z, gone) = wait_settled-drop_sender x later (before has_one) in
        (
          (y, rw (has_one, ◌>>=◌, sent) (expect-sent y v later)),
          (z, rw (has_one, ◌>>=◌, gone) (expect-closed z later)),
        )
    | inr has_none ↦
        let (y, sent) = wait_settled-send (w.set_worker t x) v later (registers x) in
        let (z, gone) = wait_settled-drop_sender (w.set_worker t x) later (registers x) in
        (
          (y, rw (has_none, ◌>>=◌, sent) (expect-sent y v later)),
          (z, rw (has_none, ◌>>=◌, gone) (expect-closed z later)),
        )
  ]
