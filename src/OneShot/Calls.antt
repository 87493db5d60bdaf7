-- ===== src/OneShot/Calls.antt =====
-- The methods of src/route/oneshot.rs, each run to its end on the shared state. A value that is
-- destroyed is given back, so that what becomes of every value can be followed.
use arbitro_kit.Prelude.{
  ℕ, Bool, true, false, List, [], ◌∷◌, Option, none, some, if◌then◌else◌, not, ◌>>=◌, Result, ok,
  err,
}
use arbitro_kit.Waiter.{Waiter}
use arbitro_kit.Waiter.Sleep.{Sleeper, Waited, wait_until, settle_wait}

-- `STATE_EMPTY` and the others.
pub data State : Type 0 where
  empty full closed taken rx_dropped : State

pub data Closed : Type 0 where
  closed : Closed

-- `Inner`. The slot is `none` while its `MaybeUninit` holds no value.
pub record Inner (A W : Type 0) : Type 0 where
  pub state : State
  pub slot : Option A
  pub waiter : W

-- `compare_exchange(STATE_EMPTY, new)`: the state after it, and whether it succeeded.
abbrev pub cas_empty : State → State → State × Bool
cas_empty State.empty new = (new, true)
cas_empty s new = (s, false)

module _ {A W : Type 0} ⦃w : Waiter W⦄ where
  -- `OneShot::new`.
  unfoldable pub new : Inner A W
  new = record { state = empty; slot = none; waiter = w.fresh }

  -- `Sender::send`, with the value that it drops.
  unfoldable pub send : Inner A W → A → Inner A W × List A
  send inner v = elim inner.state [
    | rx_dropped ↦ (inner, v ∷ [])
    | _ ↦ (record { state = full; slot = some v; waiter = w.wake inner.waiter }, [])
  ]

  -- `Sender::drop`, for a sender that has not sent: the waiter is woken if the exchange succeeds.
  unfoldable pub drop_sender : Inner A W → Inner A W
  drop_sender inner =
      let (s, won) = cas_empty inner.state State.closed in
      record inner { state = s; waiter = if won then w.wake inner.waiter else inner.waiter }

  -- `Receiver::drop`.
  unfoldable pub drop_receiver : Inner A W → Inner A W
  drop_receiver inner = record inner { state = (cas_empty inner.state rx_dropped).0 }

  -- `Receiver::bind`, on thread `t`.
  unfoldable pub bind : Inner A W → ℕ → Inner A W
  bind inner t = record inner { waiter = w.set_worker t inner.waiter }

  -- The slot is read after the exchange FULL to TAKEN. `none` is a read of an empty slot.
  unfoldable pub take_slot : Inner A W → Option (Option (Result Closed A) × Inner A W)
  take_slot inner = elim inner.slot [
    | none ↦ none
    | some v ↦ some (some (ok v), record inner { state = taken; slot = none })
  ]

  -- `try_take_inner`: `none` inside the result is a value still pending.
  unfoldable pub try_take_inner : Inner A W → Option (Option (Result Closed A) × Inner A W)
  try_take_inner inner = elim inner.state [
    | full ↦ take_slot inner
    | State.closed ↦ some (some (err closed), inner)
    | taken ↦ some (some (err closed), inner)
    | _ ↦ some (none, inner)
  ]

  -- `Receiver::try_recv`.
  unfoldable pub try_recv : Inner A W → Option (Result Closed (Option A) × Inner A W)
  try_recv inner = do
    (taken_now, inner') ← try_take_inner inner
    elim taken_now [
      | some (ok v) ↦ some (ok (some v), inner')
      | some (err e) ↦ some (err e, inner')
      | none ↦ some (ok none, inner')
    ]

  -- The predicate of both waits, `state != STATE_EMPTY`, and the wait itself.
  unfoldable pub has_settled : Inner A W → Bool
  has_settled inner = elim inner.state [ empty ↦ false | _ ↦ true ]

  unfoldable pub wait_settled :
      ⦃sl : Sleeper W⦄ → List (Inner A W → Inner A W) → Inner A W → Option (Waited (Inner A W))
  wait_settled events inner =
      wait_until (λ x. x.waiter) (λ y x. record x { waiter = y }) (λ x. some (has_settled x)) events
        inner

  -- What both receives do after the wait: `none` is a panic of the `expect`, or a read of an empty slot.
  unfoldable pub expect_taken :
      List (Inner A W → Inner A W) → Inner A W → Option (Option (Result Closed A) × Inner A W)
  expect_taken later inner = do
    (second, inner') ← try_take_inner inner
    r ← second
    some (some r, inner')

  -- The wait of `recv`, by thread `t`: it registers unless another has. What the sender does while the thread
  -- sleeps is a list of functions. A result without a value is a call that still sleeps; `none` is also the
  -- panic of a wait by an unregistered thread.
  unfoldable pub wait_and_take :
      ⦃sl : Sleeper W⦄
      → Inner A W
      → ℕ
      → List (Inner A W → Inner A W)
      → Option (Option (Result Closed A) × Inner A W)
  wait_and_take inner t events =
      let bound = if not (w.has_worker inner.waiter) then bind inner t else inner in
      wait_settled events bound >>= settle_wait expect_taken (λ x. (none, x))

  -- `Receiver::recv`.
  unfoldable pub recv :
      ⦃sl : Sleeper W⦄
      → Inner A W
      → ℕ
      → List (Inner A W → Inner A W)
      → Option (Option (Result Closed A) × Inner A W)
  recv inner t events = do
    (first, inner') ← try_take_inner inner
    elim first [ some r ↦ some (some r, inner') | none ↦ wait_and_take inner' t events ]

  -- `Receiver::recv_async` and `do_recv_async`, with what the sender does while the task is suspended.
  unfoldable pub recv_async :
      ⦃sl : Sleeper W⦄
      → Inner A W
      → List (Inner A W → Inner A W)
      → Option (Option (Result Closed A) × Inner A W)
  recv_async inner events = do
    (first, inner') ← try_take_inner inner
    elim first [
      | some r ↦ some (some r, inner')
      | none ↦ wait_settled events inner' >>= settle_wait expect_taken (λ x. (none, x))
    ]

  -- `Inner::drop`, with the value that it drops. `none` is a drop of an empty slot.
  unfoldable pub drop_inner : Inner A W → Option (List A)
  drop_inner inner = elim inner.state [ full ↦ do v ← inner.slot; some (v ∷ []) | _ ↦ some [] ]
