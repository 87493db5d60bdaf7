-- ===== src/Notify/Race.antt =====
-- The waiting task and any number of wakers of src/waiter/notify.rs as threads that take turns in any order. A
-- waker's store of the data goes through a store buffer, and can reach memory after its later loads; its
-- RMW of `armed` and `Notify::notify_one`, which is SeqCst, empty the buffer. The relaxed load of `armed` may
-- read an old value, so it is taken to read anything. The data is a number of items, and the predicate that
-- there is one. The gate has one waiter, as the code's contract says.
use native.Mathlib.Decide.{ℕ_discrete}
use mathlib.Core.Logic.{ite}
use arbitro_kit.Prelude.{
  ℕ, suc, ◌+◌, ◌-◌, ◌<◌, ◌≡◌, Bool, true, false, ◌==◌, if◌then◌else◌, wrapping_add, wrapping_sub,
}
use arbitro_kit.Notify.Tokio.{TokioNotify}

-- Where a waker stands; the number counts the items in its store buffer.
pub data Waker : Type 0 where
  idle : ℕ → Waker
  stored : ℕ → Waker  -- has stored an item, and calls `wake`
  probing : ℕ → Waker  -- the load T3a has read zero
  notifying : ℕ → Waker  -- T3a or T3b has read that the gate is armed

-- Where the task stands.
pub data Task : Type 0 where
  away : Task  -- outside the wait path
  arming : Task  -- past T1, before it makes the future
  armed : Task  -- has the future, before the look at the predicate
  awaiting : Task  -- suspended on the future, or before its poll
  leaving : Task  -- before it drops the future
  disarming : Task  -- has dropped the future, before T2

pub record System (tokio : TokioNotify) : Type 0 where
  pub armed : ℕ
  pub notify : tokio.State
  pub items : ℕ
  pub task : Task
  pub wakers : ℕ → Waker

abbrev pub init : (tokio : TokioNotify) → System tokio
init tokio = record {
  armed = 0;
  notify = tokio.default;
  items = 0;
  task = away;
  wakers = λ i. idle 0;
}

-- The system with waker `i` moved to `p`.
abbrev pub move : {tokio : TokioNotify} → System tokio → ℕ → Waker → System tokio
move s i p = record s { wakers = λ j. ite (ℕ_discrete i j) p (s.wakers j) }

-- What the RMW T3b does to a store buffer of `b` items: how many go to memory, and how many stay.
unfoldable pub rmw : ℕ → ℕ × ℕ
rmw b = (b, 0)

pub data Step {tokio : TokioNotify} (s : System tokio) : System tokio → Type 0 where
  -- The caller publishes an item and calls `wake`.
  store : (i b : ℕ) → s.wakers i ≡ idle b → Step s (move s i (stored (b + 1)))
  -- A store buffer lets one item go, at any time.
  flush_idle :
      (i b : ℕ)
      → s.wakers i ≡ idle (suc b)
      → Step s (move (record s { items = s.items + 1 }) i (idle b))
  flush_stored :
      (i b : ℕ)
      → s.wakers i ≡ stored (suc b)
      → Step s (move (record s { items = s.items + 1 }) i (stored b))
  flush_probing :
      (i b : ℕ)
      → s.wakers i ≡ probing (suc b)
      → Step s (move (record s { items = s.items + 1 }) i (probing b))
  flush_notifying :
      (i b : ℕ)
      → s.wakers i ≡ notifying (suc b)
      → Step s (move (record s { items = s.items + 1 }) i (notifying b))
  -- `wake`: T3a, T3b, and `notify_one`.
  load :
      (i b : ℕ) (seen : Bool)
      → s.wakers i ≡ stored b
      → Step s (move s i (if seen then notifying b else probing b))
  probe :
      (i b : ℕ)
      → s.wakers i ≡ probing b
      → Step s (
          move
            (record s { items = s.items + (rmw b).0; armed = wrapping_add s.armed 0 })
            i
            (if s.armed == 0 then idle (rmw b).1 else notifying (rmw b).1))
  notify_one :
      (i b : ℕ)
      → s.wakers i ≡ notifying b
      → Step s
          (move (record s { items = s.items + b; notify = tokio.notify_one s.notify }) i (idle 0))
  -- `WakeGate::notified`: T1, and the future.
  arm : s.task ≡ away → Step s (record s { armed = wrapping_add s.armed 1; task = arming })
  make_future :
      s.task ≡ arming → Step s (record s { notify = tokio.notified s.notify; task = armed })
  -- The look at the predicate after it.
  look_ready : s.task ≡ armed → 0 < s.items → Step s (record s { task = leaving })
  look_empty : s.task ≡ armed → s.items ≡ 0 → Step s (record s { task = awaiting })
  -- The task is polled, or it is cancelled.
  poll_ready :
      s.task ≡ awaiting
      → (tokio.poll s.notify).0 ≡ true
      → Step s (record s { notify = (tokio.poll s.notify).1; task = leaving })
  poll_pending :
      s.task ≡ awaiting
      → (tokio.poll s.notify).0 ≡ false
      → Step s (record s { notify = (tokio.poll s.notify).1 })
  cancel : s.task ≡ awaiting → Step s (record s { task = leaving })
  -- The drop of the future, and T2.
  drop_future :
      s.task ≡ leaving → Step s (record s { notify = tokio.drop s.notify; task = disarming })
  disarm : s.task ≡ disarming → Step s (record s { armed = wrapping_sub s.armed 1; task = away })
  -- Between waits the task takes items.
  take : s.task ≡ away → 0 < s.items → Step s (record s { items = s.items - 1 })

pub data Reach {tokio : TokioNotify} : System tokio → Type 0 where
  start : Reach (init tokio)
  next : {s t : System tokio} → Reach s → Step s t → Reach t

-- The steps of a `wake` that is under way, its T3a reading `seen`.
abbrev pub is_wake : {tokio : TokioNotify} {s t : System tokio} → Bool → Step s t → Bool
is_wake true (load i b true e) = true
is_wake false (load i b false e) = true
is_wake seen (probe i b e) = true
is_wake seen (notify_one i b e) = true
is_wake _ _ = false

pub data WakeRun {tokio : TokioNotify} (seen : Bool) : System tokio → System tokio → Type 0 where
  done : {s : System tokio} → WakeRun seen s s
  step :
      {s t u : System tokio} (st : Step s t)
      → is_wake seen st ≡ true
      → WakeRun seen t u
      → WakeRun seen s u
