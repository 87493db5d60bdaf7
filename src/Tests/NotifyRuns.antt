-- ===== src/Tests/NotifyRuns.antt =====
-- Runs of src/waiter/notify.rs, with a `Notify` that is just its permit.
use arbitro_kit.Prelude.{ℕ, ◌+◌, ◌<◌, ◌≡◌, refl, ◌⊎◌, Bool, true, false, [], ◌∷◌, not, ◌==◌, arith}
use arbitro_kit.Notify.Tokio.{TokioNotify, Documented}
use arbitro_kit.Notify.Calls.{WakeGate, wake, wait_until, returned, polled}
use arbitro_kit.Notify.Waits.{armed_at, at_last, wait_until-disarms, wait_until-wakes}
use arbitro_kit.Notify.Race.{
  System, move, idle, stored, awaiting, init, start, next, store, flush_stored, arm, make_future,
  look_empty, poll_pending, Reach, WakeRun,
}
use arbitro_kit.Notify.Invariant.{on_way}
use arbitro_kit.Notify.Wakes.{no_lost_notify, notify_arrives}
use arbitro_kit.Notify.Atomic.{gate, wake-RunsAs}

-- a `Notify` with one waiter: the permit, or the notification that the waiter has received
abbrev pub permit : TokioNotify
permit = record {
  State = Bool;
  default = false;
  notified = λ n. n;
  notify_one = λ n. true;
  poll = λ n. (n, false);
  drop = λ n. n;
  alive = λ n. true;
}

pub permit-Documented : Documented permit
permit-Documented = record {
  alive-notified = λ n. refl;
  alive-notify_one = λ n. refl;
  alive-poll = λ n h e. refl;
  poll-notify_one = λ n h. refl;
}

-- The task is suspended, and has been polled once, when an item of waker 4 reaches memory before it has probed
-- the gate.
abbrev suspended_task : (s : System permit) × Reach s × (s.task ≡ awaiting) × (0 < s.items)
suspended_task = (
  _,
  next
      (next
        (next (next (next (next start (arm refl)) (make_future refl)) (look_empty refl refl))
          (poll_pending refl refl))
        (store 4 0 refl))
      (flush_stored 4 0 (ground arith)),
  refl,
  omega arith,
)

no_lost_notify_example : (false ≡ true) ⊎ ((i : ℕ) × (on_way (suspended_task.0.wakers i) ≡ true))
no_lost_notify_example =
    no_lost_notify permit-Documented suspended_task.1 suspended_task.2 suspended_task.3

notify_arrives_example :
    (t : System permit) × WakeRun false suspended_task.0 t
    × (t.task ≡ awaiting)
    × ((permit.poll t.notify).0 ≡ true)
notify_arrives_example =
    notify_arrives permit-Documented false suspended_task.1 suspended_task.2 suspended_task.3

abbrev one_stored : System permit
one_stored = record (move (init permit) 4 (stored 1)) { armed = 1; task = awaiting }

wake-RunsAs_example :
    (t : System permit) × WakeRun (not (0 == 0)) one_stored t
    × (gate t ≡ wake 0 (λ g. g) (gate one_stored))
    × (t.items ≡ 0 + 1)
    × (t.wakers 4 ≡ idle 0)
    × (t.task ≡ awaiting)
wake-RunsAs_example = wake-RunsAs 0 one_stored 4 1 (ground arith)

-- a gate that another future has armed
abbrev one_armed : WakeGate permit
one_armed = record { notify = false; armed = 1 }

wait_until-disarms_example :
    (wait_until (false ∷ false ∷ true ∷ []) (polled false ∷ polled true ∷ []) one_armed).1.armed
    ≡ armed_at
        (wait_until (false ∷ false ∷ true ∷ []) (polled false ∷ polled true ∷ []) one_armed).0
        1
wait_until-disarms_example =
    wait_until-disarms (false ∷ false ∷ true ∷ []) (polled false ∷ polled true ∷ []) one_armed
      (omega arith)

wait_until-wakes_example :
    ((wait_until (at_last 3 []) (polled false ∷ polled true ∷ []) one_armed).0 ≡ returned [])
    × ((wait_until (at_last 3 []) (polled false ∷ polled true ∷ []) one_armed).1.armed ≡ 1)
wait_until-wakes_example =
    wait_until-wakes 3 [] (polled false ∷ polled true ∷ []) one_armed (omega arith) refl
      (omega arith)
