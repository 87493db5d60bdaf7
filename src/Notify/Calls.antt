-- ===== src/Notify/Calls.antt =====
-- src/waiter/notify.rs, one call at a time. The answers of the predicate are a list, in the order in which the
-- code takes them.
use arbitro_kit.Prelude.{
  ℕ, Bool, true, false, List, [], ◌∷◌, ◌==◌, if◌then◌else◌, wrapping_add, wrapping_sub,
}
use arbitro_kit.Waiter.{Waiter}
use arbitro_kit.Notify.Tokio.{TokioNotify}

-- `WakeGate`, and `NotifyWaiter`, which holds one.
pub record WakeGate (tokio : TokioNotify) : Type 0 where
  pub notify : tokio.State
  pub armed : ℕ

-- `WakeGate::default`.
unfoldable pub default : (tokio : TokioNotify) → WakeGate tokio
default tokio = record { notify = tokio.default; armed = 0 }

-- `WakeGate::notified`, T1.
unfoldable pub notified : {tokio : TokioNotify} → WakeGate tokio → WakeGate tokio
notified {tokio} g =
    let armed : WakeGate tokio = record g { armed = wrapping_add g.armed 1 } in
    record armed { notify = tokio.notified armed.notify }

-- `GuardedNotified::poll`.
unfoldable pub poll : {tokio : TokioNotify} → WakeGate tokio → Bool × WakeGate tokio
poll {tokio} g = ((tokio.poll g.notify).0, record g { notify = (tokio.poll g.notify).1 })

-- `DisarmOnDrop::drop`, T2.
unfoldable pub disarm : {tokio : TokioNotify} → WakeGate tokio → WakeGate tokio
disarm g = record g { armed = wrapping_sub g.armed 1 }

-- The drop of a `GuardedNotified`, its fields in the order of their declaration.
unfoldable pub drop_guarded : {tokio : TokioNotify} → WakeGate tokio → WakeGate tokio
drop_guarded {tokio} g = disarm (record g { notify = tokio.drop g.notify })

-- `WakeGate::wake`: `seen` is what its relaxed load T3a reads, which may be an old value, and `gap` what the
-- other threads do before T3b, which reads the latest.
unfoldable pub wake :
    {tokio : TokioNotify} → ℕ → (WakeGate tokio → WakeGate tokio) → WakeGate tokio → WakeGate tokio
wake {tokio} seen gap g =
    if seen == 0
    then (if (gap g).armed == 0
        then record (gap g) { armed = wrapping_add (gap g).armed 0 }
        else record (gap g) {
          armed = wrapping_add (gap g).armed 0;
          notify = tokio.notify_one (gap g).notify;
        })
    else record g { notify = tokio.notify_one g.notify }

-- `NotifyWaiter` as a `Waiter`, for a `wake` that no other thread takes part in: its `set_worker` does nothing,
-- and its `has_worker` answers true.
abbrev pub notify_waiter : (tokio : TokioNotify) → Waiter (WakeGate tokio)
notify_waiter tokio = record {
  fresh = default tokio;
  set_worker = λ thread g. g;
  has_worker = λ g. true;
  wake = λ g. wake g.armed (λ g'. g') g;
}

-- What happens while a task is suspended on its future: it is polled, once the wakers have left the `Notify` as
-- given, or it is dropped with the future.
pub data Event (tokio : TokioNotify) : Type 0 where
  polled : tokio.State → Event tokio
  cancelled : Event tokio

-- How an await ends, with the events that are left.
pub data Awaited (tokio : TokioNotify) : Type 0 where
  completed : WakeGate tokio → List (Event tokio) → Awaited tokio
  dropped : WakeGate tokio → Awaited tokio
  pending : WakeGate tokio → Awaited tokio

-- `notified.await`, with the drop of the future at its end.
unfoldable pub await_notified :
    {tokio : TokioNotify} → List (Event tokio) → WakeGate tokio → Awaited tokio
await_notified [] g = pending g
await_notified (cancelled ∷ events) g = dropped (drop_guarded g)
await_notified {tokio} (polled n ∷ events) g =
    let g' : WakeGate tokio = (poll (record g { notify = n })).1 in
    let rest = await_notified events g' in
    if (tokio.poll n).0 then completed (drop_guarded g') events else rest

-- How a wait stands: it has returned, with the answers that are left, or it was cancelled, or it is suspended,
-- or it runs still, and looks at the predicate next, without a future or with one.
pub data Waited : Type 0 where
  returned : List Bool → Waited
  cancelled : Waited
  suspended : Waited
  looking : Waited
  looking_armed : Waited

unfoldable pub after_await :
    {tokio : TokioNotify}
    → Awaited tokio
    → (WakeGate tokio → List (Event tokio) → Waited × WakeGate tokio)
    → Waited × WakeGate tokio
after_await (completed g events) next = next g events
after_await (dropped g) next = (cancelled, g)
after_await (pending g) next = (suspended, g)

-- The loop of `wait_until`.
unfoldable pub wait_loop :
    {tokio : TokioNotify}
    → List Bool
    → List (Event tokio)
    → WakeGate tokio
    → Waited × WakeGate tokio
wait_loop [] events g = (looking_armed, notified g)
wait_loop (true ∷ answers) events g = (returned answers, drop_guarded (notified g))
wait_loop (false ∷ []) events g =
    after_await (await_notified events (notified g)) (λ g' events'. (looking, g'))
wait_loop (false ∷ true ∷ answers) events g =
    after_await (await_notified events (notified g)) (λ g' events'. (returned answers, g'))
wait_loop (false ∷ false ∷ answers) events g =
    after_await (await_notified events (notified g)) (λ g' events'. wait_loop answers events' g')

-- `wait_until`.
unfoldable pub wait_until :
    {tokio : TokioNotify}
    → List Bool
    → List (Event tokio)
    → WakeGate tokio
    → Waited × WakeGate tokio
wait_until [] events g = (looking, g)
wait_until (true ∷ answers) events g = (returned answers, g)
wait_until (false ∷ answers) events g = wait_loop answers events g
