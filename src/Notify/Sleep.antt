-- ===== src/Notify/Sleep.antt =====
-- src/waiter/notify.rs as a backend of `wait_until`: arming it makes the `notified` future, and the drop of that
-- future ends the await.
use arbitro_kit.Prelude.{◌≡◌, ◌+◌, ◌<◌, true, arith, refl, word_mod}
use arbitro_kit.Waiter.Sleep.{Sleeper, Wakes}
use arbitro_kit.Notify.Tokio.{TokioNotify, Documented}
use arbitro_kit.Notify.Calls.{WakeGate, notified, poll, drop_guarded, wake, notify_waiter}

-- The await ends at a poll that completes, and the future is dropped with it; the drop undoes the arming.
abbrev pub notify_sleeper : (tokio : TokioNotify) → Sleeper (WakeGate tokio)
notify_sleeper tokio = record {
  arm = notified;
  awake = λ g. (poll g).0;
  resume = λ g. drop_guarded (poll g).1;
  leave = drop_guarded;
}

-- A gate whose count of armed waiters is not at the end of its word.
abbrev pub KnownGate : {tokio : TokioNotify} → WakeGate tokio → Type 0
KnownGate g = g.armed + 1 < word_mod

pub awake-notified :
    {tokio : TokioNotify} (doc : Documented tokio) (g : WakeGate tokio)
    → KnownGate g
    → (poll (wake (notified g).armed (λ g'. g') (notified g))).0 ≡ true
unfolding poll wake notified
awake-notified {tokio} doc g fits =
    let ready = doc.poll-notify_one (tokio.notified g.notify) (doc.alive-notified g.notify) in
    ground (arith, ready)

abbrev pub notify_wakes :
    (tokio : TokioNotify)
    → Documented tokio
    → Wakes (WakeGate tokio) ⦃w = notify_waiter tokio⦄ ⦃sl = notify_sleeper tokio⦄
notify_wakes tokio doc = record {
  Known = KnownGate;
  has_worker-known = λ g known. refl;
  awake-wake = awake-notified doc;
}
