-- ===== src/Tests/WaitRuns.antt =====
-- The waits of src/route/oneshot.rs and src/gate/signal_set.rs, with a parked thread or a suspended task.
use arbitro_kit.Prelude.{
  ℕ, zero, suc, ◌≡◌, refl, true, false, [], ◌∷◌, none, some, ok, err, unsome, replicate, arith,
}
use arbitro_kit.Park.Sleep.{Parker, park_waiter, park_sleeper, park_wakes, known-set}
use arbitro_kit.Waiter.{Waiter}
use arbitro_kit.Waiter.Sleep.{Sleeper, returned}
use arbitro_kit.Notify.Calls.{WakeGate, default, notify_waiter}
use arbitro_kit.Notify.Sleep.{notify_sleeper, notify_wakes, KnownGate}
use arbitro_kit.OneShot.Calls.{State, taken, closed, send, drop_sender, recv_async}
use arbitro_kit.OneShot.Laws.{pending, recv_async-woken}
use arbitro_kit.SignalSet.Defs.{SignalSet, any_open, is_open}
use arbitro_kit.SignalSet.Gates.{IsWide}
use arbitro_kit.SignalSet.Acquire.{releases, acquire_any, acquire_any-released}
use arbitro_kit.Tests.NotifyRuns.{permit, permit-Documented}

instance abbrev permit_waiter : Waiter (WakeGate permit)
permit_waiter = notify_waiter permit

instance abbrev permit_sleeper : Sleeper (WakeGate permit)
permit_sleeper = notify_sleeper permit

default-Known : KnownGate (default permit)
unfolding default
default-Known = omega arith

recv_async-woken_example :
    ((y : WakeGate permit) × (recv_async {A = ℕ}
          (pending (default permit))
          ((λ i. (send i 5).0) ∷ [])
        ≡ some (some (ok 5), record { state = taken; slot = none; waiter = y })))
    × ((y : WakeGate permit) × (recv_async {A = ℕ} (pending (default permit)) (drop_sender ∷ [])
          ≡ some (some (err closed), record { state = State.closed; slot = none; waiter = y })))
recv_async-woken_example =
    recv_async-woken (notify_wakes permit permit-Documented) (default permit) 5 [] default-Known

-- gates 0 and 2 are open, and thread 4 is registered
abbrev guarded : SignalSet ℕ Parker
guarded = record {
  chunks = 5 ∷ [];
  waiter = park_waiter.set_worker 4 park_waiter.fresh;
  names = replicate 64 none;
  next_id = 0;
}

guarded-IsWide : IsWide guarded
guarded-IsWide zero word e = let same : 5 ≡ word = unsome e in omega (arith, same)
guarded-IsWide (suc c) word e = cc

shut : any_open guarded 2 ≡ some false
unfolding any_open
shut = refl

acquire_any-released_example :
    (t : SignalSet ℕ Parker) × (acquire_any (releases 1 ∷ []) guarded 2 ≡ some (returned [] t))
    × (is_open t 1 ≡ some true)
acquire_any-released_example =
    acquire_any-released park_wakes guarded 1 2 [] guarded-IsWide (omega arith) (omega arith) refl
      (known-set 4 park_waiter.fresh) shut
