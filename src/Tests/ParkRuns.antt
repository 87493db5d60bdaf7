-- ===== src/Tests/ParkRuns.antt =====
-- Runs of src/waiter/park.rs.
use arbitro_kit.Prelude.{ℕ, ◌<◌, ◌≡◌, refl, ◌⊎◌, true, false, [], ◌∷◌, some, arith}
use arbitro_kit.Park.Calls.{ParkWaiter, wait_until_deadline}
use arbitro_kit.Park.Deadline.{Ends, wait_until_deadline-Ends}
use arbitro_kit.Park.Race.{
  System, parking, start, next, store, flush_stored, set_handle, set_registered, announce,
  look_empty, Reach, WakeRun,
}
use arbitro_kit.Park.Invariant.{on_way}
use arbitro_kit.Park.Wakes.{no_lost_wake, wake_arrives}

-- a waiter of thread 5 that spins twice after the tight spin
abbrev waiter : ParkWaiter
waiter = record { parked = 0; spin_iters = 2; registered = true; worker = some 5 }

wait_until_deadline-Ends_example :
    Ends 10
      (false ∷ false ∷ false ∷ false ∷ [])
      (3 ∷ 12 ∷ 15 ∷ [])
      waiter
      (wait_until_deadline 10 (false ∷ false ∷ false ∷ false ∷ []) (3 ∷ 12 ∷ 15 ∷ []) waiter)
wait_until_deadline-Ends_example =
    wait_until_deadline-Ends 10 (3 ∷ []) (false ∷ false ∷ false ∷ false ∷ []) 12 (15 ∷ []) waiter
      (omega arith) refl refl (omega arith)

-- The worker sleeps, and then an item of waker 4 reaches memory before it has probed the flag.
abbrev asleep : (s : System) × Reach s × (s.worker ≡ parking) × (0 < s.items)
asleep = (
  _,
  next
      (next
        (next (next (next (next start set_handle) (set_registered refl)) (announce refl refl))
          (look_empty refl refl))
        (store 4 0 refl))
      (flush_stored 4 0 (ground arith)),
  refl,
  omega arith,
)

no_lost_wake_example : (false ≡ true) ⊎ ((i : ℕ) × (on_way (asleep.0.wakers i) ≡ true))
no_lost_wake_example = no_lost_wake asleep.1 asleep.2 asleep.3

wake_arrives_example : (t : System) × WakeRun asleep.0 t × (t.worker ≡ parking) × (t.token ≡ true)
wake_arrives_example = wake_arrives asleep.1 asleep.2 asleep.3
