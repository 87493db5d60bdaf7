-- ===== src/Park/Wakes.antt =====
-- No wake is lost: `ParkWaiter` never sleeps on an item that no waker is about to announce.
use arbitro_kit.Prelude.{
  ℕ, ◌+◌, ◌<◌, ◌≡◌, refl, ap, ◌∙◌, ◌⊎◌, inl, inr, true, if◌then◌else◌, arith, Bool-cases,
}
use arbitro_kit.Park.Race.{
  Waker, idle, stored, fencing, fenced, delivering, parking, System, move, fence, probe,
  fence_waker, probe_again, unpark, Reach, WakeRun, done, step,
}
use arbitro_kit.Park.Invariant.{on_path, on_way, Reach-Inv}

-- While the worker sleeps and there is an item in memory, it has its token, or some waker has yet to probe
-- the flag or to unpark: no interleaving of the threads and their store buffers loses the wake.
pub no_lost_wake :
    {s : System}
    → Reach s
    → s.worker ≡ parking
    → 0 < s.items
    → (s.token ≡ true) ⊎ ((i : ℕ) × (on_way (s.wakers i) ≡ true))
no_lost_wake {s} r asleep some_item = elim (Bool-cases s.token) [
  | inl has ↦ inl has
  | inr lacks ↦ inr ((Reach-Inv r).awaited asleep some_item lacks)
]

-- What a `wake` under way comes to while the worker sleeps.
WakesUp : System → Type 0
WakesUp s = (t : System) × WakeRun s t × (t.worker ≡ parking) × (t.token ≡ true)

move_self : (s : System) (i : ℕ) (p : Waker) → (move s i p).wakers i ≡ p
move_self s i p = ground arith

delivering-WakesUp :
    (s : System) (i b : ℕ)
    → s.wakers i ≡ delivering b
    → s.handle ≡ true
    → s.worker ≡ parking
    → WakesUp s
unfolding WakesUp
delivering-WakesUp s i b e h asleep = (_, step (unpark i b e) refl done, asleep, rw h)

probed-WakesUp :
    (s : System) (i : ℕ) (p : Waker) (b : ℕ)
    → p ≡ delivering b
    → s.handle ≡ true
    → s.worker ≡ parking
    → WakesUp (move s i p)
probed-WakesUp s i p b e h asleep =
    delivering-WakesUp (move s i p) i b (move_self s i p ∙ e) h asleep

fenced-WakesUp :
    (s : System) (i b : ℕ)
    → s.wakers i ≡ fenced b
    → s.parked ≡ true
    → s.handle ≡ true
    → s.worker ≡ parking
    → WakesUp s
unfolding WakesUp
fenced-WakesUp s i b e up h asleep =
    let (t, run, w, k) =
      probed-WakesUp s i (if s.parked then delivering b else idle b) b (rw up) h asleep in
    (t, step (probe_again i b e) refl run, w, k)

wake-WakesUp :
    (s : System) (i : ℕ) (p : Waker)
    → s.wakers i ≡ p
    → on_way p ≡ true
    → s.parked ≡ true
    → s.handle ≡ true
    → s.worker ≡ parking
    → WakesUp s
unfolding WakesUp fence
wake-WakesUp s i (idle b) e way up h asleep = cc
wake-WakesUp s i (stored b) e way up h asleep =
    let (t, run, w, k) =
      probed-WakesUp s i (if s.parked then delivering b else fencing b) b (rw up) h asleep in
    (t, step (probe i b e) refl run, w, k)
wake-WakesUp s i (fencing b) e way up h asleep =
    let s1 : System = move (record s { items = s.items + b }) i (fenced 0) in
    let (t, run, w, k) =
      fenced-WakesUp s1 i 0 (move_self (record s { items = s.items + b }) i (fenced 0)) up h
        asleep in
    (t, step (fence_waker i b e) refl run, w, k)
wake-WakesUp s i (fenced b) e way up h asleep = fenced-WakesUp s i b e up h asleep
wake-WakesUp s i (delivering b) e way up h asleep = delivering-WakesUp s i b e h asleep

-- Whenever the worker sleeps while there is an item in memory, it has its token, or the steps that some `wake`
-- under way has yet to take, and no others, give it the token.
pub wake_arrives :
    {s : System}
    → Reach s
    → s.worker ≡ parking
    → 0 < s.items
    → (t : System) × WakeRun s t × (t.worker ≡ parking) × (t.token ≡ true)
unfolding WakesUp
wake_arrives {s} r asleep some_item =
    let inv = Reach-Inv r in
    let up : s.parked ≡ true = inv.flag ∙ ap on_path asleep in
    elim (no_lost_wake r asleep some_item) [
      | inl has ↦ (s, done, asleep, has)
      | inr (i, way) ↦ wake-WakesUp s i (s.wakers i) refl way up (inv.known (inv.safe up)) asleep
    ]
