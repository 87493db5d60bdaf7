-- ===== src/Park/Waits.antt =====
-- How long `ParkWaiter::wait_until` spins and how often it parks.
use arbitro_kit.Prelude.{
  ℕ, zero, suc, ◌+◌, ◌-◌, ◌≤◌, ◌<◌, ◌≡◌, refl, ap, sym, Bool, true, false, List, ◌∷◌, ◌++◌,
  replicate, arith,
}
use native.Mathlib.Decide.{dec_lt}
use arbitro_kit.Park.Calls.{
  ParkWaiter, unparked, has_worker, spin, held, spent, after_spin, returned, panicked, park_loop,
  announce_and_park, wait_slow, wait_until, leave, announce,
}

-- The predicate answers false `k` times and then true.
abbrev pub at_last : ℕ → List Bool → List Bool
at_last k rest = replicate k false ++ (true ∷ rest)

spin-held : (n k : ℕ) (rest : List Bool) → k < n → spin n (at_last k rest) ≡ held rest
unfolding spin
spin-held zero k rest h = elim h [ ]
spin-held (suc n) zero rest h = refl
spin-held (suc n) (suc k) rest h = spin-held n k rest (omega arith)

spin-spent :
    (n k : ℕ) (rest : List Bool) → n ≤ k → spin n (at_last k rest) ≡ spent (at_last (k - n) rest)
unfolding spin
spin-spent zero k rest h = let e : k - 0 ≡ k = omega arith in rw e
spin-spent (suc n) zero rest h = absurd (omega arith)
spin-spent (suc n) (suc k) rest h =
    let e : suc k - suc n ≡ k - n = omega arith in rw e (spin-spent n k rest (omega arith))

park_loop-returned :
    (k : ℕ) (rest : List Bool) (w : ParkWaiter) (parks : ℕ)
    → park_loop (at_last k rest) w parks ≡ (returned rest, leave w, parks + k + 1)
unfolding park_loop
park_loop-returned zero rest w parks =
    let e : parks + 1 ≡ parks + 0 + 1 = omega arith in rw (← e) refl
park_loop-returned (suc k) rest w parks =
    let e : parks + 1 + k + 1 ≡ parks + suc k + 1 = omega arith in
    rw (park_loop-returned k rest w (parks + 1), e)

announce_and_park-returned :
    (k : ℕ) (rest : List Bool) (w : ParkWaiter)
    → announce_and_park (at_last k rest) w ≡ (returned rest, leave w, k)
unfolding announce_and_park
announce_and_park-returned zero rest w = refl
announce_and_park-returned (suc k) rest w =
    let e : 0 + k + 1 ≡ suc k = omega arith in rw (park_loop-returned k rest (announce w) 0, e)

pub leave-idle : (w : ParkWaiter) → w.parked ≡ unparked → leave w ≡ w
leave-idle w idle = ap (λ (p : ℕ). record w { parked = p }) (sym idle)

wait_slow-returned :
    (k : ℕ) (rest : List Bool) (w : ParkWaiter)
    → w.parked ≡ unparked
    → w.registered ≡ true
    → wait_slow (at_last k rest) w ≡ (returned rest, w, k - (64 + w.spin_iters))
unfolding wait_slow has_worker after_spin
wait_slow-returned k rest w idle known = elim (dec_lt k 64) [
  | yes tight ↦
      let n : k - (64 + w.spin_iters) ≡ 0 = omega arith in rw (known, spin-held 64 k rest tight, n)
  | no slow ↦ elim (dec_lt (k - 64) w.spin_iters) [
    | yes paused ↦
        let n : k - (64 + w.spin_iters) ≡ 0 = omega arith in
        rw (
          known,
          spin-spent 64 k rest (omega arith),
          spin-held w.spin_iters (k - 64) rest paused,
          n,
        )
    | no parks ↦
        let n : k - 64 - w.spin_iters ≡ k - (64 + w.spin_iters) = omega arith in
        rw (
          spin-spent 64 k rest (omega arith),
          spin-spent w.spin_iters (k - 64) rest (omega arith),
          announce_and_park-returned (k - 64 - w.spin_iters) rest w,
          leave-idle w idle,
          known,
          n,
        )
  ]
]

-- `wait_until` returns as soon as the predicate holds, whether at the first, a spinning or a parked look, and
-- leaves the waiter as it was, the flag cleared. It parks once for each look beyond the first `65 +
-- spin_iters`. Without a registered worker it panics unless the first look succeeds.
pub wait_until-returns :
    (k : ℕ) (rest : List Bool) (w : ParkWaiter)
    → w.parked ≡ unparked
    → ((w.registered ≡ true
          → wait_until (at_last k rest) w ≡ (returned rest, w, k - (65 + w.spin_iters)))
        × (w.registered ≡ false → 0 < k → wait_until (at_last k rest) w ≡ (panicked, w, 0))
        × (wait_until (at_last 0 rest) w ≡ (returned rest, w, 0)))
unfolding wait_until wait_slow has_worker
wait_until-returns zero rest w idle =
    let n : 0 - (65 + w.spin_iters) ≡ 0 = omega arith in
    (λ known. rw n refl, λ e h. absurd (omega arith), refl)
wait_until-returns (suc k) rest w idle = (
  λ known.
      let n : k - (64 + w.spin_iters) ≡ suc k - (65 + w.spin_iters) = omega arith in
      rw (← n) (wait_slow-returned k rest w idle known),
  λ e h. rw e,
  refl,
)
