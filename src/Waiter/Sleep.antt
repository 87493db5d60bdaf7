-- ===== src/Waiter/Sleep.antt =====
-- The two `wait_until` of src/waiter, `BlockingWaiter`'s and `AsyncWaiter`'s, as one loop over a state that has a
-- waiter in it. What the other threads do to that state while the caller is parked or suspended is a list of
-- functions. The caller looks at its predicate again only after one of them has woken it.
use arbitro_kit.Prelude.{
  ◌≡◌, ◌>>=◌, Bool, true, false, List, [], ◌∷◌, Option, some, none, not, if◌then◌else◌,
}
use arbitro_kit.Waiter.Trait.{Waiter}

-- What a backend does around a sleep. `arm` announces it, before the last look at the predicate; `awake` says
-- whether the park or the await of an armed waiter ends; `resume` ends it, and `leave` ends one in which that last
-- look found the predicate true.
pub record Sleeper (W : Type 0) : Type 0 where
  pub arm : W → W
  pub awake : W → Bool
  pub resume : W → W
  pub leave : W → W

-- How a wait stands: it has returned, with what is left of the list, or it sleeps, or its assertion has panicked.
pub data Waited (S : Type 0) : Type 0 where
  returned : List (S → S) → S → Waited S
  asleep : S → Waited S
  panicked : S → Waited S

-- What a caller does with a wait: it goes on once the wait returns, and is still in it while it sleeps. The panic
-- of the assertion is `none`.
unfoldable pub settle_wait :
    {S R : Type 0} → (List (S → S) → S → Option R) → (S → R) → Waited S → Option R
settle_wait next still (returned events s) = next events s
settle_wait next still (asleep s) = some (still s)
settle_wait next still (panicked s) = none

module _ {S W : Type 0} ⦃w : Waiter W⦄ ⦃sl : Sleeper W⦄ (get : S → W) (put : W → S → S)
    (ready : S → Option Bool) where
  abbrev pub armed : S → S
  armed s = put (sl.arm (get s)) s

  abbrev pub resumed : S → S
  resumed s = put (sl.resume (get s)) s

  abbrev pub left : S → S
  left s = put (sl.leave (get s)) s

  -- The sleep of a waiter that is armed. Each function of the list that leaves it asleep is followed by the next.
  unfoldable pub sleep : List (S → S) → S → Option (Waited S)
  sleep [] s = some (asleep s)
  sleep (env ∷ later) s =
      let woken = armed (resumed (env s)) in
      let on = sleep later (env s) in
      let again = sleep later woken in
      if sl.awake (get (env s))
      then ready woken >>= (λ done. if done then some (returned later (left woken)) else again)
      else on

  -- `wait_until`. `none` is a predicate that faults.
  unfoldable pub wait_until : List (S → S) → S → Option (Waited S)
  wait_until events s = ready s >>= (λ done.
      if done
      then some (returned events s)
      else (if not (w.has_worker (get s))
          then some (panicked s)
          else ready (armed s) >>= (λ late.
            if late then some (returned events (left (armed s))) else sleep events (armed s))))

  -- A wait that finds its predicate false sleeps. What wakes it and makes the predicate true ends it.
  pub wait_until-wakes :
      (env : S → S) (later : List (S → S)) (s : S)
      → ready s ≡ some false
      → w.has_worker (get s) ≡ true
      → ready (armed s) ≡ some false
      → sl.awake (get (env (armed s))) ≡ true
      → ready (armed (resumed (env (armed s)))) ≡ some true
      → wait_until (env ∷ later) s ≡ some (returned later (left (armed (resumed (env (armed s))))))
  unfolding wait_until sleep
  wait_until-wakes env later s first known second woken good =
      rw (first, ◌>>=◌, known, second, ◌>>=◌, woken, good, ◌>>=◌)

-- What a caller relies on: the wake of an armed waiter reaches its owner, if the waiter is in a state that is
-- `Known` to its backend, as one with a registered thread.
pub record Wakes (W : Type 0) ⦃w : Waiter W⦄ ⦃sl : Sleeper W⦄ : Type 1 where
  pub Known : W → Type 0
  pub has_worker-known : (x : W) → Known x → w.has_worker x ≡ true
  pub awake-wake : (x : W) → Known x → sl.awake (w.wake (sl.arm x)) ≡ true
