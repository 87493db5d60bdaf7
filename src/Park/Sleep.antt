-- ===== src/Park/Sleep.antt =====
-- src/waiter/park.rs as a backend of `wait_until`: the waiter, and the token of the one thread that parks on it.
use arbitro_kit.Prelude.{ℕ, ◌≡◌, refl, Bool, true, false, none, some, arith}
use arbitro_kit.Waiter.{Waiter}
use arbitro_kit.Waiter.Sleep.{Sleeper, Wakes}
use arbitro_kit.Park.Calls.{
  ParkWaiter, default, set_worker, has_worker, wake, announce, leave, unpark_registered,
}

-- A `thread::park` returns once the token is there, and takes it.
pub record Parker : Type 0 where
  pub waiter : ParkWaiter
  pub token : Bool

-- `wake`, when no other thread acts between its probes.
unfoldable pub wake_parker : Parker → Parker
wake_parker x = elim (wake (λ w. w) x.waiter) [ none ↦ x | some thread ↦ record x { token = true } ]

instance abbrev pub park_waiter : Waiter Parker
park_waiter = record {
  fresh = record { waiter = default; token = false };
  set_worker = λ t x. record x { waiter = set_worker t x.waiter };
  has_worker = λ x. has_worker x.waiter;
  wake = wake_parker;
}

-- The flag is up from the announcement to the return of `wait_slow`.
instance abbrev pub park_sleeper : Sleeper Parker
park_sleeper = record {
  arm = λ x. record x { waiter = announce x.waiter };
  awake = λ x. x.token;
  resume = λ x. record x { token = false };
  leave = λ x. record x { waiter = leave x.waiter };
}

-- A thread that has called `set_worker` on the waiter.
abbrev pub KnownParker : Parker → Type 0
KnownParker x = (has_worker x.waiter ≡ true) × ((t : ℕ) × (unpark_registered x.waiter ≡ some t))

pub known-set : (t : ℕ) (x : Parker) → KnownParker (record x { waiter = set_worker t x.waiter })
unfolding set_worker has_worker unpark_registered
known-set t x = (refl, (t, refl))

pub awake-announced :
    (x : Parker)
    → KnownParker x
    → (wake_parker (record x { waiter = announce x.waiter })).token ≡ true
unfolding wake_parker wake has_worker unpark_registered
awake-announced x (known, (t, e)) = ground (arith, e)

abbrev pub park_wakes : Wakes Parker
park_wakes = record {
  Known = KnownParker;
  has_worker-known = λ x known. known.0;
  awake-wake = awake-announced;
}
