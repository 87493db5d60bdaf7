-- ===== src/Waiter/Trait.antt =====
-- src/waiter/mod.rs: the trait that every primitive is generic over, as an interface, and
-- src/waiter/noop.rs, its backend for rings inside a larger channel. A thread is a number.
use arbitro_kit.Prelude.{ℕ, Bool, true}

pub record Waiter (W : Type 0) : Type 0 where
  pub fresh : W
  pub set_worker : ℕ → W → W
  pub has_worker : W → Bool
  pub wake : W → W

pub data NoopWaiter : Type 0 where
  noop : NoopWaiter

instance abbrev pub noop_waiter : Waiter NoopWaiter
noop_waiter = record { fresh = noop; set_worker = λ t w. w; has_worker = λ w. true; wake = λ w. w }
