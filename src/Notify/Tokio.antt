-- ===== src/Notify/Tokio.antt =====
-- What src/waiter/notify.rs uses of `tokio::sync::Notify`. The state of a `Notify` includes that of the one
-- future that its `notified` has made and that is alive, since a gate has one waiter.
use arbitro_kit.Prelude.{◌≡◌, Bool, true, false}

-- `poll` says whether the future is ready.
pub record TokioNotify : Type 1 where
  pub State : Type 0
  pub default : State
  pub notified : State → State
  pub notify_one : State → State
  pub poll : State → Bool × State
  pub drop : State → State
  pub alive : State → Bool

-- What its documentation says: a future is alive from `notified` on, as long as it is pending, and after a
-- `notify_one` its next poll completes, whether it was waiting or the permit was stored.
pub record Documented (tokio : TokioNotify) : Type 0 where
  pub alive-notified : (n : tokio.State) → tokio.alive (tokio.notified n) ≡ true
  pub alive-notify_one : (n : tokio.State) → tokio.alive (tokio.notify_one n) ≡ tokio.alive n
  pub alive-poll :
      (n : tokio.State)
      → tokio.alive n ≡ true
      → (tokio.poll n).0 ≡ false
      → tokio.alive (tokio.poll n).1 ≡ true
  pub poll-notify_one :
      (n : tokio.State) → tokio.alive n ≡ true → (tokio.poll (tokio.notify_one n)).0 ≡ true
