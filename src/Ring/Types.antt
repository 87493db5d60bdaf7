-- ===== src/Ring/Types.antt =====
-- The types of src/stream/ring.rs. A handle's `Arc` to the shared state is an argument of its
-- methods, and `_not_sync` carries no data.
use arbitro_kit.Prelude.{ℕ, Bool, List, Option}

pub data TrySendError (A : Type 0) : Type 0 where
  full : A → TrySendError A
  closed : A → TrySendError A

pub data TryRecvError : Type 0 where
  empty : TryRecvError
  closed : TryRecvError

-- `Ring`: the shared state. Cursors are `usize`; `CAP` is an argument of the operations.
pub record Ring (A W : Type 0) : Type 0 where
  pub head : ℕ
  pub tail : ℕ
  pub not_full : W
  pub not_empty : W
  pub closed : Bool
  pub slots : List (Option A)

pub record Producer : Type 0 where
  pub cached_tail : ℕ
  pub worker : Option ℕ

pub record Consumer : Type 0 where
  pub cached_head : ℕ
  pub worker : Option ℕ

-- The state of a channel whose handles are both alive.
pub record Link (A W : Type 0) : Type 0 where
  pub tx : Producer
  pub rx : Consumer
  pub shared : Ring A W
