-- ===== src/OneShot/Protocol.antt =====
-- The sender and the receiver of src/route/oneshot.rs as two threads. A step is one access to the
-- shared state; the threads take turns in any order. Accesses are sequentially consistent, but for the
-- relaxed load of `send`, which may miss that the receiver has gone.
use arbitro_kit.Prelude.{◌≡◌, ◌≢◌, Bool, true, false, List, [], ◌∷◌, Option, none, some}
use arbitro_kit.OneShot.Calls.{State, empty, full, taken, rx_dropped, cas_empty}

-- Where the sender's thread stands.
pub data Tx : Type 0 where
  holding : Tx  -- has the handle, and has not called `send`
  sending : Tx  -- before the load in `send`
  writing : Tx  -- before the write of the slot
  storing : Tx  -- before the store of FULL
  gone : Tx

-- Where the receiver's thread stands.
pub data Rx : Type 0 where
  polling : Rx  -- has the handle, between attempts of `try_take_inner`
  taking : Rx  -- has won the exchange FULL to TAKEN, before the read of the slot
  gone : Rx

-- `sent`, `delivered` and `dropped` record what has become of the value; `freed` says that `Inner` has
-- been dropped.
pub record System (A : Type 0) : Type 0 where
  pub state : State
  pub slot : Option A
  pub tx : Tx
  pub rx : Rx
  pub sent : Bool
  pub delivered : List A
  pub dropped : List A
  pub freed : Bool

abbrev pub init : (A : Type 0) → System A
init A = record {
  state = empty;
  slot = none;
  tx = holding;
  rx = polling;
  sent = false;
  delivered = [];
  dropped = [];
  freed = false;
}

-- `v` is the value that the sender sends, if it sends one.
pub data Step {A : Type 0} (v : A) (s : System A) : System A → Type 0 where
  -- `Sender::send` is called with a value.
  call_send : s.tx ≡ holding → Step v s (record s { tx = sending; sent = true })
  -- Its load reads RX_DROPPED: the value is dropped.
  skip :
      s.tx ≡ sending
      → s.state ≡ rx_dropped
      → Step v s (record s { tx = Tx.gone; dropped = v ∷ s.dropped })
  -- Its load reads another state, or an old one.
  go_on : s.tx ≡ sending → Step v s (record s { tx = writing })
  write : s.tx ≡ writing → Step v s (record s { tx = storing; slot = some v })
  store : s.tx ≡ storing → Step v s (record s { tx = Tx.gone; state = full })
  -- `Sender::drop` of a sender that has not sent.
  abandon :
      s.tx ≡ holding
      → Step v s (record s { tx = Tx.gone; state = (cas_empty s.state State.closed).0 })
  -- `try_take_inner`: the exchange succeeds, and then the slot is read.
  win : s.rx ≡ polling → s.state ≡ full → Step v s (record s { rx = taking; state = taken })
  read :
      (u : A)
      → s.rx ≡ taking
      → s.slot ≡ some u
      → Step v s (record s { rx = polling; slot = none; delivered = u ∷ s.delivered })
  -- It fails: nothing changes.
  lose : s.rx ≡ polling → s.state ≢ full → Step v s s
  -- `Receiver::drop`, or the end of `recv`, which drops its reference and leaves the state alone.
  drop_rx :
      s.rx ≡ polling
      → Step v s (record s { rx = Rx.gone; state = (cas_empty s.state rx_dropped).0 })
  end_recv : s.rx ≡ polling → s.state ≢ empty → Step v s (record s { rx = Rx.gone })
  -- The last reference goes: `Inner::drop`.
  free_full :
      (u : A)
      → s.tx ≡ Tx.gone
      → s.rx ≡ Rx.gone
      → s.freed ≡ false
      → s.state ≡ full
      → s.slot ≡ some u
      → Step v s (record s { slot = none; dropped = u ∷ s.dropped; freed = true })
  free_other :
      s.tx ≡ Tx.gone
      → s.rx ≡ Rx.gone
      → s.freed ≡ false
      → s.state ≢ full
      → Step v s (record s { freed = true })

pub data Reach {A : Type 0} (v : A) : System A → Type 0 where
  start : Reach v (init A)
  next : {s t : System A} → Reach v s → Step v s t → Reach v t
