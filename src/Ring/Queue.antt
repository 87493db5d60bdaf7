-- ===== src/Ring/Queue.antt =====
-- What a ring promises: a FIFO queue of at most `cap` items that can be closed.
use arbitro_kit.Prelude.{
  ℕ, ◌+◌, ◌≤◌, ◌<◌, ◌≡◌, Bool, List, [], ◌∷◌, ◌++◌, length, ltb, if◌then◌else◌, Result, ok, err,
  word_mod, wrapping_sub, arith,
}
use arbitro_kit.Cells.{IsWindow}
use arbitro_kit.Ring.Types.{Ring, Producer, Consumer, TrySendError, full, TryRecvError, empty}

pub record Queue (A : Type 0) : Type 0 where
  pub items : List A
  pub closed : Bool

module _ {A : Type 0} where
  -- A closed queue takes items for as long as it has room.
  unfoldable pub push : ℕ → Queue A → A → Result (TrySendError A) (Unit {0}) × Queue A
  push cap q v =
      if ltb (length q.items) cap
      then (ok tt, record q { items = q.items ++ (v ∷ []) })
      else (err (if q.closed then TrySendError.closed v else full v), q)

  -- Closing is seen only once the queue is empty.
  unfoldable pub pop : Queue A → Result TryRecvError A × Queue A
  pop q = elim q.items [
    | [] ↦ (err (if q.closed then TryRecvError.closed else empty), q)
    | v ∷ rest ↦ (ok v, record q { items = rest })
  ]

  pub push-room :
      (cap : ℕ) (q : Queue A) (v : A)
      → length q.items < cap
      → push cap q v ≡ (ok tt, record q { items = q.items ++ (v ∷ []) })
  unfolding push
  push-room cap q v h = ground arith

  pub push-full :
      (cap : ℕ) (q : Queue A) (v : A)
      → cap ≤ length q.items
      → push cap q v ≡ (err (if q.closed then TrySendError.closed v else full v), q)
  unfolding push
  push-full cap q v h = ground arith

-- The shared state and the two handles stand for the queue `q`. Each cached cursor is one that the
-- other side has had: the producer's leaves no more than `cap` items behind `head`, and the consumer's
-- lies between the shared cursors.
pub record Represents {A W : Type 0} (cap : ℕ) (p : Producer) (c : Consumer) (r : Ring A W)
    (q : Queue A) : Type 0 where
  pub head_fits : r.head < word_mod
  pub tail_fits : r.tail < word_mod
  pub cached_tail_fits : p.cached_tail < word_mod
  pub cached_head_fits : c.cached_head < word_mod
  pub count : wrapping_sub r.head r.tail ≡ length q.items
  pub behind :
      wrapping_sub r.head p.cached_tail ≡ wrapping_sub r.tail p.cached_tail + length q.items
  pub room : wrapping_sub r.head p.cached_tail ≤ cap
  pub seen : wrapping_sub c.cached_head r.tail ≤ length q.items
  pub same_closed : r.closed ≡ q.closed
  pub window : IsWindow cap r.slots r.tail q.items
