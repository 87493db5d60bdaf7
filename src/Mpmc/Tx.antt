-- ===== src/Mpmc/Tx.antt =====
-- `MpmcProducer` and `MpmcShutdown` of src/route/mpmc.rs. `none` is a fault: an index out of range, or a
-- write outside the slots.
use arbitro_kit.Prelude.{
  ℕ, zero, suc, ◌+◌, ◌-◌, ◌*◌, ◌%◌, ◌^◌, min, Bool, true, false, List, [], ◌∷◌, Option, some, leb,
  ◌==◌, not, if◌then◌else◌, ◌>>=◌, get_elem?, set, map, take, drop, length, wrapping_sub,
  wrapping_add, Result, ok, err,
}
use arbitro_kit.Cells.{slot_index, write_cell}
use arbitro_kit.Waiter.{Waiter}
use arbitro_kit.Mpmc.Types.{PRing, Shard, Inner, Producer, is_full, is_terminal_for_producer}

-- Items written one after the other from cursor `h` on: the slots and the cursor behind them.
unfoldable pub burst :
    {A : Type 0} → ℕ → List A → List (Option A) → ℕ → Option (List (Option A) × ℕ)
burst cap [] slots h = some (slots, h)
burst cap (v ∷ vs) slots h = do
  slots' ← write_cell slots (slot_index cap h) v
  burst cap vs slots' (wrapping_add h 1)

module _ {A : Type 0} where
  -- The loop of `has_idle_shard`, for producer `idx`.
  unfoldable pub has_idle_shard : {W : Type 0} → ℕ → ℕ → List (Shard A W) → Option Bool
  has_idle_shard cap idx [] = some false
  has_idle_shard cap idx (shard ∷ shards) = do
    ring ← get_elem? shard.rings idx
    let rest = has_idle_shard cap idx shards
    if not (is_full cap ring.head ring.tail) then some true else rest

  -- The loops of `MpmcProducer::pending` and `MpmcProducer::available`, for producer `idx`.
  unfoldable pub pending : {W : Type 0} → ℕ → List (Shard A W) → Option ℕ
  pending idx [] = some 0
  pending idx (shard ∷ shards) = do
    ring ← get_elem? shard.rings idx
    n ← pending idx shards
    some (wrapping_sub ring.head ring.tail + n)

  unfoldable pub available : {W : Type 0} → ℕ → ℕ → List (Shard A W) → Option ℕ
  available cap idx [] = some 0
  available cap idx (shard ∷ shards) = do
    ring ← get_elem? shard.rings idx
    n ← available cap idx shards
    some ((cap - wrapping_sub ring.head ring.tail) + n)

  -- `MpmcProducer::total_capacity`.
  unfoldable pub total_capacity : {W : Type 0} → ℕ → Inner A W → ℕ
  total_capacity cap inner = inner.n * cap

  -- `MpmcShutdown::is_signaled`.
  unfoldable pub is_signaled : {W : Type 0} → Inner A W → Bool
  is_signaled inner = inner.shutdown

  -- `pending_in_shard`.
  unfoldable pub pending_in_shard : {W : Type 0} → Inner A W → ℕ → ℕ → Option ℕ
  pending_in_shard inner idx s = do
    shard ← get_elem? inner.shards s
    ring ← get_elem? shard.rings idx
    some (wrapping_sub ring.head ring.tail)

  -- `available_in_shard`.
  unfoldable pub available_in_shard : {W : Type 0} → ℕ → Inner A W → ℕ → ℕ → Option ℕ
  available_in_shard cap inner idx s = do used ← pending_in_shard inner idx s; some (cap - used)

module _ {A W : Type 0} ⦃w : Waiter W⦄ (cap : ℕ) where
  -- One ring of shard `s` replaced, and its consumer woken.
  abbrev pub publish : Inner A W → ℕ → Shard A W → ℕ → PRing A → Inner A W
  publish inner s shard idx ring = record inner {
    shards = set inner.shards s (record shard {
      rings = set shard.rings idx ring;
      consumer_waiter = w.wake shard.consumer_waiter;
    });
  }

  -- The cursor after a send to shard `s`.
  abbrev pub advance : Producer → Inner A W → ℕ → Producer
  advance p inner s = record p { cursor = (s + 1) % inner.n % 2 ^ 32 }

  -- The loop of `try_send`: `left` rounds are left, and `k` are done.
  unfoldable pub send_scan :
      ℕ → ℕ → Producer → Inner A W → A → Option (Result A (Unit {0}) × Producer × Inner A W)
  send_scan zero k p inner v = some (err v, p, inner)
  send_scan (suc left) k p inner v =
      let s = (p.cursor % inner.n + k) % inner.n in
      do
        shard ← get_elem? inner.shards s
        ring ← get_elem? shard.rings p.my_idx
        let rest = send_scan left (k + 1) p inner v
        if is_full cap ring.head ring.tail then rest else (do
          slots ← write_cell ring.slots (slot_index cap ring.head) v
          some (
            ok tt,
            advance p inner s,
            publish inner s shard p.my_idx
                (record ring { head = wrapping_add ring.head 1; slots = slots }),
          ))

  -- `MpmcProducer::try_send`.
  unfoldable pub try_send :
      Producer → Inner A W → A → Option (Result A (Unit {0}) × Producer × Inner A W)
  try_send p inner v =
      if is_terminal_for_producer inner
      then some (err v, p, inner)
      else send_scan inner.n 0 p inner v

  -- The loop of `try_send_batch`: the number sent, and the vector that is left.
  unfoldable pub batch_scan :
      ℕ → ℕ → Producer → Inner A W → List A → Option (ℕ × List A × Producer × Inner A W)
  batch_scan zero k p inner items = some (0, items, p, inner)
  batch_scan (suc left) k p inner items =
      let s = (p.cursor % inner.n + k) % inner.n in
      do
        shard ← get_elem? inner.shards s
        ring ← get_elem? shard.rings p.my_idx
        let rest = batch_scan left (k + 1) p inner items
        let used = wrapping_sub ring.head ring.tail
        if leb cap used then rest else (do
          let n_taken = min (length items) (cap - used)
          (slots, h) ← burst cap (take n_taken items) ring.slots ring.head
          some (
            n_taken,
            drop n_taken items,
            advance p inner s,
            publish inner s shard p.my_idx (record ring { head = h; slots = slots }),
          ))

  -- `MpmcProducer::try_send_batch`.
  unfoldable pub try_send_batch :
      Producer → Inner A W → List A → Option (ℕ × List A × Producer × Inner A W)
  try_send_batch p inner items =
      if length items == 0 then some (0, items, p, inner) else batch_scan inner.n 0 p inner items

  -- How `send` goes on from what `try_send` left; `wait` is given a value that came back.
  unfoldable pub settle_send :
      (Producer → Inner A W → A → Option (Bool × Producer × Inner A W))
      → Result A (Unit {0}) × Producer × Inner A W
      → Option (Bool × Producer × Inner A W)
  settle_send wait (ok _, p, inner) = some (true, p, inner)
  settle_send wait (err v, p, inner) = wait p inner v

  -- `MpmcProducer::send`, and `send_async`, which differs in how it waits. What the other threads do
  -- during a wait is a function on the state. The result says whether the call has returned: where these
  -- run out it still waits.
  unfoldable pub send :
      List (Inner A W → Inner A W) → Producer → Inner A W → A → Option (Bool × Producer × Inner A W)
  send [] p inner v =
      if is_terminal_for_producer inner
      then some (true, p, inner)
      else try_send p inner v >>= settle_send (λ p' inner' u. some (false, p', inner'))
  send (env ∷ later) p inner v =
      let attempt =
        try_send p inner v >>= settle_send (λ p' inner' u. send later p' (env inner') u) in
      if is_terminal_for_producer inner then some (true, p, inner) else attempt

-- The consumers' waiters, all woken.
abbrev pub wake_shards : {A W : Type 0} ⦃w : Waiter W⦄ → List (Shard A W) → List (Shard A W)
wake_shards [] = []
wake_shards ⦃w⦄ (shard ∷ shards) =
    record shard { consumer_waiter = w.wake shard.consumer_waiter } ∷ wake_shards shards

module _ {A W : Type 0} ⦃w : Waiter W⦄ where
  -- `MpmcProducer::bind`, on thread `t`. `none` is an index out of range.
  unfoldable pub bind : Inner A W → ℕ → ℕ → Option (Inner A W)
  bind inner idx t = do
    x ← get_elem? inner.producer_waiters idx
    some (record inner { producer_waiters = set inner.producer_waiters idx (w.set_worker t x) })

  -- `MpmcProducer::drop`: the last one wakes every consumer.
  unfoldable pub drop_producer : Inner A W → Inner A W
  drop_producer inner = record inner {
    live_producers = wrapping_sub inner.live_producers 1;
    shards = if inner.live_producers == 1 then wake_shards inner.shards else inner.shards;
  }

  -- `MpmcShutdown::signal`.
  unfoldable pub signal : Inner A W → Inner A W
  signal inner = record inner {
    shutdown = true;
    shards = wake_shards inner.shards;
    producer_waiters = map w.wake inner.producer_waiters;
  }
