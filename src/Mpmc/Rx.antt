-- ===== src/Mpmc/Rx.antt =====
-- `MpmcConsumer` of src/route/mpmc.rs, and the drop of what all handles share. A loop `for p in 0..m` goes
-- along a shard's rings and the producers' waiters together.
use arbitro_kit.Prelude.{
  ℕ, zero, suc, ◌+◌, ◌*◌, Bool, List, [], ◌∷◌, ◌++◌, Option, none, some, ltb, ◌==◌, if◌then◌else◌,
  ◌>>=◌, get_elem?, set, map, wrapping_sub, wrapping_add, Result, ok, err,
}
use arbitro_kit.Cells.{slot_index, read_cell}
use arbitro_kit.Waiter.{Waiter}
use arbitro_kit.Ring.Shared.{drop_loop}
use arbitro_kit.Ring.Rx.{Call, returned, panicked, Drained, drained, unwound}
use arbitro_kit.Mpsc.Rx.{Shutdown, shutdown}
use arbitro_kit.Mpmc.Types.{PRing, Shard, Inner, is_terminal_for_consumer, any_ring_has_work}

-- The inner loop of `drain_all` from cursor `t` to `h`: the slots, the guard's cursor, the count and the
-- outcome. `none` is undefined behaviour, or the end of the fuel.
unfoldable pub ring_loop :
    {A S : Type 0}
    → ℕ
    → ℕ
    → List (Option A)
    → ℕ
    → ℕ
    → (S → A → Call S)
    → S
    → ℕ
    → Option (List (Option A) × ℕ × ℕ × Call S)
ring_loop cap zero slots t h f s count = none
ring_loop {A} {S} cap (suc fuel) slots t h f s count =
    let rest = λ (slots' : List (Option A)) (s' : S).
      ring_loop cap fuel slots' (wrapping_add t 1) h f s' (count + 1) in
    if t == h then some (slots, t, count, returned s) else do
      (v, slots') ← read_cell slots (slot_index cap t)
      elim (f s v) [
        | returned s' ↦ rest slots' s'
        | panicked s' ↦ some (slots', wrapping_add t 1, count, panicked s')
      ]

module _ {A W : Type 0} ⦃w : Waiter W⦄ (cap : ℕ) where
  -- The loop of `try_recv` over `n` rings.
  unfoldable pub recv_scan :
      ℕ → List (PRing A) → List W → Option (Option A × List (PRing A) × List W)
  recv_scan zero rs ws = some (none, rs, ws)
  recv_scan (suc n) (r ∷ rs) (x ∷ ws) =
      let rest = recv_scan n rs ws in
      if r.tail == r.head then (do (out, rs', ws') ← rest; some (out, r ∷ rs', x ∷ ws')) else (do
        (v, slots) ← read_cell r.slots (slot_index cap r.tail)
        some (some v, record r { tail = wrapping_add r.tail 1; slots = slots } ∷ rs, w.wake x ∷ ws))
  recv_scan (suc n) _ _ = none

  -- One round `for p in 0..m` of `drain_all`, with the count of what was drained. A panic of the closure
  -- leaves the later rings alone, and the producer's waiter too; the guard publishes the cursor.
  unfoldable pub drain_pass :
      {S : Type 0}
      → ℕ
      → List (PRing A)
      → List W
      → (S → A → Call S)
      → S
      → Option (Drained S × List (PRing A) × List W)
  drain_pass zero rs ws f s = some (drained 0 s, rs, ws)
  drain_pass {S} (suc n) (r ∷ rs) (x ∷ ws) f s =
      let skipped = drain_pass n rs ws f s in
      let later = λ (s' : S). drain_pass n rs ws f s' in
      if r.tail == r.head then (do (out, rs', ws') ← skipped; some (out, r ∷ rs', x ∷ ws')) else (do
        (slots, t, count, out) ← ring_loop cap (suc cap) r.slots r.tail r.head f s 0
        let r' = record r { tail = t; slots = slots }
        elim out [
          | panicked s' ↦ some (unwound s', r' ∷ rs, x ∷ ws)
          | returned s' ↦ do
            (out', rs', ws') ← later s'
            elim out' [
              | drained count' s'' ↦ some (drained (count + count') s'', r' ∷ rs', w.wake x ∷ ws')
              | unwound s'' ↦ some (unwound s'', r' ∷ rs', w.wake x ∷ ws')
            ]
        ])
  drain_pass (suc n) _ _ f s = none

  -- Shard `s` with new rings, and the producers' waiters.
  abbrev pub put_back : Inner A W → ℕ → Shard A W → List (PRing A) → List W → Inner A W
  put_back inner s shard rings waiters = record inner {
    shards = set inner.shards s (record shard { rings = rings });
    producer_waiters = waiters;
  }

  -- `MpmcConsumer::try_recv`, of shard `s`.
  unfoldable pub try_recv : ℕ → Inner A W → Option (Option A × Inner A W)
  try_recv s inner = do
    shard ← get_elem? inner.shards s
    (out, rings, waiters) ← recv_scan inner.m shard.rings inner.producer_waiters
    some (out, put_back inner s shard rings waiters)

  -- The loop of `drain_all`: rounds until one makes no progress. `none` is a fault, or the end of the fuel.
  unfoldable pub drain_loop :
      {S : Type 0} → ℕ → ℕ → Inner A W → (S → A → Call S) → S → ℕ → Option (Drained S × Inner A W)
  drain_loop zero s inner f st count = none
  drain_loop {S} (suc fuel) s inner f st count = do
    shard ← get_elem? inner.shards s
    (out, rings, waiters) ← drain_pass inner.m shard.rings inner.producer_waiters f st
    let inner' : Inner A W = put_back inner s shard rings waiters
    elim out [
      | unwound st' ↦ some (unwound st', inner')
      | drained k st' ↦
          let rest = drain_loop fuel s inner' f st' (count + k) in
          if k == 0 then some (drained count st', inner') else rest
    ]

  -- `MpmcConsumer::try_recv_batch` and `drain_all`, on fuel for `rounds` rounds.
  unfoldable pub drain_all :
      {S : Type 0} → ℕ → ℕ → Inner A W → (S → A → Call S) → S → Option (Drained S × Inner A W)
  drain_all rounds s inner f st = drain_loop rounds s inner f st 0

  -- How `recv` goes on from what `try_recv` found. What the other threads do before the test is `gap`, and
  -- `wait` is for a channel that is not terminal.
  unfoldable pub settle_recv :
      (Inner A W → Inner A W)
      → (Inner A W → Option (Option (Result Shutdown A) × Inner A W))
      → Option A × Inner A W
      → Option (Option (Result Shutdown A) × Inner A W)
  settle_recv gap wait (some v, inner) = some (some (ok v), inner)
  settle_recv gap wait (none, inner) =
      let rest = wait (gap inner) in
      if is_terminal_for_consumer (gap inner) then some (some (err shutdown), gap inner) else rest

  -- `MpmcConsumer::recv`, and `recv_async`, which differs in how it waits. In each round the other threads
  -- act between the scan and the test, and during the wait. Where the rounds run out the call still waits.
  unfoldable pub recv :
      List ((Inner A W → Inner A W) × (Inner A W → Inner A W))
      → ℕ
      → Inner A W
      → Option (Option (Result Shutdown A) × Inner A W)
  recv [] s inner = some (none, inner)
  recv ((gap, env) ∷ later) s inner =
      try_recv s inner >>= settle_recv gap (λ inner'. recv later s (env inner'))

  -- How `recv_batch` goes on from what `drain_all` did.
  unfoldable pub settle_batch :
      {S : Type 0}
      → (Inner A W → Inner A W)
      → (S → Inner A W → Option (Option (Result Shutdown (Drained S)) × Inner A W))
      → Drained S × Inner A W
      → Option (Option (Result Shutdown (Drained S)) × Inner A W)
  settle_batch gap wait (unwound st, inner) = some (some (ok (unwound st)), inner)
  settle_batch gap wait (drained n st, inner) =
      let rest = wait st (gap inner) in
      if ltb 0 n
      then some (some (ok (drained n st)), inner)
      else if is_terminal_for_consumer (gap inner)
      then some (some (err shutdown), gap inner)
      else rest

  -- `MpmcConsumer::recv_batch`, each `drain_all` on fuel for `rounds` rounds.
  unfoldable pub recv_batch :
      {S : Type 0}
      → ℕ
      → List ((Inner A W → Inner A W) × (Inner A W → Inner A W))
      → ℕ
      → Inner A W
      → (S → A → Call S)
      → S
      → Option (Option (Result Shutdown (Drained S)) × Inner A W)
  recv_batch rounds [] s inner f st = some (none, inner)
  recv_batch rounds ((gap, env) ∷ later) s inner f st =
      drain_all rounds s inner f st
      >>= settle_batch gap (λ st' inner'. recv_batch rounds later s (env inner') f st')

module _ {A W : Type 0} ⦃w : Waiter W⦄ where
  -- `MpmcConsumer::drop`: the last one wakes every producer.
  unfoldable pub drop_consumer : Inner A W → Inner A W
  drop_consumer inner = record inner {
    live_consumers = wrapping_sub inner.live_consumers 1;
    producer_waiters =
        if inner.live_consumers == 1
        then map w.wake inner.producer_waiters
        else inner.producer_waiters;
  }

-- The loop of `MpmcInner::drop` over a shard's rings, with the values it drops, in order.
unfoldable pub drop_rings : {A : Type 0} → ℕ → List (PRing A) → Option (List A)
drop_rings cap [] = some []
drop_rings cap (r ∷ rs) = do
  (dropped, _) ← drop_loop cap (suc cap) r.slots r.tail r.head
  later ← drop_rings cap rs
  some (dropped ++ later)

-- `MpmcInner::drop`.
unfoldable pub drop_shards : {A W : Type 0} → ℕ → List (Shard A W) → Option (List A)
drop_shards cap [] = some []
drop_shards cap (shard ∷ shards) = do
  dropped ← drop_rings cap shard.rings
  later ← drop_shards cap shards
  some (dropped ++ later)

module _ {A W : Type 0} where
  -- `MpmcConsumer::total_capacity`, `pending_from` and `has_pending`, for the consumer of shard `s`.
  unfoldable pub total_capacity : ℕ → Inner A W → ℕ
  total_capacity cap inner = inner.m * cap

  unfoldable pub pending_from : Inner A W → ℕ → ℕ → Option ℕ
  pending_from inner s p = do
    shard ← get_elem? inner.shards s
    ring ← get_elem? shard.rings p
    some (wrapping_sub ring.head ring.tail)

  unfoldable pub has_pending : Inner A W → ℕ → Option Bool
  has_pending inner s = do shard ← get_elem? inner.shards s; some (any_ring_has_work shard.rings)

  -- `MpmcConsumer::bind`, on thread `t`.
  unfoldable pub bind : ⦃w : Waiter W⦄ → Inner A W → ℕ → ℕ → Option (Inner A W)
  bind ⦃w⦄ inner s t = do
    shard ← get_elem? inner.shards s
    some (record inner {
      shards =
          set inner.shards s
            (record shard { consumer_waiter = w.set_worker t shard.consumer_waiter });
    })
