-- ===== src/Tests/MpmcRuns.antt =====
-- Runs of src/route/mpmc.rs.
use mathlib.Core.List.{flatten}
use arbitro_kit.Prelude.{
  ℕ, ◌+◌, ◌-◌, ◌%◌, ◌^◌, ◌<◌, ◌≡◌, refl, ◌⊎◌, true, false, List, [], ◌∷◌, ◌++◌, none, some, take,
  drop, set, ok, err, arith,
}
use arbitro_kit.Waiter.{NoopWaiter, noop, noop_waiter}
use arbitro_kit.Ring.Rx.{Call, returned}
use arbitro_kit.Ring.Feed.{feed}
use arbitro_kit.Ring.Drain.{outcome}
use arbitro_kit.Mpsc.Rx.{shutdown}
use arbitro_kit.Mpmc.Types.{
  PRing, Shard, Inner, Producer, new_ring, fresh_inner, is_terminal_for_producer,
}
use arbitro_kit.Mpmc.Tx
use arbitro_kit.Mpmc.Tx.{try_send, try_send_batch, advance}
use arbitro_kit.Mpmc.Rx.{drain_all, recv}
use arbitro_kit.Mpmc.Grid.{Holds, Stands, Holds-new, cell}
use arbitro_kit.Mpmc.Send.{at_round, Routes, try_send-Routes}
use arbitro_kit.Mpmc.SendBatch.{taken, try_send_batch-Routes}
use arbitro_kit.Mpmc.Drain.{drain_all-feeds}
use arbitro_kit.Mpmc.Ends.{fresh_inner-Stands}
use arbitro_kit.Mpmc.LastSend.{send_and_leave, recv-LeavesLast}
use arbitro_kit.Mpmc.Gauges.{producer_gauges-exact}
use arbitro_kit.Tests.Fixtures.{two-IsCap, part-Represents}

-- 7 in the last cell before the cursors wrap
abbrev held : PRing ℕ
held = record { head = 0; tail = 2 ^ 64 - 1; slots = none ∷ some 7 ∷ [] }

abbrev shard : List (PRing ℕ) → Shard ℕ NoopWaiter
shard rings = record { rings = rings; consumer_waiter = noop; m = 2 }

-- two producers and two consumers, with 7 from producer 1 at shard 0
abbrev duo : Inner ℕ NoopWaiter
duo = record {
  shards = shard (new_ring ℕ 2 ∷ held ∷ []) ∷ shard (new_ring ℕ 2 ∷ new_ring ℕ 2 ∷ []) ∷ [];
  producer_waiters = noop ∷ noop ∷ [];
  shutdown = false;
  live_producers = 2;
  live_consumers = 2;
  m = 2;
  n = 2;
}

abbrev grid : List (List (List ℕ))
grid = ([] ∷ (7 ∷ []) ∷ []) ∷ ([] ∷ [] ∷ []) ∷ []

held-Holds : Holds 2 held (7 ∷ [])
held-Holds = record {
  head_fits = omega arith;
  tail_fits = omega arith;
  count = refl;
  window = part-Represents.window;
}

duo-Stands : Stands 2 duo grid
duo-Stands = record {
  rows = (
    record { rings = (Holds-new two-IsCap, (held-Holds, tt)); width = refl },
    (record { rings = (Holds-new two-IsCap, (Holds-new two-IsCap, tt)); width = refl }, tt),
  );
  height = refl;
  m_waiters = refl;
  some_shard = omega arith;
}

abbrev second : Producer
second = record { my_idx = 1; cursor = 0 }

abbrev lone : Inner ℕ NoopWaiter
lone = fresh_inner ℕ 2 1 1

abbrev only : Producer
only = record { my_idx = 0; cursor = 0 }

try_send-Routes_example :
    ((is_terminal_for_producer duo ≡ true) × (try_send 2 second duo 9 ≡ some (err 9, second, duo)))
    ⊎ ((is_terminal_for_producer duo ≡ false)
        × Routes two-IsCap second duo grid 0
            (err 9, second, duo)
            (λ j q inner'. (
              ok tt,
              record second { cursor = (at_round second duo j + 1) % duo.n % 2 ^ 32 },
              inner',
            ))
            (λ q. q ++ (9 ∷ []))
            (try_send 2 second duo 9))
try_send-Routes_example = try_send-Routes two-IsCap second duo grid 9 duo-Stands (omega arith)

abbrev three : List ℕ
three = 3 ∷ 4 ∷ 5 ∷ []

try_send_batch-Routes_example :
    ((three ≡ []) × (try_send_batch 2 second duo three ≡ some (0, [], second, duo)))
    ⊎ ((0 < 3)
        × Routes two-IsCap second duo grid 0
            (0, three, second, duo)
            (λ j q inner'. (
              taken 2 three q,
              drop (taken 2 three q) three,
              record second { cursor = (at_round second duo j + 1) % duo.n % 2 ^ 32 },
              inner',
            ))
            (λ q. q ++ take (taken 2 three q) three)
            (try_send_batch 2 second duo three))
try_send_batch-Routes_example =
    try_send_batch-Routes two-IsCap second duo grid three duo-Stands (omega arith)

abbrev adding : ℕ → ℕ → Call ℕ
adding s v = returned (s + v)

drain_all-feeds_example :
    (inner' : Inner ℕ NoopWaiter) × (row' : List (List ℕ)) × (drain_all 2 2 0 duo adding 0
      ≡ some (outcome 1 (feed adding 0 (7 ∷ [])).0, inner'))
    × Stands 2 inner' (set grid 0 row')
    × (flatten row' ≡ (feed adding 0 (7 ∷ [])).1)
unfolding flatten
drain_all-feeds_example =
    drain_all-feeds two-IsCap adding 1 0 duo grid ([] ∷ (7 ∷ []) ∷ []) 0 (omega arith) duo-Stands
      (omega arith) refl

recv-LeavesLast_example :
    (inner' : Inner ℕ NoopWaiter) × (grid' : List (List (List ℕ))) × (recv 2
        ((send_and_leave 2 only 9, λ i. i) ∷ [])
        0
        lone
      ≡ some (some (err shutdown), inner'))
    × Stands 2 inner' grid'
    × (cell grid' 0 0 ≡ some (9 ∷ []))
unfolding is_terminal_for_producer flatten
recv-LeavesLast_example =
    recv-LeavesLast two-IsCap only 9 lone (([] ∷ []) ∷ []) ([] ∷ []) (λ i. i) []
      (fresh_inner-Stands 1 1 two-IsCap (omega arith)) refl (omega arith) refl refl refl refl

producer_gauges-exact_example :
    (free : ℕ) × (Tx.pending 1 duo.shards ≡ some 1)
    × (Tx.available 2 1 duo.shards ≡ some free)
    × (free + 1 ≡ 4)
producer_gauges-exact_example =
    producer_gauges-exact 2 2 1 duo.shards grid duo-Stands.rows (omega arith)
