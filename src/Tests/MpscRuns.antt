-- ===== src/Tests/MpscRuns.antt =====
-- Runs of src/route/mpsc.rs.
use mathlib.Core.List.{reverse, foldl}
use arbitro_kit.Prelude.{
  ℕ, ◌+◌, ◌<◌, ◌≡◌, refl, true, false, List, [], ◌∷◌, ◌++◌, some, length, get_elem?, set, leb, ◌==◌,
  ◌||◌, if◌then◌else◌, arith,
}
use arbitro_kit.Waiter.{NoopWaiter, noop, noop_waiter}
use arbitro_kit.Ring.Queue.{Queue}
use arbitro_kit.Ring.Rx.{returned, drained}
use arbitro_kit.Mpsc.Types.{Mpsc}
use arbitro_kit.Mpsc.Tx.{wake_fanin, try_send, try_send_bulk}
use arbitro_kit.Mpsc.Rx.{try_recv, try_recv_batch}
use arbitro_kit.Mpsc.Queues.{take_first, all_items, emptied, open_count, offer}
use arbitro_kit.Mpsc.Lanes.{Stands, live-Carries}
use arbitro_kit.Mpsc.Send.{try_send-offers}
use arbitro_kit.Mpsc.SendBulk.{try_send_bulk-appends}
use arbitro_kit.Mpsc.Recv.{woken_first, try_recv-takes}
use arbitro_kit.Mpsc.Batch.{try_recv_batch-collects}
use arbitro_kit.Tests.Fixtures.{
  two-IsCap, tx, rx, one, part, part-Represents, blank, tx0, rx0, nothing, blank-Represents,
}

-- an empty lane and one that holds 7
abbrev pair : Mpsc ℕ NoopWaiter
pair = record {
  inner = record {
    fanin_waiter = noop;
    producer_waiters = noop ∷ noop ∷ [];
    live_producers = 2;
    shutdown = false;
    m = 2;
  };
  lanes =
      record { ring_producer = some tx0; ring_consumer = rx0; shared = blank }
      ∷ record { ring_producer = some tx; ring_consumer = rx; shared = part }
      ∷ [];
}

abbrev queues : List (Queue ℕ)
queues = nothing ∷ one ∷ []

pair-Stands : Stands 2 pair queues
unfolding open_count
pair-Stands = record {
  carries = (live-Carries blank-Represents refl, (live-Carries part-Represents refl, tt));
  m_queues = refl;
  m_waiters = refl;
  few = omega arith;
  counted = refl;
}

try_send-offers_example :
    (q : Queue ℕ) × (get_elem? queues 1 ≡ some q)
    × ((ch' : Mpsc ℕ NoopWaiter) × (try_send 2 pair 1 9 ≡ some ((offer 2 false q 9).0, ch'))
        × Stands 2 ch' (set queues 1 (offer 2 false q 9).1)
        × (ch'.inner
            ≡ (if false || leb 2 (length q.items) then pair.inner else wake_fanin pair.inner)))
try_send-offers_example = try_send-offers two-IsCap pair queues 1 9 pair-Stands refl refl

try_send_bulk-appends_example :
    (q : Queue ℕ) × (get_elem? queues 1 ≡ some q)
    × ((sent : List ℕ) × (kept : List ℕ) × (ch' : Mpsc ℕ NoopWaiter) × (try_send_bulk 2 pair 1
            (5 ∷ 6 ∷ [])
          ≡ some (length sent, kept, ch'))
        × (5 ∷ 6 ∷ [] ≡ kept ++ reverse sent)
        × (false ≡ true → sent ≡ [])
        × (false ≡ false → 0 < 2 → length q.items < 2 → 0 < length sent)
        × Stands 2 ch' (set queues 1 (record q { items = q.items ++ sent }))
        × (ch'.inner ≡ (if length sent == 0 then pair.inner else wake_fanin pair.inner)))
try_send_bulk-appends_example =
    try_send_bulk-appends two-IsCap pair queues 1 (5 ∷ 6 ∷ []) pair-Stands refl refl

try_recv-takes_example :
    (ch' : Mpsc ℕ NoopWaiter) × (try_recv 2 pair ≡ some ((take_first queues).0, ch'))
    × Stands 2 ch' (take_first queues).1
    × (ch'.inner ≡ record pair.inner { producer_waiters = woken_first queues (noop ∷ noop ∷ []) })
try_recv-takes_example = try_recv-takes two-IsCap pair queues pair-Stands

try_recv_batch-collects_example :
    (ch' : Mpsc ℕ NoopWaiter) × (try_recv_batch 2 2 pair (λ s x. returned (s + x)) 0
      ≡ some (drained (length (all_items queues)) (foldl (◌+◌) 0 (all_items queues)), ch'))
    × Stands 2 ch' (emptied queues)
try_recv_batch-collects_example =
    try_recv_batch-collects two-IsCap 2 pair queues (◌+◌) 0 (omega arith) pair-Stands

all_items-queues : 0 < length (all_items queues)
unfolding all_items
all_items-queues = omega arith
