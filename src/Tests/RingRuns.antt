-- ===== src/Tests/RingRuns.antt =====
-- Runs of src/stream/ring.rs.
use mathlib.Core.List.{reverse}
use arbitro_kit.Prelude.{
  ℕ, ◌+◌, ◌-◌, ◌<◌, ◌≡◌, ◌≢◌, refl, List, [], ◌∷◌, ◌++◌, none, some, length, arith,
}
use arbitro_kit.Waiter.{NoopWaiter, noop_waiter}
use arbitro_kit.Ring.Types.{Ring, Producer, Consumer, Link}
use arbitro_kit.Ring.Shared.{new}
use arbitro_kit.Ring.Tx.{try_send, try_send_bulk}
use arbitro_kit.Ring.Rx.{Call, returned, panicked, unwound, try_recv, drain}
use arbitro_kit.Ring.Feed.{feed}
use arbitro_kit.Ring.Queue.{Queue, push, pop, Represents}
use arbitro_kit.Ring.Send.{try_send-refines}
use arbitro_kit.Ring.Bulk.{try_send_bulk-refines}
use arbitro_kit.Ring.Recv.{try_recv-refines}
use arbitro_kit.Ring.Drain.{outcome, drain-refines}
use arbitro_kit.Ring.Unwind.{try_recv-drain_unwound}
use arbitro_kit.Ring.History.{
  Op, sends, sends_bulk, receives, drains, closes, Log, run, exactly_once,
}
use arbitro_kit.Tests.Fixtures.{
  two-IsCap, tx, rx, one, part, two, brim, part-Represents, brim-Represents,
}

abbrev script : List (Op ℕ)
script = sends 1 ∷ sends_bulk (2 ∷ 3 ∷ []) ∷ receives ∷ closes ∷ drains ∷ []

exactly_once_example :
    (l end : Link ℕ NoopWaiter) × (log : Log ℕ) × (left : Queue ℕ) × (new ℕ 2 ≡ some l)
    × (run 2 l script ≡ some (log, end))
    × Represents 2 end.tx end.rx end.shared left
    × (log.accepted ≡ log.delivered ++ left.items)
exactly_once_example = exactly_once two-IsCap script

try_send-refines_example :
    (p' : Producer) × (r' : Ring ℕ NoopWaiter) × (try_send 2 tx part 9
      ≡ some ((push 2 one 9).0, p', r'))
    × Represents 2 p' rx r' (push 2 one 9).1
try_send-refines_example = try_send-refines two-IsCap 9 part-Represents

try_recv-refines_example :
    (c' : Consumer) × (r' : Ring ℕ NoopWaiter) × (try_recv 2 rx brim ≡ some ((pop two).0, c', r'))
    × Represents 2 tx c' r' (pop two).1
try_recv-refines_example = try_recv-refines two-IsCap two brim-Represents

try_send_bulk-refines_example :
    (sent : List ℕ) × (kept : List ℕ) × (p' : Producer) × (r' : Ring ℕ NoopWaiter) × (try_send_bulk
        2 tx part
        (5 ∷ 6 ∷ [])
      ≡ some (length sent, kept, p', r'))
    × (5 ∷ 6 ∷ [] ≡ kept ++ reverse sent)
    × (0 < 2 → 1 < 2 → 0 < length sent)
    × Represents 2 p' rx r' (record one { items = 7 ∷ sent })
try_send_bulk-refines_example = try_send_bulk-refines two-IsCap (5 ∷ 6 ∷ []) part-Represents

abbrev adding : ℕ → ℕ → Call ℕ
adding s v = returned (s + v)

abbrev failing : ℕ → ℕ → Call ℕ
failing s v = panicked s

drain-refines_example :
    (c' : Consumer) × (r' : Ring ℕ NoopWaiter) × (drain 2 rx brim adding 0
      ≡ some (outcome (2 - length (feed adding 0 two.items).1) (feed adding 0 two.items).0, c', r'))
    × Represents 2 tx
        (record c' { cached_head = r'.head })
        r'
        (record two { items = (feed adding 0 two.items).1 })
    × ((s' : ℕ) → (feed adding 0 two.items).0 ≡ returned s' → c'.cached_head ≡ r'.head)
drain-refines_example = drain-refines two-IsCap two adding 0 brim-Represents

feed-failing : feed failing 0 (7 ∷ []) ≡ (panicked 0, [])
unfolding feed
feed-failing = refl

stale : rx.cached_head ≢ part.head
stale e = omega (arith, e)

try_recv-drain_unwound_example :
    (r' : Ring ℕ NoopWaiter) × (drain 2 rx part failing 0 ≡ some (unwound 0, rx, r'))
    × (try_recv 2 rx r' ≡ none)
try_recv-drain_unwound_example =
    try_recv-drain_unwound two-IsCap one failing 0 0 part-Represents feed-failing stale
