-- ===== src/Tests/HistoryRuns.antt =====
-- A run of src/route/mpmc.rs.
use mathlib.Core.List.{Perm}
use arbitro_kit.Prelude.{ℕ, ◌≡◌, refl, List, [], ◌∷◌, ◌++◌, some, arith}
use arbitro_kit.Waiter.{NoopWaiter, noop_waiter}
use arbitro_kit.Ring.History.{Log}
use arbitro_kit.Mpmc.Types.{Inner, Producer, new}
use arbitro_kit.Mpmc.Rx.{drop_shards}
use arbitro_kit.Mpmc.History.{Op, sends, sends_batch, receives, signals, Channel, run}
use arbitro_kit.Mpmc.ExactlyOnce.{accepted_once}
use arbitro_kit.Tests.Fixtures.{two-IsCap}

-- two producers and two consumers; the last send comes after the shutdown
abbrev script : List (Op ℕ)
script = sends 0 5 ∷ sends_batch 1 (6 ∷ 7 ∷ 8 ∷ []) ∷ receives 0 ∷ signals ∷ sends 0 9 ∷ []

accepted_once_example :
    (ps : List Producer) × (inner : Inner ℕ NoopWaiter) × (log : Log ℕ) × (end : Channel ℕ
      NoopWaiter)
    × (dropped : List ℕ) × (new ℕ 2 2 2 ≡ some (ps, inner))
    × (run 2 (record { producers = ps; inner = inner }) script ≡ some (log, end))
    × (drop_shards 2 end.inner.shards ≡ some dropped)
    × Perm log.accepted (log.delivered ++ dropped)
accepted_once_example =
    accepted_once two-IsCap script (omega arith) (omega arith) (omega arith) refl
