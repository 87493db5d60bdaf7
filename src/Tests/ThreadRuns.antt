-- ===== src/Tests/ThreadRuns.antt =====
-- Runs of the two threads of src/stream/ring.rs.
use arbitro_kit.Prelude.{
  ℕ, ◌≤◌, ◌≡◌, refl, List, [], ◌∷◌, Option, none, some, ok, length, get_elem?, arith,
}
use arbitro_kit.Cells.{slot_index, write_cell, read_cell}
use arbitro_kit.Waiter.{NoopWaiter, noop_waiter}
use arbitro_kit.Ring.Types.{Ring}
use arbitro_kit.Ring.Shared.{drop_loop}
use arbitro_kit.Ring.Tx.{try_send, publish}
use arbitro_kit.Ring.Rx.{try_recv, take_front}
use arbitro_kit.Ring.Threads.{
  Tx, polling, System, init, MayWrite, MayRead, Step, write, drop_tx, load_head, read, release,
  find_empty, load_closed, load_head_again, answer_closed, drop_rx, Run, stay, step,
}
use arbitro_kit.Ring.ThreadSafety.{threads_safe, closed_means_drained, teardown_drops_rest}
use arbitro_kit.Ring.ThreadCalls.{system, try_send-Run, try_recv-Run}
use arbitro_kit.Tests.Fixtures.{two-IsCap, tx, rx, part, brim}

-- The slots on the way.
write_five : write_cell {A = ℕ} (none ∷ none ∷ []) (slot_index 2 0) 5 ≡ some (some 5 ∷ none ∷ [])
unfolding write_cell slot_index
write_five = refl

write_six : write_cell {A = ℕ} (some 5 ∷ none ∷ []) (slot_index 2 1) 6 ≡ some (some 5 ∷ some 6 ∷ [])
unfolding write_cell slot_index
write_six = refl

read_five :
    (rest : Option ℕ)
    → read_cell {A = ℕ} (some 5 ∷ rest ∷ []) (slot_index 2 0) ≡ some (5, none ∷ rest ∷ [])
unfolding read_cell slot_index
read_five rest = refl

-- The producer publishes 5 and 6 and the consumer has moved 5 out, when the producer is about to wait for room.
abbrev halfway : (s : System ℕ) × Run 2 (init ℕ 2) s
halfway = (
  _,
  step (write 5 (some 5 ∷ none ∷ []) (refl, omega arith) write_five) (
      step (write 6 (some 5 ∷ some 6 ∷ []) (refl, omega arith) write_six) (
        step (Step.publish refl) (
          step (load_head 2 refl refl (omega arith) (omega arith)) (
            step (read 5 (none ∷ some 6 ∷ []) (refl, λ e. absurd (omega arith)) (read_five _))
              stay)))),
)

threads_safe_example :
    (unread : List ℕ) × (halfway.0.accepted ≡ 5 ∷ unread)
    × (length unread ≤ 2)
    × (MayWrite 2 halfway.0
        → get_elem? {A = Option ℕ} (none ∷ some 6 ∷ []) (slot_index 2 2) ≡ some none)
    × (MayRead halfway.0
        → (v : ℕ) × (rest : List ℕ) × (unread ≡ v ∷ rest)
          × (get_elem? {A = Option ℕ} (none ∷ some 6 ∷ []) (slot_index 2 1) ≡ some (some v)))
threads_safe_example = threads_safe two-IsCap halfway.1

-- The producer sends 5 and goes, and the consumer takes 5 and is told that the ring is closed.
abbrev closed_run : (s : System ℕ) × Run 2 (init ℕ 2) s
closed_run = (
  _,
  step (write 5 (some 5 ∷ none ∷ []) (refl, omega arith) write_five) (
      step (Step.publish refl) (
        step (load_head 1 refl refl (omega arith) (omega arith)) (
          step (drop_tx refl refl) (
            step (read 5 (none ∷ none ∷ []) (refl, λ e. absurd (omega arith)) (read_five _)) (
              step (release refl) (
                step (find_empty refl refl refl) (
                  step (load_closed refl refl)
                    (step (load_head_again refl) (step (answer_closed refl refl) stay))))))))),
)

closed_means_drained_example : (Tx.gone ≡ Tx.gone) × (closed_run.0.accepted ≡ 5 ∷ [])
closed_means_drained_example = closed_means_drained two-IsCap closed_run.1 refl

-- The producer sends 5 and 6, the consumer takes 5, and both go.
abbrev gone_run : (s : System ℕ) × Run 2 (init ℕ 2) s
gone_run = (
  _,
  step (write 5 (some 5 ∷ none ∷ []) (refl, omega arith) write_five) (
      step (write 6 (some 5 ∷ some 6 ∷ []) (refl, omega arith) write_six) (
        step (Step.publish refl) (
          step (load_head 2 refl refl (omega arith) (omega arith)) (
            step (read 5 (none ∷ some 6 ∷ []) (refl, λ e. absurd (omega arith)) (read_five _))
              (step (release refl) (step (drop_rx refl refl) (step (drop_tx refl refl) stay))))))),
)

teardown_drops_rest_example :
    (left : List ℕ) × (slots : List (Option ℕ)) × (drop_loop 2 3 (none ∷ some 6 ∷ []) 1 2
      ≡ some (left, slots))
    × (5 ∷ 6 ∷ [] ≡ 5 ∷ left)
teardown_drops_rest_example = teardown_drops_rest two-IsCap gone_run.1 refl refl

-- `part` once it has taken 9, and `brim` once it has given 7.
abbrev sent_nine : Ring ℕ NoopWaiter
sent_nine = record part { head = 1; slots = some 9 ∷ some 7 ∷ [] }

abbrev gave_seven : Ring ℕ NoopWaiter
gave_seven = record brim { tail = 0; slots = some 8 ∷ none ∷ [] }

try_send_nine : try_send 2 tx part 9 ≡ some (ok tt, tx, sent_nine)
unfolding try_send publish write_cell slot_index
try_send_nine = refl

try_recv_seven : try_recv 2 rx brim ≡ some (ok 7, record rx { cached_head = 1 }, gave_seven)
unfolding try_recv take_front read_cell slot_index
try_recv_seven = refl

try_send-Run_example :
    Run 2 (system tx rx part polling [] []) (system tx rx sent_nine polling (9 ∷ []) [])
try_send-Run_example =
    try_send-Run 2 tx rx part polling [] [] 9 (omega arith) (omega arith) try_send_nine

try_recv-Run_example :
    Run 2
      (system tx rx brim polling [] [])
      (system tx (record rx { cached_head = 1 }) gave_seven polling [] (7 ∷ []))
try_recv-Run_example = try_recv-Run 2 tx rx brim [] [] (omega arith) (omega arith) try_recv_seven
