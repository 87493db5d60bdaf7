-- ===== src/Tests/ClosingRuns.antt =====
-- A run of src/route/mpsc.rs as threads.
use arbitro_kit.Prelude.{ℕ, ◌≡◌, refl, [], ◌∷◌, arith}
use arbitro_kit.Mpsc.Closing.{
  gone, Port, System, send, close, count_out, take, pass_over, find_nothing, miss_shutdown,
  see_none, see_empty, finish, Reach, start, next,
}
use arbitro_kit.Mpsc.Finished.{finished_means_drained}

-- The only producer has sent 7 and gone, and the consumer has received 7 and then `Shutdown`.
abbrev over : (s : System ℕ) × Reach 2 1 s
over = (
  _,
  next
      (next
        (next
          (next
            (next
              (next
                (next
                  (next
                    (next (next start (send 0 _ 7 refl refl (omega arith))) (close 0 _ refl refl))
                    (count_out 0 _ refl refl))
                  (take 0 _ 7 [] refl refl refl))
                (pass_over 0 refl (omega arith)))
              (find_nothing refl))
            (miss_shutdown refl))
          (see_none refl refl))
        (see_empty 0 _ refl refl refl))
      (finish refl),
)

abbrev port : Port ℕ
port = record { tx = gone; queue = []; accepted = 7 ∷ []; delivered = 7 ∷ [] }

finished_means_drained_example : (port.tx ≡ gone) × (7 ∷ [] ≡ port.delivered)
finished_means_drained_example = finished_means_drained (omega arith) over.1 refl 0 port refl
