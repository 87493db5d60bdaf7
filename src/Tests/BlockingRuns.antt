-- ===== src/Tests/BlockingRuns.antt =====
-- The blocking calls of src/stream/ring.rs on a ring of two slots, with parked threads.
use arbitro_kit.Prelude.{ℕ, ◌≡◌, false, true, [], ◌∷◌, none, some, ok, err, arith}
use arbitro_kit.Park.Sleep.{Parker, park_waiter, park_sleeper, park_wakes, KnownParker, known-set}
use arbitro_kit.Ring.Types.{Ring, Producer, Consumer}
use arbitro_kit.Ring.Tx.{send, drop_producer}
use arbitro_kit.Ring.Rx.{recv, drop_consumer}
use arbitro_kit.Ring.Queue.{Represents}
use arbitro_kit.Ring.Basics.{open_queue}
use arbitro_kit.Ring.Blocking.{receives, send-woken}
use arbitro_kit.Ring.BlockingRecv.{sends, recv-woken}
use arbitro_kit.Tests.Fixtures.{
  two-IsCap, tx, rx, two, brim, brim-Represents, tx0, rx0, blank, blank-Represents,
}

-- 7 and 8, as in `brim`, with waiters that no thread has registered with
abbrev brim_parked : Ring ℕ Parker
brim_parked = record {
  head = brim.head;
  tail = brim.tail;
  not_full = park_waiter.fresh;
  not_empty = park_waiter.fresh;
  closed = false;
  slots = brim.slots;
}

brim_parked-Represents : Represents 2 tx rx brim_parked two
brim_parked-Represents = record {
  head_fits = brim-Represents.head_fits;
  tail_fits = brim-Represents.tail_fits;
  cached_tail_fits = brim-Represents.cached_tail_fits;
  cached_head_fits = brim-Represents.cached_head_fits;
  count = brim-Represents.count;
  behind = brim-Represents.behind;
  room = brim-Represents.room;
  seen = brim-Represents.seen;
  same_closed = brim-Represents.same_closed;
  window = brim-Represents.window;
}

abbrev blank_parked : Ring ℕ Parker
blank_parked = record {
  head = blank.head;
  tail = blank.tail;
  not_full = park_waiter.fresh;
  not_empty = park_waiter.fresh;
  closed = false;
  slots = blank.slots;
}

blank_parked-Represents : Represents 2 tx0 rx0 blank_parked open_queue
blank_parked-Represents = record {
  head_fits = blank-Represents.head_fits;
  tail_fits = blank-Represents.tail_fits;
  cached_tail_fits = blank-Represents.cached_tail_fits;
  cached_head_fits = blank-Represents.cached_head_fits;
  count = blank-Represents.count;
  behind = blank-Represents.behind;
  room = blank-Represents.room;
  seen = blank-Represents.seen;
  same_closed = blank-Represents.same_closed;
  window = blank-Represents.window;
}

unset : (t : ℕ) (x : Parker) → none ≡ some t → KnownParker x
unset t x e = absurd (cc e)

send-woken_example :
    ((p' : Producer) × (c' : Consumer) × (r' : Ring ℕ Parker) × (send 2 4 2
          (receives 2 rx ∷ [])
          tx
          brim_parked
          9
        ≡ some (some (ok tt), p', r'))
      × Represents 2 p' c' r' (record { items = 8 ∷ 9 ∷ []; closed = false }))
    × ((p' : Producer) × (c' : Consumer) × (r' : Ring ℕ Parker) × (send 2 4 2
            (drop_consumer 2 ∷ [])
            tx
            brim_parked
            9
          ≡ some (some (err 9), p', r'))
        × Represents 2 p' c' r' (record { items = 7 ∷ 8 ∷ []; closed = true }))
send-woken_example =
    send-woken park_wakes known-set two-IsCap 4 0 9 [] brim_parked-Represents (omega arith)
      (unset 4 park_waiter.fresh)

recv-woken_example :
    ((p' : Producer) × (c' : Consumer) × (r' : Ring ℕ Parker) × (recv 2 4 2
          (sends 2 tx0 9 ∷ [])
          rx0
          blank_parked
        ≡ some (some (some 9), c', r'))
      × Represents 2 p' c' r' open_queue)
    × ((p' : Producer) × (c' : Consumer) × (r' : Ring ℕ Parker) × (recv 2 4 2
            (drop_producer 2 ∷ [])
            rx0
            blank_parked
          ≡ some (some none, c', r'))
        × Represents 2 p' c' r' (record { items = []; closed = true }))
recv-woken_example =
    recv-woken park_wakes known-set two-IsCap 4 0 9 [] blank_parked-Represents
      (unset 4 park_waiter.fresh)
