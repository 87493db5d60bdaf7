-- ===== src/Tests/OneShotRuns.antt =====
-- Runs of src/route/oneshot.rs.
use arbitro_kit.Prelude.{ℕ, ◌≡◌, ◌≢◌, refl, ◌⊎◌, true, false, [], ◌∷◌, none, some}
use arbitro_kit.Waiter.{noop_waiter}
use arbitro_kit.OneShot.Calls.{empty, full, taken}
use arbitro_kit.OneShot.Protocol
use arbitro_kit.OneShot.Protocol.{
  System, init, Step, Reach, start, next, call_send, go_on, write, store, win, read, end_recv,
  free_other,
}
use arbitro_kit.OneShot.Safety.{delivered_or_dropped_once, slot_safe}

-- after the receiver has read 5 and both handles are gone
abbrev ended : System ℕ
ended = record {
  state = taken;
  slot = none;
  tx = Protocol.Tx.gone;
  rx = Protocol.Rx.gone;
  sent = true;
  delivered = 5 ∷ [];
  dropped = [];
  freed = true;
}

taken-empty : taken ≢ empty
taken-empty e = cc

taken-full : taken ≢ full
taken-full e = cc

-- the receiver has won the exchange and not read the slot
abbrev won : System ℕ
won = record {
  state = taken;
  slot = some 5;
  tx = Protocol.Tx.gone;
  rx = Protocol.Rx.taking;
  sent = true;
  delivered = [];
  dropped = [];
  freed = false;
}

won-Reach : Reach 5 won
won-Reach =
    next (next (next (next (next start (call_send refl)) (go_on refl)) (write refl)) (store refl))
      (win refl refl)

ended-Reach : Reach 5 ended
ended-Reach =
    next (next (next won-Reach (read 5 refl refl)) (end_recv refl taken-empty))
      (free_other refl refl refl taken-full)

delivered_or_dropped_once_example :
    ((true ≡ true)
      × (((ended.delivered ≡ 5 ∷ []) × (ended.dropped ≡ []))
          ⊎ ((ended.delivered ≡ []) × (ended.dropped ≡ 5 ∷ []))))
    ⊎ ((ended.sent ≡ false) × (ended.delivered ≡ []) × (ended.dropped ≡ []))
delivered_or_dropped_once_example = delivered_or_dropped_once 5 ended-Reach refl

slot_safe_example :
    (won.tx ≡ Protocol.Tx.writing → won.slot ≡ none)
    × (won.rx ≡ Protocol.Rx.taking → won.slot ≡ some 5)
    × (won.state ≡ full → won.freed ≡ false → won.slot ≡ some 5)
slot_safe_example = slot_safe 5 won-Reach
