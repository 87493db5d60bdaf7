-- ===== src/OneShot/Safety.antt =====
-- The value of a `OneShot` is delivered once or dropped once, however the threads interleave.
use arbitro_kit.Prelude.{
  ℕ, ◌+◌, ◌≡◌, ◌≢◌, refl, ◌⊎◌, inl, Bool, true, false, [], ◌∷◌, Option, none, some, arith, length,
  if◌then◌else◌,
}
use arbitro_kit.OneShot.Calls.{State, empty, full, taken, rx_dropped}
use arbitro_kit.OneShot.Protocol.{
  Tx, holding, sending, writing, storing, Rx, taking, System, Step, call_send, skip, go_on, write,
  store, abandon, win, read, lose, drop_rx, end_recv, free_full, free_other, Reach, start, next,
}

-- How many copies of the value a place holds.
abbrev in_hand : Tx → ℕ
in_hand sending = 1
in_hand writing = 1
in_hand _ = 0

abbrev in_slot : {A : Type 0} → Option A → ℕ
in_slot none = 0
in_slot (some v) = 1

-- When the slot holds a value: between its write and its read or last drop.
abbrev filled : Tx → Rx → State → Bool → ℕ
filled tx rx state true = 0
filled tx taking state false = 1
filled storing rx state false = 1
filled tx rx full false = 1
filled tx rx state false = 0

-- Before the store the state is not FULL or TAKEN, and the receiver is not reading.
abbrev Early : Tx → State → Rx → Type 0
Early Tx.gone state rx = Unit
Early tx state rx = ((state ≡ empty) ⊎ (state ≡ rx_dropped)) × (rx ≢ taking)

module _ {A : Type 0} (v : A) where
  pub record Inv (s : System A) : Type 0 where
    pub slot_full : in_slot s.slot ≡ filled s.tx s.rx s.state s.freed
    pub early : Early s.tx s.state s.rx
    pub reading : s.rx ≡ taking → s.state ≡ taken
    pub all_gone : s.freed ≡ true → (s.tx ≡ Tx.gone) × (s.rx ≡ Rx.gone)
    pub not_yet : s.tx ≡ holding → s.sent ≡ false
    pub accounted :
        in_hand s.tx + in_slot s.slot + length s.delivered + length s.dropped
        ≡ (if s.sent then 1 else 0)
    pub slot_value : (s.slot ≡ none) ⊎ (s.slot ≡ some v)
    pub delivered_value : (s.delivered ≡ []) ⊎ (s.delivered ≡ v ∷ [])
    pub dropped_value : (s.dropped ≡ []) ⊎ (s.dropped ≡ v ∷ [])

  Step-Inv : {s t : System A} → Step v s t → Inv s → Inv t
  Step-Inv (call_send e) inv = ground arith
  Step-Inv (skip e f) inv = ground arith
  Step-Inv (go_on e) inv = ground arith
  Step-Inv (write e) inv = ground arith
  Step-Inv (store e) inv = ground arith
  Step-Inv (abandon e) inv = ground arith
  Step-Inv (win e f) inv = ground arith
  Step-Inv (read u e f) inv = ground arith
  Step-Inv (lose e f) inv = inv
  Step-Inv (drop_rx e) inv = ground arith
  Step-Inv (end_recv e f) inv = ground arith
  Step-Inv (free_full u e f g h k) inv = ground arith
  Step-Inv (free_other e f g h) inv = ground arith

  Reach-Inv : {s : System A} → Reach v s → Inv s
  Reach-Inv start = record {
    slot_full = refl;
    early = ground arith;
    reading = λ e. cc;
    all_gone = λ e. cc;
    not_yet = λ e. refl;
    accounted = refl;
    slot_value = inl refl;
    delivered_value = inl refl;
    dropped_value = inl refl;
  }
  Reach-Inv (next r st) = Step-Inv st (Reach-Inv r)

  -- Once the shared state has been freed, a value that was sent has been delivered once or dropped once,
  -- and not both; and if none was sent, none was delivered or dropped.
  pub delivered_or_dropped_once :
      {s : System A}
      → Reach v s
      → s.freed ≡ true
      → ((s.sent ≡ true)
          × (((s.delivered ≡ v ∷ []) × (s.dropped ≡ []))
              ⊎ ((s.delivered ≡ []) × (s.dropped ≡ v ∷ []))))
        ⊎ ((s.sent ≡ false) × (s.delivered ≡ []) × (s.dropped ≡ []))
  delivered_or_dropped_once {s} r done = settled (Reach-Inv r)
    where
      settled :
          Inv s
          → ((s.sent ≡ true)
              × (((s.delivered ≡ v ∷ []) × (s.dropped ≡ []))
                  ⊎ ((s.delivered ≡ []) × (s.dropped ≡ v ∷ []))))
            ⊎ ((s.sent ≡ false) × (s.delivered ≡ []) × (s.dropped ≡ []))
      settled inv = ground arith

  -- The slot is used as the SAFETY comments say: it is free when it is written, and holds the sent value
  -- when the receiver that won the exchange reads it and when the last drop in state FULL destroys it.
  pub slot_safe :
      {s : System A}
      → Reach v s
      → (s.tx ≡ writing → s.slot ≡ none)
        × (s.rx ≡ taking → s.slot ≡ some v)
        × (s.state ≡ full → s.freed ≡ false → s.slot ≡ some v)
  slot_safe {s} r = safe (Reach-Inv r)
    where
      safe :
          Inv s
          → (s.tx ≡ writing → s.slot ≡ none)
            × (s.rx ≡ taking → s.slot ≡ some v)
            × (s.state ≡ full → s.freed ≡ false → s.slot ≡ some v)
      safe inv = (λ e. ground arith, λ e. ground arith, λ e f. ground arith)
