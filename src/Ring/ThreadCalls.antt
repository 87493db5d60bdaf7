-- ===== src/Ring/ThreadCalls.antt =====
-- The functions `try_send` of Ring.Tx and `try_recv` of Ring.Rx as runs of the step relation of Ring.Threads.
use arbitro_kit.Prelude.{
  ℕ, ◌≤◌, ◌<◌, ◌≡◌, ◌≢◌, refl, sym, ◌∙◌, inl, inr, Bool, true, false, List, [], ◌∷◌, ◌++◌, Option,
  none, some, not, if◌then◌else◌, Result, ok, err, leb, ◌==◌, ◌>>=◌, Bool-cases, Option-cases,
  word_mod, wrapping_add, wrapping_sub, arith,
}
use arbitro_kit.Cells.{slot_index, write_cell, read_cell}
use arbitro_kit.Waiter.{Waiter}
use arbitro_kit.Ring.Types.{Ring, Producer, Consumer, TrySendError, TryRecvError, empty}
use arbitro_kit.Ring.Shared.{is_closed}
use arbitro_kit.Ring.Tx.{publish, try_send}
use arbitro_kit.Ring.Rx.{take_front, try_recv}
use arbitro_kit.Ring.Threads.{
  working, Rx, polling, told_closed, System, Step, load_tail, write, load_head, read, release,
  find_empty, answer_empty, load_closed, load_head_again, answer_closed, Run, stay, step,
}

-- The state between two calls, with the consumer at `rx`.
abbrev pub system :
    {A W : Type 0} → Producer → Consumer → Ring A W → Rx → List A → List A → System A
system p c r rx accepted delivered = record {
  head = r.head;
  tail = r.tail;
  slots = r.slots;
  closed = r.closed;
  cached_tail = p.cached_tail;
  cached_head = c.cached_head;
  tx = working;
  rx = rx;
  written = [];
  taken = [];
  accepted = accepted;
  delivered = delivered;
}

-- What a call adds to the items accepted or delivered, and where it leaves the consumer.
abbrev pub then_sent : {A : Type 0} → List A → A → Result (TrySendError A) (Unit {0}) → List A
then_sent accepted v (ok _) = accepted ++ (v ∷ [])
then_sent accepted v (err _) = accepted

abbrev pub then_received : {A : Type 0} → List A → Result TryRecvError A → List A
then_received delivered (ok v) = delivered ++ (v ∷ [])
then_received delivered (err _) = delivered

abbrev pub then_at : {A : Type 0} → Result TryRecvError A → Rx
then_at (err TryRecvError.closed) = told_closed
then_at _ = polling

module _ {A W : Type 0} ⦃w : Waiter W⦄ (cap : ℕ) where
  -- What a call of `try_send` comes to, unless it faults.
  Sends :
      Producer
      → Consumer
      → Ring A W
      → Rx
      → List A
      → List A
      → A
      → Option (Result (TrySendError A) (Unit {0}) × Producer × Ring A W)
      → Type 0
  Sends p c r rx acc del v none = Unit {0}
  Sends p c r rx acc del v (some (res, p', r')) =
      Run cap (system p c r rx acc del) (system p' c r' rx (then_sent acc v res) del)

  publish-Sends :
      (p : Producer) (c : Consumer) (r : Ring A W) (rx : Rx) (acc del : List A) (v : A)
      → r.head < word_mod
      → wrapping_sub r.head p.cached_tail < cap
      → Sends p c r rx acc del v (publish cap p r v)
  unfolding Sends publish
  publish-Sends p c r rx acc del v fits room =
      let same : wrapping_add r.head 0 ≡ r.head = omega arith in
      elim (Option-cases (write_cell r.slots (slot_index cap r.head) v)) [
        | inl fault ↦ rw (fault, ◌>>=◌) tt
        | inr (slots, e) ↦
            rw (e, ◌>>=◌)
              (step (write v slots (refl, omega arith) (rw same e)) (step (Step.publish refl) stay))
      ]

  -- After a load of `tail`.
  reloaded-Sends :
      (p : Producer) (c : Consumer) (r : Ring A W) (rx : Rx) (acc del : List A) (v : A)
      (o : Option (Result (TrySendError A) (Unit {0}) × Producer × Ring A W))
      → r.tail < word_mod
      → cap ≤ wrapping_sub r.head p.cached_tail
      → Sends (record p { cached_tail = r.tail }) c r rx acc del v o
      → Sends p c r rx acc del v o
  unfolding Sends
  reloaded-Sends p c r rx acc del v none fits stale run = tt
  reloaded-Sends p c r rx acc del v (some (res, p', r')) fits stale run =
      step (load_tail r.tail refl refl stale fits (omega arith)) run

  refused-Sends :
      (p : Producer) (c : Consumer) (r : Ring A W) (rx : Rx) (acc del : List A) (v : A)
      (e : TrySendError A)
      → Sends p c r rx acc del v (some (err e, p, r))
  unfolding Sends
  refused-Sends p c r rx acc del v e = stay

  try_send-Sends :
      (p : Producer) (c : Consumer) (r : Ring A W) (rx : Rx) (acc del : List A) (v : A)
      → r.head < word_mod
      → r.tail < word_mod
      → Sends p c r rx acc del v (try_send cap p r v)
  unfolding try_send
  try_send-Sends p c r rx acc del v head_fits tail_fits =
      elim (Bool-cases (leb cap (wrapping_sub r.head p.cached_tail))) [
        | inr fast ↦ rw fast (publish-Sends p c r rx acc del v head_fits (ground arith))
        | inl stale ↦ rw stale (
            reloaded-Sends p c r rx acc del v _ tail_fits (ground arith)
              (elim (Bool-cases (leb cap (wrapping_sub r.head r.tail))) [
                | inr fresh ↦ rw fresh (
                    publish-Sends (record p { cached_tail = r.tail }) c r rx acc del v head_fits
                      (ground arith))
                | inl full ↦
                    rw full (refused-Sends (record p { cached_tail = r.tail }) c r rx acc del v _)
              ]))
      ]

  -- A call of `try_send` that no access of the consumer comes between is a run of the producer's steps: it
  -- leaves the shared state and the cached cursor as the function does, and has accepted the value just when
  -- it answers `Ok`.
  pub try_send-Run :
      (p : Producer) (c : Consumer) (r : Ring A W) (rx : Rx) (acc del : List A) (v : A)
      {p' : Producer} {r' : Ring A W} {res : Result (TrySendError A) (Unit {0})}
      → r.head < word_mod
      → r.tail < word_mod
      → try_send cap p r v ≡ some (res, p', r')
      → Run cap (system p c r rx acc del) (system p' c r' rx (then_sent acc v res) del)
  unfolding Sends
  try_send-Run p c r rx acc del v head_fits tail_fits e =
      rw e at (try_send-Sends p c r rx acc del v head_fits tail_fits)

  -- What a call of `try_recv` comes to, unless it faults, with the consumer at `rx`.
  Receives :
      Producer
      → Consumer
      → Ring A W
      → Rx
      → List A
      → List A
      → Option (Result TryRecvError A × Consumer × Ring A W)
      → Type 0
  Receives p c r rx acc del none = Unit {0}
  Receives p c r rx acc del (some (res, c', r')) =
      Run cap (system p c r rx acc del) (system p c' r' (then_at res) acc (then_received del res))

  take_front-Receives :
      (p : Producer) (c : Consumer) (r : Ring A W) (acc del : List A)
      → r.tail < word_mod
      → r.tail ≢ c.cached_head
      → Receives p c r polling acc del (take_front cap c r)
  unfolding Receives take_front
  take_front-Receives p c r acc del fits more =
      let same : wrapping_add r.tail 0 ≡ r.tail = omega arith in
      elim (Option-cases (read_cell r.slots (slot_index cap r.tail))) [
        | inl fault ↦ rw (fault, ◌>>=◌) tt
        | inr ((v, slots), e) ↦
            rw (e, ◌>>=◌)
              (step (read v slots (refl, λ z. more (sym same ∙ z)) (rw same e))
                (step (release refl) stay))
      ]

  -- After a step of the consumer.
  stepped-Receives :
      (p : Producer) (c c' : Consumer) (r : Ring A W) (rx rx' : Rx) (acc del : List A)
      (o : Option (Result TryRecvError A × Consumer × Ring A W))
      → Step cap (system p c r rx acc del) (system p c' r rx' acc del)
      → Receives p c' r rx' acc del o
      → Receives p c r rx acc del o
  unfolding Receives
  stepped-Receives p c c' r rx rx' acc del none st run = tt
  stepped-Receives p c c' r rx rx' acc del (some (res, c'', r'')) st run = step st run

  -- What the consumer does once its load of `head` has found nothing, when `closed` is `b`.
  drained-Receives :
      (p : Producer) (c : Consumer) (r : Ring A W) (acc del : List A) (b : Bool)
      → r.tail ≡ r.head
      → r.closed ≡ b
      → let c' = record c { cached_head = r.head } in
        Receives p c' r polling acc del
          (if not b then some (err empty, c', r) else some (err TryRecvError.closed, c', r))
  unfolding Receives
  drained-Receives p c r acc del false none_left e =
      step (find_empty refl refl none_left) (step (answer_empty refl) stay)
  drained-Receives p c r acc del true none_left e = step (find_empty refl refl none_left) (
      step (load_closed refl e)
        (step (load_head_again refl) (step (answer_closed refl none_left) stay)))

  try_recv-Receives :
      (p : Producer) (c : Consumer) (r : Ring A W) (acc del : List A)
      → r.head < word_mod
      → r.tail < word_mod
      → Receives p c r polling acc del (try_recv cap c r)
  unfolding try_recv is_closed
  try_recv-Receives p c r acc del head_fits tail_fits =
      let c' : Consumer = record c { cached_head = r.head } in
      elim (Bool-cases (c.cached_head == r.tail)) [
        | inr fast ↦ rw fast (take_front-Receives p c r acc del tail_fits (ground arith))
        | inl stale ↦ rw stale (
            stepped-Receives p c c' r polling polling acc del _
              (load_head r.head refl refl head_fits (omega arith))
              (elim (Bool-cases (r.head == r.tail)) [
                | inr fresh ↦ rw fresh (take_front-Receives p c' r acc del tail_fits (ground arith))
                | inl drained ↦
                    rw drained (drained-Receives p c r acc del r.closed (ground arith) refl)
              ]))
      ]

  -- A call of `try_recv` that no access of the producer comes between is a run of the consumer's steps: it leaves the
  -- shared state and the cached cursor as the function does, has delivered the item that it answers with, and
  -- is at `told_closed` just when it answers `Closed`.
  pub try_recv-Run :
      (p : Producer) (c : Consumer) (r : Ring A W) (acc del : List A) {c' : Consumer}
      {r' : Ring A W} {res : Result TryRecvError A}
      → r.head < word_mod
      → r.tail < word_mod
      → try_recv cap c r ≡ some (res, c', r')
      → Run cap
          (system p c r polling acc del)
          (system p c' r' (then_at res) acc (then_received del res))
  unfolding Receives
  try_recv-Run p c r acc del head_fits tail_fits e =
      rw e at (try_recv-Receives p c r acc del head_fits tail_fits)
