-- ===== src/Ring/Attempts.antt =====
-- One attempt of `Producer::send` in src/stream/ring.rs, and the predicate of its wait.
use arbitro_kit.Prelude.{
  ℕ, ◌≤◌, ◌<◌, ◌≡◌, ap, ◌>>=◌, ◌⊎◌, inl, inr, true, false, [], ◌∷◌, ◌++◌, Option, none, some,
  length, ◌==◌, Result, ok, err, arith, Bool-cases, Option-cases,
}
use native.Mathlib.Decide.{dec_lt}
use mathlib.Core.Path.{subst}
use arbitro_kit.Cells.{IsCap, slot_index, write_cell}
use arbitro_kit.Waiter.{Waiter}
use arbitro_kit.Ring.Types.{Ring, Producer, Consumer, TrySendError}
use arbitro_kit.Ring.Tx
use arbitro_kit.Ring.Tx.{try_send, publish, settle_send, send, send_ready, wait_send}
use arbitro_kit.Ring.Queue.{Queue, push-room, push-full, Represents}
use arbitro_kit.Ring.Basics.{retag, gauges}
use arbitro_kit.Ring.Send.{try_send-refines}

-- What `send` does next with a value that came back.
abbrev pub Retry : Type 0 → Type 0 → Type 0
Retry A W = Producer → Ring A W → A → Option (Option (Result A (Unit {0})) × Producer × Ring A W)

-- A `try_send` that fails changes nothing but its cached cursor.
pub try_send-refused :
    {A W : Type 0} ⦃w : Waiter W⦄ (cap : ℕ) (p : Producer) (r : Ring A W) (v : A) {p' : Producer}
    {r' : Ring A W} {x : TrySendError A}
    → try_send cap p r v ≡ some (err x, p', r')
    → (r' ≡ r) × (p'.worker ≡ p.worker)
unfolding try_send publish
try_send-refused cap p r v e = elim (Option-cases (write_cell r.slots (slot_index cap r.head) v)) [
  | inl fault ↦ ground (arith, e, fault)
  | inr (slots, wrote) ↦ ground (arith, e, wrote)
]

module _ {A W : Type 0} ⦃w : Waiter W⦄ {cap : ℕ} (ok_cap : IsCap cap) where
  pub register_tx-Represents :
      {p : Producer} {c : Consumer} {r : Ring A W} {q : Queue A} (t : ℕ)
      → Represents cap p c r q
      → let (p', r') = Tx.register cap p r t in Represents cap p' c r' q
  unfolding Tx.register
  register_tx-Represents {p} {c} {r} t rep =
      elim (Bool-cases (elim p.worker [ none ↦ false | some u ↦ u == t ])) [
        | inl same ↦ rw (same) rep
        | inr other ↦ rw other (retag rep (w.set_worker t r.not_full) r.not_empty (some t) c.worker)
      ]

  -- How a completed `send` of `v` leaves a ring that stood for `q`.
  abbrev pub Sent :
      Consumer → Queue A → A → Option (Option (Result A (Unit {0})) × Producer × Ring A W) → Type 0
  Sent c q v out =
      (p' : Producer) × (r' : Ring A W) × (((length q.items < cap)
          × (out ≡ some (some (ok tt), p', r'))
          × Represents cap p' c r' (record q { items = q.items ++ (v ∷ []) }))
        ⊎ ((cap ≤ length q.items)
            × (q.closed ≡ true)
            × (out ≡ some (some (err v), p', r'))
            × Represents cap p' c r' q))

  -- With room, or with the consumer gone, one attempt settles the call.
  pub attempt_send-ready :
      {p : Producer} {c : Consumer} {r : Ring A W} {q : Queue A} (v : A) (retry : Retry A W)
      → Represents cap p c r q
      → (length q.items < cap) ⊎ (q.closed ≡ true)
      → Sent c q v (try_send cap p r v >>= settle_send cap retry)
  unfolding settle_send
  attempt_send-ready {q = q} v retry rep ready =
      let (p', r', e, rep') = try_send-refines ok_cap v rep in
      elim (dec_lt (length q.items) cap) [
        | yes room ↦
            let s = push-room cap q v room in (p', r', inl (room, rw (e, ◌>>=◌, s), rw s at rep'))
        | no none_free ↦
            let s = push-full cap q v (omega arith) in
            let gone : q.closed ≡ true = ground arith in
            (p', r', inr (omega arith, gone, rw (e, ◌>>=◌, s, gone), rw s at rep'))
      ]

  -- On a full ring with the consumer alive the value comes back for another try.
  pub attempt_send-full :
      {p : Producer} {c : Consumer} {r : Ring A W} {q : Queue A} (v : A) (retry : Retry A W)
      → Represents cap p c r q
      → cap ≤ length q.items
      → q.closed ≡ false
      → (p' : Producer) × (p'.worker ≡ p.worker)
        × Represents cap p' c r q
        × ((try_send cap p r v >>= settle_send cap retry) ≡ retry p' r v)
  unfolding settle_send
  attempt_send-full {p} {c} {r} {q} v retry rep none_free open_ =
      let (p', r', e, rep') = try_send-refines ok_cap v rep in
      let s = push-full cap q v none_free in
      let (same, worker) = try_send-refused cap p r v (rw s at e) in
      (
        p',
        worker,
        subst (λ x. Represents cap p' c x q) same (rw s at rep'),
        rw (e, ◌>>=◌, s, open_) (ap (λ x. retry p' x v) same),
      )

  -- The predicate of the wait: there is room, or the consumer is gone.
  pub send_ready-room :
      {p : Producer} {c : Consumer} {r : Ring A W} {q : Queue A}
      → Represents cap p c r q
      → (length q.items < cap) ⊎ (q.closed ≡ true)
      → send_ready cap r ≡ true
  unfolding send_ready
  send_ready-room rep ready = ground (arith, gauges rep)

  pub send_ready-full :
      {p : Producer} {c : Consumer} {r : Ring A W} {q : Queue A}
      → Represents cap p c r q
      → cap ≤ length q.items
      → q.closed ≡ false
      → send_ready cap r ≡ false
  unfolding send_ready
  send_ready-full rep none_free open_ = ground (arith, gauges rep)
