-- ===== src/Ring/Blocking.antt =====
-- `Producer::send` in src/stream/ring.rs: what ends its wait.
use arbitro_kit.Prelude.{
  ℕ, suc, ◌≤◌, ◌<◌, ◌≡◌, refl, sym, ap, ◌∙◌, ◌>>=◌, ◌⊎◌, inl, inr, Bool, true, false, List, [], ◌∷◌,
  ◌++◌, none, some, length, ◌==◌, ok, err, arith, Bool-cases, Option-cases,
}
use arbitro_kit.Cells.{IsCap, slot_index, read_cell}
use arbitro_kit.Waiter.{Waiter}
use arbitro_kit.Waiter.Sleep.{Sleeper, Wakes, settle_wait, wait_until-wakes}
use arbitro_kit.Ring.Types.{Ring, Producer, Consumer}
use arbitro_kit.Ring.Shared.{close}
use arbitro_kit.Ring.Tx
use arbitro_kit.Ring.Tx.{try_send, publish, settle_send, send, send_ready, wait_send}
use arbitro_kit.Ring.Rx.{try_recv, take_front, drop_consumer}
use arbitro_kit.Ring.Queue.{Queue, pop, Represents}
use arbitro_kit.Ring.Basics.{retag, close-Represents}
use arbitro_kit.Ring.Recv.{try_recv-refines}
use arbitro_kit.Ring.Attempts.{
  Retry, register_tx-Represents, Sent, attempt_send-ready, attempt_send-full, send_ready-room,
  send_ready-full,
}

-- A `try_recv` that succeeds wakes the producer.
try_recv-wakes :
    {A W : Type 0} ⦃w : Waiter W⦄ (cap : ℕ) (c : Consumer) (r : Ring A W) {c' : Consumer}
    {r' : Ring A W} {v : A}
    → try_recv cap c r ≡ some (ok v, c', r')
    → r'.not_full ≡ w.wake r.not_full
unfolding try_recv take_front
try_recv-wakes cap c r e = elim (Option-cases (read_cell r.slots (slot_index cap r.tail))) [
  | inl fault ↦ ground (arith, e, fault)
  | inr (cell, read) ↦ ground (arith, e, read)
]

-- What the consumer does to the shared state in one `try_recv`, and the handle that it is left with.
abbrev pub receives : {A W : Type 0} ⦃w : Waiter W⦄ → ℕ → Consumer → Ring A W → Ring A W
receives cap c r = elim (try_recv cap c r) [ none ↦ r | some (_, _, r') ↦ r' ]

module _ {A W : Type 0} ⦃w : Waiter W⦄ ⦃sl : Sleeper W⦄ (known : Wakes W)
    (registers : (t : ℕ) (x : W) → known.Known (w.set_worker t x)) {cap : ℕ}
    (ok_cap : IsCap cap) where
  -- After `register` the waiter knows the thread, if it did whenever the handle says so.
  register_tx-Known :
      (p : Producer) (r : Ring A W) (t : ℕ)
      → (p.worker ≡ some t → known.Known r.not_full)
      → known.Known (Tx.register cap p r t).1.not_full
  unfolding Tx.register
  register_tx-Known p r t before = elim (Option-cases p.worker) [
    | inl never ↦ rw never (registers t r.not_full)
    | inr (u, e) ↦ elim (Bool-cases (u == t)) [
      | inl same ↦
          let u_t : u ≡ t = ground (arith, same) in rw (e, same) (before (rw e (ap some u_t)))
      | inr other ↦ rw (e, other) (registers t r.not_full)
    ]
  ]

  -- The shared state that the other side finds while the caller of `send` sleeps.
  abbrev asleep_on : Ring A W → Ring A W
  asleep_on r = record r { not_full = sl.arm r.not_full }

  -- A wait that some step wakes, and that finds the predicate true, is followed by an attempt that
  -- settles the call.
  send-waked :
      {p : Producer} {c : Consumer} {r : Ring A W} {q q' : Queue A} (t rounds : ℕ) (v : A)
      (env : Ring A W → Ring A W) (later : List (Ring A W → Ring A W))
      → Represents cap p c r q
      → cap ≤ length q.items
      → q.closed ≡ false
      → (p.worker ≡ some t → known.Known r.not_full)
      → ((p1 : Producer) (r1 : Ring A W)
          → Represents cap p1 c r1 q
          → (c' : Consumer) × Represents cap p1 c' (env r1) q'
            × ((env r1).not_full ≡ w.wake r1.not_full))
      → (length q'.items < cap) ⊎ (q'.closed ≡ true)
      → (c' : Consumer) × Sent ok_cap c' q' v (send cap t (suc (suc rounds)) (env ∷ later) p r v)
  unfolding send wait_send settle_wait
  send-waked {p} {c} {r} {q} {q'} t rounds v env later rep none_free open_ before acts ready =
      let retry : Retry A W = λ p' r' u.
        let (p'', r'') = Tx.register cap p' r' t in
        wait_send cap (env ∷ later) r''
        >>= settle_wait (λ on x. send cap t (suc rounds) on p'' x u) (λ x. (none, p'', x)) in
      let (p0, worker, rep0, first) = attempt_send-full ok_cap v retry rep none_free open_ in
      let r2 : Ring A W = (Tx.register cap p0 r t).1 in
      let p2 : Producer = (Tx.register cap p0 r t).0 in
      let rep2 : Represents cap p2 c r2 q = register_tx-Represents ok_cap t rep0 in
      let knows : known.Known r2.not_full =
        register_tx-Known p0 r t (λ e. before (sym worker ∙ e)) in
      let rep3 : Represents cap p2 c (asleep_on r2) q =
        retag rep2 (sl.arm r2.not_full) r2.not_empty p2.worker c.worker in
      let (c', rep4, woke) = acts p2 (asleep_on r2) rep3 in
      let r4 : Ring A W = env (asleep_on r2) in
      let r5 : Ring A W = asleep_on (record r4 { not_full = sl.resume r4.not_full }) in
      let rep5 : Represents cap p2 c' r5 q' =
        retag rep4 r5.not_full r4.not_empty p2.worker c'.worker in
      let rep6 : Represents cap p2 c' (record r5 { not_full = sl.leave r5.not_full }) q' =
        retag rep4 (sl.leave r5.not_full) r4.not_empty p2.worker c'.worker in
      let waited =
        wait_until-wakes (λ x. x.not_full) (λ y x. record x { not_full = y })
          (λ x. some (send_ready cap x)) env later r2
          (ap some (send_ready-full ok_cap rep2 none_free open_))
          (known.has_worker-known r2.not_full knows)
          (ap some (send_ready-full ok_cap rep3 none_free open_))
          (ap sl.awake woke ∙ known.awake-wake r2.not_full knows)
          (ap some (send_ready-room ok_cap rep5 ready)) in
      (c', rw (first, waited, ◌>>=◌) (attempt_send-ready ok_cap v _ rep6 ready))

  receives-acts :
      {p : Producer} {c : Consumer} {r : Ring A W} {x : A} {rest : List A} {b : Bool}
      → Represents cap p c r (record { items = x ∷ rest; closed = b })
      → (c' : Consumer) × Represents cap p c'
          (receives cap c r)
          (record { items = rest; closed = b })
        × ((receives cap c r).not_full ≡ w.wake r.not_full)
  unfolding pop
  receives-acts {p} {c} {r} {x} {rest} {b} rep =
      let (c', r', e, rep') =
        try_recv-refines ok_cap (record { items = x ∷ rest; closed = b }) rep in
      (c', rw (receives, e) rep', rw (receives, e) (try_recv-wakes cap c r e))

  -- On a full ring `send` registers and sleeps. If the consumer's next step is a `try_recv`, `send` returns `Ok`
  -- with its value behind the items that are left; if it is the drop of the consumer, `send` hands the value back.
  -- This holds of every backend whose wake reaches a known waiter and whose `set_worker` makes one known, if the
  -- waiter knows the thread that the handle says is registered.
  pub send-woken :
      {p : Producer} {c : Consumer} {r : Ring A W} {x : A} {rest : List A} (t rounds : ℕ) (v : A)
      (later : List (Ring A W → Ring A W))
      → Represents cap p c r (record { items = x ∷ rest; closed = false })
      → cap ≤ suc (length rest)
      → (p.worker ≡ some t → known.Known r.not_full)
      → ((p' : Producer) × (c' : Consumer) × (r' : Ring A W) × (send cap t
              (suc (suc rounds))
              (receives cap c ∷ later)
              p
              r
              v
            ≡ some (some (ok tt), p', r'))
          × Represents cap p' c' r' (record { items = rest ++ (v ∷ []); closed = false }))
        × ((p' : Producer) × (c' : Consumer) × (r' : Ring A W) × (send cap t
                (suc (suc rounds))
                (drop_consumer cap ∷ later)
                p
                r
                v
              ≡ some (some (err v), p', r'))
            × Represents cap p' c' r' (record { items = x ∷ rest; closed = true }))
  unfolding drop_consumer close
  send-woken {p} {c} {r} {x} {rest} t rounds v later rep none_free before =
      let (c1, (p1, r1, taken)) =
        send-waked t rounds v (receives cap c) later rep none_free refl before
          (λ p' r' rep'. receives-acts rep') (inl (omega (arith, rep))) in
      let (c2, (p2, r2, gone)) =
        send-waked t rounds v (drop_consumer cap) later rep none_free refl before
          (λ p' r' rep'. (c, close-Represents rep', refl)) (inr refl) in
      (
        elim taken [
          | inl (_, e, rep') ↦ (p1, c1, r1, e, rep')
          | inr (_, shut, _, _) ↦ absurd (cc shut)
        ],
        elim gone [
          | inl (room, _, _) ↦ absurd (omega (arith, room, none_free))
          | inr (_, _, e, rep') ↦ (p2, c2, r2, e, rep')
        ],
      )
