-- ===== src/Ring/BlockingRecv.antt =====
-- `Consumer::recv` in src/stream/ring.rs: what ends its wait.
use arbitro_kit.Prelude.{
  ℕ, suc, ◌≡◌, refl, sym, ap, ◌∙◌, ◌>>=◌, inl, inr, Bool, true, false, List, [], ◌∷◌, Option, none,
  some, length, ◌==◌, not, ◌||◌, ok, err, arith, Bool-cases, Option-cases,
}
use mathlib.Core.Path.{subst}
use arbitro_kit.Cells.{IsCap, IsCap-bounds, slot_index, write_cell, read_cell}
use arbitro_kit.Waiter.{Waiter}
use arbitro_kit.Waiter.Sleep.{Sleeper, Wakes, settle_wait, wait_until-wakes}
use arbitro_kit.Ring.Types.{Ring, Producer, Consumer, TryRecvError}
use arbitro_kit.Ring.Shared.{close}
use arbitro_kit.Ring.Tx.{try_send, publish, drop_producer}
use arbitro_kit.Ring.Rx
use arbitro_kit.Ring.Rx.{try_recv, take_front, settle_recv, recv, recv_ready, wait_recv}
use arbitro_kit.Ring.Queue.{Queue, push-room, pop, Represents}
use arbitro_kit.Ring.Basics.{open_queue, retag, gauges, close-Represents}
use arbitro_kit.Ring.Send.{try_send-refines}
use arbitro_kit.Ring.Recv.{try_recv-refines}

-- A `try_recv` that fails changes nothing but its cached cursor.
try_recv-refused :
    {A W : Type 0} ⦃w : Waiter W⦄ (cap : ℕ) (c : Consumer) (r : Ring A W) {c' : Consumer}
    {r' : Ring A W} {x : TryRecvError}
    → try_recv cap c r ≡ some (err x, c', r')
    → (r' ≡ r) × (c'.worker ≡ c.worker)
unfolding try_recv take_front
try_recv-refused cap c r e = elim (Option-cases (read_cell r.slots (slot_index cap r.tail))) [
  | inl fault ↦ ground (arith, e, fault)
  | inr (cell, read) ↦ ground (arith, e, read)
]

-- A `try_send` that succeeds wakes the consumer.
try_send-wakes :
    {A W : Type 0} ⦃w : Waiter W⦄ (cap : ℕ) (p : Producer) (r : Ring A W) (v : A) {p' : Producer}
    {r' : Ring A W}
    → try_send cap p r v ≡ some (ok tt, p', r')
    → r'.not_empty ≡ w.wake r.not_empty
unfolding try_send publish
try_send-wakes cap p r v e = elim (Option-cases (write_cell r.slots (slot_index cap r.head) v)) [
  | inl fault ↦ ground (arith, e, fault)
  | inr (slots, wrote) ↦ ground (arith, e, wrote)
]

-- What the producer does to the shared state in one `try_send`.
abbrev pub sends : {A W : Type 0} ⦃w : Waiter W⦄ → ℕ → Producer → A → Ring A W → Ring A W
sends cap p v r = elim (try_send cap p r v) [ none ↦ r | some (_, _, r') ↦ r' ]

module _ {A W : Type 0} ⦃w : Waiter W⦄ {cap : ℕ} (ok_cap : IsCap cap) where
  register_rx-Represents :
      {p : Producer} {c : Consumer} {r : Ring A W} {q : Queue A} (t : ℕ)
      → Represents cap p c r q
      → let (c', r') = Rx.register cap c r t in Represents cap p c' r' q
  unfolding Rx.register
  register_rx-Represents {p} {c} {r} t rep =
      elim (Bool-cases (elim c.worker [ none ↦ false | some u ↦ u == t ])) [
        | inl same ↦ rw same rep
        | inr other ↦ rw other (retag rep r.not_full (w.set_worker t r.not_empty) p.worker (some t))
      ]

  -- With an item, or with the producer gone, one attempt settles the call.
  attempt_recv-item :
      {p : Producer} {c : Consumer} {r : Ring A W} {x : A} {rest : List A} {b : Bool}
      (retry : Consumer → Ring A W → Option (Option (Option A) × Consumer × Ring A W))
      → Represents cap p c r (record { items = x ∷ rest; closed = b })
      → (c' : Consumer) × (r' : Ring A W) × ((try_recv cap c r >>= settle_recv cap retry)
          ≡ some (some (some x), c', r'))
        × Represents cap p c' r' (record { items = rest; closed = b })
  unfolding settle_recv pop
  attempt_recv-item retry rep =
      let (c', r', e, rep') = try_recv-refines ok_cap _ rep in (c', r', rw (e, ◌>>=◌), rep')

  attempt_recv-closed :
      {p : Producer} {c : Consumer} {r : Ring A W}
      (retry : Consumer → Ring A W → Option (Option (Option A) × Consumer × Ring A W))
      → Represents cap p c r (record { items = []; closed = true })
      → (c' : Consumer) × (r' : Ring A W) × ((try_recv cap c r >>= settle_recv cap retry)
          ≡ some (some none, c', r'))
        × Represents cap p c' r' (record { items = []; closed = true })
  unfolding settle_recv pop
  attempt_recv-closed retry rep =
      let (c', r', e, rep') = try_recv-refines ok_cap _ rep in (c', r', rw (e, ◌>>=◌), rep')

  -- On an empty ring with the producer alive there is another try.
  attempt_recv-empty :
      {p : Producer} {c : Consumer} {r : Ring A W}
      (retry : Consumer → Ring A W → Option (Option (Option A) × Consumer × Ring A W))
      → Represents cap p c r open_queue
      → (c' : Consumer) × (c'.worker ≡ c.worker)
        × Represents cap p c' r open_queue
        × ((try_recv cap c r >>= settle_recv cap retry) ≡ retry c' r)
  unfolding settle_recv pop
  attempt_recv-empty {p} {c} {r} retry rep =
      let (c', r', e, rep') = try_recv-refines ok_cap _ rep in
      let (same, worker) = try_recv-refused cap c r e in
      (
        c',
        worker,
        subst (λ x. Represents cap p c' x open_queue) same rep',
        rw (e, ◌>>=◌) (ap (λ x. retry c' x) same),
      )

  -- The predicate of the wait: there is an item, or the producer is gone.
  recv_ready-gauges :
      {p : Producer} {c : Consumer} {r : Ring A W} {q : Queue A}
      → Represents cap p c r q
      → recv_ready cap r ≡ (not (length q.items == 0) || q.closed)
  unfolding recv_ready
  recv_ready-gauges rep = ground (arith, gauges rep)

module _ {A W : Type 0} ⦃w : Waiter W⦄ ⦃sl : Sleeper W⦄ (known : Wakes W)
    (registers : (t : ℕ) (x : W) → known.Known (w.set_worker t x)) {cap : ℕ}
    (ok_cap : IsCap cap) where
  -- After `register` the waiter knows the thread, if it did whenever the handle says so.
  register_rx-Known :
      (c : Consumer) (r : Ring A W) (t : ℕ)
      → (c.worker ≡ some t → known.Known r.not_empty)
      → known.Known (Rx.register cap c r t).1.not_empty
  unfolding Rx.register
  register_rx-Known c r t before = elim (Option-cases c.worker) [
    | inl never ↦ rw never (registers t r.not_empty)
    | inr (u, e) ↦ elim (Bool-cases (u == t)) [
      | inl same ↦
          let u_t : u ≡ t = ground (arith, same) in rw (e, same) (before (rw e (ap some u_t)))
      | inr other ↦ rw (e, other) (registers t r.not_empty)
    ]
  ]

  -- The shared state that the other side finds while the caller of `recv` sleeps.
  abbrev asleep_on : Ring A W → Ring A W
  asleep_on r = record r { not_empty = sl.arm r.not_empty }

  -- A wait that some step wakes, and that finds the predicate true, is followed by another attempt.
  recv-waked :
      {p : Producer} {c : Consumer} {r : Ring A W} {q' : Queue A} (t rounds : ℕ)
      (env : Ring A W → Ring A W) (later : List (Ring A W → Ring A W))
      → Represents cap p c r open_queue
      → (c.worker ≡ some t → known.Known r.not_empty)
      → ((c1 : Consumer) (r1 : Ring A W)
          → Represents cap p c1 r1 open_queue
          → (p' : Producer) × Represents cap p' c1 (env r1) q'
            × ((env r1).not_empty ≡ w.wake r1.not_empty))
      → (not (length q'.items == 0) || q'.closed) ≡ true
      → (p' : Producer) × (c2 : Consumer) × (r6 : Ring A W) × Represents cap p' c2 r6 q'
        × (recv cap t (suc (suc rounds)) (env ∷ later) c r ≡ recv cap t (suc rounds) later c2 r6)
  unfolding recv wait_recv settle_wait
  recv-waked {p} {c} {r} {q'} t rounds env later rep before acts ready =
      let retry : Consumer → Ring A W → Option (Option (Option A) × Consumer × Ring A W) = λ c' r'.
        let (c'', r'') = Rx.register cap c' r' t in
        wait_recv cap (env ∷ later) r''
        >>= settle_wait (λ on x. recv cap t (suc rounds) on c'' x) (λ x. (none, c'', x)) in
      let (c0, worker, rep0, first) = attempt_recv-empty ok_cap retry rep in
      let r2 : Ring A W = (Rx.register cap c0 r t).1 in
      let c2 : Consumer = (Rx.register cap c0 r t).0 in
      let rep2 : Represents cap p c2 r2 open_queue = register_rx-Represents ok_cap t rep0 in
      let knows : known.Known r2.not_empty =
        register_rx-Known c0 r t (λ e. before (sym worker ∙ e)) in
      let rep3 : Represents cap p c2 (asleep_on r2) open_queue =
        retag rep2 r2.not_full (sl.arm r2.not_empty) p.worker c2.worker in
      let (p', rep4, woke) = acts c2 (asleep_on r2) rep3 in
      let r4 : Ring A W = env (asleep_on r2) in
      let r5 : Ring A W = asleep_on (record r4 { not_empty = sl.resume r4.not_empty }) in
      let rep5 : Represents cap p' c2 r5 q' =
        retag rep4 r4.not_full r5.not_empty p'.worker c2.worker in
      let rep6 : Represents cap p' c2 (record r5 { not_empty = sl.leave r5.not_empty }) q' =
        retag rep4 r4.not_full (sl.leave r5.not_empty) p'.worker c2.worker in
      let waited =
        wait_until-wakes (λ x. x.not_empty) (λ y x. record x { not_empty = y })
          (λ x. some (recv_ready cap x)) env later r2 (ap some (recv_ready-gauges ok_cap rep2))
          (known.has_worker-known r2.not_empty knows) (ap some (recv_ready-gauges ok_cap rep3))
          (ap sl.awake woke ∙ known.awake-wake r2.not_empty knows)
          (ap some (recv_ready-gauges ok_cap rep5 ∙ ready)) in
      (p', c2, record r5 { not_empty = sl.leave r5.not_empty }, rep6, rw (first, waited, ◌>>=◌))

  sends-acts :
      {p : Producer} {c : Consumer} {r : Ring A W} (v : A)
      → Represents cap p c r open_queue
      → (p' : Producer) × Represents cap p' c
          (sends cap p v r)
          (record { items = v ∷ []; closed = false })
        × ((sends cap p v r).not_empty ≡ w.wake r.not_empty)
  sends-acts {p} {c} {r} v rep =
      let (p', r', e, rep') = try_send-refines ok_cap v rep in
      let s = push-room cap open_queue v (omega (arith, IsCap-bounds ok_cap)) in
      (p', rw (sends, e) (rw s at rep'), rw (sends, e) (try_send-wakes cap p r v (rw s at e)))

  -- On an empty ring `recv` registers and sleeps. If the producer's next step is a `try_send`, `recv` returns the
  -- value that it sends and the ring is empty again; if it is the drop of the producer, `recv` returns `None`.
  -- This holds of every backend whose wake reaches a known waiter and whose `set_worker` makes one known, if the
  -- waiter knows the thread that the handle says is registered.
  pub recv-woken :
      {p : Producer} {c : Consumer} {r : Ring A W} (t rounds : ℕ) (v : A)
      (later : List (Ring A W → Ring A W))
      → Represents cap p c r open_queue
      → (c.worker ≡ some t → known.Known r.not_empty)
      → ((p' : Producer) × (c' : Consumer) × (r' : Ring A W) × (recv cap t
              (suc (suc rounds))
              (sends cap p v ∷ later)
              c
              r
            ≡ some (some (some v), c', r'))
          × Represents cap p' c' r' open_queue)
        × ((p' : Producer) × (c' : Consumer) × (r' : Ring A W) × (recv cap t
                (suc (suc rounds))
                (drop_producer cap ∷ later)
                c
                r
              ≡ some (some none, c', r'))
            × Represents cap p' c' r' (record { items = []; closed = true }))
  unfolding recv drop_producer close
  recv-woken {p} {c} {r} t rounds v later rep before =
      let (p1, c1, r1, rep1, sent) =
        recv-waked t rounds (sends cap p v) later rep before (λ c' r' rep'. sends-acts v rep')
          refl in
      let (p2, c2, r2, rep2, gone) =
        recv-waked t rounds (drop_producer cap) later rep before
          (λ c' r' rep'. (p, close-Represents rep', refl)) refl in
      let (c3, r3, e3, rep3) = attempt_recv-item ok_cap _ rep1 in
      let (c4, r4, e4, rep4) = attempt_recv-closed ok_cap _ rep2 in
      ((p1, c3, r3, sent ∙ e3, rep3), (p2, c4, r4, gone ∙ e4, rep4))
