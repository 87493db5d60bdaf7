-- ===== src/Mpsc/Send.antt =====
-- A producer's operations on a channel that stands for a list of queues.
use mathlib.Core.Path.{subst}
use arbitro_kit.Prelude.{
  ℕ, zero, suc, ◌≡◌, refl, ap, sym, ◌∙◌, Bool, true, false, List, some, length, get_elem?, set,
  arith, ◌==◌, ◌||◌, if◌then◌else◌, Bool-cases, inl, inr, ltb, leb, ◌>>=◌, length-set, set-same,
  err,
}
use arbitro_kit.Cells.{IsCap}
use arbitro_kit.Waiter.{Waiter, NoopWaiter, noop_waiter}
use arbitro_kit.Ring.Types.{Ring, Producer, Consumer}
use arbitro_kit.Ring.Tx
use arbitro_kit.Ring.Queue.{Queue, push, Represents}
use arbitro_kit.Ring.Send.{try_send-refines}
use arbitro_kit.Mpsc.Types.{Inner, Lane, Mpsc}
use arbitro_kit.Mpsc.Tx.{wake_fanin, settle, transmit, try_send}
use arbitro_kit.Mpsc.Queues.{open_count-set, offer}
use arbitro_kit.Mpsc.Lanes.{Carries, CarryAll-get, CarryAll-set, Carries-live, live-Carries, Stands}

module _ {A : Type 0} (cap : ℕ) where
  offer-stop : {stop : Bool} (q : Queue A) (v : A) → stop ≡ true → offer cap stop q v ≡ (err v, q)
  unfolding offer
  offer-stop q v e = ground (arith, e)

  offer-closed : (stop : Bool) (q : Queue A) (v : A) → (offer cap stop q v).1.closed ≡ q.closed
  unfolding offer
  offer-closed stop q v = ground arith

-- A waking that depends on `b` touches one field.
pub woken-fanin :
    {W : Type 0} ⦃w : Waiter W⦄ (b : Bool) (inner : Inner W)
    → (if b then inner else wake_fanin inner)
      ≡ record inner { fanin_waiter = if b then inner.fanin_waiter else w.wake inner.fanin_waiter }
woken-fanin true inner = refl
woken-fanin false inner = refl

pub woken-some :
    {W : Type 0} ⦃w : Waiter W⦄ (n : ℕ) (inner : Inner W)
    → (if ltb 0 n then wake_fanin inner else inner) ≡ record inner {
      fanin_waiter = if n == 0 then inner.fanin_waiter else w.wake inner.fanin_waiter;
    }
woken-some zero inner = refl
woken-some (suc n) inner =
    let some_n : ltb 0 (suc n) ≡ true = ground arith in
    let more : (suc n == 0) ≡ false = ground arith in rw (some_n, more)

pub woken-if :
    {W : Type 0} ⦃w : Waiter W⦄ (b : Bool) (inner : Inner W)
    → (if b then wake_fanin inner else inner)
      ≡ record inner { fanin_waiter = if b then w.wake inner.fanin_waiter else inner.fanin_waiter }
woken-if true inner = refl
woken-if false inner = refl

module _ {A W : Type 0} ⦃w : Waiter W⦄ {cap : ℕ} (ok_cap : IsCap cap) where
  -- One lane and its queue replaced, with the waiters kept.
  pub set-Stands :
      {ch : Mpsc A W} {qs : List (Queue A)} (i : ℕ) {l' : Lane A} {q q' : Queue A} (x : W)
      → Stands cap ch qs
      → get_elem? qs i ≡ some q
      → Carries cap l' q'
      → q'.closed ≡ q.closed
      → Stands cap
          (record { inner = record ch.inner { fanin_waiter = x }; lanes = set ch.lanes i l' })
          (set qs i q')
  set-Stands {ch} {qs} i {l'} {q} {q'} x st at h same = record {
    carries = CarryAll-set ch.lanes qs i st.carries h;
    m_queues = length-set qs i q' ∙ st.m_queues;
    m_waiters = st.m_waiters;
    few = st.few;
    counted =
        (let sum = open_count-set qs i {q = q} q' at in ground (arith, st.counted, sum, same));
  }

  -- A push of a live producer, in terms of the ring's `push`.
  pushed :
      {p : Producer} {c : Consumer} {r : Ring A NoopWaiter} {q : Queue A} (v : A)
      → Represents cap p c r q
      → (p' : Producer) × (r' : Ring A NoopWaiter) × (Tx.try_send cap p r v
          ≡ some ((push cap q v).0, p', r'))
        × Represents cap p' c r' (push cap q v).1
        × ((push cap q v).1 ≡ (offer cap false q v).1)
        × ((inner : Inner W)
            → settle cap inner (push cap q v).0 ≡ (
              (offer cap false q v).0,
              if leb cap (length q.items) then inner else wake_fanin inner,
            ))
  unfolding offer push settle
  pushed {q} v rep =
      let (p', r', e, rep') = try_send-refines ok_cap v rep in
      (p', r', e, rep', ground arith, λ inner. ground arith)

  try_send-stop :
      (ch : Mpsc A W) (i : ℕ) (v : A)
      → ch.inner.shutdown ≡ true
      → try_send cap ch i v ≡ some (err v, ch)
  unfolding try_send
  try_send-stop ch i v e = rw e

  try_send-run :
      (ch : Mpsc A W) (i : ℕ) (v : A)
      → ch.inner.shutdown ≡ false
      → try_send cap ch i v ≡ transmit cap ch i v
  unfolding try_send
  try_send-run ch i v e = rw e

  transmit-offers :
      (ch : Mpsc A W) (qs : List (Queue A)) (i : ℕ) (v : A) {lane : Lane A} {p : Producer}
      {q : Queue A}
      → Stands cap ch qs
      → get_elem? ch.lanes i ≡ some lane
      → lane.ring_producer ≡ some p
      → get_elem? qs i ≡ some q
      → Represents cap p lane.ring_consumer lane.shared q
      → q.closed ≡ false
      → (ch' : Mpsc A W) × (transmit cap ch i v ≡ some ((offer cap false q v).0, ch'))
        × Stands cap ch' (set qs i (offer cap false q v).1)
        × (ch'.inner ≡ (if leb cap (length q.items) then ch.inner else wake_fanin ch.inner))
  unfolding transmit
  transmit-offers ch qs i v {lane} {p} {q} st at live at' rep opened =
      let (p', r', e, rep', to, woken) = pushed v rep in
      let kept : (offer cap false q v).1.closed ≡ q.closed = offer-closed cap false q v in
      let carry : Carries cap (record lane { ring_producer = some p'; shared = r' })
          (offer cap false q v).1 =
        live-Carries (rw⁻¹ to rep') (kept ∙ opened) in
      let x : W =
        if leb cap (length q.items) then ch.inner.fanin_waiter else w.wake ch.inner.fanin_waiter in
      let fan = woken-fanin (leb cap (length q.items)) ch.inner in
      (
        record {
          inner = record ch.inner { fanin_waiter = x };
          lanes = set ch.lanes i (record lane { ring_producer = some p'; shared = r' });
        },
        rw (at, live, ◌>>=◌, e, woken ch.inner, fan),
        set-Stands i x st at' carry kept,
        sym fan,
      )

  -- A live producer's `try_send` returns what `offer` returns on its own queue and leaves the other
  -- queues alone: a shut-down channel and a full queue hand the value back, and a value that is taken
  -- goes to the end of the queue and wakes the consumer.
  pub try_send-offers :
      (ch : Mpsc A W) (qs : List (Queue A)) (i : ℕ) (v : A) {lane : Lane A} {p : Producer}
      → Stands cap ch qs
      → get_elem? ch.lanes i ≡ some lane
      → lane.ring_producer ≡ some p
      → (q : Queue A) × (get_elem? qs i ≡ some q)
        × ((ch' : Mpsc A W) × (try_send cap ch i v
              ≡ some ((offer cap ch.inner.shutdown q v).0, ch'))
            × Stands cap ch' (set qs i (offer cap ch.inner.shutdown q v).1)
            × (ch'.inner ≡ (
                if ch.inner.shutdown || leb cap (length q.items)
                then ch.inner
                else wake_fanin ch.inner)))
  try_send-offers ch qs i v {lane} {p} st at live =
      let (q, at', carry) = CarryAll-get ch.lanes qs i st.carries at in
      let (rep, opened) = Carries-live carry live in
      (
        q,
        at',
        elim (Bool-cases ch.inner.shutdown) [
          | inl stop ↦ (
            ch,
            try_send-stop ch i v stop ∙ ap (λ o. some (o.0, ch)) (sym (offer-stop cap q v stop)),
            rw (offer-stop cap q v stop, set-same qs i at') st,
            rw stop,
          )
          | inr run ↦
              let (ch', e, st', inner) = transmit-offers ch qs i v st at live at' rep opened in
              let same : offer cap ch.inner.shutdown q v ≡ offer cap false q v =
                ap (λ b. offer cap b q v) run in
              let flag : (if ch.inner.shutdown || leb cap (length q.items)
                    then ch.inner
                    else wake_fanin ch.inner)
                  ≡ (if leb cap (length q.items) then ch.inner else wake_fanin ch.inner) =
                ap (λ b. if b || leb cap (length q.items) then ch.inner else wake_fanin ch.inner)
                  run in
              (
                ch',
                try_send-run ch i v run ∙ e ∙ ap (λ o. some (o.0, ch')) (sym same),
                subst (λ o. Stands cap ch' (set qs i o.1)) (sym same) st',
                inner ∙ sym flag,
              )
        ],
      )
