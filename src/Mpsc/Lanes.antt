-- ===== src/Mpsc/Lanes.antt =====
-- What it means that the lanes of a channel stand for a list of queues.
use arbitro_kit.Prelude.{
  All2, All2-get, All2-set, unsome, ℕ, zero, suc, ◌<◌, ◌≤◌, ◌≡◌, refl, sym, ◌∙◌, true, false, not,
  List, [], ◌∷◌, none, some, length, get_elem?, set, replicate, arith, ◌==◌, length-append,
  Bool-cases, inl, inr, ◌⊎◌, ltb, leb, ◌&&◌, ◌>>=◌, length-replicate,
}
use mathlib.Core.Path.{subst}
use arbitro_kit.Cells.{IsCap}
use arbitro_kit.Waiter.{Waiter, NoopWaiter, noop_waiter}
use arbitro_kit.Ring.Types.{Ring, Producer, Consumer, Link}
use arbitro_kit.Ring.Queue.{Queue, Represents}
use arbitro_kit.Ring.Basics.{open_queue, gauges, new-Represents}
use arbitro_kit.Mpsc.Types.{Lane, Mpsc, lane_of, max_producers, new}
use arbitro_kit.Mpsc.Rx.{pending, any_ring_has_work}
use arbitro_kit.Mpsc.Queues.{all_items, open_count}

module _ {A : Type 0} (cap : ℕ) where
  -- A lane stands for a queue that is closed exactly when its producer is gone. The consumer handle is
  -- alive, so nothing else closes it.
  pub record Carries (l : Lane A) (q : Queue A) : Type 0 where
    pub tx : Producer
    pub live : (l.ring_producer ≡ some tx) ⊎ ((l.ring_producer ≡ none) × (q.closed ≡ true))
    pub open_if : (p : Producer) → l.ring_producer ≡ some p → (p ≡ tx) × (q.closed ≡ false)
    pub ring : Represents cap tx l.ring_consumer l.shared q

  -- Lane by lane.
  abbrev pub CarryAll : List (Lane A) → List (Queue A) → Type 0
  CarryAll ls qs = All2 Carries ls qs

module _ {A : Type 0} {cap : ℕ} where
  pub CarryAll-get :
      (ls : List (Lane A)) (qs : List (Queue A)) (i : ℕ) {l : Lane A}
      → CarryAll cap ls qs
      → get_elem? ls i ≡ some l
      → (q : Queue A) × (get_elem? qs i ≡ some q) × Carries cap l q
  CarryAll-get ls qs i h e = All2-get (Carries cap) ls qs i h e

  pub CarryAll-set :
      (ls : List (Lane A)) (qs : List (Queue A)) (i : ℕ) {l : Lane A} {q : Queue A}
      → CarryAll cap ls qs
      → Carries cap l q
      → CarryAll cap (set ls i l) (set qs i q)
  CarryAll-set ls qs i h c = All2-set (Carries cap) ls qs i h c

-- `MpscConsumer::pending` counts all items, and there is work exactly if that is not 0.
pub pending-all_items :
    {A : Type 0} (cap : ℕ) (ls : List (Lane A)) (qs : List (Queue A))
    → CarryAll cap ls qs
    → (pending ls ≡ length (all_items qs))
      × (any_ring_has_work ls ≡ not (length (all_items qs) == 0))
unfolding pending any_ring_has_work all_items
pending-all_items cap [] [] h = (refl, refl)
pending-all_items cap [] (q ∷ qs) h = elim h [ ]
pending-all_items cap (l ∷ ls) [] h = elim h [ ]
pending-all_items cap (l ∷ ls) (q ∷ qs) h =
    let (counted, work) = pending-all_items cap ls qs h.1 in
    let (len_eq, empty_eq, _, _) = gauges h.0.ring in
    (
      omega (arith, counted, len_eq, length-append q.items (all_items qs)),
      ground (arith, work, empty_eq, length-append q.items (all_items qs)),
    )

module _ {A : Type 0} {cap : ℕ} where
  -- A producer that is alive, on its own.
  pub Carries-live :
      {l : Lane A} {q : Queue A} {p : Producer}
      → Carries cap l q
      → l.ring_producer ≡ some p
      → Represents cap p l.ring_consumer l.shared q × (q.closed ≡ false)
  Carries-live {l} {q} {p} h e =
      let (same, opened) = h.open_if p e in
      (subst (λ x. Represents cap x l.ring_consumer l.shared q) (sym same) h.ring, opened)

  pub live-Carries :
      {p : Producer} {c : Consumer} {r : Ring A NoopWaiter} {q : Queue A}
      → Represents cap p c r q
      → q.closed ≡ false
      → Carries cap (record { ring_producer = some p; ring_consumer = c; shared = r }) q
  live-Carries {p} rep opened = record {
    tx = p;
    live = inl refl;
    open_if = λ p' e. (sym (unsome e), opened);
    ring = rep;
  }

  pub gone-Carries :
      {p : Producer} {c : Consumer} {r : Ring A NoopWaiter} {q : Queue A}
      → Represents cap p c r q
      → q.closed ≡ true
      → Carries cap (record { ring_producer = none; ring_consumer = c; shared = r }) q
  gone-Carries {p} rep shut = record {
    tx = p;
    live = inr (refl, shut);
    open_if = λ p' e. cc;
    ring = rep;
  }

module _ {A : Type 0} {cap : ℕ} where
  -- The consumer's end of a lane replaced.
  pub served :
      {l : Lane A} {q q' : Queue A} {c : Consumer} {r : Ring A NoopWaiter} (carry : Carries cap l q)
      → Represents cap carry.tx c r q'
      → q'.closed ≡ q.closed
      → Carries cap (record l { ring_consumer = c; shared = r }) q'
  served {l} {q} {q'} carry rep same = record {
    tx = carry.tx;
    live = elim carry.live [ inl e ↦ inl e | inr (e, shut) ↦ inr (e, same ∙ shut) ];
    open_if = λ p e. let (h, opened) = carry.open_if p e in (h, same ∙ opened);
    ring = rep;
  }

-- The channel stands for `qs`: one queue for each producer, of which the live ones are counted.
pub record Stands {A W : Type 0} (cap : ℕ) (ch : Mpsc A W) (qs : List (Queue A)) : Type 0 where
  pub carries : CarryAll cap ch.lanes qs
  pub m_queues : length qs ≡ ch.inner.m
  pub m_waiters : length ch.inner.producer_waiters ≡ ch.inner.m
  pub few : ch.inner.m ≤ max_producers
  pub counted : ch.inner.live_producers ≡ open_count qs

all_fresh :
    {A : Type 0} {cap : ℕ} {l : Link A NoopWaiter} (n : ℕ)
    → Represents cap l.tx l.rx l.shared open_queue
    → CarryAll cap (replicate n (lane_of l)) (replicate n open_queue)
      × (open_count {A = A} (replicate n open_queue) ≡ n)
unfolding open_count
all_fresh zero rep = (tt, refl)
all_fresh {l} (suc n) rep =
    let (h, e) = all_fresh {l = l} n rep in ((live-Carries rep refl, h), omega (arith, e))

-- `Mpsc::new` gives a channel of `m` open, empty queues if `m` is in 1..=255 and `CAP` is a power of two
-- that fits a `usize`, and panics otherwise.
pub new-Stands :
    (A W : Type 0) ⦃w : Waiter W⦄ (cap m : ℕ)
    → (IsCap cap
        × (0 < m)
        × (m ≤ max_producers)
        × ((ch : Mpsc A W) × (new A cap m ≡ some ch) × Stands cap ch (replicate m open_queue)))
      ⊎ ((¬ (IsCap cap × (0 < m) × (m ≤ max_producers))) × (new A {W = W} cap m ≡ none))
unfolding new
new-Stands A W ⦃w⦄ cap m = elim (Bool-cases (ltb 0 m && leb m max_producers)) [
  | inl good ↦ elim (new-Represents A {W = NoopWaiter} cap) [
    | inl (c, (l, e, rep)) ↦
        let (h, n) = all_fresh {l = l} m rep in
        inl (
          c,
          ground arith,
          ground arith,
          (
            record {
              inner = record {
                fanin_waiter = w.fresh;
                producer_waiters = replicate m w.fresh;
                live_producers = m;
                shutdown = false;
                m = m;
              };
              lanes = replicate m (lane_of l);
            },
            rw (good, e, ◌>>=◌),
            record {
              carries = h;
              m_queues = length-replicate m open_queue;
              m_waiters = length-replicate m w.fresh;
              few = ground arith;
              counted = sym n;
            },
          ),
        )
    | inr (bad, e) ↦ inr (λ (c, _, _). bad c, rw (good, e, ◌>>=◌))
  ]
  | inr bad ↦ inr (λ (_, h, h'). ground arith, rw bad)
]
