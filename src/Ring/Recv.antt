-- ===== src/Ring/Recv.antt =====
-- `Consumer::try_recv` implements `Queue.pop`.
use arbitro_kit.Prelude.{
  ℕ, ◌+◌, ◌<◌, ◌≡◌, ◌>>=◌, Bool, false, List, [], ◌∷◌, some, ◌==◌, ok, wrapping_sub, wrapping_add,
  arith, Bool-cases, inl, inr,
}
use arbitro_kit.Cells.{
  IsCap, slot_index, slot_index-mod, mod-wrap, IsCap-bounds, read_cell-IsWindow,
}
use arbitro_kit.Waiter.{Waiter}
use arbitro_kit.Ring.Types.{Ring, Producer, Consumer}
use arbitro_kit.Ring.Rx.{take_front, try_recv}
use arbitro_kit.Ring.Queue.{Queue, pop, Represents}

module _ {A W : Type 0} ⦃w : Waiter W⦄ {cap : ℕ} (ok_cap : IsCap cap) where
  -- With an item in sight the front one leaves, and its slot is free.
  take_front-Represents :
      {p : Producer} {c : Consumer} {r : Ring A W} {v : A} {rest : List A} {b : Bool}
      → Represents cap p c r (record { items = v ∷ rest; closed = b })
      → 0 < wrapping_sub c.cached_head r.tail
      → (r' : Ring A W) × (take_front cap c r ≡ some (ok v, c, r'))
        × Represents cap p c r' (record { items = rest; closed = b })
  unfolding take_front
  take_front-Represents {p} {c} {r} {v} {rest} {b} rep seen =
      let (slots, e, win) =
        read_cell-IsWindow (slot_index cap r.tail) (wrapping_add r.tail 1) rep.window
          (slot_index-mod ok_cap r.tail) (mod-wrap ok_cap (r.tail + 1)) in
      (
        record r { tail = wrapping_add r.tail 1; not_full = w.wake r.not_full; slots = slots },
        rw (e, ◌>>=◌),
        record {
          head_fits = rep.head_fits;
          tail_fits = omega arith;
          cached_tail_fits = rep.cached_tail_fits;
          cached_head_fits = rep.cached_head_fits;
          count = omega (arith, rep, IsCap-bounds ok_cap);
          behind = omega (arith, rep, IsCap-bounds ok_cap);
          room = rep.room;
          seen = omega (arith, rep, IsCap-bounds ok_cap);
          same_closed = rep.same_closed;
          window = win;
        },
      )

  -- Looking at `head` anew keeps what the ring stands for.
  look :
      {p : Producer} {c : Consumer} {r : Ring A W} {q : Queue A}
      → Represents cap p c r q
      → Represents cap p (record c { cached_head = r.head }) r q
  look rep = record {
    head_fits = rep.head_fits;
    tail_fits = rep.tail_fits;
    cached_tail_fits = rep.cached_tail_fits;
    cached_head_fits = rep.head_fits;
    count = rep.count;
    behind = rep.behind;
    room = rep.room;
    seen = omega (arith, rep);
    same_closed = rep.same_closed;
    window = rep.window;
  }

  Receives : Producer → Consumer → Ring A W → Queue A → Type 0
  Receives p c r q =
      (c' : Consumer) × (r' : Ring A W) × (try_recv cap c r ≡ some ((pop q).0, c', r'))
      × Represents cap p c' r' (pop q).1

  recv-empty :
      {p : Producer} {c : Consumer} {r : Ring A W} (b : Bool)
      → Represents cap p c r (record { items = []; closed = b })
      → Receives p c r (record { items = []; closed = b })
  unfolding try_recv pop Receives
  recv-empty {p} {c} {r} b rep =
      (record c { cached_head = r.head }, r, ground (arith, rep), look rep)

  recv-item :
      {p : Producer} {c : Consumer} {r : Ring A W} (v : A) (rest : List A) (b : Bool)
      → Represents cap p c r (record { items = v ∷ rest; closed = b })
      → Receives p c r (record { items = v ∷ rest; closed = b })
  unfolding try_recv pop Receives
  recv-item {p} {c} {r} v rest b rep = elim (Bool-cases (c.cached_head == r.tail)) [
    | inr fast ↦
        let (r', e, rep') = take_front-Represents rep (ground (arith, rep)) in
        (c, r', rw fast e, rep')
    | inl stale ↦
        let more : (r.head == r.tail) ≡ false = ground (arith, rep) in
        let (r', e, rep') = take_front-Represents (look rep) (omega (arith, rep)) in
        (record c { cached_head = r.head }, r', rw (stale, more) e, rep')
  ]

  -- Every call returns what `pop` returns, and leaves the ring standing for what `pop` leaves: the
  -- oldest item, `Empty` while the ring is open, and `Closed` only when it is closed and drained.
  pub try_recv-refines :
      {p : Producer} {c : Consumer} {r : Ring A W} (q : Queue A)
      → Represents cap p c r q
      → (c' : Consumer) × (r' : Ring A W) × (try_recv cap c r ≡ some ((pop q).0, c', r'))
        × Represents cap p c' r' (pop q).1
  unfolding Receives
  try_recv-refines q rep = by_items q.items rep
    where
      by_items :
          {p : Producer} {c : Consumer} {r : Ring A W} (xs : List A)
          → Represents cap p c r (record q { items = xs })
          → Receives p c r (record q { items = xs })
      by_items [] rep = recv-empty q.closed rep
      by_items (v ∷ rest) rep = recv-item v rest q.closed rep
