-- ===== src/Ring/Send.antt =====
-- `Producer::try_send` implements `Queue.push`.
use arbitro_kit.Prelude.{
  ℕ, ◌≤◌, ◌<◌, ◌≡◌, refl, ◌==◌, ◌>>=◌, [], ◌∷◌, ◌++◌, some, length, leb, ok, wrapping_sub,
  wrapping_add, arith, length-append, Bool-cases, inl, inr,
}
use arbitro_kit.Cells.{IsCap, slot_index, slot_index-ahead, IsCap-bounds, write_cell-IsWindow}
use arbitro_kit.Waiter.{Waiter}
use arbitro_kit.Ring.Types.{Ring, Producer, Consumer}
use arbitro_kit.Ring.Tx.{publish, try_send, should_notify_consumer}
use arbitro_kit.Ring.Queue.{Queue, push, push-room, push-full, Represents}

module _ {A W : Type 0} ⦃w : Waiter W⦄ {cap : ℕ} (ok_cap : IsCap cap) where
  pub publish-Represents :
      {p : Producer} {c : Consumer} {r : Ring A W} {q : Queue A} (v : A)
      → Represents cap p c r q
      → wrapping_sub r.head p.cached_tail < cap
      → (r' : Ring A W) × (publish cap p r v ≡ some (ok tt, p, r'))
        × Represents cap p c r' (record q { items = q.items ++ (v ∷ []) })
  unfolding publish
  publish-Represents {p} {c} {r} {q} v rep free =
      let (slots, e, win) =
        write_cell-IsWindow (slot_index cap r.head) v rep.window (omega (arith, rep)) (
          slot_index-ahead ok_cap r.tail r.head (length q.items) rep.tail_fits rep.head_fits
            rep.count) in
      (
        record r { head = wrapping_add r.head 1; not_empty = w.wake r.not_empty; slots = slots },
        rw (e, ◌>>=◌),
        record {
          head_fits = omega arith;
          tail_fits = rep.tail_fits;
          cached_tail_fits = rep.cached_tail_fits;
          cached_head_fits = rep.cached_head_fits;
          count = omega (arith, rep, IsCap-bounds ok_cap, length-append q.items (v ∷ []));
          behind = omega (arith, rep, IsCap-bounds ok_cap, length-append q.items (v ∷ []));
          room = omega (arith, rep, IsCap-bounds ok_cap, length-append q.items (v ∷ []));
          seen = omega (arith, rep, IsCap-bounds ok_cap, length-append q.items (v ∷ []));
          same_closed = rep.same_closed;
          window = win;
        },
      )

  pub refresh :
      {p : Producer} {c : Consumer} {r : Ring A W} {q : Queue A}
      → Represents cap p c r q
      → Represents cap (record p { cached_tail = r.tail }) c r q
  refresh rep = record {
    head_fits = rep.head_fits;
    tail_fits = rep.tail_fits;
    cached_tail_fits = rep.tail_fits;
    cached_head_fits = rep.cached_head_fits;
    count = rep.count;
    behind = omega (arith, rep);
    room = omega (arith, rep);
    seen = rep.seen;
    same_closed = rep.same_closed;
    window = rep.window;
  }

  -- `should_notify_consumer` compares `n_pushed` with the items in the queue, and refreshes the cached cursor.
  pub should_notify_consumer-count :
      {p : Producer} {c : Consumer} {r : Ring A W} {q : Queue A} (n_pushed : ℕ)
      → Represents cap p c r q
      → ((should_notify_consumer cap p r n_pushed).0 ≡ (length q.items == n_pushed))
        × Represents cap (should_notify_consumer cap p r n_pushed).1 c r q
  unfolding should_notify_consumer
  should_notify_consumer-count n_pushed rep = (rw rep.count refl, refresh rep)

  -- Every call returns what `push` returns and leaves the ring standing for what `push` leaves: room
  -- takes the value, a full ring hands it back as `Full` or `Closed`.
  pub try_send-refines :
      {p : Producer} {c : Consumer} {r : Ring A W} {q : Queue A} (v : A)
      → Represents cap p c r q
      → (p' : Producer) × (r' : Ring A W) × (try_send cap p r v ≡ some ((push cap q v).0, p', r'))
        × Represents cap p' c r' (push cap q v).1
  unfolding try_send push
  try_send-refines {p} {c} {r} {q} v rep =
      elim (Bool-cases (leb cap (wrapping_sub r.head p.cached_tail))) [
        | inr fast ↦
            let (r', e, rep') = publish-Represents v rep (ground arith) in
            let room : length q.items < cap = ground (arith, rep.count) in
            (p, r', rw (push-room cap q v room, try_send, fast) e, rw (push-room cap q v room) rep')
        | inl stale ↦ elim (Bool-cases (leb cap (wrapping_sub r.head r.tail))) [
          | inr fresh ↦
              let (r', e, rep') = publish-Represents v (refresh rep) (ground arith) in
              let room : length q.items < cap = ground (arith, rep.count) in
              (
                record p { cached_tail = r.tail },
                r',
                rw (push-room cap q v room, try_send, stale, fresh) e,
                rw (push-room cap q v room) rep',
              )
          | inl f ↦
              let room : cap ≤ length q.items = ground (arith, rep.count) in
              (
                record p { cached_tail = r.tail },
                r,
                rw (push-full cap q v room, try_send, stale, f, rep.same_closed),
                rw (push-full cap q v room) (refresh rep),
              )
        ]
      ]
