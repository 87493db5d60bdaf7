-- ===== src/Ring/ThreadCursors.antt =====
-- The steps of Ring.Threads on the cursors keep what holds in every state.
use arbitro_kit.Prelude.{
  ℕ, ◌≤◌, ◌<◌, ◌≡◌, ◌≢◌, refl, ap, inl, inr, true, List, [], ◌++◌, length, length-append,
  append-nil, append_assoc, word_mod, wrapping_add, wrapping_sub, arith,
}
use arbitro_kit.Cells.{IsCap, IsCap-bounds}
use arbitro_kit.Ring.Threads.{
  Tx, working, Rx, polling, looked_again, told_closed, System, write_cursor, read_cursor,
}
use arbitro_kit.Ring.ThreadInv.{Inv, saw_closed}

module _ {A : Type 0} {cap : ℕ} (ok_cap : IsCap cap) where
  pub publish-Inv :
      (s : System A) (unread : List A)
      → Inv cap s unread
      → s.tx ≡ working
      → Inv cap
          (record s { head = write_cursor s; accepted = s.accepted ++ s.written; written = [] })
          (unread ++ s.written)
  publish-Inv s unread inv works =
      let n = length-append unread s.written in
      let small = IsCap-bounds ok_cap in
      record {
        head_fits = omega arith;
        tail_fits = inv.tail_fits;
        cached_tail_fits = inv.cached_tail_fits;
        cached_head_fits = inv.cached_head_fits;
        accounted = rw inv.accounted (append_assoc s.delivered unread s.written);
        count = omega (arith, inv, n, small);
        behind = omega (arith, inv, n, small);
        room = omega (arith, inv, n, small);
        seen = omega (arith, inv, n);
        window = rw append-nil inv.window;
        who_closed = inv.who_closed;
        tx_done = λ e. refl;
        rx_done = inv.rx_done;
        saw = inv.saw;
        last_look = λ e. absurd (let gone = inv.saw (ap saw_closed e) in cc);
        told = λ e. absurd (let gone = inv.saw (ap saw_closed e) in cc);
      }

  pub release-Inv :
      (s : System A) (unread : List A)
      → Inv cap s unread
      → s.rx ≡ polling
      → Inv cap (record s { tail = read_cursor s; taken = [] }) unread
  release-Inv s unread inv polls =
      let small = IsCap-bounds ok_cap in
      let same : wrapping_add (read_cursor s) 0 ≡ read_cursor s = omega arith in
      record {
        head_fits = inv.head_fits;
        tail_fits = omega arith;
        cached_tail_fits = inv.cached_tail_fits;
        cached_head_fits = inv.cached_head_fits;
        accounted = inv.accounted;
        count = omega (arith, inv, small);
        behind = omega (arith, inv, small);
        room = inv.room;
        seen = omega (arith, inv.seen, same);
        window = rw same inv.window;
        who_closed = inv.who_closed;
        tx_done = inv.tx_done;
        rx_done = λ e. refl;
        saw = inv.saw;
        last_look = λ e. absurd (cc);
        told = λ e. absurd (cc);
      }

  -- A load of the other side's cursor.
  pub load_tail-Inv :
      (s : System A) (unread : List A) (t : ℕ)
      → Inv cap s unread
      → t < word_mod
      → wrapping_sub s.tail t ≤ wrapping_sub s.tail s.cached_tail
      → Inv cap (record s { cached_tail = t }) unread
  load_tail-Inv s unread t inv fits older = record {
    head_fits = inv.head_fits;
    tail_fits = inv.tail_fits;
    cached_tail_fits = fits;
    cached_head_fits = inv.cached_head_fits;
    accounted = inv.accounted;
    count = inv.count;
    behind = omega (arith, inv, older, fits, IsCap-bounds ok_cap);
    room = omega (arith, inv, older, fits, IsCap-bounds ok_cap);
    seen = inv.seen;
    window = inv.window;
    who_closed = inv.who_closed;
    tx_done = inv.tx_done;
    rx_done = inv.rx_done;
    saw = inv.saw;
    last_look = inv.last_look;
    told = inv.told;
  }

  pub load_head-Inv :
      (s : System A) (unread : List A) (h : ℕ) (rx : Rx)
      → Inv cap s unread
      → s.taken ≡ []
      → h < word_mod
      → wrapping_sub s.head h ≤ wrapping_sub s.head s.cached_head
      → (saw_closed rx ≡ true → s.tx ≡ Tx.gone)
      → (rx ≡ looked_again → h ≡ s.head)
      → rx ≢ told_closed
      → rx ≢ Rx.gone
      → s.rx ≢ Rx.gone
      → Inv cap (record s { cached_head = h; rx = rx }) unread
  load_head-Inv s unread h rx inv none_taken fits older saw last other stays here = record {
    head_fits = inv.head_fits;
    tail_fits = inv.tail_fits;
    cached_tail_fits = inv.cached_tail_fits;
    cached_head_fits = fits;
    accounted = inv.accounted;
    count = inv.count;
    behind = inv.behind;
    room = inv.room;
    seen = omega (arith, inv, older, fits, ap length none_taken, IsCap-bounds ok_cap);
    window = inv.window;
    who_closed = λ e. elim (inv.who_closed e) [ inl g ↦ inl g | inr g ↦ absurd (here g) ];
    tx_done = inv.tx_done;
    rx_done = λ e. none_taken;
    saw = saw;
    last_look = last;
    told = λ e. absurd (other e);
  }
