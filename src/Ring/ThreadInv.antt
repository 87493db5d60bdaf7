-- ===== src/Ring/ThreadInv.antt =====
-- What holds in every state of the two threads of a ring.
use arbitro_kit.Prelude.{
  ℕ, ◌+◌, ◌%◌, ◌≤◌, ◌<◌, ◌≡◌, ◌≢◌, refl, sym, ◌∙◌, ◌⊎◌, Bool, true, false, List, [], ◌∷◌, ◌++◌,
  Option, some, length, length-append, append_assoc, word_mod, wrapping_add, wrapping_sub, arith,
}
use arbitro_kit.Cells.{
  IsCap, IsCap-bounds, IsWindow, IsWindow-empty, slot_index, slot_index-mod, slot_index-ahead,
  mod-wrap, write_cell, write_cell-IsWindow, read_cell, read_cell-IsWindow,
}
use arbitro_kit.Ring.Threads.{
  Tx, Rx, polling, found_closed, looked_again, told_closed, System, init, write_cursor, read_cursor,
  MayWrite, MayRead,
}

-- The consumer has seen that the ring is closed, so the producer has gone.
abbrev pub saw_closed : Rx → Bool
saw_closed found_closed = true
saw_closed looked_again = true
saw_closed told_closed = true
saw_closed _ = false

-- `unread` are the items that are published and in their slots.
pub record Inv {A : Type 0} (cap : ℕ) (s : System A) (unread : List A) : Type 0 where
  pub head_fits : s.head < word_mod
  pub tail_fits : s.tail < word_mod
  pub cached_tail_fits : s.cached_tail < word_mod
  pub cached_head_fits : s.cached_head < word_mod
  pub accounted : s.accepted ≡ s.delivered ++ unread
  pub count : wrapping_sub s.head s.tail ≡ length s.taken + length unread
  pub behind :
      wrapping_sub s.head s.cached_tail
      ≡ wrapping_sub s.tail s.cached_tail + (length s.taken + length unread)
  pub room : wrapping_sub s.head s.cached_tail + length s.written ≤ cap
  pub seen : wrapping_sub s.cached_head (read_cursor s) ≤ length unread
  pub window : IsWindow cap s.slots (read_cursor s) (unread ++ s.written)
  pub who_closed : s.closed ≡ true → (s.tx ≡ Tx.gone) ⊎ (s.rx ≡ Rx.gone)
  pub tx_done : s.tx ≡ Tx.gone → s.written ≡ []
  pub rx_done : s.rx ≢ polling → s.taken ≡ []
  pub saw : saw_closed s.rx ≡ true → s.tx ≡ Tx.gone
  pub last_look : s.rx ≡ looked_again → s.cached_head ≡ s.head
  pub told : s.rx ≡ told_closed → unread ≡ []

module _ {A : Type 0} {cap : ℕ} (ok_cap : IsCap cap) where
  pub init-Inv : Inv cap (init A cap) []
  init-Inv = record {
    head_fits = omega arith;
    tail_fits = omega arith;
    cached_tail_fits = omega arith;
    cached_head_fits = omega arith;
    accounted = refl;
    count = refl;
    behind = refl;
    room = omega arith;
    seen = omega arith;
    window = IsWindow-empty 0 (IsCap-bounds ok_cap).0;
    who_closed = λ e. cc;
    tx_done = λ e. refl;
    rx_done = λ e. refl;
    saw = λ e. cc;
    last_look = λ e. cc;
    told = λ e. cc;
  }

  -- The slot that the producer may write is the one behind the window.
  pub write_slot :
      (s : System A) (unread : List A)
      → Inv cap s unread
      → MayWrite cap s
      → (length (unread ++ s.written) < cap)
        × (slot_index cap (write_cursor s) ≡ (read_cursor s + length (unread ++ s.written)) % cap)
  write_slot s unread inv may =
      let n = length-append unread s.written in
      (
        omega (arith, inv, may, n),
        slot_index-ahead ok_cap (read_cursor s) (write_cursor s) (length (unread ++ s.written))
            (omega arith) (omega arith) (omega (arith, inv, may, n, IsCap-bounds ok_cap)),
      )

  -- A slot that the producer may write.
  pub write-Inv :
      (s : System A) (unread : List A) (v : A)
      → Inv cap s unread
      → MayWrite cap s
      → (slots : List (Option A)) × (write_cell s.slots (slot_index cap (write_cursor s)) v
          ≡ some slots)
        × Inv cap (record s { slots = slots; written = s.written ++ (v ∷ []) }) unread
  write-Inv s unread v inv may =
      let (fits, slot) = write_slot s unread inv may in
      let (slots, e, win) =
        write_cell-IsWindow (slot_index cap (write_cursor s)) v inv.window fits slot in
      (
        slots,
        e,
        record {
          head_fits = inv.head_fits;
          tail_fits = inv.tail_fits;
          cached_tail_fits = inv.cached_tail_fits;
          cached_head_fits = inv.cached_head_fits;
          accounted = inv.accounted;
          count = inv.count;
          behind = inv.behind;
          room = omega (arith, inv, may, length-append s.written (v ∷ []));
          seen = inv.seen;
          window = rw append_assoc at win;
          who_closed = inv.who_closed;
          tx_done = λ e. absurd (cc);
          rx_done = inv.rx_done;
          saw = inv.saw;
          last_look = inv.last_look;
          told = inv.told;
        },
      )

  -- A slot that the consumer may read.
  pub read-Inv :
      (s : System A) (unread : List A)
      → Inv cap s unread
      → MayRead s
      → (v : A) × (rest : List A) × (slots : List (Option A)) × (unread ≡ v ∷ rest)
        × (read_cell s.slots (slot_index cap (read_cursor s)) ≡ some (v, slots))
        × Inv cap
            (record s {
              slots = slots;
              taken = s.taken ++ (v ∷ []);
              delivered = s.delivered ++ (v ∷ []);
            })
            rest
  read-Inv s [] inv (polls, more) = absurd (more (omega (arith, inv)))
  read-Inv s (v ∷ rest) inv (polls, more) =
      let n = length-append s.taken (v ∷ []) in
      let ahead : wrapping_add s.tail (length (s.taken ++ (v ∷ [])))
          ≡ wrapping_add (read_cursor s) 1 =
        omega (arith, n) in
      let (slots, e, win) =
        read_cell-IsWindow (slot_index cap (read_cursor s)) (wrapping_add (read_cursor s) 1)
          inv.window (slot_index-mod ok_cap (read_cursor s))
          (mod-wrap ok_cap (read_cursor s + 1)) in
      (
        v,
        rest,
        slots,
        refl,
        e,
        record {
          head_fits = inv.head_fits;
          tail_fits = inv.tail_fits;
          cached_tail_fits = inv.cached_tail_fits;
          cached_head_fits = inv.cached_head_fits;
          accounted = inv.accounted ∙ sym (append_assoc s.delivered (v ∷ []) rest);
          count = omega (arith, inv, n);
          behind = omega (arith, inv, n);
          room = inv.room;
          seen = omega (arith, inv, n, more, IsCap-bounds ok_cap);
          window = rw ahead win;
          who_closed = inv.who_closed;
          tx_done = inv.tx_done;
          rx_done = λ e'. absurd (e' polls);
          saw = inv.saw;
          last_look = inv.last_look;
          told = λ e'. absurd (cc);
        },
      )
