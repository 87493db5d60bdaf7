-- ===== src/Ring/ThreadSafety.antt =====
-- The two threads of a ring in any interleaving: the slots, the items, closing and the drop.
use arbitro_kit.Prelude.{
  ℕ, suc, ◌≤◌, ◌≡◌, ◌≢◌, refl, sym, ap, ◌∙◌, ◌⊎◌, inl, inr, Bool, true, List, [], ◌∷◌, ◌++◌, Option,
  none, some, length, append-nil, length-append, get_elem?, arith, unsome,
}
use mathlib.Core.Path.{subst}
use arbitro_kit.Cells.{IsCap, IsWindow, IsWindow-behind, IsWindow-front, slot_index, slot_index-mod}
use arbitro_kit.Ring.Shared.{drop_loop}
use arbitro_kit.Ring.Teardown.{drop_loop-IsWindow}
use arbitro_kit.Ring.Threads.{
  Tx, Rx, polling, found_empty, found_closed, looked_again, told_closed, System, init, write_cursor,
  read_cursor, MayWrite, MayRead, Step, load_tail, write, publish, drop_tx, load_head, read,
  release, find_empty, answer_empty, load_closed, load_head_again, go_on, answer_closed, call_again,
  drop_rx, drop_told, Run, stay, step,
}
use arbitro_kit.Ring.ThreadInv.{Inv, saw_closed, init-Inv, write-Inv, read-Inv, write_slot}
use arbitro_kit.Ring.ThreadCursors.{publish-Inv, release-Inv, load_tail-Inv, load_head-Inv}

length-eq_zero : {A : Type 0} (xs : List A) → length xs ≡ 0 → xs ≡ []
length-eq_zero [] e = refl
length-eq_zero (x ∷ xs) e = absurd (omega arith)

module _ {A : Type 0} {cap : ℕ} (ok_cap : IsCap cap) where
  -- A thread moves on without an access to the cursors.
  move-Inv :
      (s : System A) (unread : List A) (closed : Bool) (tx : Tx) (rx : Rx)
      → Inv cap s unread
      → (closed ≡ true → (tx ≡ Tx.gone) ⊎ (rx ≡ Rx.gone))
      → (tx ≡ Tx.gone → s.written ≡ [])
      → (rx ≢ polling → s.taken ≡ [])
      → (saw_closed rx ≡ true → tx ≡ Tx.gone)
      → (rx ≡ looked_again → s.cached_head ≡ s.head)
      → (rx ≡ told_closed → unread ≡ [])
      → Inv cap (record s { closed = closed; tx = tx; rx = rx }) unread
  move-Inv s unread closed tx rx inv who tx_done rx_done saw last told = record {
    head_fits = inv.head_fits;
    tail_fits = inv.tail_fits;
    cached_tail_fits = inv.cached_tail_fits;
    cached_head_fits = inv.cached_head_fits;
    accounted = inv.accounted;
    count = inv.count;
    behind = inv.behind;
    room = inv.room;
    seen = inv.seen;
    window = inv.window;
    who_closed = who;
    tx_done = tx_done;
    rx_done = rx_done;
    saw = saw;
    last_look = last;
    told = told;
  }

  -- While the consumer is there, a closed ring has lost its producer.
  tx_gone :
      (s : System A) (unread : List A)
      → Inv cap s unread
      → s.closed ≡ true
      → s.rx ≢ Rx.gone
      → s.tx ≡ Tx.gone
  tx_gone s unread inv e here = elim (inv.who_closed e) [ inl g ↦ g | inr g ↦ absurd (here g) ]

  -- The consumer goes back to polling.
  poll-Inv :
      (s : System A) (unread : List A)
      → Inv cap s unread
      → s.rx ≢ Rx.gone
      → Inv cap (record s { rx = polling }) unread
  poll-Inv s unread inv here =
      move-Inv s unread s.closed s.tx polling inv (λ c. inl (tx_gone s unread inv c here))
        inv.tx_done (λ g. absurd (g refl)) (λ g. cc) (λ g. cc) (λ g. cc)

  Next : System A → Type 0
  Next t = (unread : List A) × Inv cap t unread

  Step-Inv : {s t : System A} (unread : List A) → Step cap s t → Inv cap s unread → Next t
  unfolding Next
  Step-Inv {s} unread (load_tail t e e' f fits older) inv =
      (unread, load_tail-Inv ok_cap s unread t inv fits older)
  Step-Inv {s} unread (write v slots may e) inv =
      let (slots', e', inv') = write-Inv ok_cap s unread v inv may in
      let same : slots' ≡ slots = unsome (sym e' ∙ e) in
      (
        unread,
        subst (λ x. Inv cap (record s { slots = x; written = s.written ++ (v ∷ []) }) unread) same
            inv',
      )
  Step-Inv {s} unread (publish e) inv = (unread ++ s.written, publish-Inv ok_cap s unread inv e)
  Step-Inv {s} unread (drop_tx e none_left) inv = (
    unread,
    move-Inv s unread true Tx.gone s.rx inv (λ g. inl refl) (λ g. none_left) inv.rx_done (λ g. refl)
        inv.last_look inv.told,
  )
  Step-Inv {s} unread (load_head h e none_taken fits older) inv = (
    unread,
    load_head-Inv ok_cap s unread h s.rx inv none_taken fits older inv.saw (λ g. cc) (λ g. cc)
        (λ g. cc) (λ g. cc),
  )
  Step-Inv {s} unread (read v slots may e) inv =
      let (v', rest, slots', _, e', inv') = read-Inv ok_cap s unread inv may in
      (
        rest,
        subst
            (λ o.
              Inv cap
                (record s {
                  slots = o.1;
                  taken = s.taken ++ (o.0 ∷ []);
                  delivered = s.delivered ++ (o.0 ∷ []);
                })
                rest)
            (unsome (sym e' ∙ e)) inv',
      )
  Step-Inv {s} unread (release e) inv = (unread, release-Inv ok_cap s unread inv e)
  Step-Inv {s} unread (find_empty e none_taken same) inv = (
    unread,
    move-Inv s unread s.closed s.tx found_empty inv (λ c. inl (tx_gone s unread inv c (λ g. cc)))
        inv.tx_done (λ g. none_taken) (λ g. cc) (λ g. cc) (λ g. cc),
  )
  Step-Inv {s} unread (answer_empty e) inv = (unread, poll-Inv s unread inv (λ g. cc))
  Step-Inv {s} unread (load_closed e c) inv =
      let gone = tx_gone s unread inv c (λ g. cc) in
      (
        unread,
        move-Inv s unread s.closed s.tx found_closed inv (λ g. inl gone) inv.tx_done
            (λ g. inv.rx_done (λ z. cc)) (λ g. gone) (λ g. cc) (λ g. cc),
      )
  Step-Inv {s} unread (load_head_again e) inv = (
    unread,
    load_head-Inv ok_cap s unread s.head looked_again inv (inv.rx_done (λ z. cc)) inv.head_fits
        (omega (arith, inv)) (λ g. inv.saw (ap saw_closed e)) (λ g. refl) (λ g. cc) (λ g. cc)
        (λ g. cc),
  )
  Step-Inv {s} unread (go_on e more) inv = (unread, poll-Inv s unread inv (λ g. cc))
  Step-Inv {s} unread (answer_closed e same) inv =
      let none_taken = inv.rx_done (λ z. cc) in
      let none_left : unread ≡ [] =
        length-eq_zero unread (omega (arith, inv, inv.last_look e, same, ap length none_taken)) in
      (
        unread,
        move-Inv s unread s.closed s.tx told_closed inv
            (λ c. inl (tx_gone s unread inv c (λ g. cc))) inv.tx_done (λ g. none_taken)
            (λ g. inv.saw (ap saw_closed e)) (λ g. cc) (λ g. none_left),
      )
  Step-Inv {s} unread (call_again e) inv = (unread, poll-Inv s unread inv (λ g. cc))
  Step-Inv {s} unread (drop_rx e none_taken) inv = (
    unread,
    move-Inv s unread true s.tx Rx.gone inv (λ g. inr refl) inv.tx_done (λ g. none_taken) (λ g. cc)
        (λ g. cc) (λ g. cc),
  )
  Step-Inv {s} unread (drop_told e) inv = (
    unread,
    move-Inv s unread true s.tx Rx.gone inv (λ g. inr refl) inv.tx_done (λ g. inv.rx_done (λ z. cc))
        (λ g. cc) (λ g. cc) (λ g. cc),
  )

  Run-Inv : {s t : System A} (unread : List A) → Run cap s t → Inv cap s unread → Next t
  unfolding Next
  Run-Inv unread stay inv = (unread, inv)
  Run-Inv unread (step st run) inv =
      let (unread', inv') = Step-Inv unread st inv in Run-Inv unread' run inv'

  -- From a new ring, its capacity a power of two, in every state that the two threads can reach: what has been
  -- accepted is what has been delivered and, behind it, at most `cap` items that are not yet read; a slot that
  -- the producer is about to write is there and holds nothing; and a slot that the consumer is about to read
  -- holds the next of these items.
  pub threads_safe :
      {s : System A}
      → Run cap (init A cap) s
      → (unread : List A) × (s.accepted ≡ s.delivered ++ unread)
        × (length unread ≤ cap)
        × (MayWrite cap s → get_elem? s.slots (slot_index cap (write_cursor s)) ≡ some none)
        × (MayRead s
            → (v : A) × (rest : List A) × (unread ≡ v ∷ rest)
              × (get_elem? s.slots (slot_index cap (read_cursor s)) ≡ some (some v)))
  unfolding Next
  threads_safe {s} run =
      let (unread, inv) = Run-Inv [] run (init-Inv ok_cap) in
      (
        unread,
        inv.accounted,
        omega (arith, inv, length-append unread s.written),
        (λ may.
            let (fits, slot) = write_slot ok_cap s unread inv may in
            rw slot (IsWindow-behind inv.window fits)),
        (λ may.
            let (v, rest, _, same, _, _) = read-Inv ok_cap s unread inv may in
            (
              v,
              rest,
              same,
              rw (slot_index-mod ok_cap (read_cursor s)) (IsWindow-front (rw same at inv.window)),
            )),
      )

  -- From a new ring, its capacity a power of two, `try_recv` has answered `Closed` only if the producer has gone
  -- and everything that it sent has been delivered.
  pub closed_means_drained :
      {s : System A}
      → Run cap (init A cap) s
      → s.rx ≡ told_closed
      → (s.tx ≡ Tx.gone) × (s.accepted ≡ s.delivered)
  unfolding Next
  closed_means_drained {s} run told =
      let (unread, inv) = Run-Inv [] run (init-Inv ok_cap) in
      (inv.saw (ap saw_closed told), inv.accounted ∙ rw (inv.told told) (append-nil s.delivered))

  -- From a new ring, its capacity a power of two, once both handles are gone, the drop of the ring does not
  -- fault and drops just the items that were accepted and not delivered, in order.
  pub teardown_drops_rest :
      {s : System A}
      → Run cap (init A cap) s
      → s.tx ≡ Tx.gone
      → s.rx ≡ Rx.gone
      → (left : List A) × (slots : List (Option A)) × (drop_loop cap (suc cap) s.slots s.tail s.head
          ≡ some (left, slots))
        × (s.accepted ≡ s.delivered ++ left)
  unfolding Next
  teardown_drops_rest {s} run no_tx no_rx =
      let (unread, inv) = Run-Inv [] run (init-Inv ok_cap) in
      let none_written = inv.tx_done no_tx in
      let none_taken : s.taken ≡ [] = inv.rx_done (λ z. cc) in
      let at_tail : read_cursor s ≡ s.tail = omega (arith, ap length none_taken, inv.tail_fits) in
      let win : IsWindow cap s.slots s.tail unread =
        rw (at_tail, none_written, append-nil) at inv.window in
      let (slots, e, _) =
        drop_loop-IsWindow ok_cap (suc cap) s.slots s.tail s.head unread (omega (arith, win.fits))
          inv.tail_fits inv.head_fits (omega (arith, inv.count, ap length none_taken)) win in
      (unread, slots, e, inv.accounted)
