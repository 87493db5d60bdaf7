-- ===== src/Ring/Drain.antt =====
-- `Consumer::drain`: the closure sees the items in order, and a panic in it loses none but the one it
-- was given.
use arbitro_kit.Prelude.{
  ℕ, zero, suc, ◌+◌, ◌-◌, ◌≤◌, ◌<◌, ◌≡◌, refl, ◌>>=◌, Bool, false, List, [], ◌∷◌, Option, some,
  length, ◌==◌, word_mod, wrapping_sub, wrapping_add, arith, Bool-cases, inl, inr,
}
use arbitro_kit.Cells.{
  IsCap, IsWindow, slot_index, slot_index-mod, mod-wrap, IsCap-bounds, read_cell,
  read_cell-IsWindow,
}
use arbitro_kit.Waiter.{Waiter}
use arbitro_kit.Ring.Types.{Ring, Producer, Consumer}
use arbitro_kit.Ring.Rx.{
  Call, returned, panicked, Drained, drained, unwound, drain_loop, finish_drain, drain,
}
use arbitro_kit.Ring.Feed.{feed, Call-cases, length-feed-le}
use arbitro_kit.Ring.Queue.{Queue, Represents}

-- What `drain` reports of a closure that was fed `n` items.
abbrev pub outcome : {S : Type 0} → ℕ → Call S → Drained S
outcome n (returned s) = drained n s
outcome n (panicked s) = unwound s

module _ {A : Type 0} {cap : ℕ} (ok_cap : IsCap cap) where
  record Drains (slots : List (Option A)) (t head : ℕ) (left : List A) : Type 0 where
    pub cursor_fits : t < word_mod
    pub left_over : wrapping_sub head t ≡ length left
    pub window : IsWindow cap slots t left

  -- One round: the front value leaves its cell, and the cursor moves past it.
  step_past :
      {slots : List (Option A)} {t head : ℕ} {x : A} {xs : List A}
      → Drains slots t head (x ∷ xs)
      → (slots' : List (Option A)) × (read_cell slots (slot_index cap t) ≡ some (x, slots'))
        × Drains slots' (wrapping_add t 1) head xs
  step_past {t} d =
      let (slots', e, win) =
        read_cell-IsWindow (slot_index cap t) (wrapping_add t 1) d.window (slot_index-mod ok_cap t)
          (mod-wrap ok_cap (t + 1)) in
      (
        slots',
        e,
        record {
          cursor_fits = omega arith;
          left_over = omega (arith, d, d.window.fits, IsCap-bounds ok_cap);
          window = win;
        },
      )

  drain_loop-feed :
      {S : Type 0} (f : S → A → Call S) (fuel : ℕ) (slots : List (Option A)) (t head : ℕ)
      (xs : List A) (s : S)
      → length xs < fuel
      → head < word_mod
      → Drains slots t head xs
      → (slots' : List (Option A)) × (t' : ℕ) × (drain_loop cap fuel slots t head f s
          ≡ some (slots', t', (feed f s xs).0))
        × Drains slots' t' head (feed f s xs).1
  unfolding drain_loop feed
  drain_loop-feed f zero slots t head xs s h hh d = elim h [ ]
  drain_loop-feed f (suc fuel) slots t head [] s h hh d = (slots, t, ground (arith, d), d)
  drain_loop-feed f (suc fuel) slots t head (x ∷ xs) s h hh d =
      let more : (t == head) ≡ false = ground (arith, d) in
      let (slots', e, d') = step_past d in
      elim (Call-cases (f s x)) [
        | inl (s', q) ↦
            let (slots'', t', e', d'') =
              drain_loop-feed f fuel slots' (wrapping_add t 1) head xs s' (omega arith) hh d' in
            (slots'', t', rw (more, e, ◌>>=◌, q, feed) e', rw (q, feed) d'')
        | inr (s', q) ↦ (slots', wrapping_add t 1, rw (more, e, ◌>>=◌, q, feed), rw (q, feed) d')
      ]

  start :
      {W : Type 0} {p : Producer} {c : Consumer} {r : Ring A W} {q : Queue A}
      → Represents cap p c r q
      → Drains r.slots r.tail r.head q.items
  start rep = record { cursor_fits = rep.tail_fits; left_over = rep.count; window = rep.window }

module _ {A W : Type 0} ⦃w : Waiter W⦄ {cap : ℕ} (ok_cap : IsCap cap) where
  -- The shared state after the loop: the items that the closure was not given are still in flight.
  drained-Represents :
      {p : Producer} {c : Consumer} {r : Ring A W} {q : Queue A} (left : List A)
      (slots : List (Option A)) (t : ℕ) (x : W)
      → Represents cap p c r q
      → Drains ok_cap slots t r.head left
      → length left ≤ length q.items
      → Represents cap p
          (record c { cached_head = r.head })
          (record r { tail = t; not_full = x; slots = slots })
          (record q { items = left })
  drained-Represents left slots t x rep d le = record {
    head_fits = rep.head_fits;
    tail_fits = d.cursor_fits;
    cached_tail_fits = rep.cached_tail_fits;
    cached_head_fits = rep.head_fits;
    count = d.left_over;
    behind = omega (arith, rep, d, IsCap-bounds ok_cap);
    room = rep.room;
    seen = omega (arith, d.left_over);
    same_closed = rep.same_closed;
    window = d.window;
  }

  -- What `drain` does to a ring that stands for `q`.
  DrainsAll :
      {S : Type 0} → Producer → Consumer → Ring A W → Queue A → (S → A → Call S) → S → Type 0
  DrainsAll {S} p c r q f s =
      (c' : Consumer) × (r' : Ring A W) × (drain cap c r f s
        ≡ some
            (outcome (length q.items - length (feed f s q.items).1) (feed f s q.items).0, c', r'))
      × Represents cap p (record c' { cached_head = r'.head }) r'
          (record q { items = (feed f s q.items).1 })
      × ((s' : S) → (feed f s q.items).0 ≡ returned s' → c'.cached_head ≡ r'.head)

  drain-idle :
      {S : Type 0} {p : Producer} {c : Consumer} {r : Ring A W} (xs : List A) (b : Bool)
      (f : S → A → Call S) (s : S)
      → Represents cap p c r (record { items = xs; closed = b })
      → r.tail ≡ r.head
      → DrainsAll p c r (record { items = xs; closed = b }) f s
  unfolding drain feed DrainsAll
  drain-idle {c} {r} [] b f s rep e = (
    c,
    r,
    ground arith,
    drained-Represents [] r.slots r.tail r.not_full rep (start ok_cap rep) (omega arith),
    λ s' h. omega (arith, rep),
  )
  drain-idle (x ∷ xs) b f s rep e = absurd (omega (arith, rep))

  -- A panic leaves the consumer as it was.
  pub drain-unwound :
      {S : Type 0} {p : Producer} {c : Consumer} {r : Ring A W} (q : Queue A) (f : S → A → Call S)
      (s s' : S)
      → Represents cap p c r q
      → (r.tail == r.head) ≡ false
      → (feed f s q.items).0 ≡ panicked s'
      → (r' : Ring A W) × (drain cap c r f s ≡ some (unwound s', c, r'))
        × Represents cap p
            (record c { cached_head = r'.head })
            r'
            (record q { items = (feed f s q.items).1 })
        × (r'.head ≡ r.head)
  unfolding drain finish_drain
  drain-unwound {c} {r} q f s s' rep busy fed =
      let (slots, t, e, d) =
        drain_loop-feed ok_cap f (suc cap) r.slots r.tail r.head q.items s
          (omega (arith, rep.window.fits)) rep.head_fits (start ok_cap rep) in
      (
        record r { tail = t; slots = slots },
        rw (busy, e, ◌>>=◌, fed, finish_drain),
        drained-Represents (feed f s q.items).1 slots t r.not_full rep d
            (length-feed-le f q.items s),
        refl,
      )

  drain-busy :
      {S : Type 0} {p : Producer} {c : Consumer} {r : Ring A W} (q : Queue A) (f : S → A → Call S)
      (s : S)
      → Represents cap p c r q
      → (r.tail == r.head) ≡ false
      → DrainsAll p c r q f s
  unfolding drain finish_drain DrainsAll
  drain-busy {S} {p} {c} {r} q f s rep busy =
      let (slots, t, e, d) =
        drain_loop-feed ok_cap f (suc cap) r.slots r.tail r.head q.items s
          (omega (arith, rep.window.fits)) rep.head_fits (start ok_cap rep) in
      let le = length-feed-le f q.items s in
      let n : wrapping_sub t r.tail ≡ length q.items - length (feed f s q.items).1 =
        omega (arith, rep, d, le, IsCap-bounds ok_cap) in
      elim (Call-cases (feed f s q.items).0) [
        | inl (s', fed) ↦ (
          record c { cached_head = r.head },
          record r { tail = t; not_full = w.wake r.not_full; slots = slots },
          rw (busy, e, ◌>>=◌, fed, finish_drain, n),
          drained-Represents (feed f s q.items).1 slots t (w.wake r.not_full) rep d le,
          λ s'' h. refl,
        )
        | inr (s', fed) ↦
            let (r', e', rep', h) = drain-unwound q f s s' rep busy fed in
            (c, r', rw fed e', rep', λ s'' g. absurd (cc))
      ]

  -- `drain` gives the items to the closure in order until it panics, and publishes that they are gone:
  -- the ring stands for the items that the closure was not given, also after a panic, when seen by a
  -- consumer that has looked at `head` again. A consumer whose `drain` returned has looked.
  pub drain-refines :
      {S : Type 0} {p : Producer} {c : Consumer} {r : Ring A W} (q : Queue A) (f : S → A → Call S)
      (s : S)
      → Represents cap p c r q
      → (c' : Consumer) × (r' : Ring A W) × (drain cap c r f s
          ≡ some
              (outcome (length q.items - length (feed f s q.items).1) (feed f s q.items).0, c', r'))
        × Represents cap p
            (record c' { cached_head = r'.head })
            r'
            (record q { items = (feed f s q.items).1 })
        × ((s' : S) → (feed f s q.items).0 ≡ returned s' → c'.cached_head ≡ r'.head)
  unfolding DrainsAll
  drain-refines {r} q f s rep = elim (Bool-cases (r.tail == r.head)) [
    | inl idle ↦ drain-idle q.items q.closed f s rep (ground arith)
    | inr busy ↦ drain-busy q f s rep busy
  ]
