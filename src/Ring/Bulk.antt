-- ===== src/Ring/Bulk.antt =====
-- `Producer::try_send_bulk`: which items of the vector it takes, and where they end up.
use mathlib.Core.List.{reverse, reverse-cons}
use arbitro_kit.Prelude.{
  ℕ, zero, suc, ◌+◌, ◌-◌, ◌≤◌, ◌<◌, ◌≡◌, refl, ap, sym, ◌>>=◌, List, [], ◌∷◌, ◌++◌, append-nil,
  append_assoc, Option, some, length, length-append, ◌==◌, leb, min, word_mod, wrapping_sub,
  wrapping_add, arith, Bool-cases, inl, inr,
}
use arbitro_kit.Cells.{
  IsCap, IsWindow, IsCap-bounds, slot_index, slot_index-ahead, write_cell-IsWindow,
}
use arbitro_kit.Waiter.{Waiter}
use arbitro_kit.Ring.Types.{Ring, Producer, Consumer}
use arbitro_kit.Ring.Tx.{pop_last, bulk_loop, bulk_burst, try_send_bulk}
use arbitro_kit.Ring.Queue.{Queue, Represents}
use arbitro_kit.Ring.Send.{refresh}

pop_last-snoc :
    {A : Type 0} (xs : List A)
    → 0 < length xs
    → (v : A) × (rest : List A) × (pop_last xs ≡ some (v, rest)) × (xs ≡ rest ++ (v ∷ []))
unfolding pop_last
pop_last-snoc [] h = elim h [ ]
pop_last-snoc (x ∷ []) h = (x, [], refl, refl)
pop_last-snoc (x ∷ y ∷ ys) h =
    let (v, rest, e, e') = pop_last-snoc (y ∷ ys) (omega arith) in
    (v, x ∷ rest, rw (e, pop_last), ap (◌∷◌ x) e')

module _ {A : Type 0} {cap : ℕ} (ok_cap : IsCap cap) where
  -- After the loop: the vector was `kept` and, behind it, `sent` in reverse.
  record Burst (items : List A) (t : ℕ) (q : List A) (n : ℕ) (kept : List A)
      (slots : List (Option A)) (h : ℕ) : Type 0 where
    pub sent : List A
    pub split : items ≡ kept ++ reverse sent
    pub number : length sent ≡ n
    pub fits : h < word_mod
    pub ahead : wrapping_sub h t ≡ length q + n
    pub window : IsWindow cap slots t (q ++ sent)

  bulk_loop-Burst :
      (n : ℕ) (items : List A) (slots : List (Option A)) (t h : ℕ) (q : List A)
      → n ≤ length items
      → length q + n ≤ cap
      → t < word_mod
      → h < word_mod
      → wrapping_sub h t ≡ length q
      → IsWindow cap slots t q
      → (kept : List A) × (slots' : List (Option A)) × (h' : ℕ) × (bulk_loop cap n items slots h
          ≡ some (kept, slots', h'))
        × Burst items t q n kept slots' h'
  unfolding bulk_loop
  bulk_loop-Burst zero items slots t h q many room ht hh e win = (
    items,
    slots,
    h,
    refl,
    record {
      sent = [];
      split = sym (append-nil items);
      number = refl;
      fits = hh;
      ahead = omega arith;
      window = rw append-nil win;
    },
  )
  bulk_loop-Burst (suc n) items slots t h q many room ht hh e win =
      let (v, rest, e1, back) = pop_last-snoc items (omega arith) in
      let (slots', e2, win') =
        write_cell-IsWindow (slot_index cap h) v win (omega arith)
          (slot_index-ahead ok_cap t h (length q) ht hh e) in
      let (kept, slots'', h', e3, b) =
        bulk_loop-Burst n rest slots' t (wrapping_add h 1) (q ++ (v ∷ []))
          (omega (arith, ap length back, length-append rest (v ∷ [])))
          (omega (arith, length-append q (v ∷ []))) ht (omega arith)
          (omega (arith, length-append q (v ∷ []), IsCap-bounds ok_cap)) win' in
      (
        kept,
        slots'',
        h',
        rw (e1, ◌>>=◌, e2, ◌>>=◌) e3,
        record {
          sent = v ∷ b.sent;
          split = rw (reverse-cons v b.sent, ← append_assoc, ← b.split) back;
          number = omega (arith, b.number);
          fits = b.fits;
          ahead = omega (arith, b.ahead, length-append q (v ∷ []));
          window = rw append_assoc at b.window;
        },
      )

module _ {A W : Type 0} ⦃w : Waiter W⦄ {cap : ℕ} (ok_cap : IsCap cap) where
  -- What a bulk send from the vector `items` does to a ring that stands for `q`.
  Bulks : Option (ℕ × List A × Producer × Ring A W) → Consumer → Queue A → List A → Type 0
  Bulks out c q items =
      (sent : List A) × (kept : List A) × (p' : Producer) × (r' : Ring A W) × (out
        ≡ some (length sent, kept, p', r'))
      × (items ≡ kept ++ reverse sent)
      × (0 < length items → length q.items < cap → 0 < length sent)
      × Represents cap p' c r' (record q { items = q.items ++ sent })

  bulk_burst-none :
      {p : Producer} {c : Consumer} {r : Ring A W} {q : Queue A} (items : List A)
      → Represents cap p c r q
      → ((0 < length items) → length q.items < cap → ⊥)
      → Bulks (some (0, items, p, r)) c q items
  unfolding Bulks
  bulk_burst-none {p} {r = r} items rep idle =
      ([], items, p, r, refl, sym (append-nil items), λ h l. absurd (idle h l), rw append-nil rep)

  bulk_burst-Bulks :
      {p : Producer} {c : Consumer} {r : Ring A W} {q : Queue A} (items : List A) (used : ℕ)
      → Represents cap p c r q
      → used ≡ wrapping_sub r.head p.cached_tail
      → (cap ≤ used → cap ≤ length q.items)
      → Bulks (bulk_burst cap p r items used) c q items
  unfolding bulk_burst Bulks
  bulk_burst-Bulks {p} {c} {r} {q} items used rep e stuck = elim (Bool-cases (cap - used == 0)) [
    | inl none_free ↦
        rw none_free (bulk_burst-none items rep (λ h l. omega (arith, stuck (ground arith))))
    | inr room ↦
        let n : ℕ = min (length items) (cap - used) in
        let le : length q.items ≤ used = omega (arith, rep, e) in
        let (kept, slots, h, e1, b) =
          bulk_loop-Burst ok_cap n items r.slots r.tail r.head q.items (omega arith)
            (omega (arith, rep.room)) rep.tail_fits rep.head_fits rep.count rep.window in
        (
          b.sent,
          kept,
          p,
          record r { head = h; not_empty = w.wake r.not_empty; slots = slots },
          rw (room, e1, ◌>>=◌, b.number),
          b.split,
          λ h l. ground (arith, b.number),
          record {
            head_fits = b.fits;
            tail_fits = rep.tail_fits;
            cached_tail_fits = rep.cached_tail_fits;
            cached_head_fits = rep.cached_head_fits;
            count = omega (arith, b.ahead, b.number, length-append q.items b.sent);
            behind = omega (arith, rep, b, IsCap-bounds ok_cap, length-append q.items b.sent);
            room = omega (arith, rep, b, e, IsCap-bounds ok_cap);
            seen = omega (arith, rep.seen, length-append q.items b.sent);
            same_closed = rep.same_closed;
            window = b.window;
          },
        )
  ]

  -- A bulk send takes items off the end of the vector and appends them to the queue in the order in
  -- which they come off. It returns how many, keeps the rest of the vector as it was, and takes at
  -- least one if there is an item and room for it.
  pub try_send_bulk-refines :
      {p : Producer} {c : Consumer} {r : Ring A W} {q : Queue A} (items : List A)
      → Represents cap p c r q
      → (sent : List A) × (kept : List A) × (p' : Producer) × (r' : Ring A W) × (try_send_bulk cap p
            r items
          ≡ some (length sent, kept, p', r'))
        × (items ≡ kept ++ reverse sent)
        × (0 < length items → length q.items < cap → 0 < length sent)
        × Represents cap p' c r' (record q { items = q.items ++ sent })
  unfolding try_send_bulk Bulks
  try_send_bulk-refines [] rep = bulk_burst-none [] rep (λ h l. absurd (omega arith))
  try_send_bulk-refines {p} {c} {r} {q} (x ∷ xs) rep =
      elim (Bool-cases (leb cap (wrapping_sub r.head p.cached_tail))) [
        | inl stale ↦ rw stale (
            bulk_burst-Bulks (x ∷ xs) (wrapping_sub r.head r.tail) (refresh ok_cap rep) refl
              (λ h. omega (arith, rep.count)))
        | inr fast ↦ rw fast (
            bulk_burst-Bulks (x ∷ xs) (wrapping_sub r.head p.cached_tail) rep refl
              (λ h. absurd (ground arith)))
      ]
