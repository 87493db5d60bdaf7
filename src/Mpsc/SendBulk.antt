-- ===== src/Mpsc/SendBulk.antt =====
-- `MpscProducer::try_send_bulk` on a channel that stands for a list of queues.
use arbitro_kit.Prelude.{
  ℕ, ◌<◌, ◌≡◌, refl, sym, true, false, List, [], ◌++◌, some, length, get_elem?, set, arith, ◌==◌,
  ◌||◌, if◌then◌else◌, Bool-cases, inl, inr, ◌>>=◌, append-nil, set-same,
}
use mathlib.Core.List.{reverse}
use arbitro_kit.Cells.{IsCap}
use arbitro_kit.Waiter.{Waiter, noop_waiter}
use arbitro_kit.Ring.Types.{Producer}
use arbitro_kit.Ring.Queue.{Queue}
use arbitro_kit.Ring.Bulk.{try_send_bulk-refines}
use arbitro_kit.Mpsc.Types.{Lane, Mpsc}
use arbitro_kit.Mpsc.Tx.{wake_fanin, transmit_bulk, try_send_bulk}
use arbitro_kit.Mpsc.Lanes.{CarryAll-get, Carries-live, live-Carries, Stands}
use arbitro_kit.Mpsc.Send.{set-Stands, woken-fanin, woken-some}

module _ {A W : Type 0} ⦃w : Waiter W⦄ {cap : ℕ} (ok_cap : IsCap cap) where
  -- A live producer's `try_send_bulk` moves items off the end of the vector to the end of its own queue,
  -- in the order in which they come off, and wakes the consumer if it moved any: none on a shut-down
  -- channel, and at least one if there is an item and room for it.
  pub try_send_bulk-appends :
      (ch : Mpsc A W) (qs : List (Queue A)) (i : ℕ) (items : List A) {lane : Lane A} {p : Producer}
      → Stands cap ch qs
      → get_elem? ch.lanes i ≡ some lane
      → lane.ring_producer ≡ some p
      → (q : Queue A) × (get_elem? qs i ≡ some q)
        × ((sent : List A) × (kept : List A) × (ch' : Mpsc A W) × (try_send_bulk cap ch i items
              ≡ some (length sent, kept, ch'))
            × (items ≡ kept ++ reverse sent)
            × (ch.inner.shutdown ≡ true → sent ≡ [])
            × (ch.inner.shutdown ≡ false
                → 0 < length items
                → length q.items < cap
                → 0 < length sent)
            × Stands cap ch' (set qs i (record q { items = q.items ++ sent }))
            × (ch'.inner ≡ (if length sent == 0 then ch.inner else wake_fanin ch.inner)))
  unfolding try_send_bulk transmit_bulk
  try_send_bulk-appends ch qs i items {lane} {p} st at live =
      let (q, at', carry) = CarryAll-get ch.lanes qs i st.carries at in
      let (rep, opened) = Carries-live carry live in
      (
        q,
        at',
        elim (Bool-cases ((length items == 0) || ch.inner.shutdown)) [
          | inl idle ↦ (
            [],
            items,
            ch,
            rw idle,
            sym (append-nil items),
            λ e. refl,
            λ e h l. absurd (ground arith),
            rw (append-nil, set-same qs i at') st,
            refl,
          )
          | inr busy ↦
              let (sent, kept, p', r', e, split, some_sent, rep') =
                try_send_bulk-refines ok_cap items rep in
              let x : W =
                if length sent == 0 then ch.inner.fanin_waiter else w.wake ch.inner.fanin_waiter in
              let fan = woken-fanin (length sent == 0) ch.inner in
              (
                sent,
                kept,
                record {
                  inner = record ch.inner { fanin_waiter = x };
                  lanes = set ch.lanes i (record lane { ring_producer = some p'; shared = r' });
                },
                rw (busy, at, live, ◌>>=◌, e, woken-some (length sent) ch.inner),
                split,
                λ h. absurd (ground arith),
                λ h. some_sent,
                set-Stands ok_cap i x st at' (live-Carries rep' opened) refl,
                sym fan,
              )
        ],
      )
