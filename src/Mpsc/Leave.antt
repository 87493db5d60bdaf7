-- ===== src/Mpsc/Leave.antt =====
-- The drop of a producer of a channel that stands for a list of queues.
use arbitro_kit.Prelude.{
  ℕ, ◌+◌, ◌<◌, ◌≡◌, refl, ◌∙◌, true, false, List, none, some, get_elem?, set, arith, ◌==◌,
  if◌then◌else◌, ◌>>=◌, length-set, wrapping_sub,
}
use arbitro_kit.Waiter.{Waiter, noop_waiter}
use arbitro_kit.Ring.Types.{Producer}
use arbitro_kit.Ring.Tx
use arbitro_kit.Ring.Shared.{close}
use arbitro_kit.Ring.Queue.{Queue}
use arbitro_kit.Ring.Basics.{close-Represents}
use arbitro_kit.Mpsc.Types.{Lane, Mpsc}
use arbitro_kit.Mpsc.Tx.{drop_producer}
use arbitro_kit.Mpsc.Queues.{open_count-set, open_count-le}
use arbitro_kit.Mpsc.Lanes.{CarryAll-get, CarryAll-set, Carries-live, gone-Carries, Stands}
use arbitro_kit.Mpsc.Send.{woken-if}

module _ {A W : Type 0} ⦃w : Waiter W⦄ {cap : ℕ} where
  -- Dropping a live producer closes its queue, leaves the other queues and all items alone, and counts it
  -- out; the last one to go wakes the consumer.
  pub drop_producer-closes :
      (ch : Mpsc A W) (qs : List (Queue A)) (i : ℕ) {lane : Lane A} {p : Producer}
      → Stands cap ch qs
      → get_elem? ch.lanes i ≡ some lane
      → lane.ring_producer ≡ some p
      → (q : Queue A) × (get_elem? qs i ≡ some q)
        × (q.closed ≡ false)
        × ((ch' : Mpsc A W) × (drop_producer cap ch i ≡ some ch')
            × Stands cap ch' (set qs i (record q { closed = true }))
            × (ch'.inner.live_producers + 1 ≡ ch.inner.live_producers)
            × (ch'.inner.fanin_waiter ≡ (
                if ch'.inner.live_producers == 0
                then w.wake ch.inner.fanin_waiter
                else ch.inner.fanin_waiter)))
  unfolding drop_producer Tx.drop_producer
  drop_producer-closes ch qs i {lane} {p} st at live =
      let (q, at', carry) = CarryAll-get ch.lanes qs i st.carries at in
      let (rep, opened) = Carries-live carry live in
      let sum = open_count-set qs i {q = q} (record q { closed = true }) at' in
      let one : 0 < ch.inner.live_producers = ground (arith, sum, opened, st.counted) in
      let some_left : wrapping_sub ch.inner.live_producers 1 + 1 ≡ ch.inner.live_producers =
        omega (arith, st.counted, st.few, st.m_queues, open_count-le qs) in
      let last : (ch.inner.live_producers == 1) ≡ (wrapping_sub ch.inner.live_producers 1 == 0) =
        ground arith in
      let x : W =
        if wrapping_sub ch.inner.live_producers 1 == 0
        then w.wake ch.inner.fanin_waiter
        else ch.inner.fanin_waiter in
      (
        q,
        at',
        opened,
        (
          record {
            inner = record ch.inner {
              live_producers = wrapping_sub ch.inner.live_producers 1;
              fanin_waiter = x;
            };
            lanes =
                set ch.lanes i (record lane { ring_producer = none; shared = close lane.shared });
          },
          rw (
            at,
            live,
            ◌>>=◌,
            last,
            woken-if (wrapping_sub ch.inner.live_producers 1 == 0)
                (record ch.inner { live_producers = wrapping_sub ch.inner.live_producers 1 }),
          ),
          record {
            carries =
                CarryAll-set ch.lanes qs i st.carries (gone-Carries (close-Represents rep) refl);
            m_queues = length-set qs i (record q { closed = true }) ∙ st.m_queues;
            m_waiters = st.m_waiters;
            few = st.few;
            counted = ground (arith, sum, opened, st.counted, some_left);
          },
          some_left,
          refl,
        ),
      )
