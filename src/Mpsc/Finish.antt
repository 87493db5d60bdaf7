-- ===== src/Mpsc/Finish.antt =====
-- When a channel is finished, and what `MpscShutdown::signal` does to it.
use arbitro_kit.Prelude.{
  ℕ, suc, ◌≡◌, refl, ap, ◌∙◌, Bool, true, false, not, List, [], ◌∷◌, some, length, map, ◌==◌, ◌||◌,
  ◌&&◌, err,
}
use arbitro_kit.Waiter.{Waiter, noop_waiter}
use arbitro_kit.Ring.Queue.{Queue}
use arbitro_kit.Mpsc.Types.{Mpsc, all_producers_gone, is_shutdown_signaled}
use arbitro_kit.Mpsc.Tx.{signal, try_send}
use arbitro_kit.Mpsc.Rx.{is_finished}
use arbitro_kit.Mpsc.Queues.{all_items, open_count}
use arbitro_kit.Mpsc.Lanes.{Stands, pending-all_items}

length-map_wake : {W : Type 0} ⦃w : Waiter W⦄ (ws : List W) → length (map w.wake ws) ≡ length ws
length-map_wake [] = refl
length-map_wake (x ∷ ws) = ap suc (length-map_wake ws)

not-not : {b : Bool} → not (not b) ≡ b
not-not {b = true} = refl
not-not {b = false} = refl

module _ {A W : Type 0} ⦃w : Waiter W⦄ {cap : ℕ} where
  -- `signal` shuts the channel down with everything still in its queues, wakes the consumer and every
  -- producer, and both sides see it: the consumer is finished and each `try_send` hands its value back.
  pub signal-stops :
      (ch : Mpsc A W) (qs : List (Queue A))
      → Stands cap ch qs
      → Stands cap (signal cap ch) qs
        × (is_finished (signal cap ch) ≡ true)
        × ((i : ℕ) (v : A) → try_send cap (signal cap ch) i v ≡ some (err v, signal cap ch))
        × ((signal cap ch).inner.fanin_waiter ≡ w.wake ch.inner.fanin_waiter)
        × ((signal cap ch).inner.producer_waiters ≡ map w.wake ch.inner.producer_waiters)
  unfolding signal is_finished is_shutdown_signaled try_send
  signal-stops ch qs st = (
    record {
      carries = st.carries;
      m_queues = st.m_queues;
      m_waiters = length-map_wake ch.inner.producer_waiters ∙ st.m_waiters;
      few = st.few;
      counted = st.counted;
    },
    refl,
    λ i v. refl,
    refl,
    refl,
  )

  -- `is_finished` holds exactly when the channel is shut down, or no producer is alive and no item is
  -- left.
  pub is_finished-means :
      (ch : Mpsc A W) (qs : List (Queue A))
      → Stands cap ch qs
      → is_finished ch
        ≡ (ch.inner.shutdown || ((open_count qs == 0) && (length (all_items qs) == 0)))
  unfolding is_finished is_shutdown_signaled all_producers_gone
  is_finished-means ch qs st =
      let (_, work) = pending-all_items cap ch.lanes qs st.carries in rw (work, not-not, st.counted)
