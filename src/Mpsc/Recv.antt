-- ===== src/Mpsc/Recv.antt =====
-- `MpscConsumer::try_recv` and `recv` on a channel that stands for a list of queues.
use mathlib.Core.Path.{subst}
use arbitro_kit.Prelude.{
  ℕ, zero, suc, ◌<◌, ◌≡◌, refl, ap, sym, ◌∙◌, Bool, true, List, [], ◌∷◌, Option, some, length,
  arith, inl, inr, ◌⊎◌, ◌>>=◌, Result, ok, err,
}
use arbitro_kit.Cells.{IsCap}
use arbitro_kit.Waiter.{Waiter, noop_waiter}
use arbitro_kit.Ring.Queue.{Queue, pop}
use arbitro_kit.Ring.Recv.{try_recv-refines}
use arbitro_kit.Mpsc.Types.{Inner, Lane, Mpsc}
use arbitro_kit.Mpsc.Rx.{Shutdown, shutdown, is_finished, scan, try_recv, settle_recv, recv}
use arbitro_kit.Mpsc.Queues.{take_first, all_items, take_first-finds, take_first-counts}
use arbitro_kit.Mpsc.Lanes.{Carries, CarryAll, served, Stands}
use arbitro_kit.Mpsc.Finish.{is_finished-means}

-- The waiters after one item has been taken: its producer is woken.
unfoldable pub woken_first : {A W : Type 0} ⦃w : Waiter W⦄ → List (Queue A) → List W → List W
woken_first [] ws = ws
woken_first (q ∷ qs) [] = []
woken_first ⦃w⦄ (q ∷ qs) (x ∷ ws) = elim q.items [
  | [] ↦ x ∷ woken_first qs ws
  | v ∷ rest ↦ w.wake x ∷ ws
]

length-woken_first :
    {A W : Type 0} ⦃w : Waiter W⦄ (qs : List (Queue A)) (ws : List W)
    → length (woken_first qs ws) ≡ length ws
unfolding woken_first
length-woken_first [] ws = refl
length-woken_first (q ∷ qs) [] = refl
length-woken_first {A = A} (q ∷ qs) (x ∷ ws) = by_items q.items (length-woken_first qs ws)
  where
    by_items :
        (xs : List A)
        → length (woken_first qs ws) ≡ length ws
        → length (woken_first (record q { items = xs } ∷ qs) (x ∷ ws)) ≡ suc (length ws)
    by_items [] h = ap suc h
    by_items (y ∷ ys) h = refl

module _ {A W : Type 0} ⦃w : Waiter W⦄ {cap : ℕ} (ok_cap : IsCap cap) where
  -- What `scan` does to lanes that stand for `qs`.
  abbrev Scans : ℕ → List (Lane A) → List W → List (Queue A) → Type 0
  Scans n ls ws qs =
      (ls' : List (Lane A)) × (scan cap n ls ws ≡ some ((take_first qs).0, ls', woken_first qs ws))
      × CarryAll cap ls' (take_first qs).1

  scan-cons :
      (n : ℕ) (l : Lane A) (ls : List (Lane A)) (x : W) (ws : List W) (qs : List (Queue A))
      (xs : List A) (b : Bool)
      → Carries cap l (record { items = xs; closed = b })
      → CarryAll cap ls qs
      → Scans n ls ws qs
      → Scans (suc n) (l ∷ ls) (x ∷ ws) (record { items = xs; closed = b } ∷ qs)
  unfolding scan take_first woken_first pop
  scan-cons n l ls x ws qs [] b carry h (ls', e, h') =
      let (c', r', e', rep') = try_recv-refines ok_cap _ carry.ring in
      (
        record l { ring_consumer = c'; shared = r' } ∷ ls',
        rw (e', ◌>>=◌, e),
        (served carry rep' refl, h'),
      )
  scan-cons n l ls x ws qs (v ∷ xs) b carry h (ls', e, h') =
      let (c', r', e', rep') = try_recv-refines ok_cap _ carry.ring in
      (
        record l { ring_consumer = c'; shared = r' } ∷ ls,
        rw (e', ◌>>=◌),
        (served carry rep' refl, h),
      )

  scan-Scans :
      (n : ℕ) (ls : List (Lane A)) (ws : List W) (qs : List (Queue A))
      → CarryAll cap ls qs
      → length qs ≡ n
      → length ws ≡ n
      → Scans n ls ws qs
  unfolding scan take_first woken_first
  scan-Scans zero [] ws [] h e e' = ([], refl, tt)
  scan-Scans zero ls ws (q ∷ qs) h e e' = absurd (omega arith)
  scan-Scans zero (l ∷ ls) ws [] h e e' = elim h [ ]
  scan-Scans (suc n) ls ws [] h e e' = absurd (omega arith)
  scan-Scans (suc n) [] ws (q ∷ qs) h e e' = elim h [ ]
  scan-Scans (suc n) (l ∷ ls) [] (q ∷ qs) h e e' = absurd (omega arith)
  scan-Scans (suc n) (l ∷ ls) (x ∷ ws) (q ∷ qs) h e e' =
      scan-cons n l ls x ws qs q.items q.closed h.0 h.1
        (scan-Scans n ls ws qs h.1 (omega arith) (omega arith))

  -- `try_recv` takes the oldest item of the first queue that has one and wakes its producer, and finds
  -- nothing only if all queues are empty. Nothing else of the channel changes.
  pub try_recv-takes :
      (ch : Mpsc A W) (qs : List (Queue A))
      → Stands cap ch qs
      → (ch' : Mpsc A W) × (try_recv cap ch ≡ some ((take_first qs).0, ch'))
        × Stands cap ch' (take_first qs).1
        × (ch'.inner
            ≡ record ch.inner { producer_waiters = woken_first qs ch.inner.producer_waiters })
  unfolding try_recv
  try_recv-takes ch qs st =
      let (ls, e, h) =
        scan-Scans ch.inner.m ch.lanes ch.inner.producer_waiters qs st.carries st.m_queues
          st.m_waiters in
      let (n, k) = take_first-counts qs in
      (
        record {
          inner = record ch.inner { producer_waiters = woken_first qs ch.inner.producer_waiters };
          lanes = ls;
        },
        rw (e, ◌>>=◌),
        record {
          carries = h;
          m_queues = n ∙ st.m_queues;
          m_waiters = length-woken_first qs ch.inner.producer_waiters ∙ st.m_waiters;
          few = st.few;
          counted = st.counted ∙ sym k;
        },
        refl,
      )

  -- How `recv` answers a channel that stands for `qs`.
  abbrev pub Answers : List (Queue A) → Option (Option (Result Shutdown A) × Mpsc A W) → Type 0
  Answers qs out =
      (ch' : Mpsc A W) × (((v : A) × (rest : List A) × (all_items qs ≡ v ∷ rest)
          × (out ≡ some (some (ok v), ch'))
          × Stands cap ch' (take_first qs).1)
        ⊎ ((all_items qs ≡ []) × (out ≡ some (some (err shutdown), ch')) × Stands cap ch' qs))

  attempt-Answers :
      (ch : Mpsc A W) (qs : List (Queue A))
      (wait : Mpsc A W → Option (Option (Result Shutdown A) × Mpsc A W))
      → Stands cap ch qs
      → (0 < length (all_items qs)) ⊎ (ch.inner.shutdown ≡ true) ⊎ (ch.inner.live_producers ≡ 0)
      → Answers qs (try_recv cap ch >>= settle_recv cap wait)
  unfolding settle_recv
  attempt-Answers ch qs wait st ready =
      let (ch', e, st', kept) = try_recv-takes ch qs st in
      elim (take_first-finds qs) [
        | inl (nothing, no_items, same) ↦
            let st2 : Stands cap ch' qs = subst (Stands cap ch') same st' in
            let flag : ch'.inner.shutdown ≡ ch.inner.shutdown =
              ap (λ (x : Inner W). x.shutdown) kept in
            let over : is_finished ch' ≡ true =
              is_finished-means ch' qs st2 ∙ ground (arith, ready, no_items, st.counted, flag) in
            (ch', inr (no_items, rw (e, ◌>>=◌, nothing, over), st2))
        | inr (v, rest, found, items, _) ↦ (ch', inl (v, rest, items, rw (e, ◌>>=◌, found), st'))
      ]

  -- With an item in some queue, or the channel finished, `recv` returns without waiting: the oldest item
  -- of the first queue that has one, and `Shutdown` only when no item is left.
  pub recv-Answers :
      (ch : Mpsc A W) (qs : List (Queue A)) (waits : List (Mpsc A W → Mpsc A W))
      → Stands cap ch qs
      → (0 < length (all_items qs)) ⊎ (ch.inner.shutdown ≡ true) ⊎ (ch.inner.live_producers ≡ 0)
      → Answers qs (recv cap waits ch)
  unfolding recv
  recv-Answers ch qs [] st ready = attempt-Answers ch qs _ st ready
  recv-Answers ch qs (env ∷ later) st ready = attempt-Answers ch qs _ st ready
