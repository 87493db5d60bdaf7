-- ===== src/Mpsc/Batch.antt =====
-- `MpscConsumer::try_recv_batch` on a channel that stands for a list of queues.
use mathlib.Core.Path.{subst}
use mathlib.Core.List.{foldl, foldl-append}
use arbitro_kit.Prelude.{
  ℕ, zero, suc, ◌+◌, ◌-◌, ◌≤◌, ◌≡◌, refl, ap, sym, ◌∙◌, List, [], ◌∷◌, Option, some, length, arith,
  ◌==◌, if◌then◌else◌, Bool-cases, inl, inr, ltb, ◌>>=◌, length-append,
}
use arbitro_kit.Cells.{IsCap}
use arbitro_kit.Waiter.{Waiter, NoopWaiter, noop_waiter}
use arbitro_kit.Ring.Types.{Ring, Producer, Consumer}
use arbitro_kit.Ring.Rx
use arbitro_kit.Ring.Rx.{Call, returned, Drained, drained}
use arbitro_kit.Ring.Queue.{Queue, Represents}
use arbitro_kit.Ring.Feed.{feed-fold}
use arbitro_kit.Ring.Drain.{outcome, drain-refines}
use arbitro_kit.Mpsc.Types.{Lane, Mpsc}
use arbitro_kit.Mpsc.Rx.{pass, batch_loop, try_recv_batch}
use arbitro_kit.Mpsc.Queues.{all_items, emptied, emptied-counts}
use arbitro_kit.Mpsc.Lanes.{CarryAll, served, Stands}

-- The waiters after everything has been taken: each producer that had an item is woken.
unfoldable pub woken_all : {A W : Type 0} ⦃w : Waiter W⦄ → List (Queue A) → List W → List W
woken_all [] ws = ws
woken_all (q ∷ qs) [] = []
woken_all ⦃w⦄ (q ∷ qs) (x ∷ ws) = (if ltb 0 (length q.items) then w.wake x else x) ∷ woken_all qs ws

length-woken_all :
    {A W : Type 0} ⦃w : Waiter W⦄ (qs : List (Queue A)) (ws : List W)
    → length (woken_all qs ws) ≡ length ws
unfolding woken_all
length-woken_all [] ws = refl
length-woken_all (q ∷ qs) [] = refl
length-woken_all (q ∷ qs) (x ∷ ws) = ap suc (length-woken_all qs ws)

module _ {A : Type 0} {cap : ℕ} (ok_cap : IsCap cap) where
  -- A closure that always returns is given what a ring holds.
  drained-all :
      {S : Type 0} {p : Producer} {c : Consumer} {r : Ring A NoopWaiter} (q : Queue A)
      (g : S → A → S) (s : S)
      → Represents cap p c r q
      → (c' : Consumer) × (r' : Ring A NoopWaiter) × (Rx.drain cap c r (λ s' x. returned (g s' x)) s
          ≡ some (drained (length q.items) (foldl g s q.items), c', r'))
        × Represents cap p c' r' (record q { items = [] })
  drained-all {p} q g s rep =
      let (c', r', e, rep', seen) = drain-refines ok_cap q (λ s' x. returned (g s' x)) s rep in
      let fed = feed-fold g q.items s in
      let fresh : c'.cached_head ≡ r'.head = seen (foldl g s q.items) (ap (λ o. o.0) fed) in
      (
        c',
        r',
        e
            ∙ ap (λ o. some (outcome (length q.items - length o.1) o.0, c', r')) fed
            ∙ ap (λ n. some (drained n (foldl g s q.items), c', r')) (omega arith),
        subst (λ h. Represents cap p (record c' { cached_head = h }) r' (record q { items = [] }))
            (sym fresh)
            (subst
              (λ xs.
                Represents cap p (record c' { cached_head = r'.head }) r' (record q { items = xs }))
              (ap (λ o. o.1) fed) rep'),
      )

emptied-emptied : {A : Type 0} (qs : List (Queue A)) → emptied (emptied qs) ≡ emptied qs
unfolding emptied
emptied-emptied [] = refl
emptied-emptied (q ∷ qs) = ap (◌∷◌ (record q { items = [] })) (emptied-emptied qs)

module _ {A W : Type 0} ⦃w : Waiter W⦄ {cap : ℕ} (ok_cap : IsCap cap) where
  -- One pass serves every lane in turn.
  pass-all :
      {S : Type 0} (n : ℕ) (ls : List (Lane A)) (ws : List W) (qs : List (Queue A)) (g : S → A → S)
      (s : S)
      → CarryAll cap ls qs
      → length qs ≡ n
      → length ws ≡ n
      → (ls' : List (Lane A)) × (pass cap n ls ws (λ s' x. returned (g s' x)) s
          ≡ some (drained (length (all_items qs)) (foldl g s (all_items qs)), ls', woken_all qs ws))
        × CarryAll cap ls' (emptied qs)
  unfolding pass all_items emptied woken_all
  pass-all zero [] ws [] g s h e e' = ([], refl, tt)
  pass-all zero ls ws (q ∷ qs) g s h e e' = absurd (omega arith)
  pass-all zero (l ∷ ls) ws [] g s h e e' = elim h [ ]
  pass-all (suc n) ls ws [] g s h e e' = absurd (omega arith)
  pass-all (suc n) [] ws (q ∷ qs) g s h e e' = elim h [ ]
  pass-all (suc n) (l ∷ ls) [] (q ∷ qs) g s h e e' = absurd (omega arith)
  pass-all (suc n) (l ∷ ls) (x ∷ ws) (q ∷ qs) g s h e e' =
      let (c', r', e1, rep') = drained-all ok_cap q g s h.0.ring in
      let (ls', e2, h') =
        pass-all n ls ws qs g (foldl g s q.items) h.1 (omega arith) (omega arith) in
      (
        record l { ring_consumer = c'; shared = r' } ∷ ls',
        rw (
          e1,
          ◌>>=◌,
          e2,
          length-append q.items (all_items qs),
          foldl-append g s q.items (all_items qs),
        ),
        (served h.0 rep' refl, h'),
      )

  -- A round of the batch loop.
  round :
      {S : Type 0} (fuel : ℕ) (ch : Mpsc A W) (qs : List (Queue A)) (g : S → A → S) (s : S)
      (total : ℕ)
      → Stands cap ch qs
      → (ch' : Mpsc A W) × (batch_loop cap (suc fuel) ch (λ s' x. returned (g s' x)) s total ≡ (
          if length (all_items qs) == 0
          then some (drained total (foldl g s (all_items qs)), ch')
          else batch_loop cap fuel ch'
              (λ s' x. returned (g s' x))
              (foldl g s (all_items qs))
              (total + length (all_items qs))))
        × Stands cap ch' (emptied qs)
        × (ch'.inner
            ≡ record ch.inner { producer_waiters = woken_all qs ch.inner.producer_waiters })
  unfolding batch_loop
  round fuel ch qs g s total st =
      let (ls, e, h) =
        pass-all ch.inner.m ch.lanes ch.inner.producer_waiters qs g s st.carries st.m_queues
          st.m_waiters in
      let (n, k, _) = emptied-counts qs in
      (
        record {
          inner = record ch.inner { producer_waiters = woken_all qs ch.inner.producer_waiters };
          lanes = ls;
        },
        rw (e, ◌>>=◌),
        record {
          carries = h;
          m_queues = n ∙ st.m_queues;
          m_waiters = length-woken_all qs ch.inner.producer_waiters ∙ st.m_waiters;
          few = st.few;
          counted = st.counted ∙ sym k;
        },
        refl,
      )

  -- The pass that finds nothing ends the loop.
  second :
      {S : Type 0} (items : List A) (s : S) (n : ℕ) (g : S → A → S) (ch : Mpsc A W)
      (more : S → ℕ → Option (Drained S × Mpsc A W))
      → items ≡ []
      → (if length items == 0
          then some (drained (0 + n) (foldl g s items), ch)
          else more (foldl g s items) (0 + n + length items))
        ≡ some (drained n s, ch)
  second items s n g ch more e = rw e (ap (λ k. some (drained k s, ch)) (omega arith))

  -- `try_recv_batch` gives a closure that returns every item that is in the channel, lane by lane and in
  -- order within each, reports how many there were, and leaves all queues empty. Two passes are fuel
  -- enough, since the second finds nothing.
  pub try_recv_batch-collects :
      {S : Type 0} (passes : ℕ) (ch : Mpsc A W) (qs : List (Queue A)) (g : S → A → S) (s : S)
      → 2 ≤ passes
      → Stands cap ch qs
      → (ch' : Mpsc A W) × (try_recv_batch cap passes ch (λ s' x. returned (g s' x)) s
          ≡ some (drained (length (all_items qs)) (foldl g s (all_items qs)), ch'))
        × Stands cap ch' (emptied qs)
  unfolding try_recv_batch
  try_recv_batch-collects zero ch qs g s two st = absurd (omega arith)
  try_recv_batch-collects (suc zero) ch qs g s two st = absurd (omega arith)
  try_recv_batch-collects (suc (suc fuel)) ch qs g s two st =
      let (ch1, e1, st1, _) = round (suc fuel) ch qs g s 0 st in
      let (ch2, e2, st2, _) =
        round fuel ch1 (emptied qs) g (foldl g s (all_items qs)) (0 + length (all_items qs)) st1 in
      let (_, _, none_left) = emptied-counts qs in
      let twice : emptied (emptied qs) ≡ emptied qs = emptied-emptied qs in
      let finish =
        second (all_items (emptied qs)) (foldl g s (all_items qs)) (length (all_items qs)) g ch2
          (batch_loop cap fuel ch2 (λ s' x. returned (g s' x))) none_left in
      elim (Bool-cases (length (all_items qs) == 0)) [
        | inl nothing ↦ (
          ch1,
          e1
              ∙ rw nothing
                  (let zero_items : length (all_items qs) ≡ 0 = ground arith in rw zero_items),
          st1,
        )
        | inr something ↦ (ch2, e1 ∙ rw something (e2 ∙ finish), subst (Stands cap ch2) twice st2)
      ]
