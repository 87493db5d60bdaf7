-- ===== src/Mpmc/DrainRound.antt =====
-- One round of `MpmcConsumer::drain_all` over the rings of a shard.
use mathlib.Core.List.{flatten}
use arbitro_kit.Prelude.{
  ℕ, zero, suc, ◌+◌, ◌<◌, ◌≡◌, refl, ap, ◌∙◌, inl, inr, true, false, List, [], ◌∷◌, ◌++◌, Option,
  some, ◌==◌, ◌>>=◌, length, length-append, wrapping_add, arith, All2,
}
use arbitro_kit.Cells.{IsCap}
use arbitro_kit.Waiter.{Waiter}
use arbitro_kit.Ring.Rx.{Call, returned}
use arbitro_kit.Ring.Feed.{feed, Call-cases, feed-returned}
use arbitro_kit.Ring.Drain.{outcome}
use arbitro_kit.Mpmc.Types.{PRing}
use arbitro_kit.Mpmc.Rx.{ring_loop, drain_pass}
use arbitro_kit.Mpmc.Grid.{Holds, Holds-pop, Holds-empty}
use arbitro_kit.Mpmc.Rows.{feed_row}

module _ {A S : Type 0} {cap : ℕ} (ok_cap : IsCap cap) (f : S → A → Call S) where
  -- What the inner loop does to a ring that stands for `xs`.
  LoopFeeds : PRing A → List A → ℕ → ℕ → S → Type 0
  LoopFeeds r xs fuel count s =
      (slots : List (Option A)) × (t : ℕ) × (count' : ℕ) × (ring_loop cap fuel r.slots r.tail r.head
          f s count
        ≡ some (slots, t, count', (feed f s xs).0))
      × Holds cap (record r { tail = t; slots = slots }) (feed f s xs).1
      × ((s' : S) → (feed f s xs).0 ≡ returned s' → count' ≡ count + length xs)

  ring_loop-feeds :
      (fuel : ℕ) (r : PRing A) (xs : List A) (count : ℕ) (s : S)
      → length xs < fuel
      → Holds cap r xs
      → LoopFeeds r xs fuel count s
  unfolding ring_loop feed LoopFeeds
  ring_loop-feeds zero r xs count s h d = elim h [ ]
  ring_loop-feeds (suc fuel) r [] count s h d =
      let bare : (r.tail == r.head) ≡ true = Holds-empty d in
      (r.slots, r.tail, count, rw bare, d, λ s' e. omega arith)
  ring_loop-feeds (suc fuel) r (x ∷ xs) count s h d =
      let busy : (r.tail == r.head) ≡ false = Holds-empty d ∙ ground arith in
      let (slots, got, d') = Holds-pop ok_cap d in
      elim (Call-cases (f s x)) [
        | inl (s', q) ↦
            let (slots', t, count', e, d'', n) =
              ring_loop-feeds fuel (record r { tail = wrapping_add r.tail 1; slots = slots }) xs
                (count + 1) s' (omega arith) d' in
            (
              slots',
              t,
              count',
              rw (busy, got, ◌>>=◌, q, feed) e,
              rw (q, feed) d'',
              λ s'' e'. omega (arith, n s'' (rw (q, feed) at e')),
            )
        | inr (s', q) ↦ (
          slots,
          wrapping_add r.tail 1,
          count,
          rw (busy, got, ◌>>=◌, q, feed),
          rw (q, feed) d',
          λ s'' e'. absurd (cc (rw (q, feed) at e')),
        )
      ]

  -- What a round does to rings that stand for `row`.
  unfoldable pub PassFeeds :
      {W : Type 0} ⦃w : Waiter W⦄ → ℕ → List (PRing A) → List W → List (List A) → S → Type 0
  PassFeeds {W} n rs ws row s =
      (rs' : List (PRing A)) × (ws' : List W) × (drain_pass cap n rs ws f s
        ≡ some (outcome (length (flatten row)) (feed_row f s row).0, rs', ws'))
      × All2 (Holds cap) rs' (feed_row f s row).1
      × (length ws' ≡ n)

  drain_pass-busy :
      {W : Type 0} ⦃w : Waiter W⦄ (n : ℕ) (r : PRing A) (rs : List (PRing A)) (x : W) (ws : List W)
      (q : List A) (row : List (List A)) (s : S)
      → ((s' : S) → PassFeeds n rs ws row s')
      → (r.tail == r.head) ≡ false
      → Holds cap r q
      → All2 (Holds cap) rs row
      → length ws ≡ n
      → PassFeeds (suc n) (r ∷ rs) (x ∷ ws) (q ∷ row) s
  unfolding drain_pass feed_row flatten PassFeeds LoopFeeds
  drain_pass-busy ⦃w⦄ n r rs x ws q row s later busy h hs e =
      let (slots, t, count, got, h', k) =
        ring_loop-feeds (suc cap) r q 0 s (omega (arith, h.window.fits)) h in
      let r' : PRing A = record r { tail = t; slots = slots } in
      elim (Call-cases (feed f s q).0) [
        | inl (s', fed) ↦
            let (rs', ws', out, h'', e'') = later s' in
            let total : length (q ++ flatten row) ≡ count + length (flatten row) =
              omega (arith, length-append q (flatten row), k s' fed) in
            elim (Call-cases (feed_row f s' row).0) [
              | inl (s'', rest) ↦ (
                r' ∷ rs',
                w.wake x ∷ ws',
                rw (busy, got, ◌>>=◌, fed, out, rest, feed_row, total),
                rw (feed_row, fed) (rw (feed-returned f q s fed) at h', h''),
                ap suc e'',
              )
              | inr (s'', rest) ↦ (
                r' ∷ rs',
                w.wake x ∷ ws',
                rw (busy, got, ◌>>=◌, fed, out, rest, feed_row),
                rw (feed_row, fed) (rw (feed-returned f q s fed) at h', h''),
                ap suc e'',
              )
            ]
        | inr (s', fed) ↦ (
          r' ∷ rs,
          x ∷ ws,
          rw (busy, got, ◌>>=◌, fed, feed_row),
          rw (feed_row, fed) (h', hs),
          ap suc e,
        )
      ]

  pub drain_pass-feeds :
      {W : Type 0} ⦃w : Waiter W⦄ (n : ℕ) (rs : List (PRing A)) (ws : List W) (row : List (List A))
      (s : S)
      → All2 (Holds cap) rs row
      → length row ≡ n
      → length ws ≡ n
      → PassFeeds n rs ws row s
  unfolding drain_pass feed_row flatten PassFeeds feed
  drain_pass-feeds zero [] [] [] s h e e' = ([], [], refl, tt, refl)
  drain_pass-feeds zero rs ws (q ∷ row) s h e e' = absurd (omega arith)
  drain_pass-feeds zero (r ∷ rs) ws [] s h e e' = elim h [ ]
  drain_pass-feeds zero [] (x ∷ ws) [] s h e e' = absurd (omega arith)
  drain_pass-feeds (suc n) rs ws [] s h e e' = absurd (omega arith)
  drain_pass-feeds (suc n) [] ws (q ∷ row) s h e e' = elim h [ ]
  drain_pass-feeds (suc n) (r ∷ rs) [] (q ∷ row) s h e e' = absurd (omega arith)
  drain_pass-feeds (suc n) (r ∷ rs) (x ∷ ws) ([] ∷ row) s h e e' =
      let (rs', ws', out, h', e'') =
        drain_pass-feeds n rs ws row s h.1 (omega arith) (omega arith) in
      let bare : (r.tail == r.head) ≡ true = Holds-empty h.0 in
      (r ∷ rs', x ∷ ws', rw (bare, out, ◌>>=◌), (h.0, h'), ap suc e'')
  drain_pass-feeds (suc n) (r ∷ rs) (x ∷ ws) ((v ∷ q) ∷ row) s h e e' =
      drain_pass-busy n r rs x ws (v ∷ q) row s
        (λ s'. drain_pass-feeds n rs ws row s' h.1 (omega arith) (omega arith))
        (Holds-empty h.0 ∙ ground arith) h.0 h.1 (omega arith)
