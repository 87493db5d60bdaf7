-- ===== src/Mpmc/Send.antt =====
-- `MpmcProducer::try_send` and `try_send_batch` on a channel that stands for a grid of queues.
use mathlib.Core.Path.{subst}
use arbitro_kit.Prelude.{
  ℕ, zero, suc, ◌+◌, ◌%◌, ◌^◌, ◌≤◌, ◌<◌, ◌≡◌, refl, ◌∙◌, ◌⊎◌, inl, inr, true, false, List, [], ◌∷◌,
  ◌++◌, Option, some, leb, ◌>>=◌, get_elem?, set, length, get_elem?-set_self, get_elem?-some_lt,
  length-set, wrapping_add, arith, ok, err, All2-set, Bool-cases,
}
use native.Mathlib.Nat.{mod-lt}
use native.Mathlib.Decide.{ℕ_discrete}
use arbitro_kit.Cells.{IsCap}
use arbitro_kit.Waiter.{Waiter}
use arbitro_kit.Mpmc.Types.{PRing, Shard, Inner, Producer, is_terminal_for_producer}
use arbitro_kit.Mpmc.Tx.{publish, send_scan, try_send}
use arbitro_kit.Mpmc.Grid.{
  Holds, HoldsRow, Untouched, Stands, cell, put, is_full-Holds, Holds-push, Stands-get,
}

module _ {A W : Type 0} ⦃w : Waiter W⦄ {cap : ℕ} where
  pub publish-Stands :
      {inner : Inner A W} {grid : List (List (List A))} {shard : Shard A W} {row : List (List A)}
      (s i : ℕ) (r : PRing A) (q : List A)
      → Stands cap inner grid
      → get_elem? grid s ≡ some row
      → HoldsRow cap inner.m shard row
      → Holds cap r q
      → Stands cap (publish cap inner s shard i r) (put grid s i q)
  publish-Stands {inner} {grid} {shard} {row} s i r q st e held h =
      rw (e, put)
        (record {
          rows = All2-set (HoldsRow cap inner.m) inner.shards grid s st.rows (record {
            rings = All2-set (Holds cap) shard.rings row i held.rings h;
            width = length-set row i q ∙ held.width;
          });
          height = length-set grid s (set row i q) ∙ st.height;
          m_waiters = st.m_waiters;
          some_shard = st.some_shard;
        })

-- The shard that the scan of producer `p` looks at in round `k`.
abbrev pub at_round : {A W : Type 0} → Producer → Inner A W → ℕ → ℕ
at_round p inner k = (p.cursor % inner.n + k) % inner.n

module _ {A W : Type 0} ⦃w : Waiter W⦄ {cap : ℕ} (ok_cap : IsCap cap) where
  -- Every queue of the producer is full, round by round from `k` on.
  abbrev pub AllFull : Producer → Inner A W → List (List (List A)) → ℕ → ℕ → Type 0
  AllFull p inner grid from to =
      (j : ℕ)
      → from ≤ j
      → j < to
      → (q : List A) × (cell grid (at_round p inner j) p.my_idx ≡ some q) × (cap ≤ length q)

  -- The waiter of the consumer of shard `s`.
  abbrev pub waiter_at : Inner A W → ℕ → Option W
  waiter_at inner s = get_elem? inner.shards s >>= λ shard. some shard.consumer_waiter

  -- What a scan from round `k` on returns: `refused` if all queues of the producer are full, and otherwise
  -- `sent` of the first round whose queue has room. That queue is `grown`, and its consumer is woken.
  abbrev pub Routes :
      {R : Type 0}
      → Producer
      → Inner A W
      → List (List (List A))
      → ℕ
      → R
      → (ℕ → List A → Inner A W → R)
      → (List A → List A)
      → Option R
      → Type 0
  Routes p inner grid k refused sent grown out =
      ((out ≡ some refused) × AllFull p inner grid k inner.n)
      ⊎ ((j : ℕ) × (q : List A) × (x : W) × (inner' : Inner A W) × (k ≤ j)
          × (j < inner.n)
          × AllFull p inner grid k j
          × (cell grid (at_round p inner j) p.my_idx ≡ some q)
          × (length q < cap)
          × (out ≡ some (sent j q inner'))
          × Stands cap inner' (put grid (at_round p inner j) p.my_idx (grown q))
          × Untouched inner inner'
          × (waiter_at inner (at_round p inner j) ≡ some x)
          × (waiter_at inner' (at_round p inner j) ≡ some (w.wake x)))

  -- One more full queue in front.
  AllFull-cons :
      (p : Producer) (inner : Inner A W) (grid : List (List (List A))) (k to : ℕ) (q : List A)
      → cell grid (at_round p inner k) p.my_idx ≡ some q
      → cap ≤ length q
      → AllFull p inner grid (k + 1) to
      → AllFull p inner grid k to
  AllFull-cons p inner grid k to q here full rest j from below = elim (ℕ_discrete k j) [
    | yes same ↦ (q, subst (λ x. cell grid (at_round p inner x) p.my_idx ≡ some q) same here, full)
    | no other ↦ rest j (omega arith) below
  ]

  pub later-Routes :
      {R : Type 0} (p : Producer) (inner : Inner A W) (grid : List (List (List A))) (k : ℕ)
      (refused : R) (sent : ℕ → List A → Inner A W → R) (grown : List A → List A) {out : Option R}
      (q : List A)
      → cell grid (at_round p inner k) p.my_idx ≡ some q
      → cap ≤ length q
      → Routes p inner grid (k + 1) refused sent grown out
      → Routes p inner grid k refused sent grown out
  later-Routes p inner grid k refused sent grown q here full (inl (e, all)) =
      inl (e, AllFull-cons p inner grid k inner.n q here full all)
  later-Routes p inner grid k refused sent grown q here full
        (inr (j, q', x, inner', from, below, all, at, room, e, st, u, x1, x2)) =
      inr (
        j,
        q',
        x,
        inner',
        omega arith,
        below,
        AllFull-cons p inner grid k j q here full all,
        at,
        room,
        e,
        st,
        u,
        x1,
        x2,
      )

  -- The round that finds room.
  pub found-Routes :
      {R : Type 0} (p : Producer) {inner : Inner A W} {grid : List (List (List A))}
      {shard : Shard A W} {row : List (List A)} {q : List A} (k : ℕ) (refused : R)
      (sent : ℕ → List A → Inner A W → R) (grown : List A → List A) (r : PRing A) {out : Option R}
      → Stands cap inner grid
      → k < inner.n
      → get_elem? inner.shards (at_round p inner k) ≡ some shard
      → get_elem? grid (at_round p inner k) ≡ some row
      → get_elem? row p.my_idx ≡ some q
      → HoldsRow cap inner.m shard row
      → Holds cap r (grown q)
      → length q < cap
      → out ≡ some (sent k q (publish cap inner (at_round p inner k) shard p.my_idx r))
      → Routes p inner grid k refused sent grown out
  found-Routes p {inner} {grid} {shard} {row} {q} k refused sent grown r st below e1 e2 f2 held h
        room e =
      let s : ℕ = at_round p inner k in
      inr (
        k,
        q,
        shard.consumer_waiter,
        publish cap inner s shard p.my_idx r,
        omega arith,
        below,
        λ j from to. absurd (omega arith),
        rw (e2, ◌>>=◌) f2,
        room,
        e,
        publish-Stands s p.my_idx r (grown q) st e2 held h,
        record {
          same_m = refl;
          same_n = refl;
          same_shutdown = refl;
          same_producers = refl;
          same_consumers = refl;
        },
        rw (e1, ◌>>=◌),
        rw (get_elem?-set_self inner.shards s _ (get_elem?-some_lt inner.shards s e1), ◌>>=◌),
      )

  send_scan-Routes :
      (left k : ℕ) (p : Producer) (inner : Inner A W) (grid : List (List (List A))) (v : A)
      → Stands cap inner grid
      → p.my_idx < inner.m
      → left + k ≡ inner.n
      → Routes p inner grid k
          (err v, p, inner)
          (λ j q inner'.
            (ok tt, record p { cursor = (at_round p inner j + 1) % inner.n % 2 ^ 32 }, inner'))
          (λ q. q ++ (v ∷ []))
          (send_scan cap left k p inner v)
  unfolding send_scan
  send_scan-Routes zero k p inner grid v st hi e = inl (refl, λ j from to. absurd (omega arith))
  send_scan-Routes (suc left) k p inner grid v st hi e =
      let s : ℕ = at_round p inner k in
      let (shard, row, r, q, e1, e2, f1, f2, held, h) =
        Stands-get s p.my_idx st (mod-lt (p.cursor % inner.n + k) {m = inner.n} st.some_shard) hi in
      elim (Bool-cases (leb cap (length q))) [
        | inl full ↦
            rw (e1, f1, ◌>>=◌, is_full-Holds h, full)
              (later-Routes p inner grid k _ _ _ q (rw (e2, ◌>>=◌) f2) (ground arith)
                (send_scan-Routes left (k + 1) p inner grid v st hi (omega arith)))
        | inr room ↦
            let (slots, we, h') = Holds-push ok_cap v h (ground arith) in
            found-Routes p k _ _ (λ x. x ++ (v ∷ []))
              (record r { head = wrapping_add r.head 1; slots = slots }) st (omega arith) e1 e2 f2
              held h' (ground arith) (rw (e1, f1, ◌>>=◌, is_full-Holds h, room, we))
      ]

  -- `try_send` hands the value back on a terminal channel, and if all queues of the producer are full.
  -- Otherwise it appends the value to the first queue with room, from the shard at the cursor on, leaves the
  -- other queues, the flags and the counters alone, moves the cursor past that shard and wakes its consumer.
  pub try_send-Routes :
      (p : Producer) (inner : Inner A W) (grid : List (List (List A))) (v : A)
      → Stands cap inner grid
      → p.my_idx < inner.m
      → ((is_terminal_for_producer inner ≡ true)
          × (try_send cap p inner v ≡ some (err v, p, inner)))
        ⊎ ((is_terminal_for_producer inner ≡ false)
            × Routes p inner grid 0
                (err v, p, inner)
                (λ j q inner'. (
                  ok tt,
                  record p { cursor = (at_round p inner j + 1) % inner.n % 2 ^ 32 },
                  inner',
                ))
                (λ q. q ++ (v ∷ []))
                (try_send cap p inner v))
  unfolding try_send
  try_send-Routes p inner grid v st hi = elim (Bool-cases (is_terminal_for_producer inner)) [
    | inl over ↦ inl (over, rw over)
    | inr running ↦
        inr (running, rw running (send_scan-Routes inner.n 0 p inner grid v st hi (omega arith)))
  ]
