-- ===== src/Mpmc/LastSend.antt =====
-- A send between the two looks that `MpmcConsumer::recv` takes, at the queues and at the counters.
use native.Mathlib.Nat.{mod-lt}
use mathlib.Core.List.{flatten}
use arbitro_kit.Prelude.{
  ℕ, zero, suc, ◌+◌, ◌%◌, ◌<◌, ◌≡◌, refl, ap, sym, ◌∙◌, inl, inr, true, false, List, [], ◌∷◌, none,
  some, ◌>>=◌, get_elem?, get_elem?-set_self, get_elem?-some_lt, set, length, arith, err, All2,
  unsome,
}
use arbitro_kit.Cells.{IsCap, IsCap-bounds}
use arbitro_kit.Waiter.{Waiter}
use arbitro_kit.Mpsc.Rx.{shutdown}
use arbitro_kit.Mpmc.Types.{
  Shard, Inner, Producer, is_terminal_for_consumer, is_terminal_for_producer,
}
use arbitro_kit.Mpmc.Tx.{try_send, drop_producer, wake_shards}
use arbitro_kit.Mpmc.Rx.{settle_recv, recv}
use arbitro_kit.Mpmc.Grid.{HoldsRow, Stands, cell, put}
use arbitro_kit.Mpmc.Rows.{first_item}
use arbitro_kit.Mpmc.Send.{at_round, try_send-Routes}
use arbitro_kit.Mpmc.Recv.{try_recv-serves}

first_item-empty :
    {A : Type 0} (row : List (List A)) → flatten row ≡ [] → first_item row ≡ (none, row)
unfolding first_item flatten
first_item-empty [] e = refl
first_item-empty ([] ∷ row) e = rw (first_item-empty row e)
first_item-empty ((v ∷ q) ∷ row) e = cc

empty_queue :
    {A : Type 0} (row : List (List A)) (i : ℕ) {q : List A}
    → flatten row ≡ []
    → get_elem? row i ≡ some q
    → q ≡ []
unfolding flatten
empty_queue [] i e f = cc
empty_queue ([] ∷ row) zero e f = sym (unsome f)
empty_queue ([] ∷ row) (suc i) e f = empty_queue row i e f
empty_queue ((v ∷ q) ∷ row) i e f = cc

put-row :
    {A : Type 0} (grid : List (List (List A))) (s i : ℕ) {row : List (List A)} (q : List A)
    → get_elem? grid s ≡ some row
    → put grid s i q ≡ set grid s (set row i q)
put-row grid s i q e = rw (e, put)

module _ {A W : Type 0} ⦃w : Waiter W⦄ where
  pub wake_shards-rows :
      (cap m : ℕ) (shards : List (Shard A W)) (grid : List (List (List A)))
      → All2 (HoldsRow cap m) shards grid
      → All2 (HoldsRow cap m) (wake_shards shards) grid
  wake_shards-rows cap m [] [] h = tt
  wake_shards-rows cap m [] (row ∷ grid) h = elim h [ ]
  wake_shards-rows cap m (shard ∷ shards) [] h = elim h [ ]
  wake_shards-rows cap m (shard ∷ shards) (row ∷ grid) h =
      (record { rings = h.0.rings; width = h.0.width }, wake_shards-rows cap m shards grid h.1)

  only_shard : (p : Producer) (inner : Inner A W) (k : ℕ) → inner.n ≡ 1 → at_round p inner k ≡ 0
  only_shard p inner k one =
      let low = mod-lt (p.cursor % inner.n + k) {m = inner.n} (omega (arith, one)) in
      omega (arith, one, low)

  -- The last producer's drop leaves the queues alone and makes the channel terminal for its consumers.
  pub drop_producer-last :
      {cap : ℕ} (inner : Inner A W) (grid : List (List (List A)))
      → Stands cap inner grid
      → inner.live_producers ≡ 1
      → Stands cap (drop_producer inner) grid
        × (is_terminal_for_consumer (drop_producer inner) ≡ true)
  unfolding drop_producer is_terminal_for_consumer
  drop_producer-last {cap} inner grid st last = (
    record {
      rows = rw last (wake_shards-rows cap inner.m inner.shards grid st.rows);
      height = st.height;
      m_waiters = st.m_waiters;
      some_shard = st.some_shard;
    },
    rw last (ground arith),
  )

  -- A producer that sends and then drops its handle.
  abbrev pub send_and_leave : ℕ → Producer → A → Inner A W → Inner A W
  send_and_leave cap p v inner = elim (try_send cap p inner v) [
    | none ↦ inner
    | some sent ↦ drop_producer sent.2
  ]

module _ {A W : Type 0} ⦃w : Waiter W⦄ {cap : ℕ} (ok_cap : IsCap cap) where
  -- The send, seen by the consumer of the only shard.
  send_and_leave-Stands :
      (p : Producer) (v : A) (inner : Inner A W) (grid : List (List (List A))) (row : List (List A))
      → Stands cap inner grid
      → inner.n ≡ 1
      → p.my_idx < inner.m
      → inner.live_producers ≡ 1
      → is_terminal_for_producer inner ≡ false
      → get_elem? grid 0 ≡ some row
      → flatten row ≡ []
      → (grid' : List (List (List A))) × Stands cap (send_and_leave cap p v inner) grid'
        × (is_terminal_for_consumer (send_and_leave cap p v inner) ≡ true)
        × (cell grid' 0 p.my_idx ≡ some (v ∷ []))
  send_and_leave-Stands p v inner grid row st one hi last running g bare =
      elim (try_send-Routes ok_cap p inner grid v st hi) [
        | inl (over, e) ↦ absurd (cc)
        | inr (_, inl (e, full)) ↦
            let (q, here, fits) = full 0 (omega arith) st.some_shard in
            let q0 : q ≡ [] =
              empty_queue row p.my_idx bare (rw (only_shard p inner 0 one, g, ◌>>=◌) at here) in
            absurd (omega (arith, IsCap-bounds ok_cap, fits, ap length q0))
        | inr (_, inr (j, q, x, inner', from, below, all, found, room, e, st', u, x1, x2)) ↦
            let here : at_round p inner j ≡ 0 = only_shard p inner j one in
            let q0 : q ≡ [] = empty_queue row p.my_idx bare (rw (here, g, ◌>>=◌) at found) in
            let hi' : p.my_idx < length row =
              get_elem?-some_lt row p.my_idx (rw (here, g, ◌>>=◌) at found) in
            let (left, over) = drop_producer-last inner' _ st' (u.same_producers ∙ last) in
            (
              set grid 0 (set row p.my_idx (v ∷ [])),
              rw (e, send_and_leave) (rw (here, q0, put-row grid 0 p.my_idx (v ∷ []) g) at left),
              rw (e, send_and_leave) over,
              rw
                  (
                    get_elem?-set_self grid 0 (set row p.my_idx (v ∷ []))
                        (get_elem?-some_lt grid 0 g),
                    ◌>>=◌,
                  )
                  (get_elem?-set_self row p.my_idx (v ∷ []) hi'),
            )
      ]

  -- `recv` looks at the queues and then at the counters, and does not look at the queues again: on a channel
  -- of one shard whose queues are empty, if between the two looks the last producer sends `v` and drops its
  -- handle, then `recv` returns `Shutdown`, while `v` stands in the queue of that producer.
  pub recv-LeavesLast :
      (p : Producer) (v : A) (inner : Inner A W) (grid : List (List (List A))) (row : List (List A))
      (env : Inner A W → Inner A W)
      (later : List ((Inner A W → Inner A W) × (Inner A W → Inner A W)))
      → Stands cap inner grid
      → inner.n ≡ 1
      → p.my_idx < inner.m
      → inner.live_producers ≡ 1
      → is_terminal_for_producer inner ≡ false
      → get_elem? grid 0 ≡ some row
      → flatten row ≡ []
      → (inner' : Inner A W) × (grid' : List (List (List A))) × (recv cap
            ((send_and_leave cap p v, env) ∷ later)
            0
            inner
          ≡ some (some (err shutdown), inner'))
        × Stands cap inner' grid'
        × (cell grid' 0 p.my_idx ≡ some (v ∷ []))
  unfolding recv settle_recv is_terminal_for_producer
  recv-LeavesLast p v inner grid row env later st one hi last running g bare =
      let (row', g', (inner1, e, st1, u, woken, _)) =
        try_recv-serves ok_cap 0 inner grid st (omega (arith, one)) in
      let same : row' ≡ row = unsome (sym g' ∙ g) in
      let none_found = first_item-empty row bare in
      let (grid', st', over, there) =
        send_and_leave-Stands p v inner1 (set grid 0 row) row (rw (same, none_found) at st1)
          (u.same_n ∙ one) (rw (u.same_m) hi) (u.same_producers ∙ last)
          (rw (u.same_shutdown, u.same_consumers) running)
          (get_elem?-set_self grid 0 row (get_elem?-some_lt grid 0 g)) bare in
      (
        send_and_leave cap p v inner1,
        grid',
        rw (e, same, none_found, ◌>>=◌, settle_recv, over),
        st',
        there,
      )
