-- ===== src/Mpmc/Recv.antt =====
-- `MpmcConsumer::try_recv` on a channel that stands for a grid of queues, and what `recv` makes of it.
use mathlib.Core.List.{flatten}
use arbitro_kit.Prelude.{
  ℕ, zero, suc, ◌<◌, ◌≡◌, refl, ap, ◌∙◌, true, false, List, [], ◌∷◌, none, some, ◌==◌, ◌>>=◌,
  get_elem?, get_elem?-lt, set, length, length-set, wrapping_add, arith, All2, All2-get, All2-set,
  All2-length,
}
use arbitro_kit.Cells.{IsCap}
use arbitro_kit.Waiter.{Waiter}
use arbitro_kit.Mpmc.Types.{PRing, Shard, Inner}
use arbitro_kit.Mpmc.Rx.{recv_scan, try_recv, put_back}
use arbitro_kit.Mpmc.Grid.{Holds, HoldsRow, Untouched, Stands, Holds-pop, Holds-empty}
use arbitro_kit.Mpmc.Rows.{first_item, woken_first}

length-woken_first :
    {A W : Type 0} ⦃w : Waiter W⦄ (row : List (List A)) (ws : List W)
    → length (woken_first row ws) ≡ length ws
unfolding woken_first
length-woken_first [] ws = refl
length-woken_first (q ∷ row) [] = refl
length-woken_first ([] ∷ row) (x ∷ ws) = ap suc (length-woken_first row ws)
length-woken_first ((v ∷ q) ∷ row) (x ∷ ws) = refl

length-first_item : {A : Type 0} (row : List (List A)) → length (first_item row).1 ≡ length row
unfolding first_item
length-first_item [] = refl
length-first_item ([] ∷ row) = ap suc (length-first_item row)
length-first_item ((v ∷ q) ∷ row) = refl

first_item-none : {A : Type 0} (row : List (List A)) → (first_item row).0 ≡ none → flatten row ≡ []
unfolding first_item flatten
first_item-none [] e = refl
first_item-none ([] ∷ row) e = first_item-none row e
first_item-none ((v ∷ q) ∷ row) e = cc

module _ {A W : Type 0} {cap : ℕ} where
  -- A row and the producers' waiters replaced.
  pub put_back-Stands :
      ⦃w : Waiter W⦄ {inner : Inner A W} {grid : List (List (List A))} (s : ℕ) (shard : Shard A W)
      (rings : List (PRing A)) (row : List (List A)) (ws : List W)
      → Stands cap inner grid
      → All2 (Holds cap) rings row
      → length row ≡ inner.m
      → length ws ≡ inner.m
      → Stands cap (put_back cap inner s shard rings ws) (set grid s row)
  put_back-Stands {inner = inner} {grid = grid} s shard rings row ws st held n n' = record {
    rows =
        All2-set (HoldsRow cap inner.m) inner.shards grid s st.rows
          (record { rings = held; width = n });
    height = length-set grid s row ∙ st.height;
    m_waiters = n';
    some_shard = st.some_shard;
  }

  -- The row of a shard.
  pub Stands-row :
      {inner : Inner A W} {grid : List (List (List A))} (s : ℕ)
      → Stands cap inner grid
      → s < inner.n
      → (shard : Shard A W) × (row : List (List A)) × (get_elem? inner.shards s ≡ some shard)
        × (get_elem? grid s ≡ some row)
        × HoldsRow cap inner.m shard row
  Stands-row {inner} {grid} s st hs =
      let (shard, e) = get_elem?-lt inner.shards s (
        omega
          (arith, hs, st.height, All2-length (HoldsRow cap inner.m) inner.shards grid st.rows)) in
      let (row, e', held) = All2-get (HoldsRow cap inner.m) inner.shards grid s st.rows e in
      (shard, row, e, e', held)

module _ {A W : Type 0} ⦃w : Waiter W⦄ {cap : ℕ} (ok_cap : IsCap cap) where
  recv_scan-serves :
      (n : ℕ) (rs : List (PRing A)) (ws : List W) (row : List (List A))
      → All2 (Holds cap) rs row
      → length row ≡ n
      → length ws ≡ n
      → (rs' : List (PRing A)) × (recv_scan cap n rs ws
          ≡ some ((first_item row).0, rs', woken_first row ws))
        × All2 (Holds cap) rs' (first_item row).1
  unfolding recv_scan first_item woken_first
  recv_scan-serves zero [] [] [] h e e' = ([], refl, tt)
  recv_scan-serves zero rs ws (q ∷ row) h e e' = absurd (omega arith)
  recv_scan-serves zero (r ∷ rs) ws [] h e e' = elim h [ ]
  recv_scan-serves zero [] (x ∷ ws) [] h e e' = absurd (omega arith)
  recv_scan-serves (suc n) rs ws [] h e e' = absurd (omega arith)
  recv_scan-serves (suc n) [] ws (q ∷ row) h e e' = elim h [ ]
  recv_scan-serves (suc n) (r ∷ rs) [] (q ∷ row) h e e' = absurd (omega arith)
  recv_scan-serves (suc n) (r ∷ rs) (x ∷ ws) ([] ∷ row) h e e' =
      let (rs', got, h') = recv_scan-serves n rs ws row h.1 (omega arith) (omega arith) in
      let bare : (r.tail == r.head) ≡ true = Holds-empty h.0 in
      (r ∷ rs', rw (bare, got, ◌>>=◌), (h.0, h'))
  recv_scan-serves (suc n) (r ∷ rs) (x ∷ ws) ((v ∷ q) ∷ row) h e e' =
      let busy : (r.tail == r.head) ≡ false = Holds-empty h.0 ∙ ground arith in
      let (slots, got, h') = Holds-pop ok_cap h.0 in
      (
        record r { tail = wrapping_add r.tail 1; slots = slots } ∷ rs,
        rw (busy, got, ◌>>=◌),
        (h', h.1),
      )

  pub try_recv-serves :
      (s : ℕ) (inner : Inner A W) (grid : List (List (List A)))
      → Stands cap inner grid
      → s < inner.n
      → (row : List (List A)) × (get_elem? grid s ≡ some row)
        × ((inner' : Inner A W) × (try_recv cap s inner ≡ some ((first_item row).0, inner'))
            × Stands cap inner' (set grid s (first_item row).1)
            × Untouched inner inner'
            × (inner'.producer_waiters ≡ woken_first row inner.producer_waiters)
            × ((first_item row).0 ≡ none → flatten row ≡ []))
  unfolding try_recv
  try_recv-serves s inner grid st hs =
      let (shard, row, e, e', held) = Stands-row s st hs in
      let (rings, got, h) =
        recv_scan-serves inner.m shard.rings inner.producer_waiters row held.rings held.width
          st.m_waiters in
      (
        row,
        e',
        (
          put_back cap inner s shard rings (woken_first row inner.producer_waiters),
          rw (e, ◌>>=◌, got),
          put_back-Stands s shard rings (first_item row).1 _ st h
              (length-first_item row ∙ held.width)
              (length-woken_first row inner.producer_waiters ∙ st.m_waiters),
          record {
            same_m = refl;
            same_n = refl;
            same_shutdown = refl;
            same_producers = refl;
            same_consumers = refl;
          },
          refl,
          first_item-none row,
        ),
      )
