-- ===== src/Mpmc/Grid.antt =====
-- What an Mpmc channel promises: for each shard and each producer a FIFO queue.
use arbitro_kit.Prelude.{
  ℕ, ◌+◌, ◌<◌, ◌≡◌, refl, List, [], ◌∷◌, ◌++◌, Option, none, some, leb, ◌==◌, ◌>>=◌, get_elem?, set,
  length, length-append, wrapping_sub, wrapping_add, word_mod, arith, All2, All2-get, All2-length,
  get_elem?-lt,
}
use arbitro_kit.Cells.{
  IsCap, IsCap-bounds, IsWindow, IsWindow-empty, slot_index, slot_index-mod, slot_index-ahead,
  mod-wrap, write_cell, write_cell-IsWindow, read_cell, read_cell-IsWindow,
}
use arbitro_kit.Mpmc.Types.{PRing, Shard, Inner, new_ring, is_full}

-- A ring stands for the queue `q`.
pub record Holds {A : Type 0} (cap : ℕ) (r : PRing A) (q : List A) : Type 0 where
  pub head_fits : r.head < word_mod
  pub tail_fits : r.tail < word_mod
  pub count : wrapping_sub r.head r.tail ≡ length q
  pub window : IsWindow cap r.slots r.tail q

-- A shard stands for one queue for each of `m` producers.
pub record HoldsRow {A W : Type 0} (cap m : ℕ) (shard : Shard A W) (row : List (List A))
    : Type 0 where
  pub rings : All2 (Holds cap) shard.rings row
  pub width : length row ≡ m

-- The channel stands for the grid, one row for each shard.
pub record Stands {A W : Type 0} (cap : ℕ) (inner : Inner A W) (grid : List (List (List A)))
    : Type 0 where
  pub rows : All2 (HoldsRow cap inner.m) inner.shards grid
  pub height : length grid ≡ inner.n
  pub m_waiters : length inner.producer_waiters ≡ inner.m
  pub some_shard : 0 < inner.n

-- The flags and counters, which no send or receive touches.
pub record Untouched {A W : Type 0} (inner inner' : Inner A W) : Type 0 where
  pub same_m : inner'.m ≡ inner.m
  pub same_n : inner'.n ≡ inner.n
  pub same_shutdown : inner'.shutdown ≡ inner.shutdown
  pub same_producers : inner'.live_producers ≡ inner.live_producers
  pub same_consumers : inner'.live_consumers ≡ inner.live_consumers

module _ {A : Type 0} where
  -- The queue of producer `i` at shard `s`.
  abbrev pub cell : List (List (List A)) → ℕ → ℕ → Option (List A)
  cell grid s i = get_elem? grid s >>= λ row. get_elem? row i

  abbrev pub put : List (List (List A)) → ℕ → ℕ → List A → List (List (List A))
  put grid s i q = elim (get_elem? grid s) [ none ↦ grid | some row ↦ set grid s (set row i q) ]

module _ {A : Type 0} {cap : ℕ} where
  pub is_full-Holds :
      {r : PRing A} {q : List A} → Holds cap r q → is_full cap r.head r.tail ≡ leb cap (length q)
  unfolding is_full
  is_full-Holds h = rw h.count

  pub Holds-push :
      (ok_cap : IsCap cap) {r : PRing A} {q : List A} (v : A)
      → Holds cap r q
      → length q < cap
      → (slots : List (Option A)) × (write_cell r.slots (slot_index cap r.head) v ≡ some slots)
        × Holds cap (record r { head = wrapping_add r.head 1; slots = slots }) (q ++ (v ∷ []))
  Holds-push ok_cap {r} {q} v h room =
      let (slots, e, win) =
        write_cell-IsWindow (slot_index cap r.head) v h.window room
          (slot_index-ahead ok_cap r.tail r.head (length q) h.tail_fits h.head_fits h.count) in
      (
        slots,
        e,
        record {
          head_fits = omega arith;
          tail_fits = h.tail_fits;
          count = omega (arith, h, IsCap-bounds ok_cap, length-append q (v ∷ []));
          window = win;
        },
      )

  pub Holds-pop :
      (ok_cap : IsCap cap) {r : PRing A} {v : A} {q : List A}
      → Holds cap r (v ∷ q)
      → (slots : List (Option A)) × (read_cell r.slots (slot_index cap r.tail) ≡ some (v, slots))
        × Holds cap (record r { tail = wrapping_add r.tail 1; slots = slots }) q
  Holds-pop ok_cap {r} {v} {q} h =
      let (slots, e, win) =
        read_cell-IsWindow (slot_index cap r.tail) (wrapping_add r.tail 1) h.window
          (slot_index-mod ok_cap r.tail) (mod-wrap ok_cap (r.tail + 1)) in
      (
        slots,
        e,
        record {
          head_fits = h.head_fits;
          tail_fits = omega arith;
          count = omega (arith, h, h.window.fits, IsCap-bounds ok_cap);
          window = win;
        },
      )

  -- A ring is empty exactly when its cursors meet.
  pub Holds-empty :
      {r : PRing A} {q : List A} → Holds cap r q → (r.tail == r.head) ≡ (length q == 0)
  Holds-empty h = ground (arith, h)

  pub Holds-new : IsCap cap → Holds cap (new_ring A cap) []
  unfolding new_ring
  Holds-new ok_cap = record {
    head_fits = omega arith;
    tail_fits = omega arith;
    count = refl;
    window = IsWindow-empty 0 (IsCap-bounds ok_cap).0;
  }

module _ {A W : Type 0} {cap : ℕ} where
  -- The ring of producer `i` at shard `s`, with its queue.
  pub Stands-get :
      {inner : Inner A W} {grid : List (List (List A))} (s i : ℕ)
      → Stands cap inner grid
      → s < inner.n
      → i < inner.m
      → (shard : Shard A W) × (row : List (List A)) × (r : PRing A) × (q : List A) × (get_elem?
            inner.shards s
          ≡ some shard)
        × (get_elem? grid s ≡ some row)
        × (get_elem? shard.rings i ≡ some r)
        × (get_elem? row i ≡ some q)
        × HoldsRow cap inner.m shard row
        × Holds cap r q
  Stands-get {inner} {grid} s i st hs hi =
      let (shard, e) = get_elem?-lt inner.shards s (
        omega
          (arith, hs, st.height, All2-length (HoldsRow cap inner.m) inner.shards grid st.rows)) in
      let (row, e', held) = All2-get (HoldsRow cap inner.m) inner.shards grid s st.rows e in
      let (r, f) =
        get_elem?-lt shard.rings i
          (omega (arith, hi, held.width, All2-length (Holds cap) shard.rings row held.rings)) in
      let (q, f', h) = All2-get (Holds cap) shard.rings row i held.rings f in
      (shard, row, r, q, e, e', f, f', held, h)
