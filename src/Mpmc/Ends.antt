-- ===== src/Mpmc/Ends.antt =====
-- The two ends of an Mpmc channel's life: `Mpmc::new` and `MpmcInner::drop`.
use mathlib.Core.List.{flatten}
use native.Mathlib.Nat.{mod-lt}
use arbitro_kit.Prelude.{
  ℕ, zero, suc, ◌+◌, ◌≤◌, ◌<◌, ◌≡◌, refl, ap, ◌⊎◌, inl, inr, true, false, List, [], ◌∷◌, none, some,
  ◌&&◌, leb, ltb, ◌%◌, ◌^◌, ◌>>=◌, get_elem?, map, length, length-replicate, replicate, arith, All2,
  All2-replicate, Bool-cases,
}
use arbitro_kit.Cells.{
  IsCap, is_power_of_two, is_power_of_two-IsCap, IsCap-is_power_of_two, IsCap-bounds,
}
use arbitro_kit.Waiter.{Waiter}
use arbitro_kit.Ring.Teardown.{drop_loop-IsWindow}
use arbitro_kit.Mpmc.Types.{
  PRing, Shard, Inner, Producer, fresh_inner, new_inner, handles, new, max_mpmc_producers,
}
use arbitro_kit.Mpmc.Rx.{drop_rings, drop_shards}
use arbitro_kit.Mpmc.Grid.{Holds, HoldsRow, Stands, Holds-new}

module _ {A : Type 0} {cap : ℕ} (ok_cap : IsCap cap) where
  drop_rings-flatten :
      (rs : List (PRing A)) (row : List (List A))
      → All2 (Holds cap) rs row
      → drop_rings cap rs ≡ some (flatten row)
  unfolding drop_rings flatten
  drop_rings-flatten [] [] h = refl
  drop_rings-flatten [] (q ∷ row) h = elim h [ ]
  drop_rings-flatten (r ∷ rs) [] h = elim h [ ]
  drop_rings-flatten (r ∷ rs) (q ∷ row) h =
      let (slots, e, win) =
        drop_loop-IsWindow ok_cap (suc cap) r.slots r.tail r.head q (omega (arith, h.0.window.fits))
          h.0.tail_fits h.0.head_fits h.0.count h.0.window in
      rw (e, ◌>>=◌, drop_rings-flatten rs row h.1)

  -- The drop of the shared state drops each item that is still queued once, shard by shard, producer by
  -- producer and each queue in order, and nothing else.
  pub drop_shards-flatten :
      {W : Type 0} (m : ℕ) (shards : List (Shard A W)) (grid : List (List (List A)))
      → All2 (HoldsRow cap m) shards grid
      → drop_shards cap shards ≡ some (flatten (map flatten grid))
  unfolding drop_shards flatten
  drop_shards-flatten m [] [] h = refl
  drop_shards-flatten m [] (row ∷ grid) h = elim h [ ]
  drop_shards-flatten m (shard ∷ shards) [] h = elim h [ ]
  drop_shards-flatten m (shard ∷ shards) (row ∷ grid) h =
      rw
        (drop_rings-flatten shard.rings row h.0.rings, ◌>>=◌, drop_shards-flatten m shards grid h.1)

module _ {A W : Type 0} ⦃w : Waiter W⦄ where
  pub fresh_inner-Stands :
      {cap : ℕ} (m n : ℕ)
      → IsCap cap
      → 0 < n
      → Stands cap (fresh_inner A {W = W} cap m n) (replicate n (replicate m []))
  fresh_inner-Stands {cap} m n ok_cap some_shard = record {
    rows = All2-replicate (HoldsRow cap m) n (record {
      rings = All2-replicate (Holds cap) m (Holds-new ok_cap);
      width = length-replicate m [];
    });
    height = length-replicate n (replicate m []);
    m_waiters = length-replicate m w.fresh;
    some_shard = some_shard;
  }

-- The producer at index `i`.
handles-get :
    (left p n i : ℕ)
    → i < left
    → get_elem? (handles left p n) i
      ≡ some (record { my_idx = p + i; cursor = (p + i) % n % 2 ^ 32 })
unfolding handles
handles-get zero p n i h = elim h [ ]
handles-get (suc left) p n zero h = let e : p ≡ p + 0 = omega arith in rw (← e) refl
handles-get (suc left) p n (suc i) h =
    let e : p + 1 + i ≡ p + suc i = omega arith in
    rw e at (handles-get left (p + 1) n i (omega arith))

cursor-lt : (p n : ℕ) → 0 < n → p % n % 2 ^ 32 < n
cursor-lt p n h = let low : p % n < n = mod-lt p {m = n} h in omega arith

length-handles : (left p n : ℕ) → length (handles left p n) ≡ left
unfolding handles
length-handles zero p n = refl
length-handles (suc left) p n = ap suc (length-handles left (p + 1) n)

-- `Mpmc::new` panics unless the ring capacity is a power of two and there are 1 to 255 producers and at
-- least one consumer. Otherwise it returns one producer for each index, with its cursor in range, and a
-- channel of one empty queue for each shard and producer.
pub new_lem :
    (A W : Type 0) ⦃w : Waiter W⦄ (cap m n : ℕ)
    → (IsCap cap
        × (0 < m)
        × (m ≤ 255)
        × (0 < n)
        × ((ps : List Producer) × (inner : Inner A W) × (new A cap m n ≡ some (ps, inner))
            × Stands cap inner (replicate n (replicate m []))
            × (length ps ≡ m)
            × ((i : ℕ)
                → i < m
                → (p : Producer) × (get_elem? ps i ≡ some p) × (p.my_idx ≡ i) × (p.cursor < n))))
      ⊎ (¬ (IsCap cap × (0 < m) × (m ≤ 255) × (0 < n)) × (new A {W = W} cap m n ≡ none))
unfolding new new_inner
new_lem A W cap m n = elim (Bool-cases (ltb 0 m && (ltb 0 n && leb m max_mpmc_producers))) [
  | inr bad ↦ inr (λ good. let (c, h1, h2, h3) = good in ground arith, rw bad)
  | inl counts ↦ elim (Bool-cases (is_power_of_two cap)) [
    | inl pow ↦
        let ok_cap : IsCap cap = is_power_of_two-IsCap cap pow in
        let some_cap : ltb 0 cap ≡ true = ground (arith, IsCap-bounds ok_cap) in
        inl (
          ok_cap,
          ground arith,
          ground arith,
          ground arith,
          (
            handles m 0 n,
            fresh_inner A cap m n,
            rw (counts, some_cap, pow),
            fresh_inner-Stands m n ok_cap (ground arith),
            length-handles m 0 n,
            λ i h. (
              record { my_idx = 0 + i; cursor = (0 + i) % n % 2 ^ 32 },
              handles-get m 0 n i h,
              omega arith,
              cursor-lt (0 + i) n (ground arith),
            ),
          ),
        )
    | inr odd ↦ inr (
      λ good. let e = IsCap-is_power_of_two good.0 in cc,
      let bad : (ltb 0 cap && is_power_of_two cap) ≡ false = ground arith in
          rw (counts, bad, ◌>>=◌),
    )
  ]
]
