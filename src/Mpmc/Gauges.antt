-- ===== src/Mpmc/Gauges.antt =====
-- The gauges of an Mpmc shard.
use mathlib.Core.List.{flatten}
use arbitro_kit.Prelude.{
  ℕ, zero, suc, ◌+◌, ◌-◌, ◌*◌, ◌≤◌, ◌<◌, ◌≡◌, refl, sym, ap, ◌∙◌, inl, inr, Bool, true, false, ◌==◌,
  List, [], ◌∷◌, none, some, length, length-append, ltb, leb, arith, All2, All2-get, All2-length,
  Bool-cases, unsome, ◌>>=◌, get_elem?, get_elem?-lt,
}
use arbitro_kit.Mpmc.Tx
use arbitro_kit.Mpmc.Tx.{has_idle_shard}
use arbitro_kit.Mpmc.Types.{PRing, Shard, any_ring_has_work, pending, available}
use arbitro_kit.Mpmc.Grid.{Holds, HoldsRow, is_full-Holds, cell}

-- On the rings of a shard that stand for a row of queues, `pending` counts the items, `available` the free
-- slots, so that the two add up to the capacity, and `any_ring_has_work` says whether there is an item.
pub gauges-exact :
    {A : Type 0} (cap : ℕ) (rings : List (PRing A)) (row : List (List A))
    → All2 (Holds cap) rings row
    → (pending rings ≡ length (flatten row))
      × (available cap rings + pending rings ≡ length rings * cap)
      × (any_ring_has_work rings ≡ ltb 0 (length (flatten row)))
unfolding pending available any_ring_has_work flatten
gauges-exact cap [] [] h = (refl, omega arith, refl)
gauges-exact cap [] (q ∷ row) h = elim h [ ]
gauges-exact cap (r ∷ rs) [] h = elim h [ ]
gauges-exact cap (r ∷ rs) (q ∷ row) h =
    let (count, free, work) = gauges-exact cap rs row h.1 in
    let total = length-append q (flatten row) in
    let fits : length q ≤ cap = h.0.window.fits in
    (
      omega (arith, h.0.count, count, total),
      omega (arith, h.0.count, free, fits),
      elim (Bool-cases (r.head == r.tail)) [
        | inl same ↦ ground (arith, h.0, work, total)
        | inr other ↦ ground (arith, h.0, total)
      ],
    )

-- Every queue of a producer is full if the first is and the others are.
full_from :
    {A : Type 0} {cap : ℕ} (q : List A) (row : List (List A)) (grid : List (List (List A)))
    (idx : ℕ)
    → get_elem? row idx ≡ some q
    → cap ≤ length q
    → ((s : ℕ) (q' : List A) → cell grid s idx ≡ some q' → cap ≤ length q')
    → (s : ℕ) (q' : List A) → cell (row ∷ grid) s idx ≡ some q'
    → cap ≤ length q'
full_from q row grid idx e full later zero q' f =
    let same : q ≡ q' = unsome (sym e ∙ f) in omega (arith, full, ap length same)
full_from q row grid idx e full later (suc s) q' f = later s q' f

module _ {A W : Type 0} (cap : ℕ) where
  -- `has_idle_shard` says whether some queue of the producer has room.
  pub has_idle_shard-finds :
      (m idx : ℕ) (shards : List (Shard A W)) (grid : List (List (List A)))
      → All2 (HoldsRow cap m) shards grid
      → idx < m
      → (b : Bool) × (has_idle_shard cap idx shards ≡ some b)
        × (b ≡ true → (s : ℕ) × (q : List A) × (cell grid s idx ≡ some q) × (length q < cap))
        × (b ≡ false → (s : ℕ) (q : List A) → cell grid s idx ≡ some q → cap ≤ length q)
  unfolding has_idle_shard
  has_idle_shard-finds m idx [] [] h hi = (false, refl, λ e. cc, λ e s q f. absurd (cc))
  has_idle_shard-finds m idx [] (row ∷ grid) h hi = elim h [ ]
  has_idle_shard-finds m idx (shard ∷ shards) [] h hi = elim h [ ]
  has_idle_shard-finds m idx (shard ∷ shards) (row ∷ grid) h hi =
      let (r, e) =
        get_elem?-lt shard.rings idx
          (omega (arith, hi, h.0.width, All2-length (Holds cap) shard.rings row h.0.rings)) in
      let (q, e', held) = All2-get (Holds cap) shard.rings row idx h.0.rings e in
      let (b, rest, found, full) = has_idle_shard-finds m idx shards grid h.1 hi in
      elim (Bool-cases (leb cap (length q))) [
        | inr room ↦ (
          true,
          rw (e, ◌>>=◌, is_full-Holds held, room),
          λ f. (0, q, rw e', ground arith),
          λ f. absurd (cc),
        )
        | inl no_room ↦ (
          b,
          rw (e, ◌>>=◌, is_full-Holds held, no_room) rest,
          λ f. let (s, q', at_s, room) = found f in (suc s, q', at_s, room),
          λ f s q' at_s. full_from q row grid idx e' (ground arith) (full f) s q' at_s,
        )
      ]

-- The items of producer `idx` in all shards.
abbrev pub queued : {A : Type 0} → ℕ → List (List (List A)) → ℕ
queued idx [] = 0
queued idx (row ∷ grid) =
    (elim (get_elem? row idx) [ none ↦ 0 | some q ↦ length q ]) + queued idx grid

-- On shards that stand for a grid of queues, `MpmcProducer::pending` counts the items of the producer, and
-- `MpmcProducer::available` its free slots, so that the two add up to the capacity over all shards; no index is out of
-- range.
pub producer_gauges-exact :
    {A W : Type 0} (cap m idx : ℕ) (shards : List (Shard A W)) (grid : List (List (List A)))
    → All2 (HoldsRow cap m) shards grid
    → idx < m
    → (free : ℕ) × (Tx.pending idx shards ≡ some (queued idx grid))
      × (Tx.available cap idx shards ≡ some free)
      × (free + queued idx grid ≡ length shards * cap)
unfolding Tx.pending Tx.available
producer_gauges-exact cap m idx [] [] h hi = (0, refl, refl, omega arith)
producer_gauges-exact cap m idx [] (row ∷ grid) h hi = elim h [ ]
producer_gauges-exact cap m idx (shard ∷ shards) [] h hi = elim h [ ]
producer_gauges-exact cap m idx (shard ∷ shards) (row ∷ grid) h hi =
    let (r, e) =
      get_elem?-lt shard.rings idx
        (omega (arith, hi, h.0.width, All2-length (Holds cap) shard.rings row h.0.rings)) in
    let (q, e', held) = All2-get (Holds cap) shard.rings row idx h.0.rings e in
    let (free, count, room, total) = producer_gauges-exact cap m idx shards grid h.1 hi in
    let fits : length q ≤ cap = held.window.fits in
    (
      (cap - length q) + free,
      rw (e, ◌>>=◌, count, e', held.count) refl,
      rw (e, ◌>>=◌, room, held.count) refl,
      rw e' (omega (arith, total, fits)),
    )
