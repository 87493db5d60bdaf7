-- ===== src/Mpsc/Pool.antt =====
-- `MpscProducerPool` of src/route/mpsc.rs. A slot holds an `MpscProducer`, whose own state is of type `P`.
use arbitro_kit.Prelude.{
  ℕ, zero, suc, ◌+◌, ◌-◌, ◌*◌, ◌/◌, ◌%◌, ◌^◌, min, List, [], ◌∷◌, ◌++◌, Option, none, some, ltb,
  leb, ◌==◌, if◌then◌else◌, ◌>>=◌, get_elem?, set, map, length, bit_and, bit_or, bit_not,
  trailing_zeros,
}
use arbitro_kit.Waiter.{Waiter}
use arbitro_kit.Mpsc.Types.{max_producers, Mpsc, new}

-- `BITMAP_WORDS`.
abbrev pub bitmap_words : ℕ
bitmap_words = 4

-- `MpscProducerPool`.
pub record Pool (P : Type 0) : Type 0 where
  pub slots : List (Option P)
  pub occupancy : List ℕ
  pub m : ℕ

-- `Mpsc::pool_from_producers`. `none` is the panic of an assertion.
unfoldable pub pool_from_producers : {P : Type 0} → List P → Option (Pool P)
pool_from_producers producers =
    if ltb 0 (length producers)
    then (if leb (length producers) max_producers
        then some (record {
          slots = map (λ p. some p) producers;
          occupancy = 0 ∷ 0 ∷ 0 ∷ 0 ∷ [];
          m = length producers;
        })
        else none)
    else none

-- The indices `0..m`, which stand for the producers that `Mpsc::new` returns.
unfoldable pub indices : ℕ → List ℕ
indices zero = []
indices (suc n) = indices n ++ (n ∷ [])

-- `Mpsc::producer_pool`.
unfoldable pub producer_pool :
    (A : Type 0) {W : Type 0} ⦃w : Waiter W⦄ → ℕ → ℕ → Option (Pool ℕ × Mpsc A W)
producer_pool A cap m = do ch ← new A cap m; pool ← pool_from_producers (indices m); some (pool, ch)

-- `MpscProducerPool::capacity`.
unfoldable pub capacity : {P : Type 0} → Pool P → ℕ
capacity pool = pool.m

-- The mask of the slots that word `i` stands for.
unfoldable pub live_mask : ℕ → ℕ → ℕ
live_mask m i =
    let live_bits = min ((i + 1) * 64) m - i * 64 in
    if live_bits == 64 then 2 ^ 64 - 1 else 2 ^ live_bits - 1

-- `count_ones` of a word of `n` bits.
unfoldable pub count_ones : ℕ → ℕ → ℕ
count_ones zero w = 0
count_ones (suc n) w = w % 2 + count_ones n (w / 2)

-- The free slots of word `i`.
abbrev pub free_bits : {P : Type 0} → Pool P → ℕ → ℕ → ℕ
free_bits pool i cur = bit_and (bit_not 64 cur) (live_mask pool.m i)

-- The loop of `MpscProducerPool::available`, over `left` words from `i` on.
unfoldable pub count_free : {P : Type 0} → ℕ → ℕ → Pool P → Option ℕ
count_free zero i pool = some 0
count_free (suc left) i pool =
    let later = count_free left (i + 1) pool in
    if leb pool.m (i * 64) then some 0 else (do
      cur ← get_elem? pool.occupancy i
      n ← later
      some (count_ones 64 (free_bits pool i cur) + n))

-- `MpscProducerPool::available`.
unfoldable pub available : {P : Type 0} → Pool P → Option ℕ
available pool = count_free bitmap_words 0 pool

-- What the loop on one word comes to: no slot of it is free, or this caller has set the bit of one, or the
-- race is not over; with the interleavings that are left.
pub data Attempt (P : Type 0) : Type 0 where
  full : List (Pool P → Pool P) → Attempt P
  won : ℕ → List (Pool P → Pool P) → Attempt P
  racing : Attempt P

-- What `acquire` comes to: a lease of a slot with its producer, or nothing, or the race is not over.
pub data Acquired (P : Type 0) : Type 0 where
  lease : ℕ → P → Acquired P
  nothing : Acquired P
  racing : Acquired P

module _ {P : Type 0} where
  -- The inner loop of `acquire`, on word `i`. What the other threads do between the load and the `fetch_or` of
  -- each round is a function on the pool.
  unfoldable pub claim_bit : List (Pool P → Pool P) → ℕ → Pool P → Option (Attempt P × Pool P)
  claim_bit [] i pool = do
    cur ← get_elem? pool.occupancy i
    if free_bits pool i cur == 0 then some (full [], pool) else some (racing, pool)
  claim_bit (gap ∷ gaps) i pool = do
    cur ← get_elem? pool.occupancy i
    let b = trailing_zeros 64 (free_bits pool i cur)
    let pool' : Pool P = gap pool
    prev ← get_elem? pool'.occupancy i
    let pool'' : Pool P = record pool' { occupancy = set pool'.occupancy i (bit_or prev (2 ^ b)) }
    let again = claim_bit gaps i pool''
    if free_bits pool i cur == 0
        then some (full (gap ∷ gaps), pool)
        else (if bit_and prev (2 ^ b) == 0 then some (won b gaps, pool'') else again)

  -- What the other threads do between the `fetch_or` that wins and `take()`: nothing where the list has run out.
  abbrev pub interfere : List (Pool P → Pool P) → Pool P → Pool P
  interfere [] pool = pool
  interfere (gap ∷ gaps) pool = gap pool

  -- The producer of the slot that was won; the lease keeps the slot as a `u16`. `none` is the panic of `unwrap`.
  unfoldable pub take_slot : ℕ → Pool P → Option (Acquired P × Pool P)
  take_slot slot pool = do
    cell ← get_elem? pool.slots slot
    p ← cell
    some (lease (slot % 2 ^ 16) p, record pool { slots = set pool.slots slot none })

  -- The outer loop of `acquire`, over `left` words from `i` on.
  unfoldable pub scan_words : ℕ → ℕ → List (Pool P → Pool P) → Pool P → Option (Acquired P × Pool P)
  scan_words zero i gaps pool = some (nothing, pool)
  scan_words (suc left) i gaps pool =
      let attempt = (do
        (out, pool') ← claim_bit gaps i pool
        elim out [
          | full gaps' ↦ scan_words left (i + 1) gaps' pool'
          | won b gaps' ↦ take_slot (i * 64 + b) (interfere gaps' pool')
          | racing ↦ some (racing, pool')
        ]) in
      if leb pool.m (i * 64) then some (nothing, pool) else attempt

  -- `MpscProducerPool::acquire`.
  unfoldable pub acquire : List (Pool P → Pool P) → Pool P → Option (Acquired P × Pool P)
  acquire gaps pool = scan_words bitmap_words 0 gaps pool

  -- The store of the producer in the slot of a lease, and the `fetch_and` behind it.
  unfoldable pub put_back : ℕ → P → Pool P → Option (Pool P)
  put_back s p pool = do
    cell ← get_elem? pool.slots s
    some (record pool { slots = set pool.slots s (some p) })

  unfoldable pub clear_bit : ℕ → Pool P → Option (Pool P)
  clear_bit s pool = do
    word ← get_elem? pool.occupancy (s / 64)
    some (record pool {
      occupancy = set pool.occupancy (s / 64) (bit_and word (bit_not 64 (2 ^ (s % 64))));
    })

  -- `MpscProducerLease::drop`, of the lease of slot `s` on the producer `p`. What the other threads do between
  -- its two accesses is `gap`.
  unfoldable pub drop_lease : (Pool P → Pool P) → ℕ → P → Pool P → Option (Pool P)
  drop_lease gap s p pool = do pool' ← put_back s p pool; clear_bit s (gap pool')
