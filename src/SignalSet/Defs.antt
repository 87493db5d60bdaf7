-- ===== src/SignalSet/Defs.antt =====
-- The state and the methods of src/gate/signal_set.rs. `none` is a panic: an index out of range or an
-- assertion. Atomic read-modify-writes are one step each. A name is of any type `N` with an equality test.
use arbitro_kit.Prelude.{
  ℕ, ◌+◌, ◌*◌, ◌/◌, ◌%◌, ◌^◌, bit_and, bit_or, bit_not, Bool, false, not, List, [], ◌∷◌, Option,
  none, some, ltb, ◌==◌, ◌||◌, if◌then◌else◌, ◌>>=◌, length, get_elem?, set, take, replicate,
}
use arbitro_kit.Waiter.{Waiter}

-- `SignalSet`. The chunks are `u64`.
pub record SignalSet (N W : Type 0) : Type 0 where
  pub chunks : List ℕ
  pub waiter : W
  pub names : List (Option N)
  pub next_id : ℕ

-- `SignalId::mask`.
unfoldable pub mask : ℕ → Option ℕ
mask id = if ltb id 64 then some (2 ^ id) else none

-- `n_bits.max(1).div_ceil(64)`.
abbrev pub chunk_count : ℕ → ℕ
chunk_count n_bits = ((if ltb n_bits 1 then 1 else n_bits) + 63) / 64

module _ (N : Type 0) {W : Type 0} ⦃w : Waiter W⦄ where
  -- `SignalSet::with_capacity`.
  unfoldable pub with_capacity : ℕ → SignalSet N W
  with_capacity n_bits =
      let n_chunks = chunk_count n_bits in
      record {
        chunks = replicate n_chunks 0;
        waiter = w.fresh;
        names = replicate (n_chunks * 64) none;
        next_id = 0;
      }

-- The loop of `id_of` over the names from index `i` on.
unfoldable pub find_name : {N : Type 0} → (N → N → Bool) → List (Option N) → ℕ → N → Option ℕ
find_name same [] i x = none
find_name same (slot ∷ rest) i x =
    let later = find_name same rest (i + 1) x in
    if (elim slot [ none ↦ false | some y ↦ same y x ]) then some (i % 256) else later

module _ {N W : Type 0} where
  unfoldable pub capacity_bits : SignalSet N W → ℕ
  capacity_bits s = length s.chunks * 64

  -- `create`: the handle, and the set with the name noted.
  unfoldable pub create : N → SignalSet N W → Option (ℕ × SignalSet N W)
  create name s =
      if ltb s.next_id (length s.chunks * 64)
      then (if ltb s.next_id 256
          then some (
            s.next_id,
            record s { names = set s.names s.next_id (some name); next_id = s.next_id + 1 },
          )
          else none)
      else none

  -- `name`: an index out of range has none.
  unfoldable pub name : SignalSet N W → ℕ → Option N
  name s id = get_elem? s.names id >>= λ slot. slot

  -- `id_of`.
  unfoldable pub id_of : (N → N → Bool) → SignalSet N W → N → Option ℕ
  id_of same s x = find_name same (take s.next_id s.names) 0 x

  unfoldable pub registered : SignalSet N W → ℕ
  registered s = s.next_id

  -- `release`: the waiter is woken when the bit was clear.
  unfoldable pub release : ⦃w : Waiter W⦄ → SignalSet N W → ℕ → Option (SignalSet N W)
  release ⦃w⦄ s id = do
    let chunk = id / 64
    let bit_mask = 2 ^ (id % 64)
    prev ← get_elem? s.chunks chunk
    some (record s {
      chunks = set s.chunks chunk (bit_or prev bit_mask);
      waiter = if bit_and prev bit_mask == 0 then w.wake s.waiter else s.waiter;
    })

  -- `lock`.
  unfoldable pub lock : SignalSet N W → ℕ → Option (SignalSet N W)
  lock s id = do
    let chunk = id / 64
    prev ← get_elem? s.chunks chunk
    some (record s { chunks = set s.chunks chunk (bit_and prev (bit_not 64 (2 ^ (id % 64)))) })

  -- `lock_chunk_mask`.
  unfoldable pub lock_chunk_mask : SignalSet N W → ℕ → ℕ → Option (SignalSet N W)
  lock_chunk_mask s chunk m = do
    prev ← get_elem? s.chunks chunk
    some (record s { chunks = set s.chunks chunk (bit_and prev (bit_not 64 m)) })

  -- `lock_mask`, on chunk 0.
  unfoldable pub lock_mask : SignalSet N W → ℕ → Option (SignalSet N W)
  unfolding lock_chunk_mask
  lock_mask s m = lock_chunk_mask s 0 m

  -- `is_open`.
  unfoldable pub is_open : SignalSet N W → ℕ → Option Bool
  is_open s id = do
    word ← get_elem? s.chunks (id / 64)
    some (not (bit_and word (2 ^ (id % 64)) == 0))

  -- `any_open`.
  unfoldable pub any_open : SignalSet N W → ℕ → Option Bool
  any_open s m = do word ← get_elem? s.chunks 0; some (not (bit_and word m == 0))

  -- `all_open`.
  unfoldable pub all_open : SignalSet N W → ℕ → Option Bool
  all_open s m = do word ← get_elem? s.chunks 0; some (bit_and word m == m)

  -- `state_chunk`; `state` reads chunk 0.
  unfoldable pub state_chunk : SignalSet N W → ℕ → Option ℕ
  state_chunk s idx = get_elem? s.chunks idx

-- The loop of `any_chunk_open`.
unfoldable pub any_chunk_open : List ℕ → Bool
any_chunk_open [] = false
any_chunk_open (word ∷ rest) = not (word == 0) || any_chunk_open rest

module _ {N W : Type 0} where
  -- `SignalSet::n_chunks`.
  unfoldable pub n_chunks : SignalSet N W → ℕ
  n_chunks s = length s.chunks

  -- `SignalSet::set_worker`, on thread `t`, and `has_worker`.
  unfoldable pub set_worker : ⦃w : Waiter W⦄ → SignalSet N W → ℕ → SignalSet N W
  set_worker ⦃w⦄ s t = record s { waiter = w.set_worker t s.waiter }

  unfoldable pub has_worker : ⦃w : Waiter W⦄ → SignalSet N W → Bool
  has_worker ⦃w⦄ s = w.has_worker s.waiter
