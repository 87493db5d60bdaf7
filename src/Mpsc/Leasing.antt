-- ===== src/Mpsc/Leasing.antt =====
-- `MpscProducerPool::acquire` and `MpscProducerLease::drop` of src/route/mpsc.rs as steps of threads that
-- interleave in any order. A thread is a number, and has at most one lease: a second one counts as a thread of its
-- own.
use arbitro_kit.Prelude.{
  ℕ, ◌+◌, ◌*◌, ◌^◌, ◌<◌, ◌≡◌, ◌≢◌, List, Option, none, some, ◌==◌, if◌then◌else◌, get_elem?, set,
  bit_and, bit_or, trailing_zeros,
}
use arbitro_kit.Mpsc.Pool.{Pool, pool_from_producers, free_bits, put_back, clear_bit}

-- Where a thread stands: outside, or with the bit that it picked in a word, or before the `take()` of the slot that
-- it won, or with a lease of a slot, or between the two accesses of the lease's drop.
pub data Stage (P : Type 0) : Type 0 where
  idle : Stage P
  picked : ℕ → ℕ → Stage P
  won : ℕ → Stage P
  holds : ℕ → P → Stage P
  returning : ℕ → Stage P

pub record System (P : Type 0) : Type 0 where
  pub pool : Pool P
  pub stages : ℕ → Stage P

-- The slot whose bit a thread has set.
abbrev pub slot_of : {P : Type 0} → Stage P → Option ℕ
slot_of Stage.idle = none
slot_of (picked i b) = none
slot_of (won s) = some s
slot_of (holds s p) = some s
slot_of (returning s) = some s

abbrev pub move : {P : Type 0} → System P → ℕ → Pool P → Stage P → System P
move s t pool x = record { pool = pool; stages = λ u. if u == t then x else s.stages u }

-- The pool once bit `b` of word `i`, which was `prev`, is set.
abbrev pub set_bit : {P : Type 0} → ℕ → ℕ → ℕ → Pool P → Pool P
set_bit i b prev pool = record pool { occupancy = set pool.occupancy i (bit_or prev (2 ^ b)) }

-- The pool once the producer of slot `k` is taken.
abbrev pub empty_slot : {P : Type 0} → ℕ → Pool P → Pool P
empty_slot k pool = record pool { slots = set pool.slots k none }

pub data Step {P : Type 0} (s : System P) : System P → Type 0 where
  -- The relaxed load of a word, which may be an old value `cur`, finds a free bit.
  load :
      (t i cur : ℕ)
      → s.stages t ≡ Stage.idle
      → 0 < free_bits s.pool i cur
      → Step s (move s t s.pool (picked i (trailing_zeros 64 (free_bits s.pool i cur))))
  -- The `fetch_or` sets the bit, which was clear.
  win :
      (t i b prev : ℕ)
      → s.stages t ≡ picked i b
      → get_elem? s.pool.occupancy i ≡ some prev
      → bit_and prev (2 ^ b) ≡ 0
      → Step s (move s t (set_bit i b prev s.pool) (won (i * 64 + b)))
  -- It was set already: the thread loads again, or gives up.
  lose :
      (t i b prev : ℕ)
      → s.stages t ≡ picked i b
      → get_elem? s.pool.occupancy i ≡ some prev
      → bit_and prev (2 ^ b) ≢ 0
      → Step s (move s t (set_bit i b prev s.pool) Stage.idle)
  -- `take().unwrap()`.
  take :
      (t k : ℕ) (p : P)
      → s.stages t ≡ won k
      → get_elem? s.pool.slots k ≡ some (some p)
      → Step s (move s t (empty_slot k s.pool) (holds k p))
  -- The drop of the lease.
  store :
      (t k : ℕ) (p : P) (pool : Pool P)
      → s.stages t ≡ holds k p
      → put_back k p s.pool ≡ some pool
      → Step s (move s t pool (returning k))
  release :
      (t k : ℕ) (pool : Pool P)
      → s.stages t ≡ returning k
      → clear_bit k s.pool ≡ some pool
      → Step s (move s t pool Stage.idle)

-- What is reached from the pool of the given producers.
pub data Reach {P : Type 0} (producers : List P) : System P → Type 0 where
  start :
      (pool : Pool P)
      → pool_from_producers producers ≡ some pool
      → Reach producers (record { pool = pool; stages = λ t. Stage.idle })
  next : {s s' : System P} → Reach producers s → Step s s' → Reach producers s'
