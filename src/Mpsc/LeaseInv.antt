-- ===== src/Mpsc/LeaseInv.antt =====
-- How the threads of src/route/mpsc.rs that lease producers share a pool.
use arbitro_kit.Prelude.{
  ℕ, ◌+◌, ◌*◌, ◌<◌, ◌≡◌, ◌≢◌, ◌∙◌, ◌⊎◌, inl, inr, List, none, some, ◌==◌, get_elem?, length, arith,
  Bool-cases,
}
use arbitro_kit.Mpsc.Pool.{Pool}
use arbitro_kit.Mpsc.Leases.{bit_at}
use arbitro_kit.Mpsc.Leasing.{Stage, picked, won, holds, returning, System, slot_of, move}

-- A thread at stage `x` is on slot `k`, whose producer in `home` is `p`: the bit is set, and the producer is in
-- the slot unless the thread holds it.
abbrev pub Sits : {P : Type 0} → List P → Pool P → Stage P → ℕ → Type 0
Sits {P} home pool x k =
    (p : P) × (get_elem? home k ≡ some p)
    × (bit_at pool.occupancy k ≡ 1)
    × (((x ≡ won k) × (get_elem? pool.slots k ≡ some (some p)))
        ⊎ (((x ≡ holds k p) × (get_elem? pool.slots k ≡ some none))
            ⊎ ((x ≡ returning k) × (get_elem? pool.slots k ≡ some (some p)))))

pub record Leased {P : Type 0} (home : List P) (s : System P) : Type 0 where
  pub sized : length s.pool.slots ≡ length home
  pub words : length s.pool.occupancy ≡ 4
  pub total : s.pool.m ≡ length home
  pub in_range : (t i b : ℕ) → s.stages t ≡ picked i b → (b < 64) × (i * 64 + b < length home)
  pub sits : (t k : ℕ) → slot_of (s.stages t) ≡ some k → Sits home s.pool (s.stages t) k
  pub alone : (t u k : ℕ) → slot_of (s.stages t) ≡ some k → slot_of (s.stages u) ≡ some k → t ≡ u
  pub free :
      (k : ℕ)
      → k < length home
      → bit_at s.pool.occupancy k ≡ 0
      → get_elem? s.pool.slots k ≡ some (get_elem? home k)

module _ {P : Type 0} (home : List P) where
  Sits-keep :
      (pool pool' : Pool P) (x : Stage P) (k : ℕ)
      → get_elem? pool'.slots k ≡ get_elem? pool.slots k
      → bit_at pool'.occupancy k ≡ bit_at pool.occupancy k
      → Sits home pool x k
      → Sits home pool' x k
  Sits-keep pool pool' x k same_slot same_bit (p, h, one, place) = (
    p,
    h,
    same_bit ∙ one,
    elim place [
      | inl (e, c) ↦ inl (e, same_slot ∙ c)
      | inr (inl (e, c)) ↦ inr (inl (e, same_slot ∙ c))
      | inr (inr (e, c)) ↦ inr (inr (e, same_slot ∙ c))
    ],
  )

  -- A move of thread `t` to stage `x` that leaves alone the slots that the others are on.
  pub moved :
      (s : System P) (t : ℕ) (x : Stage P) (pool : Pool P)
      → Leased home s
      → length pool.slots ≡ length s.pool.slots
      → length pool.occupancy ≡ length s.pool.occupancy
      → pool.m ≡ s.pool.m
      → ((i b : ℕ) → x ≡ picked i b → (b < 64) × (i * 64 + b < length home))
      → ((k : ℕ) → slot_of x ≡ some k → Sits home pool x k)
      → ((u k : ℕ)
          → u ≢ t
          → slot_of (s.stages u) ≡ some k
          → (slot_of x ≢ some k)
            × (get_elem? pool.slots k ≡ get_elem? s.pool.slots k)
            × (bit_at pool.occupancy k ≡ bit_at s.pool.occupancy k))
      → ((k : ℕ)
          → k < length home
          → bit_at pool.occupancy k ≡ 0
          → get_elem? pool.slots k ≡ some (get_elem? home k))
      → Leased home (move s t pool x)
  moved s t x pool inv sized words total bounds sits others free = record {
    sized = sized ∙ inv.sized;
    words = words ∙ inv.words;
    total = total ∙ inv.total;
    in_range = λ u i b e. elim (Bool-cases (u == t)) [
      | inl same ↦ bounds i b (rw same at e)
      | inr other ↦ inv.in_range u i b (rw other at e)
    ];
    sits = λ u k e. elim (Bool-cases (u == t)) [
      | inl same ↦ rw same (sits k (rw same at e))
      | inr other ↦
          let e' : slot_of (s.stages u) ≡ some k = rw other at e in
          let (_, slot, bits) = others u k (ground arith) e' in
          rw other (Sits-keep s.pool pool (s.stages u) k slot bits (inv.sits u k e'))
    ];
    alone = λ u v k e f. elim (Bool-cases (u == t)) [
      | inl same ↦ elim (Bool-cases (v == t)) [
        | inl same' ↦ ground arith
        | inr other ↦ absurd ((others v k (ground arith) (rw other at f)).0 (rw same at e))
      ]
      | inr other ↦ elim (Bool-cases (v == t)) [
        | inl same ↦ absurd ((others u k (ground arith) (rw other at e)).0 (rw same at f))
        | inr other' ↦ inv.alone u v k (rw other at e) (rw other' at f)
      ]
    ];
    free = free;
  }
