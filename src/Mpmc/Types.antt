-- ===== src/Mpmc/Types.antt =====
-- The state of src/route/mpmc.rs, its construction, the gauges, and the drops.
use arbitro_kit.Prelude.{
  ℕ, zero, suc, ◌+◌, ◌-◌, ◌%◌, ◌^◌, Bool, false, List, [], ◌∷◌, Option, none, some, ltb, leb, ◌==◌,
  ◌&&◌, ◌||◌, not, if◌then◌else◌, ◌>>=◌, replicate, wrapping_sub,
}
use arbitro_kit.Cells.{is_power_of_two}
use arbitro_kit.Waiter.{Waiter}

-- `MAX_MPMC_PRODUCERS`.
abbrev pub max_mpmc_producers : ℕ
max_mpmc_producers = 255

-- `PRing`, without the padding.
pub record PRing (A : Type 0) : Type 0 where
  pub head : ℕ
  pub tail : ℕ
  pub slots : List (Option A)

-- `Shard`.
pub record Shard (A W : Type 0) : Type 0 where
  pub rings : List (PRing A)
  pub consumer_waiter : W
  pub m : ℕ

-- `MpmcInner`.
pub record Inner (A W : Type 0) : Type 0 where
  pub shards : List (Shard A W)
  pub producer_waiters : List W
  pub shutdown : Bool
  pub live_producers : ℕ
  pub live_consumers : ℕ
  pub m : ℕ
  pub n : ℕ

-- `MpmcProducer`. A consumer is its `shard_idx`.
pub record Producer : Type 0 where
  pub my_idx : ℕ
  pub cursor : ℕ

-- `PRing::new`.
unfoldable pub new_ring : (A : Type 0) → ℕ → PRing A
new_ring A cap = record { head = 0; tail = 0; slots = replicate cap none }

-- `PRing::is_full`.
unfoldable pub is_full : ℕ → ℕ → ℕ → Bool
is_full cap h t = leb cap (wrapping_sub h t)

-- What `MpmcInner::new` builds once its assertion holds.
abbrev pub fresh_inner : (A : Type 0) {W : Type 0} ⦃w : Waiter W⦄ → ℕ → ℕ → ℕ → Inner A W
fresh_inner A ⦃w⦄ cap m n = record {
  shards =
      replicate n
        (record { rings = replicate m (new_ring A cap); consumer_waiter = w.fresh; m = m });
  producer_waiters = replicate m w.fresh;
  shutdown = false;
  live_producers = m;
  live_consumers = n;
  m = m;
  n = n;
}

-- `MpmcInner::new`. `none` is the panic of its assertion.
unfoldable pub new_inner : (A : Type 0) {W : Type 0} ⦃w : Waiter W⦄ → ℕ → ℕ → ℕ → Option (Inner A W)
new_inner A cap m n =
    if ltb 0 cap && is_power_of_two cap then some (fresh_inner A cap m n) else none

-- The producers of `Mpmc::new`, from index `p` on.
unfoldable pub handles : ℕ → ℕ → ℕ → List Producer
handles zero p n = []
handles (suc left) p n = record { my_idx = p; cursor = p % n % 2 ^ 32 } ∷ handles left (p + 1) n

-- `Mpmc::new`. `none` is the panic of an assertion.
unfoldable pub new :
    (A : Type 0) {W : Type 0} ⦃w : Waiter W⦄ → ℕ → ℕ → ℕ → Option (List Producer × Inner A W)
new A cap m n =
    if ltb 0 m && (ltb 0 n && leb m max_mpmc_producers)
    then (do inner ← new_inner A cap m n; some (handles m 0 n, inner))
    else none

module _ {A W : Type 0} where
  -- `MpmcInner::is_terminal_for_consumer`.
  unfoldable pub is_terminal_for_consumer : Inner A W → Bool
  is_terminal_for_consumer inner = inner.shutdown || (inner.live_producers == 0)

  -- `MpmcInner::is_terminal_for_producer`.
  unfoldable pub is_terminal_for_producer : Inner A W → Bool
  is_terminal_for_producer inner = inner.shutdown || (inner.live_consumers == 0)

module _ {A : Type 0} where
  -- The loop of `Shard::any_ring_has_work`.
  unfoldable pub any_ring_has_work : List (PRing A) → Bool
  any_ring_has_work [] = false
  any_ring_has_work (r ∷ rs) = not (r.head == r.tail) || any_ring_has_work rs

  -- `MpmcConsumer::pending`: the sum over the shard's rings.
  unfoldable pub pending : List (PRing A) → ℕ
  pending [] = 0
  pending (r ∷ rs) = wrapping_sub r.head r.tail + pending rs

  -- `MpmcConsumer::available`.
  unfoldable pub available : ℕ → List (PRing A) → ℕ
  available cap [] = 0
  available cap (r ∷ rs) = (cap - wrapping_sub r.head r.tail) + available cap rs
