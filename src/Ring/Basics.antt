-- ===== src/Ring/Basics.antt =====
-- Construction, the gauges, closing and registration, in terms of the queue.
use arbitro_kit.Prelude.{
  ℕ, ◌<◌, ◌≡◌, refl, true, false, [], Option, none, some, length, ◌==◌, leb, arith, Bool-cases, inl,
  inr, ◌⊎◌,
}
use arbitro_kit.Cells.{
  IsCap, IsCap-bounds, is_power_of_two, is_power_of_two-IsCap, IsCap-is_power_of_two,
  IsWindow-empty,
}
use arbitro_kit.Waiter.{Waiter}
use arbitro_kit.Ring.Types.{Ring, Producer, Consumer, Link}
use arbitro_kit.Ring.Shared.{fresh_link, new, len, is_empty, is_full, is_closed, close}
use arbitro_kit.Ring.Queue.{Queue, Represents}

abbrev pub open_queue : {A : Type 0} → Queue A
open_queue = record { items = []; closed = false }

fresh-Represents :
    (A : Type 0) {W : Type 0} ⦃w : Waiter W⦄ {cap : ℕ}
    → IsCap cap
    → let l = fresh_link A {W = W} cap in Represents cap l.tx l.rx l.shared open_queue
fresh-Represents A c = record {
  head_fits = omega arith;
  tail_fits = omega arith;
  cached_tail_fits = omega arith;
  cached_head_fits = omega arith;
  count = refl;
  behind = refl;
  room = omega arith;
  seen = omega arith;
  same_closed = refl;
  window = IsWindow-empty 0 (IsCap-bounds c).0;
}

-- `new` panics exactly when `CAP` is no power of two that fits a `usize`, and gives an open, empty
-- ring otherwise.
pub new-Represents :
    (A : Type 0) {W : Type 0} ⦃w : Waiter W⦄ (cap : ℕ)
    → (IsCap cap
        × ((l : Link A W) × (new A cap ≡ some l) × Represents cap l.tx l.rx l.shared open_queue))
      ⊎ ((¬ IsCap cap) × (new A {W = W} cap ≡ none))
unfolding new
new-Represents A {W} cap = elim (Bool-cases (is_power_of_two cap)) [
  | inl good ↦
      let c = is_power_of_two-IsCap cap good in
      let pos : 0 < cap = (IsCap-bounds c).0 in
      inl (c, (fresh_link A cap, ground arith, fresh-Represents A c))
  | inr bad ↦ inr (λ c. cc (IsCap-is_power_of_two c), ground arith)
]

module _ {A W : Type 0} {cap : ℕ} {p : Producer} {c : Consumer} {r : Ring A W} {q : Queue A}
    (rep : Represents cap p c r q) where
  -- The gauges read the queue.
  pub gauges :
      (len r ≡ length q.items)
      × (is_empty r ≡ (length q.items == 0))
      × (is_full cap r ≡ leb cap (length q.items))
      × (is_closed r ≡ q.closed)
  unfolding len is_empty is_full is_closed
  gauges = ground (arith, rep)

  -- The waiters and the registered threads are no part of what a ring stands for.
  pub retag :
      (x y : W) (u u' : Option ℕ)
      → Represents cap
          (record p { worker = u })
          (record c { worker = u' })
          (record r { not_full = x; not_empty = y })
          q
  retag x y u u' = record {
    head_fits = rep.head_fits;
    tail_fits = rep.tail_fits;
    cached_tail_fits = rep.cached_tail_fits;
    cached_head_fits = rep.cached_head_fits;
    count = rep.count;
    behind = rep.behind;
    room = rep.room;
    seen = rep.seen;
    same_closed = rep.same_closed;
    window = rep.window;
  }

  -- Closing changes the flag alone.
  pub close-Represents : ⦃w : Waiter W⦄ → Represents cap p c (close r) (record q { closed = true })
  unfolding close
  close-Represents = record {
    head_fits = rep.head_fits;
    tail_fits = rep.tail_fits;
    cached_tail_fits = rep.cached_tail_fits;
    cached_head_fits = rep.cached_head_fits;
    count = rep.count;
    behind = rep.behind;
    room = rep.room;
    seen = rep.seen;
    same_closed = refl;
    window = rep.window;
  }
