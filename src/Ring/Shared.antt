-- ===== src/Ring/Shared.antt =====
-- The methods of `Ring` itself in src/stream/ring.rs: construction, the gauges, closing, and the
-- drain of what is left in flight when the last handle goes.
use arbitro_kit.Prelude.{
  ℕ, zero, suc, Bool, true, false, List, [], ◌∷◌, Option, none, some, replicate, ltb, leb, ◌==◌,
  ◌&&◌, if◌then◌else◌, wrapping_add, wrapping_sub, ◌>>=◌,
}
use arbitro_kit.Cells.{slot_index, is_power_of_two, read_cell}
use arbitro_kit.Waiter.{Waiter}
use arbitro_kit.Ring.Types.{Ring, Link}

-- What `Ring::new` builds. The slots start uninitialised.
abbrev pub fresh_link : (A : Type 0) {W : Type 0} ⦃w : Waiter W⦄ → ℕ → Link A W
fresh_link A ⦃w⦄ cap = record {
  tx = record { cached_tail = 0; worker = none };
  rx = record { cached_head = 0; worker = none };
  shared = record {
    head = 0;
    tail = 0;
    not_full = w.fresh;
    not_empty = w.fresh;
    closed = false;
    slots = replicate cap none;
  };
}

-- `Ring::new`. `none` is the panic of an assertion on `CAP`.
unfoldable pub new : (A : Type 0) {W : Type 0} ⦃w : Waiter W⦄ → ℕ → Option (Link A W)
new A cap = if ltb 0 cap && is_power_of_two cap then some (fresh_link A cap) else none

module _ {A W : Type 0} where
  -- `len`: the cursors are read one after the other.
  unfoldable pub len : Ring A W → ℕ
  len r = wrapping_sub r.head r.tail

  unfoldable pub is_empty : Ring A W → Bool
  unfolding len
  is_empty r = len r == 0

  unfoldable pub is_full : ℕ → Ring A W → Bool
  unfolding len
  is_full cap r = leb cap (len r)

  unfoldable pub is_closed : Ring A W → Bool
  is_closed r = r.closed

  -- `close`: both waiters are woken.
  unfoldable pub close : ⦃w : Waiter W⦄ → Ring A W → Ring A W
  close ⦃w⦄ r = record r {
    not_full = w.wake r.not_full;
    not_empty = w.wake r.not_empty;
    closed = true;
  }

-- The loop of `Ring::drop` from cursor `i` to `head`, with the values it drops, in order, and the
-- slots it leaves. `none` is undefined behaviour, or the end of the fuel.
unfoldable pub drop_loop :
    {A : Type 0} → ℕ → ℕ → List (Option A) → ℕ → ℕ → Option (List A × List (Option A))
drop_loop cap zero slots i head = none
drop_loop {A} cap (suc fuel) slots i head =
    let rest = λ (slots' : List (Option A)). drop_loop cap fuel slots' (wrapping_add i 1) head in
    if i == head then some ([], slots) else do
      (v, slots') ← read_cell slots (slot_index cap i)
      (vs, slots'') ← rest slots'
      some (v ∷ vs, slots'')

-- `Ring::drop`, with fuel for one round more than there are slots.
unfoldable pub drop_ring : {A W : Type 0} → ℕ → Ring A W → Option (List A × List (Option A))
unfolding drop_loop
drop_ring cap r = drop_loop cap (suc cap) r.slots r.tail r.head
