-- ===== src/Tests/SignalRuns.antt =====
-- Runs of src/gate/signal_set.rs.
use arbitro_kit.Prelude.{
  ℕ, zero, suc, ◌<◌, ◌≡◌, ◌↔◌, refl, true, false, [], ◌∷◌, none, some, length, ◌==◌, bit, arith,
}
use arbitro_kit.Waiter.{NoopWaiter, noop, noop_waiter}
use arbitro_kit.SignalSet.Defs.{SignalSet, capacity_bits, is_open, any_open}
use arbitro_kit.SignalSet.Gates.{IsWide, any_open-none}
use arbitro_kit.Prelude.{replicate, unsome}

-- gates 0 and 2 are open; two are registered, by the names 40 and 41
abbrev gates : SignalSet ℕ NoopWaiter
gates = record {
  chunks = 5 ∷ [];
  waiter = noop;
  names = some 40 ∷ some 41 ∷ replicate 62 none;
  next_id = 2;
}

gates-IsWide : IsWide gates
gates-IsWide zero word e = let same : 5 ≡ word = unsome e in omega (arith, same)
gates-IsWide (suc c) word e = cc

in_range : (id : ℕ) → id < 64 → id < capacity_bits gates
unfolding capacity_bits
in_range id h = omega arith

abbrev bits : ℕ
bits = 100

any_open-none_example :
    ((i : ℕ) → i < 64 → bit 10 i ≡ 1 → is_open gates i ≡ some false)
    ↔ (any_open gates 10 ≡ some false)
any_open-none_example = any_open-none gates 10 5 refl (omega arith)

sized : length gates.names ≡ capacity_bits gates
unfolding capacity_bits
sized = refl

lawful : (x y : ℕ) → (x == y ≡ true) ↔ (x ≡ y)
lawful x y = (λ e. ground arith, λ e. ground arith)
