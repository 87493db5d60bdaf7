-- ===== src/Tests/Fixtures.antt =====
-- Concrete rings of two slots that several tests use.
use arbitro_kit.Prelude.{
  ℕ, zero, suc, ◌^◌, ◌-◌, ◌+◌, ◌%◌, ◌<◌, ◌≡◌, refl, false, [], ◌∷◌, none, some, get_elem?, arith,
}
use arbitro_kit.Cells.{IsCap}
use arbitro_kit.Waiter.{NoopWaiter, noop, noop_waiter}
use arbitro_kit.Ring.Types.{Ring, Producer, Consumer}
use arbitro_kit.Ring.Queue.{Queue, Represents}

pub two-IsCap : IsCap 2
two-IsCap = (1, omega arith, refl)

abbrev pub tx : Producer
tx = record { cached_tail = 2 ^ 64 - 1; worker = none }

abbrev pub rx : Consumer
rx = record { cached_head = 2 ^ 64 - 1; worker = none }

abbrev pub one : Queue ℕ
one = record { items = 7 ∷ []; closed = false }

-- 7 in the last cell before the cursors wrap
abbrev pub part : Ring ℕ NoopWaiter
part = record {
  head = 0;
  tail = 2 ^ 64 - 1;
  not_full = noop;
  not_empty = noop;
  closed = false;
  slots = none ∷ some 7 ∷ [];
}

abbrev pub two : Queue ℕ
two = record { items = 7 ∷ 8 ∷ []; closed = false }

-- 7 and 8, with the cursors on either side of the wrap
abbrev pub brim : Ring ℕ NoopWaiter
brim = record {
  head = 1;
  tail = 2 ^ 64 - 1;
  not_full = noop;
  not_empty = noop;
  closed = false;
  slots = some 8 ∷ some 7 ∷ [];
}

part_cells :
    (i : ℕ) → i < 2 → get_elem? part.slots ((part.tail + i) % 2) ≡ some (get_elem? one.items i)
part_cells zero h = refl
part_cells (suc zero) h = refl
part_cells (suc (suc i)) h = absurd (omega arith)

brim_cells :
    (i : ℕ) → i < 2 → get_elem? brim.slots ((brim.tail + i) % 2) ≡ some (get_elem? two.items i)
brim_cells zero h = refl
brim_cells (suc zero) h = refl
brim_cells (suc (suc i)) h = absurd (omega arith)

pub part-Represents : Represents 2 tx rx part one
part-Represents = record {
  head_fits = omega arith;
  tail_fits = omega arith;
  cached_tail_fits = omega arith;
  cached_head_fits = omega arith;
  count = refl;
  behind = refl;
  room = omega arith;
  seen = omega arith;
  same_closed = refl;
  window = record { size = refl; fits = omega arith; cells = part_cells };
}

pub brim-Represents : Represents 2 tx rx brim two
brim-Represents = record {
  head_fits = omega arith;
  tail_fits = omega arith;
  cached_tail_fits = omega arith;
  cached_head_fits = omega arith;
  count = refl;
  behind = refl;
  room = omega arith;
  seen = omega arith;
  same_closed = refl;
  window = record { size = refl; fits = omega arith; cells = brim_cells };
}

abbrev pub blank : Ring ℕ NoopWaiter
blank = record {
  head = 0;
  tail = 0;
  not_full = noop;
  not_empty = noop;
  closed = false;
  slots = none ∷ none ∷ [];
}

abbrev pub tx0 : Producer
tx0 = record { cached_tail = 0; worker = none }

abbrev pub rx0 : Consumer
rx0 = record { cached_head = 0; worker = none }

abbrev pub nothing : Queue ℕ
nothing = record { items = []; closed = false }

blank_cells :
    (i : ℕ)
    → i < 2
    → get_elem? blank.slots ((blank.tail + i) % 2) ≡ some (get_elem? nothing.items i)
blank_cells zero h = refl
blank_cells (suc zero) h = refl
blank_cells (suc (suc i)) h = absurd (omega arith)

pub blank-Represents : Represents 2 tx0 rx0 blank nothing
blank-Represents = record {
  head_fits = omega arith;
  tail_fits = omega arith;
  cached_tail_fits = omega arith;
  cached_head_fits = omega arith;
  count = refl;
  behind = refl;
  room = omega arith;
  seen = omega arith;
  same_closed = refl;
  window = record { size = refl; fits = omega arith; cells = blank_cells };
}
