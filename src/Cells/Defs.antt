-- ===== src/Cells/Defs.antt =====
-- A cell is `none` while its `MaybeUninit<T>` holds no value: never written, or moved out of.
use arbitro_kit.Prelude.{
  ℕ, zero, suc, ◌+◌, ◌-◌, ◌^◌, ◌%◌, ◌≤◌, ◌<◌, ◌≡◌, ◌||◌, Bool, false, List, Option, none, some,
  bit_and, length, get_elem?, set, ◌==◌,
}

-- `i & MASK`, with `MASK = CAP - 1`.
unfoldable pub slot_index : ℕ → ℕ → ℕ
slot_index cap i = bit_and i (cap - 1)

-- `usize::is_power_of_two`: one of the powers below 2 ^ `bits`.
abbrev pub one_of_powers : ℕ → ℕ → Bool
one_of_powers zero n = false
one_of_powers (suc bits) n = (n == 2 ^ bits) || one_of_powers bits n

unfoldable pub is_power_of_two : ℕ → Bool
is_power_of_two n = one_of_powers 64 n

-- What the constructors check of `CAP`: a power of two that a `usize` can hold.
abbrev pub IsCap : ℕ → Type 0
IsCap cap = (k : ℕ) × (k < 64) × (cap ≡ 2 ^ k)

-- From cursor `t` on, round the array, the cells hold the items of `q` in order, and the rest hold
-- nothing.
pub record IsWindow {A : Type 0} (cap : ℕ) (slots : List (Option A)) (t : ℕ) (q : List A)
    : Type 0 where
  pub size : length slots ≡ cap
  pub fits : length q ≤ cap
  pub cells : (i : ℕ) → i < cap → get_elem? slots ((t + i) % cap) ≡ some (get_elem? q i)

-- `(*slots[i].get()).write(v)`: out of range, the index panics.
unfoldable pub write_cell : {A : Type 0} → List (Option A) → ℕ → A → Option (List (Option A))
write_cell slots i v = elim (get_elem? slots i) [
  | none ↦ none
  | some _ ↦ some (set slots i (some v))
]

-- `(*slots[i].get()).assume_init_read()`, and `assume_init_drop()`: the value leaves the cell. It is
-- undefined behaviour to read a cell that holds none.
unfoldable pub read_cell : {A : Type 0} → List (Option A) → ℕ → Option (A × List (Option A))
read_cell slots i = elim (get_elem? slots i) [
  | some (some v) ↦ some (v, set slots i none)
  | _ ↦ none
]
