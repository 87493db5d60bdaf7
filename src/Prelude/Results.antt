-- ===== src/Prelude/Results.antt =====
-- Results of fallible calls, and the chaining of steps that may fault.
use mathlib.Core.Path.{◌≡◌}
use mathlib.Core.Option.{Option, none, some}

pub data Result (E A : Type 0) : Type 0 where
  ok : A → Result E A
  err : E → Result E A

-- `none` is a fault: undefined behaviour or a panic. A `do` block stops there.
infixl 5 ◌>>=◌
abbrev pub ◌>>=◌ {ℓ κ} : {A : Type ℓ} {B : Type κ} → Option A → (A → Option B) → Option B
none >>= f = none
some a >>= f = f a

pub unsome : {A : Type 0} {a b : A} → some a ≡ some b → a ≡ b
unsome e = cc
