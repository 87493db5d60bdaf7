-- ===== src/Prelude/Pairs.antt =====
-- Two lists related place by place.
use Prim.Native.Nat.{ℕ, zero, suc}
use mathlib.Core.Path.{◌≡◌, refl, ap, subst}
use mathlib.Core.List.{List, [], ◌∷◌}
use mathlib.Core.Option.{some}
use arbitro_kit.Prelude.Lists.{length, get_elem?, set, replicate}
use arbitro_kit.Prelude.Results.{unsome}

abbrev pub All2 : {A B : Type 0} → (A → B → Type 0) → List A → List B → Type 0
All2 R [] [] = Unit
All2 R [] (y ∷ ys) = ⊥
All2 R (x ∷ xs) [] = ⊥
All2 R (x ∷ xs) (y ∷ ys) = R x y × All2 R xs ys

module _ {A B : Type 0} (R : A → B → Type 0) where
  pub All2-get :
      (xs : List A) (ys : List B) (i : ℕ) {x : A}
      → All2 R xs ys
      → get_elem? xs i ≡ some x
      → (y : B) × (get_elem? ys i ≡ some y) × R x y
  All2-get [] ys i h e = cc
  All2-get (x ∷ xs) [] i h e = elim h [ ]
  All2-get (x ∷ xs) (y ∷ ys) zero h e = (y, refl, subst (λ z. R z y) (unsome e) h.0)
  All2-get (x ∷ xs) (y ∷ ys) (suc i) h e = All2-get xs ys i h.1 e

  pub All2-set :
      (xs : List A) (ys : List B) (i : ℕ) {x : A} {y : B}
      → All2 R xs ys
      → R x y
      → All2 R (set xs i x) (set ys i y)
  All2-set [] [] i h r = tt
  All2-set [] (y ∷ ys) i h r = elim h [ ]
  All2-set (x ∷ xs) [] i h r = elim h [ ]
  All2-set (x ∷ xs) (y ∷ ys) zero h r = (r, h.1)
  All2-set (x ∷ xs) (y ∷ ys) (suc i) h r = (h.0, All2-set xs ys i h.1 r)

  pub All2-length : (xs : List A) (ys : List B) → All2 R xs ys → length xs ≡ length ys
  All2-length [] [] h = refl
  All2-length [] (y ∷ ys) h = elim h [ ]
  All2-length (x ∷ xs) [] h = elim h [ ]
  All2-length (x ∷ xs) (y ∷ ys) h = ap suc (All2-length xs ys h.1)

  pub All2-replicate : (n : ℕ) {x : A} {y : B} → R x y → All2 R (replicate n x) (replicate n y)
  All2-replicate zero r = tt
  All2-replicate (suc n) r = (r, All2-replicate n r)
