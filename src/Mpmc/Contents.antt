-- ===== src/Mpmc/Contents.antt =====
-- The items in a grid of queues, in no particular order.
use mathlib.Core.List.{flatten, Perm, perm_middle}
use mathlib.Core.List.Perm
use arbitro_kit.Prelude.{
  ℕ, zero, suc, ◌≡◌, refl, sym, ap, List, [], ◌∷◌, ◌++◌, Option, none, some, get_elem?, set, map,
  replicate, append_assoc, unsome, ◌>>=◌, Option-cases, inl, inr,
}
use mathlib.Core.Path.{subst}
use arbitro_kit.Mpmc.Rows.{first_item}
use arbitro_kit.Mpmc.Grid.{cell, put}

module _ {A : Type 0} where
  pub Perm-eq : {xs ys : List A} → xs ≡ ys → Perm xs ys
  Perm-eq {xs} e = subst (Perm xs) e (Perm.refl xs)

  -- Two lists change places in front of a third.
  pub Perm-rotate : (xs ys zs : List A) → Perm (xs ++ (ys ++ zs)) (ys ++ (xs ++ zs))
  Perm-rotate [] ys zs = Perm.refl (ys ++ zs)
  Perm-rotate (x ∷ xs) ys zs =
      Perm.trans (Perm.cons x (Perm-rotate xs ys zs)) (Perm.symm (perm_middle ys (xs ++ zs)))

  -- Two exchanges, one after the other.
  pub Perm-compose :
      (a a' d d' c c' c'' : List A)
      → Perm (a ++ c) (d ++ c')
      → Perm (a' ++ c') (d' ++ c'')
      → Perm ((a ++ a') ++ c) ((d ++ d') ++ c'')
  Perm-compose a a' d d' c c' c'' first later = Perm.trans (Perm-eq (append_assoc a a' c)) (
      Perm.trans (Perm-rotate a a' c) (
        Perm.trans (Perm.append_left a' first) (
          Perm.trans (Perm-rotate a' d c')
            (Perm.trans (Perm.append_left d later) (Perm-eq (sym (append_assoc d d' c'')))))))

  abbrev pub contents : List (List (List A)) → List A
  contents [] = []
  contents (row ∷ grid) = flatten row ++ contents grid

  pub contents-flatten : (grid : List (List (List A))) → contents grid ≡ flatten (map flatten grid)
  unfolding flatten
  contents-flatten [] = refl
  contents-flatten (row ∷ grid) = ap (◌++◌ (flatten row)) (contents-flatten grid)

  flatten-empty : (m : ℕ) → flatten (replicate {A = List A} m []) ≡ []
  unfolding flatten
  flatten-empty zero = refl
  flatten-empty (suc m) = flatten-empty m

  pub contents-empty : (n m : ℕ) → contents (replicate n (replicate m [])) ≡ []
  contents-empty zero m = refl
  contents-empty (suc n) m = rw (flatten-empty m) (contents-empty n m)

  -- What one row takes in and gives out, the grid does.
  pub contents-set :
      (grid : List (List (List A))) (s : ℕ) {row : List (List A)} (row' : List (List A))
      (xs ys : List A)
      → get_elem? grid s ≡ some row
      → Perm (xs ++ flatten row) (ys ++ flatten row')
      → Perm (xs ++ contents grid) (ys ++ contents (set grid s row'))
  contents-set [] s row' xs ys e p = cc
  contents-set (r ∷ grid) zero {row} row' xs ys e p =
      Perm.trans (Perm-eq (ap (λ z. xs ++ (flatten z ++ contents grid)) (unsome e))) (
        Perm.trans (Perm-eq (sym (append_assoc xs (flatten row) (contents grid)))) (
          Perm.trans (Perm.append_right (contents grid) p)
            (Perm-eq (append_assoc ys (flatten row') (contents grid)))))
  contents-set (r ∷ grid) (suc s) row' xs ys e p =
      Perm.trans (Perm-rotate xs (flatten r) (contents grid)) (
        Perm.trans (Perm.append_left (flatten r) (contents-set grid s row' xs ys e p))
          (Perm-rotate (flatten r) ys (contents (set grid s row'))))

  -- A row with items put in at the end of a queue.
  flatten-set :
      (row : List (List A)) (i : ℕ) {q : List A} (xs : List A)
      → get_elem? row i ≡ some q
      → Perm (xs ++ flatten row) (flatten (set row i (q ++ xs)))
  unfolding flatten
  flatten-set [] i xs e = cc
  flatten-set (r ∷ row) zero {q} xs e =
      Perm.trans (Perm-eq (ap (λ z. xs ++ (z ++ flatten row)) (unsome e))) (
        Perm.trans (Perm-rotate xs q (flatten row))
          (Perm-eq (sym (append_assoc q xs (flatten row)))))
  flatten-set (r ∷ row) (suc i) xs e =
      Perm.trans (Perm-rotate xs r (flatten row)) (Perm.append_left r (flatten-set row i xs e))

  pub contents-put :
      (grid : List (List (List A))) (s i : ℕ) {q : List A} (xs : List A)
      → cell grid s i ≡ some q
      → Perm (xs ++ contents grid) (contents (put grid s i (q ++ xs)))
  contents-put grid s i {q} xs e = elim (Option-cases (get_elem? grid s)) [
    | inl out_of_range ↦ absurd (let z = rw (out_of_range, ◌>>=◌) at e in cc)
    | inr (row, there) ↦
        rw (there, put)
          (contents-set grid s (set row i (q ++ xs)) xs [] there
            (flatten-set row i xs (rw (there, ◌>>=◌) at e)))
  ]

  -- What `first_item` finds, in front of what it leaves.
  abbrev pub found : Option A → List A
  found none = []
  found (some v) = v ∷ []

  pub first_item-found :
      (row : List (List A)) → flatten row ≡ found (first_item row).0 ++ flatten (first_item row).1
  unfolding first_item flatten
  first_item-found [] = refl
  first_item-found ([] ∷ row) = first_item-found row
  first_item-found ((v ∷ q) ∷ row) = refl
