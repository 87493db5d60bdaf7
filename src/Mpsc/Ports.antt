-- ===== src/Mpsc/Ports.antt =====
-- Lemmas on the producers of Mpsc.Closing and their count.
use arbitro_kit.Prelude.{
  ℕ, zero, suc, ◌+◌, ◌≤◌, ◌≡◌, refl, ap, List, [], ◌∷◌, some, get_elem?, set, length, replicate,
  arith, unsome,
}
use mathlib.Core.Path.{subst}
use arbitro_kit.Mpsc.Closing.{Tx, working, closing, gone, Port}

-- How many producers count as live.
abbrev pub live_of : Tx → ℕ
live_of gone = 0
live_of _ = 1

abbrev pub count_live : {A : Type 0} → List (Port A) → ℕ
count_live [] = 0
count_live (p ∷ ps) = live_of p.tx + count_live ps

live_of-gone : (t : Tx) → live_of t ≡ 0 → t ≡ gone
live_of-gone working e = absurd (omega arith)
live_of-gone closing e = absurd (omega arith)
live_of-gone gone e = refl

pub count_live_le : {A : Type 0} (ps : List (Port A)) → count_live ps ≤ length ps
count_live_le [] = omega arith
count_live_le (p ∷ ps) = let h = count_live_le ps in ground arith

module _ {A : Type 0} where
  -- Replacing one port changes the count by that port.
  pub count_live-set :
      (ps : List (Port A)) (i : ℕ) (p p' : Port A)
      → get_elem? ps i ≡ some p
      → count_live (set ps i p') + live_of p.tx ≡ count_live ps + live_of p'.tx
  count_live-set [] i p p' e = cc
  count_live-set (q ∷ ps) zero p p' e =
      let same : q ≡ p = unsome e in omega (arith, ap (λ x. live_of x.tx) same)
  count_live-set (q ∷ ps) (suc i) p p' e = omega (arith, count_live-set ps i p p' e)

  -- What holds of every port, when one of them is replaced.
  pub every-set :
      (P : Port A → Type 0) (ps : List (Port A)) (i : ℕ) (p' : Port A)
      → ((j : ℕ) (q : Port A) → get_elem? ps j ≡ some q → P q)
      → P p'
      → (j : ℕ) (q : Port A) → get_elem? (set ps i p') j ≡ some q
      → P q
  every-set P [] i p' all h j q e = all j q e
  every-set P (x ∷ ps) zero p' all h zero q e = subst P (unsome e) h
  every-set P (x ∷ ps) zero p' all h (suc j) q e = all (suc j) q e
  every-set P (x ∷ ps) (suc i) p' all h zero q e = all zero q e
  every-set P (x ∷ ps) (suc i) p' all h (suc j) q e =
      every-set P ps i p' (λ j'. all (suc j')) h j q e

  -- With no producer live, every one has gone.
  pub all_gone :
      (ps : List (Port A)) (i : ℕ) (p : Port A)
      → count_live ps ≡ 0
      → get_elem? ps i ≡ some p
      → p.tx ≡ gone
  all_gone [] i p none_live e = cc
  all_gone (q ∷ ps) zero p none_live e =
      subst (λ x. x.tx ≡ gone) (unsome e) (live_of-gone q.tx (omega arith))
  all_gone (q ∷ ps) (suc i) p none_live e = all_gone ps i p (omega arith) e

pub count_live-replicate :
    {A : Type 0} (n : ℕ) (p : Port A) → live_of p.tx ≡ 1 → count_live (replicate n p) ≡ n
count_live-replicate zero p h = refl
count_live-replicate (suc n) p h = omega (arith, count_live-replicate n p h, h)

pub replicated :
    {A : Type 0} (n i : ℕ) (p q : Port A) → get_elem? (replicate n p) i ≡ some q → p ≡ q
replicated zero i p q e = cc
replicated (suc n) zero p q e = unsome e
replicated (suc n) (suc i) p q e = replicated n i p q e

-- The port of a producer that has sent nothing.
abbrev pub idle_port : {A : Type 0} → Port A
idle_port = record { tx = working; queue = []; accepted = []; delivered = [] }
