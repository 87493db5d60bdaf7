-- ===== src/Ring/Feed.antt =====
-- A closure run over a list of items, stopping at its first panic: what `Consumer::drain` promises.
use mathlib.Core.List.{foldl}
use arbitro_kit.Prelude.{◌≤◌, ◌≡◌, refl, ◌⊎◌, inl, inr, List, [], ◌∷◌, length, arith}
use arbitro_kit.Ring.Rx.{Call, returned, panicked}

-- What the closure makes of a list of items, and the items that it has not been given.
unfoldable pub feed : {A S : Type 0} → (S → A → Call S) → S → List A → Call S × List A
feed f s [] = (returned s, [])
feed f s (x ∷ xs) = elim (f s x) [ returned s' ↦ feed f s' xs | panicked s' ↦ (panicked s', xs) ]

pub Call-cases :
    {S : Type 0} (out : Call S) → ((s : S) × (out ≡ returned s)) ⊎ ((s : S) × (out ≡ panicked s))
Call-cases (returned s) = inl (s, refl)
Call-cases (panicked s) = inr (s, refl)

pub length-feed-le :
    {A S : Type 0} (f : S → A → Call S) (xs : List A) (s : S) → length (feed f s xs).1 ≤ length xs
unfolding feed
length-feed-le f [] s = omega arith
length-feed-le f (x ∷ xs) s = elim (Call-cases (f s x)) [
  | inl (s', q) ↦ rw (q, feed) (omega (arith, length-feed-le f xs s'))
  | inr (s', q) ↦ rw (q, feed) (omega arith)
]

pub feed-returned :
    {A S : Type 0} (f : S → A → Call S) (xs : List A) (s : S) {s' : S}
    → (feed f s xs).0 ≡ returned s'
    → (feed f s xs).1 ≡ []
unfolding feed
feed-returned f [] s e = refl
feed-returned f (x ∷ xs) s e = elim (Call-cases (f s x)) [
  | inl (s', q) ↦ rw (q, feed) (feed-returned f xs s' (rw (q, feed) at e))
  | inr (s', q) ↦ cc (rw (q, feed) at e)
]

-- A closure that always returns is given everything.
pub feed-fold :
    {A S : Type 0} (g : S → A → S) (xs : List A) (s : S)
    → feed (λ s' x. returned (g s' x)) s xs ≡ (returned (foldl g s xs), [])
unfolding feed
feed-fold g [] s = refl
feed-fold g (x ∷ xs) s = feed-fold g xs (g s x)
