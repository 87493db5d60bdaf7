-- ===== src/Mpmc/Rows.antt =====
-- What a consumer's operations do to its row of queues.
use mathlib.Core.List.{flatten}
use arbitro_kit.Prelude.{
  suc, ◌≡◌, refl, ap, ◌⊎◌, inl, inr, List, [], ◌∷◌, ◌++◌, Option, none, some, length,
}
use arbitro_kit.Waiter.{Waiter}
use arbitro_kit.Ring.Rx.{Call, returned, panicked}
use arbitro_kit.Ring.Feed.{feed, Call-cases}

-- The oldest item of the first queue that has one.
unfoldable pub first_item : {A : Type 0} → List (List A) → Option A × List (List A)
first_item [] = (none, [])
first_item ([] ∷ row) = ((first_item row).0, [] ∷ (first_item row).1)
first_item ((v ∷ q) ∷ row) = (some v, q ∷ row)

-- The producers' waiters after that: the one whose item was taken is woken.
unfoldable pub woken_first : {A W : Type 0} ⦃w : Waiter W⦄ → List (List A) → List W → List W
woken_first [] ws = ws
woken_first (q ∷ row) [] = []
woken_first ([] ∷ row) (x ∷ ws) = x ∷ woken_first row ws
woken_first ⦃w⦄ ((v ∷ q) ∷ row) (x ∷ ws) = w.wake x ∷ ws

-- A closure run over a row: what it makes of the items, and what is left of the queues.
unfoldable pub feed_row :
    {A S : Type 0} → (S → A → Call S) → S → List (List A) → Call S × List (List A)
feed_row f s [] = (returned s, [])
feed_row f s (q ∷ row) = elim (feed f s q).0 [
  | returned s' ↦ ((feed_row f s' row).0, [] ∷ (feed_row f s' row).1)
  | panicked s' ↦ (panicked s', (feed f s q).1 ∷ row)
]

feed-append :
    {A S : Type 0} (f : S → A → Call S) (xs ys : List A) (s : S)
    → ((s' : S) × ((feed f s xs).0 ≡ returned s') × (feed f s (xs ++ ys) ≡ feed f s' ys))
      ⊎ ((s' : S) × ((feed f s xs).0 ≡ panicked s')
          × (feed f s (xs ++ ys) ≡ (panicked s', (feed f s xs).1 ++ ys)))
unfolding feed
feed-append f [] ys s = inl (s, refl, refl)
feed-append f (x ∷ xs) ys s = elim (Call-cases (f s x)) [
  | inl (s', e) ↦ rw (e, feed) (feed-append f xs ys s')
  | inr (s', e) ↦ inr (s', rw (e, feed), rw (e, feed))
]

-- It sees the items queue by queue, each in order.
pub feed_row-flatten :
    {A S : Type 0} (f : S → A → Call S) (row : List (List A)) (s : S)
    → ((feed_row f s row).0 ≡ (feed f s (flatten row)).0)
      × (flatten (feed_row f s row).1 ≡ (feed f s (flatten row)).1)
      × (length (feed_row f s row).1 ≡ length row)
unfolding feed_row feed flatten
feed_row-flatten f [] s = (refl, refl, refl)
feed_row-flatten f (q ∷ row) s = elim (feed-append f q (flatten row) s) [
  | inl (s', e, fed) ↦
      let (out, left, n) = feed_row-flatten f row s' in
      (rw (e, feed_row, fed) out, rw (e, feed_row, fed) left, rw (e, feed_row) (ap suc n))
  | inr (s', e, fed) ↦ (rw (e, feed_row, fed), rw (e, feed_row, fed), rw (e, feed_row))
]

-- A closure that returns leaves nothing.
pub feed_row-returned :
    {A S : Type 0} (f : S → A → Call S) (row : List (List A)) (s s' : S)
    → (feed_row f s row).0 ≡ returned s'
    → flatten (feed_row f s row).1 ≡ []
unfolding feed_row flatten
feed_row-returned f [] s s' e = refl
feed_row-returned f (q ∷ row) s s' e = elim (Call-cases (feed f s q).0) [
  | inl (s1, q1) ↦ rw (q1, feed_row) (feed_row-returned f row s1 s' (rw (q1, feed_row) at e))
  | inr (s1, q1) ↦ cc (rw (q1, feed_row) at e)
]
