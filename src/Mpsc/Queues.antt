-- ===== src/Mpsc/Queues.antt =====
-- What an Mpsc channel promises: one FIFO queue for each producer, and a consumer that serves the first
-- one with an item.
use arbitro_kit.Prelude.{
  ℕ, suc, ◌+◌, Bool, List, [], ◌∷◌, ◌++◌, Option, none, some, length, set, get_elem?, leb, ◌||◌,
  if◌then◌else◌, Result, ok, err, ap, refl, ◌⊎◌, inl, inr, arith, zero, ◌≡◌, ◌≤◌,
}
use arbitro_kit.Ring.Queue.{Queue}

module _ {A : Type 0} where
  -- The oldest item of the first queue that has one.
  unfoldable pub take_first : List (Queue A) → Option A × List (Queue A)
  take_first [] = (none, [])
  take_first (q ∷ qs) = elim q.items [
    | [] ↦ ((take_first qs).0, q ∷ (take_first qs).1)
    | v ∷ rest ↦ (some v, record q { items = rest } ∷ qs)
  ]

  -- All items, queue by queue.
  unfoldable pub all_items : List (Queue A) → List A
  all_items [] = []
  all_items (q ∷ qs) = q.items ++ all_items qs

  unfoldable pub emptied : List (Queue A) → List (Queue A)
  emptied [] = []
  emptied (q ∷ qs) = record q { items = [] } ∷ emptied qs

  -- The queues whose producer is alive.
  unfoldable pub open_count : List (Queue A) → ℕ
  open_count [] = 0
  open_count (q ∷ qs) = (if q.closed then 0 else 1) + open_count qs

  pub open_count-set :
      (qs : List (Queue A)) (i : ℕ) {q : Queue A} (q' : Queue A)
      → get_elem? qs i ≡ some q
      → open_count (set qs i q') + (if q.closed then 0 else 1)
        ≡ open_count qs + (if q'.closed then 0 else 1)
  unfolding open_count
  open_count-set [] i q' e = cc
  open_count-set (x ∷ qs) zero {q} q' e = let same : x ≡ q = cc in rw same (omega arith)
  open_count-set (x ∷ qs) (suc i) q' e = omega (arith, open_count-set qs i q' e)

  pub open_count-le : (qs : List (Queue A)) → open_count qs ≤ length qs
  unfolding open_count
  open_count-le [] = omega arith
  open_count-le (q ∷ qs) = ground (arith, open_count-le qs)

  -- What a producer's `try_send` promises: the value is taken unless the channel is shut down or the
  -- queue is full.
  unfoldable pub offer : ℕ → Bool → Queue A → A → Result A (Unit {0}) × Queue A
  offer cap stop q v =
      if stop || leb cap (length q.items)
      then (err v, q)
      else (ok tt, record q { items = q.items ++ (v ∷ []) })

  Counts : List (Queue A) → Type 0
  Counts qs =
      (length (take_first qs).1 ≡ length qs) × (open_count (take_first qs).1 ≡ open_count qs)

  Counts-cons :
      (xs : List A) (b : Bool) (qs : List (Queue A))
      → Counts qs
      → Counts (record { items = xs; closed = b } ∷ qs)
  unfolding take_first open_count Counts
  Counts-cons [] b qs (n, k) = (ap suc n, ap (λ j. (if b then 0 else 1) + j) k)
  Counts-cons (x ∷ xs) b qs h = (refl, refl)

  -- Serving a queue neither opens nor closes one.
  pub take_first-counts :
      (qs : List (Queue A))
      → (length (take_first qs).1 ≡ length qs) × (open_count (take_first qs).1 ≡ open_count qs)
  unfolding take_first open_count Counts
  take_first-counts [] = (refl, refl)
  take_first-counts (q ∷ qs) = Counts-cons q.items q.closed qs (take_first-counts qs)

  pub emptied-counts :
      (qs : List (Queue A))
      → (length (emptied qs) ≡ length qs)
        × (open_count (emptied qs) ≡ open_count qs)
        × (all_items (emptied qs) ≡ [])
  unfolding emptied open_count all_items
  emptied-counts [] = (refl, refl, refl)
  emptied-counts (q ∷ qs) =
      let (n, k, e) = emptied-counts qs in
      (ap suc n, ap (λ j. (if q.closed then 0 else 1) + j) k, e)

  Finds : List (Queue A) → Type 0
  Finds qs =
      (((take_first qs).0 ≡ none) × (all_items qs ≡ []) × ((take_first qs).1 ≡ qs))
      ⊎ ((v : A) × (rest : List A) × ((take_first qs).0 ≡ some v)
          × (all_items qs ≡ v ∷ rest)
          × (all_items (take_first qs).1 ≡ rest))

  Finds-cons :
      (xs : List A) (b : Bool) (qs : List (Queue A))
      → Finds qs
      → Finds (record { items = xs; closed = b } ∷ qs)
  unfolding take_first all_items Finds
  Finds-cons [] b qs h = elim h [
    | inl (e, e', s) ↦ inl (e, e', ap (◌∷◌ (record { items = []; closed = b })) s)
    | inr (v, rest, e, e', s) ↦ inr (v, rest, e, e', s)
  ]
  Finds-cons (x ∷ xs) b qs h = inr (x, xs ++ all_items qs, refl, refl, refl)

  -- Nothing is found exactly if there is nothing.
  pub take_first-finds :
      (qs : List (Queue A))
      → (((take_first qs).0 ≡ none) × (all_items qs ≡ []) × ((take_first qs).1 ≡ qs))
        ⊎ ((v : A) × (rest : List A) × ((take_first qs).0 ≡ some v)
            × (all_items qs ≡ v ∷ rest)
            × (all_items (take_first qs).1 ≡ rest))
  unfolding take_first all_items Finds
  take_first-finds [] = inl (refl, refl, refl)
  take_first-finds (q ∷ qs) = Finds-cons q.items q.closed qs (take_first-finds qs)
