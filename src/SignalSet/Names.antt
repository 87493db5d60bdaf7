-- ===== src/SignalSet/Names.antt =====
-- Building a set, and registering gates and finding them by name.
use arbitro_kit.Prelude.{
  unsome, ℕ, zero, suc, ◌+◌, ◌*◌, ◌/◌, ◌%◌, ◌<◌, ◌≤◌, ◌≡◌, ◌≢◌, ◌⊎◌, ◌↔◌, refl, ap, sym, ◌∙◌, Bool,
  true, false, not, List, [], ◌∷◌, Option, none, some, ltb, if◌then◌else◌, ◌==◌, ◌>>=◌, length,
  get_elem?, get_elem?-some_lt, get_elem?-set_self, get_elem?-set_ne, get_elem?-take,
  get_elem?-replicate, length-set, length-take, length-replicate, set, take, replicate, arith,
  Bool-cases, inl, inr, bit-zero,
}
use arbitro_kit.Waiter.{Waiter}
use arbitro_kit.SignalSet.Defs.{
  SignalSet, chunk_count, with_capacity, capacity_bits, create, name, find_name, id_of, is_open,
}
use arbitro_kit.SignalSet.Gates.{IsWide, is_open-bit}

get_elem?-replicate_inv :
    {A : Type 0} (n i : ℕ) (a : A) {b : A} → get_elem? (replicate n a) i ≡ some b → b ≡ a
get_elem?-replicate_inv zero i a e = cc
get_elem?-replicate_inv (suc n) zero a e = cc
get_elem?-replicate_inv (suc n) (suc i) a e = get_elem?-replicate_inv n i a e

least_chunks :
    {k : ℕ} (n_bits : ℕ)
    → k ≡ chunk_count n_bits
    → k * 64 < (if ltb n_bits 1 then 1 else n_bits) + 64
least_chunks n_bits e = ground (arith, e)

-- `with_capacity` gives the least whole number of chunks with `n_bits` bits, at least one, each gate shut and
-- none named.
pub with_capacity-shut :
    (N W : Type 0) ⦃w : Waiter W⦄ (n_bits : ℕ)
    → let s = with_capacity N {W = W} n_bits in
      (n_bits ≤ capacity_bits s)
      × (0 < capacity_bits s)
      × (capacity_bits s < (if ltb n_bits 1 then 1 else n_bits) + 64)
      × IsWide s
      × (length s.names ≡ capacity_bits s)
      × ((id : ℕ) → id < capacity_bits s → (is_open s id ≡ some false) × (name s id ≡ none))
unfolding with_capacity capacity_bits name
with_capacity-shut N W n_bits =
    let n : ℕ = chunk_count n_bits in
    let blank : Option N = none in
    let len : length (replicate n 0) ≡ n = length-replicate n 0 in
    (
      ground (arith, len),
      ground (arith, len),
      least_chunks n_bits len,
      λ c word e. omega (arith, get_elem?-replicate_inv n c 0 e),
      length-replicate (n * 64) none ∙ ap (λ k. k * 64) (sym len),
      λ id h.
          let at : get_elem? (replicate n 0) (id / 64) ≡ some 0 =
            get_elem?-replicate n (id / 64) 0 (omega (arith, len)) in
          (
            is_open-bit _ id at ∙ ap (λ b. some (not (b == 0))) (bit-zero (id % 64)),
            rw (get_elem?-replicate (n * 64) id blank (omega (arith, len)), ◌>>=◌),
          ),
    )

module _ {N W : Type 0} where
  -- On a set with a name slot for each gate, `create` hands out the next index and names it, without touching a gate or another name, and panics
  -- exactly when the set is full or 256 gates are registered.
  pub create-names :
      (s : SignalSet N W) (x : N)
      → length s.names ≡ capacity_bits s
      → ((s.next_id < capacity_bits s)
          × (s.next_id < 256)
          × ((s' : SignalSet N W) × (create x s ≡ some (s.next_id, s'))
              × (name s' s.next_id ≡ some x)
              × ((j : ℕ) → j ≢ s.next_id → name s' j ≡ name s j)
              × (s'.chunks ≡ s.chunks)
              × (s'.next_id ≡ s.next_id + 1)
              × (length s'.names ≡ capacity_bits s')))
        ⊎ (((capacity_bits s ≤ s.next_id) ⊎ (256 ≤ s.next_id)) × (create x s ≡ none))
  unfolding create name capacity_bits
  create-names s x sized = elim (Bool-cases (ltb s.next_id (length s.chunks * 64))) [
    | inl room ↦ elim (Bool-cases (ltb s.next_id 256)) [
      | inl fits ↦ inl (
        ground arith,
        ground arith,
        (
          record s { names = set s.names s.next_id (some x); next_id = s.next_id + 1 },
          rw (room, fits),
          rw (get_elem?-set_self s.names s.next_id (some x) (ground (arith, sized)), ◌>>=◌),
          λ j other. rw (get_elem?-set_ne s.names s.next_id j (some x) (λ e. other (sym e))),
          refl,
          refl,
          length-set s.names s.next_id (some x) ∙ sized,
        ),
      )
      | inr big ↦ inr (inr (ground arith), rw (room, big))
    ]
    | inr full ↦ inr (inl (ground arith), rw full)
  ]

absent :
    {N : Type 0} (o : Option N) (xs : List (Option N)) (x : N)
    → o ≢ some x
    → ((i : ℕ) → get_elem? xs i ≢ some (some x))
    → (i : ℕ) → get_elem? (o ∷ xs) i ≢ some (some x)
absent o xs x h hs zero e = h (unsome e)
absent o xs x h hs (suc i) e = hs i e

slot-named :
    {N : Type 0} {o : Option (Option N)} {x : N} → (o >>= λ slot. slot) ≡ some x → o ≡ some (some x)
slot-named {o = none} e = cc
slot-named {o = some none} e = cc
slot-named {o = some (some y)} e = ap some e

module _ {N : Type 0} (same : N → N → Bool) (lawful : (x y : N) → (same x y ≡ true) ↔ (x ≡ y)) where
  -- What the search finds from index `k` on.
  Found : List (Option N) → ℕ → N → Type 0
  Found xs k x =
      ((find_name same xs k x ≡ none) × ((i : ℕ) → get_elem? xs i ≢ some (some x)))
      ⊎ ((i : ℕ) × (find_name same xs k x ≡ some (k + i)) × (get_elem? xs i ≡ some (some x)))

  find_name-Found : (xs : List (Option N)) (k : ℕ) (x : N) → k + length xs ≤ 256 → Found xs k x
  unfolding find_name Found
  find_name-Found [] k x h = inl (refl, λ i e. cc)
  find_name-Found (none ∷ xs) k x h = elim (find_name-Found xs (k + 1) x (omega arith)) [
    | inl (e, no_such) ↦ inl (e, absent none xs x (λ e'. cc) no_such)
    | inr (i, e, at) ↦ inr (suc i, e ∙ ap some (omega arith), at)
  ]
  find_name-Found (some y ∷ xs) k x h = elim (Bool-cases (same y x)) [
    | inl hit ↦
        inr (zero, rw hit (ap some (omega arith)), ap (λ z. some (some z)) ((lawful y x).0 hit))
    | inr miss ↦
        let differs : y ≢ x = λ e. cc ((lawful y x).1 e) in
        elim (find_name-Found xs (k + 1) x (omega arith)) [
          | inl (e, no_such) ↦
              inl (rw miss e, absent (some y) xs x (λ e'. differs (unsome e')) no_such)
          | inr (i, e, at) ↦ inr (suc i, rw miss (e ∙ ap some (omega arith)), at)
        ]
  ]

  -- With at most 256 gates registered and a comparison of names that is equality, `id_of` finds a registered gate of that name, and finds none only if there is none.
  pub id_of-finds :
      {W : Type 0} (s : SignalSet N W) (x : N)
      → s.next_id ≤ 256
      → ((id_of same s x ≡ none) × ((i : ℕ) → i < s.next_id → name s i ≢ some x))
        ⊎ ((i : ℕ) × (id_of same s x ≡ some i) × (i < s.next_id) × (name s i ≡ some x))
  unfolding id_of name Found
  id_of-finds s x h =
      elim (find_name-Found (take s.next_id s.names) 0 x
        (omega (arith, length-take s.next_id s.names))) [
          | inl (e, no_such) ↦ inl (
            e,
            λ i lt named. no_such i (get_elem?-take s.next_id i s.names lt ∙ slot-named named),
          )
          | inr (i, e, at) ↦
              let lt : i < s.next_id = omega (
                arith,
                length-take s.next_id s.names,
                get_elem?-some_lt (take s.next_id s.names) i at,
              ) in
              let here : get_elem? s.names i ≡ some (some x) =
                sym (get_elem?-take s.next_id i s.names lt) ∙ at in
              inr (i, e ∙ ap some (omega arith), lt, rw (here, ◌>>=◌))
        ]
