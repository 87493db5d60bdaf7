-- ===== src/Mpsc/PoolNew.antt =====
-- `Mpsc::pool_from_producers`.
use arbitro_kit.Prelude.{
  ℕ, zero, suc, ◌/◌, ◌%◌, ◌≤◌, ◌<◌, ◌≡◌, refl, ap, sym, ◌∙◌, ◌⊎◌, inl, inr, List, [], ◌∷◌, none,
  some, leb, ltb, get_elem?, get_elem?-some_lt, map, length, arith, Bool-cases, unsome, bit-zero,
}
use arbitro_kit.Mpsc.Pool.{Pool, pool_from_producers}
use arbitro_kit.Mpsc.Slots.{Inv}

zeros-get : (k : ℕ) → k < 4 → get_elem? {A = ℕ} (0 ∷ 0 ∷ 0 ∷ 0 ∷ []) k ≡ some 0
zeros-get zero h = refl
zeros-get (suc zero) h = refl
zeros-get (suc (suc zero)) h = refl
zeros-get (suc (suc (suc zero))) h = refl
zeros-get (suc (suc (suc (suc k)))) h = absurd (omega arith)

module _ {P : Type 0} where
  slots-get :
      (ps : List P) (s : ℕ)
      → s < length ps
      → (p : P) × (get_elem? (map (λ p. some p) ps) s ≡ some (some p))
  slots-get [] s h = elim h [ ]
  slots-get (p ∷ ps) zero h = (p, refl)
  slots-get (p ∷ ps) (suc s) h = slots-get ps s (omega arith)

  length-slots : (ps : List P) → length (map (λ p. some p) ps) ≡ length ps
  length-slots [] = refl
  length-slots (p ∷ ps) = ap suc (length-slots ps)

  -- `pool_from_producers` panics unless there are 1 to 255 producers, and otherwise gives a pool in order in
  -- which each slot holds its producer.
  pub pool_from_producers-Inv :
      (ps : List P)
      → ((0 < length ps)
          × (length ps ≤ 255)
          × ((pool : Pool P) × (pool_from_producers ps ≡ some pool)
              × Inv pool
              × (pool.m ≡ length ps)))
        ⊎ (¬ ((0 < length ps) × (length ps ≤ 255)) × (pool_from_producers ps ≡ none))
  unfolding pool_from_producers
  pool_from_producers-Inv ps = elim (Bool-cases (ltb 0 (length ps))) [
    | inr empty ↦ inr (λ h. absurd (ground arith), rw empty)
    | inl some_left ↦ elim (Bool-cases (leb (length ps) 255)) [
      | inr many ↦ inr (λ h. absurd (ground arith), rw (some_left, many))
      | inl few ↦
          let pool : Pool P = record {
            slots = map (λ p. some p) ps;
            occupancy = 0 ∷ 0 ∷ 0 ∷ 0 ∷ [];
            m = length ps;
          } in
          let n : length ps ≤ 255 = ground arith in
          inl (
            ground arith,
            n,
            (
              pool,
              rw (some_left, few),
              record {
                sized = length-slots ps;
                words = refl;
                few = n;
                fits = λ i w e.
                    let z : 0 ≡ w =
                      unsome (sym (zeros-get i (get_elem?-some_lt (0 ∷ 0 ∷ 0 ∷ 0 ∷ []) i e)) ∙ e) in
                    omega (arith, z);
                matches = λ s lt. record {
                  word = 0;
                  at_word = zeros-get (s / 64) (omega (arith, lt, n));
                  agree = inl (bit-zero (s % 64), slots-get ps s lt);
                };
              },
              refl,
            ),
          )
    ]
  ]
