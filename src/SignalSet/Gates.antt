-- ===== src/SignalSet/Gates.antt =====
-- What each gate looks like after an operation on another.
use arbitro_kit.Prelude.{
  ℕ, zero, suc, ◌*◌, ◌/◌, ◌%◌, ◌^◌, ◌<◌, ◌≤◌, ◌≡◌, ◌≢◌, ◌↔◌, refl, ap, sym, ◌∙◌, bit_and, bit_or,
  bit_not, bit, bit-or, bit-and, bit-le, bit-pow_self, bit-zero, bit-pow_ne, bit_and-pow, bit-not,
  bits-eq-zero, bit_or-lt, bit_and-lt, pow-lt, pow-pos, Bool, true, false, not, some, ◌==◌,
  if◌then◌else◌, ◌>>=◌, length, get_elem?, get_elem?-lt, get_elem?-some_lt, get_elem?-set_self,
  get_elem?-set_ne, length-set, set, arith,
}
use native.Mathlib.Decide.{ℕ_discrete}
use arbitro_kit.Waiter.{Waiter}
use arbitro_kit.SignalSet.Defs.{SignalSet, release, lock, is_open, any_open, capacity_bits}

scale-zero : (b p : ℕ) → b ≤ 1 → 0 < p → (b * p == 0) ≡ (b == 0)
scale-zero zero p h pos = ground arith
scale-zero (suc zero) p h pos = ground arith
scale-zero (suc (suc b)) p h pos = absurd (omega arith)

is_zero : {t : ℕ} → some (not (t == 0)) ≡ some false → t ≡ 0
is_zero {t} e = let f : not (t == 0) ≡ false = cc in ground arith

woken_if_shut :
    {A : Type 0} {t : ℕ} (x y : A) (b p : ℕ)
    → b ≤ 1
    → 0 < p
    → t ≡ b * p
    → (if t == 0 then y else x) ≡ (if not (b == 0) then x else y)
woken_if_shut x y b p h pos e = rw (e, scale-zero b p h pos) (ground arith)

module _ {N W : Type 0} where
  -- Each chunk fits a `u64`.
  abbrev pub IsWide : SignalSet N W → Type 0
  IsWide s = (c word : ℕ) → get_elem? s.chunks c ≡ some word → word < 2 ^ 64

  -- The gate's bit.
  pub is_open-bit :
      (s : SignalSet N W) (id : ℕ) {word : ℕ}
      → get_elem? s.chunks (id / 64) ≡ some word
      → is_open s id ≡ some (not (bit word (id % 64) == 0))
  unfolding is_open
  is_open-bit s id {word} e = rw (
    e,
    ◌>>=◌,
    bit_and-pow (id % 64) word,
    scale-zero (bit word (id % 64)) (2 ^ (id % 64)) (bit-le (id % 64) word) (pow-pos (id % 64)),
  )

  -- A gate in range, by its chunk and its place there.
  chunk-in_range :
      (s : SignalSet N W) (id : ℕ)
      → id < length s.chunks * 64
      → (word : ℕ) × (get_elem? s.chunks (id / 64) ≡ some word)
  chunk-in_range s id h = get_elem?-lt s.chunks (id / 64) (omega arith)

  elsewhere :
      (s : SignalSet N W) (c word' j : ℕ) (x : W)
      → c ≢ j / 64
      → is_open (record s { chunks = set s.chunks c word'; waiter = x }) j ≡ is_open s j
  unfolding is_open
  elsewhere s c word' j x other = rw (get_elem?-set_ne s.chunks c (j / 64) word' other)

  -- One chunk replaced: what that does to gate `j`.
  replaced :
      (s : SignalSet N W) (c word' j : ℕ) (x : W) {word : ℕ}
      → get_elem? s.chunks c ≡ some word
      → (j / 64 ≡ c → bit word' (j % 64) ≡ bit word (j % 64))
      → is_open (record s { chunks = set s.chunks c word'; waiter = x }) j ≡ is_open s j
  replaced s c word' j x {word = word} e same = elim (ℕ_discrete c (j / 64)) [
    | yes here ↦
        let before : get_elem? s.chunks (j / 64) ≡ some word =
          ap (get_elem? s.chunks) (sym here) ∙ e in
        let after : get_elem? (set s.chunks c word') (j / 64) ≡ some word' =
          ap (get_elem? (set s.chunks c word')) (sym here)
          ∙ get_elem?-set_self s.chunks c word' (get_elem?-some_lt s.chunks c e) in
        is_open-bit _ j after
        ∙ ap (λ b. some (not (b == 0))) (same (sym here))
        ∙ sym (is_open-bit s j before)
    | no other ↦ elsewhere s c word' j x other
  ]

  -- Every chunk still fits after one of them is replaced by one that does.
  replaced-IsWide :
      (s : SignalSet N W) (c word' : ℕ) (x : W)
      → IsWide s
      → word' < 2 ^ 64
      → IsWide (record s { chunks = set s.chunks c word'; waiter = x })
  replaced-IsWide s c word' x wide fits c' word e = elim (ℕ_discrete c c') [
    | yes here ↦
        let bound : c < length s.chunks = omega (
          arith,
          here,
          length-set s.chunks c word',
          get_elem?-some_lt (set s.chunks c word') c' e,
        ) in
        let written : some word' ≡ some word =
          sym (get_elem?-set_self s.chunks c word' bound)
          ∙ ap (get_elem? (set s.chunks c word')) here
          ∙ e in
        let same : word' ≡ word = cc in omega (arith, same, fits)
    | no other ↦ wide c' word (sym (get_elem?-set_ne s.chunks c c' word' other) ∙ e)
  ]

  -- Opening a gate in range opens it, leaves every other gate as it was, and wakes the consumer exactly if
  -- the gate was shut before.
  pub release-opens :
      ⦃w : Waiter W⦄ (s : SignalSet N W) (id : ℕ)
      → IsWide s
      → id < capacity_bits s
      → (s' : SignalSet N W) × (b : Bool) × (release s id ≡ some s')
        × IsWide s'
        × (is_open s' id ≡ some true)
        × ((j : ℕ) → j ≢ id → is_open s' j ≡ is_open s j)
        × (is_open s id ≡ some b)
        × (s'.waiter ≡ (if b then s.waiter else w.wake s.waiter))
  unfolding release capacity_bits
  release-opens ⦃w = w⦄ s id wide h =
      let (word, e) = chunk-in_range s id h in
      let m : ℕ = 2 ^ (id % 64) in
      let word' : ℕ = bit_or word m in
      let x : W = if bit_and word m == 0 then w.wake s.waiter else s.waiter in
      let s' : SignalSet N W = record s { chunks = set s.chunks (id / 64) word'; waiter = x } in
      let after : get_elem? s'.chunks (id / 64) ≡ some word' =
        get_elem?-set_self s.chunks (id / 64) word' (get_elem?-some_lt s.chunks (id / 64) e) in
      let raised : bit word' (id % 64) ≡ 1 =
        omega (arith, bit-or (id % 64) word m, bit-pow_self (id % 64), bit-le (id % 64) word) in
      (
        s',
        not (bit word (id % 64) == 0),
        rw (e, ◌>>=◌),
        replaced-IsWide s (id / 64) word' x wide
            (bit_or-lt 64 word m (wide (id / 64) word e) (pow-lt (id % 64) 64 (omega arith))),
        is_open-bit s' id after ∙ rw raised,
        λ j other. replaced s (id / 64) word' j x e (λ near. omega (
          arith,
          bit-or (j % 64) word m,
          bit-pow_ne (id % 64) (j % 64) (λ same. other (omega (arith, near, same))),
        )),
        is_open-bit s id e,
        woken_if_shut s.waiter (w.wake s.waiter) (bit word (id % 64)) m (bit-le (id % 64) word)
            (pow-pos (id % 64)) (bit_and-pow (id % 64) word),
      )

  -- Locking a gate in range shuts it and leaves every other gate, and the waiter, as they were.
  pub lock-shuts :
      (s : SignalSet N W) (id : ℕ)
      → IsWide s
      → id < capacity_bits s
      → (s' : SignalSet N W) × (lock s id ≡ some s')
        × IsWide s'
        × (is_open s' id ≡ some false)
        × ((j : ℕ) → j ≢ id → is_open s' j ≡ is_open s j)
        × (s'.waiter ≡ s.waiter)
  unfolding lock capacity_bits
  lock-shuts s id wide h =
      let (word, e) = chunk-in_range s id h in
      let m : ℕ = 2 ^ (id % 64) in
      let small : m < 2 ^ 64 = pow-lt (id % 64) 64 (omega arith) in
      let word' : ℕ = bit_and word (bit_not 64 m) in
      let s' : SignalSet N W = record s { chunks = set s.chunks (id / 64) word' } in
      let after : get_elem? s'.chunks (id / 64) ≡ some word' =
        get_elem?-set_self s.chunks (id / 64) word' (get_elem?-some_lt s.chunks (id / 64) e) in
      let cleared : bit word' (id % 64) ≡ 0 = omega (
        arith,
        bit-and (id % 64) word (bit_not 64 m),
        bit-not 64 (id % 64) m (omega arith) small,
        bit-pow_self (id % 64),
      ) in
      (
        s',
        rw (e, ◌>>=◌),
        replaced-IsWide s (id / 64) word' s.waiter wide
            (bit_and-lt 64 word (bit_not 64 m) (wide (id / 64) word e)),
        is_open-bit s' id after ∙ rw cleared,
        λ j other. replaced s (id / 64) word' j s.waiter e (λ near. omega (
          arith,
          bit-and (j % 64) word (bit_not 64 m),
          bit-not 64 (j % 64) m (omega arith) small,
          bit-le (j % 64) word,
          bit-pow_ne (id % 64) (j % 64) (λ same. other (omega (arith, near, same))),
        )),
        refl,
      )

  gate-chunk0 :
      (s : SignalSet N W) (i : ℕ) {word : ℕ}
      → get_elem? s.chunks 0 ≡ some word
      → i < 64
      → is_open s i ≡ some (not (bit word i == 0))
  gate-chunk0 s i {word} e lt =
      let place : i % 64 ≡ i = omega arith in
      let chunk : i / 64 ≡ 0 = omega arith in
      is_open-bit s i (ap (get_elem? s.chunks) chunk ∙ e)
      ∙ ap (λ k. some (not (bit word k == 0))) place

  -- On chunk 0, `any_open` says no exactly of a mask whose gates are all shut.
  pub any_open-none :
      (s : SignalSet N W) (m word : ℕ)
      → get_elem? s.chunks 0 ≡ some word
      → word < 2 ^ 64
      → ((i : ℕ) → i < 64 → bit m i ≡ 1 → is_open s i ≡ some false) ↔ (any_open s m ≡ some false)
  unfolding any_open
  any_open-none s m word e fits = (
    λ shut.
        let clear : bit_and word m ≡ 0 =
          bits-eq-zero 64 (bit_and word m) (bit_and-lt 64 word m fits) (λ i lt.
            elim (ℕ_discrete (bit m i) 1) [
              | yes on ↦
                  let off : bit word i ≡ 0 = is_zero (sym (gate-chunk0 s i e lt) ∙ shut i lt on) in
                  omega (arith, bit-and i word m, off)
              | no off ↦ omega (arith, bit-and i word m, bit-le i m)
            ]) in
        rw (e, ◌>>=◌, clear),
    λ none_open i lt on.
        let clear : bit_and word m ≡ 0 = is_zero (rw (e, ◌>>=◌) at none_open) in
        let off : bit word i ≡ 0 =
          omega (arith, bit-and i word m, ap (λ x. bit x i) clear, bit-zero i, bit-le i word) in
        gate-chunk0 s i e lt ∙ ap (λ b. some (not (b == 0))) off,
  )
