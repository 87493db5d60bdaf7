-- ===== src/Mpsc/Held.antt =====
-- `MpscProducerPool::acquire` without interference.
use arbitro_kit.Prelude.{
  ℕ, zero, suc, ◌+◌, ◌-◌, ◌*◌, ◌/◌, ◌%◌, ◌^◌, ◌<◌, ◌≡◌, refl, sym, ◌∙◌, ◌⊎◌, inl, inr, min, true,
  false, [], ◌∷◌, Option, none, some, ◌>>=◌, ◌==◌, leb, get_elem?, get_elem?-lt, set, arith,
  Bool-cases, unsome, bit_and, bit_or, bit_not, bit, bit-and, bit-not, bit-le, bit-zero, bit-ones,
  bit_and-lt, bit_and-pow, trailing_zeros, bit-trailing_zeros,
}
use native.Mathlib.Decide.{dec_lt}
use arbitro_kit.Mpsc.Pool.{
  Pool, live_mask, free_bits, claim_bit, full, won, Acquired, lease, nothing, take_slot, scan_words,
  acquire,
}
use arbitro_kit.Mpsc.Slots.{Inv, occupy, occupy-Inv}
use arbitro_kit.Mpsc.Lease.{free_bits-low, live_mask-eq}

module _ {P : Type 0} where
  -- A word without a free bit: its slots hold no producer.
  word-held :
      (pool : Pool P) (i cur s : ℕ)
      → Inv pool
      → get_elem? pool.occupancy i ≡ some cur
      → free_bits pool i cur ≡ 0
      → s < pool.m
      → s / 64 ≡ i
      → get_elem? pool.slots s ≡ some none
  word-held pool i cur s inv e none_free lt at_i =
      let m = inv.matches s lt in
      let old : cur ≡ m.word = unsome (sym e ∙ rw at_i at m.at_word) in
      let live : ℕ = min ((i + 1) * 64) pool.m - i * 64 in
      elim m.agree [
        | inr (o, h) ↦ h
        | inl (z, _) ↦
            let free : bit (free_bits pool i cur) (s % 64) ≡ 0 = rw none_free (bit-zero (s % 64)) in
            let clear : bit cur (s % 64) ≡ 0 = rw old z in
            let unset : bit (bit_not 64 cur) (s % 64) ≡ 1 =
              omega (arith, bit-not 64 (s % 64) cur (omega arith) (inv.fits i cur e), clear) in
            let masked : bit (live_mask pool.m i) (s % 64) ≡ 1 =
              rw (live_mask-eq pool.m i) (bit-ones live (s % 64) (omega (arith, lt, at_i))) in
            absurd (
              omega (
                arith,
                free,
                unset,
                masked,
                bit-and (s % 64) (bit_not 64 cur) (live_mask pool.m i),
              ))
      ]

  -- A word with a free bit: its lowest one is won at the first attempt.
  claim_bit-first :
      (pool : Pool P) (i cur : ℕ)
      → Inv pool
      → get_elem? pool.occupancy i ≡ some cur
      → 0 < free_bits pool i cur
      → (b : ℕ) × (b < 64)
        × (i * 64 + b < pool.m)
        × (bit cur b ≡ 0)
        × (claim_bit ((λ q. q) ∷ []) i pool
            ≡ some
                (won b [], record pool { occupancy = set pool.occupancy i (bit_or cur (2 ^ b)) }))
  unfolding claim_bit
  claim_bit-first pool i cur inv e pos =
      let free : ℕ = free_bits pool i cur in
      let b : ℕ = trailing_zeros 64 free in
      let (low, inside) = free_bits-low pool i cur pos in
      let (_, one) =
        bit-trailing_zeros 64 free
          (bit_and-lt 64 (bit_not 64 cur) (live_mask pool.m i) (omega arith)) pos in
      let clear : bit cur b ≡ 0 = omega (
        arith,
        one,
        bit-and b (bit_not 64 cur) (live_mask pool.m i),
        bit-not 64 b cur low (inv.fits i cur e),
        bit-le b cur,
        bit-le b (live_mask pool.m i),
      ) in
      let some_free : (free == 0) ≡ false = ground arith in
      let first : bit_and cur (2 ^ b) ≡ 0 = rw (bit_and-pow b cur, clear) (omega arith) in
      (b, low, inside, clear, rw (e, ◌>>=◌, some_free, first))

  claim_bit-full :
      (pool : Pool P) (i cur : ℕ)
      → get_elem? pool.occupancy i ≡ some cur
      → free_bits pool i cur ≡ 0
      → claim_bit ((λ q. q) ∷ []) i pool ≡ some (full ((λ q. q) ∷ []), pool)
  unfolding claim_bit
  claim_bit-full pool i cur e none_free =
      let test : (free_bits pool i cur == 0) ≡ true = ground arith in rw (e, ◌>>=◌, test)

  -- What `acquire` finds: a slot that holds a producer, or nothing, and then no slot holds one.
  abbrev pub Finds : Pool P → Option (Acquired P × Pool P) → Type 0
  Finds pool out =
      ((s : ℕ) × (p : P) × (pool' : Pool P) × (out ≡ some (lease s p, pool'))
        × (get_elem? pool.slots s ≡ some (some p)))
      ⊎ ((out ≡ some (nothing, pool)) × ((s : ℕ) → s < pool.m → get_elem? pool.slots s ≡ some none))

  scan_words-Finds :
      (left i : ℕ) (pool : Pool P)
      → Inv pool
      → left + i ≡ 4
      → ((s : ℕ) → s < i * 64 → s < pool.m → get_elem? pool.slots s ≡ some none)
      → Finds pool (scan_words left i ((λ q. q) ∷ []) pool)
  unfolding scan_words take_slot
  scan_words-Finds zero i pool inv h held =
      inr (refl, λ s lt. held s (omega (arith, lt, inv.few)) lt)
  scan_words-Finds (suc left) i pool inv h held = elim (Bool-cases (leb pool.m (i * 64))) [
    | inl past ↦ inr (rw past, λ s lt. held s (ground arith) lt)
    | inr here ↦
        let (cur, e) = get_elem?-lt pool.occupancy i (omega (arith, inv.words)) in
        elim (dec_lt 0 (free_bits pool i cur)) [
          | yes some_free ↦
              let (b, hb, hs, clear, got) = claim_bit-first pool i cur inv e some_free in
              let (p, cell, _) = occupy-Inv pool i b cur inv hb hs e clear in
              let short : (i * 64 + b) % 2 ^ 16 ≡ i * 64 + b = omega (arith, hs, inv.few) in
              inl (
                i * 64 + b,
                p,
                occupy pool i b cur,
                rw (here, got, ◌>>=◌, cell, ◌>>=◌, short),
                cell,
              )
          | no none_free ↦
              let z : free_bits pool i cur ≡ 0 = omega (arith, none_free) in
              rw (here, claim_bit-full pool i cur e z, ◌>>=◌)
                (scan_words-Finds left (i + 1) pool inv (omega arith) (λ s lt lt'.
                  elim (dec_lt s (i * 64)) [
                    | yes before ↦ held s before lt'
                    | no now ↦ word-held pool i cur s inv e z lt' (omega (arith, lt, now))
                  ]))
        ]
  ]

  -- Without interference `acquire` leases a slot that holds its producer; it returns nothing only if no slot of
  -- the pool holds one, and then it leaves the pool alone.
  pub acquire-Finds : (pool : Pool P) → Inv pool → Finds pool (acquire ((λ q. q) ∷ []) pool)
  unfolding acquire
  acquire-Finds pool inv =
      scan_words-Finds 4 0 pool inv (omega arith) (λ s lt lt'. absurd (omega arith))
