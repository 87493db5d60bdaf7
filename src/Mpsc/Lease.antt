-- ===== src/Mpsc/Lease.antt =====
-- The bit that `MpscProducerPool::acquire` picks in a word.
use arbitro_kit.Prelude.{
  ℕ, ◌+◌, ◌-◌, ◌*◌, ◌^◌, ◌<◌, ◌≡◌, ◌≢◌, ap, inl, inr, min, ◌==◌, arith, Bool-cases, bit_and,
  bit_not, bit, bit-and, bit-le, bit-high, bit_and-lt, bit_and-pow, trailing_zeros,
  bit-trailing_zeros, pow-pos,
}
use native.Mathlib.Decide.{dec_lt}
use arbitro_kit.Mpsc.Pool.{Pool, live_mask, free_bits}

pub live_mask-eq : (m i : ℕ) → live_mask m i ≡ 2 ^ (min ((i + 1) * 64) m - i * 64) - 1
unfolding live_mask
live_mask-eq m i = elim (Bool-cases (min ((i + 1) * 64) m - i * 64 == 64)) [
  | inl all ↦ let e : min ((i + 1) * 64) m - i * 64 ≡ 64 = ground arith in rw (all, e)
  | inr some_bits ↦ rw some_bits
]

-- The test of one bit.
pub bit_clear : (b w : ℕ) → bit_and w (2 ^ b) ≡ 0 → bit w b ≡ 0
bit_clear b w e = elim (dec_lt (bit w b) 1) [
  | yes small ↦ omega (arith, small)
  | no big ↦
      let one : bit w b ≡ 1 = omega (arith, bit-le b w) in
      absurd (omega (arith, pow-pos b, e, rw one at (bit_and-pow b w)))
]

pub bit_set : (b w : ℕ) → bit_and w (2 ^ b) ≢ 0 → bit w b ≡ 1
bit_set b w h = elim (dec_lt (bit w b) 1) [
  | yes small ↦
      let z : bit w b ≡ 0 = omega arith in absurd (h (rw (bit_and-pow b w, z) (omega arith)))
  | no big ↦ omega (arith, bit-le b w)
]

module _ {P : Type 0} where
  -- The lowest free bit of a word that has one is in range.
  pub free_bits-low :
      (pool : Pool P) (i cur : ℕ)
      → 0 < free_bits pool i cur
      → (trailing_zeros 64 (free_bits pool i cur) < 64)
        × (i * 64 + trailing_zeros 64 (free_bits pool i cur) < pool.m)
  free_bits-low pool i cur pos =
      let live : ℕ = min ((i + 1) * 64) pool.m - i * 64 in
      let free : ℕ = free_bits pool i cur in
      let b : ℕ = trailing_zeros 64 free in
      let small : free < 2 ^ 64 =
        bit_and-lt 64 (bit_not 64 cur) (live_mask pool.m i) (omega arith) in
      let (below, one) = bit-trailing_zeros 64 free small pos in
      let mask_one : 0 < bit (live_mask pool.m i) b =
        omega (arith, one, bit-and b (bit_not 64 cur) (live_mask pool.m i)) in
      elim (dec_lt b live) [
        | yes inside ↦ (below, omega (arith, inside))
        | no outside ↦ absurd (
            omega (
              arith,
              mask_one,
              ap (λ w. bit w b) (live_mask-eq pool.m i),
              bit-high live b (2 ^ live - 1) (omega (arith, pow-pos live)) (omega arith),
            ))
      ]
