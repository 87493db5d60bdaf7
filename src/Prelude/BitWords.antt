-- ===== src/Prelude/BitWords.antt =====
-- Words by their bits, the lowest bit of a word, and what setting and clearing a bit do.
use Prim.Native.Nat.{ℕ, zero, suc, ◌-◌, ◌/◌, ◌%◌, ◌^◌, ◌≤◌, ◌<◌, max, bit_and, bit_or}
use mathlib.Core.Path.{subst, ◌≡◌, ◌∙◌}
use native.Mathlib.Decide.{ℕ_discrete}
use native.Mathlib.Nat.{pow-suc}
use native.Mathlib.Omega.{arith}
use arbitro_kit.Prelude.Words.{pow-pos}
use arbitro_kit.Prelude.Bits.{
  bit, bit-zero, bit-or, bit-and, bit-le, bit-not, bit_not, bit-pow_self, bit-pow_ne, bit_or-lt,
  bit_and-lt, pow-lt,
}

-- The bits beyond a word's width are zero.
pub bit-high : (k j w : ℕ) → w < 2 ^ k → k ≤ j → bit w j ≡ 0
bit-high zero j w h le = let z : w ≡ 0 = omega arith in rw z (bit-zero j)
bit-high (suc k) zero w h le = absurd (omega arith)
bit-high (suc k) (suc j) w h le = bit-high k j (w / 2) (omega (arith, pow-suc 2 k)) (omega arith)

-- The bits of a mask of ones.
pub bit-ones : (k j : ℕ) → j < k → bit (2 ^ k - 1) j ≡ 1
bit-ones zero j h = absurd (omega arith)
bit-ones (suc k) zero h = omega (arith, pow-suc 2 k, pow-pos k)
bit-ones (suc k) (suc j) h =
    let half : (2 ^ suc k - 1) / 2 ≡ 2 ^ k - 1 = omega (arith, pow-suc 2 k, pow-pos k) in
    rw half (bit-ones k j (omega arith))

-- Words with the same bits are the same.
pub bits-ext : (n a b : ℕ) → a < 2 ^ n → b < 2 ^ n → ((i : ℕ) → i < n → bit a i ≡ bit b i) → a ≡ b
bits-ext zero a b h h' e = omega arith
bits-ext (suc n) a b h h' e =
    let half : a / 2 ≡ b / 2 =
      bits-ext n (a / 2) (b / 2) (omega (arith, pow-suc 2 n)) (omega (arith, pow-suc 2 n))
        (λ i lt. e (suc i) (omega arith)) in
    omega (arith, e 0 (omega arith))

-- `trailing_zeros` of a word of `n` bits.
unfoldable pub trailing_zeros : ℕ → ℕ → ℕ
trailing_zeros zero w = 0
trailing_zeros (suc n) w =
    let later = trailing_zeros n (w / 2) in elim (w % 2) [ zero ↦ suc later | suc _ ↦ 0 ]

pub bit-trailing_zeros :
    (n w : ℕ) → w < 2 ^ n → 0 < w → (trailing_zeros n w < n) × (bit w (trailing_zeros n w) ≡ 1)
unfolding trailing_zeros
bit-trailing_zeros zero w h pos = absurd (omega arith)
bit-trailing_zeros (suc n) w h pos = elim (ℕ_discrete (w % 2) 0) [
  | yes even ↦
      let (below, set) = bit-trailing_zeros n (w / 2) (omega (arith, pow-suc 2 n)) (omega arith) in
      rw (trailing_zeros, even) (omega arith, set)
  | no odd ↦ let one : w % 2 ≡ 1 = omega arith in rw (trailing_zeros, one) (omega arith, one)
]

-- Setting a bit that is set changes nothing, and clearing a bit undoes setting it.
pub bit_or-set : (i w : ℕ) → i < 64 → w < 2 ^ 64 → bit w i ≡ 1 → bit_or w (2 ^ i) ≡ w
bit_or-set i w h fits e =
    bits-ext 64 (bit_or w (2 ^ i)) w (bit_or-lt 64 w (2 ^ i) fits (pow-lt i 64 h)) fits (λ j lt.
      elim (ℕ_discrete i j) [
        | yes same ↦
            let at_j : max (bit w i) (bit (2 ^ i) i) ≡ bit w i = omega (arith, e, bit-pow_self i) in
            subst (λ k. bit (bit_or w (2 ^ i)) k ≡ bit w k) same (bit-or i w (2 ^ i) ∙ at_j)
        | no other ↦ omega (arith, bit-or j w (2 ^ i), bit-pow_ne i j other)
      ])

pub bit_and-clear :
    (i w : ℕ)
    → i < 64
    → w < 2 ^ 64
    → bit w i ≡ 0
    → bit_and (bit_or w (2 ^ i)) (bit_not 64 (2 ^ i)) ≡ w
bit_and-clear i w h fits e =
    let small = pow-lt i 64 h in
    let big = bit_or-lt 64 w (2 ^ i) fits small in
    bits-ext 64 _ w (bit_and-lt 64 (bit_or w (2 ^ i)) (bit_not 64 (2 ^ i)) big) fits (λ j lt.
      elim (ℕ_discrete i j) [
        | yes same ↦
            subst (λ k. bit (bit_and (bit_or w (2 ^ i)) (bit_not 64 (2 ^ i))) k ≡ bit w k) same
              (omega (
                arith,
                e,
                bit-and i (bit_or w (2 ^ i)) (bit_not 64 (2 ^ i)),
                bit-not 64 i (2 ^ i) h small,
                bit-pow_self i,
              ))
        | no other ↦ omega (
          arith,
          bit-and j (bit_or w (2 ^ i)) (bit_not 64 (2 ^ i)),
          bit-not 64 j (2 ^ i) lt small,
          bit-pow_ne i j other,
          bit-or j w (2 ^ i),
          bit-le j w,
        )
      ])
