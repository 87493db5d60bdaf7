-- ===== src/Prelude/Bits.antt =====
-- The bits of a word, and what `&` and `|` do to them. The library has these operations by a
-- recursion on binary digits; here they are read one bit at a time.
use Prim.Native.Nat.{
  ℕ, zero, suc, ◌+◌, ◌-◌, ◌*◌, ◌/◌, ◌%◌, ◌^◌, ◌≤◌, ◌<◌, min, max, bit_and, bit_or, digits,
  bit_and-bitwise, bit_or-bitwise,
}
use mathlib.Core.Path.{◌≡◌, refl, ap, sym, ◌∙◌}
use mathlib.Core.Logic.{◌≢◌}
use native.Mathlib.Nat.{pow-suc, mod-lt, mod-eq_of_lt, mul-add-mod_self_left, div-add-mod}
use native.Mathlib.Omega.{arith}
use arbitro_kit.Prelude.Words.{pow-pos}

-- The digits of the first argument run out before the fuel does.
module _ (z : ℕ → ℕ) (f : ℕ → ℕ → ℕ) where
  digits-enough : (m n a b : ℕ) → a ≤ m → a ≤ n → digits z f m a b ≡ digits z f n a b
  digits-enough zero zero a b hm hn = refl
  digits-enough zero (suc n) zero b hm hn = refl
  digits-enough zero (suc n) (suc a) b hm hn = absurd (omega arith)
  digits-enough (suc m) zero zero b hm hn = refl
  digits-enough (suc m) zero (suc a) b hm hn = absurd (omega arith)
  digits-enough (suc m) (suc n) zero b hm hn = refl
  digits-enough (suc m) (suc n) (suc a) b hm hn =
      ap (λ (t : ℕ). t * 2 + f (suc a % 2) (b % 2))
        (digits-enough m n (suc a / 2) (b / 2) (omega arith) (omega arith))

and_low : (a b : ℕ) → bit_and a b ≡ bit_and (a / 2) (b / 2) * 2 + min (a % 2) (b % 2)
and_low zero b = omega (arith, bit_and-bitwise 0 b, bit_and-bitwise 0 (b / 2))
and_low (suc a) b = omega (
  arith,
  bit_and-bitwise (suc a) b,
  bit_and-bitwise (suc a / 2) (b / 2),
  digits-enough (λ y. 0) min a (suc a / 2) (suc a / 2) (b / 2) (omega arith) (omega arith),
)

or_low : (a b : ℕ) → bit_or a b ≡ bit_or (a / 2) (b / 2) * 2 + max (a % 2) (b % 2)
or_low zero b = omega (arith, bit_or-bitwise 0 b, bit_or-bitwise 0 (b / 2))
or_low (suc a) b = omega (
  arith,
  bit_or-bitwise (suc a) b,
  bit_or-bitwise (suc a / 2) (b / 2),
  digits-enough (λ y. y) max a (suc a / 2) (suc a / 2) (b / 2) (omega arith) (omega arith),
)

-- Bit `i` of `w`.
abbrev pub bit : ℕ → ℕ → ℕ
bit w zero = w % 2
bit w (suc i) = bit (w / 2) i

-- The remainder by `2 * m` keeps the lowest bit.
mod-double : (a m : ℕ) → 0 < m → a % (m * 2) ≡ a / 2 % m * 2 + a % 2
mod-double a m h =
    let q = a / 2 / m in
    let r = a / 2 % m * 2 + a % 2 in
    let small : r < m * 2 = omega (arith, mod-lt (a / 2) {m = m} h) in
    let split : m * 2 * q + r ≡ a = omega (arith, div-add-mod (a / 2) m) in
    ap (λ (t : ℕ). t % (m * 2)) (sym split) ∙ mul-add-mod_self_left (m * 2) q r ∙ mod-eq_of_lt small

bit_and-zero : (k a : ℕ) → a ≤ k → bit_and a 0 ≡ 0
bit_and-zero k zero h = omega (arith, bit_and-bitwise 0 0)
bit_and-zero zero (suc a) h = absurd (omega arith)
bit_and-zero (suc k) (suc a) h =
    omega (arith, and_low (suc a) 0, bit_and-zero k (suc a / 2) (omega arith))

-- `& (2 ^ k - 1)` is the remainder by `2 ^ k`.
pub bit_and-low_mask : (k a : ℕ) → bit_and a (2 ^ k - 1) ≡ a % 2 ^ k
bit_and-low_mask zero a = omega (arith, bit_and-zero a a (omega arith))
bit_and-low_mask (suc k) a =
    let pos : 0 < 2 ^ k = pow-pos k in
    let half : (2 ^ k * 2 - 1) / 2 ≡ 2 ^ k - 1 = omega arith in
    let odd : (2 ^ k * 2 - 1) % 2 ≡ 1 = omega arith in
    rw
      (
        pow-suc 2 k,
        mod-double a (2 ^ k) pos,
        and_low a (2 ^ k * 2 - 1),
        half,
        odd,
        bit_and-low_mask k (a / 2),
      )
      (omega arith)

pub bit-or : (i a b : ℕ) → bit (bit_or a b) i ≡ max (bit a i) (bit b i)
bit-or zero a b = omega (arith, or_low a b)
bit-or (suc i) a b =
    let half : bit_or a b / 2 ≡ bit_or (a / 2) (b / 2) = omega (arith, or_low a b) in
    rw half (bit-or i (a / 2) (b / 2))

pub bit-and : (i a b : ℕ) → bit (bit_and a b) i ≡ min (bit a i) (bit b i)
bit-and zero a b = omega (arith, and_low a b)
bit-and (suc i) a b =
    let half : bit_and a b / 2 ≡ bit_and (a / 2) (b / 2) = omega (arith, and_low a b) in
    rw half (bit-and i (a / 2) (b / 2))

pub bit-le : (i a : ℕ) → bit a i ≤ 1
bit-le zero a = omega arith
bit-le (suc i) a = bit-le i (a / 2)

pub bit-zero : (i : ℕ) → bit 0 i ≡ 0
bit-zero zero = refl
bit-zero (suc i) = bit-zero i

-- Bit `i` of the word that has bit `j` alone.
pub bit-pow_self : (i : ℕ) → bit (2 ^ i) i ≡ 1
bit-pow_self zero = refl
bit-pow_self (suc i) =
    rw (pow-suc 2 i) (let e : 2 ^ i * 2 / 2 ≡ 2 ^ i = omega arith in rw e (bit-pow_self i))

pub bit-pow_ne : (i j : ℕ) → i ≢ j → bit (2 ^ i) j ≡ 0
bit-pow_ne zero zero h = absurd (h refl)
bit-pow_ne zero (suc j) h = bit-zero j
bit-pow_ne (suc i) zero h = rw (pow-suc 2 i) (omega arith)
bit-pow_ne (suc i) (suc j) h =
    rw (pow-suc 2 i)
      (let e : 2 ^ i * 2 / 2 ≡ 2 ^ i = omega arith in rw e (bit-pow_ne i j (λ p. h (ap suc p))))

-- `w & (1 << i)` is zero exactly when bit `i` is.
pub bit_and-pow : (i w : ℕ) → bit_and w (2 ^ i) ≡ bit w i * 2 ^ i
bit_and-pow zero w = omega (arith, and_low w 1, bit_and-zero (w / 2) (w / 2) (omega arith))
bit_and-pow (suc i) w =
    let e : 2 ^ i * 2 / 2 ≡ 2 ^ i = omega arith in
    let even : 2 ^ i * 2 % 2 ≡ 0 = omega arith in
    rw (pow-suc 2 i, and_low w (2 ^ i * 2), e, even, bit_and-pow i (w / 2)) (omega arith)

-- `!w` in a word of `n` bits.
abbrev pub bit_not : ℕ → ℕ → ℕ
bit_not n w = 2 ^ n - 1 - w

pub bit-not : (n i w : ℕ) → i < n → w < 2 ^ n → bit (bit_not n w) i ≡ 1 - bit w i
bit-not zero i w h fits = absurd (omega arith)
bit-not (suc n) zero w h fits = omega (arith, pow-suc 2 n, pow-pos n)
bit-not (suc n) (suc i) w h fits =
    let e : (2 ^ suc n - 1 - w) / 2 ≡ 2 ^ n - 1 - w / 2 = omega (arith, pow-suc 2 n, pow-pos n) in
    rw e (bit-not n i (w / 2) (omega arith) (omega (arith, pow-suc 2 n)))

-- A word with no bit set is zero.
pub bits-eq-zero : (n w : ℕ) → w < 2 ^ n → ((i : ℕ) → i < n → bit w i ≡ 0) → w ≡ 0
bits-eq-zero zero w fits h = omega arith
bits-eq-zero (suc n) w fits h =
    let half : w / 2 ≡ 0 =
      bits-eq-zero n (w / 2) (omega (arith, pow-suc 2 n)) (λ i lt. h (suc i) (omega arith)) in
    omega (arith, h 0 (omega arith))

-- The operations stay within the width of their operands.
pub bit_or-lt : (k a b : ℕ) → a < 2 ^ k → b < 2 ^ k → bit_or a b < 2 ^ k
bit_or-lt zero a b h h' =
    let za : a ≡ 0 = omega arith in
    let zb : b ≡ 0 = omega arith in rw (za, zb) (omega (arith, bit_or-bitwise 0 0))
bit_or-lt (suc k) a b h h' =
    let half =
      bit_or-lt k (a / 2) (b / 2) (omega (arith, pow-suc 2 k)) (omega (arith, pow-suc 2 k)) in
    omega (arith, or_low a b, pow-suc 2 k, half)

pub bit_and-lt : (k a b : ℕ) → a < 2 ^ k → bit_and a b < 2 ^ k
bit_and-lt zero a b h = let za : a ≡ 0 = omega arith in rw za (omega (arith, bit_and-bitwise 0 b))
bit_and-lt (suc k) a b h =
    let half = bit_and-lt k (a / 2) (b / 2) (omega (arith, pow-suc 2 k)) in
    omega (arith, and_low a b, pow-suc 2 k, half)

pub pow-lt : (i k : ℕ) → i < k → 2 ^ i < 2 ^ k
pow-lt zero zero h = absurd (omega arith)
pow-lt zero (suc k) h = omega (arith, pow-suc 2 k, pow-pos k)
pow-lt (suc i) zero h = absurd (omega arith)
pow-lt (suc i) (suc k) h = omega (arith, pow-suc 2 k, pow-suc 2 i, pow-lt i k (omega arith))
