-- ===== src/Prelude/Words.antt =====
-- `usize` as a native number below 2 ^ 64, with its wrap-around written out, and the powers of two
-- that a ring's capacity may be.
use Prim.Native.Nat.{ℕ, zero, suc, ◌+◌, ◌-◌, ◌%◌, ◌^◌, ◌≤◌, ◌<◌, ◌∣◌}
use mathlib.Core.Path.{◌≡◌, subst}
use mathlib.Core.Logic.{◌≢◌, ◌⊎◌, inl, inr}
use native.Mathlib.Nat.{
  pow-suc, mod-mod_of_dvd, mod-lt, mod-eq_of_lt, mod-eq-sub-mod, mod-add-mod, zero-add, suc-add,
}
use native.Mathlib.Nat.{dvd_refl, dvd-mul_right_of_dvd, one-le-pow, pow-le-pow_right}
use native.Mathlib.Decide.{dec_lt}
use native.Mathlib.Omega.{arith}

abbrev pub word_mod : ℕ
word_mod = 2 ^ 64

abbrev pub wrapping_add : ℕ → ℕ → ℕ
wrapping_add a b = (a + b) % word_mod

-- `-` on ℕ stops at 0, so the modulus is added first.
abbrev pub wrapping_sub : ℕ → ℕ → ℕ
wrapping_sub a b = (a + word_mod - b) % word_mod

-- Round a circle of `cap` places, `i` steps from `t`.
pub mod-add_cases :
    (t i cap : ℕ)
    → i < cap
    → ((t % cap + i < cap) × ((t + i) % cap ≡ t % cap + i))
      ⊎ ((cap ≤ t % cap + i) × ((t + i) % cap ≡ t % cap + i - cap))
mod-add_cases t i cap h = elim (dec_lt (t % cap + i) cap) [
  | yes p ↦ inl (p, omega (arith, mod-add-mod t cap i, mod-eq_of_lt p))
  | no p ↦ inr (
    omega arith,
    omega (
      arith,
      mod-lt t {m = cap} (omega arith),
      mod-add-mod t cap i,
      mod-eq-sub-mod {n = t % cap + i} {m = cap} (omega arith),
      mod-eq_of_lt {n = t % cap + i - cap} {m = cap}
          (omega (arith, mod-lt t {m = cap} (omega arith))),
    ),
  )
]

-- Different distances below `cap` lead to different places.
pub mod-add_inj : (t i j cap : ℕ) → i < cap → j < cap → i ≢ j → (t + i) % cap ≢ (t + j) % cap
mod-add_inj t i j cap hi hj ne e = ne (
    omega
      (arith, mod-lt t {m = cap} (omega arith), mod-add_cases t i cap hi, mod-add_cases t j cap hj))

-- A power of two below 2 ^ 64 divides it, so the wrap-around of a cursor is not seen modulo a
-- capacity.
pow-dvd-pow : (d k : ℕ) → 2 ^ k ∣ 2 ^ (d + k)
pow-dvd-pow zero k = rw zero-add (dvd_refl (2 ^ k))
pow-dvd-pow (suc d) k =
    rw (suc-add, pow-suc 2 (d + k)) (dvd-mul_right_of_dvd (2 ^ k) (pow-dvd-pow d k) 2)

pub mod-word_mod-mod : (x k : ℕ) → k < 64 → x % word_mod % 2 ^ k ≡ x % 2 ^ k
mod-word_mod-mod x k h =
    mod-mod_of_dvd (2 ^ k) x (
      let e : 64 - k + k ≡ 64 = omega arith in
      subst (λ n. 2 ^ k ∣ 2 ^ n) e (pow-dvd-pow (64 - k) k))

pub pow-pos : (k : ℕ) → 0 < 2 ^ k
pow-pos k = one-le-pow k 2 (omega arith)

pub pow-le_half : (k : ℕ) → k < 64 → 2 ^ k ≤ 2 ^ 63
pow-le_half k h = pow-le-pow_right {n = 2} (omega arith) {i = k} {j = 63} (omega arith)
