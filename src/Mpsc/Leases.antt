-- ===== src/Mpsc/Leases.antt =====
-- The slots and the bits of an `MpscProducerPool` under the interleavings of its leases.
use native.Mathlib.Decide.{ℕ_discrete}
use arbitro_kit.Prelude.{
  ℕ, ◌+◌, ◌*◌, ◌/◌, ◌%◌, ◌^◌, ◌<◌, ◌≡◌, ◌≢◌, refl, ap, sym, ◌∙◌, List, Option, none, some,
  get_elem?, get_elem?-set_self, get_elem?-set_ne, get_elem?-some_lt, set, arith, bit_or, bit_and,
  bit_not, bit, bit-or, bit-and, bit-not, bit-le, bit-pow_self, bit-pow_ne, pow-lt,
}

abbrev bit_in : ℕ → Option ℕ → ℕ
bit_in s none = 0
bit_in s (some w) = bit w (s % 64)

-- The bit of slot `s`, 0 out of range.
abbrev pub bit_at : List ℕ → ℕ → ℕ
bit_at ws s = bit_in s (get_elem? ws (s / 64))

-- A word replaced: what that does to the bit of slot `j`.
bit_at-set :
    (ws : List ℕ) (i w w' j : ℕ)
    → get_elem? ws i ≡ some w
    → (j / 64 ≡ i → bit w' (j % 64) ≡ bit w (j % 64))
    → bit_at (set ws i w') j ≡ bit_at ws j
bit_at-set ws i w w' j e same_bit = elim (ℕ_discrete i (j / 64)) [
  | no apart ↦ ap (bit_in j) (get_elem?-set_ne ws i (j / 64) w' apart)
  | yes same ↦
      ap (λ k. bit_in j (get_elem? (set ws i w') k)) (sym same)
      ∙ ap (bit_in j) (get_elem?-set_self ws i w' (get_elem?-some_lt ws i e))
      ∙ same_bit (sym same)
      ∙ sym (ap (bit_in j) (ap (get_elem? ws) (sym same) ∙ e))
]

bit_at-here :
    (ws : List ℕ) (i w w' s : ℕ)
    → get_elem? ws i ≡ some w
    → s / 64 ≡ i
    → bit_at (set ws i w') s ≡ bit w' (s % 64)
bit_at-here ws i w w' s e same =
    ap (λ k. bit_in s (get_elem? (set ws i w') k)) same
    ∙ ap (bit_in s) (get_elem?-set_self ws i w' (get_elem?-some_lt ws i e))

pub bit_at-set_self :
    (ws : List ℕ) (i b prev : ℕ)
    → get_elem? ws i ≡ some prev
    → b < 64
    → bit_at (set ws i (bit_or prev (2 ^ b))) (i * 64 + b) ≡ 1
bit_at-set_self ws i b prev e low =
    let at_b : (i * 64 + b) % 64 ≡ b = omega arith in
    bit_at-here ws i prev (bit_or prev (2 ^ b)) (i * 64 + b) e (omega arith)
    ∙ ap (bit (bit_or prev (2 ^ b))) at_b
    ∙ omega (arith, bit-or b prev (2 ^ b), bit-pow_self b, bit-le b prev)

pub bit_at-set_ne :
    (ws : List ℕ) (i b prev j : ℕ)
    → get_elem? ws i ≡ some prev
    → b < 64
    → i * 64 + b ≢ j
    → bit_at (set ws i (bit_or prev (2 ^ b))) j ≡ bit_at ws j
bit_at-set_ne ws i b prev j e low other = bit_at-set ws i prev (bit_or prev (2 ^ b)) j e (λ same.
    omega (
      arith,
      bit-or (j % 64) prev (2 ^ b),
      bit-pow_ne b (j % 64) (λ h. other (omega (arith, same, h))),
    ))

-- The bit of the slot before it is set.
pub bit_at-word :
    (ws : List ℕ) (i b prev : ℕ)
    → get_elem? ws i ≡ some prev
    → b < 64
    → bit_at ws (i * 64 + b) ≡ bit prev b
bit_at-word ws i b prev e low =
    let at_i : (i * 64 + b) / 64 ≡ i = omega arith in
    let at_b : (i * 64 + b) % 64 ≡ b = omega arith in
    ap (bit_in (i * 64 + b)) (ap (get_elem? ws) at_i ∙ e) ∙ ap (bit prev) at_b

pub bit_at-clear_self :
    (ws : List ℕ) (s w : ℕ)
    → get_elem? ws (s / 64) ≡ some w
    → bit_at (set ws (s / 64) (bit_and w (bit_not 64 (2 ^ (s % 64))))) s ≡ 0
bit_at-clear_self ws s w e =
    let low : s % 64 < 64 = omega arith in
    let keep : ℕ = bit_not 64 (2 ^ (s % 64)) in
    bit_at-here ws (s / 64) w (bit_and w keep) s e refl
    ∙ omega (
      arith,
      bit-and (s % 64) w keep,
      bit-not 64 (s % 64) (2 ^ (s % 64)) low (pow-lt (s % 64) 64 low),
      bit-pow_self (s % 64),
    )

pub bit_at-clear_ne :
    (ws : List ℕ) (s w j : ℕ)
    → get_elem? ws (s / 64) ≡ some w
    → s ≢ j
    → bit_at (set ws (s / 64) (bit_and w (bit_not 64 (2 ^ (s % 64))))) j ≡ bit_at ws j
bit_at-clear_ne ws s w j e other =
    let low : s % 64 < 64 = omega arith in
    let low_j : j % 64 < 64 = omega arith in
    let keep : ℕ = bit_not 64 (2 ^ (s % 64)) in
    bit_at-set ws (s / 64) w (bit_and w keep) j e (λ same. omega (
      arith,
      bit-and (j % 64) w keep,
      bit-not 64 (j % 64) (2 ^ (s % 64)) low_j (pow-lt (s % 64) 64 low),
      bit-pow_ne (s % 64) (j % 64) (λ h. other (omega (arith, same, h))),
      bit-le (j % 64) w,
    ))
