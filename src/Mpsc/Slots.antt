-- ===== src/Mpsc/Slots.antt =====
-- The occupancy bits of an `MpscProducerPool` and its slots agree.
use native.Mathlib.Decide.{ℕ_discrete}
use arbitro_kit.Prelude.{
  ℕ, ◌+◌, ◌*◌, ◌/◌, ◌%◌, ◌^◌, ◌≤◌, ◌<◌, ◌≡◌, ◌≢◌, refl, ap, sym, ◌∙◌, ◌⊎◌, inl, inr, List, none,
  some, get_elem?, get_elem?-set_self, get_elem?-set_ne, get_elem?-some_lt, set, length, length-set,
  unsome, arith, bit_or, bit, bit-or, bit-le, bit-pow_self, bit-pow_ne, bit_or-lt, pow-lt,
}
use arbitro_kit.Mpsc.Pool.{Pool}

pub set-fits :
    (ws : List ℕ) (i v j w : ℕ)
    → ((k u : ℕ) → get_elem? ws k ≡ some u → u < 2 ^ 64)
    → v < 2 ^ 64
    → i < length ws
    → get_elem? (set ws i v) j ≡ some w
    → w < 2 ^ 64
set-fits ws i v j w all h lt e = elim (ℕ_discrete i j) [
  | yes same ↦
      let eq : v ≡ w = unsome (sym (get_elem?-set_self ws i v lt) ∙ rw (← same) at e) in
      omega (arith, eq)
  | no other ↦ all j w (sym (get_elem?-set_ne ws i j v other) ∙ e)
]

module _ {P : Type 0} where
  -- Slot `s` holds a producer if its bit is clear, and none if it is set.
  pub record Matches (pool : Pool P) (s : ℕ) : Type 0 where
    pub word : ℕ
    pub at_word : get_elem? pool.occupancy (s / 64) ≡ some word
    pub agree :
        ((bit word (s % 64) ≡ 0) × ((p : P) × (get_elem? pool.slots s ≡ some (some p))))
        ⊎ ((bit word (s % 64) ≡ 1) × (get_elem? pool.slots s ≡ some none))

  pub record Inv (pool : Pool P) : Type 0 where
    pub sized : length pool.slots ≡ pool.m
    pub words : length pool.occupancy ≡ 4
    pub few : pool.m ≤ 255
    pub fits : (i w : ℕ) → get_elem? pool.occupancy i ≡ some w → w < 2 ^ 64
    pub matches : (s : ℕ) → s < pool.m → Matches pool s

  -- The pool once a caller has set bit `b` of word `i` and taken the producer of the slot.
  abbrev pub occupy : Pool P → ℕ → ℕ → ℕ → Pool P
  occupy pool i b prev = record pool {
    occupancy = set pool.occupancy i (bit_or prev (2 ^ b));
    slots = set pool.slots (i * 64 + b) none;
  }

  -- A slot whose bit and content stay.
  pub Matches-keep :
      (pool pool' : Pool P) (s word' : ℕ) (m : Matches pool s)
      → get_elem? pool'.occupancy (s / 64) ≡ some word'
      → bit word' (s % 64) ≡ bit m.word (s % 64)
      → get_elem? pool'.slots s ≡ get_elem? pool.slots s
      → Matches pool' s
  Matches-keep pool pool' s word' m e same_bit same_slot = record {
    word = word';
    at_word = e;
    agree = elim m.agree [
      | inl (z, (p, h)) ↦ inl (same_bit ∙ z, (p, same_slot ∙ h))
      | inr (o, h) ↦ inr (same_bit ∙ o, same_slot ∙ h)
    ];
  }

  occupy-Matches :
      (pool : Pool P) (i b prev s : ℕ)
      → Inv pool
      → b < 64
      → i * 64 + b < pool.m
      → get_elem? pool.occupancy i ≡ some prev
      → s < pool.m
      → Matches (occupy pool i b prev) s
  occupy-Matches pool i b prev s inv hb hs e lt =
      let hi = get_elem?-some_lt pool.occupancy i e in
      elim (ℕ_discrete (i * 64 + b) s) [
        | yes same ↦
            let at_i : s / 64 ≡ i = omega arith in
            let at_b : s % 64 ≡ b = omega arith in
            record {
              word = bit_or prev (2 ^ b);
              at_word = rw at_i (get_elem?-set_self pool.occupancy i (bit_or prev (2 ^ b)) hi);
              agree = inr (
                rw at_b (omega (arith, bit-or b prev (2 ^ b), bit-pow_self b, bit-le b prev)),
                rw same (get_elem?-set_self pool.slots s none (omega (arith, inv.sized, lt))),
              );
            }
        | no other ↦
            let m = inv.matches s lt in
            let slot = get_elem?-set_ne pool.slots (i * 64 + b) s none other in
            elim (ℕ_discrete i (s / 64)) [
              | yes same ↦
                  let old : prev ≡ m.word = unsome (sym e ∙ rw (← same) at m.at_word) in
                  let off : b ≢ s % 64 = λ h. other (omega (arith, same, h)) in
                  Matches-keep pool _ s (bit_or prev (2 ^ b)) m
                    (rw (← same) (get_elem?-set_self pool.occupancy i (bit_or prev (2 ^ b)) hi))
                    (rw (← old)
                      (omega (arith, bit-or (s % 64) prev (2 ^ b), bit-pow_ne b (s % 64) off)))
                    slot
              | no apart ↦
                  Matches-keep pool _ s m.word m
                    (get_elem?-set_ne pool.occupancy i (s / 64) (bit_or prev (2 ^ b)) apart
                      ∙ m.at_word)
                    refl slot
            ]
      ]

  -- A free slot that a caller wins: it holds a producer, and the pool is in order once it is taken.
  pub occupy-Inv :
      (pool : Pool P) (i b prev : ℕ)
      → Inv pool
      → b < 64
      → i * 64 + b < pool.m
      → get_elem? pool.occupancy i ≡ some prev
      → bit prev b ≡ 0
      → (p : P) × (get_elem? pool.slots (i * 64 + b) ≡ some (some p)) × Inv (occupy pool i b prev)
  occupy-Inv pool i b prev inv hb hs e clear =
      let s : ℕ = i * 64 + b in
      let at_i : s / 64 ≡ i = omega arith in
      let at_b : s % 64 ≡ b = omega arith in
      let hi = get_elem?-some_lt pool.occupancy i e in
      let m = inv.matches s hs in
      let inv' : Inv (occupy pool i b prev) = record {
        sized = length-set pool.slots s none ∙ inv.sized;
        words = length-set pool.occupancy i (bit_or prev (2 ^ b)) ∙ inv.words;
        few = inv.few;
        fits = λ j w h.
            set-fits pool.occupancy i (bit_or prev (2 ^ b)) j w inv.fits
              (bit_or-lt 64 prev (2 ^ b) (inv.fits i prev e) (pow-lt b 64 hb)) hi h;
        matches = λ j lt. occupy-Matches pool i b prev j inv hb hs e lt;
      } in
      elim m.agree [
        | inr (o, h) ↦
            let old : prev ≡ m.word = unsome (sym e ∙ rw at_i at m.at_word) in
            absurd (omega (arith, clear, ap (λ w. bit w b) old, rw at_b at o))
        | inl (z, (p, h)) ↦ (p, h, inv')
      ]
