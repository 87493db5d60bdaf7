-- ===== src/Mpsc/LeaseSteps.antt =====
-- The steps of `MpscProducerPool::acquire`, and those of a lease's drop.
use arbitro_kit.Prelude.{
  ℕ, ◌+◌, ◌*◌, ◌^◌, ◌<◌, ◌≡◌, ◌≢◌, refl, ap, sym, ◌∙◌, inl, inr, List, none, some, get_elem?,
  get_elem?-lt, get_elem?-set_self, get_elem?-set_ne, get_elem?-some_lt, set, length, length-set,
  arith, Option-cases, unsome, bit_or, bit_and, bit_not, ◌/◌, ◌%◌, ◌>>=◌, ◌≤◌, bit, trailing_zeros,
}
use mathlib.Core.Path.{subst}
use native.Mathlib.Decide.{ℕ_discrete}
use arbitro_kit.Mpsc.Pool.{Pool, free_bits, put_back, clear_bit}
use arbitro_kit.Mpsc.Lease.{free_bits-low, bit_clear, bit_set}
use arbitro_kit.Mpsc.Leases.{bit_at, bit_at-set_self, bit_at-set_ne, bit_at-word, bit_at-clear_ne}
use arbitro_kit.Mpsc.Leasing.{
  idle, picked, won, holds, returning, System, slot_of, move, set_bit, empty_slot,
}
use arbitro_kit.Mpsc.LeaseInv.{Sits, Leased, moved}

-- Setting a bit that is set changes none.
set_again :
    (ws : List ℕ) (i b prev k : ℕ)
    → get_elem? ws i ≡ some prev
    → b < 64
    → bit prev b ≡ 1
    → bit_at (set ws i (bit_or prev (2 ^ b))) k ≡ bit_at ws k
set_again ws i b prev k e low one = elim (ℕ_discrete (i * 64 + b) k) [
  | no other ↦ bit_at-set_ne ws i b prev k e low other
  | yes same ↦
      ap (bit_at (set ws i (bit_or prev (2 ^ b)))) (sym same)
      ∙ bit_at-set_self ws i b prev e low
      ∙ sym (ap (bit_at ws) (sym same) ∙ bit_at-word ws i b prev e low ∙ one)
]

module _ {P : Type 0} (home : List P) (s : System P) (inv : Leased home s) where
  -- Where a thread stands on its slot.
  sits_won :
      (t k : ℕ)
      → s.stages t ≡ won k
      → (p : P) × (get_elem? home k ≡ some p)
        × (bit_at s.pool.occupancy k ≡ 1)
        × (get_elem? s.pool.slots k ≡ some (some p))
  sits_won t k e =
      let (p, h, one, place) = inv.sits t k (ap slot_of e) in
      (
        p,
        h,
        one,
        elim place [
          | inl (_, c) ↦ c
          | inr (inl (e', _)) ↦ absurd (cc (sym e ∙ e'))
          | inr (inr (_, c)) ↦ c
        ],
      )

  sits_holds :
      (t k : ℕ) (q : P)
      → s.stages t ≡ holds k q
      → (get_elem? home k ≡ some q)
        × (bit_at s.pool.occupancy k ≡ 1)
        × (get_elem? s.pool.slots k ≡ some none)
  sits_holds t k q e =
      let (p, h, one, place) = inv.sits t k (ap slot_of e) in
      elim place [
        | inl (e', _) ↦ absurd (cc (sym e ∙ e'))
        | inr (inl (e', c)) ↦ (cc (h, sym e ∙ e'), one, c)
        | inr (inr (e', _)) ↦ absurd (cc (sym e ∙ e'))
      ]

  sits_returning :
      (t k : ℕ)
      → s.stages t ≡ returning k
      → (p : P) × (get_elem? home k ≡ some p)
        × (bit_at s.pool.occupancy k ≡ 1)
        × (get_elem? s.pool.slots k ≡ some (some p))
  sits_returning t k e =
      let (p, h, one, place) = inv.sits t k (ap slot_of e) in
      (
        p,
        h,
        one,
        elim place [
          | inl (_, c) ↦ c
          | inr (inl (e', _)) ↦ absurd (cc (sym e ∙ e'))
          | inr (inr (_, c)) ↦ c
        ],
      )

  pub load-Leased :
      (t i cur : ℕ)
      → length home ≤ 255
      → 0 < free_bits s.pool i cur
      → Leased home (move s t s.pool (picked i (trailing_zeros 64 (free_bits s.pool i cur))))
  load-Leased t i cur few pos =
      let (low, inside) = free_bits-low s.pool i cur pos in
      moved home s t _ s.pool inv refl refl refl
        (λ j b e.
          let same_i : i ≡ j = cc e in
          let same_b : trailing_zeros 64 (free_bits s.pool i cur) ≡ b = cc e in
          (omega (arith, low, same_b), omega (arith, inside, same_i, same_b, inv.total)))
        (λ k e. absurd (cc e)) (λ u k other e. ((λ e'. cc e'), refl, refl)) inv.free

  pub lose-Leased :
      (t i b prev : ℕ)
      → s.stages t ≡ picked i b
      → get_elem? s.pool.occupancy i ≡ some prev
      → bit_and prev (2 ^ b) ≢ 0
      → Leased home (move s t (set_bit i b prev s.pool) idle)
  lose-Leased t i b prev e at_i late =
      let (low, inside) = inv.in_range t i b e in
      let same = λ (k : ℕ). set_again s.pool.occupancy i b prev k at_i low (bit_set b prev late) in
      moved home s t idle (set_bit i b prev s.pool) inv refl
        (length-set s.pool.occupancy i (bit_or prev (2 ^ b))) refl (λ j c e'. absurd (cc e'))
        (λ k e'. absurd (cc e')) (λ u k other e'. ((λ h. cc h), refl, same k))
        (λ k lt z. inv.free k lt (sym (same k) ∙ z))

  pub win-Leased :
      (t i b prev : ℕ)
      → s.stages t ≡ picked i b
      → get_elem? s.pool.occupancy i ≡ some prev
      → bit_and prev (2 ^ b) ≡ 0
      → Leased home (move s t (set_bit i b prev s.pool) (won (i * 64 + b)))
  win-Leased t i b prev e at_i first =
      let (low, inside) = inv.in_range t i b e in
      let k0 : ℕ = i * 64 + b in
      let zero_bit : bit_at s.pool.occupancy k0 ≡ 0 =
        bit_at-word s.pool.occupancy i b prev at_i low ∙ bit_clear b prev first in
      let one_bit = bit_at-set_self s.pool.occupancy i b prev at_i low in
      let (p, h) = get_elem?-lt home k0 inside in
      moved home s t (won k0) (set_bit i b prev s.pool) inv refl
        (length-set s.pool.occupancy i (bit_or prev (2 ^ b))) refl (λ j c e'. absurd (cc e'))
        (λ k e'.
          let same : k0 ≡ k = unsome e' in
          subst (λ k'. Sits home (set_bit i b prev s.pool) (won k0) k') same
            (p, h, one_bit, inl (refl, inv.free k0 inside zero_bit ∙ ap some h)))
        (λ u k other e'.
          let (_, _, one, _) = inv.sits u k e' in
          let apart : k0 ≢ k =
            λ same. absurd (omega (arith, one, zero_bit, ap (bit_at s.pool.occupancy) same)) in
          (
            (λ same. apart (unsome same)),
            refl,
            bit_at-set_ne s.pool.occupancy i b prev k at_i low apart,
          ))
        (λ k lt z. elim (ℕ_discrete k0 k) [
          | yes same ↦ absurd (
              omega (
                arith,
                z,
                one_bit,
                ap (bit_at (set s.pool.occupancy i (bit_or prev (2 ^ b)))) same,
              ))
          | no apart ↦
              inv.free k lt (sym (bit_at-set_ne s.pool.occupancy i b prev k at_i low apart) ∙ z)
        ])

  -- The steps on a slot that a thread is on leave the slots of the others alone.
  elsewhere :
      (t k u j : ℕ) → slot_of (s.stages t) ≡ some k → u ≢ t → slot_of (s.stages u) ≡ some j → k ≢ j
  elsewhere t k u j e other e' same = other (inv.alone u t j e' (e ∙ ap some same))

  pub take-Leased :
      (t k : ℕ) (q : P)
      → s.stages t ≡ won k
      → get_elem? s.pool.slots k ≡ some (some q)
      → Leased home (move s t (empty_slot k s.pool) (holds k q))
  take-Leased t k q e cell =
      let (p, h, one, c) = sits_won t k e in
      let same_p : p ≡ q = unsome (unsome (sym c ∙ cell)) in
      let lt = get_elem?-some_lt s.pool.slots k cell in
      moved home s t (holds k q) (empty_slot k s.pool) inv (length-set s.pool.slots k none) refl
        refl (λ i b e'. absurd (cc e'))
        (λ j e'.
          subst (λ j'. Sits home (empty_slot k s.pool) (holds k q) j') (unsome e')
            (
              q,
              h ∙ ap some same_p,
              one,
              inr (inl (refl, get_elem?-set_self s.pool.slots k none lt)),
            ))
        (λ u j other e'.
          let apart = elsewhere t k u j (ap slot_of e) other e' in
          ((λ same. apart (unsome same)), get_elem?-set_ne s.pool.slots k j none apart, refl))
        (λ j inside z.
          let apart : k ≢ j =
            λ same. absurd (omega (arith, one, z, ap (bit_at s.pool.occupancy) same)) in
          get_elem?-set_ne s.pool.slots k j none apart ∙ inv.free j inside z)

  pub store-Leased :
      (t k : ℕ) (q : P) (pool : Pool P)
      → s.stages t ≡ holds k q
      → put_back k q s.pool ≡ some pool
      → Leased home (move s t pool (returning k))
  unfolding put_back
  store-Leased t k q pool e put =
      let (h, one, c) = sits_holds t k q e in
      let lt = get_elem?-some_lt s.pool.slots k c in
      let full_pool : Pool P = record s.pool { slots = set s.pool.slots k (some q) } in
      let same_pool : full_pool ≡ pool = unsome (rw (c, ◌>>=◌) at put) in
      subst (λ x. Leased home (move s t x (returning k))) same_pool
        (moved home s t (returning k) full_pool inv (length-set s.pool.slots k (some q)) refl refl
          (λ i b e'. absurd (cc e'))
          (λ j e'.
            subst (λ j'. Sits home full_pool (returning k) j') (unsome e')
              (q, h, one, inr (inr (refl, get_elem?-set_self s.pool.slots k (some q) lt))))
          (λ u j other e'.
            let apart = elsewhere t k u j (ap slot_of e) other e' in
            ((λ same. apart (unsome same)), get_elem?-set_ne s.pool.slots k j (some q) apart, refl))
          (λ j inside z.
            let apart : k ≢ j =
              λ same. absurd (omega (arith, one, z, ap (bit_at s.pool.occupancy) same)) in
            get_elem?-set_ne s.pool.slots k j (some q) apart ∙ inv.free j inside z))

  pub release-Leased :
      (t k : ℕ) (pool : Pool P)
      → s.stages t ≡ returning k
      → clear_bit k s.pool ≡ some pool
      → Leased home (move s t pool idle)
  unfolding clear_bit
  release-Leased t k pool e cleared = elim (Option-cases (get_elem? s.pool.occupancy (k / 64))) [
    | inl out ↦ absurd (cc (rw (out, ◌>>=◌) at cleared))
    | inr (word, at_k) ↦
        let (p, h, one, c) = sits_returning t k e in
        let ws : List ℕ =
          set s.pool.occupancy (k / 64) (bit_and word (bit_not 64 (2 ^ (k % 64)))) in
        let free_pool : Pool P = record s.pool { occupancy = ws } in
        let same_pool : free_pool ≡ pool = unsome (rw (at_k, ◌>>=◌) at cleared) in
        subst (λ x. Leased home (move s t x idle)) same_pool
          (moved home s t idle free_pool inv refl
            (length-set s.pool.occupancy (k / 64) (bit_and word (bit_not 64 (2 ^ (k % 64))))) refl
            (λ i b e'. absurd (cc e')) (λ j e'. absurd (cc e'))
            (λ u j other e'.
              let apart = elsewhere t k u j (ap slot_of e) other e' in
              ((λ same. cc same), refl, bit_at-clear_ne s.pool.occupancy k word j at_k apart))
            (λ j inside z. elim (ℕ_discrete k j) [
              | yes same ↦
                  subst (λ j'. get_elem? s.pool.slots j' ≡ some (get_elem? home j')) same
                    (c ∙ ap some (sym h))
              | no apart ↦
                  inv.free j inside (sym (bit_at-clear_ne s.pool.occupancy k word j at_k apart) ∙ z)
            ]))
  ]
