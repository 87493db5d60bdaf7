-- ===== src/Tests/PoolRuns.antt =====
-- Runs of the producer pool of src/route/mpsc.rs.
use arbitro_kit.Prelude.{
  ℕ, zero, suc, ◌^◌, ◌<◌, ◌≡◌, refl, inl, inr, [], ◌∷◌, none, some, get_elem?, unsome, arith,
  trailing_zeros, ◌≢◌, ◌⊎◌,
}
use arbitro_kit.Mpsc.Pool.{Pool, acquire, pool_from_producers, live_mask}
use arbitro_kit.Mpsc.Leases.{bit_at}
use arbitro_kit.Mpsc.Leasing.{
  Stage, picked, won, holds, returning, System, slot_of, move, set_bit, empty_slot, load, win, take,
  Reach, start, next,
}
use arbitro_kit.Mpsc.LeaseSafety.{leases_apart}
use arbitro_kit.Mpsc.Slots.{Inv, Matches}
use arbitro_kit.Mpsc.Held.{Finds, acquire-Finds}

-- slot 0 is leased, and slot 1 holds the producer 8
abbrev pool : Pool ℕ
pool = record { slots = none ∷ some 8 ∷ []; occupancy = 1 ∷ 0 ∷ 0 ∷ 0 ∷ []; m = 2 }

pool-fits : (i w : ℕ) → get_elem? {A = ℕ} (1 ∷ 0 ∷ 0 ∷ 0 ∷ []) i ≡ some w → w < 2 ^ 64
pool-fits zero w e = omega (arith, unsome e)
pool-fits (suc zero) w e = omega (arith, unsome e)
pool-fits (suc (suc zero)) w e = omega (arith, unsome e)
pool-fits (suc (suc (suc zero))) w e = omega (arith, unsome e)
pool-fits (suc (suc (suc (suc i)))) w e = cc

pool-Matches : (s : ℕ) → s < 2 → Matches pool s
pool-Matches zero h = record { word = 1; at_word = refl; agree = inr (refl, refl) }
pool-Matches (suc zero) h = record { word = 1; at_word = refl; agree = inl (refl, (8, refl)) }
pool-Matches (suc (suc s)) h = absurd (omega arith)

pool-Inv : Inv pool
pool-Inv = record {
  sized = refl;
  words = refl;
  few = omega arith;
  fits = pool-fits;
  matches = pool-Matches;
}

acquire-Finds_example : Finds pool (acquire ((λ q. q) ∷ []) pool)
acquire-Finds_example = acquire-Finds pool pool-Inv

-- Threads 1 and 2 both pick the bit of slot 0; thread 1 wins it, and has its producer.
abbrev fresh_pool : Pool ℕ
fresh_pool = record { slots = some 7 ∷ some 8 ∷ []; occupancy = 0 ∷ 0 ∷ 0 ∷ 0 ∷ []; m = 2 }

abbrev outside : System ℕ
outside = record { pool = fresh_pool; stages = λ t. Stage.idle }

abbrev one_picked : System ℕ
one_picked = move outside 1 fresh_pool (picked 0 0)

abbrev both_picked : System ℕ
both_picked = move one_picked 2 fresh_pool (picked 0 0)

abbrev one_won : System ℕ
one_won = move both_picked 1 (set_bit 0 0 0 fresh_pool) (won 0)

abbrev one_leased : System ℕ
one_leased = move one_won 1 (empty_slot 0 (set_bit 0 0 0 fresh_pool)) (holds 0 7)

leased_reach : Reach (7 ∷ 8 ∷ []) one_leased
unfolding pool_from_producers live_mask trailing_zeros
leased_reach =
    next
      (next
        (next (next (start fresh_pool refl) (load 1 0 0 refl (omega arith)))
          (load 2 0 0 refl (omega arith)))
        (win 1 0 0 0 refl refl refl))
      (take 1 0 7 refl refl)

leases_apart_example :
    (p : ℕ) × (get_elem? {A = ℕ} (7 ∷ 8 ∷ []) 0 ≡ some p)
    × (bit_at one_leased.pool.occupancy 0 ≡ 1)
    × (slot_of (one_leased.stages 2) ≢ some 0)
    × (((one_leased.stages 1 ≡ won 0) × (get_elem? one_leased.pool.slots 0 ≡ some (some p)))
        ⊎ (((one_leased.stages 1 ≡ holds 0 p) × (get_elem? one_leased.pool.slots 0 ≡ some none))
            ⊎ ((one_leased.stages 1 ≡ returning 0)
                × (get_elem? one_leased.pool.slots 0 ≡ some (some p)))))
leases_apart_example = leases_apart 1 2 0 leased_reach refl (λ e. omega (arith, e))
