-- ===== src/Mpsc/LeaseSafety.antt =====
-- What holds of the pool of src/route/mpsc.rs whatever the threads that lease from it do.
use arbitro_kit.Prelude.{
  ℕ, zero, suc, ◌≤◌, ◌<◌, ◌≡◌, ◌≢◌, refl, ap, ◌⊎◌, inl, inr, List, [], ◌∷◌, none, some, get_elem?,
  length, map, ltb, leb, arith, Bool-cases, unsome,
}
use mathlib.Core.Path.{subst}
use arbitro_kit.Mpsc.Pool.{Pool, pool_from_producers}
use arbitro_kit.Mpsc.Leases.{bit_at}
use arbitro_kit.Mpsc.Leasing.{
  Stage, won, holds, returning, System, slot_of, Step, load, win, lose, take, store, release, Reach,
  start, next,
}
use arbitro_kit.Mpsc.LeaseInv.{Leased}
use arbitro_kit.Mpsc.LeaseSteps.{
  load-Leased, lose-Leased, win-Leased, take-Leased, store-Leased, release-Leased,
}

module _ {P : Type 0} where
  all_home :
      (ps : List P) (k : ℕ)
      → k < length ps
      → get_elem? (map (λ p. some p) ps) k ≡ some (get_elem? ps k)
  all_home [] k h = elim h [ ]
  all_home (p ∷ ps) zero h = refl
  all_home (p ∷ ps) (suc k) h = all_home ps k (omega arith)

  length-all_home : (ps : List P) → length (map (λ p. some p) ps) ≡ length ps
  length-all_home [] = refl
  length-all_home (p ∷ ps) = ap suc (length-all_home ps)

  first_pool :
      (home : List P) (pool : Pool P)
      → pool_from_producers home ≡ some pool
      → (length home ≤ 255) × Leased home (record { pool = pool; stages = λ t. Stage.idle })
  unfolding pool_from_producers
  first_pool home pool e =
      let built : Pool P = record {
        slots = map (λ p. some p) home;
        occupancy = 0 ∷ 0 ∷ 0 ∷ 0 ∷ [];
        m = length home;
      } in
      elim (Bool-cases (ltb 0 (length home))) [
        | inr empty ↦ absurd (cc (rw empty at e))
        | inl some_left ↦ elim (Bool-cases (leb (length home) 255)) [
          | inr many ↦ absurd (cc (rw (some_left, many) at e))
          | inl few ↦
              let same : built ≡ pool = unsome (rw (some_left, few) at e) in
              (
                ground arith,
                subst (λ x. Leased home (record { pool = x; stages = λ t. Stage.idle })) same
                    (record {
                      sized = length-all_home home;
                      words = refl;
                      total = refl;
                      in_range = λ t i b e'. absurd (cc e');
                      sits = λ t k e'. absurd (cc e');
                      alone = λ t u k e' f. absurd (cc e');
                      free = λ k lt z. all_home home k lt;
                    }),
              )
        ]
      ]

  step-Leased :
      {home : List P} {s s' : System P}
      → length home ≤ 255
      → Leased home s
      → Step s s'
      → Leased home s'
  step-Leased {home} {s} few inv (load t i cur e pos) = load-Leased home s inv t i cur few pos
  step-Leased {home} {s} few inv (win t i b prev e at_i first) =
      win-Leased home s inv t i b prev e at_i first
  step-Leased {home} {s} few inv (lose t i b prev e at_i late) =
      lose-Leased home s inv t i b prev e at_i late
  step-Leased {home} {s} few inv (take t k p e cell) = take-Leased home s inv t k p e cell
  step-Leased {home} {s} few inv (store t k p pool e put) = store-Leased home s inv t k p pool e put
  step-Leased {home} {s} few inv (release t k pool e cleared) =
      release-Leased home s inv t k pool e cleared

  reach-Leased : {home : List P} {s : System P} → Reach home s → (length home ≤ 255) × Leased home s
  reach-Leased {home} (start pool e) = first_pool home pool e
  reach-Leased (next r step) = let (few, inv) = reach-Leased r in (few, step-Leased few inv step)

  -- However the loads, the `fetch_or`s, the `take()`s, and the two accesses of each lease's drop interleave, from
  -- the pool of the given producers: a thread on slot `k` has the bit of the slot set, and no other thread is on
  -- it. Until its `take()`, the slot holds its own producer, so that the `unwrap` does not panic; the lease then
  -- holds that producer, and the slot none; and after the store of the drop the slot holds it again.
  pub leases_apart :
      {home : List P} {s : System P} (t u k : ℕ)
      → Reach home s
      → slot_of (s.stages t) ≡ some k
      → u ≢ t
      → (p : P) × (get_elem? home k ≡ some p)
        × (bit_at s.pool.occupancy k ≡ 1)
        × (slot_of (s.stages u) ≢ some k)
        × (((s.stages t ≡ won k) × (get_elem? s.pool.slots k ≡ some (some p)))
            ⊎ (((s.stages t ≡ holds k p) × (get_elem? s.pool.slots k ≡ some none))
                ⊎ ((s.stages t ≡ returning k) × (get_elem? s.pool.slots k ≡ some (some p)))))
  leases_apart t u k r e other =
      let inv = (reach-Leased r).1 in
      let (p, h, one, place) = inv.sits t k e in
      (p, h, one, (λ e'. other (inv.alone u t k e' e)), place)
