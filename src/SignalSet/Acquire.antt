-- ===== src/SignalSet/Acquire.antt =====
-- The `acquire` loops of src/gate/signal_set.rs, through the `wait_until` of the waiter. What the other threads do
-- while the caller sleeps is a list of functions on the set. The async methods differ in their backend.
use arbitro_kit.Prelude.{
  ℕ, ◌≡◌, Bool, true, false, not, List, ◌∷◌, Option, some, none, ◌==◌, if◌then◌else◌, ◌>>=◌,
  get_elem?, Bool-cases, Option-cases, inl, inr, bit_and, bit, ◌<◌, ◌/◌, sym, ap, ◌∙◌, length,
  unsome, arith,
}
use arbitro_kit.Waiter.{Waiter}
use arbitro_kit.Waiter.Sleep.{Sleeper, Wakes, Waited, returned, wait_until, wait_until-wakes}
use arbitro_kit.SignalSet.Gates.{IsWide, any_open-none, release-opens}
use arbitro_kit.SignalSet.Defs.{
  SignalSet, is_open, release, capacity_bits, any_open, all_open, state_chunk, any_chunk_open,
}

module _ {N W : Type 0} ⦃w : Waiter W⦄ ⦃sl : Sleeper W⦄ where
  -- A wait on the set's waiter.
  unfoldable pub wait_for :
      (SignalSet N W → Option Bool)
      → List (SignalSet N W → SignalSet N W)
      → SignalSet N W
      → Option (Waited (SignalSet N W))
  wait_for ready events s =
      wait_until (λ x. x.waiter) (λ y x. record x { waiter = y }) ready events s

  -- `acquire_any`, and `acquire_any_async`.
  unfoldable pub acquire_any :
      List (SignalSet N W → SignalSet N W) → SignalSet N W → ℕ → Option (Waited (SignalSet N W))
  acquire_any events s m = wait_for (λ x. any_open x m) events s

  -- `acquire_all`, and `acquire_all_async`.
  unfoldable pub acquire_all :
      List (SignalSet N W → SignalSet N W) → SignalSet N W → ℕ → Option (Waited (SignalSet N W))
  acquire_all events s m = wait_for (λ x. all_open x m) events s

  -- `acquire`, and `acquire_async`.
  unfoldable pub acquire :
      List (SignalSet N W → SignalSet N W) → SignalSet N W → Option (Waited (SignalSet N W))
  acquire events s = wait_for (λ x. state_chunk x 0 >>= λ word. some (not (word == 0))) events s

  -- `acquire_any_chunk`, and `acquire_any_chunk_async`.
  unfoldable pub acquire_any_chunk :
      List (SignalSet N W → SignalSet N W) → SignalSet N W → Option (Waited (SignalSet N W))
  acquire_any_chunk events s = wait_for (λ x. some (any_chunk_open x.chunks)) events s

module _ {N W : Type 0} where
  -- A gate of the mask that is open makes `any_open` say yes.
  any_open-some :
      (s : SignalSet N W) (id m : ℕ)
      → IsWide s
      → id < 64
      → bit m id ≡ 1
      → is_open s id ≡ some true
      → any_open s m ≡ some true
  unfolding any_open is_open
  any_open-some s id m wide lt on opened =
      let chunk : id / 64 ≡ 0 = omega arith in
      elim (Option-cases (get_elem? s.chunks 0)) [
        | inl e ↦ absurd (cc (rw (chunk, e, ◌>>=◌) at opened))
        | inr (word, e) ↦ elim (Bool-cases (bit_and word m == 0)) [
          | inl none_open ↦
              let shut =
                (any_open-none s m word e (wide 0 word e)).1 (rw (e, ◌>>=◌, none_open)) id lt on in
              absurd (cc (sym opened ∙ shut))
          | inr some_open ↦ rw (e, ◌>>=◌, some_open)
        ]
      ]

-- What a thread does to the set in one `release` of gate `id`.
abbrev pub releases : {N W : Type 0} ⦃w : Waiter W⦄ → ℕ → SignalSet N W → SignalSet N W
releases id s = elim (release s id) [ none ↦ s | some s' ↦ s' ]

module _ {N W : Type 0} ⦃w : Waiter W⦄ ⦃sl : Sleeper W⦄ (known : Wakes W) where
  -- The release of a shut gate opens it, and wakes the caller that is asleep on the set.
  releases-shut :
      (s : SignalSet N W) (id : ℕ)
      → IsWide s
      → id < capacity_bits s
      → is_open s id ≡ some false
      → IsWide (releases id s)
        × (is_open (releases id s) id ≡ some true)
        × ((releases id s).waiter ≡ w.wake s.waiter)
  releases-shut s id wide lt shut =
      let (s1, b, e, wide1, opened, _, was, woke) = release-opens s id wide lt in
      let never : b ≡ false = unsome (sym was ∙ shut) in
      (
        rw (releases, e) wide1,
        rw (releases, e) opened,
        rw (releases, e) (woke ∙ ap (λ c. if c then s.waiter else w.wake s.waiter) never),
      )

  -- With every gate of its mask shut, `acquire_any` sleeps. If the next step of the others is the `release` of a
  -- gate of chunk 0 that is in the mask, the call returns, and leaves the gate open. This holds of every
  -- backend whose wake reaches a known waiter, if the set's waiter is known to it and each word fits 64 bits.
  pub acquire_any-released :
      (s : SignalSet N W) (id m : ℕ) (later : List (SignalSet N W → SignalSet N W))
      → IsWide s
      → 0 < length s.chunks
      → id < 64
      → bit m id ≡ 1
      → known.Known s.waiter
      → any_open s m ≡ some false
      → (t : SignalSet N W) × (acquire_any (releases id ∷ later) s m ≡ some (returned later t))
        × (is_open t id ≡ some true)
  unfolding acquire_any wait_for capacity_bits any_open is_open
  acquire_any-released s id m later wide some_chunk lt on knows shut =
      let s1 : SignalSet N W = record s { waiter = sl.arm s.waiter } in
      let (_, b, e, wide1, opened, _, was, _) = release-opens s1 id wide (omega arith) in
      let gate_shut : is_open s1 id ≡ some false = elim (Bool-cases b) [
        | inl was_open ↦
            absurd (cc (sym shut ∙ any_open-some s id m wide lt on (was ∙ ap some was_open)))
        | inr was_shut ↦ was ∙ ap some was_shut
      ] in
      let (wide2, open2, woke) = releases-shut s1 id wide (omega arith) gate_shut in
      let s2 : SignalSet N W = releases id s1 in
      let s3 : SignalSet N W = record s2 { waiter = sl.arm (sl.resume s2.waiter) } in
      let waited =
        wait_until-wakes (λ x. x.waiter) (λ y x. record x { waiter = y }) (λ x. any_open x m)
          (releases id) later s shut (known.has_worker-known s.waiter knows) shut
          (ap sl.awake woke ∙ known.awake-wake s.waiter knows)
          (any_open-some s3 id m wide2 lt on open2) in
      (record s3 { waiter = sl.leave s3.waiter }, waited, open2)
