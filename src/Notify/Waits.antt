-- ===== src/Notify/Waits.antt =====
-- How `NotifyWaiter::wait_until` ends, and what it does to the gate.
use arbitro_kit.Prelude.{
  ℕ, zero, suc, ◌+◌, ◌-◌, ◌*◌, ◌≤◌, ◌<◌, ◌≡◌, refl, ap, ◌∙◌, inl, inr, Bool, true, false, List, [],
  ◌∷◌, ◌++◌, if◌then◌else◌, replicate, arith, wrapping_add, wrapping_sub, word_mod, Bool-cases,
}
use arbitro_kit.Notify.Tokio.{TokioNotify}
use arbitro_kit.Notify.Calls.{
  WakeGate, notified, poll, disarm, drop_guarded, Event, polled, cancelled, Awaited, completed,
  dropped, pending, await_notified, Waited, returned, suspended, looking_armed, after_await,
  wait_loop, wait_until,
}

-- What the counter comes to from `n`.
abbrev pub armed_at : Waited → ℕ → ℕ
armed_at suspended n = wrapping_add n 1
armed_at looking_armed n = wrapping_add n 1
armed_at _ n = n

-- From a count of `m`, the gate is disarmed once the future is gone.
Disarms : {tokio : TokioNotify} → ℕ → Awaited tokio → Type 0
Disarms m (completed g events) = g.armed ≡ wrapping_sub m 1
Disarms m (dropped g) = g.armed ≡ wrapping_sub m 1
Disarms m (pending g) = g.armed ≡ m

await_notified-Disarms :
    {tokio : TokioNotify} (events : List (Event tokio)) (m : ℕ) (g : WakeGate tokio)
    → g.armed ≡ m
    → Disarms m (await_notified events g)
unfolding Disarms await_notified drop_guarded disarm poll
await_notified-Disarms [] m g e = e
await_notified-Disarms (cancelled ∷ events) m g e = rw e
await_notified-Disarms {tokio} (polled n ∷ events) m g e = elim (Bool-cases (tokio.poll n).0) [
  | inl ready ↦ rw (ready, e)
  | inr lacks ↦
      rw lacks (await_notified-Disarms events m (record g { notify = (tokio.poll n).1 }) e)
]

-- A wait that ends as `w.0`, from a gate that counts `m`.
Leaves : {tokio : TokioNotify} → ℕ → Waited × WakeGate tokio → Type 0
Leaves m (w, g) = g.armed ≡ armed_at w m

-- A goal about the end of an await, for each of its ends.
after_await-Leaves :
    {tokio : TokioNotify} (m : ℕ) (a : Awaited tokio)
    (next : WakeGate tokio → List (Event tokio) → Waited × WakeGate tokio)
    → m < word_mod
    → Disarms (wrapping_add m 1) a
    → ((g : WakeGate tokio) (events : List (Event tokio)) → g.armed ≡ m → Leaves m (next g events))
    → Leaves m (after_await a next)
unfolding Disarms Leaves after_await
after_await-Leaves m (completed g events) next h d k = k g events (omega arith)
after_await-Leaves m (dropped g) next h d k = omega arith
after_await-Leaves m (pending g) next h d k = d

wait_loop-Leaves :
    {tokio : TokioNotify} (answers : List Bool) (events : List (Event tokio)) (m : ℕ)
    (g : WakeGate tokio)
    → m < word_mod
    → g.armed ≡ m
    → Leaves m (wait_loop answers events g)
unfolding Leaves wait_loop notified drop_guarded disarm
wait_loop-Leaves [] events m g h e = rw e
wait_loop-Leaves (true ∷ answers) events m g h e = omega arith
wait_loop-Leaves {tokio} (false ∷ []) events m g h e =
    after_await-Leaves m _ _ h
      (await_notified-Disarms events (wrapping_add m 1) (notified g) (rw e)) (λ g' events' e'. e')
wait_loop-Leaves (false ∷ true ∷ answers) events m g h e =
    after_await-Leaves m _ _ h
      (await_notified-Disarms events (wrapping_add m 1) (notified g) (rw e)) (λ g' events' e'. e')
wait_loop-Leaves (false ∷ false ∷ answers) events m g h e =
    after_await-Leaves m _ _ h
      (await_notified-Disarms events (wrapping_add m 1) (notified g) (rw e))
      (λ g' events' e'. wait_loop-Leaves answers events' m g' h e')

-- However a wait stands, whatever the predicate answers and whatever happens while it is suspended, the gate
-- counts it exactly while its future is alive: one that has returned or that was cancelled leaves the count
-- as it was.
pub wait_until-disarms :
    {tokio : TokioNotify} (answers : List Bool) (events : List (Event tokio)) (g : WakeGate tokio)
    → g.armed < word_mod
    → (wait_until answers events g).1.armed ≡ armed_at (wait_until answers events g).0 g.armed
unfolding Leaves wait_until
wait_until-disarms [] events g h = refl
wait_until-disarms (true ∷ answers) events g h = refl
wait_until-disarms (false ∷ answers) events g h = wait_loop-Leaves answers events g.armed g h refl

-- How many polls of the future complete.
abbrev pub completions : {tokio : TokioNotify} → List (Event tokio) → ℕ
completions [] = 0
completions (cancelled ∷ events) = completions events
completions {tokio} (polled n ∷ events) = (if (tokio.poll n).0 then 1 else 0) + completions events

abbrev pub is_uncancelled : {tokio : TokioNotify} → List (Event tokio) → Bool
is_uncancelled [] = true
is_uncancelled (cancelled ∷ events) = false
is_uncancelled (polled n ∷ events) = is_uncancelled events

-- An await among such events comes to its end.
Completes : {tokio : TokioNotify} → ℕ → Awaited tokio → Type 0
Completes n (completed g events) = (n ≤ completions events) × (is_uncancelled events ≡ true)
Completes n (dropped g) = ⊥
Completes n (pending g) = ⊥

await_notified-Completes :
    {tokio : TokioNotify} (events : List (Event tokio)) (n : ℕ) (g : WakeGate tokio)
    → is_uncancelled events ≡ true
    → suc n ≤ completions events
    → Completes n (await_notified events g)
unfolding Completes await_notified
await_notified-Completes [] n g u h = absurd (omega arith)
await_notified-Completes (cancelled ∷ events) n g u h = cc
await_notified-Completes {tokio} (polled k ∷ events) n g u h = elim (Bool-cases (tokio.poll k).0) [
  | inl ready ↦ rw ready (omega (arith, rw ready at h), u)
  | inr lacks ↦ rw lacks (
      await_notified-Completes events n (poll (record g { notify = k })).1 u
        (omega (arith, rw lacks at h)))
]

-- The predicate answers false `k` times and then true.
abbrev pub at_last : ℕ → List Bool → List Bool
at_last k rest = replicate k false ++ (true ∷ rest)

Returns : {tokio : TokioNotify} → List Bool → Waited × WakeGate tokio → Type 0
Returns rest (w, g) = w ≡ returned rest

after_await-Returns :
    {tokio : TokioNotify} (n : ℕ) (rest : List Bool) (a : Awaited tokio)
    (next : WakeGate tokio → List (Event tokio) → Waited × WakeGate tokio)
    → Completes n a
    → ((g : WakeGate tokio) (events : List (Event tokio))
        → is_uncancelled events ≡ true
        → n ≤ completions events
        → Returns rest (next g events))
    → Returns rest (after_await a next)
unfolding Completes Returns after_await
after_await-Returns n rest (completed g events) next (c, u) k = k g events u c
after_await-Returns n rest (dropped g) next c k = elim c [ ]
after_await-Returns n rest (pending g) next c k = elim c [ ]

wait_loop-Returns :
    {tokio : TokioNotify} (k : ℕ) (rest : List Bool) (events : List (Event tokio))
    (g : WakeGate tokio)
    → is_uncancelled events ≡ true
    → k < 2 * completions events + 1
    → Returns rest (wait_loop (at_last k rest) events g)
unfolding Returns wait_loop
wait_loop-Returns zero rest events g u h = refl
wait_loop-Returns (suc zero) rest events g u h =
    after_await-Returns 0 rest _ _ (await_notified-Completes events 0 (notified g) u (omega arith))
      (λ g' events' u' c. refl)
wait_loop-Returns (suc (suc k)) rest events g u h =
    after_await-Returns (completions events - 1) rest _ _
      (await_notified-Completes events (completions events - 1) (notified g) u (omega arith))
      (λ g' events' u' c. wait_loop-Returns k rest events' g' u' (omega arith))

-- A wait that is not cancelled returns as soon as the predicate answers true, and its gate counts what it
-- did, once one await has completed for every two of the false answers that come before, the first aside.
pub wait_until-wakes :
    {tokio : TokioNotify} (k : ℕ) (rest : List Bool) (events : List (Event tokio))
    (g : WakeGate tokio)
    → g.armed < word_mod
    → is_uncancelled events ≡ true
    → k ≤ 2 * completions events + 1
    → ((wait_until (at_last k rest) events g).0 ≡ returned rest)
      × ((wait_until (at_last k rest) events g).1.armed ≡ g.armed)
unfolding Returns wait_until
wait_until-wakes zero rest events g h u c = (refl, refl)
wait_until-wakes (suc k) rest events g h u c =
    let e = wait_loop-Returns k rest events g u (omega arith) in
    (e, wait_until-disarms (at_last (suc k) rest) events g h ∙ ap (λ w. armed_at w g.armed) e)
