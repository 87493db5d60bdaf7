-- ===== src/Notify/Wakes.antt =====
-- The waking of a suspended task, in the system of Notify.Race.
use arbitro_kit.Prelude.{
  ℕ, ◌+◌, ◌<◌, ◌≡◌, refl, ap, ◌∙◌, ◌⊎◌, inl, inr, Bool, true, false, if◌then◌else◌, ◌==◌, arith,
  Bool-cases, wrapping_add,
}
use arbitro_kit.Notify.Tokio.{TokioNotify, Documented}
use arbitro_kit.Notify.Race.{
  Waker, idle, stored, probing, notifying, awaiting, System, move, rmw, load, probe, notify_one,
  Reach, WakeRun, done, step,
}
use arbitro_kit.Notify.Invariant.{armed_by, on_way, Reach-Inv}

module _ {tokio : TokioNotify} (doc : Documented tokio) where
  -- With a `Notify` as documented, while the task is suspended and there is an item in memory, its next poll
  -- completes, or some waker has yet to probe the gate or to call `notify_one`: no interleaving of the
  -- wakers, their store buffers, the polls and the cancellations loses the wake.
  pub no_lost_notify :
      {s : System tokio}
      → Reach s
      → s.task ≡ awaiting
      → 0 < s.items
      → ((tokio.poll s.notify).0 ≡ true) ⊎ ((i : ℕ) × (on_way (s.wakers i) ≡ true))
  no_lost_notify {s} r waits some_item = elim (Bool-cases (tokio.poll s.notify).0) [
    | inl ready ↦ inl ready
    | inr lacks ↦ inr ((Reach-Inv doc r).awaited waits some_item lacks)
  ]

  -- What a `wake` under way comes to while the task is suspended.
  Notifies : Bool → System tokio → Type 0
  Notifies seen s =
      (t : System tokio) × WakeRun seen s t × (t.task ≡ awaiting) × ((tokio.poll t.notify).0 ≡ true)

  move_lem : (s : System tokio) (i : ℕ) (p : Waker) → (move s i p).wakers i ≡ p
  move_lem s i p = ground arith

  notifying-Notifies :
      (seen : Bool) (s : System tokio) (i b : ℕ)
      → s.wakers i ≡ notifying b
      → tokio.alive s.notify ≡ true
      → s.task ≡ awaiting
      → Notifies seen s
  unfolding Notifies
  notifying-Notifies seen s i b e live waits =
      (_, step (notify_one i b e) (ground arith) done, waits, doc.poll-notify_one s.notify live)

  probing-Notifies :
      (seen : Bool) (s : System tokio) (i b : ℕ)
      → s.wakers i ≡ probing b
      → s.armed ≡ 1
      → tokio.alive s.notify ≡ true
      → s.task ≡ awaiting
      → Notifies seen s
  unfolding Notifies rmw
  probing-Notifies seen s i b e one live waits =
      let t : System tokio = record s { items = s.items + b; armed = wrapping_add s.armed 0 } in
      let (u, run, w, k) =
        notifying-Notifies seen (move t i (if s.armed == 0 then idle 0 else notifying 0)) i 0
          (move_lem t i (if s.armed == 0 then idle 0 else notifying 0) ∙ rw one) live waits in
      (u, step (probe i b e) (ground arith) run, w, k)

  stored-Notifies :
      (seen : Bool) (s : System tokio) (i b : ℕ)
      → s.wakers i ≡ stored b
      → s.armed ≡ 1
      → tokio.alive s.notify ≡ true
      → s.task ≡ awaiting
      → Notifies seen s
  unfolding Notifies
  stored-Notifies true s i b e one live waits =
      let (u, run, w, k) =
        notifying-Notifies true (move s i (notifying b)) i b (move_lem s i (notifying b)) live
          waits in
      (u, step (load i b true e) refl run, w, k)
  stored-Notifies false s i b e one live waits =
      let (u, run, w, k) =
        probing-Notifies false (move s i (probing b)) i b (move_lem s i (probing b)) one live
          waits in
      (u, step (load i b false e) refl run, w, k)

  wake-Notifies :
      (seen : Bool) (s : System tokio) (i : ℕ) (p : Waker)
      → s.wakers i ≡ p
      → on_way p ≡ true
      → s.armed ≡ 1
      → tokio.alive s.notify ≡ true
      → s.task ≡ awaiting
      → Notifies seen s
  wake-Notifies seen s i (idle b) e way one live waits = cc
  wake-Notifies seen s i (stored b) e way one live waits =
      stored-Notifies seen s i b e one live waits
  wake-Notifies seen s i (probing b) e way one live waits =
      probing-Notifies seen s i b e one live waits
  wake-Notifies seen s i (notifying b) e way one live waits =
      notifying-Notifies seen s i b e live waits

  -- With a `Notify` as documented, whenever the task is suspended while there is an item in memory, its next
  -- poll completes, or the steps that some `wake` under way has yet to take, and no others, make it complete,
  -- whatever the relaxed load of that `wake` reads.
  pub notify_arrives :
      {s : System tokio} (seen : Bool)
      → Reach s
      → s.task ≡ awaiting
      → 0 < s.items
      → (t : System tokio) × WakeRun seen s t
        × (t.task ≡ awaiting)
        × ((tokio.poll t.notify).0 ≡ true)
  unfolding Notifies
  notify_arrives {s} seen r waits some_item =
      let inv = Reach-Inv doc r in
      elim (no_lost_notify r waits some_item) [
        | inl has ↦ (s, done, waits, has)
        | inr (i, way) ↦
            wake-Notifies seen s i (s.wakers i) refl way (inv.count ∙ ap armed_by waits)
              (inv.future (rw waits)) waits
      ]
