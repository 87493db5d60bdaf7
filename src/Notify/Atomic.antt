-- ===== src/Notify/Atomic.antt =====
-- The functions of Notify.Calls as runs of the step relation of Notify.Race.
use arbitro_kit.Prelude.{
  ℕ, ◌+◌, ◌≡◌, refl, ◌∙◌, inl, inr, Bool, true, false, if◌then◌else◌, ◌==◌, not, arith, Bool-cases,
  wrapping_add,
}
use arbitro_kit.Notify.Tokio.{TokioNotify}
use arbitro_kit.Notify.Race.{
  Waker, idle, stored, probing, notifying, System, move, rmw, load, probe, notify_one, WakeRun,
  done, step,
}
use arbitro_kit.Notify.Calls.{WakeGate, wake}

-- The gate of a system.
abbrev pub gate : {tokio : TokioNotify} → System tokio → WakeGate tokio
gate s = record { notify = s.notify; armed = s.armed }

move_gone : {tokio : TokioNotify} (s : System tokio) (i : ℕ) (p : Waker) → (move s i p).wakers i ≡ p
move_gone s i p = ground arith

-- A run of one `wake` with `b` items in the waker's buffer.
RunsAs : {tokio : TokioNotify} → Bool → System tokio → ℕ → ℕ → WakeGate tokio → Type 0
RunsAs {tokio} seen s i b g =
    (t : System tokio) × WakeRun seen s t
    × (gate t ≡ g)
    × (t.items ≡ s.items + b)
    × (t.wakers i ≡ idle 0)
    × (t.task ≡ s.task)

notify-RunsAs :
    {tokio : TokioNotify} (seen : Bool) (s : System tokio) (i b : ℕ)
    → s.wakers i ≡ notifying b
    → RunsAs seen s i b (record (gate s) { notify = tokio.notify_one s.notify })
unfolding RunsAs
notify-RunsAs {tokio} seen s i b e = (
  _,
  step (notify_one i b e) (ground arith) done,
  refl,
  refl,
  move_gone (record s { items = s.items + b; notify = tokio.notify_one s.notify }) i (idle 0),
  refl,
)

probe-RunsAs :
    {tokio : TokioNotify} (seen : Bool) (s : System tokio) (i b : ℕ)
    → s.wakers i ≡ probing b
    → RunsAs seen s i b (wake 0 (λ g. g) (gate s))
unfolding RunsAs wake rmw
probe-RunsAs {tokio} seen s i b e =
    let u : System tokio = record s { items = s.items + b; armed = wrapping_add s.armed 0 } in
    let goes : Waker = if s.armed == 0 then idle 0 else notifying 0 in
    elim (Bool-cases (s.armed == 0)) [
      | inl none_armed ↦ (
        move u i goes,
        step (probe i b e) (ground arith) done,
        rw none_armed refl,
        refl,
        move_gone u i goes ∙ rw none_armed refl,
        refl,
      )
      | inr some_armed ↦
          let (t, run, g, n, w, k) =
            notify-RunsAs seen (move u i goes) i 0 (move_gone u i goes ∙ rw some_armed refl) in
          (t, step (probe i b e) (ground arith) run, g ∙ rw some_armed refl, omega (arith, n), w, k)
    ]

-- A call of `wake` that no other thread comes between is a run of its steps in the system of threads: it leaves
-- the gate as the function `wake` does, the items of its store buffer in memory and the task where it was.
pub wake-RunsAs :
    {tokio : TokioNotify} (seen : ℕ) (s : System tokio) (i b : ℕ)
    → s.wakers i ≡ stored b
    → (t : System tokio) × WakeRun (not (seen == 0)) s t
      × (gate t ≡ wake seen (λ g. g) (gate s))
      × (t.items ≡ s.items + b)
      × (t.wakers i ≡ idle 0)
      × (t.task ≡ s.task)
unfolding RunsAs wake
wake-RunsAs seen s i b e = elim (Bool-cases (seen == 0)) [
  | inl zero_seen ↦
      let (t, run, g, n, w, k) =
        probe-RunsAs false (move s i (probing b)) i b (move_gone s i (probing b)) in
      (t, rw zero_seen (step (load i b false e) refl run), g ∙ rw zero_seen, n, w, k)
  | inr armed_seen ↦
      let (t, run, g, n, w, k) =
        notify-RunsAs true (move s i (notifying b)) i b (move_gone s i (notifying b)) in
      (t, rw armed_seen (step (load i b true e) refl run), g ∙ rw armed_seen refl, n, w, k)
]
