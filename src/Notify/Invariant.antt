-- ===== src/Notify/Invariant.antt =====
-- What holds in every state of the task and its wakers.
use native.Mathlib.Decide.{ℕ_discrete}
use mathlib.Core.Logic.{ite}
use arbitro_kit.Prelude.{
  ℕ, zero, suc, ◌+◌, ◌-◌, ◌≤◌, ◌<◌, ◌≡◌, refl, sym, ap, ◌∙◌, Bool, true, false, if◌then◌else◌, ◌==◌,
  arith, wrapping_add, wrapping_sub,
}
use arbitro_kit.Notify.Tokio.{TokioNotify, Documented}
use arbitro_kit.Notify.Race.{
  Waker, idle, stored, probing, notifying, Task, away, arming, armed, awaiting, leaving, disarming,
  System, move, rmw, Step, store, flush_idle, flush_stored, flush_probing, flush_notifying, load,
  probe, notify_one, arm, make_future, look_ready, look_empty, poll_ready, poll_pending, cancel,
  drop_future, disarm, take, Reach, start, next,
}

-- How many waiters the gate counts.
abbrev pub armed_by : Task → ℕ
armed_by away = 0
armed_by _ = 1

-- The task has a future that is not ready, as far as it knows.
abbrev pub has_future : Task → Bool
has_future armed = true
has_future awaiting = true
has_future _ = false

-- A waker on its way to a probe of the gate or to `notify_one`.
abbrev pub on_way : Waker → Bool
on_way (idle b) = false
on_way _ = true

-- Past `wake` the buffer is empty.
abbrev buffer_after : Waker → ℕ
buffer_after (idle b) = b
buffer_after _ = 0

pub record Inv {tokio : TokioNotify} (s : System tokio) : Type 0 where
  pub count : s.armed ≡ armed_by s.task
  pub future : has_future s.task ≡ true → tokio.alive s.notify ≡ true
  pub flushed : (i : ℕ) → buffer_after (s.wakers i) ≡ 0
  pub awaited :
      s.task ≡ awaiting
      → 0 < s.items
      → (tokio.poll s.notify).0 ≡ false
      → (i : ℕ) × (on_way (s.wakers i) ≡ true)

armed_by_le : (w : Task) → armed_by w ≤ 1
armed_by_le w = ground arith

module _ {tokio : TokioNotify} (s : System tokio) where
  -- One waker moves: the others keep their buffers, and those on their way stay so.
  move-flushed :
      (i : ℕ) (p : Waker)
      → ((j : ℕ) → buffer_after (s.wakers j) ≡ 0)
      → buffer_after p ≡ 0
      → (j : ℕ) → buffer_after ((move s i p).wakers j) ≡ 0
  move-flushed i p all h j =
      elim (ℕ_discrete i j) as (λ d. buffer_after (ite d p (s.wakers j)) ≡ 0) [
        | yes same ↦ h
        | no other ↦ all j
      ]

  move-on_way : (i : ℕ) (p : Waker) → on_way p ≡ true → on_way ((move s i p).wakers i) ≡ true
  move-on_way i p h = ground arith

  -- A waker moves along, and some items may reach memory.
  Inv-move :
      (n k i : ℕ) (p : Waker)
      → Inv s
      → s.armed ≡ k
      → on_way p ≡ true
      → buffer_after p ≡ 0
      → Inv (move (record s { items = n; armed = k }) i p)
  Inv-move n k i p inv e way clean = record {
    count = sym e ∙ inv.count;
    future = inv.future;
    flushed = move-flushed i p inv.flushed clean;
    awaited = λ e' h g. (i, move-on_way i p way);
  }

  -- A waker is done. That is only while the task is not suspended or once its future is ready.
  Inv-done :
      (n k i : ℕ) (notify : tokio.State)
      → Inv s
      → s.armed ≡ k
      → (has_future s.task ≡ true → tokio.alive notify ≡ true)
      → (s.task ≡ awaiting → (tokio.poll notify).0 ≡ true)
      → Inv (move (record s { items = n; armed = k; notify = notify }) i (idle 0))
  Inv-done n k i notify inv e future ready = record {
    count = sym e ∙ inv.count;
    future = future;
    flushed = move-flushed i (idle 0) inv.flushed refl;
    awaited = λ e' h g. absurd (let d = ready e' in cc);
  }

  -- The probe adds 0 to the count, and finds the task away if it reads 0.
  Inv-probe :
      (n k i : ℕ)
      → Inv s
      → s.armed ≡ k
      → Inv (
          move
            (record s { items = n; armed = wrapping_add k 0 })
            i
            (if k == 0 then idle 0 else notifying 0))
  Inv-probe n zero i inv e =
      Inv-done n 0 i s.notify inv e inv.future
        (λ h. absurd (let z = inv.count ∙ ap armed_by h in omega arith))
  Inv-probe n (suc zero) i inv e = Inv-move n 1 i (notifying 0) inv e refl refl
  Inv-probe n (suc (suc k)) i inv e =
      absurd (let z = armed_by_le s.task in let c = inv.count in omega arith)

  -- The task moves, and does not suspend itself on an item.
  Inv-task :
      (n k : ℕ) (notify : tokio.State) (w : Task)
      → Inv s
      → k ≡ armed_by w
      → (has_future w ≡ true → tokio.alive notify ≡ true)
      → (w ≡ awaiting → n ≡ 0)
      → Inv (record s { armed = k; notify = notify; items = n; task = w })
  Inv-task n k notify w inv count future empty = record {
    count = count;
    future = future;
    flushed = inv.flushed;
    awaited = λ e h g. absurd (let z = empty e in omega arith);
  }

-- The count while the task is not away.
counted :
    {tokio : TokioNotify} {s : System tokio} (w : Task) → Inv s → s.task ≡ w → s.armed ≡ armed_by w
counted w inv e = inv.count ∙ ap armed_by e

module _ {tokio : TokioNotify} (doc : Documented tokio) where
  pub Step-Inv : {s t : System tokio} → Step s t → Inv s → Inv t
  unfolding rmw
  Step-Inv {s} (store i b e) inv = Inv-move s s.items s.armed i (stored (b + 1)) inv refl refl refl
  Step-Inv {s} (flush_idle i b e) inv = absurd (let z = inv.flushed i in omega (arith, rw e at z))
  Step-Inv {s} (flush_stored i b e) inv =
      Inv-move s (s.items + 1) s.armed i (stored b) inv refl refl refl
  Step-Inv {s} (flush_probing i b e) inv =
      Inv-move s (s.items + 1) s.armed i (probing b) inv refl refl refl
  Step-Inv {s} (flush_notifying i b e) inv =
      Inv-move s (s.items + 1) s.armed i (notifying b) inv refl refl refl
  Step-Inv {s} (load i b seen e) inv =
      Inv-move s s.items s.armed i (if seen then notifying b else probing b) inv refl (ground arith)
        (ground arith)
  Step-Inv {s} (probe i b e) inv = Inv-probe s (s.items + b) s.armed i inv refl
  Step-Inv {s} (notify_one i b e) inv =
      Inv-done s (s.items + b) s.armed i (tokio.notify_one s.notify) inv refl
        (λ h. doc.alive-notify_one s.notify ∙ inv.future h)
        (λ h. doc.poll-notify_one s.notify (inv.future (ap has_future h)))
  Step-Inv {s} (arm e) inv =
      Inv-task s s.items (wrapping_add s.armed 1) s.notify arming inv
        (let z = counted away inv e in omega arith) (λ g. cc) (λ g. cc)
  Step-Inv {s} (make_future e) inv =
      Inv-task s s.items s.armed (tokio.notified s.notify) armed inv (counted arming inv e)
        (λ g. doc.alive-notified s.notify) (λ g. cc)
  Step-Inv {s} (look_ready e h) inv =
      Inv-task s s.items s.armed s.notify leaving inv (counted armed inv e) (λ g. cc) (λ g. cc)
  Step-Inv {s} (look_empty e h) inv =
      Inv-task s s.items s.armed s.notify awaiting inv (counted armed inv e)
        (λ g. inv.future (ap has_future e)) (λ g. h)
  Step-Inv {s} (poll_ready e h) inv =
      Inv-task s s.items s.armed (tokio.poll s.notify).1 leaving inv (counted awaiting inv e)
        (λ g. cc) (λ g. cc)
  Step-Inv {s} (poll_pending e h) inv = record {
    count = inv.count;
    future = λ g. doc.alive-poll s.notify (inv.future g) h;
    flushed = inv.flushed;
    awaited = λ e' g z. inv.awaited e' g h;
  }
  Step-Inv {s} (cancel e) inv =
      Inv-task s s.items s.armed s.notify leaving inv (counted awaiting inv e) (λ g. cc) (λ g. cc)
  Step-Inv {s} (drop_future e) inv =
      Inv-task s s.items s.armed (tokio.drop s.notify) disarming inv (counted leaving inv e)
        (λ g. cc) (λ g. cc)
  Step-Inv {s} (disarm e) inv =
      Inv-task s s.items (wrapping_sub s.armed 1) s.notify away inv
        (let z = counted disarming inv e in omega arith) (λ g. cc) (λ g. cc)
  Step-Inv {s} (take e h) inv =
      Inv-task s (s.items - 1) s.armed s.notify s.task inv inv.count inv.future (λ g. cc)

  pub Reach-Inv : {s : System tokio} → Reach s → Inv s
  Reach-Inv start = record {
    count = refl;
    future = λ e. cc;
    flushed = λ i. refl;
    awaited = λ e. cc;
  }
  Reach-Inv (next r st) = Step-Inv st (Reach-Inv r)
