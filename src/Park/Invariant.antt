-- ===== src/Park/Invariant.antt =====
-- What holds in every state of the waiter's thread and its wakers.
use native.Mathlib.Decide.{ℕ_discrete}
use mathlib.Core.Logic.{ite}
use arbitro_kit.Prelude.{
  ℕ, zero, suc, ◌+◌, ◌-◌, ◌<◌, ◌≡◌, refl, ap, ◌∙◌, Bool, true, false, if◌then◌else◌, arith,
}
use arbitro_kit.Park.Race.{
  Waker, idle, stored, fencing, fenced, delivering, Worker, away, announced, parking, woken,
  leaving, System, move, fence, Step, store, flush_idle, flush_stored, flush_fencing,
  flush_delivering, probe, fence_waker, probe_again, unpark, set_handle, set_registered, announce,
  look_ready, look_empty, take_token, spurious, again_ready, again_empty, expire, leave, take,
  Reach, start, next,
}

-- The flag says that the worker is on the park path.
abbrev pub on_path : Worker → Bool
on_path away = false
on_path _ = true

-- A waker on its way to a probe of the flag or to an unpark.
abbrev pub on_way : Waker → Bool
on_way (idle b) = false
on_way _ = true

-- Past the fence and past `wake` the buffer is empty.
abbrev buffer_after : Waker → ℕ
buffer_after (idle b) = b
buffer_after (fenced b) = b
buffer_after _ = 0

pub record Inv (s : System) : Type 0 where
  pub flag : s.parked ≡ on_path s.worker
  pub known : s.registered ≡ true → s.handle ≡ true
  pub safe : s.parked ≡ true → s.registered ≡ true
  pub flushed : (i : ℕ) → buffer_after (s.wakers i) ≡ 0
  pub awaited :
      s.worker ≡ parking → 0 < s.items → s.token ≡ false → (i : ℕ) × (on_way (s.wakers i) ≡ true)

-- One waker moves: the others keep their buffers, and those on their way stay so.
move-flushed :
    (s : System) (i : ℕ) (p : Waker)
    → ((j : ℕ) → buffer_after (s.wakers j) ≡ 0)
    → buffer_after p ≡ 0
    → (j : ℕ) → buffer_after ((move s i p).wakers j) ≡ 0
move-flushed s i p all h j =
    elim (ℕ_discrete i j) as (λ d. buffer_after (ite d p (s.wakers j)) ≡ 0) [
      | yes same ↦ h
      | no other ↦ all j
    ]

move-on_way :
    (s : System) (i : ℕ) (p : Waker) → on_way p ≡ true → on_way ((move s i p).wakers i) ≡ true
move-on_way s i p h = ground arith

-- A waker moves along, and some items may reach memory.
Inv-move :
    (s : System) (n i : ℕ) (p : Waker)
    → Inv s
    → on_way p ≡ true
    → buffer_after p ≡ 0
    → Inv (move (record s { items = n }) i p)
Inv-move s n i p inv way clean = record {
  flag = inv.flag;
  known = inv.known;
  safe = inv.safe;
  flushed = move-flushed s i p inv.flushed clean;
  awaited = λ e h g. (i, move-on_way s i p way);
}

-- A waker is done. That is only while the worker is off the path or once it has its token.
Inv-done :
    (s : System) (n i : ℕ) (tok : Bool)
    → Inv s
    → (s.worker ≡ parking → tok ≡ true)
    → Inv (move (record s { items = n; token = tok }) i (idle 0))
Inv-done s n i tok inv has = record {
  flag = inv.flag;
  known = inv.known;
  safe = inv.safe;
  flushed = move-flushed s i (idle 0) inv.flushed refl;
  awaited = λ e h g. absurd (let d = has e in cc);
}

-- The second probe.
Inv-again :
    (s : System) (i b : ℕ) (up : Bool)
    → Inv s
    → s.wakers i ≡ fenced b
    → s.parked ≡ up
    → Inv (move s i (if up then delivering b else idle b))
Inv-again s i b true inv e h = Inv-move s s.items i (delivering b) inv refl refl
Inv-again s i zero false inv e h =
    Inv-done s s.items i s.token inv (λ g. absurd (let f = inv.flag in cc))
Inv-again s i (suc b) false inv e h = absurd (let z = inv.flushed i in omega (arith, rw e at z))

-- The worker moves, and does not go to sleep on an item.
Inv-worker :
    (s : System) (n : ℕ) (up tok : Bool) (w : Worker)
    → Inv s
    → up ≡ on_path w
    → (w ≡ parking → n ≡ 0)
    → (up ≡ true → s.registered ≡ true)
    → Inv (record s { parked = up; items = n; token = tok; worker = w })
Inv-worker s n up tok w inv flag empty safe = record {
  flag = flag;
  known = inv.known;
  safe = safe;
  flushed = inv.flushed;
  awaited = λ e h g. absurd (let z = empty e in omega arith);
}

Step-Inv : {s t : System} → Step s t → Inv s → Inv t
unfolding fence
Step-Inv {s} (store i b e) inv = Inv-move s s.items i (stored (b + 1)) inv refl refl
Step-Inv {s} (flush_idle i b e) inv = absurd (let z = inv.flushed i in omega (arith, rw e at z))
Step-Inv {s} (flush_stored i b e) inv = Inv-move s (s.items + 1) i (stored b) inv refl refl
Step-Inv {s} (flush_fencing i b e) inv = Inv-move s (s.items + 1) i (fencing b) inv refl refl
Step-Inv {s} (flush_delivering i b e) inv = Inv-move s (s.items + 1) i (delivering b) inv refl refl
Step-Inv {s} (probe i b e) inv =
    Inv-move s s.items i (if s.parked then delivering b else fencing b) inv (ground arith)
      (ground arith)
Step-Inv {s} (fence_waker i b e) inv = Inv-move s (s.items + b) i (fenced 0) inv refl refl
Step-Inv {s} (probe_again i b e) inv = Inv-again s i b s.parked inv e refl
Step-Inv {s} (unpark i b e) inv =
    Inv-done s (s.items + b) i (if s.handle then true else s.token) inv (λ h. ground (arith, inv))
Step-Inv {s} set_handle inv = record {
  flag = inv.flag;
  known = λ e. refl;
  safe = inv.safe;
  flushed = inv.flushed;
  awaited = inv.awaited;
}
Step-Inv {s} (set_registered e) inv = record {
  flag = inv.flag;
  known = λ h. e;
  safe = λ h. refl;
  flushed = inv.flushed;
  awaited = inv.awaited;
}
Step-Inv {s} (announce e h) inv =
    Inv-worker s s.items true s.token announced inv refl (λ g. cc) (λ g. h)
Step-Inv {s} (look_ready e h) inv =
    Inv-worker s s.items s.parked s.token leaving inv (inv.flag ∙ ap on_path e) (λ g. cc) inv.safe
Step-Inv {s} (look_empty e h) inv =
    Inv-worker s s.items s.parked s.token parking inv (inv.flag ∙ ap on_path e) (λ g. h) inv.safe
Step-Inv {s} (take_token e h) inv =
    Inv-worker s s.items s.parked false woken inv (inv.flag ∙ ap on_path e) (λ g. cc) inv.safe
Step-Inv {s} (spurious e) inv =
    Inv-worker s s.items s.parked s.token woken inv (inv.flag ∙ ap on_path e) (λ g. cc) inv.safe
Step-Inv {s} (again_ready e h) inv =
    Inv-worker s s.items s.parked s.token leaving inv (inv.flag ∙ ap on_path e) (λ g. cc) inv.safe
Step-Inv {s} (again_empty e h) inv =
    Inv-worker s s.items s.parked s.token parking inv (inv.flag ∙ ap on_path e) (λ g. h) inv.safe
Step-Inv {s} (expire e) inv =
    Inv-worker s s.items s.parked s.token leaving inv (inv.flag ∙ ap on_path e) (λ g. cc) inv.safe
Step-Inv {s} (leave e) inv = Inv-worker s s.items false s.token away inv refl (λ g. cc) (λ g. cc)
Step-Inv {s} (take e h) inv =
    Inv-worker s (s.items - 1) s.parked s.token s.worker inv inv.flag (λ g. cc) inv.safe

pub Reach-Inv : {s : System} → Reach s → Inv s
Reach-Inv start = record {
  flag = refl;
  known = λ e. cc;
  safe = λ e. cc;
  flushed = λ i. refl;
  awaited = λ e. cc;
}
Reach-Inv (next r st) = Step-Inv st (Reach-Inv r)
