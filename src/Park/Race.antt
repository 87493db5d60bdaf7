-- ===== src/Park/Race.antt =====
-- The waiter's thread and any number of wakers of src/waiter/park.rs as threads that take turns in any
-- order. A waker's store of the data goes through a store buffer, and can reach memory after its later
-- loads; a fence, and the mutex of `unpark_registered`, empty the buffer. The swaps of the flag and the
-- accesses of the waiter's thread go to memory at once. The data is a number of items, and the predicate that
-- there is one.
use native.Mathlib.Decide.{ℕ_discrete}
use mathlib.Core.Logic.{ite}
use arbitro_kit.Prelude.{ℕ, suc, ◌+◌, ◌-◌, ◌<◌, ◌≡◌, Bool, true, false, if◌then◌else◌}

-- Where a waker stands; the number counts the items in its store buffer.
pub data Waker : Type 0 where
  idle : ℕ → Waker
  stored : ℕ → Waker  -- has stored an item, and calls `wake`
  fencing : ℕ → Waker  -- the first probe has read UNPARKED
  fenced : ℕ → Waker  -- past the fence, before the second probe
  delivering : ℕ → Waker  -- a probe has read PARKED

-- Where the waiter's thread stands.
pub data Worker : Type 0 where
  away : Worker  -- outside the park path
  announced : Worker  -- past the first swap and the fence, before the look at the predicate
  parking : Worker  -- before or in `thread::park`
  woken : Worker  -- `park` has returned
  leaving : Worker  -- before the second swap

pub record System : Type 0 where
  pub parked : Bool
  pub items : ℕ
  pub token : Bool  -- of the worker's thread
  pub handle : Bool  -- the mutex holds the worker's thread
  pub registered : Bool
  pub worker : Worker
  pub wakers : ℕ → Waker

abbrev pub init : System
init = record {
  parked = false;
  items = 0;
  token = false;
  handle = false;
  registered = false;
  worker = away;
  wakers = λ i. idle 0;
}

-- The system with waker `i` moved to `p`.
abbrev pub move : System → ℕ → Waker → System
move s i p = record s { wakers = λ j. ite (ℕ_discrete i j) p (s.wakers j) }

-- What the fence does to a store buffer of `b` items: how many go to memory, and how many stay.
unfoldable pub fence : ℕ → ℕ × ℕ
fence b = (b, 0)

pub data Step (s : System) : System → Type 0 where
  -- The caller publishes an item and calls `wake`.
  store : (i b : ℕ) → s.wakers i ≡ idle b → Step s (move s i (stored (b + 1)))
  -- A store buffer lets one item go, at any time.
  flush_idle :
      (i b : ℕ)
      → s.wakers i ≡ idle (suc b)
      → Step s (move (record s { items = s.items + 1 }) i (idle b))
  flush_stored :
      (i b : ℕ)
      → s.wakers i ≡ stored (suc b)
      → Step s (move (record s { items = s.items + 1 }) i (stored b))
  flush_fencing :
      (i b : ℕ)
      → s.wakers i ≡ fencing (suc b)
      → Step s (move (record s { items = s.items + 1 }) i (fencing b))
  flush_delivering :
      (i b : ℕ)
      → s.wakers i ≡ delivering (suc b)
      → Step s (move (record s { items = s.items + 1 }) i (delivering b))
  -- `wake`: its first probe, the fence, and its second probe.
  probe :
      (i b : ℕ)
      → s.wakers i ≡ stored b
      → Step s (move s i (if s.parked then delivering b else fencing b))
  fence_waker :
      (i b : ℕ)
      → s.wakers i ≡ fencing b
      → Step s (move (record s { items = s.items + (fence b).0 }) i (fenced (fence b).1))
  probe_again :
      (i b : ℕ)
      → s.wakers i ≡ fenced b
      → Step s (move s i (if s.parked then delivering b else idle b))
  -- `unpark_registered`.
  unpark :
      (i b : ℕ)
      → s.wakers i ≡ delivering b
      → Step s (
          move
            (record s { items = s.items + b; token = if s.handle then true else s.token })
            i
            (idle 0))
  -- `set_worker` with the worker's thread: the mutex, and then the flag.
  set_handle : Step s (record s { handle = true })
  set_registered : s.handle ≡ true → Step s (record s { registered = true })
  -- The first swap and the fence, once the assertion has held.
  announce :
      s.worker ≡ away
      → s.registered ≡ true
      → Step s (record s { parked = true; worker = announced })
  -- The look at the predicate after it.
  look_ready : s.worker ≡ announced → 0 < s.items → Step s (record s { worker = leaving })
  look_empty : s.worker ≡ announced → s.items ≡ 0 → Step s (record s { worker = parking })
  -- `thread::park` takes the token, or returns without one, also when its time has run out.
  take_token :
      s.worker ≡ parking → s.token ≡ true → Step s (record s { worker = woken; token = false })
  spurious : s.worker ≡ parking → Step s (record s { worker = woken })
  -- The look after it; a wait with a deadline may leave without looking.
  again_ready : s.worker ≡ woken → 0 < s.items → Step s (record s { worker = leaving })
  again_empty : s.worker ≡ woken → s.items ≡ 0 → Step s (record s { worker = parking })
  expire : s.worker ≡ woken → Step s (record s { worker = leaving })
  -- The second swap.
  leave : s.worker ≡ leaving → Step s (record s { parked = false; worker = away })
  -- Between waits the worker takes items.
  take : s.worker ≡ away → 0 < s.items → Step s (record s { items = s.items - 1 })

pub data Reach : System → Type 0 where
  start : Reach init
  next : {s t : System} → Reach s → Step s t → Reach t

-- The steps of a `wake` that is under way.
abbrev pub is_wake : {s t : System} → Step s t → Bool
is_wake (probe i b e) = true
is_wake (fence_waker i b e) = true
is_wake (probe_again i b e) = true
is_wake (unpark i b e) = true
is_wake _ = false

pub data WakeRun : System → System → Type 0 where
  done : {s : System} → WakeRun s s
  step : {s t u : System} (st : Step s t) → is_wake st ≡ true → WakeRun t u → WakeRun s u
