-- ===== src/Park/Calls.antt =====
-- src/waiter/park.rs, one call at a time. A thread is a number. The answers of the predicate and the readings
-- of the clock are lists, in the order in which the code takes them.
use arbitro_kit.Prelude.{
  ℕ, zero, suc, ◌+◌, Bool, true, false, List, [], ◌∷◌, Option, none, some, ◌==◌, leb, not,
  if◌then◌else◌,
}

-- `UNPARKED` and `PARKED`.
abbrev pub unparked : ℕ
unparked = 0

abbrev pub parked_value : ℕ
parked_value = 1

-- `DEFAULT_SPIN_ITERS` and `TIGHT_SPIN`.
abbrev pub default_spin_iters : ℕ
default_spin_iters = 512

abbrev pub tight_spin : ℕ
tight_spin = 64

-- `ParkWaiter`.
pub record ParkWaiter : Type 0 where
  pub parked : ℕ
  pub spin_iters : ℕ
  pub registered : Bool
  pub worker : Option ℕ

-- `ParkWaiter::with_spin` and `default`.
unfoldable pub with_spin : ℕ → ParkWaiter
with_spin n = record { parked = unparked; spin_iters = n; registered = false; worker = none }

unfoldable pub default : ParkWaiter
default = with_spin default_spin_iters

-- `set_worker`.
unfoldable pub set_worker : ℕ → ParkWaiter → ParkWaiter
set_worker thread w = record w { worker = some thread; registered = true }

-- `has_worker`.
unfoldable pub has_worker : ParkWaiter → Bool
has_worker w = w.registered

-- `unpark_registered`: the thread that it unparks.
unfoldable pub unpark_registered : ParkWaiter → Option ℕ
unpark_registered w = w.worker

-- `wake`: the thread that it unparks. What the other threads do between the two probes is `gap`.
unfoldable pub wake : (ParkWaiter → ParkWaiter) → ParkWaiter → Option ℕ
wake gap w =
    if w.parked == parked_value
    then unpark_registered w
    else if (gap w).parked == parked_value
    then unpark_registered (gap w)
    else none

-- What a spin phase comes to: the predicate held, or the budget is spent, with the answers that are left.
-- `short` says that the answers ran out.
pub data Spun : Type 0 where
  held : List Bool → Spun
  spent : List Bool → Spun
  short : Spun

-- A spin phase of `wait_slow`, of `n` rounds.
unfoldable pub spin : ℕ → List Bool → Spun
spin zero answers = spent answers
spin (suc n) [] = short
spin (suc n) (true ∷ answers) = held answers
spin (suc n) (false ∷ answers) = spin n answers

-- How a wait stands: it has returned, with the answers that are left, or its assertion has panicked, or it
-- spins or parks still.
pub data Waited : Type 0 where
  returned : List Bool → Waited
  panicked : Waited
  waiting : Waited

-- The two swaps of the flag, T1 and T2.
abbrev pub announce : ParkWaiter → ParkWaiter
announce w = record w { parked = parked_value }

abbrev pub leave : ParkWaiter → ParkWaiter
leave w = record w { parked = unparked }

-- The park loop of `wait_slow`, with the number of calls of `thread::park`.
unfoldable pub park_loop : List Bool → ParkWaiter → ℕ → Waited × ParkWaiter × ℕ
park_loop [] w parks = (waiting, w, parks + 1)
park_loop (true ∷ answers) w parks = (returned answers, leave w, parks + 1)
park_loop (false ∷ answers) w parks = park_loop answers w (parks + 1)

-- `wait_slow` from its announcement on.
unfoldable pub announce_and_park : List Bool → ParkWaiter → Waited × ParkWaiter × ℕ
announce_and_park [] w = (waiting, announce w, 0)
announce_and_park (true ∷ answers) w = (returned answers, leave (announce w), 0)
announce_and_park (false ∷ answers) w = park_loop answers (announce w) 0

-- How a wait goes on from a spin phase.
unfoldable pub after_spin :
    Spun → ParkWaiter → (List Bool → Waited × ParkWaiter × ℕ) → Waited × ParkWaiter × ℕ
after_spin (held answers) w next = (returned answers, w, 0)
after_spin (spent answers) w next = next answers
after_spin short w next = (waiting, w, 0)

-- `wait_slow`, with the number of calls of `thread::park`.
unfoldable pub wait_slow : List Bool → ParkWaiter → Waited × ParkWaiter × ℕ
wait_slow answers w =
    if has_worker w
    then after_spin (spin tight_spin answers) w (λ answers'.
      after_spin (spin w.spin_iters answers') w (λ answers''. announce_and_park answers'' w))
    else (panicked, w, 0)

-- `wait_until`.
unfoldable pub wait_until : List Bool → ParkWaiter → Waited × ParkWaiter × ℕ
wait_until [] w = (waiting, w, 0)
wait_until (true ∷ answers) w = (returned answers, w, 0)
wait_until (false ∷ answers) w = wait_slow answers w

-- How a wait with a deadline stands: it has returned whether the deadline elapsed, with the answers and
-- the clock readings that are left.
pub data Timed : Type 0 where
  elapsed : Bool → List Bool → List ℕ → Timed
  panicked : Timed
  waiting : Timed

-- A spin phase of `wait_until_deadline`, and how the wait goes on when its budget is spent.
unfoldable pub spin_until :
    ℕ
    → ℕ
    → List Bool
    → List ℕ
    → ParkWaiter
    → (List Bool → List ℕ → Timed × ParkWaiter)
    → Timed × ParkWaiter
spin_until deadline zero answers clock w next = next answers clock
spin_until deadline (suc n) [] clock w next = (waiting, w)
spin_until deadline (suc n) (true ∷ answers) clock w next = (elapsed false answers clock, w)
spin_until deadline (suc n) (false ∷ answers) [] w next = (waiting, w)
spin_until deadline (suc n) (false ∷ answers) (now ∷ clock) w next =
    let rest = spin_until deadline n answers clock w next in
    if leb deadline now then (elapsed true answers clock, w) else rest

-- The end of a wait whose deadline has passed: it leaves, and returns `!ready()`.
unfoldable pub expire : List Bool → List ℕ → ParkWaiter → Timed × ParkWaiter
expire [] clock w = (waiting, leave w)
expire (a ∷ answers) clock w = (elapsed (not a) answers clock, leave w)

-- The park loop of `wait_until_deadline`.
unfoldable pub park_until : ℕ → List Bool → List ℕ → ParkWaiter → Timed × ParkWaiter
park_until deadline answers [] w = (waiting, w)
park_until deadline [] (now ∷ clock) w =
    if leb deadline now then expire [] clock w else (waiting, w)
park_until deadline (true ∷ answers) (now ∷ clock) w =
    if leb deadline now
    then expire (true ∷ answers) clock w
    else (elapsed false answers clock, leave w)
park_until deadline (false ∷ answers) (now ∷ clock) w =
    let rest = park_until deadline answers clock w in
    if leb deadline now then expire (false ∷ answers) clock w else rest

-- `wait_until_deadline` from its announcement on.
unfoldable pub announce_until : ℕ → ParkWaiter → List Bool → List ℕ → Timed × ParkWaiter
announce_until deadline w [] clock = (waiting, announce w)
announce_until deadline w (true ∷ answers) clock = (elapsed false answers clock, leave (announce w))
announce_until deadline w (false ∷ answers) clock = park_until deadline answers clock (announce w)

-- `wait_until_deadline`.
unfoldable pub wait_until_deadline : ℕ → List Bool → List ℕ → ParkWaiter → Timed × ParkWaiter
wait_until_deadline deadline [] clock w = (waiting, w)
wait_until_deadline deadline (true ∷ answers) clock w = (elapsed false answers clock, w)
wait_until_deadline deadline (false ∷ answers) clock w =
    if has_worker w
    then spin_until deadline tight_spin answers clock w (λ answers' clock'.
      spin_until deadline w.spin_iters answers' clock' w
        (λ answers'' clock''. announce_until deadline w answers'' clock''))
    else (panicked, w)
