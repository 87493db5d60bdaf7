-- ===== src/Park/Deadline.antt =====
-- `ParkWaiter::wait_until_deadline` returns once its clock reaches the deadline, and says why it returned.
use mathlib.Core.Path.{subst}
use arbitro_kit.Prelude.{
  ℕ, zero, suc, ◌+◌, ◌≤◌, ◌<◌, ◌≡◌, refl, ap, sym, inl, inr, Bool, true, false, List, [], ◌∷◌, ◌++◌,
  replicate, length, if◌then◌else◌, leb, arith, Bool-cases,
}
use arbitro_kit.Park.Calls.{
  ParkWaiter, unparked, has_worker, Timed, elapsed, panicked, spin_until, expire, park_until,
  announce_until, wait_until_deadline, leave, announce,
}
use arbitro_kit.Park.Waits.{leave-idle}

-- The answers from the look that ended the wait on.
abbrev pub from_last : Bool → List Bool → List Bool
from_last true left = left
from_last false left = true ∷ left

-- The wait has returned, with the waiter `w`: false at the first look that succeeded, or true after looks that
-- failed and a reading of the clock at the deadline or past it.
pub record Ends (deadline : ℕ) (answers : List Bool) (clock : List ℕ) (w : ParkWaiter)
    (out : Timed × ParkWaiter) : Type 0 where
  pub late : Bool
  pub left : List Bool
  pub clock_left : List ℕ
  pub result : out ≡ (elapsed late left clock_left, w)
  pub looks : (k : ℕ) × (answers ≡ replicate k false ++ from_last late left)
  pub reached :
      late ≡ true
      → (past : List ℕ) × (now : ℕ) × (clock ≡ past ++ (now ∷ clock_left)) × (deadline ≤ now)

module _ (deadline : ℕ) where
  -- A look that failed, and a reading before the deadline.
  Ends-look :
      {answers : List Bool} {clock : List ℕ} {w : ParkWaiter} {out : Timed × ParkWaiter}
      → Ends deadline answers clock w out
      → Ends deadline (false ∷ answers) clock w out
  Ends-look end = record {
    late = end.late;
    left = end.left;
    clock_left = end.clock_left;
    result = end.result;
    looks = let (k, e) = end.looks in (suc k, ap (λ xs. false ∷ xs) e);
    reached = end.reached;
  }

  Ends-tick :
      {answers : List Bool} {clock : List ℕ} {w : ParkWaiter} {out : Timed × ParkWaiter} (now : ℕ)
      → Ends deadline answers clock w out
      → Ends deadline answers (now ∷ clock) w out
  Ends-tick now end = record {
    late = end.late;
    left = end.left;
    clock_left = end.clock_left;
    result = end.result;
    looks = end.looks;
    reached =
        λ h. let (past, t, c, le) = end.reached h in (now ∷ past, t, ap (λ xs. now ∷ xs) c, le);
  }

  Ends-found :
      (answers : List Bool) (clock : List ℕ) (w : ParkWaiter)
      → Ends deadline (true ∷ answers) clock w (elapsed false answers clock, w)
  Ends-found answers clock w = record {
    late = false;
    left = answers;
    clock_left = clock;
    result = refl;
    looks = (0, refl);
    reached = λ e. absurd (cc);
  }

  Ends-late :
      (answers : List Bool) (now : ℕ) (clock : List ℕ) (w : ParkWaiter)
      → deadline ≤ now
      → Ends deadline (false ∷ answers) (now ∷ clock) w (elapsed true answers clock, w)
  Ends-late answers now clock w le = record {
    late = true;
    left = answers;
    clock_left = clock;
    result = refl;
    looks = (1, refl);
    reached = λ e. ([], now, refl, le);
  }

  expire-Ends :
      (answers : List Bool) (clock : List ℕ) (now : ℕ) (w : ParkWaiter)
      → deadline ≤ now
      → 0 < length answers
      → Ends deadline answers (now ∷ clock) (leave w) (expire answers clock w)
  unfolding expire
  expire-Ends [] clock now w le h = elim h [ ]
  expire-Ends (true ∷ answers) clock now w le h = Ends-tick now (Ends-found answers clock (leave w))
  expire-Ends (false ∷ answers) clock now w le h = Ends-late answers now clock (leave w) le

  -- The park loop, on a clock that reaches the deadline at `now`.
  park_until-Ends :
      (past : List ℕ) (answers : List Bool) (now : ℕ) (more : List ℕ) (w : ParkWaiter)
      → deadline ≤ now
      → length past < length answers
      → Ends deadline answers
          (past ++ (now ∷ more))
          (leave w)
          (park_until deadline answers (past ++ (now ∷ more)) w)
  unfolding park_until
  park_until-Ends past [] now more w le h = absurd (omega arith)
  park_until-Ends [] (true ∷ answers) now more w le h =
      let due : leb deadline now ≡ true = ground arith in
      rw due (expire-Ends (true ∷ answers) more now w le (omega arith))
  park_until-Ends [] (false ∷ answers) now more w le h =
      let due : leb deadline now ≡ true = ground arith in
      rw due (expire-Ends (false ∷ answers) more now w le (omega arith))
  park_until-Ends (t ∷ past) (true ∷ answers) now more w le h = elim (Bool-cases (leb deadline t)) [
    | inl due ↦
        rw due
          (expire-Ends (true ∷ answers) (past ++ (now ∷ more)) t w (ground arith) (omega arith))
    | inr early ↦ rw early (Ends-tick t (Ends-found answers (past ++ (now ∷ more)) (leave w)))
  ]
  park_until-Ends (t ∷ past) (false ∷ answers) now more w le h =
      elim (Bool-cases (leb deadline t)) [
        | inl due ↦
            rw due (
              expire-Ends (false ∷ answers) (past ++ (now ∷ more)) t w (ground arith) (omega arith))
        | inr early ↦
            rw early
              (Ends-tick t (Ends-look (park_until-Ends past answers now more w le (omega arith))))
      ]

  announce_until-Ends :
      (past : List ℕ) (answers : List Bool) (now : ℕ) (more : List ℕ) (w : ParkWaiter)
      → deadline ≤ now
      → w.parked ≡ unparked
      → 2 + length past ≤ length answers
      → Ends deadline answers
          (past ++ (now ∷ more))
          w
          (announce_until deadline w answers (past ++ (now ∷ more)))
  unfolding announce_until
  announce_until-Ends past [] now more w le idle h = absurd (omega arith)
  announce_until-Ends past (true ∷ answers) now more w le idle h =
      subst
        (λ x.
          Ends deadline (true ∷ answers) (past ++ (now ∷ more)) x
            (elapsed false answers (past ++ (now ∷ more)), leave w))
        (leave-idle w idle) (Ends-found answers (past ++ (now ∷ more)) (leave w))
  announce_until-Ends past (false ∷ answers) now more w le idle h =
      subst
        (λ x.
          Ends deadline (false ∷ answers) (past ++ (now ∷ more)) x
            (park_until deadline answers (past ++ (now ∷ more)) (announce w)))
        (leave-idle w idle)
        (Ends-look (park_until-Ends past answers now more (announce w) le (omega arith)))

  -- A spin phase, if what comes after it ends.
  spin_until-Ends :
      (n need : ℕ) (past : List ℕ) (answers : List Bool) (now : ℕ) (more : List ℕ) (w : ParkWaiter)
      (next : List Bool → List ℕ → Timed × ParkWaiter)
      → deadline ≤ now
      → ((past' : List ℕ) (answers' : List Bool)
          → need + length past' ≤ length answers'
          → Ends deadline answers'
              (past' ++ (now ∷ more))
              w
              (next answers' (past' ++ (now ∷ more))))
      → 0 < need
      → need + length past ≤ length answers
      → Ends deadline answers
          (past ++ (now ∷ more))
          w
          (spin_until deadline n answers (past ++ (now ∷ more)) w next)
  unfolding spin_until
  spin_until-Ends zero need past answers now more w next le rest pos h = rest past answers h
  spin_until-Ends (suc n) need past [] now more w next le rest pos h = absurd (omega arith)
  spin_until-Ends (suc n) need past (true ∷ answers) now more w next le rest pos h =
      Ends-found answers (past ++ (now ∷ more)) w
  spin_until-Ends (suc n) need [] (false ∷ answers) now more w next le rest pos h =
      let due : leb deadline now ≡ true = ground arith in rw due (Ends-late answers now more w le)
  spin_until-Ends (suc n) need (t ∷ past) (false ∷ answers) now more w next le rest pos h =
      elim (Bool-cases (leb deadline t)) [
        | inl due ↦ rw due (Ends-late answers t (past ++ (now ∷ more)) w (ground arith))
        | inr early ↦ rw early (
            Ends-tick t (
              Ends-look
                (spin_until-Ends n need past answers now more w next le rest pos (omega arith))))
      ]

-- With a registered worker, a clock that reaches the deadline, and at least three answers of the predicate more
-- than there are readings before that, `wait_until_deadline` returns and leaves the waiter as it was, the flag
-- cleared. It returns false at a look that succeeded after looks that all failed, or true after looks that
-- all failed and a reading of the clock at the deadline or past it.
pub wait_until_deadline-Ends :
    (deadline : ℕ) (past : List ℕ) (answers : List Bool) (now : ℕ) (more : List ℕ) (w : ParkWaiter)
    → deadline ≤ now
    → w.parked ≡ unparked
    → w.registered ≡ true
    → 3 + length past ≤ length answers
    → Ends deadline answers
        (past ++ (now ∷ more))
        w
        (wait_until_deadline deadline answers (past ++ (now ∷ more)) w)
unfolding wait_until_deadline has_worker
wait_until_deadline-Ends deadline past [] now more w le idle known h = absurd (omega arith)
wait_until_deadline-Ends deadline past (true ∷ answers) now more w le idle known h =
    Ends-found deadline answers (past ++ (now ∷ more)) w
wait_until_deadline-Ends deadline past (false ∷ answers) now more w le idle known h =
    let clock : List ℕ = past ++ (now ∷ more) in
    let parks : List Bool → List ℕ → Timed × ParkWaiter = announce_until deadline w in
    let pauses : List Bool → List ℕ → Timed × ParkWaiter =
      λ answers' clock'. spin_until deadline w.spin_iters answers' clock' w parks in
    subst
      (λ b.
        Ends deadline (false ∷ answers) clock w
          (if b then spin_until deadline 64 answers clock w pauses else (panicked, w)))
      (sym known)
      (Ends-look deadline (
        spin_until-Ends deadline 64 2 past answers now more w pauses le
          (λ past' answers' h'.
            spin_until-Ends deadline w.spin_iters 2 past' answers' now more w parks le
              (λ past'' answers'' h''.
                announce_until-Ends deadline past'' answers'' now more w le idle h'')
              (omega arith) h')
          (omega arith) (omega arith)))
