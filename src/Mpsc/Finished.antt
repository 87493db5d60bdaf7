-- ===== src/Mpsc/Finished.antt =====
-- What a `recv` that answers `Shutdown` leaves behind, in the system of Mpsc.Closing.
use arbitro_kit.Prelude.{
  ℕ, zero, ◌+◌, ◌<◌, ◌≡◌, ◌≢◌, refl, sym, ap, ◌∙◌, Bool, true, false, List, [], ◌∷◌, ◌++◌, some,
  get_elem?, set, length, arith, unsome, append-nil, append_assoc, word_mod, wrapping_sub,
  length-set, length-replicate, get_elem?-some_lt,
}
use native.Mathlib.Decide.{ℕ_discrete}
use mathlib.Core.Path.{subst}
use arbitro_kit.Mpsc.Closing.{
  gone, Port, Rx, scanning, asking, counting, checking, waiting, told_shutdown, told_finished,
  System, init, Step, send, close, count_out, signal, take, pass_over, find_nothing, see_shutdown,
  miss_shutdown, see_producers, see_none, see_item, see_empty, finish, wake, call_again,
  call_finished, Reach, start, next,
}
use arbitro_kit.Mpsc.Ports.{
  live_of, count_live, count_live_le, count_live-set, every-set, all_gone, count_live-replicate,
  replicated, idle_port,
}

-- The consumer has read the counter as 0 in this call.
abbrev saw_none : Rx → Bool
saw_none (checking k) = true
saw_none told_finished = true
saw_none _ = false

-- How many of `n` rings it has found empty since then.
abbrev seen_empty : Rx → ℕ → ℕ
seen_empty (checking k) n = k
seen_empty told_finished n = n
seen_empty _ n = 0

some_seen : (rx : Rx) (n i : ℕ) → i < seen_empty rx n → saw_none rx ≡ true
some_seen rx n i h = ground arith

record Inv {A : Type 0} (m : ℕ) (s : System A) : Type 0 where
  pub live : s.live_producers ≡ count_live s.ports
  pub size : length s.ports ≡ m
  pub accounted :
      (i : ℕ) (p : Port A) → get_elem? s.ports i ≡ some p → p.accepted ≡ p.delivered ++ p.queue
  pub none_live : saw_none s.rx ≡ true → s.live_producers ≡ 0
  pub empty :
      (i : ℕ) (p : Port A)
      → i < seen_empty s.rx (length s.ports)
      → get_elem? s.ports i ≡ some p
      → p.queue ≡ []

module _ {A : Type 0} where
  -- One more ring is empty.
  one_more :
      (ps : List (Port A)) (k : ℕ) (p : Port A)
      → get_elem? ps k ≡ some p
      → p.queue ≡ []
      → ((i : ℕ) (q : Port A) → i < k → get_elem? ps i ≡ some q → q.queue ≡ [])
      → (i : ℕ) (q : Port A) → i < k + 1
      → get_elem? ps i ≡ some q
      → q.queue ≡ []
  one_more ps k p e bare below i q h f = elim (ℕ_discrete i k) [
    | yes same ↦
        ap (λ x. x.queue) (unsome (sym f ∙ subst (λ x. get_elem? ps x ≡ some p) (sym same) e))
        ∙ bare
    | no other ↦ below i q (omega (arith, other)) f
  ]

module _ {A : Type 0} {m : ℕ} where
  -- While a producer is still counted, the consumer has not read 0.
  not_seen :
      (s : System A) (i : ℕ) (p : Port A)
      → Inv m s
      → get_elem? s.ports i ≡ some p
      → p.tx ≢ gone
      → saw_none s.rx ≢ true
  not_seen s i p inv e here seen = here (all_gone s.ports i p (sym inv.live ∙ inv.none_live seen) e)

  -- A producer that is still counted does something to its port.
  port-Inv :
      (s : System A) (i live : ℕ) (p p' : Port A)
      → Inv m s
      → get_elem? s.ports i ≡ some p
      → p.tx ≢ gone
      → live + live_of p.tx ≡ s.live_producers + live_of p'.tx
      → p'.accepted ≡ p'.delivered ++ p'.queue
      → Inv m (record s { ports = set s.ports i p'; live_producers = live })
  port-Inv s i live p p' inv e here count same =
      let fresh = not_seen s i p inv e here in
      record {
        live = omega (arith, count, inv.live, count_live-set s.ports i p p' e);
        size = length-set s.ports i p' ∙ inv.size;
        accounted =
            every-set (λ q. q.accepted ≡ q.delivered ++ q.queue) s.ports i p' inv.accounted same;
        none_live = λ seen. absurd (fresh seen);
        empty = λ j q h f. absurd (fresh (some_seen s.rx (length (set s.ports i p')) j h));
      }

  -- The consumer moves.
  move-Inv :
      (s : System A) (rx : Rx) (shutdown : Bool)
      → Inv m s
      → (saw_none rx ≡ true → s.live_producers ≡ 0)
      → ((i : ℕ) (p : Port A)
          → i < seen_empty rx (length s.ports)
          → get_elem? s.ports i ≡ some p
          → p.queue ≡ [])
      → Inv m (record s { rx = rx; shutdown = shutdown })
  move-Inv s rx shutdown inv none_live empty = record {
    live = inv.live;
    size = inv.size;
    accounted = inv.accounted;
    none_live = none_live;
    empty = empty;
  }

  -- The same, to a place where it has not read 0.
  restart-Inv :
      (s : System A) (rx : Rx) → Inv m s → saw_none rx ≡ false → Inv m (record s { rx = rx })
  restart-Inv s rx inv off =
      move-Inv s rx s.shutdown inv (λ e. absurd (cc))
        (λ i p h e. absurd (let on = some_seen rx (length s.ports) i h in cc))

  init-Inv : Inv m (init A m)
  init-Inv = record {
    live = sym (count_live-replicate m idle_port refl);
    size = length-replicate m idle_port;
    accounted = λ i p e.
        subst (λ x. x.accepted ≡ x.delivered ++ x.queue) (replicated m i idle_port p e) refl;
    none_live = λ seen. cc;
    empty = λ i p h e. absurd (omega arith);
  }

module _ {A : Type 0} {cap m : ℕ} (fits : m < word_mod) where
  Step-Inv : {s t : System A} → Step cap s t → Inv m s → Inv m t
  Step-Inv {s} (send i p v e works room) inv =
      port-Inv s i s.live_producers p _ inv e (λ g. cc) refl
        (ap (λ x. x ++ (v ∷ [])) (inv.accounted i p e) ∙ append_assoc p.delivered p.queue (v ∷ []))
  Step-Inv {s} (close i p e works) inv =
      port-Inv s i s.live_producers p _ inv e (λ g. cc) (rw works refl) (inv.accounted i p e)
  Step-Inv {s} (count_out i p e closes) inv =
      let counted = count_live-set s.ports i p (record p { tx = gone }) e in
      let one = ap live_of closes in
      let few = count_live_le s.ports in
      port-Inv s i (wrapping_sub s.live_producers 1) p _ inv e (λ g. cc)
        (omega (arith, inv.live, inv.size, counted, one, few)) (inv.accounted i p e)
  Step-Inv {s} signal inv = move-Inv s s.rx true inv inv.none_live inv.empty
  Step-Inv {s} (take k p v rest at e q) inv = record {
    live = omega (
      arith,
      inv.live,
      count_live-set s.ports k p (record p { queue = rest; delivered = p.delivered ++ (v ∷ []) }) e,
    );
    size = length-set s.ports k _ ∙ inv.size;
    accounted =
        every-set (λ x. x.accepted ≡ x.delivered ++ x.queue) s.ports k _ inv.accounted
          (inv.accounted k p e ∙ rw q (sym (append_assoc p.delivered (v ∷ []) rest)));
    none_live = λ seen. cc;
    empty = λ i x h f. absurd (omega arith);
  }
  Step-Inv {s} (pass_over k at lt) inv = restart-Inv s (scanning (k + 1)) inv refl
  Step-Inv {s} (find_nothing at) inv = restart-Inv s asking inv refl
  Step-Inv {s} (see_shutdown at up) inv = restart-Inv s told_shutdown inv refl
  Step-Inv {s} (miss_shutdown at) inv = restart-Inv s counting inv refl
  Step-Inv {s} (see_producers at) inv = restart-Inv s waiting inv refl
  Step-Inv {s} (see_none at none_left) inv =
      move-Inv s (checking zero) s.shutdown inv (λ g. none_left) (λ i p h e. absurd (omega arith))
  Step-Inv {s} (see_item k p at e some_left) inv = restart-Inv s waiting inv refl
  Step-Inv {s} (see_empty k p at e bare) inv =
      move-Inv s (checking (k + 1)) s.shutdown inv (λ g. inv.none_live (ap saw_none at))
        (one_more s.ports k p e bare
          (λ i q h. inv.empty i q (omega (arith, h, ap (λ r. seen_empty r (length s.ports)) at))))
  Step-Inv {s} (finish at) inv =
      move-Inv s told_finished s.shutdown inv (λ g. inv.none_live (ap saw_none at))
        (λ i q h. inv.empty i q (omega (arith, h, ap (λ r. seen_empty r (length s.ports)) at)))
  Step-Inv {s} (wake at) inv = restart-Inv s (scanning zero) inv refl
  Step-Inv {s} (call_again at) inv = restart-Inv s (scanning zero) inv refl
  Step-Inv {s} (call_finished at) inv = restart-Inv s (scanning zero) inv refl

  Reach-Inv : {s : System A} → Reach cap m s → Inv m s
  Reach-Inv start = init-Inv
  Reach-Inv (next r st) = Step-Inv st (Reach-Inv r)

  -- However the producers, fewer than 2^64, send, leave and shut down while it runs, a `recv` that answers
  -- `Shutdown` without having read the flag has left nothing behind: every producer has gone, and whatever a
  -- producer has sent has been received, in the order in which it was sent.
  pub finished_means_drained :
      {s : System A}
      → Reach cap m s
      → s.rx ≡ told_finished
      → (i : ℕ) (p : Port A) → get_elem? s.ports i ≡ some p
      → (p.tx ≡ gone) × (p.accepted ≡ p.delivered)
  finished_means_drained {s} r told i p e =
      let inv = Reach-Inv r in
      let bare = inv.empty i p (rw told (get_elem?-some_lt s.ports i e)) e in
      (
        all_gone s.ports i p (sym inv.live ∙ inv.none_live (ap saw_none told)) e,
        inv.accounted i p e ∙ rw bare (append-nil p.delivered),
      )
