-- ===== src/Mpsc/Closing.antt =====
-- `MpscConsumer::recv` of src/route/mpsc.rs while the producers send, leave and shut down, as threads that take
-- turns in any order. A step is one call on one ring, taken as atomic, or one access of the counter or the
-- flag. A look at a ring, the flag or the counter may miss the latest change, except that
-- behind a counter that has been read as 0 the rings are seen as they are: the producers count themselves
-- out with AcqRel, after all that they did, and the consumer loads the counter with Acquire.
use arbitro_kit.Prelude.{
  ℕ, zero, ◌+◌, ◌<◌, ◌≡◌, ◌≢◌, Bool, true, false, List, [], ◌∷◌, ◌++◌, some, get_elem?, set, length,
  replicate, wrapping_sub,
}

-- A producer: it may send, or it has closed its ring, or it has counted itself out as well.
pub data Tx : Type 0 where
  working : Tx
  closing : Tx
  gone : Tx

-- A producer with its ring, and the items that it has ever sent and that were ever received from it.
pub record Port (A : Type 0) : Type 0 where
  pub tx : Tx
  pub queue : List A
  pub accepted : List A
  pub delivered : List A

-- Where the consumer stands in `recv`.
pub data Rx : Type 0 where
  scanning : ℕ → Rx  -- `try_recv`, before ring `k`
  asking : Rx  -- it has found nothing, and calls `is_finished`
  counting : Rx  -- it has not seen the flag
  checking : ℕ → Rx  -- it has read the counter as 0, before ring `k` in `any_ring_has_work`
  waiting : Rx
  told_shutdown : Rx  -- it has returned `Shutdown` because of the flag
  told_finished : Rx  -- it has returned `Shutdown` because there is nothing left

pub record System (A : Type 0) : Type 0 where
  pub ports : List (Port A)
  pub live_producers : ℕ
  pub shutdown : Bool
  pub rx : Rx

abbrev pub init : (A : Type 0) → ℕ → System A
init A m = record {
  ports = replicate m (record { tx = working; queue = []; accepted = []; delivered = [] });
  live_producers = m;
  shutdown = false;
  rx = scanning zero;
}

pub data Step {A : Type 0} (cap : ℕ) (s : System A) : System A → Type 0 where
  -- `MpscProducer::try_send` on a ring with room.
  send :
      (i : ℕ) (p : Port A) (v : A)
      → get_elem? s.ports i ≡ some p
      → p.tx ≡ working
      → length p.queue < cap
      → Step cap s (record s {
        ports =
            set s.ports i
              (record p { queue = p.queue ++ (v ∷ []); accepted = p.accepted ++ (v ∷ []) });
      })
  -- `MpscProducer::drop`: the ring, and then the counter.
  close :
      (i : ℕ) (p : Port A)
      → get_elem? s.ports i ≡ some p
      → p.tx ≡ working
      → Step cap s (record s { ports = set s.ports i (record p { tx = closing }) })
  count_out :
      (i : ℕ) (p : Port A)
      → get_elem? s.ports i ≡ some p
      → p.tx ≡ closing
      → Step cap s (record s {
        ports = set s.ports i (record p { tx = gone });
        live_producers = wrapping_sub s.live_producers 1;
      })
  -- `MpscShutdown::signal`.
  signal : Step cap s (record s { shutdown = true })
  -- `try_recv`: an item is taken, and returned, or the ring is passed over.
  take :
      (k : ℕ) (p : Port A) (v : A) (rest : List A)
      → s.rx ≡ scanning k
      → get_elem? s.ports k ≡ some p
      → p.queue ≡ v ∷ rest
      → Step cap s (record s {
        ports = set s.ports k (record p { queue = rest; delivered = p.delivered ++ (v ∷ []) });
        rx = scanning zero;
      })
  pass_over :
      (k : ℕ)
      → s.rx ≡ scanning k
      → k < length s.ports
      → Step cap s (record s { rx = scanning (k + 1) })
  find_nothing : s.rx ≡ scanning (length s.ports) → Step cap s (record s { rx = asking })
  -- `is_finished`: the flag, the counter, and each ring.
  see_shutdown : s.rx ≡ asking → s.shutdown ≡ true → Step cap s (record s { rx = told_shutdown })
  miss_shutdown : s.rx ≡ asking → Step cap s (record s { rx = counting })
  see_producers : s.rx ≡ counting → Step cap s (record s { rx = waiting })
  see_none : s.rx ≡ counting → s.live_producers ≡ 0 → Step cap s (record s { rx = checking zero })
  see_item :
      (k : ℕ) (p : Port A)
      → s.rx ≡ checking k
      → get_elem? s.ports k ≡ some p
      → p.queue ≢ []
      → Step cap s (record s { rx = waiting })
  see_empty :
      (k : ℕ) (p : Port A)
      → s.rx ≡ checking k
      → get_elem? s.ports k ≡ some p
      → p.queue ≡ []
      → Step cap s (record s { rx = checking (k + 1) })
  finish : s.rx ≡ checking (length s.ports) → Step cap s (record s { rx = told_finished })
  -- The wait ends, for whatever reason, and the loop starts again; or `recv` is called once more.
  wake : s.rx ≡ waiting → Step cap s (record s { rx = scanning zero })
  call_again : s.rx ≡ told_shutdown → Step cap s (record s { rx = scanning zero })
  call_finished : s.rx ≡ told_finished → Step cap s (record s { rx = scanning zero })

pub data Reach {A : Type 0} (cap m : ℕ) : System A → Type 0 where
  start : Reach cap m (init A m)
  next : {s t : System A} → Reach cap m s → Step cap s t → Reach cap m t
