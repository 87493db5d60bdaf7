-- ===== src/Ring/Threads.antt =====
-- The producer and the consumer of src/stream/ring.rs as two threads that take turns in any order. A step is
-- one access to the shared state. A load of the other side's cursor may return an old value: any that the
-- cursor has had since the one that was loaded last. What it cannot do is return a cursor whose slots are
-- not there yet, since cursors are stored with Release and loaded with Acquire. The closure of `drain`
-- does not panic here, and the head that `drain` has loaded goes to the cache at once, not at its end.
use arbitro_kit.Prelude.{
  ℕ, ◌+◌, ◌≤◌, ◌<◌, ◌≡◌, ◌≢◌, Bool, true, false, List, [], ◌∷◌, ◌++◌, Option, none, some, length,
  replicate, word_mod, wrapping_add, wrapping_sub,
}
use arbitro_kit.Cells.{slot_index, write_cell, read_cell}

pub data Tx : Type 0 where
  working : Tx
  gone : Tx

-- Where the consumer stands in `try_recv`.
pub data Rx : Type 0 where
  polling : Rx  -- between calls, or with items to take
  found_empty : Rx  -- its load of `head` found nothing
  found_closed : Rx  -- and its load of `closed` read true
  looked_again : Rx  -- and it has loaded `head` once more
  told_closed : Rx  -- it has returned `Closed`
  gone : Rx

-- `written` are the items in slots past `head`, which are not published, and `taken` those that have left
-- the slots from `tail` on, which are not given back. `accepted` and `delivered` record what the calls
-- have published and read.
pub record System (A : Type 0) : Type 0 where
  pub head : ℕ
  pub tail : ℕ
  pub slots : List (Option A)
  pub closed : Bool
  pub cached_tail : ℕ
  pub cached_head : ℕ
  pub tx : Tx
  pub rx : Rx
  pub written : List A
  pub taken : List A
  pub accepted : List A
  pub delivered : List A

abbrev pub init : (A : Type 0) → ℕ → System A
init A cap = record {
  head = 0;
  tail = 0;
  slots = replicate cap none;
  closed = false;
  cached_tail = 0;
  cached_head = 0;
  tx = working;
  rx = polling;
  written = [];
  taken = [];
  accepted = [];
  delivered = [];
}

-- The slot that the producer writes next, and the one that the consumer reads next.
abbrev pub write_cursor : {A : Type 0} → System A → ℕ
write_cursor s = wrapping_add s.head (length s.written)

abbrev pub read_cursor : {A : Type 0} → System A → ℕ
read_cursor s = wrapping_add s.tail (length s.taken)

-- The producer knows of room, and the consumer of an item.
abbrev pub MayWrite : {A : Type 0} → ℕ → System A → Type 0
MayWrite cap s = (s.tx ≡ working) × (wrapping_sub s.head s.cached_tail + length s.written < cap)

abbrev pub MayRead : {A : Type 0} → System A → Type 0
MayRead s = (s.rx ≡ polling) × (read_cursor s ≢ s.cached_head)

pub data Step {A : Type 0} (cap : ℕ) (s : System A) : System A → Type 0 where
  -- `try_send` and `try_send_bulk`: the cache says that the ring is full, and `tail` is loaded.
  load_tail :
      (t : ℕ)
      → s.tx ≡ working
      → s.written ≡ []
      → cap ≤ wrapping_sub s.head s.cached_tail
      → t < word_mod
      → wrapping_sub s.tail t ≤ wrapping_sub s.tail s.cached_tail
      → Step cap s (record s { cached_tail = t })
  -- A slot is written, and then all that are written are published at once.
  write :
      (v : A) (slots : List (Option A))
      → MayWrite cap s
      → write_cell s.slots (slot_index cap (write_cursor s)) v ≡ some slots
      → Step cap s (record s { slots = slots; written = s.written ++ (v ∷ []) })
  publish :
      s.tx ≡ working
      → Step cap s
          (record s { head = write_cursor s; accepted = s.accepted ++ s.written; written = [] })
  -- `Producer::drop`.
  drop_tx : s.tx ≡ working → s.written ≡ [] → Step cap s (record s { closed = true; tx = Tx.gone })
  -- `try_recv` and `drain`: `head` is loaded.
  load_head :
      (h : ℕ)
      → s.rx ≡ polling
      → s.taken ≡ []
      → h < word_mod
      → wrapping_sub s.head h ≤ wrapping_sub s.head s.cached_head
      → Step cap s (record s { cached_head = h })
  -- A slot is read, and then all that are read are given back at once.
  read :
      (v : A) (slots : List (Option A))
      → MayRead s
      → read_cell s.slots (slot_index cap (read_cursor s)) ≡ some (v, slots)
      → Step cap s (record s {
        slots = slots;
        taken = s.taken ++ (v ∷ []);
        delivered = s.delivered ++ (v ∷ []);
      })
  release : s.rx ≡ polling → Step cap s (record s { tail = read_cursor s; taken = [] })
  -- `try_recv` with nothing to take: it loads `closed`. A load that reads false may be an old one.
  find_empty :
      s.rx ≡ polling
      → s.taken ≡ []
      → s.tail ≡ s.cached_head
      → Step cap s (record s { rx = found_empty })
  answer_empty : s.rx ≡ found_empty → Step cap s (record s { rx = polling })
  load_closed : s.rx ≡ found_empty → s.closed ≡ true → Step cap s (record s { rx = found_closed })
  -- `head` once more. The producer stored `closed` after its last `head`, so this load reads that.
  load_head_again :
      s.rx ≡ found_closed → Step cap s (record s { cached_head = s.head; rx = looked_again })
  go_on : s.rx ≡ looked_again → s.tail ≢ s.cached_head → Step cap s (record s { rx = polling })
  answer_closed :
      s.rx ≡ looked_again → s.tail ≡ s.cached_head → Step cap s (record s { rx = told_closed })
  call_again : s.rx ≡ told_closed → Step cap s (record s { rx = polling })
  -- `Consumer::drop`, between calls.
  drop_rx : s.rx ≡ polling → s.taken ≡ [] → Step cap s (record s { closed = true; rx = Rx.gone })
  drop_told : s.rx ≡ told_closed → Step cap s (record s { closed = true; rx = Rx.gone })

-- Steps from one state to another.
pub data Run {A : Type 0} (cap : ℕ) : System A → System A → Type 0 where
  stay : {s : System A} → Run cap s s
  step : {s t u : System A} → Step cap s t → Run cap t u → Run cap s u
