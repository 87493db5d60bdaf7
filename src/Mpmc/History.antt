-- ===== src/Mpmc/History.antt =====
-- Sequences of sends, receives and shutdowns on the handles of an Mpmc channel.

use arbitro_kit.Prelude.{
  ℕ, ◌>>=◌, ◌&&◌, Bool, true, List, [], ◌∷◌, ◌++◌, Option, some, take, get_elem?, set, Result, ok,
  err, ltb,
}
use arbitro_kit.Waiter.{Waiter}
use arbitro_kit.Ring.History.{Log}
use arbitro_kit.Mpmc.Types.{Inner, Producer}
use arbitro_kit.Mpmc.Tx.{try_send, try_send_batch, signal}
use arbitro_kit.Mpmc.Rx.{try_recv}
use arbitro_kit.Mpmc.Contents.{found}

-- The calls, on the handle of producer `i` or of the consumer of shard `s`.
pub data Op (A : Type 0) : Type 0 where
  sends : ℕ → A → Op A
  sends_batch : ℕ → List A → Op A
  receives : ℕ → Op A
  signals : Op A

pub record Channel (A W : Type 0) : Type 0 where
  pub producers : List Producer
  pub inner : Inner A W

abbrev pub sent : {A : Type 0} → Result A (Unit {0}) → A → List A
sent (ok _) v = v ∷ []
sent (err _) v = []

-- The handles that the calls are made on are there.
abbrev pub all_there : {A : Type 0} → ℕ → ℕ → List (Op A) → Bool
all_there m n [] = true
all_there m n (sends i v ∷ ops) = ltb i m && all_there m n ops
all_there m n (sends_batch i items ∷ ops) = ltb i m && all_there m n ops
all_there m n (receives s ∷ ops) = ltb s n && all_there m n ops
all_there m n (signals ∷ ops) = all_there m n ops

module _ {A W : Type 0} ⦃w : Waiter W⦄ (cap : ℕ) where
  unfoldable pub apply : Channel A W → Op A → Option (Log A × Channel A W)
  apply ch (sends i v) = do
    p ← get_elem? ch.producers i
    (res, p', inner) ← try_send cap p ch.inner v
    some (
      record { accepted = sent res v; delivered = [] },
      record { producers = set ch.producers i p'; inner = inner },
    )
  apply ch (sends_batch i items) = do
    p ← get_elem? ch.producers i
    (n, kept, p', inner) ← try_send_batch cap p ch.inner items
    some (
      record { accepted = take n items; delivered = [] },
      record { producers = set ch.producers i p'; inner = inner },
    )
  apply ch (receives s) = do
    (out, inner) ← try_recv cap s ch.inner
    some (record { accepted = []; delivered = found out }, record ch { inner = inner })
  apply ch signals =
      some (record { accepted = []; delivered = [] }, record ch { inner = signal ch.inner })

  unfoldable pub run : Channel A W → List (Op A) → Option (Log A × Channel A W)
  run ch [] = some (record { accepted = []; delivered = [] }, ch)
  run ch (op ∷ ops) = do
    (first, ch') ← apply ch op
    (later, ch'') ← run ch' ops
    some (
      record {
        accepted = first.accepted ++ later.accepted;
        delivered = first.delivered ++ later.delivered;
      },
      ch'',
    )
