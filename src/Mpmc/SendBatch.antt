-- ===== src/Mpmc/SendBatch.antt =====
-- `MpmcProducer::try_send_batch` on a channel that stands for a grid of queues.
use arbitro_kit.Prelude.{
  ℕ, zero, suc, ◌+◌, ◌-◌, ◌%◌, ◌^◌, min, ◌≤◌, ◌<◌, ◌≡◌, refl, ◌⊎◌, inl, inr, false, List, [], ◌∷◌,
  ◌++◌, Option, some, leb, ◌==◌, ◌>>=◌, take, drop, length, length-append, length-take, append-nil,
  append_assoc, arith, Bool-cases,
}
use native.Mathlib.Nat.{mod-lt}
use arbitro_kit.Cells.{IsCap}
use arbitro_kit.Waiter.{Waiter}
use arbitro_kit.Mpmc.Types.{PRing, Inner, Producer}
use arbitro_kit.Mpmc.Tx.{burst, batch_scan, try_send_batch}
use arbitro_kit.Mpmc.Grid.{Holds, Stands, Holds-push, Stands-get}
use arbitro_kit.Mpmc.Send.{at_round, Routes, later-Routes, found-Routes}

module _ {A : Type 0} {cap : ℕ} (ok_cap : IsCap cap) where
  burst-Holds :
      (vs : List A) {r : PRing A} {q : List A}
      → Holds cap r q
      → length q + length vs ≤ cap
      → (slots : List (Option A)) × (h : ℕ) × (burst cap vs r.slots r.head ≡ some (slots, h))
        × Holds cap (record r { head = h; slots = slots }) (q ++ vs)
  unfolding burst
  burst-Holds [] {r} {q} h fits = (r.slots, r.head, refl, rw append-nil h)
  burst-Holds (v ∷ vs) {r} {q} h fits =
      let (slots, e, h') = Holds-push ok_cap v h (omega arith) in
      let (slots', c, e', h'') = burst-Holds vs h' (omega (arith, length-append q (v ∷ []))) in
      (slots', c, rw (e, ◌>>=◌) e', rw append_assoc at h'')

-- How many of the items go into a queue.
abbrev pub taken : {A : Type 0} → ℕ → List A → List A → ℕ
taken cap items q = min (length items) (cap - length q)

module _ {A W : Type 0} ⦃w : Waiter W⦄ {cap : ℕ} (ok_cap : IsCap cap) where
  batch_scan-Routes :
      (left k : ℕ) (p : Producer) (inner : Inner A W) (grid : List (List (List A))) (items : List A)
      → Stands cap inner grid
      → p.my_idx < inner.m
      → left + k ≡ inner.n
      → Routes ok_cap p inner grid k
          (0, items, p, inner)
          (λ j q inner'. (
            taken cap items q,
            drop (taken cap items q) items,
            record p { cursor = (at_round p inner j + 1) % inner.n % 2 ^ 32 },
            inner',
          ))
          (λ q. q ++ take (taken cap items q) items)
          (batch_scan cap left k p inner items)
  unfolding batch_scan
  batch_scan-Routes zero k p inner grid items st hi e =
      inl (refl, λ j from to. absurd (omega arith))
  batch_scan-Routes (suc left) k p inner grid items st hi e =
      let s : ℕ = at_round p inner k in
      let (shard, row, r, q, e1, e2, f1, f2, held, h) =
        Stands-get s p.my_idx st (mod-lt (p.cursor % inner.n + k) {m = inner.n} st.some_shard) hi in
      elim (Bool-cases (leb cap (length q))) [
        | inl full ↦
            rw (e1, f1, ◌>>=◌, h.count, full)
              (later-Routes ok_cap p inner grid k _ _ _ q (rw (e2, ◌>>=◌) f2) (ground arith)
                (batch_scan-Routes left (k + 1) p inner grid items st hi (omega arith)))
        | inr room ↦
            let n : ℕ = taken cap items q in
            let (slots, c, we, h') =
              burst-Holds ok_cap (take n items) h (ground (arith, length-take n items)) in
            found-Routes ok_cap p k _ _ (λ x. x ++ take (taken cap items x) items)
              (record r { head = c; slots = slots }) st (omega arith) e1 e2 f2 held h'
              (ground arith) (rw (e1, f1, ◌>>=◌, h.count, room, we))
      ]

  -- `try_send_batch` of a vector that is not empty moves nothing if all queues of the producer are full.
  -- Otherwise it appends as many items as fit, from the front of the vector and in order, to the first queue
  -- with room, and returns their number; it leaves the rest of the vector and the other queues alone, moves
  -- the cursor and wakes that shard's consumer once. It moves nothing of an empty vector.
  pub try_send_batch-Routes :
      (p : Producer) (inner : Inner A W) (grid : List (List (List A))) (items : List A)
      → Stands cap inner grid
      → p.my_idx < inner.m
      → ((items ≡ []) × (try_send_batch cap p inner items ≡ some (0, [], p, inner)))
        ⊎ ((0 < length items)
            × Routes ok_cap p inner grid 0
                (0, items, p, inner)
                (λ j q inner'. (
                  taken cap items q,
                  drop (taken cap items q) items,
                  record p { cursor = (at_round p inner j + 1) % inner.n % 2 ^ 32 },
                  inner',
                ))
                (λ q. q ++ take (taken cap items q) items)
                (try_send_batch cap p inner items))
  unfolding try_send_batch
  try_send_batch-Routes p inner grid [] st hi = inl (refl, refl)
  try_send_batch-Routes p inner grid (x ∷ xs) st hi =
      let some_items : (length (x ∷ xs) == 0) ≡ false = ground arith in
      inr (
        omega arith,
        rw some_items (batch_scan-Routes inner.n 0 p inner grid (x ∷ xs) st hi (omega arith)),
      )
