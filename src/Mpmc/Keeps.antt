-- ===== src/Mpmc/Keeps.antt =====
-- The items before and behind each call of Mpmc.History.
use mathlib.Core.List.{Perm}
use mathlib.Core.List.Perm
use mathlib.Core.Path.{subst}
use native.Mathlib.Decide.{ℕ_discrete}
use arbitro_kit.Prelude.{
  ℕ, suc, ◌<◌, ◌≡◌, refl, ap, ◌∙◌, ◌>>=◌, List, [], ◌∷◌, ◌++◌, Option, some, inl, inr, length, take,
  map, get_elem?, set, get_elem?-set_self, get_elem?-set_ne, get_elem?-some_lt, arith,
}
use arbitro_kit.Cells.{IsCap}
use arbitro_kit.Waiter.{Waiter}
use arbitro_kit.Ring.History.{Log}
use arbitro_kit.Mpmc.Types.{Inner, Producer}
use arbitro_kit.Mpmc.Tx.{advance, signal}
use arbitro_kit.Mpmc.Grid.{Stands, cell, put}
use arbitro_kit.Mpmc.Rows.{first_item}
use arbitro_kit.Mpmc.Send.{at_round, try_send-Routes}
use arbitro_kit.Mpmc.SendBatch.{taken, try_send_batch-Routes}
use arbitro_kit.Mpmc.Recv.{try_recv-serves}
use arbitro_kit.Mpmc.LastSend.{wake_shards-rows}
use arbitro_kit.Mpmc.Contents.{
  Perm-eq, contents, contents-set, contents-put, found, first_item-found,
}
use arbitro_kit.Mpmc.History.{sends, sends_batch, receives, signals, Channel, apply}

length-map_wake : {W : Type 0} ⦃w : Waiter W⦄ (ws : List W) → length (map w.wake ws) ≡ length ws
length-map_wake [] = refl
length-map_wake (x ∷ ws) = ap suc (length-map_wake ws)

-- A producer's handle is put back, changed but for its index.
handle-set :
    (m : ℕ) (ps : List Producer) (i : ℕ) (p p' : Producer)
    → ((j : ℕ) → j < m → (q : Producer) × (get_elem? ps j ≡ some q) × (q.my_idx < m))
    → get_elem? ps i ≡ some p
    → p'.my_idx < m
    → (j : ℕ) → j < m
    → (q : Producer) × (get_elem? (set ps i p') j ≡ some q) × (q.my_idx < m)
handle-set m ps i p p' all e fits j h = elim (ℕ_discrete i j) [
  | yes same ↦ (
    p',
    subst (λ x. get_elem? (set ps i p') x ≡ some p') same
        (get_elem?-set_self ps i p' (get_elem?-some_lt ps i e)),
    fits,
  )
  | no other ↦ let (q, f, lt) = all j h in (q, get_elem?-set_ne ps i j p' other ∙ f, lt)
]

module _ {A W : Type 0} ⦃w : Waiter W⦄ (cap m n : ℕ) where
  -- The channel stands for the grid, and each producer has its handle.
  pub record Good (ch : Channel A W) (grid : List (List (List A))) : Type 0 where
    pub stands : Stands cap ch.inner grid
    pub same_m : ch.inner.m ≡ m
    pub same_n : ch.inner.n ≡ n
    pub handle :
        (i : ℕ) → i < m → (p : Producer) × (get_elem? ch.producers i ≡ some p) × (p.my_idx < m)

  -- From a channel that holds the items of `grid`, a run gives `out`, with nothing lost or doubled.
  pub record Keeps (grid : List (List (List A))) (out : Option (Log A × Channel A W)) : Type 0 where
    pub log : Log A
    pub end : Channel A W
    pub left : List (List (List A))
    pub no_fault : out ≡ some (log, end)
    pub good : Good end left
    pub balance : Perm (log.accepted ++ contents grid) (log.delivered ++ contents left)

module _ {A W : Type 0} ⦃w : Waiter W⦄ {cap m n : ℕ} (ok_cap : IsCap cap) where
  -- A producer puts items in at the end of one of its queues.
  put-Keeps :
      (ch : Channel A W) (grid : List (List (List A))) (i s : ℕ) (p p' : Producer)
      (inner : Inner A W) (q xs : List A) {out : Option (Log A × Channel A W)}
      → Good cap m n ch grid
      → get_elem? ch.producers i ≡ some p
      → p'.my_idx < m
      → cell grid s p.my_idx ≡ some q
      → Stands cap inner (put grid s p.my_idx (q ++ xs))
      → inner.m ≡ m
      → inner.n ≡ n
      → out
        ≡ some (
          record { accepted = xs; delivered = [] },
          record { producers = set ch.producers i p'; inner = inner },
        )
      → Keeps cap m n grid out
  put-Keeps ch grid i s p p' inner q xs good here fits at st same_m same_n e = record {
    log = record { accepted = xs; delivered = [] };
    end = record { producers = set ch.producers i p'; inner = inner };
    left = put grid s p.my_idx (q ++ xs);
    no_fault = e;
    good = record {
      stands = st;
      same_m = same_m;
      same_n = same_n;
      handle = handle-set m ch.producers i p p' good.handle here fits;
    };
    balance = contents-put grid s p.my_idx xs at;
  }

  -- A producer is refused.
  same-Keeps :
      (ch : Channel A W) (grid : List (List (List A))) (i : ℕ) (p : Producer)
      {out : Option (Log A × Channel A W)}
      → Good cap m n ch grid
      → get_elem? ch.producers i ≡ some p
      → p.my_idx < m
      → out
        ≡ some (
          record { accepted = []; delivered = [] },
          record { producers = set ch.producers i p; inner = ch.inner },
        )
      → Keeps cap m n grid out
  same-Keeps ch grid i p good here fits e = record {
    log = record { accepted = []; delivered = [] };
    end = record { producers = set ch.producers i p; inner = ch.inner };
    left = grid;
    no_fault = e;
    good = record {
      stands = good.stands;
      same_m = good.same_m;
      same_n = good.same_n;
      handle = handle-set m ch.producers i p p good.handle here fits;
    };
    balance = Perm.refl (contents grid);
  }

  pub send-Keeps :
      (ch : Channel A W) (grid : List (List (List A))) (i : ℕ) (v : A)
      → Good cap m n ch grid
      → i < m
      → Keeps cap m n grid (apply cap ch (sends i v))
  unfolding apply
  send-Keeps ch grid i v good hi =
      let (p, here, fits) = good.handle i hi in
      elim (try_send-Routes ok_cap p ch.inner grid v good.stands
        (omega (arith, fits, good.same_m))) [
          | inl (_, e) ↦ same-Keeps ch grid i p good here fits (rw (here, ◌>>=◌, e))
          | inr (_, inl (e, _)) ↦ same-Keeps ch grid i p good here fits (rw (here, ◌>>=◌, e))
          | inr (_, inr (j, q, x, inner', _, _, _, at, _, e, st, u, _, _)) ↦
              put-Keeps ch grid i (at_round p ch.inner j) p
                (advance cap p ch.inner (at_round p ch.inner j)) inner' q (v ∷ []) good here fits at
                st (u.same_m ∙ good.same_m) (u.same_n ∙ good.same_n) (rw (here, ◌>>=◌, e))
        ]

  pub send_batch-Keeps :
      (ch : Channel A W) (grid : List (List (List A))) (i : ℕ) (items : List A)
      → Good cap m n ch grid
      → i < m
      → Keeps cap m n grid (apply cap ch (sends_batch i items))
  unfolding apply
  send_batch-Keeps ch grid i items good hi =
      let (p, here, fits) = good.handle i hi in
      elim (try_send_batch-Routes ok_cap p ch.inner grid items good.stands
        (omega (arith, fits, good.same_m))) [
          | inl (_, e) ↦ same-Keeps ch grid i p good here fits (rw (here, ◌>>=◌, e))
          | inr (_, inl (e, _)) ↦ same-Keeps ch grid i p good here fits (rw (here, ◌>>=◌, e))
          | inr (_, inr (j, q, x, inner', _, _, _, at, _, e, st, u, _, _)) ↦
              put-Keeps ch grid i (at_round p ch.inner j) p
                (advance cap p ch.inner (at_round p ch.inner j)) inner' q
                (take (taken cap items q) items) good here fits at st (u.same_m ∙ good.same_m)
                (u.same_n ∙ good.same_n) (rw (here, ◌>>=◌, e))
        ]

  pub recv-Keeps :
      (ch : Channel A W) (grid : List (List (List A))) (s : ℕ)
      → Good cap m n ch grid
      → s < n
      → Keeps cap m n grid (apply cap ch (receives s))
  unfolding apply
  recv-Keeps ch grid s good hs =
      let (row, there, (inner', e, st, u, _, _)) =
        try_recv-serves ok_cap s ch.inner grid good.stands (omega (arith, hs, good.same_n)) in
      record {
        log = record { accepted = []; delivered = found (first_item row).0 };
        end = record ch { inner = inner' };
        left = set grid s (first_item row).1;
        no_fault = rw (e, ◌>>=◌);
        good = record {
          stands = st;
          same_m = u.same_m ∙ good.same_m;
          same_n = u.same_n ∙ good.same_n;
          handle = good.handle;
        };
        balance =
            contents-set grid s (first_item row).1 [] (found (first_item row).0) there
              (Perm-eq (first_item-found row));
      }

  pub signal-Keeps :
      (ch : Channel A W) (grid : List (List (List A)))
      → Good cap m n ch grid
      → Keeps cap m n grid (apply cap ch signals)
  unfolding apply signal
  signal-Keeps ch grid good = record {
    log = record { accepted = []; delivered = [] };
    end = record ch { inner = signal ch.inner };
    left = grid;
    no_fault = refl;
    good = record {
      stands = record {
        rows = wake_shards-rows cap ch.inner.m ch.inner.shards grid good.stands.rows;
        height = good.stands.height;
        m_waiters = length-map_wake ch.inner.producer_waiters ∙ good.stands.m_waiters;
        some_shard = good.stands.some_shard;
      };
      same_m = good.same_m;
      same_n = good.same_n;
      handle = good.handle;
    };
    balance = Perm.refl (contents grid);
  }
