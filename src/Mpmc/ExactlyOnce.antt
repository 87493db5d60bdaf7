-- ===== src/Mpmc/ExactlyOnce.antt =====
-- What becomes of the items in a run of Mpmc.History.
use mathlib.Core.List.{flatten, Perm}
use mathlib.Core.List.Perm
use arbitro_kit.Prelude.{
  ℕ, ◌≤◌, ◌<◌, ◌≡◌, refl, sym, ap, ◌∙◌, ◌>>=◌, true, List, [], ◌∷◌, ◌++◌, append-nil, some, inl,
  inr, length, map, replicate, get_elem?-lt, get_elem?-replicate, length-replicate, All2-get,
  All2-length, unsome, arith,
}
use arbitro_kit.Cells.{IsCap}
use arbitro_kit.Waiter.{Waiter}
use arbitro_kit.Ring.History.{Log}
use arbitro_kit.Mpmc.Types.{Inner, Producer, new}
use arbitro_kit.Mpmc.Rx.{drop_shards}
use arbitro_kit.Mpmc.Grid.{HoldsRow, Stands}
use arbitro_kit.Mpmc.Contents.{Perm-eq, Perm-compose, contents, contents-empty, contents-flatten}
use arbitro_kit.Mpmc.Ends.{new_lem, drop_shards-flatten}
use arbitro_kit.Mpmc.History.{
  Op, sends, sends_batch, receives, signals, Channel, all_there, apply, run,
}
use arbitro_kit.Mpmc.Keeps.{Good, Keeps, send-Keeps, send_batch-Keeps, recv-Keeps, signal-Keeps}

module _ {A W : Type 0} ⦃w : Waiter W⦄ {cap m n : ℕ} (ok_cap : IsCap cap) where
  apply-Keeps :
      (op : Op A) (ops : List (Op A)) (ch : Channel A W) (grid : List (List (List A)))
      → Good cap m n ch grid
      → all_there m n (op ∷ ops) ≡ true
      → Keeps cap m n grid (apply cap ch op) × (all_there m n ops ≡ true)
  apply-Keeps (sends i v) ops ch grid good there =
      (send-Keeps ok_cap ch grid i v good (ground arith), ground arith)
  apply-Keeps (sends_batch i items) ops ch grid good there =
      (send_batch-Keeps ok_cap ch grid i items good (ground arith), ground arith)
  apply-Keeps (receives s) ops ch grid good there =
      (recv-Keeps ok_cap ch grid s good (ground arith), ground arith)
  apply-Keeps signals ops ch grid good there = (signal-Keeps ok_cap ch grid good, there)

  run-Keeps :
      (ops : List (Op A)) (ch : Channel A W) (grid : List (List (List A)))
      → Good cap m n ch grid
      → all_there m n ops ≡ true
      → Keeps cap m n grid (run cap ch ops)
  unfolding run
  run-Keeps [] ch grid good there = record {
    log = record { accepted = []; delivered = [] };
    end = ch;
    left = grid;
    no_fault = refl;
    good = good;
    balance = Perm.refl (contents grid);
  }
  run-Keeps (op ∷ ops) ch grid good there =
      let (first, others) = apply-Keeps op ops ch grid good there in
      let later = run-Keeps ops first.end first.left first.good others in
      record {
        log = record {
          accepted = first.log.accepted ++ later.log.accepted;
          delivered = first.log.delivered ++ later.log.delivered;
        };
        end = later.end;
        left = later.left;
        no_fault = rw (first.no_fault, ◌>>=◌, later.no_fault, ◌>>=◌);
        good = later.good;
        balance =
            Perm-compose first.log.accepted later.log.accepted first.log.delivered
              later.log.delivered (contents grid) (contents first.left) (contents later.left)
              first.balance later.balance;
      }

  -- A channel that stands for a grid of `n` rows of `m` queues has `m` producers and `n` consumers.
  sizes :
      (inner : Inner A W)
      → Stands cap inner (replicate n (replicate m []))
      → (inner.m ≡ m) × (inner.n ≡ n)
  sizes inner st =
      let high : n ≡ inner.n = sym (length-replicate n (replicate {A = List A} m [])) ∙ st.height in
      let (shard, e) = get_elem?-lt inner.shards 0 (
        omega (
          arith,
          st.some_shard,
          st.height,
          All2-length (HoldsRow cap inner.m) inner.shards
              (replicate n (replicate {A = List A} m [])) st.rows,
        )) in
      let (row, e', held) =
        All2-get (HoldsRow cap inner.m) inner.shards (replicate n (replicate {A = List A} m [])) 0
          st.rows e in
      let same : replicate m [] ≡ row = unsome (
        sym (
          get_elem?-replicate n 0 (replicate {A = List A} m [])
            (omega (arith, st.some_shard, high)))
        ∙ e') in
      (sym held.width ∙ ap length (sym same) ∙ length-replicate m [], sym high)

  -- From a new channel of `m` producers, at most 255, and `n` consumers, not none of either, its capacity a power
  -- of two, whatever is sent, singly or in batches, received and shut down on its handles in any order, one
  -- call after the other, no call faults, and the items accepted are, up to their order, those delivered and
  -- those that the drop of the channel drops at the end, each once.
  pub accepted_once :
      (ops : List (Op A))
      → 0 < m
      → m ≤ 255
      → 0 < n
      → all_there m n ops ≡ true
      → (ps : List Producer) × (inner : Inner A W) × (log : Log A) × (end : Channel A W)
        × (dropped : List A) × (new A cap m n ≡ some (ps, inner))
        × (run cap (record { producers = ps; inner = inner }) ops ≡ some (log, end))
        × (drop_shards cap end.inner.shards ≡ some dropped)
        × Perm log.accepted (log.delivered ++ dropped)
  accepted_once ops some_m few some_n there = elim (new_lem A W cap m n) [
    | inr (bad, _) ↦ absurd (bad (ok_cap, some_m, few, some_n))
    | inl (_, _, _, _, (ps, inner, made, st, _, all)) ↦
        let (same_m, same_n) = sizes inner st in
        let done =
          run-Keeps ops (record { producers = ps; inner = inner }) (replicate n (replicate m []))
            (record {
              stands = st;
              same_m = same_m;
              same_n = same_n;
              handle = λ i h. let (p, e, idx, _) = all i h in (p, e, omega (arith, idx, h));
            })
            there in
        let dropped =
          drop_shards-flatten ok_cap done.end.inner.m done.end.inner.shards done.left
            done.good.stands.rows in
        (
          ps,
          inner,
          done.log,
          done.end,
          flatten (map flatten done.left),
          made,
          done.no_fault,
          dropped,
          Perm.trans
              (Perm-eq (
                sym (append-nil done.log.accepted)
                ∙ ap (◌++◌ done.log.accepted) (sym (contents-empty n m))))
              (Perm.trans done.balance
                (Perm-eq (ap (◌++◌ done.log.delivered) (contents-flatten done.left)))),
        )
  ]
