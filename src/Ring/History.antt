-- ===== src/Ring/History.antt =====
-- Any sequence of calls on a live pair of handles: what went in comes out, once and in order.
use mathlib.Core.List.{reverse, reverse-reverse}
use arbitro_kit.Prelude.{
  ℕ, ◌≡◌, refl, ap, sym, ◌∙◌, ◌>>=◌, true, List, [], ◌∷◌, ◌++◌, append-nil, append_assoc, Option,
  some, length, drop, Result, ok, err, Bool-cases, ltb, inl, inr,
}
use mathlib.Core.Path.{subst}
use arbitro_kit.Cells.{IsCap}
use arbitro_kit.Waiter.{Waiter}
use arbitro_kit.Ring.Types.{Link, TrySendError, TryRecvError}
use arbitro_kit.Ring.Shared.{new, close}
use arbitro_kit.Ring.Tx.{try_send, try_send_bulk}
use arbitro_kit.Ring.Rx.{Call, returned, Drained, drained, unwound, try_recv, drain}
use arbitro_kit.Ring.Feed.{feed}
use arbitro_kit.Ring.Queue.{Queue, push, pop, Represents}
use arbitro_kit.Ring.Basics.{open_queue, new-Represents, close-Represents}
use arbitro_kit.Ring.Send.{try_send-refines}
use arbitro_kit.Ring.Bulk.{try_send_bulk-refines}
use arbitro_kit.Ring.Recv.{try_recv-refines}
use arbitro_kit.Ring.Drain.{drain-refines}

-- The calls of the two handles, and the close that the drop of either makes.
pub data Op (A : Type 0) : Type 0 where
  sends : A → Op A
  sends_bulk : List A → Op A
  receives : Op A
  drains : Op A
  closes : Op A

-- The items that calls took in, and those that they gave out, in order.
pub record Log (A : Type 0) : Type 0 where
  pub accepted : List A
  pub delivered : List A

module _ {A : Type 0} where
  abbrev pub took : Result (TrySendError A) (Unit {0}) → A → Log A
  took (ok _) v = record { accepted = v ∷ []; delivered = [] }
  took (err _) v = record { accepted = []; delivered = [] }

  abbrev pub gave : Result TryRecvError A → Log A
  gave (ok v) = record { accepted = []; delivered = v ∷ [] }
  gave (err _) = record { accepted = []; delivered = [] }

  -- A closure for `drain` that collects what it is given.
  abbrev pub collect : List A → A → Call (List A)
  collect got v = returned (got ++ (v ∷ []))

  abbrev pub collected : Drained (List A) → List A
  collected (drained n got) = got
  collected (unwound got) = got

module _ {A W : Type 0} ⦃w : Waiter W⦄ (cap : ℕ) where
  unfoldable pub apply : Link A W → Op A → Option (Log A × Link A W)
  apply l (sends v) = do
    (res, p, r) ← try_send cap l.tx l.shared v
    some (took res v, record l { tx = p; shared = r })
  apply l (sends_bulk items) = do
    (n, kept, p, r) ← try_send_bulk cap l.tx l.shared items
    some (
      record { accepted = reverse (drop (length kept) items); delivered = [] },
      record l { tx = p; shared = r },
    )
  apply l receives = do
    (res, c, r) ← try_recv cap l.rx l.shared
    some (gave res, record l { rx = c; shared = r })
  apply l drains = do
    (out, c, r) ← drain cap l.rx l.shared collect []
    some (record { accepted = []; delivered = collected out }, record l { rx = c; shared = r })
  apply l closes =
      some (record { accepted = []; delivered = [] }, record l { shared = close l.shared })

  unfoldable pub run : Link A W → List (Op A) → Option (Log A × Link A W)
  run l [] = some (record { accepted = []; delivered = [] }, l)
  run l (op ∷ ops) = do
    (first, l') ← apply l op
    (later, l'') ← run l' ops
    some (
      record {
        accepted = first.accepted ++ later.accepted;
        delivered = first.delivered ++ later.delivered;
      },
      l'',
    )

module _ {A : Type 0} where
  push-balance :
      (cap : ℕ) (q : Queue A) (v : A)
      → q.items ++ (took (push cap q v).0 v).accepted
        ≡ (took (push cap q v).0 v).delivered ++ (push cap q v).1.items
  unfolding push
  push-balance cap q v = elim (Bool-cases (ltb (length q.items) cap)) [
    | inl room ↦ rw room
    | inr full ↦ rw full (append-nil q.items)
  ]

  pop-balance :
      (q : Queue A)
      → q.items ++ (gave (pop q).0).accepted ≡ (gave (pop q).0).delivered ++ (pop q).1.items
  unfolding pop
  pop-balance q = by_items q.items
    where
      by_items :
          (xs : List A)
          → xs ++ (gave (pop (record q { items = xs })).0).accepted
            ≡ (gave (pop (record q { items = xs })).0).delivered
              ++ (pop (record q { items = xs })).1.items
      by_items [] = refl
      by_items (x ∷ xs) = ap (◌∷◌ x) (append-nil xs)

  feed-collect : (xs got : List A) → feed collect got xs ≡ (returned (got ++ xs), [])
  unfolding feed
  feed-collect [] got = rw append-nil
  feed-collect (x ∷ xs) got = rw (feed-collect xs (got ++ (x ∷ [])), append_assoc)

  drop-append : (kept ys : List A) → drop (length kept) (kept ++ ys) ≡ ys
  drop-append [] ys = refl
  drop-append (x ∷ kept) ys = drop-append kept ys

  taken :
      (items kept sent : List A)
      → items ≡ kept ++ reverse sent
      → reverse (drop (length kept) items) ≡ sent
  taken items kept sent split =
      ap (λ xs. reverse (drop (length kept) xs)) split
      ∙ ap reverse (drop-append kept (reverse sent))
      ∙ reverse-reverse sent

module _ {A W : Type 0} ⦃w : Waiter W⦄ {cap : ℕ} (ok_cap : IsCap cap) where
  -- From a state that stands for `q`, a run gives `out`, with nothing lost, doubled or reordered.
  pub record Conserves (q : Queue A) (out : Option (Log A × Link A W)) : Type 0 where
    pub log : Log A
    pub end : Link A W
    pub left : Queue A
    pub no_fault : out ≡ some (log, end)
    pub represents : Represents cap end.tx end.rx end.shared left
    pub balance : q.items ++ log.accepted ≡ log.delivered ++ left.items

  apply-Conserves :
      (l : Link A W) (q : Queue A) (op : Op A)
      → Represents cap l.tx l.rx l.shared q
      → Conserves q (apply cap l op)
  unfolding apply
  apply-Conserves l q (sends v) rep =
      let (p, r, e, rep') = try_send-refines ok_cap v rep in
      record {
        log = took (push cap q v).0 v;
        end = record l { tx = p; shared = r };
        left = (push cap q v).1;
        no_fault = rw (e, ◌>>=◌);
        represents = rep';
        balance = push-balance cap q v;
      }
  apply-Conserves l q (sends_bulk items) rep =
      let (sent, kept, p, r, e, split, _, rep') = try_send_bulk-refines ok_cap items rep in
      record {
        log = record { accepted = sent; delivered = [] };
        end = record l { tx = p; shared = r };
        left = record q { items = q.items ++ sent };
        no_fault = rw (e, ◌>>=◌, taken items kept sent split);
        represents = rep';
        balance = refl;
      }
  apply-Conserves l q receives rep =
      let (c, r, e, rep') = try_recv-refines ok_cap q rep in
      record {
        log = gave (pop q).0;
        end = record l { rx = c; shared = r };
        left = (pop q).1;
        no_fault = rw (e, ◌>>=◌);
        represents = rep';
        balance = pop-balance q;
      }
  apply-Conserves l q drains rep =
      let (c, r, e, rep', looked) = drain-refines ok_cap q collect [] rep in
      let f = feed-collect q.items [] in
      record {
        log = record { accepted = []; delivered = q.items };
        end = record l { rx = c; shared = r };
        left = record q { items = [] };
        no_fault = rw (e, ◌>>=◌, f);
        represents =
            subst
              (λ x. Represents cap l.tx (record c { cached_head = x }) r (record q { items = [] }))
              (sym (looked q.items (ap (λ o. o.0) f))) (rw f at rep');
        balance = refl;
      }
  apply-Conserves l q closes rep = record {
    log = _;
    end = _;
    left = record q { closed = true };
    no_fault = refl;
    represents = close-Represents rep;
    balance = append-nil q.items;
  }

  run-Conserves :
      (ops : List (Op A)) (l : Link A W) (q : Queue A)
      → Represents cap l.tx l.rx l.shared q
      → Conserves q (run cap l ops)
  unfolding run
  run-Conserves [] l q rep = record {
    log = record { accepted = []; delivered = [] };
    end = l;
    left = q;
    no_fault = refl;
    represents = rep;
    balance = append-nil q.items;
  }
  run-Conserves (op ∷ ops) l q rep =
      let first = apply-Conserves l q op rep in
      let later = run-Conserves ops first.end first.left first.represents in
      record {
        log = record {
          accepted = first.log.accepted ++ later.log.accepted;
          delivered = first.log.delivered ++ later.log.delivered;
        };
        end = later.end;
        left = later.left;
        no_fault = rw (first.no_fault, ◌>>=◌, later.no_fault, ◌>>=◌);
        represents = later.represents;
        balance = rw (← append_assoc, first.balance, append_assoc, later.balance, append_assoc);
      }

  -- From a new ring, its capacity a power of two, no sequence of sends, bulk sends, receives, closes and drains whose
  -- closure collects the items and does not panic faults, each call run to its end before the next. At the end the
  -- accepted items are those delivered and, behind them, those still in flight, each once and in order.
  pub exactly_once :
      (ops : List (Op A))
      → (l end : Link A W) × (log : Log A) × (left : Queue A) × (new A cap ≡ some l)
        × (run cap l ops ≡ some (log, end))
        × Represents cap end.tx end.rx end.shared left
        × (log.accepted ≡ log.delivered ++ left.items)
  exactly_once ops = elim (new-Represents A {W = W} cap) [
    | inl (_, (l, made, rep)) ↦
        let done = run-Conserves ops l open_queue rep in
        (l, done.end, done.log, done.left, made, done.no_fault, done.represents, done.balance)
    | inr (bad, _) ↦ absurd (bad ok_cap)
  ]
