-- ===== src/Mpmc/Drain.antt =====
-- `MpmcConsumer::drain_all` on a channel that stands for a grid of queues: the closure sees every item of
-- the row, and one more round finds that nothing is left.
use mathlib.Core.List.{flatten}
use arbitro_kit.Prelude.{
  ℕ, zero, suc, ◌+◌, ◌<◌, ◌≡◌, ap, sym, ◌∙◌, inl, inr, List, [], some, ◌==◌, ◌>>=◌, get_elem?, set,
  set-set, get_elem?-set_self, length, arith, Bool-cases, unsome, get_elem?-some_lt,
}
use arbitro_kit.Cells.{IsCap}
use arbitro_kit.Waiter.{Waiter}
use arbitro_kit.Ring.Rx.{Call, drained}
use arbitro_kit.Ring.Feed.{feed, Call-cases, feed-returned}
use arbitro_kit.Ring.Drain.{outcome}
use arbitro_kit.Mpmc.Types.{PRing, Shard, Inner}
use arbitro_kit.Mpmc.Rx.{drain_pass, drain_loop, drain_all, put_back}
use arbitro_kit.Mpmc.Grid.{Stands}
use arbitro_kit.Mpmc.Rows.{feed_row, feed_row-flatten}
use arbitro_kit.Mpmc.Recv.{put_back-Stands, Stands-row}
use arbitro_kit.Mpmc.DrainRound.{PassFeeds, drain_pass-feeds}

module _ {A W S : Type 0} ⦃w : Waiter W⦄ {cap : ℕ} (ok_cap : IsCap cap) (f : S → A → Call S) where
  -- One round, as `drain_loop` goes on from it.
  round :
      (s : ℕ) (inner : Inner A W) (grid : List (List (List A))) (row : List (List A)) (st : S)
      → Stands cap inner grid
      → s < inner.n
      → get_elem? grid s ≡ some row
      → (shard : Shard A W) × (rings : List (PRing A)) × (ws : List W) × (row' : List (List A))
        × (get_elem? inner.shards s ≡ some shard)
        × (drain_pass cap inner.m shard.rings inner.producer_waiters f st
            ≡ some (outcome (length (flatten row)) (feed f st (flatten row)).0, rings, ws))
        × Stands cap (put_back cap inner s shard rings ws) (set grid s row')
        × (flatten row' ≡ (feed f st (flatten row)).1)
  unfolding PassFeeds
  round s inner grid row st sts hs g =
      let (shard, row0, e, e', held) = Stands-row s sts hs in
      let same : row0 ≡ row = unsome (sym e' ∙ g) in
      let n : length row ≡ inner.m = ap length (sym same) ∙ held.width in
      let (rings, ws, out, h, m) =
        drain_pass-feeds ok_cap f inner.m shard.rings inner.producer_waiters row st
          (rw same at held.rings) n sts.m_waiters in
      let (fed, left, width) = feed_row-flatten f row st in
      (
        shard,
        rings,
        ws,
        (feed_row f st row).1,
        e,
        rw fed at out,
        put_back-Stands s shard rings _ ws sts h (width ∙ n) m,
        left,
      )

  -- A round on an empty row ends the loop.
  drain_loop-idle :
      (fuel s : ℕ) (inner : Inner A W) (grid : List (List (List A))) (row : List (List A)) (st : S)
      (count : ℕ)
      → 0 < fuel
      → Stands cap inner grid
      → s < inner.n
      → get_elem? grid s ≡ some row
      → flatten row ≡ []
      → (inner' : Inner A W) × (row' : List (List A)) × (drain_loop cap fuel s inner f st count
          ≡ some (drained count st, inner'))
        × Stands cap inner' (set grid s row')
        × (flatten row' ≡ [])
  unfolding drain_loop feed
  drain_loop-idle zero s inner grid row st count some_fuel sts hs g bare = elim some_fuel [ ]
  drain_loop-idle (suc fuel) s inner grid row st count some_fuel sts hs g bare =
      let (shard, rings, ws, row', e, out, sts', left) = round s inner grid row st sts hs g in
      let empty : length (flatten row) ≡ 0 = ap length bare in
      (
        put_back cap inner s shard rings ws,
        row',
        rw (e, ◌>>=◌, out, bare, empty),
        sts',
        rw bare at left,
      )

  -- With no send in between, `drain_all` gives the closure every item of its row, queue by queue and each
  -- queue in order, until the closure panics, reports how many there were or that it was unwound, and
  -- leaves the channel standing for what the closure was not given. Two rounds are enough.
  pub drain_all-feeds :
      (rounds s : ℕ) (inner : Inner A W) (grid : List (List (List A))) (row : List (List A))
      (st : S)
      → 0 < rounds
      → Stands cap inner grid
      → s < inner.n
      → get_elem? grid s ≡ some row
      → (inner' : Inner A W) × (row' : List (List A)) × (drain_all cap (suc rounds) s inner f st
          ≡ some (outcome (length (flatten row)) (feed f st (flatten row)).0, inner'))
        × Stands cap inner' (set grid s row')
        × (flatten row' ≡ (feed f st (flatten row)).1)
  unfolding drain_all drain_loop
  drain_all-feeds rounds s inner grid row st more sts hs g =
      let (shard, rings, ws, row', e, out, sts', left) = round s inner grid row st sts hs g in
      let inner' = put_back cap inner s shard rings ws in
      elim (Call-cases (feed f st (flatten row)).0) [
        | inr (st', fed) ↦ (inner', row', rw (e, ◌>>=◌, out, fed), sts', left)
        | inl (st', fed) ↦
            let gone : flatten row' ≡ [] = left ∙ feed-returned f (flatten row) st fed in
            let total : (0 + length (flatten row)) ≡ length (flatten row) = omega arith in
            elim (Bool-cases (length (flatten row) == 0)) [
              | inl none_left ↦
                  let empty : 0 ≡ length (flatten row) = ground arith in
                  (inner', row', rw (e, ◌>>=◌, out, fed, none_left, ← empty), sts', left)
              | inr some_left ↦
                  let g' : get_elem? (set grid s row') s ≡ some row' =
                    get_elem?-set_self grid s row' (get_elem?-some_lt grid s g) in
                  let (inner'', row'', e', sts'', left') =
                    drain_loop-idle rounds s inner' (set grid s row') row' st'
                      (length (flatten row)) more sts' hs g' gone in
                  (
                    inner'',
                    row'',
                    rw (e, ◌>>=◌, out, fed, some_left, total) e',
                    rw (set-set grid s row' row'') at sts'',
                    left' ∙ sym (feed-returned f (flatten row) st fed),
                  )
            ]
      ]
