-- ===== src/Ring/Teardown.antt =====
-- `Ring::drop`: each item in flight is dropped once, in order, and nothing else is touched.
use arbitro_kit.Prelude.{
  ℕ, zero, suc, ◌+◌, ◌<◌, ◌≡◌, ◌>>=◌, false, List, [], ◌∷◌, Option, some, length, ◌==◌, word_mod,
  wrapping_sub, wrapping_add, arith,
}
use arbitro_kit.Cells.{
  IsCap, IsWindow, slot_index, slot_index-mod, mod-wrap, IsCap-bounds, read_cell-IsWindow,
}
use arbitro_kit.Ring.Types.{Ring, Producer, Consumer}
use arbitro_kit.Ring.Shared.{drop_loop, drop_ring}
use arbitro_kit.Ring.Queue.{Queue, Represents}

module _ {A : Type 0} {cap : ℕ} (ok_cap : IsCap cap) where
  pub drop_loop-IsWindow :
      (fuel : ℕ) (slots : List (Option A)) (i head : ℕ) (xs : List A)
      → length xs < fuel
      → i < word_mod
      → head < word_mod
      → wrapping_sub head i ≡ length xs
      → IsWindow cap slots i xs
      → (slots' : List (Option A)) × (drop_loop cap fuel slots i head ≡ some (xs, slots'))
        × IsWindow cap slots' head []
  unfolding drop_loop
  drop_loop-IsWindow zero slots i head xs h hi hh e win = elim h [ ]
  drop_loop-IsWindow (suc fuel) slots i head [] h hi hh e win =
      let same : i ≡ head = omega arith in (slots, ground arith, rw (← same) win)
  drop_loop-IsWindow (suc fuel) slots i head (x ∷ xs) h hi hh e win =
      let more : (i == head) ≡ false = ground arith in
      let (slots', e1, win') =
        read_cell-IsWindow (slot_index cap i) (wrapping_add i 1) win (slot_index-mod ok_cap i)
          (mod-wrap ok_cap (i + 1)) in
      let (slots'', e2, win'') =
        drop_loop-IsWindow fuel slots' (wrapping_add i 1) head xs (omega arith) (omega arith) hh
          (omega (arith, win.fits, IsCap-bounds ok_cap)) win' in
      (slots'', rw (more, e1, ◌>>=◌, e2, ◌>>=◌), win'')

  -- The last handle's drop destroys exactly the items in flight, oldest first, and leaves no cell
  -- with a value; the fuel suffices.
  pub drop_ring-Represents :
      {W : Type 0} {p : Producer} {c : Consumer} {r : Ring A W} {q : Queue A}
      → Represents cap p c r q
      → (slots : List (Option A)) × (drop_ring cap r ≡ some (q.items, slots))
        × IsWindow cap slots r.head []
  unfolding drop_ring
  drop_ring-Represents {r} {q} rep =
      drop_loop-IsWindow (suc cap) r.slots r.tail r.head q.items (omega (arith, rep.window.fits))
        rep.tail_fits rep.head_fits rep.count rep.window
