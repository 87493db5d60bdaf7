-- ===== src/Cells/Window.antt =====
-- How a window of cells changes when an item is written behind it or moved out of its front.
use arbitro_kit.Prelude.{
  ℕ, zero, suc, ◌+◌, ◌^◌, ◌%◌, ◌≤◌, ◌<◌, ◌≡◌, sym, ap, ◌∙◌, inl, inr, ◌≢◌, true, List, [], ◌∷◌,
  ◌++◌, Option, none, some, length, get_elem?, set, replicate, arith, ◌==◌, word_mod, wrapping_sub,
  bit_and-low_mask, mod-word_mod-mod, pow-pos, pow-le_half, mod-add_inj, length-set, length-append,
  get_elem?-set_self, get_elem?-set_ne, get_elem?-snoc_self, get_elem?-snoc_ne, get_elem?-ge,
  get_elem?-replicate, length-replicate, Bool-cases,
}
use native.Mathlib.Nat.{mod-lt, mod-add-mod, add-mod_right, add-zero}
use native.Mathlib.Decide.{ℕ_discrete}
use arbitro_kit.Cells.Defs.{
  slot_index, is_power_of_two, one_of_powers, IsCap, IsWindow, write_cell, read_cell,
}

one_of_powers-IsCap : (bits n : ℕ) → bits ≤ 64 → one_of_powers bits n ≡ true → IsCap n
one_of_powers-IsCap zero n h e = ground arith
one_of_powers-IsCap (suc bits) n h e = elim (Bool-cases (n == 2 ^ bits)) [
  | inl p ↦ (bits, omega arith, ground arith)
  | inr p ↦ one_of_powers-IsCap bits n (omega arith) (ground arith)
]

pub is_power_of_two-IsCap : (n : ℕ) → is_power_of_two n ≡ true → IsCap n
unfolding is_power_of_two
is_power_of_two-IsCap n e = one_of_powers-IsCap 64 n (omega arith) e

one_of_powers-pow : (bits k : ℕ) → k < bits → one_of_powers bits (2 ^ k) ≡ true
one_of_powers-pow zero k h = elim h [ ]
one_of_powers-pow (suc bits) k h = elim (ℕ_discrete k bits) [
  | yes same ↦ ground arith
  | no other ↦ ground (arith, one_of_powers-pow bits k (omega arith))
]

pub IsCap-is_power_of_two : {cap : ℕ} → IsCap cap → is_power_of_two cap ≡ true
unfolding is_power_of_two
IsCap-is_power_of_two (k, h, e) = rw e (one_of_powers-pow 64 k h)

pub IsCap-bounds : {cap : ℕ} → IsCap cap → (0 < cap) × (cap ≤ 2 ^ 63)
IsCap-bounds (k, h, e) = omega (arith, pow-pos k, pow-le_half k h)

-- The mask is a remainder, and does not see a cursor wrap.
pub slot_index-mod : {cap : ℕ} → IsCap cap → (i : ℕ) → slot_index cap i ≡ i % cap
unfolding slot_index
slot_index-mod (k, h, e) i = rw e (bit_and-low_mask k i)

pub mod-wrap : {cap : ℕ} → IsCap cap → (i : ℕ) → i % word_mod % cap ≡ i % cap
mod-wrap (k, h, e) i = rw e (mod-word_mod-mod i k h)

-- The slot of cursor `h`, which is `n` items past cursor `t`.
pub slot_index-ahead :
    {cap : ℕ}
    → IsCap cap
    → (t h n : ℕ) → t < word_mod
    → h < word_mod
    → wrapping_sub h t ≡ n
    → slot_index cap h ≡ (t + n) % cap
slot_index-ahead {cap} ok_cap t h n ht hh e =
    slot_index-mod ok_cap h
    ∙ ap (λ (x : ℕ). x % cap) (let z : h ≡ (t + n) % word_mod = omega arith in z)
    ∙ mod-wrap ok_cap (t + n)

module _ {A : Type 0} {cap : ℕ} where
  -- All cells empty: the start.
  pub IsWindow-empty : (t : ℕ) → 0 < cap → IsWindow {A = A} cap (replicate cap none) t []
  IsWindow-empty t pos = record {
    size = length-replicate cap none;
    fits = omega arith;
    cells = λ i h. get_elem?-replicate cap ((t + i) % cap) none (mod-lt (t + i) {m = cap} pos);
  }

  -- What a window says of the cell behind it, and of its first.
  pub IsWindow-behind :
      {slots : List (Option A)} {t : ℕ} {q : List A}
      → IsWindow cap slots t q
      → length q < cap
      → get_elem? slots ((t + length q) % cap) ≡ some none
  IsWindow-behind {q = q} w room =
      w.cells (length q) room ∙ ap some (get_elem?-ge q (length q) (omega arith))

  pub IsWindow-front :
      {slots : List (Option A)} {t : ℕ} {v : A} {q : List A}
      → IsWindow cap slots t (v ∷ q)
      → get_elem? slots (t % cap) ≡ some (some v)
  IsWindow-front {slots} {t} w =
      ap (λ (x : ℕ). get_elem? slots (x % cap)) (sym (add-zero t))
      ∙ w.cells 0 (omega (arith, w.fits))

  -- The cell just behind a window that has room is free, and may be written.
  IsWindow-push :
      {slots : List (Option A)} {t : ℕ} {q : List A} (j : ℕ) (v : A)
      → IsWindow cap slots t q
      → length q < cap
      → j ≡ (t + length q) % cap
      → (get_elem? slots j ≡ some none) × IsWindow cap (set slots j (some v)) t (q ++ (v ∷ []))
  IsWindow-push {slots} {t} {q} j v w room e = (
    rw e (IsWindow-behind w room),
    record {
      size = length-set slots j (some v) ∙ w.size;
      fits = omega (arith, length-append q (v ∷ []));
      cells = λ i h. elim (ℕ_discrete i (length q)) [
        | yes p ↦
            rw (p, e, get_elem?-snoc_self q v)
              (get_elem?-set_self slots _ (some v)
                (omega (arith, w.size, mod-lt (t + length q) {m = cap} (omega arith))))
        | no p ↦
            rw (get_elem?-snoc_ne q v i p, e)
              (get_elem?-set_ne slots _ ((t + i) % cap) (some v)
                  (mod-add_inj t (length q) i cap room h (λ r. p (omega arith)))
                ∙ w.cells i h)
      ];
    },
  )

  pub write_cell-IsWindow :
      {slots : List (Option A)} {t : ℕ} {q : List A} (j : ℕ) (v : A)
      → IsWindow cap slots t q
      → length q < cap
      → j ≡ (t + length q) % cap
      → (slots' : List (Option A)) × (write_cell slots j v ≡ some slots')
        × IsWindow cap slots' t (q ++ (v ∷ []))
  unfolding write_cell
  write_cell-IsWindow {slots} j v w room e =
      let (free, w') = IsWindow-push j v w room e in
      (set slots j (some v), rw (free, write_cell), w')

  -- The first cell of a window holds its first item, and may be moved out of.
  IsWindow-pop :
      {slots : List (Option A)} {t : ℕ} {v : A} {q : List A} (j t' : ℕ)
      → IsWindow cap slots t (v ∷ q)
      → j ≡ t % cap
      → t' % cap ≡ (t + 1) % cap
      → (get_elem? slots j ≡ some (some v)) × IsWindow cap (set slots j none) t' q
  IsWindow-pop {slots} {t} {v} {q} j t' w e e' = (
    (let z : j ≡ (t + 0) % cap = rw add-zero e in rw z (w.cells 0 (omega (arith, w.fits)))),
    record {
      size = length-set slots j none ∙ w.size;
      fits = omega (arith, w.fits);
      cells = λ i h. elim (ℕ_discrete (suc i) cap) [
        | yes last ↦
            rw (shift i, last, add-mod_right t cap, ← e, get_elem?-ge q i (omega (arith, w.fits)))
              (get_elem?-set_self slots j none
                (rw e (omega (arith, w.size, mod-lt t {m = cap} (omega arith)))))
        | no p ↦ rw (shift i) (
            get_elem?-set_ne slots j ((t + suc i) % cap) none (far i (omega arith))
            ∙ w.cells (suc i) (omega arith))
      ];
    },
  )
    where
      shift : (i : ℕ) → (t' + i) % cap ≡ (t + suc i) % cap
      shift i =
          sym (mod-add-mod t' cap i)
          ∙ rw e' (mod-add-mod (t + 1) cap i ∙ ap (λ (n : ℕ). n % cap) (omega arith))

      far : (i : ℕ) → suc i < cap → j ≢ (t + suc i) % cap
      far i h r =
          mod-add_inj t 0 (suc i) cap (omega arith) h (λ z. omega arith)
            (ap (λ (n : ℕ). n % cap) (add-zero t) ∙ sym e ∙ r)

  pub read_cell-IsWindow :
      {slots : List (Option A)} {t : ℕ} {v : A} {q : List A} (j t' : ℕ)
      → IsWindow cap slots t (v ∷ q)
      → j ≡ t % cap
      → t' % cap ≡ (t + 1) % cap
      → (slots' : List (Option A)) × (read_cell slots j ≡ some (v, slots'))
        × IsWindow cap slots' t' q
  unfolding read_cell
  read_cell-IsWindow {slots} j t' w e e' =
      let (full, w') = IsWindow-pop j t' w e e' in (set slots j none, rw (full, read_cell), w')
