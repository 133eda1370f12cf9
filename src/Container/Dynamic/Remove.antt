-- ===== src/Container/Dynamic/Remove.antt =====
-- runtime/container.c: what `dyn_remove` leaves of a dynamic array.
use loke.Prelude.{
  ℕ, ◌+◌, ◌-◌, ◌*◌, ◌≤◌, ◌<◌, ◌≡◌, ◌≢◌, refl, sym, ap, ◌∙◌, inl, inr, Bool, true, false, Option,
  none, some, arith, leb, ◌==◌, if◌then◌else◌, set, get_or-set, get_or-set_ne,
}
use native.Mathlib.Decide.{ℕ_discrete}
use loke.Prelude.Int.{pos}
use loke.Prelude.Outcome.{Outcome, ok}
use loke.Container.Checked.{checked_bytes, checked_bytes-exact}
use loke.Container.Memory.{Provider, Ops, frozen, cell, read, copy_cells, move_cells}
use loke.Container.Dynamic.{Dynamic}
use loke.Container.Dynamic.Edit.{shift, dyn_remove}
use loke.Container.Dynamic.Contents.{copy_cells-other, copy_cells-copied}
use loke.Container.Dynamic.Regrow.{IsValid}

module _ {E : Type 0} (self : Dynamic E) (index : ℕ) where
  -- The element at the index is handed out, and the others close the gap: in order, or with the
  -- last one moved into it.
  pub record Removed (unordered : Bool) (r : Dynamic E × Option E) : Type 0 where
    pub out : r.1 ≡ cell self.cells index
    pub len : r.0.len ≡ self.len - 1
    pub below : (j : ℕ) → j < index → cell r.0.cells j ≡ cell self.cells j
    pub ordered :
        unordered ≡ false
        → (j : ℕ) → index ≤ j
        → j < self.len - 1
        → cell r.0.cells j ≡ cell self.cells (j + 1)
    pub filled :
        unordered ≡ true
        → (j : ℕ) → index ≤ j
        → j < self.len - 1
        → cell r.0.cells j
          ≡ (if j == index then cell self.cells (self.len - 1) else cell self.cells j)

module _ {S E : Type 0} (selected : ℕ) (p : Provider S) (ops : Ops S E) where
  module _ (self : Dynamic E) (index : ℕ) (valid : IsValid selected p ops self)
      (positive : 0 < ops.elem_size) (inside : index < self.len) where
    swapped :
        (i j : ℕ)
        → (if i == j then cell self.cells (self.len - 1) else cell self.cells j)
          ≡ (if j == i then cell self.cells (self.len - 1) else cell self.cells j)
    swapped i j = ground arith

    shorter : Dynamic E
    shorter = record self { len = self.len - 1 }

    shift-bytes :
        (src dst n bytes : ℕ) (s : Dynamic E)
        → checked_bytes (pos n) ops.elem_size ≡ some bytes
        → 0 < bytes
        → shift selected p ops src dst n s ≡ record s { cells = move_cells src dst n s.cells }
    unfolding shift
    shift-bytes src dst n bytes s e h = ground arith

    shift-moves :
        index < self.len - 1
        → shift selected p ops (index + 1) index (self.len - 1 - index) shorter ≡ record shorter {
          cells = move_cells (index + 1) index (self.len - 1 - index) self.cells;
        }
    unfolding shorter
    shift-moves h =
        let n = self.len - 1 - index in
        elim (checked_bytes-exact n ops.elem_size) [
          | inr (big, e) ↦ absurd (grind (arith, valid.bytes_in, valid.len_in))
          | inl (small, e) ↦
              let some_bytes : 0 < n * ops.elem_size = grind arith in
              shift-bytes (index + 1) index n (n * ops.elem_size) shorter e some_bytes
        ]

    kept :
        (j : ℕ)
        → j < index
        → cell (move_cells (index + 1) index (self.len - 1 - index) self.cells) j
          ≡ cell self.cells j
    unfolding move_cells
    kept j h =
        copy_cells-other (self.len - 1 - index) 0 (frozen self.cells (index + 1)) index self.cells j
          (inl (omega arith))

    moved :
        (j : ℕ)
        → index ≤ j
        → j < self.len - 1
        → cell (move_cells (index + 1) index (self.len - 1 - index) self.cells) j
          ≡ cell self.cells (j + 1)
    unfolding move_cells read
    moved j lo hi =
        let n = self.len - 1 - index in
        let at : index + (j - index) ≡ j = omega arith in
        let from : index + 1 + (j - index) ≡ j + 1 = omega arith in
        let e =
          copy_cells-copied n 0 (frozen self.cells (index + 1)) index self.cells (j - index) tt
            (omega (arith, valid.slots, valid.len_in)) (omega arith) (omega arith) in
        ap (λ (k : ℕ). cell (copy_cells n 0 (frozen self.cells (index + 1)) index self.cells) k)
          (sym at)
        ∙ e
        ∙ ap (λ (k : ℕ). cell self.cells k) from

    Removes : Bool → Type 0
    Removes unordered =
        (r : Dynamic E × Option E) × (dyn_remove selected p ops self (pos index) unordered ≡ ok r)
        × Removed self index unordered r

    live : leb self.len index ≡ false
    live = ground arith

    remove-last : (unordered : Bool) → index ≡ self.len - 1 → Removes unordered
    unfolding dyn_remove shorter Removes
    remove-last unordered last =
        let at_end : (index == self.len - 1) ≡ true = ground arith in
        (
          (shorter, cell self.cells index),
          rw (live, at_end) refl,
          record {
            out = refl;
            len = refl;
            below = λ j h. refl;
            ordered = λ u j lo hi. absurd (omega arith);
            filled = λ u j lo hi. absurd (omega arith);
          },
        )

    remove-inner : (unordered : Bool) → index ≢ self.len - 1 → Removes unordered
    unfolding dyn_remove shorter Removes
    remove-inner true other =
        let before_end : (index == self.len - 1) ≡ false = ground arith in
        (
          (
            record shorter { cells = set self.cells index (cell self.cells (self.len - 1)) },
            cell self.cells index,
          ),
          rw (live, before_end) refl,
          record {
            out = refl;
            len = refl;
            below = λ j h. get_or-set_ne self.cells index j _ none (omega arith);
            ordered = λ u j lo hi. cc;
            filled = λ u j lo hi.
                get_or-set self.cells index j (cell self.cells (self.len - 1)) none
                  (omega (arith, valid.slots, valid.len_in))
                ∙ swapped index j;
          },
        )
    remove-inner false other =
        let before_end : (index == self.len - 1) ≡ false = ground arith in
        (
          (
            record shorter {
              cells = move_cells (index + 1) index (self.len - 1 - index) self.cells;
            },
            cell self.cells index,
          ),
          rw (live, before_end)
              (ap {B = Outcome (Dynamic E × Option E)}
                (λ (s : Dynamic E). ok (s, cell self.cells index)) (shift-moves (omega arith))),
          record {
            out = refl;
            len = refl;
            below = λ j h. kept j h;
            ordered = λ u j lo hi. moved j lo hi;
            filled = λ u j lo hi. cc;
          },
        )

    -- `dyn_remove` at an index of a live element, in a valid container of elements that have bytes,
    -- hands that element out, shortens the container by one and keeps what is before the index. The
    -- ordered form moves the elements behind it down by one; the unordered form moves the last one
    -- into the gap and keeps the others.
    pub dyn_remove-Removed :
        (unordered : Bool)
        → (r : Dynamic E × Option E) × (dyn_remove selected p ops self (pos index) unordered ≡ ok r)
          × Removed self index unordered r
    unfolding Removes
    dyn_remove-Removed unordered = elim (ℕ_discrete index (self.len - 1)) [
      | yes last ↦ remove-last unordered last
      | no other ↦ remove-inner unordered other
    ]
