-- ===== src/Container/Dynamic/Edit.antt =====
-- runtime/container.c: the operations of `loke_rt_dynamic_v1` that move elements.
use loke.Prelude.{
  ℕ, zero, suc, ◌+◌, ◌-◌, ◌*◌, Bool, true, false, ◌&&◌, not, Option, none, some, List, [], ◌∷◌,
  ◌++◌, ltb, leb, ◌==◌, if◌then◌else◌, get_or, set, replicate,
}
use loke.Prelude.Int.{ℤ, pos, negsuc}
use loke.Prelude.Outcome.{Outcome, ok, panic, ◌>>=◌}
use loke.Container.Checked.{checked_add, checked_bytes, sane_align}
use loke.Container.Memory.{
  Provider, Ops, World, Cells, Source, frozen, live, cell, read, copy_cells, move_cells,
}
use loke.Container.Dynamic.{
  Dynamic, Undo, Pointer, outside, inside, refit, dyn_bind, dyn_reserve, dyn_truncate, dyn_regrow,
  dyn_regrow_commit, dyn_regrow_rollback,
}

-- `owned != 0 && owned[i]`
unfoldable pub is_owned : Option (List Bool) → ℕ → Bool
is_owned none i = false
is_owned (some flags) i = get_or flags i false

-- A clone of a slot that was never written copies its garbage.
unfoldable pub clone_cell :
    {S E : Type 0} → (E → S → Option E × S) → Option E → S → Option (Option E) × S
clone_cell clone none s = (some none, s)
clone_cell clone (some e) s =
    let (copy, s₁) = clone e s in (elim copy [ none ↦ none | some c ↦ some (some c) ], s₁)

-- The clones among the first `n` slots from `at` on, in order.
unfoldable pub clones_made :
    {E : Type 0} → (n j : ℕ) → Option (List Bool) → (at : ℕ) → Cells E → Cells E
unfolding is_owned
clones_made zero j owned at cells = []
clones_made (suc n) j owned at cells =
    let rest = clones_made n (j + 1) owned at cells in
    if is_owned owned j then rest else cell cells (at + j) ∷ rest

module _ {S E : Type 0} (selected : ℕ) (p : Provider S) (ops : Ops S E) where
  W : Type 0
  W = World S E

  -- The loop of `dyn_fill`, with the rounds left and the next index.
  unfoldable pub fill_loop :
      (n i : ℕ)
      → (E → S → Option E × S)
      → Source E
      → Option (List Bool)
      → (at : ℕ) → Cells E
      → World S E
      → Bool × Cells E × World S E
  fill_loop zero i clone src owned at cells w = (true, cells, w)
  fill_loop (suc n) i clone src owned at cells w =
      let from = read src cells i in
      let (copy, state) = clone_cell clone from w.state in
      let w₁ : World S E = record w { state = state } in
      elim (is_owned owned i) [
        | true ↦ fill_loop n (i + 1) clone src owned at (set cells (at + i) from) w
        | false ↦ elim copy [
          | some c ↦ fill_loop n (i + 1) clone src owned at (set cells (at + i) c) w₁
          | none ↦ (
            false,
            cells,
            if ops.elem_drop
                then record w₁ { dropped = w₁.dropped ++ clones_made i 0 owned at cells }
                else w₁,
          )
        ]
      ]

  unfoldable pub dyn_fill :
      Dynamic E
      → (at : ℕ) → Source E
      → Option (List Bool)
      → (count : ℕ) → World S E
      → Bool × Dynamic E × World S E
  dyn_fill self at src owned count w = elim ops.elem_clone [
    | none ↦ elim (checked_bytes (pos count) ops.elem_size) [
      | none ↦ (false, self, w)
      | some bytes ↦
          if bytes == 0
          then (true, self, w)
          else (true, record self { cells = copy_cells count 0 src at self.cells }, w)
    ]
    | some clone ↦
        let (done, cells, w₁) = fill_loop count 0 clone src owned at self.cells w in
        (done, record self { cells = cells }, w₁)
  ]

  -- Where the elements behind a pointer are read after `dyn_regrow`: the old block stays readable.
  unfoldable pub source_of : Pointer E → Undo E → Source E
  source_of (outside block) undo = frozen block 0
  source_of (inside start) undo = if undo.grew then frozen undo.old_cells start else live start

  unfoldable pub append_to :
      Dynamic E
      → Pointer E
      → Option (List Bool)
      → (count need : ℕ) → World S E
      → Bool × Dynamic E × World S E
  append_to self src owned count need w =
      let (grown, s₁, undo, w₁) = dyn_regrow selected p ops self need false w in
      let (filled, s₂, w₂) = dyn_fill s₁ s₁.len (source_of src undo) owned count w₁ in
      let (s₃, w₃) = dyn_regrow_rollback selected p ops s₂ undo w₂ in
      if grown
      then (if filled
          then (true, record s₂ { len = need }, dyn_regrow_commit selected p ops undo w₂)
          else (false, s₃, w₃))
      else (false, s₁, w₁)

  unfoldable pub dyn_append_owned :
      Dynamic E
      → Pointer E
      → Option (List Bool)
      → (count : ℤ) → World S E
      → Outcome (Bool × Dynamic E × World S E)
  dyn_append_owned self src owned (negsuc n) w = panic
  dyn_append_owned self src owned (pos zero) w = ok (true, self, w)
  dyn_append_owned self src owned (pos (suc n)) w =
      let bound = dyn_bind selected p ops self in
      ok (elim (checked_add (pos bound.len) (pos (suc n))) [
        | none ↦ (false, bound, w)
        | some need ↦ append_to bound src owned (suc n) need w
      ])

  unfoldable pub dyn_append :
      Dynamic E → Pointer E → (count : ℤ) → World S E → Outcome (Bool × Dynamic E × World S E)
  unfolding dyn_append_owned
  dyn_append self src count w = dyn_append_owned self src none count w

  -- Whether `src` points into the storage, which an empty block has none of.
  unfoldable pub dyn_src_aliases : Dynamic E → Pointer E → Bool
  dyn_src_aliases self (outside block) = false
  dyn_src_aliases self (inside start) =
      not (self.addr == 0) && elim (checked_bytes (pos self.cap) ops.elem_size) [
        | none ↦ false
        | some bytes ↦ ltb (start * ops.elem_size) bytes
      ]

  -- The tail of `insert` that is moved, when it has bytes.
  unfoldable pub shift : (src dst n : ℕ) → Dynamic E → Dynamic E
  unfolding move_cells
  shift src dst n self = elim (checked_bytes (pos n) ops.elem_size) [
    | none ↦ self
    | some bytes ↦
        if bytes == 0 then self else record self { cells = move_cells src dst n self.cells }
  ]

  unfoldable pub insert_at :
      Dynamic E
      → (index : ℕ) → Pointer E
      → (count need : ℕ) → World S E
      → Bool × Dynamic E × World S E
  insert_at self index src count need w =
      let (grown, s₁, undo, w₁) =
        dyn_regrow selected p ops self need (dyn_src_aliases self src) w in
      let tail = s₁.len - index in
      let s₂ = shift index (index + count) tail s₁ in
      let (filled, s₃, w₃) = dyn_fill s₂ index (source_of src undo) none count w₁ in
      let (s₄, w₄) =
        dyn_regrow_rollback selected p ops (shift (index + count) index tail s₃) undo w₃ in
      if grown
      then (if filled
          then (true, record s₃ { len = need }, dyn_regrow_commit selected p ops undo w₃)
          else (false, s₄, w₄))
      else (false, s₁, w₁)

  unfoldable pub dyn_insert :
      Dynamic E
      → (index : ℤ) → Pointer E
      → (count : ℤ) → World S E
      → Outcome (Bool × Dynamic E × World S E)
  dyn_insert self (negsuc i) src count w = panic
  dyn_insert self (pos index) src (negsuc n) w = panic
  dyn_insert self (pos index) src (pos zero) w =
      if ltb self.len index then panic else ok (true, self, w)
  dyn_insert self (pos index) src (pos (suc n)) w =
      let bound = dyn_bind selected p ops self in
      if ltb self.len index
      then panic
      else ok (elim (checked_add (pos bound.len) (pos (suc n))) [
        | none ↦ (false, bound, w)
        | some need ↦ insert_at bound index src (suc n) need w
      ])

  -- The answer, the container, and what is in `*out`.
  unfoldable pub dyn_pop : Dynamic E → Bool × Dynamic E × Option E
  dyn_pop self =
      if self.len == 0
      then (false, self, some ops.zero_value)
      else (true, record self { len = self.len - 1 }, cell self.cells (self.len - 1))

  unfoldable pub dyn_remove :
      Dynamic E → (index : ℤ) → (unordered : Bool) → Outcome (Dynamic E × Option E)
  unfolding shift
  dyn_remove self (negsuc i) unordered = panic
  dyn_remove self (pos index) unordered =
      let out = cell self.cells index in
      let shorter = record self { len = self.len - 1 } in
      let last = cell self.cells shorter.len in
      if leb self.len index
      then panic
      else if index == shorter.len
      then ok (shorter, out)
      else if unordered
      then ok (record shorter { cells = set self.cells index last }, out)
      else ok (shift (index + 1) index (shorter.len - index) shorter, out)

  -- `memset` of the new tail with the zero value, when it has bytes.
  unfoldable pub zero_tail : Dynamic E → (new_len : ℕ) → Dynamic E
  unfolding copy_cells
  zero_tail self new_len =
      let n = new_len - self.len in
      let zeroed =
        copy_cells n 0 (frozen (replicate n (some ops.zero_value)) 0) self.len self.cells in
      elim (checked_bytes (pos n) ops.elem_size) [
        | none ↦ self
        | some bytes ↦ if bytes == 0 then self else record self { cells = zeroed }
      ]

  unfoldable pub dyn_resize :
      Dynamic E → (new_len : ℤ) → World S E → Outcome (Bool × Dynamic E × World S E)
  unfolding dyn_truncate dyn_bind dyn_reserve zero_tail
  dyn_resize self (negsuc n) w = panic
  dyn_resize self (pos new_len) w =
      if ltb new_len self.len
      then (let (s, w₁) = dyn_truncate selected p ops self new_len w in ok (true, s, w₁))
      else if new_len == self.len
      then ok (true, self, w)
      else (dyn_reserve selected p ops (dyn_bind selected p ops self) (pos new_len) w
          >>= λ (done, s, w₁).
              if done
              then ok (true, record (zero_tail s new_len) { len = new_len }, w₁)
              else ok (false, s, w₁))

  unfoldable pub shrink_to :
      Dynamic E → (target old_bytes new_bytes : ℕ) → World S E → Bool × Dynamic E × World S E
  shrink_to self target old_bytes new_bytes w =
      let align = sane_align ops.elem_align in
      if new_bytes == 0
      then (
        true,
        record self { addr = 0; cap = target; cells = refit target none self.cells },
        if self.addr == 0 then w else record w { state = p.free w.state self.addr old_bytes align },
      )
      else (let (storage, state) = p.resize w.state self.addr old_bytes new_bytes align in
          elim storage [
            | none ↦ (false, self, record w { state = state })
            | some addr ↦ (
              true,
              record self { addr = addr; cap = target; cells = refit target none self.cells },
              record w { state = state },
            )
          ])

  unfoldable pub dyn_shrink :
      Dynamic E → (min_capacity : ℤ) → World S E → Outcome (Bool × Dynamic E × World S E)
  unfolding shrink_to
  dyn_shrink self (negsuc n) w = panic
  dyn_shrink self (pos min_capacity) w =
      let target : ℕ = if ltb self.len min_capacity then min_capacity else self.len in
      if leb self.cap target
      then ok (true, self, w)
      else elim (checked_bytes (pos self.cap) ops.elem_size) [
        | none ↦ ok (false, self, w)
        | some old_bytes ↦ elim (checked_bytes (pos target) ops.elem_size) [
          | none ↦ ok (false, self, w)
          | some new_bytes ↦ ok (shrink_to self target old_bytes new_bytes w)
        ]
      ]
