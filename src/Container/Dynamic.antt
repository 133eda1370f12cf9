-- ===== src/Container/Dynamic.antt =====
-- runtime/container.c: `loke_rt_dynamic_v1` and its operations.
-- The C functions that answer 0 or 1 return the container beside that answer; an invalid argument
-- is a `panic`, which is how `container_fault` ends.
pub mod Edit
pub mod Clone
pub mod Cloned
pub mod Contents
pub mod Regrow
pub mod Reserve
pub mod Fill
pub mod Append
pub mod Owned
pub mod Remove
use loke.Prelude.{
  ℕ, zero, suc, ◌+◌, ◌-◌, ◌*◌, Bool, true, false, ◌&&◌, ◌||◌, not, Option, none, some, List, [],
  ◌∷◌, ◌++◌, ltb, leb, ◌==◌, if◌then◌else◌, get_or, set, take, replicate, length,
}
use loke.Prelude.Int.{ℤ, pos, negsuc}
use loke.Prelude.Outcome.{Outcome, ok, panic}
use loke.Container.Checked.{checked_add, checked_bytes, sane_align, dyn_growth_target}
use loke.Container.Memory.{
  Provider, Ops, World, Cells, Source, frozen, live, cell, read, copy_cells, move_cells,
}

-- `data` 0 is NULL, and `allocator` 0 an unbound container. `cells` is the block behind `data`,
-- one slot for each element of capacity; its slots from `len` on hold no live element.
pub record Dynamic (E : Type 0) : Type 0 where
  pub addr : ℕ
  pub len : ℕ
  pub cap : ℕ
  pub allocator : ℕ
  pub cells : Cells E

pub record Undo (E : Type 0) : Type 0 where
  pub old_addr : ℕ
  pub old_cap : ℕ
  pub old_cells : Cells E
  pub grew : Bool

-- A `src` pointer: to memory outside the block, or to the element of that index inside it.
pub data Pointer (E : Type 0) : Type 0 where
  outside : Cells E → Pointer E
  inside : ℕ → Pointer E

-- A block of another capacity keeps the slots that both have.
unfoldable pub refit {ℓ} : {A : Type ℓ} → ℕ → A → List A → List A
refit zero d cells = []
refit (suc n) d [] = d ∷ refit n d []
refit (suc n) d (c ∷ cells) = c ∷ refit n d cells

unfoldable pub drop_loop {ℓ} : {A : Type ℓ} → (rounds len : ℕ) → List (Option A) → List (Option A)
drop_loop zero len cells = []
drop_loop (suc n) len cells = get_or cells (len - 1) none ∷ drop_loop n (len - 1) cells

module _ {S E : Type 0} (selected : ℕ) (p : Provider S) (ops : Ops S E) where
  abbrev pub W : Type 0
  W = World S E

  -- The answer of a fallible operation, the container and the world.
  abbrev pub Run : Type 0
  Run = Bool × Dynamic E × W

  -- `memset(self, 0, sizeof *self)`
  unfoldable pub inert : Dynamic E
  inert = record { addr = 0; len = 0; cap = 0; allocator = 0; cells = [] }

  unfoldable pub dyn_bind : Dynamic E → Dynamic E
  dyn_bind self = if self.allocator == 0 then record self { allocator = selected } else self

  -- The capacity to grow to, and its bytes.
  unfoldable pub grown : (cap need : ℕ) → Option (ℕ × ℕ)
  grown cap need = elim (dyn_growth_target cap need) [
    | none ↦ none
    | some target ↦ elim (checked_bytes (pos target) ops.elem_size) [
      | none ↦ none
      | some new_bytes ↦ some (target, new_bytes)
    ]
  ]

  unfoldable pub reserve_to : Dynamic E → (target old_bytes new_bytes : ℕ) → W → Run
  reserve_to self target old_bytes new_bytes w =
      if new_bytes == 0
      then (true, record self { cap = target; cells = refit target none self.cells }, w)
      else (let (storage, state) =
            p.resize w.state self.addr old_bytes new_bytes (sane_align ops.elem_align) in
          let w₁ : W = record w { state = state } in
          elim storage [
            | none ↦ (false, self, w₁)
            | some addr ↦ (
              true,
              record self { addr = addr; cap = target; cells = refit target none self.cells },
              w₁,
            )
          ])

  unfoldable pub dyn_reserve : Dynamic E → ℤ → W → Outcome Run
  dyn_reserve self (negsuc n) w = panic
  dyn_reserve self (pos min_capacity) w =
      let bound = dyn_bind self in
      if leb min_capacity bound.cap
      then ok (true, bound, w)
      else elim (grown bound.cap min_capacity) [
        | none ↦ ok (false, bound, w)
        | some (target, new_bytes) ↦ elim (checked_bytes (pos bound.cap) ops.elem_size) [
          | none ↦ ok (false, bound, w)
          | some old_bytes ↦ ok (reserve_to bound target old_bytes new_bytes w)
        ]
      ]

  -- `loke_rt_v1_free` of a block of `cap` elements, unless it has no bytes.
  unfoldable pub free_block : (addr cap : ℕ) → W → W
  free_block addr cap w = elim (checked_bytes (pos cap) ops.elem_size) [
    | none ↦ w
    | some bytes ↦
        if bytes == 0
        then w
        else record w { state = p.free w.state addr bytes (sane_align ops.elem_align) }
  ]

  unfoldable pub dyn_truncate : Dynamic E → ℕ → W → Dynamic E × W
  unfolding drop_loop
  dyn_truncate self new_len w =
      if ops.elem_drop
      then (
        record self { len = if ltb new_len self.len then new_len else self.len },
        record w { dropped = w.dropped ++ drop_loop (self.len - new_len) self.len self.cells },
      )
      else (record self { len = new_len }, w)

  unfoldable pub dyn_drop : Dynamic E → W → Dynamic E × W
  unfolding drop_loop free_block inert
  dyn_drop self w =
      let w₁ : W =
        if ops.elem_drop
        then record w { dropped = w.dropped ++ drop_loop self.len self.len self.cells }
        else w in
      (inert, if self.addr == 0 then w₁ else free_block self.addr self.cap w₁)

  unfoldable pub dyn_clear : Dynamic E → W → Dynamic E × W
  unfolding dyn_truncate
  dyn_clear self w = dyn_truncate self 0 w

  -- `dyn_regrow`: the answer, the container, what to undo, and the world.
  unfoldable pub dyn_regrow :
      Dynamic E → (need : ℕ) → (force : Bool) → W → Bool × Dynamic E × Undo E × W
  unfolding grown
  dyn_regrow self need force w =
      let undo : Undo E = record {
        old_addr = self.addr;
        old_cap = self.cap;
        old_cells = self.cells;
        grew = false;
      } in
      if leb need self.cap && not force then (true, self, undo, w) else elim (grown self.cap need) [
        | none ↦ (false, self, undo, w)
        | some (target, bytes) ↦
            if bytes == 0
            then (true, record self { cap = target; cells = refit target none self.cells }, undo, w)
            else (let (fresh, state) = p.alloc w.state bytes (sane_align ops.elem_align) in
                let w₁ : W = record w { state = state } in
                elim fresh [
                  | none ↦ (false, self, undo, w₁)
                  | some addr ↦ (
                    true,
                    record self {
                      addr = addr;
                      cap = target;
                      cells = refit target none (take self.len self.cells);
                    },
                    record undo { grew = true },
                    w₁,
                  )
                ])
      ]

  unfoldable pub dyn_regrow_commit : Undo E → W → W
  unfolding free_block
  dyn_regrow_commit undo w =
      if undo.grew && not (undo.old_addr == 0) then free_block undo.old_addr undo.old_cap w else w

  unfoldable pub dyn_regrow_rollback : Dynamic E → Undo E → W → Dynamic E × W
  unfolding free_block
  dyn_regrow_rollback self undo w =
      if undo.grew
      then (
        record self { addr = undo.old_addr; cap = undo.old_cap; cells = undo.old_cells },
        free_block self.addr self.cap w,
      )
      else (self, w)
