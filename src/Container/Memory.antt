-- ===== src/Container/Memory.antt =====
-- What `runtime/container.c` works on: the provider, the element thunks, and the cells of a block.
-- A provider keeps a state of its own, and answers `none` for NULL. Its code is not the runtime's.
use loke.Prelude.{ℕ, zero, suc, ◌+◌, Bool, Option, none, List, get_or, set}

-- `loke_rt_allocator_v1` as the container sees it, through the dispatch helpers of runtime/alloc.c:
-- sizes and alignments go in, and an address or NULL comes out.
pub record Provider (S : Type 0) : Type 0 where
  pub alloc : S → (size align : ℕ) → Option ℕ × S
  pub resize : S → (ptr old_size new_size align : ℕ) → Option ℕ × S
  pub free : S → (ptr size align : ℕ) → S

-- The element half of `loke_rt_container_ops_v1`. `elem_drop` says whether there is a hook; what a
-- hook is called on is kept in the world. `elem_clone` is `none` for NULL, and a clone that fails
-- answers `none`.
pub record Ops (S E : Type 0) : Type 0 where
  pub elem_size : ℕ
  pub elem_align : ℕ
  pub elem_drop : Bool
  pub elem_clone : Option (E → S → Option E × S)
  -- The zero value of the element type.
  pub zero_value : E

-- The slots of a block; `none` is a slot that was never written.
abbrev pub Cells : Type 0 → Type 0
Cells E = List (Option E)

-- The provider's state, and the elements that the drop hook has been called on, oldest first.
pub record World (S E : Type 0) : Type 0 where
  pub state : S
  pub dropped : Cells E

-- Where a source of elements is read: in a block that does not change, or in the cells themselves.
pub data Source (E : Type 0) : Type 0 where
  frozen : Cells E → (start : ℕ) → Source E
  live : (start : ℕ) → Source E

module _ {E : Type 0} where
  abbrev pub cell : Cells E → ℕ → Option E
  cell cells i = get_or cells i none

  unfoldable pub read : Source E → Cells E → ℕ → Option E
  read (frozen block start) cells i = cell block (start + i)
  read (live start) cells i = cell cells (start + i)

  -- Copies `n` elements in order, from element `i` of the source on, to the slots from `at` on.
  unfoldable pub copy_cells : (n i : ℕ) → Source E → (at : ℕ) → Cells E → Cells E
  unfolding read
  copy_cells zero i src at cells = cells
  copy_cells (suc n) i src at cells =
      copy_cells n (i + 1) src at (set cells (at + i) (read src cells i))

  -- `memmove` of `n` slots: all of them are read before the first is written.
  unfoldable pub move_cells : (src dst n : ℕ) → Cells E → Cells E
  unfolding copy_cells
  move_cells src dst n cells = copy_cells n 0 (frozen cells src) dst cells
