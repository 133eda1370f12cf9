-- ===== src/Container/Dynamic/Clone.antt =====
-- runtime/container.c: `loke_rt_v1_dyn_clone`.
use loke.Prelude.{
  ℕ, zero, suc, ◌+◌, Bool, true, false, Option, none, some, ◌==◌, if◌then◌else◌, set,
}
use loke.Prelude.Int.{pos}
use loke.Prelude.Outcome.{Outcome, ok, ◌>>=◌}
use loke.Container.Checked.{checked_bytes}
use loke.Container.Memory.{Provider, Ops, World, Cells, frozen, cell, copy_cells}
use loke.Container.Dynamic.{Dynamic, inert, dyn_reserve, dyn_drop}
use loke.Container.Dynamic.Edit.{clone_cell}

module _ {S E : Type 0} (selected : ℕ) (p : Provider S) (ops : Ops S E) where
  -- The loop, with the rounds left and the next index: the index of the clone that failed, if one
  -- did, the cells and the world.
  unfoldable pub clone_loop :
      (n i : ℕ)
      → (E → S → Option E × S)
      → (from to : Cells E) → World S E
      → Option ℕ × Cells E × World S E
  clone_loop zero i clone from to w = (none, to, w)
  clone_loop (suc n) i clone from to w =
      let (copy, state) = clone_cell clone (cell from i) w.state in
      let w₁ : World S E = record w { state = state } in
      elim copy [
        | none ↦ (some i, to, w₁)
        | some c ↦ clone_loop n (i + 1) clone from (set to i c) w₁
      ]

  -- `*out` dropped, and bound to `a` again.
  unfoldable pub dropped_clone : Dynamic E → (a : ℕ) → World S E → Bool × Dynamic E × World S E
  unfolding dyn_drop
  dropped_clone out a w =
      let (s, w₁) = dyn_drop selected p ops out w in (false, record s { allocator = a }, w₁)

  -- The copy into the reserved storage, without a hook and with one.
  unfoldable pub clone_bytes :
      (out src : Dynamic E) → (a : ℕ) → World S E → Bool × Dynamic E × World S E
  clone_bytes out src a w =
      let copied = copy_cells src.len 0 (frozen src.cells 0) 0 out.cells in
      elim (checked_bytes (pos src.len) ops.elem_size) [
        | none ↦ dropped_clone out a w
        | some bytes ↦ (
          true,
          record out { len = src.len; cells = if bytes == 0 then out.cells else copied },
          w,
        )
      ]

  unfoldable pub clone_each :
      (out src : Dynamic E)
      → (a : ℕ) → (E → S → Option E × S)
      → World S E
      → Bool × Dynamic E × World S E
  clone_each out src a clone w =
      let (failed, cells, w₁) = clone_loop src.len 0 clone src.cells out.cells w in
      elim failed [
        | some i ↦ dropped_clone (record out { len = i; cells = cells }) a w₁
        | none ↦ (true, record out { len = src.len; cells = cells }, w₁)
      ]

  unfoldable pub clone_into :
      (out src : Dynamic E) → (a : ℕ) → World S E → Bool × Dynamic E × World S E
  clone_into out src a w = elim ops.elem_clone [
    | none ↦ clone_bytes out src a w
    | some clone ↦ clone_each out src a clone w
  ]

  unfoldable pub dyn_clone :
      (src : Dynamic E) → (a : ℕ) → World S E → Outcome (Bool × Dynamic E × World S E)
  dyn_clone src a w =
      let empty : Dynamic E = record (inert selected p ops) { allocator = a } in
      if src.len == 0
      then ok (true, empty, w)
      else (dyn_reserve selected p ops empty (pos src.len) w >>= λ (done, out, w₁).
          if done then ok (clone_into out src a w₁) else ok (false, empty, w₁))
