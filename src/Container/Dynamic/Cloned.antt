-- ===== src/Container/Dynamic/Cloned.antt =====
-- runtime/container.c: what `loke_rt_v1_dyn_clone` leaves in the clone, and what it drops.
use loke.Prelude.{
  ℕ, ◌+◌, ◌≤◌, ◌<◌, ◌≡◌, ◌⊎◌, Bool, true, false, Option, none, some, [], ◌++◌, if◌then◌else◌,
  length,
}
use loke.Container.Memory.{Provider, Ops, World, Cells, cell}
use loke.Container.Dynamic.{Dynamic, drop_loop}
use loke.Container.Dynamic.Fill.{IsTransfer}
use loke.Container.Dynamic.Regrow.{IsValid}

module _ {S E : Type 0} (selected : ℕ) (p : Provider S) (ops : Ops S E) where
  -- Where the loop ends, and the clones that it made before.
  record Looped (n i : ℕ) (clone : E → S → Option E × S) (from to : Cells E) (w : World S E)
      (r : Option ℕ × Cells E × World S E) : Type 0 where
    ends : ℕ
    after : i ≤ ends
    at_end : ((r.0 ≡ none) × (ends ≡ i + n)) ⊎ ((r.0 ≡ some ends) × (ends < i + n))
    slots : length r.1 ≡ length to
    before : (k : ℕ) → k < i → cell r.1 k ≡ cell to k
    cloned : (k : ℕ) → i ≤ k → k < ends → IsTransfer false (some clone) (cell from k) (cell r.1 k)
    dropped : r.2.dropped ≡ w.dropped

  -- The drop hook, if there is one, was called on the first `n` cells, the last of them first.
  abbrev pub dropped_from : (n : ℕ) → Cells E → Cells E → Cells E
  dropped_from n cells before = if ops.elem_drop then before ++ drop_loop n n cells else before

  -- An answer of a clone: a valid container of the source's length whose elements are clones of the
  -- source's; or nothing but the allocator, and the clones that were made are dropped.
  pub record Cloned (src : Dynamic E) (a : ℕ) (w : World S E) (r : Bool × Dynamic E × World S E)
      : Type 0 where
    pub valid : IsValid selected p ops r.1
    pub len : r.0 ≡ true → r.1.len ≡ src.len
    pub elements :
        r.0 ≡ true
        → (k : ℕ) → k < src.len
        → IsTransfer false ops.elem_clone (cell src.cells k) (cell r.1.cells k)
    pub kept : r.0 ≡ true → r.2.dropped ≡ w.dropped
    pub failure :
        r.0 ≡ false → r.1 ≡ record { addr = 0; len = 0; cap = 0; allocator = a; cells = [] }
    pub made : ℕ
    pub clones : Cells E
    pub few : made ≤ src.len
    pub copied :
        (k : ℕ) → k < made → IsTransfer false ops.elem_clone (cell src.cells k) (cell clones k)
    pub undone : r.0 ≡ false → r.2.dropped ≡ dropped_from made clones w.dropped
