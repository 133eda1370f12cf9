-- ===== src/Container/Dynamic/Fill.antt =====
-- runtime/container.c: what `dyn_fill` leaves in each slot.
use loke.Prelude.{
  ℕ, zero, suc, ◌+◌, ◌*◌, ◌≤◌, ◌<◌, ◌≡◌, refl, sym, ◌∙◌, inl, inr, Bool, true, Bool-cases,
  Option-cases, Option, none, some, List, arith, set, length, length-set, get_or-set_ne,
  get_or-set_self, false,
}
use native.Mathlib.Nat.{zero-add}
use native.Mathlib.Decide.{ℕ_discrete}
use mathlib.Core.Path.{subst}
use loke.Prelude.Int.{pos}
use loke.Container.Checked.{uint64_max, checked_bytes, checked_bytes-exact}
use loke.Container.Memory.{Provider, Ops, World, Cells, Source, cell, read, copy_cells}
use loke.Container.Dynamic.{Dynamic}
use loke.Container.Dynamic.Edit.{is_owned, clone_cell, fill_loop, dyn_fill}
use loke.Container.Dynamic.Contents.{
  read-set, Apart, length-copy_cells, copy_cells-other, copy_cells-copied,
}

-- Same slots, and the same contents below `at`.
pub record SameBelow {E : Type 0} (at : ℕ) (old new : Cells E) : Type 0 where
  pub slots : length new ≡ length old
  pub below : (j : ℕ) → j < at → cell new j ≡ cell old j

pub mul_pos : (a b : ℕ) → 0 < a → 0 < b → 0 < a * b
mul_pos a b h k = grind arith

pub mul_le : (a b c : ℕ) → a ≤ b → a * c ≤ b * c
mul_le a b c h = grind arith

-- How an element reaches its new slot: as it is, if the caller gives it away or elements have no
-- clone hook, and else as what the hook made of it.
abbrev pub IsTransfer :
    {S E : Type 0} → (given : Bool) → Option (E → S → Option E × S) → (from to : Option E) → Type 0
IsTransfer true hook from to = to ≡ from
IsTransfer false none from to = to ≡ from
IsTransfer {S} false (some clone) from to = (s : S) × ((clone_cell clone from s).0 ≡ some to)

pub transfer_plain :
    (S : Type 0) {E : Type 0} (given : Bool) (from to : Option E)
    → to ≡ from
    → IsTransfer {S = S} given none from to
transfer_plain S true from to e = e
transfer_plain S false from to e = e

module _ {S E : Type 0} (selected : ℕ) (p : Provider S) (ops : Ops S E) where
  fill_loop-SameBelow :
      (n i : ℕ) (clone : E → S → Option E × S) (src : Source E) (owned : Option (List Bool))
      (at : ℕ) (cells : Cells E) (w : World S E)
      → SameBelow (at + i) cells (fill_loop selected p ops n i clone src owned at cells w).1
  unfolding fill_loop
  fill_loop-SameBelow zero i clone src owned at cells w = record {
    slots = refl;
    below = λ j h. refl;
  }
  fill_loop-SameBelow (suc n) i clone src owned at cells w =
      let step = λ (v : Option E) (w₁ : World S E).
        after-set v (fill_loop-SameBelow n (i + 1) clone src owned at (set cells (at + i) v) w₁) in
      elim (Bool-cases (is_owned owned i)) [
        | inl mine ↦ rw (mine, fill_loop) (step (read src cells i) w)
        | inr lent ↦ elim (Option-cases (clone_cell clone (read src cells i) w.state).0) [
          | inl failed ↦ rw (lent, failed, fill_loop) (record { slots = refl; below = λ j h. refl })
          | inr (c, cloned) ↦
              rw (lent, cloned, fill_loop)
                (step c (record w { state = (clone_cell clone (read src cells i) w.state).1 }))
        ]
      ]
    where
      after-set :
          (v : Option E) {new : Cells E}
          → SameBelow (at + (i + 1)) (set cells (at + i) v) new
          → SameBelow (at + i) cells new
      after-set v s = record {
        slots = s.slots ∙ length-set cells (at + i) v;
        below =
            λ j lt. s.below j (omega arith) ∙ get_or-set_ne cells (at + i) j v none (omega arith);
      }

  -- The slots that the loop fills, where it comes to its end.
  IsFilledFrom :
      (n i : ℕ)
      → (E → S → Option E × S)
      → Source E
      → Option (List Bool)
      → (at : ℕ) → (cells new : Cells E) → Type 0
  IsFilledFrom n i clone src owned at cells new =
      (k : ℕ)
      → i ≤ k
      → k < i + n
      → IsTransfer (is_owned owned k) (some clone) (read src cells k) (cell new (at + k))

  module _ (clone : E → S → Option E × S) (src : Source E) (owned : Option (List Bool))
      (at : ℕ) where
    fill_loop-step :
        (n i : ℕ) (cells : Cells E) (v : Option E) (w : World S E)
        → Apart src (i + suc n) at
        → at + (i + suc n) ≤ length cells
        → IsTransfer (is_owned owned i) (some clone) (read src cells i) v
        → IsFilledFrom n
            (i + 1)
            clone
            src
            owned
            at
            (set cells (at + i) v)
            (fill_loop selected p ops n (i + 1) clone src owned at (set cells (at + i) v) w).1
        → IsFilledFrom
            (suc n)
            i
            clone
            src
            owned
            at
            cells
            (fill_loop selected p ops n (i + 1) clone src owned at (set cells (at + i) v) w).1
    unfolding IsFilledFrom
    fill_loop-step n i cells v w apart room first later k lo hi =
        let new =
          (fill_loop selected p ops n (i + 1) clone src owned at (set cells (at + i) v) w).1 in
        elim (ℕ_discrete k i) [
          | yes same ↦
              let kept =
                (fill_loop-SameBelow n (i + 1) clone src owned at (set cells (at + i) v) w).below
                  (at + i) (omega arith) in
              let here : cell new (at + i) ≡ v =
                kept ∙ get_or-set_self cells (at + i) v none (omega arith) in
              rw (same, here) first
          | no other ↦
              subst (λ x. IsTransfer (is_owned owned k) (some clone) x (cell new (at + k)))
                (read-set src cells at i k (i + suc n) v apart hi)
                (later k (omega arith) (omega arith))
        ]

    fill_loop-IsFilledFrom :
        (n i : ℕ) (cells : Cells E) (w : World S E)
        → Apart src (i + n) at
        → at + (i + n) ≤ length cells
        → (fill_loop selected p ops n i clone src owned at cells w).0 ≡ true
        → IsFilledFrom n i clone src owned at cells
            (fill_loop selected p ops n i clone src owned at cells w).1
    unfolding fill_loop IsFilledFrom
    fill_loop-IsFilledFrom zero i cells w apart room e = λ k lo hi. absurd (omega arith)
    fill_loop-IsFilledFrom (suc n) i cells w apart room e =
        let sum : i + 1 + n ≡ i + suc n = omega arith in
        let next = λ (v : Option E) (w₁ : World S E).
          fill_loop-IsFilledFrom n (i + 1) (set cells (at + i) v) w₁ (rw sum apart)
            (rw length-set (omega arith)) in
        elim (Bool-cases (is_owned owned i)) [
          | inl mine ↦
              let from = read src cells i in
              rw (fill_loop, mine)
                (fill_loop-step n i cells from w apart room (rw mine refl)
                  (next from w (rw (fill_loop, mine) at e)))
          | inr lent ↦ elim (Option-cases (clone_cell clone (read src cells i) w.state).0) [
            | inl failed ↦ absurd (let bad : false ≡ true = rw (fill_loop, lent, failed) at e in cc)
            | inr (c, cloned) ↦
                let w₁ : World S E = record w {
                  state = (clone_cell clone (read src cells i) w.state).1;
                } in
                rw (fill_loop, lent, cloned)
                  (fill_loop-step n i cells c w₁ apart room (rw lent (w.state, cloned))
                    (next c w₁ (rw (fill_loop, lent, cloned) at e)))
          ]
        ]

  -- What `dyn_fill` does to the container, whether it succeeds or not, and what it fills the slots
  -- with when it does.
  pub record Filled (self : Dynamic E) (at : ℕ) (src : Source E) (owned : Option (List Bool))
      (count : ℕ) (r : Bool × Dynamic E × World S E) : Type 0 where
    pub addr : r.1.addr ≡ self.addr
    pub len : r.1.len ≡ self.len
    pub capacity : r.1.cap ≡ self.cap
    pub allocator : r.1.allocator ≡ self.allocator
    pub same : SameBelow at self.cells r.1.cells
    pub filled :
        r.0 ≡ true
        → (k : ℕ) → k < count
        → IsTransfer
            (is_owned owned k)
            ops.elem_clone
            (read src self.cells k)
            (cell r.1.cells (at + k))

  module _ (self : Dynamic E) (at : ℕ) (src : Source E) (owned : Option (List Bool)) (count : ℕ)
      (w : World S E) where
    dyn_fill-hook :
        (clone : E → S → Option E × S)
        → ops.elem_clone ≡ some clone
        → let (done, cells, w₁) =
            fill_loop selected p ops count 0 clone src owned at self.cells w in
          dyn_fill selected p ops self at src owned count w
          ≡ (done, record self { cells = cells }, w₁)
    unfolding dyn_fill
    dyn_fill-hook clone e = ground arith

    dyn_fill-trivial :
        (bytes : ℕ)
        → ops.elem_clone ≡ none
        → checked_bytes (pos count) ops.elem_size ≡ some bytes
        → 0 < bytes
        → dyn_fill selected p ops self at src owned count w
          ≡ (true, record self { cells = copy_cells count 0 src at self.cells }, w)
    unfolding dyn_fill
    dyn_fill-trivial bytes e c h = ground arith

  module _ (self : Dynamic E) (positive : 0 < ops.elem_size) where
    pub dyn_fill-Filled :
        (at : ℕ) (src : Source E) (owned : Option (List Bool)) (count : ℕ) (w : World S E)
        → Apart src count at
        → at + count ≤ length self.cells
        → length self.cells * ops.elem_size ≤ uint64_max
        → 0 < count
        → Filled self at src owned count (dyn_fill selected p ops self at src owned count w)
    dyn_fill-Filled at src owned count w apart room fits some_ =
        elim (Option-cases ops.elem_clone) [
          | inr (clone, hook) ↦
              let at_start : at + 0 ≡ at = omega arith in
              rw (dyn_fill-hook self at src owned count w clone hook) (record {
                addr = refl;
                len = refl;
                capacity = refl;
                allocator = refl;
                same =
                    subst
                      (λ b.
                        SameBelow b self.cells
                          (fill_loop selected p ops count 0 clone src owned at self.cells w).1)
                      at_start (fill_loop-SameBelow count 0 clone src owned at self.cells w);
                filled = λ done k h.
                    subst
                      (λ o. IsTransfer (is_owned owned k) o (read src self.cells k) (
                        cell (fill_loop selected p ops count 0 clone src owned at self.cells w).1
                          (at + k)))
                      (sym hook)
                      (unfold IsFilledFrom in
                        fill_loop-IsFilledFrom clone src owned at count 0 self.cells w
                          (rw zero-add apart) (omega arith) done k (omega arith) (omega arith));
              })
          | inl trivial ↦ elim (checked_bytes-exact count ops.elem_size) [
            | inr (big, e) ↦
                let most = mul_le count (length self.cells) ops.elem_size (omega arith) in
                absurd (omega arith)
            | inl (small, e) ↦
                let nonzero : 0 < count * ops.elem_size =
                  mul_pos count ops.elem_size some_ positive in
                rw
                  (dyn_fill-trivial self at src owned count w (count * ops.elem_size) trivial e
                    nonzero)
                  (record {
                    addr = refl;
                    len = refl;
                    capacity = refl;
                    allocator = refl;
                    same = record {
                      slots = length-copy_cells count 0 src at self.cells;
                      below =
                          λ j h. copy_cells-other count 0 src at self.cells j (inl (omega arith));
                    };
                    filled = λ _ k h. rw trivial (
                        transfer_plain S (is_owned owned k) _ _ (
                          copy_cells-copied count 0 src at self.cells k (rw zero-add apart)
                            (omega arith) (omega arith) (omega arith)));
                  })
          ]
        ]
