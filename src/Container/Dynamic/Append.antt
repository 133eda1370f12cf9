-- ===== src/Container/Dynamic/Append.antt =====
-- runtime/container.c: what `dyn_append_owned` leaves once the new length is known.
use loke.Prelude.{
  ℕ, ◌+◌, ◌*◌, ◌≤◌, ◌<◌, ◌≡◌, refl, sym, ap, ◌∙◌, ◌⊎◌, inl, inr, Bool, true, false, Bool-cases,
  Option, List, arith, length,
}
use native.Mathlib.Nat.{zero-add}
use mathlib.Core.Path.{subst}
use loke.Container.Checked.{int64_max, uint64_max}
use loke.Container.Memory.{Provider, Ops, World, Source, cell, read}
use loke.Container.Dynamic.{
  Dynamic, Undo, Pointer, outside, inside, dyn_regrow, dyn_regrow_rollback, dyn_regrow_commit,
  free_block,
}
use loke.Container.Dynamic.Edit.{is_owned, dyn_fill, source_of, append_to}
use loke.Container.Dynamic.Contents.{Apart}
use loke.Container.Dynamic.Regrow.{IsValid, Regrown, dyn_regrow-Regrown}
use loke.Container.Dynamic.Fill.{IsTransfer, Filled, dyn_fill-Filled}

-- The element that a pointer gives at an offset, before the operation.
abbrev pub item : {E : Type 0} → Dynamic E → Pointer E → ℕ → Option E
item self (outside block) k = cell block k
item self (inside start) k = cell self.cells (start + k)

-- A pointer into the container's own storage names live elements.
abbrev pub InRange : {E : Type 0} → Dynamic E → Pointer E → ℕ → Type 0
InRange self (outside block) count = Unit {0}
InRange self (inside start) count = start + count ≤ self.len

-- The same block, length and elements.
pub record Unchanged {E : Type 0} (old new : Dynamic E) : Type 0 where
  pub addr : new.addr ≡ old.addr
  pub len : new.len ≡ old.len
  pub capacity : new.cap ≡ old.cap
  pub kept : (i : ℕ) → i < old.len → cell new.cells i ≡ cell old.cells i

pub Unchanged-self : {E : Type 0} (old : Dynamic E) → Unchanged old old
Unchanged-self old = record { addr = refl; len = refl; capacity = refl; kept = λ i h. refl }

module _ {S E : Type 0} (selected : ℕ) (p : Provider S) (ops : Ops S E) where
  rollback-grew :
      (self : Dynamic E) (undo : Undo E) (w : World S E)
      → undo.grew ≡ true
      → dyn_regrow_rollback selected p ops self undo w ≡ (
        record self { addr = undo.old_addr; cap = undo.old_cap; cells = undo.old_cells },
        free_block selected p ops self.addr self.cap w,
      )
  unfolding dyn_regrow_rollback
  rollback-grew self undo w g = ground arith

  rollback-stayed :
      (self : Dynamic E) (undo : Undo E) (w : World S E)
      → undo.grew ≡ false
      → dyn_regrow_rollback selected p ops self undo w ≡ (self, w)
  unfolding dyn_regrow_rollback
  rollback-stayed self undo w g = ground arith

  -- A valid container with the elements of the old one and then those that the pointer gave: each as
  -- it was or as a clone of it; or, on failure, the old one.
  pub record Appended (self : Dynamic E) (src : Pointer E) (owned : Option (List Bool)) (count : ℕ)
      (r : Bool × Dynamic E × World S E) : Type 0 where
    pub valid : IsValid selected p ops r.1
    pub failure : r.0 ≡ false → Unchanged self r.1
    pub len : r.0 ≡ true → r.1.len ≡ self.len + count
    pub kept : r.0 ≡ true → (i : ℕ) → i < self.len → cell r.1.cells i ≡ cell self.cells i
    pub added :
        r.0 ≡ true
        → (k : ℕ) → k < count
        → IsTransfer
            (is_owned owned k)
            ops.elem_clone
            (item self src k)
            (cell r.1.cells (self.len + k))

  module _ (self : Dynamic E) (src : Pointer E) (owned : Option (List Bool)) (count need : ℕ)
      (w : World S E) where
    regrown : Bool × Dynamic E × Undo E × World S E
    regrown = dyn_regrow selected p ops self need false w

    filled : Bool × Dynamic E × World S E
    filled =
        dyn_fill selected p ops regrown.1 regrown.1.len (source_of selected p ops src regrown.2)
          owned count regrown.3

    append_to-refused :
        regrown.0 ≡ false
        → append_to selected p ops self src owned count need w ≡ (false, regrown.1, regrown.3)
    unfolding regrown append_to
    append_to-refused e = ground arith

    append_to-filled :
        regrown.0 ≡ true
        → filled.0 ≡ true
        → append_to selected p ops self src owned count need w ≡ (
          true,
          record filled.1 { len = need },
          dyn_regrow_commit selected p ops regrown.2 filled.2,
        )
    unfolding regrown filled append_to
    append_to-filled e f = ground arith

    append_to-failed :
        regrown.0 ≡ true
        → filled.0 ≡ false
        → append_to selected p ops self src owned count need w ≡ (
            let r = dyn_regrow_rollback selected p ops filled.1 regrown.2 filled.2 in
            (false, r.0, r.1))
    unfolding regrown filled append_to
    append_to-failed e f = ground arith

    module _ (valid : IsValid selected p ops self) (positive : 0 < ops.elem_size)
        (some_ : 0 < count) (exact : need ≡ self.len + count) (most : need ≤ int64_max)
        (in_range : InRange self src count) where
      outcome : Regrown selected p ops self need false regrown
      unfolding regrown
      outcome =
          dyn_regrow-Regrown selected p ops self valid positive need false w (omega arith) most

      source : Source E
      source = source_of selected p ops src regrown.2

      source-item :
          regrown.0 ≡ true → (k : ℕ) → k < count → read source regrown.1.cells k ≡ item self src k
      unfolding source
      source-item e k h = go src in_range
        where
          go :
              (q : Pointer E)
              → InRange self q count
              → read (source_of selected p ops q regrown.2) regrown.1.cells k ≡ item self q k
          go (outside block) r = unfold source_of read in rw zero-add
          go (inside start) r = elim (Bool-cases regrown.2.grew) [
            | inl g ↦ unfold source_of read in rw (g, outcome.old_cells)
            | inr g ↦
                unfold source_of read in rw g ((outcome.roomier e).kept (start + k) (omega arith))
          ]

      source-Apart : regrown.0 ≡ true → Apart source count regrown.1.len
      unfolding source
      source-Apart e = go src in_range
        where
          go :
              (q : Pointer E)
              → InRange self q count
              → Apart (source_of selected p ops q regrown.2) count regrown.1.len
          go (outside block) r = unfold source_of in tt
          go (inside start) r = elim (Bool-cases regrown.2.grew) [
            | inl g ↦ unfold source_of in rw g tt
            | inr g ↦ unfold source_of in rw (g, (outcome.roomier e).len) r
          ]

      fill-outcome :
          regrown.0 ≡ true → Filled selected p ops regrown.1 regrown.1.len source owned count filled
      unfolding source filled
      fill-outcome e =
          let t = outcome.roomier e in
          dyn_fill-Filled selected p ops regrown.1 positive regrown.1.len source owned count
            regrown.3 (source-Apart e) (omega (arith, t.room, t.len, t.valid.slots))
            (rw t.valid.slots t.valid.bytes_in) some_

      refused-Appended :
          regrown.0 ≡ false
          → Appended self src owned count (append_to selected p ops self src owned count need w)
      refused-Appended e =
          subst (λ r. Appended self src owned count r) (sym (append_to-refused e))
            (record {
              valid = subst (λ s. IsValid selected p ops s) (sym (outcome.failed e).0) valid;
              failure = λ _.
                  subst (λ (s : Dynamic E). Unchanged self s) (sym (outcome.failed e).0)
                    (Unchanged-self self);
              len = λ b. cc;
              kept = λ b. cc;
              added = λ b. cc;
            })

      filled-Appended :
          regrown.0 ≡ true
          → filled.0 ≡ true
          → Appended self src owned count (append_to selected p ops self src owned count need w)
      filled-Appended e f =
          let t = outcome.roomier e in
          let u = fill-outcome e in
          subst (λ r. Appended self src owned count r) (sym (append_to-filled e f))
            (record {
              valid = record {
                len_in = omega (arith, u.capacity, t.room);
                cap_in = subst (λ n. n ≤ int64_max) (sym u.capacity) t.valid.cap_in;
                bytes_in =
                    subst (λ n. n * ops.elem_size ≤ uint64_max) (sym u.capacity) t.valid.bytes_in;
                slots = u.same.slots ∙ t.valid.slots ∙ sym u.capacity;
              };
              failure = λ b. cc;
              len = λ _. exact;
              kept = λ _ i h. u.same.below i (omega (arith, t.len)) ∙ t.kept i h;
              added = λ _ k h.
                  subst
                    (λ x.
                      IsTransfer (is_owned owned k) ops.elem_clone x
                        (cell filled.1.cells (self.len + k)))
                    (source-item e k h)
                    (subst
                      (λ (n : ℕ).
                        IsTransfer (is_owned owned k) ops.elem_clone (read source regrown.1.cells k)
                          (cell filled.1.cells (n + k)))
                      t.len (u.filled f k h));
            })

      rolled-Appended :
          regrown.0 ≡ true
          → filled.0 ≡ false
          → (regrown.2.grew ≡ true) ⊎ (regrown.2.grew ≡ false)
          → Appended self src owned count (
              let r = dyn_regrow_rollback selected p ops filled.1 regrown.2 filled.2 in
              (false, r.0, r.1))
      rolled-Appended e f (inl g) =
          let t = outcome.roomier e in
          let u = fill-outcome e in
          subst (λ r. Appended self src owned count (false, r.0, r.1))
            (sym (rollback-grew filled.1 regrown.2 filled.2 g))
            (record {
              valid = record {
                len_in = omega (arith, u.len, t.len, outcome.old_cap, valid.len_in);
                cap_in = subst (λ n. n ≤ int64_max) (sym outcome.old_cap) valid.cap_in;
                bytes_in =
                    subst (λ n. n * ops.elem_size ≤ uint64_max) (sym outcome.old_cap)
                      valid.bytes_in;
                slots = ap (λ c. length c) outcome.old_cells ∙ valid.slots ∙ sym outcome.old_cap;
              };
              failure = λ _. record {
                addr = outcome.old_addr;
                len = u.len ∙ t.len;
                capacity = outcome.old_cap;
                kept = λ i h. ap (λ c. cell c i) outcome.old_cells;
              };
              len = λ b. cc;
              kept = λ b. cc;
              added = λ b. cc;
            })
      rolled-Appended e f (inr g) =
          let u = fill-outcome e in
          let (same, _) = outcome.stayed e g in
          let c : filled.1.cap ≡ self.cap = u.capacity ∙ ap (λ (s : Dynamic E). s.cap) same in
          let l : filled.1.len ≡ self.len = u.len ∙ ap (λ (s : Dynamic E). s.len) same in
          subst (λ r. Appended self src owned count (false, r.0, r.1))
            (sym (rollback-stayed filled.1 regrown.2 filled.2 g))
            (record {
              valid = record {
                len_in = omega (arith, l, c, valid.len_in);
                cap_in = subst (λ n. n ≤ int64_max) (sym c) valid.cap_in;
                bytes_in = subst (λ n. n * ops.elem_size ≤ uint64_max) (sym c) valid.bytes_in;
                slots =
                    u.same.slots
                    ∙ ap (λ (s : Dynamic E). length s.cells) same
                    ∙ valid.slots
                    ∙ sym c;
              };
              failure = λ _. record {
                addr = u.addr ∙ ap (λ (s : Dynamic E). s.addr) same;
                len = l;
                capacity = c;
                kept = λ i h.
                    u.same.below i (omega (arith, u.len, l))
                    ∙ ap (λ (s : Dynamic E). cell s.cells i) same;
              };
              len = λ b. cc;
              kept = λ b. cc;
              added = λ b. cc;
            })

      pub append_to-Appended :
          Appended self src owned count (append_to selected p ops self src owned count need w)
      append_to-Appended = elim (Bool-cases regrown.0) [
        | inr e ↦ refused-Appended e
        | inl e ↦ elim (Bool-cases filled.0) [
          | inl f ↦ filled-Appended e f
          | inr f ↦
              subst (λ r. Appended self src owned count r) (sym (append_to-failed e f))
                (rolled-Appended e f (Bool-cases regrown.2.grew))
        ]
      ]
