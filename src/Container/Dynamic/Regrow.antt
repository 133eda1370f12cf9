-- ===== src/Container/Dynamic/Regrow.antt =====
-- runtime/container.c: `dyn_regrow` and `dyn_fill` on elements that have bytes.
use loke.Prelude.{
  ℕ, ◌*◌, ◌≤◌, ◌<◌, ◌≡◌, refl, ◌∙◌, inl, inr, Bool, true, false, ◌&&◌, not, Bool-cases,
  Option-cases, none, some, arith, take, length, get_or-take, leb, ◌==◌,
}
use loke.Container.Checked.{
  int64_max, uint64_max, checked_bytes-exact, dyn_growth_target-bounds, sane_align,
}
use loke.Container.Memory.{Provider, Ops, World, cell}
use loke.Container.Dynamic.{Dynamic, Undo, refit, grown, dyn_regrow}
use loke.Container.Dynamic.Contents.{length-refit, get_or-refit}

mul-pos : (a b : ℕ) → 8 ≤ a → 0 < b → 0 < a * b
mul-pos a b h k = grind arith

module _ {S E : Type 0} (selected : ℕ) (p : Provider S) (ops : Ops S E) where
  -- The representation invariant: the length is within the capacity, every size is representable,
  -- and the block has a slot for each element of capacity.
  pub record IsValid (self : Dynamic E) : Type 0 where
    pub len_in : self.len ≤ self.cap
    pub cap_in : self.cap ≤ int64_max
    pub bytes_in : self.cap * ops.elem_size ≤ uint64_max
    pub slots : length self.cells ≡ self.cap

  -- `new` has room for `need` and the elements of `old`.
  pub record Roomier (old new : Dynamic E) (need : ℕ) : Type 0 where
    pub valid : IsValid new
    pub room : need ≤ new.cap
    pub len : new.len ≡ old.len
    pub allocator : new.allocator ≡ old.allocator
    pub kept : (i : ℕ) → i < old.len → cell new.cells i ≡ cell old.cells i

  pub grown-sizes :
      (capacity need target bytes : ℕ)
      → capacity ≤ int64_max
      → need ≤ int64_max
      → grown selected p ops capacity need ≡ some (target, bytes)
      → (need ≤ target)
        × (8 ≤ target)
        × (target ≤ int64_max)
        × (target * ops.elem_size ≤ uint64_max)
        × (bytes ≡ target * ops.elem_size)
  unfolding grown
  grown-sizes capacity need target bytes hc hn e =
      let (t, run, lo, eight, double, hi) = dyn_growth_target-bounds capacity need hc hn in
      elim (checked_bytes-exact t ops.elem_size) [
        | inr (big, refused) ↦ ground (arith, run, refused)
        | inl (fits, given) ↦ ground (arith, run, given)
      ]

  -- What `dyn_regrow` answers, for elements that have bytes.
  pub record Regrown (self : Dynamic E) (need : ℕ) (force : Bool)
      (r : Bool × Dynamic E × Undo E × World S E) : Type 0 where
    pub old_addr : r.2.old_addr ≡ self.addr
    pub old_cap : r.2.old_cap ≡ self.cap
    pub old_cells : r.2.old_cells ≡ self.cells
    pub failed : r.0 ≡ false → (r.1 ≡ self) × (r.2.grew ≡ false)
    pub roomier : r.0 ≡ true → Roomier self r.1 need
    pub stayed : r.0 ≡ true → r.2.grew ≡ false → (r.1 ≡ self) × (force ≡ false)

  module _ (self : Dynamic E) (valid : IsValid self) (positive : 0 < ops.elem_size) where
    Roomier-self : (need : ℕ) → need ≤ self.cap → Roomier self self need
    Roomier-self need h = record {
      valid = valid;
      room = h;
      len = refl;
      allocator = refl;
      kept = λ i lt. refl;
    }

    fresh_block : (addr target : ℕ) → Dynamic E
    fresh_block addr target = record self {
      addr = addr;
      cap = target;
      cells = refit target none (take self.len self.cells);
    }

    Roomier-fresh :
        (addr target need : ℕ)
        → need ≤ target
        → self.len ≤ target
        → target ≤ int64_max
        → target * ops.elem_size ≤ uint64_max
        → Roomier self (fresh_block addr target) need
    unfolding fresh_block
    Roomier-fresh addr target need h l m b = record {
      valid = record {
        len_in = l;
        cap_in = m;
        bytes_in = b;
        slots = length-refit none target (take self.len self.cells);
      };
      room = h;
      len = refl;
      allocator = refl;
      kept = λ i lt.
          get_or-refit none target (take self.len self.cells) i (omega arith)
          ∙ get_or-take self.len self.cells i none lt;
    }

    -- On a valid container of elements that have bytes, and for a need that is not below the length
    -- and is an int64_t, `dyn_regrow` keeps what undoes it. On failure the container is as it was. On
    -- success it is valid, has room for the need and the same length and elements, and if the block
    -- is the old one it is as it was and no new one was forced.
    pub dyn_regrow-Regrown :
        (need : ℕ) (force : Bool) (w : World S E)
        → self.len ≤ need
        → need ≤ int64_max
        → Regrown self need force (dyn_regrow selected p ops self need force w)
    unfolding dyn_regrow
    dyn_regrow-Regrown need force w le most = elim (Bool-cases (leb need self.cap && not force)) [
      | inl fits ↦ rw fits (record {
        old_addr = refl;
        old_cap = refl;
        old_cells = refl;
        failed = λ e. cc;
        roomier = λ e. Roomier-self need (ground arith);
        stayed = λ e g. (refl, ground arith);
      })
      | inr tight ↦ elim (Option-cases (grown selected p ops self.cap need)) [
        | inl refused ↦
            rw (tight, refused)
              (record {
                old_addr = refl;
                old_cap = refl;
                old_cells = refl;
                failed = λ e. (refl, refl);
                roomier = λ e. cc;
                stayed = λ e g. cc;
              })
        | inr ((target, bytes), g) ↦
            let (lo, eight, hi, fits, b) =
              grown-sizes self.cap need target bytes valid.cap_in most g in
            let some_bytes : (bytes == 0) ≡ false =
              ground (arith, mul-pos target ops.elem_size eight positive) in
            elim (Option-cases (p.alloc w.state bytes (sane_align ops.elem_align)).0) [
              | inl null ↦
                  rw (tight, g, some_bytes, null)
                    (record {
                      old_addr = refl;
                      old_cap = refl;
                      old_cells = refl;
                      failed = λ e. (refl, refl);
                      roomier = λ e. cc;
                      stayed = λ e g₁. cc;
                    })
              | inr (addr, given) ↦
                  rw (tight, g, some_bytes, given)
                    (record {
                      old_addr = refl;
                      old_cap = refl;
                      old_cells = refl;
                      failed = λ e. cc;
                      roomier = λ e.
                          unfold fresh_block in
                          Roomier-fresh addr target need lo (omega arith) hi fits;
                      stayed = λ e g₁. cc;
                    })
            ]
      ]
    ]
