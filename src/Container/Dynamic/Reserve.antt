-- ===== src/Container/Dynamic/Reserve.antt =====
-- runtime/container.c: what `dyn_reserve` leaves in the container.
use loke.Prelude.{
  ℕ, ◌*◌, ◌≤◌, ◌<◌, ◌≡◌, refl, inl, inr, Bool, true, false, none, some, arith, leb, ◌==◌,
  Bool-cases, Option-cases,
}
use loke.Prelude.Int.{pos}
use loke.Prelude.Outcome.{Returns, Returns-ok, Returns-if}
use loke.Container.Checked.{int64_max, uint64_max, checked_bytes, sane_align}
use loke.Container.Memory.{Provider, Ops, World, cell}
use loke.Container.Dynamic.{Dynamic, refit, dyn_bind, grown, reserve_to, dyn_reserve}
use loke.Container.Dynamic.Contents.{length-refit, get_or-refit}
use loke.Container.Dynamic.Regrow.{IsValid, grown-sizes}

module _ {S E : Type 0} (selected : ℕ) (p : Provider S) (ops : Ops S E) where
  pub dyn_bind-allocator :
      (self : Dynamic E) → (a : ℕ) × (dyn_bind selected p ops self ≡ record self { allocator = a })
  unfolding dyn_bind
  dyn_bind-allocator self = elim (Bool-cases (self.allocator == 0)) [
    | inl e ↦ (selected, ground arith)
    | inr e ↦ (self.allocator, ground arith)
  ]

  -- A valid container with the same elements, and room for `count` where the answer is 1. Nothing is
  -- dropped.
  pub record Reserved (self : Dynamic E) (count : ℕ) (w : World S E)
      (r : Bool × Dynamic E × World S E) : Type 0 where
    pub valid : IsValid selected p ops r.1
    pub len : r.1.len ≡ self.len
    pub kept : (i : ℕ) → i < self.len → cell r.1.cells i ≡ cell self.cells i
    pub room : r.0 ≡ true → count ≤ r.1.cap
    pub dropped : r.2.dropped ≡ w.dropped

  module _ (self : Dynamic E) (valid : IsValid selected p ops self) (count : ℕ)
      (fits : count ≤ int64_max) (w : World S E) where
    stays :
        (a : ℕ) (done : Bool) (w' : World S E)
        → w'.dropped ≡ w.dropped
        → (done ≡ true → count ≤ self.cap)
        → Reserved self count w (done, record self { allocator = a }, w')
    stays a done w' same h = record {
      valid = record {
        len_in = valid.len_in;
        cap_in = valid.cap_in;
        bytes_in = valid.bytes_in;
        slots = valid.slots;
      };
      len = refl;
      kept = λ i lt. refl;
      room = h;
      dropped = same;
    }

    reserve_to-Reserved :
        (a target old bytes : ℕ)
        → self.cap < count
        → grown selected p ops self.cap count ≡ some (target, bytes)
        → Reserved self count w
            (reserve_to selected p ops (record self { allocator = a }) target old bytes w)
    unfolding reserve_to
    reserve_to-Reserved a target old bytes tight g =
        let (lo, eight, hi, sized, b) =
          grown-sizes selected p ops self.cap count target bytes valid.cap_in fits g in
        let refitted = λ (addr : ℕ) (w' : World S E) (same : w'.dropped ≡ w.dropped).
          moved a target addr w' same lo hi sized (omega (arith, lo, tight, valid.len_in)) in
        elim (Bool-cases (bytes == 0)) [
          | inl z ↦ rw (reserve_to, z) (refitted self.addr w refl)
          | inr z ↦
              elim (Option-cases
                (p.resize w.state self.addr old bytes (sane_align ops.elem_align)).0) [
                  | inl null ↦ rw (reserve_to, z, null) (stays a false _ refl (λ e. absurd (cc)))
                  | inr (addr, given) ↦ rw (reserve_to, z, given) (refitted addr _ refl)
                ]
        ]
      where
        moved :
            (a target addr : ℕ) (w' : World S E)
            → w'.dropped ≡ w.dropped
            → count ≤ target
            → target ≤ int64_max
            → target * ops.elem_size ≤ uint64_max
            → self.len ≤ target
            → Reserved self count w (
              true,
              record self {
                allocator = a;
                addr = addr;
                cap = target;
                cells = refit target none self.cells;
              },
              w',
            )
        moved a target addr w' same lo hi sized live = record {
          valid = record {
            len_in = live;
            cap_in = hi;
            bytes_in = sized;
            slots = length-refit none target self.cells;
          };
          len = refl;
          kept = λ i lt. get_or-refit none target self.cells i (omega arith);
          room = λ _. lo;
          dropped = same;
        }

    -- Reserving in a valid container, for a count that is an int64_t and not negative, returns.
    pub dyn_reserve-Reserved :
        Returns (dyn_reserve selected p ops self (pos count) w) (Reserved self count w)
    unfolding dyn_reserve
    dyn_reserve-Reserved =
        let (a, e) = dyn_bind-allocator self in
        rw e (
          Returns-if (leb count self.cap)
            (λ t. Returns-ok _ (stays a true w refl (λ _. ground arith)))
            (λ t. elim (Option-cases (grown selected p ops self.cap count)) [
              | inl n ↦ rw (n, e) (Returns-ok _ (stays a false w refl (λ d. absurd (cc))))
              | inr ((target, bytes), g) ↦
                  elim (Option-cases (checked_bytes (pos self.cap) ops.elem_size)) [
                    | inl n ↦
                        rw (g, e, n, e) (Returns-ok _ (stays a false w refl (λ d. absurd (cc))))
                    | inr (old, o) ↦
                        rw (g, e, o, e)
                          (Returns-ok _ (reserve_to-Reserved a target old bytes (ground arith) g))
                  ]
            ]))
