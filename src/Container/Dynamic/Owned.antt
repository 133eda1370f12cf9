-- ===== src/Container/Dynamic/Owned.antt =====
-- runtime/container.c: what `dyn_append_owned` leaves in the container, on success and on failure.
use loke.Prelude.{
  ℕ, zero, suc, ◌+◌, ◌≤◌, ◌<◌, ◌≡◌, refl, sym, Bool, true, false, Option, none, some, List, arith,
}
use mathlib.Core.Path.{subst}
use loke.Prelude.Int.{pos}
use loke.Prelude.Outcome.{ok}
use loke.Container.Checked.{int64_max, checked_add, checked_add-exact}
use loke.Container.Memory.{Provider, Ops, World, cell}
use loke.Container.Dynamic.{Dynamic, Pointer, outside, inside}
use loke.Container.Dynamic.Edit.{is_owned, append_to, dyn_append_owned}
use loke.Container.Dynamic.Regrow.{IsValid}
use loke.Container.Dynamic.Fill.{IsTransfer}
use loke.Container.Dynamic.Reserve.{dyn_bind-allocator}
use loke.Container.Dynamic.Append.{item, InRange, Unchanged-self, Appended, append_to-Appended}

module _ {S E : Type 0} (selected : ℕ) (p : Provider S) (ops : Ops S E) where
  -- Binding an allocator changes nothing that these properties read.
  module _ (self : Dynamic E) (src : Pointer E) (owned : Option (List Bool))
      (count allocator : ℕ) where
    bound_to : Dynamic E
    bound_to = record self { allocator = allocator }

    item-bound : (k : ℕ) → item bound_to src k ≡ item self src k
    unfolding bound_to
    item-bound k = go src
      where
        go : (q : Pointer E) → item (record self { allocator = allocator }) q k ≡ item self q k
        go (outside block) = refl
        go (inside start) = refl

    InRange-bound : InRange self src count → InRange bound_to src count
    unfolding bound_to
    InRange-bound h = go src h
      where
        go :
            (q : Pointer E)
            → InRange self q count
            → InRange (record self { allocator = allocator }) q count
        go (outside block) h = tt
        go (inside start) h = h

    IsValid-bound : IsValid selected p ops self → IsValid selected p ops bound_to
    unfolding bound_to
    IsValid-bound v = record {
      len_in = v.len_in;
      cap_in = v.cap_in;
      bytes_in = v.bytes_in;
      slots = v.slots;
    }

    Appended-bound :
        (r : Bool × Dynamic E × World S E)
        → Appended selected p ops bound_to src owned count r
        → Appended selected p ops self src owned count r
    unfolding bound_to
    Appended-bound r a = record {
      valid = a.valid;
      failure = λ e.
          (let u = a.failure e in
            record { addr = u.addr; len = u.len; capacity = u.capacity; kept = u.kept });
      len = a.len;
      kept = a.kept;
      added = λ e k h.
          subst
            (λ x. IsTransfer (is_owned owned k) ops.elem_clone x (cell r.1.cells (self.len + k)))
            (item-bound k) (a.added e k h);
    }

  abbrev after_sum :
      Dynamic E
      → Pointer E
      → Option (List Bool)
      → ℕ
      → World S E
      → Option ℕ
      → Bool × Dynamic E × World S E
  after_sum bound src owned count w none = (false, bound, w)
  after_sum bound src owned count w (some need) =
      append_to selected p ops bound src owned count need w

  after_sum-Appended :
      (bound : Dynamic E) (src : Pointer E) (owned : Option (List Bool)) (n : ℕ) (w : World S E)
      → IsValid selected p ops bound
      → 0 < ops.elem_size
      → suc n ≤ int64_max
      → InRange bound src (suc n)
      → (m : Option ℕ) → checked_add (pos bound.len) (pos (suc n)) ≡ m
      → Appended selected p ops bound src owned (suc n) (after_sum bound src owned (suc n) w m)
  after_sum-Appended bound src owned n w valid positive most in_range none e = record {
    valid = valid;
    failure = λ _. Unchanged-self bound;
    len = λ b. cc;
    kept = λ b. cc;
    added = λ b. cc;
  }
  after_sum-Appended bound src owned n w valid positive most in_range (some need) e =
      let l : bound.len ≤ int64_max = omega (arith, valid.len_in, valid.cap_in) in
      let (exact, fits) = (checked_add-exact bound.len (suc n) need l most).0 e in
      append_to-Appended selected p ops bound src owned (suc n) need w valid positive (omega arith)
        exact (omega arith) in_range

  -- `dyn_append_owned` of a count that is an int64_t and not negative, on a valid container of
  -- elements that have bytes, with a source among its elements or outside its block, answers a
  -- container that is valid again. On success the length grew by `count`, the elements that were
  -- there are as they were, and each new one is the source's from before the call, if the caller
  -- gives it away or there is no clone hook, and else what the hook made of it. On failure the
  -- block, the length, the capacity and the elements are as they were. It does not panic.
  pub dyn_append_owned-Appended :
      (self : Dynamic E) (src : Pointer E) (owned : Option (List Bool)) (count : ℕ) (w : World S E)
      → IsValid selected p ops self
      → 0 < ops.elem_size
      → count ≤ int64_max
      → InRange self src count
      → (r : Bool × Dynamic E × World S E) × (dyn_append_owned selected p ops self src owned
            (pos count)
            w
          ≡ ok r)
        × Appended selected p ops self src owned count r
  unfolding dyn_append_owned bound_to
  dyn_append_owned-Appended self src owned zero w valid positive most in_range = (
    (true, self, w),
    refl,
    record {
      valid = valid;
      failure = λ e. cc;
      len = λ e. omega arith;
      kept = λ e i h. refl;
      added = λ e k h. absurd (omega arith);
    },
  )
  dyn_append_owned-Appended self src owned (suc n) w valid positive most in_range =
      let (a, e) = dyn_bind-allocator selected p ops self in
      let m = checked_add (pos self.len) (pos (suc n)) in
      (
        _,
        refl,
        subst
            (λ (b : Dynamic E).
              Appended selected p ops self src owned (suc n)
                (after_sum b src owned (suc n) w (checked_add (pos b.len) (pos (suc n)))))
            (sym e)
            (Appended-bound self src owned (suc n) a _ (
              after_sum-Appended (record self { allocator = a }) src owned n w
                (IsValid-bound self src owned (suc n) a valid) positive most
                (InRange-bound self src owned (suc n) a in_range) m refl)),
      )
