-- ===== src/HashMap/Rebuild.antt =====
-- runtime/container.c: `map_reserve` and `map_shrink` on a valid map.
use loke.Prelude.{
  ℕ, ◌≤◌, ◌<◌, ◌≡◌, refl, sym, ap, ◌∙◌, inl, inr, Bool, true, false, ◌&&◌, ◌||◌, Option, none, some,
  arith, ltb, leb, ◌==◌, if◌then◌else◌, Bool-cases, Option-cases,
}
use mathlib.Core.List.{Perm}
use mathlib.Core.List.Perm
use loke.Prelude.Int.{pos}
use loke.Prelude.Outcome.{Returns, Returns-bind, Returns-map, Returns-ok, Returns-if}
use loke.Container.Memory.{Provider}
use loke.HashMap.{Table, HashMap, MapOps, MapWorld, map_capacity_of, map_slots_for}
use loke.HashMap.Methods.{
  fresh_table, free_old, take_over, rebuild, reserve_bound, shrink_table, map_bind, has_table,
  map_reserve, map_shrink,
}
use loke.HashMap.Invariant.{AreHooks}
use loke.HashMap.Sizes.{IsSize, map_slots_for-IsSize, fresh_table-IsNew}
use loke.HashMap.Whole.{
  entries_of, IsHeld, Agrees, IsMap, len-lt-slots, IsHeld-IsSize, moved_from-Taken,
}

-- The map is valid and holds what it held; on failure the table is the one it had.
pub record Resized {S K V : Type 0} (ops : MapOps S K V) (self : HashMap K V)
    (r : Bool × HashMap K V × MapWorld S K V) : Type 0 where
  pub valid : IsMap ops r.1
  pub same : Perm (entries_of r.1.table) (entries_of self.table)
  pub same_len : r.1.len ≡ self.len
  pub untouched : r.0 ≡ false → (r.1.table ≡ self.table) × (r.1.cap ≡ self.cap)

pub either-IsSize : (b : Bool) {m n : ℕ} → IsSize m → IsSize n → IsSize (if b then m else n)
either-IsSize true s t = s
either-IsSize false s t = t

module _ {S K V : Type 0} (selected : ℕ) (p : Provider S) (ops : MapOps S K V)
    (hooks : AreHooks ops) where
  record Rebuilt (self : HashMap K V) (slots : ℕ) (r : Bool × HashMap K V × MapWorld S K V)
      : Type 0 where
    resized : Resized ops self r
    grown : r.0 ≡ true → r.1.cap ≡ map_capacity_of slots

  unchanged :
      (self : HashMap K V) (b : Bool) (w : MapWorld S K V)
      → IsMap ops self
      → Resized ops self (b, self, w)
  unchanged self b w valid = record {
    valid = valid;
    same = Perm.rfl;
    same_len = refl;
    untouched = λ e. (refl, refl);
  }

  take_over-Rebuilt :
      (self : HashMap K V) (slots : ℕ) (w₀ : MapWorld S K V)
      (made : Option (ℕ × Table K V) × MapWorld S K V)
      → fresh_table selected p ops slots w₀ ≡ made
      → IsMap ops self
      → IsSize slots
      → self.len < slots
      → Returns (take_over selected p ops self slots made) (Rebuilt self slots)
  unfolding take_over
  take_over-Rebuilt self slots w₀ (none, w) e valid size lt =
      Returns-ok (false, self, w)
        (record { resized = unchanged self false w valid; grown = λ e'. absurd (ground arith) })
  take_over-Rebuilt self slots w₀ (some (addr, t), w) e valid size lt =
      let new = fresh_table-IsNew selected p ops slots w₀ addr t w size e in
      Returns-bind
        (moved_from-Taken ops hooks selected p self.table self.len self.cap slots t valid new lt)
        λ t₁ m.
          let count : t₁.slot_count ≡ slots = m.fresh.same_count ∙ new.count in
          Returns-ok
            (
              true,
              record self { table = some (addr, t₁); cap = map_capacity_of slots },
              free_old selected p ops self.table w,
            )
            (record {
              resized = record {
                valid = record {
                  table = m.fresh.table;
                  least = omega (arith, count, size.least);
                  counted = sym m.counted;
                  capacity = ap map_capacity_of (sym count);
                };
                same = m.same;
                same_len = refl;
                untouched = λ e'. absurd (ground arith);
              };
              grown = λ e'. refl;
            })

  rebuild-Rebuilt :
      (self : HashMap K V) (slots : ℕ) (w : MapWorld S K V)
      → IsMap ops self
      → IsSize slots
      → self.len < slots
      → Returns (rebuild selected p ops self slots w) (Rebuilt self slots)
  unfolding rebuild
  rebuild-Rebuilt self slots w valid size lt =
      take_over-Rebuilt self slots w (fresh_table selected p ops slots w) refl valid size lt

  -- A reservation, and what it is for.
  pub record Reserved (self : HashMap K V) (min_capacity : ℕ)
      (r : Bool × HashMap K V × MapWorld S K V) : Type 0 where
    pub resized : Resized ops self r
    pub enough : r.0 ≡ true → min_capacity ≤ r.1.cap

  pub capacity-lt : (slots : ℕ) → 8 ≤ slots → map_capacity_of slots < slots
  unfolding map_capacity_of
  capacity-lt slots h = omega arith

  capacity-le : (m n : ℕ) → m ≤ n → map_capacity_of m ≤ map_capacity_of n
  unfolding map_capacity_of
  capacity-le m n h = omega arith

  reserve_bound-Reserved :
      (self : HashMap K V) (min_capacity : ℕ) (w : MapWorld S K V)
      → IsMap ops self
      → Returns (reserve_bound selected p ops self min_capacity w) (Reserved self min_capacity)
  unfolding reserve_bound
  reserve_bound-Reserved self min_capacity w valid =
      let want = if ltb min_capacity self.len then self.len else min_capacity in
      Returns-if
        (leb min_capacity self.cap && (has_table selected p ops self.table || min_capacity == 0))
        (λ t.
          Returns-ok (true, self, w)
            (record { resized = unchanged self true w valid; enough = λ e. ground arith }))
        (λ t. elim (Option-cases (map_slots_for want)) [
          | inl n ↦ rw n (
              Returns-ok (false, self, w)
                (record {
                  resized = unchanged self false w valid;
                  enough = λ e. absurd (ground arith);
                }))
          | inr (slots, e) ↦
              let (size, cap) = map_slots_for-IsSize want slots e in
              rw e (
                Returns-map
                  (rebuild-Rebuilt self slots w valid size
                    (let room = capacity-lt slots size.least in ground arith))
                  (λ r b. record {
                    resized = b.resized;
                    enough = λ d. let g = b.grown d in ground arith;
                  }))
        ])

  -- `map_bind` changes at most the allocator.
  pub by_binding :
      (P : HashMap K V → Type 0) (self : HashMap K V)
      → P self
      → P (record self { allocator = selected })
      → P (map_bind selected p ops self)
  unfolding map_bind
  by_binding P self a b = elim (Bool-cases (self.allocator == 0)) [
    | inl e ↦ rw (e, map_bind) b
    | inr e ↦ rw (e, map_bind) a
  ]

  -- Where equality of keys is an equivalence, equal keys hash alike and a clone of a key is
  -- equal to it: reserving in a valid map returns, with a valid map that holds the same entries.
  -- Where the answer is 1 its capacity is at least what was asked for, and where it is 0 the
  -- table is the one it had.
  pub map_reserve-Reserved :
      (self : HashMap K V) (min_capacity : ℕ) (w : MapWorld S K V)
      → IsMap ops self
      → Returns (map_reserve selected p ops self (pos min_capacity) w) (Reserved self min_capacity)
  unfolding map_reserve
  map_reserve-Reserved self min_capacity w valid =
      by_binding
        (λ m. Returns (reserve_bound selected p ops m min_capacity w) (Reserved self min_capacity))
        self (reserve_bound-Reserved self min_capacity w valid)
        (Returns-map
          (reserve_bound-Reserved (record self { allocator = selected }) min_capacity w valid)
          (λ r q. record {
            resized = record {
              valid = q.resized.valid;
              same = q.resized.same;
              same_len = q.resized.same_len;
              untouched = q.resized.untouched;
            };
            enough = q.enough;
          }))

  -- What a shrink leaves.
  pub record Shrunk (self : HashMap K V) (r : Bool × HashMap K V × MapWorld S K V) : Type 0 where
    pub resized : Resized ops self r
    pub no_larger : r.1.cap ≤ self.cap

  shrink_table-Shrunk :
      (self : HashMap K V) (old : Table K V) (want : ℕ) (w : MapWorld S K V)
      → IsMap ops self
      → IsHeld ops old self.len self.cap
      → self.len ≤ want
      → Returns (shrink_table selected p ops self old want w) (Shrunk self)
  unfolding shrink_table
  shrink_table-Shrunk self old want w valid held le = elim (Option-cases (map_slots_for want)) [
    | inl n ↦
        rw (n, shrink_table)
          (Returns-ok (false, self, w)
            (record { resized = unchanged self false w valid; no_larger = omega arith }))
    | inr (least, e) ↦
        let (size, cap) = map_slots_for-IsSize want least e in
        let slots : ℕ = if ltb old.slot_count least then old.slot_count else least in
        let sized : IsSize slots =
          either-IsSize (ltb old.slot_count least) (IsHeld-IsSize ops held) size in
        let room = capacity-lt least size.least in
        let lt : self.len < slots = ground (arith, len-lt-slots ops held) in
        rw (e, shrink_table)
          (Returns-if (slots == old.slot_count && old.tombstones == 0)
            (λ t.
              Returns-ok (true, self, w)
                (record { resized = unchanged self true w valid; no_larger = omega arith }))
            (λ t. Returns-map (rebuild-Rebuilt self slots w valid sized lt) (λ r b.
              let mono = capacity-le slots old.slot_count (ground arith) in
              record {
                resized = b.resized;
                no_larger = elim (Bool-cases r.0) [
                  | inl d ↦ omega (arith, b.grown d, held.capacity, mono)
                  | inr d ↦ omega (arith, (b.resized.untouched d).1)
                ];
              })))
  ]

  shrink_where :
      (table : Option (ℕ × Table K V)) (len cap allocator min_capacity : ℕ) (w : MapWorld S K V)
      → Agrees ops table len cap
      → let self : HashMap K V = record {
        table = table;
        len = len;
        cap = cap;
        allocator = allocator;
      } in
        Returns (map_shrink selected p ops self (pos min_capacity) w) (Shrunk self)
  unfolding map_shrink
  shrink_where none len cap allocator min_capacity w a =
      let self : HashMap K V = record {
        table = none;
        len = len;
        cap = cap;
        allocator = allocator;
      } in
      Returns-ok (true, self, w)
        (record { resized = unchanged self true w a; no_larger = omega arith })
  shrink_where (some (addr, old)) len cap allocator min_capacity w a =
      let self : HashMap K V = record {
        table = some (addr, old);
        len = len;
        cap = cap;
        allocator = allocator;
      } in
      shrink_table-Shrunk self old (if ltb len min_capacity then min_capacity else len) w a a
        (ground arith)

  -- Where equality of keys is an equivalence, equal keys hash alike and a clone of a key is
  -- equal to it: shrinking a valid map returns, with a valid map that holds the same entries and
  -- whose capacity is not above what it was. Where the answer is 0 the table is the one it had.
  pub map_shrink-Shrunk :
      (self : HashMap K V) (min_capacity : ℕ) (w : MapWorld S K V)
      → IsMap ops self
      → Returns (map_shrink selected p ops self (pos min_capacity) w) (Shrunk self)
  map_shrink-Shrunk self min_capacity w valid =
      shrink_where self.table self.len self.cap self.allocator min_capacity w valid
