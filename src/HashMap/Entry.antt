-- ===== src/HashMap/Entry.antt =====
-- runtime/container.c: `map_entry` on a valid map.
use loke.Prelude.{
  ℕ, ◌+◌, ◌/◌, ◌≤◌, ◌<◌, ◌≡◌, refl, sym, ap, ◌∙◌, inl, inr, Bool, true, false, Option, none, some,
  ◌∷◌, arith, ltb, if◌then◌else◌, Option-cases,
}
use mathlib.Core.List.{Perm}
use mathlib.Core.List.Perm
use mathlib.Core.Path.{subst}
use loke.Prelude.Outcome.{Returns, Returns-bind, Returns-ok, Returns-if}
use loke.Container.Memory.{Provider}
use loke.HashMap.{
  Slot, empty, occupied, Table, HashMap, MapOps, MapWorld, slot_at, map_capacity_of, map_slots_for,
  map_probe,
}
use loke.HashMap.Methods.{
  fresh_table, map_free_block, free_old, map_bind, is_full, entry_slots, publish_in_place,
  insert_in_place, publish_fresh, insert_fresh, insert_rebuilt, map_entry,
}
use loke.HashMap.Slots.{entries}
use loke.HashMap.Invariant.{AreHooks, IsAbsent}
use loke.HashMap.Probing.{map_probe-Holds}
use loke.HashMap.Keying.{IsKeyed, insert_key-IsKeyed}
use loke.HashMap.Sizes.{
  IsSize, map_slots_for-IsSize, half_free-IsSize, fresh_table-IsNew, bind-some,
}
use loke.HashMap.Rebuild.{by_binding, capacity-lt, either-IsSize}
use loke.HashMap.Whole.{
  entries_of, IsHeld, Agrees, IsMap, IsHeld-IsSize, probe_none-IsAbsent, IsAbsentFrom,
  moved_from-Taken,
}

module _ {S K V : Type 0} (ops : MapOps S K V) where
  -- The slot of the map's table.
  abbrev pub slot_of : Option (ℕ × Table K V) → ℕ → Slot K V
  slot_of none slot = empty
  slot_of (some (addr, t)) slot = slot_at t.slots slot

  -- A valid map with one entry more, for a key that was not there, and the zero value at `slot`.
  pub record Added (self : HashMap K V) (key : K) (slot : ℕ) (m : HashMap K V) : Type 0 where
    pub valid : IsMap ops m
    pub absent : IsAbsentFrom ops key self.table
    pub longer : m.len ≡ self.len + 1
    pub stored : K
    pub equal : ops.key_equal stored key ≡ true
    pub here : slot_of m.table slot ≡ occupied stored ops.elems.zero_value
    pub added : Perm (entries_of m.table) ((stored, ops.elems.zero_value) ∷ entries_of self.table)

  -- The slot holds an entry of the map with an equal key.
  abbrev pub HoldsIn : HashMap K V → K → ℕ → Type 0
  HoldsIn self key slot =
      (k : K) × (v : V) × (slot_of self.table slot ≡ occupied k v) × (ops.key_equal k key ≡ true)

  -- The three ends of `map_entry`.
  pub data Entered (self : HashMap K V) (key : K)
      : Option ℕ × Bool × HashMap K V × MapWorld S K V → Type 0 where
    failed : (w : MapWorld S K V) → Entered self key (none, false, self, w)
    found :
        (slot : ℕ) (w : MapWorld S K V)
        → HoldsIn self key slot
        → Entered self key (some slot, false, self, w)
    inserted :
        (slot : ℕ) (m : HashMap K V) (w : MapWorld S K V)
        → Added self key slot m
        → Entered self key (some slot, true, m, w)

module _ {S K V : Type 0} (selected : ℕ) (p : Provider S) (ops : MapOps S K V)
    (hooks : AreHooks ops) where
  bound_cap : (self : HashMap K V) → (map_bind selected p ops self).cap ≡ self.cap
  bound_cap self = by_binding selected p ops hooks (λ m. m.cap ≡ self.cap) self refl refl

  publish_in_place-Entered :
      (self : HashMap K V) (addr : ℕ) (t : Table K V) (key : K)
      (r : Option (ℕ × Table K V) × MapWorld S K V)
      → self.table ≡ some (addr, t)
      → IsHeld ops t self.len self.cap
      → IsAbsent ops key t
      → IsKeyed selected p ops hooks t key r
      → Returns (publish_in_place selected p ops self addr r) (Entered ops self key)
  unfolding publish_in_place
  publish_in_place-Entered self addr t key (none, w) e held absent k =
      Returns-ok (none, false, self, w) (failed w)
  publish_in_place-Entered self addr t key (some (slot, t'), w) e held absent k =
      let m : HashMap K V = record (map_bind selected p ops self) {
        table = some (addr, t');
        len = self.len + 1;
      } in
      let more : Added ops self key slot m = record {
        valid = record {
          table = k.table;
          least = omega (arith, k.same_count, held.least);
          counted = omega (arith, k.counted, held.counted);
          capacity = bound_cap self ∙ held.capacity ∙ ap map_capacity_of (sym k.same_count);
        };
        absent = subst (IsAbsentFrom ops key) (sym e) absent;
        longer = refl;
        stored = k.stored;
        equal = k.equal;
        here = k.here;
        added =
            subst (λ b. Perm (entries t'.slots) ((k.stored, ops.elems.zero_value) ∷ entries_of b))
              (sym e) k.added;
      } in
      Returns-ok (some slot, true, m, w) (inserted slot m w more)

  insert_in_place-Entered :
      (self : HashMap K V) (addr : ℕ) (t : Table K V) (key : K) (w : MapWorld S K V)
      → self.table ≡ some (addr, t)
      → IsHeld ops t self.len self.cap
      → IsAbsent ops key t
      → t.occupied_count + 1 + t.tombstones < t.slot_count
      → Returns (insert_in_place selected p ops self (addr, t) key w) (Entered ops self key)
  unfolding insert_in_place
  insert_in_place-Entered self addr t key w e held absent room =
      Returns-bind (insert_key-IsKeyed selected p ops hooks t held.table key absent room w)
        λ r k. publish_in_place-Entered self addr t key r e held absent k

  publish_fresh-Entered :
      (self : HashMap K V) (addr : ℕ) (t₁ : Table K V) (key : K)
      (r : Option (ℕ × Table K V) × MapWorld S K V)
      → 8 ≤ t₁.slot_count
      → t₁.occupied_count ≡ self.len
      → Perm (entries t₁.slots) (entries_of self.table)
      → IsAbsentFrom ops key self.table
      → IsKeyed selected p ops hooks t₁ key r
      → Returns (publish_fresh selected p ops self (addr, t₁) r) (Entered ops self key)
  unfolding publish_fresh
  publish_fresh-Entered self addr t₁ key (none, w) least counted same absent k =
      Returns-ok (none, false, self, map_free_block selected p ops (addr, t₁) w) (failed _)
  publish_fresh-Entered self addr t₁ key (some (slot, t₂), w) least counted same absent k =
      let m : HashMap K V = record (map_bind selected p ops self) {
        table = some (addr, t₂);
        len = self.len + 1;
        cap = map_capacity_of t₂.slot_count;
      } in
      let w' = free_old selected p ops self.table w in
      let more : Added ops self key slot m = record {
        valid = record {
          table = k.table;
          least = omega (arith, k.same_count, least);
          counted = omega (arith, k.counted, counted);
          capacity = refl;
        };
        absent = absent;
        longer = refl;
        stored = k.stored;
        equal = k.equal;
        here = k.here;
        added = Perm.trans k.added (Perm.cons (k.stored, ops.elems.zero_value) same);
      } in
      Returns-ok (some slot, true, m, w') (inserted slot m w' more)

  insert_fresh-Entered :
      (self : HashMap K V) (key : K) (slots : ℕ) (w₀ : MapWorld S K V)
      (made : Option (ℕ × Table K V) × MapWorld S K V)
      → fresh_table selected p ops slots w₀ ≡ made
      → IsMap ops self
      → IsSize slots
      → self.len < slots / 2
      → IsAbsentFrom ops key self.table
      → Returns (insert_fresh selected p ops self key made) (Entered ops self key)
  unfolding insert_fresh
  insert_fresh-Entered self key slots w₀ (none, w) e valid size half absent =
      Returns-ok (none, false, self, w) (failed w)
  insert_fresh-Entered self key slots w₀ (some (addr, t), w) e valid size half absent =
      let new = fresh_table-IsNew selected p ops slots w₀ addr t w size e in
      Returns-bind
        (moved_from-Taken ops hooks selected p self.table self.len self.cap slots t valid new
          (omega arith))
        λ t₁ m.
          let count : t₁.slot_count ≡ slots = m.fresh.same_count ∙ new.count in
          Returns-bind
            (insert_key-IsKeyed selected p ops hooks t₁ m.fresh.table key (m.absent key absent)
              (omega (arith, count, m.counted, m.fresh.clean, size.least)) w)
            λ r k.
              publish_fresh-Entered self addr t₁ key r (omega (arith, count, size.least)) m.counted
                m.same absent k

  entry_slots_where :
      (table : Option (ℕ × Table K V)) (len cap allocator slots : ℕ)
      → Agrees ops table len cap
      → entry_slots selected p ops
          (record { table = table; len = len; cap = cap; allocator = allocator })
        ≡ some slots
      → IsSize slots × (len < slots / 2)
  unfolding entry_slots
  entry_slots_where none len cap allocator slots a e =
      let (least, e₁, e₂) = bind-some (map_slots_for (len + 1)) _ e in
      half_free-IsSize 64 len least slots (map_slots_for-IsSize (len + 1) least e₁).0 e₂
  entry_slots_where (some (addr, old)) len cap allocator slots a e =
      let (least, e₁, e₂) = bind-some (map_slots_for (len + 1)) _ e in
      half_free-IsSize 64 len (if ltb least old.slot_count then old.slot_count else least) slots
        (either-IsSize (ltb least old.slot_count) (IsHeld-IsSize ops a)
          (map_slots_for-IsSize (len + 1) least e₁).0)
        e₂

  insert_rebuilt-Entered :
      (self : HashMap K V) (key : K) (w : MapWorld S K V)
      → IsMap ops self
      → IsAbsentFrom ops key self.table
      → Returns (insert_rebuilt selected p ops self key w) (Entered ops self key)
  unfolding insert_rebuilt
  insert_rebuilt-Entered self key w valid absent =
      elim (Option-cases (entry_slots selected p ops self)) [
        | inl n ↦ rw (n, insert_rebuilt) (Returns-ok (none, false, self, w) (failed w))
        | inr (slots, e) ↦
            let (size, half) =
              entry_slots_where self.table self.len self.cap self.allocator slots valid e in
            rw (e, insert_rebuilt)
              (insert_fresh-Entered self key slots w (fresh_table selected p ops slots w) refl valid
                size half absent)
      ]

  room :
      (t : Table K V) (len cap allocator addr : ℕ)
      → IsHeld ops t len cap
      → is_full selected p ops
          (record { table = some (addr, t); len = len; cap = cap; allocator = allocator })
        ≡ false
      → t.occupied_count + 1 + t.tombstones < t.slot_count
  unfolding is_full
  room t len cap allocator addr held f =
      let least = held.least in
      let lt = capacity-lt selected p ops hooks t.slot_count least in ground arith

  entry_where :
      (table : Option (ℕ × Table K V)) (len cap allocator : ℕ) (key : K) (w : MapWorld S K V)
      → Agrees ops table len cap
      → let self : HashMap K V = record {
        table = table;
        len = len;
        cap = cap;
        allocator = allocator;
      } in
        Returns (map_entry selected p ops self key w) (Entered ops self key)
  unfolding map_entry
  entry_where none len cap allocator key w a =
      insert_rebuilt-Entered (record { table = none; len = len; cap = cap; allocator = allocator })
        key w a tt
  entry_where (some (addr, t)) len cap allocator key w a =
      let self : HashMap K V = record {
        table = some (addr, t);
        len = len;
        cap = cap;
        allocator = allocator;
      } in
      elim (Option-cases (map_probe ops t key)) [
        | inl n ↦
            let absent = probe_none-IsAbsent ops hooks t key a.table n in
            rw (n, map_entry)
              (Returns-if (is_full selected p ops self)
                (λ f. insert_rebuilt-Entered self key w a absent)
                (λ f.
                  insert_in_place-Entered self addr t key w refl a absent
                    (room t len cap allocator addr a f)))
        | inr (slot, e) ↦
            let h = map_probe-Holds ops t key slot e in
            rw (e, map_entry)
              (Returns-ok (some slot, false, self, w)
                (found slot w (h.stored, h.value, h.here, h.equal)))
      ]

  -- Where equality of keys is an equivalence, equal keys hash alike and a clone of a key is
  -- equal to it: `map_entry` on a valid map returns. It answers NULL with the map as it was; or
  -- the slot of the entry that has an equal key, with the map as it was; or, where no entry had
  -- an equal key, the slot of a new one: the map is then valid and holds what it held and one
  -- entry more, whose key is equal and whose value is zero.
  pub map_entry-Entered :
      (self : HashMap K V) (key : K) (w : MapWorld S K V)
      → IsMap ops self
      → Returns (map_entry selected p ops self key w) (Entered ops self key)
  map_entry-Entered self key w valid =
      entry_where self.table self.len self.cap self.allocator key w valid
