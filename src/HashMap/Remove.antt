-- ===== src/HashMap/Remove.antt =====
-- runtime/container.c: `map_remove` on a valid map.
use loke.Prelude.{
  ℕ, zero, suc, ◌+◌, ◌-◌, ◌<◌, ◌≡◌, ◌≢◌, refl, sym, ap, ◌∙◌, inl, inr, Bool, true, false, Option,
  none, some, List, [], ◌∷◌, ◌++◌, arith, length, ◌==◌, if◌then◌else◌, set, length-set,
  get_or-set_self, get_or-set_ne, Bool-cases, Option-cases,
}
use mathlib.Core.List.{Perm}
use mathlib.Core.Path.{subst}
use native.Mathlib.Decide.{ℕ_discrete}
use loke.Container.Memory.{Provider}
use loke.HashMap.{
  Slot, empty, tombstone, occupied, value_owed, Table, HashMap, MapOps, MapWorld, slot_at,
  map_probe,
}
use loke.HashMap.Methods.{owe_entry, remove_owed, remove_at, map_remove}
use loke.HashMap.Slots.{
  live, grave, owed, weigh-set, weigh-at, entries, entries-take, occupied_in_range,
}
use loke.HashMap.Invariant.{AreHooks, IsAbsent, IsTable, kept_full}
use loke.HashMap.Probing.{Holds, map_probe-Holds}
use loke.HashMap.Whole.{entries_of, IsHeld, Agrees, IsMap, probe_none-IsAbsent, IsAbsentFrom}

module _ {K V : Type 0} where
  pub set-set :
      (slots : List (Slot K V)) (i : ℕ) (a b : Slot K V) → set (set slots i a) i b ≡ set slots i b
  set-set [] i a b = refl
  set-set (x ∷ slots) zero a b = refl
  set-set (x ∷ slots) (suc i) a b = ap (◌∷◌ x) (set-set slots i a b)

  -- The table when its entry at `i` is gone.
  abbrev without : Table K V → (i : ℕ) → Table K V
  without t i = record t {
    slots = set t.slots i tombstone;
    occupied_count = t.occupied_count - 1;
    tombstones = t.tombstones + 1;
  }

module _ {S K V : Type 0} (ops : MapOps S K V) where
  -- The two ends of `map_remove`.
  pub data Removed (self : HashMap K V) (key : K)
      : Bool × V × HashMap K V × MapWorld S K V → Type 0 where
    missing :
        (w : MapWorld S K V)
        → IsAbsentFrom ops key self.table
        → Removed self key (false, ops.elems.zero_value, self, w)
    taken :
        (stored : K) (value : V) (m : HashMap K V) (w : MapWorld S K V)
        → ops.key_equal stored key ≡ true
        → IsMap ops m
        → m.len + 1 ≡ self.len
        → Perm (entries_of self.table) ((stored, value) ∷ entries_of m.table)
        → IsAbsentFrom ops key m.table
        → Removed self key (true, value, m, w)

  module _ (hooks : AreHooks ops) (t : Table K V) (table : IsTable ops t) (key : K) (i : ℕ)
      (h : Holds ops t key i) where
    lt : i < length t.slots
    lt = occupied_in_range t.slots i h.here

    one_live : live (slot_at t.slots i) ≡ 1
    one_live = ap live h.here

    origin_gone :
        (j : ℕ) (k : K) (v : V)
        → slot_at (set t.slots i tombstone) j ≡ occupied k v
        → (i ≢ j) × (slot_at t.slots j ≡ occupied k v)
    origin_gone j k v e = elim (ℕ_discrete i j) [
      | yes same ↦
          (let here : slot_at (set t.slots i tombstone) j ≡ tombstone =
              subst (λ m. slot_at (set t.slots i tombstone) m ≡ tombstone) same
                (get_or-set_self t.slots i tombstone empty lt) in
            absurd (cc))
      | no n ↦ (n, sym (get_or-set_ne t.slots i j tombstone empty n) ∙ e)
    ]

    without-IsTable : IsTable ops (without t i)
    without-IsTable =
        let put = λ (f : Slot K V → ℕ). weigh-set f t.slots i tombstone lt in
        let least = weigh-at live t.slots i refl in
        let no_grave : grave (slot_at t.slots i) ≡ 0 = ap grave h.here in
        let no_owed : owed (slot_at t.slots i) ≡ 0 = ap owed h.here in
        record {
          power = table.power;
          measured = length-set t.slots i tombstone ∙ table.measured;
          counted = omega (arith, put live, table.counted, one_live);
          graves = omega (arith, put grave, table.graves, no_grave);
          settled = omega (arith, put owed, table.settled, no_owed);
          room = omega (arith, table.room, table.counted, least, one_live);
          reach = λ j k v e.
              let r = table.reach j k v (origin_gone j k v e).1 in
              record {
                steps = r.steps;
                few = r.few;
                there = r.there;
                passed = λ d hd. kept_full t.slots i _ tombstone (λ bad. (cc)) lt (r.passed d hd);
              };
          unique = λ a b k k' v v' ea eb eq.
              table.unique a b k k' v v' (origin_gone a k v ea).1 (origin_gone b k' v' eb).1 eq;
        }

    IsAbsent-after : IsAbsent ops key (without t i)
    IsAbsent-after j k v e =
        let (n, old) = origin_gone j k v e in
        elim (Bool-cases (ops.key_equal k key)) [
          | inl eq ↦
              let both = hooks.transitive h.stored key k h.equal (hooks.symmetric k key eq) in
              absurd (n (table.unique i j h.stored k h.value v h.here old both))
          | inr eq ↦ eq
        ]

module _ {S K V : Type 0} (selected : ℕ) (p : Provider S) (ops : MapOps S K V) where
  pub owe_entry-occupied :
      (slot len : ℕ) (t : Table K V) (w : MapWorld S K V) (k : K) (v : V)
      → slot_at t.slots slot ≡ occupied k v
      → owe_entry selected p ops slot (len, t, w) ≡ (
        len - 1,
        record t {
          slots = set t.slots slot (value_owed v);
          occupied_count = t.occupied_count - 1;
          tombstones = t.tombstones + 1;
        },
        if ops.key_drop then record w { dropped = w.dropped ++ (inl k ∷ []) } else w,
      )
  unfolding owe_entry
  owe_entry-occupied slot len t w k v e = rw (e, owe_entry) refl

  remove_owed_lem :
      (self : HashMap K V) (addr len slot : ℕ) (t : Table K V) (w : MapWorld S K V) (v : V)
      → slot_at t.slots slot ≡ value_owed v
      → remove_owed selected p ops self addr slot (len, t, w) ≡ (
        true,
        v,
        record self {
          table = some (addr, record t { slots = set t.slots slot tombstone });
          len = len;
        },
        w,
      )
  unfolding remove_owed
  remove_owed_lem self addr len slot t w v e = rw (e, remove_owed) refl

module _ {S K V : Type 0} (selected : ℕ) (p : Provider S) (ops : MapOps S K V)
    (hooks : AreHooks ops) where
  remove_at-Removed :
      (self : HashMap K V) (addr : ℕ) (t : Table K V) (key : K) (slot : ℕ) (w : MapWorld S K V)
      → self.table ≡ some (addr, t)
      → IsHeld ops t self.len self.cap
      → Holds ops t key slot
      → Removed ops self key (remove_at selected p ops self addr t slot w)
  unfolding remove_at
  remove_at-Removed self addr t key slot w e held h =
      let w₁ : MapWorld S K V =
        if ops.key_drop then record w { dropped = w.dropped ++ (inl h.stored ∷ []) } else w in
      let lt = occupied_in_range t.slots slot h.here in
      let owing : Table K V = record t {
        slots = set t.slots slot (value_owed h.value);
        occupied_count = t.occupied_count - 1;
        tombstones = t.tombstones + 1;
      } in
      let owes = owe_entry-occupied selected p ops slot self.len t w h.stored h.value h.here in
      let settles =
        remove_owed_lem selected p ops self addr (self.len - 1) slot owing w₁ h.value
          (get_or-set_self t.slots slot (value_owed h.value) empty lt) in
      let all = ap (remove_owed selected p ops self addr slot) owes ∙ settles in
      let twice = set-set t.slots slot (value_owed h.value) tombstone in
      let least = weigh-at live t.slots slot refl in
      let one : live (slot_at t.slots slot) ≡ 1 = ap live h.here in
      let counted = held.counted in
      let sum = held.table.counted in
      let result : (slots : List (Slot K V))
          → set t.slots slot tombstone ≡ slots
          → Removed ops self key (
            true,
            h.value,
            record self {
              table = some (addr, record (without t slot) { slots = slots });
              len = self.len - 1;
            },
            w₁,
          ) =
        λ slots same.
          taken h.stored h.value _ w₁ h.equal
            (subst
              (λ ss. IsHeld ops (record (without t slot) { slots = ss }) (self.len - 1) self.cap)
              same
              (record {
                table = without-IsTable ops hooks t held.table key slot h;
                least = held.least;
                counted = ap (λ n. n - 1) counted;
                capacity = held.capacity;
              }))
            (omega arith)
            (subst (λ b. Perm (entries_of b) ((h.stored, h.value) ∷ entries slots)) (sym e)
              (subst (λ ss. Perm (entries t.slots) ((h.stored, h.value) ∷ entries ss)) same
                (entries-take t.slots slot h.stored h.value tombstone h.here refl)))
            (subst (λ ss. IsAbsent ops key (record (without t slot) { slots = ss })) same
              (IsAbsent-after ops hooks t held.table key slot h)) in
      subst (Removed ops self key) (sym all)
        (result (set (set t.slots slot (value_owed h.value)) slot tombstone) (sym twice))

  remove_where :
      (table : Option (ℕ × Table K V)) (len cap allocator : ℕ) (key : K) (w : MapWorld S K V)
      → Agrees ops table len cap
      → let self : HashMap K V = record {
        table = table;
        len = len;
        cap = cap;
        allocator = allocator;
      } in
        Removed ops self key (map_remove selected p ops self key w)
  unfolding map_remove
  remove_where none len cap allocator key w a = missing w tt
  remove_where (some (addr, t)) len cap allocator key w a =
      let self : HashMap K V = record {
        table = some (addr, t);
        len = len;
        cap = cap;
        allocator = allocator;
      } in
      elim (Bool-cases (len == 0)) [
        | inl z ↦
            let zero_len : len ≡ 0 = ground arith in
            rw (z, map_remove)
              (missing w λ i k v e.
                let least = weigh-at live t.slots i refl in
                let one : live (slot_at t.slots i) ≡ 1 = ap live e in
                absurd (omega (arith, least, one, a.counted, a.table.counted, zero_len)))
        | inr z ↦ elim (Option-cases (map_probe ops t key)) [
          | inl n ↦
              rw (z, n, map_remove) (missing w (probe_none-IsAbsent ops hooks t key a.table n))
          | inr (slot, e) ↦
              rw (z, e, map_remove)
                (remove_at-Removed self addr t key slot w refl a (map_probe-Holds ops t key slot e))
        ]
      ]

  -- Where equality of keys is an equivalence, equal keys hash alike and a clone of a key is
  -- equal to it: `map_remove` on a valid map. Where no entry has an equal key it answers 0, with
  -- the zero value and the map as it was. Else it answers 1 and the value of such an entry; the
  -- map is valid, holds one entry fewer, namely this one, and no other entry has an equal key.
  pub map_remove-Removed :
      (self : HashMap K V) (key : K) (w : MapWorld S K V)
      → IsMap ops self
      → Removed ops self key (map_remove selected p ops self key w)
  map_remove-Removed self key w valid =
      remove_where self.table self.len self.cap self.allocator key w valid
