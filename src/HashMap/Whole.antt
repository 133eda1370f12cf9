-- ===== src/HashMap/Whole.antt =====
-- runtime/container.c: a map between two operations, what it holds, and `map_find`, `map_reserve`
-- and `map_shrink` on it.
use loke.Prelude.{
  ℕ, zero, suc, ◌≤◌, ◌<◌, ◌≡◌, ◌≢◌, refl, sym, ap, ◌∙◌, inl, inr, Bool, true, false, Option, none,
  some, List, [], ◌∷◌, ◌++◌, append-nil, arith, length, ◌==◌, if◌then◌else◌, Bool-cases,
  Option-cases, replicate,
}
use mathlib.Core.List.{Perm}
use mathlib.Core.List.Perm
use mathlib.Core.Path.{subst}
use loke.Prelude.Outcome.{Returns, Returns-map, Returns-ok}
use loke.Container.Memory.{Provider}
use loke.HashMap.{
  Slot, empty, tombstone, occupied, value_owed, Table, HashMap, MapOps, slot_at, map_capacity_of,
  map_probe,
}
use loke.HashMap.Methods.{moved_from, find_in, map_find}
use loke.HashMap.Slots.{entries, entries-replicate, length-entries}
use loke.HashMap.Invariant.{AreHooks, IsTable, IsAbsent}
use loke.HashMap.Probing.{map_probe-Holds, Holds-map_probe}
use loke.HashMap.Moving.{IsFresh, IsUnique, move_entries-HasMoved}
use loke.HashMap.Sizes.{IsSize, IsNew, get_or-replicate}

module _ {K V : Type 0} where
  -- What a map holds, in the order of the slots.
  abbrev pub entries_of : Option (ℕ × Table K V) → List (K × V)
  entries_of none = []
  entries_of (some (addr, t)) = entries t.slots

  -- The value of the first entry with an equal key.
  pub assoc : (K → K → Bool) → List (K × V) → K → Option V
  assoc key_equal [] key = none
  assoc key_equal ((k, v) ∷ rest) key = if key_equal k key then some v else assoc key_equal rest key

module _ {S K V : Type 0} (ops : MapOps S K V) where
  -- A valid table with at least eight slots, which the header of the map agrees with.
  pub record IsHeld (t : Table K V) (len cap : ℕ) : Type 0 where
    pub table : IsTable ops t
    pub least : 8 ≤ t.slot_count
    pub counted : len ≡ t.occupied_count
    pub capacity : cap ≡ map_capacity_of t.slot_count

  abbrev pub Agrees : Option (ℕ × Table K V) → (len cap : ℕ) → Type 0
  Agrees none len cap = (len ≡ 0) × (cap ≡ 0)
  Agrees (some (addr, t)) len cap = IsHeld t len cap

  -- A map between two operations.
  abbrev pub IsMap : HashMap K V → Type 0
  IsMap self = Agrees self.table self.len self.cap

  -- No entry of the map has an equal key.
  abbrev pub IsAbsentFrom : K → Option (ℕ × Table K V) → Type 0
  IsAbsentFrom key none = Unit
  IsAbsentFrom key (some (addr, t)) = IsAbsent ops key t

  pub len-lt-slots : {t : Table K V} {len cap : ℕ} → IsHeld t len cap → len < t.slot_count
  len-lt-slots h = omega (arith, h.counted, h.table.room)

  pub IsHeld-IsSize : {t : Table K V} {len cap : ℕ} → IsHeld t len cap → IsSize t.slot_count
  IsHeld-IsSize h = record { power = h.table.power; least = h.least }

module _ {S K V : Type 0} (ops : MapOps S K V) (hooks : AreHooks ops) where
  assoc-hit :
      (slots : List (Slot K V)) (i : ℕ) (k key : K) (v : V)
      → IsUnique ops slots
      → slot_at slots i ≡ occupied k v
      → ops.key_equal k key ≡ true
      → assoc ops.key_equal (entries slots) key ≡ some v
  unfolding assoc
  assoc-hit [] i k key v u e eq = absurd (cc)
  assoc-hit (x ∷ slots) zero k key v u e eq =
      subst (λ x'. assoc ops.key_equal (entries (x' ∷ slots)) key ≡ some v) (sym e) (rw eq refl)
  assoc-hit (empty ∷ slots) (suc i) k key v u e eq =
      assoc-hit slots i k key v
        (λ a b k k' v v' ea eb q. let s = u (suc a) (suc b) k k' v v' ea eb q in omega (arith, s)) e
        eq
  assoc-hit (tombstone ∷ slots) (suc i) k key v u e eq =
      assoc-hit slots i k key v
        (λ a b k k' v v' ea eb q. let s = u (suc a) (suc b) k k' v v' ea eb q in omega (arith, s)) e
        eq
  assoc-hit (value_owed w ∷ slots) (suc i) k key v u e eq =
      assoc-hit slots i k key v
        (λ a b k k' v v' ea eb q. let s = u (suc a) (suc b) k k' v v' ea eb q in omega (arith, s)) e
        eq
  assoc-hit (occupied k₀ v₀ ∷ slots) (suc i) k key v u e eq =
      let ih =
        assoc-hit slots i k key v
          (λ a b k k' v v' ea eb q. let s = u (suc a) (suc b) k k' v v' ea eb q in omega (arith, s))
          e eq in
      elim (Bool-cases (ops.key_equal k₀ key)) [
        | inl same ↦
            let both = hooks.transitive k₀ key k same (hooks.symmetric k key eq) in
            let bad = u 0 (suc i) k₀ k v₀ v refl e both in absurd (omega (arith, bad))
        | inr other ↦ rw other ih
      ]

  assoc-miss :
      (slots : List (Slot K V)) (key : K)
      → ((i : ℕ) (k : K) (v : V) → slot_at slots i ≡ occupied k v → ops.key_equal k key ≡ false)
      → assoc ops.key_equal (entries slots) key ≡ none
  unfolding assoc
  assoc-miss [] key a = refl
  assoc-miss (empty ∷ slots) key a = assoc-miss slots key (λ i. a (suc i))
  assoc-miss (tombstone ∷ slots) key a = assoc-miss slots key (λ i. a (suc i))
  assoc-miss (value_owed w ∷ slots) key a = assoc-miss slots key (λ i. a (suc i))
  assoc-miss (occupied k v ∷ slots) key a =
      rw (a 0 k v refl) (assoc-miss slots key (λ i. a (suc i)))

  -- Where `map_probe` answers -1 no entry of a valid table has an equal key.
  pub probe_none-IsAbsent :
      (t : Table K V) (key : K) → IsTable ops t → map_probe ops t key ≡ none → IsAbsent ops key t
  probe_none-IsAbsent t key table e i k v here = elim (Bool-cases (ops.key_equal k key)) [
    | inl eq ↦
        let found =
          Holds-map_probe ops t table hooks key i
            (record { stored = k; value = v; here = here; equal = eq }) in
        absurd (cc)
    | inr eq ↦ eq
  ]

  no_entries : (es : List (K × V)) → length es ≡ 0 → es ≡ []
  no_entries [] e = refl
  no_entries (x ∷ es) e = absurd (omega arith)

  new_entries : {slots : ℕ} (t : Table K V) → IsNew ops slots t → entries t.slots ≡ []
  new_entries {slots} t new = ap entries new.bare ∙ entries-replicate slots

  no_entry :
      {slots : ℕ} (t : Table K V)
      → IsNew ops slots t
      → (i : ℕ) (k : K) (v : V) → slot_at t.slots i ≢ occupied k v
  no_entry {slots} t new i k v e =
      let here : slot_at {K = K} {V = V} (replicate slots empty) i ≡ empty =
        get_or-replicate empty slots i in
      let there = ap (λ ss. slot_at ss i) new.bare in cc

  module _ (selected : ℕ) (p : Provider S) where
    find_in-assoc :
        (t : Table K V) (len cap : ℕ) (key : K)
        → IsHeld ops t len cap
        → find_in selected p ops len t key ≡ assoc ops.key_equal (entries t.slots) key
    unfolding find_in assoc
    find_in-assoc t len cap key h = elim (Bool-cases (len == 0)) [
      | inl z ↦
          let bare : entries t.slots ≡ [] = no_entries (entries t.slots) (
            let zero_len : len ≡ 0 = ground arith in
            omega (arith, length-entries t.slots, h.counted, h.table.counted)) in
          rw (z, find_in, bare, assoc) refl
      | inr z ↦ elim (Option-cases (map_probe ops t key)) [
        | inl n ↦
            let miss = assoc-miss t.slots key (probe_none-IsAbsent t key h.table n) in
            rw (z, find_in, n) (sym miss)
        | inr (i, e) ↦
            let held = map_probe-Holds ops t key i e in
            let here = held.here in
            let hit =
              assoc-hit t.slots i held.stored key held.value h.table.unique here held.equal in
            rw (z, find_in, e, here) (sym hit)
      ]
    ]

    find_where :
        (table : Option (ℕ × Table K V)) (len cap allocator : ℕ) (key : K)
        → Agrees ops table len cap
        → map_find selected p ops
            (record { table = table; len = len; cap = cap; allocator = allocator })
            key
          ≡ assoc ops.key_equal (entries_of table) key
    unfolding map_find assoc
    find_where none len cap allocator key h = refl
    find_where (some (addr, t)) len cap allocator key h = find_in-assoc t len cap key h

    -- Where equality of keys is an equivalence, equal keys hash alike and a clone of a key is
    -- equal to it: in a valid map `map_find` answers the value of the entry with an equal key,
    -- and NULL exactly if the map holds none.
    pub map_find-assoc :
        (self : HashMap K V) (key : K)
        → IsMap ops self
        → map_find selected p ops self key ≡ assoc ops.key_equal (entries_of self.table) key
    map_find-assoc self key valid = find_where self.table self.len self.cap self.allocator key valid

    -- The entries of the old table, all of them and no other, in the new one.
    pub record Taken (old : Option (ℕ × Table K V)) (len : ℕ) (t t' : Table K V) : Type 0 where
      pub fresh : IsFresh ops t t'
      pub counted : t'.occupied_count ≡ len
      pub same : Perm (entries t'.slots) (entries_of old)
      pub absent : (key : K) → IsAbsentFrom ops key old → IsAbsent ops key t'

    pub moved_from-Taken :
        (old : Option (ℕ × Table K V)) (len cap slots : ℕ) (t : Table K V)
        → Agrees ops old len cap
        → IsNew ops slots t
        → len < slots
        → Returns (moved_from selected p ops old t) (Taken old len t)
    unfolding moved_from
    moved_from-Taken none len cap slots t a new lt = Returns-ok t (record {
      fresh = new.fresh;
      counted = new.vacant ∙ sym a.0;
      same = subst (λ es. Perm es []) (sym (new_entries t new)) Perm.rfl;
      absent = λ key _ i k v e. absurd (no_entry t new i k v e);
    })
    moved_from-Taken (some (addr, old)) len cap slots t a new lt =
        Returns-map
          (move_entries-HasMoved ops hooks t old.slots t new.fresh a.table.unique
            (λ i j k k' v v' ei ej. absurd (no_entry t new j k' v' ej))
            (omega (arith, a.counted, a.table.counted, new.vacant, new.count)))
          λ t' m. record {
            fresh = m.fresh;
            counted = omega (arith, m.counted, a.counted, a.table.counted, new.vacant);
            same =
                subst (λ es. Perm (entries t'.slots) es)
                  (ap (λ es. entries old.slots ++ es) (new_entries t new)
                    ∙ append-nil (entries old.slots))
                  m.moved;
            absent = λ key old_absent.
                m.absent key old_absent (λ i k v e. absurd (no_entry t new i k v e));
          }
