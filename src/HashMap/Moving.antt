-- ===== src/HashMap/Moving.antt =====
-- runtime/container.c: a rebuild moves every entry of a valid table, and nothing else, to the fresh
-- one, which is then valid.
use loke.Prelude.{
  ℕ, suc, ◌+◌, ◌<◌, ◌≡◌, refl, sym, ◌⊎◌, inl, inr, true, false, List, [], ◌∷◌, ◌++◌, arith, length,
  Bool-cases,
}
use mathlib.Core.List.{Perm, perm_middle}
use mathlib.Core.List.Perm
use mathlib.Core.Path.{subst}
use loke.Prelude.Outcome.{Returns, Returns-bind, Returns-map, Returns-ok}
use loke.HashMap.{
  Slot, empty, tombstone, occupied, value_owed, Table, MapOps, slot_at, map_place_moved,
  move_entries,
}
use loke.HashMap.Slots.{live, grave, weigh, weigh-at, entries, entries-put}
use loke.HashMap.Invariant.{AreHooks, IsAbsent, IsTable, with_entry-IsTable, origin}
use loke.HashMap.Placing.{Placed, place_from-Placed, free_kind}

suc_injective : {a b : ℕ} → suc a ≡ suc b → a ≡ b
suc_injective e = omega arith

zero_suc : {a : ℕ} → ◌≡◌ {A = ℕ} 0 (suc a) → ⊥
zero_suc e = omega arith

-- The table as `map_place_moved` leaves it.
abbrev with_slots : {K V : Type 0} → Table K V → List (Slot K V) → Table K V
with_slots t slots = record t { slots = slots; occupied_count = t.occupied_count + 1 }

module _ {S K V : Type 0} (ops : MapOps S K V) where
  -- A valid table without tombstones, of a fixed shape.
  pub record IsFresh (shape t : Table K V) : Type 0 where
    pub table : IsTable ops t
    pub clean : t.tombstones ≡ 0
    pub same_count : t.slot_count ≡ shape.slot_count

  -- No entry of the table has a key equal to one in `rest`.
  abbrev pub IsApart : List (Slot K V) → Table K V → Type 0
  IsApart rest t =
      (i j : ℕ) (k k' : K) (v v' : V)
      → slot_at rest i ≡ occupied k v
      → slot_at t.slots j ≡ occupied k' v'
      → ops.key_equal k' k ≡ false

  abbrev pub IsUnique : List (Slot K V) → Type 0
  IsUnique slots =
      (i j : ℕ) (k k' : K) (v v' : V)
      → slot_at slots i ≡ occupied k v
      → slot_at slots j ≡ occupied k' v'
      → ops.key_equal k k' ≡ true
      → i ≡ j

  -- The table after one entry was moved there.
  record IsMoved (shape t : Table K V) (key : K) (value : V) (t' : Table K V) : Type 0 where
    fresh : IsFresh shape t'
    counted : t'.occupied_count ≡ t.occupied_count + 1
    moved : Perm (entries t'.slots) ((key, value) ∷ entries t.slots)
    came :
        (j : ℕ) (k : K) (v : V)
        → slot_at t'.slots j ≡ occupied k v
        → (k ≡ key) ⊎ (slot_at t.slots j ≡ occupied k v)

  -- The fresh table after the entries of `slots` were moved to `t`.
  pub record HasMoved (shape t : Table K V) (slots : List (Slot K V)) (t' : Table K V)
      : Type 0 where
    pub fresh : IsFresh shape t'
    pub counted : t'.occupied_count ≡ t.occupied_count + weigh live slots
    pub moved : Perm (entries t'.slots) (entries slots ++ entries t.slots)
    pub absent :
        (key : K)
        → ((i : ℕ) (k : K) (v : V) → slot_at slots i ≡ occupied k v → ops.key_equal k key ≡ false)
        → IsAbsent ops key t
        → IsAbsent ops key t'

module _ {S K V : Type 0} (ops : MapOps S K V) (hooks : AreHooks ops) where
  written-IsMoved :
      (shape t : Table K V) (key : K) (value : V)
      → IsFresh ops shape t
      → IsAbsent ops key t
      → t.occupied_count + 1 < t.slot_count
      → (slots : List (Slot K V)) → Placed ops t key value slots
      → IsMoved ops shape t key value (with_slots t slots)
  written-IsMoved shape t key value f absent room slots p =
      let table = f.table in
      let lt : p.at < length t.slots = omega (arith, p.landing.in_range, table.measured) in
      let (dead, settled, kind) = free_kind (slot_at t.slots p.at) p.reused p.landing.kind in
      let graves = weigh-at grave t.slots p.at refl in
      let no_grave : t.tombstones + grave (slot_at t.slots p.at) ≡ t.tombstones =
        omega (arith, graves, table.graves, f.clean) in
      let valid =
        with_entry-IsTable ops hooks t table key value p.at lt p.landing.reached absent dead settled
          t.tombstones no_grave (omega (arith, f.clean)) in
      subst (λ ys. IsMoved ops shape t key value (with_slots t ys)) (sym p.written)
        (record {
          fresh = record { table = valid; clean = f.clean; same_count = f.same_count };
          counted = refl;
          moved = entries-put t.slots p.at key value lt dead;
          came = λ j k v e.
              elim (origin ops hooks t table key value p.at lt p.landing.reached absent dead settled
                t.tombstones no_grave (omega (arith, f.clean)) j k v e) [
                  | inl (same, ek) ↦ inl ek
                  | inr (n, old) ↦ inr old
                ];
        })

  map_place_moved-IsMoved :
      (shape t : Table K V) (key : K) (value : V)
      → IsFresh ops shape t
      → IsAbsent ops key t
      → t.occupied_count + 1 < t.slot_count
      → Returns (map_place_moved ops t key value) (IsMoved ops shape t key value)
  unfolding map_place_moved
  map_place_moved-IsMoved shape t key value f absent room =
      Returns-bind (place_from-Placed ops t f.table key value) λ slots p.
        Returns-ok (with_slots t slots) (written-IsMoved shape t key value f absent room slots p)

  IsUnique-tail :
      (s : Slot K V) (slots : List (Slot K V)) → IsUnique ops (s ∷ slots) → IsUnique ops slots
  IsUnique-tail s slots u i j k k' v v' ei ej eq =
      suc_injective (u (suc i) (suc j) k k' v v' ei ej eq)

  pub move_entries-HasMoved :
      (shape : Table K V) (slots : List (Slot K V)) (t : Table K V)
      → IsFresh ops shape t
      → IsUnique ops slots
      → IsApart ops slots t
      → t.occupied_count + weigh live slots < t.slot_count
      → Returns (move_entries ops slots t) (HasMoved ops shape t slots)
  unfolding move_entries
  move_entries-HasMoved shape [] t f u a room =
      Returns-ok t
        (record { fresh = f; counted = omega arith; moved = Perm.rfl; absent = λ key a b. b })
  move_entries-HasMoved shape (empty ∷ slots) t f u a room =
      Returns-map
        (move_entries-HasMoved shape slots t f (IsUnique-tail empty slots u)
          (λ i j k k' v v' ei ej. a (suc i) j k k' v v' ei ej) (omega (arith, room)))
        (λ t' r. record {
          fresh = r.fresh;
          counted = omega (arith, r.counted);
          moved = r.moved;
          absent = λ key a b. r.absent key (λ i. a (suc i)) b;
        })
  move_entries-HasMoved shape (tombstone ∷ slots) t f u a room =
      Returns-map
        (move_entries-HasMoved shape slots t f (IsUnique-tail tombstone slots u)
          (λ i j k k' v v' ei ej. a (suc i) j k k' v v' ei ej) (omega (arith, room)))
        (λ t' r. record {
          fresh = r.fresh;
          counted = omega (arith, r.counted);
          moved = r.moved;
          absent = λ key a b. r.absent key (λ i. a (suc i)) b;
        })
  move_entries-HasMoved shape (value_owed w ∷ slots) t f u a room =
      Returns-map
        (move_entries-HasMoved shape slots t f (IsUnique-tail (value_owed w) slots u)
          (λ i j k k' v v' ei ej. a (suc i) j k k' v v' ei ej) (omega (arith, room)))
        (λ t' r. record {
          fresh = r.fresh;
          counted = omega (arith, r.counted);
          moved = r.moved;
          absent = λ key a b. r.absent key (λ i. a (suc i)) b;
        })
  move_entries-HasMoved shape (occupied key value ∷ slots) t f u a room =
      Returns-bind
        (map_place_moved-IsMoved shape t key value f (λ j k v e. a 0 j key k value v refl e)
          (omega arith))
        λ t' m.
          Returns-map
            (move_entries-HasMoved shape slots t' m.fresh
              (IsUnique-tail (occupied key value) slots u)
              (λ i j k k' v v' ei ej. elim (m.came j k' v' ej) [
                | inl same ↦
                    (let apart = others u i k v ei in
                      subst (λ q. ops.key_equal q k ≡ false) (sym same) apart)
                | inr old ↦ a (suc i) j k k' v v' ei old
              ])
              (omega (arith, m.counted, m.fresh.same_count, f.same_count)))
            λ t'' r. record {
              fresh = r.fresh;
              counted = omega (arith, r.counted, m.counted);
              moved = Perm.trans r.moved (
                  Perm.trans (Perm.append_left (entries slots) m.moved)
                    (perm_middle (entries slots) (entries t.slots)));
              absent = λ q a b.
                  r.absent q (λ i. a (suc i))
                    (λ j k v e. elim (m.came j k v e) [
                      | inl same ↦
                          subst (λ k'. ops.key_equal k' q ≡ false) (sym same) (a 0 key value refl)
                      | inr old ↦ b j k v old
                    ]);
            }
    where
      others :
          IsUnique ops (occupied key value ∷ slots)
          → (i : ℕ) (k : K) (v : V) → slot_at slots i ≡ occupied k v
          → ops.key_equal key k ≡ false
      others u i k v e = elim (Bool-cases (ops.key_equal key k)) [
        | inl eq ↦ absurd (zero_suc (u 0 (suc i) key k value v refl e eq))
        | inr eq ↦ eq
      ]
