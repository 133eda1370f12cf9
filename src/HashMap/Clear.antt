-- ===== src/HashMap/Clear.antt =====
-- runtime/container.c: `map_clear` on a valid map, and what the drop hooks are called on.
use loke.Prelude.{
  ℕ, zero, suc, ◌+◌, ◌-◌, ◌≤◌, ◌≡◌, refl, sym, ap, ◌∙◌, ◌⊎◌, inl, inr, Bool, true, false, Option,
  none, some, List, [], ◌∷◌, ◌++◌, append_assoc, append-nil, arith, length, if◌then◌else◌, set,
  drop, replicate, get_or-set_self,
}
use mathlib.Core.Path.{subst}
use loke.Container.Memory.{Provider}
use loke.HashMap.{
  Slot, empty, tombstone, occupied, value_owed, Table, HashMap, MapOps, MapWorld, slot_at,
  map_capacity_of,
}
use loke.HashMap.Methods.{owe_entry, settle_entry, map_drop_entry, drop_entries, map_clear}
use loke.HashMap.Slots.{entries-replicate, occupied_in_range}
use loke.HashMap.Placing.{Slot-cases}
use loke.HashMap.Sizes.{IsSize, replicate-IsFresh}
use loke.HashMap.Whole.{entries_of, Agrees, IsMap, IsHeld-IsSize}
use loke.HashMap.Scan.{drop-drop}
use loke.HashMap.Remove.{owe_entry-occupied}

module _ {K V : Type 0} where
  abbrev pub slots_of : Option (ℕ × Table K V) → List (Slot K V)
  slots_of none = []
  slots_of (some (addr, t)) = t.slots

module _ {S K V : Type 0} (ops : MapOps S K V) where
  abbrev key_hook : K → List (K ⊎ V)
  key_hook key = if ops.key_drop then inl key ∷ [] else []

  abbrev value_hook : V → List (K ⊎ V)
  value_hook value = if ops.elems.elem_drop then inr value ∷ [] else []

  -- What the hooks are called on for a slot: the key before its value.
  abbrev pub slot_drops : Slot K V → List (K ⊎ V)
  slot_drops (occupied key value) = key_hook key ++ value_hook value
  slot_drops (value_owed value) = value_hook value
  slot_drops empty = []
  slot_drops tombstone = []

  abbrev pub drops : List (Slot K V) → List (K ⊎ V)
  drops [] = []
  drops (s ∷ slots) = slot_drops s ++ drops slots

module _ {S K V : Type 0} (selected : ℕ) (p : Provider S) (ops : MapOps S K V) where
  log_key :
      (b : Bool) (key : K) (w : MapWorld S K V)
      → (if b then record w { dropped = w.dropped ++ (inl key ∷ []) } else w)
        ≡ record w { dropped = w.dropped ++ (if b then inl key ∷ [] else []) }
  log_key true key w = refl
  log_key false key w =
      ap (λ (d : List (K ⊎ V)). record w { dropped = d }) (sym (append-nil w.dropped))

  log_value :
      (b : Bool) (value : V) (w : MapWorld S K V)
      → (if b then record w { dropped = w.dropped ++ (inr value ∷ []) } else w)
        ≡ record w { dropped = w.dropped ++ (if b then inr value ∷ [] else []) }
  log_value true value w = refl
  log_value false value w =
      ap (λ (d : List (K ⊎ V)). record w { dropped = d }) (sym (append-nil w.dropped))

  -- One call of `map_drop_entry`.
  record DroppedOne (slot : ℕ) (s r : ℕ × Table K V × MapWorld S K V) : Type 0 where
    same_count : r.1.slot_count ≡ s.1.slot_count
    later : drop (slot + 1) r.1.slots ≡ drop (slot + 1) s.1.slots
    logged : r.2.dropped ≡ s.2.dropped ++ slot_drops ops (slot_at s.1.slots slot)

  drop-set :
      (slots : List (Slot K V)) (i : ℕ) (x : Slot K V)
      → drop (i + 1) (set slots i x) ≡ drop (i + 1) slots
  drop-set slots i x =
      let e : suc i ≡ i + 1 = omega arith in
      subst (λ n. drop n (set slots i x) ≡ drop n slots) e (by_suc slots i)
    where
      by_suc : (slots : List (Slot K V)) (i : ℕ) → drop (suc i) (set slots i x) ≡ drop (suc i) slots
      by_suc [] i = refl
      by_suc (y ∷ slots) zero = refl
      by_suc (y ∷ slots) (suc i) = by_suc slots i

  settle_owed :
      (slot len : ℕ) (t : Table K V) (w : MapWorld S K V) (v : V)
      → slot_at t.slots slot ≡ value_owed v
      → settle_entry selected p ops slot (len, t, w) ≡ (
        len,
        record t { slots = set t.slots slot tombstone },
        record w { dropped = w.dropped ++ value_hook ops v },
      )
  unfolding settle_entry
  settle_owed slot len t w v e = rw (e, settle_entry, log_value) refl

  owe_other :
      (slot len : ℕ) (t : Table K V) (w : MapWorld S K V) (s : Slot K V)
      → slot_at t.slots slot ≡ s
      → ((k : K) (v : V) → s ≡ occupied k v → ⊥)
      → owe_entry selected p ops slot (len, t, w) ≡ (len, t, w)
  unfolding owe_entry
  owe_other slot len t w (occupied k v) e n = absurd (n k v refl)
  owe_other slot len t w empty e n = rw (e, owe_entry) refl
  owe_other slot len t w tombstone e n = rw (e, owe_entry) refl
  owe_other slot len t w (value_owed v) e n = rw (e, owe_entry) refl

  settle_other :
      (slot len : ℕ) (t : Table K V) (w : MapWorld S K V) (s : Slot K V)
      → slot_at t.slots slot ≡ s
      → ((v : V) → s ≡ value_owed v → ⊥)
      → settle_entry selected p ops slot (len, t, w) ≡ (len, t, w)
  unfolding settle_entry
  settle_other slot len t w (value_owed v) e n = absurd (n v refl)
  settle_other slot len t w empty e n = rw (e, settle_entry) refl
  settle_other slot len t w tombstone e n = rw (e, settle_entry) refl
  settle_other slot len t w (occupied k v) e n = rw (e, settle_entry) refl

  log_append :
      (w : MapWorld S K V) (a b : List (K ⊎ V)) → (w.dropped ++ a) ++ b ≡ w.dropped ++ (a ++ b)
  log_append w a b = append_assoc w.dropped a b

  drop_occupied :
      (slot len : ℕ) (t : Table K V) (w : MapWorld S K V) (k : K) (v : V)
      → slot_at t.slots slot ≡ occupied k v
      → map_drop_entry selected p ops slot (len, t, w) ≡ (
        len - 1,
        record t {
          slots = set (set t.slots slot (value_owed v)) slot tombstone;
          occupied_count = t.occupied_count - 1;
          tombstones = t.tombstones + 1;
        },
        record w { dropped = (w.dropped ++ key_hook ops k) ++ value_hook ops v },
      )
  unfolding map_drop_entry
  drop_occupied slot len t w k v e =
      let lt = occupied_in_range t.slots slot e in
      let owing : Table K V = record t {
        slots = set t.slots slot (value_owed v);
        occupied_count = t.occupied_count - 1;
        tombstones = t.tombstones + 1;
      } in
      let there : slot_at owing.slots slot ≡ value_owed v =
        get_or-set_self t.slots slot (value_owed v) empty lt in
      let w₁ : MapWorld S K V = record w { dropped = w.dropped ++ key_hook ops k } in
      let owes : owe_entry selected p ops slot (len, t, w) ≡ (len - 1, owing, w₁) =
        owe_entry-occupied selected p ops slot len t w k v e
        ∙ ap (λ (x : MapWorld S K V). (len - 1, owing, x)) (log_key ops.key_drop k w) in
      ap (settle_entry selected p ops slot) owes ∙ settle_owed slot (len - 1) owing w₁ v there

  idle :
      (slot len : ℕ) (t : Table K V) (w : MapWorld S K V) (s : Slot K V)
      → slot_at t.slots slot ≡ s
      → ((k : K) (v : V) → s ≡ occupied k v → ⊥)
      → ((v : V) → s ≡ value_owed v → ⊥)
      → map_drop_entry selected p ops slot (len, t, w) ≡ (len, t, w)
  unfolding map_drop_entry
  idle slot len t w s e no_entry no_value =
      ap (settle_entry selected p ops slot) (owe_other slot len t w s e no_entry)
      ∙ settle_other slot len t w s e no_value

  drop_owed :
      (slot len : ℕ) (t : Table K V) (w : MapWorld S K V) (v : V)
      → slot_at t.slots slot ≡ value_owed v
      → map_drop_entry selected p ops slot (len, t, w) ≡ (
        len,
        record t { slots = set t.slots slot tombstone },
        record w { dropped = w.dropped ++ value_hook ops v },
      )
  unfolding map_drop_entry
  drop_owed slot len t w v e =
      ap (settle_entry selected p ops slot)
        (owe_other slot len t w (value_owed v) e (λ k v' bad. no_such bad))
      ∙ settle_owed slot len t w v e
    where
      no_such : {k : K} {v v' : V} → value_owed v ≡ occupied k v' → ⊥
      no_such bad = absurd (cc)

  map_drop_entry-DroppedOne :
      (slot len : ℕ) (t : Table K V) (w : MapWorld S K V)
      → DroppedOne slot (len, t, w) (map_drop_entry selected p ops slot (len, t, w))
  map_drop_entry-DroppedOne slot len t w = elim (Slot-cases (slot_at t.slots slot)) [
    | inl e ↦
        subst (DroppedOne slot (len, t, w))
          (sym (idle slot len t w empty e (λ k v bad. (cc)) (λ v bad. (cc))))
          (record {
            same_count = refl;
            later = refl;
            logged = sym (ap (λ x. w.dropped ++ slot_drops ops x) e ∙ append-nil w.dropped);
          })
    | inr (inl e) ↦
        subst (DroppedOne slot (len, t, w))
          (sym (idle slot len t w tombstone e (λ k v bad. (cc)) (λ v bad. (cc))))
          (record {
            same_count = refl;
            later = refl;
            logged = sym (ap (λ x. w.dropped ++ slot_drops ops x) e ∙ append-nil w.dropped);
          })
    | inr (inr (inl (k, v, e))) ↦
        subst (DroppedOne slot (len, t, w)) (sym (drop_occupied slot len t w k v e)) (record {
          same_count = refl;
          later =
              drop-set (set t.slots slot (value_owed v)) slot tombstone
              ∙ drop-set t.slots slot (value_owed v);
          logged =
              log_append w (key_hook ops k) (value_hook ops v)
              ∙ sym (ap (λ x. w.dropped ++ slot_drops ops x) e);
        })
    | inr (inr (inr (v, e))) ↦
        subst (DroppedOne slot (len, t, w)) (sym (drop_owed slot len t w v e)) (record {
          same_count = refl;
          later = drop-set t.slots slot tombstone;
          logged = sym (ap (λ x. w.dropped ++ slot_drops ops x) e);
        })
  ]

  -- The loop over all slots from `slot` on.
  record DroppedFrom (slot : ℕ) (s r : ℕ × Table K V × MapWorld S K V) : Type 0 where
    same_count : r.1.slot_count ≡ s.1.slot_count
    logged : r.2.dropped ≡ s.2.dropped ++ drops ops (drop slot s.1.slots)

  drop_step :
      (slots : List (Slot K V)) (slot : ℕ)
      → drops ops (drop slot slots)
        ≡ slot_drops ops (slot_at slots slot) ++ drops ops (drop (slot + 1) slots)
  drop_step [] zero = refl
  drop_step [] (suc slot) = ap (drops ops) (sym (nothing (suc slot + 1)))
    where
      nothing : (n : ℕ) → drop {A = Slot K V} n [] ≡ []
      nothing zero = refl
      nothing (suc n) = refl
  drop_step (x ∷ slots) zero = refl
  drop_step (x ∷ slots) (suc slot) =
      let e : suc (slot + 1) ≡ suc slot + 1 = omega arith in
      drop_step slots slot
      ∙ ap (λ n. slot_drops ops (slot_at slots slot) ++ drops ops (drop n (x ∷ slots))) e

  drop_end : (slots : List (Slot K V)) (n : ℕ) → length slots ≤ n → drop n slots ≡ []
  drop_end [] zero h = refl
  drop_end [] (suc n) h = refl
  drop_end (x ∷ slots) zero h = absurd (omega arith)
  drop_end (x ∷ slots) (suc n) h = drop_end slots n (omega arith)

  drop_entries-DroppedFrom :
      (rounds slot : ℕ) (s : ℕ × Table K V × MapWorld S K V)
      → drop (slot + rounds) s.1.slots ≡ []
      → DroppedFrom slot s (drop_entries selected p ops rounds slot s)
  unfolding drop_entries
  drop_entries-DroppedFrom zero slot s h = record {
    same_count = refl;
    logged = sym (
        ap (λ ss. s.2.dropped ++ drops ops ss)
          (ap (λ n. drop n s.1.slots) (let e : slot ≡ slot + 0 = omega arith in e) ∙ h)
        ∙ append-nil s.2.dropped);
  }
  drop_entries-DroppedFrom (suc rounds) slot s h =
      let r = map_drop_entry selected p ops slot s in
      let one = map_drop_entry-DroppedOne slot s.0 s.1 s.2 in
      let next : slot + 1 + rounds ≡ slot + suc rounds = omega arith in
      let covered : drop (slot + 1 + rounds) r.1.slots ≡ [] =
        sym (drop-drop rounds (slot + 1) r.1.slots)
        ∙ ap (drop rounds) one.later
        ∙ drop-drop rounds (slot + 1) s.1.slots
        ∙ ap (λ n. drop n s.1.slots) next
        ∙ h in
      let rest = drop_entries-DroppedFrom rounds (slot + 1) r covered in
      record {
        same_count = rest.same_count ∙ one.same_count;
        logged =
            rest.logged
            ∙ ap (λ d. d ++ drops ops (drop (slot + 1) r.1.slots)) one.logged
            ∙ append_assoc s.2.dropped (slot_drops ops (slot_at s.1.slots slot)) _
            ∙ ap (λ ss. s.2.dropped ++ (slot_drops ops (slot_at s.1.slots slot) ++ drops ops ss))
                one.later
            ∙ ap (λ d. s.2.dropped ++ d) (sym (drop_step s.1.slots slot));
      }

  -- What a clear leaves: an empty valid map of the same capacity, and the hooks called for every
  -- entry.
  pub record Cleared (self : HashMap K V) (w : MapWorld S K V) (r : HashMap K V × MapWorld S K V)
      : Type 0 where
    pub valid : IsMap ops r.0
    pub bare : entries_of r.0.table ≡ []
    pub no_len : r.0.len ≡ 0
    pub same_cap : r.0.cap ≡ self.cap
    pub logged : r.1.dropped ≡ w.dropped ++ drops ops (slots_of self.table)

  clear_where :
      (table : Option (ℕ × Table K V)) (len cap allocator : ℕ) (w : MapWorld S K V)
      → Agrees ops table len cap
      → let self : HashMap K V = record {
        table = table;
        len = len;
        cap = cap;
        allocator = allocator;
      } in
        Cleared self w (map_clear selected p ops self w)
  unfolding map_clear
  clear_where none len cap allocator w a = record {
    valid = a;
    bare = refl;
    no_len = a.0;
    same_cap = refl;
    logged = sym (append-nil w.dropped);
  }
  clear_where (some (addr, t)) len cap allocator w a =
      let r = drop_entries selected p ops t.slot_count 0 (len, t, w) in
      let measured = a.table.measured in
      let d =
        drop_entries-DroppedFrom t.slot_count 0 (len, t, w)
          (drop_end t.slots (0 + t.slot_count) (omega arith)) in
      let t' : Table K V = record r.1 {
        slots = replicate t.slot_count empty;
        occupied_count = 0;
        tombstones = 0;
      } in
      let size = subst IsSize (sym d.same_count) (IsHeld-IsSize ops a) in
      let fresh =
        replicate-IsFresh ops t' size (ap (λ n. replicate n empty) (sym d.same_count)) refl refl in
      record {
        valid = record {
          table = fresh.table;
          least = size.least;
          counted = refl;
          capacity = a.capacity ∙ ap map_capacity_of (sym d.same_count);
        };
        bare = entries-replicate t.slot_count;
        no_len = refl;
        same_cap = refl;
        logged = d.logged;
      }

  -- Clearing a valid map leaves a valid map of the same capacity that holds nothing. The drop hooks
  -- that there are were called for each of its entries in the order of the slots, on the key before
  -- the value, and on nothing else.
  pub map_clear-Cleared :
      (self : HashMap K V) (w : MapWorld S K V)
      → IsMap ops self
      → Cleared self w (map_clear selected p ops self w)
  map_clear-Cleared self w valid = clear_where self.table self.len self.cap self.allocator w valid
