-- ===== src/HashMap/Methods.antt =====
-- runtime/container.c: the operations of `loke_rt_map_v1`. A hook that is called returns here.
use loke.Prelude.{
  ℕ, zero, suc, ◌+◌, ◌-◌, bit_and, Bool, true, false, inl, inr, ◌||◌, ◌&&◌, Option, none, some,
  List, [], ◌∷◌, ◌++◌, ltb, leb, ◌==◌, if◌then◌else◌, set, replicate, drop,
}
use mathlib.Core.Option
use loke.Prelude.Align.{add64}
use loke.Prelude.Int.{ℤ, pos, negsuc}
use loke.Prelude.Outcome.{Outcome, ok, panic, ◌>>=◌}
use loke.Container.Memory.{Provider}
use loke.HashMap.{
  Slot, empty, tombstone, occupied, value_owed, Table, HashMap, MapOps, MapWorld, seed_step,
  map_next_seed, map_capacity_of, map_slots_for, half_free, map_block_shape, slot_at, free_from,
  move_entries, map_probe,
}

module _ {S K V : Type 0} (selected : ℕ) (p : Provider S) (ops : MapOps S K V) where
  abbrev pub W : Type 0
  W = MapWorld S K V

  -- `memset(self, 0, sizeof *self)`
  unfoldable pub inert_map : HashMap K V
  inert_map = record { table = none; len = 0; cap = 0; allocator = 0 }

  unfoldable pub map_bind : HashMap K V → HashMap K V
  map_bind self = if self.allocator == 0 then record self { allocator = selected } else self

  unfoldable pub map_free_block : (ℕ × Table K V) → W → W
  map_free_block (addr, t) w = record w { state = p.free w.state addr t.block_size t.block_align }

  -- What `map_reserve`, `map_entry` and `map_shrink` do to get an empty table of `slots` slots.
  unfoldable pub fresh_table : (slots : ℕ) → W → Option (ℕ × Table K V) × W
  unfolding map_block_shape
  fresh_table slots w = elim (map_block_shape ops slots) [
    | none ↦ (none, w)
    | some shape ↦
        let (block, state) = p.alloc w.state shape.block_size shape.block_align in
        elim block [
          | none ↦ (none, record w { state = state })
          | some addr ↦ (
            some (
              addr,
              record shape { seed = map_next_seed w.counter addr; slots = replicate slots empty },
            ),
            record w { state = state; counter = add64 w.counter seed_step },
          )
        ]
  ]

  -- The entries of the table that there is, moved to the fresh one.
  unfoldable pub moved_from : Option (ℕ × Table K V) → Table K V → Outcome (Table K V)
  unfolding move_entries
  moved_from none fresh = ok fresh
  moved_from (some (addr, old)) fresh = move_entries ops old.slots fresh

  unfoldable pub free_old : Option (ℕ × Table K V) → W → W
  unfolding map_free_block
  free_old none w = w
  free_old (some block) w = map_free_block block w

  -- What `map_reserve` and `map_shrink` end with: a fresh table of `slots` slots takes over.
  unfoldable pub take_over :
      HashMap K V → (slots : ℕ) → Option (ℕ × Table K V) × W → Outcome (Bool × HashMap K V × W)
  unfolding moved_from free_old map_capacity_of
  take_over self slots (none, w) = ok (false, self, w)
  take_over self slots (some (addr, t), w) = moved_from self.table t >>= λ t₁. ok (
    true,
    record self { table = some (addr, t₁); cap = map_capacity_of slots },
    free_old self.table w,
  )

  unfoldable pub rebuild : HashMap K V → (slots : ℕ) → W → Outcome (Bool × HashMap K V × W)
  unfolding fresh_table take_over
  rebuild self slots w = take_over self slots (fresh_table slots w)

  abbrev pub has_table : Option (ℕ × Table K V) → Bool
  has_table none = false
  has_table (some _) = true

  -- `map_reserve` once the map is bound.
  unfoldable pub reserve_bound :
      HashMap K V → (min_capacity : ℕ) → W → Outcome (Bool × HashMap K V × W)
  reserve_bound self min_capacity w =
      if leb min_capacity self.cap && (has_table self.table || min_capacity == 0)
      then ok (true, self, w)
      else (let want = if ltb min_capacity self.len then self.len else min_capacity in
          elim (map_slots_for want) [
            | none ↦ ok (false, self, w)
            | some slots ↦ rebuild self slots w
          ])

  unfoldable pub map_reserve : HashMap K V → ℤ → W → Outcome (Bool × HashMap K V × W)
  map_reserve self (negsuc n) w = panic
  map_reserve self (pos min_capacity) w = reserve_bound (map_bind self) min_capacity w

  -- The two halves of `map_drop_entry`: the entry leaves the table before its key's hook runs, and
  -- gives up its value before that one's hook runs. The count is the map's `len`.
  unfoldable pub owe_entry : (slot : ℕ) → ℕ × Table K V × W → ℕ × Table K V × W
  owe_entry slot (len, t, w) = elim (slot_at t.slots slot) [
    | occupied key value ↦ (
      len - 1,
      record t {
        slots = set t.slots slot (value_owed value);
        occupied_count = t.occupied_count - 1;
        tombstones = t.tombstones + 1;
      },
      if ops.key_drop then record w { dropped = w.dropped ++ (inl key ∷ []) } else w,
    )
    | _ ↦ (len, t, w)
  ]

  unfoldable pub settle_entry : (slot : ℕ) → ℕ × Table K V × W → ℕ × Table K V × W
  settle_entry slot (len, t, w) = elim (slot_at t.slots slot) [
    | value_owed value ↦ (
      len,
      record t { slots = set t.slots slot tombstone },
      if ops.elems.elem_drop then record w { dropped = w.dropped ++ (inr value ∷ []) } else w,
    )
    | _ ↦ (len, t, w)
  ]

  unfoldable pub map_drop_entry : (slot : ℕ) → ℕ × Table K V × W → ℕ × Table K V × W
  unfolding owe_entry settle_entry
  map_drop_entry slot s = settle_entry slot (owe_entry slot s)

  -- The loop over the slots of `map_drop` and `map_clear`, with the rounds that are left.
  unfoldable pub drop_entries : (rounds slot : ℕ) → ℕ × Table K V × W → ℕ × Table K V × W
  unfolding map_drop_entry
  drop_entries zero slot s = s
  drop_entries (suc rounds) slot s = drop_entries rounds (slot + 1) (map_drop_entry slot s)

  unfoldable pub map_drop : HashMap K V → W → HashMap K V × W
  unfolding inert_map drop_entries map_free_block
  map_drop self w = elim self.table [
    | none ↦ (inert_map, w)
    | some (addr, t) ↦
        let (len, t₁, w₁) =
          if ops.key_drop || ops.elems.elem_drop
          then drop_entries t.slot_count 0 (self.len, t, w)
          else (self.len, t, w) in
        (inert_map, map_free_block (addr, t₁) w₁)
  ]

  unfoldable pub map_clear : HashMap K V → W → HashMap K V × W
  unfolding drop_entries
  map_clear self w = elim self.table [
    | none ↦ (self, w)
    | some (addr, t) ↦
        let (len, t₁, w₁) = drop_entries t.slot_count 0 (self.len, t, w) in
        (
          record self {
            table = some (
              addr,
              record t₁ {
                slots = replicate t.slot_count empty;
                occupied_count = 0;
                tombstones = 0;
              },
            );
            len = 0;
          },
          w₁,
        )
  ]

  -- `map_find` where there is a table.
  unfoldable pub find_in : (len : ℕ) → Table K V → K → Option V
  unfolding map_probe
  find_in len t key = if len == 0 then none else elim (map_probe ops t key) [
    | none ↦ none
    | some slot ↦ elim (slot_at t.slots slot) [ occupied _ value ↦ some value | _ ↦ none ]
  ]

  -- The value behind the pointer that `map_find` answers.
  unfoldable pub map_find : HashMap K V → K → Option V
  unfolding find_in
  map_find self key = elim self.table [ none ↦ none | some (addr, t) ↦ find_in self.len t key ]

  -- Whether `map_entry` has to rebuild before it inserts.
  unfoldable pub is_full : HashMap K V → Bool
  is_full self = elim self.table [
    | none ↦ true
    | some (addr, t) ↦
        ltb self.cap (self.len + 1)
        || ltb (map_capacity_of t.slot_count) (t.occupied_count + t.tombstones + 1)
  ]

  -- The slots of the rebuilt table: never fewer than there are, and half of them free.
  unfoldable pub entry_slots : HashMap K V → Option ℕ
  entry_slots self = Option.bind (map_slots_for (self.len + 1)) λ slots.
      let least : ℕ = elim self.table [
        | none ↦ slots
        | some (addr, old) ↦ if ltb slots old.slot_count then old.slot_count else slots
      ] in
      half_free 64 self.len least

  unfoldable pub clone_key : K → W → Option K × W
  clone_key key w = elim ops.key_clone [
    | none ↦ (some key, w)
    | some clone ↦ let (copy, state) = clone key w.state in (copy, record w { state = state })
  ]

  -- The end of `map_entry`, on the table that takes the entry: `none` if the key's clone failed, and
  -- else the slot and the table with the entry.
  unfoldable pub insert_key : Table K V → K → W → Outcome (Option (ℕ × Table K V) × W)
  insert_key t key w =
      let mask = t.slot_count - 1 in
      let home = bit_and (ops.key_hash key t.seed) mask in
      free_from t.slot_count mask home none t.slots >>= λ (reused, index).
      let (copy, w₁) = clone_key key w in
      elim copy [
        | none ↦ ok (none, w₁)
        | some stored ↦ ok (
          some (
            index,
            record t {
              slots = set t.slots index (occupied stored ops.elems.zero_value);
              tombstones = if reused then t.tombstones - 1 else t.tombstones;
              occupied_count = t.occupied_count + 1;
            },
          ),
          w₁,
        )
      ]

  -- The answer of `map_entry`: the slot of the value, `none` for NULL, and `inserted`.
  abbrev pub Entry : Type 0
  Entry = Option ℕ × Bool × HashMap K V × W

  -- The entry goes into the table that the map has.
  unfoldable pub publish_in_place :
      HashMap K V → (addr : ℕ) → Option (ℕ × Table K V) × W → Outcome Entry
  unfolding map_bind
  publish_in_place self addr (none, w) = ok (none, false, self, w)
  publish_in_place self addr (some (slot, t), w) =
      ok (some slot, true, record (map_bind self) { table = some (addr, t); len = self.len + 1 }, w)

  unfoldable pub insert_in_place : HashMap K V → (ℕ × Table K V) → K → W → Outcome Entry
  insert_in_place self (addr, t) key w =
      insert_key t key w >>= λ placed. publish_in_place self addr placed

  -- The entry goes into a fresh table, which then takes over.
  unfoldable pub publish_fresh :
      HashMap K V → (ℕ × Table K V) → Option (ℕ × Table K V) × W → Outcome Entry
  unfolding map_bind map_free_block free_old map_capacity_of
  publish_fresh self fresh (none, w) = ok (none, false, self, map_free_block fresh w)
  publish_fresh self (addr, t₁) (some (slot, t₂), w) = ok (
    some slot,
    true,
    record (map_bind self) {
      table = some (addr, t₂);
      len = self.len + 1;
      cap = map_capacity_of t₂.slot_count;
    },
    free_old self.table w,
  )

  unfoldable pub insert_fresh : HashMap K V → K → Option (ℕ × Table K V) × W → Outcome Entry
  insert_fresh self key (none, w) = ok (none, false, self, w)
  insert_fresh self key (some (addr, t), w) = moved_from self.table t >>= λ t₁.
      insert_key t₁ key w >>= λ placed. publish_fresh self (addr, t₁) placed

  unfoldable pub insert_rebuilt : HashMap K V → K → W → Outcome Entry
  insert_rebuilt self key w = elim (entry_slots self) [
    | none ↦ ok (none, false, self, w)
    | some slots ↦ insert_fresh self key (fresh_table slots w)
  ]

  unfoldable pub map_entry : HashMap K V → K → W → Outcome Entry
  map_entry self key w = elim self.table [
    | none ↦ insert_rebuilt self key w
    | some (addr, t) ↦ elim (map_probe ops t key) [
      | some slot ↦ ok (some slot, false, self, w)
      | none ↦
          if is_full self then insert_rebuilt self key w else insert_in_place self (addr, t) key w
    ]
  ]

  -- The end of `map_remove`, once the slot owes its value and the key's hook has returned: the answer,
  -- `out`, the map and the world.
  unfoldable pub remove_owed :
      HashMap K V → (addr slot : ℕ) → ℕ × Table K V × W → Bool × V × HashMap K V × W
  remove_owed self addr slot (len, t, w) = elim (slot_at t.slots slot) [
    | value_owed value ↦ (
      true,
      value,
      record self {
        table = some (addr, record t { slots = set t.slots slot tombstone });
        len = len;
      },
      w,
    )
    | _ ↦ (false, ops.elems.zero_value, self, w)
  ]

  unfoldable pub remove_at :
      HashMap K V → (addr : ℕ) → Table K V → (slot : ℕ) → W → Bool × V × HashMap K V × W
  remove_at self addr t slot w = remove_owed self addr slot (owe_entry slot (self.len, t, w))

  unfoldable pub map_remove : HashMap K V → K → W → Bool × V × HashMap K V × W
  map_remove self key w = elim self.table [
    | none ↦ (false, ops.elems.zero_value, self, w)
    | some (addr, t) ↦
        if self.len == 0
        then (false, ops.elems.zero_value, self, w)
        else elim (map_probe ops t key) [
          | none ↦ (false, ops.elems.zero_value, self, w)
          | some slot ↦ remove_at self addr t slot w
        ]
  ]

  -- `map_shrink` where there is a table.
  unfoldable pub shrink_table :
      HashMap K V → (old : Table K V) → (want : ℕ) → W → Outcome (Bool × HashMap K V × W)
  shrink_table self old want w = elim (map_slots_for want) [
    | none ↦ ok (false, self, w)
    | some least ↦
        let slots = if ltb old.slot_count least then old.slot_count else least in
        if slots == old.slot_count && old.tombstones == 0
        then ok (true, self, w)
        else rebuild self slots w
  ]

  unfoldable pub map_shrink : HashMap K V → ℤ → W → Outcome (Bool × HashMap K V × W)
  map_shrink self (negsuc n) w = panic
  map_shrink self (pos min_capacity) w = elim self.table [
    | none ↦ ok (true, self, w)
    | some (addr, old) ↦
        shrink_table self old (if ltb self.len min_capacity then min_capacity else self.len) w
  ]

module _ {K V : Type 0} where
  -- The loop of `map_scan`, with the slots that are left, from `slot` on.
  unfoldable pub scan_from : (slot : ℕ) → List (Slot K V) → Option (ℕ × K × V)
  scan_from slot [] = none
  scan_from slot (s ∷ slots) =
      let rest = scan_from (slot + 1) slots in
      elim s [ occupied key value ↦ some (slot + 1, key, value) | _ ↦ rest ]

  -- The answers 0 and `slot + 1`, the latter with the entry.
  unfoldable pub map_scan : Option (ℕ × Table K V) → (cursor : ℤ) → Option (ℕ × K × V)
  unfolding scan_from
  map_scan none cursor = none
  map_scan (some (addr, t)) (negsuc n) = none
  map_scan (some (addr, t)) (pos cursor) = scan_from cursor (drop cursor t.slots)
