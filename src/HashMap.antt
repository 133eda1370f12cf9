-- ===== src/HashMap.antt =====
-- runtime/container.c: `loke_rt_map_v1`, its table, and the functions on one table.
-- The control byte, the key and the value of an index are one slot. A key or value that no live
-- entry owns is not kept. A loop that is still running when its fuel is spent is `overrun`.
pub mod Methods
pub mod Walk
pub mod Slots
pub mod Invariant
pub mod Probing
pub mod Placing
pub mod Moving
pub mod Sizes
pub mod Whole
pub mod Rebuild
pub mod Keying
pub mod Entry
pub mod Remove
pub mod Scan
pub mod Clear
pub mod Clone
pub mod Twins
pub mod Cloned
use loke.Prelude.{
  ℕ, zero, suc, ◌+◌, ◌-◌, ◌*◌, ◌/◌, ◌%◌, ◌^◌, bit_and, bit_xor, Bool, true, false, ◌⊎◌, ◌||◌,
  Option, none, some, List, [], ◌∷◌, ltb, leb, ◌==◌, if◌then◌else◌, get_or, set,
}
use mathlib.Core.Option
use loke.Prelude.Int.{pos}
use loke.Prelude.Align.{word}
use loke.Prelude.Outcome.{Outcome, ok, overrun, ◌>>=◌}
use loke.Container.Checked.{int64_max, uint64_max, checked_bytes, sane_align, checked_round_up}
use loke.Container.Memory.{Ops}

-- `LOKE_RT_MAP_EMPTY` to `LOKE_RT_MAP_VALUE_OWED`, with what the slot still owns.
pub data Slot (K V : Type 0) : Type 0 where
  empty : Slot K V
  tombstone : Slot K V
  occupied : K → V → Slot K V
  value_owed : V → Slot K V

-- `loke_rt_map_table_v1` and the slots of its block.
pub record Table (K V : Type 0) : Type 0 where
  pub slot_count : ℕ
  pub occupied_count : ℕ
  pub tombstones : ℕ
  pub seed : ℕ
  pub controls_offset : ℕ
  pub keys_offset : ℕ
  pub values_offset : ℕ
  pub block_size : ℕ
  pub block_align : ℕ
  pub slots : List (Slot K V)

-- `loke_rt_map_v1`. `table` is `none` for NULL, and else the address of the block beside its
-- contents; `allocator` 0 is an unbound map.
pub record HashMap (K V : Type 0) : Type 0 where
  pub table : Option (ℕ × Table K V)
  pub len : ℕ
  pub cap : ℕ
  pub allocator : ℕ

-- `loke_rt_container_ops_v1` of a map. `key_drop` says whether there is a hook; `key_clone` is
-- `none` for NULL, and a clone that fails answers `none`.
pub record MapOps (S K V : Type 0) : Type 0 where
  pub elems : Ops S V
  pub key_size : ℕ
  pub key_align : ℕ
  pub key_drop : Bool
  pub key_clone : Option (K → S → Option K × S)
  pub key_hash : K → (seed : ℕ) → ℕ
  pub key_equal : K → K → Bool

-- The provider's state, the counter of `map_next_seed`, and what the drop hooks have been called on.
pub record MapWorld (S K V : Type 0) : Type 0 where
  pub state : S
  pub counter : ℕ
  pub dropped : List (K ⊎ V)

abbrev pub seed_step : ℕ
seed_step = 0x9e3779b97f4a7c15

-- The seed, from the value that the atomic addition fetched and the address of the block.
pub map_next_seed : (counter block : ℕ) → ℕ
map_next_seed counter block =
    let x₀ = (counter + block) % word in
    let x₁ = bit_xor x₀ (x₀ / 2 ^ 30) * 0xbf58476d1ce4e5b9 % word in
    let x₂ = bit_xor x₁ (x₁ / 2 ^ 27) * 0x94d049bb133111eb % word in bit_xor x₂ (x₂ / 2 ^ 31)

unfoldable pub map_capacity_of : ℕ → ℕ
map_capacity_of slot_count = slot_count - slot_count / 8

-- The loop of `map_slots_for`, at `slots`.
unfoldable pub slots_from : (fuel min_capacity slots : ℕ) → Option ℕ
unfolding map_capacity_of
slots_from zero min_capacity slots = none
slots_from (suc fuel) min_capacity slots =
    let rest = slots_from fuel min_capacity (slots * 2) in
    if ltb (map_capacity_of slots) min_capacity
    then (if ltb (int64_max / 2) slots then none else rest)
    else some slots

unfoldable pub map_slots_for : ℕ → Option ℕ
unfolding slots_from
map_slots_for min_capacity = slots_from 64 min_capacity 8

-- The `while` of `map_entry` that keeps half of the slots free.
unfoldable pub half_free : (fuel len slots : ℕ) → Option ℕ
half_free zero len slots = none
half_free (suc fuel) len slots =
    let rest = half_free fuel len (slots * 2) in
    if leb (slots / 2) len then (if ltb (int64_max / 2) slots then none else rest) else some slots

-- `loke_rt_map_table_v1` is nine fields of eight bytes.
abbrev pub table_size : ℕ
table_size = 72

-- An array of `slots` elements behind the cursor: the cursor behind it.
unfoldable pub array_end : (cursor slots size : ℕ) → Option ℕ
unfolding checked_bytes
array_end cursor slots size = elim (checked_bytes (pos slots) size) [
  | none ↦ none
  | some bytes ↦ if ltb (uint64_max - cursor) bytes then none else some (cursor + bytes)
]

module _ {S K V : Type 0} (ops : MapOps S K V) where
  unfoldable pub map_align : ℕ
  unfolding sane_align
  map_align =
      let key = sane_align ops.key_align in
      let elem = sane_align ops.elems.elem_align in
      let align = if ltb key elem then elem else key in if ltb align 8 then 8 else align

  -- A table with no block behind it yet.
  unfoldable pub map_block_shape : (slots : ℕ) → Option (Table K V)
  unfolding checked_round_up array_end map_align
  map_block_shape slots = Option.bind (checked_round_up table_size 8) λ controls.
      Option.bind (array_end controls slots 1) λ past_controls.
        Option.bind (checked_round_up past_controls ops.key_align) λ keys.
          Option.bind (array_end keys slots ops.key_size) λ past_keys.
            Option.bind (checked_round_up past_keys ops.elems.elem_align) λ values.
              Option.bind (array_end values slots ops.elems.elem_size) λ past_values.
                Option.bind (checked_round_up past_values map_align) λ block_size. some (record {
                  slot_count = slots;
                  occupied_count = 0;
                  tombstones = 0;
                  seed = 0;
                  controls_offset = controls;
                  keys_offset = keys;
                  values_offset = values;
                  block_size = block_size;
                  block_align = map_align;
                  slots = [];
                })

module _ {K V : Type 0} where
  abbrev pub slot_at : List (Slot K V) → ℕ → Slot K V
  slot_at slots index = get_or slots index empty

  -- The loop of `map_place_moved`.
  unfoldable pub place_from :
      (fuel mask index : ℕ) → K → V → List (Slot K V) → Outcome (List (Slot K V))
  place_from zero mask index key value slots = overrun
  place_from (suc fuel) mask index key value slots = elim (slot_at slots index) [
    | occupied _ _ ↦ place_from fuel mask (bit_and (index + 1) mask) key value slots
    | _ ↦ ok (set slots index (occupied key value))
  ]

  -- One round of the loop of `map_probe`; `rest` is what the further rounds answer.
  unfoldable pub probe_slot :
      (K → K → Bool) → (key : K) → (index : ℕ) → (rest : Option ℕ) → Slot K V → Option ℕ
  probe_slot key_equal key index rest empty = none
  probe_slot key_equal key index rest (occupied stored value) =
      if key_equal stored key then some index else rest
  probe_slot key_equal key index rest tombstone = rest
  probe_slot key_equal key index rest (value_owed value) = rest

  -- The loop of `map_probe`, with the probes that are left.
  unfoldable pub probe_from :
      (K → K → Bool) → (probes mask index : ℕ) → (key : K) → List (Slot K V) → Option ℕ
  unfolding probe_slot
  probe_from key_equal zero mask index key slots = none
  probe_from key_equal (suc probes) mask index key slots =
      let rest = probe_from key_equal probes mask (bit_and (index + 1) mask) key slots in
      probe_slot key_equal key index rest (slot_at slots index)

  -- The loop of `map_entry` for a slot to write: the first tombstone that was passed, or the slot
  -- where it stopped, and whether it is a tombstone that is used again.
  unfoldable pub free_from :
      (fuel mask index : ℕ) → (first_free : Option ℕ) → List (Slot K V) → Outcome (Bool × ℕ)
  free_from zero mask index first_free slots = overrun
  free_from (suc fuel) mask index first_free slots = elim (slot_at slots index) [
    | occupied _ _ ↦ free_from fuel mask (bit_and (index + 1) mask) first_free slots
    | tombstone ↦ elim first_free [
      | none ↦ free_from fuel mask (bit_and (index + 1) mask) (some index) slots
      | some first ↦ ok (true, first)
    ]
    | _ ↦ elim first_free [ none ↦ ok (false, index) | some first ↦ ok (true, first) ]
  ]

module _ {S K V : Type 0} (ops : MapOps S K V) where
  unfoldable pub map_place_moved : Table K V → K → V → Outcome (Table K V)
  unfolding place_from
  map_place_moved dst key value =
      let mask = dst.slot_count - 1 in
      let index = bit_and (ops.key_hash key dst.seed) mask in
      place_from dst.slot_count mask index key value dst.slots >>= λ slots.
      ok (record dst { slots = slots; occupied_count = dst.occupied_count + 1 })

  -- The loop that moves the entries of a table to a fresh one.
  unfoldable pub move_entries : List (Slot K V) → Table K V → Outcome (Table K V)
  unfolding map_place_moved
  move_entries [] dst = ok dst
  move_entries (occupied key value ∷ slots) dst =
      map_place_moved dst key value >>= λ t. move_entries slots t
  move_entries (empty ∷ slots) dst = move_entries slots dst
  move_entries (tombstone ∷ slots) dst = move_entries slots dst
  move_entries (value_owed value ∷ slots) dst = move_entries slots dst

  -- The slot of a key; `none` is -1.
  unfoldable pub map_probe : Table K V → K → Option ℕ
  unfolding probe_from
  map_probe t key =
      let mask = t.slot_count - 1 in
      let index = bit_and (ops.key_hash key t.seed) mask in
      probe_from ops.key_equal t.slot_count mask index key t.slots
