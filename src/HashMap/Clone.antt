-- ===== src/HashMap/Clone.antt =====
-- runtime/container.c: `loke_rt_v1_map_clone`. The slots of the fresh block that the loop has passed
-- are the clone's own; the later ones still alias the source's.
use loke.Prelude.{
  ℕ, Bool, true, false, inl, inr, Option, none, some, List, [], ◌∷◌, ◌++◌, ◌==◌, if◌then◌else◌,
}
use loke.Container.Memory.{Provider}
use loke.HashMap.{Slot, empty, tombstone, occupied, value_owed, Table, HashMap, MapOps, MapWorld}
use loke.HashMap.Methods.{inert_map, map_free_block, clone_key}

module _ {S K V : Type 0} (selected : ℕ) (p : Provider S) (ops : MapOps S K V) where
  abbrev pub W : Type 0
  W = MapWorld S K V

  unfoldable pub clone_value : V → W → Option V × W
  clone_value value w = elim ops.elems.elem_clone [
    | none ↦ (some value, w)
    | some clone ↦ let (copy, state) = clone value w.state in (copy, record w { state = state })
  ]

  unfoldable pub drop_key : K → W → W
  drop_key key w = if ops.key_drop then record w { dropped = w.dropped ++ (inl key ∷ []) } else w

  -- The value of an entry whose key is cloned already; if it fails, that key is dropped.
  unfoldable pub with_value : Option K × W → V → Option (K × V) × W
  unfolding clone_value drop_key
  with_value (none, w) value = (none, w)
  with_value (some key, w) value =
      let (copy, w₁) = clone_value value w in
      elim copy [ none ↦ (none, drop_key key w₁) | some cloned ↦ (some (key, cloned), w₁) ]

  unfoldable pub clone_entry : K → V → W → Option (K × V) × W
  unfolding with_value
  clone_entry key value w = with_value (clone_key selected p ops key w) value

  -- What goes on behind a slot: the slot, in front of those that are cloned behind it.
  abbrev pub behind : Slot K V → Bool × List (Slot K V) × W → Bool × List (Slot K V) × W
  behind s (done, slots, w) = (done, s ∷ slots, w)

  -- The loop: whether it came to the end, and the slots of the clone up to where it did.
  unfoldable pub clone_slots : List (Slot K V) → W → Bool × List (Slot K V) × W
  unfolding clone_entry
  clone_slots [] w = (true, [], w)
  clone_slots (empty ∷ slots) w = behind empty (clone_slots slots w)
  clone_slots (tombstone ∷ slots) w = behind tombstone (clone_slots slots w)
  clone_slots (value_owed value ∷ slots) w = behind tombstone (clone_slots slots w)
  clone_slots (occupied key value ∷ slots) w =
      let (entry, w₁) = clone_entry key value w in
      elim entry [
        | none ↦ (false, [], w₁)
        | some (k, v) ↦ behind (occupied k v) (clone_slots slots w₁)
      ]

  -- The loop over the prefix that is cloned, where the clone fails.
  unfoldable pub drop_clones : List (Slot K V) → W → W
  unfolding drop_key
  drop_clones [] w = w
  drop_clones (occupied key value ∷ slots) w =
      let w₁ = drop_key key w in
      drop_clones slots
        (if ops.elems.elem_drop then record w₁ { dropped = w₁.dropped ++ (inr value ∷ []) } else w₁)
  drop_clones (empty ∷ slots) w = drop_clones slots w
  drop_clones (tombstone ∷ slots) w = drop_clones slots w
  drop_clones (value_owed value ∷ slots) w = drop_clones slots w

  -- `memset(out, 0, sizeof *out)`, and the allocator.
  unfoldable pub empty_clone : (a : ℕ) → HashMap K V
  unfolding inert_map
  empty_clone a = record (inert_map selected p ops) { allocator = a }

  -- What follows the loop, on the block at `addr`.
  unfoldable pub clone_ends :
      (src : HashMap K V)
      → (t : Table K V) → (a addr : ℕ) → Bool × List (Slot K V) × W
      → Bool × HashMap K V × W
  unfolding empty_clone drop_clones
  clone_ends src t a addr (true, slots, w) = (
    true,
    record {
      table = some (addr, record t { slots = slots });
      len = src.len;
      cap = src.cap;
      allocator = a;
    },
    w,
  )
  clone_ends src t a addr (false, slots, w) =
      (false, empty_clone a, map_free_block selected p ops (addr, t) (drop_clones slots w))

  -- The block for the clone of a table.
  unfoldable pub clone_table :
      (src : HashMap K V) → (t : Table K V) → (a : ℕ) → W → Bool × HashMap K V × W
  unfolding clone_ends clone_slots empty_clone
  clone_table src t a w =
      let (block, state) = p.alloc w.state t.block_size t.block_align in
      elim block [
        | none ↦ (false, empty_clone a, record w { state = state })
        | some addr ↦ clone_ends src t a addr (clone_slots t.slots (record w { state = state }))
      ]

  unfoldable pub map_clone : (src : HashMap K V) → (a : ℕ) → W → Bool × HashMap K V × W
  unfolding clone_table empty_clone
  map_clone src a w = elim src.table [
    | none ↦ (true, empty_clone a, w)
    | some (addr, t) ↦ if src.len == 0 then (true, empty_clone a, w) else clone_table src t a w
  ]
