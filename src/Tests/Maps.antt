-- ===== src/Tests/Maps.antt =====
-- The theorems on the hash map of runtime/container.c at concrete inputs.
use loke.Prelude.{
  ℕ, zero, suc, ◌+◌, ◌<◌, ◌≡◌, ◌≢◌, ◌⊎◌, refl, inl, inr, true, none, some, List, [], ◌∷◌, arith,
  ◌==◌,
}
use loke.Prelude.Int.{pos}
use loke.Prelude.Outcome.{ok, Returns}
use loke.Container.Memory.{Provider}
use loke.HashMap.{
  Slot, empty, tombstone, occupied, Table, HashMap, MapOps, MapWorld, slot_at, map_probe, free_from,
  map_capacity_of,
}
use loke.HashMap.Methods.{
  map_find, map_entry, map_remove, map_reserve, map_shrink, map_clear, insert_in_place, insert_key,
  publish_in_place, clone_key, is_full, map_bind, remove_at, remove_owed, owe_entry,
}
use loke.HashMap.Walk.{wrap}
use loke.HashMap.Invariant.{AreHooks, Reached, IsTable}
use loke.HashMap.Whole.{IsMap, entries_of, assoc, map_find-assoc}
use loke.HashMap.Rebuild.{Reserved, Shrunk, map_reserve-Reserved, map_shrink-Shrunk}
use loke.HashMap.Entry.{Entered, map_entry-Entered}
use loke.HashMap.Remove.{Removed, map_remove-Removed}
use loke.HashMap.Clone.{map_clone}
use loke.HashMap.Cloned.{Cloned, map_clone-Cloned}
use loke.HashMap.Scan.{walk, walk-entries}
use loke.HashMap.Clear.{Cleared, map_clear-Cleared}

-- Every block is at one address.
abbrev one_block : Provider Unit
one_block = record {
  alloc = λ s size align. (some 4096, s);
  resize = λ s ptr old_size new_size align. (some 4096, s);
  free = λ s ptr size align. s;
}

abbrev numbers : MapOps Unit ℕ ℕ
numbers = record {
  elems = record {
    elem_size = 8;
    elem_align = 8;
    elem_drop = true;
    elem_clone = none;
    zero_value = 0;
  };
  key_size = 8;
  key_align = 8;
  key_drop = true;
  key_clone = none;
  key_hash = λ k seed. k;
  key_equal = λ a b. a == b;
}

numbers-AreHooks : AreHooks numbers
numbers-AreHooks = record {
  reflexive = λ a. ground arith;
  copies = λ clone a c s e f. absurd (let bad = e in none_some bad);
  symmetric = λ a b h. ground arith;
  transitive = λ a b c h k. ground arith;
  alike = λ a b seed h. ground arith;
}
  where
    none_some : {A : Type 0} {a : A} → none ≡ some a → ⊥
    none_some e = absurd (cc)

-- 3 and 11 have one home in eight slots; 5 was removed.
abbrev slots : List (Slot ℕ ℕ)
slots = empty ∷ empty ∷ empty ∷ occupied 3 30 ∷ occupied 11 110 ∷ tombstone ∷ empty ∷ empty ∷ []

abbrev entered : List (Slot ℕ ℕ)
entered =
    empty ∷ empty ∷ empty ∷ occupied 3 30 ∷ occupied 11 110 ∷ occupied 19 0 ∷ empty ∷ empty ∷ []

abbrev removed : List (Slot ℕ ℕ)
removed = empty ∷ empty ∷ empty ∷ occupied 3 30 ∷ tombstone ∷ tombstone ∷ empty ∷ empty ∷ []

abbrev table : Table ℕ ℕ
table = record {
  slot_count = 8;
  occupied_count = 2;
  tombstones = 1;
  seed = 0;
  controls_offset = 72;
  keys_offset = 80;
  values_offset = 144;
  block_size = 208;
  block_align = 8;
  slots = slots;
}

abbrev two_entries : HashMap ℕ ℕ
two_entries = record { table = some (4096, table); len = 2; cap = 7; allocator = 1 }

abbrev world : MapWorld Unit ℕ ℕ
world = record { state = tt; counter = 0; dropped = [] }

places : (i k v : ℕ) → slot_at slots i ≡ occupied k v → ((i ≡ 3) × (k ≡ 3)) ⊎ ((i ≡ 4) × (k ≡ 11))
places zero k v e = absurd (cc)
places (suc zero) k v e = absurd (cc)
places (suc (suc zero)) k v e = absurd (cc)
places (suc (suc (suc zero))) k v e = inl (refl, cc)
places (suc (suc (suc (suc zero)))) k v e = inr (refl, cc)
places (suc (suc (suc (suc (suc zero))))) k v e = absurd (cc)
places (suc (suc (suc (suc (suc (suc zero)))))) k v e = absurd (cc)
places (suc (suc (suc (suc (suc (suc (suc zero))))))) k v e = absurd (cc)
places (suc (suc (suc (suc (suc (suc (suc (suc i)))))))) k v e = absurd (cc)

before_four : (d : ℕ) → d < 1 → slot_at slots (wrap 8 (3 + d)) ≢ empty
before_four zero h e = absurd (cc)
before_four (suc d) h e = absurd (omega arith)

reach_three : Reached numbers table 3 3
reach_three = record {
  steps = 0;
  few = omega arith;
  there = refl;
  passed = λ d h. absurd (omega arith);
}

reach_four : Reached numbers table 11 4
reach_four = record { steps = 1; few = omega arith; there = refl; passed = before_four }

table-IsTable : IsTable numbers table
table-IsTable = record {
  power = (3, refl);
  measured = refl;
  counted = refl;
  graves = refl;
  settled = refl;
  room = omega arith;
  reach = λ i k v e. elim (places i k v e) [
    | inl (ei, ek) ↦ rw (ei, ek) reach_three
    | inr (ei, ek) ↦ rw (ei, ek) reach_four
  ];
  unique = λ i j k k' v v' e e' eq. apart i j k k' (places i k v e) (places j k' v' e') eq;
}
  where
    apart :
        (i j k k' : ℕ)
        → ((i ≡ 3) × (k ≡ 3)) ⊎ ((i ≡ 4) × (k ≡ 11))
        → ((j ≡ 3) × (k' ≡ 3)) ⊎ ((j ≡ 4) × (k' ≡ 11))
        → (k == k') ≡ true
        → i ≡ j
    apart i j k k' p q eq = ground arith

two_entries-IsMap : IsMap numbers two_entries
unfolding map_capacity_of
two_entries-IsMap = record {
  table = table-IsTable;
  least = omega arith;
  counted = refl;
  capacity = refl;
}

-- 19 goes to the tombstone that its walk from slot 3 passes.
entry_runs :
    map_entry 1 one_block numbers two_entries 19 world
    ≡ ok (
      some 5,
      true,
      record two_entries {
        table = some (4096, record table { slots = entered; occupied_count = 3; tombstones = 0 });
        len = 3;
      },
      world,
    )
unfolding map_entry map_probe insert_in_place insert_key publish_in_place free_from clone_key
    is_full map_capacity_of map_bind
entry_runs = refl

remove_runs : map_remove 1 one_block numbers two_entries 11 world ≡ (
  true,
  110,
  record two_entries {
    table = some (4096, record table { slots = removed; occupied_count = 1; tombstones = 2 });
    len = 1;
  },
  record world { dropped = inl 11 ∷ [] },
)
unfolding map_remove map_probe remove_at remove_owed owe_entry
remove_runs = refl

map_find-assoc_example :
    map_find 1 one_block numbers two_entries 11
    ≡ assoc numbers.key_equal (entries_of two_entries.table) 11
map_find-assoc_example =
    map_find-assoc numbers numbers-AreHooks 1 one_block two_entries 11 two_entries-IsMap

map_entry-Entered_example :
    Returns (map_entry 1 one_block numbers two_entries 19 world) (Entered numbers two_entries 19)
map_entry-Entered_example =
    map_entry-Entered 1 one_block numbers numbers-AreHooks two_entries 19 world two_entries-IsMap

map_remove-Removed_example :
    Removed numbers two_entries 11 (map_remove 1 one_block numbers two_entries 11 world)
map_remove-Removed_example =
    map_remove-Removed 1 one_block numbers numbers-AreHooks two_entries 11 world two_entries-IsMap

map_reserve-Reserved_example :
    Returns
      (map_reserve 1 one_block numbers two_entries (pos 9) world)
      (Reserved 1 one_block numbers numbers-AreHooks two_entries 9)
map_reserve-Reserved_example =
    map_reserve-Reserved 1 one_block numbers numbers-AreHooks two_entries 9 world two_entries-IsMap

map_shrink-Shrunk_example :
    Returns
      (map_shrink 1 one_block numbers two_entries (pos 0) world)
      (Shrunk 1 one_block numbers numbers-AreHooks two_entries)
map_shrink-Shrunk_example =
    map_shrink-Shrunk 1 one_block numbers numbers-AreHooks two_entries 0 world two_entries-IsMap

map_clear-Cleared_example :
    Cleared 1 one_block numbers two_entries world (map_clear 1 one_block numbers two_entries world)
map_clear-Cleared_example =
    map_clear-Cleared 1 one_block numbers two_entries world two_entries-IsMap

walk-entries_example : walk 9 (4096, table) 0 ≡ (3, 30) ∷ (11, 110) ∷ []
walk-entries_example = walk-entries 4096 table

map_clone-Cloned_example :
    Cloned 1 one_block numbers numbers-AreHooks two_entries 7 world
      (map_clone 1 one_block numbers two_entries 7 world)
map_clone-Cloned_example =
    map_clone-Cloned 1 one_block numbers numbers-AreHooks two_entries 7 world two_entries-IsMap
