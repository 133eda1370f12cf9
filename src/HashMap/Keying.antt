-- ===== src/HashMap/Keying.antt =====
-- runtime/container.c: the end of `map_entry`, which writes the key and the zero value to a table.
use loke.Prelude.{
  ℕ, ◌+◌, ◌-◌, ◌<◌, ◌≡◌, refl, sym, ap, ◌∙◌, inl, inr, bit_and, Bool, true, Option, none, some, ◌∷◌,
  arith, length, if◌then◌else◌, get_or-set_self, Bool-cases, Option-cases,
}
use mathlib.Core.List.{Perm}
use mathlib.Core.Path.{subst}
use loke.Prelude.Outcome.{Returns, Returns-bind, Returns-ok}
use loke.Container.Memory.{Provider}
use loke.HashMap.{empty, occupied, Table, MapOps, MapWorld, slot_at}
use loke.HashMap.Methods.{clone_key, insert_key}
use loke.HashMap.Walk.{wrap}
use loke.HashMap.Slots.{grave, weigh-at, entries, entries-put}
use loke.HashMap.Invariant.{
  AreHooks, home, Reached, IsAbsent, IsTable, with_entry, with_entry-IsTable,
}
use loke.HashMap.Placing.{Landing, free_from-Landing, free_kind}
use loke.HashMap.Sizes.{some_injective}

module _ {S K V : Type 0} (selected : ℕ) (p : Provider S) (ops : MapOps S K V)
    (hooks : AreHooks ops) where
  -- The table with an entry for the key and the zero value at `slot`.
  pub record Keyed (t : Table K V) (key : K) (slot : ℕ) (t' : Table K V) : Type 0 where
    pub stored : K
    pub equal : ops.key_equal stored key ≡ true
    pub table : IsTable ops t'
    pub here : slot_at t'.slots slot ≡ occupied stored ops.elems.zero_value
    pub added : Perm (entries t'.slots) ((stored, ops.elems.zero_value) ∷ entries t.slots)
    pub counted : t'.occupied_count ≡ t.occupied_count + 1
    pub same_count : t'.slot_count ≡ t.slot_count

  abbrev pub IsKeyed : Table K V → K → Option (ℕ × Table K V) × MapWorld S K V → Type 0
  IsKeyed t key (none, w) = Unit
  IsKeyed t key (some (slot, t'), w) = Keyed t key slot t'

  pub clone_key-equal :
      (key stored : K) (w : MapWorld S K V)
      → (clone_key selected p ops key w).0 ≡ some stored
      → ops.key_equal stored key ≡ true
  unfolding clone_key
  clone_key-equal key stored w e = elim (Option-cases ops.key_clone) [
    | inl n ↦
        let same : key ≡ stored = some_injective (rw n at e) in
        subst (λ k. ops.key_equal k key ≡ true) same (hooks.reflexive key)
    | inr (clone, c) ↦ hooks.copies clone key stored w.state c (rw c at e)
  ]

  home_alike : (t : Table K V) (a b : K) → ops.key_equal a b ≡ true → home ops t a ≡ home ops t b
  home_alike t a b e = ap (λ x. bit_and x (t.slot_count - 1)) (hooks.alike a b t.seed e)

  pub Reached-alike :
      (t : Table K V) (a b : K) (i : ℕ)
      → ops.key_equal a b ≡ true
      → Reached ops t b i
      → Reached ops t a i
  Reached-alike t a b i e r =
      let same = sym (home_alike t a b e) in
      record {
        steps = r.steps;
        few = r.few;
        there = r.there ∙ ap (λ h. wrap t.slot_count (h + r.steps)) same;
        passed = λ d hd bad.
            r.passed d hd (ap (λ h. slot_at t.slots (wrap t.slot_count (h + d))) same ∙ bad);
      }

  IsAbsent-alike :
      (t : Table K V) (a b : K) → ops.key_equal a b ≡ true → IsAbsent ops b t → IsAbsent ops a t
  IsAbsent-alike t a b e absent i k v here = elim (Bool-cases (ops.key_equal k a)) [
    | inl eq ↦ let both = hooks.transitive k a b eq e in let bad = absent i k v here in absurd (cc)
    | inr eq ↦ eq
  ]

  module _ (t : Table K V) (table : IsTable ops t) (key : K) (absent : IsAbsent ops key t)
      (room : t.occupied_count + 1 + t.tombstones < t.slot_count) where
    Keyed-at :
        (reused : Bool) (index : ℕ) (stored : K)
        → Landing ops t key (reused, index)
        → ops.key_equal stored key ≡ true
        → Keyed t key index (
            with_entry ops t index stored ops.elems.zero_value
              (if reused then t.tombstones - 1 else t.tombstones))
    Keyed-at reused index stored l equal =
        let lt : index < length t.slots = omega (arith, l.in_range, table.measured) in
        let (dead, settled, kind) = free_kind (slot_at t.slots index) reused l.kind in
        let graves = weigh-at grave t.slots index refl in
        let left : (if reused then t.tombstones - 1 else t.tombstones)
              + grave (slot_at t.slots index)
            ≡ t.tombstones =
          ground (arith, graves, table.graves, kind) in
        record {
          stored = stored;
          equal = equal;
          table =
              with_entry-IsTable ops hooks t table stored ops.elems.zero_value index lt
                (Reached-alike t stored key index equal l.reached)
                (IsAbsent-alike t stored key equal absent) dead settled
                (if reused then t.tombstones - 1 else t.tombstones) left (ground arith);
          here = get_or-set_self t.slots index (occupied stored ops.elems.zero_value) empty lt;
          added = entries-put t.slots index stored ops.elems.zero_value lt dead;
          counted = refl;
          same_count = refl;
        }

    pub insert_key-IsKeyed :
        (w : MapWorld S K V) → Returns (insert_key selected p ops t key w) (IsKeyed t key)
    unfolding insert_key
    insert_key-IsKeyed w = Returns-bind (free_from-Landing ops t table key) λ r l.
        elim (Option-cases (clone_key selected p ops key w).0) [
          | inl n ↦ rw n (Returns-ok (none, (clone_key selected p ops key w).1) tt)
          | inr (stored, e) ↦
              let k = Keyed-at r.0 r.1 stored l (clone_key-equal key stored w e) in
              rw e (
                Returns-ok
                  (
                    some (
                      r.1,
                      with_entry ops t r.1 stored ops.elems.zero_value
                          (if r.0 then t.tombstones - 1 else t.tombstones),
                    ),
                    (clone_key selected p ops key w).1,
                  )
                  k)
        ]
