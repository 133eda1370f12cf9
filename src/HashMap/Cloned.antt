-- ===== src/HashMap/Cloned.antt =====
-- runtime/container.c: `map_clone` of a valid map.
use loke.Prelude.{
  ℕ, ◌≡◌, refl, sym, ap, ◌∙◌, inl, inr, Bool, true, false, Option, none, some, List, [], ◌∷◌, arith,
  ◌==◌, Bool-cases, Option-cases,
}
use mathlib.Core.Path.{subst}
use loke.Container.Memory.{Provider}
use loke.HashMap.{
  Slot, empty, tombstone, occupied, value_owed, Table, HashMap, MapOps, MapWorld, slot_at,
}
use loke.HashMap.Methods.{clone_key, inert_map}
use loke.HashMap.Clone.{
  clone_value, with_value, clone_entry, clone_slots, clone_ends, clone_table, empty_clone,
  map_clone,
}
use loke.HashMap.Invariant.{AreHooks, IsTable}
use loke.HashMap.Keying.{clone_key-equal, Reached-alike}
use loke.HashMap.Whole.{IsHeld, IsMap, Agrees}
use loke.HashMap.Sizes.{some_injective}
use loke.HashMap.Twins.{
  Twin, both_empty, both_grave, settled, both_full, Twins, Twins-length, Twins-weights, Twins-at,
}

module _ {S V : Type 0} where
  -- The second value is the first, or what the clone hook made of it.
  abbrev pub IsCopyOf : Option (V → S → Option V × S) → V → V → Type 0
  IsCopyOf none v u = v ≡ u
  IsCopyOf (some clone) v u = (s : S) × ((clone v s).0 ≡ some u)

none-some : {A : Type 0} {a : A} → none ≡ some a → ⊥
none-some e = cc

module _ {S K V : Type 0} (selected : ℕ) (p : Provider S) (ops : MapOps S K V)
    (hooks : AreHooks ops) where
  -- The slots of a clone beside those of its source.
  abbrev pub AreTwins : (ours theirs : List (Slot K V)) → Type 0
  AreTwins = Twins (λ l k. ops.key_equal l k ≡ true) (IsCopyOf ops.elems.elem_clone)

  clone_key-dropped :
      (key : K) (w : MapWorld S K V) → (clone_key selected p ops key w).1.dropped ≡ w.dropped
  unfolding clone_key
  clone_key-dropped key w = elim (Option-cases ops.key_clone) [
    | inl n ↦ rw n refl
    | inr (clone, c) ↦ rw c refl
  ]

  clone_value-dropped :
      (value : V) (w : MapWorld S K V) → (clone_value selected p ops value w).1.dropped ≡ w.dropped
  unfolding clone_value
  clone_value-dropped value w = elim (Option-cases ops.elems.elem_clone) [
    | inl n ↦ rw n refl
    | inr (clone, c) ↦ rw c refl
  ]

  clone_value-IsCopyOf :
      (value u : V) (w : MapWorld S K V)
      → (clone_value selected p ops value w).0 ≡ some u
      → IsCopyOf ops.elems.elem_clone value u
  unfolding clone_value
  clone_value-IsCopyOf value u w e = elim (Option-cases ops.elems.elem_clone) [
    | inl n ↦ rw n (some_injective (rw n at e))
    | inr (clone, c) ↦ rw c (w.state, rw c at e)
  ]

  -- What an entry of the clone is, where it was made.
  record Made (key : K) (value : V) (w : MapWorld S K V) (l : K) (u : V) (w' : MapWorld S K V)
      : Type 0 where
    equal : ops.key_equal l key ≡ true
    copied : IsCopyOf ops.elems.elem_clone value u
    kept : w'.dropped ≡ w.dropped

  with_value-Made :
      (key : K) (value : V) (w : MapWorld S K V) (o : Option K × MapWorld S K V) (l : K) (u : V)
      → ((k : K) → o.0 ≡ some k → ops.key_equal k key ≡ true)
      → o.1.dropped ≡ w.dropped
      → (with_value selected p ops o value).0 ≡ some (l, u)
      → Made key value w l u (with_value selected p ops o value).1
  unfolding with_value
  with_value-Made key value w (none, w₁) l u equal kept e = absurd (none-some e)
  with_value-Made key value w (some k, w₁) l u equal kept e =
      elim (Option-cases (clone_value selected p ops value w₁).0) [
        | inl n ↦ absurd (none-some (rw (with_value, n) at e))
        | inr (v, c) ↦
            let same : (k, v) ≡ (l, u) = some_injective (rw (with_value, c) at e) in
            let copy = clone_value-IsCopyOf value v w₁ c in
            rw (with_value, c)
              (record {
                equal = subst (λ x. ops.key_equal x key ≡ true) (ap (λ x. x.0) same) (equal k refl);
                copied =
                    subst (λ x. IsCopyOf ops.elems.elem_clone value x) (ap (λ x. x.1) same) copy;
                kept = clone_value-dropped value w₁ ∙ kept;
              })
      ]

  clone_entry-Made :
      (key : K) (value : V) (w : MapWorld S K V) (l : K) (u : V)
      → (clone_entry selected p ops key value w).0 ≡ some (l, u)
      → Made key value w l u (clone_entry selected p ops key value w).1
  unfolding clone_entry
  clone_entry-Made key value w l u e =
      with_value-Made key value w (clone_key selected p ops key w) l u
        (λ k c. clone_key-equal selected p ops hooks key k w c) (clone_key-dropped key w) e

  clone_slots-AreTwins :
      (slots : List (Slot K V)) (w : MapWorld S K V)
      → (clone_slots selected p ops slots w).0 ≡ true
      → AreTwins (clone_slots selected p ops slots w).1 slots
        × ((clone_slots selected p ops slots w).2.dropped ≡ w.dropped)
  unfolding clone_slots
  clone_slots-AreTwins [] w e = (tt, refl)
  clone_slots-AreTwins (empty ∷ slots) w e =
      let (h, d) = clone_slots-AreTwins slots w e in ((both_empty, h), d)
  clone_slots-AreTwins (tombstone ∷ slots) w e =
      let (h, d) = clone_slots-AreTwins slots w e in ((both_grave, h), d)
  clone_slots-AreTwins (value_owed value ∷ slots) w e =
      let (h, d) = clone_slots-AreTwins slots w e in ((settled value, h), d)
  clone_slots-AreTwins (occupied key value ∷ slots) w e =
      elim (Option-cases (clone_entry selected p ops key value w).0) [
        | inl n ↦ absurd (let bad : false ≡ true = rw (clone_slots, n) at e in cc)
        | inr ((l, u), c) ↦
            let made = clone_entry-Made key value w l u c in
            let (h, d) =
              clone_slots-AreTwins slots (clone_entry selected p ops key value w).1
                (rw (clone_slots, c) at e) in
            rw (clone_slots, c) ((both_full key l value u made.equal made.copied, h), d ∙ made.kept)
      ]

  module _ (t : Table K V) (slots : List (Slot K V)) (twins : AreTwins slots t.slots)
      (table : IsTable ops t) where
    abbrev twin_table : Table K V
    twin_table = record t { slots = slots }

    -- The entry of the source at the slot where the clone has one.
    record Origin (i : ℕ) (l : K) : Type 0 where
      key : K
      value : V
      here : slot_at t.slots i ≡ occupied key value
      equal : ops.key_equal l key ≡ true

    Twin-Origin :
        (i : ℕ) (x y : Slot K V) (l : K) (u : V)
        → Twin (λ l k. ops.key_equal l k ≡ true) (IsCopyOf ops.elems.elem_clone) x y
        → slot_at t.slots i ≡ y
        → x ≡ occupied l u
        → Origin i l
    Twin-Origin i _ _ l u both_empty at e = absurd (cc)
    Twin-Origin i _ _ l u both_grave at e = absurd (cc)
    Twin-Origin i _ _ l u (settled v) at e = absurd (cc)
    Twin-Origin i _ _ l u (both_full k l₀ v u₀ equal copied) at e = record {
      key = k;
      value = v;
      here = at;
      equal = let same : l₀ ≡ l = cc in subst (λ x. ops.key_equal x k ≡ true) same equal;
    }

    origin : (i : ℕ) (l : K) (u : V) → slot_at slots i ≡ occupied l u → Origin i l
    origin i l u e =
        Twin-Origin i (slot_at slots i) (slot_at t.slots i) l u (Twins-at _ _ slots t.slots twins i)
          refl e

    Twin-empty :
        (x y : Slot K V)
        → Twin (λ l k. ops.key_equal l k ≡ true) (IsCopyOf ops.elems.elem_clone) x y
        → x ≡ empty
        → y ≡ empty
    Twin-empty _ _ both_empty e = refl
    Twin-empty _ _ both_grave e = absurd (cc)
    Twin-empty _ _ (settled v) e = absurd (cc)
    Twin-empty _ _ (both_full k l v u equal copied) e = absurd (cc)

    -- A clone of a valid table is one.
    AreTwins-IsTable : IsTable ops twin_table
    AreTwins-IsTable =
        let (lives, graves, owes) = Twins-weights _ _ slots t.slots twins in
        record {
          power = table.power;
          measured = Twins-length _ _ slots t.slots twins ∙ table.measured;
          counted = table.counted ∙ sym lives;
          graves = table.graves ∙ sym graves;
          settled = owes;
          room = table.room;
          reach = λ i l u e.
              let o = origin i l u e in
              let r =
                Reached-alike selected p ops hooks t l o.key i o.equal
                  (table.reach i o.key o.value o.here) in
              record {
                steps = r.steps;
                few = r.few;
                there = r.there;
                passed = λ d hd bad.
                    r.passed d hd (Twin-empty _ _ (Twins-at _ _ slots t.slots twins _) bad);
              };
          unique = λ i j l l' u u' e e' q.
              let o = origin i l u e in
              let o' = origin j l' u' e' in
              let q' = hooks.transitive o.key l l' (hooks.symmetric l o.key o.equal) q in
              table.unique i j o.key o'.key o.value o'.value o.here o'.here
                (hooks.transitive o.key l' o'.key q' o'.equal);
        }

  -- The slots of the clone of a map, beside those of the source.
  abbrev pub CopyOf : (ours theirs : Option (ℕ × Table K V)) → Type 0
  CopyOf none none = Unit
  CopyOf none (some (addr, t)) = t.occupied_count ≡ 0
  CopyOf (some (addr, t)) none = ⊥
  CopyOf (some (addr, t)) (some (addr', t')) = AreTwins t.slots t'.slots

  -- An answer of `map_clone`.
  pub record Cloned (src : HashMap K V) (a : ℕ) (w : MapWorld S K V)
      (r : Bool × HashMap K V × MapWorld S K V) : Type 0 where
    pub valid : IsMap ops r.1
    pub bound : r.1.allocator ≡ a
    pub size : r.0 ≡ true → r.1.len ≡ src.len
    pub copies : r.0 ≡ true → CopyOf r.1.table src.table
    pub kept : r.0 ≡ true → r.2.dropped ≡ w.dropped
    pub refused : r.0 ≡ false → r.1.table ≡ none

  empty-Cloned :
      (src : HashMap K V) (a : ℕ) (w w' : MapWorld S K V) (done : Bool)
      → (done ≡ true → (src.len ≡ 0) × CopyOf none src.table × (w'.dropped ≡ w.dropped))
      → Cloned src a w (done, empty_clone selected p ops a, w')
  unfolding empty_clone inert_map
  empty-Cloned src a w w' done h = record {
    valid = (refl, refl);
    bound = refl;
    size = λ e. sym (h e).0;
    copies = λ e. (h e).1;
    kept = λ e. (h e).2;
    refused = λ e. refl;
  }

  clone_ends-Cloned :
      (addr len cap al : ℕ) (t : Table K V) (a fresh : ℕ) (w : MapWorld S K V)
      (r : Bool × List (Slot K V) × MapWorld S K V)
      → IsHeld ops t len cap
      → (r.0 ≡ true → AreTwins r.1 t.slots × (r.2.dropped ≡ w.dropped))
      → (let src : HashMap K V = record {
        table = some (addr, t);
        len = len;
        cap = cap;
        allocator = al;
      } in
          Cloned src a w (clone_ends selected p ops src t a fresh r))
  unfolding clone_ends
  clone_ends-Cloned addr len cap al t a fresh w (true, slots, w') held h =
      let (twins, kept) = h refl in
      record {
        valid = record {
          table = AreTwins-IsTable t slots twins held.table;
          least = held.least;
          counted = held.counted;
          capacity = held.capacity;
        };
        bound = refl;
        size = λ e. refl;
        copies = λ e. twins;
        kept = λ e. kept;
        refused = λ e. absurd (cc);
      }
  clone_ends-Cloned addr len cap al t a fresh w (false, slots, w') held h =
      empty-Cloned _ a w _ false (λ e. absurd (cc))

  clone_where :
      (table : Option (ℕ × Table K V)) (len cap al a : ℕ) (w : MapWorld S K V)
      → Agrees ops table len cap
      → (let src : HashMap K V = record { table = table; len = len; cap = cap; allocator = al } in
          Cloned src a w (map_clone selected p ops src a w))
  unfolding map_clone clone_table
  clone_where none len cap al a w valid = empty-Cloned _ a w w true (λ e. (valid.0, tt, refl))
  clone_where (some (addr, t)) len cap al a w held = elim (Bool-cases (len == 0)) [
    | inl e ↦ rw e (
        empty-Cloned _ a w w true
          (λ d. (ground (arith, e), (let n = held.counted in ground arith), refl)))
    | inr e ↦ rw e (elim (Option-cases (p.alloc w.state t.block_size t.block_align).0) [
      | inl n ↦ rw (clone_table, n) (empty-Cloned _ a w _ false (λ d. absurd (cc)))
      | inr (fresh, f) ↦
          rw (clone_table, f)
            (clone_ends-Cloned addr len cap al t a fresh w _ held
              (λ d. clone_slots-AreTwins t.slots _ d))
    ])
  ]

  -- Where equality of keys is an equivalence, equal keys hash alike and a clone of a key is
  -- equal to it, cloning a valid map answers a valid map bound to the given allocator. Where the
  -- answer is 1 the clone has the source's length and nothing was dropped; it has an entry in
  -- the same slots as the source, with an equal key and the value or what the clone hook made of
  -- the value, or no table if the source has no entries. Where the answer is 0 it has no table.
  pub map_clone-Cloned :
      (src : HashMap K V) (a : ℕ) (w : MapWorld S K V)
      → IsMap ops src
      → Cloned src a w (map_clone selected p ops src a w)
  map_clone-Cloned src a w valid = clone_where src.table src.len src.cap src.allocator a w valid
