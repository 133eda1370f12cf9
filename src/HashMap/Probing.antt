-- ===== src/HashMap/Probing.antt =====
-- runtime/container.c: `map_probe` finds exactly the slot of an entry with an equal key, and the
-- slots where `map_remove` leaves a tombstone stay on the walks of the other keys.
use loke.Prelude.{
  ℕ, zero, suc, ◌+◌, ◌-◌, ◌≤◌, ◌<◌, ◌≡◌, ◌≢◌, refl, sym, ap, ◌∙◌, ◌⊎◌, inl, inr, bit_and, true,
  Option, some, arith, Bool-cases,
}
use mathlib.Core.Path.{subst}
use native.Mathlib.Decide.{ℕ_discrete}
use loke.HashMap.{
  Slot, empty, tombstone, occupied, value_owed, Table, MapOps, slot_at, probe_slot, probe_from,
  map_probe,
}
use loke.HashMap.Walk.{wrap, mask_lt, step_wrap}
use loke.HashMap.Invariant.{AreHooks, home, IsTable}

module _ {S K V : Type 0} (ops : MapOps S K V) where
  -- The slot holds an entry whose key is equal to `key`.
  pub record Holds (t : Table K V) (key : K) (i : ℕ) : Type 0 where
    pub stored : K
    pub value : V
    pub here : slot_at t.slots i ≡ occupied stored value
    pub equal : ops.key_equal stored key ≡ true

  slot_answers :
      (t : Table K V) (key : K) (index i : ℕ) (rest : Option ℕ) (s : Slot K V)
      → slot_at t.slots index ≡ s
      → probe_slot ops.key_equal key index rest s ≡ some i
      → Holds t key i ⊎ (rest ≡ some i)
  unfolding probe_slot
  slot_answers t key index i rest empty es e = absurd (cc)
  slot_answers t key index i rest tombstone es e = inr e
  slot_answers t key index i rest (value_owed v) es e = inr e
  slot_answers t key index i rest (occupied k v) es e = elim (Bool-cases (ops.key_equal k key)) [
    | inl eb ↦
        let same : index ≡ i = (let f = rw eb at e in cc) in
        inl (subst (Holds t key) same (record { stored = k; value = v; here = es; equal = eb }))
    | inr eb ↦ inr (rw eb at e)
  ]

  probe_answers :
      (t : Table K V) (probes mask index : ℕ) (key : K) (i : ℕ)
      → probe_from ops.key_equal probes mask index key t.slots ≡ some i
      → Holds t key i
  unfolding probe_from
  probe_answers t zero mask index key i e = absurd (cc)
  probe_answers t (suc probes) mask index key i e =
      let next = bit_and (index + 1) mask in
      let rest = probe_from ops.key_equal probes mask next key t.slots in
      let further = probe_answers t probes mask next key i in
      elim (slot_answers t key index i rest (slot_at t.slots index) refl e) [
        | inl h ↦ h
        | inr r ↦ further r
      ]

  -- What `map_probe` answers holds an entry with an equal key.
  pub map_probe-Holds :
      (t : Table K V) (key : K) (i : ℕ) → map_probe ops t key ≡ some i → Holds t key i
  unfolding map_probe
  map_probe-Holds t key i e =
      probe_answers t t.slot_count (t.slot_count - 1) (home ops t key) key i e

  -- A round at a slot that is not empty finds the entry that is looked for, or goes on.
  slot_passes :
      (t : Table K V) (table : IsTable ops t) (hooks : AreHooks ops) (key : K) (index i : ℕ)
      (rest : Option ℕ) (h : Holds t key i) (s : Slot K V)
      → slot_at t.slots index ≡ s
      → s ≢ empty
      → rest ≡ some i
      → probe_slot ops.key_equal key index rest s ≡ some i
  unfolding probe_slot
  slot_passes t table hooks key index i rest h empty es full e = absurd (full refl)
  slot_passes t table hooks key index i rest h tombstone es full e = e
  slot_passes t table hooks key index i rest h (value_owed v) es full e = e
  slot_passes t table hooks key index i rest h (occupied k v) es full e =
      elim (Bool-cases (ops.key_equal k key)) [
        | inl eb ↦
            let equal = hooks.transitive k key h.stored eb (hooks.symmetric h.stored key h.equal) in
            rw eb (ap some (table.unique index i k h.stored v h.value es h.here equal))
        | inr eb ↦ rw eb e
      ]

  module _ (t : Table K V) (table : IsTable ops t) (hooks : AreHooks ops) (key : K) (i : ℕ)
      (h : Holds t key i) where
    found :
        (probes e steps : ℕ)
        → e ≤ steps
        → steps < t.slot_count
        → e + probes ≡ t.slot_count
        → i ≡ wrap t.slot_count (home ops t key + steps)
        → ((d : ℕ) → d < steps → slot_at t.slots (wrap t.slot_count (home ops t key + d)) ≢ empty)
        → probe_from ops.key_equal probes
            (t.slot_count - 1)
            (wrap t.slot_count (home ops t key + e))
            key
            t.slots
          ≡ some i
    unfolding probe_from probe_slot
    found zero e steps he hs hf there passed = absurd (omega arith)
    found (suc probes) e steps he hs hf there passed = elim (ℕ_discrete e steps) [
      | yes same ↦
          let at_e : wrap t.slot_count (home ops t key + e) ≡ i =
            ap (λ d. wrap t.slot_count (home ops t key + d)) same ∙ sym there in
          let here : slot_at t.slots (wrap t.slot_count (home ops t key + e))
              ≡ occupied h.stored h.value =
            ap (λ m. slot_at t.slots m) at_e ∙ h.here in
          let equal = h.equal in rw (here, equal) (ap some at_e)
      | no n ↦
          let x = home ops t key + e in
          let next : bit_and (wrap t.slot_count x + 1) (t.slot_count - 1)
              ≡ wrap t.slot_count (home ops t key + (e + 1)) =
            step_wrap table.power x (omega (arith, mask_lt table.power (ops.key_hash key t.seed)))
            ∙ ap (wrap t.slot_count) (omega arith) in
          let ih = found probes (e + 1) steps (omega arith) hs (omega arith) there passed in
          let rest =
            ap (λ m. probe_from ops.key_equal probes (t.slot_count - 1) m key t.slots) next ∙ ih in
          slot_passes t table hooks key (wrap t.slot_count x) i _ h
            (slot_at t.slots (wrap t.slot_count x)) refl (passed e (omega arith)) rest
    ]

    -- In a valid table `map_probe` finds the slot that holds an entry with an equal key.
    pub Holds-map_probe : map_probe ops t key ≡ some i
    unfolding map_probe
    Holds-map_probe =
        let r = table.reach i h.stored h.value h.here in
        let homes : home ops t h.stored ≡ home ops t key =
          ap (λ x. bit_and x (t.slot_count - 1)) (hooks.alike h.stored key t.seed h.equal) in
        let at_home : wrap t.slot_count (home ops t key + 0) ≡ home ops t key =
          ground (arith, mask_lt table.power (ops.key_hash key t.seed)) in
        ap (λ m. probe_from ops.key_equal t.slot_count (t.slot_count - 1) m key t.slots)
          (sym at_home)
        ∙ found t.slot_count 0 r.steps (omega arith) r.few (omega arith)
            (r.there ∙ ap (λ m. wrap t.slot_count (m + r.steps)) homes)
            (λ d hd.
              subst (λ m. slot_at t.slots (wrap t.slot_count (m + d)) ≢ empty) homes
                (r.passed d hd))
