-- ===== src/HashMap/Placing.antt =====
-- runtime/container.c: the loops that look for a slot to write, of `map_entry` and
-- `map_place_moved`, end in a valid table that is not full, at a slot on the walk of the key.
use loke.Prelude.{
  ℕ, zero, suc, ◌+◌, ◌-◌, ◌≤◌, ◌<◌, ◌≡◌, ◌≢◌, refl, sym, ap, ◌∙◌, ◌⊎◌, inl, inr, bit_and, Bool,
  true, false, Option, none, some, List, arith, set, if◌then◌else◌, leb,
}
use mathlib.Core.Path.{subst}
use native.Mathlib.Decide.{ℕ_discrete}
use loke.Prelude.Outcome.{Returns, Returns-ok}
use loke.HashMap.{
  Slot, empty, tombstone, occupied, value_owed, Table, MapOps, slot_at, free_from, place_from,
}
use loke.HashMap.Walk.{wrap, mask_lt, step_wrap}
use loke.HashMap.Slots.{live, grave, owed, weigh-at, some_empty}
use loke.HashMap.Invariant.{home, Reached, IsTable, wrap_lt}

-- The four kinds of slot, with the equation.
pub Slot-cases :
    {K V : Type 0} (s : Slot K V)
    → (s ≡ empty)
      ⊎ ((s ≡ tombstone)
          ⊎ (((k : K) × (v : V) × (s ≡ occupied k v)) ⊎ ((v : V) × (s ≡ value_owed v))))
Slot-cases empty = inl refl
Slot-cases tombstone = inr (inl refl)
Slot-cases (occupied k v) = inr (inr (inl (k, v, refl)))
Slot-cases (value_owed v) = inr (inr (inr (v, refl)))

-- What the counts say of a slot that can be written.
pub free_kind :
    {K V : Type 0} (s : Slot K V) (reused : Bool)
    → s ≡ (if reused then tombstone else empty)
    → (live s ≡ 0) × (owed s ≡ 0) × (grave s ≡ (if reused then 1 else 0))
free_kind s true e = (ap live e, ap owed e, ap grave e)
free_kind s false e = (ap live e, ap owed e, ap grave e)

module _ {S K V : Type 0} (ops : MapOps S K V) where
  -- A slot on the walk of the key that holds no entry; it is a tombstone exactly if it is used again.
  pub record Landing (t : Table K V) (key : K) (r : Bool × ℕ) : Type 0 where
    pub reached : Reached ops t key r.1
    pub in_range : r.1 < t.slot_count
    pub kind : slot_at t.slots r.1 ≡ (if r.0 then tombstone else empty)

  -- The entry was written to such a slot.
  pub record Placed (t : Table K V) (key : K) (value : V) (slots : List (Slot K V)) : Type 0 where
    pub at : ℕ
    pub reused : Bool
    pub landing : Landing t key (reused, at)
    pub written : slots ≡ set t.slots at (occupied key value)

  module _ (t : Table K V) (table : IsTable ops t) (key : K) where
    abbrev h : ℕ
    h = home ops t key

    abbrev n : ℕ
    n = t.slot_count

    abbrev on_walk : ℕ → ℕ
    on_walk e = wrap t.slot_count (home ops t key + e)

    h_lt : h < n
    h_lt = mask_lt table.power (ops.key_hash key t.seed)

    next : (e : ℕ) → e + 1 < n → bit_and (on_walk e + 1) (n - 1) ≡ on_walk (e + 1)
    next e he = step_wrap table.power (h + e) (omega (arith, h_lt)) ∙ ap (wrap n) (omega arith)

    not_owed : (i : ℕ) (v : V) → slot_at t.slots i ≢ value_owed v
    not_owed i v e =
        let none_owed = weigh-at owed t.slots i refl in
        let one : owed (slot_at t.slots i) ≡ 1 = ap owed e in
        omega (arith, none_owed, one, table.settled)

    -- Where the walk meets an empty slot.
    pub empty_ahead : (d : ℕ) × (d < n) × (slot_at t.slots (on_walk d) ≡ empty)
    empty_ahead =
        let (i, lt, e) =
          some_empty t.slots table.settled
            (omega (arith, table.room, table.counted, table.graves, table.measured)) in
        let d : ℕ = if leb h i then i - h else i + n - h in
        let there : on_walk d ≡ i = ground (arith, h_lt, lt, table.measured) in
        (d, ground (arith, h_lt, lt, table.measured), ap (λ m. slot_at t.slots m) there ∙ e)

    abbrev Passed : ℕ → Type 0
    Passed e = (d : ℕ) → d < e → slot_at t.slots (on_walk d) ≢ empty

    pass_on : (e : ℕ) → Passed e → slot_at t.slots (on_walk e) ≢ empty → Passed (e + 1)
    pass_on e p full d hd = elim (ℕ_discrete d e) [
      | yes same ↦ λ bad. full (ap (λ m. slot_at t.slots (on_walk m)) (sym same) ∙ bad)
      | no apart ↦ p d (omega arith)
    ]

    Reached-at : (e : ℕ) → e < n → Passed e → Reached ops t key (on_walk e)
    Reached-at e he p = record { steps = e; few = he; there = refl; passed = p }

    -- A tombstone that the walk has passed.
    abbrev IsFirst : ℕ → Option ℕ → Type 0
    IsFirst e none = Unit
    IsFirst e (some f) = (d : ℕ) × (d < e) × (f ≡ on_walk d) × (slot_at t.slots f ≡ tombstone)

    first-Landing : (e f : ℕ) → e < n → Passed e → IsFirst e (some f) → Landing t key (true, f)
    first-Landing e f he p (d, hd, there, kind) = record {
      reached =
          subst (Reached ops t key) (sym there)
            (Reached-at d (omega arith) (λ c hc. p c (omega arith)));
      in_range = subst (λ m. m < n) (sym there) (wrap_lt ops n h d h_lt (omega arith));
      kind = kind;
    }

    Placed-at :
        (e : ℕ) (value : V)
        → e < n
        → Passed e
        → (reused : Bool) → slot_at t.slots (on_walk e) ≡ (if reused then tombstone else empty)
        → Placed t key value (set t.slots (on_walk e) (occupied key value))
    Placed-at e value he p reused kind = record {
      at = on_walk e;
      reused = reused;
      landing = record {
        reached = Reached-at e he p;
        in_range = wrap_lt ops n h e h_lt he;
        kind = kind;
      };
      written = refl;
    }

    module _ (stop : ℕ) (stop_lt : stop < n)
        (stop_empty : slot_at t.slots (on_walk stop) ≡ empty) where
      not_stop : (e : ℕ) → e ≤ stop → slot_at t.slots (on_walk e) ≢ empty → e + 1 ≤ stop
      not_stop e he full = elim (ℕ_discrete e stop) [
        | yes same ↦ absurd (full (ap (λ m. slot_at t.slots (on_walk m)) same ∙ stop_empty))
        | no apart ↦ omega arith
      ]

      free_loop :
          (fuel e : ℕ) (first : Option ℕ)
          → e ≤ stop
          → e + fuel ≡ n
          → Passed e
          → IsFirst e first
          → Returns (free_from fuel (n - 1) (on_walk e) first t.slots) (Landing t key)
      unfolding free_from
      free_loop zero e first he hf p fi = absurd (omega arith)
      free_loop (suc fuel) e none he hf p fi = elim (Slot-cases (slot_at t.slots (on_walk e))) [
        | inl es ↦
            rw (es, free_from)
              (Returns-ok (false, on_walk e)
                (record {
                  reached = Reached-at e (omega arith) p;
                  in_range = wrap_lt ops n h e h_lt (omega arith);
                  kind = es;
                }))
        | inr (inl es) ↦
            let full : slot_at t.slots (on_walk e) ≢ empty = λ bad. (cc) in
            let more = not_stop e he full in
            let ih =
              free_loop fuel (e + 1) (some (on_walk e)) more (omega arith) (pass_on e p full)
                (e, omega arith, refl, es) in
            rw (es, free_from, next e (omega arith)) ih
        | inr (inr (inl (k, v, es))) ↦
            let full : slot_at t.slots (on_walk e) ≢ empty = λ bad. (cc) in
            let more = not_stop e he full in
            let ih = free_loop fuel (e + 1) none more (omega arith) (pass_on e p full) tt in
            rw (es, free_from, next e (omega arith)) ih
        | inr (inr (inr (v, es))) ↦ absurd (not_owed (on_walk e) v es)
      ]
      free_loop (suc fuel) e (some f) he hf p (d, hd, there, kind) =
          elim (Slot-cases (slot_at t.slots (on_walk e))) [
            | inl es ↦
                rw (es, free_from)
                  (Returns-ok (true, f) (first-Landing e f (omega arith) p (d, hd, there, kind)))
            | inr (inl es) ↦
                rw (es, free_from)
                  (Returns-ok (true, f) (first-Landing e f (omega arith) p (d, hd, there, kind)))
            | inr (inr (inl (k, v, es))) ↦
                let full : slot_at t.slots (on_walk e) ≢ empty = λ bad. (cc) in
                let more = not_stop e he full in
                let ih =
                  free_loop fuel (e + 1) (some f) more (omega arith) (pass_on e p full)
                    (d, omega arith, there, kind) in
                rw (es, free_from, next e (omega arith)) ih
            | inr (inr (inr (v, es))) ↦ absurd (not_owed (on_walk e) v es)
          ]

      place_loop :
          (fuel e : ℕ) (value : V)
          → e ≤ stop
          → e + fuel ≡ n
          → Passed e
          → Returns (place_from fuel (n - 1) (on_walk e) key value t.slots) (Placed t key value)
      unfolding place_from
      place_loop zero e value he hf p = absurd (omega arith)
      place_loop (suc fuel) e value he hf p = elim (Slot-cases (slot_at t.slots (on_walk e))) [
        | inl es ↦
            rw (es, place_from)
              (Returns-ok (set t.slots (on_walk e) (occupied key value))
                (Placed-at e value (omega arith) p false es))
        | inr (inl es) ↦
            rw (es, place_from)
              (Returns-ok (set t.slots (on_walk e) (occupied key value))
                (Placed-at e value (omega arith) p true es))
        | inr (inr (inl (k, v, es))) ↦
            let full : slot_at t.slots (on_walk e) ≢ empty = λ bad. (cc) in
            let more = not_stop e he full in
            let ih = place_loop fuel (e + 1) value more (omega arith) (pass_on e p full) in
            rw (es, place_from, next e (omega arith)) ih
        | inr (inr (inr (v, es))) ↦ absurd (not_owed (on_walk e) v es)
      ]

    -- The loop of `map_entry` comes to a slot for the key.
    pub free_from-Landing : Returns (free_from n (n - 1) h none t.slots) (Landing t key)
    free_from-Landing =
        let (stop, lt, e) = empty_ahead in
        let at_home : on_walk 0 ≡ h = ground (arith, h_lt) in
        subst (λ m. Returns (free_from n (n - 1) m none t.slots) (Landing t key)) at_home
          (free_loop stop lt e n 0 none (omega arith) (omega arith) (λ d hd. absurd (omega arith))
            tt)

    -- The loop of `map_place_moved` comes to one, and writes the entry there.
    pub place_from-Placed :
        (value : V) → Returns (place_from n (n - 1) h key value t.slots) (Placed t key value)
    place_from-Placed value =
        let (stop, lt, e) = empty_ahead in
        let at_home : on_walk 0 ≡ h = ground (arith, h_lt) in
        subst (λ m. Returns (place_from n (n - 1) m key value t.slots) (Placed t key value)) at_home
          (place_loop stop lt e n 0 value (omega arith) (omega arith)
            (λ d hd. absurd (omega arith)))
