-- ===== src/HashMap/Sizes.antt =====
-- runtime/container.c: the slot counts that the map asks for, and the empty table of such a count.
use loke.Prelude.{
  ℕ, zero, suc, ◌*◌, ◌/◌, ◌≤◌, ◌<◌, ◌≡◌, ◌≢◌, refl, sym, ap, ◌∙◌, inl, inr, Option, none, some,
  arith, length, replicate, length-replicate, get_or, ltb, leb, Bool-cases, Option-cases,
}
use mathlib.Core.Option
use mathlib.Core.Path.{subst}
use native.Mathlib.Nat.{pow-suc}
use loke.Container.Checked.{int64_max, checked_round_up}
use loke.Container.Memory.{Provider}
use loke.HashMap.{
  empty, occupied, Table, MapOps, MapWorld, map_capacity_of, slots_from, map_slots_for, half_free,
  map_next_seed, map_block_shape, table_size, array_end, map_align, slot_at,
}
use loke.HashMap.Methods.{fresh_table}
use loke.HashMap.Walk.{IsPower}
use loke.HashMap.Slots.{live, grave, owed, weigh, weigh-replicate}
use loke.HashMap.Moving.{IsFresh}

-- What the sizes of a table are.
pub record IsSize (slots : ℕ) : Type 0 where
  pub power : IsPower slots
  pub least : 8 ≤ slots

IsSize-double : {slots : ℕ} → IsSize slots → IsSize (slots * 2)
IsSize-double s =
    let (m, e) = s.power in
    record { power = (suc m, omega (arith, e, pow-suc 2 m)); least = omega (arith, s.least) }

eight-IsSize : IsSize 8
eight-IsSize = record { power = (3, refl); least = omega arith }

pub some_injective : {A : Type 0} {a b : A} → some a ≡ some b → a ≡ b
some_injective e = cc

slots_from-IsSize :
    (fuel min_capacity slots r : ℕ)
    → IsSize slots
    → slots_from fuel min_capacity slots ≡ some r
    → IsSize r × (min_capacity ≤ map_capacity_of r)
unfolding slots_from
slots_from-IsSize zero min_capacity slots r s e = absurd (cc)
slots_from-IsSize (suc fuel) min_capacity slots r s e =
    let ih = slots_from-IsSize fuel min_capacity (slots * 2) r (IsSize-double s) in
    elim (Bool-cases (ltb (map_capacity_of slots) min_capacity)) [
      | inl t ↦ elim (Bool-cases (ltb (int64_max / 2) slots)) [
        | inl o ↦ (let bad = rw (t, o) at e in absurd (cc))
        | inr o ↦ ih (rw (t, o) at e)
      ]
      | inr t ↦
          let same : slots ≡ r = some_injective (rw t at e) in
          subst (λ r. IsSize r × (min_capacity ≤ map_capacity_of r)) same (s, ground arith)
    ]

-- What `map_slots_for` stores is a power of two of at least 8 slots that has the capacity.
pub map_slots_for-IsSize :
    (min_capacity r : ℕ)
    → map_slots_for min_capacity ≡ some r
    → IsSize r × (min_capacity ≤ map_capacity_of r)
unfolding map_slots_for
map_slots_for-IsSize min_capacity r e = slots_from-IsSize 64 min_capacity 8 r eight-IsSize e

pub half_free-IsSize :
    (fuel len slots r : ℕ)
    → IsSize slots
    → half_free fuel len slots ≡ some r
    → IsSize r × (len < r / 2)
unfolding half_free
half_free-IsSize zero len slots r s e = absurd (cc)
half_free-IsSize (suc fuel) len slots r s e =
    let ih = half_free-IsSize fuel len (slots * 2) r (IsSize-double s) in
    elim (Bool-cases (leb (slots / 2) len)) [
      | inl t ↦ elim (Bool-cases (ltb (int64_max / 2) slots)) [
        | inl o ↦ (let bad = rw (t, o) at e in absurd (cc))
        | inr o ↦ ih (rw (t, o) at e)
      ]
      | inr t ↦
          let same : slots ≡ r = some_injective (rw t at e) in
          subst (λ r. IsSize r × (len < r / 2)) same (s, ground arith)
    ]

pub get_or-replicate : {A : Type 0} (d : A) (n i : ℕ) → get_or (replicate n d) i d ≡ d
get_or-replicate d zero i = refl
get_or-replicate d (suc n) zero = refl
get_or-replicate d (suc n) (suc i) = get_or-replicate d n i

pub bind-some :
    {A B : Type 0} (o : Option A) (f : A → Option B) {b : B}
    → Option.bind o f ≡ some b
    → (a : A) × (o ≡ some a) × (f a ≡ some b)
unfolding Option.bind
bind-some none f e = absurd (cc)
bind-some (some a) f e = (a, refl, e)

module _ {S K V : Type 0} (ops : MapOps S K V) where
  -- The shape describes an empty table of the slots that were asked for.
  record IsShape (slots : ℕ) (shape : Table K V) : Type 0 where
    count : shape.slot_count ≡ slots
    vacant : shape.occupied_count ≡ 0
    clean : shape.tombstones ≡ 0

  map_block_shape-IsShape :
      (slots : ℕ) (shape : Table K V) → map_block_shape ops slots ≡ some shape → IsShape slots shape
  unfolding map_block_shape
  map_block_shape-IsShape slots shape e₀ =
      let (controls, _, e₁) = bind-some (checked_round_up table_size 8) _ e₀ in
      let (a, _, e₂) = bind-some (array_end controls slots 1) _ e₁ in
      let (keys, _, e₃) = bind-some (checked_round_up a ops.key_align) _ e₂ in
      let (b, _, e₄) = bind-some (array_end keys slots ops.key_size) _ e₃ in
      let (values, _, e₅) = bind-some (checked_round_up b ops.elems.elem_align) _ e₄ in
      let (c, _, e₆) = bind-some (array_end values slots ops.elems.elem_size) _ e₅ in
      let (size, _, e₇) = bind-some (checked_round_up c (map_align ops)) _ e₆ in
      subst (IsShape slots) (some_injective e₇)
        (record { count = refl; vacant = refl; clean = refl })

  -- A table with nothing but empty slots is valid.
  pub replicate-IsFresh :
      (t : Table K V)
      → IsSize t.slot_count
      → t.slots ≡ replicate t.slot_count empty
      → t.occupied_count ≡ 0
      → t.tombstones ≡ 0
      → IsFresh ops t t
  replicate-IsFresh t size all vacant clean = record {
    table = record {
      power = size.power;
      measured = ap length all ∙ length-replicate t.slot_count empty;
      counted = vacant ∙ sym (ap (weigh live) all ∙ weigh-replicate live t.slot_count refl);
      graves = clean ∙ sym (ap (weigh grave) all ∙ weigh-replicate grave t.slot_count refl);
      settled = ap (weigh owed) all ∙ weigh-replicate owed t.slot_count refl;
      room = omega (arith, vacant, clean, size.least);
      reach = λ i k v e. absurd (no_entry i k v e);
      unique = λ i j k k' v v' e e' eq. absurd (no_entry i k v e);
    };
    clean = clean;
    same_count = refl;
  }
    where
      no_entry : (i : ℕ) (k : K) (v : V) → slot_at t.slots i ≢ occupied k v
      no_entry i k v e =
          let here : slot_at {K = K} {V = V} (replicate t.slot_count empty) i ≡ empty =
            get_or-replicate empty t.slot_count i in
          let there = ap (λ slots. slot_at slots i) all in cc

-- What `map_reserve`, `map_entry` and `map_shrink` start from.
pub record IsNew {S K V : Type 0} (ops : MapOps S K V) (slots : ℕ) (t : Table K V) : Type 0 where
  pub fresh : IsFresh ops t t
  pub count : t.slot_count ≡ slots
  pub vacant : t.occupied_count ≡ 0
  pub bare : t.slots ≡ replicate slots empty

module _ {S K V : Type 0} (selected : ℕ) (p : Provider S) (ops : MapOps S K V) where
  shape-IsNew :
      (slots seed : ℕ) (shape : Table K V)
      → IsSize slots
      → IsShape ops slots shape
      → IsNew ops slots (record shape { seed = seed; slots = replicate slots empty })
  shape-IsNew slots seed shape size s =
      let count = s.count in
      record {
        fresh =
            replicate-IsFresh ops (record shape { seed = seed; slots = replicate slots empty })
              (subst IsSize (sym count) size) (ap (λ n. replicate n empty) (sym count)) s.vacant
              s.clean;
        count = count;
        vacant = s.vacant;
        bare = refl;
      }

  -- The table that `fresh_table` answers is new, and has the slots that were asked for.
  pub fresh_table-IsNew :
      (slots : ℕ) (w : MapWorld S K V) (addr : ℕ) (t : Table K V) (w' : MapWorld S K V)
      → IsSize slots
      → fresh_table selected p ops slots w ≡ (some (addr, t), w')
      → IsNew ops slots t
  unfolding fresh_table
  fresh_table-IsNew slots w addr t w' size e = elim (Option-cases (map_block_shape ops slots)) [
    | inl n ↦ (let bad = rw (n, fresh_table) at e in absurd (cc))
    | inr (shape, es) ↦
        let e₁ = rw (es, fresh_table) at e in
        elim (Option-cases (p.alloc w.state shape.block_size shape.block_align).0) [
          | inl n ↦ (let bad = rw n at e₁ in absurd (cc))
          | inr (addr', ea) ↦
              let e₂ = rw ea at e₁ in
              let made = ap (λ (r : Option (ℕ × Table K V) × MapWorld S K V). r.0) e₂ in
              let same = ap (λ (b : ℕ × Table K V). b.1) (some_injective made) in
              subst (IsNew ops slots) same (
                shape-IsNew slots (map_next_seed w.counter addr') shape size
                  (map_block_shape-IsShape ops slots shape es))
        ]
  ]
