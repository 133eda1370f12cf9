-- ===== src/HashMap/Invariant.antt =====
-- runtime/container.c: what a table of a map has to be, and that an entry written where a walk from
-- its home ends keeps it so.
use loke.Prelude.{
  ℕ, ◌+◌, ◌-◌, ◌<◌, ◌≡◌, ◌≢◌, sym, ◌∙◌, ◌⊎◌, inl, inr, bit_and, true, false, Option, some, List,
  arith, length, set, length-set, get_or-set_ne, get_or-set_self,
}
use mathlib.Core.Path.{subst}
use native.Mathlib.Decide.{ℕ_discrete}
use loke.HashMap.{Slot, empty, occupied, Table, MapOps, slot_at}
use loke.HashMap.Walk.{IsPower, wrap}
use loke.HashMap.Slots.{live, grave, owed, weigh, weigh-set}

-- What the map relies on of the key's hooks: equality is an equivalence, equal keys hash alike under
-- every seed, and a clone is equal to its key.
pub record AreHooks {S K V : Type 0} (ops : MapOps S K V) : Type 0 where
  pub reflexive : (a : K) → ops.key_equal a a ≡ true
  pub copies :
      (clone : K → S → Option K × S) (a c : K) (s : S)
      → ops.key_clone ≡ some clone
      → (clone a s).0 ≡ some c
      → ops.key_equal c a ≡ true
  pub symmetric : (a b : K) → ops.key_equal a b ≡ true → ops.key_equal b a ≡ true
  pub transitive :
      (a b c : K) → ops.key_equal a b ≡ true → ops.key_equal b c ≡ true → ops.key_equal a c ≡ true
  pub alike :
      (a b : K) (seed : ℕ) → ops.key_equal a b ≡ true → ops.key_hash a seed ≡ ops.key_hash b seed

module _ {S K V : Type 0} (ops : MapOps S K V) where
  -- Where the walk for a key starts.
  abbrev pub home : Table K V → K → ℕ
  home t key = bit_and (ops.key_hash key t.seed) (t.slot_count - 1)

  -- `i` is on the walk of `key`, and no slot before it on the walk is empty.
  pub record Reached (t : Table K V) (key : K) (i : ℕ) : Type 0 where
    pub steps : ℕ
    pub few : steps < t.slot_count
    pub there : i ≡ wrap t.slot_count (home t key + steps)
    pub passed : (e : ℕ) → e < steps → slot_at t.slots (wrap t.slot_count (home t key + e)) ≢ empty

  -- No slot holds an entry with an equal key.
  abbrev pub IsAbsent : K → Table K V → Type 0
  IsAbsent key t =
      (i : ℕ) (k : K) (v : V) → slot_at t.slots i ≡ occupied k v → ops.key_equal k key ≡ false

  -- A table between two operations: the header counts the slots, every entry can be reached from
  -- the home of its key, and no two entries have equal keys.
  pub record IsTable (t : Table K V) : Type 0 where
    pub power : IsPower t.slot_count
    pub measured : length t.slots ≡ t.slot_count
    pub counted : t.occupied_count ≡ weigh live t.slots
    pub graves : t.tombstones ≡ weigh grave t.slots
    pub settled : weigh owed t.slots ≡ 0
    pub room : t.occupied_count + t.tombstones < t.slot_count
    pub reach : (i : ℕ) (k : K) (v : V) → slot_at t.slots i ≡ occupied k v → Reached t k i
    pub unique :
        (i j : ℕ) (k k' : K) (v v' : V)
        → slot_at t.slots i ≡ occupied k v
        → slot_at t.slots j ≡ occupied k' v'
        → ops.key_equal k k' ≡ true
        → i ≡ j

  pub wrap_lt : (n x d : ℕ) → x < n → d < n → wrap n (x + d) < n
  wrap_lt n x d h k = ground arith

  -- The entry `(key, value)` written to slot `i`, with the counts as the code sets them.
  abbrev pub with_entry : Table K V → (i : ℕ) → K → V → (graves : ℕ) → Table K V
  with_entry t i key value left = record t {
    slots = set t.slots i (occupied key value);
    tombstones = left;
    occupied_count = t.occupied_count + 1;
  }

-- What is not empty stays so where a slot is written that is not emptied.
pub kept_full :
    {K V : Type 0} (slots : List (Slot K V)) (i j : ℕ) (s : Slot K V)
    → s ≢ empty
    → i < length slots
    → slot_at slots j ≢ empty
    → slot_at (set slots i s) j ≢ empty
kept_full slots i j s s_full lt full = elim (ℕ_discrete i j) [
  | yes e ↦
      let there : slot_at (set slots i s) j ≡ s =
        subst (λ m. slot_at (set slots i s) m ≡ s) e (get_or-set_self slots i s empty lt) in
      λ bad. s_full (sym there ∙ bad)
  | no n ↦ λ bad. full (sym (get_or-set_ne slots i j s empty n) ∙ bad)
]

module _ {S K V : Type 0} (ops : MapOps S K V) (hooks : AreHooks ops) where
  occupied_injective : {k k' : K} {v v' : V} → occupied k v ≡ occupied k' v' → (k ≡ k') × (v ≡ v')
  occupied_injective e = (cc, cc)

  module _ (t : Table K V) (table : IsTable ops t) (key : K) (value : V) (i : ℕ)
      (lt : i < length t.slots) (reached : Reached ops t key i) (absent : IsAbsent ops key t)
      (not_live : live (slot_at t.slots i) ≡ 0) (not_owed : owed (slot_at t.slots i) ≡ 0) (left : ℕ)
      (left_graves : left + grave (slot_at t.slots i) ≡ t.tombstones)
      (fits : t.occupied_count + 1 + left < t.slot_count) where
    at_i : slot_at (set t.slots i (occupied key value)) i ≡ occupied key value
    at_i = get_or-set_self t.slots i (occupied key value) empty lt

    full : occupied key value ≢ empty
    full e = cc

    -- A slot of the written table that holds an entry is the written one, or held it before.
    pub origin :
        (j : ℕ) (k : K) (v : V)
        → slot_at (set t.slots i (occupied key value)) j ≡ occupied k v
        → ((i ≡ j) × (k ≡ key)) ⊎ ((i ≢ j) × (slot_at t.slots j ≡ occupied k v))
    origin j k v e = elim (ℕ_discrete i j) [
      | yes same ↦
          let here =
            subst (λ m. slot_at (set t.slots i (occupied key value)) m ≡ occupied key value) same
              at_i in
          inl (same, (occupied_injective (sym e ∙ here)).0)
      | no n ↦ inr (n, sym (get_or-set_ne t.slots i j (occupied key value) empty n) ∙ e)
    ]

    keep-Reached :
        (k : K) (j : ℕ) → Reached ops t k j → Reached ops (with_entry ops t i key value left) k j
    keep-Reached k j r = record {
      steps = r.steps;
      few = r.few;
      there = r.there;
      passed = λ e he.
          kept_full t.slots i (wrap t.slot_count (home ops t k + e)) (occupied key value) full lt
            (r.passed e he);
    }

    pub with_entry-IsTable : IsTable ops (with_entry ops t i key value left)
    with_entry-IsTable =
        let put = λ (f : Slot K V → ℕ). weigh-set f t.slots i (occupied key value) lt in
        record {
          power = table.power;
          measured = length-set t.slots i (occupied key value) ∙ table.measured;
          counted = omega (arith, put live, table.counted);
          graves = omega (arith, put grave, table.graves, left_graves);
          settled = omega (arith, put owed, table.settled, not_owed);
          room = fits;
          reach = λ j k v e. elim (origin j k v e) [
            | inl (same, ek) ↦
                subst (λ k'. Reached ops (with_entry ops t i key value left) k' j) (sym ek)
                  (subst (λ m. Reached ops (with_entry ops t i key value left) key m) same
                    (keep-Reached key i reached))
            | inr (n, old) ↦ keep-Reached k j (table.reach j k v old)
          ];
          unique = λ a b k k' v v' ea eb eq. elim (origin a k v ea) [
            | inl (sa, ka) ↦ elim (origin b k' v' eb) [
              | inl (sb, kb) ↦ sym sa ∙ sb
              | inr (nb, ob) ↦
                  let bad = absent b k' v' ob in let eq' = hooks.symmetric k k' eq in absurd (cc)
            ]
            | inr (na, oa) ↦ elim (origin b k' v' eb) [
              | inl (sb, kb) ↦ let bad = absent a k v oa in absurd (cc)
              | inr (nb, ob) ↦ table.unique a b k k' v v' oa ob eq
            ]
          ];
        }
