-- ===== src/HashMap/Slots.antt =====
-- runtime/container.c: the slots of a table as a whole: the counts of a table's header, and the
-- entries, which are what the map holds.
use loke.Prelude.{
  ℕ, zero, suc, ◌+◌, ◌≤◌, ◌<◌, ◌≡◌, refl, sym, List, [], ◌∷◌, arith, length, set, replicate,
}
use mathlib.Core.List.{Perm}
use mathlib.Core.List.Perm
use mathlib.Core.Path.{subst}
use loke.HashMap.{Slot, empty, tombstone, occupied, value_owed, slot_at}

module _ {K V : Type 0} where
  -- 1 for a slot that `occupied` counts.
  abbrev pub live : Slot K V → ℕ
  live (occupied key value) = 1
  live empty = 0
  live tombstone = 0
  live (value_owed value) = 0

  -- 1 for a slot that `tombstones` counts.
  abbrev pub grave : Slot K V → ℕ
  grave tombstone = 1
  grave (value_owed value) = 1
  grave empty = 0
  grave (occupied key value) = 0

  -- 1 for a slot that is a tombstone while a key's hook runs, and else never.
  abbrev pub owed : Slot K V → ℕ
  owed (value_owed value) = 1
  owed tombstone = 0
  owed empty = 0
  owed (occupied key value) = 0

  abbrev pub weigh : (Slot K V → ℕ) → List (Slot K V) → ℕ
  weigh f [] = 0
  weigh f (s ∷ slots) = f s + weigh f slots

  -- The entries of the map, in the order of their slots.
  abbrev pub entries : List (Slot K V) → List (K × V)
  entries [] = []
  entries (occupied key value ∷ slots) = (key, value) ∷ entries slots
  entries (empty ∷ slots) = entries slots
  entries (tombstone ∷ slots) = entries slots
  entries (value_owed value ∷ slots) = entries slots

  pub weigh-set :
      (f : Slot K V → ℕ) (slots : List (Slot K V)) (i : ℕ) (s : Slot K V)
      → i < length slots
      → weigh f (set slots i s) + f (slot_at slots i) ≡ weigh f slots + f s
  weigh-set f [] i s h = absurd (omega arith)
  weigh-set f (x ∷ slots) zero s h = omega arith
  weigh-set f (x ∷ slots) (suc i) s h = omega (arith, weigh-set f slots i s (omega arith))

  pub weigh-replicate : (f : Slot K V → ℕ) (n : ℕ) → f empty ≡ 0 → weigh f (replicate n empty) ≡ 0
  weigh-replicate f zero h = refl
  weigh-replicate f (suc n) h = omega (arith, weigh-replicate f n h)

  pub entries-replicate : (n : ℕ) → entries (replicate n empty) ≡ []
  entries-replicate zero = refl
  entries-replicate (suc n) = entries-replicate n

  pub length-entries : (slots : List (Slot K V)) → length (entries slots) ≡ weigh live slots
  length-entries [] = refl
  length-entries (occupied key value ∷ slots) = omega (arith, length-entries slots)
  length-entries (empty ∷ slots) = omega (arith, length-entries slots)
  length-entries (tombstone ∷ slots) = omega (arith, length-entries slots)
  length-entries (value_owed value ∷ slots) = omega (arith, length-entries slots)

  -- With fewer entries and tombstones than slots one slot is empty.
  pub some_empty :
      (slots : List (Slot K V))
      → weigh owed slots ≡ 0
      → weigh live slots + weigh grave slots < length slots
      → (i : ℕ) × (i < length slots) × (slot_at slots i ≡ empty)
  some_empty [] o h = absurd (omega arith)
  some_empty (empty ∷ slots) o h = (0, omega arith, refl)
  some_empty (occupied key value ∷ slots) o h =
      let (i, lt, e) = some_empty slots (omega arith) (omega arith) in (suc i, omega arith, e)
  some_empty (tombstone ∷ slots) o h =
      let (i, lt, e) = some_empty slots (omega arith) (omega arith) in (suc i, omega arith, e)
  some_empty (value_owed value ∷ slots) o h = absurd (omega arith)

  -- A slot where nothing is counted is of no such kind.
  pub weigh-at :
      (f : Slot K V → ℕ) (slots : List (Slot K V)) (i : ℕ)
      → f empty ≡ 0
      → f (slot_at slots i) ≤ weigh f slots
  weigh-at f [] i e = omega arith
  weigh-at f (x ∷ slots) zero e = omega arith
  weigh-at f (x ∷ slots) (suc i) e = omega (arith, weigh-at f slots i e)

  pub occupied_in_range :
      (slots : List (Slot K V)) (i : ℕ) {key : K} {value : V}
      → slot_at slots i ≡ occupied key value
      → i < length slots
  occupied_in_range [] i e = absurd (cc)
  occupied_in_range (x ∷ slots) zero e = omega arith
  occupied_in_range (x ∷ slots) (suc i) e = omega (arith, occupied_in_range slots i e)

  -- Writing an entry to a slot that held none adds it.
  pub entries-put :
      (slots : List (Slot K V)) (i : ℕ) (key : K) (value : V)
      → i < length slots
      → live (slot_at slots i) ≡ 0
      → Perm (entries (set slots i (occupied key value))) ((key, value) ∷ entries slots)
  entries-put [] i key value h e = absurd (omega arith)
  entries-put (occupied k v ∷ slots) zero key value h e = absurd (omega arith)
  entries-put (empty ∷ slots) zero key value h e = Perm.rfl
  entries-put (tombstone ∷ slots) zero key value h e = Perm.rfl
  entries-put (value_owed v ∷ slots) zero key value h e = Perm.rfl
  entries-put (occupied k v ∷ slots) (suc i) key value h e =
      Perm.trans (Perm.cons (k, v) (entries-put slots i key value (omega arith) e))
        (Perm.swap (key, value) (k, v) (entries slots))
  entries-put (empty ∷ slots) (suc i) key value h e = entries-put slots i key value (omega arith) e
  entries-put (tombstone ∷ slots) (suc i) key value h e =
      entries-put slots i key value (omega arith) e
  entries-put (value_owed v ∷ slots) (suc i) key value h e =
      entries-put slots i key value (omega arith) e

  -- Writing anything but an entry over one takes it out.
  pub entries-take :
      (slots : List (Slot K V)) (i : ℕ) (key : K) (value : V) (s : Slot K V)
      → slot_at slots i ≡ occupied key value
      → live s ≡ 0
      → Perm (entries slots) ((key, value) ∷ entries (set slots i s))
  entries-take [] i key value s e n = absurd (cc)
  entries-take (x ∷ slots) zero key value s e n =
      subst (λ x'. Perm (entries (x' ∷ slots)) ((key, value) ∷ entries (s ∷ slots))) (sym e)
        (subst (λ es. Perm ((key, value) ∷ entries slots) ((key, value) ∷ es))
          (sym (dead s slots n)) Perm.rfl)
    where
      dead :
          (s : Slot K V) (slots : List (Slot K V))
          → live s ≡ 0
          → entries (s ∷ slots) ≡ entries slots
      dead (occupied k v) slots n = absurd (omega arith)
      dead empty slots n = refl
      dead tombstone slots n = refl
      dead (value_owed v) slots n = refl
  entries-take (occupied k v ∷ slots) (suc i) key value s e n =
      Perm.trans (Perm.cons (k, v) (entries-take slots i key value s e n))
        (Perm.swap (key, value) (k, v) (entries (set slots i s)))
  entries-take (empty ∷ slots) (suc i) key value s e n = entries-take slots i key value s e n
  entries-take (tombstone ∷ slots) (suc i) key value s e n = entries-take slots i key value s e n
  entries-take (value_owed v ∷ slots) (suc i) key value s e n = entries-take slots i key value s e n
