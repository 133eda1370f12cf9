-- ===== src/HashMap/Twins.antt =====
-- runtime/container.c: `map_clone` of a valid map.
use loke.Prelude.{ℕ, zero, suc, ◌≡◌, refl, ap, List, [], ◌∷◌, arith, length}
use loke.HashMap.{Slot, empty, tombstone, occupied, value_owed, slot_at}
use loke.HashMap.Slots.{live, grave, owed, weigh}

module _ {K V : Type 0} (like : K → K → Type 0) (copied : V → V → Type 0) where
  -- A slot of a clone, beside the slot that it is the clone of.
  pub data Twin : (ours theirs : Slot K V) → Type 0 where
    both_empty : Twin empty empty
    both_grave : Twin tombstone tombstone
    settled : (v : V) → Twin tombstone (value_owed v)
    both_full : (k l : K) (v u : V) → like l k → copied v u → Twin (occupied l u) (occupied k v)

  abbrev pub Twins : (ours theirs : List (Slot K V)) → Type 0
  Twins [] [] = Unit
  Twins (x ∷ xs) (y ∷ ys) = Twin x y × Twins xs ys
  Twins [] (y ∷ ys) = ⊥
  Twins (x ∷ xs) [] = ⊥

  pub Twins-length : (xs ys : List (Slot K V)) → Twins xs ys → length xs ≡ length ys
  Twins-length [] [] h = refl
  Twins-length (x ∷ xs) (y ∷ ys) h = ap suc (Twins-length xs ys h.1)
  Twins-length [] (y ∷ ys) h = absurd h
  Twins-length (x ∷ xs) [] h = absurd h

  Twin-weights :
      {x y : Slot K V} → Twin x y → (live x ≡ live y) × (grave x ≡ grave y) × (owed x ≡ 0)
  Twin-weights both_empty = (refl, refl, refl)
  Twin-weights both_grave = (refl, refl, refl)
  Twin-weights (settled v) = (refl, refl, refl)
  Twin-weights (both_full k l v u e c) = (refl, refl, refl)

  pub Twins-weights :
      (xs ys : List (Slot K V))
      → Twins xs ys
      → (weigh live xs ≡ weigh live ys) × (weigh grave xs ≡ weigh grave ys) × (weigh owed xs ≡ 0)
  Twins-weights [] [] h = (refl, refl, refl)
  Twins-weights (x ∷ xs) (y ∷ ys) h =
      let (a, b, c) = Twin-weights h.0 in
      let (d, e, f) = Twins-weights xs ys h.1 in (omega arith, omega arith, omega arith)
  Twins-weights [] (y ∷ ys) h = absurd h
  Twins-weights (x ∷ xs) [] h = absurd h

  pub Twins-at :
      (xs ys : List (Slot K V)) → Twins xs ys → (i : ℕ) → Twin (slot_at xs i) (slot_at ys i)
  Twins-at [] [] h i = both_empty
  Twins-at (x ∷ xs) (y ∷ ys) h zero = h.0
  Twins-at (x ∷ xs) (y ∷ ys) h (suc i) = Twins-at xs ys h.1 i
  Twins-at [] (y ∷ ys) h i = absurd h
  Twins-at (x ∷ xs) [] h i = absurd h
