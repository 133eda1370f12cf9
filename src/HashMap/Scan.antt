-- ===== src/HashMap/Scan.antt =====
-- runtime/container.c: a walk over a map by `map_scan`.
use loke.Prelude.{
  ℕ, zero, suc, ◌+◌, ◌-◌, ◌≤◌, ◌<◌, ◌≡◌, refl, sym, ap, ◌∙◌, inl, inr, none, some, List, [], ◌∷◌,
  arith, length, drop, Option-cases,
}
use loke.Prelude.Int.{pos}
use loke.HashMap.{Slot, empty, tombstone, occupied, value_owed, Table}
use loke.HashMap.Methods.{scan_from, map_scan}
use loke.HashMap.Slots.{entries}

module _ {K V : Type 0} where
  -- The loop of a caller: from the cursor on, until the answer is 0.
  pub walk : (fuel : ℕ) → ℕ × Table K V → (cursor : ℕ) → List (K × V)
  walk zero table cursor = []
  walk (suc fuel) table cursor = elim (map_scan (some table) (pos cursor)) [
    | none ↦ []
    | some (next, k, v) ↦ (k, v) ∷ walk fuel table next
  ]

  -- What one scan of `slots` from index `at` on answers.
  record Scanned (at : ℕ) (slots : List (Slot K V)) (next : ℕ) (entry : K × V) : Type 0 where
    after : at < next
    inside : next ≤ at + length slots
    first : entries slots ≡ entry ∷ entries (drop (next - at) slots)

  Scanned-skip :
      (at next : ℕ) (s : Slot K V) (slots : List (Slot K V)) (entry : K × V)
      → entries (s ∷ slots) ≡ entries slots
      → Scanned (at + 1) slots next entry
      → Scanned at (s ∷ slots) next entry
  Scanned-skip at next s slots entry e c =
      let steps : next - at ≡ suc (next - (at + 1)) = omega (arith, c.after) in
      record {
        after = omega (arith, c.after);
        inside = omega (arith, c.inside);
        first = e ∙ c.first ∙ ap (λ n. entry ∷ entries (drop n (s ∷ slots))) (sym steps);
      }

  scan_from-Scanned :
      (at : ℕ) (slots : List (Slot K V)) (next : ℕ) (key : K) (value : V)
      → scan_from at slots ≡ some (next, key, value)
      → Scanned at slots next (key, value)
  unfolding scan_from
  scan_from-Scanned at [] next key value e = absurd (cc)
  scan_from-Scanned at (empty ∷ slots) next key value e =
      Scanned-skip at next empty slots (key, value) refl
        (scan_from-Scanned (at + 1) slots next key value e)
  scan_from-Scanned at (tombstone ∷ slots) next key value e =
      Scanned-skip at next tombstone slots (key, value) refl
        (scan_from-Scanned (at + 1) slots next key value e)
  scan_from-Scanned at (value_owed v ∷ slots) next key value e =
      Scanned-skip at next (value_owed v) slots (key, value) refl
        (scan_from-Scanned (at + 1) slots next key value e)
  scan_from-Scanned at (occupied k v ∷ slots) next key value e =
      let moved : next ≡ at + 1 = (let f : ◌≡◌ {A = ℕ} (at + 1) next = cc in sym f) in
      let one : next - at ≡ suc 0 = omega (arith, moved) in
      let same : ◌≡◌ {A = K × V} (k, v) (key, value) = cc in
      record {
        after = omega (arith, moved);
        inside = omega (arith, moved);
        first =
            ap (λ x. x ∷ entries slots) same
            ∙ ap (λ n. (key, value) ∷ entries (drop n (occupied k v ∷ slots))) (sym one);
      }

  scan_none : (at : ℕ) (slots : List (Slot K V)) → scan_from at slots ≡ none → entries slots ≡ []
  unfolding scan_from
  scan_none at [] e = refl
  scan_none at (empty ∷ slots) e = scan_none (at + 1) slots e
  scan_none at (tombstone ∷ slots) e = scan_none (at + 1) slots e
  scan_none at (value_owed v ∷ slots) e = scan_none (at + 1) slots e
  scan_none at (occupied k v ∷ slots) e = absurd (cc)

  drop_nil : (n : ℕ) → drop {A = Slot K V} n [] ≡ []
  drop_nil zero = refl
  drop_nil (suc n) = refl

  pub drop-drop : (a b : ℕ) (slots : List (Slot K V)) → drop a (drop b slots) ≡ drop (b + a) slots
  drop-drop a zero slots = ap (λ n. drop n slots) (omega arith)
  drop-drop a (suc b) [] = drop_nil a ∙ sym (drop_nil (suc b + a))
  drop-drop a (suc b) (x ∷ slots) =
      let e : suc (b + a) ≡ suc b + a = omega arith in
      drop-drop a b slots ∙ ap (λ n. drop n (x ∷ slots)) e

  length-drop_all : (n : ℕ) (slots : List (Slot K V)) → length slots ≤ n → drop n slots ≡ []
  length-drop_all zero [] h = refl
  length-drop_all zero (x ∷ slots) h = absurd (omega arith)
  length-drop_all (suc n) [] h = refl
  length-drop_all (suc n) (x ∷ slots) h = length-drop_all n slots (omega arith)

  length-drop_rest : (n : ℕ) (slots : List (Slot K V)) → length (drop n slots) ≡ length slots - n
  length-drop_rest zero slots = omega arith
  length-drop_rest (suc n) [] = omega arith
  length-drop_rest (suc n) (x ∷ slots) = omega (arith, length-drop_rest n slots)

  walk_from :
      (fuel addr : ℕ) (t : Table K V) (cursor : ℕ)
      → length t.slots < cursor + fuel
      → walk fuel (addr, t) cursor ≡ entries (drop cursor t.slots)
  unfolding walk map_scan
  walk_from zero addr t cursor h = sym (ap entries (length-drop_all cursor t.slots (omega arith)))
  walk_from (suc fuel) addr t cursor h =
      elim (Option-cases (scan_from cursor (drop cursor t.slots))) [
        | inl n ↦ rw (n, walk) (sym (scan_none cursor (drop cursor t.slots) n))
        | inr ((next, key, value), e) ↦
            let c = scan_from-Scanned cursor (drop cursor t.slots) next key value e in
            let ih = walk_from fuel addr t next (omega (arith, c.after)) in
            let there : cursor + (next - cursor) ≡ next = omega (arith, c.after) in
            let rest : drop (next - cursor) (drop cursor t.slots) ≡ drop next t.slots =
              drop-drop (next - cursor) cursor t.slots ∙ ap (λ n. drop n t.slots) there in
            let goal : (key, value) ∷ walk fuel (addr, t) next ≡ entries (drop cursor t.slots) =
              ap (◌∷◌ (key, value)) (ih ∙ ap entries (sym rest)) ∙ sym c.first in
            rw (e, walk) goal
      ]

  -- A caller that starts at cursor 0, and goes on from each cursor that it gets, is handed the
  -- entries of a table, each once and in the order of the slots, within one call more than there
  -- are slots.
  pub walk-entries :
      (addr : ℕ) (t : Table K V) → walk (length t.slots + 1) (addr, t) 0 ≡ entries t.slots
  walk-entries addr t = walk_from (length t.slots + 1) addr t 0 (omega arith)
