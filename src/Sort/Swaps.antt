-- ===== src/Sort/Swaps.antt =====
-- runtime/container.c: all that the sorts do to a slice is to swap elements of it.
use loke.Prelude.{
  ℕ, zero, suc, ◌≤◌, ◌<◌, ◌≡◌, ◌≢◌, refl, sym, ap, ◌∙◌, ◌⊎◌, inl, inr, true, false, List, [], ◌∷◌,
  arith, ◌==◌, length, set, length-set, Bool-cases, ==_iff,
}
use mathlib.Core.List.{Perm}
use mathlib.Core.List.Perm
use mathlib.Core.Path.{subst}
use loke.Prelude.Outcome.{ok, Returns, Returns-map, Returns-ok}
use loke.Sort.{sort_at, sort_swap}

module _ {A : Type 0} where
  pub sort_at-Returns :
      (xs : List A) (i : ℕ) → i < length xs → Returns (sort_at xs i) (λ a. sort_at xs i ≡ ok a)
  unfolding sort_at
  sort_at-Returns [] i h = absurd (omega arith)
  sort_at-Returns (x ∷ xs) zero h = Returns-ok x refl
  sort_at-Returns (x ∷ xs) (suc i) h = sort_at-Returns xs i (omega arith)

  ok_injective : {a b : A} → ok a ≡ ok b → a ≡ b
  ok_injective e = cc

  pub sort_at-set_self :
      (xs : List A) (i : ℕ) (v : A) → i < length xs → sort_at (set xs i v) i ≡ ok v
  unfolding sort_at
  sort_at-set_self [] i v h = absurd (omega arith)
  sort_at-set_self (x ∷ xs) zero v h = refl
  sort_at-set_self (x ∷ xs) (suc i) v h = sort_at-set_self xs i v (omega arith)

  pub sort_at-set_ne :
      (xs : List A) (i j : ℕ) (v : A) → i ≢ j → sort_at (set xs i v) j ≡ sort_at xs j
  unfolding sort_at
  sort_at-set_ne [] i j v h = refl
  sort_at-set_ne (x ∷ xs) zero zero v h = absurd (h refl)
  sort_at-set_ne (x ∷ xs) zero (suc j) v h = refl
  sort_at-set_ne (x ∷ xs) (suc i) zero v h = refl
  sort_at-set_ne (x ∷ xs) (suc i) (suc j) v h = sort_at-set_ne xs i j v (λ e. h (ap suc e))

  -- A write exchanges the old element for the new one.
  set-perm :
      (xs : List A) (i : ℕ) {a : A} (v : A) → sort_at xs i ≡ ok a → Perm (a ∷ set xs i v) (v ∷ xs)
  unfolding sort_at
  set-perm [] i v e = absurd (cc)
  set-perm (x ∷ xs) zero {a} v e =
      subst (λ b. Perm (b ∷ v ∷ xs) (v ∷ x ∷ xs)) (ok_injective e) (Perm.swap v x xs)
  set-perm (x ∷ xs) (suc i) {a} v e =
      Perm.trans (Perm.swap x a (set xs i v))
        (Perm.trans (Perm.cons x (set-perm xs i v e)) (Perm.swap v x xs))

  -- A swap of two elements, its cases written out.
  pub record Swapped (i j : ℕ) (xs ys : List A) : Type 0 where
    pub same_length : length ys ≡ length xs
    pub perm : Perm ys xs
    pub at_i : sort_at ys i ≡ sort_at xs j
    pub at_j : sort_at ys j ≡ sort_at xs i
    pub elsewhere : (k : ℕ) → i ≢ k → j ≢ k → sort_at ys k ≡ sort_at xs k

  swap_equal : (i j : ℕ) (xs : List A) → (i == j) ≡ true → sort_swap i j xs ≡ ok xs
  unfolding sort_swap
  swap_equal i j xs e = ground arith

  swap_apart :
      (i j : ℕ) (xs : List A) {a b : A}
      → (i == j) ≡ false
      → sort_at xs i ≡ ok a
      → sort_at xs j ≡ ok b
      → sort_swap i j xs ≡ ok (set (set xs i b) j a)
  unfolding sort_swap
  swap_apart i j xs e p q = rw (e, p, q) refl

  set-set-Swapped :
      (i j : ℕ) (xs : List A) {a b : A}
      → i ≢ j
      → i < length xs
      → j < length xs
      → sort_at xs i ≡ ok a
      → sort_at xs j ≡ ok b
      → Swapped i j xs (set (set xs i b) j a)
  set-set-Swapped i j xs {a} {b} ne hi hj p q =
      let other : sort_at (set xs i b) j ≡ ok b = sort_at-set_ne xs i j b ne ∙ q in
      record {
        same_length = length-set (set xs i b) j a ∙ length-set xs i b;
        perm = Perm.cons_inv (Perm.trans (set-perm (set xs i b) j a other) (set-perm xs i b p));
        at_i =
            sort_at-set_ne (set xs i b) j i a (λ e. ne (sym e))
            ∙ sort_at-set_self xs i b hi
            ∙ sym q;
        at_j = sort_at-set_self (set xs i b) j a (rw length-set hj) ∙ sym p;
        elsewhere = λ k nk mk. sort_at-set_ne (set xs i b) j k a mk ∙ sort_at-set_ne xs i k b nk;
      }

  -- Inside the slice a swap returns.
  pub sort_swap-Returns :
      (i j : ℕ) (xs : List A)
      → i < length xs
      → j < length xs
      → Returns (sort_swap i j xs) (λ ys. (sort_swap i j xs ≡ ok ys) × Swapped i j xs ys)
  sort_swap-Returns i j xs hi hj = elim (Bool-cases (i == j)) [
    | inl e ↦
        let same : i ≡ j = (==_iff i j).0 e in
        record {
          value = xs;
          equals = swap_equal i j xs e;
          holds = (
            swap_equal i j xs e,
            record {
              same_length = refl;
              perm = Perm.rfl;
              at_i = ap (sort_at xs) same;
              at_j = ap (sort_at xs) (sym same);
              elsewhere = λ k _ _. refl;
            },
          );
        }
    | inr e ↦
        let a = sort_at-Returns xs i hi in
        let b = sort_at-Returns xs j hj in
        let eq = swap_apart i j xs e a.equals b.equals in
        record {
          value = set (set xs i b.value) j a.value;
          equals = eq;
          holds = (eq, set-set-Swapped i j xs (ground arith) hi hj a.equals b.equals);
        }
  ]

  -- `ys` came from `xs` by swaps of elements that stand from `low` on and before `high`.
  pub data Swaps (low high : ℕ) (xs : List A) : List A → Type 0 where
    stay : Swaps low high xs xs
    swapped :
        {ys zs : List A} (i j : ℕ)
        → (low ≤ i) × (i < high)
        → (low ≤ j) × (j < high)
        → Swapped i j ys zs
        → Swaps low high xs ys
        → Swaps low high xs zs

  pub Swaps-trans :
      {low high : ℕ} {xs ys zs : List A}
      → Swaps low high xs ys
      → Swaps low high ys zs
      → Swaps low high xs zs
  Swaps-trans p stay = p
  Swaps-trans p (swapped i j hi hj w q) = swapped i j hi hj w (Swaps-trans p q)

  pub Swaps-weaken :
      {low high low' high' : ℕ} {xs ys : List A}
      → low' ≤ low
      → high ≤ high'
      → Swaps low high xs ys
      → Swaps low' high' xs ys
  Swaps-weaken l h stay = stay
  Swaps-weaken l h (swapped i j hi hj w q) =
      swapped i j (omega arith, omega arith) (omega arith, omega arith) w (Swaps-weaken l h q)

  pub length-Swaps : {low high : ℕ} {xs ys : List A} → Swaps low high xs ys → length ys ≡ length xs
  length-Swaps stay = refl
  length-Swaps (swapped i j hi hj w q) = w.same_length ∙ length-Swaps q

  pub Swaps-perm : {low high : ℕ} {xs ys : List A} → Swaps low high xs ys → Perm ys xs
  Swaps-perm stay = Perm.rfl
  Swaps-perm (swapped i j hi hj w q) = Perm.trans w.perm (Swaps-perm q)

  -- What stands outside the range stays.
  pub Swaps-outside :
      {low high : ℕ} {xs ys : List A}
      → Swaps low high xs ys
      → (k : ℕ) → (k < low) ⊎ (high ≤ k)
      → sort_at ys k ≡ sort_at xs k
  Swaps-outside stay k o = refl
  Swaps-outside (swapped i j hi hj w q) k o =
      w.elsewhere k (ground arith) (ground arith) ∙ Swaps-outside q k o

  pub swap_within :
      (low high i j : ℕ) (xs : List A)
      → (low ≤ i) × (i < high)
      → (low ≤ j) × (j < high)
      → high ≤ length xs
      → Returns (sort_swap i j xs) (Swaps low high xs)
  swap_within low high i j xs hi hj h =
      Returns-map (sort_swap-Returns i j xs (omega arith) (omega arith))
        λ ys (_, w). swapped i j hi hj w stay
