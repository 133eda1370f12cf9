-- ===== src/Sort/Order.antt =====
-- runtime/container.c: the order that a comparison stands for, on the elements at two indices.
use loke.Prelude.{
  ℕ, ◌≤◌, ◌<◌, ◌≡◌, refl, ap, ◌∙◌, inl, inr, Bool, true, false, not, List, arith, if◌then◌else◌,
  length, Bool-cases,
}
use mathlib.Core.Path.{subst}
use loke.Prelude.Outcome.{Outcome, ok, panic, abort, exited, overrun, ◌>>=◌, Returns}
use loke.Sort.{Sort, sort_at, sort_swap, sort_before, before_at}
use loke.Sort.Swaps.{Swapped, sort_swap-Returns}

-- A strict weak order: what a comparison for sorting has to be.
pub record IsWeakOrder {A : Type 0} (less : A → A → Bool) : Type 0 where
  pub asym : (a b : A) → less a b ≡ true → less b a ≡ false
  pub trans : (a b c : A) → less b a ≡ false → less c b ≡ false → less c a ≡ false

pub bind-ok :
    {A B : Type 0} (m : Outcome A) (f : A → Outcome B) {b : B}
    → (m >>= f) ≡ ok b
    → (a : A) × (m ≡ ok a) × (f a ≡ ok b)
bind-ok (ok a) f e = (a, refl, e)
bind-ok panic f e = absurd (cc)
bind-ok abort f e = absurd (cc)
bind-ok (exited n) f e = absurd (cc)
bind-ok overrun f e = absurd (cc)

-- Whatever `m` returns satisfies `P`.
pub record Ensures {A : Type 0} (m : Outcome A) (P : A → Type 0) : Type 0 where
  pub holds : (a : A) → m ≡ ok a → P a

module _ {A : Type 0} {P : A → Type 0} where
  pub Ensures-ok : (a : A) → P a → Ensures (ok a) P
  Ensures-ok a p = record { holds = λ b e. subst P (cc) p }

  pub Ensures-overrun : Ensures overrun P
  Ensures-overrun = record { holds = λ b e. absurd (cc) }

  pub Ensures-if :
      (t : Bool) {m n : Outcome A}
      → (t ≡ true → Ensures m P)
      → (t ≡ false → Ensures n P)
      → Ensures (if t then m else n) P
  Ensures-if true f g = f refl
  Ensures-if false f g = g refl

  pub Returns-at : {m : Outcome A} → Returns m P → (a : A) → m ≡ ok a → P a
  Returns-at {m} r a e = subst P (let f = r.equals in cc) r.holds

  pub Ensures-bind :
      {B : Type 0} {m : Outcome B} {f : B → Outcome A}
      → ((b : B) → m ≡ ok b → Ensures (f b) P)
      → Ensures (m >>= f) P
  Ensures-bind {B} {m} {f} k = record {
    holds = λ a e. let (b, p, q) = bind-ok m f e in (k b p).holds a q;
  }

-- A swap inside the slice, and what holds after what is then done.
pub swap_Ensures :
    {A : Type 0} {P : List A → Type 0} (i j : ℕ) (xs : List A) {f : List A → Outcome (List A)}
    → i < length xs
    → j < length xs
    → ((ys : List A) → Swapped i j xs ys → Ensures (f ys) P)
    → Ensures (sort_swap i j xs >>= f) P
swap_Ensures i j xs hi hj k =
    Ensures-bind λ ys e. k ys (Returns-at (sort_swap-Returns i j xs hi hj) ys e).1

module _ {A : Type 0} (less : A → A → Bool) where
  -- Both were read, and the second is not before the first.
  pub le_at : Outcome A → Outcome A → Bool
  le_at (ok a) (ok b) = not (less b a)
  le_at (ok a) _ = false
  le_at _ _ = false

  le_at-of_less : (a b : A) → less b a ≡ false → le_at (ok a) (ok b) ≡ true
  unfolding le_at
  le_at-of_less a b e = ground arith

  -- No element from `low` on and before `high` is before an earlier one.
  abbrev pub Sorted : (low high : ℕ) → List A → Type 0
  Sorted low high xs =
      (k l : ℕ) → low ≤ k → k < l → l < high → le_at (sort_at xs k) (sort_at xs l) ≡ true

  -- No element of a range is above the value `o`, or below it.
  abbrev pub AllBelow : (low high : ℕ) → Outcome A → List A → Type 0
  AllBelow low high o xs = (k : ℕ) → low ≤ k → k < high → le_at (sort_at xs k) o ≡ true

  abbrev pub AllAbove : (low high : ℕ) → Outcome A → List A → Type 0
  AllAbove low high o xs = (k : ℕ) → low ≤ k → k < high → le_at o (sort_at xs k) ≡ true

module _ {A : Type 0} {less : A → A → Bool} where
  le_at-ok :
      (o p : Outcome A)
      → le_at less o p ≡ true
      → record { a : A; b : A; first : o ≡ ok a; second : p ≡ ok b; le : less b a ≡ false }
  unfolding le_at
  le_at-ok (ok a) (ok b) e = record { a = a; b = b; first = refl; second = refl; le = ground arith }
  le_at-ok (ok a) panic e = absurd (cc)
  le_at-ok (ok a) abort e = absurd (cc)
  le_at-ok (ok a) (exited n) e = absurd (cc)
  le_at-ok (ok a) overrun e = absurd (cc)
  le_at-ok panic p e = absurd (cc)
  le_at-ok abort p e = absurd (cc)
  le_at-ok (exited n) p e = absurd (cc)
  le_at-ok overrun p e = absurd (cc)

  pub le_at_trans :
      IsWeakOrder less
      → (o p q : Outcome A) → le_at less o p ≡ true
      → le_at less p q ≡ true
      → le_at less o q ≡ true
  le_at_trans order o p q e f =
      let x = le_at-ok o p e in
      let y = le_at-ok p q f in
      let xf = x.first in
      let ys = y.second in
      let xs = x.second in
      let yf = y.first in
      let same : x.b ≡ y.a = cc in
      let le' : less y.b x.b ≡ false = ap (less y.b) same ∙ y.le in
      rw (xf, ys) (le_at-of_less less x.a y.b (order.trans x.a x.b y.b x.le le'))

  pub le_at_refl : IsWeakOrder less → (a : A) → le_at less (ok a) (ok a) ≡ true
  le_at_refl order a =
      le_at-of_less less a a (elim (Bool-cases (less a a)) [ inl e ↦ order.asym a a e | inr e ↦ e ])

  module _ {S : Type 0} (s : Sort S A) (order : IsWeakOrder less)
      (plain : (a b : A) → sort_before s a b ≡ ok (less a b)) where
    before_at-ok : (i j : ℕ) (xs : List A) (t : Bool) → before_at s i j xs ≡ ok t → record {
      a : A;
      b : A;
      first : sort_at xs i ≡ ok a;
      second : sort_at xs j ≡ ok b;
      result : less a b ≡ t;
    }
    unfolding before_at
    before_at-ok i j xs t e =
        let (a, p, rest) = bind-ok (sort_at xs i) _ e in
        let (b, q, last) = bind-ok (sort_at xs j) _ rest in
        let known = plain a b in record { a = a; b = b; first = p; second = q; result = cc }

    -- An answer of the comparison as an order of the two elements.
    pub before_at-true :
        (i j : ℕ) (xs : List A)
        → before_at s i j xs ≡ ok true
        → le_at less (sort_at xs i) (sort_at xs j) ≡ true
    before_at-true i j xs e =
        let r = before_at-ok i j xs true e in
        let f = r.first in
        let g = r.second in rw (f, g) (le_at-of_less less r.a r.b (order.asym r.a r.b r.result))

    pub before_at-false :
        (i j : ℕ) (xs : List A)
        → before_at s i j xs ≡ ok false
        → le_at less (sort_at xs j) (sort_at xs i) ≡ true
    before_at-false i j xs e =
        let r = before_at-ok i j xs false e in
        let f = r.first in let g = r.second in rw (f, g) (le_at-of_less less r.b r.a r.result)
