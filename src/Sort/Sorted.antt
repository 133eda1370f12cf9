-- ===== src/Sort/Sorted.antt =====
-- runtime/container.c: where the comparison is a strict weak order, insertion sort sorts.
pub mod Partition
pub mod Heap
pub mod Drain
pub mod Whole
use loke.Prelude.{
  ℕ, zero, suc, ◌+◌, ◌-◌, ◌≤◌, ◌<◌, ◌≡◌, refl, sym, ap, ◌∙◌, inl, inr, Bool, true, false, List,
  arith, ltb, if◌then◌else◌, length, ltb→lt, Bool-cases,
}
use mathlib.Core.Path.{subst}
use loke.Prelude.Outcome.{Outcome, ok, ◌>>=◌, Returns}
use loke.Sort.{Sort, sort_at, sort_swap, sort_before, before_at, place, insert_from, sort_insertion}
use loke.Sort.Swaps.{Swapped, Swaps, length-Swaps}
use loke.Sort.InBounds.{IsReady, place-Returns}
use loke.Sort.Order.{
  IsWeakOrder, Ensures, Ensures-ok, Ensures-if, Ensures-bind, Returns-at, swap_Ensures, le_at,
  Sorted, le_at_trans, before_at-true, before_at-false,
}

-- Sorted but for the element at `j`, which may have to move down.
record Placing {A : Type 0} (less : A → A → Bool) (low j top : ℕ) (xs : List A) : Type 0 where
  below : Sorted less low j xs
  above : Sorted less j top xs
  across :
      (k l : ℕ)
      → low ≤ k
      → k < j
      → j < l
      → l < top
      → le_at less (sort_at xs k) (sort_at xs l) ≡ true

module _ {S A : Type 0} (s : Sort S A) {less : A → A → Bool} (order : IsWeakOrder less)
    (plain : (a b : A) → sort_before s a b ≡ ok (less a b)) where
  module _ {low j top : ℕ} {xs : List A} (p : Placing less low (suc j) top xs) where
    placed_here : before_at s (suc j) j xs ≡ ok false → Sorted less low top xs
    placed_here e k l hk hl ht =
        let step = before_at-false s order plain (suc j) j xs e in
        ground (
          arith,
          p.below k l,
          p.above k l,
          p.across k l,
          p.below k j,
          p.above (suc j) l,
          le_at_trans order (sort_at xs k) (sort_at xs j) (sort_at xs (suc j)),
        )

    moved_down :
        low ≤ j
        → (ys : List A) → Swapped (suc j) j xs ys
        → before_at s (suc j) j xs ≡ ok true
        → Placing less low j top ys
    moved_down hl ys w e = record {
      below = λ k l hk h ht. ground (arith, w.elsewhere k, w.elsewhere l, p.below k l);
      above = λ k l hk h ht. ground (
        arith,
        w.elsewhere k,
        w.elsewhere l,
        p.above (suc j) l,
        p.above k l,
        p.across j l,
        step,
        w.at_i,
        w.at_j,
      );
      across =
          λ k l hk h hh ht. ground (arith, w.elsewhere k, w.elsewhere l, p.across k l, p.below k j);
    }
      where
        step : le_at less (sort_at xs (suc j)) (sort_at xs j) ≡ true
        step = before_at-true s order plain (suc j) j xs e

  -- The element at `j` moves down to its place.
  place-Sorted :
      (low j top : ℕ) (xs : List A)
      → low ≤ j
      → j < top
      → top ≤ length xs
      → Placing less low j top xs
      → Ensures (place s low j xs) (Sorted less low top)
  unfolding place
  place-Sorted low zero top xs hl hj h p =
      Ensures-ok xs λ k l hk lt ht. p.above k l (omega arith) lt ht
  place-Sorted low (suc j) top xs hl hj h p =
      Ensures-if (ltb low (suc j))
        (λ t.
          let lt = ltb→lt low (suc j) t in
          Ensures-bind λ b e.
            Ensures-if b
              (λ bt. swap_Ensures (suc j) j xs (omega arith) (omega arith) λ ys w.
                let len = w.same_length in
                place-Sorted low j top ys (omega arith) (omega arith) (omega (arith, len))
                  (moved_down p (omega arith) ys w (e ∙ ap ok bt)))
              (λ bf. Ensures-ok xs (placed_here p (e ∙ ap ok bf))))
        (λ t. Ensures-ok xs λ k l hk kl ht. p.above k l (ground arith) kl ht)

  insert_from-Sorted :
      (ready : IsReady s) (low rounds i : ℕ) (xs : List A)
      → low < i
      → i + rounds ≤ length xs
      → Sorted less low i xs
      → Ensures (insert_from s low rounds i xs) (Sorted less low (i + rounds))
  unfolding insert_from
  insert_from-Sorted ready low zero i xs hl h so =
      Ensures-ok xs λ k l hk kl ht. so k l hk kl (omega arith)
  insert_from-Sorted ready low (suc rounds) i xs hl h so = Ensures-bind λ ys e.
      let w =
        Returns-at (place-Returns s ready low (suc i) i xs (omega arith) (omega arith)) ys e in
      let len = length-Swaps w in
      let placing : Placing less low i (suc i) xs = record {
        below = so;
        above = λ k l hk kl ht. absurd (omega arith);
        across = λ k l hk hh hl ht. absurd (omega arith);
      } in
      let so' =
        (place-Sorted low i (suc i) xs (omega arith) (omega arith) (omega arith) placing).holds ys
          e in
      let sum : suc i + rounds ≡ i + suc rounds = omega arith in
      subst (λ top. Ensures (insert_from s low rounds (suc i) ys) (Sorted less low top)) sum
        (insert_from-Sorted ready low rounds (suc i) ys (omega arith) (omega (arith, len)) so')

  -- Insertion sort leaves its range sorted.
  pub sort_insertion-Sorted :
      (ready : IsReady s) (low high : ℕ) (xs : List A)
      → low ≤ high
      → high ≤ length xs
      → Ensures (sort_insertion s low high xs) (Sorted less low high)
  unfolding sort_insertion
  sort_insertion-Sorted ready low high xs hl h = elim (Bool-cases (ltb low high)) [
    | inl t ↦
        let lt = ltb→lt low high t in
        let sum : low + 1 + (high - (low + 1)) ≡ high = omega arith in
        subst
          (λ top. Ensures (insert_from s low (high - (low + 1)) (low + 1) xs) (Sorted less low top))
          sum
          (insert_from-Sorted ready low (high - (low + 1)) (low + 1) xs (omega arith) (omega arith)
            (λ k l hk kl ht. absurd (omega arith)))
    | inr t ↦
        let none_left : high - (low + 1) ≡ 0 = ground arith in
        rw (none_left, insert_from) (Ensures-ok xs (λ k l hk kl ht. absurd (ground arith)))
  ]
