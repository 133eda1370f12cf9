-- ===== src/Sort/Sorted/Whole.antt =====
-- runtime/container.c: where the comparison is a strict weak order, the introsort and the two entry
-- points sort.
use loke.Prelude.{
  ℕ, zero, suc, ◌+◌, ◌-◌, ◌≤◌, ◌<◌, ◌≡◌, ◌⊎◌, refl, inl, inr, Bool, true, false, some, List, ◌||◌,
  arith, ltb, ◌==◌, if◌then◌else◌, length, ltb→lt,
}
use mathlib.Core.List.{Perm}
use loke.Prelude.Outcome.{Outcome, ok, ◌>>=◌, Returns, Returns-map, Returns-ok}
use loke.Sort.{
  Sort, sort_at, sort_before, sort_introsort, depth_limit, sort_all, sort, sort_by, sort_small,
  plain_sort, state_sort,
}
use loke.Sort.Swaps.{Swaps, length-Swaps, Swaps-outside}
use loke.Sort.InBounds.{IsReady}
use loke.Sort.InBounds.Loops.{
  sort_choose_pivot-Returns, sort_partition-Returns, sort_introsort-Returns, sort-Returns,
  sort_by-Returns,
}
use loke.Sort.Order.{
  IsWeakOrder, Ensures, Ensures-ok, Ensures-overrun, Ensures-if, Ensures-bind, Returns-at, Sorted,
  le_at_trans,
}
use loke.Sort.Sorted.{sort_insertion-Sorted}
use loke.Sort.Sorted.Heap.{Swaps-AllBelow, Swaps-AllAbove}
use loke.Sort.Sorted.Drain.{sort_heap-Sorted}
use loke.Sort.Sorted.Partition.{Split, sort_partition-Split}

module _ {A : Type 0} {less : A → A → Bool} {low high pivot : ℕ} {xs ys : List A}
    (p : Split less low high (pivot, xs)) where
  -- Sorting one side keeps the split.
  Split-left : Swaps low pivot xs ys → Split less low high (pivot, ys)
  Split-left v =
      let kept = Swaps-AllBelow less (sort_at xs pivot) v p.below in
      record {
        below = λ k hk h. ground (arith, Swaps-outside v pivot, kept k);
        above = λ k hk h. ground (arith, Swaps-outside v pivot, Swaps-outside v k, p.above k);
      }

  Split-right : Swaps (pivot + 1) high xs ys → Split less low high (pivot, ys)
  Split-right v =
      let kept = Swaps-AllAbove less (sort_at xs pivot) v (λ k hk h. p.above k (omega arith) h) in
      record {
        below = λ k hk h. ground (arith, Swaps-outside v pivot, Swaps-outside v k, p.below k);
        above = λ k hk h. ground (arith, Swaps-outside v pivot, kept k);
      }

Sorted-outside :
    {A : Type 0} (less : A → A → Bool) {low high a b : ℕ} {xs ys : List A}
    → Swaps a b xs ys
    → (high ≤ a) ⊎ (b ≤ low)
    → Sorted less low high xs
    → Sorted less low high ys
Sorted-outside less v o so k l hk kl hh =
    ground (arith, Swaps-outside v k, Swaps-outside v l, so k l hk kl hh)

-- What comes back satisfies both.
both :
    {B : Type 0} {m : Outcome B} {P Q : B → Type 0}
    → Returns m P
    → Ensures m Q
    → Ensures m (λ b. P b × Q b)
both r e = record { holds = λ b eq. (Returns-at r b eq, e.holds b eq) }

Returns_also :
    {B : Type 0} {m : Outcome B} {P Q : B → Type 0}
    → Returns m P
    → Ensures m Q
    → Returns m (λ b. Q b × P b)
Returns_also r e = record {
  value = r.value;
  equals = r.equals;
  holds = (e.holds r.value r.equals, r.holds);
}

module _ {S A : Type 0} (s : Sort S A) {less : A → A → Bool} (order : IsWeakOrder less)
    (plain : (a b : A) → sort_before s a b ≡ ok (less a b)) where
  -- A split whose sides are sorted is sorted.
  Sorted-sides :
      {low high pivot : ℕ} {xs : List A}
      → Split less low high (pivot, xs)
      → Sorted less low pivot xs
      → Sorted less (pivot + 1) high xs
      → Sorted less low high xs
  Sorted-sides {pivot} {xs} p l r k m hk km hh = ground (
    arith,
    l k m hk km,
    r k m,
    p.below k,
    p.above m,
    le_at_trans order (sort_at xs k) (sort_at xs pivot) (sort_at xs m),
  )

  -- What sorting a part of the slice ensures.
  abbrev SortsPart : (low high from to : ℕ) → (List A → Outcome (List A)) → Type 0
  SortsPart low high from to f =
      (xs : List A)
      → high ≤ length xs
      → Ensures (f xs) (λ ys. Swaps from to xs ys × Sorted less from to ys)

  module _ {low high pivot : ℕ} {f g : List A → Outcome (List A)} (in_range : pivot < high) where
    left_first :
        (xs : List A)
        → Split less low high (pivot, xs)
        → high ≤ length xs
        → SortsPart low high low pivot f
        → SortsPart low high (pivot + 1) high g
        → Ensures (f xs >>= g) (Sorted less low high)
    left_first xs p h l r = Ensures-bind λ ys e.
        let (v, left) = (l xs h).holds ys e in
        let hy : high ≤ length ys = omega (arith, length-Swaps v) in
        record {
          holds = λ zs e'.
              let (v', right) = (r ys hy).holds zs e' in
              Sorted-sides (Split-right (Split-left p v) v')
                (Sorted-outside less v' (inl (omega arith)) left) right;
        }

    right_first :
        (xs : List A)
        → Split less low high (pivot, xs)
        → high ≤ length xs
        → SortsPart low high (pivot + 1) high f
        → SortsPart low high low pivot g
        → Ensures (f xs >>= g) (Sorted less low high)
    right_first xs p h r l = Ensures-bind λ ys e.
        let (v, right) = (r xs h).holds ys e in
        let hy : high ≤ length ys = omega (arith, length-Swaps v) in
        record {
          holds = λ zs e'.
              let (v', left) = (l ys hy).holds zs e' in
              Sorted-sides (Split-left (Split-right p v) v') left
                (Sorted-outside less v' (inr (omega arith)) right);
        }

  module _ (ready : IsReady s) where
    pub sort_introsort-Sorted :
        (fuel low high depth : ℕ) (xs : List A)
        → low ≤ high
        → high < low + fuel
        → high ≤ length xs
        → Ensures (sort_introsort s fuel low high depth xs) (Sorted less low high)
    unfolding sort_introsort
    sort_introsort-Sorted zero low high depth xs l f h = Ensures-overrun
    sort_introsort-Sorted (suc fuel) low high depth xs l f h =
        Ensures-if (ltb sort_small (high - low))
          (λ t.
            let lt = ltb→lt sort_small (high - low) t in
            let part =
              λ (from to : ℕ) (hf : from ≤ to) (ht : to ≤ high) (hs : to < from + fuel)
                  (us : List A) (hu : high ≤ length us).
                both
                  (sort_introsort-Returns s ready fuel from to (depth - 1) us hf hs (omega arith))
                  (sort_introsort-Sorted fuel from to (depth - 1) us hf hs (omega arith)) in
            Ensures-if (depth == 0) (λ _. sort_heap-Sorted s order plain ready low high xs l h)
              (λ _. Ensures-bind λ ys ey.
                let w =
                  Returns-at (sort_choose_pivot-Returns s ready low high xs (omega arith) h) ys
                    ey in
                let hy : high ≤ length ys = omega (arith, length-Swaps w) in
                Ensures-bind λ r er.
                  let q =
                    Returns-at (sort_partition-Returns s ready low high ys (omega arith) hy) r er in
                  let split =
                    (sort_partition-Split s order plain ready low high ys (omega arith) hy).holds r
                      er in
                  let from = q.from in
                  let before = q.before in
                  let hz : high ≤ length r.1 = omega (arith, length-Swaps q.swaps) in
                  let left = part low r.0 from (omega arith) (omega arith) in
                  let right = part (r.0 + 1) high (omega arith) (omega arith) (omega arith) in
                  Ensures-if (ltb (r.0 - low) (high - r.0 - 1))
                    (λ _. left_first before r.1 split hz left right)
                    (λ _. right_first before r.1 split hz right left)))
          (λ _. sort_insertion-Sorted s order plain ready low high xs l h)

    pub sort_all-Sorted :
        (count : ℕ) (xs : List A)
        → count ≤ length xs
        → Ensures (sort_all s count xs) (Sorted less 0 count)
    unfolding sort_all
    sort_all-Sorted count xs h =
        sort_introsort-Sorted (count + 1) 0 count (depth_limit count count 0) xs (omega arith)
          (omega arith) h

-- The order that `descending` asks for.
abbrev pub directed : {A : Type 0} → (A → A → Bool) → Bool → A → A → Bool
directed less descending a b = if descending then less b a else less a b

directed-IsWeakOrder :
    {A : Type 0} {less : A → A → Bool} (descending : Bool)
    → IsWeakOrder less
    → IsWeakOrder (directed less descending)
directed-IsWeakOrder true order = record {
  asym = λ a b. order.asym b a;
  trans = λ a b c p q. order.trans c b a q p;
}
directed-IsWeakOrder false order = record { asym = order.asym; trans = order.trans }

-- Where the comparison is a strict weak order and an element has a size, `loke_rt_v1_sort` on a
-- slice of at least `count` elements returns. Then among the first `count` elements none is before
-- an earlier one, in the order that `descending` asks for, the result is a permutation, and it was
-- made by swaps among the first `count` elements.
pub sort-Sorted :
    {A : Type 0} {less : A → A → Bool} (xs : List A) (count elem_size : ℕ) (descending : Bool)
    → IsWeakOrder less
    → 0 < elem_size
    → count ≤ length xs
    → Returns
        (sort xs count elem_size (some less) descending)
        (λ ys. Sorted (directed less descending) 0 count ys × Perm ys xs × Swaps 0 count xs ys)
unfolding sort sort_before
sort-Sorted {less} xs count elem_size descending order hs h =
    Returns-map
      (Returns_also (sort-Returns xs count elem_size (some less) descending h) (
        Ensures-if (ltb count 2 || elem_size == 0)
          (λ t. Ensures-ok xs λ k l hk kl hh. absurd (ground arith))
          (λ _.
            sort_all-Sorted (plain_sort elem_size less descending)
              (directed-IsWeakOrder descending order) (λ a b. refl)
              (λ a b. Returns-ok (directed less descending a b) tt) count xs h)))
      (λ ys p. (p.0, p.1.0, p.1.1))

-- Where the comparison is a strict weak order under the given state and an element has a size,
-- `loke_rt_v1_sort_by` on a slice of at least `count` elements returns. Then among the first
-- `count` elements none is before an earlier one, the result is a permutation, and it was made
-- by swaps among the first `count` elements.
pub sort_by-Sorted :
    {S A : Type 0} (less : S → A → A → Bool) (xs : List A) (count elem_size : ℕ) (state : S)
    → IsWeakOrder (less state)
    → 0 < elem_size
    → count ≤ length xs
    → Returns
        (sort_by xs count elem_size state (some less))
        (λ ys. Sorted (less state) 0 count ys × Perm ys xs × Swaps 0 count xs ys)
unfolding sort_by sort_before
sort_by-Sorted less xs count elem_size state order hs h =
    Returns-map
      (Returns_also (sort_by-Returns xs count elem_size state (some less) h) (
        Ensures-if (ltb count 2 || elem_size == 0)
          (λ t. Ensures-ok xs λ k l hk kl hh. absurd (ground arith))
          (λ _.
            sort_all-Sorted (state_sort elem_size state less) order (λ a b. refl)
              (λ a b. Returns-ok (less state a b) tt) count xs h)))
      (λ ys p. (p.0, p.1.0, p.1.1))
