-- ===== src/Sort/InBounds/Loops.antt =====
-- runtime/container.c: with any comparison at all the partition, the introsort and the two entry
-- points return, and rearrange the slice by swaps inside it.
use loke.Prelude.{
  ℕ, zero, suc, ◌+◌, ◌-◌, ◌/◌, ◌≤◌, ◌<◌, Bool, Option, none, some, List, ◌||◌, arith, ltb, leb,
  ◌==◌, if◌then◌else◌, length, ltb→lt,
}
use mathlib.Core.List.{Perm}
use mathlib.Core.List.Perm
use loke.Prelude.Outcome.{
  Outcome, ok, ◌>>=◌, Returns, Returns-bind, Returns-map, Returns-ok, Returns-if,
}
use loke.Sort.{
  Sort, sort_before, sort_swap, swap_if_before, sort_choose_pivot, scan_up, scan_down, before_at,
  partition_from, sort_partition, sort_introsort, depth_limit, sort_all, sort, sort_by, sort_small,
  plain_sort, state_sort,
}
use loke.Sort.Swaps.{Swaps, stay, Swaps-trans, Swaps-weaken, Swaps-perm, length-Swaps, swap_within}
use loke.Sort.InBounds.{
  IsReady, before_at-Returns, swap_then, Swaps-then, sort_insertion-Returns, sort_heap-Returns,
}

-- A pivot inside the range, and a slice that came from `xs` by swaps inside the range.
pub record Parted {A : Type 0} (low high : ℕ) (xs : List A) (r : ℕ × List A) : Type 0 where
  pub from : low ≤ r.0
  pub before : r.0 < high
  pub swaps : Swaps low high xs r.1

module _ {S A : Type 0} (s : Sort S A) (ready : IsReady s) where
  swap_if_before-Returns :
      (low high i j : ℕ) (xs : List A)
      → (low ≤ i) × (i < high)
      → (low ≤ j) × (j < high)
      → high ≤ length xs
      → Returns (swap_if_before s i j xs) (Swaps low high xs)
  unfolding swap_if_before
  swap_if_before-Returns low high i j xs hi hj h =
      Returns-bind (before_at-Returns s ready i j xs (omega arith) (omega arith))
        λ b _. Returns-if b (λ _. swap_within low high i j xs hi hj h) (λ _. Returns-ok xs stay)

  pub sort_choose_pivot-Returns :
      (low high : ℕ) (xs : List A)
      → low < high
      → high ≤ length xs
      → Returns (sort_choose_pivot s low high xs) (Swaps low high xs)
  unfolding sort_choose_pivot
  sort_choose_pivot-Returns low high xs l h =
      let mid = low + (high - low) / 2 in
      let last = high - 1 in
      let in_low : (low ≤ low) × (low < high) = (omega arith, l) in
      let in_mid : (low ≤ mid) × (mid < high) = (omega arith, omega arith) in
      let in_last : (low ≤ last) × (last < high) = (omega arith, omega arith) in
      Swaps-then s ready (swap_if_before-Returns low high mid low xs in_mid in_low h) (omega arith)
        (omega arith) h
        (λ ys. before_at s last mid ys >>= λ before.
          (if before then sort_swap last mid ys >>= (λ zs. swap_if_before s mid low zs) else ok ys)
          >>= λ zs. sort_swap low mid zs)
        (λ ys hy.
          Returns-bind (before_at-Returns s ready last mid ys (omega arith) (omega arith)) λ b _.
            Swaps-then s ready
              (Returns-if b
                (λ _.
                  swap_then s ready low high last mid ys in_last in_mid hy
                    (swap_if_before s mid low)
                    (λ zs hz. swap_if_before-Returns low high mid low zs in_mid in_low hz))
                (λ _. Returns-ok ys stay))
              (omega arith) (omega arith) hy (sort_swap low mid)
              (λ zs hz. swap_within low high low mid zs in_low in_mid hz))

  pub scan_up-Returns :
      (fuel low high i : ℕ) (xs : List A)
      → low ≤ i
      → i < high
      → high ≤ i + fuel
      → high ≤ length xs
      → Returns (scan_up s fuel low high i xs) (λ k. (i < k) × (k ≤ high))
  unfolding scan_up
  scan_up-Returns zero low high i xs l n f h = absurd (omega arith)
  scan_up-Returns (suc fuel) low high i xs l n f h =
      Returns-if (ltb (i + 1) high)
        (λ t.
          let lt = ltb→lt (i + 1) high t in
          Returns-bind (before_at-Returns s ready (i + 1) low xs (omega arith) (omega arith)) λ b _.
            Returns-if b
              (λ _.
                Returns-map
                  (scan_up-Returns fuel low high (i + 1) xs (omega arith) lt (omega arith) h)
                  (λ k p. (omega (arith, p.0), p.1)))
              (λ _. Returns-ok (i + 1) (omega arith, omega arith)))
        (λ _. Returns-ok (i + 1) (omega arith, omega arith))

  pub scan_down-Returns :
      (low j : ℕ) (xs : List A)
      → low < j
      → j ≤ length xs
      → Returns (scan_down s low j xs) (λ k. (low ≤ k) × (k < j))
  unfolding scan_down
  scan_down-Returns low zero xs l h = absurd (omega arith)
  scan_down-Returns low (suc j) xs l h =
      Returns-if (ltb low j)
        (λ t.
          let lt = ltb→lt low j t in
          Returns-bind (before_at-Returns s ready low j xs (omega arith) (omega arith)) λ b _.
            Returns-if b
              (λ _.
                Returns-map (scan_down-Returns low j xs lt (omega arith))
                  (λ k p. (p.0, omega (arith, p.1))))
              (λ _. Returns-ok j (omega arith, omega arith)))
        (λ _. Returns-ok j (omega arith, omega arith))

  partition_from-Returns :
      (fuel low high i j : ℕ) (xs : List A)
      → (low ≤ i) × (i < high)
      → (low < j) × (j ≤ high)
      → (i < j) × (j ≤ i + fuel)
      → high ≤ length xs
      → Returns (partition_from s fuel low high i j xs) (Parted low high xs)
  unfolding partition_from
  partition_from-Returns zero low high i j xs hi hj f h = absurd (omega arith)
  partition_from-Returns (suc fuel) low high i j xs hi hj f h =
      Returns-bind (scan_up-Returns (high - i) low high i xs hi.0 hi.1 (omega arith) h) λ i' hi'.
        Returns-bind (scan_down-Returns low j xs hj.0 (omega arith)) λ j' hj'.
          Returns-if (leb j' i')
            (λ _.
              Returns-bind
                (swap_within low high low j' xs (omega arith, omega arith) (hj'.0, omega arith) h)
                λ ys w.
                  Returns-ok (j', ys) (record { from = hj'.0; before = omega arith; swaps = w }))
            (λ t.
              let apart : i' < j' = ground arith in
              Returns-bind
                (swap_within low high i' j' xs (omega arith, omega arith) (hj'.0, omega arith) h)
                λ ys w.
                  Returns-map
                    (partition_from-Returns fuel low high i' j' ys (omega arith, omega arith)
                      (omega arith, omega arith) (apart, omega arith)
                      (omega (arith, length-Swaps w)))
                    λ r p. record {
                      from = p.from;
                      before = p.before;
                      swaps = Swaps-trans w p.swaps;
                    })

  pub sort_partition-Returns :
      (low high : ℕ) (xs : List A)
      → low < high
      → high ≤ length xs
      → Returns (sort_partition s low high xs) (Parted low high xs)
  unfolding sort_partition
  sort_partition-Returns low high xs l h =
      partition_from-Returns (high - low) low high low high xs (omega arith, l) (l, omega arith)
        (l, omega arith) h

  -- Both sides of a pivot, in either order.
  sides :
      {low high : ℕ} {xs : List A} (a b c d : ℕ) {f g : List A → Outcome (List A)}
      → (low ≤ a) × (b ≤ high)
      → (low ≤ c) × (d ≤ high)
      → high ≤ length xs
      → ((ys : List A) → high ≤ length ys → Returns (f ys) (Swaps a b ys))
      → ((ys : List A) → high ≤ length ys → Returns (g ys) (Swaps c d ys))
      → Returns (f xs >>= g) (Swaps low high xs)
  sides {low} {high} {xs} a b c d {f} {g} ab cd h p q =
      Swaps-then s ready (p xs h) ab.0 ab.1 h g
        (λ ys hy. Returns-map (q ys hy) (λ zs w. Swaps-weaken cd.0 cd.1 w))

  pub sort_introsort-Returns :
      (fuel low high depth : ℕ) (xs : List A)
      → low ≤ high
      → high < low + fuel
      → high ≤ length xs
      → Returns (sort_introsort s fuel low high depth xs) (Swaps low high xs)
  unfolding sort_introsort
  sort_introsort-Returns zero low high depth xs l f h = absurd (omega arith)
  sort_introsort-Returns (suc fuel) low high depth xs l f h =
      Returns-if (ltb sort_small (high - low))
        (λ t.
          let lt = ltb→lt sort_small (high - low) t in
          let rest = depth - 1 in
          Returns-if (depth == 0) (λ _. sort_heap-Returns s ready low high xs l h)
            (λ _. Returns-bind (sort_choose_pivot-Returns low high xs (omega arith) h) λ ys w.
              let hy : high ≤ length ys = omega (arith, length-Swaps w) in
              Returns-bind (sort_partition-Returns low high ys (omega arith) hy) λ r p.
                let hz : high ≤ length r.1 = omega (arith, length-Swaps p.swaps) in
                let below = λ (us : List A) (hu : high ≤ length us).
                  sort_introsort-Returns fuel low r.0 rest us p.from (omega (arith, p.before))
                    (omega (arith, p.before)) in
                let above = λ (us : List A) (hu : high ≤ length us).
                  sort_introsort-Returns fuel (r.0 + 1) high rest us (omega (arith, p.before))
                    (omega (arith, p.from)) hu in
                Returns-map
                  (Returns-if (ltb (r.0 - low) (high - r.0 - 1))
                    (λ _.
                      sides low r.0 (r.0 + 1) high (omega arith, omega (arith, p.before))
                        (omega (arith, p.from), omega arith) hz below above)
                    (λ _.
                      sides (r.0 + 1) high low r.0 (omega (arith, p.from), omega arith)
                        (omega arith, omega (arith, p.before)) hz above below))
                  (λ us v. Swaps-trans w (Swaps-trans p.swaps v))))
        (λ _. sort_insertion-Returns s ready low high xs l h)

  pub sort_all-Returns :
      (count : ℕ) (xs : List A)
      → count ≤ length xs
      → Returns (sort_all s count xs) (Swaps 0 count xs)
  unfolding sort_all
  sort_all-Returns count xs h =
      sort_introsort-Returns (count + 1) 0 count (depth_limit count count 0) xs (omega arith)
        (omega arith) h

-- For any comparison, NULL included, sorting a slice of at least `count` elements returns, stays in
-- the first `count` elements, and rearranges them: the result is a permutation, made by swaps of
-- elements among the first `count`.
pub sort-Returns :
    {A : Type 0} (xs : List A) (count elem_size : ℕ) (less : Option (A → A → Bool))
    (descending : Bool)
    → count ≤ length xs
    → Returns (sort xs count elem_size less descending) (λ ys. Perm ys xs × Swaps 0 count xs ys)
unfolding sort sort_before
sort-Returns xs count elem_size none descending h = Returns-ok xs (Perm.rfl, stay)
sort-Returns xs count elem_size (some less) descending h =
    Returns-if (ltb count 2 || elem_size == 0) (λ _. Returns-ok xs (Perm.rfl, stay))
      (λ _.
        Returns-map
          (sort_all-Returns (plain_sort elem_size less descending)
            (λ a b. Returns-ok (if descending then less b a else less a b) tt) count xs h)
          (λ ys w. (Swaps-perm w, w)))

-- For any comparison with a state, NULL included, `loke_rt_v1_sort_by` on a slice of at least
-- `count` elements returns, and the result is a permutation, made by swaps of elements among the
-- first `count`.
pub sort_by-Returns :
    {S A : Type 0} (xs : List A) (count elem_size : ℕ) (state : S)
    (less : Option (S → A → A → Bool))
    → count ≤ length xs
    → Returns (sort_by xs count elem_size state less) (λ ys. Perm ys xs × Swaps 0 count xs ys)
unfolding sort_by sort_before
sort_by-Returns xs count elem_size state none h = Returns-ok xs (Perm.rfl, stay)
sort_by-Returns xs count elem_size state (some less) h =
    Returns-if (ltb count 2 || elem_size == 0) (λ _. Returns-ok xs (Perm.rfl, stay))
      (λ _.
        Returns-map
          (sort_all-Returns (state_sort elem_size state less)
            (λ a b. Returns-ok (less state a b) tt) count xs h)
          (λ ys w. (Swaps-perm w, w)))
