-- ===== src/Sort/Sorted/Partition.antt =====
-- runtime/container.c: where the comparison is a strict weak order, the partition splits its range
-- at the pivot.
use loke.Prelude.{
  ℕ, zero, suc, ◌+◌, ◌-◌, ◌≤◌, ◌<◌, ◌≡◌, ap, ◌∙◌, Bool, true, List, arith, ltb, leb, length, leb→le,
}
use loke.Prelude.Outcome.{ok}
use loke.Sort.{Sort, sort_at, sort_before, scan_up, scan_down, partition_from, sort_partition}
use loke.Sort.Swaps.{Swapped, sort_swap-Returns}
use loke.Sort.InBounds.{IsReady}
use loke.Sort.InBounds.Loops.{scan_up-Returns, scan_down-Returns}
use loke.Sort.Order.{
  IsWeakOrder, Ensures, Ensures-ok, Ensures-overrun, Ensures-if, Ensures-bind, Returns-at, le_at,
  AllBelow, AllAbove, before_at-true, before_at-false,
}

-- Nothing before the pivot is above it, and nothing behind the pivot is below it.
pub record Split {A : Type 0} (less : A → A → Bool) (low high : ℕ) (r : ℕ × List A) : Type 0 where
  pub below : AllBelow less low r.0 (sort_at r.1 r.0) r.1
  pub above : AllAbove less (suc r.0) high (sort_at r.1 r.0) r.1

-- The pivot stands at `low`; what the scans have passed is on its side.
record Scanned {A : Type 0} (less : A → A → Bool) (low high i j : ℕ) (xs : List A) : Type 0 where
  left : AllBelow less (suc low) (suc i) (sort_at xs low) xs
  right : AllAbove less j high (sort_at xs low) xs

record Up {A : Type 0} (less : A → A → Bool) (low high : ℕ) (xs : List A) (i : ℕ) : Type 0 where
  passed : AllBelow less (suc low) i (sort_at xs low) xs
  stop : i < high → le_at less (sort_at xs low) (sort_at xs i) ≡ true

record Down {A : Type 0} (less : A → A → Bool) (low high : ℕ) (xs : List A) (j : ℕ) : Type 0 where
  passed : AllAbove less (suc j) high (sort_at xs low) xs
  stop : low < j → le_at less (sort_at xs j) (sort_at xs low) ≡ true

module _ {S A : Type 0} (s : Sort S A) {less : A → A → Bool} (order : IsWeakOrder less)
    (plain : (a b : A) → sort_before s a b ≡ ok (less a b)) where
  scan_up-Up :
      (fuel low high i : ℕ) (xs : List A)
      → AllBelow less (suc low) (suc i) (sort_at xs low) xs
      → Ensures (scan_up s fuel low high i xs) (Up less low high xs)
  unfolding scan_up
  scan_up-Up zero low high i xs p = Ensures-overrun
  scan_up-Up (suc fuel) low high i xs p =
      Ensures-if (ltb (i + 1) high)
        (λ t. Ensures-bind λ b e.
          Ensures-if b
            (λ bt.
              let step = before_at-true s order plain (i + 1) low xs (e ∙ ap ok bt) in
              scan_up-Up fuel low high (i + 1) xs (λ k hk hi. ground (arith, p k, step)))
            (λ bf.
              let step = before_at-false s order plain (i + 1) low xs (e ∙ ap ok bf) in
              Ensures-ok (i + 1)
                (record { passed = λ k hk hi. p k hk (omega arith); stop = λ _. step })))
        (λ t.
          Ensures-ok (i + 1) (record {
            passed = λ k hk hi. p k hk (omega arith);
            stop = λ h. absurd (ground arith);
          }))

  scan_down-Down :
      (low high j : ℕ) (xs : List A)
      → AllAbove less j high (sort_at xs low) xs
      → Ensures (scan_down s low j xs) (Down less low high xs)
  unfolding scan_down
  scan_down-Down low high zero xs p = Ensures-overrun
  scan_down-Down low high (suc j) xs p =
      Ensures-if (ltb low j)
        (λ t. Ensures-bind λ b e.
          Ensures-if b
            (λ bt.
              let step = before_at-true s order plain low j xs (e ∙ ap ok bt) in
              scan_down-Down low high j xs (λ k hk hi. ground (arith, p k, step)))
            (λ bf.
              let step = before_at-false s order plain low j xs (e ∙ ap ok bf) in
              Ensures-ok j (record { passed = p; stop = λ _. step })))
        (λ t. Ensures-ok j (record { passed = p; stop = λ h. absurd (ground arith) }))

  module _ {low high i j : ℕ} {xs ys : List A} (u : Up less low high xs i)
      (d : Down less low high xs j) (hi : (low < i) × (i ≤ high))
      (hj : (low ≤ j) × (j < high)) where
    crossed : j ≤ i → Swapped low j xs ys → Split less low high (j, ys)
    crossed ji w = record {
      below = λ k hk h. ground (arith, w.elsewhere k, u.passed k, d.stop, w.at_i, w.at_j);
      above = λ k hk h. ground (arith, w.elsewhere k, d.passed k, w.at_j);
    }

    exchanged : i < j → Swapped i j xs ys → Scanned less low high i j ys
    exchanged ij w = record {
      left = λ k hk h. ground (arith, w.elsewhere k, w.elsewhere low, u.passed k, d.stop, w.at_i);
      right = λ k hk h. ground (arith, w.elsewhere k, w.elsewhere low, d.passed k, u.stop, w.at_j);
    }

  partition_from-Split :
      (ready : IsReady s) (fuel low high i j : ℕ) (xs : List A)
      → (low ≤ i) × (i < high)
      → (low < j) × (j ≤ high)
      → high ≤ length xs
      → Scanned less low high i j xs
      → Ensures (partition_from s fuel low high i j xs) (Split less low high)
  unfolding partition_from
  partition_from-Split ready zero low high i j xs hi hj h p = Ensures-overrun
  partition_from-Split ready (suc fuel) low high i j xs hi hj h p = Ensures-bind λ i' ei.
      Ensures-bind λ j' ej.
        let bi =
          Returns-at (scan_up-Returns s ready (high - i) low high i xs hi.0 hi.1 (omega arith) h) i'
            ei in
        let bj = Returns-at (scan_down-Returns s ready low j xs hj.0 (omega arith)) j' ej in
        let u = (scan_up-Up (high - i) low high i xs p.left).holds i' ei in
        let d = (scan_down-Down low high j xs p.right).holds j' ej in
        Ensures-if (leb j' i')
          (λ t. Ensures-bind λ ys e.
            let w = (Returns-at (sort_swap-Returns low j' xs (omega arith) (omega arith)) ys e).1 in
            Ensures-ok (j', ys)
              (crossed u d (omega arith, bi.1) (bj.0, omega arith) (leb→le j' i' t) w))
          (λ t.
            let apart : i' < j' = ground arith in
            Ensures-bind λ ys e.
              let w =
                (Returns-at (sort_swap-Returns i' j' xs (omega arith) (omega arith)) ys e).1 in
              let len = w.same_length in
              partition_from-Split ready fuel low high i' j' ys (omega arith, omega arith)
                (omega arith, omega arith) (omega arith)
                (exchanged u d (omega arith, bi.1) (bj.0, omega arith) apart w))

  pub sort_partition-Split :
      (ready : IsReady s) (low high : ℕ) (xs : List A)
      → low < high
      → high ≤ length xs
      → Ensures (sort_partition s low high xs) (Split less low high)
  unfolding sort_partition
  sort_partition-Split ready low high xs l h =
      partition_from-Split ready (high - low) low high low high xs (omega arith, l) (l, omega arith)
        h
        (record { left = λ k hk hi. absurd (omega arith); right = λ k hk hi. absurd (omega arith) })
