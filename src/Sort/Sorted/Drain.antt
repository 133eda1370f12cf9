-- ===== src/Sort/Sorted/Drain.antt =====
-- runtime/container.c: where the comparison is a strict weak order, the heap sort sorts.
use loke.Prelude.{
  ℕ, zero, suc, ◌+◌, ◌-◌, ◌/◌, ◌≤◌, ◌<◌, ◌≡◌, Bool, true, List, arith, ltb, length, ltb→lt, inr,
}
use mathlib.Core.Path.{subst}
use native.Mathlib.Decide.{dec_lt}
use loke.Prelude.Outcome.{ok}
use loke.Sort.{Sort, sort_at, sort_before, heapify, drain, sort_heap}
use loke.Sort.Swaps.{Swapped, Swaps, length-Swaps, Swaps-outside}
use loke.Sort.InBounds.{IsReady, sort_sift_down-Returns, heapify-Returns}
use loke.Sort.Order.{
  IsWeakOrder, Ensures, Ensures-ok, Ensures-if, Ensures-bind, Returns-at, swap_Ensures, le_at,
  Sorted, AllBelow, le_at_trans,
}
use loke.Sort.Sorted.Heap.{Swaps-AllBelow, IsHeap, HeapBut, at_refl, sort_sift_down-IsHeap}

module _ {S A : Type 0} (s : Sort S A) {less : A → A → Bool} (order : IsWeakOrder less)
    (plain : (a b : A) → sort_before s a b ≡ ok (less a b)) where
  heapify-IsHeap :
      (ready : IsReady s) (low high left : ℕ) (xs : List A)
      → low + left ≤ high
      → high ≤ length xs
      → IsHeap less low (low + left) high xs
      → Ensures (heapify s low high left xs) (IsHeap less low low high)
  unfolding heapify
  heapify-IsHeap ready low high zero xs hl h p =
      Ensures-ok xs λ n c hn ic ce. p n c (omega arith) ic ce
  heapify-IsHeap ready low high (suc left) xs hl h p = Ensures-bind λ ys e.
      let but : HeapBut less low (low + left) (low + left) high xs = record {
        others = λ n c hn ne ic ce. p n c (omega arith) ic ce;
        grand = λ n c hn ip ic ce. absurd (omega (arith, ip.0));
      } in
      let w =
        Returns-at
          (sort_sift_down-Returns s ready (high + 1) low (low + left) high xs (omega arith)
            (omega arith) (omega arith) h)
          ys e in
      let len = length-Swaps w in
      let q =
        (sort_sift_down-IsHeap s order plain ready (high + 1) low (low + left) (low + left) high xs
            (omega arith) (omega arith) (omega arith) h but).holds
          ys e in
      heapify-IsHeap ready low high left ys (omega arith) (omega arith) q

  -- The root of a heap is a largest element.
  root_largest :
      (rounds low end : ℕ) (xs : List A)
      → IsHeap less low low end xs
      → end ≤ length xs
      → (k : ℕ) → low ≤ k
      → k < end
      → k < low + rounds
      → le_at less (sort_at xs k) (sort_at xs low) ≡ true
  root_largest zero low end xs p h k hk he hr = absurd (omega arith)
  root_largest (suc rounds) low end xs p h k hk he hr = elim (dec_lt low k) [
    | no n ↦
        let same : low ≡ k = omega arith in
        subst (λ m. le_at less (sort_at xs m) (sort_at xs low) ≡ true) same
          (at_refl s order plain xs low (omega arith))
    | yes lt ↦
        let parent = low + (k - low - 1) / 2 in
        le_at_trans order (sort_at xs k) (sort_at xs parent) (sort_at xs low)
          (p parent k (omega arith) (omega arith, omega arith) he)
          (root_largest rounds low end xs p h parent (omega arith) (omega arith) (omega arith))
  ]

  -- The heap is in front, and what is behind it is sorted and not below it.
  record Draining (low end high : ℕ) (xs : List A) : Type 0 where
    heap : IsHeap less low low end xs
    behind : Sorted less end high xs
    across :
        (k l : ℕ)
        → low ≤ k
        → k < end
        → end ≤ l
        → l < high
        → le_at less (sort_at xs k) (sort_at xs l) ≡ true

  module _ {low end high : ℕ} {xs ys : List A} (p : Draining low (suc end) high xs)
      (h : high ≤ length xs) (hl : (low ≤ end) × (end < high)) (w : Swapped low end xs ys) where
    top : AllBelow less low (suc end) (sort_at xs low) xs
    top k hk he =
        root_largest (suc (end - low)) low (suc end) xs p.heap (omega arith) k hk he (omega arith)

    swapped_heap : low < end → HeapBut less low low low end ys
    swapped_heap lt = record {
      others = λ n c hn ne ic ce. ground (arith, ic, w.elsewhere n, w.elsewhere c, p.heap n c hn);
      grand = λ n c hn ip ic ce. absurd (omega (arith, ip.0));
    }

    swapped_behind : Sorted less end high ys
    swapped_behind k l hk kl hh =
        ground (arith, w.elsewhere k, w.elsewhere l, w.at_j, p.behind k l, p.across low l)

    swapped_across :
        (k l : ℕ)
        → low ≤ k
        → k < end
        → end ≤ l
        → l < high
        → le_at less (sort_at ys k) (sort_at ys l) ≡ true
    swapped_across k l hk ke el hh = ground (
      arith,
      w.elsewhere k,
      w.elsewhere l,
      w.at_i,
      w.at_j,
      top k,
      top end,
      p.across k l,
      p.across end l,
    )

    sifted_again :
        {zs : List A}
        → low < end
        → Swaps low end ys zs
        → IsHeap less low low end zs
        → Draining low end high zs
    sifted_again {zs} lt v q = record {
      heap = q;
      behind = λ k l hk kl hh. ground (
        arith,
        Swaps-outside v k (inr hk),
        Swaps-outside v l (inr (omega arith)),
        swapped_behind k l hk kl hh,
      );
      across = λ k l hk ke el hh.
          let kept =
            Swaps-AllBelow less (sort_at ys l) v (λ m hm he. swapped_across m l hm he el hh) k hk
              ke in
          ground (arith, Swaps-outside v l (inr el), kept);
    }

  drain-Sorted :
      (ready : IsReady s) (low left high : ℕ) (xs : List A)
      → low + left ≤ high
      → high ≤ length xs
      → Draining low (low + left) high xs
      → Ensures (drain s low left xs) (Sorted less low high)
  unfolding drain
  drain-Sorted ready low zero high xs hl h p =
      Ensures-ok xs λ k l hk kl hh. p.behind k l (omega arith) kl hh
  drain-Sorted ready low (suc left) high xs hl h p =
      let next : low + suc left ≡ suc (low + left) = omega arith in
      let p' = subst (λ end. Draining low end high xs) next p in
      Ensures-if (ltb 0 left)
        (λ t.
          let lt = ltb→lt 0 left t in
          swap_Ensures low (low + left) xs (omega arith) (omega arith) λ ys w. Ensures-bind λ zs e.
            let len = w.same_length in
            let v =
              Returns-at
                (sort_sift_down-Returns s ready (low + left + 1) low low (low + left) ys
                  (omega arith) (omega arith) (omega arith) (omega arith))
                zs e in
            let len' = length-Swaps v in
            let q =
              (sort_sift_down-IsHeap s order plain ready (low + left + 1) low low low (low + left)
                  ys (omega arith) (omega arith) (omega arith) (omega arith)
                  (swapped_heap p' h (omega arith, omega arith) w (omega arith))).holds
                zs e in
            drain-Sorted ready low left high zs (omega arith) (omega arith)
              (sifted_again p' h (omega arith, omega arith) w (omega arith) v q))
        (λ t. Ensures-ok xs λ k l hk kl hh. ground (arith, p'.behind k l, p'.across k l))

  pub sort_heap-Sorted :
      (ready : IsReady s) (low high : ℕ) (xs : List A)
      → low ≤ high
      → high ≤ length xs
      → Ensures (sort_heap s low high xs) (Sorted less low high)
  unfolding sort_heap
  sort_heap-Sorted ready low high xs hl h = Ensures-bind λ ys e.
      let half = (high - low) / 2 in
      let w = Returns-at (heapify-Returns s ready low high half xs (omega arith) h) ys e in
      let len = length-Swaps w in
      let q =
        (heapify-IsHeap ready low high half xs (omega arith) h
            (λ n c hn ic ce. absurd (omega (arith, ic.0)))).holds
          ys e in
      let whole : high ≡ low + (high - low) = omega arith in
      drain-Sorted ready low (high - low) high ys (omega arith) (omega arith) (
        subst (λ end. Draining low end high ys) whole
          (record {
            heap = q;
            behind = λ k l hk kl hh. absurd (omega arith);
            across = λ k l hk ke el hh. absurd (omega arith);
          }))
