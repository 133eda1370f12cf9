-- ===== src/Sort/Sorted/Heap.antt =====
-- runtime/container.c: where the comparison is a strict weak order, the heap sort sorts.
use loke.Prelude.{
  ℕ, zero, suc, ◌+◌, ◌-◌, ◌*◌, ◌≤◌, ◌<◌, ◌≡◌, ◌≢◌, ap, ◌∙◌, Bool, true, false, List, arith, ltb,
  leb, if◌then◌else◌, length, ltb→lt, leb→le,
}
use loke.Prelude.Outcome.{Outcome, ok}
use loke.Sort.{Sort, sort_at, sort_before, before_at, larger_child, sort_sift_down}
use loke.Sort.Swaps.{sort_at-Returns, Swapped, Swaps, stay, swapped}
use loke.Sort.InBounds.{IsReady, larger_child-Returns}
use loke.Sort.Order.{
  IsWeakOrder, Ensures, Ensures-ok, Ensures-overrun, Ensures-if, Ensures-bind, Returns-at,
  swap_Ensures, le_at, AllBelow, AllAbove, le_at_trans, le_at_refl, before_at-true, before_at-false,
}

-- Swaps inside a range keep a bound on all of it.
pub Swaps-AllBelow :
    {A : Type 0} (less : A → A → Bool) {low high : ℕ} {xs ys : List A} (o : Outcome A)
    → Swaps low high xs ys
    → AllBelow less low high o xs
    → AllBelow less low high o ys
Swaps-AllBelow less o stay p = p
Swaps-AllBelow less o (swapped {ys} i j hi hj w q) p =
    let ih = Swaps-AllBelow less o q p in
    λ k hk h. ground (arith, w.elsewhere k, w.at_i, w.at_j, ih k, ih i, ih j)

pub Swaps-AllAbove :
    {A : Type 0} (less : A → A → Bool) {low high : ℕ} {xs ys : List A} (o : Outcome A)
    → Swaps low high xs ys
    → AllAbove less low high o xs
    → AllAbove less low high o ys
Swaps-AllAbove less o stay p = p
Swaps-AllAbove less o (swapped {ys} i j hi hj w q) p =
    let ih = Swaps-AllAbove less o q p in
    λ k hk h. ground (arith, w.elsewhere k, w.at_i, w.at_j, ih k, ih i, ih j)

-- `c` is one of the two children of `n` in a heap whose root is at `low`.
abbrev pub IsChild : (low n c : ℕ) → Type 0
IsChild low n c = (n + n + 1 ≤ c + low) × (c + low ≤ n + n + 2)

module _ {A : Type 0} (less : A → A → Bool) where
  -- No child is above its parent, for the parents from `from` on.
  abbrev pub IsHeap : (low from end : ℕ) → List A → Type 0
  IsHeap low from end xs =
      (n c : ℕ)
      → from ≤ n
      → IsChild low n c
      → c < end
      → le_at less (sort_at xs c) (sort_at xs n) ≡ true

  -- The same but for the children of `node`, which are not above the parent of `node`.
  pub record HeapBut (low from node end : ℕ) (xs : List A) : Type 0 where
    pub others :
        (n c : ℕ)
        → from ≤ n
        → n ≢ node
        → IsChild low n c
        → c < end
        → le_at less (sort_at xs c) (sort_at xs n) ≡ true
    pub grand :
        (n c : ℕ)
        → from ≤ n
        → IsChild low n node
        → IsChild low node c
        → c < end
        → le_at less (sort_at xs c) (sort_at xs n) ≡ true

  record Larger (low node end : ℕ) (xs : List A) (child : ℕ) : Type 0 where
    is_child : IsChild low node child
    above :
        (c : ℕ) → IsChild low node c → c < end → le_at less (sort_at xs c) (sort_at xs child) ≡ true

module _ {S A : Type 0} (s : Sort S A) {less : A → A → Bool} (order : IsWeakOrder less)
    (plain : (a b : A) → sort_before s a b ≡ ok (less a b)) where
  pub at_refl :
      (xs : List A) (i : ℕ) → i < length xs → le_at less (sort_at xs i) (sort_at xs i) ≡ true
  at_refl xs i h =
      let r = sort_at-Returns xs i h in let e = r.equals in rw e (le_at_refl order r.value)

  Larger-by :
      (low node child end : ℕ) (xs : List A)
      → child + low ≡ node + node + 1
      → child + 1 < end
      → end ≤ length xs
      → (b : Bool) → before_at s child (child + 1) xs ≡ ok b
      → Larger less low node end xs (if b then child + 1 else child)
  Larger-by low node child end xs e lt h true eb =
      let step = before_at-true s order plain child (child + 1) xs eb in
      let next = at_refl xs (child + 1) (omega arith) in
      record {
        is_child = (omega arith, omega arith);
        above = λ c ic hc. ground (arith, ic.0, ic.1);
      }
  Larger-by low node child end xs e lt h false eb =
      let step = before_at-false s order plain child (child + 1) xs eb in
      let mine = at_refl xs child (omega arith) in
      record {
        is_child = (omega arith, omega arith);
        above = λ c ic hc. ground (arith, ic.0, ic.1);
      }

  larger_child-Larger :
      (low node child end : ℕ) (xs : List A)
      → low ≤ node
      → child + low ≡ node + node + 1
      → child < end
      → end ≤ length xs
      → Ensures (larger_child s child end xs) (Larger less low node end xs)
  unfolding larger_child
  larger_child-Larger low node child end xs l e hc h =
      let mine = at_refl xs child (omega arith) in
      Ensures-if (ltb (child + 1) end)
        (λ t.
          let lt = ltb→lt (child + 1) end t in
          Ensures-bind λ b eb.
            Ensures-ok (if b then child + 1 else child)
              (Larger-by low node child end xs e lt h b eb))
        (λ t. Ensures-ok child (record {
          is_child = (omega arith, omega arith);
          above = λ c ic hc. let same : c ≡ child = ground arith in ground (arith, mine);
        }))

  module _ {low from node child end : ℕ} {xs : List A} (p : HeapBut less low from node end xs)
      (g : Larger less low node end xs child) (hc : child < end) where
    sifted : le_at less (sort_at xs child) (sort_at xs node) ≡ true → IsHeap less low from end xs
    sifted step n c hn ic ce = ground (
      arith,
      p.others n c hn,
      g.above c,
      le_at_trans order (sort_at xs c) (sort_at xs child) (sort_at xs node),
    )

    moved :
        low ≤ node
        → from ≤ node
        → (ys : List A) → Swapped node child xs ys
        → le_at less (sort_at xs node) (sort_at xs child) ≡ true
        → HeapBut less low from child end ys
    moved hl hf ys w step = record {
      others = λ n c hn ne ic ce. ground (
        arith,
        ic,
        g.is_child,
        g.above c,
        p.others n c hn,
        p.grand n child hn,
        w.elsewhere n,
        w.elsewhere c,
        w.at_i,
        w.at_j,
      );
      grand = λ n c hn ip ic ce.
          ground (arith, ip, ic, g.is_child, p.others child c, w.elsewhere c, w.at_i);
    }

  pub sort_sift_down-IsHeap :
      (ready : IsReady s) (fuel low from node end : ℕ) (xs : List A)
      → low ≤ from
      → from ≤ node
      → node < end
      → end ≤ length xs
      → HeapBut less low from node end xs
      → Ensures (sort_sift_down s fuel low node end xs) (IsHeap less low from end)
  unfolding sort_sift_down
  sort_sift_down-IsHeap ready zero low from node end xs hl hf hn h p = Ensures-overrun
  sort_sift_down-IsHeap ready (suc fuel) low from node end xs hl hf hn h p =
      let first = 2 * (node - low) + 1 + low in
      Ensures-if (leb end first)
        (λ t.
          let none_in = leb→le end first t in
          Ensures-ok xs λ n c hm ic ce. ground (arith, ic, p.others n c hm))
        (λ t.
          let some_in : first < end = ground arith in
          Ensures-bind λ child ec.
            let r = Returns-at (larger_child-Returns s ready first end xs some_in h) child ec in
            let g =
              (larger_child-Larger low node first end xs (omega arith) (omega arith) some_in
                  h).holds
                child ec in
            Ensures-bind λ b e.
              Ensures-if b
                (λ bt.
                  let step = before_at-true s order plain node child xs (e ∙ ap ok bt) in
                  swap_Ensures node child xs (omega arith) (omega (arith, r.1)) λ ys w.
                    let len = w.same_length in
                    sort_sift_down-IsHeap ready fuel low from child end ys hl (omega (arith, r.0))
                      r.1 (omega arith) (moved p g r.1 (omega arith) hf ys w step))
                (λ bf.
                  let step = before_at-false s order plain node child xs (e ∙ ap ok bf) in
                  Ensures-ok xs (sifted p g r.1 step)))
