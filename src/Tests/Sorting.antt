-- ===== src/Tests/Sorting.antt =====
-- The theorems on the sorts of runtime/container.c at concrete inputs.
use loke.Prelude.{ℕ, ◌*◌, ◌≡◌, refl, Bool, true, false, some, List, [], ◌∷◌, arith, ltb}
use mathlib.Core.List.{Perm}
use loke.Prelude.Outcome.{ok, Returns}
use loke.Sort.{sort, sort_by}
use loke.Sort.Swaps.{Swaps}
use loke.Sort.Order.{IsWeakOrder, Sorted}
use loke.Sort.InBounds.Loops.{sort-Returns}
use loke.Sort.Sorted.Whole.{directed, sort-Sorted, sort_by-Sorted}

ltb-IsWeakOrder : IsWeakOrder ltb
ltb-IsWeakOrder = record { asym = λ a b h. ground arith; trans = λ a b c h k. ground arith }

-- Longer than an insertion sort takes.
abbrev eighteen : List ℕ
eighteen = 9 ∷ 3 ∷ 17 ∷ 4 ∷ 11 ∷ 0 ∷ 8 ∷ 8 ∷ 2 ∷ 16 ∷ 5 ∷ 13 ∷ 1 ∷ 7 ∷ 15 ∷ 6 ∷ 12 ∷ 10 ∷ []

sort_runs : sort (3 ∷ 1 ∷ 2 ∷ []) 3 8 (some ltb) true ≡ ok (3 ∷ 2 ∷ 1 ∷ [])
unfolding sort
sort_runs = refl

sort_runs_long :
    sort eighteen 18 8 (some ltb) false
    ≡ ok (0 ∷ 1 ∷ 2 ∷ 3 ∷ 4 ∷ 5 ∷ 6 ∷ 7 ∷ 8 ∷ 8 ∷ 9 ∷ 10 ∷ 11 ∷ 12 ∷ 13 ∷ 15 ∷ 16 ∷ 17 ∷ [])
unfolding sort
sort_runs_long = refl

sort-Sorted_example :
    Returns
      (sort eighteen 18 8 (some ltb) true)
      (λ ys. Sorted (directed ltb true) 0 18 ys × Perm ys eighteen × Swaps 0 18 eighteen ys)
sort-Sorted_example = sort-Sorted eighteen 18 8 true ltb-IsWeakOrder (omega arith) (omega arith)

-- Compares the products with the state.
abbrev product_less : ℕ → ℕ → ℕ → Bool
product_less state a b = ltb (a * state) (b * state)

product_less-IsWeakOrder : IsWeakOrder (product_less 3)
product_less-IsWeakOrder = record {
  asym = λ a b h. ground arith;
  trans = λ a b c h k. ground arith;
}

sort_by-Sorted_example :
    Returns
      (sort_by eighteen 18 8 3 (some product_less))
      (λ ys. Sorted (product_less 3) 0 18 ys × Perm ys eighteen × Swaps 0 18 eighteen ys)
sort_by-Sorted_example =
    sort_by-Sorted product_less eighteen 18 8 3 product_less-IsWeakOrder (omega arith) (omega arith)

-- A comparison that answers "before" to everything.
abbrev always : ℕ → ℕ → Bool
always a b = true

sort-Returns_example :
    Returns
      (sort eighteen 18 8 (some always) false)
      (λ ys. Perm ys eighteen × Swaps 0 18 eighteen ys)
sort-Returns_example = sort-Returns eighteen 18 8 (some always) false (omega arith)
