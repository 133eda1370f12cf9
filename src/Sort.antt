-- ===== src/Sort.antt =====
-- runtime/container.c: `loke_rt_v1_sort` and `loke_rt_v1_sort_by`. The slice is the list of its
-- elements, and an index is a position in it. A read or a write outside the slice, a call of a NULL
-- comparison and a loop that is still running when its fuel is spent are all `overrun`, so that
-- `ok` says that the call came back and stayed inside the slice.
pub mod Chunks
pub mod Swaps
pub mod InBounds
pub mod Order
pub mod Sorted
use loke.Prelude.{
  ℕ, zero, suc, ◌+◌, ◌-◌, ◌*◌, ◌/◌, Bool, true, false, Option, none, some, List, [], ◌∷◌, ◌||◌, ltb,
  leb, ◌==◌, if◌then◌else◌, set,
}
use loke.Prelude.Outcome.{Outcome, ok, overrun, ◌>>=◌}

-- `loke_rt_sort_v1`; the comparisons are `none` for NULL.
pub record Sort (S A : Type 0) : Type 0 where
  pub size : ℕ
  pub less : Option (A → A → Bool)
  pub less_with_state : Option (S → A → A → Bool)
  pub state : S
  pub descending : Bool

abbrev pub sort_small : ℕ
sort_small = 16

module _ {A : Type 0} where
  unfoldable pub sort_at : List A → ℕ → Outcome A
  sort_at [] index = overrun
  sort_at (x ∷ xs) zero = ok x
  sort_at (x ∷ xs) (suc index) = sort_at xs index

  -- The exchange of two elements, byte for byte.
  unfoldable pub sort_swap : (i j : ℕ) → List A → Outcome (List A)
  unfolding sort_at
  sort_swap i j xs =
      if i == j
      then ok xs
      else sort_at xs i >>= λ a. sort_at xs j >>= λ b. ok (set (set xs i b) j a)

module _ {S A : Type 0} where
  unfoldable pub sort_before : Sort S A → A → A → Outcome Bool
  sort_before s a b = elim s.less_with_state [
    | some less_with_state ↦ ok (less_with_state s.state a b)
    | none ↦ elim s.less [
      | some less ↦ ok (if s.descending then less b a else less a b)
      | none ↦ overrun
    ]
  ]

  -- `sort_before` on the elements at two indices.
  unfoldable pub before_at : Sort S A → (i j : ℕ) → List A → Outcome Bool
  unfolding sort_before sort_at
  before_at s i j xs = sort_at xs i >>= λ a. sort_at xs j >>= λ b. sort_before s a b

  -- The inner loop of `sort_insertion`: the element at `j` moves down.
  unfoldable pub place : Sort S A → (low j : ℕ) → List A → Outcome (List A)
  unfolding before_at sort_swap
  place s low zero xs = ok xs
  place s low (suc j) xs =
      if ltb low (suc j)
      then (before_at s (suc j) j xs >>= λ before.
          if before then sort_swap (suc j) j xs >>= (λ ys. place s low j ys) else ok xs)
      else ok xs

  -- The outer loop, with the rounds that are left, at the index `i`.
  unfoldable pub insert_from : Sort S A → (low rounds i : ℕ) → List A → Outcome (List A)
  unfolding place
  insert_from s low zero i xs = ok xs
  insert_from s low (suc rounds) i xs =
      place s low i xs >>= λ ys. insert_from s low rounds (suc i) ys

  unfoldable pub sort_insertion : Sort S A → (low high : ℕ) → List A → Outcome (List A)
  unfolding insert_from
  sort_insertion s low high xs = insert_from s low (high - (low + 1)) (low + 1) xs

  -- The larger of the children of a node, the first of which is at `child`.
  unfoldable pub larger_child : Sort S A → (child end : ℕ) → List A → Outcome ℕ
  unfolding before_at
  larger_child s child end xs =
      if ltb (child + 1) end
      then (before_at s child (child + 1) xs >>= λ before. ok (if before then child + 1 else child))
      else ok child

  unfoldable pub sort_sift_down : Sort S A → (fuel low node end : ℕ) → List A → Outcome (List A)
  unfolding larger_child before_at sort_swap
  sort_sift_down s zero low node end xs = overrun
  sort_sift_down s (suc fuel) low node end xs =
      let first = 2 * (node - low) + 1 + low in
      if leb end first
      then ok xs
      else (larger_child s first end xs >>= λ child. before_at s node child xs >>= λ before.
          if before
          then sort_swap node child xs >>= (λ ys. sort_sift_down s fuel low child end ys)
          else ok xs)

  -- The first loop of `sort_heap`: `left` nodes from `low` on are still to be sifted.
  unfoldable pub heapify : Sort S A → (low high left : ℕ) → List A → Outcome (List A)
  unfolding sort_sift_down
  heapify s low high zero xs = ok xs
  heapify s low high (suc left) xs =
      sort_sift_down s (high + 1) low (low + left) high xs >>= λ ys. heapify s low high left ys

  -- The second loop: `left` elements from `low` on are still in the heap.
  unfoldable pub drain : Sort S A → (low left : ℕ) → List A → Outcome (List A)
  unfolding sort_sift_down sort_swap
  drain s low zero xs = ok xs
  drain s low (suc left) xs =
      if ltb 0 left
      then (sort_swap low (low + left) xs >>= λ ys.
          sort_sift_down s (low + left + 1) low low (low + left) ys >>= λ zs. drain s low left zs)
      else ok xs

  unfoldable pub sort_heap : Sort S A → (low high : ℕ) → List A → Outcome (List A)
  unfolding heapify drain
  sort_heap s low high xs =
      heapify s low high ((high - low) / 2) xs >>= λ ys. drain s low (high - low) ys

  -- Exchange the elements at `i` and `j` if the one at `i` is before the one at `j`.
  unfoldable pub swap_if_before : Sort S A → (i j : ℕ) → List A → Outcome (List A)
  unfolding before_at sort_swap
  swap_if_before s i j xs =
      before_at s i j xs >>= λ before. if before then sort_swap i j xs else ok xs

  unfoldable pub sort_choose_pivot : Sort S A → (low high : ℕ) → List A → Outcome (List A)
  unfolding swap_if_before before_at sort_swap
  sort_choose_pivot s low high xs =
      let mid = low + (high - low) / 2 in
      let last = high - 1 in
      swap_if_before s mid low xs >>= λ ys. before_at s last mid ys >>= λ before.
      (if before then sort_swap last mid ys >>= (λ zs. swap_if_before s mid low zs) else ok ys)
      >>= λ zs. sort_swap low mid zs

  -- The first inner loop of `sort_partition`; the fuel is the distance to `high`.
  unfoldable pub scan_up : Sort S A → (fuel low high i : ℕ) → List A → Outcome ℕ
  unfolding before_at
  scan_up s zero low high i xs = overrun
  scan_up s (suc fuel) low high i xs =
      if ltb (i + 1) high
      then (before_at s (i + 1) low xs >>= λ before.
          if before then scan_up s fuel low high (i + 1) xs else ok (i + 1))
      else ok (i + 1)

  -- The second inner loop. At `j = 0` the C index would be negative.
  unfoldable pub scan_down : Sort S A → (low j : ℕ) → List A → Outcome ℕ
  unfolding before_at
  scan_down s low zero xs = overrun
  scan_down s low (suc j) xs =
      if ltb low j
      then before_at s low j xs >>= (λ before. if before then scan_down s low j xs else ok j)
      else ok j

  -- The outer loop.
  unfoldable pub partition_from : Sort S A → (fuel low high i j : ℕ) → List A → Outcome (ℕ × List A)
  unfolding scan_up scan_down sort_swap
  partition_from s zero low high i j xs = overrun
  partition_from s (suc fuel) low high i j xs = scan_up s (high - i) low high i xs >>= λ i'.
      scan_down s low j xs >>= λ j'.
      if leb j' i'
      then sort_swap low j' xs >>= (λ ys. ok (j', ys))
      else sort_swap i' j' xs >>= (λ ys. partition_from s fuel low high i' j' ys)

  unfoldable pub sort_partition : Sort S A → (low high : ℕ) → List A → Outcome (ℕ × List A)
  unfolding partition_from
  sort_partition s low high xs = partition_from s (high - low) low high low high xs

  -- The loop and the recursion: both sides of the pivot are sorted, the smaller one first.
  unfoldable pub sort_introsort : Sort S A → (fuel low high depth : ℕ) → List A → Outcome (List A)
  unfolding sort_heap sort_choose_pivot sort_partition sort_insertion
  sort_introsort s zero low high depth xs = overrun
  sort_introsort s (suc fuel) low high depth xs =
      if ltb sort_small (high - low)
      then (if depth == 0
          then sort_heap s low high xs
          else (sort_choose_pivot s low high xs >>= λ ys.
              sort_partition s low high ys >>= λ (pivot, zs).
              if ltb (pivot - low) (high - pivot - 1)
              then sort_introsort s fuel low pivot (depth - 1) zs
                >>= (λ ws. sort_introsort s fuel (pivot + 1) high (depth - 1) ws)
              else sort_introsort s fuel (pivot + 1) high (depth - 1) zs
                >>= (λ ws. sort_introsort s fuel low pivot (depth - 1) ws)))
      else sort_insertion s low high xs

-- `span` is halved until it is 1, and `depth` counts two for each time.
unfoldable pub depth_limit : (fuel span depth : ℕ) → ℕ
depth_limit zero span depth = depth
depth_limit (suc fuel) span depth =
    let rest = depth_limit fuel (span / 2) (depth + 2) in if ltb 1 span then rest else depth

module _ {S A : Type 0} where
  unfoldable pub sort_all : Sort S A → (count : ℕ) → List A → Outcome (List A)
  unfolding depth_limit sort_introsort
  sort_all s count xs = sort_introsort s (count + 1) 0 count (depth_limit count count 0) xs

-- What the two entry points fill in.
abbrev pub plain_sort : {A : Type 0} → ℕ → (A → A → Bool) → Bool → Sort Unit A
plain_sort elem_size less descending = record {
  size = elem_size;
  less = some less;
  less_with_state = none;
  state = tt;
  descending = descending;
}

abbrev pub state_sort : {S A : Type 0} → ℕ → S → (S → A → A → Bool) → Sort S A
state_sort elem_size state less = record {
  size = elem_size;
  less = none;
  less_with_state = some less;
  state = state;
  descending = false;
}

-- `loke_rt_v1_sort`. A count below zero is refused as 0 and 1 are.
module _ {A : Type 0} where
  unfoldable pub sort :
      List A → (count elem_size : ℕ) → Option (A → A → Bool) → Bool → Outcome (List A)
  unfolding sort_all
  sort xs count elem_size none descending = ok xs
  sort xs count elem_size (some less) descending =
      if ltb count 2 || elem_size == 0
      then ok xs
      else sort_all (plain_sort elem_size less descending) count xs

-- `loke_rt_v1_sort_by`.
module _ {S A : Type 0} where
  unfoldable pub sort_by :
      List A → (count elem_size : ℕ) → S → Option (S → A → A → Bool) → Outcome (List A)
  unfolding sort_all
  sort_by xs count elem_size state none = ok xs
  sort_by xs count elem_size state (some less) =
      if ltb count 2 || elem_size == 0
      then ok xs
      else sort_all (state_sort elem_size state less) count xs
