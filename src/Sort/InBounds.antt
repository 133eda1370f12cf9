-- ===== src/Sort/InBounds.antt =====
-- runtime/container.c: with any comparison at all, each part of the sorts returns, and all it did
-- was to swap elements of its own range.
pub mod Loops
use loke.Prelude.{
  ℕ, zero, suc, ◌+◌, ◌-◌, ◌*◌, ◌/◌, ◌≤◌, ◌<◌, ◌≡◌, refl, ap, inl, inr, Bool, true, false, List,
  arith, ltb, leb, if◌then◌else◌, length, ltb→lt, leb→le, Bool-cases,
}
use loke.Prelude.Outcome.{
  Outcome, ok, ◌>>=◌, Returns, Returns-bind, Returns-map, Returns-ok, Returns-if,
}
use loke.Sort.{
  Sort, sort_at, sort_before, before_at, sort_swap, place, insert_from, sort_insertion,
  larger_child, sort_sift_down, heapify, drain, sort_heap, swap_if_before, sort_choose_pivot,
}
use loke.Sort.Swaps.{
  sort_at-Returns, Swaps, stay, Swaps-trans, Swaps-weaken, length-Swaps, swap_within,
}

-- The comparison that is to be called is not NULL.
abbrev pub IsReady : {S A : Type 0} → Sort S A → Type 0
IsReady {S} {A} s = (a b : A) → Returns (sort_before s a b) (λ t. Unit)

module _ {S A : Type 0} (s : Sort S A) (ready : IsReady s) where
  pub before_at-Returns :
      (i j : ℕ) (xs : List A)
      → i < length xs
      → j < length xs
      → Returns (before_at s i j xs) (λ t. before_at s i j xs ≡ ok t)
  unfolding before_at
  before_at-Returns i j xs hi hj =
      let a = sort_at-Returns xs i hi in
      let b = sort_at-Returns xs j hj in
      let t = ready a.value b.value in
      let e : before_at s i j xs ≡ ok t.value = rw (a.equals, b.equals) t.equals in
      record { value = t.value; equals = e; holds = e }

  -- A swap inside the range, and what is then done there.
  pub swap_then :
      (low high i j : ℕ) (xs : List A)
      → (low ≤ i) × (i < high)
      → (low ≤ j) × (j < high)
      → high ≤ length xs
      → (f : List A → Outcome (List A))
      → ((ys : List A) → high ≤ length ys → Returns (f ys) (Swaps low high ys))
      → Returns (sort_swap i j xs >>= f) (Swaps low high xs)
  swap_then low high i j xs hi hj h f k =
      Returns-bind (swap_within low high i j xs hi hj h)
        λ ys w. Returns-map (k ys (omega (arith, length-Swaps w))) (λ zs v. Swaps-trans w v)

  -- Swaps of a part, and what is then done in the whole.
  pub Swaps-then :
      {low high low' high' : ℕ} {xs : List A} {m : Outcome (List A)}
      → Returns m (Swaps low' high' xs)
      → low ≤ low'
      → high' ≤ high
      → high ≤ length xs
      → (f : List A → Outcome (List A))
      → ((ys : List A) → high ≤ length ys → Returns (f ys) (Swaps low high ys))
      → Returns (m >>= f) (Swaps low high xs)
  Swaps-then r l h len f k = Returns-bind r λ ys w.
      Returns-map (k ys (omega (arith, length-Swaps w)))
        (λ zs v. Swaps-trans (Swaps-weaken l h w) v)

  pub place-Returns :
      (low high j : ℕ) (xs : List A)
      → j < high
      → high ≤ length xs
      → Returns (place s low j xs) (Swaps low high xs)
  unfolding place
  place-Returns low high zero xs hj h = Returns-ok xs stay
  place-Returns low high (suc j) xs hj h =
      Returns-if (ltb low (suc j))
        (λ t.
          let lt = ltb→lt low (suc j) t in
          Returns-bind (before_at-Returns (suc j) j xs (omega arith) (omega arith)) λ b _.
            Returns-if b
              (λ _.
                swap_then low high (suc j) j xs (omega arith, hj) (omega arith, omega arith) h
                  (place s low j) (λ ys hy. place-Returns low high j ys (omega arith) hy))
              (λ _. Returns-ok xs stay))
        (λ _. Returns-ok xs stay)

  insert_from-Returns :
      (low high rounds i : ℕ) (xs : List A)
      → i + rounds ≤ high
      → high ≤ length xs
      → Returns (insert_from s low rounds i xs) (Swaps low high xs)
  unfolding insert_from
  insert_from-Returns low high zero i xs hi h = Returns-ok xs stay
  insert_from-Returns low high (suc rounds) i xs hi h =
      Swaps-then (place-Returns low high i xs (omega arith) h) (omega arith) (omega arith) h
        (insert_from s low rounds (suc i))
        (λ ys hy. insert_from-Returns low high rounds (suc i) ys (omega arith) hy)

  pub sort_insertion-Returns :
      (low high : ℕ) (xs : List A)
      → low ≤ high
      → high ≤ length xs
      → Returns (sort_insertion s low high xs) (Swaps low high xs)
  unfolding sort_insertion
  sort_insertion-Returns low high xs l h = elim (Bool-cases (ltb low high)) [
    | inl t ↦
        insert_from-Returns low high (high - (low + 1)) (low + 1) xs
          (omega (arith, ltb→lt low high t)) h
    | inr t ↦
        let none_left : high - (low + 1) ≡ 0 = ground arith in
        rw (none_left, insert_from) (Returns-ok xs stay)
  ]

  pub larger_child-Returns :
      (child end : ℕ) (xs : List A)
      → child < end
      → end ≤ length xs
      → Returns (larger_child s child end xs) (λ c. (child ≤ c) × (c < end))
  unfolding larger_child
  larger_child-Returns child end xs hc h =
      Returns-if (ltb (child + 1) end)
        (λ t.
          let lt = ltb→lt (child + 1) end t in
          Returns-bind (before_at-Returns child (child + 1) xs (omega arith) (omega arith))
            λ b _. Returns-ok (if b then child + 1 else child) (ground arith, ground arith))
        (λ _. Returns-ok child (omega arith, hc))

  pub sort_sift_down-Returns :
      (fuel low node end : ℕ) (xs : List A)
      → low ≤ node
      → node < end
      → end < node + fuel
      → end ≤ length xs
      → Returns (sort_sift_down s fuel low node end xs) (Swaps low end xs)
  unfolding sort_sift_down
  sort_sift_down-Returns zero low node end xs l n f h = absurd (omega arith)
  sort_sift_down-Returns (suc fuel) low node end xs l n f h =
      let first = 2 * (node - low) + 1 + low in
      Returns-if (leb end first) (λ _. Returns-ok xs stay)
        (λ t. Returns-bind (larger_child-Returns first end xs (ground arith) h) λ child c.
          Returns-bind (before_at-Returns node child xs (omega arith) (omega arith)) λ b _.
            Returns-if b
              (λ _.
                swap_then low end node child xs (l, n) (omega arith, c.1) h
                  (sort_sift_down s fuel low child end)
                  (λ ys hy.
                    sort_sift_down-Returns fuel low child end ys (omega arith) c.1 (omega arith)
                      hy))
              (λ _. Returns-ok xs stay))

  pub heapify-Returns :
      (low high left : ℕ) (xs : List A)
      → low + left ≤ high
      → high ≤ length xs
      → Returns (heapify s low high left xs) (Swaps low high xs)
  unfolding heapify
  heapify-Returns low high zero xs l h = Returns-ok xs stay
  heapify-Returns low high (suc left) xs l h =
      Swaps-then
        (sort_sift_down-Returns (high + 1) low (low + left) high xs (omega arith) (omega arith)
          (omega arith) h)
        (omega arith) (omega arith) h (heapify s low high left)
        (λ ys hy. heapify-Returns low high left ys (omega arith) hy)

  drain-Returns :
      (low high left : ℕ) (xs : List A)
      → low + left ≤ high
      → high ≤ length xs
      → Returns (drain s low left xs) (Swaps low high xs)
  unfolding drain
  drain-Returns low high zero xs l h = Returns-ok xs stay
  drain-Returns low high (suc left) xs l h =
      Returns-if (ltb 0 left)
        (λ t.
          let lt = ltb→lt 0 left t in
          swap_then low high low (low + left) xs (omega arith, omega arith)
            (omega arith, omega arith) h
            (λ ys. sort_sift_down s (low + left + 1) low low (low + left) ys >>= λ zs.
              drain s low left zs)
            (λ ys hy.
              Swaps-then
                (sort_sift_down-Returns (low + left + 1) low low (low + left) ys (omega arith)
                  (omega arith) (omega arith) (omega arith))
                (omega arith) (omega arith) hy (drain s low left)
                (λ zs hz. drain-Returns low high left zs (omega arith) hz)))
        (λ _. Returns-ok xs stay)

  pub sort_heap-Returns :
      (low high : ℕ) (xs : List A)
      → low ≤ high
      → high ≤ length xs
      → Returns (sort_heap s low high xs) (Swaps low high xs)
  unfolding sort_heap
  sort_heap-Returns low high xs l h =
      Swaps-then (heapify-Returns low high ((high - low) / 2) xs (omega arith) h) (omega arith)
        (omega arith) h (drain s low (high - low))
        (λ ys hy. drain-Returns low high (high - low) ys (omega arith) hy)
