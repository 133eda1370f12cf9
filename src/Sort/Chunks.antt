-- ===== src/Sort/Chunks.antt =====
-- runtime/container.c: the byte loop of `sort_swap`, and the depth limit of `sort_all`.
use loke.Prelude.{
  ℕ, zero, suc, ◌+◌, ◌-◌, ◌*◌, ◌/◌, ◌^◌, ◌≤◌, ◌<◌, ◌≡◌, refl, ap, ◌∙◌, inl, inr, List, [], ◌∷◌,
  ◌++◌, arith, ltb, ◌==◌, if◌then◌else◌, length, take, drop, Bool-cases, ltb→lt,
}
use loke.Sort.{depth_limit}

-- `LOKE_RT_SORT_CHUNK`
abbrev pub sort_chunk : ℕ
sort_chunk = 64

abbrev pub chunk : ℕ → ℕ
chunk left = if ltb left sort_chunk then left else sort_chunk

-- The loop of `sort_swap` over the bytes of the two elements, `left` of which are still to be
-- exchanged: a chunk goes through the buffer, and both pointers move on.
pub swap_bytes : (fuel left : ℕ) → (a b : List ℕ) → List ℕ × List ℕ
swap_bytes zero left a b = (a, b)
swap_bytes (suc fuel) left a b =
    let step = chunk left in
    let rest = swap_bytes fuel (left - step) (drop step a) (drop step b) in
    if left == 0 then (a, b) else (take step b ++ rest.0, take step a ++ rest.1)

take-drop : {A : Type 0} (n : ℕ) (xs : List A) → take n xs ++ drop n xs ≡ xs
take-drop zero xs = refl
take-drop (suc n) [] = refl
take-drop (suc n) (x ∷ xs) = ap (◌∷◌ x) (take-drop n xs)

length-drop : {A : Type 0} (n : ℕ) (xs : List A) → length (drop n xs) ≡ length xs - n
length-drop zero xs = omega arith
length-drop (suc n) [] = omega arith
length-drop (suc n) (x ∷ xs) = omega (arith, length-drop n xs)

empty : {A : Type 0} (xs : List A) → length xs ≡ 0 → xs ≡ []
empty [] e = refl
empty (x ∷ xs) e = absurd (omega arith)

-- For two elements of one size the byte loop exchanges all of their bytes, whatever the size.
pub swap_bytes-exchange :
    (fuel left : ℕ) (a b : List ℕ)
    → left ≤ fuel
    → length a ≡ left
    → length b ≡ left
    → swap_bytes fuel left a b ≡ (b, a)
unfolding swap_bytes
swap_bytes-exchange zero left a b f ha hb =
    let ea = empty a (omega arith) in let eb = empty b (omega arith) in cc
swap_bytes-exchange (suc fuel) left a b f ha hb = elim (Bool-cases (left == 0)) [
  | inl e ↦
      let ea = empty a (ground arith) in let eb = empty b (ground arith) in rw (e, ea, eb) refl
  | inr e ↦
      let step = chunk left in
      let ih =
        swap_bytes-exchange fuel (left - step) (drop step a) (drop step b) (ground arith)
          (length-drop step a ∙ ap (λ n. n - step) ha)
          (length-drop step b ∙ ap (λ n. n - step) hb) in
      rw (e, ih, take-drop step a, take-drop step b) refl
]

pow-suc : (k : ℕ) → 2 ^ suc k ≡ 2 * 2 ^ k
pow-suc k = omega arith

-- For a positive count the depth limit is twice the logarithm of the count, rounded down.
pub depth_limit-log :
    (fuel span depth : ℕ)
    → 0 < span
    → span ≤ fuel
    → (k : ℕ) × (depth_limit fuel span depth ≡ depth + 2 * k) × (2 ^ k ≤ span) × (span < 2 * 2 ^ k)
unfolding depth_limit
depth_limit-log zero span depth h f = absurd (omega arith)
depth_limit-log (suc fuel) span depth h f = elim (Bool-cases (ltb 1 span)) [
  | inl t ↦
      let lt = ltb→lt 1 span t in
      let (k, e, lo, hi) =
        depth_limit-log fuel (span / 2) (depth + 2) (omega arith) (omega arith) in
      (suc k, rw t (omega (arith, e)), omega (arith, pow-suc k, lo), omega (arith, pow-suc k, hi))
  | inr t ↦ (0, rw t (omega arith), ground arith, ground arith)
]
