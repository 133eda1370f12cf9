-- ===== src/Container/Checked.antt =====
-- runtime/container.c: the checked arithmetic that sizes every allocation, and the growth policy.
-- A C function that answers 0 is `none`; one that answers 1 is `some` of what it stores.
use loke.Prelude.{
  ℕ, zero, suc, ◌+◌, ◌-◌, ◌*◌, ◌/◌, ◌^◌, ◌≤◌, ◌<◌, ◌≡◌, ◌⊎◌, inl, inr, ◌&&◌, not, Option, none,
  some, arith, ltb, ◌==◌, if◌then◌else◌,
}
use native.Mathlib.Decide.{dec_lt, dec_le}
use native.Mathlib.Nat.{div-add-mod}
use loke.Prelude.Int.{ℤ, pos, negsuc}

abbrev pub int64_max : ℕ
int64_max = 2 ^ 63 - 1

abbrev pub uint64_max : ℕ
uint64_max = 2 ^ 64 - 1

unfoldable pub checked_add : ℤ → ℤ → Option ℕ
checked_add (negsuc a) b = none
checked_add (pos a) (negsuc b) = none
checked_add (pos a) (pos b) = if ltb (int64_max - b) a then none else some (a + b)

unfoldable pub checked_bytes : ℤ → ℕ → Option ℕ
checked_bytes (negsuc count) size = none
checked_bytes (pos count) size =
    if not (size == 0) && ltb (uint64_max / size) count then none else some (count * size)

unfoldable pub sane_align : ℕ → ℕ
sane_align align = if align == 0 then 1 else align

unfoldable pub checked_round_up : ℕ → ℕ → Option ℕ
unfolding sane_align
checked_round_up value align =
    let a = sane_align align in
    if ltb (uint64_max - (a - 1)) value then none else some ((value + a - 1) / a * a)

-- `cap` and `min_capacity` are known not to be negative here.
unfoldable pub dyn_growth_target : ℕ → ℕ → Option ℕ
unfolding checked_add
dyn_growth_target cap min_capacity =
    let doubled : ℕ =
      if ltb 0 cap
      then elim (checked_add (pos cap) (pos cap)) [
        | none ↦ min_capacity
        | some d ↦ if ltb min_capacity d then d else min_capacity
      ]
      else min_capacity in
    let want = if ltb doubled 8 then 8 else doubled in
    if ltb want min_capacity then none else some want

-- `checked_add` answers exactly where both arguments are counts and their sum is an int64_t, and
-- then stores the sum.
pub checked_add-exact :
    (a b c : ℕ)
    → a ≤ int64_max
    → b ≤ int64_max
    → ((checked_add (pos a) (pos b) ≡ some c) → (c ≡ a + b) × (a + b ≤ int64_max))
      × ((c ≡ a + b) × (a + b ≤ int64_max) → checked_add (pos a) (pos b) ≡ some c)
unfolding checked_add
checked_add-exact a b c ha hb = (λ e. ground arith, λ e. ground (arith, e.0, e.1))

over : (size most count : ℕ) → 0 < size → most / size < count → most < count * size
over size most count nonzero p = grind (arith, div-add-mod most size)

under : (size most count : ℕ) → count ≤ most / size → count * size ≤ most
under size most count p = grind (arith, div-add-mod most size)

-- For a count that is not negative `checked_bytes` stores the product exactly where it is a uint64_t, and answers 0 where it is not.
pub checked_bytes-exact :
    (count size : ℕ)
    → ((count * size ≤ uint64_max) × (checked_bytes (pos count) size ≡ some (count * size)))
      ⊎ ((uint64_max < count * size) × (checked_bytes (pos count) size ≡ none))
unfolding checked_bytes
checked_bytes-exact count zero = inl (ground arith, ground arith)
checked_bytes-exact count (suc s) = elim (dec_lt (uint64_max / suc s) count) [
  | yes p ↦ inr (over (suc s) uint64_max count (omega arith) p, ground arith)
  | no p ↦ inl (under (suc s) uint64_max count (omega arith), ground arith)
]

-- For a capacity and a need that are int64_t, the capacity that growth asks for holds what is needed, is at least 8, at least doubles where the
-- double is an int64_t, and stays an int64_t.
pub dyn_growth_target-bounds :
    (cap need : ℕ)
    → cap ≤ int64_max
    → need ≤ int64_max
    → (target : ℕ) × (dyn_growth_target cap need ≡ some target)
      × (need ≤ target)
      × (8 ≤ target)
      × (2 * cap ≤ int64_max → 2 * cap ≤ target)
      × (target ≤ int64_max)
unfolding dyn_growth_target
dyn_growth_target-bounds cap need hc hn = elim (dec_le (2 * cap) int64_max) [
  | yes p ↦
      let want : ℕ = if ltb need (cap + cap) then cap + cap else need in
      (
        if ltb want 8 then 8 else want,
        ground arith,
        ground arith,
        ground arith,
        ground arith,
        ground arith,
      )
  | no p ↦ (
    if ltb need 8 then 8 else need,
    ground arith,
    ground arith,
    ground arith,
    ground arith,
    ground arith,
  )
]
