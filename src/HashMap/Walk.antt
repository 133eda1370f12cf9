-- ===== src/HashMap/Walk.antt =====
-- runtime/container.c: the walk `index = (index + 1) & mask` over the slots of a table.
use loke.Prelude.{ℕ, ◌+◌, ◌-◌, ◌^◌, ◌<◌, ◌≡◌, sym, ap, ◌∙◌, bit_and, arith, ltb, if◌then◌else◌}
use mathlib.Core.Path.{subst}
use native.Mathlib.Decide.{dec_lt}
use loke.Prelude.Align.{bit_and-ones, bit_and-mask_lt, bit_and-mask_end}

-- The slot count is a power of two.
abbrev pub IsPower : ℕ → Type 0
IsPower n = (m : ℕ) × (n ≡ 2 ^ m)

-- The index `x` steps from slot 0, where `x` is below `2 * n`.
abbrev pub wrap : (n x : ℕ) → ℕ
wrap n x = if ltb x n then x else x - n

module _ {n : ℕ} (power : IsPower n) where
  pub mask_lt : (x : ℕ) → bit_and x (n - 1) < n
  mask_lt x = let (m, e) = power in subst (λ k. bit_and x (k - 1) < k) (sym e) (bit_and-mask_lt m x)

  mask_below : (x : ℕ) → x < n → bit_and x (n - 1) ≡ x
  mask_below x h =
      let (m, e) = power in
      subst (λ k. bit_and x (k - 1) ≡ x) (sym e) (bit_and-ones m x (omega (arith, e)))

  mask_end : bit_and n (n - 1) ≡ 0
  mask_end = let (m, e) = power in subst (λ k. bit_and k (k - 1) ≡ 0) (sym e) (bit_and-mask_end m)

  -- One step of the walk.
  pub step_wrap : (x : ℕ) → x + 1 < n + n → bit_and (wrap n x + 1) (n - 1) ≡ wrap n (x + 1)
  step_wrap x h = elim (dec_lt (x + 1) n) [
    | yes p ↦
        let e : wrap n x + 1 ≡ x + 1 = ground arith in
        ap (λ k. bit_and k (n - 1)) e ∙ mask_below (x + 1) p ∙ ground arith
    | no p ↦ elim (dec_lt x n) [
      | yes q ↦
          let e : wrap n x + 1 ≡ n = ground arith in
          ap (λ k. bit_and k (n - 1)) e ∙ mask_end ∙ ground arith
      | no q ↦
          let e : wrap n x + 1 ≡ x + 1 - n = ground arith in
          ap (λ k. bit_and k (n - 1)) e ∙ mask_below (x + 1 - n) (omega arith) ∙ ground arith
    ]
  ]
