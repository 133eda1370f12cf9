-- ===== src/Utf8/Bounds.antt =====
-- runtime/text.c: `loke_rt_v1_rune_at` looks at no byte outside `[0, len)`.
use loke.Prelude.{
  ℕ, zero, suc, ◌+◌, ◌-◌, ◌≤◌, ◌<◌, ◌≡◌, refl, inl, inr, some, List, arith, get_or, Option-cases,
}
use native.Mathlib.Decide.{dec_lt}
use loke.Prelude.Int.{ℤ, pos, negsuc}
use loke.Utf8.{continuations, lead_of, Lead, decode_multi, decode_at, rune_at}

-- Two memories hold the same bytes below `len`.
abbrev pub AgreeBelow : ℕ → List ℕ → List ℕ → Type 0
AgreeBelow len a b = (i : ℕ) → i < len → get_or a i 0 ≡ get_or b i 0

module _ (a b : List ℕ) (len : ℕ) (agree : AgreeBelow len a b) where
  continuations_agree :
      (k at value : ℕ) → at + k ≤ len → continuations a k at value ≡ continuations b k at value
  unfolding continuations
  continuations_agree zero at value h = refl
  continuations_agree (suc k) at value h =
      let same = agree at (omega arith) in rw (same, continuations_agree k (at + 1) _ (omega arith))

  decode_multi_agree :
      (offset : ℕ) (lead : Lead)
      → 0 < lead.need
      → decode_multi a len offset lead ≡ decode_multi b len offset lead
  unfolding decode_multi
  decode_multi_agree offset lead h = elim (dec_lt len (offset + lead.need)) [
    | yes p ↦ ground arith
    | no p ↦ rw (continuations_agree (lead.need - 1) (offset + 1) lead.value (omega arith))
  ]

  lead_of-need : (c : ℕ) (lead : Lead) → lead_of c ≡ some lead → 0 < lead.need
  unfolding lead_of
  lead_of-need c lead e = ground arith

  decode_at_agree : (offset : ℕ) → offset < len → decode_at a len offset ≡ decode_at b len offset
  unfolding decode_at
  decode_at_agree offset h =
      rw (agree offset h) (elim (Option-cases (lead_of (get_or b offset 0))) [
        | inl e ↦ rw e
        | inr (lead, e) ↦ rw (e, decode_multi_agree offset lead (lead_of-need _ lead e))
      ])

  -- `rune_at` gives the same answer on two buffers that agree below the given length, at any
  -- offset, negative or past the end included.
  pub rune_at_agree :
      (offset : ℤ) → rune_at (some a) (pos len) offset ≡ rune_at (some b) (pos len) offset
  unfolding rune_at
  rune_at_agree (negsuc offset) = refl
  rune_at_agree (pos offset) = elim (dec_lt offset len) [
    | yes p ↦ rw (decode_at_agree offset p)
    | no p ↦ ground arith
  ]
