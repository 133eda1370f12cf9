-- ===== src/Utf8/Decode.antt =====
-- runtime/text.c: `loke_rt_v1_rune_at` and `loke_rt_encode_rune` are inverse to one another.
use loke.Prelude.{
  ℕ, suc, ◌+◌, ◌-◌, ◌*◌, ◌/◌, ◌%◌, ◌^◌, ◌≤◌, ◌<◌, ◌≡◌, ◌∙◌, ap, some, List, [], ◌∷◌, arith, get_or,
  length,
}
use native.Mathlib.Decide.{dec_lt}
use loke.Prelude.Int.{pos}
use loke.Utf8.{encode_rune, continuations, lead_of, Lead, accept, is_surrogate}
use loke.Utf8.{decode_multi, decode_at}
use loke.Utf8.Codec.{
  IsScalar, HasAt, encode_rune-one, encode_rune-two, encode_rune-three, encode_rune-four,
  lead_of_two, lead_of_three, lead_of_four, continuations-good,
}

pub accept-scalar :
    (lead : Lead) (v : ℕ)
    → IsScalar v
    → lead.lowest ≤ v
    → accept lead v ≡ record { used = lead.need; rune = v }
unfolding accept is_surrogate
accept-scalar lead v s lo = ground (arith, s.plain)

-- A multibyte sequence is decoded in three steps.
decode_at-multi :
    (bytes : List ℕ) (len offset : ℕ) (lead : Lead) (v : ℕ)
    → 0x80 ≤ get_or bytes offset 0
    → lead_of (get_or bytes offset 0) ≡ some lead
    → offset + lead.need ≤ len
    → continuations bytes (lead.need - 1) (offset + 1) lead.value ≡ some v
    → decode_at bytes len offset ≡ accept lead v
unfolding decode_at decode_multi
decode_at-multi bytes len offset lead v hi e fits c = ground arith

continuations-step :
    (bytes : List ℕ) (k at value b : ℕ)
    → get_or bytes at 0 ≡ 0x80 + b
    → b < 64
    → value < 2 ^ 26
    → continuations bytes (suc k) at value ≡ continuations bytes k (at + 1) (value * 64 + b)
continuations-step bytes k at value b e h v =
    let r : get_or bytes at 0 % 64 ≡ b = omega arith in
    rw (← r) (continuations-good bytes k at value (omega arith) (omega arith) v)

module _ (bytes : List ℕ) (at value : ℕ) (small : value < 0x20) where
  continuations_one :
      (b : ℕ)
      → HasAt bytes at ((0x80 + b) ∷ [])
      → b < 64
      → continuations bytes 1 at value ≡ some (value * 64 + b)
  unfolding continuations
  continuations_one b h lt = continuations-step bytes 0 at value b h.0 lt (omega arith)

  continuations_two :
      (b c : ℕ)
      → HasAt bytes at ((0x80 + b) ∷ (0x80 + c) ∷ [])
      → b < 64
      → c < 64
      → continuations bytes 2 at value ≡ some ((value * 64 + b) * 64 + c)
  unfolding continuations
  continuations_two b c h lb lc =
      continuations-step bytes 1 at value b h.0 lb (omega arith)
      ∙ continuations-step bytes 0 (at + 1) (value * 64 + b) c h.1.0 lc (omega arith)

  continuations_three :
      (b c d : ℕ)
      → HasAt bytes at ((0x80 + b) ∷ (0x80 + c) ∷ (0x80 + d) ∷ [])
      → b < 64
      → c < 64
      → d < 64
      → continuations bytes 3 at value ≡ some (((value * 64 + b) * 64 + c) * 64 + d)
  unfolding continuations
  continuations_three b c d h lb lc ld =
      continuations-step bytes 2 at value b h.0 lb (omega arith)
      ∙ continuations-step bytes 1 (at + 1) (value * 64 + b) c h.1.0 lc (omega arith)
      ∙ continuations-step bytes 0 (at + 1 + 1) ((value * 64 + b) * 64 + c) d h.1.1.0 ld
          (omega arith)

lead_two :
    (b x : ℕ)
    → b ≡ 0xC0 + x
    → x < 32
    → lead_of b ≡ some (record { need = 2; value = x; lowest = 0x80 })
lead_two b x e h =
    let r : b % 32 ≡ x = omega arith in rw (← r) (lead_of_two b (omega arith) (omega arith))

lead_three :
    (b x : ℕ)
    → b ≡ 0xE0 + x
    → x < 16
    → lead_of b ≡ some (record { need = 3; value = x; lowest = 0x800 })
lead_three b x e h =
    let r : b % 16 ≡ x = omega arith in rw (← r) (lead_of_three b (omega arith) (omega arith))

lead_four :
    (b x : ℕ)
    → b ≡ 0xF0 + x
    → x < 8
    → lead_of b ≡ some (record { need = 4; value = x; lowest = 0x10000 })
lead_four b x e h =
    let r : b % 8 ≡ x = omega arith in rw (← r) (lead_of_four b (omega arith) (omega arith))

-- What `decode_at` answers on the bytes that encode `v`.
abbrev Decodes : List ℕ → ℕ → ℕ → ℕ → List ℕ → Type 0
Decodes bytes len offset v code =
    HasAt bytes offset code
    → offset + length code ≤ len
    → decode_at bytes len offset ≡ record { used = length code; rune = v }

module _ (bytes : List ℕ) (len offset v : ℕ) where
  decode-one : v < 0x80 → Decodes bytes len offset v (encode_rune (pos v))
  unfolding decode_at
  decode-one h = rw (encode_rune-one v h) (λ at fits. ground (arith, at.0))

  module _ (s : IsScalar v) where
    decode-two : 0x80 ≤ v → v < 0x800 → Decodes bytes len offset v (encode_rune (pos v))
    decode-two lo hi = rw (encode_rune-two v lo hi) λ at fits.
        let lead : Lead = record { need = 2; value = v / 64; lowest = 0x80 } in
        decode_at-multi bytes len offset lead v (omega (arith, at.0))
          (lead_two (get_or bytes offset 0) (v / 64) at.0 (omega arith)) fits
          (continuations_one bytes (offset + 1) (v / 64) (omega arith) (v % 64) at.1 (omega arith)
            ∙ ap some (omega arith))
        ∙ accept-scalar lead v s lo

    decode-three : 0x800 ≤ v → v < 0x10000 → Decodes bytes len offset v (encode_rune (pos v))
    decode-three lo hi = rw (encode_rune-three v lo hi s) λ at fits.
        let lead : Lead = record { need = 3; value = v / 4096; lowest = 0x800 } in
        decode_at-multi bytes len offset lead v (omega (arith, at.0))
          (lead_three (get_or bytes offset 0) (v / 4096) at.0 (omega arith)) fits
          (continuations_two bytes (offset + 1) (v / 4096) (omega arith) (v / 64 % 64) (v % 64) at.1
              (omega arith) (omega arith)
            ∙ ap some (omega arith))
        ∙ accept-scalar lead v s lo

    decode-four : 0x10000 ≤ v → Decodes bytes len offset v (encode_rune (pos v))
    decode-four lo = rw (encode_rune-four v lo s.in_range) λ at fits.
        let lead : Lead = record { need = 4; value = v / 262144; lowest = 0x10000 } in
        decode_at-multi bytes len offset lead v (omega (arith, at.0))
          (lead_four (get_or bytes offset 0) (v / 262144) at.0 (omega (arith, s.in_range))) fits
          (continuations_three bytes (offset + 1) (v / 262144) (omega (arith, s.in_range))
              (v / 4096 % 64) (v / 64 % 64) (v % 64) at.1 (omega arith) (omega arith) (omega arith)
            ∙ ap some (omega arith))
        ∙ accept-scalar lead v s lo

    pub decode-encode : Decodes bytes len offset v (encode_rune (pos v))
    decode-encode = elim (dec_lt v 0x80) [
      | yes a ↦ decode-one a
      | no a ↦ elim (dec_lt v 0x800) [
        | yes b ↦ decode-two (omega arith) b
        | no b ↦ elim (dec_lt v 0x10000) [
          | yes c ↦ decode-three (omega arith) c
          | no c ↦ decode-four (omega arith)
        ]
      ]
    ]
