-- ===== src/Utf8/Codec.antt =====
-- runtime/text.c: what `loke_rt_encode_rune` writes and what the decoder computes, as arithmetic.
use loke.Prelude.{
  ℕ, suc, ◌+◌, ◌*◌, ◌/◌, ◌%◌, ◌^◌, ◌≤◌, ◌<◌, ◌≡◌, ◌⊎◌, none, some, List, [], ◌∷◌, arith, get_or,
}
use loke.Prelude.{mark_80, mark_C0, mark_E0, mark_F0, bit_and_six, bit_or_six}
use loke.Prelude.{mask_C0, mask_E0, mask_F0, mask_F8, mask_1F, mask_0F, mask_07}
use loke.Prelude.Int.{pos}
use loke.Utf8.{encode_rune, add_payload, continuations, lead_of}

-- A Unicode scalar value.
pub record IsScalar (v : ℕ) : Type 0 where
  pub in_range : v ≤ 0x10FFFF
  pub plain : (v < 0xD800) ⊎ (0xDFFF < v)

abbrev pub IsByte : ℕ → Type 0
IsByte b = b < 256

-- The memory from index `at` on begins with the given bytes.
abbrev pub HasAt : List ℕ → ℕ → List ℕ → Type 0
HasAt mem at [] = Unit
HasAt mem at (b ∷ bs) = (get_or mem at 0 ≡ b) × HasAt mem (at + 1) bs

pub encode_rune-one : (v : ℕ) → v < 0x80 → encode_rune (pos v) ≡ v ∷ []
unfolding encode_rune
encode_rune-one v h = ground arith

pub encode_rune-two :
    (v : ℕ) → 0x80 ≤ v → v < 0x800 → encode_rune (pos v) ≡ (0xC0 + v / 64) ∷ (0x80 + v % 64) ∷ []
unfolding encode_rune
encode_rune-two v lo hi = ground (arith, mark_C0 (v / 64), bit_and_six v, mark_80 (v % 64))

pub encode_rune-three :
    (v : ℕ)
    → 0x800 ≤ v
    → v < 0x10000
    → IsScalar v
    → encode_rune (pos v) ≡ (0xE0 + v / 4096) ∷ (0x80 + v / 64 % 64) ∷ (0x80 + v % 64) ∷ []
unfolding encode_rune
encode_rune-three v lo hi s = ground (
  arith,
  mark_E0 (v / 4096),
  bit_and_six v,
  mark_80 (v % 64),
  bit_and_six (v / 64),
  mark_80 (v / 64 % 64),
)

pub encode_rune-four :
    (v : ℕ)
    → 0x10000 ≤ v
    → v ≤ 0x10FFFF
    → encode_rune (pos v)
      ≡ (0xF0 + v / 262144) ∷ (0x80 + v / 4096 % 64) ∷ (0x80 + v / 64 % 64) ∷ (0x80 + v % 64) ∷ []
unfolding encode_rune
encode_rune-four v lo hi = ground (
  arith,
  mark_F0 (v / 262144),
  bit_and_six v,
  mark_80 (v % 64),
  bit_and_six (v / 64),
  mark_80 (v / 64 % 64),
  bit_and_six (v / 4096),
  mark_80 (v / 4096 % 64),
)

pub add_payload_lem : (x c : ℕ) → x < 2 ^ 26 → add_payload x c ≡ x * 64 + c % 64
unfolding add_payload
add_payload_lem x c h = ground (arith, bit_and_six c, bit_or_six x (c % 64))

-- A lead byte, by the range that it lies in.
pub lead_of_two :
    (b : ℕ)
    → 0xC0 ≤ b
    → b < 0xE0
    → lead_of b ≡ some (record { need = 2; value = b % 32; lowest = 0x80 })
unfolding lead_of
lead_of_two b lo hi = ground (arith, mask_E0 b, mask_1F b)

pub lead_of_three :
    (b : ℕ)
    → 0xE0 ≤ b
    → b < 0xF0
    → lead_of b ≡ some (record { need = 3; value = b % 16; lowest = 0x800 })
unfolding lead_of
lead_of_three b lo hi = ground (arith, mask_E0 b, mask_F0 b, mask_0F b)

pub lead_of_four :
    (b : ℕ)
    → 0xF0 ≤ b
    → b < 0xF8
    → lead_of b ≡ some (record { need = 4; value = b % 8; lowest = 0x10000 })
unfolding lead_of
lead_of_four b lo hi = ground (arith, mask_E0 b, mask_F0 b, mask_F8 b, mask_07 b)

pub lead_of_bad : (b : ℕ) → b < 256 → (b < 0xC0) ⊎ (0xF8 ≤ b) → lead_of b ≡ none
unfolding lead_of
lead_of_bad b h c = ground (arith, mask_E0 b, mask_F0 b, mask_F8 b)

-- The first round of the loop over the continuation bytes.
pub continuations-good :
    (bytes : List ℕ) (k at value : ℕ)
    → 0x80 ≤ get_or bytes at 0
    → get_or bytes at 0 < 0xC0
    → value < 2 ^ 26
    → continuations bytes (suc k) at value
      ≡ continuations bytes k (at + 1) (value * 64 + get_or bytes at 0 % 64)
unfolding continuations
continuations-good bytes k at value lo hi h =
    ground (arith, mask_C0 (get_or bytes at 0), add_payload_lem value (get_or bytes at 0))

pub continuations-bad :
    (bytes : List ℕ) (k at value : ℕ)
    → get_or bytes at 0 < 256
    → (get_or bytes at 0 < 0x80) ⊎ (0xC0 ≤ get_or bytes at 0)
    → continuations bytes (suc k) at value ≡ none
unfolding continuations
continuations-bad bytes k at value h c = ground (arith, mask_C0 (get_or bytes at 0))
