-- ===== src/Utf8/RoundTrip.antt =====
-- runtime/text.c: `loke_rt_v1_rune_at` against `loke_rt_encode_rune`, at the entry points.
use loke.Prelude.{ℕ, ◌+◌, ◌≤◌, ◌<◌, ◌≡◌, ◌⊎◌, ◌↔◌, some, List, [], arith, length, All}
use native.Mathlib.Decide.{dec_lt}
use loke.Prelude.Int.{pos}
use loke.Utf8.{encode_rune, rune_at, decode_at, is_surrogate}
use loke.Utf8.Codec.{IsScalar, IsByte, HasAt}
use loke.Utf8.Decode.{decode-encode}
use loke.Utf8.Inverse.{Reads, decode-inverse}
use loke.Utf8.Valid.{length-encode_rune}

-- Where the encoding of a scalar value stands at `offset`, inside the first `len` bytes,
-- `rune_at` answers the length of the encoding and the value.
pub rune_at-encode_rune :
    (bytes : List ℕ) (len offset v : ℕ)
    → IsScalar v
    → HasAt bytes offset (encode_rune (pos v))
    → offset + length (encode_rune (pos v)) ≤ len
    → rune_at (some bytes) (pos len) (pos offset)
      ≡ record { used = length (encode_rune (pos v)); rune = v }
unfolding rune_at
rune_at-encode_rune bytes len offset v s at fits =
    let (lo, hi) = length-encode_rune v s in
    ground (arith, decode-encode bytes len offset v s at fits)

-- Whatever `rune_at` accepts in a buffer of bytes, at any offset that is not negative and any such
-- length, is the encoding of a scalar value, of the
-- answered length and inside the first `len` bytes: no overlong form, no surrogate, nothing above
-- U+10FFFF.
pub rune_at-Reads :
    (bytes : List ℕ) (len offset : ℕ)
    → All IsByte bytes
    → 0 < (rune_at (some bytes) (pos len) (pos offset)).used
    → Reads bytes len offset (rune_at (some bytes) (pos len) (pos offset))
unfolding rune_at
rune_at-Reads bytes len offset all used = elim (dec_lt offset len) [
  | no p ↦ absurd (ground arith)
  | yes p ↦
      let inside : rune_at (some bytes) (pos len) (pos offset) ≡ decode_at bytes len offset =
        ground arith in
      rw inside (decode-inverse bytes all len offset p (rw inside at used))
]

-- `encode_rune` writes nothing exactly when its argument is no scalar value.
pub encode_rune-nil :
    (v : ℕ) → (encode_rune (pos v) ≡ []) ↔ ((0x10FFFF < v) ⊎ ((0xD800 ≤ v) × (v ≤ 0xDFFF)))
unfolding encode_rune is_surrogate
encode_rune-nil v = (λ e. ground arith, λ c. ground arith)
