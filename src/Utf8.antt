-- ===== src/Utf8.antt =====
-- runtime/text.c, the UTF-8 half: decoding at an offset, validation, counting, and encoding one rune.
-- A pointer to bytes is `none` for NULL, or the list of the bytes from that address on, which may
-- be longer than the length that the caller passes beside it.
pub mod Codec
pub mod Decode
pub mod Inverse
pub mod Valid
pub mod Bounds
pub mod RoundTrip
use loke.Prelude.{
  ℕ, zero, suc, ◌+◌, ◌-◌, ◌*◌, ◌/◌, ◌%◌, ◌^◌, bit_and, bit_or, Bool, true, false, ◌&&◌, ◌||◌,
  Option, none, some, List, [], ◌∷◌, ltb, leb, ◌==◌, if◌then◌else◌, get_or,
}
use loke.Prelude.Int.{ℤ, pos, negsuc}

-- The answer of `rune_at`, and what it leaves in `*out_rune`.
pub record Decoded : Type 0 where
  pub used : ℕ
  pub rune : ℕ

abbrev pub rejected : Decoded
rejected = record { used = 0; rune = 0xFFFD }

-- A lead byte above ASCII: the sequence's length, its payload, and the lowest value that needs
-- that length.
pub record Lead : Type 0 where
  pub need : ℕ
  pub value : ℕ
  pub lowest : ℕ

unfoldable pub lead_of : ℕ → Option Lead
lead_of b0 =
    if bit_and b0 0xE0 == 0xC0
    then some (record { need = 2; value = bit_and b0 0x1F; lowest = 0x80 })
    else if bit_and b0 0xF0 == 0xE0
    then some (record { need = 3; value = bit_and b0 0x0F; lowest = 0x800 })
    else if bit_and b0 0xF8 == 0xF0
    then some (record { need = 4; value = bit_and b0 0x07; lowest = 0x10000 })
    else none

-- `value = (value << 6) | (cont & 0x3F)`, in a `uint32_t`
unfoldable pub add_payload : ℕ → ℕ → ℕ
add_payload value cont = bit_or (value * 2 ^ 6 % 2 ^ 32) (bit_and cont 0x3F)

-- The loop over the continuation bytes: the rounds left, and the index that is read next.
unfoldable pub continuations : List ℕ → ℕ → ℕ → ℕ → Option ℕ
continuations bytes zero at value = some value
continuations bytes (suc k) at value =
    let cont = get_or bytes at 0 in
    let rest = continuations bytes k (at + 1) (add_payload value cont) in
    if bit_and cont 0xC0 == 0x80 then rest else none

unfoldable pub is_surrogate : ℕ → Bool
is_surrogate v = leb 0xD800 v && leb v 0xDFFF

unfoldable pub accept : Lead → ℕ → Decoded
unfolding is_surrogate
accept lead value =
    if ltb value lead.lowest || (ltb 0x10FFFF value || is_surrogate value)
    then rejected
    else record { used = lead.need; rune = value }

-- The tail of a multibyte sequence.
unfoldable pub decode_multi : List ℕ → ℕ → ℕ → Lead → Decoded
decode_multi bytes len offset lead =
    if ltb len (offset + lead.need)
    then rejected
    else elim (continuations bytes (lead.need - 1) (offset + 1) lead.value) [
      | none ↦ rejected
      | some value ↦ accept lead value
    ]

-- `loke_rt_v1_rune_at` once `offset` is known to lie in `[0, len)`.
unfoldable pub decode_at : List ℕ → ℕ → ℕ → Decoded
decode_at bytes len offset =
    let b0 = get_or bytes offset 0 in
    if ltb b0 0x80
    then record { used = 1; rune = b0 }
    else elim (lead_of b0) [ none ↦ rejected | some lead ↦ decode_multi bytes len offset lead ]

unfoldable pub rune_at : Option (List ℕ) → ℤ → ℤ → Decoded
rune_at none len offset = rejected
rune_at (some bytes) (negsuc len) offset = rejected
rune_at (some bytes) (pos len) (negsuc offset) = rejected
rune_at (some bytes) (pos len) (pos offset) =
    if leb len offset then rejected else decode_at bytes len offset

-- The loop of `utf8_valid`; `none` means that the fuel ran out.
unfoldable pub valid_from : ℕ → Option (List ℕ) → ℕ → ℕ → Option Bool
valid_from zero bytes len offset = none
valid_from (suc fuel) bytes len offset =
    let d = rune_at bytes (pos len) (pos offset) in
    let rest = valid_from fuel bytes len (offset + d.used) in
    if ltb offset len then (if d.used == 0 then some false else rest) else some true

-- Every round takes a byte at least, so `len + 1` rounds are enough.
unfoldable pub utf8_valid : Option (List ℕ) → ℤ → Option Bool
unfolding valid_from
utf8_valid bytes (negsuc len) = some false
utf8_valid bytes (pos len) = valid_from (suc len) bytes len 0

unfoldable pub count_from : ℕ → Option (List ℕ) → ℕ → ℕ → ℕ → Option ℕ
count_from zero bytes len offset count = none
count_from (suc fuel) bytes len offset count =
    let d = rune_at bytes (pos len) (pos offset) in
    let rest = count_from fuel bytes len (offset + d.used) (count + 1) in
    if ltb offset len then (if d.used == 0 then some count else rest) else some count

unfoldable pub rune_count : Option (List ℕ) → ℤ → Option ℕ
unfolding count_from
rune_count bytes (negsuc len) = some 0
rune_count bytes (pos len) = count_from (suc len) bytes len 0 0

-- `(uint8_t)n`
abbrev pub u8 : ℕ → ℕ
u8 n = n % 2 ^ 8

-- `loke_rt_encode_rune`: the bytes that it writes to `out`; none of them is the answer 0.
unfoldable pub encode_rune : ℤ → List ℕ
unfolding is_surrogate
encode_rune (negsuc n) = []
encode_rune (pos v) =
    if ltb 0x10FFFF v || is_surrogate v
    then []
    else if ltb v 0x80
    then u8 v ∷ []
    else if ltb v 0x800
    then u8 (bit_or 0xC0 (v / 2 ^ 6)) ∷ u8 (bit_or 0x80 (bit_and v 0x3F)) ∷ []
    else if ltb v 0x10000
    then u8 (bit_or 0xE0 (v / 2 ^ 12))
      ∷ u8 (bit_or 0x80 (bit_and (v / 2 ^ 6) 0x3F))
      ∷ u8 (bit_or 0x80 (bit_and v 0x3F))
      ∷ []
    else u8 (bit_or 0xF0 (v / 2 ^ 18))
      ∷ u8 (bit_or 0x80 (bit_and (v / 2 ^ 12) 0x3F))
      ∷ u8 (bit_or 0x80 (bit_and (v / 2 ^ 6) 0x3F))
      ∷ u8 (bit_or 0x80 (bit_and v 0x3F))
      ∷ []
