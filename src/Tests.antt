-- ===== src/Tests.antt =====
-- The theorems at concrete inputs of the text half of the runtime: runtime/text.c, runtime/format.c
-- and runtime/args.c.
mod Memory
mod Runes
mod Sorting
mod Locking
mod Maps
use loke.Prelude.{
  take, ℕ, zero, suc, ◌+◌, ◌*◌, ◌≤◌, ◌<◌, ◌≡◌, ◌⊎◌, ◌↔◌, refl, inl, inr, Bool, true, false, Option,
  some, List, [], ◌∷◌, ◌++◌, arith, length, All, leb, ◌&&◌, get_or,
}
use loke.Prelude.Int.{ℤ, pos}
use loke.Prelude.Outcome.{Outcome, ok}
use loke.Utf8.{
  rune_at, utf8_valid, rune_count, encode_rune, decode_at, lead_of, decode_multi, continuations,
  accept, add_payload,
}
use loke.Utf8.Codec.{IsScalar, IsByte, HasAt}
use loke.Utf8.Inverse.{Reads}
use loke.Utf8.Valid.{
  IsUtf8, encode_all, utf8_valid-decides, utf8_loops-return, rune_count-encode_all,
}
use loke.Utf8.RoundTrip.{rune_at-encode_rune, rune_at-Reads}
use loke.Utf8.Bounds.{rune_at_agree}
use loke.Format.{Writer, Options, spell_unsigned128, fmt_u64, fmt_u128, fmt_quoted}
use loke.Format.Digits.{IsSpelling, spell_unsigned128-IsSpelling}
use loke.Format.Integers.{sent, fmt_u64-IsSpelling, fmt_u128-IsSpelling}
use loke.Format.Quoted.{Sends, unquote, fmt_quoted-reads_back}
use loke.Args.{to_utf8}
use loke.Args.Convert.{utf16_all, to_utf8-IsScalar, to_utf8-utf16_all}
use loke.Cpu.{Features, cpu_dispatch, cpu_supports, level_names}
use loke.Cpu.Levels.{cpu_dispatch-named}
use loke.Text.{bytes_compare}
use loke.Text.Compare.{lexical, bytes_compare-lexical}

-- U+20AC and a following letter.
abbrev euro : List ℕ
euro = 0xE2 ∷ 0x82 ∷ 0xAC ∷ 0x41 ∷ []

abbrev euro-bytes : All IsByte euro
euro-bytes = (omega arith, (omega arith, (omega arith, (omega arith, tt))))

euro-IsScalar : IsScalar 0x20AC
euro-IsScalar = record { in_range = omega arith; plain = inl (omega arith) }

euro-HasAt : HasAt euro 0 (encode_rune (pos 0x20AC))
unfolding encode_rune
euro-HasAt = (refl, (refl, (refl, tt)))

euro-length : length (encode_rune (pos 0x20AC)) ≤ 4
unfolding encode_rune
euro-length = omega arith

euro-accepted : 0 < (rune_at (some euro) (pos 4) (pos 0)).used
unfolding rune_at decode_at lead_of decode_multi continuations accept add_payload
euro-accepted = omega arith

rune_at-encode_rune_example :
    rune_at (some euro) (pos 4) (pos 0)
    ≡ record { used = length (encode_rune (pos 0x20AC)); rune = 0x20AC }
rune_at-encode_rune_example =
    rune_at-encode_rune euro 4 0 0x20AC euro-IsScalar euro-HasAt (omega (arith, euro-length))

rune_at-Reads_example : Reads euro 4 0 (rune_at (some euro) (pos 4) (pos 0))
rune_at-Reads_example = rune_at-Reads euro 4 0 euro-bytes euro-accepted

utf8_valid-decides_example :
    ((utf8_valid (some euro) (pos 4) ≡ some true) × IsUtf8 euro 0 4)
    ⊎ ((utf8_valid (some euro) (pos 4) ≡ some false) × (IsUtf8 euro 0 4 → ⊥))
utf8_valid-decides_example = utf8_valid-decides euro 4 euro-bytes

utf8_loops-return_example :
    ((b : Bool) × (utf8_valid (some euro) (pos 3) ≡ some b))
    × ((n : ℕ) × (rune_count (some euro) (pos 3) ≡ some n))
utf8_loops-return_example = utf8_loops-return (some euro) (pos 3)

euro-HasAt_all : HasAt euro 0 (encode_all (0x20AC ∷ 0x41 ∷ []))
unfolding encode_rune
euro-HasAt_all = (refl, (refl, (refl, (refl, tt))))

letter-IsScalar : IsScalar 0x41
letter-IsScalar = record { in_range = omega arith; plain = inl (omega arith) }

abbrev letters : List ℕ
letters = 0x41 ∷ 0x42 ∷ []

abbrev others : List ℕ
others = 0x41 ∷ 0x43 ∷ []

-- A sink, and the options of hexadecimal.
abbrev sink : Writer
sink = record { witness = true; written = [] }

abbrev hex : Option Options
hex = some (record { base = pos 16; uppercase = false })

fmt_quoted-reads_back_example :
    (text : List ℕ) × Sends sink (34 ∷ text) (fmt_quoted sink (34 ∷ 10 ∷ 200 ∷ []) 34)
    × ((rest : List ℕ) → unquote 34 (text ++ rest) ≡ some (34 ∷ 10 ∷ 200 ∷ [], rest))
fmt_quoted-reads_back_example =
    fmt_quoted-reads_back sink (34 ∷ 10 ∷ 200 ∷ []) 34 refl (inl refl)
      (omega arith, (omega arith, (omega arith, tt)))

-- A surrogate pair and an unpaired one.
abbrev units : List ℕ
units = 0xD83D ∷ 0xDE00 ∷ 0xD800 ∷ []

to_utf8-IsScalar_example :
    (vs : List ℕ) × All IsScalar vs × (to_utf8 (λ n. true) units ≡ ok (encode_all vs ++ (0 ∷ [])))
to_utf8-IsScalar_example =
    to_utf8-IsScalar (λ n. true) units (omega arith, (omega arith, (omega arith, tt))) refl

smile-IsScalar : IsScalar 0x1F600
smile-IsScalar = record { in_range = omega arith; plain = inr (omega arith) }

to_utf8-utf16_all_example :
    to_utf8 (λ n. true) (utf16_all (0x1F600 ∷ 0x41 ∷ []) ++ (0 ∷ 0x42 ∷ []))
    ≡ ok (encode_all (0x1F600 ∷ 0x41 ∷ []) ++ (0 ∷ []))
to_utf8-utf16_all_example =
    to_utf8-utf16_all (λ n. true) (0x1F600 ∷ 0x41 ∷ []) (0x42 ∷ [])
      ((smile-IsScalar, omega arith), ((letter-IsScalar, omega arith), tt)) refl

abbrev v2_only : Features
v2_only = record { v2 = true; v3 = false }

bytes_compare-lexical_example :
    bytes_compare letters (pos 2) others (pos 1) ≡ ok (lexical (take 2 letters) (take 1 others))
bytes_compare-lexical_example = bytes_compare-lexical letters 2 others 1 (omega arith) (omega arith)
