-- ===== src/Format.antt =====
-- runtime/format.c: the byte sink, the integer spellings and the quoted forms.
-- What a sink does with a slice is the generated module's; the model keeps the calls that it gets.
pub mod Digits
pub mod Integers
pub mod Quoted
use Prim.Native.Char.{code}
use Prim.Native.String.{String}
use loke.Prelude.{
  ℕ, zero, suc, ◌+◌, ◌-◌, ◌*◌, ◌/◌, ◌%◌, ◌^◌, bit_or, bit_and, Bool, true, false, ◌||◌, ◌&&◌,
  Option, none, some, List, [], ◌∷◌, ◌++◌, ltb, leb, ◌==◌, if◌then◌else◌, get_or, length, take,
  drop, not,
}
use loke.Prelude.Int.{ℤ, pos, negsuc}
use loke.Prelude.Outcome.{Outcome, ok, panic, overrun, ◌>>=◌}
use loke.Utf8.{encode_rune}

-- The code points of an ASCII literal.
abbrev pub codes : String → List ℕ
codes String.[] = []
codes (String.◌∷◌ c s) = code c ∷ codes s

-- `loke_rt_writer_v1`: whether the witness table is there, and the slices that
-- `loke_rt_v1_sink_write` has been called with, oldest first.
pub record Writer : Type 0 where
  pub witness : Bool
  pub written : List (List ℕ)

-- `loke_rt_options_v1`
pub record Options : Type 0 where
  pub base : ℤ
  pub uppercase : Bool

unfoldable pub fmt_bytes : Writer → List ℕ → Outcome Writer
fmt_bytes w bytes =
    if w.witness
    then (if ltb 0 (length bytes)
        then ok (record w { written = w.written ++ (bytes ∷ []) })
        else ok w)
    else panic

-- A null `Options` is `none`.
unfoldable pub base_of : Option Options → ℕ
base_of none = 10
base_of (some o) = elim o.base [ negsuc n ↦ 10 | pos b ↦ if ltb b 2 || ltb 36 b then 10 else b ]

unfoldable pub uppercase_of : Option Options → Bool
uppercase_of none = false
uppercase_of (some o) = o.uppercase

unfoldable pub digit_char : Bool → ℕ → ℕ
digit_char uppercase d =
    get_or
      (if uppercase
        then codes "0123456789ABCDEFGHIJKLMNOPQRSTUVWXYZ"
        else codes "0123456789abcdefghijklmnopqrstuvwxyz")
      d 0

-- The `do` loop: the bytes free in `scratch`, the value left, and what stands in `scratch`, least
-- significant digit first. A round without room writes past the buffer.
unfoldable pub spell_loop : ℕ → ℕ → ℕ → Bool → List ℕ → Option (List ℕ)
spell_loop zero value base uppercase scratch = none
spell_loop (suc free) value base uppercase scratch =
    let filled = scratch ++ (digit_char uppercase (value % base) ∷ []) in
    let rest = spell_loop free (value / base) base uppercase filled in
    if value / base == 0 then some filled else rest

-- `out[i] = scratch[used - 1 - i]`, with the rounds left
unfoldable pub copy_back : ℕ → List ℕ → List ℕ
copy_back zero scratch = []
copy_back (suc k) scratch = get_or scratch k 0 ∷ copy_back k scratch

unfoldable pub spell_unsigned128 : ℕ → ℕ → Bool → Outcome (List ℕ)
unfolding spell_loop copy_back
spell_unsigned128 value base uppercase = elim (spell_loop 128 value base uppercase []) [
  | none ↦ overrun
  | some scratch ↦ ok (copy_back (length scratch) scratch)
]

-- The caller's buffer: more bytes than it holds are an overrun.
unfoldable pub into : ℕ → List ℕ → Outcome (List ℕ)
into room bytes = if ltb room (length bytes) then overrun else ok bytes

unfoldable pub fmt_u64 : Writer → ℕ → Option Options → Outcome Writer
unfolding fmt_bytes into
fmt_u64 w value o = do
  spelled ← spell_unsigned128 value (base_of o) (uppercase_of o)
  buffer ← into 64 spelled
  fmt_bytes w buffer

-- For `value` = -(n + 1), `-(value + 1)` is n.
unfoldable pub fmt_i64 : Writer → ℤ → Option Options → Outcome Writer
fmt_i64 w (negsuc n) o = do
  let magnitude = (n % 2 ^ 64 + 1) % 2 ^ 64
  spelled ← spell_unsigned128 magnitude (base_of o) (uppercase_of o)
  buffer ← into 66 (b'-' ∷ spelled)
  fmt_bytes w buffer
fmt_i64 w (pos n) o = do
  spelled ← spell_unsigned128 (n % 2 ^ 64) (base_of o) (uppercase_of o)
  buffer ← into 66 spelled
  fmt_bytes w buffer

-- `((unsigned __int128)high << 64) | low`
unfoldable pub join128 : ℕ → ℕ → ℕ
join128 low high = bit_or (high * 2 ^ 64 % 2 ^ 128) low

unfoldable pub fmt_u128 : Writer → ℕ → ℕ → Option Options → Outcome Writer
fmt_u128 w low high o = do
  spelled ← spell_unsigned128 (join128 low high) (base_of o) (uppercase_of o)
  buffer ← into 128 spelled
  fmt_bytes w buffer

-- `(~bits) + 1` on 128 bits
unfoldable pub negate128 : ℕ → ℕ
negate128 bits = (2 ^ 128 - 1 - bits + 1) % 2 ^ 128

unfoldable pub fmt_i128 : Writer → ℕ → ℕ → Option Options → Outcome Writer
fmt_i128 w low high o =
    let bits = join128 low high in
    if high / 2 ^ 63 == 0
    then (do
      spelled ← spell_unsigned128 bits (base_of o) (uppercase_of o)
      buffer ← into 129 spelled
      fmt_bytes w buffer)
    else (do
      spelled ← spell_unsigned128 (negate128 bits) (base_of o) (uppercase_of o)
      buffer ← into 129 (b'-' ∷ spelled)
      fmt_bytes w buffer)

unfoldable pub fmt_bool : Writer → Bool → Outcome Writer
fmt_bool w value = if value then fmt_bytes w (codes "true") else fmt_bytes w (codes "false")

-- U+FFFD
abbrev pub replacement : List ℕ
replacement = 0xEF ∷ 0xBF ∷ 0xBD ∷ []

unfoldable pub fmt_rune : Writer → ℤ → Outcome Writer
fmt_rune w value = elim (encode_rune value) [
  | [] ↦ fmt_bytes w replacement
  | b ∷ bs ↦ fmt_bytes w (b ∷ bs)
]

-- A null pointer is the address 0.
unfoldable pub fmt_ptr : Writer → ℕ → Outcome Writer
fmt_ptr w address = if address == 0 then fmt_bytes w (codes "<nil>") else do
  spelled ← spell_unsigned128 address 16 true
  buffer ← into 18 (b'0' ∷ b'x' ∷ spelled)
  fmt_bytes w buffer

unfoldable pub hex_digit : ℕ → ℕ
hex_digit d = get_or (codes "0123456789ABCDEF") d 0

-- The escape of one byte between `quote`s; `none` is the `continue`.
unfoldable pub escape_of : ℕ → ℕ → Option (List ℕ)
escape_of quote b =
    if b == b'\\' || b == quote
    then some (b'\\' ∷ b ∷ [])
    else if b == 10
    then some (b'\\' ∷ b'n' ∷ [])
    else if b == 13
    then some (b'\\' ∷ b'r' ∷ [])
    else if b == 9
    then some (b'\\' ∷ b't' ∷ [])
    else if ltb b 0x20 || b == 0x7F
    then some (b'\\' ∷ b'x' ∷ hex_digit (b / 2 ^ 4) ∷ hex_digit (bit_and b 15) ∷ [])
    else none

-- The loop of `fmt_quoted`: the bytes from index `i` on, and those of `[start, i)`, which are not
-- written yet.
unfoldable pub quoted_loop : ℕ → List ℕ → List ℕ → Writer → Outcome Writer
quoted_loop quote pending [] w = fmt_bytes w pending
quoted_loop quote pending (b ∷ bytes) w = elim (escape_of quote b) [
  | none ↦ quoted_loop quote (pending ++ (b ∷ [])) bytes w
  | some escape ↦ fmt_bytes w pending >>= λ w₁. fmt_bytes w₁ escape >>= quoted_loop quote [] bytes
]

unfoldable pub fmt_quoted : Writer → List ℕ → ℕ → Outcome Writer
unfolding quoted_loop escape_of fmt_bytes
fmt_quoted w bytes quote =
    fmt_bytes w (quote ∷ []) >>= quoted_loop quote [] bytes >>= λ w₁. fmt_bytes w₁ (quote ∷ [])

unfoldable pub fmt_quoted_rune : Writer → ℤ → Outcome Writer
fmt_quoted_rune w value = elim (encode_rune value) [
  | [] ↦ fmt_quoted w replacement b'\''
  | b ∷ bs ↦ fmt_quoted w (b ∷ bs) b'\''
]
