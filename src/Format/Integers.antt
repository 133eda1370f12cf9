-- ===== src/Format/Integers.antt =====
-- runtime/format.c: the integer printers write a spelling of their argument.
use loke.Prelude.{
  ℕ, zero, suc, ◌+◌, ◌-◌, ◌*◌, ◌%◌, ◌^◌, ◌≤◌, ◌<◌, ◌≡◌, true, Option, none, some, List, [], ◌∷◌,
  ◌++◌, arith, ltb, ◌==◌, if◌then◌else◌, length, bit_or_field,
}
use loke.Prelude.Int.{ℤ, pos, negsuc}
use loke.Prelude.Outcome.{Outcome, ok}
use loke.Format.{
  Writer, Options, fmt_bytes, base_of, uppercase_of, into, fmt_u64, fmt_u128, join128,
}
use loke.Format.Digits.{IsSpelling, read_digits, spell_unsigned128-IsSpelling}

pub base_of_range : (o : Option Options) → (2 ≤ base_of o) × (base_of o ≤ 36)
unfolding base_of
base_of_range none = omega arith
base_of_range (some o) = go o.base
  where
    go :
        (b : ℤ)
        → let base : ℕ = base_of (some (record { base = b; uppercase = o.uppercase })) in
          (2 ≤ base) × (base ≤ 36)
    go (negsuc n) = omega arith
    go (pos b) = ground arith

-- The call of the sink that a printer makes.
pub sent : Writer → List ℕ → Writer
sent w bytes = record w { written = w.written ++ (bytes ∷ []) }

fmt_bytes-sent :
    (w : Writer) (bytes : List ℕ)
    → w.witness ≡ true
    → 1 ≤ length bytes
    → fmt_bytes w bytes ≡ ok (sent w bytes)
unfolding fmt_bytes sent
fmt_bytes-sent w bytes e h = ground arith

into-fits : (room : ℕ) (bytes : List ℕ) → length bytes ≤ room → into room bytes ≡ ok bytes
unfolding into
into-fits room bytes h = ground arith

-- On a writer that has a witness and a value below 2^64, `fmt_u64` makes one call of the sink, with the shortest spelling of the value in the base of the
-- options; its 64 bytes of buffer suffice.
pub fmt_u64-IsSpelling :
    (w : Writer) (value : ℕ) (o : Option Options)
    → w.witness ≡ true
    → value < 2 ^ 64
    → (out : List ℕ) × (fmt_u64 w value o ≡ ok (sent w out)) × IsSpelling (base_of o) value 64 out
unfolding fmt_u64
fmt_u64-IsSpelling w value o e h =
    let (two, most) = base_of_range o in
    let (out, run, t) =
      spell_unsigned128-IsSpelling value (base_of o) 64 (uppercase_of o) two most (omega arith)
        (omega arith) h in
    (out, rw (run, into-fits 64 out t.fits, fmt_bytes-sent w out e t.some_digit), t)

-- `-n`
abbrev pub negate : ℕ → ℤ
negate zero = pos 0
negate (suc n) = negsuc n

-- The integer that a text with an optional minus sign stands for.
unfoldable pub read_int : ℕ → List ℕ → ℤ
read_int base [] = pos 0
read_int base (c ∷ cs) =
    if c == b'-' then negate (read_digits base 0 cs) else pos (read_digits base 0 (c ∷ cs))

-- An `int64_t`.
abbrev pub IsI64 : ℤ → Type 0
IsI64 (pos n) = n < 2 ^ 63
IsI64 (negsuc n) = n < 2 ^ 63

-- What a signed printer does for a value: one call of the sink with a text that reads back as it.
pub record Prints (w : Writer) (base room : ℕ) (value : ℤ) (run : Outcome Writer) : Type 0 where
  pub out : List ℕ
  pub run_sent : run ≡ ok (sent w out)
  pub means : read_int base out ≡ value
  pub fits : length out ≤ room

-- The value of two 64-bit halves.
abbrev pub halves : ℕ → ℕ → ℕ
halves low high = high * 2 ^ 64 + low

pub join128-halves :
    (low high : ℕ) → low < 2 ^ 64 → high < 2 ^ 64 → join128 low high ≡ halves low high
unfolding join128
join128-halves low high hl hh =
    let narrow : high * 2 ^ 64 % 2 ^ 128 ≡ high * 2 ^ 64 = omega arith in
    rw narrow (bit_or_field 64 high low hl)

-- On a writer that has a witness, `fmt_u128` makes one call of the sink, with the shortest spelling
-- of the value of the two 64-bit halves in the base of the options.
pub fmt_u128-IsSpelling :
    (w : Writer) (low high : ℕ) (o : Option Options)
    → w.witness ≡ true
    → low < 2 ^ 64
    → high < 2 ^ 64
    → (out : List ℕ) × (fmt_u128 w low high o ≡ ok (sent w out))
      × IsSpelling (base_of o) (halves low high) 128 out
unfolding fmt_u128
fmt_u128-IsSpelling w low high o e hl hh =
    let (two, most) = base_of_range o in
    let (out, run, t) =
      spell_unsigned128-IsSpelling (halves low high) (base_of o) 128 (uppercase_of o) two most
        (omega arith) (omega arith) (omega arith) in
    (
      out,
      rw (
        join128-halves low high hl hh,
        run,
        into-fits 128 out t.fits,
        fmt_bytes-sent w out e t.some_digit,
      ),
      t,
    )

-- The integer of a two's complement bit pattern of 128 bits.
abbrev pub signed128 : ℕ → ℤ
signed128 bits = if ltb bits (2 ^ 127) then pos bits else negsuc (2 ^ 128 - 1 - bits)
