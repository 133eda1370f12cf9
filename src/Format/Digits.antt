-- ===== src/Format/Digits.antt =====
-- runtime/format.c: what `spell_unsigned128` spells, read back as a number.
use loke.Prelude.{
  ℕ, zero, suc, ◌+◌, ◌-◌, ◌*◌, ◌/◌, ◌%◌, ◌^◌, ◌≤◌, ◌<◌, ◌≡◌, ◌≢◌, refl, ap, ◌∙◌, Bool, true, false,
  ◌&&◌, some, List, [], ◌∷◌, ◌++◌, append_assoc, arith, leb, ◌==◌, ==_iff, if◌then◌else◌, get_or,
  take, length, All, every_below, every_below-at,
}
use native.Mathlib.Decide.{ℕ_discrete}
use native.Mathlib.Nat.{pow-suc, pow-zero, mod-lt, div-add-mod}
use loke.Format.{digit_char, spell_loop, copy_back, spell_unsigned128}
use loke.Prelude.Outcome.{ok}

-- The value of one digit character.
unfoldable pub digit_value : ℕ → ℕ
digit_value c = if leb c b'9' then c - b'0' else if leb c b'Z' then c - b'A' + 10 else c - b'a' + 10

-- The number that a spelling in `base` stands for, most significant digit first.
pub read_digits : ℕ → ℕ → List ℕ → ℕ
read_digits base acc [] = acc
read_digits base acc (c ∷ cs) = read_digits base (acc * base + digit_value c) cs

-- The same for digits that stand least significant first.
low_value : ℕ → List ℕ → ℕ
low_value base [] = 0
low_value base (c ∷ cs) = digit_value c + base * low_value base cs

-- `0` to `9` and letters, so no sign among them.
abbrev pub IsDigit : ℕ → Type 0
IsDigit c = (b'0' ≤ c) × (c ≤ b'z')

char-value : (u : Bool) (d : ℕ) → d < 36 → digit_value (digit_char u d) ≡ d
unfolding every_below digit_value digit_char
char-value true d h =
    (==_iff _ _).0 (every_below-at 36 (λ k. digit_value (digit_char true k) == k) d refl h)
char-value false d h =
    (==_iff _ _).0 (every_below-at 36 (λ k. digit_value (digit_char false k) == k) d refl h)

char-IsDigit : (u : Bool) (d : ℕ) → d < 36 → IsDigit (digit_char u d)
unfolding every_below digit_char
char-IsDigit true d h = ground (
  arith,
  every_below-at 36 (λ k. leb b'0' (digit_char true k) && leb (digit_char true k) b'z') d refl h,
)
char-IsDigit false d h = ground (
  arith,
  every_below-at 36 (λ k. leb b'0' (digit_char false k) && leb (digit_char false k) b'z') d refl h,
)

-- What the loop adds to `scratch` for `value`.
record Spells (base value room : ℕ) (digits : List ℕ) : Type 0 where
  digit : All IsDigit digits
  means : low_value base digits ≡ value
  some_digit : 1 ≤ length digits
  fits : length digits ≤ room
  shortest : value ≢ 0 → base ^ (length digits - 1) ≤ value

div_halves : (value base m : ℕ) → 2 ≤ base → value < 2 * m → value / base < m
div_halves value base m two h = grind (arith, div-add-mod value base)

room-pos : (room q : ℕ) → q < 2 ^ room → q ≢ 0 → 1 ≤ room
room-pos zero q h n = absurd (n (omega arith))
room-pos (suc room) q h n = omega arith

pow-step : (base k q v : ℕ) → 1 ≤ k → base ^ (k - 1) ≤ q → q * base ≤ v → base ^ (suc k - 1) ≤ v
pow-step base zero q v pos h le = absurd (omega arith)
pow-step base (suc k) q v pos h le =
    let e : suc (suc k) - 1 ≡ suc k = omega arith in
    let f : suc k - 1 ≡ k = omega arith in
    let h' : base ^ k ≤ q = rw (← f) h in rw (e, pow-suc base k) (grind arith)

module _ (base : ℕ) (two : 2 ≤ base) (most : base ≤ 36) (u : Bool) where
  abbrev low_char : ℕ → ℕ
  low_char value = digit_char u (value % base)

  low_char-value : (value : ℕ) → digit_value (low_char value) ≡ value % base
  low_char-value value = char-value u (value % base) (grind (arith, mod-lt))

  low_char-IsDigit : (value : ℕ) → IsDigit (low_char value)
  low_char-IsDigit value = char-IsDigit u (value % base) (grind (arith, mod-lt))

  last-Spells :
      (value room : ℕ) → value / base ≡ 0 → Spells base value (suc room) (low_char value ∷ [])
  unfolding low_value
  last-Spells value room z = record {
    digit = (low_char-IsDigit value, tt);
    means = omega (arith, low_char-value value, div-add-mod value base, ap (λ (t : ℕ). base * t) z);
    some_digit = omega arith;
    fits = omega arith;
    shortest = λ n. let one : base ^ 0 ≤ value = rw (pow-zero base) (omega arith) in one;
  }

  more-Spells :
      (value room : ℕ) (digits : List ℕ)
      → value / base ≢ 0
      → Spells base (value / base) room digits
      → Spells base value (suc room) (low_char value ∷ digits)
  unfolding low_value
  more-Spells value room digits n t = record {
    digit = (low_char-IsDigit value, t.digit);
    means =
        omega
          (arith, low_char-value value, div-add-mod value base, ap (λ (t : ℕ). base * t) t.means);
    some_digit = omega arith;
    fits = omega arith;
    shortest = λ _.
        pow-step base (length digits) (value / base) value t.some_digit (t.shortest n)
          (omega (arith, div-add-mod value base));
  }

  spell_loop-Spells :
      (room value : ℕ) (scratch : List ℕ)
      → value < 2 ^ room
      → 1 ≤ room
      → (digits : List ℕ) × (spell_loop room value base u scratch ≡ some (scratch ++ digits))
        × Spells base value room digits
  unfolding spell_loop
  spell_loop-Spells zero value scratch h r = absurd (omega arith)
  spell_loop-Spells (suc room) value scratch h r = elim (ℕ_discrete (value / base) 0) [
    | yes z ↦ (low_char value ∷ [], ground arith, last-Spells value room z)
    | no n ↦
        let small = div_halves value base (2 ^ room) two (omega (arith, pow-suc 2 room)) in
        let (digits, run, t) =
          spell_loop-Spells room (value / base) (scratch ++ (low_char value ∷ [])) small
            (room-pos room (value / base) small n) in
        (
          low_char value ∷ digits,
          ground (arith, run, append_assoc scratch (low_char value ∷ []) digits),
          more-Spells value room digits n t,
        )
  ]

spell_loop_roomier :
    (free more value base : ℕ) (u : Bool) (scratch out : List ℕ)
    → free ≤ more
    → spell_loop free value base u scratch ≡ some out
    → spell_loop more value base u scratch ≡ some out
unfolding spell_loop
spell_loop_roomier zero more value base u scratch out h e = cc
spell_loop_roomier (suc free) zero value base u scratch out h e = absurd (omega arith)
spell_loop_roomier (suc free) (suc more) value base u scratch out h e = ground (
  arith,
  spell_loop_roomier free more (value / base) base u (scratch ++ (digit_char u (value % base) ∷ []))
      out,
)

-- Reading the copy, which is reversed, gives the value of the digits.
low_value-take :
    (base k : ℕ) (cs : List ℕ)
    → k < length cs
    → low_value base (take (suc k) cs)
      ≡ low_value base (take k cs) + digit_value (get_or cs k 0) * base ^ k
unfolding low_value
low_value-take base k [] h = absurd (omega arith)
low_value-take base zero (c ∷ cs) h = rw (pow-zero base) (omega arith)
low_value-take base (suc k) (c ∷ cs) h = omega (
  arith,
  ap (λ (t : ℕ). base * t) (low_value-take base k cs (omega arith)),
  ap (λ (t : ℕ). digit_value (get_or cs k 0) * t) (pow-suc base k),
)

read-copy_back :
    (base k acc : ℕ) (cs : List ℕ)
    → k ≤ length cs
    → read_digits base acc (copy_back k cs) ≡ acc * base ^ k + low_value base (take k cs)
unfolding read_digits copy_back low_value
read-copy_back base zero acc cs h = rw (pow-zero base) (omega arith)
read-copy_back base (suc k) acc cs h =
    read-copy_back base k (acc * base + digit_value (get_or cs k 0)) cs (omega arith)
    ∙ omega
        (arith, low_value-take base k cs (omega arith), ap (λ (t : ℕ). acc * t) (pow-suc base k))

length-copy_back : (k : ℕ) (cs : List ℕ) → length (copy_back k cs) ≡ k
unfolding copy_back
length-copy_back zero cs = refl
length-copy_back (suc k) cs = ap suc (length-copy_back k cs)

copy_back-IsDigit :
    (k : ℕ) (cs : List ℕ) → k ≤ length cs → All IsDigit cs → All IsDigit (copy_back k cs)
unfolding copy_back
copy_back-IsDigit zero cs h all = tt
copy_back-IsDigit (suc k) cs h all =
    (get_or-IsDigit k cs h all, copy_back-IsDigit k cs (omega arith) all)
  where
    get_or-IsDigit :
        (i : ℕ) (ds : List ℕ) → i < length ds → All IsDigit ds → IsDigit (get_or ds i 0)
    get_or-IsDigit i [] lt a = absurd (omega arith)
    get_or-IsDigit zero (d ∷ ds) lt a = a.0
    get_or-IsDigit (suc i) (d ∷ ds) lt a = get_or-IsDigit i ds (omega arith) a.1

take-length : (cs : List ℕ) → take (length cs) cs ≡ cs
take-length [] = refl
take-length (c ∷ cs) = ap (λ t. c ∷ t) (take-length cs)

-- A spelling of `value` in `base`: digits and letters only, most significant first, at most `room`
-- of them, and no leading zero but that of 0 itself.
pub record IsSpelling (base value room : ℕ) (out : List ℕ) : Type 0 where
  pub digit : All IsDigit out
  pub means : read_digits base 0 out ≡ value
  pub some_digit : 1 ≤ length out
  pub fits : length out ≤ room
  pub shortest : value ≢ 0 → base ^ (length out - 1) ≤ value

-- In any base from 2 to 36, a value below 2^`room`, for a `room` from 1 to 128, is spelled in
-- digits of the base that read back as the value, as few as it needs, and no more than `room`: the
-- 128 bytes of `scratch` suffice.
pub spell_unsigned128-IsSpelling :
    (value base room : ℕ) (u : Bool)
    → 2 ≤ base
    → base ≤ 36
    → 1 ≤ room
    → room ≤ 128
    → value < 2 ^ room
    → (out : List ℕ) × (spell_unsigned128 value base u ≡ ok out) × IsSpelling base value room out
unfolding spell_unsigned128
spell_unsigned128-IsSpelling value base room u two most r m h =
    let (digits, run, t) = spell_loop-Spells base two most u room value [] h r in
    let run' = spell_loop_roomier room 128 value base u [] digits m run in
    let same = length-copy_back (length digits) digits in
    (
      copy_back (length digits) digits,
      rw (run', spell_unsigned128),
      record {
        digit = copy_back-IsDigit (length digits) digits (omega arith) t.digit;
        means =
            read-copy_back base (length digits) 0 digits (omega arith)
            ∙ rw (take-length digits) (omega (arith, t.means));
        some_digit = rw same t.some_digit;
        fits = rw same t.fits;
        shortest = rw same t.shortest;
      },
    )
