-- ===== src/Args/Convert.antt =====
-- runtime/args.c: `to_utf8` returns valid UTF-8 inside its buffer, and inverts UTF-16.
use loke.Prelude.{
  ℕ, ◌+◌, ◌-◌, ◌*◌, ◌/◌, ◌%◌, ◌^◌, ◌≤◌, ◌<◌, ◌≡◌, refl, ap, ◌∙◌, ◌⊎◌, inl, inr, Bool, true, false,
  List, [], ◌∷◌, ◌++◌, append_assoc, ◌==◌, arith, ltb, if◌then◌else◌, length, length-append, All,
  Bool-cases,
}
use native.Mathlib.Decide.{dec_lt}
use loke.Prelude.Int.{pos}
use loke.Prelude.Outcome.{ok}
use loke.Utf8.{encode_rune}
use loke.Utf8.Codec.{IsScalar}
use loke.Utf8.Valid.{encode_all, length-encode_rune}
use loke.Args.{is_high, is_low, combine, code_points, encode_points, scanned, to_utf8}

abbrev pub IsUnit16 : ℕ → Type 0
IsUnit16 u = u < 2 ^ 16

scalar-below : (u : ℕ) → u < 0x10000 → is_high u ≡ false → is_low u ≡ false → IsScalar u
unfolding is_high is_low
scalar-below u h hi lo = record { in_range = omega arith; plain = plain }
  where
    plain : (u < 0xD800) ⊎ (0xDFFF < u)
    plain = elim (dec_lt u 0xD800) [ yes p ↦ inl p | no p ↦ inr (ground arith) ]

scalar-combine : (u v : ℕ) → is_high u ≡ true → is_low v ≡ true → IsScalar (combine u v)
unfolding is_high is_low combine
scalar-combine u v hi lo = record { in_range = ground arith; plain = inr (ground arith) }

abbrev replaced : IsScalar 0xFFFD
replaced = record { in_range = omega arith; plain = inr (omega arith) }

-- The first code point, and the calls that may follow.
module _ (u v : ℕ) (units : List ℕ) where
  points-paired :
      is_high u ≡ true
      → is_low v ≡ true
      → code_points (u ∷ v ∷ units) ≡ combine u v ∷ code_points units
  unfolding code_points
  points-paired h l = rw (h, l)

  points-lone :
      (is_high u ≡ true) × (is_low v ≡ false)
      → code_points (u ∷ v ∷ units) ≡ 0xFFFD ∷ code_points (v ∷ units)
  unfolding code_points
  points-lone h = rw (h.0, h.1)

  points-low :
      is_high u ≡ false
      → is_low u ≡ true
      → code_points (u ∷ v ∷ units) ≡ 0xFFFD ∷ code_points (v ∷ units)
  unfolding code_points
  points-low h l = rw (h, l)

points-plain :
    (u : ℕ) (units : List ℕ)
    → is_high u ≡ false
    → is_low u ≡ false
    → code_points (u ∷ units) ≡ u ∷ code_points units
unfolding code_points
points-plain u [] h l = rw (h, l)
points-plain u (v ∷ units) h l = rw (h, l)

points-last-IsScalar : (u : ℕ) → IsUnit16 u → All IsScalar (code_points (u ∷ []))
unfolding code_points
points-last-IsScalar u h = elim (Bool-cases (is_high u)) [
  | inl hi ↦ rw hi (replaced, tt)
  | inr hi ↦ elim (Bool-cases (is_low u)) [
    | inl lo ↦ rw (hi, lo) (replaced, tt)
    | inr lo ↦ rw (hi, lo) (scalar-below u h hi lo, tt)
  ]
]

-- Each unit gives one scalar value at most.
points-IsScalar :
    (units : List ℕ)
    → All IsUnit16 units
    → All IsScalar (code_points units) × (length (code_points units) ≤ length units)
points-IsScalar [] all = unfold code_points in (tt, omega arith)
points-IsScalar (u ∷ []) all = (points-last-IsScalar u all.0, unfold code_points in omega arith)
points-IsScalar (u ∷ v ∷ units) all =
    let two = points-IsScalar units all.1.1 in
    let one = points-IsScalar (v ∷ units) all.1 in
    elim (Bool-cases (is_high u)) [
      | inl hi ↦ elim (Bool-cases (is_low v)) [
        | inl lo ↦
            rw (points-paired u v units hi lo)
              ((scalar-combine u v hi lo, two.0), omega (arith, two.1))
        | inr lo ↦ rw (points-lone u v units (hi, lo)) ((replaced, one.0), omega (arith, one.1))
      ]
      | inr hi ↦ elim (Bool-cases (is_low u)) [
        | inl lo ↦ rw (points-low u v units hi lo) ((replaced, one.0), omega (arith, one.1))
        | inr lo ↦
            rw (points-plain u (v ∷ units) hi lo)
              ((scalar-below u all.0 hi lo, one.0), omega (arith, one.1))
      ]
    ]

pub encode_points-eq : (vs : List ℕ) → encode_points vs ≡ encode_all vs
unfolding encode_points
encode_points-eq [] = refl
encode_points-eq (v ∷ vs) = ap (λ t. encode_rune (pos v) ++ t) (encode_points-eq vs)

length-encode_all : (vs : List ℕ) → All IsScalar vs → length (encode_all vs) ≤ 4 * length vs
length-encode_all [] all = omega arith
length-encode_all (v ∷ vs) all = omega (
  arith,
  length-append (encode_rune (pos v)) (encode_all vs),
  (length-encode_rune v all.0).1,
  length-encode_all vs all.1,
)

scanned-IsUnit16 : (memory : List ℕ) → All IsUnit16 memory → All IsUnit16 (scanned memory)
unfolding scanned
scanned-IsUnit16 [] all = tt
scanned-IsUnit16 (u ∷ memory) all = elim (Bool-cases (u == 0)) [
  | inl e ↦ rw e tt
  | inr e ↦ rw e (all.0, scanned-IsUnit16 memory all.1)
]

-- Whatever the 16-bit units, paired surrogates or not, `to_utf8` stays inside its buffer and returns
-- the encodings of a sequence of scalar values, with a terminator, if `malloc` gives the buffer for
-- the units before the terminator.
pub to_utf8-IsScalar :
    (malloc : ℕ → Bool) (wide : List ℕ)
    → All IsUnit16 wide
    → malloc (length (scanned wide) * 4 + 1) ≡ true
    → (vs : List ℕ) × All IsScalar vs × (to_utf8 malloc wide ≡ ok (encode_all vs ++ (0 ∷ [])))
unfolding to_utf8
to_utf8-IsScalar malloc wide all given =
    let (scalars, few) = points-IsScalar (scanned wide) (scanned-IsUnit16 wide all) in
    let vs = code_points (scanned wide) in
    let fits = length-append (encode_all vs) (0 ∷ []) in
    let short = length-encode_all vs scalars in
    (vs, scalars, rw (given, encode_points-eq vs) (ground (arith, fits, short, few)))

-- UTF-16 of a scalar value.
abbrev pub utf16 : ℕ → List ℕ
utf16 v =
    if ltb v 0x10000
    then v ∷ []
    else (0xD800 + (v - 0x10000) / 1024) ∷ (0xDC00 + (v - 0x10000) % 1024) ∷ []

abbrev pub utf16_all : List ℕ → List ℕ
utf16_all [] = []
utf16_all (v ∷ vs) = utf16 v ++ utf16_all vs

plain-is_high : (v : ℕ) → IsScalar v → v < 0x10000 → (is_high v ≡ false) × (is_low v ≡ false)
unfolding is_high is_low
plain-is_high v s h = (ground (arith, s.plain), ground (arith, s.plain))

points-utf16 :
    (v : ℕ) (units : List ℕ) → IsScalar v → code_points (utf16 v ++ units) ≡ v ∷ code_points units
points-utf16 v units s = elim (dec_lt v 0x10000) [
  | yes p ↦
      let e : utf16 v ≡ v ∷ [] = ground arith in
      let c = plain-is_high v s p in rw e (points-plain v units c.0 c.1)
  | no p ↦
      let a = 0xD800 + (v - 0x10000) / 1024 in
      let b = 0xDC00 + (v - 0x10000) % 1024 in
      let e : utf16 v ≡ a ∷ b ∷ [] = ground arith in
      let hi : is_high a ≡ true = unfold is_high in ground (arith, s.in_range) in
      let lo : is_low b ≡ true = unfold is_low in ground arith in
      let m : combine a b ≡ v = unfold combine in omega arith in
      rw (e, points-paired a b units hi lo, m)
]

points-utf16_all : (vs : List ℕ) → All IsScalar vs → code_points (utf16_all vs) ≡ vs
points-utf16_all [] all = unfold code_points in refl
points-utf16_all (v ∷ vs) all =
    points-utf16 v (utf16_all vs) all.0 ∙ ap (λ t. v ∷ t) (points-utf16_all vs all.1)

length-utf16_all : (vs : List ℕ) → length vs ≤ length (utf16_all vs)
length-utf16_all [] = omega arith
length-utf16_all (v ∷ vs) = elim (dec_lt v 0x10000) [
  | yes p ↦ let e : utf16 v ≡ v ∷ [] = ground arith in rw e (omega (arith, length-utf16_all vs))
  | no p ↦
      let e : utf16 v ≡ (0xD800 + (v - 0x10000) / 1024) ∷ (0xDC00 + (v - 0x10000) % 1024) ∷ [] =
        ground arith in
      rw e (omega (arith, length-utf16_all vs))
]

-- A scalar value other than U+0000.
abbrev pub IsText : ℕ → Type 0
IsText v = IsScalar v × (0 < v)

IsText-IsScalar : (vs : List ℕ) → All IsText vs → All IsScalar vs
IsText-IsScalar [] all = tt
IsText-IsScalar (v ∷ vs) all = (all.0.0, IsText-IsScalar vs all.1)

scanned-unit : (u : ℕ) (memory : List ℕ) → 0 < u → scanned (u ∷ memory) ≡ u ∷ scanned memory
unfolding scanned
scanned-unit u memory h = let e : (u == 0) ≡ false = ground arith in rw e refl

scanned-utf16 :
    (v : ℕ) (memory : List ℕ) → 0 < v → scanned (utf16 v ++ memory) ≡ utf16 v ++ scanned memory
scanned-utf16 v memory h = elim (dec_lt v 0x10000) [
  | yes p ↦ let e : utf16 v ≡ v ∷ [] = ground arith in rw e (scanned-unit v memory h)
  | no p ↦
      let a = 0xD800 + (v - 0x10000) / 1024 in
      let b = 0xDC00 + (v - 0x10000) % 1024 in
      let e : utf16 v ≡ a ∷ b ∷ [] = ground arith in
      rw e (
        scanned-unit a (b ∷ memory) (omega arith)
        ∙ ap (λ t. a ∷ t) (scanned-unit b memory (omega arith)))
]

scanned-utf16_all :
    (vs rest : List ℕ) → All IsText vs → scanned (utf16_all vs ++ (0 ∷ rest)) ≡ utf16_all vs
scanned-utf16_all [] rest all = unfold scanned in refl
scanned-utf16_all (v ∷ vs) rest all = rw (append_assoc (utf16 v) (utf16_all vs) (0 ∷ rest)) (
    scanned-utf16 v (utf16_all vs ++ (0 ∷ rest)) all.0.1
    ∙ ap (λ t. utf16 v ++ t) (scanned-utf16_all vs rest all.1))

-- On the UTF-16 of a sequence of scalar values other than U+0000, with a terminator and whatever
-- lies behind it, `to_utf8` gives the UTF-8 of the sequence, with a terminator, if `malloc` gives
-- the buffer.
pub to_utf8-utf16_all :
    (malloc : ℕ → Bool) (vs rest : List ℕ)
    → All IsText vs
    → malloc (length (utf16_all vs) * 4 + 1) ≡ true
    → to_utf8 malloc (utf16_all vs ++ (0 ∷ rest)) ≡ ok (encode_all vs ++ (0 ∷ []))
unfolding to_utf8
to_utf8-utf16_all malloc vs rest all given =
    let scalars = IsText-IsScalar vs all in
    let fits = length-append (encode_all vs) (0 ∷ []) in
    let short = length-encode_all vs scalars in
    let wide = length-utf16_all vs in
    rw (scanned-utf16_all vs rest all, given, points-utf16_all vs scalars, encode_points-eq vs)
      (ground (arith, fits, short, wide))
