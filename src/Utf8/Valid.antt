-- ===== src/Utf8/Valid.antt =====
-- runtime/text.c: `loke_rt_v1_utf8_valid` and `loke_rt_v1_rune_count` against sequences of scalar
-- values.
use loke.Prelude.{
  ℕ, zero, suc, ◌+◌, ◌≤◌, ◌<◌, ◌≡◌, refl, ◌⊎◌, inl, inr, ◌∙◌, ap, Bool, true, false, Option, some,
  List, [], ◌∷◌, ◌++◌, arith, length, length-append, All,
}
use native.Mathlib.Decide.{dec_lt, ℕ_discrete}
use loke.Prelude.Int.{ℤ, pos, negsuc}
use loke.Utf8.{Decoded, encode_rune, decode_at, rune_at, valid_from, utf8_valid}
use loke.Utf8.{count_from, rune_count}
use loke.Utf8.Codec.{
  IsScalar, IsByte, HasAt, encode_rune-one, encode_rune-two, encode_rune-three, encode_rune-four,
}
use loke.Utf8.Decode.{decode-encode}
use loke.Utf8.Inverse.{decode-inverse}

-- The encodings of a sequence of runes, one after the other.
abbrev pub encode_all : List ℕ → List ℕ
encode_all [] = []
encode_all (v ∷ vs) = encode_rune (pos v) ++ encode_all vs

-- An encoding takes one to four bytes.
pub length-encode_rune :
    (v : ℕ) → IsScalar v → (1 ≤ length (encode_rune (pos v))) × (length (encode_rune (pos v)) ≤ 4)
length-encode_rune v s = elim (dec_lt v 0x80) [
  | yes a ↦ rw (encode_rune-one v a) (omega arith)
  | no a ↦ elim (dec_lt v 0x800) [
    | yes b ↦ rw (encode_rune-two v (omega arith) b) (omega arith)
    | no b ↦ elim (dec_lt v 0x10000) [
      | yes c ↦ rw (encode_rune-three v (omega arith) c s) (omega arith)
      | no c ↦ rw (encode_rune-four v (omega arith) s.in_range) (omega arith)
    ]
  ]
]

pub HasAt-append :
    (mem : List ℕ) (at : ℕ) (xs ys : List ℕ)
    → HasAt mem at (xs ++ ys)
    → HasAt mem at xs × HasAt mem (at + length xs) ys
HasAt-append mem at [] ys h = (tt, let e : at + 0 ≡ at = omega arith in rw e h)
HasAt-append mem at (x ∷ xs) ys h =
    let r = HasAt-append mem (at + 1) xs ys h.1 in
    let e : at + suc (length xs) ≡ at + 1 + length xs = omega arith in ((h.0, r.0), rw e r.1)

pub append-HasAt :
    (mem : List ℕ) (at : ℕ) (xs ys : List ℕ)
    → HasAt mem at xs
    → HasAt mem (at + length xs) ys
    → HasAt mem at (xs ++ ys)
append-HasAt mem at [] ys h k = let e : at + 0 ≡ at = omega arith in rw e at k
append-HasAt mem at (x ∷ xs) ys h k =
    let e : at + suc (length xs) ≡ at + 1 + length xs = omega arith in
    (h.0, append-HasAt mem (at + 1) xs ys h.1 (rw e at k))

-- The first `len` bytes are the encodings of a sequence of scalar values.
pub record IsUtf8 (bytes : List ℕ) (offset len : ℕ) : Type 0 where
  pub runes : List ℕ
  pub scalars : All IsScalar runes
  pub stands : HasAt bytes offset (encode_all runes)
  pub size : offset + length (encode_all runes) ≡ len

module _ (bytes : List ℕ) (len : ℕ) where
  -- One rune at the front of what is left.
  pub rune-step :
      (offset v : ℕ) (vs : List ℕ)
      → IsScalar v
      → HasAt bytes offset (encode_all (v ∷ vs))
      → offset + length (encode_all (v ∷ vs)) ≡ len
      → (offset < len)
        × (rune_at (some bytes) (pos len) (pos offset)
            ≡ record { used = length (encode_rune (pos v)); rune = v })
  unfolding rune_at
  rune-step offset v vs s h e =
      let (lo, hi) = length-encode_rune v s in
      let whole = length-append (encode_rune (pos v)) (encode_all vs) in
      let front = (HasAt-append bytes offset (encode_rune (pos v)) (encode_all vs) h).0 in
      (omega arith, ground (arith, decode-encode bytes len offset v s front))

  pub rest-HasAt :
      (offset v : ℕ) (vs : List ℕ)
      → HasAt bytes offset (encode_all (v ∷ vs))
      → HasAt bytes (offset + length (encode_rune (pos v))) (encode_all vs)
  rest-HasAt offset v vs h = (HasAt-append bytes offset (encode_rune (pos v)) (encode_all vs) h).1

  pub rest-size :
      (offset v : ℕ) (vs : List ℕ)
      → offset + length (encode_all (v ∷ vs)) ≡ len
      → offset + length (encode_rune (pos v)) + length (encode_all vs) ≡ len
  rest-size offset v vs e = omega (arith, length-append (encode_rune (pos v)) (encode_all vs))

  valid_from_complete :
      (fuel offset : ℕ) (vs : List ℕ)
      → length (encode_all vs) < fuel
      → All IsScalar vs
      → HasAt bytes offset (encode_all vs)
      → offset + length (encode_all vs) ≡ len
      → valid_from fuel (some bytes) len offset ≡ some true
  unfolding valid_from
  valid_from_complete zero offset vs f s h e = absurd (omega arith)
  valid_from_complete (suc fuel) offset [] f s h e = ground arith
  valid_from_complete (suc fuel) offset (v ∷ vs) f s h e =
      let (lt, d) = rune-step offset v vs s.0 h e in
      let (lo, hi) = length-encode_rune v s.0 in
      let whole = length-append (encode_rune (pos v)) (encode_all vs) in
      let rest =
        valid_from_complete fuel (offset + length (encode_rune (pos v))) vs (omega arith) s.1
          (rest-HasAt offset v vs h) (rest-size offset v vs e) in
      rw d (ground (arith, rest))

  pub count_from_complete :
      (fuel offset count : ℕ) (vs : List ℕ)
      → length (encode_all vs) < fuel
      → All IsScalar vs
      → HasAt bytes offset (encode_all vs)
      → offset + length (encode_all vs) ≡ len
      → count_from fuel (some bytes) len offset count ≡ some (count + length vs)
  unfolding count_from
  count_from_complete zero offset count vs f s h e = absurd (omega arith)
  count_from_complete (suc fuel) offset count [] f s h e = ground arith
  count_from_complete (suc fuel) offset count (v ∷ vs) f s h e =
      let (lt, d) = rune-step offset v vs s.0 h e in
      let (lo, hi) = length-encode_rune v s.0 in
      let whole = length-append (encode_rune (pos v)) (encode_all vs) in
      let rest =
        count_from_complete fuel (offset + length (encode_rune (pos v))) (count + 1) vs
          (omega arith) s.1 (rest-HasAt offset v vs h) (rest-size offset v vs e) in
      rw d (ground (arith, rest))

  rune_at-inside :
      (offset : ℕ)
      → offset < len
      → rune_at (some bytes) (pos len) (pos offset) ≡ decode_at bytes len offset
  unfolding rune_at
  rune_at-inside offset h = ground arith

  valid_from_sound :
      All IsByte bytes
      → (fuel offset : ℕ) → offset ≤ len
      → valid_from fuel (some bytes) len offset ≡ some true
      → IsUtf8 bytes offset len
  unfolding valid_from
  valid_from_sound all zero offset le e = cc
  valid_from_sound all (suc fuel) offset le e = elim (dec_lt offset len) [
    | no p ↦ record { runes = []; scalars = tt; stands = tt; size = omega arith }
    | yes p ↦
        let d = rune_at (some bytes) (pos len) (pos offset) in
        let same = rune_at-inside offset p in
        let used : 0 < (decode_at bytes len offset).used = rw (← same) (ground arith) in
        let r = decode-inverse bytes all len offset p used in
        let u = ap (λ (x : Decoded). x.used) same in
        let rest =
          valid_from_sound all fuel (offset + d.used) (omega (arith, r.inside)) (ground arith) in
        record {
          runes = (decode_at bytes len offset).rune ∷ rest.runes;
          scalars = (r.scalar, rest.scalars);
          stands =
              append-HasAt bytes offset (encode_rune (pos (decode_at bytes len offset).rune))
                (encode_all rest.runes) r.stands (rw (r.size, ← u) rest.stands);
          size = omega (
            arith,
            rest.size,
            r.size,
            length-append (encode_rune (pos (decode_at bytes len offset).rune))
                (encode_all rest.runes),
          );
        }
  ]

-- The loop ends within its fuel, also over NULL.
valid_from-total :
    (bytes : Option (List ℕ)) (len fuel offset : ℕ)
    → len < fuel + offset
    → 0 < fuel
    → (b : Bool) × (valid_from fuel bytes len offset ≡ some b)
unfolding valid_from
valid_from-total bytes len zero offset h f = absurd (omega arith)
valid_from-total bytes len (suc fuel) offset h f = elim (dec_lt offset len) [
  | no p ↦ (true, ground arith)
  | yes p ↦ elim (ℕ_discrete (rune_at bytes (pos len) (pos offset)).used 0) [
    | yes z ↦ (false, ground arith)
    | no z ↦
        let d = rune_at bytes (pos len) (pos offset) in
        let (b, e) =
          valid_from-total bytes len fuel (offset + d.used) (omega arith) (omega arith) in
        (b, ground arith)
  ]
]

count_from-total :
    (bytes : Option (List ℕ)) (len fuel offset count : ℕ)
    → len < fuel + offset
    → 0 < fuel
    → (n : ℕ) × (count_from fuel bytes len offset count ≡ some n)
unfolding count_from
count_from-total bytes len zero offset count h f = absurd (omega arith)
count_from-total bytes len (suc fuel) offset count h f = elim (dec_lt offset len) [
  | no p ↦ (count, ground arith)
  | yes p ↦ elim (ℕ_discrete (rune_at bytes (pos len) (pos offset)).used 0) [
    | yes z ↦ (count, ground arith)
    | no z ↦
        let d = rune_at bytes (pos len) (pos offset) in
        let (n, e) =
          count_from-total bytes len fuel (offset + d.used) (count + 1) (omega arith)
            (omega arith) in
        (n, ground arith)
  ]
]

-- `utf8_valid` and `rune_count` return on every buffer, NULL included, and every length.
pub utf8_loops-return :
    (bytes : Option (List ℕ)) (len : ℤ)
    → ((b : Bool) × (utf8_valid bytes len ≡ some b)) × ((n : ℕ) × (rune_count bytes len ≡ some n))
unfolding utf8_valid rune_count
utf8_loops-return bytes (negsuc len) = ((false, refl), (0, refl))
utf8_loops-return bytes (pos len) = (
  valid_from-total bytes len (suc len) 0 (omega arith) (omega arith),
  count_from-total bytes len (suc len) 0 0 (omega arith) (omega arith),
)

pub utf8_valid-IsUtf8 :
    (bytes : List ℕ) (len : ℕ) → IsUtf8 bytes 0 len → utf8_valid (some bytes) (pos len) ≡ some true
unfolding utf8_valid
utf8_valid-IsUtf8 bytes len u =
    valid_from_complete bytes len (suc len) 0 u.runes (omega (arith, u.size)) u.scalars u.stands
      u.size

-- On a buffer of bytes `utf8_valid` decides whether the first `len` of them are the encodings of a sequence of scalar
-- values: it answers 1 where they are, and 0 where they are not.
pub utf8_valid-decides :
    (bytes : List ℕ) (len : ℕ)
    → All IsByte bytes
    → ((utf8_valid (some bytes) (pos len) ≡ some true) × IsUtf8 bytes 0 len)
      ⊎ ((utf8_valid (some bytes) (pos len) ≡ some false) × (IsUtf8 bytes 0 len → ⊥))
utf8_valid-decides bytes len all =
    go (utf8_loops-return (some bytes) (pos len)).0.0 (utf8_loops-return (some bytes) (pos len)).0.1
  where
    go :
        (b : Bool)
        → utf8_valid (some bytes) (pos len) ≡ some b
        → ((utf8_valid (some bytes) (pos len) ≡ some true) × IsUtf8 bytes 0 len)
          ⊎ ((utf8_valid (some bytes) (pos len) ≡ some false) × (IsUtf8 bytes 0 len → ⊥))
    go true e =
        inl (e, valid_from_sound bytes len all (suc len) 0 (omega arith) (unfold utf8_valid in e))
    go false e = inr (e, λ u. cc (e, utf8_valid-IsUtf8 bytes len u))

-- Where the encodings of a sequence of scalar values stand at the start of a buffer, `rune_count` of
-- their length answers how many they are.
pub rune_count-encode_all :
    (bytes : List ℕ) (vs : List ℕ)
    → All IsScalar vs
    → HasAt bytes 0 (encode_all vs)
    → rune_count (some bytes) (pos (length (encode_all vs))) ≡ some (length vs)
unfolding rune_count
rune_count-encode_all bytes vs s h =
    count_from_complete bytes (length (encode_all vs)) (suc (length (encode_all vs))) 0 0 vs
      (omega arith) s h (omega arith)
    ∙ ap some (omega arith)
