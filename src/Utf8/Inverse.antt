-- ===== src/Utf8/Inverse.antt =====
-- runtime/text.c: whatever `loke_rt_v1_rune_at` accepts is the one encoding of a scalar value.
use loke.Prelude.{
  ℕ, suc, ◌+◌, ◌-◌, ◌*◌, ◌%◌, ◌^◌, ◌≤◌, ◌<◌, ◌≡◌, refl, ◌⊎◌, inl, inr, ◌∙◌, sym, ap, Option-cases,
  All-get_or, none, some, List, arith, get_or, length, All,
}
use native.Mathlib.Decide.{dec_lt}
use loke.Prelude.Int.{pos}
use loke.Utf8.{Decoded, rejected, encode_rune, continuations, lead_of, Lead, accept, is_surrogate}
use loke.Utf8.{decode_multi, decode_at}
use loke.Utf8.Codec.{
  IsScalar, IsByte, HasAt, encode_rune-one, encode_rune-two, encode_rune-three, encode_rune-four,
  lead_of_two, lead_of_three, lead_of_four, lead_of_bad, continuations-good, continuations-bad,
}

-- The bytes at `offset` are the encoding of the decoded value, which is a scalar value, and
-- they lie inside the first `len`.
pub record Reads (bytes : List ℕ) (len offset : ℕ) (d : Decoded) : Type 0 where
  pub scalar : IsScalar d.rune
  pub stands : HasAt bytes offset (encode_rune (pos d.rune))
  pub size : length (encode_rune (pos d.rune)) ≡ d.used
  pub inside : offset + d.used ≤ len

module _ (bytes : List ℕ) (all : All IsByte bytes) where
  byte-at : (i : ℕ) → get_or bytes i 0 < 256
  byte-at i = All-get_or IsByte bytes i 0 (omega arith) all

  continuations-inv :
      (k at value v : ℕ)
      → value < 2 ^ 26
      → continuations bytes (suc k) at value ≡ some v
      → (b : ℕ) × (get_or bytes at 0 ≡ 0x80 + b)
        × (b < 64)
        × (continuations bytes k (at + 1) (value * 64 + b) ≡ some v)
  continuations-inv k at value v h e = elim (dec_lt (get_or bytes at 0) 0x80) [
    | yes lo ↦ cc (e, continuations-bad bytes k at value (byte-at at) (inl lo))
    | no lo ↦ elim (dec_lt (get_or bytes at 0) 0xC0) [
      | no hi ↦ cc (e, continuations-bad bytes k at value (byte-at at) (inr (omega arith)))
      | yes hi ↦
          let r : get_or bytes at 0 % 64 ≡ get_or bytes at 0 - 0x80 = omega arith in
          (
            get_or bytes at 0 - 0x80,
            omega arith,
            omega arith,
            rw (← r) (sym (continuations-good bytes k at value (omega arith) hi h) ∙ e),
          )
    ]
  ]

  -- What an accepted multibyte sequence looks like.
  record Accepted (len offset : ℕ) (lead : Lead) : Type 0 where
    value : ℕ
    fits : offset + lead.need ≤ len
    looped : continuations bytes (lead.need - 1) (offset + 1) lead.value ≡ some value
    lowest : lead.lowest ≤ value
    scalar : IsScalar value
    answer : decode_multi bytes len offset lead ≡ record { used = lead.need; rune = value }

  accept-inv :
      (lead : Lead) (v : ℕ)
      → 0 < (accept lead v).used
      → (lead.lowest ≤ v) × IsScalar v × (accept lead v ≡ record { used = lead.need; rune = v })
  unfolding accept is_surrogate
  accept-inv lead v h =
      (ground arith, record { in_range = ground arith; plain = plain }, ground arith)
    where
      plain : (v < 0xD800) ⊎ (0xDFFF < v)
      plain = elim (dec_lt v 0xD800) [ yes a ↦ inl a | no a ↦ inr (ground arith) ]

  decode_multi-inv :
      (len offset : ℕ) (lead : Lead)
      → 0 < (decode_multi bytes len offset lead).used
      → Accepted len offset lead
  unfolding decode_multi
  decode_multi-inv len offset lead h = elim (dec_lt len (offset + lead.need)) [
    | yes short ↦ ground arith
    | no long ↦ elim (Option-cases (continuations bytes (lead.need - 1) (offset + 1) lead.value)) [
      | inl e ↦ ground arith
      | inr (v, e) ↦
          let (lo, sc, ans) = accept-inv lead v (ground arith) in
          record {
            value = v;
            fits = omega arith;
            looped = e;
            lowest = lo;
            scalar = sc;
            answer = ground arith;
          }
    ]
  ]

  module _ (len offset : ℕ) where
    Reads-two :
        (x : ℕ)
        → get_or bytes offset 0 ≡ 0xC0 + x
        → x < 32
        → Accepted len offset (record { need = 2; value = x; lowest = 0x80 })
        → Reads bytes len offset
            (decode_multi bytes len offset (record { need = 2; value = x; lowest = 0x80 }))
    unfolding continuations
    Reads-two x e h a =
        let (b, eb, hb, c) = continuations-inv 0 (offset + 1) x a.value (omega arith) a.looped in
        let v : a.value ≡ x * 64 + b = ground arith in
        let code = encode_rune-two a.value a.lowest (omega arith) in
        rw a.answer (record {
          scalar = a.scalar;
          stands = rw code (omega arith);
          size = rw code;
          inside = a.fits;
        })

    Reads-three :
        (x : ℕ)
        → get_or bytes offset 0 ≡ 0xE0 + x
        → x < 16
        → Accepted len offset (record { need = 3; value = x; lowest = 0x800 })
        → Reads bytes len offset
            (decode_multi bytes len offset (record { need = 3; value = x; lowest = 0x800 }))
    unfolding continuations
    Reads-three x e h a =
        let (b, eb, hb, l) = continuations-inv 1 (offset + 1) x a.value (omega arith) a.looped in
        let (c, ec, hc, m) =
          continuations-inv 0 (offset + 1 + 1) (x * 64 + b) a.value (omega arith) l in
        let v : a.value ≡ (x * 64 + b) * 64 + c = ground arith in
        let code = encode_rune-three a.value a.lowest (omega arith) a.scalar in
        rw a.answer (record {
          scalar = a.scalar;
          stands = rw code (omega arith);
          size = rw code;
          inside = a.fits;
        })

    Reads-four :
        (x : ℕ)
        → get_or bytes offset 0 ≡ 0xF0 + x
        → x < 8
        → Accepted len offset (record { need = 4; value = x; lowest = 0x10000 })
        → Reads bytes len offset
            (decode_multi bytes len offset (record { need = 4; value = x; lowest = 0x10000 }))
    unfolding continuations
    Reads-four x e h a =
        let (b, eb, hb, l) = continuations-inv 2 (offset + 1) x a.value (omega arith) a.looped in
        let (c, ec, hc, m) =
          continuations-inv 1 (offset + 1 + 1) (x * 64 + b) a.value (omega arith) l in
        let (d, ed, hd, n) =
          continuations-inv 0 (offset + 1 + 1 + 1) ((x * 64 + b) * 64 + c) a.value (omega arith)
            m in
        let v : a.value ≡ ((x * 64 + b) * 64 + c) * 64 + d = ground arith in
        let code = encode_rune-four a.value a.lowest (omega (arith, a.scalar.in_range)) in
        rw a.answer (record {
          scalar = a.scalar;
          stands = rw code (omega arith);
          size = rw code;
          inside = a.fits;
        })

    Reads-one :
        get_or bytes offset 0 < 0x80
        → offset < len
        → Reads bytes len offset (record { used = 1; rune = get_or bytes offset 0 })
    Reads-one h lt =
        let code = encode_rune-one (get_or bytes offset 0) h in
        record {
          scalar = record { in_range = omega arith; plain = inl (omega arith) };
          stands = rw code (refl, tt);
          size = rw code;
          inside = omega arith;
        }

    -- `decode_at`, by the range of the lead byte
    decode_at-low :
        get_or bytes offset 0 < 0x80
        → decode_at bytes len offset ≡ record { used = 1; rune = get_or bytes offset 0 }
    unfolding decode_at
    decode_at-low h = ground arith

    decode_at-lead :
        (lead : Lead)
        → 0x80 ≤ get_or bytes offset 0
        → lead_of (get_or bytes offset 0) ≡ some lead
        → decode_at bytes len offset ≡ decode_multi bytes len offset lead
    unfolding decode_at
    decode_at-lead lead h e = ground arith

    decode_at-bad :
        0x80 ≤ get_or bytes offset 0
        → lead_of (get_or bytes offset 0) ≡ none
        → decode_at bytes len offset ≡ rejected
    unfolding decode_at
    decode_at-bad h e = ground arith

    multi :
        (lead : Lead)
        → 0x80 ≤ get_or bytes offset 0
        → lead_of (get_or bytes offset 0) ≡ some lead
        → (Accepted len offset lead → Reads bytes len offset (decode_multi bytes len offset lead))
        → 0 < (decode_at bytes len offset).used
        → Reads bytes len offset (decode_at bytes len offset)
    multi lead h e reads used =
        let same = decode_at-lead lead h e in
        rw same (reads (decode_multi-inv len offset lead (rw same at used)))

    pub decode-inverse :
        offset < len
        → 0 < (decode_at bytes len offset).used
        → Reads bytes len offset (decode_at bytes len offset)
    decode-inverse lt used =
        let b0 = get_or bytes offset 0 in
        let byte = byte-at offset in
        elim (dec_lt b0 0x80) [
          | yes a ↦ rw (decode_at-low a) (Reads-one a lt)
          | no a ↦ elim (dec_lt b0 0xC0) [
            | yes b ↦ bad (omega arith) (inl b)
            | no b ↦ elim (dec_lt b0 0xE0) [
              | yes c ↦
                  multi _ (omega arith) (lead_of_two b0 (omega arith) c)
                    (Reads-two (b0 % 32) (omega arith) (omega arith)) used
              | no c ↦ elim (dec_lt b0 0xF0) [
                | yes d ↦
                    multi _ (omega arith) (lead_of_three b0 (omega arith) d)
                      (Reads-three (b0 % 16) (omega arith) (omega arith)) used
                | no d ↦ elim (dec_lt b0 0xF8) [
                  | yes f ↦
                      multi _ (omega arith) (lead_of_four b0 (omega arith) f)
                        (Reads-four (b0 % 8) (omega arith) (omega arith)) used
                  | no f ↦ bad (omega arith) (inr (omega arith))
                ]
              ]
            ]
          ]
        ]
      where
        bad :
            0x80 ≤ get_or bytes offset 0
            → (get_or bytes offset 0 < 0xC0) ⊎ (0xF8 ≤ get_or bytes offset 0)
            → Reads bytes len offset (decode_at bytes len offset)
        bad h c =
            let none_used =
              decode_at-bad h (lead_of_bad (get_or bytes offset 0) (byte-at offset) c) in
            absurd (omega (arith, ap (λ (d : Decoded). d.used) none_used))
