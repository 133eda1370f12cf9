-- ===== src/Format/Quoted.antt =====
-- runtime/format.c: `fmt_quoted` writes a text from which the bytes can be read back.
use loke.Prelude.{
  ℕ, ◌+◌, ◌-◌, ◌*◌, ◌/◌, ◌%◌, ◌<◌, ◌≡◌, refl, sym, ap, ◌∙◌, ◌⊎◌, inl, inr, true, Option, none, some,
  List, [], ◌∷◌, ◌++◌, append_assoc, append-nil, arith, leb, ◌==◌, if◌then◌else◌, All, Option-cases,
  mask_0F, every_below, every_below-at, ==_iff,
}
use mathlib.Core.List.{flatten}
use loke.Prelude.Outcome.{Outcome, ok, ◌>>=◌}
use loke.Format.{Writer, fmt_bytes, escape_of, hex_digit, quoted_loop, fmt_quoted}
use loke.Utf8.Codec.{IsByte}

-- All the bytes that the sink has been given.
abbrev pub text_of : Writer → List ℕ
text_of w = flatten w.written

-- A run that sends `bytes`, in any number of calls.
pub record Sends (w : Writer) (bytes : List ℕ) (run : Outcome Writer) : Type 0 where
  pub after : Writer
  pub returns : run ≡ ok after
  pub witness : after.witness ≡ true
  pub text : text_of after ≡ text_of w ++ bytes

flatten-snoc : (xs : List (List ℕ)) (x : List ℕ) → flatten (xs ++ (x ∷ [])) ≡ flatten xs ++ x
unfolding flatten
flatten-snoc [] x = append-nil x
flatten-snoc (y ∷ ys) x = ap (λ t. y ++ t) (flatten-snoc ys x) ∙ sym (append_assoc y (flatten ys) x)

fmt_bytes-Sends :
    (w : Writer) (bytes : List ℕ) → w.witness ≡ true → Sends w bytes (fmt_bytes w bytes)
unfolding fmt_bytes
fmt_bytes-Sends w [] e = record {
  after = w;
  returns = rw e;
  witness = e;
  text = sym (append-nil (text_of w));
}
fmt_bytes-Sends w (b ∷ bs) e = record {
  after = record w { written = w.written ++ ((b ∷ bs) ∷ []) };
  returns = ground arith;
  witness = e;
  text = flatten-snoc w.written (b ∷ bs);
}

Sends-bind :
    {w : Writer} {xs ys : List ℕ} {run : Outcome Writer} (next : Writer → Outcome Writer)
    → (s : Sends w xs run) → Sends s.after ys (next s.after)
    → Sends w (xs ++ ys) (run >>= next)
Sends-bind {w} {xs} {ys} next s t = record {
  after = t.after;
  returns = rw s.returns t.returns;
  witness = t.witness;
  text = t.text ∙ rw s.text (append_assoc (text_of w) xs ys);
}

-- One byte between quotes.
pub spelled_byte : ℕ → ℕ → List ℕ
spelled_byte quote b = elim (escape_of quote b) [ none ↦ b ∷ [] | some escape ↦ escape ]

unfoldable pub spelled_bytes : ℕ → List ℕ → List ℕ
unfolding spelled_byte
spelled_bytes quote [] = []
spelled_bytes quote (b ∷ bs) = spelled_byte quote b ++ spelled_bytes quote bs

module _ (quote b : ℕ) (bytes : List ℕ) where
  spelled_bytes-plain :
      escape_of quote b ≡ none → spelled_bytes quote (b ∷ bytes) ≡ b ∷ spelled_bytes quote bytes
  unfolding spelled_bytes
  spelled_bytes-plain c = ground arith

  spelled_bytes-escape :
      (escape : List ℕ)
      → escape_of quote b ≡ some escape
      → spelled_bytes quote (b ∷ bytes) ≡ escape ++ spelled_bytes quote bytes
  unfolding spelled_bytes
  spelled_bytes-escape escape c = ground arith

  module _ (pending : List ℕ) (w : Writer) where
    quoted_loop-plain :
        escape_of quote b ≡ none
        → quoted_loop quote pending (b ∷ bytes) w ≡ quoted_loop quote (pending ++ (b ∷ [])) bytes w
    unfolding quoted_loop
    quoted_loop-plain c = ground arith

    quoted_loop-escape :
        (escape : List ℕ)
        → escape_of quote b ≡ some escape
        → quoted_loop quote pending (b ∷ bytes) w
          ≡ fmt_bytes w pending >>= (λ w₁. fmt_bytes w₁ escape >>= quoted_loop quote [] bytes)
    unfolding quoted_loop
    quoted_loop-escape escape c = ground arith

quoted_loop-Sends :
    (quote : ℕ) (bytes pending : List ℕ) (w : Writer)
    → w.witness ≡ true
    → Sends w (pending ++ spelled_bytes quote bytes) (quoted_loop quote pending bytes w)
quoted_loop-Sends quote [] pending w e =
    unfold quoted_loop spelled_bytes in rw (append-nil pending) (fmt_bytes-Sends w pending e)
quoted_loop-Sends quote (b ∷ bytes) pending w e = elim (Option-cases (escape_of quote b)) [
  | inl c ↦
      rw
        (
          quoted_loop-plain quote b bytes pending w c,
          spelled_bytes-plain quote b bytes c,
          ← append_assoc pending (b ∷ []) (spelled_bytes quote bytes),
        )
        (quoted_loop-Sends quote bytes (pending ++ (b ∷ [])) w e)
  | inr (escape, c) ↦
      let first = fmt_bytes-Sends w pending e in
      let second = fmt_bytes-Sends first.after escape first.witness in
      rw
        (
          quoted_loop-escape quote b bytes pending w escape c,
          spelled_bytes-escape quote b bytes escape c,
        )
        (Sends-bind (λ w₁. fmt_bytes w₁ escape >>= quoted_loop quote [] bytes) first
          (Sends-bind (quoted_loop quote [] bytes) second
            (quoted_loop-Sends quote bytes [] second.after second.witness)))
]

-- A reader of quoted text: where it stands.
data Mode : Type 0 where
  plain escaped high : Mode
  low : ℕ → Mode

hex_value : ℕ → ℕ
hex_value c = if leb c b'9' then c - b'0' else c - b'A' + 10

put : ℕ → Option (List ℕ × List ℕ) → Option (List ℕ × List ℕ)
put b none = none
put b (some (bs, rest)) = some (b ∷ bs, rest)

-- Reads up to the first quote that is not escaped: the bytes, and what follows the quote.
read_quoted : ℕ → Mode → List ℕ → Option (List ℕ × List ℕ)
unfolding hex_value put
read_quoted quote mode [] = none
read_quoted quote plain (c ∷ cs) =
    let more = read_quoted quote plain cs in
    let escape = read_quoted quote escaped cs in
    if c == quote then some ([], cs) else if c == b'\\' then escape else put c more
read_quoted quote escaped (c ∷ cs) =
    let more = read_quoted quote plain cs in
    let hex = read_quoted quote high cs in
    if c == b'n'
    then put 10 more
    else if c == b'r'
    then put 13 more
    else if c == b't'
    then put 9 more
    else if c == b'x'
    then hex
    else put c more
read_quoted quote high (c ∷ cs) = read_quoted quote (low (hex_value c)) cs
read_quoted quote (low h) (c ∷ cs) = put (h * 16 + hex_value c) (read_quoted quote plain cs)

pub unquote : ℕ → List ℕ → Option (List ℕ × List ℕ)
unfolding read_quoted
unquote quote text = read_quoted quote plain text

-- The two quotes that the runtime uses.
abbrev pub IsQuote : ℕ → Type 0
IsQuote quote = (quote ≡ b'"') ⊎ (quote ≡ b'\'')

hex_pair :
    (b : ℕ) → b < 256 → hex_value (hex_digit (b / 16)) * 16 + hex_value (hex_digit (b % 16)) ≡ b
unfolding every_below hex_value hex_digit
hex_pair b h = (==_iff _ _).0 (
    every_below-at 256
      (λ k. hex_value (hex_digit (k / 16)) * 16 + hex_value (hex_digit (k % 16)) == k) b refl h)

read-spelled_byte :
    (quote b : ℕ) (rest : List ℕ)
    → IsQuote quote
    → b < 256
    → read_quoted quote plain (spelled_byte quote b ++ rest) ≡ put b (read_quoted quote plain rest)
unfolding read_quoted escape_of spelled_byte
read-spelled_byte quote b rest q h = ground (arith, hex_pair b h, mask_0F b h)

read-spelled_bytes :
    (quote : ℕ) (bytes rest : List ℕ)
    → IsQuote quote
    → All IsByte bytes
    → read_quoted quote plain (spelled_bytes quote bytes ++ (quote ∷ rest)) ≡ some (bytes, rest)
unfolding spelled_bytes put
read-spelled_bytes quote [] rest q all = unfold read_quoted in ground arith
read-spelled_bytes quote (b ∷ bytes) rest q all = rw (
  append_assoc (spelled_byte quote b) (spelled_bytes quote bytes) (quote ∷ rest),
  read-spelled_byte quote b (spelled_bytes quote bytes ++ (quote ∷ rest)) q all.0,
  read-spelled_bytes quote bytes rest q all.1,
)

-- On a writer that has a witness, a single or double quote and bytes, `fmt_quoted` sends the quote and a text that ends with the quote; a reader that follows the
-- escapes up to the first quote left unescaped gets the bytes back, whatever follows.
pub fmt_quoted-reads_back :
    (w : Writer) (bytes : List ℕ) (quote : ℕ)
    → w.witness ≡ true
    → IsQuote quote
    → All IsByte bytes
    → (text : List ℕ) × Sends w (quote ∷ text) (fmt_quoted w bytes quote)
      × ((rest : List ℕ) → unquote quote (text ++ rest) ≡ some (bytes, rest))
unfolding fmt_quoted unquote
fmt_quoted-reads_back w bytes quote e q all =
    let open_quote = fmt_bytes-Sends w (quote ∷ []) e in
    let inside = quoted_loop-Sends quote bytes [] open_quote.after open_quote.witness in
    let all_but = Sends-bind (quoted_loop quote [] bytes) open_quote inside in
    (
      spelled_bytes quote bytes ++ (quote ∷ []),
      Sends-bind (λ w₁. fmt_bytes w₁ (quote ∷ [])) all_but
          (fmt_bytes-Sends all_but.after (quote ∷ []) all_but.witness),
      λ rest.
          rw (append_assoc (spelled_bytes quote bytes) (quote ∷ []) rest)
            (read-spelled_bytes quote bytes rest q all),
    )
