-- ===== src/Args.antt =====
-- runtime/args.c: the UTF-16 argument vector as UTF-8, its getters, and the choice of a test.
-- A string that the code scans is the list of what lies from its address on; where the list has no
-- terminator, one stands behind it.
pub mod Convert
use loke.Prelude.{
  ℕ, zero, suc, ◌+◌, ◌-◌, ◌*◌, ◌^◌, Bool, true, false, ◌&&◌, ◌||◌, Option, none, some, List, [],
  ◌∷◌, ◌++◌, ltb, leb, ◌==◌, if◌then◌else◌, length, get_or,
}
use loke.Prelude.Int.{ℤ, pos, negsuc}
use loke.Prelude.Outcome.{Outcome, ok, abort, exited, overrun, ◌>>=◌}
use loke.Utf8.{encode_rune}

unfoldable pub is_high : ℕ → Bool
is_high u = leb 0xD800 u && leb u 0xDBFF

unfoldable pub is_low : ℕ → Bool
is_low u = leb 0xDC00 u && leb u 0xDFFF

unfoldable pub combine : ℕ → ℕ → ℕ
combine high low = 0x10000 + (high - 0xD800) * 2 ^ 10 + (low - 0xDC00)

-- The code points of the loop, in order; an unpaired surrogate is U+FFFD.
unfoldable pub code_points : List ℕ → List ℕ
code_points [] = []
code_points (u ∷ []) = (if is_high u || is_low u then 0xFFFD else u) ∷ []
code_points (u ∷ v ∷ units) =
    let paired = code_points units in
    let single = code_points (v ∷ units) in
    if is_high u
    then (if is_low v then combine u v ∷ paired else 0xFFFD ∷ single)
    else if is_low u
    then 0xFFFD ∷ single
    else u ∷ single

-- `written += loke_rt_encode_rune(out + written, code_point)` for each
unfoldable pub encode_points : List ℕ → List ℕ
encode_points [] = []
encode_points (c ∷ cs) = encode_rune (pos c) ++ encode_points cs

-- The units before the terminator.
unfoldable pub scanned : List ℕ → List ℕ
scanned [] = []
scanned (u ∷ memory) = let rest = scanned memory in if u == 0 then [] else u ∷ rest

-- Whether `malloc` gives the bytes that are asked for is the C library's.
module _ (malloc : ℕ → Bool) where
  -- The buffer of `units * 4 + 1` bytes with its terminator.
  unfoldable pub to_utf8 : List ℕ → Outcome (List ℕ)
  unfolding scanned code_points encode_points
  to_utf8 wide =
      let units = scanned wide in
      let bytes = length units * 4 + 1 in
      if malloc bytes
      then (let out = encode_points (code_points units) ++ (0 ∷ []) in
          if ltb bytes (length out) then overrun else ok out)
      else abort

  unfoldable pub convert_all : List (List ℕ) → Outcome (List (List ℕ))
  unfolding to_utf8
  convert_all [] = ok []
  convert_all (wide ∷ argv) = do
    value ← to_utf8 wide
    values ← convert_all argv
    ok (value ∷ values)

-- `arg_count` and `arg_values`, whose strings keep their terminators.
pub record Args : Type 0 where
  pub count : ℕ
  pub values : List (List ℕ)

-- `argv` holds `argc` strings; a negative `argc` counts as 0.
unfoldable pub args_init : (ℕ → Bool) → ℤ → List (List ℕ) → Outcome Args
unfolding convert_all
args_init malloc (negsuc n) argv =
    if malloc 8 then ok (record { count = 0; values = [] }) else abort
args_init malloc (pos argc) argv =
    if malloc ((if argc == 0 then 1 else argc) * 8)
    then convert_all malloc argv >>= (λ values. ok (record { count = argc; values = values }))
    else abort

unfoldable pub args_count : Args → ℕ
args_count s = s.count

-- The string at an index, with its terminator; out of range, the empty string.
unfoldable pub args_at : Args → ℤ → List ℕ
args_at s (negsuc i) = 0 ∷ []
args_at s (pos i) = if leb s.count i then 0 ∷ [] else get_or s.values i (0 ∷ [])

-- `strlen`
unfoldable pub strlen : List ℕ → ℕ
strlen [] = 0
strlen (b ∷ bs) = if b == 0 then 0 else suc (strlen bs)

unfoldable pub args_len : Args → ℤ → ℕ
unfolding strlen
args_len s (negsuc i) = 0
args_len s (pos i) = if leb s.count i then 0 else strlen (get_or s.values i (0 ∷ []))

-- `strcmp(a, b) == 0` on zero-terminated strings
unfoldable pub same_string : List ℕ → List ℕ → Bool
same_string [] bs = false
same_string (a ∷ as_) [] = false
same_string (a ∷ as_) (b ∷ bs) = a == b && (a == 0 || same_string as_ bs)

unfoldable pub find_name : List ℕ → List (List ℕ) → ℕ → Option ℕ
unfolding same_string
find_name wanted [] index = none
find_name wanted (name ∷ names) index =
    if same_string wanted name then some index else find_name wanted names (index + 1)

-- The answer -1 is `none`.
unfoldable pub test_select : Args → List (List ℕ) → Outcome (Option ℕ × Args)
unfolding find_name
test_select s names =
    if ltb s.count 2
    then ok (none, s)
    else if s.count == 2
    then elim (find_name (get_or s.values 1 []) names 0) [
      | none ↦ exited 2
      | some index ↦ ok (some index, record s { count = 1 })
    ]
    else exited 2
