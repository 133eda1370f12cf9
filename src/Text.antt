-- ===== src/Text.antt =====
-- runtime/text.c, the storage half: the shared blocks behind `string`, and byte-wise comparison.
-- `owner_flags` is 0 for the empty string, 1 for a static literal, or the address of a header. A
-- header and its bytes are kept together, under their address; an access at an address that holds
-- none is an `overrun`.
pub mod Compare
pub mod Strings
use loke.Prelude.{
  ℕ, zero, suc, ◌+◌, ◌-◌, ◌%◌, ◌^◌, Bool, true, false, ◌&&◌, ◌||◌, Option, none, some, List, [],
  ◌∷◌, ◌++◌, ltb, ◌==◌, if◌then◌else◌, take, length,
}
use loke.Prelude.Align.{word, sub64, add64}
use loke.Prelude.Int.{ℤ, pos, negsuc}
use loke.Prelude.Outcome.{Outcome, ok, overrun, ◌>>=◌}
use loke.Container.Checked.{checked_add}
use loke.Allocator.{Handle, OpsTable, Runtime, alloc, free, alloc_failed}
use loke.Utf8.{utf8_valid, encode_rune}

-- `loke_rt_string_header_v1`, and the bytes behind it with their terminator.
pub record Header : Type 0 where
  pub at : ℕ
  pub handles : ℕ
  pub allocator : ℕ
  pub block_size : ℕ
  pub contents : List ℕ

-- `loke_rt_string_v1`: the bytes are named by the block that holds them.
pub record StringValue : Type 0 where
  pub byte_len : ℕ
  pub owner_flags : ℕ

-- The live blocks, and the allocators' state.
pub record Store (S : Type 0) : Type 0 where
  pub headers : List Header
  pub runtime : Runtime S

-- `sizeof(loke_rt_string_header_v1)` and `HEADER_ALIGN`
abbrev pub string_header_size : ℕ
string_header_size = 24

abbrev pub header_align : ℕ
header_align = 8

abbrev pub empty_string : StringValue
empty_string = record { byte_len = 0; owner_flags = 0 }

unfoldable pub is_shared : ℕ → Bool
is_shared owner_flags = if owner_flags == 0 || owner_flags == 1 then false else true

unfoldable pub find_header : ℕ → List Header → Option Header
find_header at [] = none
find_header at (h ∷ hs) = if h.at == at then some h else find_header at hs

-- Writes the count of the header at an address.
unfoldable pub set_handles : (at n : ℕ) → List Header → List Header
set_handles at n [] = []
set_handles at n (h ∷ hs) =
    let rest = set_handles at n hs in if h.at == at then record h { handles = n } ∷ hs else h ∷ rest

unfoldable pub remove_header : (at : ℕ) → List Header → List Header
remove_header at [] = []
remove_header at (h ∷ hs) = let rest = remove_header at hs in if h.at == at then hs else h ∷ rest

-- `memcmp` of `n` bytes; the answer is -1, 0 or 1, and a byte that is not there is an `overrun`.
unfoldable pub memcmp : (n : ℕ) → List ℕ → List ℕ → Outcome ℤ
memcmp zero as_ bs = ok (pos 0)
memcmp (suc n) [] bs = overrun
memcmp (suc n) (a ∷ as_) [] = overrun
memcmp (suc n) (a ∷ as_) (b ∷ bs) =
    let rest = memcmp n as_ bs in
    if ltb a b then ok (negsuc 0) else if ltb b a then ok (pos 1) else rest

-- `shared` where it is above 0, and else 0, for which `memcmp` is not called.
unfoldable pub shared_length : (a_len b_len : ℤ) → ℕ
shared_length (pos m) (pos n) = if ltb m n then m else n
shared_length (pos m) (negsuc n) = 0
shared_length (negsuc m) b_len = 0

-- The order of the lengths, which decides where the shared bytes are equal.
unfoldable pub length_order : (a_len b_len : ℤ) → ℤ
length_order (pos m) (pos n) = if m == n then pos 0 else if ltb m n then negsuc 0 else pos 1
length_order (pos m) (negsuc n) = pos 1
length_order (negsuc m) (pos n) = negsuc 0
length_order (negsuc m) (negsuc n) = if m == n then pos 0 else if ltb n m then negsuc 0 else pos 1

-- What the answer of `memcmp` gives.
unfoldable pub order_of : (a_len b_len order : ℤ) → ℤ
unfolding length_order
order_of a_len b_len (negsuc k) = negsuc 0
order_of a_len b_len (pos (suc k)) = pos 1
order_of a_len b_len (pos zero) = length_order a_len b_len

unfoldable pub bytes_compare : List ℕ → (a_len : ℤ) → List ℕ → (b_len : ℤ) → Outcome ℤ
unfolding memcmp shared_length order_of
bytes_compare a_data a_len b_data b_len =
    memcmp (shared_length a_len b_len) a_data b_data >>= λ order. ok (order_of a_len b_len order)

-- `none` is NULL. The list is what lies from the address on; a string with no terminator has no
-- length that the code defines.
unfoldable pub cstring_len : Option (List ℕ) → ℕ
cstring_len none = 0
cstring_len (some []) = 0
cstring_len (some (b ∷ bs)) = let rest = cstring_len (some bs) in if b == 0 then 0 else suc rest

-- The bytes of the runes, in order, unless one of them has no encoding.
unfoldable pub encode_all : List ℤ → Option (List ℕ)
encode_all [] = some []
encode_all (r ∷ rs) = elim (encode_rune r) [
  | [] ↦ none
  | b ∷ bs ↦ elim (encode_all rs) [ none ↦ none | some rest ↦ some ((b ∷ bs) ++ rest) ]
]

module _ {S : Type 0} (default_allocator : ℕ) (handles : ℕ → Handle) (tables : ℕ → OpsTable S) where
  -- An answer of 0 or 1, what is in `*out`, and the store.
  abbrev pub Made : Type 0
  Made = Bool × StringValue × Store S

  unfoldable pub string_retain : (owner_flags : ℕ) → Store S → Outcome (Store S)
  string_retain owner_flags store =
      if is_shared owner_flags
      then elim (find_header owner_flags store.headers) [
        | none ↦ overrun
        | some h ↦
            ok (record store { headers = set_handles owner_flags (h.handles + 1) store.headers })
      ]
      else ok store

  unfoldable pub string_release : (owner_flags : ℕ) → Store S → Outcome (Store S)
  string_release owner_flags store =
      if is_shared owner_flags
      then elim (find_header owner_flags store.headers) [
        | none ↦ overrun
        | some h ↦
            if h.handles == 1
            then (free default_allocator handles tables h.allocator owner_flags h.block_size
                  header_align store.runtime
                >>= λ (rt : Runtime S). ok (record store {
                  headers = remove_header owner_flags store.headers;
                  runtime = rt;
                }))
            else ok
                (record store { headers = set_handles owner_flags (h.handles - 1) store.headers })
      ]
      else ok store

  -- `allocate_buffer` and the copies into it: the block that holds `contents` and a terminator.
  unfoldable pub allocate_buffer :
      (contents : List ℕ) → (a : ℕ) → Store S → Outcome (Option StringValue × Store S)
  allocate_buffer contents a store =
      let block = add64 (add64 string_header_size (length contents)) 1 in
      alloc default_allocator handles tables a block header_align store.runtime >>= λ r.
      ok (elim r.0 [
        | none ↦ (none, record store { runtime = r.1 })
        | some raw ↦ (
          some (record { byte_len = length contents; owner_flags = raw }),
          record {
            headers =
                record {
                  at = raw;
                  handles = 1;
                  allocator = a;
                  block_size = block;
                  contents = contents ++ (0 ∷ []);
                }
                ∷ store.headers;
            runtime = r.1;
          },
        )
      ])

  -- The tails of the constructors: a failed allocation is `alloc_failed`, or the answer 0.
  unfoldable pub filled_or_failed : (contents : List ℕ) → (a : ℕ) → Store S → Outcome Made
  unfolding allocate_buffer
  filled_or_failed contents a store = allocate_buffer contents a store >>= λ r. elim r.0 [
    | none ↦ alloc_failed default_allocator handles tables r.1.runtime a
    | some out ↦ ok (true, out, r.1)
  ]

  unfoldable pub filled_or_empty : (contents : List ℕ) → (a : ℕ) → Store S → Outcome Made
  unfolding allocate_buffer
  filled_or_empty contents a store = allocate_buffer contents a store >>= λ r. elim r.0 [
    | none ↦ ok (false, empty_string, r.1)
    | some out ↦ ok (true, out, r.1)
  ]

  -- `utf8_valid` is `none` where its bound on the rounds would not do.
  unfoldable pub string_from_bytes : (src : List ℕ) → (len : ℤ) → (a : ℕ) → Store S → Outcome Made
  unfolding filled_or_failed
  string_from_bytes src (negsuc n) a store = ok (false, empty_string, store)
  string_from_bytes src (pos len) a store = elim (utf8_valid (some src) (pos len)) [
    | none ↦ overrun
    | some false ↦ ok (false, empty_string, store)
    | some true ↦
        if len == 0 then ok (true, empty_string, store) else filled_or_failed (take len src) a store
  ]

  unfoldable pub string_clone : (src : List ℕ) → (len : ℤ) → (a : ℕ) → Store S → Outcome Made
  unfolding filled_or_empty
  string_clone src (negsuc n) a store = ok (true, empty_string, store)
  string_clone src (pos len) a store =
      if len == 0 then ok (true, empty_string, store) else filled_or_empty (take len src) a store

  unfoldable pub string_concat :
      (a_data : List ℕ)
      → (a_len : ℤ) → (b_data : List ℕ) → (b_len : ℤ) → (a : ℕ) → Store S
      → Outcome Made
  unfolding filled_or_empty
  string_concat a_data (pos a_len) b_data (pos b_len) a store =
      elim (checked_add (pos a_len) (pos b_len)) [
        | none ↦ ok (false, empty_string, store)
        | some total ↦
            if total == 0
            then ok (true, empty_string, store)
            else filled_or_empty (take a_len a_data ++ take b_len b_data) a store
      ]
  string_concat a_data (negsuc a_len) b_data (pos b_len) a store = ok (false, empty_string, store)
  string_concat a_data (pos a_len) b_data (negsuc b_len) a store = ok (false, empty_string, store)
  string_concat a_data (negsuc a_len) b_data (negsuc b_len) a store =
      ok (false, empty_string, store)

  unfoldable pub string_from_runes : (runes : List ℤ) → (a : ℕ) → Store S → Outcome Made
  unfolding filled_or_failed encode_all
  string_from_runes runes a store = elim (encode_all runes) [
    | none ↦ ok (false, empty_string, store)
    | some [] ↦ ok (true, empty_string, store)
    | some (b ∷ bs) ↦ filled_or_failed (b ∷ bs) a store
  ]
