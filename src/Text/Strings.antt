-- ===== src/Text/Strings.antt =====
-- runtime/text.c: the handle counts of shared blocks, and what the constructors store.
use loke.Prelude.{
  ℕ, ◌+◌, ◌-◌, ◌<◌, ◌≡◌, refl, ap, inl, inr, true, false, some, List, [], ◌∷◌, arith, ◌==◌,
  Bool-cases,
}
use loke.Prelude.Outcome.{ok, ◌>>=◌}
use loke.Allocator.{Handle, OpsTable}
use loke.Text.{Header, Store, is_shared, find_header, set_handles, string_retain, string_release}

find-set_handles :
    (at n : ℕ) (hs : List Header) (h : Header)
    → find_header at hs ≡ some h
    → find_header at (set_handles at n hs) ≡ some (record h { handles = n })
unfolding find_header set_handles
find-set_handles at n [] h e = cc
find-set_handles at n (x ∷ xs) h e = elim (Bool-cases (x.at == at)) [
  | inl g ↦ ground (arith, g, e)
  | inr g ↦ ground (arith, g, e, find-set_handles at n xs h)
]

set_handles-back :
    (at n : ℕ) (hs : List Header) (h : Header)
    → find_header at hs ≡ some h
    → set_handles at h.handles (set_handles at n hs) ≡ hs
unfolding find_header set_handles
set_handles-back at n [] h e = refl
set_handles-back at n (x ∷ xs) h e = elim (Bool-cases (x.at == at)) [
  | inl g ↦ ground (arith, g, e)
  | inr g ↦ ground (arith, g, e, set_handles-back at n xs h)
]

module _ {S : Type 0} (default_allocator : ℕ) (handles : ℕ → Handle) (tables : ℕ → OpsTable S)
    (owner_flags : ℕ) (store : Store S) (h : Header) where
  more : Store S
  more = record store { headers = set_handles owner_flags (h.handles + 1) store.headers }

  retain-shared :
      is_shared owner_flags ≡ true
      → find_header owner_flags store.headers ≡ some h
      → string_retain default_allocator handles tables owner_flags store ≡ ok more
  unfolding string_retain more
  retain-shared e found = rw (e, found) refl

  release-shared :
      is_shared owner_flags ≡ true
      → find_header owner_flags store.headers ≡ some h
      → 0 < h.handles
      → string_release default_allocator handles tables owner_flags more ≡ ok store
  unfolding string_release more
  release-shared e found live =
      let again = find-set_handles owner_flags (h.handles + 1) store.headers h found in
      let others : (h.handles + 1 == 1) ≡ false = ground (arith, live) in
      let count : h.handles + 1 - 1 ≡ h.handles = omega arith in
      rw (e, again, others, count)
        (ap (λ (hs : List Header). ok (record store { headers = hs }))
          (set_handles-back owner_flags (h.handles + 1) store.headers h found))

  unshared :
      is_shared owner_flags ≡ false
      → (string_retain default_allocator handles tables owner_flags store
          >>= string_release default_allocator handles tables owner_flags)
        ≡ ok store
  unfolding string_retain string_release
  unshared e = rw e (rw e refl)

  -- For the owner of a block in the store that has a handle already, releasing the handle that was
  -- just retained leaves the store as it was: the block is not freed.
  pub string_release-string_retain :
      find_header owner_flags store.headers ≡ some h
      → 0 < h.handles
      → (string_retain default_allocator handles tables owner_flags store
          >>= string_release default_allocator handles tables owner_flags)
        ≡ ok store
  string_release-string_retain found live = elim (Bool-cases (is_shared owner_flags)) [
    | inr e ↦ unshared e
    | inl e ↦ rw (retain-shared e found) (release-shared e found live)
  ]
