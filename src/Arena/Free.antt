-- ===== src/Arena/Free.antt =====
-- runtime/arena.c: `arena_free` behind `arena_alloc`.
use loke.Prelude.{
  ℕ, ◌+◌, ◌-◌, ◌*◌, ◌^◌, ◌≤◌, ◌<◌, ◌≡◌, ◌≢◌, refl, sym, ap, ◌∙◌, ◌⊎◌, inl, inr, true, false, Option,
  none, some, List, [], ◌∷◌, arith, ◌==◌, Bool-cases,
}
use mathlib.Core.Path.{subst}
use loke.Prelude.Align.{word, add64, sub64}
use loke.Container.Memory.{Provider}
use loke.Arena.{
  Block, Arena, top_block, with_top, header_size, arena_block_bytes, arena_bump, arena_is_top,
  arena_alloc, arena_free,
}
use loke.Arena.Bump.{IsValid, start, arena_bump-Placed}
use loke.Arena.Grow.{InMemory, Allocated, top-with_top, alloc-after, arena_alloc-Allocated}

module _ (x : Arena) (b : Block) where
  with_top-with_top : (c : Block) → with_top (with_top x b) c ≡ with_top x c
  with_top-with_top c = go x.newer
    where
      go :
          (bs : List Block)
          → with_top (with_top (record x { newer = bs }) b) c ≡ with_top (record x { newer = bs }) c
      go [] = refl
      go (d ∷ ds) = refl

with_top-top_block : (x : Arena) → with_top x (top_block x) ≡ x
with_top-top_block x = go x.newer
  where
    go :
        (bs : List Block)
        → with_top (record x { newer = bs }) (top_block (record x { newer = bs }))
          ≡ record x { newer = bs }
    go [] = refl
    go (d ∷ ds) = refl

-- The range `[address, address + size)` ends what is used of a valid top block.
module _ (x : Arena) (address size : ℕ) (valid : IsValid (top_block x))
    (inside : start (top_block x) ≤ address)
    (ends : address + size ≡ start (top_block x) + (top_block x).used) where
  abbrev freed_block : Block
  freed_block = record (top_block x) { used = address - start (top_block x) }

  bytes-start : arena_block_bytes (top_block x) ≡ start (top_block x)
  unfolding arena_block_bytes
  bytes-start = omega (arith, valid.in_memory)

  top_end : add64 (start (top_block x)) (top_block x).used ≡ address + size
  top_end = omega (arith, valid.in_memory, valid.within, ends)

  is_top-ends : arena_is_top x address size ≡ true
  unfolding arena_is_top
  is_top-ends =
      let nonzero : (address == 0) ≡ false = ground (arith, inside) in
      let here : add64 address size ≡ address + size =
        omega (arith, valid.in_memory, valid.within, ends) in
      let same : (address + size == address + size) ≡ true = ground arith in
      rw (nonzero, bytes-start, top_end, here, same) refl

  arena_free-newest : arena_free x address size ≡ with_top x freed_block
  unfolding arena_free
  arena_free-newest =
      let less : sub64 (top_block x).used size ≡ address - start (top_block x) =
        omega (arith, ends, inside, valid.in_memory, valid.within) in
      rw (is_top-ends, less) refl

  arena_free-other :
      (ptr n : ℕ) → ptr + n < word → (ptr ≡ 0) ⊎ (ptr + n ≢ address + size) → arena_free x ptr n ≡ x
  unfolding arena_free arena_is_top
  arena_free-other ptr n small (inl null) =
      let zero_ : (ptr == 0) ≡ true = ground arith in rw zero_ refl
  arena_free-other ptr n small (inr apart) =
      let sum : add64 ptr n ≡ ptr + n = omega arith in
      let differ : (ptr + n == address + size) ≡ false = ground arith in
      elim (Bool-cases (ptr == 0)) [
        | inl e ↦ rw e refl
        | inr e ↦ rw (e, bytes-start, top_end, sum, differ) refl
      ]

  -- The bytes of the freed range are given again to a request of that size and alignment.
  bump-freed :
      (q k m : ℕ)
      → address ≡ q * 2 ^ k
      → k + m ≡ 64
      → arena_bump freed_block size (2 ^ k) ≡ (some address, top_block x)
  bump-freed q k m aligned exponent =
      let v : IsValid freed_block = record {
        in_memory = valid.in_memory;
        within = omega (arith, valid.within);
      } in
      elim (arena_bump-Placed freed_block size k m v exponent
        (omega (arith, valid.in_memory, valid.within))) [
          | inl refused ↦ absurd (omega (arith, refused.full q (omega arith), valid.within))
          | inr placed ↦
              let same : placed.address ≡ address =
                omega (arith, placed.aligned.above, placed.aligned.least q (omega arith)) in
              let used : placed.address + size - start (top_block x) ≡ (top_block x).used =
                omega arith in
              placed.placed
              ∙ ap
                  (λ (n : ℕ). (
                    some n,
                    record (top_block x) { used = placed.address + size - start (top_block x) },
                  ))
                  same
              ∙ ap (λ (n : ℕ). (some address, record (top_block x) { used = n })) used
        ]

module _ {S : Type 0} (p : Provider S) (a : Arena) (size k m : ℕ) (state : S) (sound : InMemory p)
    (valid : IsValid (top_block a)) (exponent : k + m ≡ 64) where
  -- What freeing does after an allocation at `address`. Freeing it leaves what is used of its block
  -- ending where it starts; the same request is then given the same address, with the arena as the
  -- allocation had left it. Freeing NULL, or a range that ends elsewhere, changes nothing.
  pub record Freed (r : Option ℕ × Arena × S) : Type 0 where
    pub address : ℕ
    pub answered : r.0 ≡ some address
    pub given_back :
        top_block (arena_free r.1 address size)
        ≡ record (top_block r.1) { used = address - start (top_block r.1) }
    pub again : (s : S) → arena_alloc p (arena_free r.1 address size) size (2 ^ k) s ≡ (r.0, r.1, s)
    pub others :
        (ptr n : ℕ)
        → ptr + n < word
        → (ptr ≡ 0) ⊎ (ptr + n ≢ address + size)
        → arena_free r.1 ptr n ≡ r.1

  Allocated-Freed :
      (r : Option ℕ × Arena × S)
      → 0 < size
      → Allocated p a size k m state sound valid exponent r
      → Freed r
  Allocated-Freed r positive got =
      let x = r.1 in
      let at = got.address in
      let inside : start (top_block x) ≤ at = elim got.fresh [
        | inl (same, above) ↦ omega (arith, same, above)
        | inr (newer, first, above) ↦ above
      ] in
      let b = freed_block x at size got.valid_top inside got.ends in
      let newest = arena_free-newest x at size got.valid_top inside got.ends in
      let free_top : top_block (arena_free x at size) ≡ b =
        ap (λ (y : Arena). top_block y) newest ∙ top-with_top x b in
      record {
        address = at;
        answered = got.answered;
        given_back = free_top;
        again = λ s.
            subst (λ (y : Arena). arena_alloc p y size (2 ^ k) s ≡ (r.0, x, s)) (sym newest)
              (again_at x at s b got.answered
                (subst (λ (c : Block). IsValid c) (sym (top-with_top x b))
                  (record {
                    in_memory = got.valid_top.in_memory;
                    within = omega (arith, got.valid_top.within, got.ends);
                  }))
                positive
                (subst (λ (c : Block). arena_bump c size (2 ^ k) ≡ (some at, top_block x))
                  (sym (top-with_top x b))
                  (bump-freed x at size got.valid_top inside got.ends got.quotient k m got.aligned
                    exponent)));
        others = arena_free-other x at size got.valid_top inside got.ends;
      }
    where
      again_at :
          {o : Option ℕ} (x : Arena) (at : ℕ) (s : S) (b : Block)
          → o ≡ some at
          → IsValid (top_block (with_top x b))
          → 0 < size
          → arena_bump (top_block (with_top x b)) size (2 ^ k) ≡ (some at, top_block x)
          → arena_alloc p (with_top x b) size (2 ^ k) s ≡ (o, x, s)
      again_at x at s b e v positive bumped =
          alloc-after p (with_top x b) size k m s sound v exponent positive
          ∙ rw (bumped, e, with_top-with_top x b, with_top-top_block x) refl

  -- In an arena whose top block is valid and whose `block_bytes` is a `uint64_t`, over a parent whose
  -- storage lies in the address space, for a size from 1 on and below 2^64, at a power of two, whose
  -- sum with the alignment and a header does not exceed the size by 2^64: `arena_alloc` answers NULL
  -- and leaves the arena as it was, or freeing what it gave takes exactly these bytes back: the same
  -- request is then given the same address, with the arena as the first had left it; and freeing
  -- NULL, or a range of the address space that does not end where the allocation ends, changes
  -- nothing.
  pub arena_free-Freed :
      0 < size
      → size < word
      → size + 2 ^ k + header_size < word + size
      → a.block_bytes < word
      → ((arena_alloc p a size (2 ^ k) state).0 ≡ none)
          × ((arena_alloc p a size (2 ^ k) state).1 ≡ a)
        ⊎ Freed (arena_alloc p a size (2 ^ k) state)
  arena_free-Freed positive fits small bytes =
      elim (arena_alloc-Allocated p a size k m state sound valid exponent positive fits small
        bytes) [ inl refused ↦ inl refused | inr got ↦ inr (Allocated-Freed _ positive got) ]
