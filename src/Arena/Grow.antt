-- ===== src/Arena/Grow.antt =====
-- runtime/arena.c: `arena_grow` and `arena_alloc`.
use loke.Prelude.{
  ℕ, zero, suc, ◌+◌, ◌-◌, ◌*◌, ◌%◌, ◌^◌, ◌<◌, ◌≤◌, ◌≡◌, ◌≢◌, refl, sym, ap, ◌∙◌, ◌⊎◌, inl, inr,
  Bool, true, false, ◌||◌, not, Option, none, some, ◌∷◌, arith, ltb, leb, ◌==◌, if◌then◌else◌,
  Bool-cases, Option-cases,
}
use native.Mathlib.Nat.{pow-suc}
use native.Mathlib.Decide.{dec_lt}
use mathlib.Core.Path.{subst}
use loke.Prelude.Align.{word, add64, sub64, bit_and-high}
use loke.Container.Memory.{Provider}
use loke.Arena.{
  Block, Arena, top_block, with_top, header_size, control_align, doubled_until, arena_align,
  arena_bump, arena_grow, bump_top, arena_alloc,
}
use loke.Arena.Bump.{IsValid, start, Placed, arena_bump-Placed, pow_pos}

-- The loop of `arena_grow` ends: from a `want` that is a `uint64_t` it returns with one more round than
-- it takes to double `want` past 64 bits, or at once if `want` is 0, and a size that it returns is a `uint64_t` that is at least `needed` and `want`.
pub doubled_until-returns :
    (f want needed : ℕ)
    → want < word
    → (want ≡ 0) ⊎ (word ≤ want * 2 ^ f)
    → (r : Option ℕ) × (doubled_until (suc f) want needed ≡ some r)
      × ((w : ℕ) → r ≡ some w → (needed ≤ w) × (want ≤ w) × (w < word))
unfolding doubled_until
doubled_until-returns zero want needed h big = elim (Bool-cases (ltb want needed)) [
  | inr enough ↦ (some want, rw enough refl, λ w e. (ground arith, ground arith, ground arith))
  | inl less ↦ (
    none,
    (let wrapped : leb ((want * 2) % word) want ≡ true = ground (arith, h, big) in
        rw (less, wrapped) refl),
    λ w e. cc,
  )
]
doubled_until-returns (suc g) want needed h big = elim (Bool-cases (ltb want needed)) [
  | inr enough ↦ (some want, rw enough refl, λ w e. (ground arith, ground arith, ground arith))
  | inl less ↦ elim (Bool-cases (leb ((want * 2) % word) want)) [
    | inl wrapped ↦ (none, rw (less, wrapped) refl, λ w e. cc)
    | inr more ↦
        let d = (want * 2) % word in
        let twice : d ≡ want * 2 = ground (arith, h) in
        let nonzero : want ≢ 0 = ground arith in
        let step : want * 2 ^ suc g ≡ d * 2 ^ g =
          ap (λ (t : ℕ). want * t) (pow-suc 2 g) ∙ rw twice (grind arith) in
        let enough : (d ≡ 0) ⊎ (word ≤ d * 2 ^ g) = elim big [
          | inl z ↦ absurd (nonzero z)
          | inr e ↦ inr (omega (arith, step, e))
        ] in
        let (r, returned, bounds) = doubled_until-returns g d needed (omega arith) enough in
        (
          r,
          rw (less, more) returned,
          λ w e. (let (lo, up, hi) = bounds w e in (lo, omega (arith, twice, up), hi)),
        )
  ]
]

module _ (a : Arena) (b : Block) where
  pub top-with_top : top_block (with_top a b) ≡ b
  top-with_top = ground arith

module _ {S : Type 0} (p : Provider S) (a : Arena) (size align : ℕ) (state : S) where
  bump_top-run :
      bump_top p a size align state
      ≡ (let r = arena_bump (top_block a) size align in (r.0, with_top a r.1, state))
  unfolding bump_top
  bump_top-run = refl

  -- What `arena_grow` does when it succeeds: one more block, owned, with room for the request.
  pub record Grown (r : Bool × Arena × S) : Type 0 where
    pub block : Block
    pub newer : r.1 ≡ record a { newer = block ∷ a.newer; block_bytes = block.size + header_size }
    pub owned : block.owned ≡ true
    pub unused : block.used ≡ 0
    pub room : size + align ≤ block.size
    pub given : (p.alloc state (block.size + header_size) control_align).0 ≡ some block.at

  no_wrap :
      (not a.parent || ltb (add64 (add64 size align) header_size) size) ≡ false
      → size + align + header_size < word + size
      → size < word
      → add64 (add64 size align) header_size ≡ size + align + header_size
  no_wrap asked small fits = ground arith

  pub arena_grow-Grown :
      size + align + header_size < word + size
      → size < word
      → a.block_bytes < word
      → ((arena_grow p a size align state).0 ≡ false) × ((arena_grow p a size align state).1 ≡ a)
        ⊎ ((arena_grow p a size align state).0 ≡ true) × Grown (arena_grow p a size align state)
  unfolding arena_grow
  arena_grow-Grown small fits bytes =
      let needed = add64 (add64 size align) header_size in
      let start_big : (a.block_bytes ≡ 0) ⊎ (word ≤ a.block_bytes * 2 ^ 64) =
        elim (dec_lt 0 a.block_bytes) [ yes h ↦ inr (omega arith) | no h ↦ inl (omega arith) ] in
      let (r, returned, bounds) = doubled_until-returns 64 a.block_bytes needed bytes start_big in
      elim (Bool-cases (not a.parent || ltb needed size)) [
        | inl refused ↦ inl (rw refused refl, rw refused refl)
        | inr asked ↦ elim (Option-cases r) [
          | inl overflow ↦
              let e = returned ∙ ap some overflow in inl (rw (asked, e) refl, rw (asked, e) refl)
          | inr (want, chosen) ↦
              let e = returned ∙ ap some chosen in
              let (lo, up, hi) = bounds want chosen in
              elim (Option-cases (p.alloc state want control_align).0) [
                | inl null ↦ inl (rw (asked, e, null) refl, rw (asked, e, null) refl)
                | inr (at, given) ↦
                    let exact : needed ≡ size + align + header_size = no_wrap asked small fits in
                    let back : sub64 want header_size + header_size ≡ want =
                      omega (arith, lo, exact, hi) in
                    inr (
                      rw (asked, e, given) refl,
                      rw (asked, e, given)
                          (record {
                            block = record {
                              at = at;
                              size = sub64 want header_size;
                              used = 0;
                              owned = true;
                            };
                            newer = rw back refl;
                            owned = refl;
                            unused = refl;
                            room = omega (arith, lo, exact, back);
                            given = rw back given;
                          }),
                    )
              ]
        ]
      ]

-- The parent answers storage that lies in the address space.
abbrev pub InMemory : {S : Type 0} → Provider S → Type 0
InMemory {S} p =
    (state : S) (size align at : ℕ) → (p.alloc state size align).0 ≡ some at → at + size < word

module _ {S : Type 0} (p : Provider S) (a : Arena) (size k m : ℕ) (state : S) (sound : InMemory p)
    (valid : IsValid (top_block a)) (exponent : k + m ≡ 64) where
  -- An allocation: an aligned range that ends what is used of the top block. It starts behind what
  -- was used of that block, or the block is a new one.
  pub record Allocated (r : Option ℕ × Arena × S) : Type 0 where
    pub address : ℕ
    pub quotient : ℕ
    pub answered : r.0 ≡ some address
    pub aligned : address ≡ quotient * 2 ^ k
    pub valid_top : IsValid (top_block r.1)
    pub ends : address + size ≡ start (top_block r.1) + (top_block r.1).used
    pub fresh :
        ((top_block r.1).at ≡ (top_block a).at)
          × (start (top_block a) + (top_block a).used ≤ address)
        ⊎ (r.1.newer ≡ top_block r.1 ∷ a.newer)
          × (r.1.first ≡ a.first)
          × (start (top_block r.1) ≤ address)

  abbrev bumped : Arena → Option ℕ × Block
  bumped b = arena_bump (top_block b) size (2 ^ k)

  abbrev grew : Bool × Arena × S
  grew = arena_grow p a size (2 ^ k) state

  -- `arena_alloc` of a size that is not 0, as a function of what its calls answer.
  abbrev after : Option ℕ × Block → Bool × Arena × S → Option ℕ × Block → Option ℕ × Arena × S
  after r g r₂ = elim r.0 [
    | some at ↦ (some at, with_top a r.1, state)
    | none ↦ if g.0 then (r₂.0, with_top g.1 r₂.1, g.2) else (none, g.1, g.2)
  ]

  alloc-after_at :
      (al : ℕ)
      → 0 < size
      → arena_align (2 ^ k) ≡ al
      → arena_alloc p a size (2 ^ k) state
        ≡ after
            (arena_bump (top_block a) size al)
            (arena_grow p a size al state)
            (arena_bump (top_block (arena_grow p a size al state).1) size al)
  unfolding arena_alloc bump_top
  alloc-after_at al h e =
      let nonzero : (size == 0) ≡ false = ground arith in
      subst
        (λ (l : ℕ).
          arena_alloc p a size (2 ^ k) state
          ≡ after (arena_bump (top_block a) size l) (arena_grow p a size l state)
              (arena_bump (top_block (arena_grow p a size l state).1) size l))
        e (rw nonzero refl)

  align-power : arena_align (2 ^ k) ≡ 2 ^ k
  unfolding arena_align
  align-power = ground (arith, pow_pos k)

  pub alloc-after :
      0 < size → arena_alloc p a size (2 ^ k) state ≡ after (bumped a) grew (bumped grew.1)
  alloc-after h = alloc-after_at (2 ^ k) h align-power

  -- In a new block there is room.
  new-Placed :
      (b : Block)
      → IsValid b
      → b.used ≡ 0
      → size + 2 ^ k ≤ b.size
      → size < word
      → Placed b size k (arena_bump b size (2 ^ k))
  new-Placed b v unused room fits = elim (arena_bump-Placed b size k m v exponent fits) [
    | inr placed ↦ placed
    | inl refused ↦
        let full : 2 ^ (k + m) ≡ word = ap (λ (t : ℕ). 2 ^ t) exponent in
        let (q, e, lo, hi) =
          bit_and-high k m (start b + 2 ^ k - 1)
            (omega (arith, full, v.in_memory, room, pow_pos k)) in
        absurd (
          omega (
            arith,
            lo,
            hi,
            room,
            unused,
            pow_pos k,
            refused.full q (omega (arith, hi, unused, pow_pos k)),
          ))
  ]

  top-Allocated :
      (pl : Placed (top_block a) size k (bumped a))
      → Allocated (
        some pl.address,
        with_top a (record (top_block a) { used = pl.address + size - start (top_block a) }),
        state,
      )
  top-Allocated pl =
      let b : Block = record (top_block a) { used = pl.address + size - start (top_block a) } in
      let e = sym (top-with_top a b) in
      record {
        address = pl.address;
        quotient = pl.aligned.quotient;
        answered = refl;
        aligned = pl.aligned.multiple;
        valid_top =
            subst (λ (c : Block). IsValid c) e
              (record {
                in_memory = valid.in_memory;
                within = omega (arith, pl.fits, pl.aligned.above);
              });
        ends =
            subst (λ (c : Block). pl.address + size ≡ start c + c.used) e
              (omega (arith, pl.aligned.above));
        fresh = inl (subst (λ (c : Block). c.at ≡ (top_block a).at) e refl, pl.aligned.above);
      }

  Grown-Allocated :
      size < word
      → Grown p a size (2 ^ k) state grew
      → Allocated ((bumped grew.1).0, with_top grew.1 (bumped grew.1).1, grew.2)
  Grown-Allocated fits grown =
      let b = grown.block in
      let above = sound state (b.size + header_size) control_align b.at grown.given in
      let v : IsValid b = record {
        in_memory = omega (arith, above);
        within = omega (arith, grown.unused);
      } in
      let pl = new-Placed b v grown.unused grown.room fits in
      subst (λ (x : Arena). Allocated ((bumped x).0, with_top x (bumped x).1, grew.2))
        (sym grown.newer)
        (subst
          (λ (r : Option ℕ × Block). Allocated (
            r.0,
            with_top (record a { newer = b ∷ a.newer; block_bytes = b.size + header_size }) r.1,
            grew.2,
          ))
          (sym pl.placed)
          (record {
            address = pl.address;
            quotient = pl.aligned.quotient;
            answered = refl;
            aligned = pl.aligned.multiple;
            valid_top = record {
              in_memory = v.in_memory;
              within = omega (arith, pl.fits, pl.aligned.above);
            };
            ends = omega (arith, pl.aligned.above);
            fresh = inr (refl, refl, omega (arith, pl.aligned.above));
          }))

  -- In an arena whose top block is valid and whose `block_bytes` is a `uint64_t`, over a parent whose
  -- storage lies in the address space, `arena_alloc` of a size from 1 on and below 2^64, at a power of two, whose sum with the alignment and a header
  -- does not exceed the size by 2^64, gives an aligned range inside the top block of the chain,
  -- behind everything that was used of it, and that block, which may be a new one of the parent's,
  -- stays valid; or it answers NULL and leaves the arena as it was.
  pub arena_alloc-Allocated :
      0 < size
      → size < word
      → size + 2 ^ k + header_size < word + size
      → a.block_bytes < word
      → ((arena_alloc p a size (2 ^ k) state).0 ≡ none)
          × ((arena_alloc p a size (2 ^ k) state).1 ≡ a)
        ⊎ Allocated (arena_alloc p a size (2 ^ k) state)
  arena_alloc-Allocated positive fits small bytes =
      rw (alloc-after positive)
        (elim (arena_bump-Placed (top_block a) size k m valid exponent fits) [
          | inr placed ↦ inr (
              subst (λ (r : Option ℕ × Block). Allocated (after r grew (bumped grew.1)))
                (sym placed.placed) (top-Allocated placed))
          | inl refused ↦
              subst
                (λ (r : Option ℕ × Block).
                  ((after r grew (bumped grew.1)).0 ≡ none) × ((after r grew (bumped grew.1)).1 ≡ a)
                  ⊎ Allocated (after r grew (bumped grew.1)))
                (sym refused.refused)
                (elim (arena_grow-Grown p a size (2 ^ k) state small fits bytes) [
                  | inl (failed, same) ↦ inl (rw failed refl, rw failed same)
                  | inr (done, grown) ↦ inr (rw done (Grown-Allocated fits grown))
                ])
        ])
