-- ===== src/Arena/Bump.antt =====
-- runtime/arena.c: where `arena_round_up` and `arena_bump` put an allocation.
use loke.Prelude.{
  ℕ, zero, suc, ◌+◌, ◌-◌, ◌*◌, ◌^◌, ◌<◌, ◌≤◌, ◌≡◌, refl, sym, ap, ◌∙◌, ◌⊎◌, inl, inr, bit_and, true,
  false, ◌||◌, Option, none, some, arith, ltb, ◌==◌, if◌then◌else◌, Bool-cases, ltb→lt,
}
use native.Mathlib.Nat.{pow-suc}
use native.Mathlib.Decide.{dec_lt, dec_le}
use loke.Prelude.Align.{word, add64, sub64, not64, bit_and-high}
use loke.Arena.{Block, arena_round_up, arena_block_bytes, arena_bump, header_size}

-- A multiple that is above the one before `r` is at least `r`.
next_multiple : (b q t : ℕ) → q * b < t * b + b → q * b ≤ t * b
next_multiple b q t h = elim (dec_lt t q) [
  | yes lt ↦ absurd (let more : suc t * b ≤ q * b = grind arith in grind arith)
  | no ge ↦ grind arith
]

pow-sum : (k m : ℕ) → 2 ^ (k + m) ≡ 2 ^ m * 2 ^ k
pow-sum zero m = let e : 0 + m ≡ m = omega arith in rw e (omega arith)
pow-sum (suc k) m =
    let e : suc k + m ≡ suc (k + m) = omega arith in
    let two : 2 ^ m * 2 ^ suc k ≡ 2 ^ m * 2 ^ k * 2 =
      ap (λ (t : ℕ). 2 ^ m * t) (pow-suc 2 k) ∙ grind arith in
    rw e (pow-suc 2 (k + m) ∙ omega (arith, two, pow-sum k m))

pub pow_pos : (k : ℕ) → 0 < 2 ^ k
pow_pos zero = omega arith
pow_pos (suc k) = omega (arith, pow-suc 2 k, pow_pos k)

-- `r` is the least multiple of `b` from `value` on.
pub record IsRoundedUp (value b r : ℕ) : Type 0 where
  pub quotient : ℕ
  pub multiple : r ≡ quotient * b
  pub above : value ≤ r
  pub least : (t : ℕ) → value ≤ t * b → r ≤ t * b

module _ (k m value : ℕ) (exponent : k + m ≡ 64) (some_ : 0 < value) (fits : value < word) where
  whole : word ≡ 2 ^ m * 2 ^ k
  whole = ap (λ (t : ℕ). 2 ^ t) (sym exponent) ∙ pow-sum k m

  mask : not64 (2 ^ k - 1) ≡ 2 ^ (k + m) - 2 ^ k
  mask = let e : 2 ^ (k + m) ≡ word = ap (λ (t : ℕ). 2 ^ t) exponent in omega (arith, e, pow_pos k)

  grow : 2 ^ k ≤ 2 ^ m * 2 ^ k
  grow = grind (arith, pow_pos m)

  -- For a value from 1 on and below 2^64, `arena_round_up` answers the least multiple of the alignment, a power of two, from `value` on,
  -- or 0 when that multiple is no `uint64_t`.
  pub arena_round_up-IsRoundedUp :
      ((arena_round_up value (2 ^ k) ≡ 0) × ((t : ℕ) → value ≤ t * 2 ^ k → word ≤ t * 2 ^ k))
      ⊎ IsRoundedUp value (2 ^ k) (arena_round_up value (2 ^ k))
  unfolding arena_round_up
  arena_round_up-IsRoundedUp =
      let slack = add64 value (2 ^ k - 1) in
      let full : 2 ^ (k + m) ≡ word = ap (λ (t : ℕ). 2 ^ t) exponent in
      let small : 2 ^ k ≤ word = omega (arith, sym full, pow-sum k m, whole, grow) in
      elim (Bool-cases (ltb slack value)) [
        | inl wraps ↦ inl (
          rw wraps refl,
          λ t h. omega (
            arith,
            whole,
            next_multiple (2 ^ k) (2 ^ m) t (omega (arith, whole, ltb→lt slack value wraps, small)),
          ),
        )
        | inr stays ↦
            let stay : slack ≡ value + (2 ^ k - 1) = ground (arith, small) in
            let (q, e, lo, hi) = bit_and-high k m slack (omega (arith, full)) in
            let answer : (if ltb slack value then 0 else bit_and slack (not64 (2 ^ k - 1)))
                ≡ q * 2 ^ k =
              rw (stays, mask) e in
            inr (record {
              quotient = q;
              multiple = answer;
              above = rw answer (omega (arith, stay, pow_pos k, lo, hi));
              least = λ t h.
                  rw answer (next_multiple (2 ^ k) q t (omega (arith, stay, pow_pos k, lo, hi)));
            })
      ]

-- The block lies in the address space, and no more of it is used than there is.
pub record IsValid (b : Block) : Type 0 where
  pub in_memory : b.at + header_size + b.size < word
  pub within : b.used ≤ b.size

-- The address of the first usable byte.
abbrev pub start : Block → ℕ
start b = b.at + header_size

module _ (block : Block) (size k : ℕ) where
  -- A refusal, which changes nothing and is only given where no aligned range of that size fits.
  pub record Refused (r : Option ℕ × Block) : Type 0 where
    pub refused : r ≡ (none, block)
    pub full :
        (t : ℕ) → start block + block.used ≤ t * 2 ^ k → start block + block.size < t * 2 ^ k + size

  -- The range at the first aligned address behind what is used; what is used then ends with it.
  pub record Placed (r : Option ℕ × Block) : Type 0 where
    pub address : ℕ
    pub placed : r ≡ (some address, record block { used = address + size - start block })
    pub aligned : IsRoundedUp (start block + block.used) (2 ^ k) address
    pub fits : address + size ≤ start block + block.size

module _ (block : Block) (size k m : ℕ) (valid : IsValid block) (exponent : k + m ≡ 64)
    (small : size < word) where
  arena_block_bytes-start : arena_block_bytes block ≡ start block
  unfolding arena_block_bytes
  arena_block_bytes-start = omega (arith, valid.in_memory)

  -- In a valid block, for a size below 2^64 and an alignment that is a power of two, `arena_bump` gives the first
  -- aligned range of that size behind what is used, inside the block, and marks what is used to its
  -- end; or it refuses, changes nothing, and no aligned range of that size is left in the block.
  pub arena_bump-Placed :
      Refused block size k (arena_bump block size (2 ^ k))
      ⊎ Placed block size k (arena_bump block size (2 ^ k))
  unfolding arena_bump
  arena_bump-Placed =
      let value : add64 (arena_block_bytes block) block.used ≡ start block + block.used =
        omega (arith, arena_block_bytes-start, valid.in_memory, valid.within) in
      let stop : add64 (arena_block_bytes block) block.size ≡ start block + block.size =
        omega (arith, arena_block_bytes-start, valid.in_memory) in
      let n = start block + block.used in
      let some_start : 0 < n = omega arith in
      elim (arena_round_up-IsRoundedUp k m n exponent (omega arith)
        (omega (arith, valid.in_memory, valid.within))) [
          | inl (zero_, none_) ↦ inl (record {
            refused = rw (value, zero_) refl;
            full = λ t h. omega (arith, none_ t h, valid.in_memory);
          })
          | inr up ↦
              let at = arena_round_up n (2 ^ k) in
              let nonzero : (at == 0) ≡ false = ground (arith, up.above, some_start) in
              elim (dec_le (at + size) (start block + block.size)) [
                | yes room ↦
                    let end : add64 at size ≡ at + size = omega (arith, room, valid.in_memory) in
                    let inside : (ltb (at + size) at || ltb (start block + block.size) (at + size))
                        ≡ false =
                      ground (arith, room) in
                    let back : sub64 (at + size) (start block) ≡ at + size - start block =
                      omega (arith, up.above, room, valid.in_memory) in
                    inr (record {
                      address = at;
                      placed =
                          rw (value, stop, end, arena_block_bytes-start, nonzero, inside, back)
                            refl;
                      aligned = up;
                      fits = room;
                    })
                | no over ↦
                    let outside : (ltb (add64 at size) at
                          || ltb (start block + block.size) (add64 at size))
                        ≡ true =
                      ground (arith, over, valid.in_memory, small) in
                    inl (record {
                      refused = rw (value, stop, nonzero, outside) refl;
                      full = λ t h. omega (arith, up.least t h, over);
                    })
              ]
        ]
