-- ===== src/Arena.antt =====
-- runtime/arena.c: the bump allocator behind `mem.Arena` and `mem.Scratch`.
-- The bytes of memory are a function of the address. A header is the record that stands for it, at
-- its address. Addresses and sizes are `uint64_t`.
pub mod Bump
pub mod Grow
pub mod Free
use loke.Prelude.{
  ℕ, zero, suc, ◌+◌, ◌-◌, ◌*◌, ◌%◌, ◌^◌, ◌<◌, bit_and, Bool, true, false, ◌&&◌, ◌||◌, not, Option,
  none, some, List, [], ◌∷◌, ltb, leb, ◌==◌, if◌then◌else◌, length, get_or,
}
use loke.Prelude.Align.{word, add64, sub64, not64}
use loke.Prelude.Int.{ℤ, pos, negsuc}
use loke.Prelude.Outcome.{Outcome, ok, panic}
use loke.Container.Memory.{Provider}

-- `loke_rt_arena_block_v1`: `at` is the header's address. The list of blocks stands for `next`.
pub record Block : Type 0 where
  pub at : ℕ
  pub size : ℕ
  pub used : ℕ
  pub owned : Bool

-- `loke_rt_arena_v1`: `control` is its address. The chain `blocks` is `newer`, newest first, and
-- then `first`. `parent` says whether there is one; the provider itself is a parameter.
pub record Arena : Type 0 where
  pub control : ℕ
  pub on_failure : ℕ
  pub parent : Bool
  pub newer : List Block
  pub first : Block
  pub block_bytes : ℕ
  pub control_bytes : ℕ

-- The parent's state, and the bytes of memory.
pub record Memory (S : Type 0) : Type 0 where
  pub state : S
  pub bytes : ℕ → ℕ

-- `sizeof(loke_rt_arena_v1)`, `sizeof(loke_rt_arena_block_v1)` and the two constants
abbrev pub control_size : ℕ
control_size = 80

abbrev pub header_size : ℕ
header_size = 32

abbrev pub default_block : ℕ
default_block = 4096

abbrev pub control_align : ℕ
control_align = 16

unfoldable pub arena_align : ℕ → ℕ
arena_align align = if align == 0 then 1 else align

unfoldable pub arena_round_up : ℕ → ℕ → ℕ
arena_round_up value align =
    let slack = add64 value (align - 1) in
    if ltb slack value then 0 else bit_and slack (not64 (align - 1))

unfoldable pub arena_block_bytes : Block → ℕ
arena_block_bytes block = add64 block.at header_size

unfoldable pub arena_bump : Block → (size align : ℕ) → Option ℕ × Block
arena_bump block size align =
    let base = arena_block_bytes block in
    let at = arena_round_up (add64 base block.used) align in
    let end = add64 at size in
    if at == 0
    then (none, block)
    else if ltb end at || ltb (add64 base block.size) end
    then (none, block)
    else (some at, record block { used = sub64 end base })

unfoldable pub arena_min_buffer : ℕ
arena_min_buffer = control_size + header_size + control_align

unfoldable pub arena_place : (storage size : ℕ) → (parent : Bool) → (block_bytes : ℕ) → Option Arena
unfolding arena_round_up
arena_place storage size parent block_bytes =
    let control_at = arena_round_up storage control_align in
    let header_at = arena_round_up (add64 control_at control_size) control_align in
    let usable_at = add64 header_at header_size in
    let end = add64 storage size in
    if control_at == 0 || ltb control_at storage
    then none
    else if header_at == 0
    then none
    else if ltb usable_at header_at || ltb end usable_at
    then none
    else some (record {
      control = control_at;
      on_failure = 0;
      parent = parent;
      newer = [];
      first = record { at = header_at; size = sub64 end usable_at; used = 0; owned = false };
      block_bytes = block_bytes;
      control_bytes = size;
    })

abbrev pub top_block : Arena → Block
top_block arena = elim arena.newer [ [] ↦ arena.first | b ∷ rest ↦ b ]

-- The arena with another top block in the place of its own.
abbrev pub with_top : Arena → Block → Arena
with_top arena block = elim arena.newer [
  | [] ↦ record arena { first = block }
  | b ∷ rest ↦ record arena { newer = block ∷ rest }
]

unfoldable pub arena_is_top : Arena → (ptr old_size : ℕ) → Bool
unfolding arena_block_bytes
arena_is_top arena ptr old_size =
    let top = top_block arena in
    not (ptr == 0) && add64 ptr old_size == add64 (arena_block_bytes top) top.used

-- The loop of `arena_grow`: `none` is out of fuel, and `some none` an overflow.
unfoldable pub doubled_until : (fuel want needed : ℕ) → Option (Option ℕ)
doubled_until zero want needed = none
doubled_until (suc fuel) want needed =
    let doubled = (want * 2) % word in
    let rest = doubled_until fuel doubled needed in
    if ltb want needed then (if leb doubled want then some none else rest) else some (some want)

unfoldable pub memcpy : (dst src n : ℕ) → (ℕ → ℕ) → ℕ → ℕ
memcpy dst src n bytes a = if leb dst a && ltb a (dst + n) then bytes (src + (a - dst)) else bytes a

module _ {S : Type 0} (p : Provider S) where
  -- The owned blocks go back to the parent in the order of the chain.
  unfoldable pub release_loop : List Block → S → S
  release_loop [] state = state
  release_loop (b ∷ rest) state =
      if b.owned
      then release_loop rest (p.free state b.at (header_size + b.size) control_align)
      else release_loop rest state

  unfoldable pub arena_reset : Arena → S → Arena × S
  unfolding release_loop
  arena_reset arena state = (
    record arena { newer = []; first = record (arena.first) { used = 0 } },
    if arena.parent
        then release_loop (arena.first ∷ []) (release_loop arena.newer state)
        else state,
  )

  unfoldable pub arena_grow : Arena → (size align : ℕ) → S → Bool × Arena × S
  arena_grow arena size align state =
      let needed = add64 (add64 size align) header_size in
      if not arena.parent || ltb needed size
      then (false, arena, state)
      else elim (doubled_until 65 arena.block_bytes needed) [
        | none ↦ (false, arena, state)
        | some none ↦ (false, arena, state)
        | some (some want) ↦
            let (storage, state₁) = p.alloc state want control_align in
            elim storage [
              | none ↦ (false, arena, state₁)
              | some at ↦ (
                true,
                record arena {
                  newer =
                      record { at = at; size = sub64 want header_size; used = 0; owned = true }
                      ∷ arena.newer;
                  block_bytes = want;
                },
                state₁,
              )
            ]
      ]

  unfoldable pub bump_top : Arena → (size align : ℕ) → S → Option ℕ × Arena × S
  bump_top arena size align state =
      let (out, block) = arena_bump (top_block arena) size align in
      (out, with_top arena block, state)

  unfoldable pub arena_alloc : Arena → (size align : ℕ) → S → Option ℕ × Arena × S
  arena_alloc arena size align state =
      let (out, arena₁, state₁) = bump_top arena size (arena_align align) state in
      let (grown, arena₂, state₂) = arena_grow arena size (arena_align align) state in
      if size == 0 then (none, arena, state) else elim out [
        | some at ↦ (some at, arena₁, state₁)
        | none ↦
            if grown
            then bump_top arena₂ size (arena_align align) state₂
            else (none, arena₂, state₂)
      ]

  -- The top allocation grows or shrinks in its block, if it can.
  unfoldable pub resize_top : Arena → (ptr old_size new_size : ℕ) → Option Arena
  resize_top arena ptr old_size new_size =
      let top = top_block arena in
      let base = arena_block_bytes top in
      let end = add64 ptr new_size in
      if arena_is_top arena ptr old_size && leb ptr end && leb end (add64 base top.size)
      then some (with_top arena (record top { used = sub64 end base }))
      else none

  unfoldable pub arena_resize :
      Arena → (ptr old_size new_size align : ℕ) → Memory S → Option ℕ × Arena × Memory S
  arena_resize arena ptr old_size new_size align memory =
      let (out, arena₁, state₁) = arena_alloc arena new_size align memory.state in
      let memory₁ : Memory S = record memory { state = state₁ } in
      if new_size == 0
      then (none, arena, memory)
      else if ptr == 0
      then (out, arena₁, memory₁)
      else elim (resize_top arena ptr old_size new_size) [
        | some arena₂ ↦ (some ptr, arena₂, memory)
        | none ↦ if leb new_size old_size then (some ptr, arena, memory) else elim out [
          | none ↦ (none, arena₁, memory₁)
          | some to ↦ (
            some to,
            arena₁,
            record memory₁ {
              bytes =
                  memcpy to ptr (if ltb old_size new_size then old_size else new_size) memory.bytes;
            },
          )
        ]
      ]

  unfoldable pub arena_open : S → Option Arena × S
  unfolding arena_place
  arena_open state =
      let (storage, state₁) = p.alloc state default_block control_align in
      elim storage [
        | none ↦ (none, state₁)
        | some at ↦ elim (arena_place at default_block true default_block) [
          | none ↦ (none, p.free state₁ at default_block control_align)
          | some arena ↦ (some arena, state₁)
        ]
      ]

  unfoldable pub arena_drop : Arena → S → S
  unfolding release_loop
  arena_drop arena state =
      if arena.parent
      then p.free (release_loop (arena.first ∷ []) (release_loop arena.newer state)) arena.control
          arena.control_bytes control_align
      else state

unfoldable pub arena_free : Arena → (ptr size : ℕ) → Arena
arena_free arena ptr size =
    let top = top_block arena in
    if arena_is_top arena ptr size
    then with_top arena (record top { used = sub64 top.used size })
    else arena

-- A buffer that cannot host an arena is a fault.
unfoldable pub arena_open_fixed : (buffer : ℕ) → (size : ℤ) → Outcome Arena
unfolding arena_min_buffer arena_place
arena_open_fixed buffer (negsuc n) = panic
arena_open_fixed buffer (pos size) =
    if buffer == 0 || ltb size arena_min_buffer
    then panic
    else elim (arena_place buffer size false 0) [ none ↦ panic | some arena ↦ ok arena ]

unfoldable pub arena_set_failure : Arena → (policy : ℕ) → Arena
arena_set_failure arena policy = record arena { on_failure = policy % 2 ^ 32 }

-- How a failure report names the handle of an arena: the empty region's is the shared record that
-- stands for the zero value.
pub data ArenaName : Type 0 where
  zero_arena fixed_buffer_arena provider_arena : ArenaName

unfoldable pub arena_name : Option Arena → ArenaName
arena_name none = zero_arena
arena_name (some arena) = if arena.parent then provider_arena else fixed_buffer_arena
