-- ===== src/Allocator.antt =====
-- runtime/alloc.c: the system heap, the dispatch of allocator handles, provider initialization and
-- the note of a refused request.
-- A handle is the address of its record, 0 for NULL. The records are read only; a provider's code
-- is a parameter.
pub mod Note
pub mod Init
use loke.Prelude.{
  ℕ, ◌+◌, ◌-◌, ◌*◌, ◌^◌, Bool, true, false, ◌&&◌, ◌||◌, not, Option, none, some, ltb, leb, ◌==◌,
  if◌then◌else◌,
}
use loke.Prelude.Outcome.{Outcome, ok, panic, abort, ◌>>=◌}
use loke.Container.Checked.{sane_align}
use loke.Container.Memory.{Provider}

-- `loke_rt_allocator_v1`: `has_ops` says whether `ops` is not NULL.
pub record Handle : Type 0 where
  pub abi_version : ℕ
  pub record_size : ℕ
  pub has_ops : Bool
  pub on_failure : ℕ

-- `loke_rt_allocator_ops_v1`: three entries and `reset`, which answers 0 where it is not supported.
pub record OpsTable (S : Type 0) : Type 0 where
  pub provider : Provider S
  pub reset : S → Bool × S

pub data InitState : Type 0 where
  idle running done : InitState

-- The variables of the file, the providers' state and the bytes of memory.
pub record Runtime (S : Type 0) : Type 0 where
  pub selected : ℕ
  pub init_state : InitState
  pub refused_by : ℕ
  pub refused_size : ℕ
  pub state : S
  pub bytes : ℕ → ℕ

abbrev pub rt_abi_version : ℕ
rt_abi_version = 1

-- `sizeof(loke_rt_allocator_v1)`
abbrev pub handle_size : ℕ
handle_size = 40

abbrev pub on_failure_trap : ℕ
on_failure_trap = 1

-- `LOKE_RT_REFUSAL_UNSIZED`
abbrev pub refusal_unsized : ℕ
refusal_unsized = 2 ^ 64 - 1

-- The system heap's entries, over the C library's aligned allocation functions.
module _ {S : Type 0} (crt : Provider S) where
  unfoldable pub sys_alloc : S → (size align : ℕ) → Option ℕ × S
  sys_alloc state size align =
      if size == 0 then (none, state) else crt.alloc state size (sane_align align)

  unfoldable pub sys_resize : S → (ptr old_size new_size align : ℕ) → Option ℕ × S
  sys_resize state ptr old_size new_size align =
      if new_size == 0
      then (none, state)
      else if ptr == 0
      then crt.alloc state new_size (sane_align align)
      else crt.resize state ptr old_size new_size (sane_align align)

  unfoldable pub sys_free : S → (ptr size align : ℕ) → S
  sys_free state ptr size align = crt.free state ptr size align

  unfoldable pub sys_reset : S → Bool × S
  sys_reset state = (false, state)

  unfoldable pub system_ops : OpsTable S
  unfolding sys_alloc sys_resize sys_free sys_reset
  system_ops = record {
    provider = record { alloc = sys_alloc; resize = sys_resize; free = sys_free };
    reset = sys_reset;
  }

-- What a failure report says: the size and the allocator, or the allocator alone. The role is
-- whether the build selected it as the default.
pub data Report : Type 0 where
  refused_report : (size by : ℕ) → (role : Bool) → Report
  unsized_report : (by : ℕ) → (role : Bool) → Report

module _ {S : Type 0} (default_allocator : ℕ) (handles : ℕ → Handle) (tables : ℕ → OpsTable S) where
  unfoldable pub check_record : ℕ → Bool
  check_record a = not (
      not ((handles a).abi_version == rt_abi_version)
      || ltb (handles a).record_size handle_size
      || not (handles a).has_ops)

  unfoldable pub resolve : Runtime S → ℕ → Outcome ℕ
  unfolding check_record
  resolve rt a =
      let b : ℕ = if a == 0 then rt.selected else a in if check_record b then ok b else abort

  unfoldable pub publish_allocator : ℕ → Runtime S → Outcome (Runtime S)
  unfolding check_record
  publish_allocator a rt =
      if a == 0 then abort else if check_record a then ok (record rt { selected = a }) else abort

  unfoldable pub provider_init_begin : Runtime S → Outcome (Bool × Runtime S)
  provider_init_begin rt = elim rt.init_state [
    | done ↦ ok (false, rt)
    | running ↦ abort
    | idle ↦ ok (true, record rt { init_state = running })
  ]

  unfoldable pub provider_init_end : Runtime S → Runtime S
  provider_init_end rt = record rt { init_state = done }

  unfoldable pub note_request : (a size : ℕ) → Option ℕ → Runtime S → Option ℕ × Runtime S
  note_request a size result rt = (
    result,
    record rt { refused_by = elim result [ none ↦ a | some p ↦ 0 ]; refused_size = size },
  )

  unfoldable pub alloc : ℕ → (size align : ℕ) → Runtime S → Outcome (Option ℕ × Runtime S)
  unfolding note_request
  alloc handle size align rt = resolve rt handle >>= λ (a : ℕ).
      if size == 0
      then ok (some (sane_align align), rt)
      else (let (result, state) = (tables a).provider.alloc rt.state size align in
          ok (note_request a size result (record rt { state = state })))

  -- `memset` to zero of `n` bytes
  unfoldable pub zeroed : (at n : ℕ) → (ℕ → ℕ) → ℕ → ℕ
  zeroed at n bytes a = if leb at a && ltb a (at + n) then 0 else bytes a

  unfoldable pub alloc_zeroed : ℕ → (size align : ℕ) → Runtime S → Outcome (Option ℕ × Runtime S)
  unfolding zeroed
  alloc_zeroed handle size align rt = alloc handle size align rt >>= λ r.
      ok (elim r.0 [
        | none ↦ r
        | some p ↦ (some p, record (r.1) { bytes = zeroed p size r.1.bytes })
      ])

  unfoldable pub resize :
      ℕ → (ptr old_size new_size align : ℕ) → Runtime S → Outcome (Option ℕ × Runtime S)
  unfolding note_request
  resize handle ptr old_size new_size align rt = resolve rt handle >>= λ (a : ℕ).
      (let (result, state) = (tables a).provider.resize rt.state ptr old_size new_size align in
        ok (note_request a new_size result (record rt { state = state })))

  unfoldable pub free : ℕ → (ptr size align : ℕ) → Runtime S → Outcome (Runtime S)
  free handle ptr size align rt = resolve rt handle >>= λ (a : ℕ).
      if size == 0
      then ok rt
      else ok (record rt { state = (tables a).provider.free rt.state ptr size align })

  unfoldable pub take_refusal : Runtime S → ℕ × Runtime S
  take_refusal rt = (
    if rt.refused_by == 0 then refusal_unsized else rt.refused_size,
    record rt { refused_by = 0 },
  )

  unfoldable pub restore_refusal : (a size : ℕ) → Runtime S → Outcome (Runtime S)
  restore_refusal a size rt =
      if size == 0 || size == refusal_unsized
      then ok (record rt { refused_by = 0; refused_size = size })
      else (resolve rt a >>= λ (b : ℕ). ok (record rt { refused_by = b; refused_size = size }))

  unfoldable pub allocator_role : Runtime S → ℕ → Bool
  allocator_role rt a = a == rt.selected && not (a == default_allocator)

  -- What `loke_rt_v1_alloc_failed` reports of a resolved handle.
  unfoldable pub failure_report : Runtime S → ℕ → Report
  unfolding allocator_role
  failure_report rt a =
      if rt.refused_by == 0
      then unsized_report a (allocator_role rt a)
      else refused_report rt.refused_size rt.refused_by (allocator_role rt rt.refused_by)

  -- It does not return; what it would return may have any type.
  unfoldable pub alloc_failed : {A : Type 0} → Runtime S → ℕ → Outcome A
  alloc_failed rt handle = resolve rt handle >>= λ (a : ℕ).
      if (handles a).on_failure == on_failure_trap then abort else panic

  unfoldable pub reset : ℕ → Runtime S → Outcome (Runtime S)
  reset handle rt = resolve rt handle >>= λ (a : ℕ).
      (let (supported, state) = (tables a).reset rt.state in
        if supported then ok (record rt { state = state }) else abort)
