-- ===== src/Tests/Memory.antt =====
-- The theorems at concrete inputs of the storage half of the runtime: runtime/container.c,
-- runtime/arena.c, runtime/alloc.c, runtime/panic.c, runtime/atomic.c and the blocks of
-- runtime/text.c.
use loke.Prelude.{
  ℕ, ◌+◌, ◌-◌, ◌*◌, ◌%◌, ◌^◌, ◌≤◌, ◌<◌, ◌≡◌, ◌⊎◌, refl, inr, Bool, true, false, Option, none, some,
  List, [], ◌∷◌, arith, ltb, if◌then◌else◌,
}
use loke.Prelude.Align.{word}
use loke.Prelude.Int.{pos}
use loke.Prelude.Outcome.{Outcome, ok, ◌>>=◌}
use loke.Atomic.{Wide, add_halves}
use loke.Atomic.Halves.{number, IsWide, add_halves-number}
use loke.Container.Checked.{sane_align, int64_max, dyn_growth_target, dyn_growth_target-bounds}
use loke.Container.Memory.{Provider, Ops, World}
use loke.Container.Dynamic.{Dynamic, inside, dyn_regrow}
use loke.Container.Dynamic.Edit.{dyn_append_owned, dyn_remove}
use loke.Container.Dynamic.Cloned.{Cloned}
use loke.Container.Dynamic.Regrow.{Regrown, dyn_regrow-Regrown}
use loke.Container.Dynamic.Append.{Appended}
use loke.Container.Dynamic.Remove.{Removed, dyn_remove-Removed}
use loke.Container.Dynamic.Owned.{dyn_append_owned-Appended}
use loke.Arena.{Block, Arena, arena_round_up, arena_bump, arena_alloc, doubled_until}
use loke.Arena.Bump.{IsRoundedUp, Refused, Placed, arena_round_up-IsRoundedUp, arena_bump-Placed}
use loke.Arena.Grow.{InMemory, Allocated, doubled_until-returns, arena_alloc-Allocated}
use loke.Arena.Free.{Freed, arena_free-Freed}
use loke.Allocator.{
  free, note_request, Handle, OpsTable, Runtime, InitState, idle, resolve, check_record, alloc,
  take_refusal, provider_init_begin,
}
use loke.Allocator.Init.{Calls, start, begun, Calls-once}
use loke.Allocator.Note.{
  Event, requested, other, refused_last, Log, fresh, after_alloc, after_free,
  take_refusal-refused_last,
}
use loke.Panic.{Frame, Thread, frame_push, frame_pop}
use loke.Panic.Unwind.{work, registered, Calls-frames}
use loke.Text.{Header, Store, find_header, string_retain, string_release}
use loke.Text.Strings.{string_release-string_retain}

abbrev all_ones : Wide
all_ones = record { low = 2 ^ 64 - 1; high = 0 }

abbrev one_wide : Wide
one_wide = record { low = 1; high = 0 }

add_halves-number_example :
    IsWide (add_halves all_ones one_wide)
    × (number (add_halves all_ones one_wide) ≡ (number all_ones + number one_wide) % 2 ^ 128)
add_halves-number_example =
    add_halves-number all_ones one_wide (record { low_fits = omega arith; high_fits = omega arith })
      (record { low_fits = omega arith; high_fits = omega arith })

dyn_growth_target-bounds_example :
    (target : ℕ) × (dyn_growth_target 8 9 ≡ some target)
    × (9 ≤ target)
    × (8 ≤ target)
    × (2 * 8 ≤ int64_max → 2 * 8 ≤ target)
    × (target ≤ int64_max)
dyn_growth_target-bounds_example = dyn_growth_target-bounds 8 9 (omega arith) (omega arith)

-- A provider with one address, for small requests; its state counts them.
abbrev small_provider : Provider ℕ
small_provider = record {
  alloc = λ s size align. (if ltb size 65536 then some 8192 else none, s + 1);
  resize = λ s ptr old_size new_size align. (none, s + 1);
  free = λ s ptr size align. s;
}

abbrev number_ops : Ops ℕ ℕ
number_ops = record {
  elem_size = 4;
  elem_align = 4;
  elem_drop = false;
  elem_clone = none;
  zero_value = 0;
}

-- A full container of two elements.
abbrev pair_container : Dynamic ℕ
pair_container = record {
  addr = 4096;
  len = 2;
  cap = 2;
  allocator = 5;
  cells = some 7 ∷ some 9 ∷ [];
}

abbrev quiet_world : World ℕ ℕ
quiet_world = record { state = 0; dropped = [] }

-- Elements with hooks: a clone counts, and fails from the fifth on.
abbrev cloning_ops : Ops ℕ ℕ
cloning_ops = record number_ops {
  elem_drop = true;
  elem_clone = some (λ e s. (if ltb s 5 then some e else none, s + 1));
}

dyn_append_owned-Appended_example :
    (r : Bool × Dynamic ℕ × World ℕ ℕ) × (dyn_append_owned 5 small_provider cloning_ops
        pair_container
        (inside 0)
        (some (true ∷ []))
        (pos 2)
        quiet_world
      ≡ ok r)
    × Appended 5 small_provider cloning_ops pair_container (inside 0) (some (true ∷ [])) 2 r
dyn_append_owned-Appended_example =
    dyn_append_owned-Appended 5 small_provider cloning_ops pair_container (inside 0)
      (some (true ∷ [])) 2 quiet_world
      (record { len_in = omega arith; cap_in = omega arith; bytes_in = omega arith; slots = refl })
      (omega arith) (omega arith) (omega arith)

dyn_regrow-Regrown_example :
    Regrown 5 small_provider number_ops pair_container 3 false
      (dyn_regrow 5 small_provider number_ops pair_container 3 false quiet_world)
dyn_regrow-Regrown_example =
    dyn_regrow-Regrown 5 small_provider number_ops pair_container
      (record { len_in = omega arith; cap_in = omega arith; bytes_in = omega arith; slots = refl })
      (omega arith) 3 false quiet_world (omega arith) (omega arith)

dyn_remove-Removed_example :
    (r : Dynamic ℕ × Option ℕ) × (dyn_remove 5 small_provider number_ops pair_container
        (pos 0)
        false
      ≡ ok r)
    × Removed pair_container 0 false r
dyn_remove-Removed_example =
    dyn_remove-Removed 5 small_provider number_ops pair_container 0
      (record { len_in = omega arith; cap_in = omega arith; bytes_in = omega arith; slots = refl })
      (omega arith) (omega arith) false

abbrev small_block : Block
small_block = record { at = 4096; size = 100; used = 3; owned = false }

arena_round_up-IsRoundedUp_example :
    ((arena_round_up 4131 (2 ^ 4) ≡ 0) × ((t : ℕ) → 4131 ≤ t * 2 ^ 4 → word ≤ t * 2 ^ 4))
    ⊎ IsRoundedUp 4131 (2 ^ 4) (arena_round_up 4131 (2 ^ 4))
arena_round_up-IsRoundedUp_example =
    arena_round_up-IsRoundedUp 4 60 4131 refl (omega arith) (omega arith)

arena_bump-Placed_example :
    Refused small_block 10 4 (arena_bump small_block 10 (2 ^ 4))
    ⊎ Placed small_block 10 4 (arena_bump small_block 10 (2 ^ 4))
arena_bump-Placed_example =
    arena_bump-Placed small_block 10 4 60 (record { in_memory = omega arith; within = omega arith })
      refl (omega arith)

doubled_until-returns_example :
    (r : Option ℕ) × (doubled_until 65 4096 9000 ≡ some r)
    × ((w : ℕ) → r ≡ some w → (9000 ≤ w) × (4096 ≤ w) × (w < word))
doubled_until-returns_example = doubled_until-returns 64 4096 9000 (omega arith) (inr (omega arith))

-- An arena whose only block is too small for what is asked of it.
abbrev small_arena : Arena
small_arena = record {
  control = 4000;
  on_failure = 0;
  parent = true;
  newer = [];
  first = small_block;
  block_bytes = 4096;
  control_bytes = 4096;
}

small_provider-InMemory : InMemory small_provider
small_provider-InMemory state size align at given = ground arith

arena_alloc-Allocated_example :
    ((arena_alloc small_provider small_arena 200 (2 ^ 4) 0).0 ≡ none)
      × ((arena_alloc small_provider small_arena 200 (2 ^ 4) 0).1 ≡ small_arena)
    ⊎ Allocated small_provider small_arena 200 4 60 0 small_provider-InMemory
        (record { in_memory = omega arith; within = omega arith })
        refl
        (arena_alloc small_provider small_arena 200 (2 ^ 4) 0)
arena_alloc-Allocated_example =
    arena_alloc-Allocated small_provider small_arena 200 4 60 0 small_provider-InMemory
      (record { in_memory = omega arith; within = omega arith }) refl (omega arith) (omega arith)
      (omega arith) (omega arith)

arena_free-Freed_example :
    ((arena_alloc small_provider small_arena 200 (2 ^ 4) 0).0 ≡ none)
      × ((arena_alloc small_provider small_arena 200 (2 ^ 4) 0).1 ≡ small_arena)
    ⊎ Freed small_provider small_arena 200 4 60 0 small_provider-InMemory
        (record { in_memory = omega arith; within = omega arith })
        refl
        (arena_alloc small_provider small_arena 200 (2 ^ 4) 0)
arena_free-Freed_example =
    arena_free-Freed small_provider small_arena 200 4 60 0 small_provider-InMemory
      (record { in_memory = omega arith; within = omega arith }) refl (omega arith) (omega arith)
      (omega arith) (omega arith)

abbrev heap_handle : ℕ → Handle
heap_handle a = record { abi_version = 1; record_size = 40; has_ops = true; on_failure = 0 }

abbrev heap_table : ℕ → OpsTable ℕ
heap_table a = record { provider = small_provider; reset = λ s. (false, s) }

abbrev fresh_runtime : Runtime ℕ
fresh_runtime = record {
  selected = 77;
  init_state = idle;
  refused_by = 0;
  refused_size = 0;
  state = 0;
  bytes = λ a. 0;
}

-- A refused request, an empty one that succeeds, and a free.
abbrev requests : List Event
requests = other ∷ requested 0 (some 8) ∷ requested 100000 none ∷ []

abbrev refused_runtime : Runtime ℕ
refused_runtime = record fresh_runtime { refused_by = 77; refused_size = 100000; state = 1 }

requests-Log : Log 77 heap_handle heap_table fresh_runtime requests refused_runtime
unfolding alloc free note_request resolve check_record sane_align
requests-Log =
    after_free {rt = refused_runtime}
      (after_alloc {rt = refused_runtime}
        (after_alloc {rt = fresh_runtime} {next = refused_runtime} fresh 0 8 refl) 0 8 refl)
      0 64 4 8 refl

take_refusal-refused_last_example :
    (take_refusal 77 heap_handle heap_table refused_runtime).0 ≡ refused_last requests
take_refusal-refused_last_example =
    take_refusal-refused_last 77 heap_handle heap_table fresh_runtime requests refused_runtime
      (λ e. omega (arith, e)) refl requests-Log

abbrev running_runtime : Runtime ℕ
running_runtime = record fresh_runtime { init_state = InitState.running }

first_run : Calls 77 heap_handle heap_table fresh_runtime 1 running_runtime
unfolding provider_init_begin
first_run = begun {runs = 0} {rt = fresh_runtime} {next = running_runtime} {run = true} start refl

Calls-once_example : 1 ≤ 1
Calls-once_example =
    Calls-once 77 heap_handle heap_table fresh_runtime running_runtime 1 refl first_run

abbrev quiet_thread : Thread ℕ
quiet_thread = record { frames = []; panicking = false; attached = true; world = 0 }

Calls-frames_example :
    (frame_pop 64 (record (frame_push 64 (some 9) 0 quiet_thread) { world = 1 })).frames
    ≡ quiet_thread.frames
Calls-frames_example =
    Calls-frames quiet_thread
      (frame_pop 64 (record (frame_push 64 (some 9) 0 quiet_thread) { world = 1 }))
      (registered 64 0 (some 9) (work 1))

-- A cleanup that notes its context.
abbrev noting : (cleanup context : ℕ) → Thread ℕ → Outcome (Thread ℕ)
noting cleanup context t = ok (record t { world = t.world * 10 + context })

abbrev frame_of : ℕ → Frame
frame_of n = record { at = n; cleanup = some 9; context = n }

abbrev shared_block : Header
shared_block = record {
  at = 4096;
  handles = 1;
  allocator = 77;
  block_size = 26;
  contents = 65 ∷ 0 ∷ [];
}

abbrev one_block : Store ℕ
one_block = record { headers = shared_block ∷ []; runtime = fresh_runtime }

block-found : find_header 4096 one_block.headers ≡ some shared_block
unfolding find_header
block-found = refl

string_release-string_retain_example :
    (string_retain 77 heap_handle heap_table 4096 one_block
      >>= string_release 77 heap_handle heap_table 4096)
    ≡ ok one_block
string_release-string_retain_example =
    string_release-string_retain 77 heap_handle heap_table 4096 one_block shared_block block-found
      (omega arith)
