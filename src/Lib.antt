-- ===== src/Lib.antt =====
-- The runtime of Loke, in C, under runtime/: what a compiled Loke program calls for text,
-- formatting, containers, memory, arguments, panics and CPU levels.
--
-- The parts, and the files here that model them:
--   * runtime/text.c, UTF-8: Utf8 has `rune_at`, `utf8_valid`, `rune_count` and `encode_rune`; the
--     modules below it have the codec byte by byte (Codec, Decode, Inverse), validation (Valid),
--     independence of what lies behind the length (Bounds) and the round trips (RoundTrip).
--   * runtime/text.c, storage: Text has the shared blocks behind `string`, their handle counts, the
--     constructors and `bytes_compare`. Blocks come from Allocator.
--   * runtime/format.c: Format has the sink, the integer spellings and the quoted forms; it encodes
--     runes with Utf8. Digits, Integers and Quoted hold what is shown of them.
--   * runtime/args.c: Args has `to_utf8`, the getters and the choice of a test; it encodes with Utf8.
--   * runtime/atomic.c: Atomic has the 128-bit operations over two halves; Atomic/Gate has the threads
--     at the lock, each half read or written in a step of its own, and Turns what is shown of them.
--   * runtime/container.c, up to the hash map: Container has the checked arithmetic (Checked), the provider,
--     the element thunks and the cells (Memory), and the dynamic array: Dynamic has its state, growth
--     and release, Dynamic/Edit the operations that move elements, Dynamic/Clone `loke_rt_v1_dyn_clone`; the
--     modules beside them hold what is shown of them (Cloned that of the clone).
--   * runtime/container.c, the hash map: HashMap has the table, its shape and its loops, HashMap/Methods
--     the operations and HashMap/Clone `loke_rt_v1_map_clone`. Walk, Slots, Invariant and Probing say
--     what a valid table is and what a probe finds; Placing, Moving, Sizes and Keying what filling,
--     sizing and writing to a table give; Whole, Rebuild, Entry, Remove, Scan, Clear, Twins and Cloned
--     hold what is shown of the operations.
--   * runtime/container.c, the sort: Sort has the introsort with its parts. Chunks has the swap of bytes
--     and the depth limit, Swaps and InBounds permutation and termination for any comparison, Order and
--     Sorted what a weak order gives.
--   * runtime/container.c, between them: Container/Runes has `hash_bytes` and `string_to_runes`, which
--     decodes with Utf8 into a dynamic array; Decoding holds what is shown of it.
--   * runtime/arena.c: Arena has the bump allocator, its blocks and its control block; Bump, Grow
--     and Free hold what is shown of them. Its parent is a provider as in
--     Container/Memory. The constant record of the empty region is not modelled.
--   * runtime/alloc.c: Allocator has the dispatch of handles, provider initialization (Init) and the
--     note of a refused request (Note).
--   * runtime/panic.c: Panic has a thread's frames and what a panic runs (Unwind).
--   * runtime/cpu.c: Cpu has the levels and the cap of `LOKE_DISPATCH_CPU` (Levels).
-- Prelude holds what they share. Tests applies the theorems at concrete inputs.
--
-- How the code is read: a function of the C code is a function here, with the state that it changes
-- passed in and out. `size_t`, `uint64_t` and addresses are native numbers with the wrap-around
-- written out where the code relies on it, `int64_t` is the integers of Prelude/Int where a negative
-- value is tested, and NULL is address 0 or `none`. `Outcome` says how a call ends: it answers, it
-- panics, aborts or exits, or it leaves a buffer, which C does not define. Code that is not the
-- runtime's is a parameter: allocators, the clone hook of elements, the C library's `malloc`,
-- cleanup code, compiler-rt's CPU detection, the hash and equality of keys, the drop and clone hooks,
-- the comparison of a sort. A hook that is called returns. The comparison of a sort is a function of
-- the two elements, and of its state, that answers the same whenever it is asked the same. The gate
-- of runtime/atomic.c is modelled with one address behind it; memory is sequentially consistent. A
-- byte that UTF-8 decoding reads behind the end of a buffer is 0 here; Utf8/Bounds is about the bytes
-- from the given length on. A string that is scanned for its terminator is the
-- list of what lies from its address on, with a terminator behind the list.
--
-- Bounds: `utf8_valid` and `rune_count` have one round more than the length, each round takes a byte;
-- the spelling of an integer has the 128 bytes of its buffer; the doubling loop of the arena has 65
-- rounds, one more than 64 bits can be doubled. A probe has as many rounds as there are slots; the loops
-- that double a number of slots have 64; a caller that scans a map has one call more than there are
-- slots. In the sort, sifting has one round more than its end, the introsort one more than its
-- elements, and a scan as many as lie before the end of the slice; a slice is shorter than 2^62, so that
-- its indices do not overflow.
--
-- Not modelled: floating point in runtime/format.c, which rests on the C library; barriers and memory
-- orderings of runtime/atomic.c; runtime/trace.c and runtime/fail.c, which are I/O; the compiler and
-- the language server, which are in Odin, and the libraries written in Loke.
pub mod Prelude
pub mod Utf8
pub mod Format
pub mod Args
pub mod Atomic
pub mod Arena
pub mod Allocator
pub mod Panic
pub mod Cpu
pub mod HashMap
pub mod Sort
pub mod Text
pub mod Tests
pub mod Container
