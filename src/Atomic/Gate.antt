-- ===== src/Atomic/Gate.antt =====
-- runtime/atomic.c: threads at the one lock of the 128-bit operations. A thread's steps are the
-- test-and-set, the copies of the two halves between `enter` and `leave`, and the release; the steps
-- of the threads are interleaved in any order. The barriers order memory for other accesses and are
-- no step here, since every step here is seen by every thread.
pub mod Turns
use loke.Prelude.{ℕ, ◌≡◌, Bool, true, false, List, [], ◌∷◌, ◌++◌, ◌==◌, if◌then◌else◌}
use loke.Atomic.{Wide, Op, load, compare_exchange, Answer, apply}

-- `loke_rt_atomic_gate`, the two halves at the address, and the operations that have ended with
-- their answers, oldest first.
pub record Shared : Type 0 where
  pub gate : Bool
  pub low : ℕ
  pub high : ℕ
  pub ended : List (Op × Answer)

-- Where a thread is: outside, in `atomic_lock`, and between `enter` and `leave`, with what it has
-- read of the value.
pub data Place : Type 0 where
  idle : Place
  waiting : Op → Place
  entered : Op → Place
  read_low : Op → (low : ℕ) → Place
  read_both : Op → Wide → Place
  wrote_low : Op → Wide → Place
  wrote : Op → Wide → Place

-- A load, and a compare-exchange that fails, write nothing to the address.
unfoldable pub writes : Op → Wide → Bool
writes load v = false
writes (compare_exchange expected desired) v = (apply (compare_exchange expected desired) v).swapped
writes op v = true

-- One step of one thread.
pub data Move (m : Shared) : Place → Shared → Place → Type 0 where
  call : (op : Op) → Move m idle m (waiting op)
  spin : {op : Op} → m.gate ≡ true → Move m (waiting op) m (waiting op)
  take : {op : Op} → m.gate ≡ false → Move m (waiting op) (record m { gate = true }) (entered op)
  fetch_low : {op : Op} → Move m (entered op) m (read_low op m.low)
  fetch_high :
      {op : Op} {l : ℕ}
      → Move m (read_low op l) m (read_both op (record { low = l; high = m.high }))
  keep : {op : Op} {v : Wide} → writes op v ≡ false → Move m (read_both op v) m (wrote op v)
  put_low :
      {op : Op} {v : Wide}
      → writes op v ≡ true
      → Move m (read_both op v) (record m { low = (apply op v).memory.low }) (wrote_low op v)
  put_high :
      {op : Op} {v : Wide}
      → Move m (wrote_low op v) (record m { high = (apply op v).memory.high }) (wrote op v)
  leave :
      {op : Op} {v : Wide}
      → Move m
          (wrote op v)
          (record m { gate = false; ended = m.ended ++ ((op, apply op v) ∷ []) })
          idle

abbrev pub update : (ℕ → Place) → ℕ → Place → ℕ → Place
update pc i p j = if i == j then p else pc j

pub record System : Type 0 where
  pub shared : Shared
  pub pc : ℕ → Place

pub data Step (s : System) : System → Type 0 where
  step :
      (i : ℕ) {m : Shared} {p : Place}
      → Move s.shared (s.pc i) m p
      → Step s (record { shared = m; pc = update s.pc i p })

-- Any number of threads, none of them in an operation, and the value `v` at the address.
abbrev pub start : Wide → System
start v = record {
  shared = record { gate = false; low = v.low; high = v.high; ended = [] };
  pc = λ _. idle;
}

pub data Reach (v : Wide) : System → Type 0 where
  begin : Reach v (start v)
  later : {s t : System} → Reach v s → Step s t → Reach v t

-- What the contract promises: each operation is applied to the value that the one before it left.
pub data Serial (v : Wide) : List (Op × Answer) → Wide → Type 0 where
  nothing : Serial v [] v
  then_one :
      {history : List (Op × Answer)} {now : Wide} (op : Op)
      → Serial v history now
      → Serial v (history ++ ((op, apply op now) ∷ [])) (apply op now).memory

unfoldable pub critical : Place → Bool
critical idle = false
critical (waiting op) = false
critical _ = true
