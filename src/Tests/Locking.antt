-- ===== src/Tests/Locking.antt =====
-- The theorems on the lock of runtime/atomic.c at concrete runs.
use loke.Prelude.{ℕ, ◌≡◌, ◌≢◌, ◌⊎◌, refl, true, false, [], ◌∷◌}
use loke.Atomic.{Wide, load, add, apply}
use loke.Atomic.Gate.{
  Shared, Place, idle, waiting, entered, read_low, read_both, wrote, Move, call, take, fetch_low,
  fetch_high, keep, leave, update, System, step, Reach, begin, later, Serial, critical, writes,
}
use loke.Atomic.Gate.Turns.{mutual_exclusion, operations-Serial, no_deadlock}

abbrev seven : Wide
seven = record { low = 7; high = 1 }

-- Thread 0 loads, and has read one half; thread 1 waits to add.
abbrev contended : System
contended = record {
  shared = record { gate = true; low = 7; high = 1; ended = [] };
  pc =
      update
        (update (update (update (λ _. idle) 0 (waiting load)) 0 (entered load)) 1
          (waiting (add seven)))
        0 (read_low load 7);
}

contended-Reach : Reach seven contended
contended-Reach =
    later
      (later (later (later begin (step 0 (call load))) (step 0 (take refl)))
        (step 1 (call (add seven))))
      (step 0 fetch_low)

mutual_exclusion_example : ◌≡◌ {A = ℕ} 0 0
unfolding critical
mutual_exclusion_example = mutual_exclusion contended-Reach 0 0 refl refl

-- Thread 0 has ended its load, and thread 1 still waits.
abbrev read_out : System
read_out = record {
  shared = record {
    gate = false;
    low = 7;
    high = 1;
    ended = (load, apply load (record { low = 7; high = 1 })) ∷ [];
  };
  pc =
      update
        (update (update contended.pc 0 (read_both load (record { low = 7; high = 1 }))) 0
          (wrote load (record { low = 7; high = 1 })))
        0 idle;
}

read_out-Reach : Reach seven read_out
unfolding writes
read_out-Reach =
    later (later (later contended-Reach (step 0 fetch_high)) (step 0 (keep refl))) (step 0 leave)

operations-Serial_example :
    (now : Wide) × Serial seven read_out.shared.ended now
    × (read_out.shared.gate ≡ false
        → (read_out.shared.low ≡ now.low) × (read_out.shared.high ≡ now.high))
operations-Serial_example = operations-Serial read_out-Reach

no_deadlock_example :
    Move contended.shared
      (waiting (add seven))
      (record contended.shared { gate = true })
      (entered (add seven))
    ⊎ ((j : ℕ) × (m : Shared) × (p : Place) × (1 ≢ j)
        × (critical (contended.pc j) ≡ true)
        × Move contended.shared (contended.pc j) m p)
no_deadlock_example = no_deadlock contended-Reach 1 refl
