-- ===== src/Atomic.antt =====
-- runtime/atomic.c: the 128-bit operations over two halves, and the lock that each one takes.
pub mod Halves
pub mod Gate
use loke.Prelude.{
  ℕ, zero, suc, ◌+◌, ◌-◌, ◌*◌, ◌%◌, ◌^◌, bit_and, bit_or, bit_xor, Bool, true, false, ◌&&◌, ◌||◌,
  List, [], ◌∷◌, ltb, ◌==◌, if◌then◌else◌,
}
use loke.Prelude.Align.{word, add64, sub64}

-- The 16 bytes at an address, as the two little-endian halves that `read_halves` reads.
pub record Wide : Type 0 where
  pub low : ℕ
  pub high : ℕ

pub data Order : Type 0 where
  relaxed acquire release acq_rel seq_cst : Order

unfoldable pub order_acquires : Order → Bool
order_acquires acquire = true
order_acquires acq_rel = true
order_acquires seq_cst = true
order_acquires relaxed = false
order_acquires release = false

unfoldable pub order_releases : Order → Bool
order_releases release = true
order_releases acq_rel = true
order_releases seq_cst = true
order_releases relaxed = false
order_releases acquire = false

unfoldable pub add_halves : Wide → Wide → Wide
add_halves a b =
    let r_low = add64 a.low b.low in
    record { low = r_low; high = add64 (add64 a.high b.high) (if ltb r_low a.low then 1 else 0) }

unfoldable pub sub_halves : Wide → Wide → Wide
sub_halves a b = record {
  low = sub64 a.low b.low;
  high = sub64 (sub64 a.high b.high) (if ltb a.low b.low then 1 else 0);
}

unfoldable pub and_halves : Wide → Wide → Wide
and_halves a b = record { low = bit_and a.low b.low; high = bit_and a.high b.high }

unfoldable pub or_halves : Wide → Wide → Wide
or_halves a b = record { low = bit_or a.low b.low; high = bit_or a.high b.high }

unfoldable pub xor_halves : Wide → Wide → Wide
xor_halves a b = record { low = bit_xor a.low b.low; high = bit_xor a.high b.high }

-- One operation under the lock: its operands, and what it leaves. `previous` is `*out`.
pub data Op : Type 0 where
  load : Op
  store exchange add sub and or xor : Wide → Op
  compare_exchange : (expected desired : Wide) → Op

pub record Answer : Type 0 where
  pub memory : Wide
  pub previous : Wide
  pub swapped : Bool

-- `memcmp` of the 16 bytes
unfoldable pub same : Wide → Wide → Bool
same a b = a.low == b.low && a.high == b.high

-- The body between `enter` and `leave`. A store answers nothing; its `previous` is what it
-- overwrites, and a failed exchange's is what it writes back to `*expected`.
unfoldable pub apply : Op → Wide → Answer
unfolding same add_halves sub_halves and_halves or_halves xor_halves
apply load m = record { memory = m; previous = m; swapped = false }
apply (store v) m = record { memory = v; previous = m; swapped = true }
apply (exchange v) m = record { memory = v; previous = m; swapped = true }
apply (add v) m = record { memory = add_halves m v; previous = m; swapped = true }
apply (sub v) m = record { memory = sub_halves m v; previous = m; swapped = true }
apply (and v) m = record { memory = and_halves m v; previous = m; swapped = true }
apply (or v) m = record { memory = or_halves m v; previous = m; swapped = true }
apply (xor v) m = record { memory = xor_halves m v; previous = m; swapped = true }
apply (compare_exchange expected desired) m =
    if same m expected
    then record { memory = desired; previous = m; swapped = true }
    else record { memory = m; previous = m; swapped = false }
