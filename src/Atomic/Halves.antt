-- ===== src/Atomic/Halves.antt =====
-- runtime/atomic.c: the carry and the borrow make the halves one 128-bit number.
use loke.Prelude.{ℕ, ◌+◌, ◌-◌, ◌*◌, ◌%◌, ◌^◌, ◌<◌, ◌≡◌, arith}
use loke.Atomic.{Wide, add_halves, sub_halves}

-- The number that the 16 bytes stand for.
abbrev pub number : Wide → ℕ
number w = w.low + w.high * 2 ^ 64

pub record IsWide (w : Wide) : Type 0 where
  pub low_fits : w.low < 2 ^ 64
  pub high_fits : w.high < 2 ^ 64

-- On values of two 64-bit halves, `add_halves` adds modulo 2^128 and gives 64-bit halves.
pub add_halves-number :
    (a b : Wide)
    → IsWide a
    → IsWide b
    → IsWide (add_halves a b) × (number (add_halves a b) ≡ (number a + number b) % 2 ^ 128)
unfolding add_halves
add_halves-number a b ha hb = (ground arith, ground arith)

-- On values of two 64-bit halves, `sub_halves` subtracts modulo 2^128 and gives 64-bit halves.
pub sub_halves-number :
    (a b : Wide)
    → IsWide a
    → IsWide b
    → IsWide (sub_halves a b)
      × (number (sub_halves a b) ≡ (number a + 2 ^ 128 - number b) % 2 ^ 128)
unfolding sub_halves
sub_halves-number a b ha hb = (ground arith, ground arith)
