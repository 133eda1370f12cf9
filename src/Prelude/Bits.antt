-- ===== src/Prelude/Bits.antt =====
-- `&`, `|` and `^` of C on unsigned words: one equation for the lowest bit, and masks and disjoint
-- fields as arithmetic.
use Prim.Native.Nat.{ℕ, zero, suc, ◌+◌, ◌*◌, ◌/◌, ◌%◌, ◌^◌, ◌≤◌, ◌<◌, min, max}
use Prim.Native.Nat.{bit_and, bit_or, digits, bit_and-bitwise, bit_or-bitwise}
use mathlib.Core.Path.{◌≡◌, refl, ap}
use native.Mathlib.Nat.{pow-suc}
use mathlib.Core.Bool.{Bool, true, ◌&&◌}
use native.Mathlib.Omega.{arith}
use loke.Prelude.Tests.{◌==◌, ==_iff}

-- The fuel of the library's definition does not matter once it reaches the first operand.
bits_fuel :
    (z : ℕ → ℕ) (f : ℕ → ℕ → ℕ) (k l x y : ℕ) → x ≤ k → x ≤ l → digits z f k x y ≡ digits z f l x y
bits_fuel z f zero zero zero y hk hl = refl
bits_fuel z f zero (suc l) zero y hk hl = refl
bits_fuel z f (suc k) zero zero y hk hl = refl
bits_fuel z f (suc k) (suc l) zero y hk hl = refl
bits_fuel z f (suc k) (suc l) (suc x) y hk hl =
    omega (arith, bits_fuel z f k l (suc x / 2) (y / 2) (omega arith) (omega arith))
bits_fuel z f zero l (suc x) y hk hl = absurd (omega arith)
bits_fuel z f (suc k) zero (suc x) y hk hl = absurd (omega arith)

pub bit_and_low : (x y : ℕ) → bit_and x y ≡ bit_and (x / 2) (y / 2) * 2 + min (x % 2) (y % 2)
bit_and_low zero y = omega (arith, bit_and-bitwise 0 y, bit_and-bitwise 0 (y / 2))
bit_and_low (suc x) y = omega (
  arith,
  bit_and-bitwise (suc x) y,
  bit_and-bitwise (suc x / 2) (y / 2),
  bits_fuel (λ b. zero) min x (suc x / 2) (suc x / 2) (y / 2) (omega arith) (omega arith),
)

pub bit_or_low : (x y : ℕ) → bit_or x y ≡ bit_or (x / 2) (y / 2) * 2 + max (x % 2) (y % 2)
bit_or_low zero y = omega (arith, bit_or-bitwise 0 y, bit_or-bitwise 0 (y / 2))
bit_or_low (suc x) y = omega (
  arith,
  bit_or-bitwise (suc x) y,
  bit_or-bitwise (suc x / 2) (y / 2),
  bits_fuel (λ b. b) max x (suc x / 2) (suc x / 2) (y / 2) (omega arith) (omega arith),
)

bit_or-zero_below : (k x : ℕ) → x ≤ k → bit_or x 0 ≡ x
bit_or-zero_below k zero h = refl
bit_or-zero_below zero (suc x) h = absurd (omega arith)
bit_or-zero_below (suc k) (suc x) h =
    omega (arith, bit_or_low (suc x) 0, bit_or-zero_below k (suc x / 2) (omega arith))

bit_and-zero_below : (k x : ℕ) → x ≤ k → bit_and x 0 ≡ 0
bit_and-zero_below k zero h = refl
bit_and-zero_below zero (suc x) h = absurd (omega arith)
bit_and-zero_below (suc k) (suc x) h =
    omega (arith, bit_and_low (suc x) 0, bit_and-zero_below k (suc x / 2) (omega arith))

pub bit_and-zero : (x : ℕ) → bit_and x 0 ≡ 0
bit_and-zero x = bit_and-zero_below x x (omega arith)

-- `(x << k) | y` for a `y` of at most `k` bits, at the widths that UTF-8 uses.
or_one : (x y : ℕ) → y < 2 → bit_or (x * 2) y ≡ x * 2 + y
or_one x y h = ground (arith, bit_or_low (x * 2) y, bit_or-zero_below x x)

or_two : (x y : ℕ) → y < 4 → bit_or (x * 4) y ≡ x * 4 + y
or_two x y h = ground (arith, bit_or_low (x * 4) y, or_one x (y / 2) (omega arith))

or_three : (x y : ℕ) → y < 8 → bit_or (x * 8) y ≡ x * 8 + y
or_three x y h = ground (arith, bit_or_low (x * 8) y, or_two x (y / 2) (omega arith))

or_four : (x y : ℕ) → y < 16 → bit_or (x * 16) y ≡ x * 16 + y
or_four x y h = ground (arith, bit_or_low (x * 16) y, or_three x (y / 2) (omega arith))

or_five : (x y : ℕ) → y < 32 → bit_or (x * 32) y ≡ x * 32 + y
or_five x y h = ground (arith, bit_or_low (x * 32) y, or_four x (y / 2) (omega arith))

pub bit_or_six : (x y : ℕ) → y < 64 → bit_or (x * 64) y ≡ x * 64 + y
bit_or_six x y h = ground (arith, bit_or_low (x * 64) y, or_five x (y / 2) (omega arith))

-- `x & 0x3F`
and_one : (x : ℕ) → bit_and x 1 ≡ x % 2
and_one x = omega (arith, bit_and_low x 1, bit_and-zero_below (x / 2) (x / 2) (omega arith))

and_two : (x : ℕ) → bit_and x 3 ≡ x % 4
and_two x = omega (arith, bit_and_low x 3, and_one (x / 2))

and_three : (x : ℕ) → bit_and x 7 ≡ x % 8
and_three x = omega (arith, bit_and_low x 7, and_two (x / 2))

and_four : (x : ℕ) → bit_and x 15 ≡ x % 16
and_four x = omega (arith, bit_and_low x 15, and_three (x / 2))

and_five : (x : ℕ) → bit_and x 31 ≡ x % 32
and_five x = omega (arith, bit_and_low x 31, and_four (x / 2))

pub bit_and_six : (x : ℕ) → bit_and x 0x3F ≡ x % 64
bit_and_six x = omega (arith, bit_and_low x 63, and_five (x / 2))

-- Facts on one byte are checked at every value.
unfoldable pub every_below : ℕ → (ℕ → Bool) → Bool
every_below zero p = true
every_below (suc n) p = p n && every_below n p

pub every_below-at : (n : ℕ) (p : ℕ → Bool) (x : ℕ) → every_below n p ≡ true → x < n → p x ≡ true
unfolding every_below
every_below-at zero p x h lt = absurd (omega arith)
every_below-at (suc n) p x h lt = ground (arith, every_below-at n p x)

same_below :
    (n : ℕ) (f g : ℕ → ℕ) (x : ℕ) → every_below n (λ k. f k == g k) ≡ true → x < n → f x ≡ g x
same_below n f g x table h = (==_iff _ _).0 (every_below-at n (λ k. f k == g k) x table h)

-- The masks of the decoder on a byte.
module _ (b : ℕ) (h : b < 256) where
  pub mask_C0 : bit_and b 0xC0 ≡ b / 64 * 64
  unfolding every_below
  mask_C0 = same_below 256 (λ k. bit_and k 0xC0) (λ k. k / 64 * 64) b refl h

  pub mask_E0 : bit_and b 0xE0 ≡ b / 32 * 32
  unfolding every_below
  mask_E0 = same_below 256 (λ k. bit_and k 0xE0) (λ k. k / 32 * 32) b refl h

  pub mask_F0 : bit_and b 0xF0 ≡ b / 16 * 16
  unfolding every_below
  mask_F0 = same_below 256 (λ k. bit_and k 0xF0) (λ k. k / 16 * 16) b refl h

  pub mask_F8 : bit_and b 0xF8 ≡ b / 8 * 8
  unfolding every_below
  mask_F8 = same_below 256 (λ k. bit_and k 0xF8) (λ k. k / 8 * 8) b refl h

  pub mask_1F : bit_and b 0x1F ≡ b % 32
  mask_1F = and_five b

  pub mask_0F : bit_and b 0x0F ≡ b % 16
  mask_0F = and_four b

  pub mask_07 : bit_and b 0x07 ≡ b % 8
  mask_07 = and_three b

-- The marks of the encoder.
pub mark_80 : (x : ℕ) → x < 64 → bit_or 0x80 x ≡ 0x80 + x
mark_80 x h = bit_or_six 2 x h

pub mark_C0 : (x : ℕ) → x < 32 → bit_or 0xC0 x ≡ 0xC0 + x
mark_C0 x h = bit_or_six 3 x (omega arith)

pub mark_E0 : (x : ℕ) → x < 16 → bit_or 0xE0 x ≡ 0xE0 + x
mark_E0 x h = or_five 7 x (omega arith)

pub mark_F0 : (x : ℕ) → x < 8 → bit_or 0xF0 x ≡ 0xF0 + x
mark_F0 x h = or_four 15 x (omega arith)

-- `(x << k) | y` for a `y` of at most `k` bits, at every width.
pub bit_or_field : (k x y : ℕ) → y < 2 ^ k → bit_or (x * 2 ^ k) y ≡ x * 2 ^ k + y
bit_or_field zero x y h = ground (arith, bit_or-zero_below x x)
bit_or_field (suc k) x y h =
    let double : x * 2 ^ suc k ≡ x * 2 ^ k * 2 =
      omega (arith, ap (λ (t : ℕ). x * t) (pow-suc 2 k)) in
    rw double (
      ground (
        arith,
        pow-suc 2 k,
        bit_or_low (x * 2 ^ k * 2) y,
        bit_or_field k x (y / 2) (omega (arith, pow-suc 2 k)),
      ))
