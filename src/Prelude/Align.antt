-- ===== src/Prelude/Align.antt =====
-- `uint64_t` arithmetic, and `x & ~(2 ^ k - 1)`.
use Prim.Native.Nat.{ℕ, zero, suc, ◌+◌, ◌-◌, ◌*◌, ◌/◌, ◌%◌, ◌^◌, ◌≤◌, ◌<◌, bit_and}
use mathlib.Core.Path.{◌≡◌, refl, ap, ◌∙◌}
use native.Mathlib.Nat.{pow-suc, zero-add}
use native.Mathlib.Omega.{arith}
use loke.Prelude.Bits.{bit_and_low, bit_and-zero}

abbrev pub word : ℕ
word = 2 ^ 64

abbrev pub add64 : ℕ → ℕ → ℕ
add64 a b = (a + b) % word

abbrev pub sub64 : ℕ → ℕ → ℕ
sub64 a b = (a + word - b) % word

-- `~x`
abbrev pub not64 : ℕ → ℕ
not64 x = word - 1 - x

pub bit_and-ones : (m x : ℕ) → x < 2 ^ m → bit_and x (2 ^ m - 1) ≡ x
bit_and-ones zero x h = omega (arith, bit_and-zero x)
bit_and-ones (suc m) x h =
    let half : (2 ^ suc m - 1) / 2 ≡ 2 ^ m - 1 = omega (arith, pow-suc 2 m) in
    let ih : bit_and (x / 2) ((2 ^ suc m - 1) / 2) ≡ x / 2 =
      rw half (bit_and-ones m (x / 2) (omega (arith, pow-suc 2 m))) in
    ground (arith, pow-suc 2 m, bit_and_low x (2 ^ suc m - 1), ih)

half_mask : (m : ℕ) → (2 ^ suc m - 1) / 2 ≡ 2 ^ m - 1
half_mask m = omega (arith, pow-suc 2 m)

-- A mask of `m` ones leaves less than `2 ^ m`.
pub bit_and-mask_lt : (m x : ℕ) → bit_and x (2 ^ m - 1) < 2 ^ m
bit_and-mask_lt zero x = omega (arith, bit_and-zero x)
bit_and-mask_lt (suc m) x =
    let ih : bit_and (x / 2) ((2 ^ suc m - 1) / 2) < 2 ^ m =
      rw (half_mask m) (bit_and-mask_lt m (x / 2)) in
    omega (arith, pow-suc 2 m, bit_and_low x (2 ^ suc m - 1), ih)

-- The mask clears `2 ^ m` itself.
pub bit_and-mask_end : (m : ℕ) → bit_and (2 ^ m) (2 ^ m - 1) ≡ 0
bit_and-mask_end zero = refl
bit_and-mask_end (suc m) =
    let half : 2 ^ suc m / 2 ≡ 2 ^ m = omega (arith, pow-suc 2 m) in
    let ih : bit_and (2 ^ suc m / 2) ((2 ^ suc m - 1) / 2) ≡ 0 =
      rw (half, half_mask m) (bit_and-mask_end m) in
    omega (arith, pow-suc 2 m, bit_and_low (2 ^ suc m) (2 ^ suc m - 1), ih)

-- Clearing the low `k` bits rounds down to a multiple of `2 ^ k`.
pub bit_and-high :
    (k m x : ℕ)
    → x < 2 ^ (k + m)
    → (q : ℕ) × (bit_and x (2 ^ (k + m) - 2 ^ k) ≡ q * 2 ^ k)
      × (q * 2 ^ k ≤ x)
      × (x < q * 2 ^ k + 2 ^ k)
bit_and-high zero m x h =
    let e : bit_and x (2 ^ (0 + m) - 2 ^ 0) ≡ x =
      rw zero-add (bit_and-ones m x (rw zero-add at h)) in
    (x, omega (arith, e), omega arith, omega arith)
bit_and-high (suc k) m x h =
    let grow : 2 ^ (suc k + m) ≡ 2 ^ (k + m) * 2 =
      (let e : suc k + m ≡ suc (k + m) = omega arith in rw e (pow-suc 2 (k + m) ∙ omega arith)) in
    let double : 2 ^ suc k ≡ 2 ^ k * 2 = omega (arith, pow-suc 2 k) in
    let half : (2 ^ (suc k + m) - 2 ^ suc k) / 2 ≡ 2 ^ (k + m) - 2 ^ k =
      omega (arith, grow, double) in
    let (q, e, lo, hi) = bit_and-high k m (x / 2) (omega (arith, grow)) in
    let ih : bit_and (x / 2) ((2 ^ (suc k + m) - 2 ^ suc k) / 2) ≡ q * 2 ^ k =
      ap (λ (t : ℕ). bit_and (x / 2) t) half ∙ e in
    let times : q * 2 ^ suc k ≡ q * 2 ^ k * 2 = omega (arith, ap (λ (t : ℕ). q * t) double) in
    (
      q,
      ground (arith, grow, double, times, ih, bit_and_low x (2 ^ (suc k + m) - 2 ^ suc k)),
      omega (arith, times, lo),
      omega (arith, times, double, hi),
    )
