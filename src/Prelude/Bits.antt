-- ===== src/Prelude/Bits.antt =====
-- The native `bit_and`, `bit_or` and `bit_xor` read bit by bit.
mod Step
use Step.{lowest_and, lowest_or, lowest_xor, differ_digits}
use mathlib.Core.WellFounded
use mathlib.Core.Path.{◌≡◌, refl, sym, ap, ap₂, ◌∙◌}
use mathlib.Core.Bool.{Bool, true, false, not, ◌&&◌, ◌||◌, xor}
use Prim.Native.Nat.{ℕ, zero, suc, ◌+◌, ◌-◌, ◌*◌, ◌/◌, ◌%◌, ◌^◌, ◌<◌, ◌≤◌, bit_and, bit_or, bit_xor}
use native.Mathlib.Nat.{pow-suc, one-le-pow}
use native.Mathlib.Omega.{arith}
use osassignment.Prelude.Order.{lt_wf}
use osassignment.Prelude.Tests.{◌==◌, ltb}

-- Bit `i` of `w`.
unfoldable pub test_bit : ℕ → ℕ → Bool
test_bit w zero = (w % 2) == 1
test_bit w (suc i) = test_bit (w / 2) i

xor_step : (a b : ℕ) → bit_xor a b ≡ bit_xor (a / 2) (b / 2) * 2 + (a % 2 + b % 2) % 2
xor_step a b =
    omega (arith, lowest_xor a b, differ_digits (a % 2) (b % 2) (omega arith) (omega arith))

or_half : (a b : ℕ) → bit_or a b / 2 ≡ bit_or (a / 2) (b / 2)
or_half a b = omega (arith, lowest_or a b)

and_half : (a b : ℕ) → bit_and a b / 2 ≡ bit_and (a / 2) (b / 2)
and_half a b = omega (arith, lowest_and a b)

xor_half : (a b : ℕ) → bit_xor a b / 2 ≡ bit_xor (a / 2) (b / 2)
xor_half a b = omega (arith, xor_step a b)

pub test_bit-or : (i a b : ℕ) → test_bit (bit_or a b) i ≡ (test_bit a i || test_bit b i)
unfolding test_bit
test_bit-or zero a b = ground (arith, lowest_or a b)
test_bit-or (suc i) a b = rw or_half (test_bit-or i (a / 2) (b / 2))

pub test_bit-and : (i a b : ℕ) → test_bit (bit_and a b) i ≡ (test_bit a i && test_bit b i)
unfolding test_bit
test_bit-and zero a b = ground (arith, lowest_and a b)
test_bit-and (suc i) a b = rw and_half (test_bit-and i (a / 2) (b / 2))

pub test_bit-xor : (i a b : ℕ) → test_bit (bit_xor a b) i ≡ xor (test_bit a i) (test_bit b i)
unfolding test_bit xor
test_bit-xor zero a b = ground (arith, xor_step a b)
test_bit-xor (suc i) a b = rw xor_half (test_bit-xor i (a / 2) (b / 2))

pub test_bit-zero : (j : ℕ) → test_bit 0 j ≡ false
unfolding test_bit
test_bit-zero zero = refl
test_bit-zero (suc j) = test_bit-zero j

half_pow-suc : (i : ℕ) → 2 ^ suc i / 2 ≡ 2 ^ i
half_pow-suc i = omega (arith, pow-suc 2 i)

==-suc : (i j : ℕ) → (suc i == suc j) ≡ (i == j)
==-suc i j = ground arith

-- A power of two has one bit.
pub test_bit-pow : (i j : ℕ) → test_bit (2 ^ i) j ≡ (i == j)
unfolding test_bit
test_bit-pow zero zero = refl
test_bit-pow zero (suc j) = test_bit-zero j ∙ ground arith
test_bit-pow (suc i) zero = ground (arith, pow-suc 2 i)
test_bit-pow (suc i) (suc j) = rw half_pow-suc (test_bit-pow i j ∙ sym (==-suc i j))

bit_and-zero : (a : ℕ) → bit_and a 0 ≡ 0
bit_and-zero a =
    WellFounded.induction lt_wf {C = λ n. bit_and n 0 ≡ 0} a
      λ n ih. ground (arith, lowest_and n 0, ih (n / 2), zero_and n)
  where
    zero_and : (n : ℕ) → n ≡ 0 → bit_and n 0 ≡ 0
    zero_and n e = rw e

bit_and-pow_suc : (i w : ℕ) → bit_and w (2 ^ suc i) ≡ 2 * bit_and (w / 2) (2 ^ i)
bit_and-pow_suc i w = omega (
  arith,
  lowest_and w (2 ^ suc i),
  pow-suc 2 i,
  ap (λ (t : ℕ). bit_and (w / 2) t) (half_pow-suc i),
)

-- `w & (1 << i)` is not 0 exactly if bit `i` is set.
pub bit_and-pow : (i w : ℕ) → ltb 0 (bit_and w (2 ^ i)) ≡ test_bit w i
unfolding test_bit
bit_and-pow zero w = ground (arith, lowest_and w 1, bit_and-zero (w / 2))
bit_and-pow (suc i) w = ground (arith, bit_and-pow_suc i w, bit_and-pow i (w / 2))

-- The operations stay within a word.
pub bit_or-lt : (k a b : ℕ) → a < 2 ^ k → b < 2 ^ k → bit_or a b < 2 ^ k
bit_or-lt zero a b h g = ground (arith, lowest_or a b, or_zeros a b)
  where
    or_zeros : (a b : ℕ) → a ≡ 0 → b ≡ 0 → bit_or a b ≡ 0
    or_zeros a b e f = rw (e, f)
bit_or-lt (suc k) a b h g =
    let e = pow-suc 2 k in
    omega (arith, lowest_or a b, bit_or-lt k (a / 2) (b / 2) (omega arith) (omega arith))

pub bit_xor-lt : (k a b : ℕ) → a < 2 ^ k → b < 2 ^ k → bit_xor a b < 2 ^ k
bit_xor-lt zero a b h g = ground (arith, xor_zeros a b)
  where
    xor_zeros : (a b : ℕ) → a ≡ 0 → b ≡ 0 → bit_xor a b ≡ 0
    xor_zeros a b e f = rw (e, f)
bit_xor-lt (suc k) a b h g =
    let e = pow-suc 2 k in
    omega (arith, xor_step a b, bit_xor-lt k (a / 2) (b / 2) (omega arith) (omega arith))

bit_and_fields : (k q r : ℕ) → r < 2 ^ k → bit_and (q * 2 ^ k + r) (2 ^ k - 1) ≡ r
bit_and_fields zero q r h = omega (arith, bit_and-zero (q * 1 + r))
bit_and_fields (suc k) q r h =
    let e = pow-suc 2 k in
    let f = ap (λ (t : ℕ). q * t) e in
    let one = one-le-pow k 2 in
    omega (
      arith,
      lowest_and (q * 2 ^ suc k + r) (2 ^ suc k - 1),
      ap₂ bit_and {x = (q * 2 ^ suc k + r) / 2} {y = q * 2 ^ k + r / 2} {u = (2 ^ suc k - 1) / 2}
          {v = 2 ^ k - 1} (omega arith) (omega arith),
      bit_and_fields k q (r / 2) (omega arith),
    )

-- A mask of `k` low bits is the remainder by `2 ^ k`.
pub bit_and-mask : (k a : ℕ) → bit_and a (2 ^ k - 1) ≡ a % 2 ^ k
bit_and-mask k a = ground (arith, one-le-pow k 2, bit_and_fields k (a / 2 ^ k) (a % 2 ^ k))

-- A test of every number below a bound, by evaluation.
unfoldable pub check_below : ℕ → (ℕ → Bool) → Bool
check_below zero test = true
check_below (suc k) test = check_below k test && test k

pub checked_below :
    (k : ℕ) (test : ℕ → Bool) (n : ℕ) → check_below k test ≡ true → n < k → test n ≡ true
unfolding check_below
checked_below zero test n e h = absurd (omega arith)
checked_below (suc k) test n e h = ground (arith, checked_below k test n)
