-- ===== src/Common/Bits.antt =====
-- The digits of a number in base two, and what `|`, `&` and `& ~` with a single bit do to them.
use Prim.Native.Nat.{
  ℕ, zero, suc, ◌+◌, ◌-◌, ◌*◌, ◌/◌, ◌%◌, ◌^◌, ◌≤◌, ◌<◌, min, max, bit_and, bit_or, digits,
  bit_and-bitwise, bit_or-bitwise,
}
use native.Mathlib.Nat.{pow-suc, one-le-pow}
use mathlib.Core.Path.{◌≡◌, refl, ap}
use native.Mathlib.Omega.{arith}
use enki_net.Common.Tests.{◌==◌, if◌then◌else◌}

-- The digit of weight 2 ^ j.
abbrev pub bit : ℕ → ℕ → ℕ
bit zero d = d % 2
bit (suc j) d = bit j (d / 2)

-- The recursion on digits gives the same with any fuel that is enough.
enough_fuel :
    (z : ℕ → ℕ) (f : ℕ → ℕ → ℕ) (m n a b : ℕ) → a ≤ m → a ≤ n → digits z f m a b ≡ digits z f n a b
enough_fuel z f zero zero a b p q = refl
enough_fuel z f zero (suc n) zero b p q = refl
enough_fuel z f (suc m) zero zero b p q = refl
enough_fuel z f (suc m) (suc n) zero b p q = refl
enough_fuel z f zero (suc n) (suc a) b p q = absurd (omega arith)
enough_fuel z f (suc m) zero (suc a) b p q = absurd (omega arith)
enough_fuel z f (suc m) (suc n) (suc a) b p q =
    rw (enough_fuel z f m n (suc a / 2) (b / 2) (omega arith) (omega arith))

or_digit : (a b : ℕ) → bit_or a b ≡ bit_or (a / 2) (b / 2) * 2 + max (a % 2) (b % 2)
or_digit zero b = omega (arith, bit_or-bitwise 0 b, bit_or-bitwise 0 (b / 2))
or_digit (suc a) b = omega (
  arith,
  bit_or-bitwise (suc a) b,
  bit_or-bitwise (suc a / 2) (b / 2),
  enough_fuel (λ y. y) max a (suc a / 2) (suc a / 2) (b / 2) (omega arith) (omega arith),
)

and_digit : (a b : ℕ) → bit_and a b ≡ bit_and (a / 2) (b / 2) * 2 + min (a % 2) (b % 2)
and_digit zero b = omega (arith, bit_and-bitwise 0 b, bit_and-bitwise 0 (b / 2))
and_digit (suc a) b = omega (
  arith,
  bit_and-bitwise (suc a) b,
  bit_and-bitwise (suc a / 2) (b / 2),
  enough_fuel (λ y. 0) min a (suc a / 2) (suc a / 2) (b / 2) (omega arith) (omega arith),
)

or_nothing : (n a : ℕ) → a ≤ n → bit_or a 0 ≡ a
or_nothing n zero h = refl
or_nothing zero (suc a) h = absurd (omega arith)
or_nothing (suc n) (suc a) h =
    omega (arith, or_digit (suc a) 0, or_nothing n (suc a / 2) (omega arith))

and_nothing : (n a : ℕ) → a ≤ n → bit_and a 0 ≡ 0
and_nothing n zero h = refl
and_nothing zero (suc a) h = absurd (omega arith)
and_nothing (suc n) (suc a) h =
    omega (arith, and_digit (suc a) 0, and_nothing n (suc a / 2) (omega arith))

and_everything : (w a : ℕ) → a < 2 ^ w → bit_and a (2 ^ w - 1) ≡ a
and_everything zero a h = omega (arith, and_nothing a a)
and_everything (suc w) a h =
    ground
      (arith, pow-suc 2 w, one-le-pow w 2, and_digit a (2 ^ suc w - 1), and_everything w (a / 2))

-- `d | (1 << k)`, one digit at a time.
or_pow_zero : (d : ℕ) → bit_or d (2 ^ 0) ≡ d / 2 * 2 + 1
or_pow_zero d = omega (arith, or_digit d 1, or_nothing (d / 2) (d / 2))

or_pow_suc : (k d : ℕ) → bit_or d (2 ^ suc k) ≡ bit_or (d / 2) (2 ^ k) * 2 + d % 2
or_pow_suc k d = ground (arith, pow-suc 2 k, or_digit d (2 ^ suc k))

half_digit : (x y : ℕ) → y < 2 → (x * 2 + y) / 2 ≡ x
half_digit x y h = omega arith

pub bit-or_pow : (k d j : ℕ) → bit j (bit_or d (2 ^ k)) ≡ (if j == k then 1 else bit j d)
bit-or_pow zero d zero = rw (or_pow_zero d) (omega arith)
bit-or_pow zero d (suc j) = rw (or_pow_zero d, half_digit (d / 2) 1 (omega arith)) (ground arith)
bit-or_pow (suc k) d zero = rw (or_pow_suc k d) (ground arith)
bit-or_pow (suc k) d (suc j) =
    rw (or_pow_suc k d, half_digit (bit_or (d / 2) (2 ^ k)) (d % 2) (omega arith))
      (ground (arith, bit-or_pow k (d / 2) j))

-- `d & ~(1 << k)` in a word of `w` bits.
clear_zero : (w d : ℕ) → d < 2 ^ suc w → bit_and d (2 ^ suc w - 1 - 2 ^ 0) ≡ d / 2 * 2 + 0
clear_zero w d h = ground (
  arith,
  pow-suc 2 w,
  one-le-pow w 2,
  and_digit d (2 ^ suc w - 1 - 2 ^ 0),
  and_everything w (d / 2),
)

pow_lt : (k w : ℕ) → k < w → 2 ^ k < 2 ^ w
pow_lt k zero h = absurd (omega arith)
pow_lt zero (suc w) h = omega (arith, pow-suc 2 w, one-le-pow w 2)
pow_lt (suc k) (suc w) h = omega (arith, pow-suc 2 w, pow-suc 2 k, pow_lt k w (omega arith))

clear_suc :
    (w k d : ℕ)
    → k < w
    → bit_and d (2 ^ suc w - 1 - 2 ^ suc k) ≡ bit_and (d / 2) (2 ^ w - 1 - 2 ^ k) * 2 + d % 2
clear_suc w k d h =
    ground (arith, pow-suc 2 w, pow-suc 2 k, pow_lt k w h, and_digit d (2 ^ suc w - 1 - 2 ^ suc k))

pub bit-clear_pow :
    (w k d j : ℕ)
    → k < w
    → d < 2 ^ w
    → bit j (bit_and d (2 ^ w - 1 - 2 ^ k)) ≡ (if j == k then 0 else bit j d)
bit-clear_pow zero k d j h g = absurd (omega arith)
bit-clear_pow (suc w) zero d zero h g = rw (clear_zero w d g) (omega arith)
bit-clear_pow (suc w) zero d (suc j) h g =
    rw (clear_zero w d g, half_digit (d / 2) 0 (omega arith)) (ground arith)
bit-clear_pow (suc w) (suc k) d zero h g = rw (clear_suc w k d (omega arith)) (ground arith)
bit-clear_pow (suc w) (suc k) d (suc j) h g =
    rw
      (
        clear_suc w k d (omega arith),
        half_digit (bit_and (d / 2) (2 ^ w - 1 - 2 ^ k)) (d % 2) (omega arith),
      )
      (ground (arith, bit-clear_pow w k (d / 2) j (omega arith) (omega (arith, pow-suc 2 w))))

-- `d & (1 << k)` is 0 exactly when the digit is.
bit_and_pow : (k d : ℕ) → bit_and d (2 ^ k) ≡ bit k d * 2 ^ k
bit_and_pow zero d = omega (arith, and_digit d 1, and_nothing (d / 2) (d / 2))
bit_and_pow (suc k) d = ground (
  arith,
  pow-suc 2 k,
  and_digit d (2 ^ suc k),
  bit_and_pow k (d / 2),
  ap (λ (t : ℕ). bit k (d / 2) * t) (pow-suc 2 k),
)

pub bit-lt : (j d : ℕ) → bit j d < 2
bit-lt zero d = omega arith
bit-lt (suc j) d = bit-lt j (d / 2)

pub bit_test : (k d : ℕ) → (bit_and d (2 ^ k) == 0) ≡ (bit k d == 0)
bit_test k d = rw (bit_and_pow k d) (by_digit (bit k d) (bit-lt k d))
  where
    by_digit : (b : ℕ) → b < 2 → (b * 2 ^ k == 0) ≡ (b == 0)
    by_digit b h = ground (arith, one-le-pow k 2)

-- A word keeps its width.
pub or_pow-lt : (w k d : ℕ) → k < w → d < 2 ^ w → bit_or d (2 ^ k) < 2 ^ w
or_pow-lt zero k d h g = absurd (omega arith)
or_pow-lt (suc w) zero d h g = omega (arith, or_pow_zero d, pow-suc 2 w)
or_pow-lt (suc w) (suc k) d h g = omega (
  arith,
  or_pow_suc k d,
  pow-suc 2 w,
  or_pow-lt w k (d / 2) (omega arith) (omega (arith, pow-suc 2 w)),
)

and-le : (n a b : ℕ) → a ≤ n → bit_and a b ≤ a
and-le n zero b h = omega (arith, bit_and-bitwise 0 b)
and-le zero (suc a) b h = absurd (omega arith)
and-le (suc n) (suc a) b h =
    omega (arith, and_digit (suc a) b, and-le n (suc a / 2) (b / 2) (omega arith))

pub and-lt : (w d m : ℕ) → d < 2 ^ w → bit_and d m < 2 ^ w
and-lt w d m h = omega (arith, and-le d d m)

-- Words of the same width with the same digits are the same.
pub bit_ext : (w a b : ℕ) → a < 2 ^ w → b < 2 ^ w → ((j : ℕ) → bit j a ≡ bit j b) → a ≡ b
bit_ext zero a b ha hb e = omega arith
bit_ext (suc w) a b ha hb e = omega (
  arith,
  e 0,
  bit_ext w (a / 2) (b / 2) (omega (arith, pow-suc 2 w)) (omega (arith, pow-suc 2 w))
      (λ j. e (suc j)),
)

pub bit_above : (w d j : ℕ) → d < 2 ^ w → w ≤ j → bit j d ≡ 0
bit_above zero d zero h g = omega arith
bit_above zero d (suc j) h g = bit_above zero (d / 2) j (omega arith) (omega arith)
bit_above (suc w) d zero h g = absurd (omega arith)
bit_above (suc w) d (suc j) h g = bit_above w (d / 2) j (omega (arith, pow-suc 2 w)) (omega arith)
