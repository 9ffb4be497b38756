-- ===== src/Prelude/Bits.antt =====
-- `&`, `|` and `>>` of Go on numbers, as arithmetic: a mask of low bits is a remainder, and `|` of
-- disjoint fields is a sum.
use Prim.Native.Nat.{
  ℕ, zero, suc, ◌+◌, ◌*◌, ◌/◌, ◌%◌, ◌^◌, ◌≤◌, ◌<◌, min, max, bit_and, bit_or, digits, bitwise,
}
use Prim.Native.Nat.{bit_and-bitwise, bit_or-bitwise}
use mathlib.Core.Path.{◌≡◌, refl, ap}
use native.Mathlib.Nat.{pow-suc}
use native.Mathlib.Omega.{arith}

-- Enough fuel for the digit recursion that the native operations stand for.
enough_fuel :
    (z : ℕ → ℕ) (f : ℕ → ℕ → ℕ) (n m a b : ℕ) → a ≤ n → a ≤ m → digits z f n a b ≡ digits z f m a b
enough_fuel z f zero zero a b p q = refl
enough_fuel z f zero (suc m) zero b p q = refl
enough_fuel z f zero (suc m) (suc a) b p q = elim p [ ]
enough_fuel z f (suc n) zero zero b p q = refl
enough_fuel z f (suc n) zero (suc a) b p q = elim q [ ]
enough_fuel z f (suc n) (suc m) zero b p q = refl
enough_fuel z f (suc n) (suc m) (suc a) b p q =
    omega (arith, enough_fuel z f n m (suc a / 2) (b / 2) (omega arith) (omega arith))

low_digit :
    (z : ℕ → ℕ) (f : ℕ → ℕ → ℕ) (a b : ℕ)
    → bitwise z f (suc a) b ≡ f (suc a % 2) (b % 2) + bitwise z f (suc a / 2) (b / 2) * 2
low_digit z f a b =
    omega (arith, enough_fuel z f a (suc a / 2) (suc a / 2) (b / 2) (omega arith) (omega arith))

or_digit : (a b : ℕ) → bit_or a b ≡ max (a % 2) (b % 2) + bit_or (a / 2) (b / 2) * 2
or_digit zero b = simp bit_or-bitwise (omega arith)
or_digit (suc a) b = simp bit_or-bitwise (low_digit (λ y. y) max a b)

and_digit : (a b : ℕ) → bit_and a b ≡ min (a % 2) (b % 2) + bit_and (a / 2) (b / 2) * 2
and_digit zero b = simp bit_and-bitwise (omega arith)
and_digit (suc a) b = simp bit_and-bitwise (low_digit (λ y. 0) min a b)

zero-or : (b : ℕ) → bit_or 0 b ≡ b
zero-or b = bit_or-bitwise 0 b

or-zero_upto : (n a : ℕ) → a ≤ n → bit_or a 0 ≡ a
or-zero_upto n zero h = refl
or-zero_upto zero (suc a) h = elim h [ ]
or-zero_upto (suc n) (suc a) h =
    omega (arith, or_digit (suc a) 0, or-zero_upto n (suc a / 2) (omega arith))

and-zero_upto : (n a : ℕ) → a ≤ n → bit_and a 0 ≡ 0
and-zero_upto n zero h = refl
and-zero_upto zero (suc a) h = elim h [ ]
and-zero_upto (suc n) (suc a) h =
    omega (arith, and_digit (suc a) 0, and-zero_upto n (suc a / 2) (omega arith))

-- `acc | group << k` adds when `acc` has no bit from `k` on.
pub or_shifted : (k acc g : ℕ) → acc < 2 ^ k → bit_or acc (g * 2 ^ k) ≡ acc + g * 2 ^ k
or_shifted zero acc g h = ground (arith, zero-or (g * 2 ^ 0))
or_shifted (suc k) acc g h = ground (
  arith,
  or_digit acc (g * 2 ^ suc k),
  ap (λ (t : ℕ). g * t) (pow-suc 2 k),
  pow-suc 2 k,
  or_shifted k (acc / 2) g (omega (arith, pow-suc 2 k)),
)

-- `x | 1` sets the lowest bit.
pub or_one : (x : ℕ) → bit_or x 1 ≡ x / 2 * 2 + 1
or_one x = omega (arith, or_digit x 1, or-zero_upto (x / 2) (x / 2) (omega arith))

-- The masks that the program uses.
mask_one : (a : ℕ) → bit_and a 1 ≡ a % 2
mask_one a = omega (arith, and_digit a 1, and-zero_upto (a / 2) (a / 2) (omega arith))

mask_three : (a : ℕ) → bit_and a 3 ≡ a % 4
mask_three a = omega (arith, and_digit a 3, mask_one (a / 2))

pub mask_seven : (a : ℕ) → bit_and a 7 ≡ a % 8
mask_seven a = omega (arith, and_digit a 7, mask_three (a / 2))

mask_15 : (a : ℕ) → bit_and a 15 ≡ a % 16
mask_15 a = omega (arith, and_digit a 15, mask_seven (a / 2))

mask_31 : (a : ℕ) → bit_and a 31 ≡ a % 32
mask_31 a = omega (arith, and_digit a 31, mask_15 (a / 2))

mask_63 : (a : ℕ) → bit_and a 63 ≡ a % 64
mask_63 a = omega (arith, and_digit a 63, mask_31 (a / 2))

pub mask_127 : (a : ℕ) → bit_and a 127 ≡ a % 128
mask_127 a = omega (arith, and_digit a 127, mask_63 (a / 2))

-- `g | 0x80` on a group of seven bits.
pub set_top_bit : (g : ℕ) → g < 128 → bit_or g 128 ≡ g + 128
set_top_bit g h = or_shifted 7 g 1 h

-- `|` stays within the width of its arguments.
pub or-lt : (k a b : ℕ) → a < 2 ^ k → b < 2 ^ k → bit_or a b < 2 ^ k
or-lt zero a b p q = let e : a ≡ 0 = omega arith in rw (e, zero-or b) q
or-lt (suc k) a b p q = omega (
  arith,
  pow-suc 2 k,
  or_digit a b,
  or-lt k (a / 2) (b / 2) (omega (arith, pow-suc 2 k)) (omega (arith, pow-suc 2 k)),
)
