-- ===== src/Prelude/Bits.antt =====
-- The bit operations of the source as arithmetic: one equation for the lowest digit, then the
-- masks and the disjoint fields that the codecs use.
use Prim.Native.Nat.{ℕ, zero, suc, ◌+◌, ◌*◌, ◌/◌, ◌%◌, ◌^◌, ◌≤◌, ◌<◌, min, max, bit_and, bit_or}
use Prim.Native.Nat.{digits, bit_and-bitwise, bit_or-bitwise}
use native.Mathlib.Nat.{div-add-mod, le_refl, pow-suc, add-zero, add-suc}
use mathlib.Core.Path.{◌≡◌, refl, ap}
use native.Mathlib.Omega.{arith}

-- Fuel beyond the number does not matter.
module _ (last : ℕ → ℕ) (op : ℕ → ℕ → ℕ) where
  digits-fuel : (n m a b : ℕ) → a ≤ n → a ≤ m → digits last op n a b ≡ digits last op m a b
  digits-fuel zero zero a b h k = refl
  digits-fuel zero (suc m) zero b h k = refl
  digits-fuel zero (suc m) (suc a) b h k = absurd (omega arith)
  digits-fuel (suc n) zero zero b h k = refl
  digits-fuel (suc n) zero (suc a) b h k = absurd (omega arith)
  digits-fuel (suc n) (suc m) zero b h k = refl
  digits-fuel (suc n) (suc m) (suc a) b h k =
      rw (digits-fuel n m (suc a / 2) (b / 2) (omega arith) (omega arith))

  digits-step :
      (a b : ℕ)
      → digits last op (suc a) (suc a) b
        ≡ digits last op (suc a / 2) (suc a / 2) (b / 2) * 2 + op (suc a % 2) (b % 2)
  digits-step a b =
      omega (arith, digits-fuel a (suc a / 2) (suc a / 2) (b / 2) (omega arith) (le_refl _))

pub bit_and_digit : (a b : ℕ) → bit_and a b ≡ bit_and (a / 2) (b / 2) * 2 + min (a % 2) (b % 2)
bit_and_digit zero b = simp bit_and-bitwise (omega arith)
bit_and_digit (suc a) b = simp bit_and-bitwise (digits-step (λ y. 0) min a b)

pub bit_or_digit : (a b : ℕ) → bit_or a b ≡ bit_or (a / 2) (b / 2) * 2 + max (a % 2) (b % 2)
bit_or_digit zero b = simp bit_or-bitwise (omega arith)
bit_or_digit (suc a) b = simp bit_or-bitwise (digits-step (λ y. y) max a b)

zero-bit_or : (b : ℕ) → bit_or 0 b ≡ b
zero-bit_or b = bit_or-bitwise 0 b

double_shift : (b s : ℕ) → b * 2 ^ suc s ≡ 2 * (b * 2 ^ s)
double_shift b s = omega (arith, ap (λ (t : ℕ). b * t) (pow-suc 2 s))

-- `res |= b << s` is a sum while `res` has no bit at or above `s`.
pub bit_or_above : (s a b : ℕ) → a < 2 ^ s → bit_or a (b * 2 ^ s) ≡ a + b * 2 ^ s
bit_or_above zero zero b h = rw zero-bit_or (omega arith)
bit_or_above zero (suc a) b h = absurd (omega arith)
bit_or_above (suc s) a b h = ground (
  arith,
  bit_or_digit a (b * 2 ^ suc s),
  double_shift b s,
  pow-suc 2 s,
  bit_or_above s (a / 2) b (omega (arith, pow-suc 2 s)),
)

bit_and-zero : (n a : ℕ) → a ≤ n → bit_and a 0 ≡ 0
bit_and-zero n zero h = refl
bit_and-zero zero (suc a) h = absurd (omega arith)
bit_and-zero (suc n) (suc a) h =
    omega (arith, bit_and_digit (suc a) 0, bit_and-zero n (suc a / 2) (omega arith))

bit_and-one : (a : ℕ) → bit_and a 1 ≡ a % 2
bit_and-one a = omega (arith, bit_and_digit a 1, bit_and-zero (a / 2) (a / 2) (le_refl _))

bit_and_three : (a : ℕ) → bit_and a 3 ≡ a % 4
bit_and_three a = omega (arith, bit_and_digit a 3, bit_and-one (a / 2))

bit_and_0x0f : (a : ℕ) → bit_and a 15 ≡ a % 16
bit_and_0x0f a =
    omega (arith, bit_and_digit a 15, bit_and_digit (a / 2) 7, bit_and_three (a / 2 / 2))

-- The low seven bits.
pub bit_and_0x7f : (a : ℕ) → bit_and a 0x7f ≡ a % 128
bit_and_0x7f a = omega (
  arith,
  bit_and_digit a 0x7f,
  bit_and_digit (a / 2) 0x3f,
  bit_and_digit (a / 2 / 2) 0x1f,
  bit_and_0x0f (a / 2 / 2 / 2),
)

-- The low byte.
pub bit_and_0xff : (a : ℕ) → bit_and a 0xff ≡ a % 256
bit_and_0xff a = omega (arith, bit_and_digit a 0xff, bit_and_0x7f (a / 2))

bit_and_0x08 : (a : ℕ) → bit_and a 8 ≡ a / 8 % 2 * 8
bit_and_0x08 a = omega (
  arith,
  bit_and_digit a 8,
  bit_and_digit (a / 2) 4,
  bit_and_digit (a / 2 / 2) 2,
  bit_and-one (a / 2 / 2 / 2),
)

-- The sign bit of a group of seven bits.
pub bit_and_0x40 : (a : ℕ) → bit_and a 0x40 ≡ a / 64 % 2 * 64
bit_and_0x40 a = omega (
  arith,
  bit_and_digit a 0x40,
  bit_and_digit (a / 2) 0x20,
  bit_and_digit (a / 2 / 2) 0x10,
  bit_and_0x08 (a / 2 / 2 / 2),
)

-- The continuation bit.
pub bit_and_0x80 : (a : ℕ) → bit_and a 0x80 ≡ a / 128 % 2 * 128
bit_and_0x80 a = omega (arith, bit_and_digit a 0x80, bit_and_0x40 (a / 2))

-- A number of one byte with its top bit set.
pub bit_or_0x80 : (a : ℕ) → a < 128 → bit_or a 0x80 ≡ a + 128
bit_or_0x80 a h = bit_or_above 7 a 1 h

bit_or-zero : (n a : ℕ) → a ≤ n → bit_or a 0 ≡ a
bit_or-zero n zero h = refl
bit_or-zero zero (suc a) h = absurd (omega arith)
bit_or-zero (suc n) (suc a) h =
    omega (arith, bit_or_digit (suc a) 0, bit_or-zero n (suc a / 2) (omega arith))

-- `b << s | a` is a sum while `a` has no bit at or above `s`.
pub bit_or_below : (s a b : ℕ) → a < 2 ^ s → bit_or (b * 2 ^ s) a ≡ b * 2 ^ s + a
bit_or_below zero zero b h = rw (bit_or-zero (b * 2 ^ 0) (b * 2 ^ 0) (le_refl _)) (omega arith)
bit_or_below zero (suc a) b h = absurd (omega arith)
bit_or_below (suc s) a b h = ground (
  arith,
  bit_or_digit (b * 2 ^ suc s) a,
  double_shift b s,
  pow-suc 2 s,
  bit_or_below s (a / 2) b (omega (arith, pow-suc 2 s)),
)

bit_or-one : (a : ℕ) → a < 2 → bit_or a 1 ≡ 1
bit_or-one zero h = refl
bit_or-one (suc zero) h = refl
bit_or-one (suc (suc a)) h = absurd (omega arith)

-- `byte |= 0x80`, on any byte.
pub bit_or_0x80_byte : (a : ℕ) → a < 256 → bit_or a 0x80 ≡ a % 128 + 128
bit_or_0x80_byte a h = omega (arith, bit_or_digit a 0x80, bit_or_digit (a / 2) 0x40, low)
  where
    low : bit_or (a / 2 / 2) 0x20 ≡ a / 2 / 2 % 32 + 32
    low = omega (
      arith,
      bit_or_digit (a / 2 / 2) 0x20,
      bit_or_digit (a / 2 / 2 / 2) 0x10,
      bit_or_digit (a / 2 / 2 / 2 / 2) 8,
      high,
    )
      where
        high : bit_or (a / 2 / 2 / 2 / 2 / 2) 4 ≡ a / 2 / 2 / 2 / 2 / 2 % 4 + 4
        high = omega (
          arith,
          bit_or_digit (a / 2 / 2 / 2 / 2 / 2) 4,
          bit_or_digit (a / 2 / 2 / 2 / 2 / 2 / 2) 2,
          bit_or-one (a / 2 / 2 / 2 / 2 / 2 / 2 / 2) (omega arith),
        )

pub two-pow_add : (a b : ℕ) → 2 ^ (a + b) ≡ 2 ^ a * 2 ^ b
two-pow_add a zero = omega (arith, ap (λ (t : ℕ). 2 ^ t) (add-zero a))
two-pow_add a (suc b) = omega (
  arith,
  ap (λ (t : ℕ). 2 ^ t) (add-suc a b),
  pow-suc 2 (a + b),
  pow-suc 2 b,
  ap (λ (t : ℕ). 2 ^ a * t) (pow-suc 2 b),
  two-pow_add a b,
)

pub shift_seven : (shift : ℕ) → 128 * 2 ^ shift ≡ 2 ^ (shift + 7)
shift_seven shift = omega (arith, two-pow_add shift 7)

-- A word is its lowest seven bits and the others, wherever it is shifted to.
pub split_group :
    (word shift : ℕ) → word % 128 * 2 ^ shift + word / 128 * 2 ^ (shift + 7) ≡ word * 2 ^ shift
split_group word shift =
    rw (two-pow_add shift 7) (omega (arith, ap (λ (q : ℕ). 2 ^ shift * q) (div-add-mod word 128)))
