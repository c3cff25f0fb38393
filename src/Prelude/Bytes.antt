-- ===== src/Prelude/Bytes.antt =====
-- Bytes, 64-bit words, and the masks that the codecs use, as arithmetic.
use Prim.Native.Nat.{
  ℕ, zero, suc, ◌+◌, ◌-◌, ◌*◌, ◌/◌, ◌%◌, ◌^◌, ◌≤◌, ◌<◌, max, bit_and, bit_or, digits,
  bit_or-bitwise,
}
use mathlib.Core.Path.{◌≡◌, refl, ap}
use mathlib.Core.Logic.{ite}
use mathlib.Core.Bool.{Bool, true, false}
use native.Mathlib.Omega.{arith}
use native.Mathlib.Decide.{ℕ_discrete}
use native.Mathlib.Nat.{pow-suc}

abbrev pub IsByte : ℕ → Type 0
IsByte b = b < 256

abbrev pub IsU64 : ℕ → Type 0
IsU64 v = v < 2 ^ 64

-- Addition of `u64` and `usize`, with the wrap of a release build.
abbrev pub add64 : ℕ → ℕ → ℕ
add64 a b = (a + b) % 2 ^ 64

-- Subtraction of `u64` and `usize`, with the wrap of a release build.
abbrev pub sub64 : ℕ → ℕ → ℕ
sub64 a b = (a + 2 ^ 64 - b) % 2 ^ 64

-- Two functions that agree on a table of the first `n` numbers.
module _ (f g : ℕ → ℕ) where
  same_table : ℕ → Bool
  unfolding ℕ_discrete
  same_table zero = true
  same_table (suc n) = ite (ℕ_discrete (f n) (g n)) (same_table n) false

  same_table_sound : (n : ℕ) → same_table n ≡ true → (b : ℕ) → b < n → f b ≡ g b
  unfolding same_table
  same_table_sound zero t b h = absurd (omega arith)
  same_table_sound (suc n) t b h = ground (arith, same_table_sound n (ground arith) b)

-- `b & 0x7f`, `b & 0x80` and `b | 0x80` on a byte.
pub and_7f : (b : ℕ) → b < 256 → bit_and b 0x7f ≡ b % 128
unfolding same_table
and_7f = same_table_sound _ _ 256 refl

pub and_80 : (b : ℕ) → b < 256 → bit_and b 0x80 ≡ b / 128 * 128
unfolding same_table
and_80 = same_table_sound _ _ 256 refl

pub or_80 : (b : ℕ) → b < 256 → bit_or b 0x80 ≡ b % 128 + 128
unfolding same_table
or_80 = same_table_sound _ _ 256 refl

-- The binary digits of `a | b` are found with any fuel that is enough.
or_digits_fuel :
    (n m a b : ℕ) → a ≤ n → a ≤ m → digits (λ y. y) max n a b ≡ digits (λ y. y) max m a b
or_digits_fuel zero zero a b p q = refl
or_digits_fuel zero (suc m) zero b p q = refl
or_digits_fuel zero (suc m) (suc a) b p q = absurd (omega arith)
or_digits_fuel (suc n) zero zero b p q = refl
or_digits_fuel (suc n) zero (suc a) b p q = absurd (omega arith)
or_digits_fuel (suc n) (suc m) zero b p q = refl
or_digits_fuel (suc n) (suc m) (suc a) b p q =
    rw (or_digits_fuel n m (suc a / 2) (b / 2) (omega arith) (omega arith))

zero-bit_or : (b : ℕ) → bit_or 0 b ≡ b
zero-bit_or b = bit_or-bitwise 0 b

-- The lowest binary digit of `a | b`.
bit_or_low : (a b : ℕ) → bit_or a b ≡ bit_or (a / 2) (b / 2) * 2 + max (a % 2) (b % 2)
bit_or_low zero b = omega (arith, zero-bit_or b, zero-bit_or (b / 2))
bit_or_low (suc a) b = omega (
  arith,
  bit_or-bitwise (suc a) b,
  bit_or-bitwise (suc a / 2) (b / 2),
  or_digits_fuel a (suc a / 2) (suc a / 2) (b / 2) (omega arith) (omega arith),
)

shift_suc : (q k : ℕ) → q * 2 ^ suc k ≡ 2 * (q * 2 ^ k)
shift_suc q k = omega (arith, ap (λ (t : ℕ). q * t) (pow-suc 2 k))

-- `r | (q << k)` is a sum where `r` fits in the low `k` bits.
pub or_shifted : (k q r : ℕ) → r < 2 ^ k → bit_or r (q * 2 ^ k) ≡ r + q * 2 ^ k
or_shifted zero q zero h = omega (arith, zero-bit_or (q * 1))
or_shifted zero q (suc r) h = absurd (omega arith)
or_shifted (suc k) q r h = ground (
  arith,
  bit_or_low r (q * 2 ^ suc k),
  shift_suc q k,
  pow-suc 2 k,
  or_shifted k q (r / 2) (omega (arith, pow-suc 2 k)),
)

-- `a | b` needs no more bits than its arguments.
pub bit_or-lt : (k a b : ℕ) → a < 2 ^ k → b < 2 ^ k → bit_or a b < 2 ^ k
bit_or-lt zero zero zero ha hb = omega (arith, zero-bit_or 0)
bit_or-lt zero zero (suc b) ha hb = absurd (omega arith)
bit_or-lt zero (suc a) b ha hb = absurd (omega arith)
bit_or-lt (suc k) a b ha hb = ground (
  arith,
  bit_or_low a b,
  pow-suc 2 k,
  bit_or-lt k (a / 2) (b / 2) (omega (arith, pow-suc 2 k)) (omega (arith, pow-suc 2 k)),
)
