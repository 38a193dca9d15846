-- ===== src/Base/Bits.antt =====
-- The operators `&` and `|` of the source as arithmetic, for masks at any bit position.
use Prim.Native.Nat.{
  ℕ, zero, suc, ◌+◌, ◌-◌, ◌*◌, ◌/◌, ◌%◌, ◌^◌, ◌<◌, ◌≤◌, min, max, digits, bit_and, bit_or,
  bit_and-bitwise, bit_or-bitwise,
}
use mathlib.Core.Path.{◌≡◌, refl, ap}
use native.Mathlib.Nat.{pow-suc, one-le-pow}
use native.Mathlib.Omega.{arith}

-- `digits` runs on a count of digits; any count that is large enough gives the same number.
module _ (rest : ℕ → ℕ) (digit : ℕ → ℕ → ℕ) where
  enough_digits : (a b n m : ℕ) → a ≤ m → a ≤ n → digits rest digit n a b ≡ digits rest digit m a b
  enough_digits zero b zero zero hm hn = refl
  enough_digits zero b zero (suc m) hm hn = refl
  enough_digits zero b (suc n) zero hm hn = refl
  enough_digits zero b (suc n) (suc m) hm hn = refl
  enough_digits (suc a) b zero m hm hn = absurd (omega arith)
  enough_digits (suc a) b (suc n) zero hm hn = absurd (omega arith)
  enough_digits (suc a) b (suc n) (suc m) hm hn =
      let rec = enough_digits (suc a / 2) (b / 2) n m (omega arith) (omega arith) in
      ap (λ (t : ℕ). t * 2 + digit (suc a % 2) (b % 2)) rec

-- One digit of each operator.
or_by_digit : (a b : ℕ) → bit_or a b ≡ bit_or (a / 2) (b / 2) * 2 + max (a % 2) (b % 2)
or_by_digit zero b = omega (arith, bit_or-bitwise 0 b, bit_or-bitwise 0 (b / 2))
or_by_digit (suc a) b = omega (
  arith,
  bit_or-bitwise (suc a) b,
  bit_or-bitwise (suc a / 2) (b / 2),
  enough_digits (λ y. y) max (suc a / 2) (b / 2) a (suc a / 2) (omega arith) (omega arith),
)

and_by_digit : (a b : ℕ) → bit_and a b ≡ bit_and (a / 2) (b / 2) * 2 + min (a % 2) (b % 2)
and_by_digit zero b = omega (arith, bit_and-bitwise 0 b, bit_and-bitwise 0 (b / 2))
and_by_digit (suc a) b = omega (
  arith,
  bit_and-bitwise (suc a) b,
  bit_and-bitwise (suc a / 2) (b / 2),
  enough_digits (λ y. 0) min (suc a / 2) (b / 2) a (suc a / 2) (omega arith) (omega arith),
)

zero-bit_or : (b : ℕ) → bit_or 0 b ≡ b
zero-bit_or b = bit_or-bitwise 0 b

bit_or-zero_upto : (n a : ℕ) → a ≤ n → bit_or a 0 ≡ a
bit_or-zero_upto n zero h = refl
bit_or-zero_upto zero (suc a) h = absurd (omega arith)
bit_or-zero_upto (suc n) (suc a) h =
    omega (arith, or_by_digit (suc a) 0, bit_or-zero_upto n (suc a / 2) (omega arith))

pub bit_or-zero : (a : ℕ) → bit_or a 0 ≡ a
bit_or-zero a = bit_or-zero_upto a a (omega arith)

bit_and-zero_upto : (n a : ℕ) → a ≤ n → bit_and a 0 ≡ 0
bit_and-zero_upto n zero h = refl
bit_and-zero_upto zero (suc a) h = absurd (omega arith)
bit_and-zero_upto (suc n) (suc a) h =
    omega (arith, and_by_digit (suc a) 0, bit_and-zero_upto n (suc a / 2) (omega arith))

pub bit_and-zero : (a : ℕ) → bit_and a 0 ≡ 0
bit_and-zero a = bit_and-zero_upto a a (omega arith)

double_power : (q k : ℕ) → q * 2 ^ suc k ≡ 2 * (q * 2 ^ k)
double_power q k = omega (arith, ap (λ (t : ℕ). q * t) (pow-suc 2 k))

-- `high << k | low` is a sum where `low` fits `k` bits, in either order of the operands.
pub bit_or_high_low : (k q r : ℕ) → r < 2 ^ k → bit_or (q * 2 ^ k) r ≡ q * 2 ^ k + r
bit_or_high_low zero q r h = ground (arith, bit_or-zero (q * 1))
bit_or_high_low (suc k) q r h =
    let rec = bit_or_high_low k q (r / 2) (omega (arith, pow-suc 2 k)) in
    ground (arith, or_by_digit (q * 2 ^ suc k) r, double_power q k, rec)

pub bit_or_low_high : (k q r : ℕ) → r < 2 ^ k → bit_or r (q * 2 ^ k) ≡ r + q * 2 ^ k
bit_or_low_high zero q r h = ground (arith, zero-bit_or (q * 1))
bit_or_low_high (suc k) q r h =
    let rec = bit_or_low_high k q (r / 2) (omega (arith, pow-suc 2 k)) in
    ground (arith, or_by_digit r (q * 2 ^ suc k), double_power q k, rec)

-- `& (2^k - 1)` keeps the low `k` bits.
pub bit_and_low : (k q r : ℕ) → r < 2 ^ k → bit_and (q * 2 ^ k + r) (2 ^ k - 1) ≡ r
bit_and_low zero q r h = ground (arith, bit_and-zero (q * 1 + r))
bit_and_low (suc k) q r h =
    let rec = bit_and_low k q (r / 2) (omega (arith, pow-suc 2 k)) in
    ground (
      arith,
      and_by_digit (q * 2 ^ suc k + r) (2 ^ suc k - 1),
      double_power q k,
      pow-suc 2 k,
      one-le-pow k 2,
      rec,
    )

-- `& 2^k` keeps bit `k`.
pub bit_and_bit :
    (k q d r : ℕ) → r < 2 ^ k → d < 2 → bit_and ((q * 2 + d) * 2 ^ k + r) (2 ^ k) ≡ d * 2 ^ k
bit_and_bit zero q d r h hd =
    ground (arith, and_by_digit ((q * 2 + d) * 1 + r) 1, bit_and-zero (((q * 2 + d) * 1 + r) / 2))
bit_and_bit (suc k) q d r h hd =
    let rec = bit_and_bit k q d (r / 2) (omega (arith, pow-suc 2 k)) hd in
    ground (
      arith,
      and_by_digit ((q * 2 + d) * 2 ^ suc k + r) (2 ^ suc k),
      double_power (q * 2 + d) k,
      double_power d k,
      pow-suc 2 k,
      rec,
    )

-- The reserved top bit of a 31-bit field, tested and cleared.
pub bit_and_top :
    (n : ℕ) → n < 0x1_0000_0000 → bit_and n 0x8000_0000 ≡ n / 0x8000_0000 * 0x8000_0000
bit_and_top n h = ground (arith, bit_and_bit 31 0 (n / 0x8000_0000) (n % 0x8000_0000))

pub bit_and_clear_top : (n : ℕ) → bit_and n 0x7fff_ffff ≡ n % 0x8000_0000
bit_and_clear_top n = ground (arith, bit_and_low 31 (n / 0x8000_0000) (n % 0x8000_0000))

pub bit_and-one : (n : ℕ) → bit_and n 1 ≡ n % 2
bit_and-one n = omega (arith, and_by_digit n 1, bit_and-zero (n / 2))
