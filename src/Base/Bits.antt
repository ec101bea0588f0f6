-- ===== src/Base/Bits.antt =====
-- `&` and `|` on numbers cut into a high and a low field, at every width.
use Prim.Native.Nat.{
  ℕ, zero, suc, ◌+◌, ◌-◌, ◌*◌, ◌/◌, ◌%◌, ◌^◌, ◌≤◌, ◌<◌, min, max, bit_and, bit_or, digits,
  bit_and-bitwise, bit_or-bitwise,
}
use mathlib.Core.Path.{◌≡◌, refl, ap}
use native.Mathlib.Nat.{pow-suc, one-le-pow}
use native.Mathlib.Omega.{arith}

-- The fuel of the digit recursion does not matter once it covers the number.
any_fuel :
    (z : ℕ → ℕ) (f : ℕ → ℕ → ℕ) (n m a b : ℕ) → a ≤ n → a ≤ m → digits z f n a b ≡ digits z f m a b
any_fuel z f zero zero a b h k = refl
any_fuel z f zero (suc m) zero b h k = refl
any_fuel z f (suc n) zero zero b h k = refl
any_fuel z f (suc n) (suc m) zero b h k = refl
any_fuel z f zero (suc m) (suc a) b h k = absurd (omega arith)
any_fuel z f (suc n) zero (suc a) b h k = absurd (omega arith)
any_fuel z f (suc n) (suc m) (suc a) b h k =
    omega (arith, any_fuel z f n m (suc a / 2) (b / 2) (omega arith) (omega arith))

and_digit : (a b : ℕ) → bit_and a b ≡ bit_and (a / 2) (b / 2) * 2 + min (a % 2) (b % 2)
and_digit zero b = omega (arith, bit_and-bitwise 0 b, bit_and-bitwise 0 (b / 2))
and_digit (suc a) b = omega (
  arith,
  bit_and-bitwise (suc a) b,
  bit_and-bitwise (suc a / 2) (b / 2),
  any_fuel (λ y. 0) min a (suc a / 2) (suc a / 2) (b / 2) (omega arith) (omega arith),
)

or_digit : (a b : ℕ) → bit_or a b ≡ bit_or (a / 2) (b / 2) * 2 + max (a % 2) (b % 2)
or_digit zero b = omega (arith, bit_or-bitwise 0 b, bit_or-bitwise 0 (b / 2))
or_digit (suc a) b = omega (
  arith,
  bit_or-bitwise (suc a) b,
  bit_or-bitwise (suc a / 2) (b / 2),
  any_fuel (λ y. y) max a (suc a / 2) (suc a / 2) (b / 2) (omega arith) (omega arith),
)

double : (q k : ℕ) → q * 2 ^ suc k ≡ 2 * (q * 2 ^ k)
double q k = omega (arith, ap (λ (t : ℕ). q * t) (pow-suc 2 k))

module _ (p m : ℕ) where
  -- The high and the low fields are combined apart.
  pub bit_and_split :
      (k s n : ℕ)
      → s < 2 ^ k
      → n < 2 ^ k
      → bit_and (p * 2 ^ k + s) (m * 2 ^ k + n) ≡ bit_and p m * 2 ^ k + bit_and s n
  bit_and_split zero zero zero hs hn = rw (bit_and-bitwise 0 0) (ground arith)
  bit_and_split zero zero (suc n) hs hn = absurd (omega arith)
  bit_and_split zero (suc s) n hs hn = absurd (omega arith)
  bit_and_split (suc k) s n hs hn = ground (
    arith,
    and_digit (p * 2 ^ suc k + s) (m * 2 ^ suc k + n),
    and_digit s n,
    double p k,
    double m k,
    double (bit_and p m) k,
    pow-suc 2 k,
    bit_and_split k (s / 2) (n / 2) (omega (arith, pow-suc 2 k)) (omega (arith, pow-suc 2 k)),
  )

  pub bit_or_split :
      (k s n : ℕ)
      → s < 2 ^ k
      → n < 2 ^ k
      → bit_or (p * 2 ^ k + s) (m * 2 ^ k + n) ≡ bit_or p m * 2 ^ k + bit_or s n
  bit_or_split zero zero zero hs hn = rw (bit_or-bitwise 0 0) (ground arith)
  bit_or_split zero zero (suc n) hs hn = absurd (omega arith)
  bit_or_split zero (suc s) n hs hn = absurd (omega arith)
  bit_or_split (suc k) s n hs hn = ground (
    arith,
    or_digit (p * 2 ^ suc k + s) (m * 2 ^ suc k + n),
    or_digit s n,
    double p k,
    double m k,
    double (bit_or p m) k,
    pow-suc 2 k,
    bit_or_split k (s / 2) (n / 2) (omega (arith, pow-suc 2 k)) (omega (arith, pow-suc 2 k)),
  )

-- A number below `2 ^ k` against zero and against the mask of `k` ones.
bit_and_zero_below : (k a : ℕ) → a < 2 ^ k → bit_and a 0 ≡ 0
bit_and_zero_below zero zero h = refl
bit_and_zero_below zero (suc a) h = absurd (omega arith)
bit_and_zero_below (suc k) a h =
    omega
      (arith, and_digit a 0, pow-suc 2 k, bit_and_zero_below k (a / 2) (omega (arith, pow-suc 2 k)))

bit_or_zero_below : (k a : ℕ) → a < 2 ^ k → bit_or a 0 ≡ a
bit_or_zero_below zero zero h = refl
bit_or_zero_below zero (suc a) h = absurd (omega arith)
bit_or_zero_below (suc k) a h =
    omega
      (arith, or_digit a 0, pow-suc 2 k, bit_or_zero_below k (a / 2) (omega (arith, pow-suc 2 k)))

below_pow : (a : ℕ) → a < 2 ^ a
below_pow zero = omega arith
below_pow (suc a) = omega (arith, below_pow a, pow-suc 2 a)

pub bit_and-zero : (a : ℕ) → bit_and a 0 ≡ 0
bit_and-zero a = bit_and_zero_below a a (below_pow a)

pub bit_or-zero : (a : ℕ) → bit_or a 0 ≡ a
bit_or-zero a = bit_or_zero_below a a (below_pow a)

pub zero-bit_or : (a : ℕ) → bit_or 0 a ≡ a
zero-bit_or a = omega (arith, bit_or-bitwise 0 a)

pub zero-bit_and : (a : ℕ) → bit_and 0 a ≡ 0
zero-bit_and a = omega (arith, bit_and-bitwise 0 a)

bit_and_ones : (k a : ℕ) → a < 2 ^ k → bit_and a (2 ^ k - 1) ≡ a
bit_and_ones zero zero h = refl
bit_and_ones zero (suc a) h = absurd (omega arith)
bit_and_ones (suc k) a h = ground (
  arith,
  and_digit a (2 ^ suc k - 1),
  pow-suc 2 k,
  one-le-pow k 2,
  bit_and_ones k (a / 2) (omega (arith, pow-suc 2 k)),
)

-- `(q << k) | r` for `r` below `2 ^ k`.
pub bit_or_fields : (k q r : ℕ) → r < 2 ^ k → bit_or (q * 2 ^ k) r ≡ q * 2 ^ k + r
bit_or_fields k q r h =
    ground (arith, one-le-pow k 2, bit_or_split q 0 k 0 r, bit_or-zero q, zero-bit_or r)

-- `a & (2 ^ k - 1)`
pub bit_and_low : (k a : ℕ) → bit_and a (2 ^ k - 1) ≡ a % 2 ^ k
bit_and_low k a = ground (
  arith,
  one-le-pow k 2,
  bit_and_split (a / 2 ^ k) 0 k (a % 2 ^ k) (2 ^ k - 1),
  bit_and-zero (a / 2 ^ k),
  bit_and_ones k (a % 2 ^ k),
)

-- `a & (m << k)`
pub bit_and_high : (k a m : ℕ) → bit_and a (m * 2 ^ k) ≡ bit_and (a / 2 ^ k) m * 2 ^ k
bit_and_high k a m =
    ground
      (arith, one-le-pow k 2, bit_and_split (a / 2 ^ k) m k (a % 2 ^ k) 0, bit_and-zero (a % 2 ^ k))

pub bit_and-one : (a : ℕ) → bit_and a 1 ≡ a % 2
bit_and-one a = bit_and_low 1 a
