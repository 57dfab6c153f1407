-- ===== src/Base/Bits.antt =====
-- Laws of `&` and `|` at variables: an operation on two numbers that are split at bit `k` works on
-- the two parts.
mod Step
pub mod Single
pub use Step.{zero-bit_or}
use Step.{bit_and_step, bit_or_step}
use Prim.Native.Nat.{ℕ, zero, suc, ◌+◌, ◌-◌, ◌*◌, ◌/◌, ◌%◌, ◌^◌, ◌≤◌, ◌<◌, bit_and, bit_or}
use mathlib.Core.Path.{◌≡◌, refl, ap}
use native.Mathlib.Omega.{arith}
use native.Mathlib.Nat.{pow-suc, one-le-pow}

-- The split at bit `suc k` of a number is that of its half at bit `k`.
double_split : (q k : ℕ) → q * 2 ^ suc k ≡ 2 * (q * 2 ^ k)
double_split q k = omega (arith, ap (λ (t : ℕ). q * t) (pow-suc 2 k))

-- Both sides of bit 0: the low parts are 0.
pub bit_and-zero : (a : ℕ) → bit_and a 0 ≡ 0
bit_and-zero a = bounded a a (omega arith)
  where
    bounded : (n a : ℕ) → a ≤ n → bit_and a 0 ≡ 0
    bounded n zero h = refl
    bounded zero (suc a) h = absurd (omega arith)
    bounded (suc n) (suc a) h =
        omega (arith, bit_and_step (suc a) 0, bounded n (suc a / 2) (omega arith))

pub bit_or-zero : (a : ℕ) → bit_or a 0 ≡ a
bit_or-zero a = bounded a a (omega arith)
  where
    bounded : (n a : ℕ) → a ≤ n → bit_or a 0 ≡ a
    bounded n zero h = refl
    bounded zero (suc a) h = absurd (omega arith)
    bounded (suc n) (suc a) h =
        omega (arith, bit_or_step (suc a) 0, bounded n (suc a / 2) (omega arith))

-- Each operation on two numbers that are split at bit `k` works on the two parts.
pub bit_and-split :
    (k q r s t : ℕ)
    → r < 2 ^ k
    → t < 2 ^ k
    → bit_and (q * 2 ^ k + r) (s * 2 ^ k + t) ≡ bit_and q s * 2 ^ k + bit_and r t
bit_and-split zero q r s t hr ht =
    let er : r ≡ 0 = omega arith in
    let et : t ≡ 0 = omega arith in
    let eq : q * 2 ^ 0 + 0 ≡ q = omega arith in
    let es : s * 2 ^ 0 + 0 ≡ s = omega arith in rw (er, et, eq, es) (omega arith)
bit_and-split (suc k) q r s t hr ht = ground (
  arith,
  pow-suc 2 k,
  double_split q k,
  double_split s k,
  double_split (bit_and q s) k,
  bit_and_step (q * 2 ^ suc k + r) (s * 2 ^ suc k + t),
  bit_and_step r t,
  bit_and-split k q (r / 2) s (t / 2),
)

pub bit_or-split :
    (k q r s t : ℕ)
    → r < 2 ^ k
    → t < 2 ^ k
    → bit_or (q * 2 ^ k + r) (s * 2 ^ k + t) ≡ bit_or q s * 2 ^ k + bit_or r t
bit_or-split zero q r s t hr ht =
    let er : r ≡ 0 = omega arith in
    let et : t ≡ 0 = omega arith in
    let eq : q * 2 ^ 0 + 0 ≡ q = omega arith in
    let es : s * 2 ^ 0 + 0 ≡ s = omega arith in rw (er, et, eq, es) (omega arith)
bit_or-split (suc k) q r s t hr ht = ground (
  arith,
  pow-suc 2 k,
  double_split q k,
  double_split s k,
  double_split (bit_or q s) k,
  bit_or_step (q * 2 ^ suc k + r) (s * 2 ^ suc k + t),
  bit_or_step r t,
  bit_or-split k q (r / 2) s (t / 2),
)

-- `|` of a number with zero low bits and a number of `k` bits is their sum.
pub bit_or_fields : (k q r : ℕ) → r < 2 ^ k → bit_or (q * 2 ^ k) r ≡ q * 2 ^ k + r
bit_or_fields k q r h =
    ground (arith, one-le-pow k 2, bit_or-split k q 0 0 r, bit_or-zero q, zero-bit_or r)

-- `k` ones keep every number of `k` bits.
bit_and_ones : (k r : ℕ) → r < 2 ^ k → bit_and r (2 ^ k - 1) ≡ r
bit_and_ones zero r h = let e : r ≡ 0 = omega arith in rw e
bit_and_ones (suc k) r h =
    ground
      (arith, pow-suc 2 k, one-le-pow k 2, bit_and_step r (2 ^ suc k - 1), bit_and_ones k (r / 2))

-- A mask of `k` ones cuts to the low `k` bits.
pub bit_and_mask : (k a : ℕ) → bit_and a (2 ^ k - 1) ≡ a % 2 ^ k
bit_and_mask k a = ground (
  arith,
  one-le-pow k 2,
  bit_and-split k (a / 2 ^ k) (a % 2 ^ k) 0 (2 ^ k - 1),
  bit_and-zero (a / 2 ^ k),
  bit_and_ones k (a % 2 ^ k),
)

-- A mask of `n` ones above `k` zeros cuts away the low `k` bits of a number of `k + n` bits.
pub bit_and_high :
    (k n a : ℕ) → a / 2 ^ k < 2 ^ n → bit_and a ((2 ^ n - 1) * 2 ^ k) ≡ a / 2 ^ k * 2 ^ k
bit_and_high k n a h = ground (
  arith,
  one-le-pow k 2,
  bit_and-split k (a / 2 ^ k) (a % 2 ^ k) (2 ^ n - 1) 0,
  bit_and-zero (a % 2 ^ k),
  bit_and_ones n (a / 2 ^ k),
)
