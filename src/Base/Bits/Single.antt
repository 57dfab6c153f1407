-- ===== src/Base/Bits/Single.antt =====
-- The bits of a number one by one.
use hyper_pod.Base.Bits.Step.{bit_and_step}
use Prim.Native.Nat.{ℕ, zero, suc, ◌-◌, ◌/◌, ◌%◌, ◌^◌, ◌<◌, min, bit_and}
use mathlib.Core.Logic.{◌≢◌}
use mathlib.Core.Path.{◌≡◌, ap, ◌∙◌}
use native.Mathlib.Omega.{arith}
use native.Mathlib.Nat.{pow-suc}

-- Bit `k`, counted from the lowest.
unfoldable pub bit : ℕ → ℕ → ℕ
bit zero a = a % 2
bit (suc k) a = bit k (a / 2)

-- `&` acts on each bit.
bit-bit_and : (k a b : ℕ) → bit k (bit_and a b) ≡ min (bit k a) (bit k b)
unfolding bit
bit-bit_and zero a b = omega (arith, bit_and_step a b)
bit-bit_and (suc k) a b =
    let halved : bit_and a b / 2 ≡ bit_and (a / 2) (b / 2) = omega (arith, bit_and_step a b) in
    ap (bit k) halved ∙ bit-bit_and k (a / 2) (b / 2)

-- The complement among the numbers of `n` bits.
bit-complement : (k n a : ℕ) → k < n → a < 2 ^ n → bit k (2 ^ n - 1 - a) ≡ 1 - bit k a
unfolding bit
bit-complement k zero a h fits = absurd (omega arith)
bit-complement zero (suc n) a h fits = omega (arith, pow-suc 2 n)
bit-complement (suc k) (suc n) a h fits =
    let halved : (2 ^ suc n - 1 - a) / 2 ≡ 2 ^ n - 1 - a / 2 = omega (arith, pow-suc 2 n) in
    ap (bit k) halved ∙ bit-complement k n (a / 2) (omega arith) (omega (arith, pow-suc 2 n))

bit-lt : (k a : ℕ) → bit k a < 2
unfolding bit
bit-lt zero a = omega arith
bit-lt (suc k) a = bit-lt k (a / 2)

-- Clearing the bits of `b`, both numbers of `n` bits.
pub bit-clear :
    (k n a b : ℕ)
    → k < n
    → b < 2 ^ n
    → bit k (bit_and a (2 ^ n - 1 - b)) ≡ min (bit k a) (1 - bit k b)
bit-clear k n a b h fits =
    bit-bit_and k a (2 ^ n - 1 - b) ∙ ap (min (bit k a)) (bit-complement k n b h fits)

-- `bit` is a single binary digit.
pub bit-cleared :
    (k n a b : ℕ) → k < n → b < 2 ^ n → bit k b ≡ 1 → bit k (bit_and a (2 ^ n - 1 - b)) ≡ 0
bit-cleared k n a b h fits set = omega (arith, bit-clear k n a b h fits)

pub bit-kept :
    (k n a b : ℕ) → k < n → b < 2 ^ n → bit k b ≢ 1 → bit k (bit_and a (2 ^ n - 1 - b)) ≡ bit k a
bit-kept k n a b h fits clear = omega (arith, bit-clear k n a b h fits, bit-lt k a, bit-lt k b)
