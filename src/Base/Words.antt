-- ===== src/Base/Words.antt =====
-- Machine integers as native numbers. The wrap-around of the release profile is written out.
use Prim.Native.Nat.{ℕ, zero, suc, ◌+◌, ◌-◌, ◌*◌, ◌/◌, ◌%◌, ◌^◌, ◌<◌}
use mathlib.Core.Path.{◌≡◌, refl}
use mathlib.Core.List.{List, [], ◌∷◌}
use mathlib.Core.Option.{Option, none, some}
use native.Mathlib.Nat.{pow-suc}
use native.Mathlib.Omega.{arith}
use hyper_pod.Base.Tests.{ltb, leb, if◌then◌else◌}
use hyper_pod.Base.Lists.{length, All}

abbrev pub u8_mod : ℕ
u8_mod = 2 ^ 8

abbrev pub u16_mod : ℕ
u16_mod = 2 ^ 16

abbrev pub u32_mod : ℕ
u32_mod = 2 ^ 32

-- `u64`, and `usize` on the 64-bit targets.
abbrev pub u64_mod : ℕ
u64_mod = 2 ^ 64

abbrev pub u128_mod : ℕ
u128_mod = 2 ^ 128

-- `a + b` and `a.wrapping_add(b)` at `u64`.
abbrev pub add64 : ℕ → ℕ → ℕ
add64 a b = (a + b) % u64_mod

-- `a.saturating_add(b)` at `u64`.
abbrev pub saturating_add64 : ℕ → ℕ → ℕ
saturating_add64 a b = if ltb (a + b) u64_mod then a + b else u64_mod - 1

-- `a.checked_add(b)` at `u64` and `usize`.
abbrev pub checked_add64 : ℕ → ℕ → Option ℕ
checked_add64 a b = if ltb (a + b) u64_mod then some (a + b) else none

-- `a.checked_mul(b)` at `usize`.
abbrev pub checked_mul64 : ℕ → ℕ → Option ℕ
checked_mul64 a b = if ltb (a * b) u64_mod then some (a * b) else none

-- `a.min(b)` and `a.max(b)`.
abbrev pub min_of : ℕ → ℕ → ℕ
min_of a b = if leb a b then a else b

abbrev pub max_of : ℕ → ℕ → ℕ
max_of a b = if leb a b then b else a

-- `x << k` before the cut to a width, and `x >> k`.
infixl 75 ◌<<<◌ ◌>>>◌
abbrev pub ◌<<<◌ : ℕ → ℕ → ℕ
x <<< k = x * 2 ^ k

abbrev pub ◌>>>◌ : ℕ → ℕ → ℕ
x >>> k = x / 2 ^ k

abbrev pub IsByte : ℕ → Type 0
IsByte b = b < 256

-- The `w` bytes of an integer in memory order (`to_le_bytes`), and back (`from_le_bytes`).
unfoldable pub to_le_bytes : ℕ → ℕ → List ℕ
to_le_bytes zero v = []
to_le_bytes (suc w) v = (v % 256) ∷ to_le_bytes w (v / 256)

unfoldable pub from_le_bytes : List ℕ → ℕ
from_le_bytes [] = 0
from_le_bytes (b ∷ bs) = b + 256 * from_le_bytes bs

-- `from_be_bytes`, with the value of the bytes before.
unfoldable pub from_be_bytes_acc : ℕ → List ℕ → ℕ
from_be_bytes_acc acc [] = acc
from_be_bytes_acc acc (b ∷ bs) = from_be_bytes_acc (acc * 256 + b) bs

unfoldable pub from_be_bytes : List ℕ → ℕ
unfolding from_be_bytes_acc
from_be_bytes bs = from_be_bytes_acc 0 bs

pub length-to_le_bytes : (w v : ℕ) → length (to_le_bytes w v) ≡ w
unfolding to_le_bytes
length-to_le_bytes zero v = refl
length-to_le_bytes (suc w) v = omega (arith, length-to_le_bytes w (v / 256))

pub to_le_bytes-IsByte : (w v : ℕ) → All IsByte (to_le_bytes w v)
unfolding to_le_bytes
to_le_bytes-IsByte zero v = tt
to_le_bytes-IsByte (suc w) v = (omega arith, to_le_bytes-IsByte w (v / 256))

-- Reading back the bytes of a value that fits.
pub from_le_bytes-to_le_bytes : (w v : ℕ) → v < 256 ^ w → from_le_bytes (to_le_bytes w v) ≡ v
unfolding to_le_bytes from_le_bytes
from_le_bytes-to_le_bytes zero v h = omega arith
from_le_bytes-to_le_bytes (suc w) v h =
    ground (arith, from_le_bytes-to_le_bytes w (v / 256), pow-suc 256 w)
