-- ===== src/Scaling/Float.antt =====
-- `f64` as the 64 bits of IEEE 754, as far as the scaler and its probes use it: comparison.
use hyper_pod.Base.{ℕ, ◌%◌, ◌^◌, Bool, true, not, ◌&&◌, ltb, leb, ◌==◌, if◌then◌else◌}

abbrev pub F64 : Type 0
F64 = ℕ

-- The sign bit, and the rest, in whose order the magnitudes stand.
abbrev sign_bit : ℕ
sign_bit = 2 ^ 63

abbrev is_negative : F64 → Bool
is_negative x = leb sign_bit x

abbrev magnitude : F64 → ℕ
magnitude x = x % sign_bit

-- 0x7ff0000000000000 is infinity; the patterns above it are the NaNs.
abbrev pub is_nan : F64 → Bool
is_nan x = ltb 0x7ff0000000000000 (magnitude x)

-- `x <= y`
unfoldable pub le64 : F64 → F64 → Bool
le64 x y =
    not (is_nan x)
    && not (is_nan y)
    && (if is_negative x
        then if is_negative y then leb (magnitude y) (magnitude x) else true
        else if is_negative y
        then magnitude x == 0 && magnitude y == 0
        else leb (magnitude x) (magnitude y))

-- `x < y`
unfoldable pub lt64 : F64 → F64 → Bool
lt64 x y = le64 x y && not (le64 y x)

-- 0.0 and 1.0
abbrev pub zero64 : F64
zero64 = 0

abbrev pub one64 : F64
one64 = 0x3ff0000000000000

-- `x.clamp(0.0, 1.0)`
unfoldable pub clamp01 : F64 → F64
clamp01 x = let low = if lt64 x zero64 then zero64 else x in if lt64 one64 low then one64 else low
