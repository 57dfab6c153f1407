-- ===== src/Probes/Loads.antt =====
-- The loads that the probes of hyperpod/src/scaling/probes.rs report.
use hyper_pod.Base.{
  ℕ, zero, suc, ◌≡◌, ◌≢◌, refl, sym, subst, ne→==_false, true, false, Option, Outcome, ok, err,
  panic, arith, if◌then◌else◌,
}
use hyper_pod.Scaling.Float.{F64, is_nan, le64, lt64, zero64, one64, clamp01}
use hyper_pod.Probes
use hyper_pod.Probes.{Times, SystemTimes, load_of, since, finish, snapshot}

-- 0 <= x <= 1, which no NaN fulfils.
abbrev IsLoad : F64 → Type 0
IsLoad x = (le64 zero64 x ≡ true) × (le64 x one64 ≡ true)

clamp01-IsLoad : (x : F64) → is_nan x ≡ false → IsLoad (clamp01 x)
unfolding clamp01 lt64 le64
clamp01-IsLoad x h = ground arith

load_of-IsLoad :
    (fraction : ℕ → ℕ → F64) (d : ℕ × ℕ)
    → ((idle total : ℕ) → total ≢ 0 → is_nan (fraction idle total) ≡ false)
    → IsLoad (load_of fraction d)
unfolding load_of le64
load_of-IsLoad fraction (idle, zero) numbers = (refl, refl)
load_of-IsLoad fraction (idle, suc n) numbers =
    subst (λ b. IsLoad (if b then zero64 else clamp01 (fraction idle (suc n))))
      (sym (ne→==_false (suc n) 0 (omega arith)))
      (clamp01-IsLoad (fraction idle (suc n)) (numbers idle (suc n) (omega arith)))

finish-IsLoad :
    (fraction : ℕ → ℕ → F64) (p : SystemTimes) (r : Outcome (ℕ × ℕ)) (load : F64)
    → ((idle total : ℕ) → total ≢ 0 → is_nan (fraction idle total) ≡ false)
    → (finish fraction p r).0 ≡ ok load
    → IsLoad load
unfolding finish
finish-IsLoad fraction p (ok now) load numbers h =
    subst (λ x. IsLoad x) (ground (arith, h)) (load_of-IsLoad fraction (since p.last now) numbers)
finish-IsLoad fraction p (err e) load numbers h = absurd (ground (arith, h))
finish-IsLoad fraction p panic load numbers h = absurd (ground (arith, h))

-- What the probe on Windows reports is between 0 and 1, for every reading of the system's times and every
-- earlier one, if the quotient of two times of which the second is not 0 is a number.
pub load_normalized-IsLoad :
    (fraction : ℕ → ℕ → F64) (times : Option Times) (p : SystemTimes) (load : F64)
    → ((idle total : ℕ) → total ≢ 0 → is_nan (fraction idle total) ≡ false)
    → (Probes.load_normalized fraction times p).0 ≡ ok load
    → (le64 zero64 load ≡ true) × (le64 load one64 ≡ true)
unfolding Probes.load_normalized
load_normalized-IsLoad fraction times p load numbers reported =
    finish-IsLoad fraction p (snapshot times) load numbers reported
