-- ===== src/Scaling/Converge.antt =====
-- The scaler (hyperpod/src/scaling/mod.rs) under steady load.
use hyper_pod.Base.{ℕ, ◌+◌, ◌≤◌, ◌<◌, ◌≡◌, ◌⊎◌, zero, suc, true, false, some, arith, replicate}
use hyper_pod.Config.{Limits}
use hyper_pod.Scaling.Float.{F64, le64}
use hyper_pod.Scaling.{
  ScalingPolicy, Monitor, Round, from_limits, next_shares, set_shares, tick, run_rounds,
}
use hyper_pod.Scaling.Range.{Within, next_shares-Within}

-- A round at `load` in which the sink takes what it is told.
abbrev pub steady : F64 → Round
steady load = record { shutdown = false; load = some load; accepted = true }

tick-next :
    (p : ScalingPolicy) (load : F64) (m : Monitor)
    → (tick p (some load) true m).cpu_shares ≡ next_shares p load m.cpu_shares
unfolding tick set_shares
tick-next p load m = ground arith

rises :
    (p : ScalingPolicy) (load : F64) (current : ℕ)
    → le64 p.high_load_threshold load ≡ true
    → le64 load p.low_load_threshold ≡ false
    → Within p current
    → (current < next_shares p load current) ⊎ (next_shares p load current ≡ p.max_cpu_shares)
unfolding next_shares
rises p load current high not_low h = ground arith

falls :
    (p : ScalingPolicy) (load : F64) (current : ℕ)
    → le64 load p.low_load_threshold ≡ true
    → le64 p.high_load_threshold load ≡ false
    → Within p current
    → (next_shares p load current < current) ⊎ (next_shares p load current ≡ p.min_cpu_shares)
unfolding next_shares
falls p load current low not_high h = ground arith

-- Load that is high and not low drives the shares from anywhere between the bounds to the maximum,
-- within as many ticks as there are shares missing, if the sink takes what it is told.
pub reaches_maximum :
    (p : ScalingPolicy) (load : F64) (n : ℕ) (m : Monitor)
    → le64 p.high_load_threshold load ≡ true
    → le64 load p.low_load_threshold ≡ false
    → Within p m.cpu_shares
    → p.max_cpu_shares ≤ m.cpu_shares + n
    → (run_rounds p (replicate n (steady load)) m).cpu_shares ≡ p.max_cpu_shares
unfolding run_rounds
reaches_maximum p load zero m high not_low h near = ground arith
reaches_maximum p load (suc n) m high not_low h near =
    let next = tick-next p load m in
    let within = next_shares-Within p load m.cpu_shares h in
    let up = rises p load m.cpu_shares high not_low h in
    reaches_maximum p load n (tick p (some load) true m) high not_low (rw next within)
      (ground arith)

-- Load that is low and not high drives the shares from anywhere between the bounds to the minimum,
-- within as many ticks as there are shares above it, if the sink takes what it is told.
pub reaches_minimum :
    (p : ScalingPolicy) (load : F64) (n : ℕ) (m : Monitor)
    → le64 load p.low_load_threshold ≡ true
    → le64 p.high_load_threshold load ≡ false
    → Within p m.cpu_shares
    → m.cpu_shares ≤ p.min_cpu_shares + n
    → (run_rounds p (replicate n (steady load)) m).cpu_shares ≡ p.min_cpu_shares
unfolding run_rounds
reaches_minimum p load zero m low not_high h near = ground arith
reaches_minimum p load (suc n) m low not_high h near =
    let next = tick-next p load m in
    let within = next_shares-Within p load m.cpu_shares h in
    let down = falls p load m.cpu_shares low not_high h in
    reaches_minimum p load n (tick p (some load) true m) low not_high (rw next within)
      (ground arith)

-- For a policy that comes from a HyperPod file no load is both low and high.
pub not_high_and_low :
    (l : Limits) (load : F64)
    → le64 load (from_limits l).low_load_threshold ≡ true
    → le64 (from_limits l).high_load_threshold load ≡ false
unfolding le64 from_limits
not_high_and_low l load low = ground arith
