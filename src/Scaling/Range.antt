-- ===== src/Scaling/Range.antt =====
-- The policy's bounds, and the values of the monitor and its sink (hyperpod/src/scaling/mod.rs).
use hyper_pod.Base.{ℕ, ◌≤◌, ◌≡◌, Bool, Option, none, some, List, [], ◌∷◌, All, arith}
use hyper_pod.Config.{Limits}
use hyper_pod.Config.Admission.{LimitsAreValid}
use hyper_pod.Scaling.Float.{F64}
use hyper_pod.Scaling.{
  ScalingPolicy, Monitor, Round, from_limits, new, next_shares, set_shares, tick, run_rounds,
  run_loop, clamp_shares,
}

-- Between the bounds.
abbrev pub Within : ScalingPolicy → ℕ → Type 0
Within p shares = (p.min_cpu_shares ≤ shares) × (shares ≤ p.max_cpu_shares)

pub record IsValid (p : ScalingPolicy) (m : Monitor) : Type 0 where
  pub shares_within : Within p m.cpu_shares
  pub writes_within : All (λ w. Within p w.0) m.writes

pub next_shares-Within :
    (p : ScalingPolicy) (load : F64) (current : ℕ)
    → Within p current
    → Within p (next_shares p load current)
unfolding next_shares
next_shares-Within p load current h = ground arith

pub tick-IsValid :
    (p : ScalingPolicy) (load : Option F64) (accepted : Bool) (m : Monitor)
    → IsValid p m
    → IsValid p (tick p load accepted m)
unfolding tick set_shares
tick-IsValid p none accepted m v = v
tick-IsValid p (some load) accepted m v =
    let next = next_shares-Within p load m.cpu_shares v.shares_within in ground arith

run_rounds-IsValid :
    (p : ScalingPolicy) (rs : List Round) (m : Monitor)
    → IsValid p m
    → IsValid p (run_rounds p rs m)
unfolding run_rounds
run_rounds-IsValid p [] m v = v
run_rounds-IsValid p (r ∷ rs) m v =
    let rest =
      run_rounds-IsValid p rs (tick p r.load r.accepted m) (tick-IsValid p r.load r.accepted m v) in
    ground arith

-- If the policy's bounds are in order, then, whatever the probe measures and the sink answers, the
-- monitor that the loop leaves has its shares between them, and told the sink only values between
-- them.
pub run_loop-IsValid :
    (p : ScalingPolicy) (first : Bool) (rs : List Round)
    → p.min_cpu_shares ≤ p.max_cpu_shares
    → IsValid p (run_loop p first rs (new p))
unfolding run_loop new set_shares
run_loop-IsValid p first rs h =
    run_rounds-IsValid p rs _
      (record { shares_within = (omega arith, h); writes_within = ((omega arith, h), tt) })

pub clamp_shares-Within :
    (l : Limits) (shares : ℕ)
    → LimitsAreValid l
    → Within (from_limits l) shares
    → clamp_shares shares ≡ shares
unfolding clamp_shares from_limits
clamp_shares-Within l shares v h = ground arith

clamp_shares-All :
    (l : Limits) (ws : List (ℕ × Bool))
    → LimitsAreValid l
    → All (λ w. Within (from_limits l) w.0) ws
    → All (λ w. clamp_shares w.0 ≡ w.0) ws
clamp_shares-All l [] v h = tt
clamp_shares-All l (w ∷ ws) v h = (clamp_shares-Within l w.0 v h.0, clamp_shares-All l ws v h.1)

-- With a policy from admitted limits, every value that the sink was told goes to the operating
-- system as it is: the clamp to 1..=10000 changes none.
pub run_loop-unclamped :
    (l : Limits) (first : Bool) (rs : List Round)
    → LimitsAreValid l
    → All
        (λ w. clamp_shares w.0 ≡ w.0)
        (run_loop (from_limits l) first rs (new (from_limits l))).writes
unfolding from_limits
run_loop-unclamped l first rs v =
    clamp_shares-All l (run_loop (from_limits l) first rs (new (from_limits l))).writes v
      (run_loop-IsValid (from_limits l) first rs v.shares_ordered).writes_within
