-- ===== src/Scaling/Steps.antt =====
-- What the monitor believes and what the sink was told (hyperpod/src/scaling/mod.rs).
use hyper_pod.Base.{
  ℕ, ◌≡◌, ◌≢◌, ◌⊎◌, refl, Bool, true, false, Option, none, some, List, [], ◌∷◌, arith,
  if◌then◌else◌,
}
use hyper_pod.Scaling.Float.{F64}
use hyper_pod.Scaling.{
  ScalingPolicy, Monitor, Round, new, next_shares, set_shares, tick, run_rounds, run_loop,
}

-- The latest value that the sink took, or `floor` when it took none.
unfoldable pub last_accepted : ℕ → List (ℕ × Bool) → ℕ
last_accepted floor [] = floor
last_accepted floor ((shares, accepted) ∷ ws) = if accepted then shares else last_accepted floor ws

InSync : ScalingPolicy → Monitor → Type 0
InSync p m = m.cpu_shares ≡ last_accepted p.min_cpu_shares m.writes

tick-InSync :
    (p : ScalingPolicy) (load : Option F64) (accepted : Bool) (m : Monitor)
    → InSync p m
    → InSync p (tick p load accepted m)
unfolding InSync tick set_shares last_accepted
tick-InSync p none accepted m h = h
tick-InSync p (some load) accepted m h = ground arith

run_rounds-InSync :
    (p : ScalingPolicy) (rs : List Round) (m : Monitor) → InSync p m → InSync p (run_rounds p rs m)
unfolding run_rounds
run_rounds-InSync p [] m h = h
run_rounds-InSync p (r ∷ rs) m h =
    let rest =
      run_rounds-InSync p rs (tick p r.load r.accepted m) (tick-InSync p r.load r.accepted m h) in
    ground arith

begin : (p : ScalingPolicy) (first : Bool) → InSync p (set_shares p.min_cpu_shares first (new p))
unfolding InSync set_shares new last_accepted
begin p true = refl
begin p false = refl

-- However often the sink fails, the shares that the monitor goes on from are the latest that the
-- sink took, or the floor as long as it took none.
pub run_loop-last_accepted :
    (p : ScalingPolicy) (first : Bool) (rs : List Round)
    → (run_loop p first rs (new p)).cpu_shares
      ≡ last_accepted p.min_cpu_shares (run_loop p first rs (new p)).writes
unfolding run_loop InSync
run_loop-last_accepted p first rs =
    run_rounds-InSync p rs (set_shares p.min_cpu_shares first (new p)) (begin p first)

-- A tick tells the sink something exactly when the load asks for other shares than the present
-- ones, and then just once: where they go at this load.
pub tick-writes :
    (p : ScalingPolicy) (load : F64) (accepted : Bool) (m : Monitor)
    → ((tick p (some load) accepted m).writes ≡ m.writes)
        × (next_shares p load m.cpu_shares ≡ m.cpu_shares)
      ⊎ ((tick p (some load) accepted m).writes
          ≡ (next_shares p load m.cpu_shares, accepted) ∷ m.writes)
        × (next_shares p load m.cpu_shares ≢ m.cpu_shares)
unfolding tick set_shares
tick-writes p load accepted m = ground arith
