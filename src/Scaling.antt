-- ===== src/Scaling.antt =====
-- The CPU share scaler, hyperpod/src/scaling/mod.rs, and the sink of probes.rs. The probe and the
-- sink are traits over the operating system: a round of the loop is given what the probe measures
-- and whether the sink's write succeeds, and records each `set_shares`.
pub mod Float
pub mod Range
pub mod Steps
pub mod Converge
pub mod Threads
mod Tests
use hyper_pod.Base.{
  ℕ, ◌+◌, ◌-◌, ◌/◌, ◌&&◌, Bool, true, false, Option, none, some, List, [], ◌∷◌, ltb, ◌==◌,
  if◌then◌else◌, min_of, max_of,
}
use hyper_pod.Config.{Limits}
use Float.{F64, le64}

-- `poll_interval` in milliseconds.
pub record ScalingPolicy : Type 0 where
  pub min_cpu_shares : ℕ
  pub max_cpu_shares : ℕ
  pub high_load_threshold : F64
  pub low_load_threshold : F64
  pub poll_interval : ℕ

-- 0.80 and 0.20 as the nearest doubles.
unfoldable pub from_limits : Limits → ScalingPolicy
from_limits l = record {
  min_cpu_shares = l.min_cpu_shares;
  max_cpu_shares = l.max_cpu_shares;
  high_load_threshold = 0x3fe999999999999a;
  low_load_threshold = 0x3fc999999999999a;
  poll_interval = 500;
}

-- `cpu_shares` of `MonitorState`, and what the sink was told, latest first, with its answers.
pub record Monitor : Type 0 where
  pub cpu_shares : ℕ
  pub writes : List (ℕ × Bool)

-- `MonitorState::new`, before the sink has heard of it.
unfoldable pub new : ScalingPolicy → Monitor
new p = record { cpu_shares = p.min_cpu_shares; writes = [] }

-- One iteration's circumstances: `shutdown` as the loop reads it, the probe's measure if it does
-- not fail, and whether a write to the sink succeeds.
pub record Round : Type 0 where
  pub shutdown : Bool
  pub load : Option F64
  pub accepted : Bool

-- `next` of `tick`.
unfoldable pub next_shares : ScalingPolicy → F64 → ℕ → ℕ
next_shares p load current =
    if le64 p.high_load_threshold load && ltb current p.max_cpu_shares
    then (let headroom = p.max_cpu_shares - current in
        min_of (current + max_of (headroom / 4) 1) p.max_cpu_shares)
    else if le64 load p.low_load_threshold && ltb p.min_cpu_shares current
    then (let slack = current - p.min_cpu_shares in
        max_of (current - max_of (slack / 4) 1) p.min_cpu_shares)
    else current

-- `set_shares` of the sink.
unfoldable pub set_shares : ℕ → Bool → Monitor → Monitor
set_shares shares accepted m = record m { writes = (shares, accepted) ∷ m.writes }

unfoldable pub tick : ScalingPolicy → Option F64 → Bool → Monitor → Monitor
tick p none accepted m = m
tick p (some load) accepted m =
    let next = next_shares p load m.cpu_shares in
    if next == m.cpu_shares
    then m
    else (let told = set_shares next accepted m in
        if accepted then record told { cpu_shares = next } else told)

-- The `while` of `run_loop`, over the rounds there are before the program ends.
unfoldable pub run_rounds : ScalingPolicy → List Round → Monitor → Monitor
run_rounds p [] m = m
run_rounds p (r ∷ rs) m = if r.shutdown then m else run_rounds p rs (tick p r.load r.accepted m)

-- `run_loop`: `first` is whether the sink takes the floor that it is told at the start.
unfoldable pub run_loop : ScalingPolicy → Bool → List Round → Monitor → Monitor
run_loop p first rs m = run_rounds p rs (set_shares p.min_cpu_shares first m)

-- `shares.clamp(1, 10_000)` of `CgroupShareSink` and `JobObjectCpuRateSink`.
unfoldable pub clamp_shares : ℕ → ℕ
clamp_shares shares = if ltb shares 1 then 1 else if ltb 10000 shares then 10000 else shares
