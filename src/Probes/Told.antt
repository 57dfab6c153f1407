-- ===== src/Probes/Told.antt =====
-- From the HyperPod file to the operating system: hyperpod/src/config.rs, the monitor of
-- hyperpod/src/scaling/mod.rs, and the two sinks of hyperpod/src/scaling/probes.rs.
use hyper_pod.Base.{
  ℕ, ◌≤◌, ◌%◌, ◌^◌, ◌≡◌, ◌∙◌, ap, Bool, Option, List, [], ◌∷◌, All, arith, ok, min_of, max_of,
}
use hyper_pod.Config.{Limits, HyperPodFile, load}
use hyper_pod.Config.Admission.{LimitsAreValid, load_iff}
use hyper_pod.Scaling.{from_limits}
use hyper_pod.Scaling.Range.{Within, clamp_shares-Within}
use hyper_pod.Scaling.Threads.{Threads, spawned, Steps}
use hyper_pod.Scaling.Threads.Bounds.{Steps-IsValid}
use hyper_pod.Probes
use hyper_pod.Probes.{CpuRateControl}
use hyper_pod.Probes.Linux.{set_shares}
use hyper_pod.Probes.Decimal.{number_from, number_from-set_shares}

-- A value within the limits that both sinks pass on as it is: the text that is written to the share
-- file reads as that number, and the job's rate is that number.
pub record PassesOn (l : Limits) (told : ℕ × Bool) : Type 0 where
  pub above : l.min_cpu_shares ≤ told.0
  pub below : told.0 ≤ l.max_cpu_shares
  pub share_file : number_from 0 (set_shares told.1 told.0).1 ≡ told.0
  pub job : (Probes.set_shares told.1 told.0).1.cpu_rate ≡ told.0

nearest :
    (l : Limits) (n : ℕ)
    → LimitsAreValid l
    → Within (from_limits l) n
    → min_of (max_of n 1) 10000 ≡ n
unfolding from_limits
nearest l n v h = ground arith

rate_fits : (l : Limits) (n : ℕ) → LimitsAreValid l → Within (from_limits l) n → n % 2 ^ 32 ≡ n
unfolding from_limits
rate_fits l n v h = ground arith

Within-PassesOn :
    (l : Limits) (told : ℕ × Bool)
    → LimitsAreValid l
    → Within (from_limits l) told.0
    → PassesOn l told
unfolding from_limits Probes.set_shares
Within-PassesOn l told v h = record {
  above = h.0;
  below = h.1;
  share_file = number_from-set_shares told.1 told.0 ∙ nearest l told.0 v h;
  job = ap (λ (n : ℕ). n % 2 ^ 32) (clamp_shares-Within l told.0 v h) ∙ rate_fits l told.0 v h;
}

All-PassesOn :
    (l : Limits) (ws : List (ℕ × Bool))
    → LimitsAreValid l
    → All (λ w. Within (from_limits l) w.0) ws
    → All (PassesOn l) ws
All-PassesOn l [] v h = tt
All-PassesOn l (w ∷ ws) v (h, hs) = (Within-PassesOn l w v h, All-PassesOn l ws v hs)

-- Let a HyperPod file be loaded, and the monitor run with its limits. Then at every moment, in every
-- order of the steps of the two threads and whatever the probe measures and the sink answers, each
-- value that the sink was told is within the limits of the file, and both sinks pass it on as it is:
-- the decimal text for the share file on Linux reads as that number, and the rate for the job on
-- Windows is that number.
pub Steps-PassesOn :
    (metadata : List ℕ → Option Bool) (read_to_string : List ℕ → Option (List ℕ))
    (from_str : List ℕ → Option HyperPodFile) (path : List ℕ) (cfg : HyperPodFile) {n : ℕ}
    {t : Threads}
    → load metadata read_to_string from_str path ≡ ok cfg
    → Steps (from_limits cfg.limits) (spawned (from_limits cfg.limits)) n t
    → All (PassesOn cfg.limits) t.shared.monitor.writes
unfolding from_limits
Steps-PassesOn metadata read_to_string from_str path cfg {t = t} loaded steps =
    let (text, read, parsed, admissible) =
      (load_iff metadata read_to_string from_str path cfg).0 loaded in
    let valid =
      Steps-IsValid (from_limits cfg.limits) admissible.limits_valid.shares_ordered steps in
    All-PassesOn cfg.limits t.shared.monitor.writes admissible.limits_valid valid.writes_within
