-- ===== src/Probes.antt =====
-- The probe of the system's times and the share sink on Windows, hyperpod/src/scaling/probes.rs; below it
-- are those on Linux.
pub mod Text
pub mod Trim
pub mod Linux
pub mod Elapsed
pub mod Loads
pub mod Cgroup
pub mod Discovery
pub mod Decimal
pub mod Told
mod Tests
use hyper_pod.Base.{
  ℕ, ◌+◌, ◌-◌, ◌%◌, Bool, true, false, ◌==◌, if◌then◌else◌, Option, none, some, List, [], ◌∷◌,
  Outcome, ok, err, panic, ◌^◌, ◌>>=◌, bit_or, ◌<<<◌, add64, system_times_failed, create_job_failed,
  assign_job_failed, set_rate_failed, thread_pool_failed, ensure,
}
use hyper_pod.Scaling.Float.{F64, zero64, clamp01}
use hyper_pod.Scaling.{clamp_shares}

-- `FILETIME`
pub record FileTime : Type 0 where
  pub low : ℕ
  pub high : ℕ

unfoldable pub ft_to_u64 : FileTime → ℕ
ft_to_u64 ft = bit_or (ft.high <<< 32) ft.low

-- What `GetSystemTimes` fills in.
pub record Times : Type 0 where
  pub idle : FileTime
  pub kernel : FileTime
  pub user : FileTime

-- The idle time and the total time; `none` is a call that fails.
unfoldable pub snapshot : Option Times → Outcome (ℕ × ℕ)
snapshot none = err system_times_failed
snapshot (some t) = ok (ft_to_u64 t.idle, add64 (ft_to_u64 t.kernel) (ft_to_u64 t.user))

-- `GetSystemTimesProbe`
pub record SystemTimes : Type 0 where
  pub last : ℕ × ℕ

unfoldable pub new_probe : Option Times → Outcome SystemTimes
new_probe times = do s ← snapshot times; ok (record { last = s })

-- `didle` and `dtotal`
unfoldable pub since : ℕ × ℕ → ℕ × ℕ → ℕ × ℕ
since last now = (now.0 - last.0, now.1 - last.1)

-- `fraction idle total` is the double nearest to one less the quotient of the two.
unfoldable pub load_of : (ℕ → ℕ → F64) → ℕ × ℕ → F64
load_of fraction d = if d.1 == 0 then zero64 else clamp01 (fraction d.0 d.1)

-- `load_normalized` of `GetSystemTimesProbe`, with the snapshot that it takes.
unfoldable pub finish : (ℕ → ℕ → F64) → SystemTimes → Outcome (ℕ × ℕ) → Outcome F64 × SystemTimes
finish fraction p (ok now) = (ok (load_of fraction (since p.last now)), record { last = now })
finish fraction p (err e) = (err e, p)
finish fraction p panic = (panic, p)

unfoldable pub load_normalized :
    (ℕ → ℕ → F64) → Option Times → SystemTimes → Outcome F64 × SystemTimes
load_normalized fraction times p = finish fraction p (snapshot times)

-- The handles of the process that are held.
unfoldable pub close_handle : ℕ → List ℕ → List ℕ
close_handle h [] = []
close_handle h (x ∷ xs) = if x == h then xs else x ∷ close_handle h xs

-- `JobObjectCpuRateSink::new`: the job that is created, if one is, and whether the process may join it.
unfoldable pub new_sink : Option ℕ → Bool → List ℕ → Outcome ℕ × List ℕ
new_sink none joins held = (err create_job_failed, held)
new_sink (some job) true held = (ok job, job ∷ held)
new_sink (some job) false held = (err assign_job_failed, close_handle job (job ∷ held))

-- `Drop for JobObjectCpuRateSink`; 0 is the null handle.
unfoldable pub drop_sink : ℕ → List ℕ → List ℕ
drop_sink job held = if job == 0 then held else close_handle job held

-- What `start_scaling` of hyperpod/src/vmm/windows/vm.rs needs before it starts the monitor: the probe, the
-- sink, and a thread pool.
unfoldable pub monitor_needs : Option Times → Option ℕ → Bool → Bool → Outcome (Unit {0})
monitor_needs times job joins has_pool = do
  load ← new_probe times
  sink ← (new_sink job joins []).0
  ensure has_pool thread_pool_failed

abbrev pub cpu_rate_control_enable : ℕ
cpu_rate_control_enable = 0x1

abbrev pub cpu_rate_control_hard_cap : ℕ
cpu_rate_control_hard_cap = 0x4

-- `JOBOBJECT_CPU_RATE_CONTROL_INFORMATION`
pub record CpuRateControl : Type 0 where
  pub control_flags : ℕ
  pub cpu_rate : ℕ

-- `set_shares` of `JobObjectCpuRateSink`: what the job gets, and whether the system takes it.
unfoldable pub set_shares : Bool → ℕ → Outcome (Unit {0}) × CpuRateControl
set_shares accepted shares = (
  if accepted then ok tt else err set_rate_failed,
  record {
    control_flags = bit_or cpu_rate_control_enable cpu_rate_control_hard_cap;
    cpu_rate = clamp_shares shares % 2 ^ 32;
  },
)
