-- ===== src/Probes/Linux.antt =====
-- The probe of the load average and the share sink on Linux, `linux_impl` of
-- hyperpod/src/scaling/probes.rs. What the files hold, the reading of a double, and the division of
-- doubles are parameters.
use hyper_pod.Base.{
  ℕ, zero, suc, ◌+◌, ◌/◌, ◌%◌, Bool, ltb, if◌then◌else◌, Option, none, some, List, [], ◌∷◌, Outcome,
  ok, ◌>>=◌, ◌>>◌, ensure, or_err, length, max_of, proc_unreadable, loadavg_empty, loadavg_unparsed,
  no_cgroup_line, share_file_missing, share_file_not_writable, share_write_failed,
  thread_pool_failed,
}
use hyper_pod.Scaling.{clamp_shares}
use hyper_pod.Scaling.Float.{F64, clamp01}
use hyper_pod.Probes.Text.{slash, lines, starts_with, strip_all, trim_start, trim, first_word, join}
use hyper_pod.Base.{◌==◌}

-- "processor", "0::", "/sys/fs/cgroup" and "cpu.weight"
abbrev pub processor : List ℕ
processor = 112 ∷ 114 ∷ 111 ∷ 99 ∷ 101 ∷ 115 ∷ 115 ∷ 111 ∷ 114 ∷ []

abbrev pub unified : List ℕ
unified = 48 ∷ 58 ∷ 58 ∷ []

abbrev pub cgroup_root : List ℕ
cgroup_root = 47 ∷ 115 ∷ 121 ∷ 115 ∷ 47 ∷ 102 ∷ 115 ∷ 47 ∷ 99 ∷ 103 ∷ 114 ∷ 111 ∷ 117 ∷ 112 ∷ []

abbrev pub cpu_weight : List ℕ
cpu_weight = 99 ∷ 112 ∷ 117 ∷ 46 ∷ 119 ∷ 101 ∷ 105 ∷ 103 ∷ 104 ∷ 116 ∷ []

unfoldable pub filter : (List ℕ → Bool) → List (List ℕ) → List (List ℕ)
filter test [] = []
filter test (l ∷ ls) = let rest = filter test ls in if test l then l ∷ rest else rest

unfoldable pub find : (List ℕ → Bool) → List (List ℕ) → Option (List ℕ)
find test [] = none
find test (l ∷ ls) = let rest = find test ls in if test l then some l else rest

-- `ProcLoadProbe::new`: the number of processors.
unfoldable pub new_probe : Option (List ℕ) → Outcome ℕ
new_probe cpuinfo = do
  text ← or_err cpuinfo proc_unreadable
  ok (max_of (length (filter (starts_with processor) (lines text))) 1)

-- `load_normalized` of `ProcLoadProbe`
unfoldable pub load_normalized :
    (List ℕ → Option F64) → (F64 → ℕ → F64) → Option (List ℕ) → ℕ → Outcome F64
load_normalized parse divide loadavg num_cpus = do
  s ← or_err loadavg proc_unreadable
  first ← or_err (first_word s) loadavg_empty
  load1 ← or_err (parse first) loadavg_unparsed
  ok (clamp01 (divide load1 num_cpus))

-- The path that `discover_cgroup_share_sink` makes of the line it finds.
unfoldable pub weight_path : List ℕ → List ℕ
weight_path line =
    let rel = trim_start (λ c. c == slash) (trim (strip_all unified line)) in
    join (join cgroup_root rel) cpu_weight

-- The file system: whether a path is a file, and whether it can be opened for writing.
pub record Files : Type 0 where
  pub is_file : List ℕ → Bool
  pub is_writable : List ℕ → Bool

-- `CgroupShareSink::new`
unfoldable pub new_sink : Files → List ℕ → Outcome (List ℕ)
new_sink files path = do
  ensure (files.is_file path) share_file_missing
  ensure (files.is_writable path) share_file_not_writable
  ok path

unfoldable pub discover_cgroup_share_sink : Files → Option (List ℕ) → Outcome (List ℕ)
discover_cgroup_share_sink files cgroup = do
  raw ← or_err cgroup proc_unreadable
  line ← or_err (find (starts_with unified) (lines raw)) no_cgroup_line
  new_sink files (weight_path line)

-- What `start_scaling` of hyperpod/src/vmm/linux/vm.rs needs before it starts the monitor: the probe, the
-- sink, and a thread pool.
unfoldable pub monitor_needs : Option (List ℕ) → Files → Option (List ℕ) → Bool → Outcome (Unit {0})
monitor_needs cpuinfo files cgroup has_pool = do
  load ← new_probe cpuinfo
  sink ← discover_cgroup_share_sink files cgroup
  ensure has_pool thread_pool_failed

-- `to_string` of a u64, which has at most 20 digits.
unfoldable pub decimal_fuel : ℕ → ℕ → List ℕ → List ℕ
decimal_fuel zero n after = after
decimal_fuel (suc fuel) n after =
    let longer = decimal_fuel fuel (n / 10) ((48 + n % 10) ∷ after) in
    if ltb n 10 then (48 + n) ∷ after else longer

abbrev pub decimal : ℕ → List ℕ
decimal n = decimal_fuel 20 n []

-- `set_shares` of `CgroupShareSink`: the text that is written to the file, and whether it can be.
unfoldable pub set_shares : Bool → ℕ → Outcome (Unit {0}) × List ℕ
set_shares accepted shares = (ensure accepted share_write_failed, decimal (clamp_shares shares))
