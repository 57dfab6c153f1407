-- ===== src/Probes/Tests.antt =====
-- Readings of the system's times, a process's cgroup file, and shares.
use hyper_pod.Base.{
  ℕ, ◌≡◌, refl, true, false, All, Option, none, some, List, [], ◌∷◌, ◌++◌, ◌*◌, ◌==◌, if◌then◌else◌,
  arith, ok, err, system_times_failed,
}
use hyper_pod.Scaling.Float.{F64, zero64, le64, lt64, clamp01}
use hyper_pod.Config.{
  HyperPodFile, is_whitespace, is_blank, check_limits, check_gpu, ensure_file_exists, validate,
  load,
}
use hyper_pod.Scaling
use hyper_pod.Scaling.{ScalingPolicy, from_limits}
use hyper_pod.Scaling.Threads.{
  Threads, Steps, none_yet, one_more, monitor_moves, floors, checking, spawned, tell,
}
use hyper_pod.Probes.Told.{PassesOn, Steps-PassesOn}
use hyper_pod.Probes.{Times, SystemTimes}
use hyper_pod.Probes.Text.{
  newline, slash, lines_from, end_line, starts_with, strip_prefix, strip_fuel, trim_start, trim_end,
  trim, join,
}
use hyper_pod.Probes.Linux.{
  Files, cgroup_root, unified, cpu_weight, new_sink, weight_path, find, discover_cgroup_share_sink,
}
use hyper_pod.Probes.Elapsed.{AreTimes, total, reports, due, load_between, reports-due}
use hyper_pod.Probes.Discovery.{discover_cgroup_share_sink-named}

abbrev at : ℕ → ℕ → Times
at idle kernel = record {
  idle = record { low = idle; high = 0 };
  kernel = record { low = kernel; high = 1 };
  user = record { low = 10; high = 0 };
}

-- One half, and three quarters.
abbrev busy_part : ℕ → ℕ → F64
busy_part idle all = if all == 2 * idle then 0x3fe0000000000000 else 0x3fe8000000000000

abbrev start : SystemTimes
start = record { last = (3, 0x1_0000_001a) }

abbrev readings : List (Option Times)
readings = some (at 5 20) ∷ none ∷ some (at 9 36) ∷ some (at 9 36) ∷ []

reports-due_example :
    reports busy_part readings start
    ≡ ok 0x3fe0000000000000 ∷ err system_times_failed ∷ ok 0x3fe8000000000000 ∷ ok zero64 ∷ []
unfolding AreTimes due load_between total clamp01 lt64 le64
reports-due_example = reports-due busy_part readings start (omega arith)

-- "0::/pod" and a newline, and "/sys/fs/cgroup/pod/cpu.weight"
abbrev cgroup : List ℕ
cgroup = 48 ∷ 58 ∷ 58 ∷ 47 ∷ 112 ∷ 111 ∷ 100 ∷ 10 ∷ []

abbrev share_file : List ℕ
share_file =
    cgroup_root
    ++ 47 ∷ 112 ∷ 111 ∷ 100 ∷ 47 ∷ 99 ∷ 112 ∷ 117 ∷ 46 ∷ 119 ∷ 101 ∷ 105 ∷ 103 ∷ 104 ∷ 116 ∷ []

abbrev files : Files
files = record { is_file = λ _. true; is_writable = λ _. true }

discovered : discover_cgroup_share_sink files (some cgroup) ≡ ok share_file
unfolding discover_cgroup_share_sink new_sink weight_path find lines_from end_line starts_with
    strip_prefix strip_fuel trim_start trim_end trim join is_whitespace
discovered = refl

discover_cgroup_share_sink-named_example :
    discover_cgroup_share_sink files
      (some (unified ++ slash ∷ 112 ∷ (111 ∷ 100 ∷ []) ++ newline ∷ []))
    ≡ new_sink files ((cgroup_root ++ slash ∷ 112 ∷ 111 ∷ 100 ∷ []) ++ slash ∷ cpu_weight)
unfolding is_whitespace
discover_cgroup_share_sink-named_example =
    discover_cgroup_share_sink-named files 112 (111 ∷ 100 ∷ []) (refl, (refl, (refl, tt)))
      (omega arith) refl

abbrev file : HyperPodFile
file = record {
  rootfs_path = b'r' ∷ [];
  kernel_path = b'k' ∷ [];
  cmdline = b'q' ∷ [];
  limits = record { min_ram = 64; max_ram = 128; min_cpu_shares = 100; max_cpu_shares = 400 };
  gpu = none;
}

loaded : load (λ _. some true) (λ path. some path) (λ _. some file) (b'h' ∷ []) ≡ ok file
unfolding load validate ensure_file_exists check_limits check_gpu is_blank is_whitespace
loaded = refl

abbrev policy : ScalingPolicy
policy = from_limits file.limits

abbrev floored : Threads
floored = record {
  shared =
      tell policy.min_cpu_shares true (record { monitor = Scaling.new policy; shutdown = false });
  pc = checking;
}

floored-Steps : Steps policy (spawned policy) 1 floored
floored-Steps = one_more none_yet (monitor_moves (floors true))

Steps-PassesOn_example : All (PassesOn file.limits) floored.shared.monitor.writes
Steps-PassesOn_example =
    Steps-PassesOn (λ _. some true) (λ path. some path) (λ _. some file) (b'h' ∷ []) file loaded
      floored-Steps
