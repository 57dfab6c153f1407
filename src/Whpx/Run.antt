-- ===== src/Whpx/Run.antt =====
-- `run_vm` of hyperpod/src/vmm/windows/vm.rs, with what its values release when it ends.
use hyper_pod.Base.{ℕ, Bool, Option, List, ok}
use hyper_pod.Vm.Ending.{Ending, still_running, returned, Run, lift, ◌>>=◌, ◌>>◌}
use hyper_pod.Config.{HyperPodFile}
use hyper_pod.Ram.{GuestRam, new}
use hyper_pod.Storage.{ImagePath, open_image}
use hyper_pod.Probes.{Times, monitor_needs}
use hyper_pod.Vm.{prepare}
use hyper_pod.Whpx.{long_mode_registers}
use hyper_pod.Whpx.Partition.{
  allocate, free, setup, start_monitor, stop_monitor, set_property, processor_count,
  x_apic_emulation, map_memory, create_vcpu, set_registers, Platform, Host, record_event, call,
  create_partition, drop_partition,
}
use hyper_pod.Whpx.Loop.{run_loop}

-- When `m` ends, in any way, `release` follows.
abbrev pub finally_do {ℓ} :
    {A : Type ℓ} → (Platform → Platform) → Ending A × Platform → Ending A × Platform
finally_do release (still_running, p) = (still_running, p)
finally_do release (returned r, p) = (returned r, release p)

abbrev pub releasing : (Platform → Platform) → Run Platform (Unit {0}) → Run Platform (Unit {0})
releasing release m p = finally_do release (m p)

-- The operating system: the allocation of memory, what the probe and the sink of the monitor find,
-- whether a thread pool can be had, and what a path leads to: as a root image, and as a kernel.
pub record System : Type 0 where
  pub alloc : ℕ → Option (ℕ → ℕ)
  pub times : Option Times
  pub job : Option ℕ
  pub joins : Bool
  pub has_pool : Bool
  pub rootfs : List ℕ → ImagePath
  pub kernel : List ℕ → Option (List ℕ)

module _ (host : Host) (sys : System) where
  -- From the creation of the processor on.
  unfoldable pub run_guest : ℕ → ℕ → Run Platform (Unit {0})
  run_guest rounds entry = do
    call host (create_vcpu 0)
    call host (set_registers (long_mode_registers entry))
    lift (monitor_needs sys.times sys.job sys.joins sys.has_pool)
    λ p. (returned (ok tt), record_event start_monitor p)
    releasing (record_event stop_monitor) (run_loop host rounds)

  -- With the partition.
  unfoldable pub run_partition : ℕ → HyperPodFile → GuestRam → Run Platform (Unit {0})
  run_partition rounds cfg ram = do
    call host (set_property (processor_count 1))
    call host (set_property x_apic_emulation)
    call host setup
    call host (map_memory ram.size)
    kernel ← lift (prepare cfg.cmdline cfg.limits.min_ram (sys.kernel cfg.kernel_path) ram).0
    run_guest rounds kernel.entry

  -- With the memory.
  unfoldable pub run_memory : ℕ → HyperPodFile → GuestRam → Run Platform (Unit {0})
  run_memory rounds cfg ram = do
    create_partition host
    releasing (drop_partition host) (run_partition rounds cfg ram)

  -- The memory is allocated, and freed at the end.
  unfoldable pub run_allocated : ℕ → HyperPodFile → GuestRam → Run Platform (Unit {0})
  run_allocated rounds cfg ram p =
      finally_do (record_event free) (run_memory rounds cfg ram (record_event allocate p))

  unfoldable pub run_vm : ℕ → HyperPodFile → Run Platform (Unit {0})
  run_vm rounds cfg = do
    _ ← lift (open_image (sys.rootfs cfg.rootfs_path))
    ram ← lift (new sys.alloc cfg.limits.min_ram)
    run_allocated rounds cfg ram
