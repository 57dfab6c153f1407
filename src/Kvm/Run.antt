-- ===== src/Kvm/Run.antt =====
-- `run_vm` of hyperpod/src/vmm/linux/vm.rs. What the hypervisor answers is a parameter, and its calls are
-- recorded in their order.
use hyper_pod.Base.{
  ℕ, Bool, true, ◌==◌, if◌then◌else◌, Option, List, [], ◌∷◌, ◌++◌, Outcome, ok, err, Error,
  kvm_unavailable, kvm_api_version, kvm_create_vm, kvm_set_tss_addr, kvm_set_region,
  kvm_create_vcpu, kvm_cpuid, kvm_set_cpuid, kvm_get_sregs, kvm_set_sregs, kvm_get_regs,
  kvm_set_regs,
}
use hyper_pod.Vm.Ending.{Ending, still_running, returned, Run, lift, ◌>>=◌, ◌>>◌}
use hyper_pod.Vm.{prepare}
use hyper_pod.Config.{HyperPodFile}
use hyper_pod.Ram.{GuestRam, new}
use hyper_pod.Storage.{ImagePath, open_image}
use hyper_pod.Kvm.{Registers, configure_long_mode}
use hyper_pod.Probes.Linux.{Files, monitor_needs}
use hyper_pod.Kvm.Loop.{VcpuExit, Machine, run_loop}

-- `set_user_memory_region` has the size of the region, which starts at the guest's address 0. The two
-- setters have the registers that `configure_long_mode` leaves, of which each takes its part.
pub data Call : Type 0 where
  open_kvm create_vm create_vcpu get_supported_cpuid set_cpuid2 get_sregs get_regs : Call
  set_tss_address set_user_memory_region : ℕ → Call
  set_sregs set_regs : Registers → Call

-- `shutdown` is the monitor's flag.
pub record Process : Type 0 where
  pub calls : List Call
  pub machine : Machine
  pub monitoring : Bool
  pub shutdown : Bool

-- The hypervisor and the operating system: which call succeeds after which others, the version of the
-- interface, the exits of the processor, the allocation of memory, what the probe and the sink of the monitor find,
-- whether a thread pool can be had, and what a path leads to: as a root image, and as a kernel.
pub record System : Type 0 where
  pub succeeds : List Call → Call → Bool
  pub api_version : ℕ
  pub exits : List (Option VcpuExit)
  pub alloc : ℕ → Option (ℕ → ℕ)
  pub cpuinfo : Option (List ℕ)
  pub cgroup : Option (List ℕ)
  pub share_files : Files
  pub has_pool : Bool
  pub rootfs : List ℕ → ImagePath
  pub kernel : List ℕ → Option (List ℕ)

-- `KVM_API_VERSION`
abbrev pub kvm_api : ℕ
kvm_api = 12

-- The store of the flag, after the loop.
unfoldable pub stop_monitor : Process → Ending (Unit {0}) × Machine → Ending (Unit {0}) × Process
stop_monitor p (still_running, m) = (still_running, record p { machine = m })
stop_monitor p (returned r, m) = (returned r, record p { machine = m; shutdown = true })

module _ (sys : System) where
  unfoldable pub call : Error → Call → Run Process (Unit {0})
  call name c p = (
    returned (if sys.succeeds p.calls c then ok tt else err name),
    record p { calls = p.calls ++ c ∷ [] },
  )

  unfoldable pub check_version : Outcome (Unit {0})
  check_version = if sys.api_version == kvm_api then ok tt else err kvm_api_version

  -- `configure_long_mode`
  unfoldable pub set_long_mode : ℕ → Run Process (Unit {0})
  set_long_mode entry = do
    call kvm_get_sregs get_sregs
    call kvm_set_sregs (set_sregs (configure_long_mode entry))
    call kvm_get_regs get_regs
    call kvm_set_regs (set_regs (configure_long_mode entry))

  -- `start_scaling`: the monitor's thread is spawned last.
  unfoldable pub start_scaling : Run Process (Unit {0})
  start_scaling = do
    lift (monitor_needs sys.cpuinfo sys.share_files sys.cgroup sys.has_pool)
    λ p. (returned (ok tt), record p { monitoring = true })

  unfoldable pub run_guest : Run Process (Unit {0})
  run_guest p = stop_monitor p (run_loop sys.exits p.machine)

  -- From the creation of the virtual processor on.
  unfoldable pub run_vcpu : ℕ → Run Process (Unit {0})
  run_vcpu entry = do
    call kvm_create_vcpu create_vcpu
    call kvm_cpuid get_supported_cpuid
    call kvm_set_cpuid set_cpuid2
    set_long_mode entry
    start_scaling
    run_guest

  unfoldable pub run_memory : HyperPodFile → GuestRam → Run Process (Unit {0})
  run_memory cfg ram = do
    call kvm_unavailable open_kvm
    lift check_version
    call kvm_create_vm create_vm
    call kvm_set_tss_addr (set_tss_address 0xfffbd000)
    call kvm_set_region (set_user_memory_region ram.size)
    kernel ← lift (prepare cfg.cmdline cfg.limits.min_ram (sys.kernel cfg.kernel_path) ram).0
    run_vcpu kernel.entry

  unfoldable pub run_vm : HyperPodFile → Run Process (Unit {0})
  run_vm cfg = do
    _ ← lift (open_image (sys.rootfs cfg.rootfs_path))
    ram ← lift (new sys.alloc cfg.limits.min_ram)
    run_memory cfg ram
