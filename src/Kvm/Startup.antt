-- ===== src/Kvm/Startup.antt =====
-- The order in which `run_vm` of hyperpod/src/vmm/linux/vm.rs asks the hypervisor, and the monitor's flag.
use hyper_pod.Base.{
  ℕ, ◌≡◌, refl, sym, ap, subst, ◌∙◌, true, false, if◌then◌else◌, List, [], ◌∷◌, ◌++◌, Outcome, ok,
  err, panic, Error, kvm_unavailable, kvm_create_vm, kvm_set_tss_addr, kvm_set_region,
  kvm_create_vcpu, kvm_cpuid, kvm_set_cpuid, kvm_get_sregs, kvm_set_sregs, kvm_get_regs,
  kvm_set_regs,
}
use mathlib.Core.List.{append-nil}
use hyper_pod.Vm.Ending.{Ending, still_running, returned, Run, lift, pass_on, ◌>>=◌}
use hyper_pod.Vm.{prepare}
use hyper_pod.Config.{HyperPodFile}
use hyper_pod.Elf.{LoadedKernel}
use hyper_pod.Ram.{GuestRam, new}
use hyper_pod.Storage.{open_image}
use hyper_pod.Kvm.{configure_long_mode}
use hyper_pod.Probes.Linux.{monitor_needs}
use hyper_pod.Kvm.Loop.{Machine, run_loop}
use hyper_pod.Kvm.Run.{
  Call, open_kvm, create_vm, create_vcpu, get_supported_cpuid, set_cpuid2, get_sregs, get_regs,
  set_tss_address, set_user_memory_region, set_sregs, set_regs, Process, System, call,
  check_version, set_long_mode, start_scaling, stop_monitor, run_guest, run_vcpu, run_memory,
  run_vm,
}

-- The calls that lead to the guest, for a memory of some size and a kernel with some entry point.
unfoldable pub startup : ℕ → ℕ → List Call
startup size entry =
    open_kvm
    ∷ create_vm
    ∷ set_tss_address 0xfffbd000
    ∷ set_user_memory_region size
    ∷ create_vcpu
    ∷ get_supported_cpuid
    ∷ set_cpuid2
    ∷ get_sregs
    ∷ set_sregs (configure_long_mode entry)
    ∷ get_regs
    ∷ set_regs (configure_long_mode entry)
    ∷ []

unfoldable pub entry_of : Outcome LoadedKernel → ℕ
entry_of (ok kernel) = kernel.entry
entry_of (err e) = 0
entry_of panic = 0

-- The calls for the memory that can be had and the kernel that is loaded into it.
unfoldable pub startup_in : System → HyperPodFile → Outcome GuestRam → List Call
startup_in sys cfg (ok ram) =
    startup ram.size
      (entry_of (prepare cfg.cmdline cfg.limits.min_ram (sys.kernel cfg.kernel_path) ram).0)
startup_in sys cfg (err e) = startup 0 0
startup_in sys cfg panic = startup 0 0

-- Nothing but the calls `made` has been done.
abbrev pub IsAt : List Call → Process → Type 0
IsAt made q = (q.calls ≡ made) × ((q.monitoring ≡ false) × (q.shutdown ≡ false))

-- All calls are made before the guest runs, and in success; else a first part of them. The monitor that
-- runs is told to stop once the code returns, and not earlier.
unfoldable pub IsOrderly : List Call → Ending (Unit {0}) × Process → Type 0
IsOrderly full (still_running, q) =
    (q.calls ≡ full) × ((q.monitoring ≡ true) × (q.shutdown ≡ false))
IsOrderly full (returned (ok x), q) =
    (q.calls ≡ full) × ((q.monitoring ≡ true) × (q.shutdown ≡ true))
IsOrderly full (returned (err e), q) =
    (rest : List Call) × (q.calls ++ rest ≡ full) × (q.shutdown ≡ q.monitoring)
IsOrderly full (returned panic, q) =
    (rest : List Call) × (q.calls ++ rest ≡ full) × (q.shutdown ≡ q.monitoring)

pass_on-pass_on :
    {A B C : Type 0} (r : Ending A × Process) (f : A → Run Process B) (g : B → Run Process C)
    → pass_on (pass_on r f) g ≡ pass_on r (λ x. f x >>= g)
pass_on-pass_on (still_running, p) f g = refl
pass_on-pass_on (returned (ok x), p) f g = refl
pass_on-pass_on (returned (err e), p) f g = refl
pass_on-pass_on (returned panic, p) f g = refl

-- A part of the code, and what follows it.
within :
    {A B : Type 0} (full : List Call) (r : Ending A × Process) (f : A → Run Process B)
    (g : B → Run Process (Unit {0}))
    → IsOrderly full (pass_on r (λ x. f x >>= g))
    → IsOrderly full (pass_on (pass_on r f) g)
within full r f g h = subst (λ o. IsOrderly full o) (sym (pass_on-pass_on r f g)) h

lift_then :
    {A : Type 0} {full : List Call} (made rest : List Call) (r : Outcome A)
    (k : A → Run Process (Unit {0})) (p : Process)
    → made ++ rest ≡ full
    → IsAt made p
    → ((x : A) → r ≡ ok x → IsOrderly full (k x p))
    → IsOrderly full ((lift r >>= k) p)
unfolding IsOrderly
lift_then made rest (ok x) k p whole at after = after x refl
lift_then made rest (err e) k p whole at after =
    (rest, ap (λ l. l ++ rest) at.0 ∙ whole, at.1.1 ∙ sym at.1.0)
lift_then made rest panic k p whole at after =
    (rest, ap (λ l. l ++ rest) at.0 ∙ whole, at.1.1 ∙ sym at.1.0)

stop_monitor-IsOrderly :
    (full : List Call) (p : Process) (r : Ending (Unit {0}) × Machine)
    → (p.calls ≡ full) × ((p.monitoring ≡ true) × (p.shutdown ≡ false))
    → IsOrderly full (stop_monitor p r)
unfolding stop_monitor IsOrderly
stop_monitor-IsOrderly full p (still_running, m) at = at
stop_monitor-IsOrderly full p (returned (ok x), m) at = (at.0, (at.1.0, refl))
stop_monitor-IsOrderly full p (returned (err e), m) at = ([], append-nil p.calls ∙ at.0, sym at.1.0)
stop_monitor-IsOrderly full p (returned panic, m) at = ([], append-nil p.calls ∙ at.0, sym at.1.0)

module _ (sys : System) where
  call_then :
      {full : List Call} (made rest : List Call) (name : Error) (c : Call)
      (k : Unit {0} → Run Process (Unit {0})) (p : Process)
      → (made ++ c ∷ []) ++ rest ≡ full
      → IsAt made p
      → ((q : Process) → IsAt (made ++ c ∷ []) q → IsOrderly full (k tt q))
      → IsOrderly full ((call sys name c >>= k) p)
  unfolding call
  call_then made rest name c k p whole at after =
      lift_then (made ++ c ∷ []) rest (if sys.succeeds p.calls c then ok tt else err name) k
        (record p { calls = p.calls ++ c ∷ [] }) whole (ap (λ l. l ++ c ∷ []) at.0, at.1)
        (λ x _. after _ (ap (λ l. l ++ c ∷ []) at.0, at.1))

  -- A call within a part of the code.
  call_within :
      {full : List Call} (made rest : List Call) (name : Error) (c : Call)
      (k g : Unit {0} → Run Process (Unit {0})) (p : Process)
      → (made ++ c ∷ []) ++ rest ≡ full
      → IsAt made p
      → ((q : Process) → IsAt (made ++ c ∷ []) q → IsOrderly full ((k tt >>= g) q))
      → IsOrderly full (((call sys name c >>= k) >>= g) p)
  unfolding call
  call_within {full = full} made rest name c k g p whole at after =
      within full (call sys name c p) k g
        (call_then made rest name c (λ x. k x >>= g) p whole at after)

  run_guest-IsOrderly :
      (full : List Call) (p : Process)
      → (p.calls ≡ full) × ((p.monitoring ≡ true) × (p.shutdown ≡ false))
      → IsOrderly full (run_guest sys p)
  unfolding run_guest
  run_guest-IsOrderly full p at = stop_monitor-IsOrderly full p (run_loop sys.exits p.machine) at

  run_vcpu-IsOrderly :
      (size entry : ℕ) (p : Process)
      → IsAt
          (open_kvm ∷ create_vm ∷ set_tss_address 0xfffbd000 ∷ set_user_memory_region size ∷ [])
          p
      → IsOrderly (startup size entry) (run_vcpu sys entry p)
  unfolding run_vcpu startup set_long_mode start_scaling
  run_vcpu-IsOrderly size entry p at =
      call_then _ _ kvm_create_vcpu create_vcpu _ p refl at (λ p1 at1.
        call_then _ _ kvm_cpuid get_supported_cpuid _ p1 refl at1 (λ p2 at2.
          call_then _ _ kvm_set_cpuid set_cpuid2 _ p2 refl at2 (λ p3 at3.
            call_within _ _ kvm_get_sregs get_sregs _ _ p3 refl at3 (λ p4 at4.
              call_within _ _ kvm_set_sregs (set_sregs (configure_long_mode entry)) _ _ p4 refl at4
                (λ p5 at5. call_within _ _ kvm_get_regs get_regs _ _ p5 refl at5 (λ p6 at6.
                  call_then _ _ kvm_set_regs (set_regs (configure_long_mode entry)) _ p6 refl at6
                    (λ p7 at7.
                      within (startup size entry)
                        (lift (monitor_needs sys.cpuinfo sys.share_files sys.cgroup sys.has_pool)
                          p7)
                        _ _
                        (lift_then _ []
                          (monitor_needs sys.cpuinfo sys.share_files sys.cgroup sys.has_pool) _ p7
                          refl at7
                          (λ x h.
                            run_guest-IsOrderly (startup size entry)
                              (record p7 { monitoring = true }) (at7.0, (refl, at7.1.1)))))))))))

  run_memory-IsOrderly :
      (cfg : HyperPodFile) (ram : GuestRam) (p : Process)
      → IsAt [] p
      → IsOrderly (startup_in sys cfg (ok ram)) (run_memory sys cfg ram p)
  unfolding run_memory startup_in startup entry_of
  run_memory-IsOrderly cfg ram p at = call_then _ _ kvm_unavailable open_kvm _ p refl at (λ p1 at1.
      lift_then _ _ (check_version sys) _ p1 refl at1 (λ x h.
        call_then _ _ kvm_create_vm create_vm _ p1 refl at1 (λ p2 at2.
          call_then _ _ kvm_set_tss_addr (set_tss_address 0xfffbd000) _ p2 refl at2 (λ p3 at3.
            call_then _ _ kvm_set_region (set_user_memory_region ram.size) _ p3 refl at3 (λ p4 at4.
              lift_then _ _
                (prepare cfg.cmdline cfg.limits.min_ram (sys.kernel cfg.kernel_path) ram).0 _ p4
                refl at4
                (λ kernel e.
                  subst
                    (λ r. IsOrderly (startup ram.size (entry_of r)) (run_vcpu sys kernel.entry p4))
                    (sym e) (run_vcpu-IsOrderly ram.size kernel.entry p4 at4)))))))

  -- From a process that has done nothing, and whatever the hypervisor answers to each call, whatever the
  -- exits of the processor, the configuration and the files are: if the guest still runs, all the calls
  -- have been made, in this order and once each (the interface, the machine, the addresses, the memory
  -- with the size that was allocated, the processor with its features and the registers for the entry
  -- point of the kernel that was loaded), and the monitor runs. If the code has returned with success,
  -- they have been made too, and the monitor has been told to stop. If it has returned with an error,
  -- a first part of them has been made, and the monitor has been told to stop if it was started.
  pub run_vm-IsOrderly :
      (cfg : HyperPodFile) (p : Process)
      → p.calls ≡ []
      → p.monitoring ≡ false
      → p.shutdown ≡ false
      → IsOrderly (startup_in sys cfg (new sys.alloc cfg.limits.min_ram)) (run_vm sys cfg p)
  unfolding run_vm
  run_vm-IsOrderly cfg p calls monitoring shutdown =
      lift_then [] _ (open_image (sys.rootfs cfg.rootfs_path)) _ p refl
        (calls, (monitoring, shutdown))
        (λ backend e.
          lift_then [] _ (new sys.alloc cfg.limits.min_ram) _ p refl (calls, (monitoring, shutdown))
            (λ ram allocated.
              subst (λ r. IsOrderly (startup_in sys cfg r) (run_memory sys cfg ram p))
                (sym allocated) (run_memory-IsOrderly cfg ram p (calls, (monitoring, shutdown)))))
