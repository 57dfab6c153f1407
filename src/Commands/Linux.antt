-- ===== src/Commands/Linux.antt =====
-- `hyperpod start` on Linux, from hyperpod/src/commands/start.rs to the end of the virtual machine.
use hyper_pod.Base.{ℕ, ◌≡◌, ◌≢◌, ◌⊎◌, inl, inr, sym, subst, false, List, [], Outcome, ok}
use hyper_pod.Config.{HyperPodFile, load}
use hyper_pod.Config.Admission.{IsAdmissible}
use hyper_pod.Ram.{new}
use hyper_pod.Vm.Ending.{Ending, returned}
use hyper_pod.Kvm.Run.{Process, System, run_vm}
use hyper_pod.Kvm.Startup.{startup_in, IsOrderly, run_vm-IsOrderly}
use hyper_pod.Kvm.Prints.{Prints, run_vm-Prints}
use hyper_pod.Commands.{start, Files, main}
use hyper_pod.Commands.Start.{main-IsGuarded}

-- The machine of an admissible file, with its calls in order, the monitor told to stop, and the guest's
-- output.
abbrev pub IsRunOf : System → Files → List ℕ → List ℕ → Ending (Unit {0}) × Process → Type 0
IsRunOf sys files path before o =
    (cfg : HyperPodFile) × (load files.metadata files.read_to_string files.from_str path ≡ ok cfg)
    × IsAdmissible files.metadata cfg
    × IsOrderly (startup_in sys cfg (new sys.alloc cfg.limits.min_ram)) o
    × Prints sys before o

-- From a process that has done nothing, and whatever the files, the hypervisor's answers and the
-- guest's exits are: either `hyperpod start` on Linux runs the machine of the file that its path leads
-- to, which is admissible, or it ends without success and the process is as it was. In the first case,
-- while the guest runs and after success, all calls of KVM have been made, once and in order (the
-- interface, the machine, the addresses, the memory of the size that was allocated, the processor with
-- its features and the registers for the entry point of the kernel), the serial port has put out what
-- the guest sent and nothing else, and the monitor was started, and told to stop only once the code has
-- returned. After an error or a panic a first part of the calls has been made, the monitor was told to
-- stop if it was started, and the output is that or nothing.
pub start-IsRunOf :
    (sys : System) (files : Files) (path : List ℕ) (p : Process)
    → p.calls ≡ []
    → p.monitoring ≡ false
    → p.shutdown ≡ false
    → IsRunOf sys files path p.machine.serial.out (main files (run_vm sys) (start path) p)
      ⊎ ((r : Outcome (Unit {0})) × (r ≢ ok tt)
          × (main files (run_vm sys) (start path) p ≡ (returned r, p)))
start-IsRunOf sys files path p calls monitoring shutdown =
    elim (main-IsGuarded files (run_vm sys) path p) [
      | inl (cfg, loaded, admissible, same) ↦ inl (
        cfg,
        loaded,
        admissible,
        subst (λ o. IsOrderly (startup_in sys cfg (new sys.alloc cfg.limits.min_ram)) o) (sym same)
            (run_vm-IsOrderly sys cfg p calls monitoring shutdown),
        subst (λ o. Prints sys p.machine.serial.out o) (sym same) (run_vm-Prints sys cfg p),
      )
      | inr failed ↦ inr failed
    ]
