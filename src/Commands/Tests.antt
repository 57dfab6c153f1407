-- ===== src/Commands/Tests.antt =====
-- A HyperPod file that is admitted, and a machine that counts how often it is run.
use hyper_pod.Base.{◌≡◌, ◌≢◌, ◌⊎◌, refl, Outcome, ℕ, suc, true, none, some, [], ◌∷◌, ok, replicate}
use hyper_pod.Config.{HyperPodFile}
use hyper_pod.Vm.Ending.{returned, Run}
use hyper_pod.Commands.{Files, start, main}
use hyper_pod.Kvm.Run.{run_vm}
use hyper_pod.Kvm.Sample.{sys, idle}
use hyper_pod.Commands.Linux.{IsRunOf, start-IsRunOf}

abbrev file : HyperPodFile
file = record {
  rootfs_path = b'r' ∷ [];
  kernel_path = b'k' ∷ [];
  cmdline = b'q' ∷ [];
  limits = record { min_ram = 64; max_ram = 128; min_cpu_shares = 100; max_cpu_shares = 400 };
  gpu = none;
}

abbrev files : Files
files = record {
  metadata = λ _. some true;
  read_to_string = λ path. some path;
  from_str = λ _. some file;
  image = λ _. record { extension = none; found = some (replicate 1024 7) };
}

abbrev count_run : HyperPodFile → Run ℕ (Unit {0})
count_run cfg n = (returned (ok tt), suc n)

start-IsRunOf_example :
    IsRunOf sys files (b'h' ∷ []) [] (main files (run_vm sys) (start (b'h' ∷ [])) idle)
    ⊎ ((r : Outcome (Unit {0})) × (r ≢ ok tt)
        × (main files (run_vm sys) (start (b'h' ∷ [])) idle ≡ (returned r, idle)))
start-IsRunOf_example = start-IsRunOf sys files (b'h' ∷ []) idle refl refl refl
