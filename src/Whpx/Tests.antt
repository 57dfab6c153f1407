-- ===== src/Whpx/Tests.antt =====
-- The guest of Whpx/Sample, in a machine of two MiB.
use hyper_pod.Base.{
  ℕ, ◌^◌, ◌≡◌, ◌⊎◌, ◌↔◌, ◌<◌, inl, refl, true, Option, some, List, ◌==◌, if◌then◌else◌, [], ◌∷◌,
  arith, ok, replicate, from_le_bytes,
}
use hyper_pod.Config.{HyperPodFile}
use hyper_pod.Serial.{read}
use hyper_pod.Vm.Ending.{returned}
use hyper_pod.Whpx.Sample.{host, guest, idle, guest-Exits}
use hyper_pod.Elf.Sample.{file_at}
use hyper_pod.Storage.{ImagePath}
use hyper_pod.Whpx.Loop.{new_rax, run_loop}
use hyper_pod.Probes.{FileTime}
use hyper_pod.Whpx.Run.{System, run_vm}
use hyper_pod.Whpx.Resources.{before, freed, InPhase, Ends}
use hyper_pod.Whpx.Release.{run_vm-Ends}
use hyper_pod.Whpx.Access.{rax_after_in, new_rax_iff}
use hyper_pod.Whpx.Termination.{ends_loop, run_loop-returns}

abbrev instant : FileTime
instant = record { low = 5; high = 0 }

-- The root image is at a path that starts with "r", the kernel at one with "k".
abbrev image_at : List ℕ → ImagePath
image_at [] = record { extension = Option.none; found = Option.none }
image_at (c ∷ cs) = record {
  extension = Option.none;
  found = if c == b'r' then some (replicate 1024 7) else Option.none;
}

abbrev kernel_at : List ℕ → Option (List ℕ)
kernel_at [] = Option.none
kernel_at (c ∷ cs) = if c == b'k' then some (file_at (0 ∷ 0 ∷ 16 ∷ replicate 5 0)) else Option.none

abbrev sys : System
sys = record {
  alloc = λ n. some λ _. 0;
  times = some (record { idle = instant; kernel = instant; user = instant });
  job = some 9;
  joins = true;
  has_pool = true;
  rootfs = image_at;
  kernel = kernel_at;
}

abbrev cfg : HyperPodFile
cfg = record {
  rootfs_path = b'r' ∷ [];
  kernel_path = b'k' ∷ [];
  cmdline = b'q' ∷ [];
  limits = record { min_ram = 2; max_ram = 4; min_cpu_shares = 100; max_cpu_shares = 400 };
  gpu = Option.none;
}

run_vm-Ends_example : Ends (λ q. InPhase before q ⊎ InPhase freed q) (run_vm host sys 3 cfg idle)
run_vm-Ends_example = run_vm-Ends host sys 3 cfg idle (omega arith) refl

new_rax_iff_example :
    (new_rax 0x3fd 1 ≡ rax_after_in 0x1234 1 (from_le_bytes (read 0x3fd (replicate 1 0))))
    ↔ ((◌≡◌ {A = ℕ} 1 4) ⊎ (0x1234 < 256 ^ 1))
new_rax_iff_example = new_rax_iff 0x3fd 0x1234 1 (inl refl)

run_loop-returns_example : (run_loop host 5 idle).0 ≡ returned (ok tt)
unfolding ends_loop
run_loop-returns_example =
    run_loop-returns host guest 5 idle (λ es e. refl) guest-Exits refl (omega arith)
