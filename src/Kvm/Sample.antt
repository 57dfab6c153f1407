-- ===== src/Kvm/Sample.antt =====
-- A machine with a guest that puts out a byte and halts, for the tests.
use hyper_pod.Base.{
  ℕ, true, false, Option, none, some, List, [], ◌∷◌, ◌==◌, if◌then◌else◌, replicate,
}
use hyper_pod.Config.{HyperPodFile}
use hyper_pod.Elf.Sample.{file_at}
use hyper_pod.Storage.{ImagePath}
use hyper_pod.Kvm.Loop.{VcpuExit, io_out, hlt, Machine}
use hyper_pod.Kvm.Run.{System, Process}

-- A guest that puts out a byte and halts, on a hypervisor that takes every call.
abbrev pub exits : List (Option VcpuExit)
exits = some (io_out 0x3f8 (0x41 ∷ [])) ∷ some hlt ∷ []

-- The root image is at a path that starts with "r", the kernel at one with "k".
abbrev image_at : List ℕ → ImagePath
image_at [] = record { extension = none; found = none }
image_at (c ∷ cs) = record {
  extension = none;
  found = if c == b'r' then some (replicate 1024 7) else none;
}

abbrev kernel_at : List ℕ → Option (List ℕ)
kernel_at [] = none
kernel_at (c ∷ cs) = if c == b'k' then some (file_at (0 ∷ 0 ∷ 16 ∷ replicate 5 0)) else none

abbrev pub sys : System
sys = record {
  succeeds = λ cs c. true;
  api_version = 12;
  exits = exits;
  alloc = λ n. some λ _. 0;
  cpuinfo = some [];
  cgroup = some (48 ∷ 58 ∷ 58 ∷ 47 ∷ 112 ∷ []);
  share_files = record { is_file = λ _. true; is_writable = λ _. true };
  has_pool = true;
  rootfs = image_at;
  kernel = kernel_at;
}

abbrev pub cfg : HyperPodFile
cfg = record {
  rootfs_path = b'r' ∷ [];
  kernel_path = b'k' ∷ [];
  cmdline = b'q' ∷ [];
  limits = record { min_ram = 2; max_ram = 4; min_cpu_shares = 100; max_cpu_shares = 400 };
  gpu = none;
}

abbrev pub machine : Machine
machine = record { serial = record { out = [] }; replies = [] }

abbrev pub idle : Process
idle = record { calls = []; machine = machine; monitoring = false; shutdown = false }
