-- ===== src/Vm.antt =====
-- What both virtual machines do to guest memory before the processor starts: the middle of `run_vm` in
-- hyperpod/src/vmm/linux/vm.rs and hyperpod/src/vmm/windows/vm.rs.
pub mod Ending
pub mod Ready
pub mod Progress
pub mod Backends
pub mod Output
mod Tests
use hyper_pod.Base.{ℕ, ◌*◌, ◌%◌, Option, List, u64_mod}
use hyper_pod.Base.Action.{Action, ◌>>=◌, ◌>>◌}
use hyper_pod.Base.Utf8.{utf8}
use hyper_pod.Ram.{GuestRam}
use hyper_pod.Boot.Artefacts.{write_artefacts}
use hyper_pod.Elf.{LoadedKernel, load}

-- The command line is a text of code points, and `kernel` what is read from the kernel's path.
unfoldable pub prepare : List ℕ → ℕ → Option (List ℕ) → Action GuestRam LoadedKernel
prepare cmdline min_ram kernel = do
  write_artefacts (utf8 cmdline) (min_ram * 1024 * 1024 % u64_mod)
  load kernel
