-- ===== src/Commands.antt =====
-- The entry of the program: hyperpod/src/main.rs, cli.rs, commands and vmm/stub.rs. The parser of the
-- command line is given its answer, and the printing is left out.
pub mod Start
pub mod Guest
pub mod Linux
mod Tests
use hyper_pod.Base.{ℕ, Bool, Option, List, Outcome, ok, err, unsupported_os}
use hyper_pod.Vm.Ending.{Run, lift, ◌>>=◌, ◌>>◌}
use hyper_pod.Config.{HyperPodFile, load}
use hyper_pod.Storage.{ImagePath, detect_format}

-- `Command`, where `start` has the path of `StartArgs`.
pub data Command : Type 0 where
  start : List ℕ → Command
  status : Command

-- The file system and the TOML parser.
pub record Files : Type 0 where
  pub metadata : List ℕ → Option Bool
  pub read_to_string : List ℕ → Option (List ℕ)
  pub from_str : List ℕ → Option HyperPodFile
  pub image : List ℕ → ImagePath

-- `run_vm` where neither hypervisor is there.
unfoldable pub run_stub : {S : Type 0} → HyperPodFile → Run S (Unit {0})
run_stub cfg = lift (err unsupported_os)

-- `run_vm` is that of the operating system.
module _ {S : Type 0} (files : Files) (run_vm : HyperPodFile → Run S (Unit {0})) where
  -- `run` of commands/start.rs
  unfoldable pub run_start : List ℕ → Run S (Unit {0})
  run_start path = do
    cfg ← lift (load files.metadata files.read_to_string files.from_str path)
    fmt ← lift (detect_format (files.image cfg.rootfs_path))
    run_vm cfg

  -- `run` of commands/status.rs
  unfoldable pub run_status : Run S (Unit {0})
  run_status = lift (ok tt)

  unfoldable pub main : Command → Run S (Unit {0})
  main (start path) = run_start path
  main status = run_status
