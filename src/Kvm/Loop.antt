-- ===== src/Kvm/Loop.antt =====
-- The exit loop of `run_vm`, hyperpod/src/vmm/linux/vm.rs, over the exits that the processor makes.
use hyper_pod.Base.{ℕ, Option, none, some, List, [], ◌∷◌, ◌++◌, if◌then◌else◌, ok, err, kvm_run}
use hyper_pod.Vm.Ending.{Ending, still_running, returned}
use hyper_pod.Serial.{Serial, handles, write, read}

-- `VcpuExit`, where `io_in` has the buffer that the answer goes into.
pub data VcpuExit : Type 0 where
  io_in io_out : ℕ → List ℕ → VcpuExit
  mmio_read mmio_write : ℕ → VcpuExit
  hlt shutdown other : VcpuExit

-- The serial port, and the buffers that the guest got back from its reads, in their order.
pub record Machine : Type 0 where
  pub serial : Serial
  pub replies : List (List ℕ)

-- An exit after which the loop goes on.
unfoldable pub handle_vcpu_exit : VcpuExit → Machine → Machine
handle_vcpu_exit (io_in port buffer) m = record m {
  replies = m.replies ++ (if handles port then read port buffer else buffer) ∷ [];
}
handle_vcpu_exit (io_out port bytes) m =
    if handles port then record m { serial = write port bytes m.serial } else m
handle_vcpu_exit _ m = m

-- `none` is a `vcpu.run()` that fails. When the list ends, the guest is still running.
unfoldable pub run_loop : List (Option VcpuExit) → Machine → Ending (Unit {0}) × Machine
run_loop [] m = (still_running, m)
run_loop (none ∷ rest) m = (returned (err kvm_run), m)
run_loop (some hlt ∷ rest) m = (returned (ok tt), m)
run_loop (some shutdown ∷ rest) m = (returned (ok tt), m)
run_loop (some exit ∷ rest) m = run_loop rest (handle_vcpu_exit exit m)
