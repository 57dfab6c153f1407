-- ===== src/Kvm/Termination.antt =====
-- When the exit loop of hyperpod/src/vmm/linux/vm.rs is left.
use hyper_pod.Base.{◌≡◌, refl, Bool, true, false, Option, none, some, List, [], ◌∷◌, any}
use hyper_pod.Vm.Ending.{Ending, still_running, returned}
use hyper_pod.Kvm.Loop.{
  VcpuExit, io_in, io_out, mmio_read, mmio_write, hlt, shutdown, other, Machine, run_loop,
}

-- A run that fails, a halt or a shutdown.
unfoldable pub is_final : Option VcpuExit → Bool
is_final none = true
is_final (some hlt) = true
is_final (some shutdown) = true
is_final (some _) = false

unfoldable pub has_ended {ℓ} : {A : Type ℓ} → Ending A → Bool
has_ended still_running = false
has_ended (returned r) = true

-- From every state of the machine, the loop ends if one of the exits is a run that fails, a halt or a
-- shutdown, and still runs if none is.
pub run_loop-is_final :
    (exits : List (Option VcpuExit)) (m : Machine)
    → has_ended (run_loop exits m).0 ≡ any is_final exits
unfolding run_loop is_final has_ended
run_loop-is_final [] m = refl
run_loop-is_final (none ∷ rest) m = refl
run_loop-is_final (some hlt ∷ rest) m = refl
run_loop-is_final (some shutdown ∷ rest) m = refl
run_loop-is_final (some (io_in port buffer) ∷ rest) m = run_loop-is_final rest _
run_loop-is_final (some (io_out port bytes) ∷ rest) m = run_loop-is_final rest _
run_loop-is_final (some (mmio_read a) ∷ rest) m = run_loop-is_final rest _
run_loop-is_final (some (mmio_write a) ∷ rest) m = run_loop-is_final rest _
run_loop-is_final (some other ∷ rest) m = run_loop-is_final rest _
