-- ===== src/Kvm/Output.antt =====
-- What the guest has put out through the serial port on Linux (hyperpod/src/vmm/linux/vm.rs and
-- hyperpod/src/vmm/common/serial.rs).
use mathlib.Core.List.{append-nil, append_assoc}
use hyper_pod.Base.{
  ℕ, ◌≡◌, ◌∙◌, sym, ap, Option, none, some, List, [], ◌∷◌, ◌++◌, ◌==◌, if◌then◌else◌, arith,
}
use hyper_pod.Serial.{handles, write}
use hyper_pod.Kvm.Loop.{
  VcpuExit, io_in, io_out, mmio_read, mmio_write, hlt, shutdown, other, Machine, handle_vcpu_exit,
  run_loop,
}

-- What one write puts out: the first byte, at the first port.
abbrev pub first_byte : ℕ → List ℕ → List ℕ
first_byte port [] = []
first_byte port (b ∷ rest) = if port == 0x3f8 then b ∷ [] else []

-- The bytes that the guest sends before the loop ends.
unfoldable pub sent : List (Option VcpuExit) → List ℕ
sent [] = []
sent (none ∷ es) = []
sent (some hlt ∷ es) = []
sent (some shutdown ∷ es) = []
sent (some (io_out port bytes) ∷ es) = first_byte port bytes ++ sent es
sent (some (io_in port buffer) ∷ es) = sent es
sent (some (mmio_read gpa) ∷ es) = sent es
sent (some (mmio_write gpa) ∷ es) = sent es
sent (some other ∷ es) = sent es

io_out-out :
    (port : ℕ) (bytes : List ℕ) (m : Machine)
    → (handle_vcpu_exit (io_out port bytes) m).serial.out ≡ m.serial.out ++ first_byte port bytes
unfolding handle_vcpu_exit handles write
io_out-out port [] m = ground (arith, append-nil m.serial.out)
io_out-out port (b ∷ rest) m = ground (arith, append-nil m.serial.out)

-- Whatever exits the processor makes, and however the loop ends or goes on, the serial port has put
-- out, after what it had put out before, just the first byte of each of the guest's writes to port
-- 0x3f8, in their order, up to the exit that ends the loop.
pub run_loop-sent :
    (es : List (Option VcpuExit)) (m : Machine)
    → (run_loop es m).1.serial.out ≡ m.serial.out ++ sent es
unfolding run_loop sent handle_vcpu_exit
run_loop-sent [] m = sym (append-nil m.serial.out)
run_loop-sent (none ∷ es) m = sym (append-nil m.serial.out)
run_loop-sent (some hlt ∷ es) m = sym (append-nil m.serial.out)
run_loop-sent (some shutdown ∷ es) m = sym (append-nil m.serial.out)
run_loop-sent (some (io_out port bytes) ∷ es) m =
    run_loop-sent es (handle_vcpu_exit (io_out port bytes) m)
    ∙ ap (λ out. out ++ sent es) (io_out-out port bytes m)
    ∙ append_assoc m.serial.out (first_byte port bytes) (sent es)
run_loop-sent (some (io_in port buffer) ∷ es) m =
    run_loop-sent es (handle_vcpu_exit (io_in port buffer) m)
run_loop-sent (some (mmio_read gpa) ∷ es) m = run_loop-sent es m
run_loop-sent (some (mmio_write gpa) ∷ es) m = run_loop-sent es m
run_loop-sent (some other ∷ es) m = run_loop-sent es m
