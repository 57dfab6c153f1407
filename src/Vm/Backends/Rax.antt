-- ===== src/Vm/Backends/Rax.antt =====
-- The exit loop of hyperpod/src/vmm/windows/vm.rs as that of hyperpod/src/vmm/linux/vm.rs over exits that
-- carry RAX.
use hyper_pod.Base.{
  ℕ, ◌≡◌, refl, ap, ◌∙◌, Bool, true, false, if◌then◌else◌, Option, some, List, [], ◌∷◌, ◌++◌, take,
  replicate, length, to_le_bytes, arith,
}
use hyper_pod.Kvm
use hyper_pod.Kvm.Loop.{
  VcpuExit, io_in, io_out, mmio_read, mmio_write, hlt, shutdown, Machine, handle_vcpu_exit,
}
use hyper_pod.Whpx
use hyper_pod.Whpx.Partition.{
  Exit, none, halt, unrecoverable, canceled, other, io, memory, Platform, Host, check, call,
}
use hyper_pod.Whpx.Rounds.{
  IsWilling, Exits, handle_exit-io, handle_exit-memory, round-goes_on, round-ends,
}
use hyper_pod.Whpx.Loop.{is_write, access_bytes, port_access, handle_exit}

-- The exits of the other loop, if every access to a port were to carry the bytes of RAX.
unfoldable pub rax_exit : Exit → List (Option VcpuExit)
rax_exit none = []
rax_exit canceled = []
rax_exit other = []
rax_exit halt = some hlt ∷ []
rax_exit unrecoverable = some shutdown ∷ []
rax_exit (memory gpa rip size) = some (mmio_read gpa) ∷ []
rax_exit (io port raw_info rax rip size) =
    some (
      if is_write raw_info
      then io_out port (take (access_bytes raw_info) (to_le_bytes 8 rax))
      else io_in port (replicate (access_bytes raw_info) 0))
    ∷ []

unfoldable pub rax_exits : List Exit → List (Option VcpuExit)
rax_exits [] = []
rax_exits (e ∷ es) = rax_exit e ++ rax_exits es

-- Exits of a kind that both loops name.
unfoldable pub AreNamed : List Exit → Type 0
AreNamed [] = Unit {0}
AreNamed (other ∷ es) = ⊥
AreNamed (e ∷ es) = AreNamed es

pub kvm_io :
    (b : Bool) (port : ℕ) (written read_into : List ℕ) (rest : List (Option VcpuExit)) (m : Machine)
    → Kvm.Loop.run_loop (some (if b then io_out port written else io_in port read_into) ∷ rest) m
      ≡ Kvm.Loop.run_loop rest
          (handle_vcpu_exit (if b then io_out port written else io_in port read_into) m)
unfolding Kvm.Loop.run_loop
kvm_io true port written read_into rest m = refl
kvm_io false port written read_into rest m = refl

module _ (host : Host) (willing : IsWilling host) where
  -- The serial port after the exit is the one that the other loop has.
  port_access-serial :
      (port raw_info rax rip size : ℕ) (p : Platform) (m : Machine)
      → p.serial ≡ m.serial
      → (port_access host port raw_info rax rip size p).1.serial
        ≡ (handle_vcpu_exit
            (if is_write raw_info
              then io_out port (take (access_bytes raw_info) (to_le_bytes 8 rax))
              else io_in port (replicate (access_bytes raw_info) 0))
            m).serial
  unfolding port_access call check handle_vcpu_exit
  port_access-serial port raw_info rax rip size p m same = ground arith

  handle_memory-serial :
      (gpa rip size : ℕ) (p : Platform)
      → (handle_exit host (memory gpa rip size) p).1.serial ≡ p.serial
  unfolding handle_exit check call
  handle_memory-serial gpa rip size p = rw (willing p.events _) refl

  -- The two loops over these exits end alike, with the same output.
  pub run_loop-rax_exits :
      (es : List Exit) (p : Platform) (m : Machine)
      → AreNamed es
      → Exits host es p
      → p.serial ≡ m.serial
      → ((Whpx.Loop.run_loop host (length es) p).0 ≡ (Kvm.Loop.run_loop (rax_exits es) m).0)
        × ((Whpx.Loop.run_loop host (length es) p).1.serial
            ≡ (Kvm.Loop.run_loop (rax_exits es) m).1.serial)
  unfolding AreNamed Exits rax_exits rax_exit Kvm.Loop.run_loop Whpx.Loop.run_loop handle_exit
      handle_vcpu_exit
  run_loop-rax_exits [] p m named exits same = (refl, same)
  run_loop-rax_exits (none ∷ es) p m named exits same =
      rw (round-goes_on host willing none (length es) p exits.0 refl)
        (run_loop-rax_exits es _ m named exits.1 same)
  run_loop-rax_exits (canceled ∷ es) p m named exits same =
      rw (round-goes_on host willing canceled (length es) p exits.0 refl)
        (run_loop-rax_exits es _ m named exits.1 same)
  run_loop-rax_exits (halt ∷ es) p m named exits same =
      rw (round-ends host willing halt (length es) p exits.0 refl) (refl, same)
  run_loop-rax_exits (unrecoverable ∷ es) p m named exits same =
      rw (round-ends host willing unrecoverable (length es) p exits.0 refl) (refl, same)
  run_loop-rax_exits (memory gpa rip size ∷ es) p m named exits same =
      rw
        (round-goes_on host willing (memory gpa rip size) (length es) p exits.0
          (ap (λ x. x.0) (handle_exit-memory host willing gpa rip size _)))
        (run_loop-rax_exits es _ m named exits.1 (handle_memory-serial gpa rip size _ ∙ same))
  run_loop-rax_exits (io port raw_info rax rip size ∷ es) p m named exits same =
      rw
        (
          round-goes_on host willing (io port raw_info rax rip size) (length es) p exits.0
              (ap (λ x. x.0) (handle_exit-io host willing port raw_info rax rip size _)),
          kvm_io (is_write raw_info) port _ _ (rax_exits es) m,
        )
        (run_loop-rax_exits es _ _ named exits.1 (
          ap (λ x. x.1.serial) (handle_exit-io host willing port raw_info rax rip size _)
          ∙ port_access-serial port raw_info rax rip size _ m same))
  run_loop-rax_exits (other ∷ es) p m named exits same = elim named [ ]
