-- ===== src/Vm/Backends.antt =====
-- The exit loops of hyperpod/src/vmm/linux/vm.rs and hyperpod/src/vmm/windows/vm.rs, side by side.
pub mod Rax
use hyper_pod.Base.{
  ℕ, ◌-◌, ◌/◌, ◌%◌, ◌^◌, ◌≡◌, ◌⊎◌, refl, ap, sym, ◌∙◌, ◌&&◌, ◌==◌, Bool, true, false, if◌then◌else◌,
  Option, some, List, [], ◌∷◌, ◌++◌, take, replicate, length, to_le_bytes, arith,
}
use hyper_pod.Base.Bits.{bit_and_mask}
use hyper_pod.Kvm
use hyper_pod.Kvm.Loop.{
  VcpuExit, io_in, io_out, mmio_read, mmio_write, hlt, shutdown, Machine, handle_vcpu_exit,
}
use hyper_pod.Whpx
use hyper_pod.Whpx.Partition.{
  Exit, none, halt, unrecoverable, canceled, other, io, memory, Platform, Host, check, call,
}
use hyper_pod.Whpx.Rounds.{
  IsWilling, Exits, handle_exit-io, handle_exit-memory, round-goes_on, round-ends,
}
use hyper_pod.Whpx.Loop.{is_write, access_bytes, port_access, handle_exit}
use hyper_pod.Vm.Backends.Rax.{rax_exit, rax_exits, AreNamed, kvm_io, run_loop-rax_exits}

-- The fields of WHV_X64_IO_PORT_ACCESS_INFO, as the platform's documentation gives them: bit 0 is set
-- for a write, bits 1 to 3 are the size of the access in bytes, and bits 4 and 5 tell an instruction
-- that moves strings, and one that repeats.
abbrev size_field : ℕ → ℕ
size_field raw_info = raw_info / 2 % 8

abbrev string_bit : ℕ → ℕ
string_bit raw_info = raw_info / 2 ^ 4 % 2

abbrev repeat_bit : ℕ → ℕ
repeat_bit raw_info = raw_info / 2 ^ 5 % 2

-- An access of one, two or four bytes between the port and RAX.
unfoldable pub IsRegisterAccess : ℕ → Type 0
IsRegisterAccess raw_info =
    ((string_bit raw_info ≡ 0) × (repeat_bit raw_info ≡ 0))
    × ((size_field raw_info ≡ 1) ⊎ ((size_field raw_info ≡ 2) ⊎ (size_field raw_info ≡ 4)))

unfoldable pub AreRegisterAccesses : List Exit → Type 0
AreRegisterAccesses [] = Unit {0}
AreRegisterAccesses (io port raw_info rax rip size ∷ es) =
    IsRegisterAccess raw_info × AreRegisterAccesses es
AreRegisterAccesses (e ∷ es) = AreRegisterAccesses es

register_access :
    (raw_info : ℕ)
    → IsRegisterAccess raw_info
    → (size_field raw_info ≡ access_bytes raw_info) × ((raw_info % 2 == 1) ≡ is_write raw_info)
unfolding IsRegisterAccess
register_access raw_info is = ground (arith, bit_and_mask 3 (raw_info / 2), bit_and_mask 1 raw_info)

-- `stores gpa rip` tells whether the instruction at `rip` that touches `gpa` writes, and `strings` what
-- KVM exits with when an instruction moves strings, whose bytes are in the guest's memory.
module _ (stores : ℕ → ℕ → Bool) (strings : Exit → List (Option VcpuExit)) where
  -- What the guest's instruction makes KVM exit with. `none` and `canceled` are not of the guest's making.
  unfoldable pub kvm_exit : Exit → List (Option VcpuExit)
  kvm_exit none = []
  kvm_exit canceled = []
  kvm_exit other = []
  kvm_exit halt = some hlt ∷ []
  kvm_exit unrecoverable = some shutdown ∷ []
  kvm_exit (memory gpa rip size) =
      some (if stores gpa rip then mmio_write gpa else mmio_read gpa) ∷ []
  kvm_exit (io port raw_info rax rip size) =
      if string_bit raw_info == 0 && repeat_bit raw_info == 0
      then some (
          if raw_info % 2 == 1
          then io_out port (take (size_field raw_info) (to_le_bytes 8 rax))
          else io_in port (replicate (size_field raw_info) 0))
        ∷ []
      else strings (io port raw_info rax rip size)

  unfoldable pub kvm_exits : List Exit → List (Option VcpuExit)
  kvm_exits [] = []
  kvm_exits (e ∷ es) = kvm_exit e ++ kvm_exits es

  kvm_exit-rax_exit :
      (port raw_info rax rip size : ℕ)
      → IsRegisterAccess raw_info
      → kvm_exit (io port raw_info rax rip size) ≡ rax_exit (io port raw_info rax rip size)
  unfolding kvm_exit rax_exit IsRegisterAccess
  kvm_exit-rax_exit port raw_info rax rip size ((string, repeat), is_size) =
      let same = register_access raw_info ((string, repeat), is_size) in
      rw (string, repeat, same.0, same.1) refl

  kvm_memory :
      (b : Bool) (gpa : ℕ) (rest : List (Option VcpuExit)) (m : Machine)
      → Kvm.Loop.run_loop (some (if b then mmio_write gpa else mmio_read gpa) ∷ rest) m
        ≡ Kvm.Loop.run_loop rest m
  unfolding Kvm.Loop.run_loop handle_vcpu_exit
  kvm_memory true gpa rest m = refl
  kvm_memory false gpa rest m = refl

  kvm_exits-rax_exits :
      (es : List Exit) (m : Machine)
      → AreRegisterAccesses es
      → Kvm.Loop.run_loop (kvm_exits es) m ≡ Kvm.Loop.run_loop (rax_exits es) m
  unfolding kvm_exits rax_exits kvm_exit rax_exit AreRegisterAccesses Kvm.Loop.run_loop
      handle_vcpu_exit
  kvm_exits-rax_exits [] m are = refl
  kvm_exits-rax_exits (none ∷ es) m are = kvm_exits-rax_exits es m are
  kvm_exits-rax_exits (canceled ∷ es) m are = kvm_exits-rax_exits es m are
  kvm_exits-rax_exits (other ∷ es) m are = kvm_exits-rax_exits es m are
  kvm_exits-rax_exits (halt ∷ es) m are = refl
  kvm_exits-rax_exits (unrecoverable ∷ es) m are = refl
  kvm_exits-rax_exits (memory gpa rip size ∷ es) m are =
      kvm_memory (stores gpa rip) gpa (kvm_exits es) m ∙ kvm_exits-rax_exits es m are
  kvm_exits-rax_exits (io port raw_info rax rip size ∷ es) m (is, are) =
      ap (λ first. Kvm.Loop.run_loop (first ++ kvm_exits es) m)
        (kvm_exit-rax_exit port raw_info rax rip size is)
      ∙ kvm_io (is_write raw_info) port _ _ (kvm_exits es) m
      ∙ kvm_exits-rax_exits es _ are
      ∙ sym (kvm_io (is_write raw_info) port _ _ (rax_exits es) m)

  -- Let every call of the hypervisor succeed, and let the processor exit, in turn, with exits of a kind
  -- that both loops name, where each access to a port is of one, two or four bytes and by an
  -- instruction that moves them from or to RAX, neither a string nor repeated. Then the Windows loop
  -- over these exits and the Linux loop over the exits that the same instructions make there, each from
  -- the same output of the serial port, end alike (they still run, or they have returned the same
  -- result), and with the same output.
  pub run_loop-run_loop :
      (host : Host) (es : List Exit) (p : Platform) (m : Machine)
      → IsWilling host
      → AreNamed es
      → AreRegisterAccesses es
      → Exits host es p
      → p.serial ≡ m.serial
      → ((Whpx.Loop.run_loop host (length es) p).0 ≡ (Kvm.Loop.run_loop (kvm_exits es) m).0)
        × ((Whpx.Loop.run_loop host (length es) p).1.serial
            ≡ (Kvm.Loop.run_loop (kvm_exits es) m).1.serial)
  run_loop-run_loop host es p m willing named are exits same =
      rw (kvm_exits-rax_exits es m are) (run_loop-rax_exits host willing es p m named exits same)
