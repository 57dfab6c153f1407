-- ===== src/Vm/Output.antt =====
-- What the guest has put out through the serial port on Windows (hyperpod/src/vmm/windows/vm.rs), by way
-- of the loop on Linux.
use hyper_pod.Base.{
  ℕ, zero, suc, ◌%◌, ◌<◌, ◌≡◌, ◌∙◌, refl, ap, Bool, true, false, ◌&&◌, Option, some, List, [], ◌∷◌,
  ◌++◌, ◌==◌, if◌then◌else◌, take, replicate, length, to_le_bytes, arith, Bool-cases, inl, inr,
}
use hyper_pod.Kvm.Loop.{VcpuExit, io_in, io_out, Machine}
use hyper_pod.Kvm.Output.{first_byte, sent, run_loop-sent}
use hyper_pod.Whpx
use hyper_pod.Whpx.Partition.{
  Exit, none, halt, unrecoverable, canceled, other, io, memory, Platform, Host,
}
use hyper_pod.Whpx.Rounds.{IsWilling, Exits}
use hyper_pod.Whpx.Loop.{is_write, access_bytes}
use hyper_pod.Vm.Backends.Rax.{rax_exits, rax_exit, AreNamed, run_loop-rax_exits}

-- The bytes that the guest sends before the loop ends: the low byte of RAX at each `out` to port 0x3f8.
unfoldable pub sent_from_rax : List Exit → List ℕ
sent_from_rax [] = []
sent_from_rax (halt ∷ es) = []
sent_from_rax (unrecoverable ∷ es) = []
sent_from_rax (other ∷ es) = []
sent_from_rax (io port raw_info rax rip size ∷ es) =
    (if port == 0x3f8 && is_write raw_info then (rax % 256) ∷ [] else []) ++ sent_from_rax es
sent_from_rax (memory gpa rip size ∷ es) = sent_from_rax es
sent_from_rax (none ∷ es) = sent_from_rax es
sent_from_rax (canceled ∷ es) = sent_from_rax es

low_byte :
    (n port rax : ℕ)
    → 0 < n
    → first_byte port (take n (to_le_bytes 8 rax))
      ≡ (if port == 0x3f8 then (rax % 256) ∷ [] else [])
unfolding to_le_bytes
low_byte zero port rax h = absurd (omega arith)
low_byte (suc n) port rax h = refl

access_bytes_pos : (raw_info : ℕ) → 0 < access_bytes raw_info
access_bytes_pos raw_info = ground arith

io-sent :
    (port raw_info rax : ℕ) (b : Bool) (es : List (Option VcpuExit))
    → sent (
        some (
          if b
          then io_out port (take (access_bytes raw_info) (to_le_bytes 8 rax))
          else io_in port (replicate (access_bytes raw_info) 0))
        ∷ es)
      ≡ (if port == 0x3f8 && b then (rax % 256) ∷ [] else []) ++ sent es
unfolding sent
io-sent port raw_info rax true es =
    ap (λ bytes. bytes ++ sent es)
      (low_byte (access_bytes raw_info) port rax (access_bytes_pos raw_info) ∙ ground arith)
io-sent port raw_info rax false es = elim (Bool-cases (port == 0x3f8)) [
  | inl e ↦ rw e refl
  | inr e ↦ rw e refl
]

sent-rax_exits : (es : List Exit) → AreNamed es → sent (rax_exits es) ≡ sent_from_rax es
unfolding sent rax_exits rax_exit AreNamed sent_from_rax
sent-rax_exits [] named = refl
sent-rax_exits (none ∷ es) named = sent-rax_exits es named
sent-rax_exits (canceled ∷ es) named = sent-rax_exits es named
sent-rax_exits (halt ∷ es) named = refl
sent-rax_exits (unrecoverable ∷ es) named = refl
sent-rax_exits (memory gpa rip size ∷ es) named = sent-rax_exits es named
sent-rax_exits (io port raw_info rax rip size ∷ es) named =
    io-sent port raw_info rax (is_write raw_info) (rax_exits es)
    ∙ ap (λ rest. (if port == 0x3f8 && is_write raw_info then (rax % 256) ∷ [] else []) ++ rest)
        (sent-rax_exits es named)
sent-rax_exits (other ∷ es) named = elim named [ ]

-- Let every call of the hypervisor succeed, and let the processor exit, in turn, with exits of a kind
-- that the loop names. Then the serial port has put out, after what it had put out before, just the low byte of
-- RAX at each of the guest's writes to port 0x3f8, in their order, up to the exit that ends the loop.
pub run_loop-sent_from_rax :
    (host : Host) (es : List Exit) (p : Platform)
    → IsWilling host
    → AreNamed es
    → Exits host es p
    → (Whpx.Loop.run_loop host (length es) p).1.serial.out ≡ p.serial.out ++ sent_from_rax es
run_loop-sent_from_rax host es p willing named exits =
    let m : Machine = record { serial = p.serial; replies = [] } in
    ap (λ s. s.out) (run_loop-rax_exits host willing es p m named exits refl).1
    ∙ run_loop-sent (rax_exits es) m
    ∙ ap (λ out. p.serial.out ++ out) (sent-rax_exits es named)
