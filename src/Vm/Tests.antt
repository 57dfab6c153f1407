-- ===== src/Vm/Tests.antt =====
-- A machine of one MiB more than the artefacts need, with a kernel at 1 MiB.
use hyper_pod.Base.{
  ℕ, ◌∙◌, ◌≡◌, refl, Bool, true, inl, Option, none, some, List, [], ◌∷◌, arith, length, ok,
  replicate, ◌++◌, slice, from_le_bytes,
}
use hyper_pod.Base.Action.{>>=-ok}
use hyper_pod.Base.Utf8.{utf8, utf8_char}
use hyper_pod.Ram.{GuestRam, new, write_slice}
use hyper_pod.Boot.{himem_start, cmdline_start, pml4_start, gdt_entries}
use hyper_pod.Boot.Region.{Puts}
use hyper_pod.Boot.Walk.{translate}
use hyper_pod.Boot.Gdt.{read_table}
use hyper_pod.Boot.Cmdline.{text_at}
use hyper_pod.Boot.Params.{HasHeader, read_e820, e820_map}
use hyper_pod.Boot.Artefacts.{write_artefacts, AreArtefacts, write_artefacts-Puts}
use hyper_pod.Elf.{
  Header, LoadedKernel, read_header, load, le_field, load_kernel, load_headers, load_header,
  load_segment, copy_segment, zero_fill,
}
use hyper_pod.Elf.Image.{segment_at}
use hyper_pod.Elf.Loop.{segments}
use hyper_pod.Elf.Sample.{file_at}
use hyper_pod.Vm.{prepare}
use hyper_pod.Kvm
use hyper_pod.Kvm.Loop.{Machine, VcpuExit}
use hyper_pod.Whpx
use hyper_pod.Whpx.Partition.{Exit}
use hyper_pod.Whpx.Sample.{host, guest, idle, guest-Exits}
use hyper_pod.Vm.Backends.Rax.{AreNamed}
use hyper_pod.Vm.Backends.{kvm_exits, IsRegisterAccess, AreRegisterAccesses, run_loop-run_loop}
use hyper_pod.Vm.Output.{sent_from_rax, run_loop-sent_from_rax}
use hyper_pod.Elf.Success.{AreLoadable}
use hyper_pod.Vm.Progress.{prepare-returns}
use hyper_pod.Vm.Ready.{prepare-ready}

abbrev alloc : ℕ → Option (ℕ → ℕ)
alloc n = some λ _. 0

abbrev ram : GuestRam
ram = record { size = 0x200000; cell = λ _. 0 }

-- "ré"
abbrev cmdline : List ℕ
cmdline = b'r' ∷ 0xe9 ∷ []

abbrev file : List ℕ
file = file_at (0 ∷ 0 ∷ 16 ∷ replicate 5 0)

abbrev header : Header
header = record { entry = 0x200; phoff = 64; phentsize = 56; phnum = 1 }

abbrev kernel : LoadedKernel
kernel = record { entry = 0x200 }

zeroed : (size : ℕ) (cell : ℕ → ℕ) → alloc size ≡ some cell → (a : ℕ) → cell a ≡ 0
zeroed size cell h a = ground arith

written :
    Puts 0 himem_start
      (AreArtefacts (utf8 cmdline) 0x200000)
      ram
      (write_artefacts (utf8 cmdline) 0x200000 ram)
unfolding utf8 utf8_char
written =
    write_artefacts-Puts (utf8 cmdline) 0x200000 ram (omega arith) (omega arith) (λ a p q. refl)
      (omega arith) (omega arith, (omega arith, (omega arith, tt))) (omega arith)

-- The memory after `prepare`.
abbrev after : GuestRam
after = (load (some file) (record ram { cell = written.after })).1

prepared : prepare cmdline 2 (some file) ram ≡ (ok kernel, after)
unfolding prepare load load_kernel load_headers load_header load_segment copy_segment zero_fill
    write_slice read_header le_field from_le_bytes slice
prepared =
    >>=-ok (write_artefacts (utf8 cmdline) 0x200000) (λ _. load (some file)) ram written.returns
    ∙ refl

prepare-ready_example :
    (translate after.cell pml4_start 0x1234567 ≡ some 0x1234567)
    × (read_table after.cell 4 0 ≡ gdt_entries)
    × (text_at after.cell cmdline_start 4 ≡ utf8 cmdline)
    × HasHeader after.cell 3
    × (read_e820 after.cell ≡ e820_map 0x200000)
    × (kernel.entry ≡ header.entry)
unfolding new utf8 utf8_char segments segment_at read_header le_field from_le_bytes slice
prepare-ready_example =
    prepare-ready alloc zeroed cmdline 2 file header ram after kernel 0x1234567 refl (omega arith)
      (omega arith, (omega arith, tt)) (omega arith) refl (omega arith, tt) prepared (omega arith)

abbrev machine : Machine
machine = record { serial = record { out = [] }; replies = [] }

-- A guest whose accesses to memory all write, on a KVM that stops at strings.
abbrev stores : ℕ → ℕ → Bool
stores gpa rip = true

abbrev strings : Exit → List (Option VcpuExit)
strings e = none ∷ []

run_loop-run_loop_example :
    ((Whpx.Loop.run_loop host (length guest) idle).0
      ≡ (Kvm.Loop.run_loop (kvm_exits stores strings guest) machine).0)
    × ((Whpx.Loop.run_loop host (length guest) idle).1.serial
        ≡ (Kvm.Loop.run_loop (kvm_exits stores strings guest) machine).1.serial)
unfolding AreNamed AreRegisterAccesses IsRegisterAccess
run_loop-run_loop_example =
    run_loop-run_loop stores strings host guest idle machine (λ es e. refl) tt
      (((refl, refl), inl refl), (((refl, refl), inl refl), tt)) guest-Exits refl

prepare-returns_example :
    (prepare cmdline 2 (some file) ram).0 ≡ ok (record { entry = header.entry })
unfolding new utf8 utf8_char AreLoadable read_header le_field from_le_bytes slice segments
    segment_at
prepare-returns_example =
    prepare-returns alloc zeroed cmdline 2 file header ram refl (omega arith) (omega arith)
      (omega arith, (omega arith, tt)) (omega arith) (omega arith) refl
      (omega arith, (λ h. (omega arith, omega arith)), tt) (λ e. ground (arith, e))

run_loop-sent_from_rax_example :
    (Whpx.Loop.run_loop host (length guest) idle).1.serial.out
    ≡ idle.serial.out ++ sent_from_rax guest
unfolding AreNamed
run_loop-sent_from_rax_example =
    run_loop-sent_from_rax host guest idle (λ es e. refl) tt guest-Exits
