-- ===== src/Kvm/Tests.antt =====
-- The registers for an entry point at 16 MiB.
use hyper_pod.Base.{ℕ, ◌≡◌, refl, [], any, ◌++◌, arith}
use hyper_pod.Ram.{GuestRam}
use hyper_pod.Kvm.Loop.{run_loop}
use hyper_pod.Kvm.Termination.{is_final, has_ended, run_loop-is_final}
use hyper_pod.Kvm.Sample.{exits, machine, sys, cfg, idle}
use hyper_pod.Ram.Buffer.Sample.{host, host-IsDocumented}
use hyper_pod.Kvm.Run.{System, run_vm}
use hyper_pod.Kvm.Memory.{alloc_on, run_vm_on, forget, Frees, run_vm_on-Frees}
use hyper_pod.Kvm.Output.{sent, run_loop-sent}
use hyper_pod.Boot.{write_gdt}
use hyper_pod.Kvm.{configure_long_mode, kcs_selector, kds_selector, tss_selector}
use hyper_pod.Kvm.Segments.{segment_in, configure_long_mode-write_gdt}

abbrev ram : GuestRam
ram = record { size = 0x10000; cell = λ _. 0 }

configure_long_mode-write_gdt_example :
    let regs = configure_long_mode 0x1000000 in
    let cell = (write_gdt ram).1.cell in
    (segment_in cell regs.gdt_base kcs_selector ≡ regs.cs)
    × (segment_in cell regs.gdt_base kds_selector ≡ regs.ds)
    × (segment_in cell regs.gdt_base tss_selector
        ≡ record regs.tr { kind = 0b1001; g = 1; limit = 0x67fff })
configure_long_mode-write_gdt_example =
    configure_long_mode-write_gdt ram 0x1000000 (omega arith) (omega arith)

run_loop-is_final_example : has_ended (run_loop exits machine).0 ≡ any is_final exits
run_loop-is_final_example = run_loop-is_final exits machine

run_loop-sent_example : (run_loop exits machine).1.serial.out ≡ machine.serial.out ++ sent exits
run_loop-sent_example = run_loop-sent exits machine

abbrev contents : ℕ → ℕ → ℕ
contents p a = 0

abbrev hosted : System
hosted = record sys { alloc = alloc_on host contents sys cfg [] }

hosted_alloc : hosted.alloc ≡ alloc_on host contents hosted cfg []
unfolding alloc_on
hosted_alloc = refl

run_vm_on-Frees_example :
    (forget host contents hosted cfg (run_vm_on host contents hosted cfg ([], idle))
      ≡ run_vm hosted cfg idle)
    × Frees host contents hosted cfg [] (run_vm_on host contents hosted cfg ([], idle))
run_vm_on-Frees_example =
    run_vm_on-Frees host contents hosted cfg [] idle host-IsDocumented hosted_alloc
