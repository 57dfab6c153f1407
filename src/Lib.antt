-- ===== src/Lib.antt =====
-- HyperPod runs one Linux guest in a virtual machine (KVM on Linux, the Windows Hypervisor
-- Platform on Windows). `hyperpod start` loads a HyperPod file, finds out the format of the root
-- image, allocates the guest's memory, loads the kernel into it, writes what the kernel needs to
-- boot, and runs the virtual processor, while a monitor thread raises and lowers the process's CPU
-- shares with the load of the host.
--
-- The parts, and the files that model them (the paths are those of the repository):
-- - hyperpod/src/config.rs: Config; what `load` admits is in Config/Admission.
-- - hyperpod/src/scaling/mod.rs: Scaling (`next_shares` is the middle of `tick`, and `run_rounds`
--   the loop of `run_loop`), with the comparison of `f64` in Scaling/Float. Scaling/Threads is the
--   same code in single steps beside the thread of `run_vm`, which raises the flag;
--   Threads/Refines and Threads/Order compare the two, Threads/Bounds and Threads/Shutdown are
--   about all orders of the steps.
-- - hyperpod/src/scaling/probes.rs: Probes is `windows_impl`, Probes/Linux is `linux_impl`, over
--   the strings of Probes/Text. Probes/Elapsed and Probes/Loads are about the loads it reports,
--   Probes/Cgroup and Probes/Discovery about the path of the share file, Probes/Decimal about what
--   is written to it, and Probes/Told goes from the HyperPod file to what both sinks pass on.
-- - hyperpod/src/vmm/common/ram.rs: Ram (`GuestRam`). A memory is its size and a function from
--   offsets to bytes; Ram/Memory has the laws of that function, Ram/Access those of the accessors,
--   Ram/Patch the effect of a run of integer writes. Ram/Buffer is the host's side: `alloc`,
--   `free` and `Drop` on each operating system, with what they do to the mappings of the process
--   in Buffer/Mappings and Buffer/Balance.
-- - hyperpod/src/vmm/common/boot.rs: Boot, one function for each of the source, and one for each
--   loop. Boot/Walk is the processor's address translation, Boot/Tables and Boot/Identity the page
--   tables, Boot/Gdt, Boot/Params, Boot/Page and Boot/Cmdline the other artefacts, and
--   Boot/Artefacts all of them in one memory, by the parts of it that each of them owns
--   (Boot/Region).
-- - hyperpod/src/vmm/common/elf.rs: Elf, with the file header in Elf/Fields; Elf/Image describes
--   the segments of a file, Elf/Loop compares them with what the loader does, Elf/Wrap is about
--   program headers near the end of the address range, and Elf/Success about the files that are
--   loaded.
-- - hyperpod/src/vmm/common/device/throttle.rs: Throttle, with Invariant, Rate and Retry below it.
-- - hyperpod/src/vmm/common/storage: Storage is mod.rs, Storage/Raw and Storage/Vhd are the
--   backends, Storage/DiskFile the file that they work on; Storage/Device states the contract of
--   `BlockBackend`, which Storage/Device/Fulfils takes up for both, and
--   Storage/Device/Fulfils/Volumes goes from an image file to its sectors, and Fulfils/Footer
--   compares the two backends by Storage/Device/Alike. Storage/Volume forgets the backend: it is a
--   quotient by what clients can tell. Storage/Open and Storage/Detect are about opening.
-- - hyperpod/src/vmm/common/device/mmio.rs: Mmio is the register file, Mmio/Queue the queues and
--   the walk over descriptors, Mmio/Pop is `DescriptorChain::pop`; Mmio/Registers and Mmio/Chain
--   are about these, Mmio/Readback, Readback/Values and Readback/Space about what reads give after
--   writes, and Mmio/Publish is a driver that puts a request into a queue.
-- - hyperpod/src/vmm/common/serial.rs: Serial, and Serial/Console for a guest that prints.
-- - hyperpod/src/vmm/linux/vm.rs and windows/vm.rs: Vm is what both do to memory, Vm/Ready is
--   about the memory that the guest starts from, Vm/Progress about getting there. Vm/Ending is
--   code that may not have ended yet.
-- - hyperpod/src/vmm/linux/vm.rs: Kvm is the start state of the processor, Kvm/Loop the exit loop,
--   Kvm/Run is `run_vm`. Kvm/Segments compares the segments with the descriptors in memory,
--   Kvm/Startup is about the order of the calls, Kvm/Termination about the end of the loop,
--   Kvm/Output and Kvm/Prints about what the guest puts out. Kvm/Memory is `run_vm` with the
--   host's mappings, up to the release of the memory.
-- - hyperpod/src/vmm/windows: Whpx is the start state of the processor, Whpx/Partition is
--   partition.rs, Whpx/Loop the exit loop and Whpx/Run the `run_vm` of vm.rs. Whpx/Resources is
--   the protocol of memory, partition and monitor, which Whpx/Release takes up for the whole of
--   `run_vm`; Whpx/Rounds and Whpx/Termination are about the loop, Whpx/Access about the register
--   of a read. Vm/Backends compares the loops of the two machines, where no access to a port moves a
--   string, by way of Backends/Rax, and Vm/Output takes the output over.
-- - hyperpod/src/main.rs, cli.rs, commands and vmm/stub.rs: Commands, with Commands/Start about
--   `start` on any system, Commands/Guest about `start` on Windows and Commands/Linux about
--   `start` on Linux.
-- - Base passes on what all parts share: numbers and their tests, lists, words of 8 to 128 bits
--   and their bytes, and how Rust code ends (Base/Results: a value, an error or a panic;
--   Base/Action: the same with a state that keeps what was written before an error).
--
-- Conventions. An unsigned integer is a natural number with the wrap written out where the source
-- may pass the width; `usize` has 64 bits. Arithmetic is that of a release build, where an
-- overflow wraps. An error is its message, without the values in it. Loops over a range or a list
-- are recursions on it, so they run out of no fuel. Fuel has `trim_start_matches` with a string,
-- whose fuel is the length of the text (Probes/Trim), a number's digits, of which a u64 has at
-- most 20, and the exit loop on Windows, since the guest decides how long it runs: it is given a
-- number of rounds, and Whpx/Termination says how many are enough. The exits of the loop on Linux
-- are a list, and at its end the guest still runs. Files, paths and texts are lists of bytes or
-- code points.
--
-- Not modelled: what the hypervisors, the operating systems, the TOML parser and the parser of the
-- command line do, which are parameters; the operating system's own failures of a seek, a read or
-- a write in an open disk image; what could come between the parts of a method that holds a lock
-- for its whole length, or of one access to an atomic, each of which is one step; the arithmetic of
-- doubles; and messages.
pub mod Base
pub mod Config
pub mod Scaling
pub mod Ram
pub mod Boot
pub mod Elf
pub mod Throttle
pub mod Storage
pub mod Mmio
pub mod Serial
pub mod Vm
pub mod Kvm
pub mod Whpx
pub mod Probes
pub mod Commands
