-- ===== src/Whpx.antt =====
-- The state that the virtual processor starts in on Windows, `set_long_mode_registers` of
-- hyperpod/src/vmm/windows/vm.rs.
pub mod Partition
pub mod Loop
pub mod Run
pub mod Resources
pub mod Release
pub mod Access
pub mod Rounds
pub mod Termination
pub mod Sample
mod Tests
use hyper_pod.Base.{ℕ, List, [], ◌∷◌, ◌<<<◌, bit_or}
use hyper_pod.Boot.{
  boot_gdt_offset, boot_idt_offset, boot_stack_pointer, pml4_start, zero_page_start,
}

abbrev pub kcs_selector : ℕ
kcs_selector = 0x08

abbrev pub kds_selector : ℕ
kds_selector = 0x10

abbrev pub tss_selector : ℕ
tss_selector = 0x18

abbrev cr0_pe : ℕ
cr0_pe = 1

abbrev cr0_pg : ℕ
cr0_pg = 1 <<< 31

abbrev cr4_pae : ℕ
cr4_pae = 1 <<< 5

abbrev efer_lme : ℕ
efer_lme = 1 <<< 8

abbrev efer_lma : ℕ
efer_lma = 1 <<< 10

-- `WHV_X64_SEGMENT_REGISTER` and `WHV_X64_TABLE_REGISTER`
pub record Segment : Type 0 where
  pub base : ℕ
  pub limit : ℕ
  pub selector : ℕ
  pub attributes : ℕ

pub record Table : Type 0 where
  pub limit : ℕ
  pub base : ℕ

-- The register names that the program uses.
pub data Name : Type 0 where
  cs ds es fs gs ss tr ldtr gdtr idtr cr0 cr3 cr4 efer rflags rip rsp rsi rax : Name

-- `WHV_REGISTER_VALUE`
pub data Value : Type 0 where
  segment : Segment → Value
  table : Table → Value
  reg64 : ℕ → Value

unfoldable pub make_segment : ℕ → ℕ → ℕ → Segment
make_segment selector attributes limit = record {
  base = 0;
  limit = limit;
  selector = selector;
  attributes = attributes;
}

unfoldable pub make_table : ℕ → ℕ → Table
make_table base limit = record { limit = limit; base = base }

-- `names` and `values` of `set_long_mode_registers`, side by side.
unfoldable pub long_mode_registers : ℕ → List (Name × Value)
long_mode_registers entry =
    let code = make_segment kcs_selector 0xa09b 0xffff_ffff in
    let flat = make_segment kds_selector 0xc093 0xffff_ffff in
    let task = make_segment tss_selector 0x008b 0x67 in
    let local = make_segment 0 0x0082 0xffff in
    (Name.cs, segment code)
    ∷ (Name.ds, segment flat)
    ∷ (Name.es, segment flat)
    ∷ (Name.fs, segment flat)
    ∷ (Name.gs, segment flat)
    ∷ (Name.ss, segment flat)
    ∷ (Name.tr, segment task)
    ∷ (Name.ldtr, segment local)
    ∷ (Name.gdtr, table (make_table boot_gdt_offset 31))
    ∷ (Name.idtr, table (make_table boot_idt_offset 7))
    ∷ (Name.cr0, reg64 (bit_or cr0_pe cr0_pg))
    ∷ (Name.cr3, reg64 pml4_start)
    ∷ (Name.cr4, reg64 cr4_pae)
    ∷ (Name.efer, reg64 (bit_or efer_lme efer_lma))
    ∷ (Name.rflags, reg64 0x2)
    ∷ (Name.rip, reg64 entry)
    ∷ (Name.rsp, reg64 boot_stack_pointer)
    ∷ (Name.rsi, reg64 zero_page_start)
    ∷ []
