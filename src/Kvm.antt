-- ===== src/Kvm.antt =====
-- The state that the virtual processor starts in, `configure_long_mode` of
-- hyperpod/src/vmm/linux/vm.rs. The registers that it does not set come from the hypervisor and are
-- left out.
pub mod Segments
pub mod Loop
pub mod Termination
pub mod Run
pub mod Startup
pub mod Output
pub mod Prints
pub mod Sample
pub mod Memory
mod Tests
use hyper_pod.Base.{ℕ, ◌+◌, ◌-◌, ◌*◌, ◌<<<◌, bit_or}
use hyper_pod.Boot.{
  boot_gdt_offset, boot_idt_offset, boot_stack_pointer, pml4_start, zero_page_start,
}

abbrev pub kcs_selector : ℕ
kcs_selector = 0x08

abbrev pub kds_selector : ℕ
kds_selector = 0x10

abbrev pub tss_selector : ℕ
tss_selector = 0x18

abbrev cr0_pe : ℕ
cr0_pe = 1

abbrev cr0_pg : ℕ
cr0_pg = 1 <<< 31

abbrev cr4_pae : ℕ
cr4_pae = 1 <<< 5

abbrev efer_lme : ℕ
efer_lme = 1 <<< 8

abbrev efer_lma : ℕ
efer_lma = 1 <<< 10

-- `kvm_segment`, without its padding.
pub record Segment : Type 0 where
  pub base : ℕ
  pub limit : ℕ
  pub selector : ℕ
  pub kind : ℕ
  pub present : ℕ
  pub dpl : ℕ
  pub db : ℕ
  pub s : ℕ
  pub l : ℕ
  pub g : ℕ
  pub avl : ℕ
  pub unusable : ℕ

-- `make_segment(selector, type_, s, db, l, g, limit)`
unfoldable pub make_segment : ℕ → ℕ → ℕ → ℕ → ℕ → ℕ → ℕ → Segment
make_segment selector kind s db l g limit = record {
  base = 0;
  limit = limit;
  selector = selector;
  kind = kind;
  present = 1;
  dpl = 0;
  db = db;
  s = s;
  l = l;
  g = g;
  avl = 0;
  unusable = 0;
}

pub record Registers : Type 0 where
  pub cs : Segment
  pub ds : Segment
  pub es : Segment
  pub fs : Segment
  pub gs : Segment
  pub ss : Segment
  pub tr : Segment
  pub gdt_base : ℕ
  pub gdt_limit : ℕ
  pub idt_base : ℕ
  pub idt_limit : ℕ
  pub cr0 : ℕ
  pub cr3 : ℕ
  pub cr4 : ℕ
  pub efer : ℕ
  pub rflags : ℕ
  pub rip : ℕ
  pub rsp : ℕ
  pub rsi : ℕ

unfoldable pub configure_long_mode : ℕ → Registers
configure_long_mode entry =
    let code = make_segment kcs_selector 0b1011 1 0 1 1 0xffff_ffff in
    let flat = make_segment kds_selector 0b0011 1 1 0 1 0xffff_ffff in
    record {
      cs = code;
      ds = flat;
      es = flat;
      fs = flat;
      gs = flat;
      ss = flat;
      tr = make_segment tss_selector 0b1011 0 0 0 0 0x67;
      gdt_base = boot_gdt_offset;
      gdt_limit = 8 * 4 - 1;
      idt_base = boot_idt_offset;
      idt_limit = 8 - 1;
      cr0 = bit_or cr0_pe cr0_pg;
      cr3 = pml4_start;
      cr4 = cr4_pae;
      efer = bit_or efer_lme efer_lma;
      rflags = 0x2;
      rip = entry;
      rsp = boot_stack_pointer;
      rsi = zero_page_start;
    }
