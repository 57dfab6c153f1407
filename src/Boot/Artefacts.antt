-- ===== src/Boot/Artefacts.antt =====
-- All boot artefacts in one memory: what `run_vm` of hyperpod/src/vmm/linux/vm.rs and windows/vm.rs
-- writes before it loads the kernel.
use hyper_pod.Base.{ℕ, ◌+◌, ◌*◌, ◌≤◌, ◌<◌, ◌≡◌, inl, inr, ◌∙◌, List, All, arith, length, u64_mod}
use hyper_pod.Base.Action.{Action, ◌>>◌, >>=-ok}
use hyper_pod.Ram.{GuestRam}
use hyper_pod.Ram.Memory.{word_at_ext}
use hyper_pod.Ram.Access.{IsValid}
use hyper_pod.Boot.{
  boot_gdt_offset, boot_idt_offset, zero_page_start, pml4_start, pdpte_start, pde_start,
  cmdline_start, himem_start, write_gdt, setup_page_tables, write_cmdline, write_zero_page,
}
use hyper_pod.Boot.Region.{IsLocal, Puts, Puts-keeps}
use hyper_pod.Boot.Identity.{AreTables, Maps-AreTables, setup_page_tables-Maps}
use hyper_pod.Boot.Gdt.{IsGdt, IsGdt-IsLocal, write_gdt-Puts}
use hyper_pod.Boot.Cmdline.{IsCmdline, IsCmdline-IsLocal, write_cmdline-Puts}
use hyper_pod.Boot.Page.{IsParams, IsParams-IsLocal, write_zero_page-Puts}

-- The four calls, for a command line and a memory size in bytes.
unfoldable pub write_artefacts : List ℕ → ℕ → Action GuestRam (Unit {0})
write_artefacts cmdline ram_bytes = do
  write_gdt
  setup_page_tables
  write_cmdline cmdline
  write_zero_page (length cmdline) ram_bytes

AreTables-IsLocal : IsLocal pml4_start (pde_start + 4096) AreTables
AreTables-IsLocal c d h t = record {
  root = word_at_ext 8 d c pml4_start (λ a p q. h a p (omega arith)) ∙ t.root;
  root_rest = λ a p q. h a (omega arith) (omega arith) ∙ t.root_rest a p q;
  pointers = word_at_ext 8 d c pdpte_start (λ a p q. h a (omega arith) (omega arith)) ∙ t.pointers;
  pointers_rest = λ a p q. h a (omega arith) (omega arith) ∙ t.pointers_rest a p q;
  directory = λ j p.
      word_at_ext 8 d c (pde_start + j * 8) (λ a q r. h a (omega arith) (omega arith))
      ∙ t.directory j p;
}

setup_page_tables-Puts :
    (ram : GuestRam)
    → IsValid ram
    → pde_start + 4096 ≤ ram.size
    → ((a : ℕ) → pml4_start ≤ a → a < pde_start → ram.cell a ≡ 0)
    → Puts pml4_start (pde_start + 4096) AreTables ram (setup_page_tables ram)
setup_page_tables-Puts ram v room zeros =
    let m = setup_page_tables-Maps ram v room in
    record {
      after = m.after;
      returns = m.returns;
      holds = Maps-AreTables ram m zeros;
      outside = λ a apart. m.outside a (ground arith);
    }

-- What the kernel finds in the memory below `himem_start`.
pub record AreArtefacts (cmdline : List ℕ) (ram_bytes : ℕ) (cell : ℕ → ℕ) : Type 0 where
  pub gdt : IsGdt cell
  pub tables : AreTables cell
  pub text : IsCmdline cmdline cell
  pub params : IsParams (length cmdline) ram_bytes cell

pub AreArtefacts-IsLocal :
    (cmdline : List ℕ) (ram_bytes : ℕ)
    → cmdline_start + length cmdline < himem_start
    → IsLocal 0 himem_start (AreArtefacts cmdline ram_bytes)
AreArtefacts-IsLocal cmdline ram_bytes short c d h all = record {
  gdt = IsGdt-IsLocal c d (λ a p q. h a (omega arith) (omega arith)) all.gdt;
  tables = AreTables-IsLocal c d (λ a p q. h a (omega arith) (omega arith)) all.tables;
  text = IsCmdline-IsLocal cmdline c d (λ a p q. h a (omega arith) (omega arith)) all.text;
  params =
      IsParams-IsLocal (length cmdline) ram_bytes c d (λ a p q. h a (omega arith) (omega arith))
        all.params;
}

-- In fresh memory of a MiB or more, the artefacts of a command line that ends below the first MiB are
-- all written, and none of them damages another.
pub write_artefacts-Puts :
    (cmdline : List ℕ) (ram_bytes : ℕ) (ram : GuestRam)
    → IsValid ram
    → himem_start ≤ ram.size
    → ((a : ℕ) → pml4_start ≤ a → a < pde_start → ram.cell a ≡ 0)
    → cmdline_start + length cmdline < himem_start
    → All (λ b. 0 < b) cmdline
    → ram_bytes < u64_mod
    → Puts 0 himem_start
        (AreArtefacts cmdline ram_bytes)
        ram
        (write_artefacts cmdline ram_bytes ram)
unfolding write_artefacts
write_artefacts-Puts cmdline ram_bytes ram v room zeros short text fits = record {
  after = params.after;
  returns =
      >>=-ok write_gdt
        (λ _.
          setup_page_tables
          >> (write_cmdline cmdline >> write_zero_page (length cmdline) ram_bytes))
        ram gdt.returns
      ∙ >>=-ok setup_page_tables
          (λ _. write_cmdline cmdline >> write_zero_page (length cmdline) ram_bytes) with_gdt
          tables.returns
      ∙ >>=-ok (write_cmdline cmdline) (λ _. write_zero_page (length cmdline) ram_bytes) with_tables
          line.returns
      ∙ params.returns;
  holds = record {
    gdt = Puts-keeps params IsGdt-IsLocal (inr (omega arith)) (
        Puts-keeps line IsGdt-IsLocal (inr (omega arith))
          (Puts-keeps tables IsGdt-IsLocal (inr (omega arith)) gdt.holds));
    tables =
        Puts-keeps params AreTables-IsLocal (inl (omega arith))
          (Puts-keeps line AreTables-IsLocal (inr (omega arith)) tables.holds);
    text = Puts-keeps params (IsCmdline-IsLocal cmdline) (inl (omega arith)) line.holds;
    params = params.holds;
  };
  outside = λ a apart.
      params.outside a (ground arith)
      ∙ line.outside a (ground arith)
      ∙ tables.outside a (ground arith)
      ∙ gdt.outside a (ground arith);
}
  where
    gdt : Puts boot_gdt_offset (boot_idt_offset + 8) IsGdt ram (write_gdt ram)
    gdt = write_gdt-Puts ram v (omega arith)

    with_gdt : GuestRam
    with_gdt = record ram { cell = gdt.after }

    tables : Puts pml4_start (pde_start + 4096) AreTables with_gdt (setup_page_tables with_gdt)
    tables =
        setup_page_tables-Puts with_gdt v (omega arith)
          (λ a p q. gdt.outside a (inr (omega arith)) ∙ zeros a p q)

    with_tables : GuestRam
    with_tables = record ram { cell = tables.after }

    line :
        Puts cmdline_start
          (cmdline_start + length cmdline + 1)
          (IsCmdline cmdline)
          with_tables
          (write_cmdline cmdline with_tables)
    line = write_cmdline-Puts cmdline with_tables v (omega arith) text

    with_line : GuestRam
    with_line = record ram { cell = line.after }

    params :
        Puts zero_page_start
          (zero_page_start + 4096)
          (IsParams (length cmdline) ram_bytes)
          with_line
          (write_zero_page (length cmdline) ram_bytes with_line)
    params =
        write_zero_page-Puts (length cmdline) ram_bytes with_line v (omega arith) (omega arith) fits
