-- ===== src/Boot.antt =====
-- The boot artefacts in guest memory, hyperpod/src/vmm/common/boot.rs: the GDT, the page tables,
-- the kernel command line and the `boot_params` page. No address computed here passes `u64`.
pub mod Walk
pub mod Tables
pub mod Identity
pub mod Gdt
pub mod Params
pub mod Cmdline
pub mod Region
pub mod Page
pub mod Artefacts
mod Tests
use hyper_pod.Base.{
  ℕ, zero, suc, ◌+◌, ◌-◌, ◌*◌, ◌%◌, List, [], ◌∷◌, bit_or, length, ltb, if◌then◌else◌, ◌<<<◌,
  u32_mod,
}
use hyper_pod.Base.Action.{Action, pure, ◌>>=◌, ◌>>◌}
use hyper_pod.Ram.{GuestRam, write_slice, write_obj}

abbrev pub boot_gdt_offset : ℕ
boot_gdt_offset = 0x500

abbrev pub boot_idt_offset : ℕ
boot_idt_offset = 0x520

abbrev pub zero_page_start : ℕ
zero_page_start = 0x7000

abbrev pub boot_stack_pointer : ℕ
boot_stack_pointer = 0x8ff0

abbrev pub pml4_start : ℕ
pml4_start = 0x9000

abbrev pub pdpte_start : ℕ
pdpte_start = 0xa000

abbrev pub pde_start : ℕ
pde_start = 0xb000

abbrev pub cmdline_start : ℕ
cmdline_start = 0x20000

abbrev pub himem_start : ℕ
himem_start = 0x100000

-- The words of the Linux boot protocol, and their offsets in `boot_params`.
abbrev pub kernel_hdr_magic : ℕ
kernel_hdr_magic = 0x5372_6448

abbrev pub kernel_boot_flag_magic : ℕ
kernel_boot_flag_magic = 0xaa55

abbrev pub kernel_loader_other : ℕ
kernel_loader_other = 0xff

abbrev pub kernel_min_align : ℕ
kernel_min_align = 0x0100_0000

abbrev pub boot_protocol_version : ℕ
boot_protocol_version = 0x020c

abbrev pub e820_ram : ℕ
e820_ram = 1

abbrev pub offset_e820_entries : ℕ
offset_e820_entries = 0x1e8

abbrev pub offset_hdr_boot_flag : ℕ
offset_hdr_boot_flag = 0x1fe

abbrev pub offset_hdr_header : ℕ
offset_hdr_header = 0x202

abbrev pub offset_hdr_version : ℕ
offset_hdr_version = 0x206

abbrev pub offset_hdr_type_of_loader : ℕ
offset_hdr_type_of_loader = 0x210

abbrev pub offset_hdr_cmd_line_ptr : ℕ
offset_hdr_cmd_line_ptr = 0x228

abbrev pub offset_hdr_kernel_alignment : ℕ
offset_hdr_kernel_alignment = 0x230

abbrev pub offset_hdr_cmdline_size : ℕ
offset_hdr_cmdline_size = 0x238

abbrev pub offset_e820_table : ℕ
offset_e820_table = 0x2d0

-- null / 64-bit kernel code / kernel data / TSS
abbrev pub gdt_entries : List ℕ
gdt_entries = 0 ∷ 0x00af_9b00_0000_ffff ∷ 0x00cf_9300_0000_ffff ∷ 0x0080_8900_0000_0067 ∷ []

-- The loop of `write_gdt`, from index `i` on.
unfoldable pub write_entries : ℕ → List ℕ → Action GuestRam (Unit {0})
write_entries i [] = pure tt
write_entries i (entry ∷ rest) = do
  write_obj 8 (boot_gdt_offset + i * 8) entry
  write_entries (i + 1) rest

unfoldable pub write_gdt : Action GuestRam (Unit {0})
write_gdt = do write_entries 0 gdt_entries; write_obj 8 boot_idt_offset 0

-- present | writable | huge, for the 2 MiB page `i`
abbrev pub pde : ℕ → ℕ
pde i = bit_or (i <<< 21) 0x83

-- The loop of `setup_page_tables`, from index `i` on, with `left` rounds to go.
unfoldable pub write_pdes : ℕ → ℕ → Action GuestRam (Unit {0})
write_pdes zero i = pure tt
write_pdes (suc left) i = do write_obj 8 (pde_start + i * 8) (pde i); write_pdes left (i + 1)

unfoldable pub setup_page_tables : Action GuestRam (Unit {0})
setup_page_tables = do
  write_obj 8 pml4_start (bit_or pdpte_start 0x3)
  write_obj 8 pdpte_start (bit_or pde_start 0x3)
  write_pdes 512 0

-- `cmdline` is the bytes of the text.
unfoldable pub write_cmdline : List ℕ → Action GuestRam (Unit {0})
write_cmdline bytes = do
  write_slice cmdline_start bytes
  write_obj 1 (cmdline_start + length bytes) 0

-- The one e820 entry, for the memory above `himem_start`; returns the number of entries.
unfoldable pub write_e820 : ℕ → Action GuestRam ℕ
write_e820 ram_bytes =
    if ltb himem_start ram_bytes
    then (do
      write_obj 8 (zero_page_start + offset_e820_table) himem_start
      write_obj 8 (zero_page_start + offset_e820_table + 8) (ram_bytes - himem_start)
      write_obj 4 (zero_page_start + offset_e820_table + 16) e820_ram
      pure 1)
    else pure 0

unfoldable pub write_zero_page : ℕ → ℕ → Action GuestRam (Unit {0})
write_zero_page cmdline_len ram_bytes = do
  write_obj 2 (zero_page_start + offset_hdr_boot_flag) kernel_boot_flag_magic
  write_obj 4 (zero_page_start + offset_hdr_header) kernel_hdr_magic
  write_obj 2 (zero_page_start + offset_hdr_version) boot_protocol_version
  write_obj 1 (zero_page_start + offset_hdr_type_of_loader) kernel_loader_other
  write_obj 4 (zero_page_start + offset_hdr_kernel_alignment) kernel_min_align
  write_obj 4 (zero_page_start + offset_hdr_cmd_line_ptr) (cmdline_start % u32_mod)
  write_obj 4 (zero_page_start + offset_hdr_cmdline_size) (cmdline_len % u32_mod)
  count ← write_e820 ram_bytes
  write_obj 1 (zero_page_start + offset_e820_entries) count
