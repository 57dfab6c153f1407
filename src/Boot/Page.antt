-- ===== src/Boot/Page.antt =====
-- The `boot_params` page as a region of memory (hyperpod/src/vmm/common/boot.rs).
use hyper_pod.Base.{
  length, ap, ℕ, zero, ◌≤◌, ok, ◌+◌, ◌<◌, ◌≡◌, refl, true, false, Bool, ◌∙◌, suc, arith, ltb,
  u32_mod, u64_mod, ◌*◌,
}
use hyper_pod.Ram.{GuestRam}
use hyper_pod.Ram.Access.{IsValid}
use hyper_pod.Ram.Memory.{word_at, word_at_ext}
use hyper_pod.Ram.Patch.{patched, Below, patched_outside, Within}
use hyper_pod.Boot.Region.{IsLocal, Puts}
use hyper_pod.Boot.{
  zero_page_start, himem_start, offset_e820_entries, offset_hdr_boot_flag, offset_hdr_header,
  offset_hdr_version, offset_hdr_type_of_loader, offset_hdr_cmd_line_ptr,
  offset_hdr_kernel_alignment, offset_hdr_cmdline_size, offset_e820_table, write_zero_page,
}
use hyper_pod.Boot.Params.{
  params_with, params_patches, write_zero_page-Writes, HasHeader, read_e820_from, read_e820,
  e820_map, params_patches-HasHeader, read_e820-params_with,
}

-- The page, as the kernel reads it.
pub record IsParams (cmdline_len ram_bytes : ℕ) (cell : ℕ → ℕ) : Type 0 where
  pub has_header : HasHeader cell cmdline_len
  pub has_map : read_e820 cell ≡ e820_map ram_bytes

length-e820_map : (ram_bytes : ℕ) → length (e820_map ram_bytes) ≤ 1
length-e820_map ram_bytes = ground arith

read_e820_from_ext :
    (c d : ℕ → ℕ) (off n : ℕ)
    → ((a : ℕ) → off ≤ a → a < off + n * 20 → d a ≡ c a)
    → read_e820_from d off n ≡ read_e820_from c off n
unfolding read_e820_from
read_e820_from_ext c d off zero h = refl
read_e820_from_ext c d off (suc n) h =
    rw
      (
        word_at_ext 8 d c off (λ a p q. h a p (omega arith)),
        word_at_ext 8 d c (off + 8) (λ a p q. h a (omega arith) (omega arith)),
        word_at_ext 4 d c (off + 16) (λ a p q. h a (omega arith) (omega arith)),
        read_e820_from_ext c d (off + 20) n (λ a p q. h a (omega arith) (omega arith)),
      )
      refl

length-read_e820_from : (cell : ℕ → ℕ) (off n : ℕ) → length (read_e820_from cell off n) ≡ n
unfolding read_e820_from
length-read_e820_from cell off zero = refl
length-read_e820_from cell off (suc n) = ap suc (length-read_e820_from cell (off + 20) n)

pub IsParams-IsLocal :
    (cmdline_len ram_bytes : ℕ)
    → IsLocal zero_page_start (zero_page_start + 4096) (IsParams cmdline_len ram_bytes)
unfolding read_e820
IsParams-IsLocal cmdline_len ram_bytes c d h page = record {
  has_header = record {
    boot_flag = same 2 offset_hdr_boot_flag (omega arith) ∙ page.has_header.boot_flag;
    header = same 4 offset_hdr_header (omega arith) ∙ page.has_header.header;
    version = same 2 offset_hdr_version (omega arith) ∙ page.has_header.version;
    loader = same 1 offset_hdr_type_of_loader (omega arith) ∙ page.has_header.loader;
    alignment = same 4 offset_hdr_kernel_alignment (omega arith) ∙ page.has_header.alignment;
    cmd_line_ptr = same 4 offset_hdr_cmd_line_ptr (omega arith) ∙ page.has_header.cmd_line_ptr;
    cmdline_size = same 4 offset_hdr_cmdline_size (omega arith) ∙ page.has_header.cmdline_size;
  };
  has_map = rw (same 1 offset_e820_entries (omega arith)) (
      read_e820_from_ext c d (zero_page_start + offset_e820_table) count
        (λ a p q. h a (omega arith) (omega (arith, few)))
      ∙ page.has_map);
}
  where
    same :
        (w off : ℕ)
        → off + w ≤ 4096
        → word_at w d (zero_page_start + off) ≡ word_at w c (zero_page_start + off)
    same w off fits =
        word_at_ext w d c (zero_page_start + off) (λ a p q. h a (omega arith) (omega arith))

    count : ℕ
    count = word_at 1 c (zero_page_start + offset_e820_entries)

    few : count ≤ 1
    few = omega (
      arith,
      length-read_e820_from c (zero_page_start + offset_e820_table) count,
      ap length page.has_map,
      length-e820_map ram_bytes,
    )

pub write_zero_page-Puts :
    (cmdline_len ram_bytes : ℕ) (ram : GuestRam)
    → IsValid ram
    → zero_page_start + 4096 ≤ ram.size
    → cmdline_len < u32_mod
    → ram_bytes < u64_mod
    → Puts zero_page_start
        (zero_page_start + 4096)
        (IsParams cmdline_len ram_bytes)
        ram
        (write_zero_page cmdline_len ram_bytes ram)
write_zero_page-Puts cmdline_len ram_bytes ram v room small fits = record {
  after = patched ram.cell (params_patches cmdline_len ram_bytes);
  returns =
      (write_zero_page-Writes cmdline_len ram_bytes).at ram v (below (ltb himem_start ram_bytes));
  holds = record {
    has_header = params_patches-HasHeader ram.cell cmdline_len ram_bytes small;
    has_map = read_e820-params_with ram.cell cmdline_len ram_bytes fits (ltb himem_start ram_bytes);
  };
  outside = λ a.
      patched_outside zero_page_start (zero_page_start + 4096) ram.cell
        (params_patches cmdline_len ram_bytes) a (within (ltb himem_start ram_bytes));
}
  where
    below : (above : Bool) → Below ram.size (params_with above cmdline_len ram_bytes)
    below true = ground arith
    below false = ground arith

    within :
        (above : Bool)
        → Within zero_page_start (zero_page_start + 4096) (params_with above cmdline_len ram_bytes)
    within true = ground arith
    within false = ground arith

-- In memory that holds the page, `write_zero_page` returns, and what it leaves is a setup header
-- that points to the command line and gives its length, and a memory map of one entry, for all the
-- memory from `himem_start` on, or of none when the memory ends before that.
pub write_zero_page-boot_params :
    (cmdline_len ram_bytes : ℕ) (ram : GuestRam)
    → IsValid ram
    → zero_page_start + 4096 ≤ ram.size
    → cmdline_len < u32_mod
    → ram_bytes < u64_mod
    → (ram' : GuestRam) × (write_zero_page cmdline_len ram_bytes ram ≡ (ok tt, ram'))
      × HasHeader ram'.cell cmdline_len
      × (read_e820 ram'.cell ≡ e820_map ram_bytes)
write_zero_page-boot_params cmdline_len ram_bytes ram v room small fits =
    let p = write_zero_page-Puts cmdline_len ram_bytes ram v room small fits in
    (record ram { cell = p.after }, p.returns, p.holds.has_header, p.holds.has_map)
