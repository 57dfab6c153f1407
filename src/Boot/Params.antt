-- ===== src/Boot/Params.antt =====
-- The `boot_params` page of `write_zero_page` (hyperpod/src/vmm/common/boot.rs), as the kernel reads it.
use hyper_pod.Base.{
  ℕ, zero, ◌+◌, ◌-◌, ◌%◌, ◌<◌, ◌≡◌, refl, true, false, Bool, ◌∙◌, ◌^◌, suc, some, inl, inr, List,
  [], ◌∷◌, ◌++◌, arith, ltb, Bool-cases, if◌then◌else◌, u32_mod, u64_mod, get_elem?, drop,
}
use hyper_pod.Ram.{write_obj}
use hyper_pod.Ram.Memory.{word_at}
use hyper_pod.Ram.Patch.{
  Patch, patched, Writes, Writes-pure, Writes-write_obj, Writes-bind, Writes-then, word_at-patched,
  clear,
}
use hyper_pod.Boot.{
  zero_page_start, cmdline_start, himem_start, kernel_hdr_magic, kernel_boot_flag_magic,
  kernel_loader_other, kernel_min_align, boot_protocol_version, e820_ram, offset_e820_entries,
  offset_hdr_boot_flag, offset_hdr_header, offset_hdr_version, offset_hdr_type_of_loader,
  offset_hdr_cmd_line_ptr, offset_hdr_kernel_alignment, offset_hdr_cmdline_size, offset_e820_table,
  write_e820, write_zero_page,
}

abbrev field : ℕ → ℕ → ℕ → Patch
field off width val = record { off = zero_page_start + off; width = width; val = val }

-- The entry, if the memory reaches past `himem_start`.
abbrev e820_patches : Bool → ℕ → List Patch
e820_patches above ram_bytes =
    if above
    then field offset_e820_table 8 himem_start
      ∷ field (offset_e820_table + 8) 8 (ram_bytes - himem_start)
      ∷ field (offset_e820_table + 16) 4 e820_ram
      ∷ []
    else []

-- The number of entries that `write_e820` reports.
abbrev pub e820_count : ℕ → ℕ
e820_count ram_bytes = if ltb himem_start ram_bytes then 1 else 0

write_e820-Writes :
    (ram_bytes : ℕ)
    → Writes
        (e820_patches (ltb himem_start ram_bytes) ram_bytes)
        (e820_count ram_bytes)
        (write_e820 ram_bytes)
unfolding write_e820
write_e820-Writes ram_bytes = elim (Bool-cases (ltb himem_start ram_bytes)) [
  | inl above ↦
      rw above (Writes-then _ _ _ _ (Writes-then _ _ _ _ (Writes-then _ _ _ _ (Writes-pure 1))))
  | inr below ↦ rw below (Writes-pure 0)
]

abbrev pub params_with : Bool → ℕ → ℕ → List Patch
params_with above cmdline_len ram_bytes =
    field offset_hdr_boot_flag 2 kernel_boot_flag_magic
      ∷ field offset_hdr_header 4 kernel_hdr_magic
      ∷ field offset_hdr_version 2 boot_protocol_version
      ∷ field offset_hdr_type_of_loader 1 kernel_loader_other
      ∷ field offset_hdr_kernel_alignment 4 kernel_min_align
      ∷ field offset_hdr_cmd_line_ptr 4 (cmdline_start % u32_mod)
      ∷ field offset_hdr_cmdline_size 4 (cmdline_len % u32_mod)
      ∷ e820_patches above ram_bytes
    ++ field offset_e820_entries 1 (if above then 1 else 0) ∷ []

abbrev pub params_patches : ℕ → ℕ → List Patch
params_patches cmdline_len ram_bytes = params_with (ltb himem_start ram_bytes) cmdline_len ram_bytes

pub write_zero_page-Writes :
    (cmdline_len ram_bytes : ℕ)
    → Writes (params_patches cmdline_len ram_bytes) tt (write_zero_page cmdline_len ram_bytes)
unfolding write_zero_page
write_zero_page-Writes cmdline_len ram_bytes = Writes-then _ _ _ _ (
    Writes-then _ _ _ _ (
      Writes-then _ _ _ _ (
        Writes-then _ _ _ _ (
          Writes-then _ _ _ _ (
            Writes-then _ _ _ _ (
              Writes-then _ _ _ _ (
                Writes-bind (write_e820 ram_bytes)
                  (λ count. write_obj 1 (zero_page_start + offset_e820_entries) count)
                  (write_e820-Writes ram_bytes) (Writes-write_obj _ _ _))))))))

-- The fields of the setup header, as a kernel reads them.
pub record HasHeader (cell : ℕ → ℕ) (cmdline_len : ℕ) : Type 0 where
  pub boot_flag : word_at 2 cell (zero_page_start + offset_hdr_boot_flag) ≡ kernel_boot_flag_magic
  pub header : word_at 4 cell (zero_page_start + offset_hdr_header) ≡ kernel_hdr_magic
  pub version : word_at 2 cell (zero_page_start + offset_hdr_version) ≡ boot_protocol_version
  pub loader : word_at 1 cell (zero_page_start + offset_hdr_type_of_loader) ≡ kernel_loader_other
  pub alignment : word_at 4 cell (zero_page_start + offset_hdr_kernel_alignment) ≡ kernel_min_align
  pub cmd_line_ptr : word_at 4 cell (zero_page_start + offset_hdr_cmd_line_ptr) ≡ cmdline_start
  pub cmdline_size : word_at 4 cell (zero_page_start + offset_hdr_cmdline_size) ≡ cmdline_len

-- An entry of the memory map, and the map as a kernel reads it: as many entries as the count says,
-- of twenty bytes each.
pub record E820Entry : Type 0 where
  pub base : ℕ
  pub size : ℕ
  pub kind : ℕ

unfoldable pub read_e820_from : (ℕ → ℕ) → ℕ → ℕ → List E820Entry
read_e820_from cell off zero = []
read_e820_from cell off (suc n) =
    record {
      base = word_at 8 cell off;
      size = word_at 8 cell (off + 8);
      kind = word_at 4 cell (off + 16);
    }
    ∷ read_e820_from cell (off + 20) n

unfoldable pub read_e820 : (ℕ → ℕ) → List E820Entry
read_e820 cell =
    read_e820_from cell (zero_page_start + offset_e820_table)
      (word_at 1 cell (zero_page_start + offset_e820_entries))

-- What it should be: all memory from `himem_start` on.
abbrev pub e820_map : ℕ → List E820Entry
e820_map ram_bytes =
    if ltb himem_start ram_bytes
    then record { base = himem_start; size = ram_bytes - himem_start; kind = e820_ram } ∷ []
    else []

module _ (cell : ℕ → ℕ) (cmdline_len ram_bytes : ℕ) where
  -- A field that stands in both forms of the page reads back in either.
  field_at :
      (above : Bool) (k : ℕ) (p : Patch)
      → get_elem? (params_with true cmdline_len ram_bytes) k ≡ some p
      → get_elem? (params_with false cmdline_len ram_bytes) k ≡ some p
      → clear (drop (suc k) (params_with true cmdline_len ram_bytes)) p.off p.width ≡ true
      → clear (drop (suc k) (params_with false cmdline_len ram_bytes)) p.off p.width ≡ true
      → p.val < 256 ^ p.width
      → word_at p.width (patched cell (params_with above cmdline_len ram_bytes)) p.off ≡ p.val
  field_at true k p at _ later _ =
      word_at-patched (params_with true cmdline_len ram_bytes) k cell p at later
  field_at false k p _ at _ later =
      word_at-patched (params_with false cmdline_len ram_bytes) k cell p at later

  pub params_patches-HasHeader :
      cmdline_len < u32_mod
      → HasHeader (patched cell (params_patches cmdline_len ram_bytes)) cmdline_len
  params_patches-HasHeader h =
      let above = ltb himem_start ram_bytes in
      let wrap : cmdline_len % u32_mod ≡ cmdline_len = omega arith in
      record {
        boot_flag = field_at above 0 _ refl refl refl refl (omega arith);
        header = field_at above 1 _ refl refl refl refl (omega arith);
        version = field_at above 2 _ refl refl refl refl (omega arith);
        loader = field_at above 3 _ refl refl refl refl (omega arith);
        alignment = field_at above 4 _ refl refl refl refl (omega arith);
        cmd_line_ptr = field_at above 5 _ refl refl refl refl (omega arith);
        cmdline_size = field_at above 6 _ refl refl refl refl (omega arith) ∙ wrap;
      }

  entry_at :
      (k : ℕ) (p : Patch)
      → get_elem? (params_with true cmdline_len ram_bytes) k ≡ some p
      → clear (drop (suc k) (params_with true cmdline_len ram_bytes)) p.off p.width ≡ true
      → p.val < 256 ^ p.width
      → word_at p.width (patched cell (params_with true cmdline_len ram_bytes)) p.off ≡ p.val
  entry_at k p at later fits =
      word_at-patched (params_with true cmdline_len ram_bytes) k cell p at later fits

  pub read_e820-params_with :
      ram_bytes < u64_mod
      → (above : Bool)
      → read_e820 (patched cell (params_with above cmdline_len ram_bytes)) ≡ (
          if above
          then record { base = himem_start; size = ram_bytes - himem_start; kind = e820_ram } ∷ []
          else [])
  unfolding read_e820 read_e820_from
  read_e820-params_with h true =
      rw
        (
          entry_at 10 _ refl refl (omega arith),
          entry_at 7 _ refl refl (omega arith),
          entry_at 8 _ refl refl (omega arith),
          entry_at 9 _ refl refl (omega arith),
        )
        refl
  read_e820-params_with h false =
      rw
        (word_at-patched (params_with false cmdline_len ram_bytes) 7 cell _ refl refl (omega arith))
        refl
