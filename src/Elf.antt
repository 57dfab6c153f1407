-- ===== src/Elf.antt =====
-- The kernel loader, hyperpod/src/vmm/common/elf.rs. The file's bytes come from outside, as what
-- `fs::read` returned. Sums are those of the release profile: `off + e_phentsize` wraps. Host memory
-- for the zero fill is taken to be there, up to the limit of a `Vec`.
mod Fields
pub mod Image
pub mod Loop
pub mod Success
pub mod Wrap
pub mod Sample
mod Tests
unfoldable pub use Fields.*
use hyper_pod.Base.{
  ℕ, zero, suc, ◌+◌, ◌-◌, ◌*◌, Bool, true, false, ◌||◌, Option, none, some, List, length, replicate,
  ltb, ◌==◌, if◌then◌else◌, add64, checked_add64, slice, Outcome, ok, err, panic, or_err,
  kernel_unreadable, phdr_overflow, phdr_past_end, segment_out_of_bounds, no_load_segments,
}
use hyper_pod.Base.Action.{Action, pure, raise, reads, ◌>>=◌, ◌>>◌}
use hyper_pod.Ram.{GuestRam, write_slice}

-- `p_offset.checked_add(p_filesz).map_or(true, |e| e > bytes.len())`
file_range_is_bad : List ℕ → ℕ → ℕ → Bool
file_range_is_bad bytes p_offset p_filesz = elim (checked_add64 p_offset p_filesz) [
  | none ↦ true
  | some e ↦ ltb (length bytes) e
]

-- `ram.write_slice(addr, &vec![0u8; n])`
unfoldable pub zero_fill : ℕ → ℕ → Action GuestRam (Unit {0})
zero_fill addr n ram =
    if ltb isize_max n then (panic, ram) else write_slice addr (replicate n 0) ram

-- The copy of one segment, with the fields of its program header.
unfoldable pub copy_segment : List ℕ → ℕ → ℕ → ℕ → ℕ → Action GuestRam (Unit {0})
unfolding file_range_is_bad
copy_segment bytes p_offset p_paddr p_filesz p_memsz =
    if file_range_is_bad bytes p_offset p_filesz then raise segment_out_of_bounds else do
      contents ← reads (λ _. slice bytes p_offset (p_offset + p_filesz))
      write_slice p_paddr contents
      if ltb p_filesz p_memsz
          then zero_fill (add64 p_paddr p_filesz) (p_memsz - p_filesz)
          else pure tt

-- One `PT_LOAD` segment, whose program header is at `off`.
unfoldable pub load_segment : List ℕ → ℕ → Action GuestRam (Unit {0})
load_segment bytes off = do
  p_offset ← reads (λ _. le_field bytes (off + 8) (off + 16))
  p_paddr ← reads (λ _. le_field bytes (off + 24) (off + 32))
  p_filesz ← reads (λ _. le_field bytes (off + 32) (off + 40))
  p_memsz ← reads (λ _. le_field bytes (off + 40) (off + 48))
  copy_segment bytes p_offset p_paddr p_filesz p_memsz

-- Round `i` of the loop; returns whether it loaded a segment.
unfoldable pub load_header : List ℕ → Header → ℕ → Action GuestRam Bool
load_header bytes hdr i = do
  off ← reads (λ _. or_err (checked_add64 hdr.phoff (i * hdr.phentsize)) phdr_overflow)
  if ltb (length bytes) (add64 off hdr.phentsize) then raise phdr_past_end else do
    p_type ← reads (λ _. le_field bytes off (add64 off 4))
    if p_type == pt_load then (do load_segment bytes off; pure true) else pure false

-- The loop from round `i` on, with `left` rounds to go; returns `loaded_any`.
unfoldable pub load_headers : List ℕ → Header → ℕ → ℕ → Bool → Action GuestRam Bool
load_headers bytes hdr zero i loaded_any = pure loaded_any
load_headers bytes hdr (suc left) i loaded_any = do
  loaded ← load_header bytes hdr i
  load_headers bytes hdr left (i + 1) (loaded_any || loaded)

-- The rest of `load` once the file header has been checked.
unfoldable pub load_kernel : List ℕ → Header → Action GuestRam LoadedKernel
load_kernel bytes hdr = do
  loaded_any ← load_headers bytes hdr hdr.phnum 0 false
  if loaded_any then pure (record { entry = hdr.entry }) else raise no_load_segments

unfoldable pub load : Option (List ℕ) → Action GuestRam LoadedKernel
load file = do
  bytes ← reads (λ _. or_err file kernel_unreadable)
  hdr ← reads (λ _. read_header bytes)
  load_kernel bytes hdr
