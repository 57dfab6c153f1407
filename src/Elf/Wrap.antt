-- ===== src/Elf/Wrap.antt =====
-- Program headers near the end of the address range (hyperpod/src/vmm/common/elf.rs).
use hyper_pod.Base.{
  ℕ, ◌+◌, ◌≤◌, ◌<◌, ◌≡◌, List, arith, length, u64_mod, add64, slice_reversed, slice-cases, panic,
}
use hyper_pod.Ram.{GuestRam}
use hyper_pod.Elf.{Header, le_field, load_header}
use hyper_pod.Elf.Loop.{header_offset}

le_field_beyond :
    (bytes : List ℕ) (off : ℕ) → length bytes < off → le_field bytes off (add64 off 4) ≡ panic
unfolding le_field
le_field_beyond bytes off h =
    ground (arith, slice-cases bytes off (add64 off 4), slice_reversed bytes off (add64 off 4))

-- A program header at an offset that fits `u64`, but whose end does not, makes the loader panic, when
-- the wrapped end lies within the file: the check for the end of the file does not catch it.
pub load_header_wraps :
    (bytes : List ℕ) (hdr : Header) (i : ℕ) (ram : GuestRam)
    → header_offset hdr i < u64_mod
    → u64_mod ≤ header_offset hdr i + hdr.phentsize
    → header_offset hdr i + hdr.phentsize ≤ u64_mod + length bytes
    → length bytes < header_offset hdr i
    → load_header bytes hdr i ram ≡ (panic, ram)
unfolding load_header
load_header_wraps bytes hdr i ram fits wraps within beyond =
    ground (arith, le_field_beyond bytes (header_offset hdr i) beyond)
