-- ===== src/Elf/Tests.antt =====
-- A file of one segment: four bytes and four zeros behind them, for address 0x200.
use hyper_pod.Base.{
  ◌-◌, u64_mod, panic, ℕ, ◌≡◌, ◌≢◌, refl, some, List, [], ◌∷◌, arith, ok, replicate, slice,
  from_le_bytes,
}
use hyper_pod.Elf.Sample.{file_at}
use hyper_pod.Ram.{GuestRam, write_slice}
use hyper_pod.Elf.{
  le_field, load_kernel, load_headers, load_header, load_segment, copy_segment, zero_fill, Header,
  LoadedKernel, read_header, load,
}
use hyper_pod.Elf.Wrap.{load_header_wraps}
use hyper_pod.Elf.Image.{segment_at}
use hyper_pod.Elf.Success.{AreLoadable, load-returns}
use hyper_pod.Elf.Loop.{segments, Loaded, load-eq-ok}

abbrev ram : GuestRam
ram = record { size = 0x1000; cell = λ _. 0 }

abbrev file : List ℕ
file = file_at (0 ∷ 2 ∷ replicate 6 0)

abbrev kernel : LoadedKernel
kernel = record { entry = 0x200 }

load-eq-ok_example :
    (hdr : Header) × (read_header file ≡ ok hdr)
    × ((0x200 ≡ hdr.entry)
        × (segments file hdr hdr.phnum 0 ≢ [])
        × Loaded (segments file hdr hdr.phnum 0) ram (load (some file) ram).1)
unfolding load load_kernel load_headers load_header load_segment copy_segment zero_fill write_slice
    read_header le_field from_le_bytes slice
load-eq-ok_example = load-eq-ok file ram (load (some file) ram).1 kernel (omega arith) refl

-- Its program headers, of 56 bytes, start eight bytes before 2^64.
abbrev far_header : Header
far_header = record { entry = 0; phoff = u64_mod - 8; phentsize = 56; phnum = 1 }

load_header_wraps_example : load_header file far_header 0 ram ≡ (panic, ram)
load_header_wraps_example =
    load_header_wraps file far_header 0 ram (omega arith) (omega arith) (omega arith) (omega arith)

abbrev header : Header
header = record { entry = 0x200; phoff = 64; phentsize = 56; phnum = 1 }

load-returns_example : (load (some file) ram).0 ≡ ok (record { entry = header.entry })
unfolding AreLoadable read_header le_field from_le_bytes slice segments segment_at
load-returns_example =
    load-returns file header ram (omega arith) (omega arith) refl
      (omega arith, (λ h. (omega arith, omega arith)), tt) (λ e. ground (arith, e))
