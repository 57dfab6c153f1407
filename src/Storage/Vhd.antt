-- ===== src/Storage/Vhd.antt =====
-- The fixed-VHD backend, hyperpod/src/vmm/common/storage/vhd.rs. The sum of `original_size` and the
-- footer's length is that of the release profile: it wraps at `u64`.
use hyper_pod.Base.{
  ℕ, ◌-◌, ◌*◌, ◌/◌, ◌%◌, Option, List, [], ◌∷◌, length, ltb, leb, not, ◌==◌, if◌then◌else◌, add64,
  bytes_eq, from_be_bytes, slice, Outcome, ok, err, ◌>>=◌, ◌>>◌, ensure, or_err, image_unreadable,
  vhd_too_small, no_footer_cookie, unsupported_disk_type, dynamic_vhd, differencing_vhd,
  sector_out_of_range, bad_buffer_size, zero_original_size, original_size_past_end,
  misaligned_original_size,
}
use hyper_pod.Storage.DiskFile.{File, read_exact_at, write_all_at}
use hyper_pod.Storage.Sector.{sector_size}

abbrev pub footer_len : ℕ
footer_len = 512

-- "conectix"
abbrev pub footer_cookie : List ℕ
footer_cookie = b'c' ∷ b'o' ∷ b'n' ∷ b'e' ∷ b'c' ∷ b't' ∷ b'i' ∷ b'x' ∷ []

abbrev pub disk_type_fixed : ℕ
disk_type_fixed = 2

abbrev pub disk_type_dynamic : ℕ
disk_type_dynamic = 3

abbrev pub disk_type_differencing : ℕ
disk_type_differencing = 4

pub record VhdFixedBackend : Type 0 where
  pub file : File
  pub sectors : ℕ

-- The `match disk_type`.
unfoldable pub check_disk_type : ℕ → Outcome (Unit {0})
check_disk_type disk_type =
    if disk_type == disk_type_fixed
    then ok tt
    else if disk_type == disk_type_dynamic
    then err dynamic_vhd
    else if disk_type == disk_type_differencing
    then err differencing_vhd
    else err unsupported_disk_type

-- The checks on `original_size` in a file of `total` bytes; returns the number of sectors.
unfoldable pub check_original_size : ℕ → ℕ → Outcome ℕ
check_original_size original_size total = do
  ensure (not (original_size == 0)) zero_original_size
  ensure (not (ltb total (add64 original_size footer_len))) original_size_past_end
  ensure (original_size % sector_size == 0) misaligned_original_size
  ok (original_size / sector_size)

-- `VhdFixedBackend::open`; `none` is a path that cannot be opened.
unfoldable pub open_vhd : Option File → Outcome VhdFixedBackend
open_vhd found = do
  file ← or_err found image_unreadable
  let total = length file
  ensure (not (ltb total footer_len)) vhd_too_small
  footer ← read_exact_at file (total - footer_len) footer_len
  cookie ← slice footer 0 8
  ensure (bytes_eq cookie footer_cookie) no_footer_cookie
  disk_type ← slice footer 60 64
  check_disk_type (from_be_bytes disk_type)
  original_size ← slice footer 40 48
  sectors ← check_original_size (from_be_bytes original_size) total
  ok (record { file = file; sectors = sectors })

-- The checks of `read_sector` and `write_sector`.
unfoldable pub check_vhd : VhdFixedBackend → ℕ → ℕ → Outcome (Unit {0})
check_vhd be sector buf_len = do
  ensure (not (leb be.sectors sector)) sector_out_of_range
  ensure (buf_len == sector_size) bad_buffer_size

-- The bytes that `read_sector` puts into a buffer of `buf_len` bytes.
unfoldable pub read_vhd : VhdFixedBackend → ℕ → ℕ → Outcome (List ℕ)
unfolding check_vhd
read_vhd be sector buf_len = do
  check_vhd be sector buf_len
  read_exact_at be.file (sector * sector_size) buf_len

unfoldable pub write_vhd : VhdFixedBackend → ℕ → List ℕ → Outcome VhdFixedBackend
unfolding check_vhd
write_vhd be sector buf = do
  check_vhd be sector (length buf)
  ok (record be { file = write_all_at be.file (sector * sector_size) buf })
