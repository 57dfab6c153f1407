-- ===== src/Storage/Raw.antt =====
-- The flat-file backend, hyperpod/src/vmm/common/storage/raw.rs.
use hyper_pod.Base.{
  ℕ, ◌*◌, ◌/◌, ◌%◌, Option, List, length, leb, not, ◌==◌, Outcome, ok, ◌>>=◌, ◌>>◌, ensure, or_err,
  image_unreadable, empty_image, misaligned_image, sector_out_of_range, bad_buffer_size,
}
use hyper_pod.Storage.DiskFile.{File, read_exact_at, write_all_at}
use hyper_pod.Storage.Sector.{sector_size}

pub record RawBackend : Type 0 where
  pub file : File
  pub sectors : ℕ

-- `RawBackend::open`; `none` is a path that cannot be opened.
unfoldable pub open_raw : Option File → Outcome RawBackend
open_raw found = do
  file ← or_err found image_unreadable
  let len = length file
  ensure (not (len == 0)) empty_image
  ensure (len % sector_size == 0) misaligned_image
  ok (record { file = file; sectors = len / sector_size })

-- The checks of `read_sector` and `write_sector`.
unfoldable pub check_raw : RawBackend → ℕ → ℕ → Outcome (Unit {0})
check_raw be sector buf_len = do
  ensure (not (leb be.sectors sector)) sector_out_of_range
  ensure (buf_len == sector_size) bad_buffer_size

-- The bytes that `read_sector` puts into a buffer of `buf_len` bytes.
unfoldable pub read_raw : RawBackend → ℕ → ℕ → Outcome (List ℕ)
unfolding check_raw
read_raw be sector buf_len = do
  check_raw be sector buf_len
  read_exact_at be.file (sector * sector_size) buf_len

unfoldable pub write_raw : RawBackend → ℕ → List ℕ → Outcome RawBackend
unfolding check_raw
write_raw be sector buf = do
  check_raw be sector (length buf)
  ok (record be { file = write_all_at be.file (sector * sector_size) buf })
