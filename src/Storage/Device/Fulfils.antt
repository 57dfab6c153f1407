-- ===== src/Storage/Device/Fulfils.antt =====
-- The raw and the fixed-VHD backend (hyperpod/src/vmm/common/storage/raw.rs and vhd.rs) as block
-- devices, and the contract for each, for disks whose sectors lie in their file.
pub mod Volumes
pub mod Footer
use hyper_pod.Base.{ℕ, ◌*◌, ◌≤◌, ◌<◌, ◌≡◌, ◌≢◌, refl, List, arith, length, ok, subst}
use hyper_pod.Storage.Sector.{sector_size}
use hyper_pod.Storage.DiskFile.{
  File, read_exact_at, write_all_at, range_of, length-write_all_at, range_of-write_all_at,
  range_of-write_all_at_apart,
}
use hyper_pod.Storage.Raw.{RawBackend, read_raw, write_raw}
use hyper_pod.Storage.Vhd.{VhdFixedBackend, read_vhd, write_vhd}
use hyper_pod.Storage.Device.{BlockBackend, IsSectorArray, Updates}

-- Sector `i` of a file.
abbrev pub sector_at : File → ℕ → List ℕ
sector_at file i = range_of file (i * sector_size) sector_size

module _ (file : File) (sectors : ℕ) (fits : sectors * sector_size ≤ length file) (i : ℕ)
    (p : i < sectors) where
  read_in_file : read_exact_at file (i * sector_size) sector_size ≡ ok (sector_at file i)
  unfolding read_exact_at
  read_in_file = ground arith

  module _ (buf : List ℕ) (size : length buf ≡ sector_size) where
    written_here : sector_at (write_all_at file (i * sector_size) buf) i ≡ buf
    written_here =
        subst (λ n. range_of (write_all_at file (i * sector_size) buf) (i * sector_size) n ≡ buf)
          size (range_of-write_all_at file (i * sector_size) buf (omega arith))

    written_elsewhere :
        (j : ℕ)
        → j < sectors
        → j ≢ i
        → sector_at (write_all_at file (i * sector_size) buf) j ≡ sector_at file j
    written_elsewhere j q ne =
        range_of-write_all_at_apart file (i * sector_size) buf (j * sector_size) sector_size
          (omega arith) (omega arith) (ground arith)

    written_size : length (write_all_at file (i * sector_size) buf) ≡ length file
    written_size = length-write_all_at file (i * sector_size) buf (omega arith)

abbrev pub raw_device : BlockBackend
raw_device = record {
  Disk = RawBackend;
  sector_count = λ d. d.sectors;
  read_sector = read_raw;
  write_sector = write_raw;
}

abbrev pub vhd_device : BlockBackend
vhd_device = record {
  Disk = VhdFixedBackend;
  sector_count = λ d. d.sectors;
  read_sector = read_vhd;
  write_sector = write_vhd;
}

raw_updates :
    (d : RawBackend) (i : ℕ) (buf : List ℕ)
    → d.sectors * sector_size ≤ length d.file
    → i < d.sectors
    → length buf ≡ sector_size
    → Updates raw_device
        (λ (d : RawBackend). d.sectors * sector_size ≤ length d.file)
        (λ (d : RawBackend). sector_at d.file)
        d
        i
        buf
unfolding write_raw
raw_updates d i buf good p size = record {
  after = record d { file = write_all_at d.file (i * sector_size) buf };
  returns = ground arith;
  good = rw (written_size d.file d.sectors good i p buf size) good;
  same_count = refl;
  here = written_here d.file d.sectors good i p buf size;
  elsewhere = written_elsewhere d.file d.sectors good i p buf size;
}

vhd_updates :
    (d : VhdFixedBackend) (i : ℕ) (buf : List ℕ)
    → d.sectors * sector_size ≤ length d.file
    → i < d.sectors
    → length buf ≡ sector_size
    → Updates vhd_device
        (λ (d : VhdFixedBackend). d.sectors * sector_size ≤ length d.file)
        (λ (d : VhdFixedBackend). sector_at d.file)
        d
        i
        buf
unfolding write_vhd
vhd_updates d i buf good p size = record {
  after = record d { file = write_all_at d.file (i * sector_size) buf };
  returns = ground arith;
  good = rw (written_size d.file d.sectors good i p buf size) good;
  same_count = refl;
  here = written_here d.file d.sectors good i p buf size;
  elsewhere = written_elsewhere d.file d.sectors good i p buf size;
}

pub raw_sectors : IsSectorArray raw_device
unfolding read_raw write_raw
raw_sectors = record {
  IsGood = λ d. d.sectors * sector_size ≤ length d.file;
  contents = λ d. sector_at d.file;
  reads = λ d i good p. ground (arith, read_in_file d.file d.sectors good i p);
  writes = raw_updates;
  refuses = λ d i n buf h. ground arith;
}

pub vhd_sectors : IsSectorArray vhd_device
unfolding read_vhd write_vhd
vhd_sectors = record {
  IsGood = λ d. d.sectors * sector_size ≤ length d.file;
  contents = λ d. sector_at d.file;
  reads = λ d i good p. ground (arith, read_in_file d.file d.sectors good i p);
  writes = vhd_updates;
  refuses = λ d i n buf h. ground arith;
}
