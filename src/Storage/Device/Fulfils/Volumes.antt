-- ===== src/Storage/Device/Fulfils/Volumes.antt =====
-- From an image file to its sectors: what clients of an opened image can rely on.
use hyper_pod.Base.{
  ℕ, ◌+◌, ◌-◌, ◌*◌, ◌≤◌, ◌<◌, ◌≡◌, ap, ◌∙◌, inr, some, List, [], ◌∷◌, arith, length, ok, u64_mod,
}
use hyper_pod.Storage.Sector.{sector_size}
use hyper_pod.Storage.DiskFile.{
  File, range_of, write_all_at, length-write_all_at, range_of-write_all_at_apart,
}
use hyper_pod.Storage.Raw.{RawBackend, open_raw, read_raw}
use hyper_pod.Storage.Vhd.{VhdFixedBackend, open_vhd, read_vhd, write_vhd}
use hyper_pod.Storage.Open.{open_raw_iff, open_vhd-eq-ok, original_size_of, footer_of}
use hyper_pod.Storage.Device.{Writes, InRange, write_all, update_all, write_all-refines}
use hyper_pod.Storage.Device.Fulfils.{raw_device, vhd_device, raw_sectors, vhd_sectors, sector_at}

-- A raw image that opens is an array of sectors: every run of sector writes in range succeeds, and
-- then each sector reads as the last of them left it, or as it stands in the image file.
pub open_raw-refines :
    (file : File) (d : RawBackend) (ws : Writes) (j : ℕ)
    → open_raw (some file) ≡ ok d
    → InRange d.sectors ws
    → j < d.sectors
    → (d' : RawBackend) × (write_all raw_device ws d ≡ ok d')
      × (read_raw d' j sector_size ≡ ok (update_all ws (sector_at file) j))
unfolding raw_sectors
open_raw-refines file d ws j opened h q =
    let (same, some_sectors, size) = (open_raw_iff file d).0 opened in
    let good : d.sectors * sector_size ≤ length d.file = rw same (omega arith) in
    let (d', done, reads) = write_all-refines raw_device raw_sectors ws d j good h q in
    (d', done, reads ∙ ap (λ f. ok (update_all ws (sector_at f) j)) same)

-- One write in range leaves the last 512 bytes alone when they lie behind the sectors.
write_vhd-footer :
    (d d' : VhdFixedBackend) (i : ℕ) (buf : List ℕ)
    → d.sectors * sector_size + 512 ≤ length d.file
    → i < d.sectors
    → length buf ≡ sector_size
    → write_vhd d i buf ≡ ok d'
    → (d'.sectors ≡ d.sectors)
      × (length d'.file ≡ length d.file)
      × (footer_of d'.file ≡ footer_of d.file)
unfolding write_vhd
write_vhd-footer d d' i buf good p size h =
    let same_size = length-write_all_at d.file (i * sector_size) buf (omega arith) in
    let apart =
      range_of-write_all_at_apart d.file (i * sector_size) buf (length d.file - 512) 512
        (omega arith) (omega arith) (inr (omega arith)) in
    let after : (d'.sectors ≡ d.sectors) × (d'.file ≡ write_all_at d.file (i * sector_size) buf) =
      ground arith in
    rw after.1 (
      after.0,
      same_size,
      ap (λ n. range_of (write_all_at d.file (i * sector_size) buf) (n - 512) 512) same_size
          ∙ apart,
    )

write_all-footer :
    (ws : Writes) (d d' : VhdFixedBackend)
    → d.sectors * sector_size + 512 ≤ length d.file
    → InRange d.sectors ws
    → write_all vhd_device ws d ≡ ok d'
    → footer_of d'.file ≡ footer_of d.file
unfolding write_all vhd_sectors
write_all-footer [] d d' good h done = ground arith
write_all-footer ((i, buf) ∷ ws) d d' good (p, size, h) done =
    let u = vhd_sectors.writes d i buf (omega arith) p size in
    let (count, same_size, footer) = write_vhd-footer d u.after i buf good p size u.returns in
    let rest : write_all vhd_device ws u.after ≡ ok d' = ground arith in
    write_all-footer ws u.after d' (rw (count, same_size) good) (rw count h) rest ∙ footer

-- A VHD that opens is an array of sectors, unless the size in its footer lies within 512 bytes of
-- 2^64: every run of sector writes in range succeeds and leaves the footer as it was, and then each
-- sector reads as the last of them left it, or as it stands in the image file.
pub open_vhd-refines :
    (file : File) (d : VhdFixedBackend) (ws : Writes) (j : ℕ)
    → open_vhd (some file) ≡ ok d
    → original_size_of file + 512 < u64_mod
    → InRange d.sectors ws
    → j < d.sectors
    → (d' : VhdFixedBackend) × (write_all vhd_device ws d ≡ ok d')
      × (read_vhd d' j sector_size ≡ ok (update_all ws (sector_at file) j))
      × (footer_of d'.file ≡ footer_of file)
unfolding vhd_sectors
open_vhd-refines file d ws j opened small h q =
    let (same, cookie, fixed, size, some_sectors, room) = open_vhd-eq-ok file d opened small in
    let good : d.sectors * sector_size + 512 ≤ length d.file = rw same room in
    let (d', done, reads) = write_all-refines vhd_device vhd_sectors ws d j (omega arith) h q in
    (
      d',
      done,
      reads ∙ ap (λ f. ok (update_all ws (sector_at f) j)) same,
      write_all-footer ws d d' good h done ∙ ap footer_of same,
    )
