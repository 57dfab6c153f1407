-- ===== src/Storage/Tests.antt =====
-- A fixed VHD of one sector, and a raw image of two.
use hyper_pod.Base.{
  ℕ, ◌+◌, ◌-◌, ◌^◌, ◌≡◌, refl, some, List, [], ◌∷◌, ◌++◌, arith, replicate, slice, from_be_bytes,
  ok,
}
use hyper_pod.Storage.Sector.{sector_size}
use hyper_pod.Storage.DiskFile.{File, read_exact_at}
use hyper_pod.Storage.Raw.{RawBackend, open_raw, read_raw}
use hyper_pod.Storage.Vhd.{
  VhdFixedBackend, footer_cookie, check_disk_type, check_original_size, open_vhd, read_vhd,
}
use hyper_pod.Storage.{ImagePath, Format, by_extension, detect_format}
use hyper_pod.Storage.Open.{original_size_of, footer_of, open_vhd_wraps}
use hyper_pod.Storage.Device.{Writes, write_all, update_all}
use hyper_pod.Storage.Device.Fulfils.{raw_device, vhd_device, sector_at}
use hyper_pod.Storage.Device.Alike.{Access, read_at, write_at, answers}
use hyper_pod.Storage.Device.Fulfils.Footer.{IsFooterFor}
use hyper_pod.Storage.Volume.{Volume, ask, open_volume, open_volume-with_footer}
use hyper_pod.Storage.Device.Fulfils.Volumes.{open_raw-refines, open_vhd-refines}

-- The footer with eight bytes of size.
abbrev footer : List ℕ → List ℕ
footer size =
    footer_cookie ++ replicate 32 0 ++ size ++ replicate 12 0 ++ 0 ∷ 0 ∷ 0 ∷ 2 ∷ replicate 448 0

abbrev vhd : File
vhd = replicate 512 170 ++ footer (0 ∷ 0 ∷ 0 ∷ 0 ∷ 0 ∷ 0 ∷ 2 ∷ 0 ∷ [])

abbrev vhd_disk : VhdFixedBackend
vhd_disk = record { file = vhd; sectors = 1 }

-- Its size is 2^64 - 512.
abbrev huge_vhd : File
huge_vhd = footer (255 ∷ 255 ∷ 255 ∷ 255 ∷ 255 ∷ 255 ∷ 254 ∷ 0 ∷ [])

abbrev raw_image : File
raw_image = replicate 1024 7

abbrev raw_disk : RawBackend
raw_disk = record { file = raw_image; sectors = 2 }

abbrev writes : Writes
writes = (0, replicate 512 1) ∷ []

vhd_opens : open_vhd (some vhd) ≡ ok vhd_disk
unfolding open_vhd read_exact_at slice from_be_bytes check_disk_type check_original_size
vhd_opens = refl

vhd_size : original_size_of vhd + 512 ≡ 1024
unfolding from_be_bytes
vhd_size = refl

raw_opens : open_raw (some raw_image) ≡ ok raw_disk
unfolding open_raw
raw_opens = refl

open_vhd_wraps_example :
    open_vhd (some huge_vhd) ≡ ok (record { file = huge_vhd; sectors = 2 ^ 55 - 1 })
unfolding from_be_bytes
open_vhd_wraps_example = open_vhd_wraps huge_vhd (omega arith) refl refl refl

open_raw-refines_example :
    (d : RawBackend) × (write_all raw_device writes raw_disk ≡ ok d)
    × (read_raw d 1 sector_size ≡ ok (update_all writes (sector_at raw_image) 1))
open_raw-refines_example =
    open_raw-refines raw_image raw_disk writes 1 raw_opens (omega arith, refl, tt) (omega arith)

open_vhd-refines_example :
    (d : VhdFixedBackend) × (write_all vhd_device writes vhd_disk ≡ ok d)
    × (read_vhd d 0 sector_size ≡ ok (update_all writes (sector_at vhd) 0))
    × (footer_of d.file ≡ footer_of vhd)
open_vhd-refines_example =
    open_vhd-refines vhd vhd_disk writes 0 vhd_opens (omega (arith, vhd_size))
      (omega arith, refl, tt) (omega arith)

abbrev image_path : ImagePath
image_path = record { extension = some (b'I' ∷ b'm' ∷ b'g' ∷ []); found = some raw_image }

abbrev image : File
image = replicate 512 170

abbrev image_disk : RawBackend
image_disk = record { file = image; sectors = 1 }

image_opens : open_raw (some image) ≡ ok image_disk
unfolding open_raw
image_opens = refl

abbrev image_footer : File
image_footer = footer (0 ∷ 0 ∷ 0 ∷ 0 ∷ 0 ∷ 0 ∷ 2 ∷ 0 ∷ [])

image_footer-IsFooterFor : IsFooterFor 512 image_footer
unfolding from_be_bytes
image_footer-IsFooterFor = record { long = refl; cookie = refl; fixed = refl; original_size = refl }

-- A write and a read in range, a read out of range, and a write from a short buffer.
abbrev accesses : List Access
accesses = write_at 0 (replicate 512 1) ∷ read_at 0 512 ∷ read_at 1 512 ∷ write_at 0 (1 ∷ []) ∷ []

image_is_raw :
    detect_format (record { extension = some (b'I' ∷ b'm' ∷ b'g' ∷ []); found = some image })
    ≡ ok Format.raw
unfolding detect_format by_extension
image_is_raw = refl

open_volume-with_footer_example :
    (v : Volume) × (open_volume
        (record { extension = some (b'I' ∷ b'm' ∷ b'g' ∷ []); found = some image })
      ≡ ok v)
    × (open_volume (record {
      extension = some (b'v' ∷ b'h' ∷ b'd' ∷ []);
      found = some (image ++ image_footer);
    })
        ≡ ok v)
    × (ask accesses v ≡ answers raw_device accesses image_disk)
open_volume-with_footer_example =
    open_volume-with_footer (some (b'I' ∷ b'm' ∷ b'g' ∷ [])) image image_footer image_disk accesses
      image_is_raw image_opens image_footer-IsFooterFor (omega arith)
