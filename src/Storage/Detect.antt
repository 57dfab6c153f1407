-- ===== src/Storage/Detect.antt =====
-- Which format an image is taken for, and which images open.
use hyper_pod.Base.{
  Outcome-cases, ◌+◌, ◌*◌, ◌<◌, ◌⊎◌, inl, inr, u64_mod, ℕ, ◌-◌, ◌≤◌, ◌≡◌, refl, Bool, true, false,
  ◌||◌, none, some, arith, length, take, ◌==◌, if◌then◌else◌, bytes_eq, Outcome, ok, err, ◌>>=◌,
  ensure, le→ltb_false, le→leb, leb, drop, take-take, ◌&&◌, no_footer_cookie, unsupported_disk_type,
}
use hyper_pod.Storage.Sector.{sector_size}
use hyper_pod.Storage.Raw.{open_raw}
use hyper_pod.Storage.DiskFile.{File, read_exact_at}
use hyper_pod.Storage.Vhd.{open_vhd, footer_cookie}
use hyper_pod.Storage.Open.{
  open_raw_iff, open_vhd-eq-ok, original_size_of, cookie_of, disk_type_of, footer_slice,
  footer_read,
}
use hyper_pod.Storage.{
  raw_backend, vhd_backend, ImagePath, Format, Backend, classify_vhd, by_content, detect_format,
  open_as, open_image, vhdx_head_magic,
}

-- The format that a disk type stands for.
unfoldable pub format_of : ℕ → Outcome Format
format_of t =
    if t == 2
    then ok Format.vhd_fixed
    else if t == 3 || t == 4
    then ok Format.vhd_dynamic
    else err unsupported_disk_type

-- With a footer in the file, classification comes down to its cookie and its disk type.
pub classify_vhd_lem :
    (file : File)
    → 512 ≤ length file
    → classify_vhd (some file) ≡ (
        if bytes_eq (cookie_of file) footer_cookie
        then format_of (disk_type_of file)
        else err no_footer_cookie)
unfolding classify_vhd format_of
classify_vhd_lem file long =
    rw
      (
        le→ltb_false (length file) 512 long,
        footer_read file long,
        footer_slice file 0 8 8 long (omega arith) (omega arith),
        footer_slice file 60 4 64 long (omega arith) (omega arith),
      )
      (by_cookie (bytes_eq (cookie_of file) footer_cookie))
  where
    by_cookie :
        (c : Bool)
        → (ensure c no_footer_cookie >>= λ _. format_of (disk_type_of file))
          ≡ (if c then format_of (disk_type_of file) else err no_footer_cookie)
    by_cookie true = refl
    by_cookie false = refl

-- The file and the sector count behind a backend.
abbrev pub file_of : Backend → File
file_of (raw_backend d) = d.file
file_of (vhd_backend d) = d.file

abbrev pub sectors_of : Backend → ℕ
sectors_of (raw_backend d) = d.sectors
sectors_of (vhd_backend d) = d.sectors

-- What each format opens to.
open_as-eq-ok :
    (fmt : Format) (file : File) (be : Backend)
    → original_size_of file + 512 < u64_mod
    → open_as fmt (some file) ≡ ok be
    → (file_of be ≡ file)
      × (0 < sectors_of be)
      × (sectors_of be * sector_size ≤ length file)
      × ((fmt ≡ Format.raw) ⊎ (fmt ≡ Format.vhd_fixed))
unfolding open_as
open_as-eq-ok Format.raw file be small h = elim (Outcome-cases (open_raw (some file))) [
  | inl (d, e) ↦ ground (arith, open_raw_iff file d)
  | inr e ↦ absurd (ground arith)
]
open_as-eq-ok Format.vhd_fixed file be small h = elim (Outcome-cases (open_vhd (some file))) [
  | inl (d, e) ↦ ground (arith, open_vhd-eq-ok file d e small)
  | inr e ↦ absurd (ground arith)
]
open_as-eq-ok Format.vhd_dynamic file be small h = absurd (ground arith)
open_as-eq-ok Format.vhdx file be small h = absurd (ground arith)

-- Unless the bytes where a VHD keeps its size say a size within 512 of 2^64, an image that opens was
-- taken for a raw image or a fixed VHD, gives its own file, and has at least one sector and all
-- sectors inside the file.
pub open_image-eq-ok :
    (path : ImagePath) (file : File) (be : Backend)
    → path.found ≡ some file
    → original_size_of file + 512 < u64_mod
    → open_image path ≡ ok be
    → (file_of be ≡ file)
      × (0 < sectors_of be)
      × (sectors_of be * sector_size ≤ length file)
      × ((detect_format path ≡ ok Format.raw) ⊎ (detect_format path ≡ ok Format.vhd_fixed))
unfolding open_image
open_image-eq-ok path file be there small h = elim (Outcome-cases (detect_format path)) [
  | inl (fmt, e) ↦
      let opened : open_as fmt (some file) ≡ ok be = ground arith in
      ground (arith, open_as-eq-ok fmt file be small opened)
  | inr e ↦ absurd (ground arith)
]

-- The first eight bytes of the footer are the last sector's.
cookie_read :
    (file : File)
    → 512 ≤ length file
    → read_exact_at file (length file - 512) 8 ≡ ok (cookie_of file)
unfolding read_exact_at
cookie_read file long =
    rw (take-take 8 512 (drop (length file - 512) file) (omega arith)) (ground arith)

and_false : (b : Bool) → (b && false) ≡ false
and_false true = refl
and_false false = refl

-- Without an extension, a file that has a last sector and not the head of a VHDX is what its footer
-- says: a VHD of the footer's type if the cookie is there, and a raw image if not.
pub detect_format-content :
    (file : File)
    → 512 ≤ length file
    → bytes_eq (take 8 file) vhdx_head_magic ≡ false
    → detect_format (record { extension = none; found = some file }) ≡ (
        if bytes_eq (cookie_of file) footer_cookie
        then format_of (disk_type_of file)
        else ok Format.raw)
unfolding detect_format by_content
detect_format-content file long other =
    rw
      (
        other,
        and_false (leb 8 (length (take 8 file))),
        le→leb 512 (length file) long,
        cookie_read file long,
        classify_vhd_lem file long,
      )
      (by_cookie (bytes_eq (cookie_of file) footer_cookie))
  where
    by_cookie :
        (c : Bool)
        → (if c
            then (if c then format_of (disk_type_of file) else err no_footer_cookie)
            else ok Format.raw)
          ≡ (if c then format_of (disk_type_of file) else ok Format.raw)
    by_cookie true = refl
    by_cookie false = refl
