-- ===== src/Storage/Open.antt =====
-- What opening an image checks, and what it lets through.
use native.Mathlib.Decide.{dec_le}
use hyper_pod.Base.{
  ℕ, ◌+◌, ◌-◌, ◌*◌, ◌^◌, ◌≤◌, ◌<◌, ◌≡◌, ◌↔◌, refl, sym, subst, ◌∙◌, Bool, true, some, List, arith,
  length, take, drop, bytes_eq, from_be_bytes, slice, slice_in_range, le→ltb_false, ensure,
  no_footer_cookie, ◌>>=◌, ok, u64_mod, length-take, length-drop,
}
use hyper_pod.Storage.Sector.{sector_size}
use hyper_pod.Storage.DiskFile.{File, read_exact_at, range_of}
use hyper_pod.Storage.Raw.{RawBackend, open_raw}
use hyper_pod.Storage.Vhd.{
  VhdFixedBackend, footer_cookie, check_disk_type, check_original_size, open_vhd,
}

-- A raw image opens exactly when it is a whole number of sectors, at least one, and then the
-- sectors are the whole file.
pub open_raw_iff :
    (file : File) (be : RawBackend)
    → (open_raw (some file) ≡ ok be)
      ↔ ((be.file ≡ file) × (0 < be.sectors) × (be.sectors * sector_size ≡ length file))
unfolding open_raw
open_raw_iff file be = ground arith

-- The footer of a VHD and its fields.
abbrev pub footer_of : File → List ℕ
footer_of file = range_of file (length file - 512) 512

abbrev pub cookie_of : File → List ℕ
cookie_of file = take 8 (drop 0 (footer_of file))

abbrev pub disk_type_of : File → ℕ
disk_type_of file = from_be_bytes (take 4 (drop 60 (footer_of file)))

abbrev pub original_size_of : File → ℕ
original_size_of file = from_be_bytes (take 8 (drop 40 (footer_of file)))

pub footer_slice :
    (file : File) (a n b : ℕ)
    → 512 ≤ length file
    → a + n ≡ b
    → b ≤ 512
    → slice (footer_of file) a b ≡ ok (take n (drop a (footer_of file)))
footer_slice file a n b h e k =
    let width : b - a ≡ n = omega arith in
    let size =
      length-take 512 (drop (length file - 512) file)
        (omega (arith, length-drop (length file - 512) file)) in
    subst (λ m. slice (footer_of file) a b ≡ ok (take m (drop a (footer_of file)))) width
      (slice_in_range (footer_of file) a b (omega arith) (omega (arith, size)))

pub footer_read :
    (file : File)
    → 512 ≤ length file
    → read_exact_at file (length file - 512) 512 ≡ ok (footer_of file)
unfolding read_exact_at
footer_read file h = ground arith

-- The two numeric checks.
check_disk_type-eq-ok : (t : ℕ) → check_disk_type t ≡ ok tt → t ≡ 2
unfolding check_disk_type
check_disk_type-eq-ok t h = ground arith

check_original_size-eq-ok :
    (size total sectors : ℕ)
    → check_original_size size total ≡ ok sectors
    → size + 512 < u64_mod
    → (sectors * sector_size ≡ size) × (0 < sectors) × (size + 512 ≤ total)
unfolding check_original_size
check_original_size-eq-ok size total sectors h small = ground arith

-- With a footer in the file, opening comes down to the checks on its fields.
pub open_vhd_checks :
    (file : File)
    → 512 ≤ length file
    → open_vhd (some file) ≡ (
        ensure (bytes_eq (cookie_of file) footer_cookie) no_footer_cookie >>= λ _.
        check_disk_type (disk_type_of file) >>= λ _.
        check_original_size (original_size_of file) (length file) >>= λ sectors.
        ok (record { file = file; sectors = sectors }))
unfolding open_vhd
open_vhd_checks file long =
    rw
      (
        le→ltb_false (length file) 512 long,
        footer_read file long,
        footer_slice file 0 8 8 long (omega arith) (omega arith),
        footer_slice file 60 4 64 long (omega arith) (omega arith),
        footer_slice file 40 8 48 long (omega arith) (omega arith),
      )
      refl

checks-eq-ok :
    (cookie_ok : Bool) (t size : ℕ) (file : File) (be : VhdFixedBackend)
    → (ensure cookie_ok no_footer_cookie >>= λ _. check_disk_type t >>= λ _.
        check_original_size size (length file) >>= λ sectors.
        ok (record { file = file; sectors = sectors }))
      ≡ ok be
    → (be.file ≡ file)
      × (cookie_ok ≡ true)
      × (t ≡ 2)
      × (check_original_size size (length file) ≡ ok be.sectors)
checks-eq-ok cookie_ok t size file be h = ground (arith, check_disk_type-eq-ok t)

-- Unless the size in the footer lies within 512 bytes of 2^64, a VHD that opens has the cookie and the
-- fixed type in its footer, its sectors are those of that size, at least one, and they and the footer
-- lie in the file.
pub open_vhd-eq-ok :
    (file : File) (be : VhdFixedBackend)
    → open_vhd (some file) ≡ ok be
    → original_size_of file + 512 < u64_mod
    → (be.file ≡ file)
      × (bytes_eq (cookie_of file) footer_cookie ≡ true)
      × (disk_type_of file ≡ 2)
      × (be.sectors * sector_size ≡ original_size_of file)
      × (0 < be.sectors)
      × (be.sectors * sector_size + 512 ≤ length file)
open_vhd-eq-ok file be h small = elim (dec_le 512 (length file)) [
  | no short ↦ absurd (unfold open_vhd in ground arith)
  | yes long ↦
      let checks = sym (open_vhd_checks file long) ∙ h in
      let (same, cookie, fixed, sized) =
        checks-eq-ok (bytes_eq (cookie_of file) footer_cookie) (disk_type_of file)
          (original_size_of file) file be checks in
      let (exact, some_sectors, room) =
        check_original_size-eq-ok (original_size_of file) (length file) be.sectors sized small in
      (same, cookie, fixed, exact, some_sectors, rw exact room)
]

wrapped_size : (total : ℕ) → check_original_size (u64_mod - 512) total ≡ ok (2 ^ 55 - 1)
unfolding check_original_size
wrapped_size total = rw (le→ltb_false total 0 (omega arith)) refl

-- The sum in the size check wraps: a footer whose size is 2^64 - 512 passes it whatever the length
-- of the file, and the disk counts 2^55 - 1 sectors.
pub open_vhd_wraps :
    (file : File)
    → 512 ≤ length file
    → bytes_eq (cookie_of file) footer_cookie ≡ true
    → disk_type_of file ≡ 2
    → original_size_of file ≡ u64_mod - 512
    → open_vhd (some file) ≡ ok (record { file = file; sectors = 2 ^ 55 - 1 })
open_vhd_wraps file long cookie fixed size =
    open_vhd_checks file long
    ∙ rw (cookie, fixed, size, wrapped_size (length file)) (unfold check_disk_type in refl)
