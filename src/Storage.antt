-- ===== src/Storage.antt =====
-- Block storage, hyperpod/src/vmm/common/storage/mod.rs: finding out the format of a disk image,
-- and opening it. A path is what the code looks at: its extension and the file that it leads to.
pub mod Sector
pub mod DiskFile
pub mod Raw
pub mod Vhd
pub mod Device
pub mod Open
pub mod Detect
pub mod Volume
mod Tests
use hyper_pod.Base.{
  ℕ, ◌+◌, ◌-◌, Bool, ◌&&◌, ◌||◌, Option, none, some, List, [], ◌∷◌, map, length, take, ltb, leb,
  ◌==◌, if◌then◌else◌, bytes_eq, from_be_bytes, slice, Outcome, ok, err, ◌>>=◌, ◌>>◌, ensure,
  or_err, not, image_unreadable, vhd_too_small, no_footer_cookie, unsupported_disk_type,
  dynamic_vhd, vhdx_unsupported,
}
use DiskFile.{File, read_exact_at}
use Raw.{RawBackend, open_raw}
use Vhd.{VhdFixedBackend, footer_cookie, open_vhd}

pub record ImagePath : Type 0 where
  pub extension : Option (List ℕ)
  pub found : Option File

pub data Format : Type 0 where
  raw vhd_fixed vhd_dynamic vhdx : Format

-- "vhdxfile"
abbrev pub vhdx_head_magic : List ℕ
vhdx_head_magic = b'v' ∷ b'h' ∷ b'd' ∷ b'x' ∷ b'f' ∷ b'i' ∷ b'l' ∷ b'e' ∷ []

abbrev to_ascii_lowercase : ℕ → ℕ
to_ascii_lowercase c = if leb b'A' c && leb c b'Z' then c + 32 else c

unfoldable pub classify_vhd : Option File → Outcome Format
classify_vhd found = do
  file ← or_err found image_unreadable
  let total = length file
  ensure (not (ltb total 512)) vhd_too_small
  footer ← read_exact_at file (total - 512) 512
  cookie ← slice footer 0 8
  ensure (bytes_eq cookie footer_cookie) no_footer_cookie
  field ← slice footer 60 64
  let disk_type = from_be_bytes field
  if disk_type == 2
      then ok Format.vhd_fixed
      else if disk_type == 3 || disk_type == 4
      then ok Format.vhd_dynamic
      else err unsupported_disk_type

-- The formats that an extension decides; `none` leaves it to the content.
unfoldable pub by_extension : List ℕ → Option File → Option (Outcome Format)
by_extension ext found =
    let low = map to_ascii_lowercase ext in
    if bytes_eq low (b'r' ∷ b'a' ∷ b'w' ∷ [])
      || bytes_eq low (b'i' ∷ b'm' ∷ b'g' ∷ [])
      || bytes_eq low (b'e' ∷ b'x' ∷ b't' ∷ b'4' ∷ [])
    then some (ok Format.raw)
    else if bytes_eq low (b'v' ∷ b'h' ∷ b'd' ∷ [])
    then some (classify_vhd found)
    else if bytes_eq low (b'v' ∷ b'h' ∷ b'd' ∷ b'x' ∷ [])
    then some (ok Format.vhdx)
    else none

-- The formats that the content shows: the head of a VHDX, the footer of a VHD.
unfoldable pub by_content : Option File → Outcome Format
by_content found = do
  file ← or_err found image_unreadable
  let head = take 8 file
  if leb 8 (length head) && bytes_eq head vhdx_head_magic then ok Format.vhdx else do
    let total = length file
    if leb 512 total
        then (do
          cookie ← read_exact_at file (total - 512) 8
          if bytes_eq cookie footer_cookie then classify_vhd found else ok Format.raw)
        else ok Format.raw

unfoldable pub detect_format : ImagePath → Outcome Format
detect_format path = elim path.extension [
  | none ↦ by_content path.found
  | some ext ↦ elim (by_extension ext path.found) [
    | some decided ↦ decided
    | none ↦ by_content path.found
  ]
]

-- `Box<dyn BlockBackend>`
pub data Backend : Type 0 where
  raw_backend : RawBackend → Backend
  vhd_backend : VhdFixedBackend → Backend

-- The `match fmt` of `open`.
unfoldable pub open_as : Format → Option File → Outcome Backend
open_as Format.raw found = do be ← open_raw found; ok (raw_backend be)
open_as Format.vhd_fixed found = do be ← open_vhd found; ok (vhd_backend be)
open_as Format.vhd_dynamic found = err dynamic_vhd
open_as Format.vhdx found = err vhdx_unsupported

unfoldable pub open_image : ImagePath → Outcome Backend
open_image path = do fmt ← detect_format path; open_as fmt path.found
