-- ===== src/Storage/Volume.antt =====
-- A disk image as its clients see it: `open` of hyperpod/src/vmm/common/storage/mod.rs, with the backend behind
-- `Box<dyn BlockBackend>` forgotten.
use mathlib.Core.Quot
use mathlib.Core.Quot.{Quot, Quot-set}
use hyper_pod.Base.{
  ℕ, ◌+◌, ◌<◌, ◌≡◌, refl, sym, ap, ◌∙◌, Option, some, List, [], ◌∷◌, ◌++◌, arith, length,
  length-append, u64_mod, Outcome, ok, ◌>>=◌,
}
use hyper_pod.Storage.DiskFile.{File}
use hyper_pod.Storage.Raw.{RawBackend, open_raw}
use hyper_pod.Storage.{
  ImagePath, Format, Backend, raw_backend, vhd_backend, by_extension, detect_format, open_as,
  open_image,
}
use hyper_pod.Storage.Detect.{classify_vhd_lem, format_of}
use hyper_pod.Storage.Device.Alike.{Access, answers}
use hyper_pod.Storage.Device.Fulfils.{raw_device, vhd_device}
use hyper_pod.Storage.Device.Fulfils.Footer.{
  IsFooterFor, footer_of-append, opens-with_footer, answers-with_footer,
}

unfoldable pub answers_of : List Access → Backend → List (Outcome (List ℕ))
answers_of accesses (raw_backend d) = answers raw_device accesses d
answers_of accesses (vhd_backend d) = answers vhd_device accesses d

-- Backends that give the same answers to every client.
abbrev pub SameAnswers : Backend → Backend → Type 0
SameAnswers b c = (accesses : List Access) → answers_of accesses b ≡ answers_of accesses c

abbrev pub Volume : Type 0
Volume = Quot SameAnswers

-- What a client can learn from a volume.
answers_set : IsSet (List (Outcome (List ℕ)))
answers_set = hlevel

unfoldable pub ask : List Access → Volume → List (Outcome (List ℕ))
unfolding answers_set
ask accesses = Quot.lift answers_set (answers_of accesses) (λ b c h. h accesses)

-- `open`, up to what clients see.
unfoldable pub open_volume : ImagePath → Outcome Volume
open_volume path = do backend ← open_image path; ok (Quot.mk backend)

-- The extension ".vhd" with any capitals leads to the footer, and a footer of the fixed type to the fixed format.
detect_format-with_footer :
    (image footer : File) (size : ℕ)
    → IsFooterFor size footer
    → detect_format
        (record { extension = some (b'v' ∷ b'h' ∷ b'd' ∷ []); found = some (image ++ footer) })
      ≡ ok Format.vhd_fixed
unfolding detect_format by_extension format_of
detect_format-with_footer image footer size h =
    let same = footer_of-append image footer h.long in
    classify_vhd_lem (image ++ footer) (omega (arith, length-append image footer, h.long))
    ∙ rw (same, h.cookie, h.fixed) refl

-- Let an image be taken for a raw one and open, and let a footer of 512 bytes have the cookie, the fixed type
-- and the size of the image, where both together are shorter than 2^64 bytes. Then the image with the footer after it, under
-- the extension ".vhd", opens too, and the two are one volume: whatever sectors a client reads and writes, in range or not and with buffers of any
-- length, it gets the same answers from both, errors included, and they are those of the raw backend.
pub open_volume-with_footer :
    (extension : Option (List ℕ)) (image footer : File) (r : RawBackend) (accesses : List Access)
    → detect_format (record { extension = extension; found = some image }) ≡ ok Format.raw
    → open_raw (some image) ≡ ok r
    → IsFooterFor (length image) footer
    → length image + 512 < u64_mod
    → (v : Volume) × (open_volume (record { extension = extension; found = some image }) ≡ ok v)
      × (open_volume
            (record { extension = some (b'v' ∷ b'h' ∷ b'd' ∷ []); found = some (image ++ footer) })
          ≡ ok v)
      × (ask accesses v ≡ answers raw_device accesses r)
unfolding open_volume open_image open_as answers_of ask
open_volume-with_footer extension image footer r accesses taken opened h small =
    let (v, opens, alike) = opens-with_footer image footer r opened h small in
    let one : ◌≡◌ {A = Volume} (Quot.mk (vhd_backend v)) (Quot.mk (raw_backend r)) =
      Quot.sound (λ rest. sym (answers-with_footer footer r v rest alike)) in
    (
      Quot.mk (raw_backend r),
      rw (taken, opened) refl,
      rw (detect_format-with_footer image footer (length image) h, opens) (ap ok one),
      refl,
    )
