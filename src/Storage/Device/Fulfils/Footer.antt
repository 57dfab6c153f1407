-- ===== src/Storage/Device/Fulfils/Footer.antt =====
-- A raw image and the fixed VHD that is made of it by adding a footer
-- (hyperpod/src/vmm/common/storage/raw.rs and vhd.rs).
use mathlib.Core.List.{append_assoc}
use hyper_pod.Base.{
  take-append_left, drop-append_left, drop-length_append, take-length, ℕ, ◌+◌, ◌-◌, ◌*◌, ◌≤◌, ◌<◌,
  ◌≡◌, refl, sym, Bool-cases, inl, inr, false, ap, subst, ◌∙◌, true, some, List, ◌++◌, arith,
  length, length-append, length-drop, take, drop, leb, ◌==◌, u64_mod, bytes_eq, from_be_bytes, ok,
}
use hyper_pod.Storage.Sector.{sector_size}
use hyper_pod.Storage.DiskFile.{
  File, read_exact_at, write_all_at, write_all_at_inside, length-write_all_at,
}
use hyper_pod.Storage.Raw.{RawBackend, open_raw, read_raw, write_raw}
use hyper_pod.Storage.Vhd.{
  VhdFixedBackend, footer_cookie, open_vhd, read_vhd, write_vhd, check_disk_type,
  check_original_size,
}
use hyper_pod.Storage.Open.{open_raw_iff, open_vhd_checks, footer_of}
use hyper_pod.Storage.Device.Alike.{Access, answers, BothWrite, IsSimulation, answers-answers}
use hyper_pod.Storage.Device.Fulfils.{raw_device, vhd_device}

module _ (file footer : File) where
  read_exact_at-append :
      (off n : ℕ)
      → off + n ≤ length file
      → read_exact_at (file ++ footer) off n ≡ read_exact_at file off n
  unfolding read_exact_at
  read_exact_at-append off n h = ground (
    arith,
    length-append file footer,
    drop-append_left off file footer (omega arith),
    take-append_left n (drop off file) footer (omega (arith, length-drop off file)),
  )

  write_all_at-append :
      (off : ℕ) (bytes : List ℕ)
      → off + length bytes ≤ length file
      → write_all_at (file ++ footer) off bytes ≡ write_all_at file off bytes ++ footer
  write_all_at-append off bytes h =
      let inside =
        write_all_at_inside (file ++ footer) off bytes (omega (arith, length-append file footer)) in
      inside
      ∙ rw
          (
            take-append_left off file footer (omega arith),
            drop-append_left (off + length bytes) file footer h,
            write_all_at_inside file off bytes h,
          )
          (simp append_assoc)

-- The VHD with the sectors of an image, and a footer after them.
abbrev pub with_footer : File → RawBackend → VhdFixedBackend
with_footer footer r = record { file = r.file ++ footer; sectors = r.sectors }

pub record HasFooter (footer : File) (r : RawBackend) (v : VhdFixedBackend) : Type 0 where
  pub same : v ≡ with_footer footer r
  pub whole : r.sectors * sector_size ≡ length r.file

module _ (footer : File) (r : RawBackend) (whole : r.sectors * sector_size ≡ length r.file)
    (i : ℕ) where
  in_file :
      (n : ℕ)
      → leb r.sectors i ≡ false
      → (n == sector_size) ≡ true
      → i * sector_size + n ≤ length r.file
  in_file n inside exact = ground arith

  read_raw-read_vhd : (n : ℕ) → read_raw r i n ≡ read_vhd (with_footer footer r) i n
  unfolding read_raw read_vhd
  read_raw-read_vhd n = elim (Bool-cases (leb r.sectors i)) [
    | inl out ↦ rw out refl
    | inr inside ↦ elim (Bool-cases (n == sector_size)) [
      | inl exact ↦
          rw (inside, exact)
            (sym (read_exact_at-append r.file footer (i * sector_size) n (in_file n inside exact)))
      | inr other ↦ rw (inside, other) refl
    ]
  ]

  write_raw-write_vhd :
      (buf : List ℕ)
      → BothWrite raw_device vhd_device
          (HasFooter footer)
          (write_raw r i buf)
          (write_vhd (with_footer footer r) i buf)
  unfolding write_raw write_vhd BothWrite
  write_raw-write_vhd buf = elim (Bool-cases (leb r.sectors i)) [
    | inl out ↦ rw out refl
    | inr inside ↦ elim (Bool-cases (length buf == sector_size)) [
      | inl exact ↦
          let fits = in_file (length buf) inside exact in
          rw (inside, exact)
            (record {
              same =
                  ap (λ (f : File). record (with_footer footer r) { file = f })
                    (write_all_at-append r.file footer (i * sector_size) buf fits);
              whole = whole ∙ sym (length-write_all_at r.file (i * sector_size) buf fits);
            })
      | inr other ↦ rw (inside, other) refl
    ]
  ]

footer-IsSimulation : (footer : File) → IsSimulation raw_device vhd_device (HasFooter footer)
footer-IsSimulation footer = record {
  reads =
      λ r v i n h. read_raw-read_vhd footer r h.whole i n ∙ ap (λ d. read_vhd d i n) (sym h.same);
  writes = λ r v i buf h.
      subst
        (λ d.
          BothWrite raw_device vhd_device (HasFooter footer) (write_raw r i buf)
            (write_vhd d i buf))
        (sym h.same) (write_raw-write_vhd footer r h.whole i buf);
}

-- What the fields of a footer for an image of `size` bytes have to be.
pub record IsFooterFor (size : ℕ) (footer : File) : Type 0 where
  pub long : length footer ≡ 512
  pub cookie : bytes_eq (take 8 footer) footer_cookie ≡ true
  pub fixed : from_be_bytes (take 4 (drop 60 footer)) ≡ 2
  pub original_size : from_be_bytes (take 8 (drop 40 footer)) ≡ size

pub footer_of-append :
    (image footer : File) → length footer ≡ 512 → footer_of (image ++ footer) ≡ footer
footer_of-append image footer long =
    let at : length (image ++ footer) - 512 ≡ length image =
      omega (arith, length-append image footer) in
    rw (at, drop-length_append image footer, ← long) (take-length footer)

check_original_size-returns :
    (sectors total : ℕ)
    → 0 < sectors
    → sectors * sector_size + 512 ≤ total
    → total < u64_mod
    → check_original_size (sectors * sector_size) total ≡ ok sectors
unfolding check_original_size
check_original_size-returns sectors total pos room small = ground arith

-- What opening checks, with the fields of the footer.
checks-returns :
    (file footer : File) (sectors : ℕ)
    → footer_of file ≡ footer
    → IsFooterFor (sectors * sector_size) footer
    → 0 < sectors
    → sectors * sector_size + 512 ≤ length file
    → length file < u64_mod
    → open_vhd (some file) ≡ ok (record { file = file; sectors = sectors })
checks-returns file footer sectors same h pos room small =
    open_vhd_checks file (omega arith)
    ∙ rw
        (
          same,
          h.cookie,
          h.fixed,
          h.original_size,
          check_original_size-returns sectors (length file) pos room small,
        )
        (unfold check_disk_type in refl)

-- The image with a footer opens as a VHD with the sectors of the image.
pub opens-with_footer :
    (image footer : File) (r : RawBackend)
    → open_raw (some image) ≡ ok r
    → IsFooterFor (length image) footer
    → length image + 512 < u64_mod
    → (v : VhdFixedBackend) × (open_vhd (some (image ++ footer)) ≡ ok v) × HasFooter footer r v
opens-with_footer image footer r opened h small =
    let (same, some_sectors, size) = (open_raw_iff image r).0 opened in
    let whole : length (image ++ footer) ≡ r.sectors * sector_size + 512 =
      omega (arith, length-append image footer, h.long) in
    let fields = subst (λ n. IsFooterFor n footer) (sym size) h in
    (
      record { file = image ++ footer; sectors = r.sectors },
      checks-returns (image ++ footer) footer r.sectors (footer_of-append image footer h.long)
          fields some_sectors (omega arith) (omega arith),
      record {
        same = ap (λ (f : File). record (with_footer footer r) { file = f ++ footer }) (sym same);
        whole = size ∙ ap length (sym same);
      },
    )

-- A client gets the same answers from both.
pub answers-with_footer :
    (footer : File) (r : RawBackend) (v : VhdFixedBackend) (accesses : List Access)
    → HasFooter footer r v
    → answers raw_device accesses r ≡ answers vhd_device accesses v
answers-with_footer footer r v accesses alike =
    answers-answers raw_device vhd_device (HasFooter footer) (footer-IsSimulation footer) accesses r
      v alike
