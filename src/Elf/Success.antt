-- ===== src/Elf/Success.antt =====
-- The kernel files that hyperpod/src/vmm/common/elf.rs loads.
use hyper_pod.Base.{
  ℕ, zero, suc, ◌+◌, ◌-◌, ◌^◌, ◌≤◌, ◌<◌, ◌≡◌, ◌≢◌, refl, sym, subst, ap, ◌∙◌, Bool, true, false,
  ◌||◌, some, List, [], ◌∷◌, arith, length, take, drop, replicate, length-replicate, length-take,
  length-drop, slice, from_le_bytes, max_of, if◌then◌else◌, Outcome, ok, no_load_segments,
}
use hyper_pod.Base.Action.{pure, raise, >>=-ok}
use hyper_pod.Ram.{GuestRam}
use hyper_pod.Ram.Access.{written, write_slice_in_range}
use hyper_pod.Elf.{
  Header, LoadedKernel, le_field, read_header, file_range_is_bad, zero_fill, copy_segment,
  load_segment, load_header, load_headers, load_kernel, load,
}
use hyper_pod.Elf.Image.{Segment, segment_at, le_at}
use hyper_pod.Elf.Loop.{header_offset, is_load, is_nonempty, segments}

-- `m` returns from `ram`, and keeps its size.
abbrev Returns : {A : Type 0} → GuestRam → A → Outcome A × GuestRam → Type 0
Returns ram a r = (r.0 ≡ ok a) × (r.1.size ≡ ram.size)

-- The memory is of a size that can be allocated, and the file of a size that can be read.
abbrev pub IsSmall : ℕ → Type 0
IsSmall size = size < 2 ^ 63

slice-ok :
    (bytes : List ℕ) (a b : ℕ)
    → a ≤ b
    → b ≤ length bytes
    → slice bytes a b ≡ ok (take (b - a) (drop a bytes))
unfolding slice
slice-ok bytes a b h k = ground arith

le_field-ok :
    (bytes : List ℕ) (a n b : ℕ)
    → a + n ≡ b
    → b ≤ length bytes
    → le_field bytes a b ≡ ok (le_at bytes a n)
unfolding le_field
le_field-ok bytes a n b e h =
    let width : b - a ≡ n = omega arith in
    rw (slice-ok bytes a b (omega arith) h)
      (ap (λ k. ok (from_le_bytes (take k (drop a bytes)))) width)

zero_fill-ok :
    (addr n : ℕ) (ram : GuestRam)
    → IsSmall ram.size
    → addr + n ≤ ram.size
    → zero_fill addr n ram ≡ (ok tt, written ram addr (replicate n 0))
unfolding zero_fill
zero_fill-ok addr n ram small h =
    let put = write_slice_in_range ram addr (replicate n 0) (omega arith) (rw length-replicate h) in
    ground arith

copy_segment-Returns :
    (bytes : List ℕ) (p_offset p_paddr p_filesz p_memsz : ℕ) (ram : GuestRam)
    → IsSmall ram.size
    → IsSmall (length bytes)
    → p_offset + p_filesz ≤ length bytes
    → p_paddr + max_of p_filesz p_memsz ≤ ram.size
    → Returns ram tt (copy_segment bytes p_offset p_paddr p_filesz p_memsz ram)
unfolding copy_segment file_range_is_bad
copy_segment-Returns bytes p_offset p_paddr p_filesz p_memsz ram small short inside room =
    let file_part = take p_filesz (drop p_offset bytes) in
    let width : p_offset + p_filesz - p_offset ≡ p_filesz = omega arith in
    let contents : slice bytes p_offset (p_offset + p_filesz) ≡ ok file_part =
      slice-ok bytes p_offset (p_offset + p_filesz) (omega arith) inside
      ∙ ap (λ k. ok (take k (drop p_offset bytes))) width in
    let size : length file_part ≡ p_filesz =
      length-take p_filesz (drop p_offset bytes) (omega (arith, length-drop p_offset bytes)) in
    let copied = write_slice_in_range ram p_paddr file_part (omega arith) (ground arith) in
    let filled =
      zero_fill-ok (p_paddr + p_filesz) (p_memsz - p_filesz) (written ram p_paddr file_part)
        small in
    ground arith

-- The segment of the program header at `off` has its bytes in the file and its room in the memory.
abbrev pub Fits : List ℕ → ℕ → ℕ → Type 0
Fits bytes size off =
    (le_at bytes (off + 8) 8 + le_at bytes (off + 32) 8 ≤ length bytes)
    × (le_at bytes (off + 24) 8 + max_of (le_at bytes (off + 32) 8) (le_at bytes (off + 40) 8)
        ≤ size)

load_segment-Returns :
    (bytes : List ℕ) (off : ℕ) (ram : GuestRam)
    → IsSmall ram.size
    → IsSmall (length bytes)
    → off + 56 ≤ length bytes
    → Fits bytes ram.size off
    → Returns ram tt (load_segment bytes off ram)
unfolding load_segment
load_segment-Returns bytes off ram small short inside fits =
    rw
      (
        le_field-ok bytes (off + 8) 8 (off + 16) (omega arith) (omega arith),
        le_field-ok bytes (off + 24) 8 (off + 32) (omega arith) (omega arith),
        le_field-ok bytes (off + 32) 8 (off + 40) (omega arith) (omega arith),
        le_field-ok bytes (off + 40) 8 (off + 48) (omega arith) (omega arith),
      )
      (copy_segment-Returns bytes (le_at bytes (off + 8) 8) (le_at bytes (off + 24) 8)
        (le_at bytes (off + 32) 8) (le_at bytes (off + 40) 8) ram small short fits.0 fits.1)

-- Every program header, from header `i` on, `left` in all, lies in the file, and the segments fit.
unfoldable pub AreLoadable : List ℕ → Header → ℕ → ℕ → ℕ → Type 0
AreLoadable bytes hdr size zero i = Unit {0}
AreLoadable bytes hdr size (suc left) i =
    (header_offset hdr i + hdr.phentsize ≤ length bytes)
    × (is_load bytes (header_offset hdr i) ≡ true → Fits bytes size (header_offset hdr i))
    × AreLoadable bytes hdr size left (i + 1)

load_header-Returns :
    (bytes : List ℕ) (hdr : Header) (i : ℕ) (ram : GuestRam)
    → IsSmall ram.size
    → IsSmall (length bytes)
    → 56 ≤ hdr.phentsize
    → header_offset hdr i + hdr.phentsize ≤ length bytes
    → (is_load bytes (header_offset hdr i) ≡ true → Fits bytes ram.size (header_offset hdr i))
    → Returns ram (is_load bytes (header_offset hdr i)) (load_header bytes hdr i ram)
unfolding load_header
load_header-Returns bytes hdr i ram small short width inside fits =
    let off = header_offset hdr i in
    let kind = le_field-ok bytes off 4 (off + 4) refl (omega arith) in
    let segment = load_segment-Returns bytes off ram small short (omega arith) in ground arith

found_one :
    (before here : Bool) (seg : Segment) (segs : List Segment)
    → ((before || here) || is_nonempty segs)
      ≡ (before || is_nonempty (if here then seg ∷ segs else segs))
found_one true here seg segs = refl
found_one false true seg segs = refl
found_one false false seg segs = refl

load_headers-Returns :
    (bytes : List ℕ) (hdr : Header) (left i : ℕ) (before : Bool) (ram : GuestRam)
    → IsSmall ram.size
    → IsSmall (length bytes)
    → 56 ≤ hdr.phentsize
    → AreLoadable bytes hdr ram.size left i
    → Returns ram
        (before || is_nonempty (segments bytes hdr left i))
        (load_headers bytes hdr left i before ram)
unfolding load_headers segments AreLoadable
load_headers-Returns bytes hdr zero i before ram small short width all = ground arith
load_headers-Returns bytes hdr (suc left) i before ram small short width (inside, fits, others) =
    let (round, kept) = load_header-Returns bytes hdr i ram small short width inside fits in
    let off = header_offset hdr i in
    let mid = (load_header bytes hdr i ram).1 in
    let rest =
      load_headers-Returns bytes hdr left (i + 1) (before || is_load bytes off) mid
        (subst (λ n. IsSmall n) (sym kept) small) short width
        (subst (λ n. AreLoadable bytes hdr n left (i + 1)) (sym kept) others) in
    rw
      (>>=-ok (load_header bytes hdr i) (λ l. load_headers bytes hdr left (i + 1) (before || l)) ram
        (ap (λ r. (r, mid)) round))
      (
        rest.0 ∙ ap (λ b. ok b) (found_one before (is_load bytes off) (segment_at bytes off) _),
        rest.1 ∙ kept,
      )

ne_nonempty : (segs : List Segment) → segs ≢ [] → is_nonempty segs ≡ true
ne_nonempty [] h = absurd (h refl)
ne_nonempty (seg ∷ segs) h = refl

read_header-phentsize :
    (bytes : List ℕ) (hdr : Header) → read_header bytes ≡ ok hdr → 56 ≤ hdr.phentsize
unfolding read_header
read_header-phentsize bytes hdr h = ground arith

-- A file is loaded if its header is accepted, its program headers and the bytes of its `PT_LOAD` segments
-- lie within it, the room of these segments lies within the memory, and there is one of them at least,
-- file and memory being smaller than 2^63 bytes: `load` then returns, with the entry point of the header.
pub load-returns :
    (bytes : List ℕ) (hdr : Header) (ram : GuestRam)
    → ram.size < 2 ^ 63
    → length bytes < 2 ^ 63
    → read_header bytes ≡ ok hdr
    → AreLoadable bytes hdr ram.size hdr.phnum 0
    → segments bytes hdr hdr.phnum 0 ≢ []
    → (load (some bytes) ram).0 ≡ ok (record { entry = hdr.entry })
unfolding load load_kernel
load-returns bytes hdr ram small short header all some_load =
    let (found, kept) =
      load_headers-Returns bytes hdr hdr.phnum 0 false ram small short
        (read_header-phentsize bytes hdr header) all in
    let any = found ∙ ap (λ b. ok b) (ne_nonempty _ some_load) in
    rw
      (
        header,
        >>=-ok {B = LoadedKernel} (load_headers bytes hdr hdr.phnum 0 false)
            (λ l. if l then pure (record { entry = hdr.entry }) else raise no_load_segments) ram
            (ap (λ r. (r, (load_headers bytes hdr hdr.phnum 0 false ram).1)) any),
      )
      refl
