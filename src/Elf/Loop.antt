-- ===== src/Elf/Loop.antt =====
-- The loop over the program headers, and the whole of `load`.
use hyper_pod.Base.{
  ℕ, zero, suc, ◌+◌, ◌*◌, ◌≤◌, ◌<◌, ◌≡◌, ◌≢◌, inl, inr, ap, ◌∙◌, subst, Bool, true, false, ◌||◌,
  some, List, [], ◌∷◌, arith, length, ◌==◌, Bool-cases, if◌then◌else◌, add64, slice_reversed, ok,
  panic, no_load_segments, All,
}
use hyper_pod.Base.Action.{pure, raise, reads, >>=-eq-ok}
use hyper_pod.Ram.{GuestRam}
use hyper_pod.Ram.Access.{IsValid}
use hyper_pod.Elf.{
  Header, LoadedKernel, pt_load, le_field, read_header, load_header, load_headers, load_kernel,
  load,
}
use hyper_pod.Elf.Image.{
  Segment, segment_at, place, le_at, le_field-cases, Placed, load_segment-eq-ok,
}

-- The memory with the segments in it, in their order.
unfoldable pub image : (ℕ → ℕ) → List Segment → ℕ → ℕ
image cell [] = cell
image cell (seg ∷ segs) = image (place cell seg) segs

-- Where program header `i` stands, and whether it is a `PT_LOAD` header.
abbrev pub header_offset : Header → ℕ → ℕ
header_offset hdr i = hdr.phoff + i * hdr.phentsize

abbrev pub is_load : List ℕ → ℕ → Bool
is_load bytes off = le_at bytes off 4 == pt_load

-- The segments of the file, from header `i` on, `left` headers in all.
unfoldable pub segments : List ℕ → Header → ℕ → ℕ → List Segment
segments bytes hdr zero i = []
segments bytes hdr (suc left) i =
    let rest = segments bytes hdr left (i + 1) in
    let off = header_offset hdr i in if is_load bytes off then segment_at bytes off ∷ rest else rest

-- The segment ends at or below `limit`.
abbrev pub EndsBy : ℕ → Segment → Type 0
EndsBy limit seg = seg.paddr + length seg.contents ≤ limit

le_field_wraps : (bytes : List ℕ) (a b : ℕ) → b < a → le_field bytes a b ≡ panic
unfolding le_field
le_field_wraps bytes a b h = rw (slice_reversed bytes a b h)

-- What a round that returns has done.
load_header-eq-ok :
    (bytes : List ℕ) (hdr : Header) (i : ℕ) (ram ram' : GuestRam) (loaded : Bool)
    → IsValid ram
    → load_header bytes hdr i ram ≡ (ok loaded, ram')
    → let off = header_offset hdr i in
      let seg = segment_at bytes off in
      (is_load bytes off ≡ loaded)
      × (loaded ≡ true → Placed ram ram' seg.paddr seg.contents)
      × (loaded ≡ false → ram' ≡ ram)
unfolding load_header
load_header-eq-ok bytes hdr i ram ram' loaded v h =
    let off = header_offset hdr i in
    ground (
      arith,
      le_field-cases bytes off 4 (off + 4),
      le_field_wraps bytes off (add64 off 4),
      load_segment-eq-ok bytes off ram ram' v,
    )

abbrev pub is_nonempty : List Segment → Bool
is_nonempty [] = false
is_nonempty (seg ∷ segs) = true

nonempty_ne : (segs : List Segment) → is_nonempty segs ≡ true → segs ≢ []
nonempty_ne segs h e = ground arith

-- `ram'` is `ram` with the segments in it, each of which lies within it.
abbrev pub Loaded : List Segment → GuestRam → GuestRam → Type 0
Loaded segs ram ram' =
    (ram'.size ≡ ram.size) × All (EndsBy ram.size) segs × (ram'.cell ≡ image ram.cell segs)

Loaded-cons :
    (seg : Segment) (segs : List Segment) (ram mid ram' : GuestRam)
    → Placed ram mid seg.paddr seg.contents
    → Loaded segs mid ram'
    → Loaded (seg ∷ segs) ram ram'
unfolding image
Loaded-cons seg segs ram mid ram' (size, fits, cell) (sizes, all_fit, cells) = (
  sizes ∙ size,
  (fits, subst (λ n. All (EndsBy n) segs) size all_fit),
  cells ∙ ap (λ c. image c segs) cell,
)

-- What the rest of the loop that returns has done.
load_headers-eq-ok :
    (bytes : List ℕ) (hdr : Header) (left i : ℕ) (before r : Bool) (ram ram' : GuestRam)
    → IsValid ram
    → load_headers bytes hdr left i before ram ≡ (ok r, ram')
    → let segs = segments bytes hdr left i in
      Loaded segs ram ram' × (r ≡ (before || is_nonempty segs))
unfolding load_headers segments image
load_headers-eq-ok bytes hdr zero i before r ram ram' v h = ground arith
load_headers-eq-ok bytes hdr (suc left) i before r ram ram' v h =
    let (loaded, mid, round, rest) =
      >>=-eq-ok (load_header bytes hdr i) (λ l. load_headers bytes hdr left (i + 1) (before || l))
        ram h in
    let (kind, placed, skipped) = load_header-eq-ok bytes hdr i ram mid loaded v round in
    let go = load_headers-eq-ok bytes hdr left (i + 1) (before || loaded) r mid ram' in
    elim (Bool-cases loaded) [
      | inl is_one ↦
          let (size, fits, cell) = placed is_one in
          let (all_loaded, any) = go (rw size v) rest in
          rw (kind ∙ is_one) (
            Loaded-cons (segment_at bytes (header_offset hdr i)) _ ram mid ram' (size, fits, cell)
                all_loaded,
            ground arith,
          )
      | inr is_none ↦
          let same = skipped is_none in
          let (all_loaded, any) = go (rw same v) rest in
          rw (kind ∙ is_none) (rw same at all_loaded, ground arith)
    ]

load_kernel-eq-ok :
    (bytes : List ℕ) (hdr : Header) (ram ram' : GuestRam) (kernel : LoadedKernel)
    → IsValid ram
    → load_kernel bytes hdr ram ≡ (ok kernel, ram')
    → (kernel.entry ≡ hdr.entry)
      × (segments bytes hdr hdr.phnum 0 ≢ [])
      × Loaded (segments bytes hdr hdr.phnum 0) ram ram'
unfolding load_kernel
load_kernel-eq-ok bytes hdr ram ram' kernel v h =
    let segs = segments bytes hdr hdr.phnum 0 in
    let (any, mid, loop, rest) =
      >>=-eq-ok (load_headers bytes hdr hdr.phnum 0 false)
        (λ l. if l then pure (record { entry = hdr.entry }) else raise no_load_segments) ram h in
    let (loaded, found) = load_headers-eq-ok bytes hdr hdr.phnum 0 false any ram mid v loop in
    let end : (any ≡ true) × (kernel.entry ≡ hdr.entry) × (mid ≡ ram') = ground arith in
    (end.1, nonempty_ne segs (ground arith), rw (← end.2) loaded)

-- When `load` returns, the entry point is that of the file header, at least one segment was
-- loaded, all segments lie within the memory, and the memory is the old one with the segments of
-- the file in it, in the order of their headers.
pub load-eq-ok :
    (bytes : List ℕ) (ram ram' : GuestRam) (kernel : LoadedKernel)
    → IsValid ram
    → load (some bytes) ram ≡ (ok kernel, ram')
    → (hdr : Header) × (read_header bytes ≡ ok hdr)
      × ((kernel.entry ≡ hdr.entry)
          × (segments bytes hdr hdr.phnum 0 ≢ [])
          × Loaded (segments bytes hdr hdr.phnum 0) ram ram')
unfolding load
load-eq-ok bytes ram ram' kernel v h =
    let (hdr, same, checked, rest) =
      >>=-eq-ok (reads (λ _. read_header bytes)) (load_kernel bytes) ram h in
    let header : read_header bytes ≡ ok hdr = ground arith in
    let at_ram : load_kernel bytes hdr ram ≡ (ok kernel, ram') = ground arith in
    (hdr, header, load_kernel-eq-ok bytes hdr ram ram' kernel v at_ram)
