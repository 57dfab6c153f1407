-- ===== src/Vm/Ready.antt =====
-- The memory with which the processor starts.
use hyper_pod.Base.{
  ℕ, suc, ◌+◌, ◌*◌, ◌%◌, ◌^◌, ◌≤◌, ◌<◌, ◌≡◌, refl, sym, ap, subst, inl, ◌∙◌, Option, none, some,
  List, [], ◌∷◌, All, arith, length, ltb, if◌then◌else◌, ok, u64_mod,
}
use hyper_pod.Base.Action.{>>=-ok, ◌>>=◌}
use hyper_pod.Base.Utf8.{utf8, utf8-pos}
use hyper_pod.Ram.{GuestRam, new}
use hyper_pod.Ram.Memory.{overwrite_outside}
use hyper_pod.Ram.Access.{IsValid, new-IsValid}
use hyper_pod.Boot.{himem_start, cmdline_start, pml4_start, gdt_entries}
use hyper_pod.Boot.Walk.{translate}
use hyper_pod.Boot.Identity.{translate-AreTables}
use hyper_pod.Boot.Gdt.{read_table, IsGdt}
use hyper_pod.Boot.Cmdline.{text_at, IsCmdline}
use hyper_pod.Boot.Params.{HasHeader, read_e820, e820_map}
use hyper_pod.Boot.Artefacts.{
  write_artefacts, AreArtefacts, AreArtefacts-IsLocal, write_artefacts-Puts,
}
use hyper_pod.Elf.{Header, LoadedKernel, read_header, load}
use hyper_pod.Elf.Image.{Segment, place}
use hyper_pod.Elf.Loop.{image, segments, load-eq-ok}
use hyper_pod.Vm.{prepare}

-- Segments that start at `lo` or above leave the memory below it alone.
image_below :
    (cell : ℕ → ℕ) (segs : List Segment) (lo a : ℕ)
    → All (λ (seg : Segment). lo ≤ seg.paddr) segs
    → a < lo
    → image cell segs a ≡ cell a
unfolding image
image_below cell [] lo a h p = refl
image_below cell (seg ∷ segs) lo a h p =
    image_below (place cell seg) segs lo a h.1 p
    ∙ overwrite_outside cell seg.paddr seg.contents a (inl (omega (arith, h.0)))

-- The allocation's bytes are the memory's.
pub new-zero :
    (alloc : ℕ → Option (ℕ → ℕ))
    → ((size : ℕ) (cell : ℕ → ℕ) → alloc size ≡ some cell → (a : ℕ) → cell a ≡ 0)
    → (min_ram : ℕ) (ram : GuestRam) → new alloc min_ram ≡ ok ram
    → (a : ℕ) → ram.cell a ≡ 0
unfolding new
new-zero alloc zeroed min_ram ram h a = zeroed ram.size ram.cell (ground arith) a

-- The artefacts are all there after `prepare`, if the kernel's segments start above them.
prepare-AreArtefacts :
    (cmdline : List ℕ) (min_ram : ℕ) (bytes : List ℕ) (hdr : Header) (ram ram' : GuestRam)
    (kernel : LoadedKernel)
    → IsValid ram
    → ram.size ≡ min_ram * 1024 * 1024
    → himem_start ≤ ram.size
    → ((a : ℕ) → ram.cell a ≡ 0)
    → All (λ c. 0 < c) cmdline
    → cmdline_start + length (utf8 cmdline) < himem_start
    → read_header bytes ≡ ok hdr
    → All (λ (seg : Segment). himem_start ≤ seg.paddr) (segments bytes hdr hdr.phnum 0)
    → prepare cmdline min_ram (some bytes) ram ≡ (ok kernel, ram')
    → AreArtefacts (utf8 cmdline) ram.size ram'.cell × (kernel.entry ≡ hdr.entry)
unfolding prepare
prepare-AreArtefacts cmdline min_ram bytes hdr ram ram' kernel v size room zeros text short header
      above h =
    let p =
      write_artefacts-Puts (utf8 cmdline) ram.size ram v room (λ a _ _. zeros a) short
        (utf8-pos cmdline text) v in
    let total : min_ram * 1024 * 1024 % u64_mod ≡ ram.size = omega (arith, size) in
    let written =
      >>=-ok (write_artefacts (utf8 cmdline) ram.size) (λ _. load (some bytes)) ram p.returns in
    let loads : load (some bytes) (record ram { cell = p.after }) ≡ (ok kernel, ram') =
      sym written
      ∙ subst
          (λ n.
            (write_artefacts (utf8 cmdline) n >>= λ _. load (some bytes)) ram ≡ (ok kernel, ram'))
          total h in
    let (hdr', same, (entry, _, (_, _, cells))) =
      load-eq-ok bytes (record ram { cell = p.after }) ram' kernel v loads in
    let e : hdr' ≡ hdr = ground arith in
    let low = λ (a : ℕ) (q : a < himem_start).
      image_below p.after (segments bytes hdr' hdr'.phnum 0) himem_start a
        (subst
          (λ (x : Header).
            All (λ (seg : Segment). himem_start ≤ seg.paddr) (segments bytes x x.phnum 0))
          (sym e) above)
        q in
    (
      AreArtefacts-IsLocal (utf8 cmdline) ram.size short p.after ram'.cell
          (λ a _ q. ap (λ c. c a) cells ∙ low a q) p.holds,
      entry ∙ ap (λ (x : Header). x.entry) e,
    )

-- When a machine with at least a MiB of memory, fresh from the operating system, has been prepared for
-- a command line that ends below the first MiB and a kernel whose segments start above it, then the
-- processor's walk takes every address below 1 GiB to itself and faults at every other of 48 bits, and
-- the kernel finds the descriptors, its command line, the setup header and the memory map, each in its
-- place, and is entered at the entry point of its file: nothing that `run_vm` writes damages another
-- thing that it wrote.
pub prepare-ready :
    (alloc : ℕ → Option (ℕ → ℕ))
    → ((size : ℕ) (cell : ℕ → ℕ) → alloc size ≡ some cell → (a : ℕ) → cell a ≡ 0)
    → (cmdline : List ℕ) (min_ram : ℕ) (bytes : List ℕ) (hdr : Header) (ram ram' : GuestRam)
      (kernel : LoadedKernel) (va : ℕ)
    → new alloc min_ram ≡ ok ram
    → 0 < min_ram
    → All (λ c. 0 < c) cmdline
    → cmdline_start + length (utf8 cmdline) < himem_start
    → read_header bytes ≡ ok hdr
    → All (λ (seg : Segment). himem_start ≤ seg.paddr) (segments bytes hdr hdr.phnum 0)
    → prepare cmdline min_ram (some bytes) ram ≡ (ok kernel, ram')
    → va < 2 ^ 48
    → (translate ram'.cell pml4_start va ≡ (if ltb va (2 ^ 30) then some va else none))
      × (read_table ram'.cell 4 0 ≡ gdt_entries)
      × (text_at ram'.cell cmdline_start (suc (length (utf8 cmdline))) ≡ utf8 cmdline)
      × HasHeader ram'.cell (length (utf8 cmdline))
      × (read_e820 ram'.cell ≡ e820_map ram.size)
      × (kernel.entry ≡ hdr.entry)
unfolding IsGdt IsCmdline
prepare-ready alloc zeroed cmdline min_ram bytes hdr ram ram' kernel va made some_ram text short
      header above h low =
    let (v, size) = new-IsValid alloc min_ram ram made in
    let (all, entry) =
      prepare-AreArtefacts cmdline min_ram bytes hdr ram ram' kernel v (omega (arith, size))
        (omega (arith, size)) (new-zero alloc zeroed min_ram ram made) text short header above h in
    (
      translate-AreTables ram'.cell va all.tables low,
      all.gdt.0,
      all.text,
      all.params.has_header,
      all.params.has_map,
      entry,
    )
