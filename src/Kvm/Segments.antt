-- ===== src/Kvm/Segments.antt =====
-- The segment registers against the descriptors in memory.
use hyper_pod.Base.{
  ℕ, ◌+◌, ◌*◌, ◌/◌, ◌%◌, ◌^◌, ◌≤◌, ◌≡◌, refl, arith, ◌==◌, if◌then◌else◌, if◌then◌else◌,
}
use hyper_pod.Ram.{GuestRam}
use hyper_pod.Ram.Memory.{word_at}
use hyper_pod.Ram.Access.{IsValid}
use hyper_pod.Boot.{boot_idt_offset, write_gdt}
use hyper_pod.Boot.Gdt.{write_gdt-Writes, word_at-gdt_patches}
use hyper_pod.Kvm.{
  Segment, make_segment, configure_long_mode, kcs_selector, kds_selector, tss_selector,
}

-- The bits of `x` from `lo` on, `n` of them.
abbrev bits : ℕ → ℕ → ℕ → ℕ
bits x lo n = x / 2 ^ lo % 2 ^ n

-- What the processor loads for a selector whose descriptor is `d`, as the architecture manuals say:
-- with the granularity bit the limit counts pages of 4 KiB. What is loaded can be used.
abbrev pub load_descriptor : ℕ → ℕ → Segment
load_descriptor selector d =
    let raw = bits d 48 4 * 2 ^ 16 + bits d 0 16 in
    record {
      base = bits d 56 8 * 2 ^ 24 + bits d 16 24;
      limit = if bits d 55 1 == 1 then raw * 4096 + 4095 else raw;
      selector = selector;
      kind = bits d 40 4;
      present = bits d 47 1;
      dpl = bits d 45 2;
      db = bits d 54 1;
      s = bits d 44 1;
      l = bits d 53 1;
      g = bits d 55 1;
      avl = bits d 52 1;
      unusable = 0;
    }

-- The segment for a selector, from the table in memory at `base`.
abbrev pub segment_in : (ℕ → ℕ) → ℕ → ℕ → Segment
segment_in cell base selector = load_descriptor selector (word_at 8 cell (base + selector))

-- After `write_gdt`, the code and data segments with which the processor is started are those that it
-- would load from the table in memory by their selectors, whatever the entry point is; the task
-- segment is not: the table has an available one with the granularity bit, the register a busy one
-- without.
pub configure_long_mode-write_gdt :
    (ram : GuestRam) (entry : ℕ)
    → IsValid ram
    → boot_idt_offset + 8 ≤ ram.size
    → let regs = configure_long_mode entry in
      let cell = (write_gdt ram).1.cell in
      (segment_in cell regs.gdt_base kcs_selector ≡ regs.cs)
      × (segment_in cell regs.gdt_base kds_selector ≡ regs.ds)
      × (segment_in cell regs.gdt_base tss_selector
          ≡ record regs.tr { kind = 0b1001; g = 1; limit = 0x67fff })
unfolding configure_long_mode make_segment
configure_long_mode-write_gdt ram entry v room =
    let done = write_gdt-Writes.at ram v (ground arith) in
    rw
      (
        done,
        word_at-gdt_patches ram.cell 1 (omega arith),
        word_at-gdt_patches ram.cell 2 (omega arith),
        word_at-gdt_patches ram.cell 3 (omega arith),
      )
      (refl, refl, refl)
