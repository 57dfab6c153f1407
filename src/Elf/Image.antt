-- ===== src/Elf/Image.antt =====
-- The segments of a kernel file, described apart from the loader (hyperpod/src/vmm/common/elf.rs),
-- and what the copy of one of them does to memory.
use mathlib.Core.List.{append-nil}
use hyper_pod.Base.{
  ℕ, ◌+◌, ◌-◌, ◌≤◌, ◌≡◌, refl, ◌⊎◌, inl, inr, ap, fun_ext, ◌∙◌, List, ◌++◌, arith, length, take,
  drop, replicate, from_le_bytes, slice, slice-cases, length-append, length-replicate, length-take,
  length-drop, ok, panic, ltb, Bool-cases,
}
use hyper_pod.Ram.{GuestRam}
use hyper_pod.Ram.Memory.{overwrite, overwrite-append}
use hyper_pod.Ram.Access.{IsValid, written, write_slice-cases}
use hyper_pod.Elf.{le_field, zero_fill, copy_segment, load_segment}

-- The little-endian integer of `n` bytes at `a`.
abbrev pub le_at : List ℕ → ℕ → ℕ → ℕ
le_at bytes a n = from_le_bytes (take n (drop a bytes))

-- A segment in memory: its address and its bytes, those of the file and then zeros.
pub record Segment : Type 0 where
  pub paddr : ℕ
  pub contents : List ℕ

-- The segment that the program header at `off` describes.
unfoldable pub segment_at : List ℕ → ℕ → Segment
segment_at bytes off =
    let filesz = le_at bytes (off + 32) 8 in
    let memsz = le_at bytes (off + 40) 8 in
    record {
      paddr = le_at bytes (off + 24) 8;
      contents = take filesz (drop (le_at bytes (off + 8) 8) bytes) ++ replicate (memsz - filesz) 0;
    }

-- The memory with the segment in it.
abbrev pub place : (ℕ → ℕ) → Segment → ℕ → ℕ
place cell seg = overwrite cell seg.paddr seg.contents

pub le_field-cases :
    (bytes : List ℕ) (a n b : ℕ)
    → a + n ≡ b
    → ((le_field bytes a b ≡ ok (le_at bytes a n)) × (b ≤ length bytes))
      ⊎ (le_field bytes a b ≡ panic)
unfolding le_field
le_field-cases bytes a n b e =
    let width : b - a ≡ n = omega arith in
    elim (slice-cases bytes a b) [
      | inl (h, _, end) ↦
          inl (rw h (ap (λ k. ok (from_le_bytes (take k (drop a bytes)))) width), end)
      | inr h ↦ inr (rw h)
    ]

-- What a zero fill that returns has done.
zero_fill-eq-ok :
    (addr n : ℕ) (ram ram' : GuestRam)
    → zero_fill addr n ram ≡ (ok tt, ram')
    → (ram' ≡ written ram addr (replicate n 0)) × (addr + n ≤ ram.size)
unfolding zero_fill
zero_fill-eq-ok addr n ram ram' h = elim (write_slice-cases ram addr (replicate n 0)) [
  | inl (e, fits) ↦ ground (arith, length-replicate {A = ℕ} n 0)
  | inr (x, e) ↦ ground arith
]

-- `ram'` is `ram` with `contents` at `paddr`, which lies within it.
abbrev pub Placed : GuestRam → GuestRam → ℕ → List ℕ → Type 0
Placed ram ram' paddr contents =
    (ram'.size ≡ ram.size)
    × (paddr + length contents ≤ ram.size)
    × (ram'.cell ≡ overwrite ram.cell paddr contents)

Placed-append :
    (ram ram' : GuestRam) (paddr k : ℕ) (xs ys : List ℕ)
    → length xs ≡ k
    → ram' ≡ written (written ram paddr xs) (paddr + k) ys
    → paddr + k + length ys ≤ ram.size
    → Placed ram ram' paddr (xs ++ ys)
Placed-append ram ram' paddr k xs ys size done fits =
    rw (done, ← size)
      (refl, omega (arith, length-append xs ys), fun_ext (overwrite-append ram.cell paddr xs ys))

Placed-nil :
    (ram ram' : GuestRam) (paddr k : ℕ) (xs : List ℕ)
    → k ≡ 0
    → ram' ≡ written ram paddr xs
    → paddr + length xs ≤ ram.size
    → Placed ram ram' paddr (xs ++ replicate k 0)
Placed-nil ram ram' paddr k xs none_left done fits =
    rw (none_left, append-nil, done) (refl, fits, refl)

-- What a copy that returns has done: the bytes of the file, and zeros behind them.
copy_segment-eq-ok :
    (bytes : List ℕ) (p_offset p_paddr p_filesz p_memsz : ℕ) (ram ram' : GuestRam)
    → IsValid ram
    → copy_segment bytes p_offset p_paddr p_filesz p_memsz ram ≡ (ok tt, ram')
    → Placed ram ram' p_paddr
        (take p_filesz (drop p_offset bytes) ++ replicate (p_memsz - p_filesz) 0)
unfolding copy_segment
copy_segment-eq-ok bytes p_offset p_paddr p_filesz p_memsz ram ram' v h =
    elim (slice-cases bytes p_offset (p_offset + p_filesz)) [
      | inr broken ↦ absurd (ground arith)
      | inl (read, _, end) ↦
          let file_part = take p_filesz (drop p_offset bytes) in
          let width : p_offset + p_filesz - p_offset ≡ p_filesz = omega arith in
          let contents : slice bytes p_offset (p_offset + p_filesz) ≡ ok file_part =
            read ∙ ap (λ k. ok (take k (drop p_offset bytes))) width in
          let size : length file_part ≡ p_filesz =
            length-take p_filesz (drop p_offset bytes)
              (omega (arith, length-drop p_offset bytes)) in
          elim (write_slice-cases ram p_paddr file_part) [
            | inr (e, failed) ↦ absurd (ground arith)
            | inl (copied, fits) ↦ elim (Bool-cases (ltb p_filesz p_memsz)) [
              | inl bss ↦
                  let filled : zero_fill (p_paddr + p_filesz) (p_memsz - p_filesz)
                        (written ram p_paddr file_part)
                      ≡ (ok tt, ram') =
                    ground arith in
                  let (done, room) = zero_fill-eq-ok _ _ _ ram' filled in
                  Placed-append ram ram' p_paddr p_filesz file_part
                    (replicate (p_memsz - p_filesz) 0) size done (rw length-replicate room)
              | inr plain ↦
                  let done : ram' ≡ written ram p_paddr file_part = ground arith in
                  Placed-nil ram ram' p_paddr (p_memsz - p_filesz) file_part (ground arith) done
                    fits
            ]
          ]
    ]

-- A segment that is loaded is the one that its program header describes.
pub load_segment-eq-ok :
    (bytes : List ℕ) (off : ℕ) (ram ram' : GuestRam)
    → IsValid ram
    → load_segment bytes off ram ≡ (ok tt, ram')
    → Placed ram ram' (segment_at bytes off).paddr (segment_at bytes off).contents
unfolding load_segment segment_at
load_segment-eq-ok bytes off ram ram' v h =
    copy_segment-eq-ok bytes (le_at bytes (off + 8) 8) (le_at bytes (off + 24) 8)
      (le_at bytes (off + 32) 8) (le_at bytes (off + 40) 8) ram ram' v
      (ground (
        arith,
        le_field-cases bytes (off + 8) 8 (off + 16) (omega arith),
        le_field-cases bytes (off + 24) 8 (off + 32) (omega arith),
        le_field-cases bytes (off + 32) 8 (off + 40) (omega arith),
        le_field-cases bytes (off + 40) 8 (off + 48) (omega arith),
      ))
