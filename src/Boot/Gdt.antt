-- ===== src/Boot/Gdt.antt =====
-- The descriptor table of `write_gdt` (hyperpod/src/vmm/common/boot.rs) in memory.
use hyper_pod.Base.{
  ℕ, zero, suc, ◌+◌, ◌*◌, ◌≤◌, ◌<◌, ◌≡◌, refl, List, [], ◌∷◌, ◌++◌, arith, get_or, ok, ◌∙◌,
}
use hyper_pod.Ram.{GuestRam, write_obj}
use hyper_pod.Ram.Memory.{word_at, word_at_ext}
use hyper_pod.Ram.Access.{IsValid}
use hyper_pod.Ram.Patch.{
  Patch, patched, Writes, Writes-pure, Writes-write_obj, Writes-bind, word_at-patched,
  patched_outside,
}
use hyper_pod.Boot.Region.{IsLocal, Puts}
use hyper_pod.Boot.{boot_gdt_offset, boot_idt_offset, gdt_entries, write_entries, write_gdt}

-- The writes of `write_entries`, from index `i` on.
abbrev entry_patches : ℕ → List ℕ → List Patch
entry_patches i [] = []
entry_patches i (e ∷ es) =
    record { off = boot_gdt_offset + i * 8; width = 8; val = e } ∷ entry_patches (i + 1) es

write_entries-Writes : (i : ℕ) (es : List ℕ) → Writes (entry_patches i es) tt (write_entries i es)
unfolding write_entries
write_entries-Writes i [] = Writes-pure tt
write_entries-Writes i (e ∷ es) =
    Writes-bind (write_obj 8 (boot_gdt_offset + i * 8) e) (λ _. write_entries (i + 1) es)
      (Writes-write_obj 8 (boot_gdt_offset + i * 8) e) (write_entries-Writes (i + 1) es)

abbrev pub gdt_patches : List Patch
gdt_patches =
    entry_patches 0 gdt_entries ++ record { off = boot_idt_offset; width = 8; val = 0 } ∷ []

pub write_gdt-Writes : Writes gdt_patches tt write_gdt
unfolding write_gdt
write_gdt-Writes =
    Writes-bind (write_entries 0 gdt_entries) (λ _. write_obj 8 boot_idt_offset 0)
      (write_entries-Writes 0 gdt_entries) (Writes-write_obj 8 boot_idt_offset 0)

pub word_at-gdt_patches :
    (cell : ℕ → ℕ) (i : ℕ)
    → i < 4
    → word_at 8 (patched cell gdt_patches) (boot_gdt_offset + i * 8) ≡ get_or gdt_entries i 0
word_at-gdt_patches cell zero h = word_at-patched gdt_patches 0 cell _ refl refl (omega arith)
word_at-gdt_patches cell (suc zero) h = word_at-patched gdt_patches 1 cell _ refl refl (omega arith)
word_at-gdt_patches cell (suc (suc zero)) h =
    word_at-patched gdt_patches 2 cell _ refl refl (omega arith)
word_at-gdt_patches cell (suc (suc (suc zero))) h =
    word_at-patched gdt_patches 3 cell _ refl refl (omega arith)
word_at-gdt_patches cell (suc (suc (suc (suc i)))) h = absurd (omega arith)

-- The `n` descriptors from index `i` on.
unfoldable pub read_table : (ℕ → ℕ) → ℕ → ℕ → List ℕ
read_table cell zero i = []
read_table cell (suc n) i = word_at 8 cell (boot_gdt_offset + i * 8) ∷ read_table cell n (i + 1)

-- The descriptors at their places, and an empty one behind them for the IDT.
unfoldable pub IsGdt : (ℕ → ℕ) → Type 0
IsGdt cell = (read_table cell 4 0 ≡ gdt_entries) × (word_at 8 cell boot_idt_offset ≡ 0)

read_table_ext :
    (c d : ℕ → ℕ) (n i : ℕ)
    → ((a : ℕ) → boot_gdt_offset + i * 8 ≤ a → a < boot_gdt_offset + (i + n) * 8 → d a ≡ c a)
    → read_table d n i ≡ read_table c n i
unfolding read_table
read_table_ext c d zero i h = refl
read_table_ext c d (suc n) i h =
    rw
      (
        word_at_ext 8 d c (boot_gdt_offset + i * 8) (λ a p q. h a p (omega arith)),
        read_table_ext c d n (i + 1) (λ a p q. h a (omega arith) (omega arith)),
      )
      refl

pub IsGdt-IsLocal : IsLocal boot_gdt_offset (boot_idt_offset + 8) IsGdt
unfolding IsGdt
IsGdt-IsLocal c d h (table, idt) = (
  read_table_ext c d 4 0 (λ a p q. h a (omega arith) (omega arith)) ∙ table,
  word_at_ext 8 d c boot_idt_offset (λ a p q. h a (omega arith) q) ∙ idt,
)

pub write_gdt-Puts :
    (ram : GuestRam)
    → IsValid ram
    → boot_idt_offset + 8 ≤ ram.size
    → Puts boot_gdt_offset (boot_idt_offset + 8) IsGdt ram (write_gdt ram)
unfolding IsGdt read_table
write_gdt-Puts ram v room = record {
  after = patched ram.cell gdt_patches;
  returns = write_gdt-Writes.at ram v (ground arith);
  holds = (
    rw
        (
          word_at-gdt_patches ram.cell 0 (omega arith),
          word_at-gdt_patches ram.cell 1 (omega arith),
          word_at-gdt_patches ram.cell 2 (omega arith),
          word_at-gdt_patches ram.cell 3 (omega arith),
        )
        refl,
    word_at-patched gdt_patches 4 ram.cell _ refl refl (omega arith),
  );
  outside = λ a.
      patched_outside boot_gdt_offset (boot_idt_offset + 8) ram.cell gdt_patches a (ground arith);
}

-- In memory that holds it, `write_gdt` returns, and leaves the four descriptors at their places and
-- an empty descriptor behind them for the IDT.
pub write_gdt-table :
    (ram : GuestRam)
    → IsValid ram
    → boot_idt_offset + 8 ≤ ram.size
    → (ram' : GuestRam) × (write_gdt ram ≡ (ok tt, ram'))
      × (read_table ram'.cell 4 0 ≡ gdt_entries)
      × (word_at 8 ram'.cell boot_idt_offset ≡ 0)
unfolding IsGdt
write_gdt-table ram v room =
    let p = write_gdt-Puts ram v room in
    (record ram { cell = p.after }, p.returns, p.holds.0, p.holds.1)
