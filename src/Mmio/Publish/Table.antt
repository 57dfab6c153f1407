-- ===== src/Mmio/Publish/Table.antt =====
-- The descriptors that a driver has written, in memory (hyperpod/src/vmm/common/device/mmio.rs).
use hyper_pod.Base.{
  ℕ, ◌+◌, ◌*◌, ◌≤◌, ◌<◌, ◌≡◌, ◌≢◌, ◌⊎◌, refl, ap, ◌∙◌, List, [], ◌∷◌, ◌++◌, All, arith, u16_mod,
  u32_mod, u64_mod, from_le_bytes,
}
use hyper_pod.Ram.Memory.{word_at, bytes_at_ext}
use hyper_pod.Ram.Patch.{Patch, patched, Within, patched_outside, word_at-patched}
use hyper_pod.Mmio.Queue.{VirtQueue, Descriptor, desc_size}
use hyper_pod.Mmio.Publish.{Slots, descriptor_patches, table_patches}

-- Writes between `lo` and `hi` change no word apart from there.
pub word_at-patched_outside :
    (w lo hi : ℕ) (cell : ℕ → ℕ) (ps : List Patch) (off : ℕ)
    → Within lo hi ps
    → (off + w ≤ lo) ⊎ (hi ≤ off)
    → word_at w (patched cell ps) off ≡ word_at w cell off
unfolding word_at
word_at-patched_outside w lo hi cell ps off h apart = ap from_le_bytes (
    bytes_at_ext (patched cell ps) cell off w
      (λ a from to. patched_outside lo hi cell ps a h (ground arith)))

-- The values of a descriptor fit its fields.
pub record FieldsFit (d : Descriptor) : Type 0 where
  pub addr : d.addr < u64_mod
  pub len : d.len < u32_mod
  pub flags : d.flags < u16_mod
  pub next : d.next < u16_mod

-- Memory holds a descriptor at an index.
pub record Holds (cell : ℕ → ℕ) (queue : VirtQueue) (idx : ℕ) (d : Descriptor) : Type 0 where
  pub addr : word_at 8 cell (queue.desc_addr + idx * desc_size) ≡ d.addr
  pub len : word_at 4 cell (queue.desc_addr + idx * desc_size + 8) ≡ d.len
  pub flags : word_at 2 cell (queue.desc_addr + idx * desc_size + 12) ≡ d.flags
  pub next : word_at 2 cell (queue.desc_addr + idx * desc_size + 14) ≡ d.next

written-Holds :
    (cell : ℕ → ℕ) (queue : VirtQueue) (idx : ℕ) (d : Descriptor)
    → FieldsFit d
    → Holds (patched cell (descriptor_patches queue idx d)) queue idx d
written-Holds cell queue idx d fits = record {
  addr =
      word_at-patched (descriptor_patches queue idx d) 0 cell _ refl (ground arith)
        (omega (arith, fits.addr));
  len =
      word_at-patched (descriptor_patches queue idx d) 1 cell _ refl (ground arith)
        (omega (arith, fits.len));
  flags =
      word_at-patched (descriptor_patches queue idx d) 2 cell _ refl (ground arith)
        (omega (arith, fits.flags));
  next =
      word_at-patched (descriptor_patches queue idx d) 3 cell _ refl refl
        (omega (arith, fits.next));
}

pub Holds-patched :
    (lo hi : ℕ) (cell : ℕ → ℕ) (ps : List Patch) (queue : VirtQueue) (idx : ℕ) (d : Descriptor)
    → Within lo hi ps
    → (queue.desc_addr + idx * desc_size + 16 ≤ lo) ⊎ (hi ≤ queue.desc_addr + idx * desc_size)
    → Holds cell queue idx d
    → Holds (patched cell ps) queue idx d
Holds-patched lo hi cell ps queue idx d h apart held = record {
  addr = word_at-patched_outside 8 lo hi cell ps _ h (ground arith) ∙ held.addr;
  len = word_at-patched_outside 4 lo hi cell ps _ h (ground arith) ∙ held.len;
  flags = word_at-patched_outside 2 lo hi cell ps _ h (ground arith) ∙ held.flags;
  next = word_at-patched_outside 2 lo hi cell ps _ h (ground arith) ∙ held.next;
}

-- No two descriptors stand at the same index.
abbrev pub AreApart : Slots → Type 0
AreApart [] = Unit
AreApart (x ∷ slots) = All (λ y. y.0 ≢ x.0) slots × AreApart slots

Within-append :
    (lo hi : ℕ) (ps qs : List Patch) → Within lo hi ps → Within lo hi qs → Within lo hi (ps ++ qs)
Within-append lo hi [] qs h k = k
Within-append lo hi (p ∷ ps) qs (from, to, h) k = (from, to, Within-append lo hi ps qs h k)

Holds-table :
    (cell : ℕ → ℕ) (queue : VirtQueue) (idx : ℕ) (d : Descriptor) (slots : Slots)
    → All (λ y. y.0 ≢ idx) slots
    → Holds cell queue idx d
    → Holds (patched cell (table_patches queue slots)) queue idx d
unfolding patched
Holds-table cell queue idx d [] h held = held
Holds-table cell queue idx d ((j, e) ∷ slots) (ne, h) held =
    Holds-table (patched cell (descriptor_patches queue j e)) queue idx d slots h (
      Holds-patched (queue.desc_addr + j * desc_size) (queue.desc_addr + j * desc_size + 16) cell
        (descriptor_patches queue j e) queue idx d (omega arith) (ground arith) held)

-- After all of them have been written, memory holds each.
pub table-Holds :
    (cell : ℕ → ℕ) (queue : VirtQueue) (slots : Slots)
    → AreApart slots
    → All (λ x. FieldsFit x.1) slots
    → All (λ x. Holds (patched cell (table_patches queue slots)) queue x.0 x.1) slots
unfolding patched
table-Holds cell queue [] apart fits = tt
table-Holds cell queue ((i, d) ∷ slots) (ne, apart) (fit, fits) = (
  Holds-table (patched cell (descriptor_patches queue i d)) queue i d slots ne
      (written-Holds cell queue i d fit),
  table-Holds (patched cell (descriptor_patches queue i d)) queue slots apart fits,
)

pub table-Within :
    (queue : VirtQueue) (slots : Slots)
    → All (λ x. x.0 < queue.size) slots
    → Within queue.desc_addr (queue.desc_addr + queue.size * desc_size) (table_patches queue slots)
table-Within queue [] h = tt
table-Within queue ((i, d) ∷ slots) (p, h) =
    Within-append _ _ (descriptor_patches queue i d) (table_patches queue slots) (omega arith)
      (table-Within queue slots h)

-- Writes apart from the table leave the descriptors there.
pub All-Holds-patched :
    (lo hi : ℕ) (cell : ℕ → ℕ) (ps : List Patch) (queue : VirtQueue) (slots : Slots)
    → Within lo hi ps
    → (queue.desc_addr + queue.size * desc_size ≤ lo) ⊎ (hi ≤ queue.desc_addr)
    → All (λ x. x.0 < queue.size) slots
    → All (λ x. Holds cell queue x.0 x.1) slots
    → All (λ x. Holds (patched cell ps) queue x.0 x.1) slots
All-Holds-patched lo hi cell ps queue [] h apart below held = tt
All-Holds-patched lo hi cell ps queue ((i, d) ∷ slots) h apart (p, below) (here, held) = (
  Holds-patched lo hi cell ps queue i d h (ground arith) here,
  All-Holds-patched lo hi cell ps queue slots h apart below held,
)
