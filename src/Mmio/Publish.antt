-- ===== src/Mmio/Publish.antt =====
-- A driver that puts a request into a queue, as the tests of
-- hyperpod/src/vmm/common/device/mmio.rs do: descriptors into the table, the index of the head into the
-- available ring, and then the ring's own index.
pub mod Table
pub mod Request
pub mod Taken
use hyper_pod.Base.{ℕ, ◌+◌, ◌*◌, ◌%◌, List, [], ◌∷◌, ◌++◌, u16_mod}
use hyper_pod.Base.Action.{Action, pure, ◌>>=◌, ◌>>◌}
use hyper_pod.Ram.{GuestRam, write_obj}
use hyper_pod.Ram.Patch.{Patch, Writes, Writes-pure, Writes-write_obj, Writes-then, Writes-bind}
use hyper_pod.Mmio.Queue.{VirtQueue, Descriptor, desc_size, avail_ring_hdr}

-- Descriptors with the indices at which they stand in the table.
abbrev pub Slots : Type 0
Slots = List (ℕ × Descriptor)

unfoldable pub put_descriptor : VirtQueue → ℕ → Descriptor → Action GuestRam (Unit {0})
put_descriptor queue idx d = do
  write_obj 8 (queue.desc_addr + idx * desc_size) d.addr
  write_obj 4 (queue.desc_addr + idx * desc_size + 8) d.len
  write_obj 2 (queue.desc_addr + idx * desc_size + 12) d.flags
  write_obj 2 (queue.desc_addr + idx * desc_size + 14) d.next

unfoldable pub put_descriptors : VirtQueue → Slots → Action GuestRam (Unit {0})
put_descriptors queue [] = pure tt
put_descriptors queue ((idx, d) ∷ slots) = do
  put_descriptor queue idx d
  put_descriptors queue slots

-- The place in the ring for the next request.
abbrev pub ring_slot : VirtQueue → ℕ
ring_slot queue = queue.last_avail_idx % queue.size

unfoldable pub offer : VirtQueue → ℕ → Action GuestRam (Unit {0})
offer queue head = do
  write_obj 2 (queue.avail_addr + avail_ring_hdr + ring_slot queue * 2) head
  write_obj 2 (queue.avail_addr + 2) ((queue.last_avail_idx + 1) % u16_mod)

unfoldable pub publish : VirtQueue → ℕ → Slots → Action GuestRam (Unit {0})
publish queue head slots = do put_descriptors queue slots; offer queue head

-- The same as runs of integer writes.
abbrev pub descriptor_patches : VirtQueue → ℕ → Descriptor → List Patch
descriptor_patches queue idx d =
    record { off = queue.desc_addr + idx * desc_size; width = 8; val = d.addr }
    ∷ record { off = queue.desc_addr + idx * desc_size + 8; width = 4; val = d.len }
    ∷ record { off = queue.desc_addr + idx * desc_size + 12; width = 2; val = d.flags }
    ∷ record { off = queue.desc_addr + idx * desc_size + 14; width = 2; val = d.next }
    ∷ []

abbrev pub table_patches : VirtQueue → Slots → List Patch
table_patches queue [] = []
table_patches queue ((idx, d) ∷ slots) = descriptor_patches queue idx d ++ table_patches queue slots

abbrev pub ring_patches : VirtQueue → ℕ → List Patch
ring_patches queue head =
    record { off = queue.avail_addr + avail_ring_hdr + ring_slot queue * 2; width = 2; val = head }
    ∷ record { off = queue.avail_addr + 2; width = 2; val = (queue.last_avail_idx + 1) % u16_mod }
    ∷ []

put_descriptor-Writes :
    (queue : VirtQueue) (idx : ℕ) (d : Descriptor)
    → Writes (descriptor_patches queue idx d) tt (put_descriptor queue idx d)
unfolding put_descriptor
put_descriptor-Writes queue idx d =
    Writes-then 8 _ d.addr _
      (Writes-then 4 _ d.len _ (Writes-then 2 _ d.flags _ (Writes-write_obj 2 _ d.next)))

put_descriptors-Writes :
    (queue : VirtQueue) (slots : Slots)
    → Writes (table_patches queue slots) tt (put_descriptors queue slots)
unfolding put_descriptors
put_descriptors-Writes queue [] = Writes-pure tt
put_descriptors-Writes queue ((idx, d) ∷ slots) =
    Writes-bind (put_descriptor queue idx d) (λ _. put_descriptors queue slots)
      (put_descriptor-Writes queue idx d) (put_descriptors-Writes queue slots)

pub publish-Writes :
    (queue : VirtQueue) (head : ℕ) (slots : Slots)
    → Writes (table_patches queue slots ++ ring_patches queue head) tt (publish queue head slots)
unfolding publish offer
publish-Writes queue head slots =
    Writes-bind (put_descriptors queue slots) (λ _. offer queue head)
      (put_descriptors-Writes queue slots) (Writes-then 2 _ head _ (Writes-write_obj 2 _ _))
