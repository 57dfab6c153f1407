-- ===== src/Mmio/Publish/Request.antt =====
-- From a driver that publishes a request to `DescriptorChain::pop`
-- (hyperpod/src/vmm/common/device/mmio.rs).
use hyper_pod.Base.{
  ℕ, ◌+◌, ◌*◌, ◌≤◌, ◌<◌, ◌≡◌, ◌⊎◌, refl, sym, subst, true, false, [], ◌∷◌, map, All, arith, add64,
  u16_mod, u64_mod, ok,
}
use hyper_pod.Ram.{GuestRam, read_obj, read_slice}
use hyper_pod.Ram.Access.{IsValid}
use hyper_pod.Ram.Memory.{word_at}
use hyper_pod.Mmio.Queue.{
  VirtQueue, Descriptor, desc_size, avail_ring_hdr, read_descriptor, is_last,
}
use hyper_pod.Mmio.Pop.{read_head}
use hyper_pod.Mmio.Chain.{Links}
use hyper_pod.Mmio.Publish.{Slots, ring_slot}
use hyper_pod.Mmio.Publish.Table.{Holds}

-- Each descriptor names the index of the next one, and the last says that it is the last.
abbrev pub AreLinked : Slots → Type 0
AreLinked [] = ⊥
AreLinked ((i, d) ∷ []) = is_last d ≡ true
AreLinked ((i, d) ∷ (j, e) ∷ slots) =
    (is_last d ≡ false) × (d.next ≡ j) × AreLinked ((j, e) ∷ slots)

-- A queue that is set up, with its table and its ring apart from each other in memory.
pub record IsSetUp (ram : GuestRam) (queue : VirtQueue) : Type 0 where
  pub valid : IsValid ram
  pub is_ready : queue.ready ≡ true
  pub has_size : 0 < queue.size
  pub table_fits : queue.desc_addr + queue.size * desc_size ≤ ram.size
  pub ring_fits : queue.avail_addr + avail_ring_hdr + queue.size * 2 ≤ ram.size
  pub apart :
      (queue.desc_addr + queue.size * desc_size ≤ queue.avail_addr)
      ⊎ (queue.avail_addr + avail_ring_hdr + queue.size * 2 ≤ queue.desc_addr)
  pub idx_fits : queue.last_avail_idx < u16_mod

pub read_obj_in_range :
    (ram : GuestRam) (w off : ℕ)
    → IsValid ram
    → off + w ≤ ram.size
    → read_obj ram w off ≡ ok (word_at w ram.cell off)
unfolding read_obj read_slice word_at
read_obj_in_range ram w off v h = ground arith

pub add64-eq : (a b n : ℕ) → a + b < n → n ≤ u64_mod → add64 a b ≡ a + b
add64-eq a b n h k = omega arith

module _ (ram : GuestRam) (queue : VirtQueue) (h : IsSetUp ram queue) where
  Holds-read_descriptor :
      (idx : ℕ) (d : Descriptor)
      → idx < queue.size
      → Holds ram.cell queue idx d
      → read_descriptor ram queue idx ≡ ok d
  unfolding read_descriptor
  Holds-read_descriptor idx d p held =
      let small = h.valid in
      let room = h.table_fits in
      let base = queue.desc_addr + idx * desc_size in
      rw
        (
          add64-eq queue.desc_addr (idx * desc_size) ram.size (omega arith) (omega arith),
          add64-eq base 8 ram.size (omega arith) (omega arith),
          add64-eq base 12 ram.size (omega arith) (omega arith),
          add64-eq base 14 ram.size (omega arith) (omega arith),
          read_obj_in_range ram 8 base small (omega arith),
          read_obj_in_range ram 4 (base + 8) small (omega arith),
          read_obj_in_range ram 2 (base + 12) small (omega arith),
          read_obj_in_range ram 2 (base + 14) small (omega arith),
          held.addr,
          held.len,
          held.flags,
          held.next,
        )
        refl

  pub AreLinked-Links :
      (i : ℕ) (d : Descriptor) (slots : Slots)
      → AreLinked ((i, d) ∷ slots)
      → All (λ x. x.0 < queue.size) ((i, d) ∷ slots)
      → All (λ x. Holds ram.cell queue x.0 x.1) ((i, d) ∷ slots)
      → Links ram queue i (d ∷ map (λ x. x.1) slots)
  unfolding Links
  AreLinked-Links i d [] linked (p, _) (held, _) = (p, Holds-read_descriptor i d p held, linked)
  AreLinked-Links i d ((j, e) ∷ slots) (more, next, linked) (p, below) (held, rest) = (
    p,
    Holds-read_descriptor i d p held,
    more,
    subst (λ k. Links ram queue k (e ∷ map (λ x. x.1) slots)) (sym next)
        (AreLinked-Links j e slots linked below rest),
  )

  pub slot-lt : ring_slot queue < queue.size
  slot-lt = let size = h.has_size in grind arith

  pub read_head-ring :
      (head : ℕ)
      → word_at 2 ram.cell (queue.avail_addr + avail_ring_hdr + ring_slot queue * 2) ≡ head
      → read_head ram queue ≡ ok head
  unfolding read_head
  read_head-ring head holds =
      let small = h.valid in
      let room = h.ring_fits in
      let slot = slot-lt in
      rw
        (
          add64-eq queue.avail_addr avail_ring_hdr ram.size (omega arith) (omega arith),
          add64-eq (queue.avail_addr + avail_ring_hdr) (ring_slot queue * 2) ram.size (omega arith)
              (omega arith),
          read_obj_in_range ram 2 (queue.avail_addr + avail_ring_hdr + ring_slot queue * 2) small
              (omega arith),
          holds,
        )
        refl
