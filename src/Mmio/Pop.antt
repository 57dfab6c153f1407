-- ===== src/Mmio/Pop.antt =====
-- `DescriptorChain::pop` of hyperpod/src/vmm/common/device/mmio.rs. The queue comes back with every
-- outcome, since its index stays moved on when a later read fails.
use hyper_pod.Base.{
  ℕ, ◌+◌, ◌*◌, ◌%◌, not, ◌||◌, Option, none, some, ◌==◌, if◌then◌else◌, add64, u16_mod, Outcome, ok,
  err, panic, ◌>>=◌,
}
use hyper_pod.Ram.{GuestRam, read_obj}
use hyper_pod.Mmio.Queue.{VirtQueue, DescriptorChain, avail_ring_hdr, walk}

-- `queue.last_avail_idx.wrapping_add(1)`
unfoldable pub advance : VirtQueue → VirtQueue
advance queue = record queue { last_avail_idx = (queue.last_avail_idx + 1) % u16_mod }

-- The index that the available ring holds for the next request.
unfoldable pub read_head : GuestRam → VirtQueue → Outcome ℕ
read_head ram queue =
    let slot = queue.last_avail_idx % queue.size in
    read_obj ram 2 (add64 (add64 queue.avail_addr avail_ring_hdr) (slot * 2))

unfoldable pub chain_from : GuestRam → VirtQueue → ℕ → Outcome (Option DescriptorChain)
chain_from ram queue head_index = do
  descriptors ← walk ram queue queue.size head_index
  ok (some (record { head_index = head_index; descriptors = descriptors }))

-- What `pop` does when a request is pending.
unfoldable pub next_chain : GuestRam → VirtQueue → Outcome (Option DescriptorChain) × VirtQueue
next_chain ram queue = elim (read_head ram queue) [
  | ok head_index ↦ (chain_from ram (advance queue) head_index, advance queue)
  | err e ↦ (err e, queue)
  | panic ↦ (panic, queue)
]

unfoldable pub pop : GuestRam → VirtQueue → Outcome (Option DescriptorChain) × VirtQueue
pop ram queue =
    if not queue.ready || queue.size == 0
    then (ok none, queue)
    else elim (read_obj ram 2 (add64 queue.avail_addr 2)) [
      | ok avail_idx ↦
          if avail_idx == queue.last_avail_idx then (ok none, queue) else next_chain ram queue
      | err e ↦ (err e, queue)
      | panic ↦ (panic, queue)
    ]
