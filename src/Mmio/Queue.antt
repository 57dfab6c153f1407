-- ===== src/Mmio/Queue.antt =====
-- A virtqueue and the walk over its descriptors, hyperpod/src/vmm/common/device/mmio.rs. Sums of
-- addresses wrap at `u64`.
use hyper_pod.Base.{
  ℕ, zero, suc, ◌*◌, Bool, not, List, [], ◌∷◌, leb, ◌==◌, if◌then◌else◌, add64, bit_and, all,
  Outcome, ok, err, ◌>>=◌, descriptor_out_of_range, chain_too_long,
}
use hyper_pod.Ram.{GuestRam, read_obj}

pub record VirtQueue : Type 0 where
  pub size_max : ℕ
  pub size : ℕ
  pub ready : Bool
  pub desc_addr : ℕ
  pub avail_addr : ℕ
  pub used_addr : ℕ
  pub last_avail_idx : ℕ

pub record Descriptor : Type 0 where
  pub addr : ℕ
  pub len : ℕ
  pub flags : ℕ
  pub next : ℕ

pub record DescriptorChain : Type 0 where
  pub head_index : ℕ
  pub descriptors : List Descriptor

abbrev pub vring_desc_f_next : ℕ
vring_desc_f_next = 1

abbrev pub vring_desc_f_write : ℕ
vring_desc_f_write = 2

abbrev pub desc_size : ℕ
desc_size = 16

abbrev pub avail_ring_hdr : ℕ
avail_ring_hdr = 4

-- The descriptor at index `idx` of the table.
unfoldable pub read_descriptor : GuestRam → VirtQueue → ℕ → Outcome Descriptor
read_descriptor ram queue idx = do
  let base = add64 queue.desc_addr (idx * desc_size)
  addr ← read_obj ram 8 base
  len ← read_obj ram 4 (add64 base 8)
  flags ← read_obj ram 2 (add64 base 12)
  next ← read_obj ram 2 (add64 base 14)
  ok (record { addr = addr; len = len; flags = flags; next = next })

-- `d.flags & VRING_DESC_F_NEXT == 0`
abbrev pub is_last : Descriptor → Bool
is_last d = bit_and d.flags vring_desc_f_next == 0

-- The loop of `pop` from index `idx` on, with `left` rounds to go.
unfoldable pub walk : GuestRam → VirtQueue → ℕ → ℕ → Outcome (List Descriptor)
walk ram queue zero idx = err chain_too_long
walk ram queue (suc left) idx =
    if leb queue.size idx
    then err descriptor_out_of_range
    else (read_descriptor ram queue idx >>= λ d.
        if is_last d then ok (d ∷ []) else (walk ram queue left d.next >>= λ ds. ok (d ∷ ds)))

-- `is_write_only`
unfoldable pub is_write_only : DescriptorChain → Bool
is_write_only chain =
    all (λ (d : Descriptor). not (bit_and d.flags vring_desc_f_write == 0)) chain.descriptors
