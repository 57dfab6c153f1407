-- ===== src/Mmio/Chain.antt =====
-- What `pop` hands out: the chains that a driver has put into the descriptor table.
use hyper_pod.Base.{
  ℕ, zero, suc, ◌≤◌, ◌<◌, ◌≡◌, ◌≢◌, ◌↔◌, refl, fun_ext, inl, inr, true, false, some, List, [], ◌∷◌,
  arith, length, add64, ok, Outcome-cases,
}
use hyper_pod.Ram.{GuestRam, read_obj}
use hyper_pod.Mmio.Queue.{VirtQueue, Descriptor, DescriptorChain, read_descriptor, is_last, walk}
use hyper_pod.Mmio.Pop.{advance, read_head, chain_from, next_chain, pop}

-- `ds` is a chain of the table that starts at index `idx`: every index is below the queue's size, every
-- descriptor is the table's at its index, and names the index of the one behind it, up to the last.
unfoldable pub Links : GuestRam → VirtQueue → ℕ → List Descriptor → Type 0
Links ram queue idx [] = ⊥
Links ram queue idx (d ∷ []) =
    (idx < queue.size) × (read_descriptor ram queue idx ≡ ok d) × (is_last d ≡ true)
Links ram queue idx (d ∷ e ∷ ds) =
    (idx < queue.size)
    × (read_descriptor ram queue idx ≡ ok d)
    × (is_last d ≡ false)
    × Links ram queue d.next (e ∷ ds)

module _ (ram : GuestRam) (queue : VirtQueue) where
  Links-cons :
      (idx : ℕ) (d : Descriptor) (ds : List Descriptor)
      → idx < queue.size
      → read_descriptor ram queue idx ≡ ok d
      → is_last d ≡ false
      → Links ram queue d.next ds
      → Links ram queue idx (d ∷ ds)
  unfolding Links
  Links-cons idx d [] p read more rest = absurd rest
  Links-cons idx d (e ∷ ds) p read more rest = (p, read, more, rest)

  -- The walk finds the chains of at most as many descriptors as it has rounds, and no others.
  pub walk_iff :
      (left idx : ℕ) (ds : List Descriptor)
      → (walk ram queue left idx ≡ ok ds) ↔ (Links ram queue idx ds × (length ds ≤ left))
  unfolding walk Links
  walk_iff zero idx [] = ground arith
  walk_iff zero idx (d ∷ ds) = ground arith
  walk_iff (suc left) idx [] = ground arith
  walk_iff (suc left) idx (d ∷ []) = let none_left = walk_iff left d.next [] in ground arith
  walk_iff (suc left) idx (d ∷ e ∷ ds) = let rest = walk_iff left d.next (e ∷ ds) in ground arith

-- A request is pending: the queue is ready and not empty, and the driver's index has moved on.
pub record IsPending (ram : GuestRam) (queue : VirtQueue) : Type 0 where
  pub is_ready : queue.ready ≡ true
  pub has_size : 0 < queue.size
  pub avail_idx : ℕ
  pub published : read_obj ram 2 (add64 queue.avail_addr 2) ≡ ok avail_idx
  pub moved : avail_idx ≢ queue.last_avail_idx

walk-advance :
    (ram : GuestRam) (queue : VirtQueue) (left idx : ℕ)
    → walk ram (advance queue) left idx ≡ walk ram queue left idx
unfolding walk advance read_descriptor
walk-advance ram queue zero idx = refl
walk-advance ram queue (suc left) idx =
    let rest : walk ram (advance queue) left ≡ walk ram queue left =
      fun_ext (walk-advance ram queue left) in
    rw rest refl

chain_from_iff :
    (ram : GuestRam) (queue : VirtQueue) (head : ℕ) (chain : DescriptorChain)
    → (chain_from ram (advance queue) head ≡ ok (some chain))
      ↔ ((head ≡ chain.head_index) × (walk ram queue queue.size head ≡ ok chain.descriptors))
unfolding chain_from advance
chain_from_iff ram queue head chain = rw walk-advance (ground arith)

next_chain_iff :
    (ram : GuestRam) (queue after : VirtQueue) (chain : DescriptorChain)
    → (next_chain ram queue ≡ (ok (some chain), after)) ↔ (
        (read_head ram queue ≡ ok chain.head_index)
        × (walk ram queue queue.size chain.head_index ≡ ok chain.descriptors)
        × (after ≡ advance queue))
unfolding next_chain
next_chain_iff ram queue after chain = elim (Outcome-cases (read_head ram queue)) [
  | inl (head, read) ↦ ground (arith, chain_from_iff ram queue head chain)
  | inr failed ↦ ground arith
]

-- A pop hands out a chain exactly when a request is pending, the available ring holds the index of
-- its head, and the chain in the table from there on is of at most as many descriptors as the queue
-- has; the queue then only moves its index on.
pub pop_iff :
    (ram : GuestRam) (queue after : VirtQueue) (chain : DescriptorChain)
    → (pop ram queue ≡ (ok (some chain), after)) ↔ (
        IsPending ram queue
        × (read_head ram queue ≡ ok chain.head_index)
        × Links ram queue chain.head_index chain.descriptors
        × (length chain.descriptors ≤ queue.size)
        × (after ≡ advance queue))
unfolding pop
pop_iff ram queue after chain =
    let walked = walk_iff ram queue queue.size chain.head_index chain.descriptors in
    let pending = next_chain_iff ram queue after chain in
    elim (Outcome-cases (read_obj ram 2 (add64 queue.avail_addr 2))) [
      | inl (avail_idx, read) ↦ ground arith
      | inr failed ↦ ground arith
    ]
