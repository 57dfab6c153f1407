-- ===== src/Mmio/Readback.antt =====
-- A driver's writes to the registers, and one of them seen from each register
-- (hyperpod/src/vmm/common/device/mmio.rs).
pub mod Space
pub mod Values
use hyper_pod.Base.{
  ℕ, zero, suc, ◌+◌, ◌-◌, ◌*◌, ◌/◌, ◌%◌, ◌^◌, ◌≤◌, ◌<◌, ◌≡◌, ◌≢◌, ◌⊎◌, inl, inr, refl, ap, sym,
  subst, ◌∙◌, Bool, true, false, Bool-cases, not, ◌&&◌, Option, none, some, Option-cases, List, [],
  ◌∷◌, All, arith, get_elem?, set, ◌==◌, ok, bit_and, u32_mod, if◌then◌else◌,
}
use hyper_pod.Base.Bits.Single.{bit, bit-cleared, bit-kept}
use hyper_pod.Mmio.Queue.{VirtQueue}
use hyper_pod.Mmio.{
  MmioState, VirtioMmio, put_half, queue_write, state_write, write_driver_features,
  mutate_selected_queue, write32, read_features, selected_queue, read32, status_reg,
  interrupt_status_reg, interrupt_ack, queue_sel_reg, queue_num_max, queue_ready,
  device_features_reg, device_features_sel_reg,
}
use hyper_pod.Mmio.Registers.{run_writes, get_elem?-set, get_elem?-set_other}

-- The history of a driver's writes alone, without a device.

-- The value last written to a register, or the one from before.
unfoldable pub last_written : ℕ → List (ℕ × ℕ) → ℕ → ℕ
last_written reg [] before = before
last_written reg ((offset, val) ∷ ws) before =
    last_written reg ws (if offset == reg then val else before)

-- Whether some write acknowledges interrupt `k`.
unfoldable pub acknowledges : ℕ → List (ℕ × ℕ) → Bool
acknowledges k [] = false
acknowledges k ((offset, val) ∷ ws) =
    if offset == interrupt_ack && bit k val == 1 then true else acknowledges k ws

-- Whether queue `j` is ready, when queue `sel` is selected at first.
unfoldable pub ready_after : ℕ → List (ℕ × ℕ) → ℕ → Bool → Bool
ready_after j [] sel ready = ready
ready_after j ((offset, val) ∷ ws) sel ready =
    ready_after j ws (if offset == queue_sel_reg then val else sel)
      (if offset == queue_ready && sel == j then not (val == 0) else ready)

pub ==-cases : (a b : ℕ) → ((a ≡ b) × ((a == b) ≡ true)) ⊎ ((b ≢ a) × ((a == b) ≡ false))
==-cases a b = elim (Bool-cases (a == b)) [
  | inl e ↦ inl (ground arith, e)
  | inr e ↦ inr (λ same. absurd (ground arith), e)
]

-- One write, seen from each register.
write32-state :
    (offset val : ℕ) (dev : VirtioMmio)
    → (write32 offset val dev).1.state ≡ state_write offset val dev.state
unfolding write32 mutate_selected_queue queue_write state_write
write32-state offset val dev = ground arith

pub write32-status :
    (offset val : ℕ) (dev : VirtioMmio)
    → (write32 offset val dev).1.state.status
      ≡ (if offset == status_reg then val else dev.state.status)
unfolding state_write write_driver_features
write32-status offset val dev = ap (λ s. s.status) (write32-state offset val dev) ∙ ground arith

pub write32-device_features :
    (offset val : ℕ) (dev : VirtioMmio)
    → (write32 offset val dev).1.device_features ≡ dev.device_features
unfolding write32 mutate_selected_queue
write32-device_features offset val dev = ground arith

pub write32-device_features_sel :
    (offset val : ℕ) (dev : VirtioMmio)
    → (write32 offset val dev).1.state.device_features_sel
      ≡ (if offset == device_features_sel_reg then val else dev.state.device_features_sel)
unfolding state_write write_driver_features
write32-device_features_sel offset val dev =
    ap (λ s. s.device_features_sel) (write32-state offset val dev) ∙ ground arith

pub write32-queue_sel :
    (offset val : ℕ) (dev : VirtioMmio)
    → (write32 offset val dev).1.state.queue_sel
      ≡ (if offset == queue_sel_reg then val else dev.state.queue_sel)
unfolding state_write write_driver_features
write32-queue_sel offset val dev =
    ap (λ s. s.queue_sel) (write32-state offset val dev) ∙ ground arith

pub write32-interrupt_status :
    (offset val : ℕ) (dev : VirtioMmio)
    → (write32 offset val dev).1.state.interrupt_status ≡ (
        if offset == interrupt_ack
        then bit_and dev.state.interrupt_status (u32_mod - 1 - val)
        else dev.state.interrupt_status)
unfolding state_write write_driver_features
write32-interrupt_status offset val dev =
    ap (λ s. s.interrupt_status) (write32-state offset val dev) ∙ ground arith

-- What a write makes of the selected queue.
abbrev pub write_queue : ℕ → ℕ → VirtQueue → VirtQueue
write_queue offset val q = elim (queue_write offset val) [ none ↦ q | some f ↦ f q ]

pub write_queue-size_max :
    (offset val : ℕ) (q : VirtQueue) → (write_queue offset val q).size_max ≡ q.size_max
unfolding queue_write
write_queue-size_max offset val q = ground arith

pub write_queue-ready :
    (offset val : ℕ) (q : VirtQueue)
    → (write_queue offset val q).ready ≡ (if offset == queue_ready then not (val == 0) else q.ready)
unfolding queue_write
write_queue-ready offset val q = ground arith

get_elem?-set_none :
    (qs : List VirtQueue) (k j : ℕ) (r : VirtQueue)
    → get_elem? qs j ≡ none
    → get_elem? (set qs k r) j ≡ none
get_elem?-set_none [] k j r h = refl
get_elem?-set_none (x ∷ qs) k zero r h = absurd (ground arith)
get_elem?-set_none (x ∷ qs) zero (suc j) r h = h
get_elem?-set_none (x ∷ qs) (suc k) (suc j) r h = get_elem?-set_none qs k j r h

pub write32-missing :
    (offset val j : ℕ) (dev : VirtioMmio)
    → get_elem? dev.queues j ≡ none
    → get_elem? (write32 offset val dev).1.queues j ≡ none
unfolding write32 mutate_selected_queue
write32-missing offset val j dev h = elim (Option-cases (queue_write offset val)) [
  | inl e ↦ rw (e, write32) h
  | inr (f, e) ↦ elim (Option-cases (get_elem? dev.queues dev.state.queue_sel)) [
    | inl miss ↦ rw (e, write32, miss, mutate_selected_queue) h
    | inr (q, found) ↦
        rw (e, write32, found, mutate_selected_queue)
          (get_elem?-set_none dev.queues dev.state.queue_sel j (f q) h)
  ]
]

pub write32-queue :
    (offset val j : ℕ) (dev : VirtioMmio) (q : VirtQueue)
    → get_elem? dev.queues j ≡ some q
    → get_elem? (write32 offset val dev).1.queues j
      ≡ some (if dev.state.queue_sel == j then write_queue offset val q else q)
unfolding write32 mutate_selected_queue
write32-queue offset val j dev q h = elim (Option-cases (queue_write offset val)) [
  | inl e ↦ rw (e, write32) (h ∙ ground arith)
  | inr (f, e) ↦ elim (==-cases dev.state.queue_sel j) [
    | inl (same, t) ↦
        let found : get_elem? dev.queues dev.state.queue_sel ≡ some q =
          ap (get_elem? dev.queues) same ∙ h in
        rw (t, e, write32, found, mutate_selected_queue)
          (ap (get_elem? (set dev.queues dev.state.queue_sel (f q))) (sym same)
            ∙ get_elem?-set dev.queues dev.state.queue_sel q (f q) found
            ∙ ap (λ w. some (elim w [ none ↦ q | some g ↦ g q ])) (sym e))
    | inr (differ, t) ↦ elim (Option-cases (get_elem? dev.queues dev.state.queue_sel)) [
      | inl miss ↦ rw (t, e, write32, miss, mutate_selected_queue) h
      | inr (r, found) ↦
          rw (t, e, write32, found, mutate_selected_queue)
            (get_elem?-set_other dev.queues dev.state.queue_sel j (f r) differ ∙ h)
    ]
  ]
]
