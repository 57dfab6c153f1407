-- ===== src/Mmio/Readback/Values.antt =====
-- What a driver reads back after its writes to the registers
-- (hyperpod/src/vmm/common/device/mmio.rs).
use hyper_pod.Base.{
  ℕ, zero, suc, ◌/◌, ◌%◌, ◌^◌, ◌<◌, ◌≡◌, inl, inr, refl, ap, sym, ◌∙◌, not, Bool-cases, ◌&&◌,
  Option, none, some, Option-cases, List, [], ◌∷◌, All, arith, get_elem?, ◌==◌, ok, u32_mod,
  if◌then◌else◌,
}
use hyper_pod.Base.Bits.Single.{bit, bit-cleared, bit-kept}
use hyper_pod.Mmio.Queue.{VirtQueue}
use hyper_pod.Mmio.{
  VirtioMmio, write32, read_features, selected_queue, read32, status_reg, interrupt_status_reg,
  interrupt_ack, queue_sel_reg, queue_num_max, queue_ready, device_features_reg,
  device_features_sel_reg,
}
use hyper_pod.Mmio.Registers.{run_writes}
use hyper_pod.Mmio.Readback.{
  last_written, acknowledges, ready_after, ==-cases, write32-status, write32-device_features,
  write32-device_features_sel, write32-queue_sel, write32-interrupt_status, write_queue,
  write_queue-size_max, write_queue-ready, write32-missing, write32-queue,
}

-- A run of writes, seen from each register.
run_writes-status :
    (ws : List (ℕ × ℕ)) (dev : VirtioMmio)
    → (run_writes ws dev).state.status ≡ last_written status_reg ws dev.state.status
unfolding run_writes last_written
run_writes-status [] dev = refl
run_writes-status ((offset, val) ∷ ws) dev =
    run_writes-status ws (write32 offset val dev).1
    ∙ ap (last_written status_reg ws) (write32-status offset val dev)

run_writes-queue_sel :
    (ws : List (ℕ × ℕ)) (dev : VirtioMmio)
    → (run_writes ws dev).state.queue_sel ≡ last_written queue_sel_reg ws dev.state.queue_sel
unfolding run_writes last_written
run_writes-queue_sel [] dev = refl
run_writes-queue_sel ((offset, val) ∷ ws) dev =
    run_writes-queue_sel ws (write32 offset val dev).1
    ∙ ap (last_written queue_sel_reg ws) (write32-queue_sel offset val dev)

run_writes-device_features_sel :
    (ws : List (ℕ × ℕ)) (dev : VirtioMmio)
    → (run_writes ws dev).state.device_features_sel
      ≡ last_written device_features_sel_reg ws dev.state.device_features_sel
unfolding run_writes last_written
run_writes-device_features_sel [] dev = refl
run_writes-device_features_sel ((offset, val) ∷ ws) dev =
    run_writes-device_features_sel ws (write32 offset val dev).1
    ∙ ap (last_written device_features_sel_reg ws) (write32-device_features_sel offset val dev)

run_writes-device_features :
    (ws : List (ℕ × ℕ)) (dev : VirtioMmio)
    → (run_writes ws dev).device_features ≡ dev.device_features
unfolding run_writes
run_writes-device_features [] dev = refl
run_writes-device_features ((offset, val) ∷ ws) dev =
    run_writes-device_features ws (write32 offset val dev).1
    ∙ write32-device_features offset val dev

-- Bit `k` of the interrupt status.
write32-bit :
    (offset val k : ℕ) (dev : VirtioMmio)
    → k < 32
    → val < u32_mod
    → bit k (write32 offset val dev).1.state.interrupt_status
      ≡ (if offset == interrupt_ack && bit k val == 1 then 0 else bit k dev.state.interrupt_status)
write32-bit offset val k dev hk hv =
    ap (bit k) (write32-interrupt_status offset val dev)
    ∙ elim (Bool-cases (offset == interrupt_ack)) [
      | inl is_ack ↦ elim (==-cases (bit k val) 1) [
        | inl (set, t) ↦ rw (is_ack, t) (bit-cleared k 32 dev.state.interrupt_status val hk hv set)
        | inr (clear, t) ↦
            rw (is_ack, t) (bit-kept k 32 dev.state.interrupt_status val hk hv (λ e. clear (sym e)))
      ]
      | inr not_ack ↦ rw not_ack refl
    ]

run_writes-bit :
    (ws : List (ℕ × ℕ)) (k : ℕ) (dev : VirtioMmio)
    → k < 32
    → All (λ w. w.1 < u32_mod) ws
    → bit k (run_writes ws dev).state.interrupt_status
      ≡ (if acknowledges k ws then 0 else bit k dev.state.interrupt_status)
unfolding run_writes acknowledges
run_writes-bit [] k dev hk hs = refl
run_writes-bit ((offset, val) ∷ ws) k dev hk (hv, hs) =
    run_writes-bit ws k (write32 offset val dev).1 hk hs
    ∙ rw (write32-bit offset val k dev hk hv) (ground arith)

run_writes-missing :
    (ws : List (ℕ × ℕ)) (j : ℕ) (dev : VirtioMmio)
    → get_elem? dev.queues j ≡ none
    → get_elem? (run_writes ws dev).queues j ≡ none
unfolding run_writes
run_writes-missing [] j dev h = h
run_writes-missing ((offset, val) ∷ ws) j dev h =
    run_writes-missing ws j (write32 offset val dev).1 (write32-missing offset val j dev h)

-- Each queue keeps its largest size, and is ready as it was last told to be while it was selected.
abbrev HasReady : ℕ → List (ℕ × ℕ) → VirtioMmio → VirtQueue → Type 0
HasReady j ws dev q =
    (r : VirtQueue) × (get_elem? (run_writes ws dev).queues j ≡ some r)
    × (r.size_max ≡ q.size_max)
    × (r.ready ≡ ready_after j ws dev.state.queue_sel q.ready)

run_writes-HasReady :
    (ws : List (ℕ × ℕ)) (j : ℕ) (dev : VirtioMmio) (q : VirtQueue)
    → get_elem? dev.queues j ≡ some q
    → HasReady j ws dev q
unfolding run_writes ready_after
run_writes-HasReady [] j dev q h = (q, h, refl, refl)
run_writes-HasReady ((offset, val) ∷ ws) j dev q h =
    let next = if dev.state.queue_sel == j then write_queue offset val q else q in
    let (r, found, size_max, ready) =
      run_writes-HasReady ws j (write32 offset val dev).1 next
        (write32-queue offset val j dev q h) in
    let same_size : next.size_max ≡ q.size_max =
      ground (arith, write_queue-size_max offset val q) in
    let same_ready : next.ready
        ≡ (if offset == queue_ready && dev.state.queue_sel == j then not (val == 0) else q.ready) =
      ground (arith, write_queue-ready offset val q) in
    (
      r,
      found,
      size_max ∙ same_size,
      ready
          ∙ ap (λ sel. ready_after j ws sel next.ready) (write32-queue_sel offset val dev)
          ∙ ap (ready_after j ws _) same_ready,
    )

-- The 32 bits of the features that are selected.
unfoldable pub feature_word : ℕ → ℕ → ℕ
feature_word zero features = features % 2 ^ 32
feature_word (suc zero) features = features / 2 ^ 32 % 2 ^ 32
feature_word (suc (suc sel)) features = 0

-- A value of queue `j`, 0 where there is no such queue.
unfoldable pub of_queue : VirtioMmio → ℕ → (VirtQueue → ℕ) → ℕ
of_queue dev j f = elim (get_elem? dev.queues j) [ none ↦ 0 | some q ↦ f q ]

read_features-feature_word :
    (dev : VirtioMmio)
    → read_features dev ≡ feature_word dev.state.device_features_sel dev.device_features
unfolding read_features feature_word
read_features-feature_word dev = chosen dev.state.device_features_sel
  where
    chosen :
        (sel : ℕ)
        → (if sel == 0
            then dev.device_features % u32_mod
            else if sel == 1
            then dev.device_features / 2 ^ 32 % u32_mod
            else 0)
          ≡ feature_word sel dev.device_features
    chosen zero = refl
    chosen (suc zero) = refl
    chosen (suc (suc sel)) = ground arith

selected_queue-at :
    (dev : VirtioMmio) (j : ℕ) (o : Option VirtQueue) (f : VirtQueue → ℕ)
    → dev.state.queue_sel ≡ j
    → get_elem? dev.queues j ≡ o
    → selected_queue dev f ≡ elim o [ none ↦ 0 | some q ↦ f q ]
unfolding selected_queue
selected_queue-at dev j o f chosen found =
    ap (λ x. elim x [ none ↦ 0 | some q ↦ f q ]) (ap (get_elem? dev.queues) chosen ∙ found)

selected_queue-of_queue :
    (ws : List (ℕ × ℕ)) (dev : VirtioMmio) (f g : VirtQueue → ℕ)
    → (let sel = last_written queue_sel_reg ws dev.state.queue_sel in
        ((q r : VirtQueue)
          → r.size_max ≡ q.size_max
          → r.ready ≡ ready_after sel ws dev.state.queue_sel q.ready
          → f r ≡ g q)
        → selected_queue (run_writes ws dev) f ≡ of_queue dev sel g)
unfolding selected_queue of_queue
selected_queue-of_queue ws dev f g same =
    let sel = last_written queue_sel_reg ws dev.state.queue_sel in
    elim (Option-cases (get_elem? dev.queues sel)) [
      | inl miss ↦
          selected_queue-at (run_writes ws dev) sel none f (run_writes-queue_sel ws dev)
            (run_writes-missing ws sel dev miss)
          ∙ rw (of_queue, miss) refl
      | inr (q, h) ↦
          let (r, found, size_max, ready) = run_writes-HasReady ws sel dev q h in
          selected_queue-at (run_writes ws dev) sel (some r) f (run_writes-queue_sel ws dev) found
          ∙ rw (of_queue, h) (same q r size_max ready)
    ]

-- Whatever a driver has written to the registers, in whatever order, as 32-bit values at any offsets, and
-- whatever the device was before: the status register reads as the value last written to it; the
-- features register as the half of the device's features that was selected last, and 0 for any other
-- selection; the largest size as that of the queue selected last, which no write changes; the ready
-- register as whether the last value written to it while that queue was selected was not 0; and an
-- interrupt is pending just if it was before and no write has acknowledged it. What was never written
-- stands for itself, and a queue that the device does not have reads as 0.
pub read32-run_writes :
    (dev : VirtioMmio) (ws : List (ℕ × ℕ)) (k : ℕ)
    → k < 32
    → All (λ w. w.1 < u32_mod) ws
    → (let sel = last_written queue_sel_reg ws dev.state.queue_sel in
        (read32 (run_writes ws dev) status_reg ≡ ok (last_written status_reg ws dev.state.status))
        × (read32 (run_writes ws dev) device_features_reg
            ≡ ok (
                feature_word
                  (last_written device_features_sel_reg ws dev.state.device_features_sel)
                  dev.device_features))
        × (read32 (run_writes ws dev) queue_num_max ≡ ok (of_queue dev sel (λ q. q.size_max)))
        × (read32 (run_writes ws dev) queue_ready
            ≡ ok (
                of_queue dev sel
                  (λ q. if ready_after sel ws dev.state.queue_sel q.ready then 1 else 0)))
        × ((v : ℕ) × (read32 (run_writes ws dev) interrupt_status_reg ≡ ok v)
            × (bit k v ≡ (if acknowledges k ws then 0 else bit k dev.state.interrupt_status))))
unfolding read32
read32-run_writes dev ws k hk hs = (
  ap ok (run_writes-status ws dev),
  ap ok (
      read_features-feature_word (run_writes ws dev)
      ∙ rw (run_writes-device_features_sel ws dev, run_writes-device_features ws dev) refl),
  ap ok (selected_queue-of_queue ws dev _ _ (λ q r size_max ready. size_max)),
  ap ok (selected_queue-of_queue ws dev _ _ (λ q r size_max ready. rw ready refl)),
  ((run_writes ws dev).state.interrupt_status, refl, run_writes-bit ws k dev hk hs),
)
