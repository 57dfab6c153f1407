-- ===== src/Mmio/Registers.antt =====
-- What a driver's accesses to the registers do.
use hyper_pod.Base.{
  ℕ, zero, suc, ◌+◌, ◌*◌, ◌/◌, ◌%◌, ◌^◌, ◌<◌, ◌≡◌, ◌≢◌, ◌⊎◌, inl, inr, refl, ap, sym, subst, ◌∙◌,
  true, Option, none, some, List, [], ◌∷◌, arith, get_elem?, set, u32_mod, u64_mod,
}
use hyper_pod.Base.Bits.{
  bit_or_fields, bit_and_mask, bit_and_high, bit_or-split, bit_or-zero, zero-bit_or,
}
use hyper_pod.Mmio.Queue.{VirtQueue}
use hyper_pod.Mmio.{
  VirtioMmio, put_half, queue_write, state_write, write_driver_features, mutate_selected_queue,
  write32, queue_sel_reg, queue_num, queue_ready, queue_desc_low, queue_desc_high, queue_avail_low,
  queue_avail_high, queue_used_low, queue_used_high, driver_features_reg, driver_features_sel_reg,
}

-- The halves of a 64-bit register.
put_half_low :
    (x val : ℕ) → x < u64_mod → val < u32_mod → put_half 0 x val ≡ x / 2 ^ 32 * 2 ^ 32 + val
unfolding put_half
put_half_low x val hx hv =
    ground (arith, bit_and_high 32 32 x (omega arith), bit_or_fields 32 (x / 2 ^ 32) val hv)

put_half_high : (x val : ℕ) → val < u32_mod → put_half 32 x val ≡ val * 2 ^ 32 + x % 2 ^ 32
unfolding put_half
put_half_high x val hv = ground (
  arith,
  bit_and_mask 32 x,
  bit_or-split 32 0 (x % 2 ^ 32) val 0 (omega arith) (omega arith),
  bit_or-zero (x % 2 ^ 32),
  zero-bit_or val,
)

-- Both halves, low before high, give the whole register.
put_halves :
    (x low high : ℕ)
    → x < u64_mod
    → low < u32_mod
    → high < u32_mod
    → put_half 32 (put_half 0 x low) high ≡ high * 2 ^ 32 + low
put_halves x low high hx hl hh =
    ground (arith, put_half_low x low hx hl, put_half_high (put_half 0 x low) high hh)

-- A run of register writes.
unfoldable pub run_writes : List (ℕ × ℕ) → VirtioMmio → VirtioMmio
run_writes [] dev = dev
run_writes ((offset, val) ∷ ws) dev = run_writes ws (write32 offset val dev).1

-- What a run of writes to queue registers makes of the selected queue.
unfoldable pub run_queue : List (ℕ × ℕ) → VirtQueue → Option VirtQueue
run_queue [] q = some q
run_queue ((offset, val) ∷ ws) q = elim (queue_write offset val) [
  | none ↦ none
  | some f ↦ run_queue ws (f q)
]

pub get_elem?-set :
    (qs : List VirtQueue) (k : ℕ) (q r : VirtQueue)
    → get_elem? qs k ≡ some q
    → get_elem? (set qs k r) k ≡ some r
get_elem?-set [] k q r h = absurd (ground arith)
get_elem?-set (x ∷ qs) zero q r h = refl
get_elem?-set (x ∷ qs) (suc k) q r h = get_elem?-set qs k q r h

pub get_elem?-set_other :
    (qs : List VirtQueue) (k j : ℕ) (r : VirtQueue)
    → j ≢ k
    → get_elem? (set qs k r) j ≡ get_elem? qs j
get_elem?-set_other [] k j r h = refl
get_elem?-set_other (x ∷ qs) zero zero r h = absurd (h refl)
get_elem?-set_other (x ∷ qs) zero (suc j) r h = refl
get_elem?-set_other (x ∷ qs) (suc k) zero r h = refl
get_elem?-set_other (x ∷ qs) (suc k) (suc j) r h = get_elem?-set_other qs k j r (λ e. h (ap suc e))

Option-split {ℓ} : {A : Type ℓ} (o : Option A) → (o ≡ none) ⊎ ((a : A) × (o ≡ some a))
Option-split none = inl refl
Option-split (some a) = inr (a, refl)

write32-selected :
    (offset val : ℕ) (dev : VirtioMmio) (q : VirtQueue) (f : VirtQueue → VirtQueue)
    → get_elem? dev.queues dev.state.queue_sel ≡ some q
    → queue_write offset val ≡ some f
    → (write32 offset val dev).1 ≡ record dev { queues = set dev.queues dev.state.queue_sel (f q) }
unfolding write32 mutate_selected_queue
write32-selected offset val dev q f at found = rw (found, at, write32, mutate_selected_queue) refl

-- Writes to queue registers act on the selected queue, one after the other, and on nothing else.
pub run_writes-run_queue :
    (ws : List (ℕ × ℕ)) (dev : VirtioMmio) (q r : VirtQueue)
    → get_elem? dev.queues dev.state.queue_sel ≡ some q
    → run_queue ws q ≡ some r
    → ((run_writes ws dev).state ≡ dev.state)
      × (get_elem? (run_writes ws dev).queues dev.state.queue_sel ≡ some r)
unfolding run_writes run_queue
run_writes-run_queue [] dev q r at done = (refl, at ∙ done)
run_writes-run_queue ((offset, val) ∷ ws) dev q r at done =
    elim (Option-split (queue_write offset val)) [
      | inl none_left ↦ absurd (ground arith)
      | inr (f, found) ↦
          let rest : run_queue ws (f q) ≡ some r = ground arith in
          let mid = record dev { queues = set dev.queues dev.state.queue_sel (f q) } in
          subst
            (λ d.
              ((run_writes ws d).state ≡ dev.state)
              × (get_elem? (run_writes ws d).queues dev.state.queue_sel ≡ some r))
            (sym (write32-selected offset val dev q f at found))
            (run_writes-run_queue ws mid (f q) r
              (get_elem?-set dev.queues dev.state.queue_sel q (f q) at) rest)
    ]

abbrev fill_in : (n desc_low desc_high avail_low avail_high used_low used_high : ℕ) → List (ℕ × ℕ)
fill_in n desc_low desc_high avail_low avail_high used_low used_high =
    (queue_num, n)
    ∷ (queue_desc_low, desc_low)
    ∷ (queue_desc_high, desc_high)
    ∷ (queue_avail_low, avail_low)
    ∷ (queue_avail_high, avail_high)
    ∷ (queue_used_low, used_low)
    ∷ (queue_used_high, used_high)
    ∷ (queue_ready, 1)
    ∷ []

-- The accesses with which a driver sets up queue `k`.
abbrev pub set_up :
    (k n desc_low desc_high avail_low avail_high used_low used_high : ℕ) → List (ℕ × ℕ)
set_up k n desc_low desc_high avail_low avail_high used_low used_high =
    (queue_sel_reg, k) ∷ fill_in n desc_low desc_high avail_low avail_high used_low used_high

-- The addresses of a queue fit `u64`.
pub record QueueIsValid (q : VirtQueue) : Type 0 where
  pub desc_fits : q.desc_addr < u64_mod
  pub avail_fits : q.avail_addr < u64_mod
  pub used_fits : q.used_addr < u64_mod

-- Whatever state the device was in, the accesses with which a driver sets up a queue that the device
-- has leave that queue ready, with the size and the three addresses that were written in halves of 32
-- bits, if its addresses were of 64 bits before.
pub run_writes-set_up :
    (dev : VirtioMmio) (q : VirtQueue)
    (k n desc_low desc_high avail_low avail_high used_low used_high : ℕ)
    → get_elem? dev.queues k ≡ some q
    → QueueIsValid q
    → (desc_low < u32_mod) × (desc_high < u32_mod)
    → (avail_low < u32_mod) × (avail_high < u32_mod)
    → (used_low < u32_mod) × (used_high < u32_mod)
    → get_elem?
        (run_writes
          (set_up k n desc_low desc_high avail_low avail_high used_low used_high)
          dev).queues
        k
      ≡ some (record q {
        size = n;
        ready = true;
        desc_addr = desc_high * 2 ^ 32 + desc_low;
        avail_addr = avail_high * 2 ^ 32 + avail_low;
        used_addr = used_high * 2 ^ 32 + used_low;
      })
unfolding run_writes run_queue queue_write write32 state_write
run_writes-set_up dev q k n desc_low desc_high avail_low avail_high used_low used_high at v d a u =
    let selected = record dev { state = record dev.state { queue_sel = k } } in
    (run_writes-run_queue (fill_in n desc_low desc_high avail_low avail_high used_low used_high)
      selected q
      (record q {
        size = n;
        ready = true;
        desc_addr = desc_high * 2 ^ 32 + desc_low;
        avail_addr = avail_high * 2 ^ 32 + avail_low;
        used_addr = used_high * 2 ^ 32 + used_low;
      })
      at
      (rw
        (
          put_halves q.desc_addr desc_low desc_high v.desc_fits d.0 d.1,
          put_halves q.avail_addr avail_low avail_high v.avail_fits a.0 a.1,
          put_halves q.used_addr used_low used_high v.used_fits u.0 u.1,
        )
        refl)).1

-- The accesses with which a driver accepts features: it selects a half, and writes it.
abbrev pub accept : ℕ → ℕ → List (ℕ × ℕ)
accept low high =
    (driver_features_sel_reg, 0)
    ∷ (driver_features_reg, low)
    ∷ (driver_features_sel_reg, 1)
    ∷ (driver_features_reg, high)
    ∷ []

-- The accesses with which a driver accepts features, 32 bits at a time, leave the 64 bits that it
-- means, whatever 64 bits were there before.
pub run_writes-accept :
    (dev : VirtioMmio) (low high : ℕ)
    → dev.state.driver_features < u64_mod
    → low < u32_mod
    → high < u32_mod
    → (run_writes (accept low high) dev).state.driver_features ≡ high * 2 ^ 32 + low
unfolding run_writes write32 queue_write state_write write_driver_features
run_writes-accept dev low high v hl hh = put_halves dev.state.driver_features low high v hl hh
