-- ===== src/Mmio/Readback/Space.antt =====
-- Reads of a device's configuration space (hyperpod/src/vmm/common/device/mmio.rs).
use hyper_pod.Base.{
  ℕ, zero, suc, ◌+◌, ◌-◌, ◌*◌, ◌^◌, ◌≤◌, ◌<◌, ◌≡◌, ◌∙◌, inl, inr, refl, ap, List, [], ◌∷◌, arith,
  length, take, drop, get_or, leb, ltb, ok, add64, u64_mod, slice_in_range, from_le_bytes, slice,
  true, Bool-cases, if◌then◌else◌,
}
use hyper_pod.Mmio.{VirtioMmio, config_space, write32, mutate_selected_queue, read_config, read32}
use hyper_pod.Mmio.Registers.{run_writes}

write32-config :
    (offset val : ℕ) (dev : VirtioMmio) → (write32 offset val dev).1.config ≡ dev.config
unfolding write32 mutate_selected_queue
write32-config offset val dev = ground arith

run_writes-config : (ws : List (ℕ × ℕ)) (dev : VirtioMmio) → (run_writes ws dev).config ≡ dev.config
unfolding run_writes
run_writes-config [] dev = refl
run_writes-config ((offset, val) ∷ ws) dev =
    run_writes-config ws (write32 offset val dev).1 ∙ write32-config offset val dev

-- The number whose little-endian bytes stand at `off`.
abbrev pub four_at : List ℕ → ℕ → ℕ
four_at bytes off =
    get_or bytes off 0
    + 2 ^ 8 * get_or bytes (suc off) 0
    + 2 ^ 16 * get_or bytes (suc (suc off)) 0
    + 2 ^ 24 * get_or bytes (suc (suc (suc off))) 0

from_le_bytes-four_at :
    (bytes : List ℕ) (off : ℕ)
    → off + 4 ≤ length bytes
    → from_le_bytes (take 4 (drop off bytes)) ≡ four_at bytes off
unfolding from_le_bytes
from_le_bytes-four_at [] off h = absurd (omega arith)
from_le_bytes-four_at (b ∷ bytes) (suc off) h = from_le_bytes-four_at bytes off (omega arith)
from_le_bytes-four_at (a ∷ []) zero h = absurd (omega arith)
from_le_bytes-four_at (a ∷ b ∷ []) zero h = absurd (omega arith)
from_le_bytes-four_at (a ∷ b ∷ c ∷ []) zero h = absurd (omega arith)
from_le_bytes-four_at (a ∷ b ∷ c ∷ d ∷ rest) zero h = omega arith

read_config-four_at :
    (dev : VirtioMmio) (off : ℕ)
    → off + 4 < u64_mod
    → read_config dev off
      ≡ ok (if leb (off + 4) (length dev.config) then four_at dev.config off else 0)
unfolding read_config
read_config-four_at dev off h = elim (Bool-cases (ltb (length dev.config) (add64 off 4))) [
  | inl beyond ↦ ground arith
  | inr within ↦
      let ends : add64 off 4 ≡ off + 4 = omega arith in
      let room : off + 4 ≤ length dev.config = ground arith in
      let four : add64 off 4 - off ≡ 4 = omega arith in
      let bytes : slice dev.config off (add64 off 4) ≡ ok (take 4 (drop off dev.config)) =
        slice_in_range dev.config off (add64 off 4) (omega arith) (omega arith)
        ∙ ap (λ n. ok (take n (drop off dev.config))) four in
      let fits : leb (off + 4) (length dev.config) ≡ true = ground arith in
      rw (within, bytes, fits) (ap ok (from_le_bytes-four_at dev.config off room))
]

-- Whatever a driver has written to the registers, a read of the configuration space, at any 64-bit
-- offset, returns the number whose four little-endian bytes stand there in the device's configuration,
-- which no write changes, or 0 unless all four are within it; it never panics.
pub read32-config :
    (dev : VirtioMmio) (ws : List (ℕ × ℕ)) (offset : ℕ)
    → config_space ≤ offset
    → offset < u64_mod
    → read32 (run_writes ws dev) offset
      ≡ ok (
          if leb (offset - config_space + 4) (length dev.config)
          then four_at dev.config (offset - config_space)
          else 0)
unfolding read32
read32-config dev ws offset h fits =
    let space : read32 (run_writes ws dev) offset
        ≡ read_config (run_writes ws dev) (offset - config_space) =
      ground arith in
    space
    ∙ read_config-four_at (run_writes ws dev) (offset - config_space) (omega arith)
    ∙ ap
        (λ bytes. ok (
          if leb (offset - config_space + 4) (length bytes)
          then four_at bytes (offset - config_space)
          else 0))
        (run_writes-config ws dev)
