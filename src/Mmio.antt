-- ===== src/Mmio.antt =====
-- The virtio-mmio transport, hyperpod/src/vmm/common/device/mmio.rs: the registers of one device. Every
-- access takes the locks that it needs one after the other and is one step here.
pub mod Queue
pub mod Pop
pub mod Chain
pub mod Publish
pub mod Registers
pub mod Readback
mod Tests
use hyper_pod.Base.{
  ℕ, ◌+◌, ◌-◌, ◌*◌, ◌/◌, ◌%◌, ◌^◌, Bool, false, not, Option, none, some, List, [], ◌∷◌, map, length,
  get_elem?, set, ltb, leb, ◌==◌, if◌then◌else◌, add64, bit_and, bit_or, ◌<<<◌, ◌>>>◌, u32_mod,
  u64_mod, from_le_bytes, slice, Outcome, ok, ◌>>=◌,
}
use Queue.{VirtQueue}

abbrev pub magic_value : ℕ
magic_value = 0x000

abbrev pub version : ℕ
version = 0x004

abbrev pub device_id_reg : ℕ
device_id_reg = 0x008

abbrev pub vendor_id_reg : ℕ
vendor_id_reg = 0x00c

abbrev pub device_features_reg : ℕ
device_features_reg = 0x010

abbrev pub device_features_sel_reg : ℕ
device_features_sel_reg = 0x014

abbrev pub driver_features_reg : ℕ
driver_features_reg = 0x020

abbrev pub driver_features_sel_reg : ℕ
driver_features_sel_reg = 0x024

abbrev pub queue_sel_reg : ℕ
queue_sel_reg = 0x030

abbrev pub queue_num_max : ℕ
queue_num_max = 0x034

abbrev pub queue_num : ℕ
queue_num = 0x038

abbrev pub queue_ready : ℕ
queue_ready = 0x044

abbrev pub queue_notify : ℕ
queue_notify = 0x050

abbrev pub interrupt_status_reg : ℕ
interrupt_status_reg = 0x060

abbrev pub interrupt_ack : ℕ
interrupt_ack = 0x064

abbrev pub status_reg : ℕ
status_reg = 0x070

abbrev pub queue_desc_low : ℕ
queue_desc_low = 0x080

abbrev pub queue_desc_high : ℕ
queue_desc_high = 0x084

abbrev pub queue_avail_low : ℕ
queue_avail_low = 0x090

abbrev pub queue_avail_high : ℕ
queue_avail_high = 0x094

abbrev pub queue_used_low : ℕ
queue_used_low = 0x0a0

abbrev pub queue_used_high : ℕ
queue_used_high = 0x0a4

abbrev pub config_generation_reg : ℕ
config_generation_reg = 0x0fc

abbrev pub config_space : ℕ
config_space = 0x100

abbrev pub magic : ℕ
magic = 0x7472_6976

abbrev pub version_2 : ℕ
version_2 = 2

pub record MmioState : Type 0 where
  pub device_features_sel : ℕ
  pub driver_features_sel : ℕ
  pub driver_features : ℕ
  pub queue_sel : ℕ
  pub status : ℕ
  pub interrupt_status : ℕ
  pub config_generation : ℕ

pub record VirtioMmio : Type 0 where
  pub device_id : ℕ
  pub vendor_id : ℕ
  pub device_features : ℕ
  pub config : List ℕ
  pub state : MmioState
  pub queues : List VirtQueue

-- `MmioState::default()`
abbrev pub default_state : MmioState
default_state = record {
  device_features_sel = 0;
  driver_features_sel = 0;
  driver_features = 0;
  queue_sel = 0;
  status = 0;
  interrupt_status = 0;
  config_generation = 0;
}

-- `VirtQueue { size_max: n, ..Default::default() }`
abbrev pub empty_queue : ℕ → VirtQueue
empty_queue n = record {
  size_max = n;
  size = 0;
  ready = false;
  desc_addr = 0;
  avail_addr = 0;
  used_addr = 0;
  last_avail_idx = 0;
}

unfoldable pub new : ℕ → ℕ → ℕ → List ℕ → VirtioMmio
new device_id vendor_id device_features queue_sizes = record {
  device_id = device_id;
  vendor_id = vendor_id;
  device_features = device_features;
  config = [];
  state = default_state;
  queues = map empty_queue queue_sizes;
}

-- `selected_queue(f).unwrap_or(0)`
unfoldable pub selected_queue : VirtioMmio → (VirtQueue → ℕ) → ℕ
selected_queue dev f = elim (get_elem? dev.queues dev.state.queue_sel) [ none ↦ 0 | some q ↦ f q ]

unfoldable pub mutate_selected_queue : (VirtQueue → VirtQueue) → VirtioMmio → VirtioMmio
mutate_selected_queue f dev = elim (get_elem? dev.queues dev.state.queue_sel) [
  | none ↦ dev
  | some q ↦ record dev { queues = set dev.queues dev.state.queue_sel (f q) }
]

unfoldable pub read_config : VirtioMmio → ℕ → Outcome ℕ
read_config dev off =
    if ltb (length dev.config) (add64 off 4)
    then ok 0
    else (slice dev.config off (add64 off 4) >>= λ bytes. ok (from_le_bytes bytes))

unfoldable pub read_features : VirtioMmio → ℕ
read_features dev =
    if dev.state.device_features_sel == 0
    then dev.device_features % u32_mod
    else if dev.state.device_features_sel == 1
    then (dev.device_features >>> 32) % u32_mod
    else 0

unfoldable pub read32 : VirtioMmio → ℕ → Outcome ℕ
read32 dev offset =
    if offset == magic_value
    then ok magic
    else if offset == version
    then ok version_2
    else if offset == device_id_reg
    then ok dev.device_id
    else if offset == vendor_id_reg
    then ok dev.vendor_id
    else if offset == device_features_reg
    then ok (read_features dev)
    else if offset == queue_num_max
    then ok (selected_queue dev (λ (q : VirtQueue). q.size_max))
    else if offset == queue_ready
    then ok (selected_queue dev (λ (q : VirtQueue). if q.ready then 1 else 0))
    else if offset == interrupt_status_reg
    then ok dev.state.interrupt_status
    else if offset == status_reg
    then ok dev.state.status
    else if offset == config_generation_reg
    then ok dev.state.config_generation
    else if leb config_space offset
    then read_config dev (offset - config_space)
    else ok 0

-- `(x & !mask) | (val << shift)`, where the mask has 32 bits from `shift` on.
unfoldable pub put_half : ℕ → ℕ → ℕ → ℕ
put_half shift x val =
    let mask = 0xffff_ffff <<< shift in bit_or (bit_and x (u64_mod - 1 - mask)) (val <<< shift)

abbrev set_state : (MmioState → MmioState) → VirtioMmio → VirtioMmio
set_state f dev = record dev { state = f dev.state }

unfoldable pub write_driver_features : ℕ → MmioState → MmioState
write_driver_features val s =
    let shift = if s.driver_features_sel == 0 then 0 else 32 in
    record s { driver_features = put_half shift s.driver_features val }

-- The registers of `write32` that belong to a queue; `none` for any other offset.
unfoldable pub queue_write : ℕ → ℕ → Option (VirtQueue → VirtQueue)
queue_write offset val =
    if offset == queue_num
    then some (λ q. record q { size = val })
    else if offset == queue_ready
    then some (λ q. record q { ready = not (val == 0) })
    else if offset == queue_desc_low
    then some (λ q. record q { desc_addr = put_half 0 q.desc_addr val })
    else if offset == queue_desc_high
    then some (λ q. record q { desc_addr = put_half 32 q.desc_addr val })
    else if offset == queue_avail_low
    then some (λ q. record q { avail_addr = put_half 0 q.avail_addr val })
    else if offset == queue_avail_high
    then some (λ q. record q { avail_addr = put_half 32 q.avail_addr val })
    else if offset == queue_used_low
    then some (λ q. record q { used_addr = put_half 0 q.used_addr val })
    else if offset == queue_used_high
    then some (λ q. record q { used_addr = put_half 32 q.used_addr val })
    else none

-- Those that belong to the device.
unfoldable pub state_write : ℕ → ℕ → MmioState → MmioState
state_write offset val s =
    if offset == device_features_sel_reg
    then record s { device_features_sel = val }
    else if offset == driver_features_sel_reg
    then record s { driver_features_sel = val }
    else if offset == driver_features_reg
    then write_driver_features val s
    else if offset == queue_sel_reg
    then record s { queue_sel = val }
    else if offset == interrupt_ack
    then record s { interrupt_status = bit_and s.interrupt_status (u32_mod - 1 - val) }
    else if offset == status_reg
    then record s { status = val }
    else s

-- `write32`, with the index of the queue that is to be processed.
unfoldable pub write32 : ℕ → ℕ → VirtioMmio → Option ℕ × VirtioMmio
write32 offset val dev = elim (queue_write offset val) [
  | some f ↦ (none, mutate_selected_queue f dev)
  | none ↦
      (if offset == queue_notify then some val else none, set_state (state_write offset val) dev)
]
