-- ===== src/Mmio/Tests.antt =====
-- A device of two queues, and a queue with one request of two descriptors.
use hyper_pod.Base.{
  ℕ, ◌+◌, ◌*◌, ◌^◌, ◌≤◌, ◌≡◌, ◌↔◌, refl, inl, true, none, some, List, [], ◌∷◌, arith, get_elem?, ok,
}
use hyper_pod.Ram.{GuestRam}
use hyper_pod.Ram.Patch.{patched}
use hyper_pod.Mmio.Queue.{VirtQueue, Descriptor, DescriptorChain, walk}
use hyper_pod.Mmio.Pop.{pop, advance, read_head}
use hyper_pod.Mmio.Chain.{Links, walk_iff, IsPending, pop_iff}
use hyper_pod.Mmio.{
  VirtioMmio, new, read32, empty_queue, status_reg, device_features_reg, device_features_sel_reg,
  queue_sel_reg, queue_num_max, queue_ready, interrupt_ack, interrupt_status_reg,
}
use hyper_pod.Mmio.Registers.{run_writes, set_up, run_writes-set_up}
use hyper_pod.Base.Bits.Single.{bit}
use hyper_pod.Mmio.Readback.{last_written, acknowledges, ready_after}
use hyper_pod.Mmio.Readback.Space.{read32-config}
use hyper_pod.Mmio.Readback.Values.{feature_word, of_queue, read32-run_writes}
use hyper_pod.Mmio.Publish.{publish}
use hyper_pod.Mmio.Publish.Request.{IsSetUp}
use hyper_pod.Mmio.Publish.Taken.{IsRequest, pop-publish}

abbrev device : VirtioMmio
device = new 2 0x1af4 0x100000002 (256 ∷ 128 ∷ [])

run_writes-set_up_example :
    get_elem? (run_writes (set_up 1 64 0x1000 1 0x2000 1 0x3000 1) device).queues 1
    ≡ some (record {
      size_max = 128;
      size = 64;
      ready = true;
      desc_addr = 1 * 2 ^ 32 + 0x1000;
      avail_addr = 1 * 2 ^ 32 + 0x2000;
      used_addr = 1 * 2 ^ 32 + 0x3000;
      last_avail_idx = 0;
    })
unfolding new
run_writes-set_up_example =
    run_writes-set_up device (empty_queue 128) 1 64 0x1000 1 0x2000 1 0x3000 1 refl
      (record { desc_fits = omega arith; avail_fits = omega arith; used_fits = omega arith })
      (omega arith, omega arith) (omega arith, omega arith) (omega arith, omega arith)

abbrev queue : VirtQueue
queue = record {
  size_max = 8;
  size = 8;
  ready = true;
  desc_addr = 0x100;
  avail_addr = 0x200;
  used_addr = 0x300;
  last_avail_idx = 0;
}

-- Descriptor 3 goes on with descriptor 5.
abbrev ram : GuestRam
ram = record {
  size = 0x1000;
  cell =
      patched (λ _. 0)
        (record { off = 0x202; width = 2; val = 1 }
          ∷ record { off = 0x204; width = 2; val = 3 }
          ∷ record { off = 0x130; width = 8; val = 0x400 }
          ∷ record { off = 0x138; width = 4; val = 16 }
          ∷ record { off = 0x13c; width = 2; val = 1 }
          ∷ record { off = 0x13e; width = 2; val = 5 }
          ∷ record { off = 0x150; width = 8; val = 0x500 }
          ∷ record { off = 0x158; width = 4; val = 512 }
          ∷ record { off = 0x15c; width = 2; val = 2 }
          ∷ []);
}

abbrev request : DescriptorChain
request = record {
  head_index = 3;
  descriptors =
      record { addr = 0x400; len = 16; flags = 1; next = 5 }
      ∷ record { addr = 0x500; len = 512; flags = 2; next = 0 }
      ∷ [];
}

pop_iff_example : (pop ram queue ≡ (ok (some request), advance queue)) ↔ (
    IsPending ram queue
    × (read_head ram queue ≡ ok 3)
    × Links ram queue 3 request.descriptors
    × (2 ≤ 8)
    × (advance queue ≡ advance queue))
pop_iff_example = pop_iff ram queue (advance queue) request

walk_iff_example :
    (walk ram queue 8 3 ≡ ok request.descriptors)
    ↔ (Links ram queue 3 request.descriptors × (2 ≤ 8))
walk_iff_example = walk_iff ram queue 8 3 request.descriptors

-- Features, queue 1 made ready, the status, and interrupt 0 acknowledged while 0 and 1 are pending.
abbrev driver_writes : List (ℕ × ℕ)
driver_writes =
    (device_features_sel_reg, 1)
    ∷ (queue_sel_reg, 1)
    ∷ (queue_ready, 1)
    ∷ (status_reg, 15)
    ∷ (interrupt_ack, 1)
    ∷ []

abbrev interrupted : VirtioMmio
interrupted = record device { state = record device.state { interrupt_status = 3 } }

read32-run_writes_example :
    (read32 (run_writes driver_writes interrupted) status_reg ≡ ok 15)
    × (read32 (run_writes driver_writes interrupted) device_features_reg ≡ ok 1)
    × (read32 (run_writes driver_writes interrupted) queue_num_max ≡ ok 128)
    × (read32 (run_writes driver_writes interrupted) queue_ready ≡ ok 1)
    × ((v : ℕ) × (read32 (run_writes driver_writes interrupted) interrupt_status_reg ≡ ok v)
        × (bit 1 v ≡ 1))
unfolding new last_written feature_word of_queue ready_after acknowledges bit
read32-run_writes_example =
    read32-run_writes interrupted driver_writes 1 (omega arith) (omega arith)

-- The last four of six bytes of configuration.
abbrev configured : VirtioMmio
configured = record device { config = 1 ∷ 2 ∷ 3 ∷ 4 ∷ 5 ∷ 6 ∷ [] }

read32-config_example : read32 (run_writes driver_writes configured) 0x102 ≡ ok 0x06050403
read32-config_example = read32-config configured driver_writes 0x102 (omega arith) (omega arith)

abbrev bare : GuestRam
bare = record { size = 0x1000; cell = λ _. 0 }

bare-IsSetUp : IsSetUp bare queue
bare-IsSetUp = record {
  valid = omega arith;
  is_ready = refl;
  has_size = omega arith;
  table_fits = omega arith;
  ring_fits = omega arith;
  apart = inl (omega arith);
  idx_fits = omega arith;
}

abbrev first : Descriptor
first = record { addr = 0x400; len = 16; flags = 1; next = 5 }

abbrev second : Descriptor
second = record { addr = 0x500; len = 512; flags = 2; next = 0 }

two_slots-IsRequest : IsRequest queue 3 ((3, first) ∷ (5, second) ∷ [])
two_slots-IsRequest = record {
  linked = (refl, refl, refl);
  apart = ((omega arith, tt), (tt, tt));
  below = omega arith;
  fits = (
    record { addr = omega arith; len = omega arith; flags = omega arith; next = omega arith },
    (record { addr = omega arith; len = omega arith; flags = omega arith; next = omega arith }, tt),
  );
  short = omega arith;
  head_fits = omega arith;
}

pop-publish_example :
    (ram' : GuestRam) × (publish queue 3 ((3, first) ∷ (5, second) ∷ []) bare ≡ (ok tt, ram'))
    × (pop ram' queue
        ≡ (ok (some (record { head_index = 3; descriptors = first ∷ second ∷ [] })), advance queue))
    × (pop ram' (advance queue) ≡ (ok none, advance queue))
pop-publish_example =
    pop-publish bare queue bare-IsSetUp 3 first ((5, second) ∷ []) two_slots-IsRequest
