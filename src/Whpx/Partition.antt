-- ===== src/Whpx/Partition.antt =====
-- The hypervisor's interface, hyperpod/src/vmm/windows/partition.rs: every call is checked, and all of
-- them are recorded, the latest first. What the platform answers is a parameter.
use hyper_pod.Base.{ℕ, ◌==◌, if◌then◌else◌, List, ◌∷◌, Outcome, ok, err, hypervisor_failed}
use hyper_pod.Vm.Ending.{returned, Run, lift, ◌>>=◌}
use hyper_pod.Serial.{Serial}
use hyper_pod.Whpx.{Name, Value}

-- The partition's properties that are set: the number of processors, and the APIC in xAPIC mode.
pub data Property : Type 0 where
  processor_count : ℕ → Property
  x_apic_emulation : Property

-- What the process does to the platform, with the memory's allocation and the monitor's thread.
pub data Event : Type 0 where
  allocate free create create_failed setup run_vcpu delete start_monitor stop_monitor : Event
  map_memory create_vcpu : ℕ → Event
  set_property : Property → Event
  set_registers : List (Name × Value) → Event

-- `WHV_RUN_VP_EXIT_CONTEXT`. `io` has the port, `AccessInfo`, RAX, RIP and the instruction's length,
-- `memory` the address, RIP and the length.
pub data Exit : Type 0 where
  none halt unrecoverable canceled other : Exit
  io : ℕ → ℕ → ℕ → ℕ → ℕ → Exit
  memory : ℕ → ℕ → ℕ → Exit

pub record Platform : Type 0 where
  pub events : List Event
  pub serial : Serial

-- The answers of the platform: the HRESULT of a call and the exit of a run after the events so far, and
-- the handle that a created partition gets.
pub record Host : Type 0 where
  pub hresult : List Event → Event → ℕ
  pub exit : List Event → Exit
  pub handle : ℕ

abbrev pub record_event : Event → Platform → Platform
record_event e p = record p { events = e ∷ p.events }

unfoldable pub check : ℕ → Outcome (Unit {0})
check hr = if hr == 0 then ok tt else err hypervisor_failed

module _ (host : Host) where
  -- `check(unsafe { … })?` of the wrappers.
  unfoldable pub call : Event → Run Platform (Unit {0})
  call e p = (returned (check (host.hresult p.events e)), record_event e p)

  -- `Partition::create`
  unfoldable pub create_partition : Run Platform (Unit {0})
  create_partition p =
      if host.hresult p.events create == 0
      then (returned (ok tt), record_event create p)
      else (returned (err hypervisor_failed), record_event create_failed p)

  -- `Partition::run_vcpu`
  unfoldable pub run_once : Run Platform Exit
  run_once p = (call run_vcpu >>= λ _. lift (ok (host.exit p.events))) p

  -- `Drop for Partition`
  unfoldable pub drop_partition : Platform → Platform
  drop_partition p = if host.handle == 0 then p else record_event delete p
