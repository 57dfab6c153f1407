-- ===== src/Whpx/Release.antt =====
-- What `run_vm` of hyperpod/src/vmm/windows/vm.rs holds of memory, partition and monitor at its end.
use hyper_pod.Base.{
  ℕ, ◌≡◌, ◌≢◌, ◌⊎◌, inl, inr, refl, ap, ◌==◌, if◌then◌else◌, Bool, true, false, some, [],
  ne→==_false, ok, err, hypervisor_failed,
}
use hyper_pod.Vm.Ending.{returned, Run, lift, pass_on, ◌>>=◌}
use hyper_pod.Probes.{monitor_needs}
use hyper_pod.Vm.{prepare}
use hyper_pod.Config.{HyperPodFile}
use hyper_pod.Ram.{GuestRam, new}
use hyper_pod.Storage.{open_image}
use hyper_pod.Whpx.{long_mode_registers}
use hyper_pod.Whpx.Partition.{
  Event, Platform, Host, record_event, call, create_partition, drop_partition, processor_count,
  x_apic_emulation,
}
use hyper_pod.Whpx.Loop.{run_loop}
use hyper_pod.Whpx.Run.{
  System, releasing, run_guest, run_partition, run_memory, run_allocated, run_vm,
}
use hyper_pod.Whpx.Resources.{
  before, allocated, open_partition, stopped, deleted, freed, step, phase_of, InPhase, Ends, Goes,
  finally_do-Ends, then_Goes, lift-Keeps, record_event-InPhase, call-Keeps, run_loop-Keeps,
}

-- The phases in which a part of the code may return.
abbrev IsBuilt : Platform → Type 0
IsBuilt q = InPhase open_partition q ⊎ InPhase stopped q

abbrev IsRidded : Platform → Type 0
IsRidded q = InPhase allocated q ⊎ InPhase deleted q

abbrev IsReleased : Platform → Type 0
IsReleased q = InPhase before q ⊎ InPhase freed q

module _ (host : Host) (sys : System) where
  -- A call while the partition stands and no monitor runs, and the code after it.
  call_then :
      (e : Event) (k : Unit {0} → Run Platform (Unit {0}))
      → step e open_partition ≡ some open_partition
      → Goes (InPhase open_partition) IsBuilt (k tt)
      → Goes (InPhase open_partition) IsBuilt (call host e >>= k)
  call_then e k moves after =
      then_Goes (call host e) k (call-Keeps host open_partition e moves) (λ q hq. inl hq)
        (λ x. after)

  run_guest-Goes :
      (rounds entry : ℕ) → Goes (InPhase open_partition) IsBuilt (run_guest host sys rounds entry)
  unfolding run_guest step
  run_guest-Goes rounds entry = call_then (Event.create_vcpu 0) _ refl (
      call_then (Event.set_registers (long_mode_registers entry)) _ refl (
        then_Goes (lift (monitor_needs sys.times sys.job sys.joins sys.has_pool)) _
          (lift-Keeps open_partition (monitor_needs sys.times sys.job sys.joins sys.has_pool))
          (λ q hq. inl hq)
          (λ x q hq.
            finally_do-Ends IsBuilt (record_event Event.stop_monitor)
              (run_loop host rounds (record_event Event.start_monitor q))
              (run_loop-Keeps host rounds (record_event Event.start_monitor q)
                (record_event-InPhase Event.start_monitor q refl hq))
              (λ r hr. inr (record_event-InPhase Event.stop_monitor r refl hr)))))

  run_partition-Goes :
      (rounds : ℕ) (cfg : HyperPodFile) (ram : GuestRam)
      → Goes (InPhase open_partition) IsBuilt (run_partition host sys rounds cfg ram)
  unfolding run_partition step
  run_partition-Goes rounds cfg ram = call_then (Event.set_property (processor_count 1)) _ refl (
      call_then (Event.set_property x_apic_emulation) _ refl (
        call_then Event.setup _ refl (
          call_then (Event.map_memory ram.size) _ refl (
            then_Goes
              (lift (prepare cfg.cmdline cfg.limits.min_ram (sys.kernel cfg.kernel_path) ram).0) _
              (lift-Keeps open_partition _) (λ q hq. inl hq)
              (λ kernel. run_guest-Goes rounds kernel.entry)))))

  drop_partition-IsRidded :
      host.handle ≢ 0 → (q : Platform) → IsBuilt q → IsRidded (drop_partition host q)
  unfolding drop_partition step
  drop_partition-IsRidded handle q h = rw (ne→==_false host.handle 0 handle) (elim h [
    | inl hq ↦ inr (record_event-InPhase Event.delete q refl hq)
    | inr hq ↦ inr (record_event-InPhase Event.delete q refl hq)
  ])

  -- The code after an attempt to create the partition.
  created-Ends :
      (created : Bool) (k : Run Platform (Unit {0})) (p : Platform)
      → host.handle ≢ 0
      → Goes (InPhase open_partition) IsBuilt k
      → InPhase allocated p
      → Ends IsRidded (
          pass_on
            (if created
              then (returned (ok tt), record_event Event.create p)
              else (returned (err hypervisor_failed), record_event Event.create_failed p))
            (λ _. releasing (drop_partition host) k))
  unfolding step Ends
  created-Ends true k p handle after h =
      finally_do-Ends IsRidded (drop_partition host) (k (record_event Event.create p))
        (after (record_event Event.create p) (record_event-InPhase Event.create p refl h))
        (drop_partition-IsRidded handle)
  created-Ends false k p handle after h = inl (record_event-InPhase Event.create_failed p refl h)

  run_memory-Goes :
      (rounds : ℕ) (cfg : HyperPodFile) (ram : GuestRam)
      → host.handle ≢ 0
      → Goes (InPhase allocated) IsRidded (run_memory host sys rounds cfg ram)
  unfolding run_memory create_partition
  run_memory-Goes rounds cfg ram handle p h =
      created-Ends (host.hresult p.events Event.create == 0) _ p handle
        (run_partition-Goes rounds cfg ram) h

  run_allocated-Goes :
      (rounds : ℕ) (cfg : HyperPodFile) (ram : GuestRam)
      → host.handle ≢ 0
      → Goes (InPhase before) IsReleased (run_allocated host sys rounds cfg ram)
  unfolding run_allocated step
  run_allocated-Goes rounds cfg ram handle p h =
      finally_do-Ends IsReleased (record_event Event.free)
        (run_memory host sys rounds cfg ram (record_event Event.allocate p))
        (run_memory-Goes rounds cfg ram handle (record_event Event.allocate p)
          (record_event-InPhase Event.allocate p refl h))
        (λ q hq. elim hq [
          | inl hq ↦ inr (record_event-InPhase Event.free q refl hq)
          | inr hq ↦ inr (record_event-InPhase Event.free q refl hq)
        ])

  -- Let the platform give a created partition a handle other than 0, and let nothing have been done.
  -- Then, whatever the platform answers to each call, however the guest exits, and whatever the
  -- configuration and the files are, the run follows the protocol: calls go to a partition that
  -- exists, and a monitor is told to stop before the partition is deleted, before the memory is freed.
  -- If the run has returned, in success, error or panic, either nothing was acquired or everything has
  -- been released; if it has not, memory, partition and monitor are still there.
  pub run_vm-Ends :
      (rounds : ℕ) (cfg : HyperPodFile) (p : Platform)
      → host.handle ≢ 0
      → p.events ≡ []
      → Ends (λ q. InPhase before q ⊎ InPhase freed q) (run_vm host sys rounds cfg p)
  unfolding run_vm phase_of
  run_vm-Ends rounds cfg p handle idle =
      then_Goes (lift (open_image (sys.rootfs cfg.rootfs_path))) _ (lift-Keeps before _)
        (λ q hq. inl hq)
        (λ _.
          then_Goes (lift (new sys.alloc cfg.limits.min_ram)) _ (lift-Keeps before _)
            (λ q hq. inl hq) (λ ram. run_allocated-Goes rounds cfg ram handle))
        p (ap phase_of idle)
