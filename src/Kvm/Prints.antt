-- ===== src/Kvm/Prints.antt =====
-- What of the guest's output `run_vm` of hyperpod/src/vmm/linux/vm.rs leaves, from its first call on.
use hyper_pod.Base.{
  ℕ, ◌≡◌, ◌∙◌, ◌⊎◌, inl, inr, refl, ap, subst, true, List, ◌++◌, Outcome, ok, err, panic, Error,
}
use hyper_pod.Vm.Ending.{Ending, still_running, returned, Run, lift, pass_on, ◌>>=◌}
use hyper_pod.Vm.{prepare}
use hyper_pod.Config.{HyperPodFile}
use hyper_pod.Ram.{GuestRam, new}
use hyper_pod.Storage.{open_image}
use hyper_pod.Kvm.Loop.{Machine, run_loop}
use hyper_pod.Kvm.Output.{sent, run_loop-sent}
use hyper_pod.Probes.Linux.{monitor_needs}
use hyper_pod.Kvm.Run.{
  Call, Process, System, call, check_version, set_long_mode, start_scaling, stop_monitor, run_guest,
  run_vcpu, run_memory, run_vm,
}

-- The whole output of the guest if it runs still, or has run to its end; and else the whole or nothing.
unfoldable pub Prints : System → List ℕ → Ending (Unit {0}) × Process → Type 0
Prints sys before (still_running, q) = q.machine.serial.out ≡ before ++ sent sys.exits
Prints sys before (returned (ok x), q) = q.machine.serial.out ≡ before ++ sent sys.exits
Prints sys before (returned (err e), q) =
    (q.machine.serial.out ≡ before) ⊎ (q.machine.serial.out ≡ before ++ sent sys.exits)
Prints sys before (returned panic, q) =
    (q.machine.serial.out ≡ before) ⊎ (q.machine.serial.out ≡ before ++ sent sys.exits)

-- Code without the guest: it returns, and the machine is as it was.
IsQuiet : {A : Type 0} → Process → Ending A × Process → Type 0
IsQuiet p (still_running, q) = ⊥
IsQuiet p (returned r, q) = q.machine ≡ p.machine

abbrev Quiet : {A : Type 0} → Run Process A → Type 0
Quiet m = (p : Process) → IsQuiet p (m p)

module _ (sys : System) where
  abbrev Goes : Run Process (Unit {0}) → Type 0
  Goes m = (p : Process) → Prints sys p.machine.serial.out (m p)

  pass_on-IsQuiet :
      {A B : Type 0} (p : Process) (r : Ending A × Process) (k : A → Run Process B)
      → IsQuiet p r
      → ((x : A) → Quiet (k x))
      → IsQuiet p (pass_on r k)
  unfolding IsQuiet
  pass_on-IsQuiet p (still_running, q) k h next = elim h [ ]
  pass_on-IsQuiet {B = B} p (returned (ok x), q) k h next = joined (k x q) (next x q)
    where
      joined : (o : Ending B × Process) → IsQuiet q o → IsQuiet p o
      joined (still_running, t) e = e
      joined (returned r, t) e = e ∙ h
  pass_on-IsQuiet p (returned (err e), q) k h next = h
  pass_on-IsQuiet p (returned panic, q) k h next = h

  pass_on-Prints :
      {A : Type 0} (p : Process) (r : Ending A × Process) (k : A → Run Process (Unit {0}))
      → IsQuiet p r
      → ((x : A) → Goes (k x))
      → Prints sys p.machine.serial.out (pass_on r k)
  unfolding Prints IsQuiet
  pass_on-Prints p (still_running, q) k h next = elim h [ ]
  pass_on-Prints p (returned (ok x), q) k h next =
      subst (λ (m : Machine). Prints sys m.serial.out (k x q)) h (next x q)
  pass_on-Prints p (returned (err e), q) k h next = inl (ap (λ (m : Machine). m.serial.out) h)
  pass_on-Prints p (returned panic, q) k h next = inl (ap (λ (m : Machine). m.serial.out) h)

  >>=-Quiet :
      {A B : Type 0} (m : Run Process A) (k : A → Run Process B)
      → Quiet m
      → ((x : A) → Quiet (k x))
      → Quiet (m >>= k)
  >>=-Quiet m k h next p = pass_on-IsQuiet p (m p) k (h p) next

  >>=-Goes :
      {A : Type 0} (m : Run Process A) (k : A → Run Process (Unit {0}))
      → Quiet m
      → ((x : A) → Goes (k x))
      → Goes (m >>= k)
  >>=-Goes m k h next p = pass_on-Prints p (m p) k (h p) next

  call-Quiet : (name : Error) (c : Call) → Quiet (call sys name c)
  unfolding call IsQuiet
  call-Quiet name c p = refl

  lift-Quiet : {A : Type 0} (r : Outcome A) → Quiet (lift r)
  unfolding IsQuiet
  lift-Quiet r p = refl

  set_long_mode-Quiet : (entry : ℕ) → Quiet (set_long_mode sys entry)
  unfolding set_long_mode
  set_long_mode-Quiet entry = >>=-Quiet _ _ (call-Quiet _ _) (λ _.
      >>=-Quiet _ _ (call-Quiet _ _) (λ _. >>=-Quiet _ _ (call-Quiet _ _) (λ _. call-Quiet _ _)))

  begins-Quiet : Quiet (λ p. (returned (ok tt), record p { monitoring = true }))
  unfolding IsQuiet
  begins-Quiet p = refl

  start_scaling-Quiet : Quiet (start_scaling sys)
  unfolding start_scaling
  start_scaling-Quiet =
      >>=-Quiet (lift (monitor_needs sys.cpuinfo sys.share_files sys.cgroup sys.has_pool)) _
        (lift-Quiet (monitor_needs sys.cpuinfo sys.share_files sys.cgroup sys.has_pool))
        (λ _. begins-Quiet)

  stopped-Prints :
      (p : Process) (r : Ending (Unit {0}) × Machine)
      → r.1.serial.out ≡ p.machine.serial.out ++ sent sys.exits
      → Prints sys p.machine.serial.out (stop_monitor p r)
  unfolding Prints stop_monitor
  stopped-Prints p (still_running, m) h = h
  stopped-Prints p (returned (ok x), m) h = h
  stopped-Prints p (returned (err e), m) h = inr h
  stopped-Prints p (returned panic, m) h = inr h

  run_guest-Goes : Goes (run_guest sys)
  unfolding run_guest
  run_guest-Goes p =
      stopped-Prints p (run_loop sys.exits p.machine) (run_loop-sent sys.exits p.machine)

  run_vcpu-Goes : (entry : ℕ) → Goes (run_vcpu sys entry)
  unfolding run_vcpu
  run_vcpu-Goes entry = >>=-Goes _ _ (call-Quiet _ _) (λ _. >>=-Goes _ _ (call-Quiet _ _) (λ _.
      >>=-Goes _ _ (call-Quiet _ _) (λ _.
        >>=-Goes _ _ (set_long_mode-Quiet entry)
          (λ _. >>=-Goes _ _ start_scaling-Quiet (λ _. run_guest-Goes)))))

  run_memory-Goes : (cfg : HyperPodFile) (ram : GuestRam) → Goes (run_memory sys cfg ram)
  unfolding run_memory
  run_memory-Goes cfg ram = >>=-Goes _ _ (call-Quiet _ _) (λ _.
      >>=-Goes _ _ (lift-Quiet (check_version sys)) (λ _. >>=-Goes _ _ (call-Quiet _ _) (λ _.
        >>=-Goes _ _ (call-Quiet _ _) (λ _. >>=-Goes _ _ (call-Quiet _ _) (λ _.
          >>=-Goes _ _
            (lift-Quiet (prepare cfg.cmdline cfg.limits.min_ram (sys.kernel cfg.kernel_path) ram).0)
            (λ kernel. run_vcpu-Goes kernel.entry))))))

  -- Whatever is answered to the calls: when `run_vm` has returned with success, and as long as the guest runs,
  -- the serial port has put out what the guest sent, up to the exit that ends the loop, and nothing else; when it has returned
  -- without success, that or nothing.
  pub run_vm-Prints :
      (cfg : HyperPodFile) (p : Process) → Prints sys p.machine.serial.out (run_vm sys cfg p)
  unfolding run_vm
  run_vm-Prints cfg = >>=-Goes _ _ (lift-Quiet (open_image (sys.rootfs cfg.rootfs_path))) (λ _.
      >>=-Goes _ _ (lift-Quiet (new sys.alloc cfg.limits.min_ram)) (λ ram. run_memory-Goes cfg ram))
