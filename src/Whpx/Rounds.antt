-- ===== src/Whpx/Rounds.antt =====
-- One round of the exit loop of hyperpod/src/vmm/windows/vm.rs, when the hypervisor does as it is told.
use hyper_pod.Base.{ℕ, suc, ◌≡◌, refl, ap, true, false, if◌then◌else◌, List, [], ◌∷◌, ok, arith}
use hyper_pod.Vm.Ending.{returned, lift, pass_on}
use hyper_pod.Whpx.Partition.{
  Event, Exit, io, memory, Platform, Host, record_event, check, call, run_once, run_vcpu,
}
use hyper_pod.Whpx.Loop.{port_access, handle_exit, run_loop}

-- Every call of the hypervisor succeeds.
abbrev pub IsWilling : Host → Type 0
IsWilling host = (es : List Event) (e : Event) → host.hresult es e ≡ 0

-- From `p` on, the processor exits with `es` in turn.
unfoldable pub Exits : Host → List Exit → Platform → Type 0
Exits host [] p = Unit {0}
Exits host (e ∷ es) p =
    (host.exit p.events ≡ e) × Exits host es (handle_exit host e (record_event run_vcpu p)).1

module _ (host : Host) (willing : IsWilling host) where
  pub call-ok : (e : Event) (p : Platform) → call host e p ≡ (returned (ok tt), record_event e p)
  unfolding call check
  call-ok e p = rw (willing p.events e) refl

  pub run_once-ok :
      (e : Exit) (p : Platform)
      → host.exit p.events ≡ e
      → run_once host p ≡ (returned (ok e), record_event run_vcpu p)
  unfolding run_once
  run_once-ok e p exits = rw (call-ok run_vcpu p, exits) refl

  port_access-ok :
      (port raw_info rax rip size : ℕ) (p : Platform)
      → (port_access host port raw_info rax rip size p).0 ≡ returned (ok tt)
  unfolding port_access
  port_access-ok port raw_info rax rip size p = grind (arith, call-ok)

  pub handle_exit-io :
      (port raw_info rax rip size : ℕ) (p : Platform)
      → handle_exit host (io port raw_info rax rip size) p
        ≡ (returned (ok true), (port_access host port raw_info rax rip size p).1)
  unfolding handle_exit
  handle_exit-io port raw_info rax rip size p =
      ap (λ r. pass_on (r, (port_access host port raw_info rax rip size p).1) (λ _. lift (ok true)))
        (port_access-ok port raw_info rax rip size p)

  pub handle_exit-memory :
      (gpa rip size : ℕ) (p : Platform)
      → handle_exit host (memory gpa rip size) p
        ≡ (returned (ok true), (handle_exit host (memory gpa rip size) p).1)
  unfolding handle_exit check call
  handle_exit-memory gpa rip size p = rw (willing p.events _) refl

  -- A round of the loop, after which the loop goes on.
  pub round-goes_on :
      (e : Exit) (rounds : ℕ) (p : Platform)
      → host.exit p.events ≡ e
      → (handle_exit host e (record_event run_vcpu p)).0 ≡ returned (ok true)
      → run_loop host (suc rounds) p
        ≡ run_loop host rounds (handle_exit host e (record_event run_vcpu p)).1
  unfolding run_loop
  round-goes_on e rounds p exits goes = rw (run_once-ok e p exits) (
      ap
        (λ r.
          pass_on (r, (handle_exit host e (record_event run_vcpu p)).1)
            (λ goes_on. if goes_on then run_loop host rounds else lift (ok tt)))
        goes)

  pub round-ends :
      (e : Exit) (rounds : ℕ) (p : Platform)
      → host.exit p.events ≡ e
      → (handle_exit host e (record_event run_vcpu p)).0 ≡ returned (ok false)
      → run_loop host (suc rounds) p
        ≡ (returned (ok tt), (handle_exit host e (record_event run_vcpu p)).1)
  unfolding run_loop
  round-ends e rounds p exits ends = rw (run_once-ok e p exits) (
      ap
        (λ r.
          pass_on (r, (handle_exit host e (record_event run_vcpu p)).1)
            (λ goes_on. if goes_on then run_loop host rounds else lift (ok tt)))
        ends)
