-- ===== src/Whpx/Resources.antt =====
-- The resources of `run_vm`, hyperpod/src/vmm/windows/vm.rs: the guest's memory, the partition that it is
-- mapped into, and the monitor's thread.
use hyper_pod.Base.{
  ℕ, zero, suc, ◌≡◌, refl, ap, ◌∙◌, Bool, ◌&&◌, true, false, Option, some, List, [], ◌∷◌,
  if◌then◌else◌, Outcome, ok, err, panic,
}
use hyper_pod.Vm.Ending.{Ending, still_running, returned, Run, lift, pass_on, ◌>>=◌}
use hyper_pod.Serial.{handles}
use hyper_pod.Whpx.{Name, Value}
use hyper_pod.Whpx.Partition.{
  Event, Exit, none, halt, unrecoverable, canceled, other, io, memory, Platform, Host, record_event,
  call, run_once,
}
use hyper_pod.Whpx.Loop.{is_write, port_access, handle_exit, run_loop}
use hyper_pod.Whpx.Run.{finally_do}

-- The protocol that the events have to follow: memory first, then a partition with it, to which all
-- calls go, a monitor that is told to stop, then no partition, then no memory.
pub data Phase : Type 0 where
  before allocated open_partition monitored stopped deleted freed : Phase

unfoldable pub step : Event → Phase → Option Phase
step Event.allocate before = some allocated
step Event.create allocated = some open_partition
step Event.create_failed allocated = some allocated
step Event.start_monitor open_partition = some monitored
step Event.stop_monitor monitored = some stopped
step Event.delete open_partition = some deleted
step Event.delete stopped = some deleted
step Event.free allocated = some freed
step Event.free deleted = some freed
step Event.setup open_partition = some open_partition
step (Event.map_memory n) open_partition = some open_partition
step (Event.create_vcpu n) open_partition = some open_partition
step (Event.set_property x) open_partition = some open_partition
step (Event.set_registers rs) open_partition = some open_partition
step Event.run_vcpu monitored = some monitored
step (Event.set_registers rs) monitored = some monitored
step _ _ = Option.none

unfoldable pub step_from : Event → Option Phase → Option Phase
step_from e Option.none = Option.none
step_from e (some ph) = step e ph

-- The phase after a list of events, the latest first; `none` is a breach of the protocol.
unfoldable pub phase_of : List Event → Option Phase
phase_of [] = some before
phase_of (e ∷ es) = step_from e (phase_of es)

abbrev pub InPhase : Phase → Platform → Type 0
InPhase ph p = phase_of p.events ≡ some ph

-- Code that still runs has its monitor, its partition and its memory; code that has returned `IsEnd`.
unfoldable pub Ends {ℓ} : {A : Type ℓ} → (Platform → Type 0) → Ending A × Platform → Type 0
Ends IsEnd (still_running, p) = InPhase monitored p
Ends IsEnd (returned r, p) = IsEnd p

abbrev pub Goes : {A : Type 0} → (Platform → Type 0) → (Platform → Type 0) → Run Platform A → Type 0
Goes IsStart IsEnd m = (p : Platform) → IsStart p → Ends IsEnd (m p)

abbrev pub Keeps : {A : Type 0} → Phase → Run Platform A → Type 0
Keeps ph m = Goes (InPhase ph) (InPhase ph) m

pub pass_on-Ends :
    {A B : Type 0} {IsMid IsEnd : Platform → Type 0} (k : A → Run Platform B)
    (r : Ending A × Platform)
    → Ends IsMid r
    → ((q : Platform) → IsMid q → IsEnd q)
    → ((x : A) → Goes IsMid IsEnd (k x))
    → Ends IsEnd (pass_on r k)
unfolding Ends
pass_on-Ends k (still_running, p) h weaken after = h
pass_on-Ends k (returned (ok x), p) h weaken after = after x p h
pass_on-Ends k (returned (err e), p) h weaken after = weaken p h
pass_on-Ends k (returned panic, p) h weaken after = weaken p h

pub finally_do-Ends :
    {A : Type 0} {IsMid : Platform → Type 0} (IsEnd : Platform → Type 0)
    (release : Platform → Platform) (r : Ending A × Platform)
    → Ends IsMid r
    → ((q : Platform) → IsMid q → IsEnd (release q))
    → Ends IsEnd (finally_do release r)
unfolding Ends
finally_do-Ends IsEnd release (still_running, p) h next = h
finally_do-Ends IsEnd release (returned r, p) h next = next p h

pub if-Ends :
    {A : Type 0} (IsEnd : Platform → Type 0) (r s : Ending A × Platform) (b : Bool)
    → Ends IsEnd r
    → Ends IsEnd s
    → Ends IsEnd (if b then r else s)
if-Ends IsEnd r s true hr hs = hr
if-Ends IsEnd r s false hr hs = hs

-- What keeps the phase, and goes on from it.
pub then_Goes :
    {A B : Type 0} {ph : Phase} {IsEnd : Platform → Type 0} (m : Run Platform A)
    (k : A → Run Platform B)
    → Keeps ph m
    → ((q : Platform) → InPhase ph q → IsEnd q)
    → ((x : A) → Goes (InPhase ph) IsEnd (k x))
    → Goes (InPhase ph) IsEnd (m >>= k)
then_Goes m k keeps weaken after p h = pass_on-Ends k (m p) (keeps p h) weaken after

if-Keeps :
    {A : Type 0} {ph : Phase} (m n : Run Platform A) (b : Bool)
    → Keeps ph m
    → Keeps ph n
    → Keeps ph (if b then m else n)
if-Keeps m n true hm hn = hm
if-Keeps m n false hm hn = hn

pub lift-Keeps : {A : Type 0} (ph : Phase) (r : Outcome A) → Keeps ph (lift r)
unfolding Ends
lift-Keeps ph r p h = h

pub record_event-InPhase :
    {a b : Phase} (e : Event) (p : Platform)
    → step e a ≡ some b
    → InPhase a p
    → InPhase b (record_event e p)
unfolding phase_of step_from
record_event-InPhase e p moves h = ap (step_from e) h ∙ moves

module _ (host : Host) where
  pub call-Keeps : (ph : Phase) (e : Event) → step e ph ≡ some ph → Keeps ph (call host e)
  unfolding Ends call
  call-Keeps ph e moves p h = record_event-InPhase e p moves h

  run_once-Keeps : Keeps monitored (run_once host)
  unfolding run_once step
  run_once-Keeps p h =
      then_Goes (call host Event.run_vcpu) _ (call-Keeps monitored Event.run_vcpu refl) (λ q hq. hq)
        (λ x. lift-Keeps monitored (ok (host.exit p.events))) p h

  advance_rip-Keeps :
      (rs : List (Name × Value)) → Keeps monitored (call host (Event.set_registers rs))
  unfolding step
  advance_rip-Keeps rs = call-Keeps monitored (Event.set_registers rs) refl

  port_access-Keeps :
      (port raw_info rax rip length : ℕ)
      → Keeps monitored (port_access host port raw_info rax rip length)
  unfolding port_access
  port_access-Keeps port raw_info rax rip length p h =
      if-Ends _ _ _ (handles port && is_write raw_info) (advance_rip-Keeps _ _ h)
        (if-Ends _ _ _ (handles port) (advance_rip-Keeps _ p h) (advance_rip-Keeps _ p h))

  handle_exit-Keeps : (e : Exit) → Keeps monitored (handle_exit host e)
  unfolding handle_exit
  handle_exit-Keeps none = lift-Keeps monitored (ok true)
  handle_exit-Keeps halt = lift-Keeps monitored (ok false)
  handle_exit-Keeps unrecoverable = lift-Keeps monitored (ok false)
  handle_exit-Keeps canceled = lift-Keeps monitored (ok true)
  handle_exit-Keeps other = lift-Keeps monitored (ok false)
  handle_exit-Keeps (io port raw_info rax rip length) =
      then_Goes (port_access host port raw_info rax rip length) _
        (port_access-Keeps port raw_info rax rip length) (λ q hq. hq)
        (λ x. lift-Keeps monitored (ok true))
  handle_exit-Keeps (memory gpa rip length) =
      then_Goes (call host (Event.set_registers _)) _ (advance_rip-Keeps _) (λ q hq. hq)
        (λ x. lift-Keeps monitored (ok true))

  pub run_loop-Keeps : (rounds : ℕ) → Keeps monitored (run_loop host rounds)
  unfolding run_loop Ends
  run_loop-Keeps zero p h = h
  run_loop-Keeps (suc rounds) p h =
      then_Goes (run_once host) _ run_once-Keeps (λ q hq. hq)
        (λ exit.
          then_Goes (handle_exit host exit) _ (handle_exit-Keeps exit) (λ q hq. hq)
            (λ goes_on.
              if-Keeps _ _ goes_on (run_loop-Keeps rounds) (lift-Keeps monitored (ok tt))))
        p h
