-- ===== src/Commands/Guest.antt =====
-- `hyperpod start` on Windows, from hyperpod/src/commands/start.rs to the end of the virtual machine.
use hyper_pod.Base.{ℕ, ◌≡◌, ◌≢◌, ◌⊎◌, inl, inr, ap, sym, subst, List, []}
use hyper_pod.Whpx.Partition.{Platform, Host}
use hyper_pod.Whpx.Run.{System, run_vm}
use hyper_pod.Whpx.Resources.{before, freed, phase_of, InPhase, Ends}
use hyper_pod.Whpx.Release.{run_vm-Ends}
use hyper_pod.Commands.{start, Files, main}
use hyper_pod.Commands.Start.{main-IsGuarded}

-- Let the platform give a created partition a handle other than 0. Whatever the configuration and the
-- guest are, when `hyperpod start` on Windows has returned, in success, error or panic, it has acquired
-- nothing or released everything in the order of the protocol.
pub start-Ends :
    (host : Host) (sys : System) (rounds : ℕ) (files : Files) (path : List ℕ) (p : Platform)
    → host.handle ≢ 0
    → p.events ≡ []
    → Ends
        (λ q. InPhase before q ⊎ InPhase freed q)
        (main files (run_vm host sys rounds) (start path) p)
unfolding Ends phase_of
start-Ends host sys rounds files path p handle idle =
    elim (main-IsGuarded files (run_vm host sys rounds) path p) [
      | inl (cfg, loaded, admissible, same) ↦
          subst (λ r. Ends (λ q. InPhase before q ⊎ InPhase freed q) r) (sym same)
            (run_vm-Ends host sys rounds cfg p handle idle)
      | inr (r, failed, same) ↦
          subst (λ o. Ends (λ q. InPhase before q ⊎ InPhase freed q) o) (sym same)
            (inl (ap phase_of idle))
    ]
